-- ===== src/Server/Queue.antt =====
-- The queue of connections under its threads, as a step relation.
use streaming_platform.Prelude.{
  ℕ, ◌+◌, ◌-◌, ◌<◌, ◌*◌, nat_eq, ◌≡◌, refl, sym, ap, ap₂, ◌∙◌, ◌⊎◌, inl, inr, Bool, true, false,
  List, [], ◌∷◌, ◌++◌, append-nil, append_assoc, arith, length, if◌then◌else◌,
}
use streaming_platform.Server.{
  TcpServer, started, accept_client, end_accepting, Poll, nobody, fails, client, accept_turn,
  take_pending, worker_turn, end_client, request_stop, close_pending,
}

-- A step of one thread: `stop` closes what is left once it has joined the others.
pub data Step : TcpServer → TcpServer → Type 0 where
  accepts : {s : TcpServer} (socket : ℕ) → s.accepting ≡ true → Step s (accept_client socket s)
  ends_accepting : {s : TcpServer} → Step s (end_accepting s)
  turns : {s : TcpServer} → 0 < s.idle → Step s (worker_turn s)
  returns : {s : TcpServer} → 0 < s.busy → Step s (end_client s)
  stops : {s : TcpServer} → Step s (request_stop s)
  closes :
      {s : TcpServer}
      → s.running ≡ false
      → s.accepting ≡ false
      → s.idle ≡ 0
      → s.busy ≡ 0
      → Step s (close_pending s)

pub data Reach (worker_count : ℕ) : TcpServer → Type 0 where
  starts : Reach worker_count (started worker_count)
  steps : {s t : TcpServer} → Reach worker_count s → Step s t → Reach worker_count t

-- A turn of accept_loop is made of these steps.
accept_turn-Reach :
    {n : ℕ} {s : TcpServer} (found : Poll)
    → s.accepting ≡ true
    → Reach n s
    → Reach n (accept_turn found s)
unfolding accept_turn
accept_turn-Reach nobody open_loop r = steps r ends_accepting
accept_turn-Reach fails open_loop r = steps r ends_accepting
accept_turn-Reach (client socket) open_loop r =
    steps (steps r (accepts socket open_loop)) ends_accepting

pub record IsFair (s : TcpServer) : Type 0 where
  pub order : s.accepted ≡ s.taken ++ (s.closed ++ s.pending_clients)
  pub late : (s.closed ≡ []) ⊎ (s.idle + s.busy ≡ 0)

either-IsFair : (b : Bool) (x y : TcpServer) → IsFair x → IsFair y → IsFair (if b then x else y)
either-IsFair true x y f g = f
either-IsFair false x y f g = g

turn-IsFair :
    (s : TcpServer) (pending : List ℕ)
    → s.pending_clients ≡ pending
    → 0 < s.idle
    → IsFair s
    → IsFair (take_pending pending s)
turn-IsFair s [] e w f =
    either-IsFair s.running s (record s { idle = s.idle - 1 }) f
      (record { order = f.order; late = none_left f.late })
  where
    none_left :
        (s.closed ≡ []) ⊎ (s.idle + s.busy ≡ 0) → (s.closed ≡ []) ⊎ (s.idle - 1 + s.busy ≡ 0)
    none_left (inl c) = inl c
    none_left (inr z) = inr (omega arith)
turn-IsFair s (socket ∷ rest) e w f = turn_taken f.late
  where
    turn_taken : (s.closed ≡ []) ⊎ (s.idle + s.busy ≡ 0) → IsFair (take_pending (socket ∷ rest) s)
    turn_taken (inr z) = absurd (omega arith)
    turn_taken (inl c) = record {
      order =
          f.order
          ∙ ap₂ (λ (x y : List ℕ). s.taken ++ (x ++ y)) c e
          ∙ sym (append_assoc s.taken (socket ∷ []) rest)
          ∙ ap (λ (x : List ℕ). (s.taken ++ socket ∷ []) ++ (x ++ rest)) (sym c);
      late = inl c;
    }

Step-IsFair : {s t : TcpServer} → Step s t → IsFair s → IsFair t
unfolding accept_client end_accepting worker_turn end_client request_stop close_pending
Step-IsFair (accepts {s} socket h) f = record {
  order =
      ap (λ t. t ++ socket ∷ []) f.order
      ∙ append_assoc s.taken (s.closed ++ s.pending_clients) (socket ∷ [])
      ∙ ap (λ t. s.taken ++ t) (append_assoc s.closed s.pending_clients (socket ∷ []));
  late = f.late;
}
Step-IsFair (ends_accepting) f = record { order = f.order; late = f.late }
Step-IsFair (turns {s} w) f =
    let some_idle : nat_eq s.idle 0 ≡ false = ground arith in
    rw some_idle (turn-IsFair s s.pending_clients refl w f)
Step-IsFair (returns {s} w) f =
    let some_busy : nat_eq s.busy 0 ≡ false = ground arith in
    rw some_busy (record {
      order = f.order;
      late = elim f.late [ inl c ↦ inl c | inr z ↦ absurd (omega arith) ];
    })
Step-IsFair stops f = record { order = f.order; late = f.late }
Step-IsFair (closes {s} r a w v) f = record {
  order = f.order ∙ ap (λ t. s.taken ++ t) (sym (append-nil (s.closed ++ s.pending_clients)));
  late = inr (omega arith);
}

Reach-IsFair : {n : ℕ} {s : TcpServer} → Reach n s → IsFair s
Reach-IsFair starts = record { order = refl; late = inl refl }
Reach-IsFair (steps r st) = Step-IsFair st (Reach-IsFair r)

-- In every state that the threads can reach, in any interleaving: the connections that were
-- accepted are, in the order of their arrival and each once, those that workers have taken, those
-- that `stop` has closed and those that wait.
pub accepted_order :
    {worker_count : ℕ} {s : TcpServer}
    → Reach worker_count s
    → s.accepted ≡ s.taken ++ (s.closed ++ s.pending_clients)
accepted_order r = (Reach-IsFair r).order

-- After `stop` has ended the accepting thread, what the workers do: one at the queue has its turn, or
-- handle_client of one returns.
pub data Turn : Type 0 where
  at_queue returning : Turn

unfoldable pub take_turn : Turn → TcpServer → TcpServer
take_turn at_queue s = worker_turn s
take_turn returning s = end_client s

unfoldable pub run_turns : List Turn → TcpServer → TcpServer
run_turns [] s = s
run_turns (t ∷ ts) s = run_turns ts (take_turn t s)

-- A worker that has the turn is there.
abbrev pub CanTurn : Turn → TcpServer → Type 0
CanTurn at_queue s = 0 < s.idle
CanTurn returning s = 0 < s.busy

abbrev pub CanRun : List Turn → TcpServer → Type 0
CanRun [] s = Unit {0}
CanRun (t ∷ ts) s = CanTurn t s × CanRun ts (take_turn t s)

-- How many turns are left: two for a connection that waits, two for a worker with a client, and one
-- for an idle worker.
abbrev pub turns_left : TcpServer → ℕ
turns_left s = 2 * length s.pending_clients + (s.idle + 2 * s.busy)

-- From `s` to `t` in `n` turns.
record Between (n : ℕ) (s t : TcpServer) : Type 0 where
  stopped : t.running ≡ false
  left : n + turns_left t ≡ turns_left s
  order : t.taken ++ t.pending_clients ≡ s.taken ++ s.pending_clients
  manned : (t.pending_clients ≡ []) ⊎ (0 < t.idle + t.busy)
