-- ===== src/Replication/Acks.antt =====
-- Counting acknowledgements: a follower counts once for an offset, so a quorum is that many of them.
use streaming_platform.Prelude.{
  ℕ, ◌+◌, ◌≤◌, ◌≡◌, refl, sym, ◌∙◌, subst, true, false, inl, inr, Bool, not, ◌&&◌, ◌||◌, ◌⊎◌,
  int_Key, Option, none, some, List, [], ◌∷◌, arith, leb→le, length, Bool-cases, list_eq,
  list_eq_iff, ◌==◌, if◌then◌else◌, ℤ, lookup, lookup-insert, list_Key,
}
use streaming_platform.Text.{Bytes}
use streaming_platform.Groups.{contains, or_zero, or_empty}
use streaming_platform.Groups.Ownership.{Distinct}
use streaming_platform.Replication.{
  Manager, is_leader, make_ack_key, handle_ack, count_ack, add_id, quorum, enough,
  mark_follower_failed, handle_heartbeat, maybe_elect_leader, fail_silent, mark_committed,
}
use streaming_platform.Replication.Exchange.{count_self}

-- The followers whose acknowledgement of an offset has come in.
abbrev pub acked_by : Bytes → Manager → List ℤ
acked_by key m = or_empty (lookup key m.ack_followers)

abbrev pub acks : Bytes → Manager → ℕ
acks key m = or_zero (lookup key m.ack_counts)

-- The followers of each offset are different, and at least as many as are counted.
pub record IsCounted (m : Manager) : Type 0 where
  pub distinct : (key : Bytes) → Distinct (acked_by key m)
  pub counted : (key : Bytes) → acks key m ≤ length (acked_by key m)

or_empty-insert :
    (same : Bool) (new : List ℤ) (old : Option (List ℤ))
    → or_empty (if same then some new else old) ≡ (if same then new else or_empty old)
or_empty-insert true new old = refl
or_empty-insert false new old = refl

pub acked_by-count_ack :
    (follower : ℤ) (key other : Bytes) (offset : ℕ) (m : Manager)
    → acked_by other (count_ack follower key offset m)
      ≡ (if key == other then add_id follower (acked_by key m) else acked_by other m)
unfolding count_ack
acked_by-count_ack follower key other offset m =
    elim (Bool-cases (contains follower (acked_by key m))) [
      | inl again ↦
          rw (again, lookup-insert)
            (or_empty-insert (list_eq key other) (acked_by key m) (lookup other m.ack_followers))
      | inr first ↦
          rw (first, lookup-insert)
            (or_empty-insert (list_eq key other) (follower ∷ acked_by key m)
              (lookup other m.ack_followers))
    ]

pub acked_by_self :
    (id : ℤ) (key : Bytes) (offset : ℕ) (m : Manager)
    → acked_by key (count_ack id key offset m) ≡ add_id id (acked_by key m)
acked_by_self id key offset m =
    let same : list_eq key key ≡ true = (list_eq_iff key key).1 refl in
    acked_by-count_ack id key key offset m ∙ rw same refl

or_zero-insert :
    (same : Bool) (new : ℕ) (old : Option ℕ)
    → or_zero (if same then some new else old) ≡ (if same then new else or_zero old)
or_zero-insert true new old = refl
or_zero-insert false new old = refl

pub acks-count_ack :
    (follower : ℤ) (key other : Bytes) (offset : ℕ) (m : Manager)
    → acks other (count_ack follower key offset m) ≡ (
        if contains follower (acked_by key m)
        then acks other m
        else if key == other
        then acks key m + 1
        else acks other m)
unfolding count_ack
acks-count_ack follower key other offset m =
    elim (Bool-cases (contains follower (acked_by key m))) [
      | inl again ↦ rw again refl
      | inr first ↦
          rw (first, lookup-insert)
            (or_zero-insert (list_eq key other) (acks key m + 1) (lookup other m.ack_counts))
    ]

add_id-Distinct : (i : ℤ) (ids : List ℤ) → Distinct ids → Distinct (add_id i ids)
add_id-Distinct i ids d = elim (Bool-cases (contains i ids)) [
  | inl old ↦ rw old d
  | inr new ↦ rw new (new, d)
]

length-add_id :
    (i : ℤ) (ids : List ℤ)
    → length (add_id i ids) ≡ (if contains i ids then length ids else length ids + 1)
length-add_id i ids = elim (Bool-cases (contains i ids)) [
  | inl old ↦ rw old refl
  | inr new ↦ rw new (omega arith)
]

if_same : (b : Bool) (n : ℕ) → n ≡ (if b then n else n)
if_same true n = refl
if_same false n = refl

if_mono : (b : Bool) (m n : ℕ) → m ≤ n → (if b then m else m + 1) ≤ (if b then n else n + 1)
if_mono true m n h = h
if_mono false m n h = omega arith

count_ack-IsCounted :
    (follower : ℤ) (key : Bytes) (offset : ℕ) (m : Manager)
    → IsCounted m
    → IsCounted (count_ack follower key offset m)
count_ack-IsCounted follower key offset m c = record {
  distinct = λ other. elim (Bool-cases (list_eq key other)) [
    | inl same ↦
        rw (acked_by-count_ack, same) (add_id-Distinct follower (acked_by key m) (c.distinct key))
    | inr apart ↦ rw (acked_by-count_ack, apart) (c.distinct other)
  ];
  counted = λ other. elim (Bool-cases (list_eq key other)) [
    | inl same ↦
        let e : key ≡ other = (list_eq_iff key other).0 same in
        rw (acks-count_ack, acked_by-count_ack, same, length-add_id, sym e)
          (if_mono (contains follower (acked_by key m)) (acks key m) (length (acked_by key m))
            (c.counted key))
    | inr apart ↦
        rw (acks-count_ack, acked_by-count_ack, apart)
          (subst (λ n. n ≤ length (acked_by other m))
            (if_same (contains follower (acked_by key m)) _) (c.counted other))
  ];
}

-- An acknowledgement keeps the counts right, whoever sends it and however often.
pub handle_ack-IsCounted :
    (follower : ℤ) (topic : Bytes) (partition : ℤ) (offset : ℕ) (m : Manager)
    → IsCounted m
    → IsCounted (handle_ack follower topic partition offset m)
unfolding handle_ack
handle_ack-IsCounted follower topic partition offset m c = elim (Bool-cases (is_leader m)) [
  | inl leads ↦
      rw leads (count_ack-IsCounted follower (make_ack_key topic partition offset) offset m c)
  | inr other ↦ rw other c
]

-- An acknowledgement that has come in: what `handle_ack` is called with.
pub record Ack : Type 0 where
  pub follower : ℤ
  pub topic : Bytes
  pub partition : ℤ
  pub offset : ℕ

-- What a manager goes through: an acknowledgement; the start of replicate_message or replicate_batch,
-- where a leader counts itself; a peer that failed, a heartbeat, an election and a commit.
pub data Event : Type 0 where
  acknowledged : Ack → Event
  counts_itself : Bytes → ℤ → ℕ → Event
  fails : ℤ → Event
  beats : ℤ → ℕ → Event
  elects : ℕ → Event
  commits : Bytes → ℤ → ℕ → Event

unfoldable pub take_event : Event → Manager → Manager
take_event (acknowledged a) m = handle_ack a.follower a.topic a.partition a.offset m
take_event (counts_itself topic partition offset) m =
    if is_leader m then count_self (make_ack_key topic partition offset) m else m
take_event (fails id) m = mark_follower_failed id m
take_event (beats id now) m = handle_heartbeat id now m
take_event (elects now) m = maybe_elect_leader now m
take_event (commits topic partition offset) m = mark_committed topic partition offset m

unfoldable pub run_events : List Event → Manager → Manager
run_events [] m = m
run_events (e ∷ history) m = run_events history (take_event e m)

-- Whether the event is an acknowledgement by the broker `f` under the key, or is where `f`, the broker
-- `self`, counts itself under it.
abbrev pub is_from : ℤ → Bytes → ℤ → Event → Bool
is_from self key f (acknowledged a) =
    (make_ack_key a.topic a.partition a.offset == key) && (a.follower == f)
is_from self key f (counts_itself topic partition offset) =
    (make_ack_key topic partition offset == key) && (self == f)
is_from self key f _ = false

abbrev pub is_backed : ℤ → Bytes → ℤ → List Event → Bool
is_backed self key f [] = false
is_backed self key f (e ∷ history) = is_from self key f e || is_backed self key f history

-- The test of maybe_elect_leader.
abbrev sees_leader : ℕ → Manager → Bool
sees_leader now m =
    not (m.config.leader_broker_id == m.config.broker_id)
    && not (contains m.config.leader_broker_id (fail_silent now m.last_heartbeat m.failed_peers))

-- What the other events keep: the counts, the followers that are counted, who the broker is and how
-- many a quorum needs.
record SameCounts (m m' : Manager) : Type 0 where
  counts : m'.ack_counts ≡ m.ack_counts
  followers : m'.ack_followers ≡ m.ack_followers
  self : m'.config.broker_id ≡ m.config.broker_id
  size : quorum m' ≡ quorum m

-- One event: the counts stay right, and who is counted was so before or is it by this event.
record Counting (e : Event) (m m' : Manager) : Type 0 where
  right : IsCounted m → IsCounted m'
  self : m'.config.broker_id ≡ m.config.broker_id
  size : quorum m' ≡ quorum m
  source :
      (key : Bytes) (f : ℤ)
      → contains f (acked_by key m') ≡ true
      → is_from m.config.broker_id key f e ≡ true ⊎ contains f (acked_by key m) ≡ true

pub handle_ack-quorum :
    (f : ℤ) (topic : Bytes) (p : ℤ) (offset : ℕ) (m : Manager)
    → quorum (handle_ack f topic p offset m) ≡ quorum m
unfolding handle_ack count_ack
handle_ack-quorum f topic p offset m = elim (Bool-cases (is_leader m)) [
  | inr other ↦ rw other refl
  | inl leads ↦ elim (Bool-cases (contains f (acked_by (make_ack_key topic p offset) m))) [
    | inl again ↦ rw (leads, again) refl
    | inr first ↦ rw (leads, first) refl
  ]
]

-- A history of events.
record Counted (history : List Event) (m m' : Manager) : Type 0 where
  right : IsCounted m → IsCounted m'
  size : quorum m' ≡ quorum m
  source :
      (key : Bytes) (f : ℤ)
      → contains f (acked_by key m') ≡ true
      → is_backed m.config.broker_id key f history ≡ true ⊎ contains f (acked_by key m) ≡ true

pub enough-leb : (q : ℕ) (n : Option ℕ) → 1 ≤ q → enough q n ≡ true → q ≤ or_zero n
enough-leb q none h e = ground arith
enough-leb q (some n) h e = leb→le q n e
