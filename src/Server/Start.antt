-- ===== src/Server/Start.antt =====
-- src/network/tcp_server.cpp: the constructor and `start`, with the calls of the operating system as
-- an argument.
use streaming_platform.Prelude.{
  ℕ, ◌≤◌, ◌≡◌, refl, ◌⊎◌, inl, inr, Bool, true, false, not, Option, none, some, List, [], ◌∷◌,
  arith, nat_eq, max, if◌then◌else◌,
}
use streaming_platform.Text.{Bytes, codes}
use streaming_platform.Server.{TcpServer, started}

-- What `socket` gives, and whether `bind` and `listen` succeed.
pub record Setup : Type 0 where
  pub descriptor : Option ℕ
  pub binds : Bool
  pub listens : Bool

-- An exception with its text and the descriptors that were closed, or the listening descriptor and
-- the server.
pub data Start : Type 0 where
  throws : Bytes → List ℕ → Start
  listens_on : ℕ → TcpServer → Start

-- worker_count_, from the argument of the constructor and hardware_concurrency
unfoldable pub workers_for : ℕ → ℕ → ℕ
workers_for worker_count hardware = if nat_eq worker_count 0 then max 1 hardware else worker_count

abbrev pub start_on : Option ℕ → Bool → Bool → ℕ → Start
start_on none binds listens workers = throws (codes "FAILED TO CREATE SOCKET") []
start_on (some fd) binds listens workers =
    if not binds
    then throws (codes "BIND FAILED") (fd ∷ [])
    else if not listens
    then throws (codes "LISTEN FAILED") (fd ∷ [])
    else listens_on fd (started workers)

unfoldable pub start : Setup → ℕ → ℕ → Start
start s worker_count hardware =
    start_on s.descriptor s.binds s.listens (workers_for worker_count hardware)

abbrev pub descriptors : Option ℕ → List ℕ
descriptors none = []
descriptors (some fd) = fd ∷ []

-- A call of the operating system failed.
abbrev pub Fails : Setup → Type 0
Fails s = (s.descriptor ≡ none) ⊎ (s.binds ≡ false) ⊎ (s.listens ≡ false)

-- What a start leaves of the descriptor that it got, and the threads of the server.
pub data IsStart (s : Setup) (worker_count hardware : ℕ) : Start → Type 0 where
  failed :
      (text : Bytes)
      → Fails s
      → IsStart s worker_count hardware (throws text (descriptors s.descriptor))
  serving :
      (fd : ℕ) (server : TcpServer)
      → s.descriptor ≡ some fd
      → s.binds ≡ true
      → s.listens ≡ true
      → server.running ≡ true
      → server.accepting ≡ true
      → 1 ≤ server.idle
      → (1 ≤ worker_count → server.idle ≡ worker_count)
      → (worker_count ≡ 0 → hardware ≤ server.idle)
      → IsStart s worker_count hardware (listens_on fd server)

workers_for-positive : (n hardware : ℕ) → 1 ≤ workers_for n hardware
unfolding workers_for
workers_for-positive n hardware = ground arith

workers_for-asked : (n hardware : ℕ) → 1 ≤ n → workers_for n hardware ≡ n
unfolding workers_for
workers_for-asked n hardware h = ground arith

workers_for-hardware : (n hardware : ℕ) → n ≡ 0 → hardware ≤ workers_for n hardware
unfolding workers_for
workers_for-hardware n hardware h = ground arith

start_on-IsStart :
    (d : Option ℕ) (binds listens : Bool) (n hardware : ℕ)
    → IsStart
        (record { descriptor = d; binds = binds; listens = listens })
        n
        hardware
        (start_on d binds listens (workers_for n hardware))
start_on-IsStart none binds listens n hardware = failed (codes "FAILED TO CREATE SOCKET") (inl refl)
start_on-IsStart (some fd) false listens n hardware = failed (codes "BIND FAILED") (inr (inl refl))
start_on-IsStart (some fd) true false n hardware = failed (codes "LISTEN FAILED") (inr (inr refl))
start_on-IsStart (some fd) true true n hardware =
    serving fd (started (workers_for n hardware)) refl refl refl refl refl
      (workers_for-positive n hardware) (workers_for-asked n hardware)
      (workers_for-hardware n hardware)

-- Starting a server throws only if `socket`, `bind` or `listen` failed, and then the descriptor that
-- `socket` gave is closed once. Otherwise all three succeeded, and the server listens on that
-- descriptor, runs and accepts, with at least one worker: as many as were asked for, and where none
-- were, at least as many as the hardware has threads.
pub start-IsStart :
    (s : Setup) (worker_count hardware : ℕ)
    → IsStart s worker_count hardware (start s worker_count hardware)
unfolding start
start-IsStart s worker_count hardware =
    start_on-IsStart s.descriptor s.binds s.listens worker_count hardware
