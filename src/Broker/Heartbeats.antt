-- ===== src/Broker/Heartbeats.antt =====
-- src/core/broker.cpp: start, stop and the thread of heartbeat_loop.
use streaming_platform.Prelude.{
  ℕ, ◌+◌, ◌-◌, ◌≡◌, refl, Bool, true, false, not, inl, inr, Bool-cases, List, [], ◌∷◌,
  if◌then◌else◌,
}

-- running_, and the threads that run heartbeat_loop and have not been joined
pub record Heart : Type 0 where
  pub running : Bool
  pub threads : ℕ

pub data Order : Type 0 where
  start_order stop_order : Order

abbrev pub stopped_heart : Heart
stopped_heart = record { running = false; threads = 0 }

-- running_.exchange(true)
unfoldable pub start : Heart → Heart
start h = if h.running then h else record { running = true; threads = h.threads + 1 }

-- running_.exchange(false), and the join of the thread, whose loop then ends
unfoldable pub stop : Heart → Heart
stop h = if not h.running then h else record { running = false; threads = h.threads - 1 }

unfoldable pub obey : List Order → Heart → Heart
obey [] h = h
obey (start_order ∷ os) h = obey os (start h)
obey (stop_order ∷ os) h = obey os (stop h)

abbrev pub beating : Bool → ℕ
beating true = 1
beating false = 0

start-beating :
    (h : Heart) → h.threads ≡ beating h.running → (start h).threads ≡ beating (start h).running
unfolding start
start-beating h e = elim (Bool-cases h.running) [
  | inl on ↦ rw on (rw on at e)
  | inr off ↦ let none : h.threads ≡ 0 = rw off at e in rw (off, none) refl
]

stop-beating :
    (h : Heart) → h.threads ≡ beating h.running → (stop h).threads ≡ beating (stop h).running
unfolding stop
stop-beating h e = elim (Bool-cases h.running) [
  | inl on ↦ let one : h.threads ≡ 1 = rw on at e in rw (on, one) refl
  | inr off ↦ rw off (rw off at e)
]

obey-beating_from :
    (os : List Order) (h : Heart)
    → h.threads ≡ beating h.running
    → (obey os h).threads ≡ beating (obey os h).running
unfolding obey
obey-beating_from [] h e = e
obey-beating_from (start_order ∷ os) h e = obey-beating_from os (start h) (start-beating h e)
obey-beating_from (stop_order ∷ os) h e = obey-beating_from os (stop h) (stop-beating h e)

-- After any sequence of starts and stops of a new broker, each called after the one before it has
-- returned, one heartbeat thread runs if the broker runs, and none otherwise.
pub obey-beating :
    (os : List Order) → (obey os stopped_heart).threads ≡ beating (obey os stopped_heart).running
obey-beating os = obey-beating_from os stopped_heart refl
