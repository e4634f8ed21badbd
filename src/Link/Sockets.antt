-- ===== src/Link/Sockets.antt =====
-- No descriptor is lost, and none is closed twice.
use streaming_platform.Prelude.{
  ℕ, ◌≡◌, refl, ◌⊎◌, Bool, true, false, inl, inr, Bool-cases, Option, none, some, List, [], ◌∷◌,
}
use streaming_platform.Text.{Bytes}
use streaming_platform.Frame.{write_frame, read_frame}
use streaming_platform.Link.{
  Dial, Line, Connected, connect_to_host, connect_with, send_one_shot_to_peer, send_on,
  await_response, exchange_with_leader, forward_on,
}

abbrev pub descriptors : Option ℕ → List ℕ
descriptors none = []
descriptors (some fd) = fd ∷ []

-- A failed connect has closed what it opened.
abbrev lost : Option ℕ → Connected
lost fd = record { socket_fd = none; closed = descriptors fd }

abbrev open_socket : ℕ → Connected
open_socket fd = record { socket_fd = some fd; closed = [] }

connect_with-cases :
    (d : Dial) (s : Option ℕ)
    → (connect_with d s ≡ lost s) ⊎ ((fd : ℕ) × (s ≡ some fd) × (connect_with d s ≡ open_socket fd))
connect_with-cases d none = inl refl
connect_with-cases d (some fd) = elim (Bool-cases d.is_address) [
  | inr other ↦ inl (rw other refl)
  | inl address ↦ elim (Bool-cases d.connects) [
    | inr fails ↦ inl (rw (address, fails) refl)
    | inl connects ↦ inr (fd, refl, rw (address, connects) refl)
  ]
]

await_response-closed :
    (line : Line) (fd : ℕ) (sent : Bytes) → (await_response line fd sent).closed ≡ fd ∷ []
await_response-closed line fd sent = elim (Bool-cases (read_frame line.reads line.stream).ok) [
  | inl ok ↦ rw ok refl
  | inr fails ↦ rw fails refl
]

send_on-closed :
    (line : Line) (payload : Bytes) (wants : Bool) (fd : ℕ)
    → (send_on line payload wants (open_socket fd)).closed ≡ fd ∷ []
send_on-closed line payload true fd = elim (Bool-cases (write_frame line.writes payload).ok) [
  | inr fails ↦ rw fails refl
  | inl ok ↦ rw ok (await_response-closed line fd (write_frame line.writes payload).sent)
]
send_on-closed line payload false fd = elim (Bool-cases (write_frame line.writes payload).ok) [
  | inr fails ↦ rw fails refl
  | inl ok ↦ rw ok refl
]

forward_on-closed :
    (line : Line) (payload : Bytes) (fd : ℕ)
    → (forward_on line payload (open_socket fd)).1 ≡ fd ∷ []
forward_on-closed line payload fd = elim (Bool-cases (write_frame line.writes payload).ok) [
  | inr fails ↦ rw fails refl
  | inl ok ↦ elim (Bool-cases (read_frame line.reads line.stream).ok) [
    | inr late ↦ rw (ok, late) refl
    | inl read ↦ rw (ok, read) refl
  ]
]

-- What the two exchanges leave of the descriptors.
pub record Closed (line : Line) (payload : Bytes) : Type 0 where
  pub asked : (send_one_shot_to_peer line payload true).closed ≡ descriptors line.dial.descriptor
  pub told : (send_one_shot_to_peer line payload false).closed ≡ descriptors line.dial.descriptor
  pub forwarded : (exchange_with_leader line payload).1 ≡ descriptors line.dial.descriptor

-- Whatever the operating system answers: an exchange with a peer, with or without a response, and an
-- exchange with the leader each close the descriptor that `socket` gave exactly once, and no other.
pub send_one_shot_to_peer-Closed : (line : Line) (payload : Bytes) → Closed line payload
unfolding send_one_shot_to_peer exchange_with_leader connect_to_host
send_one_shot_to_peer-Closed line payload =
    elim (connect_with-cases line.dial line.dial.descriptor) [
      | inl fails ↦ record {
        asked = rw fails refl;
        told = rw fails refl;
        forwarded = rw fails refl;
      }
      | inr (fd, given, connects) ↦ record {
        asked = rw (connects, given) (send_on-closed line payload true fd);
        told = rw (connects, given) (send_on-closed line payload false fd);
        forwarded = rw (connects, given) (forward_on-closed line payload fd);
      }
    ]
