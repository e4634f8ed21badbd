-- ===== src/Link.antt =====
-- Connections to other brokers: connect_to_host and the exchange of forward_to_leader in
-- src/core/broker.cpp, and send_one_shot_to_peer in src/replication/replication_manager.cpp.
-- What the operating system answers is an argument; `closed` lists the descriptors that were closed.
pub mod Sockets
pub mod Delivery
pub mod Forwarding
mod Examples
mod ForwardingExamples
use streaming_platform.Prelude.{
  ℕ, Bool, true, false, not, Option, none, some, List, [], ◌∷◌, ℤ, if◌then◌else◌,
}
use streaming_platform.Text.{Bytes}
use streaming_platform.Protocol.Message.{Request}
use streaming_platform.Protocol.Codec.{encode_request}
use streaming_platform.Config.{LeaderEndpoint, ClusterPeer}
use streaming_platform.Frame.{write_frame, read_frame}
use streaming_platform.Broker.{Network, Forwarded, unreachable, write_failed, read_failed, answered}

-- The descriptor that `socket` gives, if any, whether `inet_pton` reads the host as an address, and
-- whether `connect` succeeds.
pub record Dial : Type 0 where
  pub descriptor : Option ℕ
  pub is_address : Bool
  pub connects : Bool

-- A connection to come: the dial, what each `writev` and each `recv` moves, and the bytes that the
-- other end sends.
pub record Line : Type 0 where
  pub dial : Dial
  pub writes : List ℕ
  pub reads : List ℕ
  pub stream : Bytes

-- The connected descriptor, if any.
pub record Connected : Type 0 where
  pub socket_fd : Option ℕ
  pub closed : List ℕ

abbrev pub connect_with : Dial → Option ℕ → Connected
connect_with d none = record { socket_fd = none; closed = [] }
connect_with d (some fd) =
    if not d.is_address
    then record { socket_fd = none; closed = fd ∷ [] }
    else if not d.connects
    then record { socket_fd = none; closed = fd ∷ [] }
    else record { socket_fd = some fd; closed = [] }

unfoldable pub connect_to_host : Dial → Connected
connect_to_host d = connect_with d d.descriptor

-- What send_one_shot_to_peer returns, the response that it stores, the bytes that went out, and the
-- descriptors that it closed.
pub record OneShot : Type 0 where
  pub ok : Bool
  pub response : Option Bytes
  pub sent : Bytes
  pub closed : List ℕ

abbrev pub await_response : Line → ℕ → Bytes → OneShot
await_response line fd sent =
    let i = read_frame line.reads line.stream in
    if not i.ok
    then record { ok = false; response = none; sent = sent; closed = fd ∷ [] }
    else record { ok = true; response = some i.buffer; sent = sent; closed = fd ∷ [] }

abbrev pub send_on : Line → Bytes → Bool → Connected → OneShot
send_on line payload wants_response c = elim c.socket_fd [
  | none ↦ record { ok = false; response = none; sent = []; closed = c.closed }
  | some fd ↦
      let out = write_frame line.writes payload in
      if not out.ok
      then record { ok = false; response = none; sent = out.sent; closed = fd ∷ [] }
      else if wants_response
      then await_response line fd out.sent
      else record { ok = true; response = none; sent = out.sent; closed = fd ∷ [] }
]

-- The source connects with the steps of connect_to_host written out. `wants_response` is
-- `response_payload != nullptr`.
unfoldable pub send_one_shot_to_peer : Line → Bytes → Bool → OneShot
send_one_shot_to_peer line payload wants_response =
    send_on line payload wants_response (connect_to_host line.dial)

abbrev pub forward_on : Line → Bytes → Connected → Forwarded × List ℕ
forward_on line payload c = elim c.socket_fd [
  | none ↦ (unreachable, c.closed)
  | some fd ↦
      let out = write_frame line.writes payload in
      let i = read_frame line.reads line.stream in
      if not out.ok
      then (write_failed, fd ∷ [])
      else if not i.ok
      then (read_failed, fd ∷ [])
      else (answered i.buffer, fd ∷ [])
]

-- forward_to_leader behind the leader's endpoint, and the descriptors that it closed.
unfoldable pub exchange_with_leader : Line → Bytes → Forwarded × List ℕ
exchange_with_leader line payload = forward_on line payload (connect_to_host line.dial)

-- The network that a broker sees, when `peer` and `leader` are the connections that it will have.
unfoldable pub network_of :
    (ClusterPeer → Bytes → Line) → (LeaderEndpoint → Bytes → Line) → (ClusterPeer → ℕ) → Network
network_of peer leader clock = record {
  reply = λ p payload. (send_one_shot_to_peer (peer p payload) payload true).response;
  sent = λ p payload. (send_one_shot_to_peer (peer p payload) payload false).ok;
  forwarded = λ endpoint payload. (exchange_with_leader (leader endpoint payload) payload).0;
  clock = clock;
}
