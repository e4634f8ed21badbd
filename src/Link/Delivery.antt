-- ===== src/Link/Delivery.antt =====
-- A replication over a real connection: the frames that the follower's server writes, cut in any way.
use streaming_platform.Prelude.{
  ℕ, ◌^◌, ◌<◌, ◌≡◌, refl, sym, ap, ◌∙◌, true, false, inl, inr, Bool-cases, Option, none, some, List,
  ◌∷◌, length, ℤ, All,
}
use streaming_platform.Text.{Bytes}
use streaming_platform.Protocol.RoundTrip.{Fits}
use streaming_platform.Storage.Engine.Contents.{IsEngine}
use streaming_platform.Replication.{Manager}
use streaming_platform.Replication.Exchange
use streaming_platform.Frame.{framed, write_frame, read_frame}
use streaming_platform.Frame.Properties.{read_frame-buffer}
use streaming_platform.Broker.{Broker, Network}
use streaming_platform.Server.{handle_client}
use streaming_platform.Server.Replicas.{
  record_request, first_frame, HasRecord, handle_client-answers, replicate_to_peer-handle_client,
}
use streaming_platform.Link.{Line, send_one_shot_to_peer, send_on, await_response, connect_to_host}

-- A response that is read is the first frame of the stream.
await_response-first :
    (line : Line) (fd : ℕ) (sent first : Bytes) (rest : List Bytes) (x : Bytes)
    → line.stream ≡ framed (first ∷ rest)
    → length first < 2 ^ 32
    → (await_response line fd sent).response ≡ some x
    → x ≡ first
await_response-first line fd sent first rest x on_line small got =
    elim (Bool-cases (read_frame line.reads line.stream).ok) [
      | inr fails ↦ let bad : none ≡ some x = rw fails at got in cc
      | inl ok ↦
          let read : (read_frame line.reads line.stream).buffer ≡ first =
            ap (λ s. (read_frame line.reads s).buffer) on_line
            ∙ read_frame-buffer line.reads first (framed rest) small (rw on_line at ok) in
          let same : some (read_frame line.reads line.stream).buffer ≡ some x = rw ok at got in cc
    ]

pub one_shot-first :
    (line : Line) (payload first : Bytes) (rest : List Bytes) (x : Bytes)
    → line.stream ≡ framed (first ∷ rest)
    → length first < 2 ^ 32
    → (send_one_shot_to_peer line payload true).response ≡ some x
    → x ≡ first
unfolding send_one_shot_to_peer
one_shot-first line payload first rest x on_line small got =
    on_socket (connect_to_host line.dial).socket_fd (connect_to_host line.dial).closed got
  where
    on_socket :
        (socket_fd : Option ℕ) (closed : List ℕ)
        → (send_on line payload true (record { socket_fd = socket_fd; closed = closed })).response
          ≡ some x
        → x ≡ first
    on_socket none closed e = let bad : none ≡ some x = e in cc
    on_socket (some fd) closed e = elim (Bool-cases (write_frame line.writes payload).ok) [
      | inr fails ↦ let bad : none ≡ some x = rw fails at e in cc
      | inl ok ↦
          await_response-first line fd (write_frame line.writes payload).sent first rest x on_line
            small (rw ok at e)
    ]

no_response :
    (topic : Bytes) (p : ℤ) (offset : ℕ) (m : Manager)
    → (Exchange.replicate_to_peer none topic p offset m).1 ≡ false
unfolding Exchange.replicate_to_peer
no_response topic p offset m = refl

-- A leader sends a replication request of one record over a connection to the server of a follower
-- whose logs hold their messages; the fields fit the wire format, the message is shorter than 2^64
-- bytes and each answer of the server than 2^32. However the operating system connects, and cuts or
-- fails the writes and the reads: where the leader counts what it read as an acknowledgement, the
-- follower's log now has the record at the leader's offset.
pub replicate_to_peer-send_one_shot_to_peer :
    (net : Network) (now : ℕ) (rounds : List (ℕ × Bytes)) (topic : Bytes) (p : ℤ) (offset : ℕ)
    (message : Bytes) (f : Broker) (spec : Bytes → List Bytes) (m : Manager) (line : Line)
    → IsEngine f.storage spec
    → Fits (record_request topic p offset message)
    → length message < 2 ^ 64
    → All
        (λ (x : Bytes). length x < 2 ^ 32)
        (handle_client net
          ((now, Exchange.build_replication_request topic p offset message) ∷ rounds)
          (some f)).1
    → line.stream
      ≡ framed
          (handle_client net
            ((now, Exchange.build_replication_request topic p offset message) ∷ rounds)
            (some f)).1
    → (Exchange.replicate_to_peer
        (send_one_shot_to_peer line
          (Exchange.build_replication_request topic p offset message)
          true).response
        topic
        p
        offset
        m).1
      ≡ true
    → HasRecord topic p offset message
        (handle_client net
          ((now, Exchange.build_replication_request topic p offset message) ∷ rounds)
          (some f)).0
replicate_to_peer-send_one_shot_to_peer net now rounds topic p offset message f spec m line h fits
      small sizes on_line ok =
    let request = Exchange.build_replication_request topic p offset message in
    let (first, rest, out) = handle_client-answers net now rounds topic p offset message f fits in
    let one = (rw out at sizes).0 in
    replicate_to_peer-handle_client net now rounds topic p offset message f spec m h fits small (
      counted (send_one_shot_to_peer line request true).response ok first rest out
        (λ x e. one_shot-first line request first rest x (on_line ∙ ap framed out) one e))
  where
    counted :
        (response : Option Bytes)
        → (Exchange.replicate_to_peer response topic p offset m).1 ≡ true
        → (first : Bytes) (rest : List Bytes)
        → (handle_client net
            ((now, Exchange.build_replication_request topic p offset message) ∷ rounds)
            (some f)).1
          ≡ first ∷ rest
        → ((x : Bytes) → response ≡ some x → x ≡ first)
        → (Exchange.replicate_to_peer
            (first_frame
              (handle_client net
                ((now, Exchange.build_replication_request topic p offset message) ∷ rounds)
                (some f)).1)
            topic
            p
            offset
            m).1
          ≡ true
    counted none e first rest out same =
        let bad : false ≡ true = sym (no_response topic p offset m) ∙ e in cc
    counted (some x) e first rest out same = rw out (rw (same x refl) at e)
