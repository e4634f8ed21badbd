-- ===== src/Server/Replicas.antt =====
-- The two ends of a replication: a leader's request at a follower's server, and its answer at the leader.
use streaming_platform.Prelude.{
  ℕ, ◌+◌, ◌^◌, ◌<◌, ◌≡◌, ◌≢◌, refl, sym, ap, ◌∙◌, true, false, inl, inr, Bool-cases, Option, none,
  some, List, [], ◌∷◌, length, ℤ, arith,
}
use streaming_platform.Text.{Bytes}
use streaming_platform.Protocol.Message.{Request, RequestType, Response, blank, replicate, ack}
use streaming_platform.Protocol.Codec.{is_empty, encode_request}
use streaming_platform.Protocol.Wire.{put_u8}
use streaming_platform.Protocol.RoundTrip.{Fits, parse_request-encode_request}
use streaming_platform.Protocol.Reply.{serialize_response}
use streaming_platform.Protocol.Types.{parse_request-serialize_response}
use streaming_platform.Storage.Engine
use streaming_platform.Storage.Engine.{Engine}
use streaming_platform.Storage.Engine.Contents.{IsEngine}
use streaming_platform.Replication.{Manager}
use streaming_platform.Replication.Exchange
use streaming_platform.Replication.Follower.{handle_replication_request-fetch}
use streaming_platform.Broker.{Broker, Network, success, handle_inter_broker_request}
use streaming_platform.Server.{handle_client, process_request, reply}

abbrev pub record_request : Bytes → ℤ → ℕ → Bytes → Request
record_request topic p offset message = record (blank replicate) {
  topic = topic;
  partition = p;
  message = message;
  fetch_offset = offset;
}

-- What the leader reads: it waits for one frame.
abbrev pub first_frame : List Bytes → Option Bytes
first_frame [] = none
first_frame (payload ∷ rest) = some payload

encode_request-filled :
    (topic : Bytes) (p : ℤ) (offset : ℕ) (message : Bytes)
    → is_empty (encode_request (record_request topic p offset message)) ≡ false
unfolding encode_request put_u8
encode_request-filled topic p offset message = refl

-- A follower's server at a leader's request.
pub handle_client-replicate :
    (net : Network) (now : ℕ) (rounds : List (ℕ × Bytes)) (topic : Bytes) (p : ℤ) (offset : ℕ)
    (message : Bytes) (f : Broker)
    → Fits (record_request topic p offset message)
    → let out =
        Exchange.handle_replication_request
          (record_request topic p offset message)
          f.replication
          f.storage in
      handle_client net
        ((now, Exchange.build_replication_request topic p offset message) ∷ rounds)
        (some f)
      ≡ (some (record f { storage = out.0 }), reply out.1 (serialize_response (success [] 0)))
unfolding handle_client process_request handle_inter_broker_request
    Exchange.build_replication_request
handle_client-replicate net now rounds topic p offset message f fits =
    let q = record_request topic p offset message in
    rw (encode_request-filled topic p offset message, parse_request-encode_request q (λ e. cc) fits)
      refl

pub not_ack : (t : RequestType) → t ≢ ack → Exchange.is_ack t ≡ false
not_ack ack h = absurd (h refl)
not_ack _ h = refl

-- A response in place of an ACK is not counted.
pub replicate_to_peer-response :
    (answer : Response) (topic : Bytes) (p : ℤ) (offset : ℕ) (m : Manager)
    → (Exchange.replicate_to_peer (some (serialize_response answer)) topic p offset m).1 ≡ false
unfolding Exchange.replicate_to_peer Exchange.take_ack
replicate_to_peer-response answer topic p offset m =
    let other = not_ack _ (parse_request-serialize_response answer) in
    elim (Bool-cases (is_empty (serialize_response answer))) [
      | inl e ↦ rw e refl
      | inr e ↦ rw (e, other) refl
    ]

-- A follower whose engine has a record at an offset.
pub record HasRecord (topic : Bytes) (p : ℤ) (offset : ℕ) (message : Bytes) (f : Option Broker)
    : Type 0 where
  pub broker : Broker
  pub kept : f ≡ some broker
  pub stored : Engine.fetch topic p offset broker.storage ≡ some message

answered :
    (topic : Bytes) (p : ℤ) (offset : ℕ) (message : Bytes) (f : Broker) (spec : Bytes → List Bytes)
    (m : Manager) (sent : Option Bytes)
    → let q = record_request topic p offset message in
      IsEngine f.storage spec
      → length message < 2 ^ 64
      → (Exchange.handle_replication_request q f.replication f.storage).1 ≡ sent
      → (Exchange.replicate_to_peer
          (first_frame (reply sent (serialize_response (success [] 0))))
          topic
          p
          offset
          m).1
        ≡ true
      → Engine.fetch topic p offset
          (Exchange.handle_replication_request q f.replication f.storage).0
        ≡ some message
answered topic p offset message f spec m none h small same ok =
    let bad : false ≡ true =
      sym (replicate_to_peer-response (success [] 0) topic p offset m) ∙ ok in
    cc
answered topic p offset message f spec m (some a) h small same ok =
    let q = record_request topic p offset message in
    let found =
      handle_replication_request-fetch q f.replication f.storage spec a 0 h (small, tt) same
        (omega arith) in
    let here : offset + 0 ≡ offset = omega arith in
    ap
      (λ k.
        Engine.fetch topic p k (Exchange.handle_replication_request q f.replication f.storage).0)
      (sym here)
    ∙ found.1

reply-cons :
    (sent : Option Bytes) (response : Bytes)
    → (first : Bytes) × (rest : List Bytes) × (reply sent response ≡ first ∷ rest)
reply-cons none response = (response, [], refl)
reply-cons (some a) response = (a, response ∷ [], refl)

-- The server answers such a request in any case.
pub handle_client-answers :
    (net : Network) (now : ℕ) (rounds : List (ℕ × Bytes)) (topic : Bytes) (p : ℤ) (offset : ℕ)
    (message : Bytes) (f : Broker)
    → Fits (record_request topic p offset message)
    → (first : Bytes) × (rest : List Bytes) × ((handle_client net
          ((now, Exchange.build_replication_request topic p offset message) ∷ rounds)
          (some f)).1
        ≡ first ∷ rest)
handle_client-answers net now rounds topic p offset message f fits =
    let q = record_request topic p offset message in
    let (first, rest, same) =
      reply-cons (Exchange.handle_replication_request q f.replication f.storage).1
        (serialize_response (success [] 0)) in
    (
      first,
      rest,
      ap (λ (x : Option Broker × List Bytes). x.1)
            (handle_client-replicate net now rounds topic p offset message f fits)
          ∙ same,
    )

-- A leader sends a replication request of one record to a follower whose logs hold their messages;
-- the fields fit the wire format, and the message is shorter than 2^64 bytes. Where the leader counts
-- what the follower's server sends first as an acknowledgement, the follower's log now has the record
-- at the leader's offset.
pub replicate_to_peer-handle_client :
    (net : Network) (now : ℕ) (rounds : List (ℕ × Bytes)) (topic : Bytes) (p : ℤ) (offset : ℕ)
    (message : Bytes) (f : Broker) (spec : Bytes → List Bytes) (m : Manager)
    → IsEngine f.storage spec
    → Fits (record_request topic p offset message)
    → length message < 2 ^ 64
    → (Exchange.replicate_to_peer
        (first_frame
          (handle_client net
            ((now, Exchange.build_replication_request topic p offset message) ∷ rounds)
            (some f)).1)
        topic
        p
        offset
        m).1
      ≡ true
    → HasRecord topic p offset message
        (handle_client net
          ((now, Exchange.build_replication_request topic p offset message) ∷ rounds)
          (some f)).0
replicate_to_peer-handle_client net now rounds topic p offset message f spec m h fits small ok =
    let q = record_request topic p offset message in
    let out = Exchange.handle_replication_request q f.replication f.storage in
    let run = handle_client-replicate net now rounds topic p offset message f fits in
    record {
      broker = record f { storage = out.0 };
      kept = ap (λ (x : Option Broker × List Bytes). x.0) run;
      stored = answered topic p offset message f spec m out.1 h small refl (rw run at ok);
    }
