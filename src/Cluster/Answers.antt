-- ===== src/Cluster/Answers.antt =====
-- What a leader's manager makes of the answer of a follower's server.
use streaming_platform.Prelude.{
  ℕ, ◌+◌, ◌-◌, ◌^◌, ◌<◌, ◌≡◌, refl, sym, ap, ◌∙◌, ◌⊎◌, Bool, true, false, ◌||◌, not, inl, inr,
  Bool-cases, Option, none, some, List, [], ◌∷◌, arith, length, ℤ, is_negative, IsInt32,
  if◌then◌else◌, leb, le→leb,
}
use streaming_platform.Text.{Bytes}
use streaming_platform.Protocol.Message.{Request, Response, blank, ack}
use streaming_platform.Protocol.Codec.{is_empty, parse_request, encode_request}
use streaming_platform.Protocol.Wire.{put_u8}
use streaming_platform.Protocol.RoundTrip.{Fits, parse_request-encode_request}
use streaming_platform.Protocol.Reply.{serialize_response}
use streaming_platform.Protocol.Types.{parse_request-serialize_response}
use streaming_platform.Storage.Engine
use streaming_platform.Storage.Engine.{Engine}
use streaming_platform.Storage.Engine.Contents.{IsEngine}
use streaming_platform.Replication.{Manager, handle_ack, is_leader}
use streaming_platform.Replication.Exchange
use streaming_platform.Replication.Exchange.{
  build_ack, replicate_to_peer, handle_replication_request, append_batch, payload_of,
  is_replication, has_payload,
}
use streaming_platform.Replication.Follower.{handle_replication_request-fetch}
use streaming_platform.Server.Replicas.{
  not_ack, record_request, first_frame, HasRecord, handle_client-replicate,
}
use streaming_platform.Server.{handle_client, reply}
use streaming_platform.Broker.{Broker, Network, success}
use streaming_platform.Cluster.{Answer, lost, read}

-- A manager takes a follower's ACK as the acknowledgement of that follower.
abbrev pub ack_request : ℤ → Bytes → ℤ → ℕ → Request
ack_request id topic p offset = record (blank ack) {
  topic = topic;
  partition = p;
  fetch_offset = offset;
  broker_id = id;
}

build_ack-filled :
    (id : ℤ) (topic : Bytes) (p : ℤ) (offset : ℕ) → is_empty (build_ack id topic p offset) ≡ false
unfolding build_ack encode_request put_u8
build_ack-filled id topic p offset = refl

if_same : (t : Bool) (x : ℤ) → (if t then x else x) ≡ x
if_same true x = refl
if_same false x = refl

either_topic : (topic : Bytes) → (if is_empty topic then topic else topic) ≡ topic
either_topic [] = refl
either_topic (c ∷ s) = refl

parse_request-build_ack :
    (id : ℤ) (topic : Bytes) (p : ℤ) (offset : ℕ)
    → Fits (ack_request id topic p offset)
    → parse_request (build_ack id topic p offset) ≡ ack_request id topic p offset
unfolding build_ack
parse_request-build_ack id topic p offset fits =
    parse_request-encode_request (ack_request id topic p offset) (λ e. cc) fits

pub replicate_to_peer-build_ack :
    (id : ℤ) (topic : Bytes) (p : ℤ) (offset : ℕ) (m : Manager)
    → Fits (ack_request id topic p offset)
    → replicate_to_peer (some (build_ack id topic p offset)) topic p offset m
      ≡ (handle_ack id topic p offset m, true)
unfolding replicate_to_peer Exchange.take_ack
replicate_to_peer-build_ack id topic p offset m fits =
    let all_of_it : leb offset offset ≡ true = le→leb offset offset (omega arith) in
    rw
      (
        build_ack-filled id topic p offset,
        parse_request-build_ack id topic p offset fits,
        either_topic topic,
        if_same (is_empty topic) p,
        all_of_it,
      )
      refl

replicate_to_peer-none :
    (topic : Bytes) (p : ℤ) (offset : ℕ) (m : Manager)
    → (replicate_to_peer none topic p offset m).0 ≡ m
unfolding replicate_to_peer
replicate_to_peer-none topic p offset m = refl

-- A response in place of an ACK leaves the manager as it is.
replicate_to_peer-same :
    (answer : Response) (topic : Bytes) (p : ℤ) (offset : ℕ) (m : Manager)
    → (replicate_to_peer (some (serialize_response answer)) topic p offset m).0 ≡ m
unfolding replicate_to_peer Exchange.take_ack
replicate_to_peer-same answer topic p offset m =
    let other = not_ack _ (parse_request-serialize_response answer) in
    elim (Bool-cases (is_empty (serialize_response answer))) [
      | inl e ↦ rw e refl
      | inr e ↦ rw (e, other) refl
    ]

-- The ACK of a follower names the follower and the last offset of the request.
sent_ack :
    (r : Request) (m : Manager) (e : Engine) (a : Bytes)
    → (handle_replication_request r m e).1 ≡ some a
    → a
      ≡ build_ack m.config.broker_id r.topic r.partition
          (r.fetch_offset + length (payload_of r) - 1)
unfolding handle_replication_request
sent_ack r m e a h = elim (Bool-cases (is_leader m || not (is_replication r.type))) [
  | inl skip ↦ let bad : none ≡ some a = rw skip at h in cc
  | inr go ↦
      elim (Bool-cases (is_empty r.topic || (is_negative r.partition || not (has_payload r)))) [
        | inl bad_request ↦ let bad : none ≡ some a = rw (go, bad_request) at h in cc
        | inr good ↦
            elim (Bool-cases (append_batch r.topic r.partition r.fetch_offset (payload_of r) e).1) [
              | inl done ↦
                  let same : some (
                        build_ack m.config.broker_id r.topic r.partition
                          (r.fetch_offset + length (payload_of r) - 1))
                      ≡ some a =
                    rw (go, good, done) at h in
                  cc
              | inr wrong ↦ let bad : none ≡ some a = rw (go, good, wrong) at h in cc
            ]
      ]
]

-- A follower as a leader knows it: a broker with this id whose logs hold their messages.
pub record IsFollower (id : ℤ) (f : Broker) : Type 0 where
  pub named : f.replication.config.broker_id ≡ id
  pub small : IsInt32 id
  pub spec : Bytes → List Bytes
  pub holds : IsEngine f.storage spec

-- The request that the leader sends, within the limits of the wire format.
pub record FitsRecord (topic : Bytes) (p : ℤ) (offset : ℕ) (message : Bytes) : Type 0 where
  pub request : Fits (record_request topic p offset message)
  pub small : length message < 2 ^ 64

pub ack-Fits :
    (id : ℤ) (topic : Bytes) (p : ℤ) (offset : ℕ) (message : Bytes)
    → IsInt32 id
    → Fits (record_request topic p offset message)
    → Fits (ack_request id topic p offset)
ack-Fits id topic p offset message small f = record {
  topic = f.topic;
  partition = f.partition;
  message = f.group_id;
  fetch_offset = f.fetch_offset;
  broker_id = small;
  group_id = f.group_id;
  member_id = f.member_id;
  messages = f.messages;
}

sent-turn :
    (topic : Bytes) (p : ℤ) (offset : ℕ) (message : Bytes) (f : Broker) (id : ℤ) (m : Manager)
    (sent : Option Bytes)
    → let q = record_request topic p offset message in
      IsFollower id f
      → FitsRecord topic p offset message
      → (handle_replication_request q f.replication f.storage).1 ≡ sent
      → let turn =
          replicate_to_peer
            (first_frame (reply sent (serialize_response (success [] 0))))
            topic
            p
            offset
            m in
        (turn.0 ≡ m)
        ⊎ ((turn.0 ≡ handle_ack id topic p offset m)
            × (Engine.fetch topic p offset (handle_replication_request q f.replication f.storage).0
                ≡ some message))
sent-turn topic p offset message f id m none h fits same =
    inl (replicate_to_peer-same (success [] 0) topic p offset m)
sent-turn topic p offset message f id m (some a) h fits same =
    let q = record_request topic p offset message in
    let found =
      handle_replication_request-fetch q f.replication f.storage h.spec a 0 h.holds (fits.small, tt)
        same (omega arith) in
    let here : offset + 0 ≡ offset = omega arith in
    let last : offset + 1 - 1 ≡ offset = omega arith in
    let own : a ≡ build_ack id topic p offset =
      sent_ack q f.replication f.storage a same
      ∙ ap (λ i. build_ack i topic p (offset + 1 - 1)) h.named
      ∙ ap (build_ack id topic p) last in
    inr (
      ap (λ x. (replicate_to_peer (some x) topic p offset m).0) own
          ∙ ap (λ (x : Manager × Bool). x.0)
              (replicate_to_peer-build_ack id topic p offset m
                (ack-Fits id topic p offset message h.small fits.request)),
      ap (λ k. Engine.fetch topic p k (handle_replication_request q f.replication f.storage).0)
            (sym here)
          ∙ found.1,
    )

-- A follower's answer leaves the manager as it is, or is taken as the acknowledgement of that
-- follower, which then has the record.
pub Answer-turn :
    (net : Network) (now : ℕ) (topic : Bytes) (p : ℤ) (offset : ℕ) (message : Bytes) (f : Broker)
    (id : ℤ) (answer : Option Bytes) (m : Manager)
    → let payload = Exchange.build_replication_request topic p offset message in
      IsFollower id f
      → FitsRecord topic p offset message
      → Answer net now payload f answer
      → ((replicate_to_peer answer topic p offset m).0 ≡ m)
        ⊎ (((replicate_to_peer answer topic p offset m).0 ≡ handle_ack id topic p offset m)
            × HasRecord topic p offset message (handle_client net ((now, payload) ∷ []) (some f)).0)
Answer-turn net now topic p offset message f id answer m h fits lost =
    inl (replicate_to_peer-none topic p offset m)
Answer-turn net now topic p offset message f id answer m h fits read =
    let q = record_request topic p offset message in
    let out = handle_replication_request q f.replication f.storage in
    let run = handle_client-replicate net now [] topic p offset message f fits.request in
    let first =
      ap
        (λ (x : Option Broker × List Bytes).
          (replicate_to_peer (first_frame x.1) topic p offset m).0)
        run in
    elim (sent-turn topic p offset message f id m out.1 h fits refl) [
      | inl same ↦ inl (first ∙ same)
      | inr (acked, stored) ↦ inr (
        first ∙ acked,
        record {
          broker = record f { storage = out.0 };
          kept = ap (λ (x : Option Broker × List Bytes). x.0) run;
          stored = stored;
        },
      )
    ]
