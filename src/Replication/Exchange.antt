-- ===== src/Replication/Exchange.antt =====
-- The exchanges of src/replication/replication_manager.cpp with the peers.
-- `reply` is what comes back for a frame that is sent to the peer of an entry of the configuration,
-- `sent` is whether it was written, and `clock` is the time that is read after the exchange with it.
-- Two entries that agree in id, host and port are one peer, and get the same answer.
use streaming_platform.Prelude.{
  ℕ, ◌+◌, ◌-◌, Bool, true, false, not, ◌&&◌, ◌||◌, Option, none, some, List, [], ◌∷◌, leb, nat_eq,
  if◌then◌else◌, ◌==◌, length, ℤ, is_negative, int_Key, list_Key, Assoc, lookup, insert,
}
use streaming_platform.Text.{Bytes}
use streaming_platform.Protocol.Message.{
  Request, RequestType, blank, replicate, batch_replicate, ack, commit, heartbeat,
}
use streaming_platform.Protocol.Codec.{is_empty, parse_request, encode_request}
use streaming_platform.Groups.{or_empty}
use streaming_platform.Config.{ClusterPeer}
use streaming_platform.Storage.Engine
use streaming_platform.Storage.Engine.{Engine}
use streaming_platform.Replication.{
  Manager, is_leader, is_peer_available, mark_follower_failed, handle_heartbeat, handle_ack,
  make_ack_key, quorum_reached, add_id, maybe_elect_leader, expired,
}

unfoldable pub build_replication_request : Bytes → ℤ → ℕ → Bytes → Bytes
build_replication_request topic partition offset message =
    encode_request (record (blank replicate) {
      topic = topic;
      partition = partition;
      message = message;
      fetch_offset = offset;
    })

unfoldable pub build_commit_request : Bytes → ℤ → ℕ → Bytes
build_commit_request topic partition offset =
    encode_request
      (record (blank commit) { topic = topic; partition = partition; fetch_offset = offset })

unfoldable pub build_batch_request : Bytes → ℤ → ℕ → List Bytes → Bytes
build_batch_request topic partition first_offset messages =
    encode_request (record (blank batch_replicate) {
      topic = topic;
      partition = partition;
      fetch_offset = first_offset;
      messages = messages;
    })

unfoldable pub build_ack : ℤ → Bytes → ℤ → ℕ → Bytes
build_ack self topic partition offset = encode_request (record (blank ack) {
  topic = topic;
  partition = partition;
  fetch_offset = offset;
  broker_id = self;
})

abbrev pub is_ack : RequestType → Bool
is_ack ack = true
is_ack _ = false

-- replicate_to_peer after the exchange: the parsed answer of a peer that sent one
unfoldable pub take_ack : Request → Bytes → ℤ → ℕ → Manager → Manager × Bool
take_ack a topic partition offset m = if not (is_ack a.type) then (m, false) else (
  handle_ack a.broker_id (if is_empty a.topic then topic else a.topic)
      (if is_empty a.topic then partition else a.partition) a.fetch_offset m,
  leb offset a.fetch_offset,
)

unfoldable pub replicate_to_peer : Option Bytes → Bytes → ℤ → ℕ → Manager → Manager × Bool
replicate_to_peer none topic partition offset m = (m, false)
replicate_to_peer (some payload) topic partition offset m =
    if is_empty payload
    then (m, false)
    else take_ack (parse_request payload) topic partition offset m

-- A peer that did its part is alive; any other one counts as failed.
abbrev pub note_peer : ℤ → ℕ → Manager × Bool → Manager
note_peer id now (m, true) = handle_heartbeat id now m
note_peer id now (m, false) = mark_follower_failed id m

-- continue past the broker itself and past failed peers
abbrev pub skipped : ClusterPeer → Manager → Bool
skipped p m = p.broker_id == m.config.broker_id || not (is_peer_available p.broker_id m)

unfoldable pub replicate_to_peers :
    (ClusterPeer → Option Bytes)
    → (ClusterPeer → ℕ)
    → List ClusterPeer
    → Bytes
    → ℤ
    → ℕ
    → Manager
    → Manager
replicate_to_peers reply clock [] topic partition offset m = m
replicate_to_peers reply clock (p ∷ ps) topic partition offset m =
    replicate_to_peers reply clock ps topic partition offset (
      if skipped p m
      then m
      else note_peer p.broker_id (clock p) (replicate_to_peer (reply p) topic partition offset m))

-- The leader counts itself: ack_counts_[key] = 1, ack_followers_[key].insert(self)
unfoldable pub count_self : Bytes → Manager → Manager
count_self key m = record m {
  ack_counts = insert key 1 m.ack_counts;
  ack_followers =
      insert key (add_id m.config.broker_id (or_empty (lookup key m.ack_followers)))
        m.ack_followers;
}

-- Without peers the loop does nothing, so the source's early return is the same.
unfoldable pub replicate_message :
    (ClusterPeer → Bytes → Option Bytes)
    → (ClusterPeer → ℕ)
    → Bytes
    → ℤ
    → ℕ
    → Bytes
    → Manager
    → Manager × Bool
replicate_message reply clock topic partition offset message m =
    let request = build_replication_request topic partition offset message in
    let m' =
      replicate_to_peers (λ p. reply p request) clock m.config.peers topic partition offset
        (count_self (make_ack_key topic partition offset) m) in
    if not (is_leader m) then (m, false) else (m', quorum_reached topic partition offset m')

-- The answer of one peer to a batch: an ACK of the last offset, or of one behind it, is counted.
unfoldable pub take_batch_ack : ℤ → Option Bytes → Bytes → ℤ → ℕ → Manager → Manager
take_batch_ack id none topic partition offset m = mark_follower_failed id m
take_batch_ack id (some payload) topic partition offset m =
    let a = parse_request payload in
    if is_ack a.type && leb offset a.fetch_offset
    then handle_ack a.broker_id topic partition a.fetch_offset m
    else mark_follower_failed id m

unfoldable pub replicate_batch_to_peers :
    (ClusterPeer → Option Bytes) → List ClusterPeer → Bytes → ℤ → ℕ → Manager → Manager
replicate_batch_to_peers reply [] topic partition offset m = m
replicate_batch_to_peers reply (p ∷ ps) topic partition offset m =
    replicate_batch_to_peers reply ps topic partition offset
      (if skipped p m then m else take_batch_ack p.broker_id (reply p) topic partition offset m)

unfoldable pub replicate_batch :
    (ClusterPeer → Bytes → Option Bytes) → Bytes → ℤ → ℕ → List Bytes → Manager → Manager × Bool
replicate_batch reply topic partition first_offset messages m =
    let request = build_batch_request topic partition first_offset messages in
    let last_offset = first_offset + length messages - 1 in
    let m' =
      replicate_batch_to_peers (λ p. reply p request) m.config.peers topic partition last_offset
        (count_self (make_ack_key topic partition last_offset) m) in
    if not (is_leader m) || is_empty messages
    then (m, false)
    else (m', quorum_reached topic partition last_offset m')

unfoldable pub broadcast_to_peers :
    (ClusterPeer → Bool)
    → (ClusterPeer → ℕ)
    → (ClusterPeer → Manager → Bool)
    → List ClusterPeer
    → Manager
    → Manager
broadcast_to_peers sent clock skip [] m = m
broadcast_to_peers sent clock skip (p ∷ ps) m =
    broadcast_to_peers sent clock skip ps
      (if skip p m then m else note_peer p.broker_id (clock p) (m, sent p))

unfoldable pub broadcast_commit :
    (ClusterPeer → Bytes → Bool) → (ClusterPeer → ℕ) → Bytes → ℤ → ℕ → Manager → Manager
broadcast_commit sent clock topic partition offset m =
    let request = build_commit_request topic partition offset in
    if not (is_leader m)
    then m
    else broadcast_to_peers (λ p. sent p request) clock skipped m.config.peers m

unfoldable pub fail_expired : ℕ → Assoc ℤ ℕ → Manager → Manager
fail_expired now [] m = m
fail_expired now ((id, seen) ∷ entries) m =
    fail_expired now entries (if expired now seen then mark_follower_failed id m else m)

-- `before` and `now` are the two readings of the clock, `clock` the later ones. A heartbeat goes to
-- failed peers too.
unfoldable pub broadcast_heartbeat :
    (ClusterPeer → Bytes → Bool) → (ClusterPeer → ℕ) → ℕ → ℕ → Manager → Manager
broadcast_heartbeat sent clock before now m =
    let m' = maybe_elect_leader before m in
    let m'' = fail_expired now m'.last_heartbeat m' in
    let request = encode_request (record (blank heartbeat) { broker_id = m''.config.broker_id }) in
    broadcast_to_peers (λ p. sent p request) clock (λ p k. p.broker_id == k.config.broker_id)
      m''.config.peers m''

-- The follower: the loop over a batch stops at the first record that gets another offset than the
-- leader's; the records before it, and that record, stay in the log.
unfoldable pub append_batch : Bytes → ℤ → ℕ → List Bytes → Engine → Engine × Bool
append_batch topic partition offset [] e = (e, true)
append_batch topic partition offset (msg ∷ msgs) e =
    let (e', got) = Engine.append topic partition msg e in
    let rest = append_batch topic partition (offset + 1) msgs e' in
    if nat_eq got offset then rest else (e', false)

abbrev pub payload_of : Request → List Bytes
payload_of r = elim r.type [ replicate ↦ r.message ∷ [] | _ ↦ r.messages ]

abbrev pub is_replication : RequestType → Bool
is_replication replicate = true
is_replication batch_replicate = true
is_replication _ = false

abbrev pub has_payload : Request → Bool
has_payload r = elim r.type [ replicate ↦ not (is_empty r.message) | _ ↦ not (is_empty r.messages) ]

-- The engine, and the ACK frame's payload if one is sent. A REPLICATE is a batch of one record.
unfoldable pub handle_replication_request : Request → Manager → Engine → Engine × Option Bytes
handle_replication_request r m e =
    let (e', done) = append_batch r.topic r.partition r.fetch_offset (payload_of r) e in
    let last = r.fetch_offset + length (payload_of r) - 1 in
    if is_leader m || not (is_replication r.type)
    then (e, none)
    else if is_empty r.topic || (is_negative r.partition || not (has_payload r))
    then (e, none)
    else (e', if done then some (build_ack m.config.broker_id r.topic r.partition last) else none)
