-- ===== src/Replication.antt =====
-- src/replication/replication_manager.cpp: acknowledgements, the commit index, and the election.
-- The recursive mutex makes each operation one step. The network and the clock are arguments: what
-- a peer answers to the frame that `send_one_shot_to_peer` sends (`none` is a failure), and the time
-- in milliseconds that is read.
pub mod Exchange
pub mod Commits
pub mod Rising
pub mod Follower
pub mod Acks
pub mod Majority
pub mod Progress
pub mod Election
mod ElectionExamples
mod Examples
use streaming_platform.Prelude.{
  ℕ, zero, suc, ◌+◌, ◌-◌, ◌/◌, ◌%◌, ◌^◌, Bool, true, false, not, ◌&&◌, ◌||◌, Option, none, some,
  List, [], ◌∷◌, ◌++◌, max, ltb, leb, if◌then◌else◌, ◌==◌, length, ℤ, pos, is_negative, int_ltb,
  int_Key, list_Key, Assoc, lookup, insert, erase,
}
use streaming_platform.Text.{Bytes, dash, colon, to_string, int_to_string}
use streaming_platform.Protocol.Message.{
  Request, RequestType, blank, replicate, batch_replicate, ack, commit, heartbeat,
}
use streaming_platform.Protocol.Codec.{is_empty, parse_request, encode_request}
use streaming_platform.Groups.{contains, or_zero, or_empty}
use streaming_platform.Config
use streaming_platform.Config.{BrokerConfig, ClusterPeer}

pub record Manager : Type 0 where
  pub config : BrokerConfig
  pub follower_ack_offsets : Assoc ℤ ℕ
  pub ack_counts : Assoc Bytes ℕ
  pub ack_followers : Assoc Bytes (List ℤ)
  pub commit_index_by_log : Assoc Bytes ℕ
  pub last_heartbeat : Assoc ℤ ℕ
  pub failed_peers : List ℤ

abbrev pub heartbeat_timeout : ℕ
heartbeat_timeout = 750

unfoldable pub make_log_key : Bytes → ℤ → Bytes
make_log_key topic partition = topic ++ dash ∷ int_to_string partition

unfoldable pub make_ack_key : Bytes → ℤ → ℕ → Bytes
unfolding make_log_key
make_ack_key topic partition offset = make_log_key topic partition ++ colon ∷ to_string offset

-- insert into an unordered_set
abbrev pub add_id : ℤ → List ℤ → List ℤ
add_id i ids = if contains i ids then ids else i ∷ ids

unfoldable pub remove_id : ℤ → List ℤ → List ℤ
remove_id i [] = []
remove_id i (j ∷ ids) = let rest = remove_id i ids in if j == i then rest else j ∷ rest

unfoldable pub first_heartbeats : ℤ → ℕ → List ClusterPeer → Assoc ℤ ℕ
first_heartbeats self now [] = []
first_heartbeats self now (p ∷ ps) =
    let rest = first_heartbeats self now ps in
    if p.broker_id == self then rest else insert p.broker_id now rest

-- ReplicationManager::ReplicationManager
unfoldable pub new_manager : BrokerConfig → ℕ → Manager
unfolding first_heartbeats
new_manager config now = record {
  config = config;
  follower_ack_offsets = [];
  ack_counts = [];
  ack_followers = [];
  commit_index_by_log = [];
  last_heartbeat = first_heartbeats config.broker_id now config.peers;
  failed_peers = [];
}

abbrev pub is_leader : Manager → Bool
is_leader m = Config.is_leader m.config

unfoldable pub is_peer_available : ℤ → Manager → Bool
is_peer_available id m = not (contains id m.failed_peers)

unfoldable pub find_peer : ℤ → List ClusterPeer → Option ClusterPeer
find_peer id [] = none
find_peer id (p ∷ ps) = if p.broker_id == id then some p else find_peer id ps

unfoldable pub mark_follower_failed : ℤ → Manager → Manager
mark_follower_failed id m = record m {
  failed_peers = add_id id m.failed_peers;
  follower_ack_offsets = erase id m.follower_ack_offsets;
}

unfoldable pub handle_heartbeat : ℤ → ℕ → Manager → Manager
handle_heartbeat id now m = record m {
  last_heartbeat = insert id now m.last_heartbeat;
  failed_peers = remove_id id m.failed_peers;
}

-- now - entry.second > kHeartbeatTimeout; the clock is steady.
abbrev pub expired : ℕ → ℕ → Bool
expired now seen = ltb heartbeat_timeout (now - seen)

unfoldable pub fail_silent : ℕ → Assoc ℤ ℕ → List ℤ → List ℤ
fail_silent now [] failed = failed
fail_silent now ((id, seen) ∷ entries) failed =
    fail_silent now entries (if expired now seen then add_id id failed else failed)

unfoldable pub lowest_live : ℤ → List ℤ → List ClusterPeer → ℤ → ℤ
lowest_live self failed [] elected = elected
lowest_live self failed (p ∷ ps) elected = lowest_live self failed ps (
    if not (p.broker_id == self) && not (contains p.broker_id failed)
    then (if int_ltb p.broker_id elected then p.broker_id else elected)
    else elected)

unfoldable pub maybe_elect_leader : ℕ → Manager → Manager
maybe_elect_leader now m =
    let failed = fail_silent now m.last_heartbeat m.failed_peers in
    let m' = record m { failed_peers = failed } in
    let self = m.config.broker_id in
    if not (m.config.leader_broker_id == self) && not (contains m.config.leader_broker_id failed)
    then m'
    else record m' {
      config = Config.set_leader (lowest_live self failed m.config.peers self) m.config;
    }

-- handle_ack, on the key of an offset
unfoldable pub count_ack : ℤ → Bytes → ℕ → Manager → Manager
count_ack follower key offset m =
    let followers = or_empty (lookup key m.ack_followers) in
    if contains follower followers
    then record m { ack_followers = insert key followers m.ack_followers }
    else record m {
      ack_followers = insert key (add_id follower followers) m.ack_followers;
      follower_ack_offsets =
          insert follower (max (or_zero (lookup follower m.follower_ack_offsets)) offset)
            m.follower_ack_offsets;
      ack_counts = insert key (or_zero (lookup key m.ack_counts) + 1) m.ack_counts;
    }

unfoldable pub handle_ack : ℤ → Bytes → ℤ → ℕ → Manager → Manager
handle_ack follower topic partition offset m =
    if not (is_leader m)
    then m
    else count_ack follower (make_ack_key topic partition offset) offset m

abbrev pub quorum : Manager → ℕ
quorum m = (1 + length m.config.peers) / 2 + 1

abbrev pub enough : ℕ → Option ℕ → Bool
enough q none = false
enough q (some n) = leb q n

unfoldable pub quorum_reached : Bytes → ℤ → ℕ → Manager → Bool
quorum_reached topic partition offset m =
    enough (quorum m) (lookup (make_ack_key topic partition offset) m.ack_counts)

-- The polls see the states that other threads have left in the meantime, the last one past the
-- deadline.
unfoldable pub wait_for_quorum : Bytes → ℤ → ℕ → List Manager → Manager → Bool
wait_for_quorum topic partition offset [] last = quorum_reached topic partition offset last
wait_for_quorum topic partition offset (m ∷ polls) last =
    quorum_reached topic partition offset m || wait_for_quorum topic partition offset polls last

-- `commit_index_by_log_[log_key]` adds an entry 0 where there is none.
unfoldable pub mark_committed : Bytes → ℤ → ℕ → Manager → Manager
mark_committed topic partition offset m =
    let key = make_log_key topic partition in
    let committed = or_zero (lookup key m.commit_index_by_log) in
    record m {
      commit_index_by_log =
          insert key (if ltb committed offset then offset else committed) m.commit_index_by_log;
    }

abbrev pub at_most : ℕ → Option ℕ → Bool
at_most offset none = false
at_most offset (some committed) = leb offset committed

unfoldable pub is_committed : Bytes → ℤ → ℕ → Manager → Bool
is_committed topic partition offset m =
    at_most offset (lookup (make_log_key topic partition) m.commit_index_by_log)

unfoldable pub get_commit_index : Bytes → ℤ → Manager → ℕ
get_commit_index topic partition m =
    elim (lookup (make_log_key topic partition) m.commit_index_by_log) [
      | none ↦ 2 ^ 64 - 1
      | some n ↦ n
    ]

unfoldable pub handle_commit_request : Request → Manager → Manager
handle_commit_request r m = elim r.type [
  | commit ↦
      if is_empty r.topic || is_negative r.partition
      then m
      else mark_committed r.topic r.partition r.fetch_offset m
  | _ ↦ m
]
