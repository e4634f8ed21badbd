-- ===== src/Broker/State.antt =====
-- src/core/broker.cpp: a broker, its answers, and the handlers that change nothing.
use streaming_platform.Prelude.{
  ℕ, Bool, true, false, not, Option, none, some, List, [], ◌++◌, if◌then◌else◌, ◌==◌, ℤ,
  is_negative, int_Key,
}
use streaming_platform.Text.{Bytes, codes, int_to_string}
use streaming_platform.Protocol.Message.{Request, Response, no_offset}
use streaming_platform.Protocol.Codec.{is_empty, encode_request}
use streaming_platform.Protocol.Reply.{parse_response}
use streaming_platform.Config
use streaming_platform.Config.{LeaderEndpoint, ClusterPeer}
use streaming_platform.Groups.{Groups}
use streaming_platform.Storage.Engine
use streaming_platform.Storage.Engine.{Engine}
use streaming_platform.Replication
use streaming_platform.Replication.{Manager}

pub record Broker : Type 0 where
  pub storage : Engine
  pub replication : Manager
  pub groups : Groups

-- How a request that is forwarded to the leader comes out.
pub data Forwarded : Type 0 where
  unreachable write_failed read_failed : Forwarded
  answered : Bytes → Forwarded

-- What the broker does not decide: the answers of peers, by their entries in the configuration, and of
-- the leader, and the clock.
pub record Network : Type 0 where
  pub reply : ClusterPeer → Bytes → Option Bytes
  pub sent : ClusterPeer → Bytes → Bool
  pub forwarded : LeaderEndpoint → Bytes → Forwarded
  pub clock : ClusterPeer → ℕ

-- Response{false, message, offset}
abbrev pub failure : Bytes → ℕ → Response
failure message offset = record {
  success = false;
  message = message;
  appended_offset = offset;
  appended_offsets = [];
}

-- Response{true, message, offset}
abbrev pub success : Bytes → ℕ → Response
success message offset = record {
  success = true;
  message = message;
  appended_offset = offset;
  appended_offsets = [];
}

abbrev pub refuse : Bytes → Response
refuse message = failure message no_offset

abbrev pub answer : Forwarded → Response
answer unreachable = refuse (codes "leader_unreachable")
answer write_failed = refuse (codes "leader_write_failed")
answer read_failed = refuse (codes "leader_read_failed")
answer (answered payload) = parse_response payload

abbrev pub forward_to : Network → Request → Option LeaderEndpoint → Response
forward_to net r none = refuse (codes "leader_unknown")
forward_to net r (some leader) = answer (net.forwarded leader (encode_request r))

unfoldable pub forward_to_leader : Network → Request → Broker → Response
forward_to_leader net r b = forward_to net r (Config.get_leader_endpoint b.replication.config)

abbrev pub is_leader : Broker → Bool
is_leader b = Config.is_leader b.replication.config

abbrev pub endpoint_text : LeaderEndpoint → Bytes
endpoint_text l =
    int_to_string l.broker_id ++ (codes ":" ++ (l.host ++ (codes ":" ++ int_to_string l.port)))

unfoldable pub handle_metadata : Broker → Response
handle_metadata b = elim (Config.get_leader_endpoint b.replication.config) [
  | none ↦ refuse (codes "leader_unknown")
  | some l ↦
      success
        (endpoint_text l
          ++ (codes " role:"
              ++ ((if b.replication.config.broker_id == l.broker_id
                    then codes "leader"
                    else codes "follower")
                  ++ (codes " self:" ++ int_to_string b.replication.config.broker_id))))
        0
]

unfoldable pub format_leader_redirect : Broker → Bytes
format_leader_redirect b = elim (Config.get_leader_endpoint b.replication.config) [
  | none ↦ codes "not_leader:leader_unknown"
  | some l ↦ codes "not_leader:" ++ endpoint_text l
]

abbrev pub topic_partitions : Bytes → Broker → List ℤ
topic_partitions topic b = Engine.partitions_for_topic topic b.storage

abbrev pub fetched : ℕ → Option Bytes → Response
fetched offset none = refuse (codes "offset_not_found")
fetched offset (some message) =
    if is_empty message then refuse (codes "offset_not_found") else success message offset

unfoldable pub handle_fetch : Request → Broker → Response
handle_fetch r b =
    if is_empty r.topic
    then refuse (codes "empty_topic")
    else if is_negative r.partition
    then refuse (codes "invalid_partition")
    else if not (Replication.is_committed r.topic r.partition r.fetch_offset b.replication)
    then refuse (codes "offset_not_committed")
    else fetched r.fetch_offset (Engine.fetch r.topic r.partition r.fetch_offset b.storage)
