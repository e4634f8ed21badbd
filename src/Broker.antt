-- ===== src/Broker.antt =====
-- src/core/broker.cpp: the handlers of one broker, over its storage, its replication manager and its
-- consumer groups. A handler is one step from a state to a state and a response: within it the polls
-- of `wait_for_quorum` see the state that the handler itself left.
pub mod State
pub mod Membership
pub mod Producing
pub mod Produce
pub mod Keeping
pub mod History
pub mod Heartbeats
pub mod Batch
pub mod Refusals
pub mod Consumer
pub mod Examples
mod HistoryExamples
mod ConsumerExamples
unfoldable pub use State.*
unfoldable pub use Membership.*
unfoldable pub use Producing.*
use streaming_platform.Prelude.{
  ℕ, Bool, true, false, not, ◌||◌, Option, none, some, List, [], ◌∷◌, ◌++◌, if◌then◌else◌, ◌==◌, ℤ,
  is_negative, int_Key,
}
use streaming_platform.Text.{Bytes, codes, int_to_string}
use streaming_platform.Protocol.Message
use streaming_platform.Protocol.Message.{Request, Response, RequestType, no_offset}
use streaming_platform.Protocol.Codec.{is_empty, encode_request}
use streaming_platform.Protocol.Reply.{parse_response, serialize_response}
use streaming_platform.Config
use streaming_platform.Config.{LeaderEndpoint}
use streaming_platform.Groups
use streaming_platform.Groups.{Groups}
use streaming_platform.Storage.Engine
use streaming_platform.Storage.Engine.{Engine}
use streaming_platform.Replication
use streaming_platform.Replication.{Manager}
use streaming_platform.Replication.Exchange

abbrev pub dispatch : RequestType → Network → Request → Broker → Broker × Response
dispatch Message.produce net r b = handle_produce net r b
dispatch Message.batch_produce net r b = handle_batch_produce net r b
dispatch Message.fetch net r b = (b, handle_fetch r b)
dispatch Message.metadata net r b = (b, handle_metadata b)
dispatch Message.join_group net r b = handle_join_group net r b
dispatch Message.leave_group net r b = handle_leave_group net r b
dispatch Message.group_fetch net r b = (b, handle_group_fetch net r b)
dispatch Message.commit_offset net r b = handle_commit_offset net r b
dispatch Message.group_assignment net r b = (b, handle_group_assignment net r b)
dispatch _ net r b = (b, refuse (codes "unknown_request_type"))

unfoldable pub handle_request : Network → Request → Broker → Broker × Response
handle_request net r b = dispatch r.type net r b

-- The broker, the ACK frame's payload that a replication request sends first, and the response.
abbrev pub dispatch_peer : RequestType → ℕ → Request → Broker → Broker × Option Bytes × Bytes
dispatch_peer Message.replicate now r b =
    let (storage, reply) = Exchange.handle_replication_request r b.replication b.storage in
    (record b { storage = storage }, reply, serialize_response (success [] 0))
dispatch_peer Message.batch_replicate now r b =
    let (storage, reply) = Exchange.handle_replication_request r b.replication b.storage in
    (record b { storage = storage }, reply, serialize_response (success [] 0))
dispatch_peer Message.ack now r b = (
  record b {
    replication =
        Replication.handle_ack r.broker_id r.topic r.partition r.fetch_offset b.replication;
  },
  none,
  serialize_response (success [] 0),
)
dispatch_peer Message.heartbeat now r b = (
  record b { replication = Replication.handle_heartbeat r.broker_id now b.replication },
  none,
  serialize_response (success [] 0),
)
dispatch_peer Message.commit now r b = (
  record b { replication = Replication.handle_commit_request r b.replication },
  none,
  serialize_response (success [] 0),
)
dispatch_peer _ now r b =
    (b, none, serialize_response (refuse (codes "unknown_inter_broker_request")))

unfoldable pub handle_inter_broker_request : ℕ → Request → Broker → Broker × Option Bytes × Bytes
handle_inter_broker_request now r b = dispatch_peer r.type now r b

-- One turn of heartbeat_loop, which reads the clock before it elects and again after it.
unfoldable pub heartbeat_turn : Network → ℕ → ℕ → Broker → Broker
heartbeat_turn net before now b = record b {
  replication = Exchange.broadcast_heartbeat net.sent net.clock before now b.replication;
}
