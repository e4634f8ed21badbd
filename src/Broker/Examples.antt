-- ===== src/Broker/Examples.antt =====
-- A leader without peers takes one record, and the theorem at it.
use streaming_platform.Prelude.{◌≡◌, refl, true, none, [], pos, lookup, insert, list_Key}
use streaming_platform.Text.{Bytes, codes}
use streaming_platform.Config.{BrokerConfig, leader}
use streaming_platform.Protocol.Message.{Request, blank, produce}
use streaming_platform.Replication.{new_manager}
use streaming_platform.Storage.Examples.{fresh}
use streaming_platform.Broker.{Broker, Network, unreachable, handle_produce, handle_fetch, success}

abbrev pub no_network : Network
no_network = record {
  reply = λ id request. none;
  sent = λ id request. true;
  forwarded = λ leader request. unreachable;
  clock = λ id. 0;
}

abbrev pub alone : BrokerConfig
alone = record {
  port = pos 9092;
  broker_id = pos 1;
  ip_address = codes "a";
  peers = [];
  data_directory = codes "data";
  type = leader;
  leader_broker_id = pos 1;
}

abbrev pub broker : Broker
broker = record { storage = fresh; replication = new_manager alone 0; groups = [] }

abbrev pub request : Request
request = record (blank produce) { topic = codes "t"; partition = pos 0; message = codes "m" }

pub answered : (handle_produce no_network request broker).1.success ≡ true
unfolding handle_produce streaming_platform.Config.is_leader new_manager
    streaming_platform.Broker.settle streaming_platform.Replication.Exchange.replicate_message
    streaming_platform.Replication.quorum_reached streaming_platform.Replication.wait_for_quorum
    lookup insert streaming_platform.Replication.Exchange.replicate_to_peers
    streaming_platform.Replication.Exchange.count_self streaming_platform.Replication.make_ack_key
    streaming_platform.Replication.make_log_key streaming_platform.Replication.first_heartbeats
    streaming_platform.Text.int_to_string streaming_platform.Text.to_string
    streaming_platform.Text.decimal_loop streaming_platform.Storage.Engine.append
    streaming_platform.Storage.Log.append streaming_platform.Storage.Engine.get_or_create_log
    streaming_platform.Storage.Engine.make_key streaming_platform.Storage.Log.Recovery.open_log
    streaming_platform.Storage.Log.Recovery.recover_wal
    streaming_platform.Storage.Log.Recovery.load_existing_segments
    streaming_platform.Storage.Log.Recovery.load_sorted
    streaming_platform.Storage.Log.Recovery.sort_files
    streaming_platform.Storage.Log.Recovery.segment_files
answered = refl
