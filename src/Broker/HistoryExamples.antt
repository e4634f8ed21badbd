-- ===== src/Broker/HistoryExamples.antt =====
-- Brokers with requests after each other, refused requests, and the theorems at them.
use streaming_platform.Prelude.{
  ◌≡◌, refl, false, ◌⊎◌, [], ◌∷◌, List, All, arith, pos, lookup, insert, list_Key,
}
use streaming_platform.Text.{codes}
use streaming_platform.Config.{BrokerConfig}
use streaming_platform.Protocol.Message.{Request, blank, batch_produce, heartbeat, join_group}
use streaming_platform.Replication.{new_manager}
use streaming_platform.Storage.Examples.{fresh-IsEngine}
use streaming_platform.Broker
use streaming_platform.Broker.{
  Broker, handle_produce, handle_batch_produce, handle_fetch, handle_request, success,
}
use streaming_platform.Broker.Examples.{no_network, alone, broker, request, answered}
use streaming_platform.Broker.History.{
  Event, FitsEvent, client, peer, heartbeat, run, handle_fetch-run,
}
use streaming_platform.Broker.Batch.{handle_batch_produce-run}
use streaming_platform.Broker.Refusals.{Refused, Unreplicated, handle_produce-failure}
use streaming_platform.Broker.Heartbeats.{
  Order, start_order, stop_order, stopped_heart, obey, beating, obey-beating,
}

-- A heartbeat of a peer, the same request again, and a turn of the heartbeat loop.
abbrev later : List Event
later =
    peer 5 (record (blank streaming_platform.Protocol.Message.heartbeat) { broker_id = pos 2 })
    ∷ client no_network request
    ∷ heartbeat no_network 6 7
    ∷ []

later-FitsEvent : All FitsEvent later
later-FitsEvent =
    (record { one = omega arith; batch = tt }, (record { one = omega arith; batch = tt }, (tt, tt)))

handle_fetch-run_example :
    handle_fetch
      (record request {
        fetch_offset = (handle_produce no_network request broker).1.appended_offset;
      })
      (run later (handle_produce no_network request broker).0)
    ≡ success (codes "m") (handle_produce no_network request broker).1.appended_offset
unfolding streaming_platform.Config.is_leader new_manager
handle_fetch-run_example =
    handle_fetch-run no_network request broker (λ key. []) later refl fresh-IsEngine (omega arith)
      later-FitsEvent answered

abbrev batch : Request
batch = record (blank batch_produce) {
  topic = codes "t";
  partition = pos 0;
  messages = codes "m" ∷ codes "n" ∷ [];
}

batch-answered :
    (handle_batch_produce no_network batch broker).1
    ≡ record (success [] 1) { appended_offsets = 0 ∷ 1 ∷ [] }
unfolding handle_batch_produce streaming_platform.Config.is_leader new_manager
    streaming_platform.Broker.settle_batch streaming_platform.Broker.append_all
    streaming_platform.Replication.Exchange.replicate_batch
    streaming_platform.Replication.quorum_reached streaming_platform.Replication.wait_for_quorum
    lookup insert streaming_platform.Replication.Exchange.replicate_batch_to_peers
    streaming_platform.Replication.Exchange.count_self streaming_platform.Replication.make_ack_key
    streaming_platform.Replication.make_log_key streaming_platform.Replication.first_heartbeats
    streaming_platform.Text.int_to_string streaming_platform.Text.to_string
    streaming_platform.Text.decimal_loop streaming_platform.Storage.Engine.append
    streaming_platform.Storage.Log.append streaming_platform.Storage.Engine.get_or_create_log
    streaming_platform.Storage.Engine.make_key streaming_platform.Storage.Log.Recovery.open_log
    streaming_platform.Storage.Log.Recovery.recover_wal
    streaming_platform.Storage.Log.Recovery.load_existing_segments
    streaming_platform.Storage.Log.Recovery.load_sorted
    streaming_platform.Storage.Log.Recovery.sort_files
    streaming_platform.Storage.Log.Recovery.segment_files
    streaming_platform.Storage.Log.count_append streaming_platform.Storage.Log.roll
    streaming_platform.Storage.Log.write_record streaming_platform.Storage.Segment.sizes
    streaming_platform.Storage.Segment.append streaming_platform.Storage.Segment.reopen
batch-answered = refl

handle_batch_produce-run_example :
    handle_fetch
      (record batch { message = codes "n"; fetch_offset = 1 })
      (run later (handle_batch_produce no_network batch broker).0)
    ≡ success (codes "n") 1
unfolding streaming_platform.Config.is_leader new_manager
handle_batch_produce-run_example =
    handle_batch_produce-run no_network batch broker (λ key. []) later 1 1 (codes "n") refl
      fresh-IsEngine (omega arith) later-FitsEvent (rw batch-answered refl) refl refl
      (rw batch-answered refl)

-- A leader that nobody answers.
abbrev lonely : BrokerConfig
lonely = record alone {
  peers = record { broker_id = pos 2; host = codes "b"; port = pos 9093 } ∷ [];
}

abbrev lonely_broker : Broker
lonely_broker = record broker { replication = new_manager lonely 0 }

lonely-failed : (handle_produce no_network request lonely_broker).1.success ≡ false
unfolding handle_produce streaming_platform.Config.is_leader new_manager
    streaming_platform.Broker.settle streaming_platform.Replication.Exchange.replicate_message
    streaming_platform.Replication.quorum_reached streaming_platform.Replication.wait_for_quorum
    lookup insert streaming_platform.Replication.Exchange.replicate_to_peers
    streaming_platform.Replication.Exchange.replicate_to_peer
    streaming_platform.Replication.is_peer_available
    streaming_platform.Replication.mark_follower_failed
    streaming_platform.Replication.Exchange.count_self streaming_platform.Replication.make_ack_key
    streaming_platform.Replication.make_log_key streaming_platform.Replication.first_heartbeats
    streaming_platform.Text.int_to_string streaming_platform.Text.to_string
    streaming_platform.Text.decimal_loop streaming_platform.Storage.Engine.append
    streaming_platform.Storage.Log.append streaming_platform.Storage.Engine.get_or_create_log
    streaming_platform.Storage.Engine.make_key streaming_platform.Storage.Log.Recovery.open_log
    streaming_platform.Storage.Log.Recovery.recover_wal
    streaming_platform.Storage.Log.Recovery.load_existing_segments
    streaming_platform.Storage.Log.Recovery.load_sorted
    streaming_platform.Storage.Log.Recovery.sort_files
    streaming_platform.Storage.Log.Recovery.segment_files
lonely-failed = refl

handle_produce-failure_example :
    Refused no_network request lonely_broker ⊎ Unreplicated no_network request lonely_broker
unfolding streaming_platform.Config.is_leader new_manager
handle_produce-failure_example =
    handle_produce-failure no_network request lonely_broker (λ key. []) refl fresh-IsEngine
      (omega arith) lonely-failed

abbrev orders : List Order
orders = stop_order ∷ start_order ∷ start_order ∷ []

obey-beating_example :
    (obey orders stopped_heart).threads ≡ beating (obey orders stopped_heart).running
obey-beating_example = obey-beating orders
