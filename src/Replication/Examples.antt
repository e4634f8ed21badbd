-- ===== src/Replication/Examples.antt =====
-- A leader of three brokers and a follower, and the theorems at concrete inputs.
use streaming_platform.Prelude.{
  ℕ, ◌+◌, some, get_elem?, arith, ◌≡◌, refl, List, [], ◌∷◌, ◌||◌, ◌&&◌, ◌==◌, nat_eq, leb, pos,
  list_Key, lookup,
}
use streaming_platform.Text.{codes}
use streaming_platform.Config.{BrokerConfig, leader, follower}
use streaming_platform.Protocol.Message.{Request, blank, replicate}
use streaming_platform.Storage.Engine
use streaming_platform.Storage.Examples.{fresh, fresh-IsEngine}
use streaming_platform.Replication.Exchange.{handle_replication_request, append_batch, build_ack}
use streaming_platform.Replication.Follower.{handle_replication_request-fetch}
use streaming_platform.Replication.{Manager, new_manager, is_committed, mark_committed}
use streaming_platform.Replication.Commits.{is_committed-commit}
use streaming_platform.Replication.Acks.{Event, acknowledged, counts_itself}

abbrev three_brokers : BrokerConfig
three_brokers = record {
  port = pos 9000;
  broker_id = pos 1;
  ip_address = codes "a";
  peers =
      record { broker_id = pos 2; host = codes "b"; port = pos 9001 }
      ∷ record { broker_id = pos 3; host = codes "c"; port = pos 9002 }
      ∷ [];
  data_directory = codes "data";
  type = leader;
  leader_broker_id = pos 1;
}

-- A round of replication: the leader counts itself, and one follower acknowledges.
abbrev history : List Event
history =
    counts_itself (codes "t") (pos 0) 4
    ∷ acknowledged (record { follower = pos 2; topic = codes "t"; partition = pos 0; offset = 4 })
    ∷ []

abbrev started : Manager
started = new_manager three_brokers 0

is_committed-commit_example :
    is_committed (codes "t") (pos 0) 3 (mark_committed (codes "t") (pos 0) 4 started) ≡ (
      is_committed (codes "t") (pos 0) 3 started
      || ((codes "t" == codes "t") && nat_eq 0 0) && leb 3 4)
is_committed-commit_example = is_committed-commit (codes "t") (codes "t") 0 0 4 3 started

abbrev follower_config : BrokerConfig
follower_config = record three_brokers { broker_id = pos 2; type = follower }

abbrev request : Request
request = record (blank replicate) { topic = codes "t"; partition = pos 0; message = codes "m" }

request-acknowledged :
    (handle_replication_request request (new_manager follower_config 0) fresh).1
    ≡ some (build_ack (pos 2) (codes "t") (pos 0) 0)
unfolding handle_replication_request append_batch new_manager streaming_platform.Config.is_leader
    streaming_platform.Storage.Engine.append streaming_platform.Storage.Log.append
    streaming_platform.Storage.Engine.get_or_create_log lookup
    streaming_platform.Storage.Log.Recovery.open_log
    streaming_platform.Storage.Log.Recovery.recover_wal
    streaming_platform.Storage.Log.Recovery.load_existing_segments
    streaming_platform.Storage.Log.Recovery.load_sorted
    streaming_platform.Storage.Log.Recovery.sort_files
    streaming_platform.Storage.Log.Recovery.segment_files
request-acknowledged = refl

handle_replication_request-fetch_example :
    ◌≡◌ {A = ℕ} 0 0
    × (Engine.fetch
          (codes "t")
          (pos 0)
          (0 + 0)
          (handle_replication_request request (new_manager follower_config 0) fresh).0
        ≡ get_elem? (codes "m" ∷ []) 0)
handle_replication_request-fetch_example =
    handle_replication_request-fetch request (new_manager follower_config 0) fresh (λ key. [])
      (build_ack (pos 2) (codes "t") (pos 0) 0) 0 fresh-IsEngine (omega arith) request-acknowledged
      (omega arith)
