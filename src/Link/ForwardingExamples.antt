-- ===== src/Link/ForwardingExamples.antt =====
-- A produce request at a follower whose leader is broker 1, and the theorem at it.
use streaming_platform.Prelude.{
  ◌<◌, ◌^◌, ◌≡◌, refl, true, false, some, [], ◌∷◌, arith, length, pos, lookup, insert,
}
use streaming_platform.Text.{codes}
use streaming_platform.Config
use streaming_platform.Config.{follower, LeaderEndpoint}
use streaming_platform.Protocol.Message.{Request, blank, produce}
use streaming_platform.Protocol.Codec.{encode_request}
use streaming_platform.Protocol.Reply.{serialize_response, FitsResponse}
use streaming_platform.Replication.{new_manager}
use streaming_platform.Frame.{framed}
use streaming_platform.Broker.{Broker, success, handle_request}
use streaming_platform.Broker.Examples.{no_network, alone, broker}
use streaming_platform.Server.{handle_client}
use streaming_platform.Link.{Line, network_of, connect_to_host}
use streaming_platform.Link.Forwarding.{gets_through, IsRefusal, handle_request-forwarded}

abbrev produce_request : Request
produce_request = record (blank produce) {
  topic = codes "t";
  partition = pos 0;
  message = codes "m";
}

abbrev forwarder : Broker
forwarder = record broker {
  replication =
      new_manager
        (record alone {
          broker_id = pos 2;
          type = follower;
          peers = record { broker_id = pos 1; host = codes "a"; port = pos 9000 } ∷ [];
        })
        0;
}

abbrev leader_endpoint : LeaderEndpoint
leader_endpoint = record { broker_id = pos 1; host = codes "a"; port = pos 9000 }

abbrev leader_line : Line
leader_line = record {
  dial = record { descriptor = some 7; is_address = true; connects = true };
  writes = 3 ∷ 100 ∷ [];
  reads = 2 ∷ 2 ∷ 1 ∷ 100 ∷ [];
  stream =
      framed (handle_client no_network ((5, encode_request produce_request) ∷ []) (some broker)).1;
}

known : Config.get_leader_endpoint forwarder.replication.config ≡ some leader_endpoint
unfolding Config.get_leader_endpoint new_manager
known = refl

leader_response : (handle_request no_network produce_request broker).1 ≡ success [] 0
unfolding handle_request streaming_platform.Broker.handle_produce
    streaming_platform.Config.is_leader new_manager streaming_platform.Broker.settle
    streaming_platform.Replication.Exchange.replicate_message
    streaming_platform.Replication.quorum_reached streaming_platform.Replication.wait_for_quorum
    lookup insert streaming_platform.Replication.Exchange.replicate_to_peers
    streaming_platform.Replication.Exchange.count_self streaming_platform.Replication.make_ack_key
    streaming_platform.Replication.make_log_key streaming_platform.Replication.first_heartbeats
    streaming_platform.Text.int_to_string streaming_platform.Text.to_string
    streaming_platform.Text.decimal_loop streaming_platform.Storage.Engine.append
    streaming_platform.Storage.Log.append streaming_platform.Storage.Engine.get_or_create_log
    streaming_platform.Storage.Engine.make_key streaming_platform.Storage.Log.Recovery.open_log
    streaming_platform.Storage.Log.Recovery.recover_wal
    streaming_platform.Storage.Log.Recovery.load_existing_segments
    streaming_platform.Storage.Log.Recovery.load_sorted
    streaming_platform.Storage.Log.Recovery.sort_files
    streaming_platform.Storage.Log.Recovery.segment_files
leader_response = refl

leader_response-FitsResponse : FitsResponse (handle_request no_network produce_request broker).1
leader_response-FitsResponse =
    rw leader_response
      (record { message = omega arith; offset = omega arith; few = omega arith; offsets = tt })

leader_response-small :
    length (serialize_response (handle_request no_network produce_request broker).1) < 2 ^ 32
unfolding serialize_response streaming_platform.Protocol.Wire.put_u8
    streaming_platform.Protocol.Wire.put_u64 streaming_platform.Protocol.Wire.put_u32
    streaming_platform.Protocol.Wire.put_string streaming_platform.Protocol.Reply.put_offsets
leader_response-small = rw leader_response (omega arith)

handle_request-forwarded_example :
    let through =
      gets_through leader_line
        (encode_request produce_request)
        (connect_to_host leader_line.dial).socket_fd in
    let out =
      handle_request
        (network_of (λ p x. leader_line) (λ e x. leader_line) (λ p. 0))
        produce_request
        forwarder in
    (out.0 ≡ forwarder)
    × ((handle_client no_network ((5, encode_request produce_request) ∷ []) (some broker)).0
        ≡ some (handle_request no_network produce_request broker).0)
    × (through ≡ true → out.1 ≡ (handle_request no_network produce_request broker).1)
    × (through ≡ false → IsRefusal out.1)
unfolding new_manager Config.is_leader
handle_request-forwarded_example =
    handle_request-forwarded (λ p x. leader_line) (λ e x. leader_line) (λ p. 0) no_network 5
      produce_request forwarder broker leader_endpoint refl known tt
      (record {
        topic = omega arith;
        partition = omega arith;
        message = omega arith;
        fetch_offset = omega arith;
        broker_id = omega arith;
        group_id = omega arith;
        member_id = omega arith;
        messages = omega arith;
      })
      leader_response-FitsResponse leader_response-small refl
