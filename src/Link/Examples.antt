-- ===== src/Link/Examples.antt =====
-- A follower that acknowledges a record, and the theorems at it.
use streaming_platform.Prelude.{
  ◌<◌, ◌^◌, ◌≡◌, refl, true, Option, some, List, [], ◌∷◌, All, length, arith, pos, lookup, insert,
  list_Key,
}
use streaming_platform.Text.{Bytes, codes}
use streaming_platform.Config.{follower}
use streaming_platform.Replication.{new_manager}
use streaming_platform.Replication.Exchange.{
  replicate_to_peer, build_ack, build_replication_request,
}
use streaming_platform.Storage.Examples.{fresh-IsEngine}
use streaming_platform.Broker.{Broker, success}
use streaming_platform.Broker.Examples.{no_network, alone, broker}
use streaming_platform.Protocol.Reply.{serialize_response}
use streaming_platform.Server.{handle_client}
use streaming_platform.Server.Replicas.{HasRecord}
use streaming_platform.Link.{Line, Dial, send_one_shot_to_peer}
use streaming_platform.Link.Sockets.{Closed, send_one_shot_to_peer-Closed}
use streaming_platform.Frame.{framed}
use streaming_platform.Link.Delivery.{replicate_to_peer-send_one_shot_to_peer}

abbrev follower_broker : Broker
follower_broker = record broker {
  replication = new_manager (record alone { broker_id = pos 2; type = follower }) 0;
}

abbrev request : Bytes
request = build_replication_request (codes "t") (pos 0) 0 (codes "m")

abbrev out : Option Broker × List Bytes
out = handle_client no_network ((5, request) ∷ []) (some follower_broker)

abbrev line : Line
line = record {
  dial = record { descriptor = some 7; is_address = true; connects = true };
  writes = 3 ∷ 100 ∷ [];
  reads = 2 ∷ 2 ∷ 1 ∷ 100 ∷ [];
  stream = framed out.1;
}

-- An ACK of offset 0, and the response.
out_lem : out.1 ≡ build_ack (pos 2) (codes "t") (pos 0) 0 ∷ serialize_response (success [] 0) ∷ []
unfolding streaming_platform.Server.handle_client streaming_platform.Server.process_request
    streaming_platform.Broker.handle_inter_broker_request
    streaming_platform.Replication.Exchange.handle_replication_request
    streaming_platform.Replication.Exchange.append_batch
    streaming_platform.Replication.Exchange.build_ack build_replication_request
    streaming_platform.Protocol.Codec.encode_request streaming_platform.Protocol.Codec.parse_request
    new_manager streaming_platform.Config.is_leader streaming_platform.Storage.Engine.append
    streaming_platform.Storage.Log.append streaming_platform.Storage.Engine.get_or_create_log
    streaming_platform.Storage.Engine.make_key streaming_platform.Storage.Log.Recovery.open_log
    streaming_platform.Storage.Log.Recovery.recover_wal
    streaming_platform.Storage.Log.Recovery.load_existing_segments
    streaming_platform.Storage.Log.Recovery.load_sorted
    streaming_platform.Storage.Log.Recovery.sort_files
    streaming_platform.Storage.Log.Recovery.segment_files
    streaming_platform.Protocol.Reply.serialize_response lookup insert
    streaming_platform.Protocol.Wire.put_u8 streaming_platform.Protocol.Codec.parse_body
    streaming_platform.Protocol.Codec.get_topic_partition
    streaming_platform.Protocol.Codec.string_field streaming_platform.Protocol.Wire.get_string
    streaming_platform.Protocol.Codec.encode_body
    streaming_platform.Protocol.Codec.put_topic_partition
    streaming_platform.Protocol.Wire.put_string streaming_platform.Protocol.Wire.put_u64
    streaming_platform.Protocol.Codec.int_field streaming_platform.Protocol.Codec.offset_field
    streaming_platform.Protocol.Wire.get_u64
out_lem = refl

out-small : All (λ (x : Bytes). length x < 2 ^ 32) out.1
unfolding build_ack streaming_platform.Protocol.Codec.encode_request
    streaming_platform.Protocol.Wire.put_u8 streaming_platform.Protocol.Codec.encode_body
    streaming_platform.Protocol.Wire.put_u64 streaming_platform.Protocol.Wire.put_u32
    streaming_platform.Protocol.Codec.put_topic_partition
    streaming_platform.Protocol.Wire.put_string serialize_response
    streaming_platform.Protocol.Reply.put_offsets
out-small = rw out_lem (omega arith, (omega arith, tt))

counted :
    (replicate_to_peer
      (send_one_shot_to_peer line request true).response
      (codes "t")
      (pos 0)
      0
      (new_manager alone 0)).1
    ≡ true
unfolding streaming_platform.Server.handle_client streaming_platform.Server.process_request
    streaming_platform.Broker.handle_inter_broker_request
    streaming_platform.Replication.Exchange.handle_replication_request
    streaming_platform.Replication.Exchange.append_batch
    streaming_platform.Replication.Exchange.build_ack build_replication_request
    streaming_platform.Protocol.Codec.encode_request streaming_platform.Protocol.Codec.parse_request
    new_manager streaming_platform.Config.is_leader streaming_platform.Storage.Engine.append
    streaming_platform.Storage.Log.append streaming_platform.Storage.Engine.get_or_create_log
    streaming_platform.Storage.Engine.make_key streaming_platform.Storage.Log.Recovery.open_log
    streaming_platform.Storage.Log.Recovery.recover_wal
    streaming_platform.Storage.Log.Recovery.load_existing_segments
    streaming_platform.Storage.Log.Recovery.load_sorted
    streaming_platform.Storage.Log.Recovery.sort_files
    streaming_platform.Storage.Log.Recovery.segment_files
    streaming_platform.Protocol.Reply.serialize_response lookup insert
    streaming_platform.Protocol.Wire.put_u8 streaming_platform.Protocol.Codec.parse_body
    streaming_platform.Protocol.Codec.get_topic_partition
    streaming_platform.Protocol.Codec.string_field streaming_platform.Protocol.Wire.get_string
    streaming_platform.Protocol.Codec.encode_body
    streaming_platform.Protocol.Codec.put_topic_partition
    streaming_platform.Protocol.Wire.put_string streaming_platform.Protocol.Wire.put_u64
    streaming_platform.Protocol.Codec.int_field streaming_platform.Protocol.Codec.offset_field
    streaming_platform.Protocol.Wire.get_u64 streaming_platform.Protocol.Wire.put_u32
    streaming_platform.Protocol.Wire.get_u32 streaming_platform.Frame.wrap_frame
    streaming_platform.Frame.write_frame streaming_platform.Frame.write_loop
    streaming_platform.Frame.consume streaming_platform.Frame.read_frame
    streaming_platform.Frame.read_exact send_one_shot_to_peer
    streaming_platform.Link.connect_to_host replicate_to_peer
    streaming_platform.Replication.Exchange.take_ack streaming_platform.Protocol.Reply.put_offsets
counted = refl

replicate_to_peer-send_one_shot_to_peer_example : HasRecord (codes "t") (pos 0) 0 (codes "m") out.0
replicate_to_peer-send_one_shot_to_peer_example =
    replicate_to_peer-send_one_shot_to_peer no_network 5 [] (codes "t") (pos 0) 0 (codes "m")
      follower_broker (λ key. []) (new_manager alone 0) line fresh-IsEngine
      (record {
        topic = omega arith;
        partition = omega arith;
        message = omega arith;
        fetch_offset = omega arith;
        broker_id = omega arith;
        group_id = omega arith;
        member_id = omega arith;
        messages = omega arith;
      })
      (omega arith) out-small refl counted

send_one_shot_to_peer-Closed_example : Closed line request
send_one_shot_to_peer-Closed_example = send_one_shot_to_peer-Closed line request
