-- ===== src/Protocol/RoundTrip.antt =====
-- Parsing an encoded request, for every type of request.
use streaming_platform.Prelude.{
  ◌^◌, ◌<◌, ◌≡◌, refl, ap, ◌∙◌, ◌≢◌, true, [], ◌++◌, append_assoc, append-nil, IsInt32,
}
use streaming_platform.Text.{Bytes}
use streaming_platform.Protocol.Wire.{put_u8}
use streaming_platform.Protocol.Message.{
  RequestType, Request, blank, produce, fetch, replicate, ack, heartbeat, commit, metadata,
  join_group, leave_group, group_fetch, commit_offset, group_assignment, batch_produce,
  batch_replicate, error,
}
use streaming_platform.Protocol.Codec.{
  finish, encode_as, parse_body, encode_body, parse_request, encode_request, set_topic, set_broker,
  set_message, set_group, set_member,
}
use streaming_platform.Protocol.Fields.{
  at, FitsString, FitsBatch, string_field_lem, offset_field_lem, int_field_lem, heartbeat_field_lem,
  topic_partition_lem, batch_lem,
}

-- What a request of each type carries over the wire; the other fields arrive as the parser sets
-- them at the start.
abbrev pub carried : RequestType → Request → Request
carried produce r = record (blank produce) {
  topic = r.topic;
  partition = r.partition;
  message = r.message;
  fetch_offset = r.fetch_offset;
}
carried batch_produce r = record (blank batch_produce) {
  topic = r.topic;
  partition = r.partition;
  messages = r.messages;
}
carried batch_replicate r = record (blank batch_replicate) {
  topic = r.topic;
  partition = r.partition;
  fetch_offset = r.fetch_offset;
  messages = r.messages;
}
carried fetch r = record (blank fetch) {
  topic = r.topic;
  partition = r.partition;
  fetch_offset = r.fetch_offset;
}
carried commit r = record (blank commit) {
  topic = r.topic;
  partition = r.partition;
  fetch_offset = r.fetch_offset;
}
carried replicate r = record (blank replicate) {
  topic = r.topic;
  partition = r.partition;
  message = r.message;
  fetch_offset = r.fetch_offset;
}
carried ack r = record (blank ack) {
  topic = r.topic;
  partition = r.partition;
  fetch_offset = r.fetch_offset;
  broker_id = r.broker_id;
}
carried heartbeat r = record (blank heartbeat) { broker_id = r.broker_id }
carried group_fetch r = record (blank group_fetch) {
  topic = r.topic;
  partition = r.partition;
  fetch_offset = r.fetch_offset;
  group_id = r.group_id;
  member_id = r.member_id;
}
carried commit_offset r = record (blank commit_offset) {
  topic = r.topic;
  partition = r.partition;
  fetch_offset = r.fetch_offset;
  group_id = r.group_id;
  member_id = r.member_id;
}
carried join_group r = record (blank join_group) {
  topic = r.topic;
  group_id = r.group_id;
  member_id = r.member_id;
}
carried leave_group r = record (blank leave_group) {
  topic = r.topic;
  group_id = r.group_id;
  member_id = r.member_id;
}
carried group_assignment r = record (blank group_assignment) {
  topic = r.topic;
  group_id = r.group_id;
  member_id = r.member_id;
}
carried metadata r = blank metadata
carried error r = blank error

-- The values that a Request of the program can hold, within the limits of the parser.
pub record Fits (r : Request) : Type 0 where
  pub topic : FitsString r.topic
  pub partition : IsInt32 r.partition
  pub message : FitsString r.message
  pub fetch_offset : r.fetch_offset < 2 ^ 64
  pub broker_id : IsInt32 r.broker_id
  pub group_id : FitsString r.group_id
  pub member_id : FitsString r.member_id
  pub messages : FitsBatch r.messages

pub body_round_trip :
    (t : RequestType) (r : Request)
    → t ≢ error
    → Fits r
    → (rest : Bytes)
    → parse_body t (at (blank t) (encode_body t r ++ rest)) ≡ (true, at (carried t r) rest)
unfolding parse_body encode_body
body_round_trip produce r h f rest = simp (
  append_assoc,
  topic_partition_lem r f.topic f.partition,
  string_field_lem set_message r.message f.message,
  offset_field_lem r.fetch_offset f.fetch_offset,
)
body_round_trip batch_produce r h f rest =
    simp (append_assoc, topic_partition_lem r f.topic f.partition, batch_lem r.messages f.messages)
body_round_trip batch_replicate r h f rest = simp (
  append_assoc,
  topic_partition_lem r f.topic f.partition,
  offset_field_lem r.fetch_offset f.fetch_offset,
  batch_lem r.messages f.messages,
)
body_round_trip fetch r h f rest = simp (
  append_assoc,
  topic_partition_lem r f.topic f.partition,
  offset_field_lem r.fetch_offset f.fetch_offset,
)
body_round_trip commit r h f rest = simp (
  append_assoc,
  topic_partition_lem r f.topic f.partition,
  offset_field_lem r.fetch_offset f.fetch_offset,
)
body_round_trip replicate r h f rest = simp (
  append_assoc,
  topic_partition_lem r f.topic f.partition,
  offset_field_lem r.fetch_offset f.fetch_offset,
  string_field_lem set_message r.message f.message,
)
body_round_trip ack r h f rest = simp (
  append_assoc,
  offset_field_lem r.fetch_offset f.fetch_offset,
  int_field_lem set_broker r.broker_id f.broker_id,
  topic_partition_lem r f.topic f.partition,
)
body_round_trip heartbeat r h f rest = simp (heartbeat_field_lem r.broker_id f.broker_id)
body_round_trip join_group r h f rest = simp (
  append_assoc,
  string_field_lem set_group r.group_id f.group_id,
  string_field_lem set_member r.member_id f.member_id,
  string_field_lem set_topic r.topic f.topic,
)
body_round_trip leave_group r h f rest = simp (
  append_assoc,
  string_field_lem set_group r.group_id f.group_id,
  string_field_lem set_member r.member_id f.member_id,
  string_field_lem set_topic r.topic f.topic,
)
body_round_trip group_assignment r h f rest = simp (
  append_assoc,
  string_field_lem set_group r.group_id f.group_id,
  string_field_lem set_member r.member_id f.member_id,
  string_field_lem set_topic r.topic f.topic,
)
body_round_trip group_fetch r h f rest = simp (
  append_assoc,
  string_field_lem set_group r.group_id f.group_id,
  string_field_lem set_member r.member_id f.member_id,
  topic_partition_lem r f.topic f.partition,
  offset_field_lem r.fetch_offset f.fetch_offset,
)
body_round_trip commit_offset r h f rest = simp (
  append_assoc,
  string_field_lem set_group r.group_id f.group_id,
  string_field_lem set_member r.member_id f.member_id,
  topic_partition_lem r f.topic f.partition,
  offset_field_lem r.fetch_offset f.fetch_offset,
)
body_round_trip metadata r h f rest = refl
body_round_trip error r h f rest = absurd (h refl)

finished :
    (t : RequestType) (r : Request)
    → t ≢ error
    → Fits r
    → finish (parse_body t (at (blank t) (encode_body t r))) ≡ carried t r
finished t r h f = ap finish (rw append-nil at (body_round_trip t r h f []))

opened :
    (t : RequestType) (r : Request)
    → t ≢ error
    → parse_request (encode_as t r) ≡ finish (parse_body t (at (blank t) (encode_body t r)))
unfolding parse_request put_u8
opened produce r h = refl
opened error r h = absurd (h refl)
opened _ r h = refl

-- For every request of a type that is sent, whose fields fit: parsing what `encode_request` writes
-- gives the fields that its type carries, and the defaults elsewhere.
pub parse_request-encode_request :
    (r : Request) → r.type ≢ error → Fits r → parse_request (encode_request r) ≡ carried r.type r
unfolding encode_request
parse_request-encode_request r h f = opened r.type r h ∙ finished r.type r h f
