-- ===== src/Protocol/Codec.antt =====
-- parse_request, encode_request, parse_response and serialize_response of src/protocol/protocol.cpp.
use streaming_platform.Prelude.{
  ℕ, zero, suc, ◌%◌, ◌^◌, Bool, true, false, not, ◌&&◌, ◌||◌, Option, none, some, List, [], ◌∷◌,
  ◌++◌, ltb, leb, nat_eq, if◌then◌else◌, length, ℤ, to_u32, of_u32,
}
use streaming_platform.Text.{Bytes}
use streaming_platform.Protocol.Wire.{
  protocol_version, max_batch_messages, put_u8, put_u32, put_u64, put_string, get_u8, get_u32,
  get_u64, get_string,
}
use streaming_platform.Protocol.Message.{
  RequestType, Request, blank, code, of_code, produce, fetch, replicate, ack, heartbeat, commit,
  metadata, join_group, leave_group, group_fetch, commit_offset, group_assignment, batch_produce,
  batch_replicate, error,
}

-- `request` and the bytes of the payload from `pos` on.
pub record Reader : Type 0 where
  pub request : Request
  pub rest : Bytes

-- One operand of the chains of `&&`; it may have changed the request also where it fails.
abbrev pub Step : Type 0
Step = Reader → Bool × Reader

abbrev pub continue : Step → Bool × Reader → Bool × Reader
continue n (ok, s) = if ok then n s else (false, s)

infixr 30 ◌▸◌
abbrev pub ◌▸◌ : Step → Step → Step
◌▸◌ m n s = continue n (m s)

abbrev pub store_string :
    (Bytes → Request → Request) → Request → Option Bytes × Bytes → Bool × Reader
store_string set r (none, rest) = (false, record { request = r; rest = rest })
store_string set r (some v, rest) = (true, record { request = set v r; rest = rest })

-- get_string(payload, pos, request.field)
unfoldable pub string_field : (Bytes → Request → Request) → Step
string_field set s = store_string set s.request (get_string s.rest)

abbrev pub store_number : (ℕ → Request → Request) → Request → Bool × ℕ × Bytes → Bool × Reader
store_number set r (ok, v, rest) = (ok, record { request = set v r; rest = rest })

-- get_u64(payload, pos, request.fetch_offset)
unfoldable pub offset_field : Step
offset_field s = store_number (λ v r. record r { fetch_offset = v }) s.request (get_u64 s.rest)

-- get_u32(payload, pos, local) && (request.field = static_cast<int32_t>(local), true)
abbrev pub store_int : (ℤ → Request → Request) → Request → Bool × ℕ × Bytes → Bool × Reader
store_int set r (ok, v, rest) =
    if ok
    then (true, record { request = set (of_u32 v) r; rest = rest })
    else (false, record { request = r; rest = rest })

unfoldable pub int_field : (ℤ → Request → Request) → Step
int_field set s = store_int set s.request (get_u32 s.rest)

-- valid = get_u32(payload, pos, broker); request.broker_id = static_cast<int32_t>(broker);
unfoldable pub heartbeat_field : Step
heartbeat_field s =
    store_number (λ v r. record r { broker_id = of_u32 v }) s.request (get_u32 s.rest)

abbrev pub set_topic : Bytes → Request → Request
set_topic v r = record r { topic = v }

abbrev pub set_partition : ℤ → Request → Request
set_partition v r = record r { partition = v }

abbrev pub set_broker : ℤ → Request → Request
set_broker v r = record r { broker_id = v }

abbrev pub set_message : Bytes → Request → Request
set_message v r = record r { message = v }

abbrev pub set_group : Bytes → Request → Request
set_group v r = record r { group_id = v }

abbrev pub set_member : Bytes → Request → Request
set_member v r = record r { member_id = v }

abbrev pub push_message : Bytes → Request → Request
push_message v r = record r { messages = r.messages ++ v ∷ [] }

unfoldable pub get_topic_partition : Step
get_topic_partition = string_field set_topic ▸ int_field set_partition

-- while (valid && request.messages.size() < count) { … }, with the rounds that are left
unfoldable pub get_messages : ℕ → Step
get_messages zero s = (true, s)
get_messages (suc k) s = continue (get_messages k) (string_field push_message s)

abbrev pub batch_count : Request → Bool × ℕ × Bytes → Bool × Reader
batch_count r (ok, count, rest) =
    if ok && leb count max_batch_messages
    then get_messages count (record { request = r; rest = rest })
    else (false, record { request = r; rest = rest })

-- get_u32(payload, pos, count) && count <= kMaxBatchMessages, and the loop
unfoldable pub get_batch : Step
get_batch s = batch_count s.request (get_u32 s.rest)

unfoldable pub parse_body : RequestType → Step
parse_body produce = get_topic_partition ▸ string_field set_message ▸ offset_field
parse_body batch_produce = get_topic_partition ▸ get_batch
parse_body batch_replicate = get_topic_partition ▸ offset_field ▸ get_batch
parse_body fetch = get_topic_partition ▸ offset_field
parse_body commit = get_topic_partition ▸ offset_field
parse_body replicate = get_topic_partition ▸ offset_field ▸ string_field set_message
parse_body ack = offset_field ▸ int_field set_broker ▸ get_topic_partition
parse_body heartbeat = heartbeat_field
parse_body metadata = λ s. (true, s)
parse_body join_group = string_field set_group ▸ string_field set_member ▸ string_field set_topic
parse_body leave_group = string_field set_group ▸ string_field set_member ▸ string_field set_topic
parse_body group_assignment =
    string_field set_group ▸ string_field set_member ▸ string_field set_topic
parse_body group_fetch =
    string_field set_group ▸ string_field set_member ▸ get_topic_partition ▸ offset_field
parse_body commit_offset =
    string_field set_group ▸ string_field set_member ▸ get_topic_partition ▸ offset_field
parse_body error = λ s. (false, s)

abbrev pub is_empty {ℓ} : {A : Type ℓ} → List A → Bool
is_empty [] = true
is_empty (x ∷ xs) = false

-- if (!valid || pos != payload.size()) request.type = RequestType::ERROR;
abbrev pub finish : Bool × Reader → Request
finish (valid, s) =
    if not valid || not (is_empty s.rest) then record s.request { type = error } else s.request

abbrev pub parse_type : Bool × ℕ × Bytes → Request
parse_type (ok, type, rest) =
    if not ok || ltb (code batch_replicate) type
    then blank error
    else finish (parse_body (of_code type) (record { request = blank (of_code type); rest = rest }))

abbrev pub parse_version : Bool × ℕ × Bytes → Request
parse_version (ok, version, rest) =
    if not ok || not (nat_eq version protocol_version)
    then blank error
    else parse_type (get_u8 0 rest)

unfoldable pub parse_request : Bytes → Request
unfolding get_u8
parse_request payload = parse_version (get_u8 0 payload)

unfoldable pub put_topic_partition : Request → Bytes
put_topic_partition r = put_string r.topic ++ put_u32 (to_u32 r.partition)

unfoldable pub put_messages : List Bytes → Bytes
put_messages [] = []
put_messages (m ∷ ms) = put_string m ++ put_messages ms

abbrev pub put_count : List Bytes → Bytes
put_count ms = put_u32 (length ms % 2 ^ 32)

unfoldable pub encode_body : RequestType → Request → Bytes
encode_body produce r = put_topic_partition r ++ (put_string r.message ++ put_u64 r.fetch_offset)
encode_body batch_produce r =
    put_topic_partition r ++ (put_count r.messages ++ put_messages r.messages)
encode_body batch_replicate r =
    put_topic_partition r
    ++ (put_u64 r.fetch_offset ++ (put_count r.messages ++ put_messages r.messages))
encode_body fetch r = put_topic_partition r ++ put_u64 r.fetch_offset
encode_body commit r = put_topic_partition r ++ put_u64 r.fetch_offset
encode_body replicate r = put_topic_partition r ++ (put_u64 r.fetch_offset ++ put_string r.message)
encode_body ack r =
    put_u64 r.fetch_offset ++ (put_u32 (to_u32 r.broker_id) ++ put_topic_partition r)
encode_body heartbeat r = put_u32 (to_u32 r.broker_id)
encode_body metadata r = []
encode_body join_group r = put_string r.group_id ++ (put_string r.member_id ++ put_string r.topic)
encode_body leave_group r = put_string r.group_id ++ (put_string r.member_id ++ put_string r.topic)
encode_body group_assignment r =
    put_string r.group_id ++ (put_string r.member_id ++ put_string r.topic)
encode_body group_fetch r =
    put_string r.group_id
    ++ (put_string r.member_id ++ (put_topic_partition r ++ put_u64 r.fetch_offset))
encode_body commit_offset r =
    put_string r.group_id
    ++ (put_string r.member_id ++ (put_topic_partition r ++ put_u64 r.fetch_offset))
encode_body error r = []

abbrev pub header : RequestType → Bytes
header t = put_u8 protocol_version ++ put_u8 (code t)

-- `default: return std::string()` drops the header that was written before the switch.
abbrev pub encode_as : RequestType → Request → Bytes
encode_as error r = []
encode_as t r = header t ++ encode_body t r

unfoldable pub encode_request : Request → Bytes
encode_request r = encode_as r.type r
