-- ===== src/Protocol/Types.antt =====
-- The type of a parsed request: it is the second byte's, or ERROR.
use streaming_platform.Prelude.{
  ℕ, zero, suc, ◌%◌, ◌≤◌, ◌≡◌, refl, ◌∙◌, ◌≢◌, ◌⊎◌, Bool, true, false, Option, none, some, ◌∷◌,
  arith, if◌then◌else◌, ℤ,
}
use streaming_platform.Text.{Bytes}
use streaming_platform.Protocol.Wire.{get_u32, get_string, put_u8}
use streaming_platform.Protocol.Message.{
  RequestType, Request, Response, blank, of_code, produce, fetch, replicate, ack, heartbeat, commit,
  metadata, join_group, leave_group, group_fetch, commit_offset, group_assignment, batch_produce,
  batch_replicate, error,
}
use streaming_platform.Protocol.Codec.{
  Reader, Step, continue, ◌▸◌, store_string, store_int, batch_count, string_field, offset_field,
  int_field, heartbeat_field, get_topic_partition, get_messages, get_batch, parse_body,
  parse_request, finish, set_topic, set_partition, set_broker, set_message, set_group, set_member,
  push_message,
}
use streaming_platform.Protocol.Reply.{serialize_response}

-- `m` leaves the type of the request alone, also where it fails.
pub record Keeps (m : Step) : Type 0 where
  pub type : (s : Reader) → (m s).1.request.type ≡ s.request.type

seq-Keeps : (m n : Step) → Keeps m → Keeps n → Keeps (m ▸ n)
seq-Keeps m n km kn = record { type = λ s. both (m s) s.request.type (km.type s) }
  where
    both :
        (r : Bool × Reader) (t : RequestType)
        → r.1.request.type ≡ t
        → (continue n r).1.request.type ≡ t
    both (true, s) t e = kn.type s ∙ e
    both (false, s) t e = e

string_field-Keeps :
    (set : Bytes → Request → Request)
    → ((v : Bytes) (r : Request) → (set v r).type ≡ r.type)
    → Keeps (string_field set)
unfolding string_field
string_field-Keeps set k = record { type = λ s. stored_as s.request (get_string s.rest) }
  where
    stored_as :
        (q : Request) (o : Option Bytes × Bytes) → (store_string set q o).1.request.type ≡ q.type
    stored_as q (none, rest) = refl
    stored_as q (some v, rest) = k v q

offset_field-Keeps : Keeps offset_field
unfolding offset_field
offset_field-Keeps = record { type = λ s. refl }

heartbeat_field-Keeps : Keeps heartbeat_field
unfolding heartbeat_field
heartbeat_field-Keeps = record { type = λ s. refl }

int_stored :
    (set : ℤ → Request → Request) (q : Request) (r : Bool × ℕ × Bytes)
    → ((v : ℤ) (r : Request) → (set v r).type ≡ r.type)
    → (store_int set q r).1.request.type ≡ q.type
int_stored set q (true, v, rest) k = k _ q
int_stored set q (false, v, rest) k = refl

int_field-Keeps :
    (set : ℤ → Request → Request)
    → ((v : ℤ) (r : Request) → (set v r).type ≡ r.type)
    → Keeps (int_field set)
unfolding int_field
int_field-Keeps set k = record { type = λ s. int_stored set s.request _ k }

get_topic_partition-Keeps : Keeps get_topic_partition
unfolding get_topic_partition
get_topic_partition-Keeps =
    seq-Keeps (string_field set_topic) (int_field set_partition)
      (string_field-Keeps set_topic (λ v r. refl)) (int_field-Keeps set_partition (λ v r. refl))

get_messages-Keeps : (k : ℕ) → Keeps (get_messages k)
unfolding get_messages
get_messages-Keeps zero = record { type = λ s. refl }
get_messages-Keeps (suc k) = record {
  type =
      (seq-Keeps (string_field push_message) (get_messages k)
        (string_field-Keeps push_message (λ v r. refl)) (get_messages-Keeps k)).type;
}

batch_counted : (q : Request) (r : Bool × ℕ × Bytes) → (batch_count q r).1.request.type ≡ q.type
batch_counted q (false, count, rest) = refl
batch_counted q (true, count, rest) =
    ground (arith, (get_messages-Keeps count).type (record { request = q; rest = rest }))

get_batch-Keeps : Keeps get_batch
unfolding get_batch
get_batch-Keeps = record { type = λ s. batch_counted s.request (get_u32 s.rest) }

topic_offset-Keeps : Keeps (get_topic_partition ▸ offset_field)
topic_offset-Keeps =
    seq-Keeps get_topic_partition offset_field get_topic_partition-Keeps offset_field-Keeps

message-Keeps : Keeps (string_field set_message)
message-Keeps = string_field-Keeps set_message (λ v r. refl)

in_group-Keeps : (m : Step) → Keeps m → Keeps (string_field set_group ▸ string_field set_member ▸ m)
in_group-Keeps m k =
    seq-Keeps (string_field set_group) (string_field set_member ▸ m)
      (string_field-Keeps set_group (λ v r. refl))
      (seq-Keeps (string_field set_member) m (string_field-Keeps set_member (λ v r. refl)) k)

topic-Keeps : Keeps (string_field set_topic)
topic-Keeps = string_field-Keeps set_topic (λ v r. refl)

after_topic-Keeps : (m : Step) → Keeps m → Keeps (get_topic_partition ▸ m)
after_topic-Keeps m k = seq-Keeps get_topic_partition m get_topic_partition-Keeps k

after_offset-Keeps : (m : Step) → Keeps m → Keeps (offset_field ▸ m)
after_offset-Keeps m k = seq-Keeps offset_field m offset_field-Keeps k

parse_body-Keeps : (t : RequestType) → Keeps (parse_body t)
unfolding parse_body
parse_body-Keeps produce =
    after_topic-Keeps _
      (seq-Keeps (string_field set_message) offset_field message-Keeps offset_field-Keeps)
parse_body-Keeps batch_produce = after_topic-Keeps get_batch get_batch-Keeps
parse_body-Keeps batch_replicate =
    after_topic-Keeps _ (after_offset-Keeps get_batch get_batch-Keeps)
parse_body-Keeps fetch = topic_offset-Keeps
parse_body-Keeps commit = topic_offset-Keeps
parse_body-Keeps replicate =
    after_topic-Keeps _ (after_offset-Keeps (string_field set_message) message-Keeps)
parse_body-Keeps ack = after_offset-Keeps _ (
    seq-Keeps (int_field set_broker) get_topic_partition (int_field-Keeps set_broker (λ v r. refl))
      get_topic_partition-Keeps)
parse_body-Keeps heartbeat = heartbeat_field-Keeps
parse_body-Keeps metadata = record { type = λ s. refl }
parse_body-Keeps join_group = in_group-Keeps (string_field set_topic) topic-Keeps
parse_body-Keeps leave_group = in_group-Keeps (string_field set_topic) topic-Keeps
parse_body-Keeps group_assignment = in_group-Keeps (string_field set_topic) topic-Keeps
parse_body-Keeps group_fetch = in_group-Keeps _ topic_offset-Keeps
parse_body-Keeps commit_offset = in_group-Keeps _ topic_offset-Keeps
parse_body-Keeps error = record { type = λ s. refl }

finish_type :
    (r : Bool × Reader) (t : RequestType)
    → r.1.request.type ≡ t
    → ((finish r).type ≡ error) ⊎ ((finish r).type ≡ t)
finish_type r t e = ground arith

-- A payload is an ERROR, or it has the protocol's version, its second byte is the number of an
-- enumerator up to BATCH_REPLICATE, and the parsed request has that type.
pub parse_request_type :
    (version type : ℕ) (rest : Bytes)
    → let r = parse_request (version ∷ type ∷ rest) in
      (r.type ≡ error) ⊎ ((version ≡ 1) × (type ≤ 13) × (r.type ≡ of_code type))
unfolding parse_request
parse_request_type version type rest = ground (
  arith,
  finish_type (parse_body (of_code type) (record { request = blank (of_code type); rest = rest }))
      (of_code type)
      ((parse_body-Keeps (of_code type)).type
        (record { request = blank (of_code type); rest = rest })),
)

flag_not_ack :
    (b : Bool) (rest : Bytes) → (parse_request (1 ∷ ((if b then 1 else 0) % 256) ∷ rest)).type ≢ ack
flag_not_ack true rest e = ground (arith, parse_request_type 1 1 rest)
flag_not_ack false rest e = ground (arith, parse_request_type 1 0 rest)

-- A Response on the wire is never taken for an ACK, whatever it holds: a replica's reply to a
-- replication request that it did not acknowledge is not counted as an acknowledgement.
pub parse_request-serialize_response :
    (r : Response) → (parse_request (serialize_response r)).type ≢ ack
unfolding serialize_response put_u8
parse_request-serialize_response r e = flag_not_ack r.success _ e
