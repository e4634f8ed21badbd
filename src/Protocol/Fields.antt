-- ===== src/Protocol/Fields.antt =====
-- Each field of a message is read back from the bytes that are written for it.
use streaming_platform.Prelude.{
  ℕ, ◌%◌, ◌^◌, ◌≤◌, ◌<◌, ◌≡◌, ap, ◌∙◌, Bool, true, List, [], ◌∷◌, ◌++◌, append_assoc, append-nil,
  arith, le→leb, length, All, ℤ, IsInt32, to_u32, of_u32, of_u32-to_u32, to_u32-lt,
}
use streaming_platform.Text.{Bytes}
use streaming_platform.Protocol.Wire.{
  max_string_bytes, max_batch_messages, put_u32, put_u64, put_string,
}
use streaming_platform.Protocol.Wire.Laws.{get_u32-put_u32, get_u64-put_u64, get_string-put_string}
use streaming_platform.Protocol.Message.{Request}
use streaming_platform.Protocol.Codec.{
  Reader, store_string, store_number, store_int, string_field, offset_field, int_field,
  heartbeat_field, get_topic_partition, get_messages, get_batch, put_topic_partition, put_messages,
  put_count, set_topic, set_partition, push_message,
}

abbrev pub at : Request → Bytes → Reader
at q rest = record { request = q; rest = rest }

abbrev pub FitsString : Bytes → Type 0
FitsString s = length s ≤ max_string_bytes

pub string_field_lem :
    (set : Bytes → Request → Request) (s : Bytes)
    → FitsString s
    → (q : Request) (rest : Bytes)
    → string_field set (at q (put_string s ++ rest)) ≡ (true, at (set s q) rest)
unfolding string_field
string_field_lem set s h q rest = ap (store_string set q) (get_string-put_string s rest h)

pub offset_field_lem :
    (v : ℕ)
    → v < 2 ^ 64
    → (q : Request) (rest : Bytes)
    → offset_field (at q (put_u64 v ++ rest)) ≡ (true, at (record q { fetch_offset = v }) rest)
unfolding offset_field
offset_field_lem v h q rest =
    ap (store_number (λ v r. record r { fetch_offset = v }) q) (get_u64-put_u64 v rest h)

pub int_field_lem :
    (set : ℤ → Request → Request) (i : ℤ)
    → IsInt32 i
    → (q : Request) (rest : Bytes)
    → int_field set (at q (put_u32 (to_u32 i) ++ rest)) ≡ (true, at (set i q) rest)
unfolding int_field
int_field_lem set i h q rest =
    ap (store_int set q) (get_u32-put_u32 (to_u32 i) rest (to_u32-lt i))
    ∙ ap (λ (j : ℤ). store_int_done j) (of_u32-to_u32 i h)
  where
    store_int_done : ℤ → Bool × Reader
    store_int_done j = (true, at (set j q) rest)

pub heartbeat_field_lem :
    (i : ℤ)
    → IsInt32 i
    → (q : Request) (rest : Bytes)
    → heartbeat_field (at q (put_u32 (to_u32 i) ++ rest))
      ≡ (true, at (record q { broker_id = i }) rest)
unfolding heartbeat_field
heartbeat_field_lem i h q rest =
    ap (store_number (λ v r. record r { broker_id = of_u32 v }) q)
      (get_u32-put_u32 (to_u32 i) rest (to_u32-lt i))
    ∙ rw (of_u32-to_u32 i h)

pub topic_partition_lem :
    (r : Request)
    → FitsString r.topic
    → IsInt32 r.partition
    → (q : Request) (rest : Bytes)
    → get_topic_partition (at q (put_topic_partition r ++ rest))
      ≡ (true, at (set_partition r.partition (set_topic r.topic q)) rest)
unfolding get_topic_partition put_topic_partition
topic_partition_lem r ht hp q rest = simp (
  append_assoc,
  string_field_lem set_topic r.topic ht,
  int_field_lem set_partition r.partition hp,
)

pub messages_lem :
    (ms : List Bytes)
    → All FitsString ms
    → (q : Request) (rest : Bytes)
    → get_messages (length ms) (at q (put_messages ms ++ rest))
      ≡ (true, at (record q { messages = q.messages ++ ms }) rest)
unfolding get_messages put_messages
messages_lem [] h q rest = simp append-nil
messages_lem (m ∷ ms) (hm, hms) q rest =
    simp (append_assoc, string_field_lem push_message m hm, messages_lem ms hms)

abbrev pub FitsBatch : List Bytes → Type 0
FitsBatch ms = (length ms ≤ max_batch_messages) × All FitsString ms

count_fits : (ms : List Bytes) → FitsBatch ms → length ms % 2 ^ 32 ≡ length ms
count_fits ms h = omega arith

pub batch_lem :
    (ms : List Bytes)
    → FitsBatch ms
    → (q : Request) (rest : Bytes)
    → get_batch (at q (put_count ms ++ (put_messages ms ++ rest)))
      ≡ (true, at (record q { messages = q.messages ++ ms }) rest)
unfolding get_batch
batch_lem ms h q rest = simp (
  count_fits ms h,
  get_u32-put_u32 (length ms) (put_messages ms ++ rest) (omega arith),
  le→leb (length ms) max_batch_messages h.0,
  messages_lem ms h.1,
)
