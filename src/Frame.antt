-- ===== src/Frame.antt =====
-- src/protocol/frame.cpp: a frame is a payload behind its length, 4 bytes in network order.
-- The operating system chooses how many bytes each `recv` and `writev` moves, and when one fails.
-- Its choices are an argument, the schedule: one number for each call. A call moves as many bytes as
-- its number says, but no more than it was asked for and than there are; 0 is a failure or a closed
-- connection, and so is the end of the schedule.
mod Reading
mod Writing
pub mod Properties
mod Examples
use streaming_platform.Prelude.{
  ℕ, zero, suc, ◌+◌, ◌-◌, ◌%◌, ◌^◌, Bool, true, false, List, [], ◌∷◌, ◌++◌, ltb, leb, nat_eq, min,
  if◌then◌else◌, length, take, drop,
}
use streaming_platform.Text.{Bytes}
use streaming_platform.Protocol.Wire.{put_u32, get_u32}

-- What a read leaves: whether it succeeded, the bytes in the buffer, and the connection's unread
-- bytes and schedule.
pub record Input : Type 0 where
  pub ok : Bool
  pub buffer : Bytes
  pub stream : Bytes
  pub schedule : List ℕ

-- `length` is what is still to be read: `length - total_read` in the source.
unfoldable pub read_exact : List ℕ → Bytes → Bytes → ℕ → Input
read_exact schedule stream buffer zero = record {
  ok = true;
  buffer = buffer;
  stream = stream;
  schedule = schedule;
}
read_exact [] stream buffer (suc n) = record {
  ok = false;
  buffer = buffer;
  stream = stream;
  schedule = [];
}
read_exact (c ∷ cs) stream buffer (suc n) =
    let bytes = min c (min (suc n) (length stream)) in
    let rest = read_exact cs (drop bytes stream) (buffer ++ take bytes stream) (suc n - bytes) in
    if nat_eq bytes 0
    then record { ok = false; buffer = buffer; stream = stream; schedule = cs }
    else rest

-- htonl of the payload's size
abbrev pub header : Bytes → Bytes
header payload = put_u32 (length payload % 2 ^ 32)

unfoldable pub wrap_frame : Bytes → Bytes
wrap_frame payload = header payload ++ payload

-- The frames of payloads, one behind the other
abbrev pub framed : List Bytes → Bytes
framed [] = []
framed (payload ∷ payloads) = wrap_frame payload ++ framed payloads

abbrev pub read_payload : Input → ℕ → Input
read_payload i zero = record { ok = true; buffer = []; stream = i.stream; schedule = i.schedule }
read_payload i (suc n) = read_exact i.schedule i.stream [] (suc n)

-- ntohl of the 4 bytes that were read
abbrev pub frame_length : Bytes → ℕ
frame_length b = (get_u32 b).1

unfoldable pub read_frame : List ℕ → Bytes → Input
read_frame schedule stream =
    let i = read_exact schedule stream [] 4 in
    if i.ok then read_payload i (frame_length i.buffer) else i

abbrev pub total : List Bytes → Bytes
total [] = []
total (b ∷ bs) = b ++ total bs

-- The inner loop: `consumed` bytes of the buffers are gone, and an empty buffer is passed over.
unfoldable pub consume : ℕ → List Bytes → List Bytes
consume consumed [] = []
consume consumed (b ∷ bs) =
    if leb (length b) consumed then consume (consumed - length b) bs else drop consumed b ∷ bs

pub record Output : Type 0 where
  pub ok : Bool
  pub sent : Bytes

-- `remaining` is `frame_size - total_sent`.
unfoldable pub write_loop : List ℕ → List Bytes → Bytes → ℕ → Output
write_loop schedule buffers out zero = record { ok = true; sent = out }
write_loop [] buffers out (suc n) = record { ok = false; sent = out }
write_loop (c ∷ cs) buffers out (suc n) =
    let sent = min c (length (total buffers)) in
    let rest =
      write_loop cs (consume sent buffers) (out ++ take sent (total buffers)) (suc n - sent) in
    if nat_eq sent 0 then record { ok = false; sent = out } else rest

abbrev pub buffers_of : Bytes → List Bytes
buffers_of [] = header [] ∷ []
buffers_of (b ∷ p) = header (b ∷ p) ∷ (b ∷ p) ∷ []

unfoldable pub write_frame : List ℕ → Bytes → Output
write_frame schedule payload = write_loop schedule (buffers_of payload) [] (4 + length payload)
