-- ===== src/Storage/Segment.antt =====
-- src/storage/log_segment.cpp: one segment file, a row of records, each a length and its bytes.
-- A file is its bytes. The length is written as the machine holds a uint64_t, lowest byte first. Sizes
-- and positions count bytes of a file that exists, so they do not wrap. `durable` is what the last
-- `sync` has put on the disk; the C++ object does not hold it. A call of the operating system that
-- fails is not modelled. `none` is an out_of_range exception.
pub mod Records
use streaming_platform.Prelude.{
  ℕ, zero, suc, ◌+◌, ◌-◌, ◌*◌, ◌/◌, ◌%◌, Bool, true, false, ◌||◌, Option, none, some, List, [], ◌∷◌,
  ◌++◌, ltb, if◌then◌else◌, length, take, drop,
}
use streaming_platform.Text.{Bytes}

pub record LogSegment : Type 0 where
  pub name : Bytes
  pub file : Bytes
  pub current_size : ℕ
  pub durable : ℕ

-- A uint64_t in memory.
unfoldable pub put_native : ℕ → ℕ → Bytes
put_native zero v = []
put_native (suc k) v = (v % 256) ∷ put_native k (v / 256)

unfoldable pub get_native : Bytes → ℕ
get_native [] = 0
get_native (b ∷ bs) = b + 256 * get_native bs

-- Opening a file: `current_size` is its size.
unfoldable pub reopen : Bytes → Bytes → LogSegment
reopen name file = record {
  name = name;
  file = file;
  current_size = length file;
  durable = length file;
}

unfoldable pub record_bytes : Bytes → Bytes
record_bytes message = put_native 8 (length message) ++ message

-- The new segment, and the position of the record.
unfoldable pub append : Bytes → LogSegment → LogSegment × ℕ
append message s = (
  record s {
    file = s.file ++ record_bytes message;
    current_size = s.current_size + (8 + length message);
  },
  s.current_size,
)

-- What is read behind `position`: the length field, then as many bytes as it says.
abbrev pub read_body : Bytes → ℕ → ℕ → Option Bytes
read_body behind size n =
    if ltb (size - 8) n || ltb (length (drop 8 behind)) n
    then none
    else some (take n (drop 8 behind))

-- `size` is `current_size - position`.
unfoldable pub read_behind : Bytes → ℕ → Option Bytes
unfolding get_native
read_behind behind size =
    if ltb (length behind) 8 then none else read_body behind size (get_native (take 8 behind))

unfoldable pub read : ℕ → LogSegment → Option Bytes
unfolding read_behind
read position s =
    let behind = drop position s.file in
    if ltb s.current_size position || ltb (s.current_size - position) 8
    then none
    else read_behind behind (s.current_size - position)

unfoldable pub sync : LogSegment → LogSegment
sync s = record s { durable = length s.file }

-- resize_file, and then `reopen`
unfoldable pub truncate : ℕ → LogSegment → LogSegment
unfolding reopen
truncate size s = reopen s.name (take size s.file)

unfoldable pub sizes : LogSegment → ℕ
sizes s = s.current_size
