-- ===== src/Storage/Log.antt =====
-- src/storage/log.cpp: the log of one partition, over its segments, its sparse index and its WAL.
-- Offsets count records that exist, so they do not wrap. `none` is an exception of `fetch`.
pub mod Naming
pub mod Contents
pub mod Growth
pub mod Rolling
pub mod Holding
pub mod Recovery
pub mod Refinement
pub mod Rebuild
pub mod Scanning
pub mod Replay
pub mod Reopening
pub mod Pending
use streaming_platform.Prelude.{
  ℕ, zero, suc, ◌+◌, ◌-◌, ◌*◌, ◌%◌, Bool, true, false, ◌&&◌, ◌||◌, Option, none, some, List, [],
  ◌∷◌, ◌++◌, map, max, ltb, leb, nat_eq, if◌then◌else◌, length, get_elem?, set, take, drop, Assoc,
  list_eq,
}
use streaming_platform.Text.{Bytes, codes, to_string, str_ltb}
use streaming_platform.Storage.Segment
use streaming_platform.Storage.Segment.{LogSegment, put_native, get_native}

pub record LogIndexEntry : Type 0 where
  pub offset : ℕ
  pub segment_index : ℕ
  pub byte_position : ℕ

pub record Log : Type 0 where
  pub segments : List LogSegment
  pub index : List LogIndexEntry
  pub active_segment_index : ℕ
  pub next_offset : ℕ
  pub max_segment_size : ℕ
  pub sync_batch_size : ℕ
  pub pending_appends : ℕ
  pub wal : Bytes

abbrev pub index_stride : ℕ
index_stride = 64

-- "segment-" + std::to_string(n) + ".log"
unfoldable pub segment_name : ℕ → Bytes
segment_name n = codes "segment-" ++ (to_string n ++ codes ".log")

-- The record of one append in the WAL: offset, length, message.
unfoldable pub write_wal : ℕ → Bytes → Bytes → Bytes
write_wal offset message wal =
    wal ++ (put_native 8 offset ++ (put_native 8 (length message) ++ message))

-- if (offset % kIndexStride == 0 || position == 0) index_.push_back(…)
unfoldable pub add_entry : ℕ → ℕ → ℕ → List LogIndexEntry → List LogIndexEntry
add_entry offset segment position index =
    if nat_eq (offset % index_stride) 0 || nat_eq position 0
    then index ++ record { offset = offset; segment_index = segment; byte_position = position } ∷ []
    else index

-- fsync of the WAL, then of every segment, then the WAL is emptied.
unfoldable pub sync_pending : Log → Log
sync_pending l = record l { segments = map Segment.sync l.segments; wal = []; pending_appends = 0 }

-- The record goes to the segment that `active_segment` points to, which is in the list.
abbrev pub append_active : Bytes → Option LogSegment → Log → Log
append_active message none l = l
append_active message (some s) l =
    let (s', position) = Segment.append message s in
    record l {
      segments = set l.segments l.active_segment_index s';
      index = add_entry l.next_offset l.active_segment_index position l.index;
      next_offset = l.next_offset + 1;
    }

abbrev pub active_size : Log → ℕ
active_size l = elim (get_elem? l.segments l.active_segment_index) [
  | none ↦ 0
  | some s ↦ Segment.sizes s
]

-- The bytes of the file of that name, if it is one of the log's: the log has opened every regular file
-- of its directory that has a segment's name. What a stream has buffered counts as in its file.
unfoldable pub file_named : Bytes → List LogSegment → Bytes
file_named name [] = []
file_named name (s ∷ segments) = if list_eq name s.name then s.file else file_named name segments

-- A full active segment is followed by the one whose number is that of the segments; a file of this
-- name that is there already is opened with what it holds.
unfoldable pub roll : Log → Log
roll l =
    if leb l.max_segment_size (active_size l)
    then record l {
      segments =
          l.segments
          ++ Segment.reopen (segment_name (length l.segments))
              (file_named (segment_name (length l.segments)) l.segments)
            ∷ [];
      active_segment_index = length l.segments;
    }
    else l

unfoldable pub count_append : Log → Log
count_append l =
    let l' = record l { pending_appends = l.pending_appends + 1 } in
    if leb l.sync_batch_size (l.pending_appends + 1) then sync_pending l' else l'

unfoldable pub write_record : Bytes → Log → Log
write_record message l =
    append_active message (get_elem? l.segments l.active_segment_index)
      (record l { wal = write_wal l.next_offset message l.wal })

-- The log, and the offset that the record got.
unfoldable pub append : Bytes → Log → Log × ℕ
append message l = (count_append (roll (write_record message l)), l.next_offset)

unfoldable pub flush : Log → Log
flush l = if ltb 0 l.pending_appends then sync_pending l else l

-- The entry before `std::upper_bound`; the offsets of the index ascend.
unfoldable pub checkpoint : ℕ → Option LogIndexEntry → List LogIndexEntry → Option LogIndexEntry
checkpoint offset best [] = best
checkpoint offset best (e ∷ es) =
    if ltb offset e.offset then best else checkpoint offset (some e) es

abbrev pub read_at : List LogSegment → ℕ → ℕ → Option Bytes
read_at segments s position = elim (get_elem? segments s) [
  | none ↦ none
  | some seg ↦ Segment.read position seg
]

abbrev pub size_of : List LogSegment → ℕ → ℕ
size_of segments s = elim (get_elem? segments s) [ none ↦ 0 | some seg ↦ Segment.sizes seg ]

-- Where the record behind the one at `position` begins.
unfoldable pub next_position : List LogSegment → ℕ → ℕ → Bytes → ℕ × ℕ
next_position segments s position message =
    let position' = position + (8 + length message) in
    if nat_eq position' (size_of segments s) && ltb (s + 1) (length segments)
    then (s + 1, 0)
    else (s, position')

-- The traversal; `ahead` is `offset - current_offset`, so the loop ends.
unfoldable pub walk : ℕ → List LogSegment → ℕ → ℕ → Option Bytes
walk zero segments s position = read_at segments s position
walk (suc ahead) segments s position = elim (read_at segments s position) [
  | none ↦ none
  | some message ↦
      let (s', position') = next_position segments s position message in
      if leb (length segments) s' then none else walk ahead segments s' position'
]

abbrev pub walk_from : List LogSegment → ℕ → Option LogIndexEntry → Option Bytes
walk_from segments offset none = none
walk_from segments offset (some e) =
    walk (offset - e.offset) segments e.segment_index e.byte_position

unfoldable pub fetch : ℕ → Log → Option Bytes
fetch offset l =
    if leb l.next_offset offset
    then none
    else walk_from l.segments offset (checkpoint offset none l.index)
