-- ===== src/Storage/Log/Recovery.antt =====
-- What the constructor of Log does with the files that it finds: load_existing_segments,
-- rebuild_index_from_segment and recover_wal of src/storage/log.cpp.
-- The directory is the list of its regular files, name and bytes, in the order of the iterator.
use streaming_platform.Prelude.{
  ℕ, zero, suc, ◌+◌, ◌-◌, ◌*◌, Bool, true, false, ◌&&◌, ◌||◌, Option, none, some, List, [], ◌∷◌,
  ◌++◌, map, max, ltb, nat_eq, if◌then◌else◌, length, get_elem?, take, drop, list_eq,
}
use streaming_platform.Text.{Bytes, codes, str_ltb}
use streaming_platform.Storage.Segment
use streaming_platform.Storage.Segment.{LogSegment, get_native}
use streaming_platform.Storage.Log.{Log, LogIndexEntry, segment_name, add_entry, append_active}

-- filename.rfind("segment-", 0) == 0 && filename.size() > 8 && filename.substr(size - 4) == ".log"
unfoldable pub is_segment_name : Bytes → Bool
is_segment_name name =
    list_eq (take 8 name) (codes "segment-")
    && (ltb 8 (length name) && list_eq (drop (length name - 4) name) (codes ".log"))

abbrev pub File : Type 0
File = Bytes × Bytes

unfoldable pub segment_files : List File → List File
segment_files [] = []
segment_files ((name, bytes) ∷ fs) =
    if is_segment_name name then (name, bytes) ∷ segment_files fs else segment_files fs

unfoldable pub insert_file : File → List File → List File
insert_file (name, bytes) [] = (name, bytes) ∷ []
insert_file (name, bytes) ((n, b) ∷ fs) =
    if str_ltb n name then (n, b) ∷ insert_file (name, bytes) fs else (name, bytes) ∷ (n, b) ∷ fs

-- std::sort of paths in one directory, which is the order of their names
unfoldable pub sort_files : List File → List File
unfolding insert_file
sort_files [] = []
sort_files (f ∷ fs) = insert_file f (sort_files fs)

-- One segment on its way into the log: the segment, the index and the next offset.
pub record Scan : Type 0 where
  pub segment : LogSegment
  pub index : List LogIndexEntry
  pub next_offset : ℕ

-- Every record takes 8 bytes at least, so the size of the file is fuel enough.
unfoldable pub rebuild_index : ℕ → ℕ → ℕ → Scan → Scan
rebuild_index zero i position c = c
rebuild_index (suc fuel) i position c = elim (ltb position (Segment.sizes c.segment)) [
  | false ↦ c
  | true ↦ elim (Segment.read position c.segment) [
    | none ↦ record c { segment = Segment.truncate position c.segment }
    | some message ↦ rebuild_index fuel i (position + (8 + length message)) (record c {
      index = add_entry c.next_offset i position c.index;
      next_offset = c.next_offset + 1;
    })
  ]
]

abbrev pub scan_file : ℕ → List LogIndexEntry → ℕ → File → Scan
scan_file i index next (name, bytes) =
    rebuild_index (length bytes) i 0
      (record { segment = Segment.reopen name bytes; index = index; next_offset = next })

unfoldable pub load_files : List File → Log → Log
load_files [] l = l
load_files (f ∷ fs) l =
    let c = scan_file (length l.segments) l.index l.next_offset f in
    load_files fs (record l {
      segments = l.segments ++ c.segment ∷ [];
      index = c.index;
      next_offset = c.next_offset;
      active_segment_index = length l.segments;
    })

-- An empty directory gets "segment-0.log".
unfoldable pub load_sorted : List File → Log → Log
load_sorted [] l = record l {
  segments = Segment.reopen (segment_name 0) [] ∷ [];
  active_segment_index = 0;
}
load_sorted (f ∷ fs) l = load_files (f ∷ fs) l

unfoldable pub load_existing_segments : List File → Log → Log
load_existing_segments files l = load_sorted (sort_files (segment_files files)) l

-- One record of the WAL: offset and message, and the bytes behind it. `none` is the end of the loop:
-- too few bytes, or a length above 16 MiB.
unfoldable pub read_wal_record : Bytes → Option (ℕ × Bytes × Bytes)
read_wal_record wal =
    let size = get_native (take 8 (drop 8 wal)) in
    if ltb (length wal) 16 || (ltb (16 * 1024 * 1024) size || ltb (length (drop 16 wal)) size)
    then none
    else some (get_native (take 8 wal), take size (drop 16 wal), drop size (drop 16 wal))

-- The record is appended if it is the next one; it is in a segment already if it is older.
unfoldable pub replay_record : ℕ → Bytes → Log → Log
replay_record offset message l =
    if nat_eq offset l.next_offset
    then append_active message (get_elem? l.segments l.active_segment_index) l
    else l

-- Each record takes 16 bytes at least, so the size of the WAL is fuel enough.
unfoldable pub replay : ℕ → Bytes → Log → Log
replay zero wal l = l
replay (suc fuel) wal l = elim (read_wal_record wal) [
  | none ↦ l
  | some (offset, message, rest) ↦ replay fuel rest (replay_record offset message l)
]

abbrev pub synced : Log → Log
synced l = if ltb 0 l.next_offset then record l { segments = map Segment.sync l.segments } else l

unfoldable pub recover_wal : Log → Log
recover_wal l =
    if nat_eq (length l.wal) 0
    then l
    else record (synced (replay (length l.wal) l.wal l)) { wal = [] }

-- Log::Log
unfoldable pub open_log : List File → Bytes → ℕ → ℕ → Log
open_log files wal max_segment_size sync_batch_size = recover_wal (
    load_existing_segments files (record {
      segments = [];
      index = [];
      active_segment_index = 0;
      next_offset = 0;
      max_segment_size = max_segment_size;
      sync_batch_size = max 1 sync_batch_size;
      pending_appends = 0;
      wal = wal;
    }))
