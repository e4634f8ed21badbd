-- ===== src/Storage/Log/Reopening.antt =====
-- Opening a log on what a crash has left: whole segments, a last one that may be cut, and the WAL.
use streaming_platform.Prelude.{
  ℕ, zero, suc, ◌+◌, ◌^◌, ◌<◌, ◌≡◌, refl, sym, ap, subst, ◌∙◌, inl, inr, some, List, [], ◌∷◌, ◌++◌,
  max, append-nil, append_assoc, arith, ltb, nat_eq, nat_eq_iff, Bool-cases, length, get_elem?, All,
  length-append, get_elem?-append_length,
}
use streaming_platform.Text.{Bytes}
use streaming_platform.Storage.Segment
use streaming_platform.Storage.Segment.{LogSegment, record_bytes}
use streaming_platform.Storage.Segment.Records.{records, length-record_bytes}
use streaming_platform.Storage.Log.{Log, segment_name}
use streaming_platform.Storage.Log.Contents.{size_of-found}
use streaming_platform.Storage.Log.Holding.{Holds, IsLog, rolled-Holds, sync-Holds}
use streaming_platform.Storage.Log.Rebuild.{Tail, partial}
use streaming_platform.Storage.Log.Scanning.{rebuild-Holds}
use streaming_platform.Storage.Log.Replay.{WalTail, Short, wal_records, replay-old}
use streaming_platform.Storage.Log.Refinement
use streaming_platform.Storage.Log.Recovery.{
  File, segment_files, sort_files, scan_file, load_files, load_sorted, load_existing_segments,
  replay, synced, recover_wal, open_log,
}

-- The files of segments with these messages, from the number `k` on.
abbrev pub files_from : ℕ → List (List Bytes) → List File
files_from k [] = []
files_from k (ms ∷ rows) = (segment_name k, records ms) ∷ files_from (k + 1) rows

abbrev pub contents : List (List Bytes) → List Bytes
contents [] = []
contents (ms ∷ rows) = ms ++ contents rows

abbrev pub Fits : Bytes → Type 0
Fits m = length m < 2 ^ 64

-- A whole segment has a record, or the log would not have left it.
abbrev pub IsWhole : List Bytes → Type 0
IsWhole ms = (0 < length ms) × All Fits ms

-- A new file can follow.
abbrev Ready : Log → List Bytes → Type 0
Ready l done =
    (name : Bytes) (durable : ℕ)
    → name ≡ segment_name (length l.segments)
    → Holds (l.segments ++ partial name [] durable ∷ []) l.index (length l.segments) l.next_offset
        done

abbrev load_file : File → Log → Log
load_file f l =
    let c = scan_file (length l.segments) l.index l.next_offset f in
    record l {
      segments = l.segments ++ c.segment ∷ [];
      index = c.index;
      next_offset = c.next_offset;
      active_segment_index = length l.segments;
    }

load_file-IsLog :
    (l : Log) (done ms : List Bytes) (name tail : Bytes)
    → name ≡ segment_name (length l.segments)
    → Tail tail
    → All Fits ms
    → Ready l done
    → IsLog (load_file (name, records ms ++ tail) l) (done ++ ms)
      × ((load_file (name, records ms ++ tail) l).segments
          ≡ l.segments ++ Segment.reopen name (records ms) ∷ [])
unfolding Segment.reopen
load_file-IsLog l done ms name tail named t f ready =
    let (index, next, e, h) =
      rebuild-Holds l.segments name (length (records ms)) ms tail t f (length (records ms ++ tail))
        [] l.index l.next_offset done (omega arith) (ready name (length (records ms)) named) in
    (rw e h, rw e refl)

load_whole-IsLog :
    (l : Log) (done ms : List Bytes) (name : Bytes)
    → name ≡ segment_name (length l.segments)
    → All Fits ms
    → Ready l done
    → IsLog (load_file (name, records ms) l) (done ++ ms)
      × ((load_file (name, records ms) l).segments
          ≡ l.segments ++ Segment.reopen name (records ms) ∷ [])
load_whole-IsLog l done ms name named f ready =
    subst
      (λ (bytes : Bytes).
        IsLog (load_file (name, bytes) l) (done ++ ms)
        × ((load_file (name, bytes) l).segments
            ≡ l.segments ++ Segment.reopen name (records ms) ∷ []))
      (append-nil (records ms)) (load_file-IsLog l done ms name [] named (inl refl) f ready)

records-positive : (ms : List Bytes) → 0 < length ms → 0 < length (records ms)
records-positive [] h = elim h [ ]
records-positive (m ∷ ms) h =
    omega (arith, length-append (record_bytes m) (records ms), length-record_bytes m)

next-Ready :
    (l : Log) (done : List Bytes) (before : List LogSegment) (name : Bytes) (ms : List Bytes)
    → l.segments ≡ before ++ Segment.reopen name (records ms) ∷ []
    → 0 < length ms
    → IsLog l done
    → Ready l done
unfolding Segment.reopen
next-Ready l done before name ms e some_record h new durable named =
    rolled-Holds l.segments l.index l.active_segment_index l.next_offset done
      (partial new [] durable)
      (λ s last.
        let last_segment = Segment.reopen name (records ms) in
        let at_end : length before ≡ s = omega (
          arith,
          ap (λ (xs : List LogSegment). length xs) e,
          length-append before (last_segment ∷ []),
        ) in
        let at_s : get_elem? l.segments s ≡ some last_segment =
          ap (λ (xs : List LogSegment). get_elem? xs s) e
          ∙ ap (λ k. get_elem? (before ++ last_segment ∷ []) k) (sym at_end)
          ∙ get_elem?-append_length before [] last_segment in
        omega
          (arith, size_of-found l.segments s last_segment at_s, records-positive ms some_record))
      refl refl named h

load_files-IsLog :
    (rows : List (List Bytes)) (k : ℕ) (kept : List Bytes) (tail : Bytes) (l : Log)
    (done : List Bytes)
    → k ≡ length l.segments
    → All IsWhole rows
    → All Fits kept
    → Tail tail
    → Ready l done
    → IsLog
        (load_files
          (files_from k rows ++ (segment_name (k + length rows), records kept ++ tail) ∷ [])
          l)
        (done ++ (contents rows ++ kept))
unfolding load_files
load_files-IsLog [] k kept tail l done at_k w f t ready =
    (load_file-IsLog l done kept (segment_name (k + 0)) tail (ap segment_name (omega arith)) t f
      ready).0
load_files-IsLog (ms ∷ rows) k kept tail l done at_k w f t ready =
    let n = segment_name k in
    let (h, e) = load_whole-IsLog l done ms n (ap segment_name at_k) w.0.1 ready in
    let l' = load_file (n, records ms) l in
    let next : k + 1 ≡ length l'.segments = omega (
      arith,
      ap (λ (xs : List LogSegment). length xs) e,
      length-append l.segments (Segment.reopen n (records ms) ∷ []),
    ) in
    let number : k + length (ms ∷ rows) ≡ (k + 1) + length rows = omega arith in
    rw
      (
        append_assoc ms (contents rows) kept,
        sym (append_assoc done ms (contents rows ++ kept)),
        number,
      )
      (load_files-IsLog rows (k + 1) kept tail l' (done ++ ms) next w.1 f t
        (next-Ready l' (done ++ ms) l.segments n ms e w.0.0 h))

load_files-wal : (files : List File) (l : Log) → (load_files files l).wal ≡ l.wal
unfolding load_files
load_files-wal [] l = refl
load_files-wal (f ∷ fs) l = load_files-wal fs (load_file f l)

load_sorted-load_files :
    (files : List File) (last : File) (l : Log)
    → load_sorted (files ++ last ∷ []) l ≡ load_files (files ++ last ∷ []) l
unfolding load_sorted
load_sorted-load_files [] last l = refl
load_sorted-load_files (f ∷ files) last l = refl

synced-IsLog : (l : Log) (ms : List Bytes) → IsLog l ms → IsLog (synced l) ms
synced-IsLog l ms h = elim (Bool-cases (ltb 0 l.next_offset)) [
  | inl some_record ↦
      rw some_record (sync-Holds l.segments l.index l.active_segment_index l.next_offset ms h)
  | inr empty ↦ rw empty h
]

recover_wal-IsLog :
    (l : Log) (ms : List Bytes)
    → IsLog (replay (length l.wal) l.wal l) ms
    → IsLog (recover_wal l) ms
unfolding recover_wal replay
recover_wal-IsLog l ms h = elim (Bool-cases (nat_eq (length l.wal) 0)) [
  | inl empty ↦
      let z : length l.wal ≡ 0 = (nat_eq_iff (length l.wal) 0).0 empty in
      rw empty (subst (λ k. IsLog (replay k l.wal l) ms) z h)
  | inr more ↦ rw more (synced-IsLog (replay (length l.wal) l.wal l) ms h)
]

-- What a crash has left of a log.
pub record Remains : Type 0 where
  -- the messages in the segments before the last one
  pub rows : List (List Bytes)
  -- the last segment: its whole records, and what is behind them
  pub kept : List Bytes
  pub tail : Bytes
  -- the WAL: the messages before its first record; those that the segments hold too; the others
  pub base : List Bytes
  pub old : List Bytes
  pub new : List Bytes
  pub wal_tail : Bytes
  -- the messages whose records the crash has cut from the end of the WAL
  pub lost : List Bytes

abbrev pub wal_bytes : Remains → Bytes
wal_bytes r = wal_records (length r.base) (r.old ++ r.new) ++ r.wal_tail

-- How many messages are to be found again.
abbrev pub survivors : Remains → ℕ
survivors r = length (r.base ++ (r.old ++ r.new))

-- What was appended is what lay before the WAL and what was in it. Only the last segment and the end
-- of the WAL are cut, the last whole record of the segments is in the WAL or just before its first
-- one, and sizes are within the limits of the format.
pub record IsCrash (r : Remains) (appended : List Bytes) : Type 0 where
  pub written : (r.base ++ (r.old ++ r.new)) ++ r.lost ≡ appended
  pub whole : All IsWhole r.rows
  pub fits : All Fits r.kept
  pub torn : Tail r.tail
  pub overlap : r.base ++ r.old ≡ contents r.rows ++ r.kept
  pub wal_torn : WalTail r.wal_tail
  pub old_short : All Short r.old
  pub new_short : All Short r.new
  pub small : length r.base + length (r.old ++ r.new) < 2 ^ 64

-- The segment files, sorted by their names, are those of the numbers from 0 on, in their order. More
-- than ten files do not sort so.
abbrev pub IsDirectory : List File → Remains → Type 0
IsDirectory files r =
    sort_files (segment_files files)
    ≡ files_from 0 r.rows ++ (segment_name (length r.rows), records r.kept ++ r.tail) ∷ []

pub open_log-IsLog :
    (files : List File) (r : Remains) (appended : List Bytes) (max_size batch : ℕ)
    → IsDirectory files r
    → IsCrash r appended
    → IsLog (open_log files (wal_bytes r) max_size batch) (r.base ++ (r.old ++ r.new))
unfolding open_log load_existing_segments Segment.reopen
open_log-IsLog files r appended max_size batch dir c =
    let start : Log = record {
      segments = [];
      index = [];
      active_segment_index = 0;
      next_offset = 0;
      max_segment_size = max_size;
      sync_batch_size = max 1 batch;
      pending_appends = 0;
      wal = wal_bytes r;
    } in
    let last : File = (segment_name (length r.rows), records r.kept ++ r.tail) in
    let found = files_from 0 r.rows ++ last ∷ [] in
    let loaded = load_files found start in
    let ready : Ready start [] = λ n d named. record {
      ends = refl;
      opened = (refl, tt);
      counted = refl;
      points = tt;
      starts = λ h. absurd (omega arith);
      ascends = tt;
      numbered = (named, tt);
    } in
    let number : 0 + length r.rows ≡ length r.rows = omega arith in
    let h =
      rw number at
        (load_files-IsLog r.rows 0 r.kept r.tail start [] refl c.whole c.fits c.torn ready) in
    let wal_eq : loaded.wal ≡ wal_bytes r = load_files-wal found start in
    let replayed =
      replay-old r.old r.new r.wal_tail c.wal_torn c.old_short c.new_short (length (wal_bytes r))
        loaded r.base (omega arith) c.small (subst (IsLog loaded) (sym c.overlap) h) in
    rw
      (
        dir,
        load_sorted-load_files (files_from 0 r.rows) last start,
        sym (append_assoc r.base r.old r.new),
      )
      (recover_wal-IsLog loaded ((r.base ++ r.old) ++ r.new) (
        subst (λ w. IsLog (replay (length w) w loaded) ((r.base ++ r.old) ++ r.new)) (sym wal_eq)
          replayed))

pub get_elem?-prefix :
    (xs ys : List Bytes) (i : ℕ) → i < length xs → get_elem? xs i ≡ get_elem? (xs ++ ys) i
get_elem?-prefix [] ys i h = elim h [ ]
get_elem?-prefix (x ∷ xs) ys zero h = refl
get_elem?-prefix (x ∷ xs) ys (suc i) h = get_elem?-prefix xs ys i (omega arith)
