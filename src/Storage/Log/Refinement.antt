-- ===== src/Storage/Log/Refinement.antt =====
-- A log refines a list of messages: append adds at the end and returns the place, fetch reads a place.
use streaming_platform.Prelude.{
  ℕ, suc, ◌+◌, ◌-◌, ◌^◌, ◌≤◌, ◌<◌, ◌≡◌, refl, sym, ap, subst, ◌∙◌, false, inl, inr, none, some,
  List, [], ◌∷◌, ◌++◌, append-nil, append_assoc, arith, ltb, leb, Bool-cases, length, get_elem?,
  set, drop, All, length-set, get_elem?-some, get_elem?-set_self, get_elem?-past, get_elem?-drop,
  length-drop, leb→le,
}
use streaming_platform.Text.{Bytes}
use streaming_platform.Storage.Segment
use streaming_platform.Storage.Segment.{LogSegment}
use streaming_platform.Storage.Log.{
  Log, LogIndexEntry, size_of, append_active, roll, count_append, sync_pending, write_wal,
  write_record, append, flush, fetch, checkpoint,
}
use streaming_platform.Storage.Log.Contents.{size_of-found, walk-Ahead}
use streaming_platform.Storage.Log.Holding.{
  IsLog, Points, Starts, append_active-IsLog, roll-IsLog, sync-Holds,
}
use streaming_platform.Storage.Log.Recovery.{
  open_log, load_existing_segments, load_sorted, sort_files, segment_files, recover_wal,
}

active_found :
    (l : Log) (ms : List Bytes)
    → IsLog l ms
    → (s : LogSegment) × (get_elem? l.segments l.active_segment_index ≡ some s)
active_found l ms h = get_elem?-some l.segments l.active_segment_index (omega (arith, h.ends))

-- A log that has just been appended to has something in its active segment.
append_active-positive :
    (l : Log) (ms : List Bytes) (m : Bytes) (segment : LogSegment)
    → IsLog l ms
    → (s : ℕ) → suc s ≡ length (append_active m (some segment) l).segments
    → 0 < size_of (append_active m (some segment) l).segments s
unfolding Segment.append
append_active-positive l ms m segment h s last =
    let segment' = (Segment.append m segment).0 in
    let e : l.active_segment_index ≡ s =
      omega (arith, length-set l.segments l.active_segment_index segment', h.ends) in
    let at_s =
      ap (λ k. get_elem? (set l.segments l.active_segment_index segment') k) (sym e)
      ∙ get_elem?-set_self l.segments l.active_segment_index segment' (omega (arith, h.ends)) in
    omega (arith, size_of-found (set l.segments l.active_segment_index segment') s segment' at_s)

pub write_record-IsLog :
    (l : Log) (ms : List Bytes) (m : Bytes)
    → length m < 2 ^ 64
    → IsLog l ms
    → IsLog (roll (write_record m l)) (ms ++ m ∷ [])
unfolding write_record
write_record-IsLog l ms m fits h =
    let (segment, found) = active_found l ms h in
    let l' = record l { wal = write_wal l.next_offset m l.wal } in
    rw found (
      roll-IsLog (append_active m (some segment) l') (ms ++ m ∷ [])
        (append_active-positive l' ms m segment h)
        (append_active-IsLog l' ms m segment h found fits))

sync_pending-IsLog : (l : Log) (ms : List Bytes) → IsLog l ms → IsLog (sync_pending l) ms
unfolding sync_pending
sync_pending-IsLog l ms h = sync-Holds l.segments l.index l.active_segment_index l.next_offset ms h

pub append-IsLog :
    (l : Log) (ms : List Bytes) (m : Bytes)
    → length m < 2 ^ 64
    → IsLog l ms
    → IsLog (append m l).0 (ms ++ m ∷ [])
unfolding append count_append
append-IsLog l ms m fits h =
    let l' = roll (write_record m l) in
    let h' = write_record-IsLog l ms m fits h in
    elim (Bool-cases (leb l'.sync_batch_size (l'.pending_appends + 1))) [
      | inl due ↦ rw due (
          sync_pending-IsLog (record l' { pending_appends = l'.pending_appends + 1 }) (ms ++ m ∷ [])
            h')
      | inr more ↦ rw more h'
    ]

pub flush-IsLog : (l : Log) (ms : List Bytes) → IsLog l ms → IsLog (flush l) ms
unfolding flush
flush-IsLog l ms h = elim (Bool-cases (ltb 0 l.pending_appends)) [
  | inl due ↦ rw due (sync_pending-IsLog l ms h)
  | inr idle ↦ rw idle h
]

pub append-counted :
    (l : Log) (ms : List Bytes) (m : Bytes) → IsLog l ms → (append m l).1 ≡ length ms
unfolding append
append-counted l ms m h = h.counted

-- The binary search ends at a checkpoint that is not behind the offset.
checkpoint-Points :
    (segments : List LogSegment) (ms : List Bytes) (offset : ℕ) (best : LogIndexEntry)
    (es : List LogIndexEntry)
    → best.offset ≤ offset
    → Points segments ms best
    → All (Points segments ms) es
    → (e : LogIndexEntry) × (checkpoint offset (some best) es ≡ some e)
      × (e.offset ≤ offset)
      × Points segments ms e
unfolding checkpoint
checkpoint-Points segments ms offset best [] b p ps = (best, refl, b, p)
checkpoint-Points segments ms offset best (e ∷ es) b p ps =
    elim (Bool-cases (ltb offset e.offset)) [
      | inl behind ↦ (best, rw behind refl, b, p)
      | inr before ↦
          let (x, eq, le, q) = checkpoint-Points segments ms offset e es (ground arith) ps.0 ps.1 in
          (x, rw before eq, le, q)
    ]

first_checkpoint :
    (segments : List LogSegment) (ms : List Bytes) (offset : ℕ) (es : List LogIndexEntry)
    → Starts es
    → All (Points segments ms) es
    → (e : LogIndexEntry) × (checkpoint offset none es ≡ some e)
      × (e.offset ≤ offset)
      × Points segments ms e
unfolding checkpoint
first_checkpoint segments ms offset [] s ps = elim s [ ]
first_checkpoint segments ms offset (e ∷ es) s ps =
    let le : ltb offset e.offset ≡ false = ground arith in
    let (x, eq, b, q) = checkpoint-Points segments ms offset e es (omega arith) ps.0 ps.1 in
    (x, rw le eq, b, q)

pub fetch-get_elem? :
    (l : Log) (ms : List Bytes) (offset : ℕ) → IsLog l ms → fetch offset l ≡ get_elem? ms offset
unfolding fetch
fetch-get_elem? l ms offset h = elim (Bool-cases (leb l.next_offset offset)) [
  | inl past ↦ rw past (sym (get_elem?-past ms offset (omega (arith, leb→le _ _ past, h.counted))))
  | inr within ↦
      let below : offset < length ms = ground (arith, h.counted) in
      let (e, found, le, p) =
        first_checkpoint l.segments ms offset l.index (h.starts (omega arith)) h.points in
      rw (within, found)
        (walk-Ahead (offset - e.offset) l.segments e.segment_index e.byte_position
            (drop e.offset ms) p.1 (omega (arith, length-drop e.offset ms))
          ∙ get_elem?-drop ms e.offset (offset - e.offset)
          ∙ ap (λ k. get_elem? ms k) (omega arith))
]

-- The calls that change a log.
pub data Call : Type 0 where
  appends : Bytes → Call
  flushes : Call

unfoldable pub run : List Call → Log → Log
run [] l = l
run (appends m ∷ cs) l = run cs (append m l).0
run (flushes ∷ cs) l = run cs (flush l)

abbrev pub messages : List Call → List Bytes
messages [] = []
messages (appends m ∷ cs) = m ∷ messages cs
messages (flushes ∷ cs) = messages cs

abbrev pub Fits : Call → Type 0
Fits (appends m) = length m < 2 ^ 64
Fits flushes = Unit {0}

pub run-IsLog :
    (cs : List Call) (l : Log) (ms : List Bytes)
    → All Fits cs
    → IsLog l ms
    → IsLog (run cs l) (ms ++ messages cs)
unfolding run
run-IsLog [] l ms f h = subst (IsLog l) (sym (append-nil ms)) h
run-IsLog (appends m ∷ cs) l ms f h =
    subst (IsLog (run cs (append m l).0)) (append_assoc ms (m ∷ []) (messages cs))
      (run-IsLog cs (append m l).0 (ms ++ m ∷ []) f.1 (append-IsLog l ms m f.0 h))
run-IsLog (flushes ∷ cs) l ms f h = run-IsLog cs (flush l) ms f.1 (flush-IsLog l ms h)

pub new_log-IsLog : (max_size batch : ℕ) → IsLog (open_log [] [] max_size batch) []
unfolding open_log load_existing_segments load_sorted sort_files segment_files recover_wal
    Segment.reopen
new_log-IsLog max_size batch = record {
  ends = refl;
  opened = (refl, tt);
  counted = refl;
  points = tt;
  starts = λ h. absurd (omega arith);
  ascends = tt;
  numbered = (refl, tt);
}

-- From an empty directory, after any sequence of appends and flushes of messages shorter than 2^64
-- bytes, whatever the segment size and the batch size: fetch gives for each offset the message with
-- that number among those appended, and fails for every other offset; the next append returns how
-- many there are.
pub run-fetch :
    (cs : List Call) (max_size batch offset : ℕ) (next : Bytes)
    → All Fits cs
    → (fetch offset (run cs (open_log [] [] max_size batch)) ≡ get_elem? (messages cs) offset)
      × ((append next (run cs (open_log [] [] max_size batch))).1 ≡ length (messages cs))
run-fetch cs max_size batch offset next f =
    let l = run cs (open_log [] [] max_size batch) in
    let h = run-IsLog cs (open_log [] [] max_size batch) [] f (new_log-IsLog max_size batch) in
    (fetch-get_elem? l (messages cs) offset h, append-counted l (messages cs) next h)
