-- ===== src/Storage/Log/Scanning.antt =====
-- The scan of a whole segment file when a log is opened: its records, in the log and in the index.
use streaming_platform.Prelude.{
  ℕ, zero, suc, ◌+◌, ◌^◌, ◌≤◌, ◌<◌, ◌≡◌, refl, ap, ◌∙◌, true, false, inl, inr, none, some, List, [],
  ◌∷◌, ◌++◌, append-nil, append_assoc, arith, ltb, lt→ltb, Bool-cases, length, All, length-append,
  take-length-append,
}
use streaming_platform.Text.{Bytes}
use streaming_platform.Storage.Segment
use streaming_platform.Storage.Segment.{LogSegment, record_bytes}
use streaming_platform.Storage.Segment.Records.{records, read-record, length-record_bytes}
use streaming_platform.Storage.Log.{LogIndexEntry, add_entry}
use streaming_platform.Storage.Log.Holding.{Holds}
use streaming_platform.Storage.Log.Rebuild.{Tail, partial, Holds-step, read-Tail, ltb-le}
use streaming_platform.Storage.Log.Recovery.{Scan, rebuild_index}

abbrev pub scan : Bytes → Bytes → List LogIndexEntry → ℕ → Scan
scan name file index next = record {
  segment = Segment.reopen name file;
  index = index;
  next_offset = next;
}

empty_of_length : (tail : Bytes) → length tail ≤ 0 → tail ≡ []
empty_of_length [] h = refl
empty_of_length (x ∷ tail) h = elim h [ ]

reopen-empty :
    (name front tail : Bytes) (i next : ℕ) (index : List LogIndexEntry)
    → length tail ≤ 0
    → scan name (front ++ tail) index next ≡ scan name front index next
reopen-empty name front tail i next index h = rw (empty_of_length tail h, append-nil) refl

-- One round of the loop.
module _ (fuel i position : ℕ) (c : Scan) where
  round-done :
      ltb position (Segment.sizes c.segment) ≡ false → rebuild_index (suc fuel) i position c ≡ c
  unfolding rebuild_index
  round-done e = rw (e, rebuild_index) refl

  round-bad :
      ltb position (Segment.sizes c.segment) ≡ true
      → Segment.read position c.segment ≡ none
      → rebuild_index (suc fuel) i position c
        ≡ record c { segment = Segment.truncate position c.segment }
  unfolding rebuild_index
  round-bad e r = rw (e, rebuild_index, r) refl

  round-good :
      (m : Bytes)
      → ltb position (Segment.sizes c.segment) ≡ true
      → Segment.read position c.segment ≡ some m
      → rebuild_index (suc fuel) i position c
        ≡ rebuild_index fuel i (position + (8 + length m)) (record c {
          index = add_entry c.next_offset i position c.index;
          next_offset = c.next_offset + 1;
        })
  unfolding rebuild_index
  round-good m e r = rw (e, rebuild_index, r) refl

-- Behind the last whole record the scan stops, and what is left there is cut off.
rebuild-end :
    (fuel i next : ℕ) (name front tail : Bytes) (index : List LogIndexEntry)
    → length tail ≤ fuel
    → Tail tail
    → rebuild_index fuel i (length front) (scan name (front ++ tail) index next)
      ≡ scan name front index next
unfolding rebuild_index Segment.sizes Segment.reopen Segment.truncate
rebuild-end zero i next name front tail index h t = reopen-empty name front tail i next index h
rebuild-end (suc fuel) i next name front tail index h t =
    elim (Bool-cases (ltb (length front) (length (front ++ tail)))) [
      | inr done ↦
          round-done fuel i (length front) (scan name (front ++ tail) index next) done
          ∙ reopen-empty name front tail i next index
              (omega (arith, ltb-le _ _ done, length-append front tail))
      | inl more ↦ elim (read-Tail name front tail t) [
        | inl done ↦ cc
        | inr bad ↦
            round-bad fuel i (length front) (scan name (front ++ tail) index next) more bad
            ∙ ap (λ f. scan name f index next) (take-length-append front tail)
      ]
    ]

rebuild-step :
    (fuel i next : ℕ) (name front m back : Bytes) (index : List LogIndexEntry)
    → length m < 2 ^ 64
    → rebuild_index
        (suc fuel)
        i
        (length front)
        (scan name (front ++ (record_bytes m ++ back)) index next)
      ≡ rebuild_index fuel i (length (front ++ record_bytes m)) (
          scan name
            ((front ++ record_bytes m) ++ back)
            (add_entry next i (length front) index)
            (next + 1))
unfolding Segment.sizes Segment.reopen
rebuild-step fuel i next name front m back index fits =
    let more : ltb (length front) (length (front ++ (record_bytes m ++ back))) ≡ true = lt→ltb _ _ (
      omega (
        arith,
        length-append front (record_bytes m ++ back),
        length-append (record_bytes m) back,
        length-record_bytes m,
      )) in
    let size : length front + (8 + length m) ≡ length (front ++ record_bytes m) =
      omega (arith, length-append front (record_bytes m), length-record_bytes m) in
    round-good fuel i (length front) (scan name (front ++ (record_bytes m ++ back)) index next) m
      more
      (read-record (Segment.reopen name (front ++ (record_bytes m ++ back))) front m back refl refl
        fits)
    ∙ rw (size, append_assoc front (record_bytes m) back) refl

-- The scan of records and a tail: what it leaves of the segment, and the log with its messages.
pub rebuild-Holds :
    (segments : List LogSegment) (name : Bytes) (durable : ℕ) (ms : List Bytes) (tail : Bytes)
    → Tail tail
    → All (λ (m : Bytes). length m < 2 ^ 64) ms
    → (fuel : ℕ) (front : Bytes) (index : List LogIndexEntry) (next : ℕ) (done : List Bytes)
    → length (records ms ++ tail) ≤ fuel
    → Holds (segments ++ partial name front durable ∷ []) index (length segments) next done
    → (index' : List LogIndexEntry) × (next' : ℕ) × (rebuild_index fuel
          (length segments)
          (length front)
          (scan name (front ++ (records ms ++ tail)) index next)
        ≡ scan name (front ++ records ms) index' next')
      × Holds
          (segments ++ partial name (front ++ records ms) durable ∷ [])
          index'
          (length segments)
          next'
          (done ++ ms)
rebuild-Holds segments name durable [] tail t f fuel front index next done le h = (
  index,
  next,
  rebuild-end fuel (length segments) next name front tail index le t ∙ rw (append-nil front) refl,
  rw (append-nil front, append-nil done) h,
)
rebuild-Holds segments name durable (m ∷ ms) tail t f zero front index next done le h = absurd (
    omega (
      arith,
      length-append (records (m ∷ ms)) tail,
      length-append (record_bytes m) (records ms),
      length-record_bytes m,
    ))
rebuild-Holds segments name durable (m ∷ ms) tail t f (suc fuel) front index next done le h =
    let (index', next', e, h') =
      rebuild-Holds segments name durable ms tail t f.1 fuel (front ++ record_bytes m)
        (add_entry next (length segments) (length front) index) (next + 1) (done ++ m ∷ [])
        (omega (
          arith,
          length-append (records (m ∷ ms)) tail,
          length-append (record_bytes m) (records ms),
          length-record_bytes m,
          length-append (records ms) tail,
        ))
        (Holds-step segments name durable front m index next done f.0 h) in
    (
      index',
      next',
      rw (append_assoc (record_bytes m) (records ms) tail) (
          rebuild-step fuel (length segments) next name front m (records ms ++ tail) index f.0
          ∙ e
          ∙ rw (append_assoc front (record_bytes m) (records ms)) refl),
      rw (append_assoc front (record_bytes m) (records ms), append_assoc done (m ∷ []) ms) at h',
    )
