-- ===== src/Storage/Log/Holding.antt =====
-- A log as the list of its messages: the invariant of Log, and that each step of `append` keeps it.
use streaming_platform.Prelude.{
  ℕ, zero, suc, ◌+◌, ◌-◌, ◌^◌, ◌≤◌, ◌<◌, ◌≡◌, refl, sym, ap, subst, ◌∙◌, inl, inr, some, List, [],
  ◌∷◌, ◌++◌, map, arith, leb, Bool-cases, length, get_elem?, set, drop, All, All-append, All-mono,
  All-get, length-append, length-set, length-map, drop-append, drop-length-append, ◌⊎◌,
}
use streaming_platform.Text.{Bytes}
use streaming_platform.Storage.Segment
use streaming_platform.Storage.Segment.{LogSegment}
use streaming_platform.Storage.Segment.Records.{IsOpen, append-IsOpen}
use streaming_platform.Storage.Log.{
  Log, LogIndexEntry, size_of, add_entry, append_active, roll, active_size, segment_name,
}
use streaming_platform.Storage.Log.Naming.{
  Numbered, Numbered-snoc, Numbered-append, Numbered-sync, file_named-later,
}
use streaming_platform.Storage.Log.Contents.{Ahead}
use streaming_platform.Storage.Log.Growth.{Ahead-grown, Ahead-end}
use streaming_platform.Storage.Log.Rolling.{Ahead-rolled, Ahead-synced}

-- The checkpoint stands before the message with its offset.
abbrev pub Points : List LogSegment → List Bytes → LogIndexEntry → Type 0
Points segments ms e =
    (e.offset < length ms) × Ahead segments e.segment_index e.byte_position (drop e.offset ms)

-- The first checkpoint is that of offset 0.
abbrev pub Starts : List LogIndexEntry → Type 0
Starts [] = ⊥
Starts (e ∷ es) = e.offset ≡ 0

-- The offsets ascend, as the binary search of `fetch` needs.
abbrev pub Ascends : List LogIndexEntry → Type 0
Ascends [] = Unit {0}
Ascends (e ∷ es) = All (λ (x : LogIndexEntry). e.offset < x.offset) es × Ascends es

pub record Holds (segments : List LogSegment) (index : List LogIndexEntry) (active next : ℕ)
    (ms : List Bytes) : Type 0 where
  pub ends : suc active ≡ length segments
  pub opened : All IsOpen segments
  pub counted : next ≡ length ms
  pub points : All (Points segments ms) index
  pub starts : 0 < length ms → Starts index
  pub ascends : Ascends index
  pub numbered : Numbered 0 segments

abbrev pub IsLog : Log → List Bytes → Type 0
IsLog l ms = Holds l.segments l.index l.active_segment_index l.next_offset ms

All-set {ℓ κ} :
    {A : Type ℓ} (P : A → Type κ) (xs : List A) (i : ℕ) (v : A)
    → All P xs
    → P v
    → All P (set xs i v)
All-set P [] i v h p = h
All-set P (x ∷ xs) zero v h p = (p, h.1)
All-set P (x ∷ xs) (suc i) v h p = (h.0, All-set P xs i v h.1 p)

All-map {ℓ κ} :
    {A : Type ℓ} (P : A → Type κ) (f : A → A) (xs : List A)
    → ((x : A) → P x → P (f x))
    → All P xs
    → All P (map f xs)
All-map P f [] k h = tt
All-map P f (x ∷ xs) k h = (k x h.0, All-map P f xs k h.1)

drop-snoc :
    (n : ℕ) (ms : List Bytes) (m : Bytes)
    → n ≤ length ms
    → drop n (ms ++ m ∷ []) ≡ drop n ms ++ m ∷ []
drop-snoc n ms m h =
    let z : n - length ms ≡ 0 = omega arith in drop-append n ms (m ∷ []) ∙ rw z refl

drop-cons :
    (n : ℕ) (ms : List Bytes)
    → n < length ms
    → (x : Bytes) × (xs : List Bytes) × (drop n ms ≡ x ∷ xs)
drop-cons n [] h = elim h [ ]
drop-cons zero (x ∷ ms) h = (x, ms, refl)
drop-cons (suc n) (x ∷ ms) h = drop-cons n ms (omega arith)

Starts-append : (es fs : List LogIndexEntry) → Starts es → Starts (es ++ fs)
Starts-append [] fs h = elim h [ ]
Starts-append (e ∷ es) fs h = h

Ascends-snoc :
    (es : List LogIndexEntry) (e : LogIndexEntry)
    → Ascends es
    → All (λ (x : LogIndexEntry). x.offset < e.offset) es
    → Ascends (es ++ e ∷ [])
Ascends-snoc [] e a h = (tt, tt)
Ascends-snoc (x ∷ es) e a h = (
  All-append (λ (y : LogIndexEntry). x.offset < y.offset) es (e ∷ []) a.0 (h.0, tt),
  Ascends-snoc es e a.1 h.1,
)

zero_or_pos : (n : ℕ) → (n ≡ 0) ⊎ (0 < n)
zero_or_pos n = ground arith

add_entry-cases :
    (offset s b : ℕ) (index : List LogIndexEntry)
    → ((add_entry offset s b index ≡ index) × (0 < offset))
      ⊎ (add_entry offset s b index
          ≡ index ++ record { offset = offset; segment_index = s; byte_position = b } ∷ [])
unfolding add_entry
add_entry-cases offset s b index = ground arith

module _ (l : Log) (ms : List Bytes) (m : Bytes) (segment : LogSegment) (h : IsLog l ms)
    (found : get_elem? l.segments l.active_segment_index ≡ some segment)
    (fits : length m < 2 ^ 64) where
  abbrev entry : LogIndexEntry
  entry = record {
    offset = l.next_offset;
    segment_index = l.active_segment_index;
    byte_position = segment.current_size;
  }

  abbrev segments' : List LogSegment
  segments' = set l.segments l.active_segment_index (Segment.append m segment).0

  opened : IsOpen segment
  opened = All-get IsOpen l.segments l.active_segment_index segment h.opened found

  Points-grown : (e : LogIndexEntry) → Points l.segments ms e → Points segments' (ms ++ m ∷ []) e
  Points-grown e p = (
    omega (arith, length-append ms (m ∷ [])),
    rw (drop-snoc e.offset ms m (omega arith)) (
        Ahead-grown l.segments l.active_segment_index segment m h.ends found opened fits
          e.segment_index e.byte_position (drop e.offset ms) p.1),
  )

  Points-entry : Points segments' (ms ++ m ∷ []) entry
  Points-entry = (
    omega (arith, length-append ms (m ∷ []), h.counted),
    rw (h.counted, drop-length-append ms (m ∷ []))
        (Ahead-end l.segments l.active_segment_index segment m h.ends found opened fits),
  )

  grown-Holds :
      (index : List LogIndexEntry)
      → All (Points segments' (ms ++ m ∷ [])) index
      → Starts index
      → Ascends index
      → Holds segments' index l.active_segment_index (l.next_offset + 1) (ms ++ m ∷ [])
  grown-Holds index p s a = record {
    ends = h.ends ∙ sym (length-set l.segments l.active_segment_index (Segment.append m segment).0);
    opened =
        All-set IsOpen l.segments l.active_segment_index (Segment.append m segment).0 h.opened
          (append-IsOpen m segment opened);
    counted = omega (arith, length-append ms (m ∷ []), h.counted);
    points = p;
    starts = λ _. s;
    ascends = a;
    numbered = Numbered-append 0 l.segments l.active_segment_index segment m h.numbered found;
  }

  Starts-entry : (l.next_offset ≡ 0) ⊎ (0 < l.next_offset) → Starts (l.index ++ entry ∷ [])
  Starts-entry (inl first) = starts_empty l.index first h.points
    where
      starts_empty :
          (es : List LogIndexEntry)
          → l.next_offset ≡ 0
          → All (Points l.segments ms) es
          → Starts (es ++ entry ∷ [])
      starts_empty [] z ps = z
      starts_empty (e ∷ es) z ps = omega (arith, ps.0.0, h.counted)
  Starts-entry (inr later) =
      Starts-append l.index (entry ∷ []) (h.starts (omega (arith, h.counted)))

  older : All (Points segments' (ms ++ m ∷ [])) l.index
  older =
      All-mono (Points l.segments ms) (Points segments' (ms ++ m ∷ [])) l.index Points-grown
        h.points

  pub append_active-IsLog : IsLog (append_active m (some segment) l) (ms ++ m ∷ [])
  unfolding Segment.append
  append_active-IsLog =
      elim (add_entry-cases l.next_offset l.active_segment_index segment.current_size l.index) [
        | inl (e, later) ↦
            subst
              (λ index.
                Holds segments' index l.active_segment_index (l.next_offset + 1) (ms ++ m ∷ []))
              (sym e) (grown-Holds l.index older (h.starts (omega (arith, h.counted))) h.ascends)
        | inr e ↦
            subst
              (λ index.
                Holds segments' index l.active_segment_index (l.next_offset + 1) (ms ++ m ∷ []))
              (sym e)
              (grown-Holds (l.index ++ entry ∷ [])
                (All-append (Points segments' (ms ++ m ∷ [])) l.index (entry ∷ []) older
                  (Points-entry, tt))
                (Starts-entry (zero_or_pos l.next_offset))
                (Ascends-snoc l.index entry h.ascends (
                  All-mono (Points l.segments ms) (λ (x : LogIndexEntry). x.offset < l.next_offset)
                    l.index (λ x p. omega (arith, p.0, h.counted)) h.points)))
      ]

-- A new segment behind an active one with a record in it.
pub rolled-Holds :
    (segments : List LogSegment) (index : List LogIndexEntry) (active next : ℕ) (ms : List Bytes)
    (new : LogSegment)
    → ((s : ℕ) → suc s ≡ length segments → 0 < size_of segments s)
    → new.current_size ≡ 0
    → IsOpen new
    → new.name ≡ segment_name (length segments)
    → Holds segments index active next ms
    → Holds (segments ++ new ∷ []) index (length segments) next ms
rolled-Holds segments index active next ms new positive empty opened named h = record {
  ends = omega (arith, length-append segments (new ∷ []));
  opened = All-append IsOpen segments (new ∷ []) h.opened (opened, tt);
  counted = h.counted;
  points =
      All-mono (Points segments ms) (Points (segments ++ new ∷ []) ms) index
        (λ e p.
          let (x, xs, eq) = drop-cons e.offset ms p.0 in
          (
            p.0,
            rw eq (
                Ahead-rolled segments new empty positive e.segment_index e.byte_position x xs
                  (rw eq at p.1)),
          ))
        h.points;
  starts = h.starts;
  ascends = h.ascends;
  numbered = Numbered-snoc 0 segments new h.numbered (named ∙ ap segment_name (omega arith));
}

pub roll-IsLog :
    (l : Log) (ms : List Bytes)
    → ((s : ℕ) → suc s ≡ length l.segments → 0 < size_of l.segments s)
    → IsLog l ms
    → IsLog (roll l) ms
unfolding roll Segment.reopen
roll-IsLog l ms positive h = elim (Bool-cases (leb l.max_segment_size (active_size l))) [
  | inl full ↦
      let new = file_named-later 0 l.segments (length l.segments) h.numbered (omega arith) in
      rw (full, new)
        (rolled-Holds l.segments l.index l.active_segment_index l.next_offset ms
          (Segment.reopen (segment_name (length l.segments)) []) positive refl refl refl h)
  | inr room ↦ rw room h
]

pub sync-Holds :
    (segments : List LogSegment) (index : List LogIndexEntry) (active next : ℕ) (ms : List Bytes)
    → Holds segments index active next ms
    → Holds (map Segment.sync segments) index active next ms
unfolding Segment.sync
sync-Holds segments index active next ms h = record {
  ends = h.ends ∙ sym (length-map Segment.sync segments);
  opened = All-map IsOpen Segment.sync segments (λ s o. o) h.opened;
  counted = h.counted;
  points =
      All-mono (Points segments ms) (Points (map Segment.sync segments) ms) index
        (λ e p. (p.0, Ahead-synced segments e.segment_index e.byte_position (drop e.offset ms) p.1))
        h.points;
  starts = h.starts;
  ascends = h.ascends;
  numbered = Numbered-sync 0 segments h.numbered;
}
