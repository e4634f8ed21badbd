-- ===== src/Storage/Log/Rebuild.antt =====
-- rebuild_index_from_segment on a file of whole records, and on one that a crash has cut.
use streaming_platform.Prelude.{
  ℕ, zero, suc, ◌+◌, ◌-◌, ◌^◌, ◌≤◌, ◌<◌, ◌≡◌, refl, ap, ◌∙◌, true, false, inl, inr, ◌⊎◌, none, List,
  [], ◌∷◌, ◌++◌, append-nil, arith, ltb, lt→ltb, Bool-cases, length, take, length-append,
  drop-length-append, length-take, get_elem?-append_length, set-append_length,
}
use streaming_platform.Text.{Bytes}
use streaming_platform.Storage.Segment
use streaming_platform.Storage.Segment.{
  LogSegment, record_bytes, put_native, get_native, read_body, read_behind,
}
use streaming_platform.Storage.Segment.Records.{
  length-record_bytes, take_size, get_native-put_native,
}
use streaming_platform.Storage.Log.{LogIndexEntry, add_entry}
use streaming_platform.Storage.Log.Holding.{Holds, append_active-IsLog}

pub ltb-le : (a b : ℕ) → ltb a b ≡ false → b ≤ a
ltb-le a b h = ground arith

-- The first bytes of something, not all of them.
pub record Cut (bytes whole : Bytes) : Type 0 where
  pub count : ℕ
  pub part : count < length whole
  pub bytes_eq : bytes ≡ take count whole

-- What is behind the last whole record: nothing, or a part of a record.
abbrev pub Tail : Bytes → Type 0
Tail tail = (tail ≡ []) ⊎ ((m : Bytes) × (length m < 2 ^ 64) × Cut tail (record_bytes m))

-- The segment as far as the scan has come.
abbrev pub partial : Bytes → Bytes → ℕ → LogSegment
partial name front durable = record {
  name = name;
  file = front;
  current_size = length front;
  durable = durable;
}

module _ (segments : List LogSegment) (name : Bytes) (durable : ℕ) where
  pub Holds-step :
      (front m : Bytes) (index : List LogIndexEntry) (next : ℕ) (done : List Bytes)
      → length m < 2 ^ 64
      → Holds (segments ++ partial name front durable ∷ []) index (length segments) next done
      → Holds
          (segments ++ partial name (front ++ record_bytes m) durable ∷ [])
          (add_entry next (length segments) (length front) index)
          (length segments)
          (next + 1)
          (done ++ m ∷ [])
  unfolding Segment.append
  Holds-step front m index next done fits h =
      let p = partial name front durable in
      let grown =
        append_active-IsLog
          (record {
            segments = segments ++ p ∷ [];
            index = index;
            active_segment_index = length segments;
            next_offset = next;
            max_segment_size = 0;
            sync_batch_size = 0;
            pending_appends = 0;
            wal = [];
          })
          done m p h (get_elem?-append_length segments [] p) fits in
      let size : length front + (8 + length m) ≡ length (front ++ record_bytes m) =
        omega (arith, length-append front (record_bytes m), length-record_bytes m) in
      rw (set-append_length, size) at grown

take-take_le : (k n : ℕ) (xs : Bytes) → k ≤ n → take k (take n xs) ≡ take k xs
take-take_le zero n xs h = refl
take-take_le (suc k) zero xs h = elim h [ ]
take-take_le (suc k) (suc n) [] h = refl
take-take_le (suc k) (suc n) (x ∷ xs) h = ap (λ t. x ∷ t) (take-take_le k n xs (omega arith))

pub length-Cut : (tail whole : Bytes) (c : Cut tail whole) → length tail ≡ c.count
length-Cut tail whole c =
    ap (λ (t : Bytes). length t) c.bytes_eq ∙ length-take c.count whole (omega (arith, c.part))

Cut-size :
    (m tail : Bytes)
    → length m < 2 ^ 64
    → Cut tail (record_bytes m)
    → 8 ≤ length tail
    → get_native (take 8 tail) ≡ length m
unfolding record_bytes
Cut-size m tail fits c long =
    ap (λ (t : Bytes). get_native (take 8 t)) c.bytes_eq
    ∙ ap get_native (
        take-take_le 8 c.count (record_bytes m) (omega (arith, length-Cut tail (record_bytes m) c))
        ∙ take_size (length m) m)
    ∙ get_native-put_native (length m) fits

-- A part of a record is not read.
pub read_behind-Cut :
    (m tail : Bytes)
    → length m < 2 ^ 64
    → Cut tail (record_bytes m)
    → read_behind tail (length tail) ≡ none
unfolding read_behind
read_behind-Cut m tail fits c = elim (Bool-cases (ltb (length tail) 8)) [
  | inl short ↦ rw short refl
  | inr long ↦
      let size = Cut-size m tail fits c (ground arith) in
      let over : ltb (length tail - 8) (length m) ≡ true = lt→ltb _ _ (
        omega (
          arith,
          ltb-le (length tail) 8 long,
          c.part,
          length-Cut tail (record_bytes m) c,
          length-record_bytes m,
        )) in
      rw (long, size, read_body, over) refl
]

-- Nothing is read where the tail begins.
pub read-Tail :
    (name front tail : Bytes)
    → Tail tail
    → (ltb (length front) (length (front ++ tail)) ≡ false)
      ⊎ (Segment.read (length front) (Segment.reopen name (front ++ tail)) ≡ none)
unfolding Segment.read Segment.reopen
read-Tail name front tail (inl none_left) =
    inl (rw none_left (rw (append-nil front) (ground arith)))
read-Tail name front tail (inr (m, fits, c)) =
    let size : length (front ++ tail) - length front ≡ length tail =
      omega (arith, length-append front tail) in
    inr (ground (arith, drop-length-append front tail, size, read_behind-Cut m tail fits c))
