-- ===== src/Storage/Log/Contents.antt =====
-- What the segments of a log hold from a position on, and what appending and rolling leave there.
use streaming_platform.Prelude.{
  ℕ, zero, suc, ◌+◌, ◌^◌, ◌≤◌, ◌<◌, ◌≡◌, refl, ap, ap₂, subst, ◌∙◌, Bool, true, false, ◌&&◌, Option,
  none, some, List, [], ◌∷◌, ◌++◌, append_assoc, arith, ltb, leb, nat_eq, if◌then◌else◌, length,
  get_elem?, length-append, get_elem?-lt,
}
use streaming_platform.Text.{Bytes}
use streaming_platform.Storage.Segment
use streaming_platform.Storage.Segment.{LogSegment, record_bytes}
use streaming_platform.Storage.Segment.Records.{IsOpen, read-record, length-record_bytes}
use streaming_platform.Storage.Log.{read_at, size_of, next_position, walk}

-- The record of `m` begins at byte `b` of segment `s`.
pub record At (segments : List LogSegment) (s b : ℕ) (m : Bytes) : Type 0 where
  pub segment : LogSegment
  pub found : get_elem? segments s ≡ some segment
  pub front : Bytes
  pub back : Bytes
  pub bytes : segment.file ≡ front ++ (record_bytes m ++ back)
  pub place : length front ≡ b
  pub opened : IsOpen segment
  pub fits : length m < 2 ^ 64

-- From byte `b` of segment `s` on the segments hold these messages and no more.
abbrev pub Ahead : List LogSegment → ℕ → ℕ → List Bytes → Type 0
Ahead segments s b [] = (suc s ≡ length segments) × (size_of segments s ≡ b)
Ahead segments s b (m ∷ ms) =
    At segments s b m
    × Ahead segments (next_position segments s b m).0 (next_position segments s b m).1 ms

At-read :
    {segments : List LogSegment} {s b : ℕ} {m : Bytes}
    → At segments s b m
    → read_at segments s b ≡ some m
At-read {s} {b} {m} a =
    rw (a.found, read_at)
      (subst (λ k. Segment.read k a.segment ≡ some m) a.place
        (read-record a.segment a.front m a.back a.opened a.bytes a.fits))

-- The record ends within its segment.
pub At-size :
    {segments : List LogSegment} {s b : ℕ} {m : Bytes}
    → At segments s b m
    → b + (8 + length m) ≤ size_of segments s
unfolding Segment.sizes
At-size {s} {b} {m} a =
    rw (a.found, size_of)
      (omega (
        arith,
        a.opened,
        a.place,
        ap (λ (xs : Bytes). length xs) a.bytes,
        length-append a.front (record_bytes m ++ a.back),
        length-append (record_bytes m) a.back,
        length-record_bytes m,
      ))

pub At-lt :
    {segments : List LogSegment} {s b : ℕ} {m : Bytes} → At segments s b m → s < length segments
At-lt {segments} {s} a = get_elem?-lt segments s a.segment a.found

-- The traversal from a checkpoint finds the message that many places further.
pub walk-Ahead :
    (k : ℕ) (segments : List LogSegment) (s b : ℕ) (ms : List Bytes)
    → Ahead segments s b ms
    → k < length ms
    → walk k segments s b ≡ get_elem? ms k
unfolding walk
walk-Ahead k segments s b [] a h = elim h [ ]
walk-Ahead zero segments s b (m ∷ ms) a h = At-read a.0
walk-Ahead (suc k) segments s b (m ∷ []) a h = absurd (omega arith)
walk-Ahead (suc k) segments s b (m ∷ n ∷ ms) a h =
    let later : leb (length segments) (next_position segments s b m).0 ≡ false =
      ground (arith, At-lt a.1.0) in
    rw (At-read a.0, walk, later)
      (walk-Ahead k segments (next_position segments s b m).0 (next_position segments s b m).1
        (n ∷ ms) a.1 (omega arith))

pub some-injective {ℓ} : {A : Type ℓ} {x y : A} → some x ≡ some y → x ≡ y
some-injective h = cc

abbrev pub size : Option LogSegment → ℕ
size none = 0
size (some s) = Segment.sizes s

-- A record stands where it stood in a segment with the same file, or with more behind.
pub At-mono :
    {old new : List LogSegment} {s b : ℕ} {m : Bytes} (a : At old s b m) (segment' : LogSegment)
    (more : Bytes)
    → get_elem? new s ≡ some segment'
    → segment'.file ≡ a.segment.file ++ more
    → IsOpen segment'
    → At new s b m
At-mono {m} a segment' more found e opened = record {
  segment = segment';
  found = found;
  front = a.front;
  back = a.back ++ more;
  bytes =
      e
      ∙ ap (λ t. t ++ more) a.bytes
      ∙ append_assoc a.front (record_bytes m ++ a.back) more
      ∙ ap (λ t. a.front ++ t) (append_assoc (record_bytes m) a.back more);
  place = a.place;
  opened = opened;
  fits = a.fits;
}

stays : (t : Bool) (x y : ℕ × ℕ) → (if t && false then x else y) ≡ y
stays true x y = refl
stays false x y = refl

pub size_of-found :
    (segments : List LogSegment) (s : ℕ) (segment : LogSegment)
    → get_elem? segments s ≡ some segment
    → size_of segments s ≡ segment.current_size
unfolding Segment.sizes
size_of-found segments s segment e = rw (e, size_of) refl

pub next_position-same :
    (old new : List LogSegment) (s b : ℕ) (m : Bytes)
    → size_of new s ≡ size_of old s
    → length new ≡ length old
    → next_position new s b m ≡ next_position old s b m
unfolding next_position
next_position-same old new s b m e n =
    ap₂
      (λ (size count : ℕ).
        if nat_eq (b + (8 + length m)) size && ltb (s + 1) count
        then (s + 1, 0)
        else (s, b + (8 + length m)))
      e n

-- Behind a record of the last segment the next one follows in the same.
pub next_position-last :
    (segments : List LogSegment) (s b : ℕ) (m : Bytes)
    → suc s ≡ length segments
    → next_position segments s b m ≡ (s, b + (8 + length m))
unfolding next_position
next_position-last segments s b m h =
    let e : ltb (s + 1) (length segments) ≡ false = ground arith in
    rw e
      (stays (nat_eq (b + (8 + length m)) (size_of segments s)) (s + 1, 0) (s, b + (8 + length m)))
