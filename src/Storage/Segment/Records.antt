-- ===== src/Storage/Segment/Records.antt =====
-- What a segment gives back of what was appended.
use streaming_platform.Prelude.{
  ℕ, zero, suc, ◌+◌, ◌-◌, ◌/◌, ◌^◌, ◌≤◌, ◌<◌, ◌≡◌, refl, sym, ap, List, [], ◌∷◌, append-nil, ◌∙◌,
  some, ◌++◌, append_assoc, arith, ltb-false, length, length-append, take, drop, take-length-append,
  drop-length-append,
}
use streaming_platform.Text.{Bytes}
use streaming_platform.Storage.Segment.{
  LogSegment, put_native, get_native, record_bytes, append, read_body, read_behind, read,
}

pub get_native-put_native : (v : ℕ) → v < 2 ^ 64 → get_native (put_native 8 v) ≡ v
unfolding put_native get_native
get_native-put_native v h = omega arith

pub length-put_native : (k v : ℕ) → length (put_native k v) ≡ k
unfolding put_native
length-put_native zero v = refl
length-put_native (suc k) v = ap suc (length-put_native k (v / 256))

pub length-record_bytes : (m : Bytes) → length (record_bytes m) ≡ 8 + length m
unfolding record_bytes
length-record_bytes m =
    length-append (put_native 8 (length m)) m
    ∙ ap (λ (k : ℕ). k + length m) (length-put_native 8 (length m))

-- The size that the object keeps is that of the file.
abbrev pub IsOpen : LogSegment → Type 0
IsOpen s = s.current_size ≡ length s.file

pub append-IsOpen : (m : Bytes) (s : LogSegment) → IsOpen s → IsOpen (append m s).0
unfolding append
append-IsOpen m s h = omega (arith, length-append s.file (record_bytes m), length-record_bytes m)

pub take_size : (n : ℕ) (rest : Bytes) → take 8 (put_native 8 n ++ rest) ≡ put_native 8 n
unfolding put_native
take_size n rest = refl

pub drop_size : (n : ℕ) (rest : Bytes) → drop 8 (put_native 8 n ++ rest) ≡ rest
unfolding put_native
drop_size n rest = refl

read_body-record :
    (behind m back : Bytes) (size : ℕ)
    → drop 8 behind ≡ m ++ back
    → 8 + length m ≤ size
    → read_body behind size (length m) ≡ some m
read_body-record behind m back size e h =
    rw e (ground (arith, length-append m back, take-length-append m back))

read_behind-record :
    (m back : Bytes) (size : ℕ)
    → length m < 2 ^ 64
    → 8 + length m ≤ size
    → read_behind (record_bytes m ++ back) size ≡ some m
unfolding read_behind record_bytes
read_behind-record m back size fits h =
    let whole = append_assoc (put_native 8 (length m)) m back in
    let size_field = put_native 8 (length m) in
    let long : 8 ≤ length ((size_field ++ m) ++ back) = omega (
      arith,
      length-append (size_field ++ m) back,
      length-append size_field m,
      length-put_native 8 (length m),
    ) in
    rw
      (
        ltb-false (length ((size_field ++ m) ++ back)) 8 long,
        whole,
        take_size (length m) (m ++ back),
        get_native-put_native (length m) fits,
      )
      (read_body-record (size_field ++ (m ++ back)) m back size (drop_size (length m) (m ++ back))
        h)

drop_front : (front xs : Bytes) → drop (length front) (front ++ xs) ≡ xs
drop_front front xs = drop-length-append front xs

-- A record between any bytes is read back.
pub read-record :
    (s : LogSegment) (front m back : Bytes)
    → IsOpen s
    → s.file ≡ front ++ (record_bytes m ++ back)
    → length m < 2 ^ 64
    → read (length front) s ≡ some m
unfolding read
read-record s front m back opened e fits =
    let size : length s.file ≡ length front + (8 + length m + length back) = omega (
      arith,
      ap (λ (xs : Bytes). length xs) e,
      length-append front (record_bytes m ++ back),
      length-append (record_bytes m) back,
      length-record_bytes m,
    ) in
    ground (
      arith,
      ap (drop (length front)) e ∙ drop_front front (record_bytes m ++ back),
      read_behind-record m back (s.current_size - length front) fits,
    )

-- Messages appended one after another.
unfoldable pub appends : List Bytes → LogSegment → LogSegment
appends [] s = s
appends (m ∷ ms) s = appends ms (append m s).0

abbrev pub records : List Bytes → Bytes
records [] = []
records (m ∷ ms) = record_bytes m ++ records ms

appends-IsOpen : (ms : List Bytes) (s : LogSegment) → IsOpen s → IsOpen (appends ms s)
unfolding appends
appends-IsOpen [] s h = h
appends-IsOpen (m ∷ ms) s h = appends-IsOpen ms (append m s).0 (append-IsOpen m s h)

appends-file : (ms : List Bytes) (s : LogSegment) → (appends ms s).file ≡ s.file ++ records ms
unfolding appends append
appends-file [] s = sym (append-nil s.file)
appends-file (m ∷ ms) s =
    appends-file ms (append m s).0 ∙ append_assoc s.file (record_bytes m) (records ms)

-- In a segment whose size is that of its file: at the position that appending a message has
-- returned, that message is read, whatever is appended later, if its length fits in 64 bits.
pub read-append :
    (m : Bytes) (later : List Bytes) (s : LogSegment)
    → IsOpen s
    → length m < 2 ^ 64
    → read (append m s).1 (appends later (append m s).0) ≡ some m
unfolding append
read-append m later s opened fits =
    let s' = appends later (append m s).0 in
    let e =
      appends-file later (append m s).0 ∙ append_assoc s.file (record_bytes m) (records later) in
    ap (λ k. read k s') opened
    ∙ read-record s' s.file m (records later)
        (appends-IsOpen later (append m s).0 (append-IsOpen m s opened)) e fits
