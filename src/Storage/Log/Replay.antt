-- ===== src/Storage/Log/Replay.antt =====
-- recover_wal: the records of the WAL that the segments lack are appended again.
use streaming_platform.Prelude.{
  ℕ, zero, suc, ◌+◌, ◌-◌, ◌*◌, ◌^◌, ◌≤◌, ◌<◌, ◌≡◌, refl, sym, ap, subst, ◌∙◌, true, false, inl, inr,
  ◌⊎◌, none, some, List, [], ◌∷◌, ◌++◌, append-nil, append_assoc, arith, ltb, lt→ltb, nat_eq,
  nat_eq_iff, Bool-cases, length, take, drop, All, length-append, length-drop, take-length-append,
  drop-length-append, drop-append, take-append-drop, get_elem?-some,
}
use streaming_platform.Text.{Bytes}
use streaming_platform.Storage.Segment.{put_native, get_native}
use streaming_platform.Storage.Segment.Records.{take_size, length-put_native, get_native-put_native}
use streaming_platform.Storage.Log.{Log}
use streaming_platform.Storage.Log.Holding.{IsLog, append_active-IsLog}
use streaming_platform.Storage.Log.Rebuild.{Cut, length-Cut, ltb-le}
use streaming_platform.Storage.Log.Recovery.{read_wal_record, replay_record, replay}

abbrev pub wal_limit : ℕ
wal_limit = 16 * 1024 * 1024

-- What write_wal adds to the file.
unfoldable pub wal_record : ℕ → Bytes → Bytes
wal_record k m = put_native 8 k ++ (put_native 8 (length m) ++ m)

-- The records of messages whose offsets begin at `k`.
abbrev pub wal_records : ℕ → List Bytes → Bytes
wal_records k [] = []
wal_records k (m ∷ ms) = wal_record k m ++ wal_records (k + 1) ms

-- A record that a crash has cut, or nothing.
abbrev pub WalTail : Bytes → Type 0
WalTail tail =
    (tail ≡ []) ⊎ ((k : ℕ) × (m : Bytes) × (length m ≤ wal_limit) × Cut tail (wal_record k m))

length-wal_record : (k : ℕ) (m : Bytes) → length (wal_record k m) ≡ 16 + length m
unfolding wal_record
length-wal_record k m = omega (
  arith,
  length-append (put_native 8 k) (put_native 8 (length m) ++ m),
  length-append (put_native 8 (length m)) m,
  length-put_native 8 k,
  length-put_native 8 (length m),
)

drop_offset :
    (k : ℕ) (m rest : Bytes)
    → drop 8 (wal_record k m ++ rest) ≡ put_native 8 (length m) ++ (m ++ rest)
unfolding wal_record put_native
drop_offset k m rest = refl

take_offset : (k : ℕ) (m rest : Bytes) → take 8 (wal_record k m ++ rest) ≡ put_native 8 k
unfolding wal_record put_native
take_offset k m rest = refl

drop_fields : (k : ℕ) (m rest : Bytes) → drop 16 (wal_record k m ++ rest) ≡ m ++ rest
unfolding wal_record put_native
drop_fields k m rest = refl

read_wal_record-record :
    (k : ℕ) (m rest : Bytes)
    → k < 2 ^ 64
    → length m ≤ wal_limit
    → read_wal_record (wal_record k m ++ rest) ≡ some (k, m, rest)
unfolding read_wal_record
read_wal_record-record k m rest hk hm =
    let size : get_native (take 8 (drop 8 (wal_record k m ++ rest))) ≡ length m =
      ap (λ (t : Bytes). get_native (take 8 t)) (drop_offset k m rest)
      ∙ ap get_native (take_size (length m) (m ++ rest))
      ∙ get_native-put_native (length m) (omega arith) in
    let offset : get_native (take 8 (wal_record k m ++ rest)) ≡ k =
      ap get_native (take_offset k m rest) ∙ get_native-put_native k hk in
    ground (
      arith,
      size,
      offset,
      drop_fields k m rest,
      length-append m rest,
      take-length-append m rest,
      drop-length-append m rest,
      length-append (wal_record k m) rest,
      length-wal_record k m,
    )

take-append : (n : ℕ) (xs ys : Bytes) → n ≤ length xs → take n (xs ++ ys) ≡ take n xs
take-append zero xs ys h = refl
take-append (suc n) [] ys h = elim h [ ]
take-append (suc n) (x ∷ xs) ys h = ap (λ t. x ∷ t) (take-append n xs ys (omega arith))

-- Sixteen bytes of a record hold its length already.
Cut-size :
    (k : ℕ) (m tail : Bytes)
    → length m ≤ wal_limit
    → Cut tail (wal_record k m)
    → 16 ≤ length tail
    → get_native (take 8 (drop 8 tail)) ≡ length m
Cut-size k m tail hm c long =
    let rest = drop c.count (wal_record k m) in
    let z : 8 - length tail ≡ 0 = omega arith in
    let behind : drop 8 (tail ++ rest) ≡ drop 8 tail ++ rest = rw z at (drop-append 8 tail rest) in
    let whole : tail ++ rest ≡ wal_record k m ++ [] =
      ap (λ (t : Bytes). t ++ rest) c.bytes_eq
      ∙ take-append-drop c.count (wal_record k m)
      ∙ sym (append-nil (wal_record k m)) in
    ap get_native (
      sym (take-append 8 (drop 8 tail) rest (omega (arith, length-drop 8 tail)))
      ∙ ap (λ (t : Bytes). take 8 t)
          (sym behind ∙ ap (λ (t : Bytes). drop 8 t) whole ∙ drop_offset k m [])
      ∙ take_size (length m) (m ++ []))
    ∙ get_native-put_native (length m) (omega arith)

-- A part of a record is not replayed.
read_wal_record-Cut :
    (k : ℕ) (m tail : Bytes)
    → length m ≤ wal_limit
    → Cut tail (wal_record k m)
    → read_wal_record tail ≡ none
unfolding read_wal_record
read_wal_record-Cut k m tail hm c = elim (Bool-cases (ltb (length tail) 16)) [
  | inl short ↦ rw short refl
  | inr long ↦
      let n = length-Cut tail (wal_record k m) c in
      let size = Cut-size k m tail hm c (ltb-le _ _ long) in
      let over : ltb (length (drop 16 tail)) (length m) ≡ true =
        lt→ltb _ _
          (omega (arith, length-drop 16 tail, n, c.part, length-wal_record k m, ltb-le _ _ long)) in
      ground (arith, size, over)
]

read_wal_record-WalTail : (tail : Bytes) → WalTail tail → read_wal_record tail ≡ none
unfolding read_wal_record
read_wal_record-WalTail tail (inl e) = rw e refl
read_wal_record-WalTail tail (inr (k, m, hm, c)) = read_wal_record-Cut k m tail hm c

abbrev pub Short : Bytes → Type 0
Short m = length m ≤ wal_limit

replay-WalTail : (fuel : ℕ) (tail : Bytes) (l : Log) → WalTail tail → replay fuel tail l ≡ l
unfolding replay
replay-WalTail zero tail l t = refl
replay-WalTail (suc fuel) tail l t = rw (replay, read_wal_record-WalTail tail t) refl

replay-round :
    (fuel k : ℕ) (m rest : Bytes) (l : Log)
    → k < 2 ^ 64
    → length m ≤ wal_limit
    → replay (suc fuel) (wal_record k m ++ rest) l ≡ replay fuel rest (replay_record k m l)
unfolding replay
replay-round fuel k m rest l hk hm = rw (replay, read_wal_record-record k m rest hk hm) refl

replay_record-IsLog :
    (l : Log) (ms : List Bytes) (m : Bytes)
    → length m ≤ wal_limit
    → IsLog l ms
    → IsLog (replay_record (length ms) m l) (ms ++ m ∷ [])
unfolding replay_record
replay_record-IsLog l ms m hm h =
    let (segment, found) =
      get_elem?-some l.segments l.active_segment_index (omega (arith, h.ends)) in
    let next : nat_eq (length ms) l.next_offset ≡ true = (nat_eq_iff _ _).1 (sym h.counted) in
    rw (next, found) (append_active-IsLog l ms m segment h found (omega arith))

replay_record-older : (l : Log) (k : ℕ) (m : Bytes) → k < l.next_offset → replay_record k m l ≡ l
unfolding replay_record
replay_record-older l k m h =
    let other : nat_eq k l.next_offset ≡ false = ground arith in rw other refl

length-wal_records-le :
    (k : ℕ) (m : Bytes) (ms : List Bytes) (tail : Bytes)
    → length (wal_records (k + 1) ms ++ tail) < length (wal_records k (m ∷ ms) ++ tail)
length-wal_records-le k m ms tail = omega (
  arith,
  length-append (wal_records k (m ∷ ms)) tail,
  length-append (wal_record k m) (wal_records (k + 1) ms),
  length-append (wal_records (k + 1) ms) tail,
  length-wal_record k m,
)

-- The first record of the file, with fuel for it.
replay-cons :
    (fuel k : ℕ) (m : Bytes) (ms : List Bytes) (tail : Bytes) (l : Log)
    → k < 2 ^ 64
    → length m ≤ wal_limit
    → replay (suc fuel) (wal_records k (m ∷ ms) ++ tail) l
      ≡ replay fuel (wal_records (k + 1) ms ++ tail) (replay_record k m l)
replay-cons fuel k m ms tail l hk hm =
    ap (λ w. replay (suc fuel) w l) (append_assoc (wal_record k m) (wal_records (k + 1) ms) tail)
    ∙ replay-round fuel k m (wal_records (k + 1) ms ++ tail) l hk hm

length-snoc : (ms : List Bytes) (m : Bytes) → length (ms ++ m ∷ []) ≡ length ms + 1
length-snoc ms m = length-append ms (m ∷ [])

-- The log lacks the records: each is appended.
replay-new :
    (new : List Bytes) (tail : Bytes)
    → WalTail tail
    → All Short new
    → (fuel : ℕ) (l : Log) (ms : List Bytes) → length (wal_records (length ms) new ++ tail) ≤ fuel
    → length ms + length new < 2 ^ 64
    → IsLog l ms
    → IsLog (replay fuel (wal_records (length ms) new ++ tail) l) (ms ++ new)
replay-new [] tail t f fuel l ms le small h =
    subst (λ l'. IsLog l' (ms ++ [])) (sym (replay-WalTail fuel tail l t))
      (subst (IsLog l) (sym (append-nil ms)) h)
replay-new (m ∷ new) tail t f zero l ms le small h =
    absurd (omega (arith, length-wal_records-le (length ms) m new tail))
replay-new (m ∷ new) tail t f (suc fuel) l ms le small h =
    let k = length-snoc ms m in
    let rest =
      replay-new new tail t f.1 fuel (replay_record (length ms) m l) (ms ++ m ∷ [])
        (rw k (omega (arith, length-wal_records-le (length ms) m new tail))) (omega (arith, k))
        (replay_record-IsLog l ms m f.0 h) in
    subst (λ l'. IsLog l' (ms ++ m ∷ new))
      (sym (replay-cons fuel (length ms) m new tail l (omega arith) f.0))
      (rw (k, append_assoc ms (m ∷ []) new) at rest)

-- The log has the first ones already: they change nothing.
pub replay-old :
    (old new : List Bytes) (tail : Bytes)
    → WalTail tail
    → All Short old
    → All Short new
    → (fuel : ℕ) (l : Log) (base : List Bytes)
    → length (wal_records (length base) (old ++ new) ++ tail) ≤ fuel
    → length base + length (old ++ new) < 2 ^ 64
    → IsLog l (base ++ old)
    → IsLog (replay fuel (wal_records (length base) (old ++ new) ++ tail) l) ((base ++ old) ++ new)
replay-old [] new tail t fo fn fuel l base le small h =
    rw (append-nil base) (replay-new new tail t fn fuel l base le small (rw (append-nil base) at h))
replay-old (m ∷ old) new tail t fo fn zero l base le small h =
    absurd (omega (arith, length-wal_records-le (length base) m (old ++ new) tail))
replay-old (m ∷ old) new tail t fo fn (suc fuel) l base le small h =
    let k = length-snoc base m in
    let older : length base < l.next_offset =
      omega (arith, h.counted, length-append base (m ∷ old)) in
    let rest =
      replay-old old new tail t fo.1 fn fuel l (base ++ m ∷ [])
        (rw k (omega (arith, length-wal_records-le (length base) m (old ++ new) tail)))
        (omega (arith, k)) (subst (IsLog l) (sym (append_assoc base (m ∷ []) old)) h) in
    subst (λ l'. IsLog l' ((base ++ m ∷ old) ++ new))
      (sym (
        replay-cons fuel (length base) m (old ++ new) tail l (omega arith) fo.0
        ∙ ap (λ l'. replay fuel (wal_records (length base + 1) (old ++ new) ++ tail) l')
            (replay_record-older l (length base) m older)))
      (rw (k, append_assoc base (m ∷ []) old) at rest)
