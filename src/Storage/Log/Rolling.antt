-- ===== src/Storage/Log/Rolling.antt =====
-- The contents of the segments when a new empty one follows, and when all are synced.
use streaming_platform.Prelude.{
  ℕ, zero, suc, ◌+◌, ◌<◌, ◌≡◌, refl, sym, ap, ◌∙◌, inl, inr, ◌⊎◌, List, [], ◌∷◌, ◌++◌, map,
  append-nil, arith, length, length-append, length-map, get_elem?-append, get_elem?-append_length,
  get_elem?-map,
}
use streaming_platform.Text.{Bytes}
use streaming_platform.Storage.Segment
use streaming_platform.Storage.Segment.{LogSegment, record_bytes}
use streaming_platform.Storage.Log.{size_of, next_position}
use streaming_platform.Storage.Log.Contents.{
  At, Ahead, At-size, At-lt, At-mono, size, size_of-found, next_position-same, next_position-last,
}

-- A new empty segment behind an active one that holds something.
module _ (segments : List LogSegment) (new : LogSegment) (empty : new.current_size ≡ 0) where
  abbrev rolled : List LogSegment
  rolled = segments ++ new ∷ []

  rolled-length : length rolled ≡ suc (length segments)
  rolled-length = omega (arith, length-append segments (new ∷ []))

  At-rolled : (s b : ℕ) (x : Bytes) → At segments s b x → At rolled s b x
  At-rolled s b x a =
      At-mono a a.segment [] (get_elem?-append segments (new ∷ []) s (At-lt a) ∙ a.found)
        (sym (append-nil a.segment.file)) a.opened

  size_of-rolled : (s : ℕ) → s < length segments → size_of rolled s ≡ size_of segments s
  size_of-rolled s h = ap size (get_elem?-append segments (new ∷ []) s h)

  -- Where the record at (s, b) is not the last one, the traversal goes on as before.
  next_position-rolled :
      (s b : ℕ) (x : Bytes)
      → s < length segments
      → (suc s ≡ length segments → b + (8 + length x) < size_of segments s)
      → next_position rolled s b x ≡ next_position segments s b x
  unfolding next_position
  next_position-rolled s b x h more = ground (arith, size_of-rolled s h, rolled-length, more)

  next_position-rolled_last :
      (s b : ℕ) (x : Bytes)
      → suc s ≡ length segments
      → size_of segments s ≡ b + (8 + length x)
      → next_position rolled s b x ≡ (length segments, 0)
  unfolding next_position
  next_position-rolled_last s b x h e =
      ground (arith, size_of-rolled s (omega arith), rolled-length)

  next_position-cases :
      (s b : ℕ) (x : Bytes)
      → (next_position segments s b x ≡ (s, b + (8 + length x)))
        ⊎ (next_position segments s b x ≡ (s + 1, 0))
  unfolding next_position
  next_position-cases s b x = ground arith

  pub Ahead-rolled :
      ((s : ℕ) → suc s ≡ length segments → 0 < size_of segments s)
      → (s b : ℕ) (x : Bytes) (ms : List Bytes) → Ahead segments s b (x ∷ ms)
      → Ahead rolled s b (x ∷ ms)
  Ahead-rolled positive s b x [] a = elim (next_position-cases s b x) [
    | inl here ↦
        let last : suc s ≡ length segments = rw here at a.1.0 in
        let full : size_of segments s ≡ b + (8 + length x) = rw here at a.1.1 in
        (
          At-rolled s b x a.0,
          rw (next_position-rolled_last s b x last full) (
            sym rolled-length,
            size_of-found rolled (length segments) new (get_elem?-append_length segments [] new)
                ∙ empty,
          ),
        )
    | inr there ↦
        let last : suc (s + 1) ≡ length segments = rw there at a.1.0 in
        let none_yet : size_of segments (s + 1) ≡ 0 = rw there at a.1.1 in
        absurd (omega (arith, positive (s + 1) last))
  ]
  Ahead-rolled positive s b x (y ∷ ms) a =
      let same =
        next_position-rolled s b x (At-lt a.0)
          (λ last. omega (arith, At-size (rw (next_position-last segments s b x last) at a.1.0))) in
      (
        At-rolled s b x a.0,
        rw same (
            Ahead-rolled positive (next_position segments s b x).0 (next_position segments s b x).1
              y ms a.1),
      )

size_of-sync :
    (segments : List LogSegment) (s : ℕ)
    → size_of (map Segment.sync segments) s ≡ size_of segments s
unfolding Segment.sync Segment.sizes
size_of-sync [] s = refl
size_of-sync (x ∷ xs) zero = refl
size_of-sync (x ∷ xs) (suc s) = size_of-sync xs s

module _ (segments : List LogSegment) where
  abbrev synced : List LogSegment
  synced = map Segment.sync segments

  At-synced : (s b : ℕ) (x : Bytes) → At segments s b x → At synced s b x
  unfolding Segment.sync
  At-synced s b x a =
      At-mono a (Segment.sync a.segment) []
        (get_elem?-map Segment.sync segments s a.segment a.found) (sym (append-nil a.segment.file))
        a.opened

  next_position-synced :
      (s b : ℕ) (x : Bytes) → next_position synced s b x ≡ next_position segments s b x
  next_position-synced s b x =
      next_position-same segments synced s b x (size_of-sync segments s)
        (length-map Segment.sync segments)

  pub Ahead-synced : (s b : ℕ) (ms : List Bytes) → Ahead segments s b ms → Ahead synced s b ms
  Ahead-synced s b [] a =
      (a.0 ∙ sym (length-map Segment.sync segments), size_of-sync segments s ∙ a.1)
  Ahead-synced s b (x ∷ ms) a = (
    At-synced s b x a.0,
    rw (next_position-synced s b x)
        (Ahead-synced (next_position segments s b x).0 (next_position segments s b x).1 ms a.1),
  )
