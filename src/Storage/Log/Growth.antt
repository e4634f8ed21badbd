-- ===== src/Storage/Log/Growth.antt =====
-- The contents of the segments when a record is appended to the active one.
use streaming_platform.Prelude.{
  ℕ, suc, ◌^◌, ◌<◌, ◌≡◌, ◌≢◌, sym, ap, subst, ◌∙◌, inl, inr, some, List, [], ◌∷◌, ◌++◌, append-nil,
  arith, nat_eq, nat_eq_iff, Bool-cases, length, get_elem?, set, length-set, get_elem?-set_self,
  get_elem?-set_ne,
}
use streaming_platform.Text.{Bytes}
use streaming_platform.Storage.Segment
use streaming_platform.Storage.Segment.{LogSegment, record_bytes}
use streaming_platform.Storage.Segment.Records.{IsOpen, append-IsOpen}
use streaming_platform.Storage.Log.{size_of, next_position}
use streaming_platform.Storage.Log.Contents.{
  At, Ahead, At-mono, some-injective, size, size_of-found, next_position-same, next_position-last,
}

module _ (segments : List LogSegment) (active : ℕ) (segment : LogSegment) (m : Bytes)
    (ends : suc active ≡ length segments) (found : get_elem? segments active ≡ some segment)
    (opened : IsOpen segment) (fits : length m < 2 ^ 64) where
  abbrev grown : List LogSegment
  grown = set segments active (Segment.append m segment).0

  grown-active : get_elem? grown active ≡ some (Segment.append m segment).0
  grown-active = get_elem?-set_self segments active (Segment.append m segment).0 (omega arith)

  grown-length : length grown ≡ length segments
  grown-length = length-set segments active (Segment.append m segment).0

  At-grown : (s b : ℕ) (x : Bytes) → At segments s b x → At grown s b x
  unfolding Segment.append
  At-grown s b x a = elim (Bool-cases (nat_eq active s)) [
    | inl same ↦
        let e : active ≡ s = (nat_eq_iff active s).0 same in
        let at_s : get_elem? segments s ≡ some segment =
          ap (λ k. get_elem? segments k) (sym e) ∙ found in
        let eq : segment ≡ a.segment = some-injective (sym at_s ∙ a.found) in
        At-mono a (Segment.append m segment).0 (record_bytes m)
          (ap (λ k. get_elem? grown k) (sym e) ∙ grown-active)
          (ap (λ (t : LogSegment). t.file ++ record_bytes m) eq) (append-IsOpen m segment opened)
    | inr other ↦
        let ne : active ≢ s = λ e. let t = (nat_eq_iff active s).1 e in cc in
        At-mono a a.segment []
          (get_elem?-set_ne segments active s (Segment.append m segment).0 ne ∙ a.found)
          (sym (append-nil a.segment.file)) a.opened
  ]

  next_position-grown :
      (s b : ℕ) (x : Bytes) → next_position grown s b x ≡ next_position segments s b x
  next_position-grown s b x = elim (Bool-cases (nat_eq active s)) [
    | inl same ↦
        let e : suc s ≡ length segments = ap suc (sym ((nat_eq_iff active s).0 same)) ∙ ends in
        next_position-last grown s b x (e ∙ sym grown-length)
        ∙ sym (next_position-last segments s b x e)
    | inr other ↦
        let ne : active ≢ s = λ e. let t = (nat_eq_iff active s).1 e in cc in
        next_position-same segments grown s b x
          (ap size (get_elem?-set_ne segments active s (Segment.append m segment).0 ne))
          grown-length
  ]

  At-end : At grown active segment.current_size m
  unfolding Segment.append
  At-end = record {
    segment = (Segment.append m segment).0;
    found = grown-active;
    front = segment.file;
    back = [];
    bytes = ap (λ t. segment.file ++ t) (sym (append-nil (record_bytes m)));
    place = sym opened;
    opened = append-IsOpen m segment opened;
    fits = fits;
  }

  pub Ahead-end : Ahead grown active segment.current_size (m ∷ [])
  unfolding Segment.append Segment.sizes
  Ahead-end = (
    At-end,
    rw (next_position-last grown active segment.current_size m (ends ∙ sym grown-length)) (
      ends ∙ sym grown-length,
      size_of-found grown active (Segment.append m segment).0 grown-active,
    ),
  )

  pub Ahead-grown :
      (s b : ℕ) (ms : List Bytes) → Ahead segments s b ms → Ahead grown s b (ms ++ m ∷ [])
  Ahead-grown s b [] a =
      let s_eq : active ≡ s = omega arith in
      let b_eq : segment.current_size ≡ b =
        sym (size_of-found segments active segment found)
        ∙ ap (λ k. size_of segments k) s_eq
        ∙ a.1 in
      subst (λ k. Ahead grown s k (m ∷ [])) b_eq
        (subst (λ k. Ahead grown k segment.current_size (m ∷ [])) s_eq Ahead-end)
  Ahead-grown s b (x ∷ ms) a = (
    At-grown s b x a.0,
    rw (next_position-grown s b x)
        (Ahead-grown (next_position segments s b x).0 (next_position segments s b x).1 ms a.1),
  )
