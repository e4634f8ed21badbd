-- ===== src/Replication/Commits.antt =====
-- The commit index: which records count as committed after a commit.
use streaming_platform.Prelude.{
  ℕ, ◌≡◌, refl, sym, ◌∙◌, ap, true, false, inl, inr, Bool, ◌&&◌, ◌||◌, Option, none, some, arith,
  leb, ltb, ap₂, nat_eq, nat_eq_iff, pos, Bool-cases, list_eq, list_eq_iff, ◌==◌, if◌then◌else◌, ℤ,
  lookup, lookup-insert, list_Key,
}
use streaming_platform.Text.{
  Bytes, dash, int_to_string, to_string-IsDigit, to_string-injective, split_last,
}
use streaming_platform.Replication.{Manager, make_log_key, mark_committed, is_committed, at_most}
use streaming_platform.Groups.{or_zero}

-- Only the last dash of a log's key stands before its partition.
pub make_log_key-injective :
    (s t : Bytes) (p q : ℕ) → make_log_key s (pos p) ≡ make_log_key t (pos q) → (s ≡ t) × (p ≡ q)
unfolding make_log_key int_to_string
make_log_key-injective s t p q h =
    let (e, d) =
      split_last dash s t _ _ (inl (omega arith)) (to_string-IsDigit p) (to_string-IsDigit q) h in
    (e, to_string-injective p q d)

merged :
    (old other : Option ℕ) (same : Bool) (offset o : ℕ)
    → (same ≡ true → old ≡ other)
    → at_most o
        (if same then some (if ltb (or_zero old) offset then offset else or_zero old) else other)
      ≡ (at_most o other || (same && leb o offset))
merged old none false offset o h = refl
merged old (some n) false offset o h = ground arith
merged none other true offset o h = rw (sym (h refl)) (ground arith)
merged (some n) other true offset o h = rw (sym (h refl)) (ground arith)

pub is_committed-mark_committed :
    (s t : Bytes) (p q : ℤ) (offset o : ℕ) (m : Manager)
    → is_committed t q o (mark_committed s p offset m)
      ≡ (is_committed t q o m || ((make_log_key s p == make_log_key t q) && leb o offset))
unfolding is_committed mark_committed
is_committed-mark_committed s t p q offset o m =
    rw (lookup-insert (make_log_key s p) (make_log_key t q)) (
      merged (lookup (make_log_key s p) m.commit_index_by_log)
        (lookup (make_log_key t q) m.commit_index_by_log)
        (list_eq (make_log_key s p) (make_log_key t q)) offset o
        (λ same.
          ap (λ k. lookup k m.commit_index_by_log)
            ((list_eq_iff (make_log_key s p) (make_log_key t q)).0 same)))

apart :
    (s t : Bytes) (p q : ℕ)
    → (s ≡ t → p ≡ q → ⊥)
    → list_eq (make_log_key s (pos p)) (make_log_key t (pos q)) ≡ false
apart s t p q h = elim (Bool-cases (list_eq (make_log_key s (pos p)) (make_log_key t (pos q)))) [
  | inl same ↦
      let (e, f) =
        make_log_key-injective s t p q
          ((list_eq_iff (make_log_key s (pos p)) (make_log_key t (pos q))).0 same) in
      absurd (h e f)
  | inr other ↦ other
]

pub same_log :
    (s t : Bytes) (p q : ℕ)
    → list_eq (make_log_key s (pos p)) (make_log_key t (pos q)) ≡ (list_eq s t && nat_eq p q)
same_log s t p q = elim (Bool-cases (list_eq s t)) [
  | inl st ↦ elim (Bool-cases (nat_eq p q)) [
    | inl pq ↦
        let e : s ≡ t = (list_eq_iff s t).0 st in
        let f : p ≡ q = (nat_eq_iff p q).0 pq in
        rw (st, pq)
          ((list_eq_iff (make_log_key s (pos p)) (make_log_key t (pos q))).1
            (ap₂ (λ k n. make_log_key k (pos n)) e f))
    | inr pq ↦ rw (st, pq) (apart s t p q (λ e f. let g = (nat_eq_iff p q).1 f in cc))
  ]
  | inr st ↦ rw st (apart s t p q (λ e f. let g = (list_eq_iff s t).1 e in cc))
]

-- For partitions that are not negative: a commit makes committed what was committed before and, of
-- its own topic and partition only, all up to its offset.
pub is_committed-commit :
    (s t : Bytes) (p q offset o : ℕ) (m : Manager)
    → is_committed t (pos q) o (mark_committed s (pos p) offset m)
      ≡ (is_committed t (pos q) o m || ((s == t) && nat_eq p q) && leb o offset)
is_committed-commit s t p q offset o m =
    is_committed-mark_committed s t (pos p) (pos q) offset o m ∙ rw (same_log s t p q)
