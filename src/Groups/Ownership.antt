-- ===== src/Groups/Ownership.antt =====
-- Who owns a partition after `rebalance`: exactly one member, if no partition is listed twice.
use streaming_platform.Prelude.{
  get_elem?-some, ℕ, suc, ◌+◌, ◌%◌, ◌<◌, ◌≡◌, refl, sym, ap, ◌∙◌, ◌⊎◌, true, false, inl, inr, none,
  some, List, [], ◌∷◌, arith, nat_eq_iff, get_elem?, length, Bool-cases, list_eq, list_eq_iff,
  int_eq, int_eq_iff, if◌then◌else◌, ℤ, lookup, list_Key,
}
use streaming_platform.Text.{Bytes}
use streaming_platform.Groups.{assign, sort, insert_sorted, contains, owns}
use streaming_platform.Groups.Members.{IsSorted}
use streaming_platform.Groups.Rebalance.{share, assign-share, assign-Absent, Absent}

-- No partition stands twice in the list.
abbrev pub Distinct : List ℤ → Type 0
Distinct [] = Unit {0}
Distinct (p ∷ ps) = (contains p ps ≡ false) × Distinct ps

contains-insert_sorted :
    (p q : ℤ) (ps : List ℤ) → contains p (insert_sorted q ps) ≡ contains p (q ∷ ps)
unfolding insert_sorted
contains-insert_sorted p q [] = refl
contains-insert_sorted p q (x ∷ ps) = ground (arith, contains-insert_sorted p q ps)

pub contains-sort : (p : ℤ) (ps : List ℤ) → contains p (sort ps) ≡ contains p ps
unfolding sort
contains-sort p [] = refl
contains-sort p (q ∷ ps) = contains-insert_sorted p q (sort ps) ∙ rw (contains-sort p ps)

insert_sorted-Distinct :
    (q : ℤ) (ps : List ℤ) → contains q ps ≡ false → Distinct ps → Distinct (insert_sorted q ps)
unfolding insert_sorted
insert_sorted-Distinct q [] h d = (refl, tt)
insert_sorted-Distinct q (x ∷ ps) h d = ground (
  arith,
  contains-insert_sorted x q ps,
  insert_sorted-Distinct q ps,
  int_eq_iff x q,
  int_eq_iff q x,
  h,
  d,
)

pub sort-Distinct : (ps : List ℤ) → Distinct ps → Distinct (sort ps)
unfolding sort
sort-Distinct [] d = tt
sort-Distinct (p ∷ ps) d =
    insert_sorted-Distinct p (sort ps) (contains-sort p ps ∙ d.0) (sort-Distinct ps d.1)

-- A partition is in at most one share, and in the share of its place.
share-contains :
    (n j k : ℕ) (p : ℤ) (ps : List ℤ) → contains p (share n j k ps) ≡ true → contains p ps ≡ true
unfolding share
share-contains n j k p [] h = h
share-contains n j k p (q ∷ ps) h = ground (arith, share-contains n j (k + 1) p ps)

share-once :
    (n i j k : ℕ) (p : ℤ) (ps : List ℤ)
    → Distinct ps
    → contains p (share n i k ps) ≡ true
    → contains p (share n j k ps) ≡ true
    → i ≡ j
unfolding share
share-once n i j k p [] d h g = cc
share-once n i j k p (q ∷ ps) d h g = ground (
  arith,
  share-once n i j (k + 1) p ps,
  share-contains n i (k + 1) p ps,
  share-contains n j (k + 1) p ps,
  int_eq_iff q p,
  d,
  nat_eq_iff (k % n) i,
  nat_eq_iff (k % n) j,
)

-- The place of a partition in the list, counted from `k`.
place : ℕ → ℤ → List ℤ → ℕ
place k p [] = k
place k p (q ∷ ps) = if int_eq q p then k else place (k + 1) p ps

share-place :
    (n k : ℕ) (p : ℤ) (ps : List ℤ)
    → contains p ps ≡ true
    → contains p (share n (place k p ps % n) k ps) ≡ true
unfolding share place
share-place n k p [] h = h
share-place n k p (q ∷ ps) h = ground (arith, share-place n (k + 1) p ps)

member_cases : (ms : List Bytes) (m : Bytes) → Absent m ms ⊎ ((j : ℕ) × (get_elem? ms j ≡ some m))
member_cases [] m = inl tt
member_cases (x ∷ ms) m = elim (Bool-cases (list_eq x m)) [
  | inl e ↦ inr (0, ap some ((list_eq_iff x m).0 e))
  | inr ne ↦ elim (member_cases ms m) [
    | inl away ↦ inl ((λ e. ground (arith, list_eq_iff x m)), away)
    | inr (j, at_j) ↦ inr (suc j, at_j)
  ]
]

-- A member that owns anything is at some place of the list, and owns its share.
owner_place :
    (ms : List Bytes) (ps : List ℤ) (m : Bytes) (p : ℤ)
    → IsSorted ms
    → owns (lookup m (assign ms ps)) p ≡ true
    → (j : ℕ) × (get_elem? ms j ≡ some m) × (contains p (share (length ms) j 0 (sort ps)) ≡ true)
owner_place ms ps m p s h = elim (member_cases ms m) [
  | inl away ↦ absurd (nobody (assign-Absent ms ps m away))
  | inr (j, at_j) ↦ (j, at_j, rw (assign-share ms ps j m s at_j) at h)
]
  where
    nobody : lookup m (assign ms ps) ≡ none → ⊥
    nobody e = let none_owns : owns none p ≡ true = rw e at h in cc

-- At most one owner: no two members hold one partition, if no partition is listed twice.
pub owner_unique :
    (members : List Bytes) (partitions : List ℤ) (a b : Bytes) (p : ℤ)
    → IsSorted members
    → Distinct partitions
    → owns (lookup a (assign members partitions)) p ≡ true
    → owns (lookup b (assign members partitions)) p ≡ true
    → a ≡ b
owner_unique ms ps a b p s d ha hb =
    let (i, at_i, in_i) = owner_place ms ps a p s ha in
    let (j, at_j, in_j) = owner_place ms ps b p s hb in
    let same : i ≡ j = share-once (length ms) i j 0 p (sort ps) (sort-Distinct ps d) in_i in_j in
    let there : get_elem? ms j ≡ some a = rw same at at_i in cc

-- Some owner: if there is a member, every listed partition is held by one.
pub owner_exists :
    (members : List Bytes) (partitions : List ℤ) (p : ℤ)
    → IsSorted members
    → 0 < length members
    → contains p partitions ≡ true
    → (m : Bytes) × (owns (lookup m (assign members partitions)) p ≡ true)
owner_exists ms ps p s some_member h =
    let j = place 0 p (sort ps) % length ms in
    let (m, at_j) = get_elem?-some ms j (omega arith) in
    (
      m,
      rw (assign-share ms ps j m s at_j)
          (share-place (length ms) 0 p (sort ps) (contains-sort p ps ∙ h)),
    )

-- Nothing else: what a member holds is a listed partition.
pub owned-listed :
    (members : List Bytes) (partitions : List ℤ) (m : Bytes) (p : ℤ)
    → IsSorted members
    → owns (lookup m (assign members partitions)) p ≡ true
    → contains p partitions ≡ true
owned-listed ms ps m p s h =
    let (j, at_j, in_j) = owner_place ms ps m p s h in
    sym (contains-sort p ps) ∙ share-contains (length ms) j 0 p (sort ps) in_j
