-- ===== src/Groups/Rebalance.antt =====
-- What `rebalance` deals to whom: the round robin against an independent description of each share.
use streaming_platform.Prelude.{
  get_elem?-some, ℕ, zero, suc, ◌+◌, ◌%◌, ◌<◌, ◌≡◌, refl, ap, ◌∙◌, ◌≢◌, Bool, true, false, inl, inr,
  none, some, List, [], ◌∷◌, ◌++◌, append-nil, append_assoc, arith, nat_eq, nat_eq_iff, get_elem?,
  length, All, All-get, Bool-cases, Option-cases, list_eq, list_eq_iff, if◌then◌else◌, ℤ, Assoc,
  lookup, insert, lookup-insert, list_Key,
}
use streaming_platform.Text.{Bytes}
use streaming_platform.Groups.{push_to, clear_all, give, deal, assign, sort}
use streaming_platform.Groups.Members.{IsSorted, IsSorted-injective}

-- Of the partitions, numbered from `k` on, those whose number leaves `j` modulo `n`.
unfoldable pub share : ℕ → ℕ → ℕ → List ℤ → List ℤ
share n j k [] = []
share n j k (p ∷ ps) = if nat_eq (k % n) j then p ∷ share n j (k + 1) ps else share n j (k + 1) ps

list_eq_refl : (m : Bytes) → list_eq m m ≡ true
list_eq_refl m = (list_eq_iff m m).1 refl

list_eq_ne : (m t : Bytes) → m ≢ t → list_eq m t ≡ false
list_eq_ne m t h = ground (arith, list_eq_iff m t)

lookup-push_to_self :
    (m : Bytes) (p : ℤ) (xs : List ℤ) (a : Assoc Bytes (List ℤ))
    → lookup m a ≡ some xs
    → lookup m (push_to m p a) ≡ some (xs ++ p ∷ [])
unfolding push_to
lookup-push_to_self m p xs a e = rw (lookup-insert, list_eq_refl m, e)

lookup-push_to_ne :
    (t m : Bytes) (p : ℤ) (a : Assoc Bytes (List ℤ)) → t ≢ m → lookup m (push_to t p a) ≡ lookup m a
unfolding push_to
lookup-push_to_ne t m p a h = rw (lookup-insert, list_eq_ne t m h)

dealt_join :
    (b : Bool) (xs ys : List ℤ) (p : ℤ)
    → (if b then xs ++ p ∷ [] else xs) ++ ys ≡ xs ++ (if b then p ∷ ys else ys)
dealt_join true xs ys p = append_assoc xs (p ∷ []) ys
dealt_join false xs ys p = refl

module _ (members : List Bytes) (sorted : IsSorted members) (j : ℕ) (m : Bytes)
    (at_j : get_elem? members j ≡ some m) where
  lookup-give :
      (k : ℕ) (p : ℤ) (a : Assoc Bytes (List ℤ)) (xs : List ℤ)
      → k < length members
      → lookup m a ≡ some xs
      → lookup m (give (get_elem? members k) p a) ≡ some (if nat_eq k j then xs ++ p ∷ [] else xs)
  lookup-give k p a xs h e =
      let (t, at_k) = get_elem?-some members k h in
      elim (Bool-cases (nat_eq k j)) [
        | inl same ↦
            let eq : k ≡ j = (nat_eq_iff k j).0 same in
            let found : get_elem? members k ≡ some m = rw eq at_j in
            rw (found, same) (lookup-push_to_self m p xs a e)
        | inr other ↦
            let ne : t ≢ m = λ t_m.
              ground (arith, IsSorted-injective members k j m sorted (at_k ∙ ap some t_m) at_j) in
            rw (at_k, other) (lookup-push_to_ne t m p a ne ∙ e)
      ]

  lookup-deal :
      (k : ℕ) (ps : List ℤ) (a : Assoc Bytes (List ℤ)) (xs : List ℤ)
      → 0 < length members
      → lookup m a ≡ some xs
      → lookup m (deal members k ps a) ≡ some (xs ++ share (length members) j k ps)
  unfolding deal share
  lookup-deal k [] a xs h e = rw append-nil e
  lookup-deal k (p ∷ ps) a xs h e =
      let here = nat_eq (k % length members) j in
      lookup-deal (k + 1) ps (give (get_elem? members (k % length members)) p a)
        (if here then xs ++ p ∷ [] else xs) h
        (lookup-give (k % length members) p a xs (omega arith) e)
      ∙ ap some (dealt_join here xs (share (length members) j (k + 1) ps) p)

clear_all-keeps :
    (ms : List Bytes) (m : Bytes) (a : Assoc Bytes (List ℤ))
    → lookup m a ≡ some []
    → lookup m (clear_all ms a) ≡ some []
unfolding clear_all
clear_all-keeps [] m a e = e
clear_all-keeps (x ∷ ms) m a e =
    clear_all-keeps ms m (insert x [] a) (rw lookup-insert (ground (arith, e)))

lookup-clear_all :
    (ms : List Bytes) (m : Bytes) (j : ℕ) (a : Assoc Bytes (List ℤ))
    → get_elem? ms j ≡ some m
    → lookup m (clear_all ms a) ≡ some []
unfolding clear_all
lookup-clear_all [] m j a e = cc
lookup-clear_all (x ∷ ms) m zero a e =
    let head : x ≡ m = cc in
    clear_all-keeps ms m (insert x [] a) (rw (lookup-insert, head, list_eq_refl m))
lookup-clear_all (x ∷ ms) m (suc j) a e = lookup-clear_all ms m j (insert x [] a) e

-- After `rebalance` the j-th member holds exactly the partitions that stand, in ascending order, at
-- the places that leave `j` modulo the number of members.
pub assign-share :
    (members : List Bytes) (partitions : List ℤ) (j : ℕ) (m : Bytes)
    → IsSorted members
    → get_elem? members j ≡ some m
    → lookup m (assign members partitions) ≡ some (share (length members) j 0 (sort partitions))
unfolding assign
assign-share [] partitions j m s e = cc
assign-share (x ∷ xs) partitions j m s e =
    lookup-deal (x ∷ xs) s j m e 0 (sort partitions) (clear_all (x ∷ xs) []) [] (omega arith)
      (lookup-clear_all (x ∷ xs) m j [] e)

-- Who is no member holds nothing.
abbrev pub Absent : Bytes → List Bytes → Type 0
Absent m ms = All (λ x. x ≢ m) ms

give-Absent :
    (ms : List Bytes) (k : ℕ) (p : ℤ) (m : Bytes) (a : Assoc Bytes (List ℤ))
    → Absent m ms
    → lookup m (give (get_elem? ms k) p a) ≡ lookup m a
give-Absent ms k p m a h = elim (Option-cases (get_elem? ms k)) [
  | inl e ↦ rw e
  | inr (t, e) ↦ rw e (lookup-push_to_ne t m p a (All-get _ ms k t h e))
]

deal-Absent :
    (ms : List Bytes) (k : ℕ) (ps : List ℤ) (m : Bytes) (a : Assoc Bytes (List ℤ))
    → Absent m ms
    → lookup m (deal ms k ps a) ≡ lookup m a
unfolding deal
deal-Absent ms k [] m a h = refl
deal-Absent ms k (p ∷ ps) m a h =
    deal-Absent ms (k + 1) ps m (give (get_elem? ms (k % length ms)) p a) h
    ∙ give-Absent ms (k % length ms) p m a h

clear_all-Absent :
    (ms : List Bytes) (m : Bytes) (a : Assoc Bytes (List ℤ))
    → Absent m ms
    → lookup m (clear_all ms a) ≡ lookup m a
unfolding clear_all
clear_all-Absent [] m a h = refl
clear_all-Absent (x ∷ ms) m a h =
    clear_all-Absent ms m (insert x [] a) h.1 ∙ rw (lookup-insert, list_eq_ne x m h.0)

pub assign-Absent :
    (members : List Bytes) (partitions : List ℤ) (m : Bytes)
    → Absent m members
    → lookup m (assign members partitions) ≡ none
unfolding assign lookup clear_all
assign-Absent [] partitions m h = refl
assign-Absent (x ∷ xs) partitions m h =
    deal-Absent (x ∷ xs) 0 (sort partitions) m (clear_all (x ∷ xs) []) h
    ∙ clear_all-Absent (x ∷ xs) m [] h
