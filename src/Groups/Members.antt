-- ===== src/Groups/Members.antt =====
-- `std::set<std::string>`: the member list stays strictly sorted, so no member is in it twice.
use streaming_platform.Prelude.{
  ℕ, zero, suc, ◌≡◌, refl, ap, ◌≢◌, true, false, inl, inr, some, List, [], ◌∷◌, arith, get_elem?,
  All, All-get, All-mono, Bool-cases, list_eq, list_eq_iff,
}
use streaming_platform.Text.{Bytes, str_ltb, str_ltb_trans, str_ltb_irrefl, str_ltb_total}
use streaming_platform.Groups.{set_insert, set_erase}

abbrev pub Above : Bytes → List Bytes → Type 0
Above x ys = All (λ y. str_ltb x y ≡ true) ys

abbrev pub IsSorted : List Bytes → Type 0
IsSorted [] = Unit {0}
IsSorted (x ∷ xs) = Above x xs × IsSorted xs

Above-set_insert :
    (z x : Bytes) (ys : List Bytes) → str_ltb z x ≡ true → Above z ys → Above z (set_insert x ys)
unfolding set_insert
Above-set_insert z x [] h hs = (h, tt)
Above-set_insert z x (y ∷ ys) h hs = ground (arith, Above-set_insert z x ys h hs.1)

pub set_insert-IsSorted : (x : Bytes) (ys : List Bytes) → IsSorted ys → IsSorted (set_insert x ys)
unfolding set_insert
set_insert-IsSorted x [] s = (tt, tt)
set_insert-IsSorted x (y ∷ ys) (above, s) = elim (Bool-cases (list_eq x y)) [
  | inl e ↦ rw e (above, s)
  | inr ne ↦ elim (Bool-cases (str_ltb x y)) [
    | inl lt ↦
        rw (ne, lt) ((lt, All-mono _ _ ys (λ z yz. str_ltb_trans x y z lt yz) above), (above, s))
    | inr ge ↦
        let differ : x ≢ y = λ p. absurd (differ_of x y ne p) in
        rw (ne, ge)
          (Above-set_insert y x ys (str_ltb_total x y ge differ) above, set_insert-IsSorted x ys s)
  ]
]
  where
    differ_of : (a b : Bytes) → list_eq a b ≡ false → a ≡ b → ⊥
    differ_of a b ne p = ground (arith, list_eq_iff a b)

Above-set_erase : (z x : Bytes) (ys : List Bytes) → Above z ys → Above z (set_erase x ys)
unfolding set_erase
Above-set_erase z x [] hs = tt
Above-set_erase z x (y ∷ ys) hs = ground (arith, Above-set_erase z x ys hs.1)

pub set_erase-IsSorted : (x : Bytes) (ys : List Bytes) → IsSorted ys → IsSorted (set_erase x ys)
unfolding set_erase
set_erase-IsSorted x [] s = tt
set_erase-IsSorted x (y ∷ ys) (above, s) =
    ground (arith, above, s, Above-set_erase y x ys above, set_erase-IsSorted x ys s)

not_twice : (x : Bytes) (xs : List Bytes) (i : ℕ) → Above x xs → get_elem? xs i ≡ some x → ⊥
not_twice x xs i above e =
    let lt : str_ltb x x ≡ true = All-get _ xs i x above e in cc (str_ltb_irrefl x)

-- A member is at one place only.
pub IsSorted-injective :
    (xs : List Bytes) (i j : ℕ) (x : Bytes)
    → IsSorted xs
    → get_elem? xs i ≡ some x
    → get_elem? xs j ≡ some x
    → i ≡ j
IsSorted-injective [] i j x s p q = cc
IsSorted-injective (y ∷ xs) zero zero x s p q = refl
IsSorted-injective (y ∷ xs) zero (suc j) x s p q =
    let head : y ≡ x = cc in absurd (not_twice y xs j s.0 (rw head q))
IsSorted-injective (y ∷ xs) (suc i) zero x s p q =
    let head : y ≡ x = cc in absurd (not_twice y xs i s.0 (rw head p))
IsSorted-injective (y ∷ xs) (suc i) (suc j) x s p q = ap suc (IsSorted-injective xs i j x s.1 p q)
