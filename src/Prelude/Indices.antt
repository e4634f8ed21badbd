-- ===== src/Prelude/Indices.antt =====
-- Reading a list by position after it has been written, extended or mapped.
use Prim.Native.Nat.{ℕ, zero, suc, ◌+◌, ◌≤◌, ◌<◌}
use mathlib.Core.Path.{◌≡◌, refl, sym, ap, ◌∙◌}
use mathlib.Core.Logic.{◌≢◌}
use mathlib.Core.List.{List, [], ◌∷◌, ◌++◌, map}
use mathlib.Core.Option.{none, some}
use native.Mathlib.Omega.{arith}
use streaming_platform.Prelude.Lists.{length, get_elem?, set, drop}

module _ {ℓ} {A : Type ℓ} where
  pub length-set : (xs : List A) (i : ℕ) (v : A) → length (set xs i v) ≡ length xs
  length-set [] i v = refl
  length-set (x ∷ xs) zero v = refl
  length-set (x ∷ xs) (suc i) v = ap suc (length-set xs i v)

  pub get_elem?-set_self :
      (xs : List A) (i : ℕ) (v : A) → i < length xs → get_elem? (set xs i v) i ≡ some v
  get_elem?-set_self [] i v h = elim h [ ]
  get_elem?-set_self (x ∷ xs) zero v h = refl
  get_elem?-set_self (x ∷ xs) (suc i) v h = get_elem?-set_self xs i v (omega arith)

  pub get_elem?-set_ne :
      (xs : List A) (i j : ℕ) (v : A) → i ≢ j → get_elem? (set xs i v) j ≡ get_elem? xs j
  get_elem?-set_ne [] i j v h = refl
  get_elem?-set_ne (x ∷ xs) zero zero v h = absurd (h refl)
  get_elem?-set_ne (x ∷ xs) zero (suc j) v h = refl
  get_elem?-set_ne (x ∷ xs) (suc i) zero v h = refl
  get_elem?-set_ne (x ∷ xs) (suc i) (suc j) v h = get_elem?-set_ne xs i j v (λ e. h (ap suc e))

  pub get_elem?-append :
      (xs ys : List A) (i : ℕ) → i < length xs → get_elem? (xs ++ ys) i ≡ get_elem? xs i
  get_elem?-append [] ys i h = elim h [ ]
  get_elem?-append (x ∷ xs) ys zero h = refl
  get_elem?-append (x ∷ xs) ys (suc i) h = get_elem?-append xs ys i (omega arith)

  pub get_elem?-append_length :
      (xs ys : List A) (y : A) → get_elem? (xs ++ y ∷ ys) (length xs) ≡ some y
  get_elem?-append_length [] ys y = refl
  get_elem?-append_length (x ∷ xs) ys y = get_elem?-append_length xs ys y

  pub get_elem?-lt : (xs : List A) (i : ℕ) (x : A) → get_elem? xs i ≡ some x → i < length xs
  get_elem?-lt [] i x h = absurd (cc)
  get_elem?-lt (y ∷ xs) zero x h = omega arith
  get_elem?-lt (y ∷ xs) (suc i) x h = omega (arith, get_elem?-lt xs i x h)

  pub get_elem?-some : (xs : List A) (i : ℕ) → i < length xs → (x : A) × (get_elem? xs i ≡ some x)
  get_elem?-some [] i h = elim h [ ]
  get_elem?-some (x ∷ xs) zero h = (x, refl)
  get_elem?-some (x ∷ xs) (suc i) h = get_elem?-some xs i (omega arith)

  pub get_elem?-past : (xs : List A) (i : ℕ) → length xs ≤ i → get_elem? xs i ≡ none
  get_elem?-past [] i h = refl
  get_elem?-past (x ∷ xs) zero h = elim h [ ]
  get_elem?-past (x ∷ xs) (suc i) h = get_elem?-past xs i (omega arith)

  pub get_elem?-drop : (xs : List A) (n i : ℕ) → get_elem? (drop n xs) i ≡ get_elem? xs (n + i)
  get_elem?-drop xs zero i = ap (λ k. get_elem? xs k) (omega arith)
  get_elem?-drop [] (suc n) i = sym (get_elem?-past [] (suc n + i) (omega arith))
  get_elem?-drop (x ∷ xs) (suc n) i =
      get_elem?-drop xs n i ∙ ap (λ k. get_elem? (x ∷ xs) k) (step n i)
    where
      step : (n i : ℕ) → suc (n + i) ≡ suc n + i
      step n i = omega arith

module _ {ℓ κ} {A : Type ℓ} {B : Type κ} (f : A → B) where
  pub length-map : (xs : List A) → length (map f xs) ≡ length xs
  length-map [] = refl
  length-map (x ∷ xs) = ap suc (length-map xs)

  pub get_elem?-map :
      (xs : List A) (i : ℕ) (x : A) → get_elem? xs i ≡ some x → get_elem? (map f xs) i ≡ some (f x)
  get_elem?-map [] i x h = cc
  get_elem?-map (y ∷ xs) zero x h = cc
  get_elem?-map (y ∷ xs) (suc i) x h = get_elem?-map xs i x h

pub set-append_length {ℓ} :
    {A : Type ℓ} (xs : List A) (y v : A) → set (xs ++ y ∷ []) (length xs) v ≡ xs ++ v ∷ []
set-append_length [] y v = refl
set-append_length (x ∷ xs) y v = ap (λ t. x ∷ t) (set-append_length xs y v)

pub get_elem?-append_add {ℓ} :
    {A : Type ℓ} (xs ys : List A) (i : ℕ) → get_elem? (xs ++ ys) (length xs + i) ≡ get_elem? ys i
get_elem?-append_add [] ys i = ap (λ k. get_elem? ys k) (omega arith)
get_elem?-append_add (x ∷ xs) ys i =
    ap (λ k. get_elem? (x ∷ (xs ++ ys)) k) (shift (length xs) i) ∙ get_elem?-append_add xs ys i
  where
    shift : (n i : ℕ) → suc n + i ≡ suc (n + i)
    shift n i = omega arith
