-- ===== src/Prelude/Equality.antt =====
-- Types whose keys the program compares with `==`.
use Prim.Native.Nat.{ℕ}
use mathlib.Core.Path.{◌≡◌}
use mathlib.Core.Logic.{◌↔◌}
use mathlib.Core.Bool.{Bool, true, false, ◌&&◌}
use mathlib.Core.List.{List, [], ◌∷◌}
use native.Mathlib.Omega.{arith}
use streaming_platform.Prelude.Tests.{nat_eq, nat_eq_iff}

pub record Key {ℓ} (A : Type ℓ) : Type ℓ where
  pub same : A → A → Bool
  pub same_iff : (x y : A) → (same x y ≡ true) ↔ (x ≡ y)

-- operator==, of whichever type has it
infix 50 ◌==◌
abbrev pub ◌==◌ {ℓ} : {A : Type ℓ} ⦃key : Key A⦄ → A → A → Bool
◌==◌ ⦃key⦄ x y = key.same x y

instance abbrev pub nat_Key : Key ℕ
nat_Key = record { same = nat_eq; same_iff = nat_eq_iff }

abbrev pub list_eq : List ℕ → List ℕ → Bool
list_eq [] [] = true
list_eq [] (y ∷ ys) = false
list_eq (x ∷ xs) [] = false
list_eq (x ∷ xs) (y ∷ ys) = nat_eq x y && list_eq xs ys

pub list_eq_iff : (xs ys : List ℕ) → (list_eq xs ys ≡ true) ↔ (xs ≡ ys)
list_eq_iff [] [] = ground arith
list_eq_iff [] (y ∷ ys) = ground arith
list_eq_iff (x ∷ xs) [] = ground arith
list_eq_iff (x ∷ xs) (y ∷ ys) = ground (arith, nat_eq_iff x y, list_eq_iff xs ys)

instance abbrev pub list_Key : Key (List ℕ)
list_Key = record { same = list_eq; same_iff = list_eq_iff }
