-- ===== src/Prelude/Maps.antt =====
-- `std::map` and `std::unordered_map` as association lists, each key at most once by construction.
use mathlib.Core.Path.{◌≡◌}
use mathlib.Core.Bool.{true, false}
use mathlib.Core.List.{List, [], ◌∷◌}
use mathlib.Core.Option.{Option, none, some}
use native.Mathlib.Omega.{arith}
use streaming_platform.Prelude.Tests.{if◌then◌else◌}
use streaming_platform.Prelude.Equality.{Key, ◌==◌}

abbrev pub Assoc {ℓ κ} : Type ℓ → Type κ → Type (ℓ ⊔ κ)
Assoc K V = List (K × V)

module _ {ℓ κ} {K : Type ℓ} {V : Type κ} ⦃key : Key K⦄ where
  -- entries.erase(a)
  unfoldable pub erase : K → Assoc K V → Assoc K V
  erase a [] = []
  erase a ((b, w) ∷ entries) =
      let others = erase a entries in if b == a then others else (b, w) ∷ others

  -- entries.find(a)
  unfoldable pub lookup : K → Assoc K V → Option V
  lookup a [] = none
  lookup a ((b, w) ∷ entries) = elim (b == a) [ true ↦ some w | false ↦ lookup a entries ]

  -- entries[a] = x: an old entry keeps its place, a new one goes to the end
  unfoldable pub insert : K → V → Assoc K V → Assoc K V
  insert a x [] = (a, x) ∷ []
  insert a x ((b, w) ∷ entries) = elim (b == a) [
    | true ↦ (a, x) ∷ entries
    | false ↦ (b, w) ∷ insert a x entries
  ]

  pub lookup-erase :
      (a c : K) (entries : Assoc K V)
      → lookup c (erase a entries) ≡ (if a == c then none else lookup c entries)
  unfolding erase lookup
  lookup-erase a c [] = ground arith
  lookup-erase a c ((b, w) ∷ entries) =
      ground (arith, lookup-erase a c entries, key.same_iff a c, key.same_iff b a, key.same_iff b c)

  pub lookup-insert :
      (a c : K) (x : V) (entries : Assoc K V)
      → lookup c (insert a x entries) ≡ (if a == c then some x else lookup c entries)
  unfolding insert lookup
  lookup-insert a c x [] = ground arith
  lookup-insert a c x ((b, w) ∷ entries) =
      ground
        (arith, key.same_iff b a, lookup-insert a c x entries, key.same_iff b c, key.same_iff a c)
