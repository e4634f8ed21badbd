-- ===== src/Text/Numbers.antt =====
-- std::stoi on what std::to_string writes, whatever follows that is no digit.
use streaming_platform.Prelude.{
  ℕ, zero, suc, ◌+◌, ◌/◌, ◌%◌, ◌^◌, ◌<◌, ◌≡◌, refl, sym, ap, subst, ◌∙◌, ◌⊎◌, inl, inr, false, some,
  [], ◌∷◌, ◌++◌, append-nil, arith, ltb, Bool-cases, All, pos,
}
use streaming_platform.Text.{
  Bytes, IsDigit, decimal_loop, to_string, to_string-IsDigit, value-to_string, value, stoi,
  leading_digits, skip_spaces, in_int,
}

-- No digit stands at the front.
abbrev pub NoDigit : Bytes → Type 0
NoDigit [] = Unit {0}
NoDigit (c ∷ s) = (c < 48) ⊎ (57 < c)

leading_digits-append :
    (d rest : Bytes) → All IsDigit d → NoDigit rest → leading_digits (d ++ rest) ≡ d
unfolding leading_digits
leading_digits-append [] [] h n = refl
leading_digits-append [] (c ∷ rest) h n = ground arith
leading_digits-append (c ∷ d) rest h n = ground (arith, leading_digits-append d rest h.1 n)

-- Digits begin with no space and no sign.
stoi-digits :
    (c : ℕ) (d rest : Bytes)
    → All IsDigit (c ∷ d)
    → NoDigit rest
    → stoi ((c ∷ d) ++ rest) ≡ in_int false (value 0 (c ∷ d))
unfolding stoi skip_spaces value
stoi-digits c d rest h n = ground (arith, leading_digits-append (c ∷ d) rest h n)

decimal_loop-cons : (fuel n : ℕ) → (c : ℕ) × (d : Bytes) × (decimal_loop fuel n ≡ c ∷ d)
unfolding decimal_loop
decimal_loop-cons zero n = (48 + n, [], refl)
decimal_loop-cons (suc fuel) n = elim (Bool-cases (ltb n 10)) [
  | inl small ↦ (48 + n, [], rw small refl)
  | inr large ↦
      let (c, d, e) = decimal_loop-cons fuel (n / 10) in
      (c, d ++ (48 + n % 10) ∷ [], rw (large, e) refl)
]

pub to_string-cons : (n : ℕ) → (c : ℕ) × (d : Bytes) × (to_string n ≡ c ∷ d)
unfolding to_string
to_string-cons n = decimal_loop-cons n n

pub stoi-to_string :
    (n : ℕ) (rest : Bytes) → n < 2 ^ 31 → NoDigit rest → stoi (to_string n ++ rest) ≡ some (pos n)
stoi-to_string n rest small h =
    let (c, d, e) = to_string-cons n in
    let digits : All IsDigit (c ∷ d) = subst (All IsDigit) e (to_string-IsDigit n) in
    let same : value 0 (c ∷ d) ≡ n = ap (value 0) (sym e) ∙ value-to_string n in
    ap (λ t. stoi (t ++ rest)) e ∙ stoi-digits c d rest digits h ∙ rw same (ground arith)

pub stoi-to_string_all : (n : ℕ) → n < 2 ^ 31 → stoi (to_string n) ≡ some (pos n)
stoi-to_string_all n small =
    subst (λ t. stoi t ≡ some (pos n)) (append-nil (to_string n)) (stoi-to_string n [] small tt)
