-- ===== src/Text.antt =====
-- `std::string` as a list of bytes, with what the program uses of the standard library on it:
-- `std::to_string`, `std::stoi`, `rfind(prefix, 0) == 0` and the order of strings.
pub mod Numbers
use Prim.Native.Char.{code}
use Prim.Native.String.{String}
use streaming_platform.Prelude.{
  ℕ, zero, suc, ◌+◌, ◌-◌, ◌*◌, ◌/◌, ◌%◌, ◌≤◌, ◌<◌, ◌≡◌, refl, sym, ap, subst, ◌⊎◌, ◌∙◌, ◌≢◌, Bool,
  true, false, ap₂, inl, inr, nat_eq_iff, ◌&&◌, ◌||◌, Option, none, some, List, [], ◌∷◌, ◌++◌,
  arith, ltb, leb, nat_eq, if◌then◌else◌, Bool-cases, All, All-append, ℤ, pos, negsuc,
}

abbrev pub Bytes : Type 0
Bytes = List ℕ

abbrev pub IsByte : ℕ → Type 0
IsByte b = b < 256

abbrev pub dash : ℕ
dash = 45

abbrev pub colon : ℕ
colon = 58

-- The decimal digits of a number. The fuel is at least the number, so it does not run out.
unfoldable pub decimal_loop : ℕ → ℕ → Bytes
decimal_loop zero n = (48 + n) ∷ []
decimal_loop (suc fuel) n =
    let rest = decimal_loop fuel (n / 10) in
    if ltb n 10 then (48 + n) ∷ [] else rest ++ ((48 + n % 10) ∷ [])

-- std::to_string of an unsigned number
unfoldable pub to_string : ℕ → Bytes
unfolding decimal_loop
to_string n = decimal_loop n n

-- std::to_string of an int
unfoldable pub int_to_string : ℤ → Bytes
unfolding to_string
int_to_string (pos n) = to_string n
int_to_string (negsuc n) = dash ∷ to_string (suc n)

-- The number that a row of digits is read as, from the accumulator on.
unfoldable pub value : ℕ → Bytes → ℕ
value acc [] = acc
value acc (c ∷ cs) = value (acc * 10 + (c - 48)) cs

abbrev pub IsDigit : ℕ → Type 0
IsDigit c = (48 ≤ c) × (c < 58)

value-append : (acc : ℕ) (xs ys : Bytes) → value acc (xs ++ ys) ≡ value (value acc xs) ys
unfolding value
value-append acc [] ys = refl
value-append acc (x ∷ xs) ys = value-append (acc * 10 + (x - 48)) xs ys

decimal_loop-value : (fuel n : ℕ) → n ≤ fuel → value 0 (decimal_loop fuel n) ≡ n
unfolding decimal_loop value
decimal_loop-value zero n h = omega arith
decimal_loop-value (suc fuel) n h = ground (
  arith,
  value-append 0 (decimal_loop fuel (n / 10)) ((48 + n % 10) ∷ []),
  decimal_loop-value fuel (n / 10),
)

decimal_loop-IsDigit : (fuel n : ℕ) → n ≤ fuel → All IsDigit (decimal_loop fuel n)
unfolding decimal_loop
decimal_loop-IsDigit zero n h = omega arith
decimal_loop-IsDigit (suc fuel) n h = ground (
  arith,
  decimal_loop-IsDigit fuel (n / 10),
  All-append IsDigit (decimal_loop fuel (n / 10)) ((48 + n % 10) ∷ []),
)

pub value-to_string : (n : ℕ) → value 0 (to_string n) ≡ n
unfolding to_string
value-to_string n = decimal_loop-value n n (omega arith)

pub to_string-IsDigit : (n : ℕ) → All IsDigit (to_string n)
unfolding to_string
to_string-IsDigit n = decimal_loop-IsDigit n n (omega arith)

pub to_string-injective : (m n : ℕ) → to_string m ≡ to_string n → m ≡ n
to_string-injective m n h = sym (value-to_string m) ∙ ap (value 0) h ∙ value-to_string n

cons-tail : {x y : ℕ} {xs ys : Bytes} → x ∷ xs ≡ y ∷ ys → xs ≡ ys
cons-tail h = cc

no_mark : (sep : ℕ) (xs ys : Bytes) → (sep < 48) ⊎ (57 < sep) → All IsDigit (xs ++ (sep ∷ ys)) → ⊥
no_mark sep [] ys h d = omega arith
no_mark sep (x ∷ xs) ys h d = no_mark sep xs ys h d.1

-- A text, a mark that is no digit, and digits: the last mark splits them again.
pub split_last :
    (sep : ℕ) (s t d e : Bytes)
    → (sep < 48) ⊎ (57 < sep)
    → All IsDigit d
    → All IsDigit e
    → s ++ (sep ∷ d) ≡ t ++ (sep ∷ e)
    → (s ≡ t) × (d ≡ e)
split_last sep [] [] d e m hd he h = ground arith
split_last sep [] (y ∷ t) d e m hd he h =
    absurd (no_mark sep t e m (subst (All IsDigit) (cons-tail h) hd))
split_last sep (x ∷ s) [] d e m hd he h =
    absurd (no_mark sep s d m (subst (All IsDigit) (sym (cons-tail h)) he))
split_last sep (x ∷ s) (y ∷ t) d e m hd he h = ground (arith, split_last sep s t d e m hd he)

-- The bytes of an ASCII literal.
abbrev pub codes : String → Bytes
codes String.[] = []
codes (String.◌∷◌ c s) = code c ∷ codes s

-- operator< of std::string, which compares bytes as unsigned characters.
unfoldable pub str_ltb : Bytes → Bytes → Bool
str_ltb [] [] = false
str_ltb [] (y ∷ ys) = true
str_ltb (x ∷ xs) [] = false
str_ltb (x ∷ xs) (y ∷ ys) = ltb x y || (nat_eq x y && str_ltb xs ys)

pub str_ltb_trans : (a b c : Bytes) → str_ltb a b ≡ true → str_ltb b c ≡ true → str_ltb a c ≡ true
unfolding str_ltb
str_ltb_trans [] [] c p q = cc
str_ltb_trans [] (y ∷ ys) [] p q = cc
str_ltb_trans [] (y ∷ ys) (z ∷ zs) p q = refl
str_ltb_trans (x ∷ xs) [] c p q = cc
str_ltb_trans (x ∷ xs) (y ∷ ys) [] p q = cc
str_ltb_trans (x ∷ xs) (y ∷ ys) (z ∷ zs) p q = ground (arith, str_ltb_trans xs ys zs)

pub str_ltb_irrefl : (a : Bytes) → str_ltb a a ≡ false
unfolding str_ltb
str_ltb_irrefl [] = refl
str_ltb_irrefl (x ∷ xs) = ground (arith, str_ltb_irrefl xs)

-- Of two different strings one is smaller.
pub str_ltb_total : (a b : Bytes) → str_ltb a b ≡ false → a ≢ b → str_ltb b a ≡ true
unfolding str_ltb
str_ltb_total [] [] p q = absurd (q refl)
str_ltb_total [] (y ∷ ys) p q = cc
str_ltb_total (x ∷ xs) [] p q = refl
str_ltb_total (x ∷ xs) (y ∷ ys) p q = elim (Bool-cases (nat_eq x y)) [
  | inl e ↦
      let tails : xs ≢ ys = λ h. q (ap₂ ◌∷◌ ((nat_eq_iff x y).0 e) h) in
      ground (arith, str_ltb_total xs ys)
  | inr e ↦ ground arith
]

-- s.rfind(prefix, 0) == 0, with what follows the prefix
unfoldable pub strip_prefix : Bytes → Bytes → Option Bytes
strip_prefix [] s = some s
strip_prefix (p ∷ ps) [] = none
strip_prefix (p ∷ ps) (c ∷ s) = if nat_eq p c then strip_prefix ps s else none

abbrev is_digit : ℕ → Bool
is_digit c = leb 48 c && ltb c 58

-- isspace in the C locale
abbrev is_space : ℕ → Bool
is_space c = nat_eq c 32 || (leb 9 c && leb c 13)

leading_digits : Bytes → Bytes
leading_digits [] = []
leading_digits (c ∷ s) = if is_digit c then c ∷ leading_digits s else []

skip_spaces : Bytes → Bytes
skip_spaces [] = []
skip_spaces (c ∷ s) = if is_space c then skip_spaces s else c ∷ s

abbrev in_int : Bool → ℕ → Option ℤ
in_int false n = if ltb n (2147483648) then some (pos n) else none
in_int true zero = some (pos 0)
in_int true (suc n) = if ltb n (2147483648) then some (negsuc n) else none

abbrev read_digits : Bool → Bytes → Option ℤ
read_digits negative [] = none
read_digits negative (c ∷ s) = in_int negative (value 0 (c ∷ s))

abbrev read_signed : Bytes → Option ℤ
read_signed [] = none
read_signed (c ∷ s) =
    if nat_eq c dash
    then read_digits true (leading_digits s)
    else if nat_eq c 43
    then read_digits false (leading_digits s)
    else read_digits false (leading_digits (c ∷ s))

-- std::stoi; `none` is an exception. What follows the digits is ignored.
unfoldable pub stoi : Bytes → Option ℤ
unfolding leading_digits skip_spaces value
stoi s = read_signed (skip_spaces s)
