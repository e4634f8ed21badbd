-- ===== src/Prelude/Int.antt =====
-- The C++ `int` (32 bits): an integer, and its two's complement word.
use Prim.Native.Nat.{ℕ, ◌-◌, ◌%◌, ◌^◌, ◌<◌}
use mathlib.Core.Path.{◌≡◌}
use mathlib.Core.Logic.{◌↔◌}
use mathlib.Core.Bool.{Bool, true, false}
use native.Mathlib.Omega.{arith}
use streaming_platform.Prelude.Tests.{ltb, nat_eq, if◌then◌else◌}
use streaming_platform.Prelude.Equality.{Key}

-- `negsuc n` is -(n + 1).
pub data ℤ : Type 0 where
  pos : ℕ → ℤ
  negsuc : ℕ → ℤ

abbrev pub int_eq : ℤ → ℤ → Bool
int_eq (pos m) (pos n) = nat_eq m n
int_eq (pos m) (negsuc n) = false
int_eq (negsuc m) (pos n) = false
int_eq (negsuc m) (negsuc n) = nat_eq m n

pub int_eq_iff : (a b : ℤ) → (int_eq a b ≡ true) ↔ (a ≡ b)
int_eq_iff (pos m) (pos n) = ground arith
int_eq_iff (pos m) (negsuc n) = ground arith
int_eq_iff (negsuc m) (pos n) = ground arith
int_eq_iff (negsuc m) (negsuc n) = ground arith

instance abbrev pub int_Key : Key ℤ
int_Key = record { same = int_eq; same_iff = int_eq_iff }

-- a < b
abbrev pub int_ltb : ℤ → ℤ → Bool
int_ltb (pos m) (pos n) = ltb m n
int_ltb (pos m) (negsuc n) = false
int_ltb (negsuc m) (pos n) = true
int_ltb (negsuc m) (negsuc n) = ltb n m

-- a < 0
abbrev pub is_negative : ℤ → Bool
is_negative (pos n) = false
is_negative (negsuc n) = true

abbrev pub IsInt32 : ℤ → Type 0
IsInt32 (pos n) = n < 2 ^ 31
IsInt32 (negsuc n) = n < 2 ^ 31

-- static_cast<uint32_t>(i)
abbrev pub to_u32 : ℤ → ℕ
to_u32 (pos n) = n % 2 ^ 32
to_u32 (negsuc n) = 2 ^ 32 - 1 - n % 2 ^ 32

-- static_cast<int32_t>(w)
abbrev pub of_u32 : ℕ → ℤ
of_u32 w = if ltb w (2 ^ 31) then pos w else negsuc (2 ^ 32 - 1 - w)

pub of_u32-to_u32 : (i : ℤ) → IsInt32 i → of_u32 (to_u32 i) ≡ i
of_u32-to_u32 (pos n) h = ground arith
of_u32-to_u32 (negsuc n) h = ground arith

pub to_u32-of_u32 : (w : ℕ) → w < 2 ^ 32 → to_u32 (of_u32 w) ≡ w
to_u32-of_u32 w h = ground arith

pub to_u32-lt : (i : ℤ) → to_u32 i < 2 ^ 32
to_u32-lt (pos n) = omega arith
to_u32-lt (negsuc n) = omega arith
