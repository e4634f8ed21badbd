-- ===== src/Protocol/Wire/Laws.antt =====
-- What the readers do on what the writers wrote, and what they accept.
use streaming_platform.Prelude.{
  ℕ, zero, suc, ◌%◌, ◌^◌, ◌≤◌, ◌<◌, ◌≡◌, refl, sym, ap, ◌∙◌, Bool, true, some, [], ◌∷◌, ◌++◌, arith,
  length, take, drop, length-append, take-length-append, drop-length-append, length-take,
  take-append-drop, All, append_assoc,
}
use streaming_platform.Text.{Bytes, IsByte}
use streaming_platform.Protocol.Wire.{
  max_string_bytes, put_u8, put_u32, put_u64, get_u32, get_u64, put_string, get_string,
  get_string_body,
}

pub get_u32-put_u32 :
    (v : ℕ) (rest : Bytes) → v < 2 ^ 32 → get_u32 (put_u32 v ++ rest) ≡ (true, v, rest)
unfolding get_u32 put_u32 put_u8
get_u32-put_u32 v rest h = ground arith

pub get_u64-put_u64 :
    (v : ℕ) (rest : Bytes) → v < 2 ^ 64 → get_u64 (put_u64 v ++ rest) ≡ (true, v, rest)
unfolding get_u64 put_u64 put_u8
get_u64-put_u64 v rest h = ground arith

size_fits : (s : Bytes) → length s ≤ max_string_bytes → length s % 2 ^ 32 ≡ length s
size_fits s h = omega arith

open_string :
    (s rest : Bytes)
    → get_string (put_string s ++ rest)
      ≡ get_string_body (get_u32 (put_u32 (length s % 2 ^ 32) ++ (s ++ rest)))
unfolding get_string put_string
open_string s rest = refl

get_string_body-fits :
    (s rest : Bytes)
    → length s ≤ max_string_bytes
    → get_string_body (true, length s, s ++ rest) ≡ (some s, rest)
unfolding get_string_body
get_string_body-fits s rest h =
    ground (arith, length-append s rest, take-length-append s rest, drop-length-append s rest)

pub get_string-put_string :
    (s rest : Bytes)
    → length s ≤ max_string_bytes
    → get_string (put_string s ++ rest) ≡ (some s, rest)
get_string-put_string s rest h =
    rw (open_string s rest, size_fits s h, get_u32-put_u32 (length s) (s ++ rest) (omega arith))
      (get_string_body-fits s rest h)

-- A number is read from exactly the bytes that are written for it.
pub record Reads (put : ℕ → Bytes) (bound : ℕ) (p : Bytes) (v : ℕ) (rest : Bytes) : Type 0 where
  pub written : p ≡ put v ++ rest
  pub small : v < bound
  pub bytes : All IsByte rest

pub get_u32-Reads :
    (p : Bytes) (v : ℕ) (rest : Bytes)
    → All IsByte p
    → get_u32 p ≡ (true, v, rest)
    → Reads put_u32 (2 ^ 32) p v rest
unfolding get_u32 put_u32 put_u8
get_u32-Reads (a ∷ b ∷ c ∷ d ∷ p) v rest h e = record {
  written = ground arith;
  small = ground arith;
  bytes = ground arith;
}
get_u32-Reads _ v rest h e = cc

pub get_u64-Reads :
    (p : Bytes) (v : ℕ) (rest : Bytes)
    → All IsByte p
    → get_u64 p ≡ (true, v, rest)
    → Reads put_u64 (2 ^ 64) p v rest
unfolding get_u64 put_u64 put_u8
get_u64-Reads (a ∷ b ∷ c ∷ d ∷ e ∷ f ∷ g ∷ i ∷ p) v rest h q = record {
  written = ground arith;
  small = ground arith;
  bytes = ground arith;
}
get_u64-Reads _ v rest h q = cc

take-bytes : (n : ℕ) (p : Bytes) → All IsByte p → All IsByte (take n p) × All IsByte (drop n p)
take-bytes zero p h = (tt, h)
take-bytes (suc n) [] h = (tt, tt)
take-bytes (suc n) (x ∷ p) h = let (a, b) = take-bytes n p h.1 in ((h.0, a), b)

-- A string is read from exactly the bytes that are written for it, and is not too long.
pub record ReadsString (p : Bytes) (s : Bytes) (rest : Bytes) : Type 0 where
  pub written : p ≡ put_string s ++ rest
  pub small : length s ≤ max_string_bytes
  pub content : All IsByte s
  pub bytes : All IsByte rest

string_body-inv :
    (ok : Bool) (size : ℕ) (q s rest : Bytes)
    → get_string_body (ok, size, q) ≡ (some s, rest)
    → (ok ≡ true)
      × (size ≤ max_string_bytes)
      × (size ≤ length q)
      × (s ≡ take size q)
      × (rest ≡ drop size q)
unfolding get_string_body
string_body-inv ok size q s rest e = ground arith

put_string_lem : (s : Bytes) → length s ≤ max_string_bytes → put_string s ≡ put_u32 (length s) ++ s
unfolding put_string
put_string_lem s h = ap (λ n. put_u32 n ++ s) (size_fits s h)

string_rejoin :
    (size : ℕ) (q : Bytes)
    → size ≤ max_string_bytes
    → size ≤ length q
    → put_string (take size q) ++ drop size q ≡ put_u32 size ++ q
string_rejoin size q small fits =
    let taken : length (take size q) ≡ size = length-take size q fits in
    rw (put_string_lem (take size q) (omega arith), taken, append_assoc, take-append-drop size q)

read_string :
    (p s rest q : Bytes) (ok : Bool) (size : ℕ)
    → All IsByte p
    → get_u32 p ≡ (ok, size, q)
    → get_string_body (ok, size, q) ≡ (some s, rest)
    → ReadsString p s rest
read_string p s rest q ok size h r e =
    let (is_ok, small, fits, is_take, is_drop) = string_body-inv ok size q s rest e in
    let u = get_u32-Reads p size q h (rw is_ok at r) in
    let parts = take-bytes size q u.bytes in
    record {
      written = u.written ∙ sym (string_rejoin size q small fits) ∙ cc;
      small = rw (is_take, length-take size q fits) small;
      content = rw is_take parts.0;
      bytes = rw is_drop parts.1;
    }

pub get_string-Reads :
    (p s rest : Bytes) → All IsByte p → get_string p ≡ (some s, rest) → ReadsString p s rest
unfolding get_string
get_string-Reads p s rest h e =
    read_string p s rest (get_u32 p).2 (get_u32 p).0 (get_u32 p).1 h refl e
