-- ===== src/Protocol/Wire.antt =====
-- The put_* and get_* helpers of src/protocol/protocol.cpp.
-- A writer is the bytes that it appends to `out`. A reader takes the bytes of `in` from `pos` on, and
-- answers with whether it succeeded, what the out-parameter then holds, and the bytes still unread;
-- `pos == in.size()` is an empty rest.
pub mod Laws
use streaming_platform.Prelude.{
  ℕ, zero, suc, ◌+◌, ◌*◌, ◌/◌, ◌%◌, ◌^◌, Bool, true, false, ◌||◌, Option, none, some, List, [], ◌∷◌,
  ◌++◌, ltb, if◌then◌else◌, length, take, drop,
}
use streaming_platform.Text.{Bytes}

abbrev pub protocol_version : ℕ
protocol_version = 1

abbrev pub max_string_bytes : ℕ
max_string_bytes = 16 * 1024 * 1024

abbrev pub max_batch_messages : ℕ
max_batch_messages = 10000

unfoldable pub put_u8 : ℕ → Bytes
put_u8 value = (value % 256) ∷ []

unfoldable pub put_u16 : ℕ → Bytes
unfolding put_u8
put_u16 value = put_u8 (value / 2 ^ 8) ++ put_u8 value

-- The loop over `shift`, from 8 * (rounds - 1) down to 0.
unfoldable pub put_loop : ℕ → ℕ → Bytes
unfolding put_u8
put_loop zero value = []
put_loop (suc k) value = put_u8 (value / 2 ^ (8 * k)) ++ put_loop k value

unfoldable pub put_u32 : ℕ → Bytes
unfolding put_loop
put_u32 value = put_loop 4 value

unfoldable pub put_u64 : ℕ → Bytes
unfolding put_loop
put_u64 value = put_loop 8 value

-- The loop of `get_u32` and `get_u64`; a byte is below 256, so `|` after the shift adds it.
unfoldable pub get_loop : ℕ → ℕ → ℕ → Bytes → Bool × ℕ × Bytes
get_loop width zero value rest = (true, value, rest)
get_loop width (suc k) value [] = (false, value, [])
get_loop width (suc k) value (byte ∷ rest) =
    get_loop width k (value * 2 ^ 8 % 2 ^ width + byte) rest

-- `value` is left as it was when there is no byte.
unfoldable pub get_u8 : ℕ → Bytes → Bool × ℕ × Bytes
get_u8 value [] = (false, value, [])
get_u8 value (byte ∷ rest) = (true, byte, rest)

unfoldable pub get_u32 : Bytes → Bool × ℕ × Bytes
unfolding get_loop
get_u32 rest = get_loop 32 4 0 rest

unfoldable pub get_u64 : Bytes → Bool × ℕ × Bytes
unfolding get_loop
get_u64 rest = get_loop 64 8 0 rest

unfoldable pub put_string : Bytes → Bytes
unfolding put_u32
put_string value = put_u32 (length value % 2 ^ 32) ++ value

-- `none` is failure, which leaves the out-parameter as it was.
unfoldable pub get_string_body : Bool × ℕ × Bytes → Option Bytes × Bytes
get_string_body (ok, size, rest) =
    if ok
    then (if ltb max_string_bytes size || ltb (length rest) size
        then (none, rest)
        else (some (take size rest), drop size rest))
    else (none, rest)

unfoldable pub get_string : Bytes → Option Bytes × Bytes
unfolding get_u32 get_string_body
get_string rest = get_string_body (get_u32 rest)
