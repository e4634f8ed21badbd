-- ===== src/Protocol/Reply.antt =====
-- parse_response and serialize_response of src/protocol/protocol.cpp.
use streaming_platform.Prelude.{
  ℕ, zero, suc, ◌%◌, ◌^◌, ◌≤◌, ◌<◌, ◌≡◌, refl, Bool, true, false, not, Option, none, some, List, [],
  ◌∷◌, ◌++◌, append_assoc, append-nil, arith, leb, le→leb, nat_eq, if◌then◌else◌, length, All,
}
use streaming_platform.Text.{Bytes, codes}
use streaming_platform.Protocol.Wire.{
  protocol_version, max_batch_messages, put_u8, put_u32, put_u64, put_string, get_u8, get_u32,
  get_u64, get_string,
}
use streaming_platform.Protocol.Wire.Laws.{get_u32-put_u32, get_u64-put_u64, get_string-put_string}
use streaming_platform.Protocol.Message.{Response, no_offset}
use streaming_platform.Protocol.Codec.{is_empty}
use streaming_platform.Protocol.Fields.{FitsString}

-- Response{false, "malformed_response", uint64_t(-1), {}}
abbrev pub malformed : Response
malformed = record {
  success = false;
  message = codes "malformed_response";
  appended_offset = no_offset;
  appended_offsets = [];
}

-- A failed read returns at once, so what the out-parameter then holds is not seen.
abbrev or_fail : Bool × ℕ × Bytes → Option (ℕ × Bytes)
or_fail (ok, v, rest) = if ok then some (v, rest) else none

abbrev or_fail_string : Option Bytes × Bytes → Option (Bytes × Bytes)
or_fail_string (none, rest) = none
or_fail_string (some v, rest) = some (v, rest)

infixl 5 ◌>>=◌
abbrev ◌>>=◌ {ℓ κ} : {A : Type ℓ} {B : Type κ} → Option A → (A → Option B) → Option B
none >>= f = none
some a >>= f = f a

abbrev guard {ℓ} : {A : Type ℓ} → Bool → Option A → Option A
guard b m = if b then m else none

-- for (i = 0; i < count; ++i) response.appended_offsets.push_back(get_u64)
unfoldable pub get_offsets : ℕ → Bytes → Option (List ℕ × Bytes)
get_offsets zero rest = some ([], rest)
get_offsets (suc k) rest = do
  (v, rest) ← or_fail (get_u64 rest)
  (vs, rest) ← get_offsets k rest
  some (v ∷ vs, rest)

unfoldable pub read_response : Bytes → Option Response
read_response payload = do
  (version, rest) ← or_fail (get_u8 0 payload)
  guard (nat_eq version protocol_version) (do
    (success, rest) ← or_fail (get_u8 0 rest)
    (kind, rest) ← or_fail (get_u8 0 rest)
    (offset, rest) ← or_fail (get_u64 rest)
    (message, rest) ← or_fail_string (get_string rest)
    (count, rest) ← or_fail (get_u32 rest)
    guard (leb count max_batch_messages) (do
      (offsets, rest) ← get_offsets count rest
      guard (is_empty rest) (
          some (record {
            success = not (nat_eq success 0);
            message = message;
            appended_offset = offset;
            appended_offsets = offsets;
          }))))

abbrev or_malformed : Option Response → Response
or_malformed none = malformed
or_malformed (some r) = r

unfoldable pub parse_response : Bytes → Response
parse_response payload = or_malformed (read_response payload)

unfoldable pub put_offsets : List ℕ → Bytes
put_offsets [] = []
put_offsets (v ∷ vs) = put_u64 v ++ put_offsets vs

unfoldable pub serialize_response : Response → Bytes
serialize_response r =
    put_u8 protocol_version
    ++ (put_u8 (if r.success then 1 else 0)
        ++ (put_u8 (if is_empty r.message then 0 else 1)
            ++ (put_u64 r.appended_offset
                ++ (put_string r.message
                    ++ (put_u32 (length r.appended_offsets % 2 ^ 32)
                        ++ put_offsets r.appended_offsets)))))

get_offsets-put_offsets :
    (vs : List ℕ) (rest : Bytes)
    → All (λ v. v < 2 ^ 64) vs
    → get_offsets (length vs) (put_offsets vs ++ rest) ≡ some (vs, rest)
unfolding get_offsets put_offsets
get_offsets-put_offsets [] rest h = refl
get_offsets-put_offsets (v ∷ vs) rest h = simp (
  append_assoc,
  get_u64-put_u64 v (put_offsets vs ++ rest) h.0,
  get_offsets-put_offsets vs rest h.1,
)

pub record FitsResponse (r : Response) : Type 0 where
  pub message : FitsString r.message
  pub offset : r.appended_offset < 2 ^ 64
  pub few : length r.appended_offsets ≤ max_batch_messages
  pub offsets : All (λ v. v < 2 ^ 64) r.appended_offsets

few_fits : (n : ℕ) → n ≤ max_batch_messages → n % 2 ^ 32 ≡ n
few_fits n h = omega arith

success_byte : (b : Bool) → not (nat_eq ((if b then 1 else 0) % 256) 0) ≡ b
success_byte true = refl
success_byte false = refl

-- Whatever its fields, a response within the limits of the parser is read back unchanged.
pub parse_response-serialize_response :
    (r : Response) → FitsResponse r → parse_response (serialize_response r) ≡ r
unfolding parse_response read_response serialize_response put_u8 get_u8
parse_response-serialize_response r f = simp (
  few_fits (length r.appended_offsets) f.few,
  get_u64-put_u64 r.appended_offset _ f.offset,
  get_string-put_string r.message _ f.message,
  get_u32-put_u32 (length r.appended_offsets) (put_offsets r.appended_offsets) (omega arith),
  le→leb (length r.appended_offsets) max_batch_messages f.few,
  rw append-nil at (get_offsets-put_offsets r.appended_offsets [] f.offsets),
  success_byte,
)
