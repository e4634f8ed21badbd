-- ===== src/Protocol/Message.antt =====
-- RequestType, Request and Response of include/protocol/protocol.h.
use streaming_platform.Prelude.{ℕ, zero, suc, ◌-◌, ◌^◌, ◌≡◌, refl, Bool, List, [], ℤ, pos}
use streaming_platform.Text.{Bytes}

pub data RequestType : Type 0 where
  produce fetch replicate ack heartbeat commit metadata join_group leave_group group_fetch
        commit_offset group_assignment batch_produce batch_replicate error :
      RequestType

-- The number of an enumerator.
abbrev pub code : RequestType → ℕ
code produce = 0
code fetch = 1
code replicate = 2
code ack = 3
code heartbeat = 4
code commit = 5
code metadata = 6
code join_group = 7
code leave_group = 8
code group_fetch = 9
code commit_offset = 10
code group_assignment = 11
code batch_produce = 12
code batch_replicate = 13
code error = 14

-- static_cast<RequestType>(n), which the program applies to the numbers of enumerators only.
abbrev pub of_code : ℕ → RequestType
of_code zero = produce
of_code (suc zero) = fetch
of_code (suc (suc zero)) = replicate
of_code (suc (suc (suc zero))) = ack
of_code (suc (suc (suc (suc zero)))) = heartbeat
of_code (suc (suc (suc (suc (suc zero))))) = commit
of_code (suc (suc (suc (suc (suc (suc zero)))))) = metadata
of_code (suc (suc (suc (suc (suc (suc (suc n))))))) = of_code_7 n
  where
    of_code_7 : ℕ → RequestType
    of_code_7 zero = join_group
    of_code_7 (suc zero) = leave_group
    of_code_7 (suc (suc zero)) = group_fetch
    of_code_7 (suc (suc (suc zero))) = commit_offset
    of_code_7 (suc (suc (suc (suc zero)))) = group_assignment
    of_code_7 (suc (suc (suc (suc (suc zero))))) = batch_produce
    of_code_7 (suc (suc (suc (suc (suc (suc zero)))))) = batch_replicate
    of_code_7 _ = error

pub of_code-code : (t : RequestType) → of_code (code t) ≡ t
of_code-code produce = refl
of_code-code _ = refl

pub record Request : Type 0 where
  pub type : RequestType
  pub topic : Bytes
  pub partition : ℤ
  pub message : Bytes
  pub fetch_offset : ℕ
  pub broker_id : ℤ
  pub group_id : Bytes
  pub member_id : Bytes
  pub messages : List Bytes

-- Request{type, "", 0, "", 0, 0, "", "", {}}
abbrev pub blank : RequestType → Request
blank t = record {
  type = t;
  topic = [];
  partition = pos 0;
  message = [];
  fetch_offset = 0;
  broker_id = pos 0;
  group_id = [];
  member_id = [];
  messages = [];
}

pub record Response : Type 0 where
  pub success : Bool
  pub message : Bytes
  pub appended_offset : ℕ
  pub appended_offsets : List ℕ

-- uint64_t(-1)
abbrev pub no_offset : ℕ
no_offset = 2 ^ 64 - 1
