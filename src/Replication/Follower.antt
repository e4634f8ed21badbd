-- ===== src/Replication/Follower.antt =====
-- What an acknowledgement of a follower promises of its log.
use streaming_platform.Prelude.{
  ℕ, ◌+◌, ◌^◌, ◌<◌, ◌≡◌, refl, sym, ap, ◌∙◌, true, false, ◌||◌, not, inl, inr, Bool-cases, nat_eq,
  nat_eq_iff, none, some, List, [], ◌∷◌, ◌++◌, append-nil, append_assoc, arith, length, get_elem?,
  get_elem?-append_add, All, ℤ, is_negative, lookup, list_eq, list_eq_iff, list_Key,
}
use streaming_platform.Text.{Bytes}
use streaming_platform.Protocol.Message.{Request}
use streaming_platform.Protocol.Codec.{is_empty}
use streaming_platform.Storage.Log.{Log}
use streaming_platform.Storage.Engine
use streaming_platform.Storage.Engine.{Engine, make_key}
use streaming_platform.Storage.Engine.Contents.{
  IsEngine, added, append-IsEngine, append-offset, fetch_contents, lookup-append,
}
use streaming_platform.Replication.{Manager, is_leader}
use streaming_platform.Replication.Exchange.{
  append_batch, payload_of, has_payload, is_replication, handle_replication_request,
}

abbrev pub added_all : Bytes → List Bytes → (Bytes → List Bytes) → Bytes → List Bytes
added_all key [] spec = spec
added_all key (m ∷ ms) spec = added_all key ms (added key m spec)

-- The log of the key has the batch behind what it had.
added_all_self :
    (key : Bytes) (ms : List Bytes) (spec : Bytes → List Bytes)
    → added_all key ms spec key ≡ spec key ++ ms
added_all_self key [] spec = sym (append-nil (spec key))
added_all_self key (m ∷ ms) spec =
    let same : list_eq key key ≡ true = (list_eq_iff key key).1 refl in
    added_all_self key ms (added key m spec) ∙ rw (same) (append_assoc (spec key) (m ∷ []) ms)

record Matched (topic : Bytes) (p : ℤ) (offset : ℕ) (ms : List Bytes) (e : Engine)
    (spec : Bytes → List Bytes) : Type 0 where
  engine : IsEngine (append_batch topic p offset ms e).0 (added_all (make_key topic p) ms spec)
  place : 0 < length ms → offset ≡ length (spec (make_key topic p))

append_batch-Matched :
    (topic : Bytes) (p : ℤ) (offset : ℕ) (ms : List Bytes) (e : Engine) (spec : Bytes → List Bytes)
    → All (λ (m : Bytes). length m < 2 ^ 64) ms
    → IsEngine e spec
    → (append_batch topic p offset ms e).1 ≡ true
    → Matched topic p offset ms e spec
unfolding append_batch
append_batch-Matched topic p offset [] e spec f h ok = record {
  engine = h;
  place = λ z. absurd (omega arith);
}
append_batch-Matched topic p offset (m ∷ ms) e spec f h ok =
    let (e', got) = Engine.append topic p m e in
    elim (Bool-cases (nat_eq (Engine.append topic p m e).1 offset)) [
      | inr other ↦ let bad : false ≡ true = rw other at ok in cc
      | inl same ↦
          let rest =
            append_batch-Matched topic p (offset + 1) ms (Engine.append topic p m e).0
              (added (make_key topic p) m spec) f.1 (append-IsEngine topic p m e spec f.0 h)
              (rw same at ok) in
          record {
            engine = rw same rest.engine;
            place = λ _. sym ((nat_eq_iff _ _).0 same) ∙ append-offset topic p m e spec h;
          }
    ]

append-found :
    (topic : Bytes) (p : ℤ) (m : Bytes) (e : Engine)
    → (l : Log) × (lookup (make_key topic p) (Engine.append topic p m e).0.logs ≡ some l)
append-found topic p m e = (_, lookup-append topic p m e)

append_batch-lookup :
    (topic : Bytes) (p : ℤ) (offset : ℕ) (ms : List Bytes) (e : Engine) (l : Log)
    → lookup (make_key topic p) e.logs ≡ some l
    → (l' : Log) × (lookup (make_key topic p) (append_batch topic p offset ms e).0.logs ≡ some l')
unfolding append_batch
append_batch-lookup topic p offset [] e l h = (l, h)
append_batch-lookup topic p offset (m ∷ ms) e l h =
    elim (Bool-cases (nat_eq (Engine.append topic p m e).1 offset)) [
      | inr other ↦ rw other (append-found topic p m e)
      | inl same ↦ rw same (
          append_batch-lookup topic p (offset + 1) ms (Engine.append topic p m e).0 _
            (lookup-append topic p m e))
    ]

append_batch-found :
    (topic : Bytes) (p : ℤ) (offset : ℕ) (ms : List Bytes) (e : Engine)
    → 0 < length ms
    → (l : Log) × (lookup (make_key topic p) (append_batch topic p offset ms e).0.logs ≡ some l)
unfolding append_batch
append_batch-found topic p offset [] e h = elim h [ ]
append_batch-found topic p offset (m ∷ ms) e h =
    elim (Bool-cases (nat_eq (Engine.append topic p m e).1 offset)) [
      | inr other ↦ rw other (append-found topic p m e)
      | inl same ↦ rw same (
          append_batch-lookup topic p (offset + 1) ms (Engine.append topic p m e).0 _
            (lookup-append topic p m e))
    ]

-- An acknowledgement is sent only for a request with records, all of which were appended.
pub acked :
    (r : Request) (m : Manager) (e : Engine) (a : Bytes)
    → (handle_replication_request r m e).1 ≡ some a
    → ((append_batch r.topic r.partition r.fetch_offset (payload_of r) e).1 ≡ true)
      × ((handle_replication_request r m e).0
          ≡ (append_batch r.topic r.partition r.fetch_offset (payload_of r) e).0)
unfolding handle_replication_request
acked r m e a h = elim (Bool-cases (is_leader m || not (is_replication r.type))) [
  | inl skip ↦ let bad : none ≡ some a = rw skip at h in cc
  | inr go ↦
      elim (Bool-cases (is_empty r.topic || (is_negative r.partition || not (has_payload r)))) [
        | inl bad_request ↦ let bad : none ≡ some a = rw (go, bad_request) at h in cc
        | inr good ↦
            elim (Bool-cases (append_batch r.topic r.partition r.fetch_offset (payload_of r) e).1) [
              | inl done ↦ (done, rw (go, good) refl)
              | inr wrong ↦ let bad : none ≡ some a = rw (go, good, wrong) at h in cc
            ]
      ]
]

-- On a follower whose logs hold their messages: where it acknowledges a replication request whose
-- records are shorter than 2^64 bytes, its log had as many messages as the leader's offset says, and
-- now has the records behind them: each is fetched at the offset that it has on the leader.
pub handle_replication_request-fetch :
    (r : Request) (m : Manager) (e : Engine) (spec : Bytes → List Bytes) (a : Bytes) (i : ℕ)
    → IsEngine e spec
    → All (λ (x : Bytes). length x < 2 ^ 64) (payload_of r)
    → (handle_replication_request r m e).1 ≡ some a
    → i < length (payload_of r)
    → (r.fetch_offset ≡ length (spec (make_key r.topic r.partition)))
      × (Engine.fetch r.topic r.partition (r.fetch_offset + i) (handle_replication_request r m e).0
          ≡ get_elem? (payload_of r) i)
handle_replication_request-fetch r m e spec a i h f sent below =
    let key = make_key r.topic r.partition in
    let (done, same) = acked r m e a sent in
    let g =
      append_batch-Matched r.topic r.partition r.fetch_offset (payload_of r) e spec f h done in
    let (l, found) =
      append_batch-found r.topic r.partition r.fetch_offset (payload_of r) e (omega arith) in
    let offset = g.place (omega arith) in
    (
      offset,
      ap (Engine.fetch r.topic r.partition (r.fetch_offset + i)) same
          ∙ fetch_contents r.topic r.partition (r.fetch_offset + i) _
              (added_all key (payload_of r) spec) l found g.engine
          ∙ ap (λ xs. get_elem? xs (r.fetch_offset + i)) (added_all_self key (payload_of r) spec)
          ∙ ap (λ k. get_elem? (spec key ++ payload_of r) (k + i)) offset
          ∙ get_elem?-append_add (spec key) (payload_of r) i,
    )
