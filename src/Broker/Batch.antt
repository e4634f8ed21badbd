-- ===== src/Broker/Batch.antt =====
-- What a leader's answer to a batch promises.
use streaming_platform.Prelude.{
  ℕ, zero, suc, ◌≡◌, refl, sym, ap, subst, ◌∙◌, true, false, not, ◌||◌, inl, inr, Bool-cases, some,
  List, [], ◌∷◌, ℤ, is_negative, All, get_elem?,
}
use streaming_platform.Text.{Bytes}
use streaming_platform.Protocol.Message.{Request}
use streaming_platform.Protocol.Codec.{is_empty}
use streaming_platform.Storage.Engine
use streaming_platform.Storage.Engine.{Engine, make_key}
use streaming_platform.Storage.Engine.Contents.{IsEngine, added, append-IsEngine}
use streaming_platform.Storage.Engine.Growth.{Fits, Placed, Grows-Placed, append-Placed}
use streaming_platform.Replication
use streaming_platform.Replication.{Manager, is_committed, mark_committed}
use streaming_platform.Replication.Exchange
use streaming_platform.Broker.{
  Broker, Network, is_leader, append_all, settle_batch, commit_all, refreshed, head_or, last_or,
  handle_batch_produce, handle_fetch, success,
}
use streaming_platform.Broker.Produce.{broadcast_commit-is_committed, mark_committed-is_committed}
use streaming_platform.Broker.Keeping.{committed_to, commit_all-Rises, append_all-Grows}
use streaming_platform.Broker.History.{Event, FitsEvent, run, Held-run}

append_all-Placed :
    (topic : Bytes) (p : ℤ) (ms : List Bytes) (e : Engine) (spec : Bytes → List Bytes) (i k : ℕ)
    (m : Bytes)
    → IsEngine e spec
    → All Fits ms
    → get_elem? ms i ≡ some m
    → get_elem? (append_all topic p ms e).1 i ≡ some k
    → Placed topic p m k (append_all topic p ms e).0
unfolding append_all
append_all-Placed topic p [] e spec i k m h f at_m at_k = let bad = at_m in cc
append_all-Placed topic p (x ∷ ms) e spec zero k m h f at_m at_k =
    let out = Engine.append topic p x e in
    let same_m : x ≡ m = cc in
    let same_k : out.1 ≡ k = cc in
    subst (λ y. Placed topic p y k (append_all topic p (x ∷ ms) e).0) same_m
      (subst (λ j. Placed topic p x j (append_all topic p (x ∷ ms) e).0) same_k
        (Grows-Placed topic p x out.1 (append_all-Grows topic p ms out.0 f.1)
          (append-Placed topic p x e spec h f.0)))
append_all-Placed topic p (x ∷ ms) e spec (suc i) k m h f at_m at_k =
    append_all-Placed topic p ms (Engine.append topic p x e).0 (added (make_key topic p) x spec) i k
      m (append-IsEngine topic p x e spec f.0 h) f.1 at_m at_k

-- Every offset of a batch is committed behind it.
commit_all-is_committed :
    (net : Network) (topic : Bytes) (p : ℤ) (offsets : List ℕ) (m : Manager) (i k : ℕ)
    → get_elem? offsets i ≡ some k
    → is_committed topic p k (commit_all net topic p offsets m) ≡ true
unfolding commit_all
commit_all-is_committed net topic p [] m i k at_k = cc
commit_all-is_committed net topic p (offset ∷ offsets) m zero k at_k =
    let m' = committed_to net topic p offset m in
    let here : is_committed topic p offset m' ≡ true =
      broadcast_commit-is_committed net.sent net.clock topic p offset
        (mark_committed topic p offset m)
      ∙ mark_committed-is_committed topic p offset m in
    let same : offset ≡ k = cc in
    subst (λ j. is_committed topic p j (commit_all net topic p offsets m') ≡ true) same
      ((commit_all-Rises net topic p offsets m').stays topic p offset here)
commit_all-is_committed net topic p (offset ∷ offsets) m (suc i) k at_k =
    commit_all-is_committed net topic p offsets (committed_to net topic p offset m) i k at_k

-- What a batch that is answered with success has done.
record Batched (net : Network) (r : Request) (b : Broker) : Type 0 where
  topic : is_empty r.topic ≡ false
  partition : is_negative r.partition ≡ false
  offsets :
      (handle_batch_produce net r b).1.appended_offsets
      ≡ (append_all r.topic r.partition r.messages b.storage).1
  storage :
      (handle_batch_produce net r b).0.storage
      ≡ (append_all r.topic r.partition r.messages b.storage).0
  committed :
      (i k : ℕ)
      → get_elem? (append_all r.topic r.partition r.messages b.storage).1 i ≡ some k
      → is_committed r.topic r.partition k (handle_batch_produce net r b).0.replication ≡ true

record SettledBatch (net : Network) (r : Request) (offsets : List ℕ) (b : Broker) : Type 0 where
  answer : (settle_batch net r offsets b).1.appended_offsets ≡ offsets
  storage : (settle_batch net r offsets b).0.storage ≡ b.storage
  committed :
      (i k : ℕ)
      → get_elem? offsets i ≡ some k
      → is_committed r.topic r.partition k (settle_batch net r offsets b).0.replication ≡ true

settle_batch-SettledBatch :
    (net : Network) (r : Request) (offsets : List ℕ) (b : Broker)
    → (settle_batch net r offsets b).1.success ≡ true
    → SettledBatch net r offsets b
unfolding settle_batch
settle_batch-SettledBatch net r offsets b h =
    let out =
      Exchange.replicate_batch net.reply r.topic r.partition (head_or 0 offsets) r.messages
        b.replication in
    elim (Bool-cases (
      not out.1
      || not (Replication.wait_for_quorum r.topic r.partition (last_or 0 offsets) [] out.0))) [
        | inl failed ↦ let bad : false ≡ true = rw failed at h in cc
        | inr reached ↦ record {
          answer = rw reached refl;
          storage = rw reached refl;
          committed = λ i k at_k.
              rw reached (commit_all-is_committed net r.topic r.partition offsets out.0 i k at_k);
        }
      ]

handle_batch_produce-Batched :
    (net : Network) (r : Request) (b : Broker)
    → is_leader b ≡ true
    → (handle_batch_produce net r b).1.success ≡ true
    → Batched net r b
unfolding handle_batch_produce
handle_batch_produce-Batched net r b leads h = elim (Bool-cases (is_empty r.messages)) [
  | inl e ↦ let bad : false ≡ true = rw e at h in cc
  | inr e ↦ elim (Bool-cases (is_empty r.topic)) [
    | inl t ↦ let bad : false ≡ true = rw (e, leads, t) at h in cc
    | inr t ↦ elim (Bool-cases (is_negative r.partition)) [
      | inl p ↦ let bad : false ≡ true = rw (e, leads, t, p) at h in cc
      | inr p ↦
          let out = append_all r.topic r.partition r.messages b.storage in
          let s =
            settle_batch-SettledBatch net r out.1 (refreshed r.topic (record b { storage = out.0 }))
              (rw (e, leads, t, p) at h) in
          record {
            topic = t;
            partition = p;
            offsets = rw (e, leads, t, p) s.answer;
            storage = rw (e, leads, t, p) s.storage;
            committed = λ i k at_k. rw (e, leads, t, p) (s.committed i k at_k);
          }
    ]
  ]
]

-- On a leader whose logs hold their messages, for messages shorter than 2^64 bytes: when a batch is
-- answered with success and its i-th message is not empty, then after any later requests of clients
-- and of peers, whose messages are shorter than 2^64 bytes, and turns of the heartbeat loop, a fetch
-- of the i-th offset in the answer succeeds and gives that message.
pub handle_batch_produce-run :
    (net : Network) (r : Request) (b : Broker) (spec : Bytes → List Bytes) (later : List Event)
    (i k : ℕ) (m : Bytes)
    → is_leader b ≡ true
    → IsEngine b.storage spec
    → All Fits r.messages
    → All FitsEvent later
    → (handle_batch_produce net r b).1.success ≡ true
    → get_elem? r.messages i ≡ some m
    → is_empty m ≡ false
    → get_elem? (handle_batch_produce net r b).1.appended_offsets i ≡ some k
    → handle_fetch
        (record r { message = m; fetch_offset = k })
        (run later (handle_batch_produce net r b).0)
      ≡ success m k
handle_batch_produce-run net r b spec later i k m leads h fits all ok at_m filled at_k =
    let s = handle_batch_produce-Batched net r b leads ok in
    let place : get_elem? (append_all r.topic r.partition r.messages b.storage).1 i ≡ some k =
      ap (λ ks. get_elem? ks i) (sym s.offsets) ∙ at_k in
    Held-run (record r { message = m }) k later (handle_batch_produce net r b).0 s.topic s.partition
      filled all
      (record {
        placed = rw s.storage (
            append_all-Placed r.topic r.partition r.messages b.storage spec i k m h fits at_m
              place);
        committed = s.committed i k place;
      })
