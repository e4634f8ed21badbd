-- ===== src/Broker/Keeping.antt =====
-- No request of a client takes anything away from a broker: neither stored messages nor the commit
-- index.
pub mod Peers
use streaming_platform.Prelude.{
  ℕ, ◌+◌, ◌≡◌, refl, sym, ap, subst, not, ◌||◌, inl, inr, Bool-cases, List, [], ◌∷◌, nat_eq, All,
  arith, ℤ, is_negative,
}
use streaming_platform.Text.{Bytes}
use streaming_platform.Protocol.Message
use streaming_platform.Protocol.Message.{Request, RequestType, Response}
use streaming_platform.Protocol.Codec.{is_empty}
use streaming_platform.Storage.Engine
use streaming_platform.Storage.Engine.{Engine}
use streaming_platform.Storage.Engine.Growth.{Fits, Grows, Grows-same, Grows-trans, append-Grows}
use streaming_platform.Replication
use streaming_platform.Replication.{Manager}
use streaming_platform.Replication.Rising.{
  Rises, Rises-same, Rises-trans, mark_committed-Rises, replicate_message-SameIndex,
  replicate_batch-SameIndex, broadcast_commit-SameIndex, handle_ack-SameIndex,
  handle_commit_request-Rises,
}
use streaming_platform.Replication.Exchange
use streaming_platform.Groups.{Groups}
use streaming_platform.Broker.{
  Broker, Network, append_all, settle, settle_batch, commit_all, refreshed, head_or, last_or,
  is_leader, handle_produce, handle_batch_produce, handle_join_group, handle_leave_group,
  handle_commit_offset, dispatch, handle_request, dispatch_peer, handle_inter_broker_request,
}

pub record Keeps (b b' : Broker) : Type 0 where
  pub storage : Grows b.storage b'.storage
  pub commits : Rises b.replication b'.replication

pub Keeps-same : (b : Broker) (groups : Groups) → Keeps b (record b { groups = groups })
Keeps-same b groups = record {
  storage = Grows-same b.storage;
  commits = Rises-same b.replication b.replication refl;
}

pub Keeps-trans : {b b' b'' : Broker} → Keeps b b' → Keeps b' b'' → Keeps b b''
Keeps-trans k l = record {
  storage = Grows-trans k.storage l.storage;
  commits = Rises-trans k.commits l.commits;
}

-- The messages of a request are of a length that a record can have.
pub record FitsAll (r : Request) : Type 0 where
  pub one : Fits r.message
  pub batch : All Fits r.messages

pub append_all-Grows :
    (topic : Bytes) (p : ℤ) (ms : List Bytes) (e : Engine)
    → All Fits ms
    → Grows e (append_all topic p ms e).0
unfolding append_all
append_all-Grows topic p [] e f = Grows-same e
append_all-Grows topic p (m ∷ ms) e f =
    Grows-trans (append-Grows topic p m e f.0)
      (append_all-Grows topic p ms (Engine.append topic p m e).0 f.1)

stored-Keeps :
    (b : Broker) (e : Engine) (topic : Bytes)
    → Grows b.storage e
    → Keeps b (refreshed topic (record b { storage = e }))
stored-Keeps b e topic g = record {
  storage = g;
  commits = Rises-same b.replication b.replication refl;
}

pub managed-Keeps :
    (b : Broker) (m : Manager) → Rises b.replication m → Keeps b (record b { replication = m })
managed-Keeps b m r = record { storage = Grows-same b.storage; commits = r }

abbrev pub committed_to : Network → Bytes → ℤ → ℕ → Manager → Manager
committed_to net topic p offset m =
    Exchange.broadcast_commit net.sent net.clock topic p offset
      (Replication.mark_committed topic p offset m)

pub committed_to-Rises :
    (net : Network) (topic : Bytes) (p : ℤ) (offset : ℕ) (m : Manager)
    → Rises m (committed_to net topic p offset m)
committed_to-Rises net topic p offset m =
    let marked = Replication.mark_committed topic p offset m in
    Rises-trans (mark_committed-Rises topic p offset m) (
      Rises-same marked (committed_to net topic p offset m)
        (broadcast_commit-SameIndex net.sent net.clock topic p offset marked))

settle-Keeps :
    (net : Network) (r : Request) (offset : ℕ) (b : Broker) → Keeps b (settle net r offset b).0
unfolding settle
settle-Keeps net r offset b =
    let out =
      Exchange.replicate_message net.reply net.clock r.topic r.partition offset r.message
        b.replication in
    let m = out.0 in
    let same = Rises-same b.replication m (
      replicate_message-SameIndex net.reply net.clock r.topic r.partition offset r.message
        b.replication) in
    elim (Bool-cases out.1) [
      | inr failed ↦ rw failed (managed-Keeps b m same)
      | inl replicated ↦
          elim (Bool-cases (Replication.wait_for_quorum r.topic r.partition offset [] m)) [
            | inr late ↦ rw (replicated, late) (managed-Keeps b m same)
            | inl reached ↦
                rw (replicated, reached)
                  (managed-Keeps b (committed_to net r.topic r.partition offset m)
                    (Rises-trans same (committed_to-Rises net r.topic r.partition offset m)))
          ]
    ]

pub commit_all-Rises :
    (net : Network) (topic : Bytes) (p : ℤ) (offsets : List ℕ) (m : Manager)
    → Rises m (commit_all net topic p offsets m)
unfolding commit_all
commit_all-Rises net topic p [] m = Rises-same m m refl
commit_all-Rises net topic p (offset ∷ offsets) m =
    Rises-trans (committed_to-Rises net topic p offset m)
      (commit_all-Rises net topic p offsets (committed_to net topic p offset m))

settle_batch-Keeps :
    (net : Network) (r : Request) (offsets : List ℕ) (b : Broker)
    → Keeps b (settle_batch net r offsets b).0
unfolding settle_batch
settle_batch-Keeps net r offsets b =
    let out =
      Exchange.replicate_batch net.reply r.topic r.partition (head_or 0 offsets) r.messages
        b.replication in
    let m = out.0 in
    let same = Rises-same b.replication m (
      replicate_batch-SameIndex net.reply r.topic r.partition (head_or 0 offsets) r.messages
        b.replication) in
    elim (Bool-cases (
      not out.1
      || not (Replication.wait_for_quorum r.topic r.partition (last_or 0 offsets) [] m))) [
        | inl failed ↦ rw failed (managed-Keeps b m same)
        | inr reached ↦ rw reached (
            managed-Keeps b (commit_all net r.topic r.partition offsets m)
              (Rises-trans same (commit_all-Rises net r.topic r.partition offsets m)))
      ]

pub self-Keeps : (b : Broker) → Keeps b b
self-Keeps b = Keeps-same b b.groups

handle_produce-Keeps :
    (net : Network) (r : Request) (b : Broker) → FitsAll r → Keeps b (handle_produce net r b).0
unfolding handle_produce
handle_produce-Keeps net r b f = elim (Bool-cases (is_leader b)) [
  | inr other ↦ rw other (self-Keeps b)
  | inl leads ↦ elim (Bool-cases (is_empty r.topic)) [
    | inl t ↦ rw (leads, t) (self-Keeps b)
    | inr t ↦ elim (Bool-cases (is_negative r.partition)) [
      | inl p ↦ rw (leads, t, p) (self-Keeps b)
      | inr p ↦ elim (Bool-cases (is_empty r.message)) [
        | inl m ↦ rw (leads, t, p, m) (self-Keeps b)
        | inr m ↦
            let out = Engine.append r.topic r.partition r.message b.storage in
            rw (leads, t, p, m)
              (Keeps-trans
                (stored-Keeps b out.0 r.topic
                  (append-Grows r.topic r.partition r.message b.storage f.one))
                (settle-Keeps net r out.1 (refreshed r.topic (record b { storage = out.0 }))))
      ]
    ]
  ]
]

handle_batch_produce-Keeps :
    (net : Network) (r : Request) (b : Broker)
    → FitsAll r
    → Keeps b (handle_batch_produce net r b).0
unfolding handle_batch_produce
handle_batch_produce-Keeps net r b f = elim (Bool-cases (is_empty r.messages)) [
  | inl e ↦ rw e (self-Keeps b)
  | inr e ↦ elim (Bool-cases (is_leader b)) [
    | inr other ↦ rw (e, other) (self-Keeps b)
    | inl leads ↦ elim (Bool-cases (is_empty r.topic || is_negative r.partition)) [
      | inl bad ↦ rw (e, leads, bad) (self-Keeps b)
      | inr good ↦
          let out = append_all r.topic r.partition r.messages b.storage in
          rw (e, leads, good)
            (Keeps-trans
              (stored-Keeps b out.0 r.topic
                (append_all-Grows r.topic r.partition r.messages b.storage f.batch))
              (settle_batch-Keeps net r out.1 (refreshed r.topic (record b { storage = out.0 }))))
    ]
  ]
]

-- A handler that changes at most the consumer groups.
record SameStore (b b' : Broker) : Type 0 where
  storage : b'.storage ≡ b.storage
  replication : b'.replication ≡ b.replication

SameStore-Keeps : {b b' : Broker} → SameStore b b' → Keeps b b'
SameStore-Keeps {b} {b'} s = record {
  storage = subst (λ e. Grows b.storage e) (sym s.storage) (Grows-same b.storage);
  commits =
      Rises-same b.replication b'.replication
        (ap (λ (m : Manager). m.commit_index_by_log) s.replication);
}

handle_join_group-SameStore :
    (net : Network) (r : Request) (b : Broker) → SameStore b (handle_join_group net r b).0
unfolding handle_join_group
handle_join_group-SameStore net r b = record { storage = ground arith; replication = ground arith }

handle_leave_group-SameStore :
    (net : Network) (r : Request) (b : Broker) → SameStore b (handle_leave_group net r b).0
unfolding handle_leave_group
handle_leave_group-SameStore net r b = record { storage = ground arith; replication = ground arith }

handle_commit_offset-SameStore :
    (net : Network) (r : Request) (b : Broker) → SameStore b (handle_commit_offset net r b).0
unfolding handle_commit_offset
handle_commit_offset-SameStore net r b = record {
  storage = ground arith;
  replication = ground arith;
}

dispatch-Keeps :
    (t : RequestType) (net : Network) (r : Request) (b : Broker)
    → FitsAll r
    → Keeps b (dispatch t net r b).0
dispatch-Keeps Message.produce net r b f = handle_produce-Keeps net r b f
dispatch-Keeps Message.batch_produce net r b f = handle_batch_produce-Keeps net r b f
dispatch-Keeps Message.join_group net r b f = SameStore-Keeps (handle_join_group-SameStore net r b)
dispatch-Keeps Message.leave_group net r b f =
    SameStore-Keeps (handle_leave_group-SameStore net r b)
dispatch-Keeps Message.commit_offset net r b f =
    SameStore-Keeps (handle_commit_offset-SameStore net r b)
dispatch-Keeps _ net r b f = self-Keeps b

pub handle_request-Keeps :
    (net : Network) (r : Request) (b : Broker) → FitsAll r → Keeps b (handle_request net r b).0
unfolding handle_request
handle_request-Keeps net r b f = dispatch-Keeps r.type net r b f
