-- ===== src/Broker/Produce.antt =====
-- What a leader's success answer to a produce request promises.
use streaming_platform.Prelude.{
  ℕ, ◌≡◌, refl, ap, ◌∙◌, Bool, true, false, inl, inr, Bool-cases, [], arith, le→leb, ℤ, is_negative,
  lookup, list_eq_iff, list_Key,
}
use streaming_platform.Text.{Bytes}
use streaming_platform.Protocol.Message.{Request}
use streaming_platform.Protocol.Codec.{is_empty}
use streaming_platform.Storage.Engine
use streaming_platform.Replication
use streaming_platform.Config.{ClusterPeer}
use streaming_platform.Replication.{Manager, make_log_key, mark_committed, is_committed}
use streaming_platform.Replication.Commits.{is_committed-mark_committed}
use streaming_platform.Replication.Rising.{broadcast_commit-SameIndex}
use streaming_platform.Replication.Exchange
use streaming_platform.Replication.Exchange.{
  note_peer, broadcast_to_peers, broadcast_commit, skipped,
}
use streaming_platform.Broker.{
  Broker, Network, is_leader, handle_produce, settle, refreshed, success,
}

pub broadcast_commit-is_committed :
    (sent : ClusterPeer → Bytes → Bool) (clock : ClusterPeer → ℕ) (topic : Bytes) (p : ℤ)
    (offset : ℕ) (m : Manager)
    → is_committed topic p offset (broadcast_commit sent clock topic p offset m)
      ≡ is_committed topic p offset m
unfolding is_committed
broadcast_commit-is_committed sent clock topic p offset m =
    ap (λ c. Replication.at_most offset (lookup (make_log_key topic p) c))
      (broadcast_commit-SameIndex sent clock topic p offset m)

pub mark_committed-is_committed :
    (topic : Bytes) (p : ℤ) (offset : ℕ) (m : Manager)
    → is_committed topic p offset (mark_committed topic p offset m) ≡ true
mark_committed-is_committed topic p offset m =
    rw
      (
        is_committed-mark_committed topic topic p p offset offset m,
        (list_eq_iff (make_log_key topic p) (make_log_key topic p)).1 refl,
        le→leb offset offset (omega arith),
      )
      (ground arith)

-- What success means: the record was replicated, a quorum was found, and it is committed.
pub record Settled (net : Network) (r : Request) (offset : ℕ) (b : Broker) : Type 0 where
  pub answer : (settle net r offset b).1 ≡ success [] offset
  pub storage : (settle net r offset b).0.storage ≡ b.storage
  pub committed :
      is_committed r.topic r.partition offset (settle net r offset b).0.replication ≡ true
  pub replicated :
      (Exchange.replicate_message net.reply net.clock r.topic r.partition offset r.message
        b.replication).1
      ≡ true

settle-Settled :
    (net : Network) (r : Request) (offset : ℕ) (b : Broker)
    → (settle net r offset b).1.success ≡ true
    → Settled net r offset b
unfolding settle
settle-Settled net r offset b h =
    let sent_out =
      Exchange.replicate_message net.reply net.clock r.topic r.partition offset r.message
        b.replication in
    elim (Bool-cases sent_out.1) [
      | inr failed ↦ let bad : false ≡ true = rw failed at h in cc
      | inl replicated ↦
          elim (Bool-cases (Replication.wait_for_quorum r.topic r.partition offset [] sent_out.0)) [
            | inr late ↦ let bad : false ≡ true = rw (replicated, late) at h in cc
            | inl reached ↦ record {
              replicated = replicated;
              answer = rw (replicated, reached) refl;
              storage = rw (replicated, reached) refl;
              committed =
                  rw (replicated, reached)
                    (broadcast_commit-is_committed net.sent net.clock r.topic r.partition offset
                        (mark_committed r.topic r.partition offset sent_out.0)
                      ∙ mark_committed-is_committed r.topic r.partition offset sent_out.0);
            }
          ]
    ]

-- A produce request that a leader answers with success has passed the guards.
pub record Stored (net : Network) (r : Request) (b : Broker) : Type 0 where
  pub topic : is_empty r.topic ≡ false
  pub partition : is_negative r.partition ≡ false
  pub message : is_empty r.message ≡ false
  pub settled : Settled net r (Engine.append r.topic r.partition r.message b.storage).1 (
      refreshed r.topic
        (record b { storage = (Engine.append r.topic r.partition r.message b.storage).0 }))
  pub result :
      handle_produce net r b
      ≡ settle net r (Engine.append r.topic r.partition r.message b.storage).1 (
          refreshed r.topic
            (record b { storage = (Engine.append r.topic r.partition r.message b.storage).0 }))

pub handle_produce-Stored :
    (net : Network) (r : Request) (b : Broker)
    → is_leader b ≡ true
    → (handle_produce net r b).1.success ≡ true
    → Stored net r b
unfolding handle_produce
handle_produce-Stored net r b leads h = elim (Bool-cases (is_empty r.topic)) [
  | inl t ↦ let bad : false ≡ true = rw (leads, t) at h in cc
  | inr t ↦ elim (Bool-cases (is_negative r.partition)) [
    | inl p ↦ let bad : false ≡ true = rw (leads, t, p) at h in cc
    | inr p ↦ elim (Bool-cases (is_empty r.message)) [
      | inl m ↦ let bad : false ≡ true = rw (leads, t, p, m) at h in cc
      | inr m ↦ record {
        topic = t;
        partition = p;
        message = m;
        settled =
            settle-Settled net r (Engine.append r.topic r.partition r.message b.storage).1 _
              (rw (leads, t, p, m) at h);
        result = rw (leads, t, p, m) refl;
      }
    ]
  ]
]
