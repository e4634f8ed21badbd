-- ===== src/Broker/Refusals.antt =====
-- What a request that a broker does not carry out leaves behind.
use streaming_platform.Prelude.{
  ℕ, ◌^◌, ◌<◌, ◌≡◌, refl, ◌⊎◌, true, false, inl, inr, Bool-cases, some, List, [], length,
  is_negative,
}
use streaming_platform.Text.{Bytes}
use streaming_platform.Protocol.Message.{Request, no_offset}
use streaming_platform.Protocol.Codec.{is_empty}
use streaming_platform.Storage.Engine
use streaming_platform.Storage.Engine.Contents.{IsEngine, fetch-append}
use streaming_platform.Replication
use streaming_platform.Replication.{Manager}
use streaming_platform.Replication.Rising.{SameIndex, replicate_message-SameIndex}
use streaming_platform.Replication.Exchange
use streaming_platform.Broker.{Broker, Network, is_leader, handle_produce, settle, refreshed}

-- A refused produce request: nothing is changed, and the answer names no offset.
pub record Refused (net : Network) (r : Request) (b : Broker) : Type 0 where
  pub unchanged : (handle_produce net r b).0 ≡ b
  pub no_place : (handle_produce net r b).1.appended_offset ≡ no_offset

-- A produce request that was not replicated in time: its record is in the log at the offset that the
-- answer names, and no commit index is another than it was: that offset is committed only if it was
-- before the request, as after a COMMIT of an offset behind the end of the log.
pub record Unreplicated (net : Network) (r : Request) (b : Broker) : Type 0 where
  pub stored :
      Engine.fetch r.topic r.partition
        (handle_produce net r b).1.appended_offset
        (handle_produce net r b).0.storage
      ≡ some r.message
  pub commits : SameIndex b.replication (handle_produce net r b).0.replication

record Unsettled (net : Network) (r : Request) (offset : ℕ) (b : Broker) : Type 0 where
  place : (settle net r offset b).1.appended_offset ≡ offset
  storage : (settle net r offset b).0.storage ≡ b.storage
  commits : SameIndex b.replication (settle net r offset b).0.replication

settle-Unsettled :
    (net : Network) (r : Request) (offset : ℕ) (b : Broker)
    → (settle net r offset b).1.success ≡ false
    → Unsettled net r offset b
unfolding settle
settle-Unsettled net r offset b h =
    let out =
      Exchange.replicate_message net.reply net.clock r.topic r.partition offset r.message
        b.replication in
    let same =
      replicate_message-SameIndex net.reply net.clock r.topic r.partition offset r.message
        b.replication in
    elim (Bool-cases out.1) [
      | inr failed ↦ record {
        place = rw failed refl;
        storage = rw failed refl;
        commits = rw failed same;
      }
      | inl replicated ↦
          elim (Bool-cases (Replication.wait_for_quorum r.topic r.partition offset [] out.0)) [
            | inr late ↦ record {
              place = rw (replicated, late) refl;
              storage = rw (replicated, late) refl;
              commits = rw (replicated, late) same;
            }
            | inl reached ↦ let bad : true ≡ false = rw (replicated, reached) at h in cc
          ]
    ]

-- On a leader whose logs hold their messages, for a message shorter than 2^64 bytes: a produce
-- request that is not answered with success either changed nothing and names no offset (2^64 - 1), or
-- its record is in the log of its partition at the offset that the answer names and no commit index
-- was changed.
pub handle_produce-failure :
    (net : Network) (r : Request) (b : Broker) (spec : Bytes → List Bytes)
    → is_leader b ≡ true
    → IsEngine b.storage spec
    → length r.message < 2 ^ 64
    → (handle_produce net r b).1.success ≡ false
    → Refused net r b ⊎ Unreplicated net r b
unfolding handle_produce
handle_produce-failure net r b spec leads h fits failed = elim (Bool-cases (is_empty r.topic)) [
  | inl t ↦ inl (record { unchanged = rw (leads, t) refl; no_place = rw (leads, t) refl })
  | inr t ↦ elim (Bool-cases (is_negative r.partition)) [
    | inl p ↦ inl (record { unchanged = rw (leads, t, p) refl; no_place = rw (leads, t, p) refl })
    | inr p ↦ elim (Bool-cases (is_empty r.message)) [
      | inl m ↦
          inl (record { unchanged = rw (leads, t, p, m) refl; no_place = rw (leads, t, p, m) refl })
      | inr m ↦
          let out = Engine.append r.topic r.partition r.message b.storage in
          let u =
            settle-Unsettled net r out.1 (refreshed r.topic (record b { storage = out.0 }))
              (rw (leads, t, p, m) at failed) in
          inr (record {
            stored =
                rw (leads, t, p, m)
                  (rw (u.place, u.storage)
                    (fetch-append r.topic r.partition r.message b.storage spec fits h));
            commits = rw (leads, t, p, m) u.commits;
          })
    ]
  ]
]
