-- ===== src/Cluster/Majority.antt =====
-- What a leader's answer to a produce promises of the cluster.
use streaming_platform.Prelude.{
  ℕ, ◌+◌, ◌*◌, ◌<◌, ◌≡◌, refl, ap, ◌∙◌, inl, inr, true, some, List, [], ◌∷◌, arith, length, ℤ, All,
}
use streaming_platform.Text.{Bytes}
use streaming_platform.Protocol.Message.{Request, Response}
use streaming_platform.Config.{ClusterPeer}
use streaming_platform.Storage.Engine
use streaming_platform.Storage.Engine.Contents.{IsEngine, fetch-append}
use streaming_platform.Groups.{contains}
use streaming_platform.Groups.Ownership.{Distinct}
use streaming_platform.Replication.{quorum}
use streaming_platform.Replication.Majority.{IsHonest, replicate_message-Backed}
use streaming_platform.Replication.Exchange
use streaming_platform.Broker.{Broker, Network, is_leader, handle_produce}
use streaming_platform.Broker.Produce.{handle_produce-Stored}
use streaming_platform.Server.{handle_client}
use streaming_platform.Server.Replicas.{HasRecord}
use streaming_platform.Cluster.{Answer, Site}
use streaming_platform.Cluster.Answers.{IsFollower, FitsRecord, Answer-turn}

-- The offset that a produce request gets, and the request that goes to the followers.
abbrev pub offset_of : Request → Broker → ℕ
offset_of r b = (Engine.append r.topic r.partition r.message b.storage).1

abbrev pub request_for : Request → Broker → Bytes
request_for r b = Exchange.build_replication_request r.topic r.partition (offset_of r b) r.message

-- A broker of the cluster with the record at its offset: the leader after the produce, or a follower
-- after the leader's request.
pub data Copy (net : Network) (r : Request) (b : Broker) (cluster : ℤ → Site) (id : ℤ)
    : Type 0 where
  at_leader :
      id ≡ b.replication.config.broker_id
      → Engine.fetch r.topic r.partition (offset_of r b) (handle_produce net r b).0.storage
        ≡ some r.message
      → Copy net r b cluster id
  at_follower :
      HasRecord r.topic r.partition
        (offset_of r b)
        r.message
        (handle_client
          (cluster id).network
          (((cluster id).now, request_for r b) ∷ [])
          (some (cluster id).broker)).0
      → Copy net r b cluster id

-- A peer whose server is the one that the leader's network reaches.
pub record IsPeer (net : Network) (r : Request) (b : Broker) (cluster : ℤ → Site)
    (peer : ClusterPeer) : Type 0 where
  pub follower : IsFollower peer.broker_id (cluster peer.broker_id).broker
  pub answer :
      Answer
        (cluster peer.broker_id).network
        (cluster peer.broker_id).now
        (request_for r b)
        (cluster peer.broker_id).broker
        (net.reply peer (request_for r b))

IsPeer-IsHonest :
    (net : Network) (r : Request) (b : Broker) (cluster : ℤ → Site) (n : ℕ) (ps : List ClusterPeer)
    → FitsRecord r.topic r.partition (offset_of r b) r.message
    → All (IsPeer net r b cluster) ps
    → All
        (λ (x : ClusterPeer).
          IsHonest
            (Copy net r b cluster)
            r.topic
            r.partition
            (offset_of r b)
            n
            (net.reply x (request_for r b))
            x.broker_id)
        ps
IsPeer-IsHonest net r b cluster n [] fits h = tt
IsPeer-IsHonest net r b cluster n (x ∷ ps) fits h =
    let site = cluster x.broker_id in
    (
      λ m.
          elim (Answer-turn site.network site.now r.topic r.partition (offset_of r b) r.message
            site.broker x.broker_id (net.reply x (request_for r b)) m h.0.follower fits
            h.0.answer) [
              | inl same ↦ inl same
              | inr (acked, stored) ↦ inr (acked, at_follower stored)
            ],
      IsPeer-IsHonest net r b cluster n ps fits h.1,
    )

-- A leader whose logs hold their messages, and peers whose servers are the ones that it reaches, with
-- any request or answer lost; the peers have the ids that the leader knows them by and logs that hold
-- their messages, and the fields of the request fit the wire format. When a produce is answered with
-- success, more than half of the brokers, each counted once, have the record at the offset that the
-- leader gave it.
pub handle_produce-majority :
    (net : Network) (r : Request) (b : Broker) (cluster : ℤ → Site) (spec : Bytes → List Bytes)
    → is_leader b ≡ true
    → IsEngine b.storage spec
    → FitsRecord r.topic r.partition (offset_of r b) r.message
    → All (IsPeer net r b cluster) b.replication.config.peers
    → (handle_produce net r b).1.success ≡ true
    → (ids : List ℤ) × Distinct ids
      × (1 + length b.replication.config.peers < 2 * length ids)
      × ((id : ℤ) → contains id ids ≡ true → Copy net r b cluster id)
handle_produce-majority net r b cluster spec leads h fits peers ok =
    let s = handle_produce-Stored net r b leads ok in
    let kept = ap (λ (x : Broker × Response). x.0.storage) s.result ∙ s.settled.storage in
    let own =
      ap (Engine.fetch r.topic r.partition (offset_of r b)) kept
      ∙ fetch-append r.topic r.partition r.message b.storage spec fits.small h in
    let m = b.replication in
    let (ids, distinct, enough, copies) =
      replicate_message-Backed (Copy net r b cluster) net.reply net.clock r.topic r.partition
        (offset_of r b) r.message m
        (IsPeer-IsHonest net r b cluster (quorum m) m.config.peers fits peers) (at_leader refl own)
        s.settled.replicated in
    (ids, distinct, omega (arith, enough), copies)
