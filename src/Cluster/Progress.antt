-- ===== src/Cluster/Progress.antt =====
-- When a leader's produce succeeds: a majority that answers is enough.
use streaming_platform.Prelude.{
  ℕ, ◌+◌, ◌-◌, ◌*◌, ◌<◌, ◌≡◌, refl, ap, ◌∙◌, inl, inr, Bool, true, false, some, List, [], ◌∷◌,
  arith, length, ℤ, All, is_negative, nat_eq, nat_eq_iff,
}
use streaming_platform.Text.{Bytes}
use streaming_platform.Protocol.Message.{Request}
use streaming_platform.Protocol.Codec.{is_empty}
use streaming_platform.Config.{ClusterPeer}
use streaming_platform.Storage.Engine
use streaming_platform.Storage.Engine.{make_key}
use streaming_platform.Storage.Engine.Contents.{append-offset}
use streaming_platform.Groups.Ownership.{Distinct}
use streaming_platform.Replication.{
  Manager, handle_ack, make_ack_key, wait_for_quorum, quorum_reached,
}
use streaming_platform.Replication.Acks.{acked_by}
use streaming_platform.Replication.Progress.{
  Plays, Standing, count_parts, ids_of, replicate_message-reaches,
}
use streaming_platform.Replication.Exchange
use streaming_platform.Replication.Exchange.{handle_replication_request, append_batch, build_ack}
use streaming_platform.Broker.{
  Broker, Network, is_leader, handle_produce, settle, refreshed, success,
}
use streaming_platform.Server.{handle_client}
use streaming_platform.Server.Replicas.{record_request, first_frame, handle_client-replicate}
use streaming_platform.Cluster.{Site}
use streaming_platform.Cluster.Answers.{
  IsFollower, FitsRecord, Answer-turn, ack-Fits, replicate_to_peer-build_ack,
}
use streaming_platform.Cluster.Majority.{offset_of, request_for, IsPeer}

-- A follower that takes the record: it does not lead, and its log is as long as the leader's was.
pub record IsLevel (topic : Bytes) (p : ℤ) (offset : ℕ) (id : ℤ) (f : Broker) : Type 0 where
  pub follower : IsFollower id f
  pub follows : is_leader f ≡ false
  pub level : length (follower.spec (make_key topic p)) ≡ offset

-- What a leader takes from its producers.
pub record IsRecord (topic : Bytes) (p : ℤ) (message : Bytes) : Type 0 where
  pub named : is_empty topic ≡ false
  pub placed : is_negative p ≡ false
  pub filled : is_empty message ≡ false

level-ack :
    (topic : Bytes) (p : ℤ) (offset : ℕ) (message : Bytes) (id : ℤ) (f : Broker)
    → IsRecord topic p message
    → IsLevel topic p offset id f
    → (handle_replication_request (record_request topic p offset message) f.replication f.storage).1
      ≡ some (build_ack id topic p offset)
unfolding handle_replication_request append_batch
level-ack topic p offset message id f r h =
    let place : (Engine.append topic p message f.storage).1 ≡ offset =
      append-offset topic p message f.storage h.follower.spec h.follower.holds ∙ h.level in
    let same : nat_eq (Engine.append topic p message f.storage).1 offset ≡ true =
      (nat_eq_iff _ _).1 place in
    let last : offset + 1 - 1 ≡ offset = omega arith in
    rw (h.follows, r.named, r.placed, r.filled, same)
      (ap (λ i. some (build_ack i topic p (offset + 1 - 1))) h.follower.named
        ∙ ap (λ k. some (build_ack id topic p k)) last)

-- A follower that takes the record answers with its ACK.
level-Plays :
    (net : Network) (now : ℕ) (topic : Bytes) (p : ℤ) (offset : ℕ) (message : Bytes) (f : Broker)
    (id : ℤ) (m : Manager)
    → IsRecord topic p message
    → FitsRecord topic p offset message
    → IsLevel topic p offset id f
    → Exchange.replicate_to_peer
        (first_frame
          (handle_client net
            ((now, Exchange.build_replication_request topic p offset message) ∷ [])
            (some f)).1)
        topic
        p
        offset
        m
      ≡ (handle_ack id topic p offset m, true)
level-Plays net now topic p offset message f id m r fits h =
    rw
      (
        handle_client-replicate net now [] topic p offset message f fits.request,
        level-ack topic p offset message id f r h,
      )
      (replicate_to_peer-build_ack id topic p offset m
        (ack-Fits id topic p offset message h.follower.small fits.request))

-- A peer that does its part: its follower takes the record, and its answer gets through.
pub record DoesPart (net : Network) (r : Request) (b : Broker) (cluster : ℤ → Site)
    (peer : ClusterPeer) : Type 0 where
  pub level :
      IsLevel r.topic r.partition (offset_of r b) peer.broker_id (cluster peer.broker_id).broker
  pub answer :
      net.reply peer (request_for r b)
      ≡ first_frame
          (handle_client
            (cluster peer.broker_id).network
            (((cluster peer.broker_id).now, request_for r b) ∷ [])
            (some (cluster peer.broker_id).broker)).1

-- A peer of the leader: its server is the one that the leader reaches, it is another broker, and if it
-- does its part, the leader does not count it as failed.
pub record IsReached (part : ℤ → Bool) (net : Network) (r : Request) (b : Broker)
    (cluster : ℤ → Site) (peer : ClusterPeer) : Type 0 where
  pub server : IsPeer net r b cluster peer
  pub standing :
      Standing r.topic r.partition
        (offset_of r b)
        (part peer.broker_id)
        peer.broker_id
        b.replication
  pub does : part peer.broker_id ≡ true → DoesPart net r b cluster peer

IsReached-Plays :
    (part : ℤ → Bool) (net : Network) (r : Request) (b : Broker) (cluster : ℤ → Site)
    (ps : List ClusterPeer)
    → IsRecord r.topic r.partition r.message
    → FitsRecord r.topic r.partition (offset_of r b) r.message
    → All (IsReached part net r b cluster) ps
    → All
        (λ (x : ClusterPeer).
          Plays r.topic r.partition
            (offset_of r b)
            (part x.broker_id)
            (net.reply x (request_for r b))
            x.broker_id)
        ps
IsReached-Plays part net r b cluster [] ok fits h = tt
IsReached-Plays part net r b cluster (x ∷ ps) ok fits h =
    let id = x.broker_id in
    let site = cluster id in
    (
      record {
        fair = λ m.
            elim (Answer-turn site.network site.now r.topic r.partition (offset_of r b) r.message
              site.broker id (net.reply x (request_for r b)) m h.0.server.follower fits
              h.0.server.answer) [ inl same ↦ inl same | inr (acked, stored) ↦ inr acked ];
        does = λ part_of_it m.
            let d = h.0.does part_of_it in
            rw d.answer (
              level-Plays site.network site.now r.topic r.partition (offset_of r b) r.message
                site.broker id m ok fits d.level);
      },
      IsReached-Plays part net r b cluster ps ok fits h.1,
    )

IsReached-Standing :
    (part : ℤ → Bool) (net : Network) (r : Request) (b : Broker) (cluster : ℤ → Site)
    (ps : List ClusterPeer)
    → All (IsReached part net r b cluster) ps
    → All
        (λ (x : ClusterPeer).
          Standing r.topic r.partition (offset_of r b) (part x.broker_id) x.broker_id b.replication)
        ps
IsReached-Standing part net r b cluster [] h = tt
IsReached-Standing part net r b cluster (x ∷ ps) h =
    (h.0.standing, IsReached-Standing part net r b cluster ps h.1)

settle-reached :
    (net : Network) (r : Request) (offset : ℕ) (b : Broker)
    → (Exchange.replicate_message net.reply net.clock r.topic r.partition offset r.message
        b.replication).1
      ≡ true
    → quorum_reached r.topic r.partition offset
        (Exchange.replicate_message net.reply net.clock r.topic r.partition offset r.message
          b.replication).0
      ≡ true
    → (settle net r offset b).1 ≡ success [] offset
unfolding settle wait_for_quorum
settle-reached net r offset b sent reached = rw (sent, reached) refl

-- On a leader, for a produce request that passes its guards and fits the wire format, of an offset
-- that nobody has acknowledged yet: the peers are different brokers, whose servers the leader reaches,
-- with any request or answer lost. If those whose answer gets through, whose followers have logs as
-- long as the leader's had and whom the leader does not count as failed are with the leader more than
-- half of the brokers, then the produce is answered with success and that offset.
pub handle_produce-success :
    (part : ℤ → Bool) (net : Network) (r : Request) (b : Broker) (cluster : ℤ → Site)
    → is_leader b ≡ true
    → IsRecord r.topic r.partition r.message
    → FitsRecord r.topic r.partition (offset_of r b) r.message
    → acked_by (make_ack_key r.topic r.partition (offset_of r b)) b.replication ≡ []
    → Distinct (ids_of b.replication.config.peers)
    → All (IsReached part net r b cluster) b.replication.config.peers
    → 1 + length b.replication.config.peers < 2 * (1 + count_parts part b.replication.config.peers)
    → (handle_produce net r b).1 ≡ success [] (offset_of r b)
unfolding handle_produce
handle_produce-success part net r b cluster leads ok fits none_yet d peers many =
    let m = b.replication in
    let (sent, reached) =
      replicate_message-reaches part net.reply net.clock r.topic r.partition (offset_of r b)
        r.message m leads none_yet d (IsReached-Standing part net r b cluster m.config.peers peers)
        (IsReached-Plays part net r b cluster m.config.peers ok fits peers) (omega (arith, many)) in
    rw (leads, ok.named, ok.placed, ok.filled)
      (settle-reached net r (offset_of r b)
        (refreshed r.topic
          (record b { storage = (Engine.append r.topic r.partition r.message b.storage).0 }))
        sent reached)
