-- ===== src/Broker/Keeping/Peers.antt =====
-- What other brokers send takes nothing away from a broker either.
use streaming_platform.Prelude.{
  ℕ, ◌+◌, refl, not, ◌||◌, inl, inr, Bool-cases, List, [], ◌∷◌, nat_eq, All, ℤ, is_negative,
}
use streaming_platform.Text.{Bytes}
use streaming_platform.Protocol.Message
use streaming_platform.Protocol.Message.{Request, RequestType, Response}
use streaming_platform.Protocol.Codec.{is_empty}
use streaming_platform.Storage.Engine
use streaming_platform.Storage.Engine.{Engine}
use streaming_platform.Storage.Engine.Growth.{Fits, Grows, Grows-same, Grows-trans, append-Grows}
use streaming_platform.Replication
use streaming_platform.Replication.{Manager}
use streaming_platform.Replication.Rising.{
  Rises-same, handle_ack-SameIndex, handle_commit_request-Rises,
}
use streaming_platform.Replication.Exchange
use streaming_platform.Broker.{Broker, dispatch_peer, handle_inter_broker_request}
use streaming_platform.Broker.Keeping.{Keeps, FitsAll, managed-Keeps, self-Keeps}

append_batch-Grows :
    (topic : Bytes) (p : ℤ) (offset : ℕ) (ms : List Bytes) (e : Engine)
    → All Fits ms
    → Grows e (Exchange.append_batch topic p offset ms e).0
unfolding Exchange.append_batch
append_batch-Grows topic p offset [] e f = Grows-same e
append_batch-Grows topic p offset (m ∷ ms) e f =
    let out = Engine.append topic p m e in
    let one = append-Grows topic p m e f.0 in
    elim (Bool-cases (nat_eq out.1 offset)) [
      | inl same ↦ rw same (Grows-trans one (append_batch-Grows topic p (offset + 1) ms out.0 f.1))
      | inr other ↦ rw other one
    ]

payload_of-Fits : (r : Request) → FitsAll r → All Fits (Exchange.payload_of r)
payload_of-Fits r f = by_type r.type
  where
    by_type :
        (t : RequestType)
        → All Fits (elim t [ Message.replicate ↦ r.message ∷ [] | _ ↦ r.messages ])
    by_type Message.replicate = (f.one, tt)
    by_type _ = f.batch

handle_replication_request-Grows :
    (r : Request) (m : Manager) (e : Engine)
    → FitsAll r
    → Grows e (Exchange.handle_replication_request r m e).0
unfolding Exchange.handle_replication_request
handle_replication_request-Grows r m e f =
    elim (Bool-cases (Replication.is_leader m || not (Exchange.is_replication r.type))) [
      | inl other ↦ rw other (Grows-same e)
      | inr for_it ↦
          elim (Bool-cases
            (is_empty r.topic || (is_negative r.partition || not (Exchange.has_payload r)))) [
              | inl bad ↦ rw (for_it, bad) (Grows-same e)
              | inr good ↦
                  rw (for_it, good)
                    (append_batch-Grows r.topic r.partition r.fetch_offset (Exchange.payload_of r) e
                      (payload_of-Fits r f))
            ]
    ]

replicated-Keeps :
    (r : Request) (b : Broker)
    → FitsAll r
    → Keeps b
        (record b { storage = (Exchange.handle_replication_request r b.replication b.storage).0 })
replicated-Keeps r b f = record {
  storage = handle_replication_request-Grows r b.replication b.storage f;
  commits = Rises-same b.replication b.replication refl;
}

dispatch_peer-Keeps :
    (t : RequestType) (now : ℕ) (r : Request) (b : Broker)
    → FitsAll r
    → Keeps b (dispatch_peer t now r b).0
unfolding Replication.handle_heartbeat
dispatch_peer-Keeps Message.replicate now r b f = replicated-Keeps r b f
dispatch_peer-Keeps Message.batch_replicate now r b f = replicated-Keeps r b f
dispatch_peer-Keeps Message.ack now r b f =
    managed-Keeps b
      (Replication.handle_ack r.broker_id r.topic r.partition r.fetch_offset b.replication)
      (Rises-same b.replication _
        (handle_ack-SameIndex r.broker_id r.topic r.partition r.fetch_offset b.replication))
dispatch_peer-Keeps Message.heartbeat now r b f =
    managed-Keeps b (Replication.handle_heartbeat r.broker_id now b.replication)
      (Rises-same b.replication (Replication.handle_heartbeat r.broker_id now b.replication) refl)
dispatch_peer-Keeps Message.commit now r b f =
    managed-Keeps b (Replication.handle_commit_request r b.replication)
      (handle_commit_request-Rises r b.replication)
dispatch_peer-Keeps _ now r b f = self-Keeps b

pub handle_inter_broker_request-Keeps :
    (now : ℕ) (r : Request) (b : Broker)
    → FitsAll r
    → Keeps b (handle_inter_broker_request now r b).0
unfolding handle_inter_broker_request
handle_inter_broker_request-Keeps now r b f = dispatch_peer-Keeps r.type now r b f
