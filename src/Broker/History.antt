-- ===== src/Broker/History.antt =====
-- The requests and the heartbeats of a broker after each other, and what outlives them.
use streaming_platform.Prelude.{
  ℕ, ◌^◌, ◌<◌, ◌≡◌, refl, ap, ◌∙◌, true, false, List, [], ◌∷◌, length, is_negative, list_Key, All,
}
use streaming_platform.Text.{Bytes}
use streaming_platform.Protocol.Message.{Request, Response}
use streaming_platform.Protocol.Codec.{is_empty}
use streaming_platform.Storage.Engine
use streaming_platform.Storage.Engine.{make_key, get_or_create_log}
use streaming_platform.Storage.Engine.Contents.{IsEngine}
use streaming_platform.Storage.Engine.Growth.{Placed, Grows-Placed, append-Placed}
use streaming_platform.Replication.{is_committed}
use streaming_platform.Replication.Rising.{Rises-same, broadcast_heartbeat-SameIndex}
use streaming_platform.Replication.Exchange
use streaming_platform.Broker.{
  Broker, Network, is_leader, handle_produce, handle_fetch, handle_request,
  handle_inter_broker_request, heartbeat_turn, fetched, success,
}
use streaming_platform.Broker.Produce.{Stored, handle_produce-Stored}
use streaming_platform.Broker.Keeping.{
  Keeps, Keeps-same, Keeps-trans, FitsAll, managed-Keeps, handle_request-Keeps,
}
use streaming_platform.Broker.Keeping.Peers.{handle_inter_broker_request-Keeps}

-- What a broker takes at a time: a client's request, a peer's at a time, or a turn of
-- `heartbeat_loop`.
pub data Event : Type 0 where
  client : Network → Request → Event
  peer : ℕ → Request → Event
  heartbeat : Network → ℕ → ℕ → Event

unfoldable pub step : Event → Broker → Broker
step (client net r) b = (handle_request net r b).0
step (peer now r) b = (handle_inter_broker_request now r b).0
step (heartbeat net before now) b = heartbeat_turn net before now b

unfoldable pub run : List Event → Broker → Broker
run [] b = b
run (e ∷ es) b = run es (step e b)

abbrev pub FitsEvent : Event → Type 0
FitsEvent (client net r) = FitsAll r
FitsEvent (peer now r) = FitsAll r
FitsEvent (heartbeat net before now) = Unit

step-Keeps : (e : Event) (b : Broker) → FitsEvent e → Keeps b (step e b)
unfolding step heartbeat_turn
step-Keeps (client net r) b f = handle_request-Keeps net r b f
step-Keeps (peer now r) b f = handle_inter_broker_request-Keeps now r b f
step-Keeps (heartbeat net before now) b f =
    let m = Exchange.broadcast_heartbeat net.sent net.clock before now b.replication in
    managed-Keeps b m (
      Rises-same b.replication m
        (broadcast_heartbeat-SameIndex net.sent net.clock before now b.replication))

run-Keeps : (es : List Event) (b : Broker) → All FitsEvent es → Keeps b (run es b)
unfolding run
run-Keeps [] b f = Keeps-same b b.groups
run-Keeps (e ∷ es) b f = Keeps-trans (step-Keeps e b f.0) (run-Keeps es (step e b) f.1)

-- A committed record of an open log is fetched in the same way for ever.
pub record Held (r : Request) (k : ℕ) (b : Broker) : Type 0 where
  pub placed : Placed r.topic r.partition r.message k b.storage
  pub committed : is_committed r.topic r.partition k b.replication ≡ true

pub Held-run :
    (r : Request) (k : ℕ) (later : List Event) (b : Broker)
    → is_empty r.topic ≡ false
    → is_negative r.partition ≡ false
    → is_empty r.message ≡ false
    → All FitsEvent later
    → Held r k b
    → handle_fetch (record r { fetch_offset = k }) (run later b) ≡ success r.message k
unfolding handle_fetch
Held-run r k later b t p m all h =
    let kept = run-Keeps later b all in
    let placed = Grows-Placed r.topic r.partition r.message k kept.storage h.placed in
    rw (t, p, kept.commits.stays r.topic r.partition k h.committed, placed.stored, fetched, m) refl

Stored-Held :
    (net : Network) (r : Request) (b : Broker) (spec : Bytes → List Bytes)
    → IsEngine b.storage spec
    → length r.message < 2 ^ 64
    → Stored net r b
    → Held r (Engine.append r.topic r.partition r.message b.storage).1 (handle_produce net r b).0
Stored-Held net r b spec h fits s =
    let same = ap (λ (x : Broker × Response). x.0.storage) s.result ∙ s.settled.storage in
    record {
      placed = rw same (append-Placed r.topic r.partition r.message b.storage spec h fits);
      committed = rw s.result s.settled.committed;
    }

-- On a leader whose logs hold their messages, for a message shorter than 2^64 bytes: when a produce
-- request is answered with success, then after any later requests of clients and of peers, whose
-- messages are shorter than 2^64 bytes, and turns of the heartbeat loop, a fetch of the offset in the
-- answer still succeeds and gives the message.
pub handle_fetch-run :
    (net : Network) (r : Request) (b : Broker) (spec : Bytes → List Bytes) (later : List Event)
    → is_leader b ≡ true
    → IsEngine b.storage spec
    → length r.message < 2 ^ 64
    → All FitsEvent later
    → (handle_produce net r b).1.success ≡ true
    → handle_fetch
        (record r { fetch_offset = (handle_produce net r b).1.appended_offset })
        (run later (handle_produce net r b).0)
      ≡ success r.message (handle_produce net r b).1.appended_offset
handle_fetch-run net r b spec later leads h fits all ok =
    let s = handle_produce-Stored net r b leads ok in
    let at_k : (handle_produce net r b).1.appended_offset
        ≡ (Engine.append r.topic r.partition r.message b.storage).1 =
      ap (λ (x : Broker × Response). x.1.appended_offset) s.result
      ∙ ap (λ (x : Response). x.appended_offset) s.settled.answer in
    rw at_k (
      Held-run r (Engine.append r.topic r.partition r.message b.storage).1 later
        (handle_produce net r b).0 s.topic s.partition s.message all
        (Stored-Held net r b spec h fits s))
