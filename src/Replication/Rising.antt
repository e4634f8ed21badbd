-- ===== src/Replication/Rising.antt =====
-- The commit index of each log never falls, whatever the manager does.
use streaming_platform.Prelude.{
  ℕ, ◌≡◌, refl, ap, ◌∙◌, Bool, true, false, not, ◌||◌, inl, inr, Bool-cases, Option, none, some,
  List, [], ◌∷◌, if◌then◌else◌, ℤ, is_negative, Assoc, lookup, list_Key, int_Key,
}
use streaming_platform.Text.{Bytes}
use streaming_platform.Protocol.Message.{Request, RequestType, commit}
use streaming_platform.Protocol.Codec.{is_empty, parse_request}
use streaming_platform.Config.{ClusterPeer}
use streaming_platform.Groups.{contains, or_empty}
use streaming_platform.Replication.{
  Manager, make_log_key, mark_committed, is_committed, at_most, handle_ack, count_ack,
  handle_heartbeat, mark_follower_failed, maybe_elect_leader, handle_commit_request, is_leader,
  make_ack_key, expired,
}
use streaming_platform.Replication.Commits.{is_committed-mark_committed}
use streaming_platform.Replication.Exchange

pub record Rises (m m' : Manager) : Type 0 where
  pub stays :
      (topic : Bytes) (p : ℤ) (offset : ℕ)
      → is_committed topic p offset m ≡ true
      → is_committed topic p offset m' ≡ true

pub Rises-same : (m m' : Manager) → m'.commit_index_by_log ≡ m.commit_index_by_log → Rises m m'
unfolding is_committed
Rises-same m m' e = record {
  stays = λ topic p offset h. ap (λ c. at_most offset (lookup (make_log_key topic p) c)) e ∙ h;
}

pub Rises-trans : {m m' m'' : Manager} → Rises m m' → Rises m' m'' → Rises m m''
Rises-trans g h = record {
  stays = λ topic p offset c. h.stays topic p offset (g.stays topic p offset c);
}

or_true : (a b : Bool) → a ≡ true → (a || b) ≡ true
or_true true b h = refl
or_true false b h = cc

pub mark_committed-Rises :
    (topic : Bytes) (p : ℤ) (offset : ℕ) (m : Manager) → Rises m (mark_committed topic p offset m)
mark_committed-Rises topic p offset m = record {
  stays = λ t q o h. is_committed-mark_committed topic t p q offset o m ∙ or_true _ _ h;
}

-- Everything but a commit leaves the index alone.
abbrev pub SameIndex : Manager → Manager → Type 0
SameIndex m m' = m'.commit_index_by_log ≡ m.commit_index_by_log

pub handle_ack-SameIndex :
    (id : ℤ) (topic : Bytes) (p : ℤ) (offset : ℕ) (m : Manager)
    → SameIndex m (handle_ack id topic p offset m)
unfolding handle_ack count_ack
handle_ack-SameIndex id topic p offset m = elim (Bool-cases (is_leader m)) [
  | inr other ↦ rw other refl
  | inl leads ↦ elim (Bool-cases (contains id (acked_ids m))) [
    | inl again ↦ rw (leads, again) refl
    | inr first ↦ rw (leads, first) refl
  ]
]
  where
    acked_ids : Manager → List ℤ
    acked_ids m = or_empty (lookup (make_ack_key topic p offset) m.ack_followers)

note_peer-SameIndex :
    (id : ℤ) (now : ℕ) (m : Manager) (done : Bool)
    → SameIndex m (Exchange.note_peer id now (m, done))
unfolding handle_heartbeat mark_follower_failed
note_peer-SameIndex id now m true = refl
note_peer-SameIndex id now m false = refl

take_ack-SameIndex :
    (a : Request) (topic : Bytes) (p : ℤ) (offset : ℕ) (m : Manager)
    → SameIndex m (Exchange.take_ack a topic p offset m).0
unfolding Exchange.take_ack
take_ack-SameIndex a topic p offset m = elim (Bool-cases (Exchange.is_ack a.type)) [
  | inr other ↦ rw other refl
  | inl is_one ↦ rw is_one (handle_ack-SameIndex a.broker_id _ _ a.fetch_offset m)
]

replicate_to_peer-SameIndex :
    (reply : Option Bytes) (topic : Bytes) (p : ℤ) (offset : ℕ) (m : Manager)
    → SameIndex m (Exchange.replicate_to_peer reply topic p offset m).0
unfolding Exchange.replicate_to_peer
replicate_to_peer-SameIndex none topic p offset m = refl
replicate_to_peer-SameIndex (some payload) topic p offset m = elim (Bool-cases (is_empty payload)) [
  | inl e ↦ rw e refl
  | inr e ↦ rw e (take_ack-SameIndex (parse_request payload) topic p offset m)
]

if-SameIndex :
    (b : Bool) (m x y : Manager) → SameIndex m x → SameIndex m y → SameIndex m (if b then x else y)
if-SameIndex true m x y h k = h
if-SameIndex false m x y h k = k

note_pair-SameIndex :
    (id : ℤ) (now : ℕ) (m : Manager) (pair : Manager × Bool)
    → SameIndex m pair.0
    → SameIndex m (Exchange.note_peer id now pair)
note_pair-SameIndex id now m (m', done) h = note_peer-SameIndex id now m' done ∙ h

replicate_to_peers-SameIndex :
    (reply : ClusterPeer → Option Bytes) (clock : ClusterPeer → ℕ) (ps : List ClusterPeer)
    (topic : Bytes) (p : ℤ) (offset : ℕ) (m : Manager)
    → SameIndex m (Exchange.replicate_to_peers reply clock ps topic p offset m)
unfolding Exchange.replicate_to_peers
replicate_to_peers-SameIndex reply clock [] topic p offset m = refl
replicate_to_peers-SameIndex reply clock (x ∷ ps) topic p offset m =
    replicate_to_peers-SameIndex reply clock ps topic p offset _
    ∙ if-SameIndex (Exchange.skipped x m) m m _ refl (
        note_pair-SameIndex x.broker_id (clock x) m
          (Exchange.replicate_to_peer (reply x) topic p offset m)
          (replicate_to_peer-SameIndex (reply x) topic p offset m))

pub replicate_message-SameIndex :
    (reply : ClusterPeer → Bytes → Option Bytes) (clock : ClusterPeer → ℕ) (topic : Bytes) (p : ℤ)
    (offset : ℕ) (message : Bytes) (m : Manager)
    → SameIndex m (Exchange.replicate_message reply clock topic p offset message m).0
unfolding Exchange.replicate_message Exchange.count_self
replicate_message-SameIndex reply clock topic p offset message m = elim (Bool-cases (is_leader m)) [
  | inr other ↦ rw other refl
  | inl leads ↦ rw leads (
      replicate_to_peers-SameIndex _ clock m.config.peers topic p offset
        (Exchange.count_self (make_ack_key topic p offset) m))
]

take_batch_ack-SameIndex :
    (id : ℤ) (reply : Option Bytes) (topic : Bytes) (p : ℤ) (offset : ℕ) (m : Manager)
    → SameIndex m (Exchange.take_batch_ack id reply topic p offset m)
unfolding Exchange.take_batch_ack mark_follower_failed
take_batch_ack-SameIndex id none topic p offset m = refl
take_batch_ack-SameIndex id (some payload) topic p offset m =
    if-SameIndex _ m _ (mark_follower_failed id m)
      (handle_ack-SameIndex (parse_request payload).broker_id topic p
        (parse_request payload).fetch_offset m)
      refl

replicate_batch_to_peers-SameIndex :
    (reply : ClusterPeer → Option Bytes) (ps : List ClusterPeer) (topic : Bytes) (p : ℤ)
    (offset : ℕ) (m : Manager)
    → SameIndex m (Exchange.replicate_batch_to_peers reply ps topic p offset m)
unfolding Exchange.replicate_batch_to_peers
replicate_batch_to_peers-SameIndex reply [] topic p offset m = refl
replicate_batch_to_peers-SameIndex reply (x ∷ ps) topic p offset m =
    replicate_batch_to_peers-SameIndex reply ps topic p offset _
    ∙ if-SameIndex (Exchange.skipped x m) m m _ refl
        (take_batch_ack-SameIndex x.broker_id (reply x) topic p offset m)

pub replicate_batch-SameIndex :
    (reply : ClusterPeer → Bytes → Option Bytes) (topic : Bytes) (p : ℤ) (first : ℕ)
    (messages : List Bytes) (m : Manager)
    → SameIndex m (Exchange.replicate_batch reply topic p first messages m).0
unfolding Exchange.replicate_batch Exchange.count_self
replicate_batch-SameIndex reply topic p first messages m =
    elim (Bool-cases (not (is_leader m) || is_empty messages)) [
      | inl skip ↦ rw skip refl
      | inr go ↦
          rw go (
            replicate_batch_to_peers-SameIndex _ m.config.peers topic p _ (Exchange.count_self _ m))
    ]

pub broadcast_to_peers-SameIndex :
    (sent : ClusterPeer → Bool) (clock : ClusterPeer → ℕ) (skip : ClusterPeer → Manager → Bool)
    (ps : List ClusterPeer) (m : Manager)
    → SameIndex m (Exchange.broadcast_to_peers sent clock skip ps m)
unfolding Exchange.broadcast_to_peers
broadcast_to_peers-SameIndex sent clock skip [] m = refl
broadcast_to_peers-SameIndex sent clock skip (x ∷ ps) m =
    broadcast_to_peers-SameIndex sent clock skip ps _
    ∙ if-SameIndex (skip x m) m m _ refl (note_peer-SameIndex x.broker_id (clock x) m (sent x))

pub broadcast_commit-SameIndex :
    (sent : ClusterPeer → Bytes → Bool) (clock : ClusterPeer → ℕ) (topic : Bytes) (p : ℤ)
    (offset : ℕ) (m : Manager)
    → SameIndex m (Exchange.broadcast_commit sent clock topic p offset m)
unfolding Exchange.broadcast_commit
broadcast_commit-SameIndex sent clock topic p offset m =
    if-SameIndex (not (is_leader m)) m m _ refl
      (broadcast_to_peers-SameIndex _ clock Exchange.skipped m.config.peers m)

maybe_elect_leader-SameIndex : (now : ℕ) (m : Manager) → SameIndex m (maybe_elect_leader now m)
unfolding maybe_elect_leader
maybe_elect_leader-SameIndex now m = if-SameIndex _ m _ _ refl refl

fail_expired-SameIndex :
    (now : ℕ) (entries : Assoc ℤ ℕ) (m : Manager)
    → SameIndex m (Exchange.fail_expired now entries m)
unfolding Exchange.fail_expired mark_follower_failed
fail_expired-SameIndex now [] m = refl
fail_expired-SameIndex now ((id, seen) ∷ entries) m =
    fail_expired-SameIndex now entries _
    ∙ if-SameIndex (expired now seen) m (mark_follower_failed id m) m refl refl

pub broadcast_heartbeat-SameIndex :
    (sent : ClusterPeer → Bytes → Bool) (clock : ClusterPeer → ℕ) (before now : ℕ) (m : Manager)
    → SameIndex m (Exchange.broadcast_heartbeat sent clock before now m)
unfolding Exchange.broadcast_heartbeat
broadcast_heartbeat-SameIndex sent clock before now m =
    broadcast_to_peers-SameIndex _ clock _ _ _
    ∙ fail_expired-SameIndex now _ (maybe_elect_leader before m)
    ∙ maybe_elect_leader-SameIndex before m

either-Rises : (b : Bool) (m x y : Manager) → Rises m x → Rises m y → Rises m (if b then x else y)
either-Rises true m x y h k = h
either-Rises false m x y h k = k

commit_case-Rises :
    (t : RequestType) (r : Request) (m : Manager)
    → Rises m (elim t [
      | commit ↦
          if is_empty r.topic || is_negative r.partition
          then m
          else mark_committed r.topic r.partition r.fetch_offset m
      | _ ↦ m
    ])
commit_case-Rises commit r m =
    either-Rises (is_empty r.topic || is_negative r.partition) m m _ (Rises-same m m refl)
      (mark_committed-Rises r.topic r.partition r.fetch_offset m)
commit_case-Rises _ r m = Rises-same m m refl

pub handle_commit_request-Rises : (r : Request) (m : Manager) → Rises m (handle_commit_request r m)
unfolding handle_commit_request
handle_commit_request-Rises r m = commit_case-Rises r.type r m
