-- ===== src/Replication/Progress.antt =====
-- A round of replicate_message counts every peer that does its part.
use streaming_platform.Prelude.{
  ℕ, ◌+◌, ◌/◌, ◌≤◌, le→leb, ◌≡◌, refl, sym, ap, subst, ◌∙◌, ◌⊎◌, Bool, true, false, ◌||◌, inl, inr,
  Bool-cases, Option, none, some, List, [], ◌∷◌, arith, length, int_eq, int_eq_iff, if◌then◌else◌,
  int_Key, ℤ, list_eq, list_eq_iff, list_Key, lookup, lookup-insert, All,
}
use streaming_platform.Text.{Bytes}
use streaming_platform.Config.{ClusterPeer, BrokerConfig}
use streaming_platform.Groups.{contains, or_zero}
use streaming_platform.Groups.Ownership.{Distinct}
use streaming_platform.Replication.{
  Manager, is_leader, is_peer_available, make_ack_key, handle_ack, handle_heartbeat,
  mark_follower_failed, quorum, quorum_reached, enough, add_id, remove_id, count_ack,
}
use streaming_platform.Replication.Acks.{acked_by, acks, acked_by_self, acks-count_ack}
use streaming_platform.Replication.Exchange

contains-apart :
    (i j : ℤ) (ids : List ℤ) → int_eq i j ≡ false → contains j (add_id i ids) ≡ contains j ids
contains-apart i j ids apart = elim (Bool-cases (contains i ids)) [
  | inl old ↦ rw old refl
  | inr new ↦ rw (new, apart) refl
]

contains-remove_id :
    (i j : ℤ) (ids : List ℤ) → contains j ids ≡ false → contains j (remove_id i ids) ≡ false
unfolding remove_id
contains-remove_id i j [] h = refl
contains-remove_id i j (k ∷ ids) h = ground (arith, contains-remove_id i j ids)

-- How many of the peers do their part
abbrev pub count_parts : (ℤ → Bool) → List ClusterPeer → ℕ
count_parts part [] = 0
count_parts part (x ∷ ps) = (if part x.broker_id then 1 else 0) + count_parts part ps

abbrev pub ids_of : List ClusterPeer → List ℤ
ids_of [] = []
ids_of (x ∷ ps) = x.broker_id ∷ ids_of ps

module _ (topic : Bytes) (p : ℤ) (offset : ℕ) where
  abbrev key : Bytes
  key = make_ack_key topic p offset

  -- What the turn of one peer may change.
  record Turned (id : ℤ) (m m' : Manager) : Type 0 where
    config : m'.config ≡ m.config
    count : acks key m ≤ acks key m'
    acked :
        (j : ℤ) → int_eq id j ≡ false → contains j (acked_by key m') ≡ contains j (acked_by key m)
    failed :
        (j : ℤ)
        → int_eq id j ≡ false
        → contains j m.failed_peers ≡ false
        → contains j m'.failed_peers ≡ false

  Turned-same : (id : ℤ) (m : Manager) → Turned id m m
  Turned-same id m = record {
    config = refl;
    count = omega arith;
    acked = λ j a. refl;
    failed = λ j a h. h;
  }

  Turned-trans : {id : ℤ} {m m' m'' : Manager} → Turned id m m' → Turned id m' m'' → Turned id m m''
  Turned-trans t u = record {
    config = u.config ∙ t.config;
    count = omega (arith, t.count, u.count);
    acked = λ j a. u.acked j a ∙ t.acked j a;
    failed = λ j a h. u.failed j a (t.failed j a h);
  }

  key_self : list_eq key key ≡ true
  key_self = (list_eq_iff key key).1 refl

  if_count : (t : Bool) (n : ℕ) → n ≤ (if t then n else n + 1)
  if_count true n = omega arith
  if_count false n = omega arith

  count_ack-config : (id : ℤ) (m : Manager) → (count_ack id key offset m).config ≡ m.config
  unfolding count_ack
  count_ack-config id m = elim (Bool-cases (contains id (acked_by key m))) [
    | inl again ↦ rw again refl
    | inr first ↦ rw first refl
  ]

  count_ack-failed :
      (id : ℤ) (m : Manager) → (count_ack id key offset m).failed_peers ≡ m.failed_peers
  unfolding count_ack
  count_ack-failed id m = elim (Bool-cases (contains id (acked_by key m))) [
    | inl again ↦ rw again refl
    | inr first ↦ rw first refl
  ]

  count_ack-Turned : (id : ℤ) (m : Manager) → Turned id m (count_ack id key offset m)
  count_ack-Turned id m = record {
    config = count_ack-config id m;
    count = rw (acks-count_ack, key_self) (if_count (contains id (acked_by key m)) (acks key m));
    acked = λ j a. rw (acked_by_self id key offset m) (contains-apart id j (acked_by key m) a);
    failed = λ j a h. rw (count_ack-failed id m) h;
  }

  handle_ack-Turned : (id : ℤ) (m : Manager) → Turned id m (handle_ack id topic p offset m)
  unfolding handle_ack
  handle_ack-Turned id m = elim (Bool-cases (is_leader m)) [
    | inr other ↦ rw other (Turned-same id m)
    | inl leads ↦ rw leads (count_ack-Turned id m)
  ]

  note_peer-Turned :
      (id : ℤ) (now : ℕ) (m : Manager) (done : Bool)
      → Turned id m (Exchange.note_peer id now (m, done))
  unfolding handle_heartbeat mark_follower_failed
  note_peer-Turned id now m true = record {
    config = refl;
    count = omega arith;
    acked = λ j a. refl;
    failed = λ j a h. contains-remove_id id j m.failed_peers h;
  }
  note_peer-Turned id now m false = record {
    config = refl;
    count = omega arith;
    acked = λ j a. refl;
    failed = λ j a h. contains-apart id j m.failed_peers a ∙ h;
  }

  -- The answer of a peer: any peer's turn leaves the manager as it is or takes its acknowledgement,
  -- and that of one that does its part takes it and is done.
  pub record Plays (part : Bool) (reply : Option Bytes) (id : ℤ) : Type 0 where
    pub fair :
        (m : Manager)
        → ((Exchange.replicate_to_peer reply topic p offset m).0 ≡ m)
          ⊎ ((Exchange.replicate_to_peer reply topic p offset m).0 ≡ handle_ack id topic p offset m)
    pub does :
        part ≡ true
        → (m : Manager)
        → Exchange.replicate_to_peer reply topic p offset m ≡ (handle_ack id topic p offset m, true)

  -- A peer whose turn is still to come.
  pub record Waits (part : Bool) (id : ℤ) (m : Manager) : Type 0 where
    pub fresh : contains id (acked_by key m) ≡ false
    pub live : part ≡ true → contains id m.failed_peers ≡ false
    pub apart : int_eq id m.config.broker_id ≡ false

  Turned-Waits :
      (part : Bool) (id other : ℤ) (m m' : Manager)
      → int_eq id other ≡ false
      → Turned id m m'
      → Waits part other m
      → Waits part other m'
  Turned-Waits part id other m m' a t w = record {
    fresh = t.acked other a ∙ w.fresh;
    live = λ g. t.failed other a (w.live g);
    apart = rw t.config w.apart;
  }

  abbrev turn : (ClusterPeer → Option Bytes) → (ClusterPeer → ℕ) → ClusterPeer → Manager → Manager
  turn reply clock x m =
      if Exchange.skipped x m
      then m
      else Exchange.note_peer x.broker_id (clock x)
          (Exchange.replicate_to_peer (reply x) topic p offset m)

  note_pair-Turned :
      (id : ℤ) (now : ℕ) (m : Manager) (pair : Manager × Bool)
      → Turned id m pair.0
      → Turned id m (Exchange.note_peer id now pair)
  note_pair-Turned id now m (m', done) t = Turned-trans t (note_peer-Turned id now m' done)

  turn-Turned :
      (reply : ClusterPeer → Option Bytes) (clock : ClusterPeer → ℕ) (x : ClusterPeer) (m : Manager)
      (part : Bool)
      → Plays part (reply x) x.broker_id
      → Turned x.broker_id m (turn reply clock x m)
  turn-Turned reply clock x m part plays =
      let pair = Exchange.replicate_to_peer (reply x) topic p offset m in
      let moved : Turned x.broker_id m pair.0 = elim (plays.fair m) [
        | inl same ↦ subst (Turned x.broker_id m) (sym same) (Turned-same x.broker_id m)
        | inr acked ↦ subst (Turned x.broker_id m) (sym acked) (handle_ack-Turned x.broker_id m)
      ] in
      elim (Bool-cases (Exchange.skipped x m)) [
        | inl skip ↦ rw skip (Turned-same x.broker_id m)
        | inr go ↦ rw go (note_pair-Turned x.broker_id (clock x) m pair moved)
      ]

  handle_ack-acks :
      (id : ℤ) (now : ℕ) (m : Manager)
      → is_leader m ≡ true
      → contains id (acked_by key m) ≡ false
      → acks key (Exchange.note_peer id now (handle_ack id topic p offset m, true)) ≡ acks key m + 1
  unfolding handle_ack handle_heartbeat
  handle_ack-acks id now m leads fresh =
      rw leads (acks-count_ack id key key offset m ∙ rw (fresh, key_self) refl)

  turn-counts :
      (reply : ClusterPeer → Option Bytes) (clock : ClusterPeer → ℕ) (x : ClusterPeer) (m : Manager)
      → is_leader m ≡ true
      → Plays true (reply x) x.broker_id
      → Waits true x.broker_id m
      → acks key (turn reply clock x m) ≡ acks key m + 1
  unfolding is_peer_available
  turn-counts reply clock x m leads plays w =
      rw (w.apart, w.live refl, plays.does refl m)
        (handle_ack-acks x.broker_id (clock x) m leads w.fresh)

  Waits-rest :
      (part : ℤ → Bool) (id : ℤ) (m m' : Manager) (ps : List ClusterPeer)
      → contains id (ids_of ps) ≡ false
      → Turned id m m'
      → All (λ (x : ClusterPeer). Waits (part x.broker_id) x.broker_id m) ps
      → All (λ (x : ClusterPeer). Waits (part x.broker_id) x.broker_id m') ps
  Waits-rest part id m m' [] d t w = tt
  Waits-rest part id m m' (x ∷ ps) d t w = (
    Turned-Waits (part x.broker_id) id x.broker_id m m'
        (apart_head id x.broker_id (contains id (ids_of ps)) d) t w.0,
    Waits-rest part id m m' ps (apart_tail id x.broker_id (contains id (ids_of ps)) d) t w.1,
  )
    where
      apart_head : (i j : ℤ) (rest : Bool) → (int_eq j i || rest) ≡ false → int_eq i j ≡ false
      apart_head i j rest h = ground (arith, int_eq_iff i j, int_eq_iff j i)

      apart_tail : (i j : ℤ) (rest : Bool) → (int_eq j i || rest) ≡ false → rest ≡ false
      apart_tail i j rest h = ground arith

  turn-part :
      (part : Bool) (reply : ClusterPeer → Option Bytes) (clock : ClusterPeer → ℕ) (x : ClusterPeer)
      (m : Manager)
      → is_leader m ≡ true
      → Plays part (reply x) x.broker_id
      → Waits part x.broker_id m
      → (acks key m + (if part then 1 else 0)) ≤ acks key (turn reply clock x m)
  turn-part true reply clock x m leads plays w =
      omega (arith, turn-counts reply clock x m leads plays w)
  turn-part false reply clock x m leads plays w =
      omega (arith, (turn-Turned reply clock x m false plays).count)

  pub replicate_to_peers-counts :
      (part : ℤ → Bool) (reply : ClusterPeer → Option Bytes) (clock : ClusterPeer → ℕ)
      (ps : List ClusterPeer) (m : Manager)
      → is_leader m ≡ true
      → Distinct (ids_of ps)
      → All (λ (x : ClusterPeer). Plays (part x.broker_id) (reply x) x.broker_id) ps
      → All (λ (x : ClusterPeer). Waits (part x.broker_id) x.broker_id m) ps
      → (Exchange.replicate_to_peers reply clock ps topic p offset m).config ≡ m.config
        × (acks key m + count_parts part ps
            ≤ acks key (Exchange.replicate_to_peers reply clock ps topic p offset m))
  unfolding Exchange.replicate_to_peers
  replicate_to_peers-counts part reply clock [] m leads d plays w = (refl, omega arith)
  replicate_to_peers-counts part reply clock (x ∷ ps) m leads d plays w =
      let m' = turn reply clock x m in
      let t = turn-Turned reply clock x m (part x.broker_id) plays.0 in
      let rest =
        replicate_to_peers-counts part reply clock ps m'
          (ap (λ (c : BrokerConfig). streaming_platform.Config.is_leader c) t.config ∙ leads) d.1
          plays.1 (Waits-rest part x.broker_id m m' ps d.0 t w.1) in
      (
        rest.0 ∙ t.config,
        omega (arith, rest.1, turn-part (part x.broker_id) reply clock x m leads plays.0 w.0),
      )

  -- Before a round: nobody has acknowledged the offset yet.
  pub record Standing (part : Bool) (id : ℤ) (m : Manager) : Type 0 where
    pub live : part ≡ true → contains id m.failed_peers ≡ false
    pub apart : int_eq id m.config.broker_id ≡ false

  Standing-Waits :
      (part : Bool) (id : ℤ) (m : Manager)
      → acked_by key m ≡ []
      → Standing part id m
      → Waits part id (Exchange.count_self key m)
  unfolding Exchange.count_self
  Standing-Waits part id m none_yet s = record {
    fresh = rw (lookup-insert, key_self, none_yet) (flipped id m.config.broker_id s.apart);
    live = s.live;
    apart = s.apart;
  }
    where
      flipped : (i j : ℤ) → int_eq i j ≡ false → contains i (j ∷ []) ≡ false
      flipped i j h = ground (arith, int_eq_iff i j, int_eq_iff j i)

  Standing-Waits_all :
      (part : ℤ → Bool) (m : Manager) (ps : List ClusterPeer)
      → acked_by key m ≡ []
      → All (λ (x : ClusterPeer). Standing (part x.broker_id) x.broker_id m) ps
      → All
          (λ (x : ClusterPeer). Waits (part x.broker_id) x.broker_id (Exchange.count_self key m))
          ps
  Standing-Waits_all part m [] none_yet s = tt
  Standing-Waits_all part m (x ∷ ps) none_yet s = (
    Standing-Waits (part x.broker_id) x.broker_id m none_yet s.0,
    Standing-Waits_all part m ps none_yet s.1,
  )

  count_self-acks : (m : Manager) → acks key (Exchange.count_self key m) ≡ 1
  unfolding Exchange.count_self
  count_self-acks m = rw (lookup-insert, key_self) refl

enough-or_zero : (n : ℕ) (found : Option ℕ) → 1 ≤ n → n ≤ or_zero found → enough n found ≡ true
enough-or_zero n none h e = absurd (omega arith)
enough-or_zero n (some c) h e = le→leb n c e

-- With enough peers that do their part, a round reaches the quorum.
pub replicate_message-reaches :
    (part : ℤ → Bool) (reply : ClusterPeer → Bytes → Option Bytes) (clock : ClusterPeer → ℕ)
    (topic : Bytes) (p : ℤ) (offset : ℕ) (message : Bytes) (m : Manager)
    → is_leader m ≡ true
    → acked_by (make_ack_key topic p offset) m ≡ []
    → Distinct (ids_of m.config.peers)
    → All
        (λ (x : ClusterPeer). Standing topic p offset (part x.broker_id) x.broker_id m)
        m.config.peers
    → All
        (λ (x : ClusterPeer).
          Plays topic p offset
            (part x.broker_id)
            (reply x (Exchange.build_replication_request topic p offset message))
            x.broker_id)
        m.config.peers
    → quorum m ≤ 1 + count_parts part m.config.peers
    → (Exchange.replicate_message reply clock topic p offset message m).1 ≡ true
      × (quorum_reached topic p offset
            (Exchange.replicate_message reply clock topic p offset message m).0
          ≡ true)
unfolding Exchange.replicate_message Exchange.count_self quorum_reached
replicate_message-reaches part reply clock topic p offset message m leads none_yet d standing plays
      many =
    let request = Exchange.build_replication_request topic p offset message in
    let start = Exchange.count_self (make_ack_key topic p offset) m in
    let (config, count) =
      replicate_to_peers-counts topic p offset part (λ p. reply p request) clock m.config.peers
        start leads d plays
        (Standing-Waits_all topic p offset part m m.config.peers none_yet standing) in
    let done =
      Exchange.replicate_to_peers (λ p. reply p request) clock m.config.peers topic p offset
        start in
    let size : quorum done ≡ quorum m =
      ap (λ (c : BrokerConfig). (1 + length c.peers) / 2 + 1) config in
    let reached : enough (quorum done) (lookup (make_ack_key topic p offset) done.ack_counts)
        ≡ true =
      enough-or_zero (quorum done) (lookup (make_ack_key topic p offset) done.ack_counts)
        (omega arith) (omega (arith, size, count, count_self-acks topic p offset m)) in
    rw leads (reached, reached)
