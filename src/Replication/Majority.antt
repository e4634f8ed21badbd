-- ===== src/Replication/Majority.antt =====
-- The acknowledgements of one round of replicate_message, each of which stands for something.
use streaming_platform.Prelude.{
  ℕ, ◌≤◌, ◌≡◌, refl, sym, subst, ◌∙◌, ◌⊎◌, Bool, true, false, inl, inr, Bool-cases, Option, List,
  [], ◌∷◌, arith, length, int_eq, int_eq_iff, if◌then◌else◌, int_Key, ℤ, list_eq, list_eq_iff,
  list_Key, lookup, lookup-insert, All,
}
use streaming_platform.Text.{Bytes}
use streaming_platform.Config.{ClusterPeer}
use streaming_platform.Groups.{contains}
use streaming_platform.Groups.Ownership.{Distinct}
use streaming_platform.Replication.{
  Manager, is_leader, make_ack_key, handle_ack, handle_heartbeat, mark_follower_failed, quorum,
  quorum_reached, add_id, count_ack,
}
use streaming_platform.Replication.Acks.{acked_by, acks, acked_by_self, acks-count_ack, enough-leb}
use streaming_platform.Replication.Exchange

pub contains-head : (i : ℤ) (ids : List ℤ) → contains i (i ∷ ids) ≡ true
contains-head i ids = let same : int_eq i i ≡ true = (int_eq_iff i i).1 refl in rw same refl

contains-add_head : (i : ℤ) (ids : List ℤ) → contains i (add_id i ids) ≡ true
contains-add_head i ids = elim (Bool-cases (contains i ids)) [
  | inl old ↦ rw old old
  | inr new ↦ rw new (contains-head i ids)
]

contains-add_tail :
    (j i : ℤ) (ids : List ℤ) → contains j ids ≡ true → contains j (add_id i ids) ≡ true
contains-add_tail j i ids h = elim (Bool-cases (contains i ids)) [
  | inl old ↦ rw old h
  | inr new ↦ rw (new, h) (ground arith)
]

pub contains-cases :
    (i j : ℤ) (ids : List ℤ) → contains j (i ∷ ids) ≡ true → (i ≡ j) ⊎ (contains j ids ≡ true)
contains-cases i j ids h = elim (Bool-cases (int_eq i j)) [
  | inl same ↦ inl ((int_eq_iff i j).0 same)
  | inr apart ↦ inr (rw apart at h)
]

-- `P` is what an acknowledgement of a broker stands for.
module _ (P : ℤ → Type 0) (topic : Bytes) (p : ℤ) (offset : ℕ) (n : ℕ) where
  abbrev key : Bytes
  key = make_ack_key topic p offset

  -- The count is that of different brokers, for each of which `P` holds.
  pub record Backed (m : Manager) : Type 0 where
    pub ids : List ℤ
    pub distinct : Distinct ids
    pub known : (i : ℤ) → contains i ids ≡ true → contains i (acked_by key m) ≡ true
    pub count : acks key m ≤ length ids
    pub stands : (i : ℤ) → contains i ids ≡ true → P i
    pub size : quorum m ≡ n

  -- A peer's turn leaves the manager as it is, or takes an acknowledgement that stands for `P`.
  abbrev pub IsHonest : Option Bytes → ℤ → Type 0
  IsHonest reply id =
      (m : Manager)
      → ((Exchange.replicate_to_peer reply topic p offset m).0 ≡ m)
        ⊎ (((Exchange.replicate_to_peer reply topic p offset m).0 ≡ handle_ack id topic p offset m)
            × P id)

  key_self : list_eq key key ≡ true
  key_self = (list_eq_iff key key).1 refl

  count_ack-quorum : (id : ℤ) (m : Manager) → quorum (count_ack id key offset m) ≡ quorum m
  unfolding count_ack
  count_ack-quorum id m = elim (Bool-cases (contains id (acked_by key m))) [
    | inl again ↦ rw again refl
    | inr first ↦ rw first refl
  ]

  count_ack-Backed : (id : ℤ) (m : Manager) → P id → Backed m → Backed (count_ack id key offset m)
  count_ack-Backed id m holds b = elim (Bool-cases (contains id (acked_by key m))) [
    | inl old ↦ record {
      ids = b.ids;
      distinct = b.distinct;
      known = λ i h.
          rw (acked_by_self id key offset m)
            (contains-add_tail i id (acked_by key m) (b.known i h));
      count = rw (acks-count_ack, old) b.count;
      stands = b.stands;
      size = count_ack-quorum id m ∙ b.size;
    }
    | inr new ↦ record {
      ids = id ∷ b.ids;
      distinct = (
        elim (Bool-cases (contains id b.ids)) [
          | inl old ↦ let bad = b.known id old in cc
          | inr fresh ↦ fresh
        ],
        b.distinct,
      );
      known = λ i h. rw (acked_by_self id key offset m) (elim (contains-cases id i b.ids h) [
        | inl same ↦
            subst (λ j. contains j (add_id id (acked_by key m)) ≡ true) same
              (contains-add_head id (acked_by key m))
        | inr before ↦ contains-add_tail i id (acked_by key m) (b.known i before)
      ]);
      count = rw (acks-count_ack, new, key_self) (omega (arith, b.count));
      stands = λ i h. elim (contains-cases id i b.ids h) [
        | inl same ↦ subst P same holds
        | inr before ↦ b.stands i before
      ];
      size = count_ack-quorum id m ∙ b.size;
    }
  ]

  handle_ack-Backed :
      (id : ℤ) (m : Manager) → P id → Backed m → Backed (handle_ack id topic p offset m)
  unfolding handle_ack
  handle_ack-Backed id m holds b = elim (Bool-cases (is_leader m)) [
    | inr other ↦ rw other b
    | inl leads ↦ rw leads (count_ack-Backed id m holds b)
  ]

  note_peer-Backed :
      (id : ℤ) (now : ℕ) (pair : Manager × Bool)
      → Backed pair.0
      → Backed (Exchange.note_peer id now pair)
  unfolding handle_heartbeat mark_follower_failed
  note_peer-Backed id now (m, true) b = record {
    ids = b.ids;
    distinct = b.distinct;
    known = b.known;
    count = b.count;
    stands = b.stands;
    size = b.size;
  }
  note_peer-Backed id now (m, false) b = record {
    ids = b.ids;
    distinct = b.distinct;
    known = b.known;
    count = b.count;
    stands = b.stands;
    size = b.size;
  }

  turn-Backed :
      (reply : Option Bytes) (id : ℤ) (m : Manager)
      → IsHonest reply id
      → Backed m
      → Backed (Exchange.replicate_to_peer reply topic p offset m).0
  turn-Backed reply id m honest b = elim (honest m) [
    | inl same ↦ subst Backed (sym same) b
    | inr (acked, holds) ↦ subst Backed (sym acked) (handle_ack-Backed id m holds b)
  ]

  if-Backed : (t : Bool) (m m' : Manager) → Backed m → Backed m' → Backed (if t then m else m')
  if-Backed true m m' b b' = b
  if-Backed false m m' b b' = b'

  replicate_to_peers-Backed :
      (reply : ClusterPeer → Option Bytes) (clock : ClusterPeer → ℕ) (ps : List ClusterPeer)
      (m : Manager)
      → All (λ (x : ClusterPeer). IsHonest (reply x) x.broker_id) ps
      → Backed m
      → Backed (Exchange.replicate_to_peers reply clock ps topic p offset m)
  unfolding Exchange.replicate_to_peers
  replicate_to_peers-Backed reply clock [] m honest b = b
  replicate_to_peers-Backed reply clock (x ∷ ps) m honest b =
      let m' =
        Exchange.note_peer x.broker_id (clock x)
          (Exchange.replicate_to_peer (reply x) topic p offset m) in
      replicate_to_peers-Backed reply clock ps (if Exchange.skipped x m then m else m') honest.1 (
        if-Backed (Exchange.skipped x m) m m' b (
          note_peer-Backed x.broker_id (clock x)
            (Exchange.replicate_to_peer (reply x) topic p offset m)
            (turn-Backed (reply x) x.broker_id m honest.0 b)))

  count_self-Backed :
      (m : Manager) → quorum m ≡ n → P m.config.broker_id → Backed (Exchange.count_self key m)
  unfolding Exchange.count_self
  count_self-Backed m size holds =
      let self = m.config.broker_id in
      record {
        ids = self ∷ [];
        distinct = (refl, tt);
        known = λ i h.
            rw (lookup-insert, key_self)
              (elim (contains-cases self i [] h) [
                | inl same ↦
                    subst (λ j. contains j (add_id self (acked_by key m)) ≡ true) same
                      (contains-add_head self (acked_by key m))
                | inr none_there ↦ cc
              ]);
        count = rw (lookup-insert, key_self) (omega arith);
        stands = λ i h. elim (contains-cases self i [] h) [
          | inl same ↦ subst P same holds
          | inr none_there ↦ cc
        ];
        size = size;
      }

  quorum_reached-Backed :
      (m : Manager) (b : Backed m)
      → 1 ≤ n
      → quorum_reached topic p offset m ≡ true
      → n ≤ length b.ids
  unfolding quorum_reached
  quorum_reached-Backed m b h e =
      omega
        (arith, enough-leb (quorum m) (lookup key m.ack_counts) (rw b.size h) e, b.size, b.count)

-- A round that reaches the quorum is backed by that many different brokers, the leader among them.
pub replicate_message-Backed :
    (P : ℤ → Type 0) (reply : ClusterPeer → Bytes → Option Bytes) (clock : ClusterPeer → ℕ)
    (topic : Bytes) (p : ℤ) (offset : ℕ) (message : Bytes) (m : Manager)
    → let request = Exchange.build_replication_request topic p offset message in
      All
        (λ (x : ClusterPeer). IsHonest P topic p offset (quorum m) (reply x request) x.broker_id)
        m.config.peers
      → P m.config.broker_id
      → (Exchange.replicate_message reply clock topic p offset message m).1 ≡ true
      → (ids : List ℤ) × Distinct ids
        × (quorum m ≤ length ids)
        × ((i : ℤ) → contains i ids ≡ true → P i)
unfolding Exchange.replicate_message
replicate_message-Backed P reply clock topic p offset message m honest own ok =
    let request = Exchange.build_replication_request topic p offset message in
    let start = Exchange.count_self (make_ack_key topic p offset) m in
    let done =
      Exchange.replicate_to_peers (λ p. reply p request) clock m.config.peers topic p offset
        start in
    let b =
      replicate_to_peers-Backed P topic p offset (quorum m) (λ p. reply p request) clock
        m.config.peers start honest (count_self-Backed P topic p offset (quorum m) m refl own) in
    elim (Bool-cases (is_leader m)) [
      | inr other ↦ let bad : false ≡ true = rw other at ok in cc
      | inl leads ↦ (
        b.ids,
        b.distinct,
        quorum_reached-Backed P topic p offset (quorum m) done b (omega arith) (rw leads at ok),
        b.stands,
      )
    ]
