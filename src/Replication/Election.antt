-- ===== src/Replication/Election.antt =====
-- The election of maybe_elect_leader: the lowest id of the broker itself and the peers that are alive.
use streaming_platform.Prelude.{
  ℕ, ◌≡◌, refl, sym, subst, ◌∙◌, ◌⊎◌, Bool, true, false, not, ◌&&◌, inl, inr, Bool-cases, List, [],
  ◌∷◌, arith, int_eq, int_ltb, if◌then◌else◌, ◌==◌, int_Key, ℤ, pos, negsuc,
}
use streaming_platform.Config
use streaming_platform.Config.{ClusterPeer}
use streaming_platform.Groups.{contains}
use streaming_platform.Replication.{
  Manager, is_leader, fail_silent, lowest_live, maybe_elect_leader,
}
use streaming_platform.Replication.Majority.{contains-head, contains-cases}

int_ltb_self : (a : ℤ) → int_ltb a a ≡ false
int_ltb_self (pos m) = ground arith
int_ltb_self (negsuc m) = ground arith

int_ltb_trans : (a b c : ℤ) → int_ltb a b ≡ false → int_ltb b c ≡ false → int_ltb a c ≡ false
int_ltb_trans (pos a) (pos b) (pos c) h k = ground arith
int_ltb_trans (pos a) (pos b) (negsuc c) h k = refl
int_ltb_trans (pos a) (negsuc b) (pos c) h k = cc
int_ltb_trans (pos a) (negsuc b) (negsuc c) h k = refl
int_ltb_trans (negsuc a) (pos b) c h k = cc
int_ltb_trans (negsuc a) (negsuc b) (pos c) h k = cc
int_ltb_trans (negsuc a) (negsuc b) (negsuc c) h k = ground arith

int_ltb-asym : (a b : ℤ) → int_ltb a b ≡ true → int_ltb b a ≡ false
int_ltb-asym (pos a) (pos b) h = ground arith
int_ltb-asym (pos a) (negsuc b) h = cc
int_ltb-asym (negsuc a) (pos b) h = refl
int_ltb-asym (negsuc a) (negsuc b) h = ground arith

int_ltb-equal : (a b : ℤ) → int_ltb a b ≡ false → int_ltb b a ≡ false → a ≡ b
int_ltb-equal (pos a) (pos b) h k = ground arith
int_ltb-equal (pos a) (negsuc b) h k = cc
int_ltb-equal (negsuc a) (pos b) h k = cc
int_ltb-equal (negsuc a) (negsuc b) h k = ground arith

-- Who may lead: the broker itself, and the other brokers that have not failed.
abbrev pub candidates : ℤ → List ℤ → List ClusterPeer → List ℤ
candidates self failed [] = self ∷ []
candidates self failed (p ∷ ps) =
    if not (p.broker_id == self) && not (contains p.broker_id failed)
    then p.broker_id ∷ candidates self failed ps
    else candidates self failed ps

pub record IsLowest (id : ℤ) (ids : List ℤ) : Type 0 where
  pub among : contains id ids ≡ true
  pub lowest : (i : ℤ) → contains i ids ≡ true → int_ltb i id ≡ false

pub IsLowest-unique : (a b : ℤ) (ids : List ℤ) → IsLowest a ids → IsLowest b ids → a ≡ b
IsLowest-unique a b ids h k = int_ltb-equal a b (k.lowest a h.among) (h.lowest b k.among)

-- The lowest of a start and of the candidates among the peers.
record Found (self : ℤ) (failed : List ℤ) (ps : List ClusterPeer) (start id : ℤ) : Type 0 where
  below : int_ltb start id ≡ false
  lowest :
      (i : ℤ) → contains i (candidates self failed ps) ≡ true → (i ≡ self) ⊎ (int_ltb i id ≡ false)
  origin : (id ≡ start) ⊎ (contains id (candidates self failed ps) ≡ true)

contains-tail : (i j : ℤ) (ids : List ℤ) → contains j ids ≡ true → contains j (i ∷ ids) ≡ true
contains-tail i j ids h = ground (arith, h)

candidates_self :
    (self : ℤ) (failed : List ℤ) (ps : List ClusterPeer)
    → contains self (candidates self failed ps) ≡ true
candidates_self self failed [] = contains-head self []
candidates_self self failed (p ∷ ps) =
    elim (Bool-cases (not (int_eq p.broker_id self) && not (contains p.broker_id failed))) [
      | inl live ↦ rw live (
          contains-tail p.broker_id self (candidates self failed ps)
            (candidates_self self failed ps))
      | inr out ↦ rw out (candidates_self self failed ps)
    ]

-- The smaller one of two.
abbrev lower : ℤ → ℤ → ℤ
lower a e = if int_ltb a e then a else e

lower-first : (a e : ℤ) → int_ltb a (lower a e) ≡ false
lower-first a e = elim (Bool-cases (int_ltb a e)) [
  | inl less ↦ rw less (int_ltb_self a)
  | inr not_less ↦ rw not_less not_less
]

lower-second : (a e : ℤ) → int_ltb e (lower a e) ≡ false
lower-second a e = elim (Bool-cases (int_ltb a e)) [
  | inl less ↦ rw less (int_ltb-asym a e less)
  | inr not_less ↦ rw not_less (int_ltb_self e)
]

lower-cases : (a e : ℤ) → (lower a e ≡ a) ⊎ (lower a e ≡ e)
lower-cases a e = elim (Bool-cases (int_ltb a e)) [
  | inl less ↦ inl (rw less refl)
  | inr not_less ↦ inr (rw not_less refl)
]

Found-live :
    (self : ℤ) (failed : List ℤ) (p : ClusterPeer) (ps : List ClusterPeer) (e id : ℤ)
    → (not (int_eq p.broker_id self) && not (contains p.broker_id failed)) ≡ true
    → Found self failed ps (lower p.broker_id e) id
    → Found self failed (p ∷ ps) e id
Found-live self failed p ps e id live f =
    let a = p.broker_id in
    let rest = candidates self failed ps in
    record {
      below = int_ltb_trans e (lower a e) id (lower-second a e) f.below;
      lowest = λ i h. elim (contains-cases a i rest (rw live at h)) [
        | inl same ↦ inr (
            subst (λ j. int_ltb j id ≡ false) same
              (int_ltb_trans a (lower a e) id (lower-first a e) f.below))
        | inr later ↦ f.lowest i later
      ];
      origin = elim f.origin [
        | inr later ↦ inr (rw live (contains-tail a id rest later))
        | inl start ↦ elim (lower-cases a e) [
          | inl mine ↦ inr (
              rw live (
                subst (λ j. contains j (a ∷ rest) ≡ true) (sym (start ∙ mine))
                  (contains-head a rest)))
          | inr old ↦ inl (start ∙ old)
        ]
      ];
    }

Found-out :
    (self : ℤ) (failed : List ℤ) (p : ClusterPeer) (ps : List ClusterPeer) (e id : ℤ)
    → (not (int_eq p.broker_id self) && not (contains p.broker_id failed)) ≡ false
    → Found self failed ps e id
    → Found self failed (p ∷ ps) e id
Found-out self failed p ps e id out f = record {
  below = f.below;
  lowest = λ i h. f.lowest i (rw out at h);
  origin = elim f.origin [ inl start ↦ inl start | inr later ↦ inr (rw out later) ];
}

lowest_live-Found :
    (self : ℤ) (failed : List ℤ) (ps : List ClusterPeer) (e : ℤ)
    → Found self failed ps e (lowest_live self failed ps e)
unfolding lowest_live
lowest_live-Found self failed [] e = record {
  below = int_ltb_self e;
  lowest =
      λ i h. elim (contains-cases self i [] h) [ inl same ↦ inl (sym same) | inr none_there ↦ cc ];
  origin = inl refl;
}
lowest_live-Found self failed (p ∷ ps) e =
    elim (Bool-cases (not (int_eq p.broker_id self) && not (contains p.broker_id failed))) [
      | inl live ↦ rw live (
          Found-live self failed p ps e (lowest_live self failed ps (lower p.broker_id e)) live
            (lowest_live-Found self failed ps (lower p.broker_id e)))
      | inr out ↦ rw out (
          Found-out self failed p ps e (lowest_live self failed ps e) out
            (lowest_live-Found self failed ps e))
    ]

lowest_live-IsLowest :
    (self : ℤ) (failed : List ℤ) (ps : List ClusterPeer)
    → IsLowest (lowest_live self failed ps self) (candidates self failed ps)
lowest_live-IsLowest self failed ps =
    let f = lowest_live-Found self failed ps self in
    record {
      among = elim f.origin [
        | inl start ↦
            subst (λ j. contains j (candidates self failed ps) ≡ true) (sym start)
              (candidates_self self failed ps)
        | inr live ↦ live
      ];
      lowest = λ i h. elim (f.lowest i h) [
        | inl own ↦
            subst (λ j. int_ltb j (lowest_live self failed ps self) ≡ false) (sym own) f.below
        | inr above ↦ above
      ];
    }

-- The brokers that have failed by now: those that had, and those whose last heartbeat is too old.
abbrev pub failed_by : ℕ → Manager → List ℤ
failed_by now m = fail_silent now m.last_heartbeat m.failed_peers

abbrev pub sees_leader : ℕ → Manager → Bool
sees_leader now m =
    not (m.config.leader_broker_id == m.config.broker_id)
    && not (contains m.config.leader_broker_id (failed_by now m))

pub record Election (now : ℕ) (m : Manager) : Type 0 where
  pub keeps : sees_leader now m ≡ true → (maybe_elect_leader now m).config ≡ m.config
  pub elects :
      sees_leader now m ≡ false
      → IsLowest
          (maybe_elect_leader now m).config.leader_broker_id
          (candidates m.config.broker_id (failed_by now m) m.config.peers)
  pub leads :
      sees_leader now m ≡ false
      → is_leader (maybe_elect_leader now m)
        ≡ int_eq (maybe_elect_leader now m).config.leader_broker_id m.config.broker_id

role_of :
    (t : Bool)
    → elim (if t then Config.leader else Config.follower) [
      | Config.leader ↦ true
      | Config.follower ↦ false
    ]
      ≡ t
role_of true = refl
role_of false = refl

-- A broker that has a leader other than itself which has not failed keeps it. Any other broker makes
-- the leader the one with the lowest id among itself and the peers that have not failed, where a peer
-- has failed if it was marked so or its last heartbeat is more than 750 ms old; it leads exactly if
-- that is itself.
pub maybe_elect_leader-Election : (now : ℕ) (m : Manager) → Election now m
unfolding maybe_elect_leader Config.set_leader Config.is_leader
maybe_elect_leader-Election now m =
    let elected =
      lowest_live m.config.broker_id (failed_by now m) m.config.peers m.config.broker_id in
    record {
      keeps = λ sees. rw sees refl;
      elects = λ lost.
          rw lost (lowest_live-IsLowest m.config.broker_id (failed_by now m) m.config.peers);
      leads = λ lost. rw lost (role_of (int_eq elected m.config.broker_id));
    }

-- Two brokers that do not see their leaders and count the same brokers as candidates elect the same
-- leader.
pub maybe_elect_leader-agree :
    (now now' : ℕ) (m m' : Manager)
    → sees_leader now m ≡ false
    → sees_leader now' m' ≡ false
    → ((i : ℤ)
        → contains i (candidates m.config.broker_id (failed_by now m) m.config.peers)
          ≡ contains i (candidates m'.config.broker_id (failed_by now' m') m'.config.peers))
    → (maybe_elect_leader now m).config.leader_broker_id
      ≡ (maybe_elect_leader now' m').config.leader_broker_id
maybe_elect_leader-agree now now' m m' lost lost' same =
    let e = (maybe_elect_leader-Election now m).elects lost in
    let e' = (maybe_elect_leader-Election now' m').elects lost' in
    IsLowest-unique (maybe_elect_leader now m).config.leader_broker_id
      (maybe_elect_leader now' m').config.leader_broker_id
      (candidates m.config.broker_id (failed_by now m) m.config.peers) e
      (record {
        among = same (maybe_elect_leader now' m').config.leader_broker_id ∙ e'.among;
        lowest = λ i h. e'.lowest i (sym (same i) ∙ h);
      })
