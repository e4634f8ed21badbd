-- ===== src/Main/Start.antt =====
-- What holds of every configuration that the command line starts a broker with.
use streaming_platform.Prelude.{
  ◌≡◌, refl, subst, true, inl, inr, Bool-cases, Option, none, some, List, [], ◌∷◌, Option-cases,
  pos, int_ltb, list_Key, list_eq,
}
use streaming_platform.Text.{Bytes, codes}
use streaming_platform.Config
use streaming_platform.Config.{BrokerConfig, BrokerType, ClusterPeer, leader, follower}
use streaming_platform.Main.{
  Options, Outcome, helped, refused, thrown, runs, flag_of, set_flag, continue, configure, start_as,
  start_broker, parse_args, run_main, parse_role, parse_peers, defaults,
}

-- Ids are positive, and a leader takes itself for the leader.
pub record IsUsable (c : BrokerConfig) : Type 0 where
  pub own_id : int_ltb (pos 0) c.broker_id ≡ true
  pub leader_id : int_ltb (pos 0) c.leader_broker_id ≡ true
  pub leads_itself : Config.is_leader c ≡ true → c.leader_broker_id ≡ c.broker_id

abbrev RunsUsable : Outcome → Type 0
RunsUsable helped = Unit {0}
RunsUsable refused = Unit {0}
RunsUsable thrown = Unit {0}
RunsUsable (runs c) = IsUsable c

configure-leader :
    (o : Options) (peers : Option (List ClusterPeer))
    → int_ltb (pos 0) o.broker_id ≡ true
    → RunsUsable (configure o leader o.broker_id peers)
configure-leader o none h = tt
configure-leader o (some peers) h = record { own_id = h; leader_id = h; leads_itself = λ _. refl }

configure-follower :
    (o : Options) (peers : Option (List ClusterPeer))
    → int_ltb (pos 0) o.broker_id ≡ true
    → int_ltb (pos 0) o.leader_id ≡ true
    → RunsUsable (configure o follower o.leader_id peers)
unfolding Config.is_leader
configure-follower o none h k = tt
configure-follower o (some peers) h k = record { own_id = h; leader_id = k; leads_itself = λ e. cc }

start_as-RunsUsable :
    (o : Options) (type : BrokerType)
    → int_ltb (pos 0) o.broker_id ≡ true
    → RunsUsable (start_as o type)
start_as-RunsUsable o leader h = configure-leader o (parse_peers o.peers_arg) h
start_as-RunsUsable o follower h = elim (Bool-cases (int_ltb (pos 0) o.leader_id)) [
  | inl k ↦ rw k (configure-follower o (parse_peers o.peers_arg) h k)
  | inr k ↦ rw k tt
]

start_broker-RunsUsable : (o : Options) → RunsUsable (start_broker o)
unfolding start_broker
start_broker-RunsUsable o = elim (Bool-cases (int_ltb (pos 0) o.broker_id)) [
  | inl h ↦ rw h (start_as-RunsUsable o (parse_role o.role) h)
  | inr h ↦ rw h tt
]

parse_args-RunsUsable :
    (args : List Bytes) (o : Options) → RunsUsable (parse_args start_broker args o)
unfolding parse_args
parse_args-RunsUsable [] o = start_broker-RunsUsable o
parse_args-RunsUsable (arg ∷ []) o = elim (Bool-cases (list_eq arg (codes "--help"))) [
  | inl h ↦ rw h tt
  | inr h ↦ rw h (start_broker-RunsUsable o)
]
parse_args-RunsUsable (arg ∷ value ∷ rest) o = elim (Option-cases (flag_of arg)) [
  | inl e ↦
      rw (e, parse_args)
        (elim (Bool-cases (list_eq arg (codes "--help"))) [
          | inl h ↦ rw h tt
          | inr h ↦ rw h (parse_args-RunsUsable (value ∷ rest) o)
        ])
  | inr (flag, e) ↦
      rw (e, parse_args)
        (elim (Option-cases (set_flag flag value o)) [
          | inl n ↦ rw (n, continue) tt
          | inr (o', n) ↦ rw (n, continue) (parse_args-RunsUsable rest o')
        ])
]

-- Whatever the arguments: where the program starts a broker, its id and the leader's are positive,
-- and one that starts as the leader has its own id as the leader's.
pub run_main-IsUsable : (args : List Bytes) (c : BrokerConfig) → run_main args ≡ runs c → IsUsable c
unfolding run_main
run_main-IsUsable args c e = subst RunsUsable e (parse_args-RunsUsable args defaults)
