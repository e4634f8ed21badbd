-- ===== src/Main.antt =====
-- src/main.cpp: the command line. Arguments are those behind the program's name; a program that
-- starts is the configuration that it starts with.
pub mod Start
pub mod Peers
mod Examples
use streaming_platform.Prelude.{
  ℕ, zero, suc, Bool, true, false, Option, none, some, List, [], ◌∷◌, ◌++◌, nat_eq, length,
  if◌then◌else◌, ◌==◌, ℤ, pos, int_ltb, list_Key,
}
use streaming_platform.Text.{Bytes, codes, colon, int_to_string, stoi}
use streaming_platform.Protocol.Codec.{is_empty}
use streaming_platform.Config.{BrokerConfig, BrokerType, ClusterPeer, leader, follower}

unfoldable pub parse_role : Bytes → BrokerType
parse_role role = if role == codes "leader" then leader else follower

-- std::getline on what is left of a stream: the text before the mark, and what is behind it.
-- `none` is a stream at its end.
unfoldable pub split_at : ℕ → Bytes → Bytes × Bytes
split_at mark [] = ([], [])
split_at mark (c ∷ s) =
    let (line, rest) = split_at mark s in if nat_eq c mark then ([], s) else (c ∷ line, rest)

unfoldable pub getline : ℕ → Bytes → Option (Bytes × Bytes)
getline mark [] = none
getline mark (c ∷ s) = some (split_at mark (c ∷ s))

abbrev pub comma : ℕ
comma = 44

-- id:host:port, with what follows a third colon ignored; `none` is an entry that is passed over.
unfoldable pub peer_fields : Bytes → Option (Bytes × Bytes × Bytes)
peer_fields entry = elim (getline colon entry) [
  | none ↦ none
  | some (id, rest) ↦ elim (getline colon rest) [
    | none ↦ none
    | some (host, rest') ↦ elim (getline colon rest') [
      | none ↦ none
      | some (port, rest'') ↦ some (id, host, port)
    ]
  ]
]

abbrev pub with_peer :
    Option ℤ → Bytes → Option ℤ → Option (List ClusterPeer) → Option (List ClusterPeer)
with_peer none host port peers = none
with_peer (some id) host none peers = none
with_peer (some id) host (some port) none = none
with_peer (some id) host (some port) (some peers) =
    some (record { broker_id = id; host = host; port = port } ∷ peers)

abbrev pub add_peer :
    Option (Bytes × Bytes × Bytes) → Option (List ClusterPeer) → Option (List ClusterPeer)
add_peer none peers = peers
add_peer (some (id, host, port)) peers = with_peer (stoi id) host (stoi port) peers

-- Each round takes a byte at least, so the length of the text is fuel enough. `none` is an exception
-- of std::stoi.
unfoldable pub parse_entries : ℕ → Bytes → Option (List ClusterPeer)
parse_entries zero s = some []
parse_entries (suc fuel) s = elim (getline comma s) [
  | none ↦ some []
  | some (entry, rest) ↦ add_peer (peer_fields entry) (parse_entries fuel rest)
]

unfoldable pub parse_peers : Bytes → Option (List ClusterPeer)
parse_peers s = parse_entries (length s) s

pub record Options : Type 0 where
  pub broker_id : ℤ
  pub port : ℤ
  pub host : Bytes
  pub role : Bytes
  pub peers_arg : Bytes
  pub data_dir : Bytes
  pub leader_id : ℤ

abbrev pub defaults : Options
defaults = record {
  broker_id = pos 0;
  port = pos 9092;
  host = codes "127.0.0.1";
  role = codes "follower";
  peers_arg = [];
  data_dir = codes "./data";
  leader_id = pos 0;
}

-- The flags that take a value.
pub data Flag : Type 0 where
  id_flag port_flag host_flag role_flag peers_flag data_dir_flag leader_id_flag : Flag

unfoldable pub flag_of : Bytes → Option Flag
flag_of arg =
    if arg == codes "--id"
    then some id_flag
    else if arg == codes "--port"
    then some port_flag
    else if arg == codes "--host"
    then some host_flag
    else if arg == codes "--role"
    then some role_flag
    else if arg == codes "--peers"
    then some peers_flag
    else if arg == codes "--data-dir"
    then some data_dir_flag
    else if arg == codes "--leader-id"
    then some leader_id_flag
    else none

abbrev pub set_number : (ℤ → Options) → Option ℤ → Option Options
set_number f none = none
set_number f (some n) = some (f n)

-- `none` is an exception of std::stoi.
unfoldable pub set_flag : Flag → Bytes → Options → Option Options
set_flag id_flag value o = set_number (λ n. record o { broker_id = n }) (stoi value)
set_flag port_flag value o = set_number (λ n. record o { port = n }) (stoi value)
set_flag host_flag value o = some (record o { host = value })
set_flag role_flag value o = some (record o { role = value })
set_flag peers_flag value o = some (record o { peers_arg = value })
set_flag data_dir_flag value o = some (record o { data_dir = value })
set_flag leader_id_flag value o = set_number (λ n. record o { leader_id = n }) (stoi value)

-- How the program goes on: --help, the exit with the usage, an exception, or a broker.
pub data Outcome : Type 0 where
  helped refused thrown : Outcome
  runs : BrokerConfig → Outcome

abbrev pub continue : Option Options → (Options → Outcome) → Outcome
continue none k = thrown
continue (some o) k = k o

-- The loop over argv, and then `k`. A flag that needs a value and stands last is passed over.
unfoldable pub parse_args : (Options → Outcome) → List Bytes → Options → Outcome
unfolding flag_of
parse_args k [] o = k o
parse_args k (arg ∷ []) o = if arg == codes "--help" then helped else k o
parse_args k (arg ∷ value ∷ rest) o = elim (flag_of arg) [
  | some flag ↦ continue (set_flag flag value o) (parse_args k rest)
  | none ↦ elim (arg == codes "--help") [ true ↦ helped | false ↦ parse_args k (value ∷ rest) o ]
]

-- data_dir + "/broker-" + std::to_string(broker_id)
abbrev pub broker_data_dir : Options → Bytes
broker_data_dir o = o.data_dir ++ (codes "/broker-" ++ int_to_string o.broker_id)

abbrev pub configure : Options → BrokerType → ℤ → Option (List ClusterPeer) → Outcome
configure o type leader_broker none = thrown
configure o type leader_broker (some peers) = runs (record {
  port = o.port;
  broker_id = o.broker_id;
  ip_address = o.host;
  peers = peers;
  data_directory = broker_data_dir o;
  type = type;
  leader_broker_id = leader_broker;
})

abbrev pub start_as : Options → BrokerType → Outcome
start_as o leader = configure o leader o.broker_id (parse_peers o.peers_arg)
start_as o follower =
    if int_ltb (pos 0) o.leader_id
    then configure o follower o.leader_id (parse_peers o.peers_arg)
    else refused

-- What follows the loop.
unfoldable pub start_broker : Options → Outcome
start_broker o = if int_ltb (pos 0) o.broker_id then start_as o (parse_role o.role) else refused

unfoldable pub run_main : List Bytes → Outcome
run_main args = parse_args start_broker args defaults
