-- ===== src/Main/Examples.antt =====
-- A command line that starts a follower, and the theorem at it.
use streaming_platform.Prelude.{◌≡◌, refl, some, All, List, [], ◌∷◌, pos, arith}
use streaming_platform.Text.{Bytes, codes, stoi, int_to_string}
use streaming_platform.Config.{BrokerConfig, follower}
use streaming_platform.Main.{
  run_main, runs, parse_args, set_flag, start_broker, parse_role, parse_peers, parse_entries,
  getline, peer_fields, split_at,
}
use streaming_platform.Main.Peers.{IsPlain, show_peers, parse_peers-show_peers}
use streaming_platform.Main.Start.{IsUsable, run_main-IsUsable}

abbrev arguments : List Bytes
arguments =
    codes "--id"
    ∷ codes "2"
    ∷ codes "--leader-id"
    ∷ codes "1"
    ∷ codes "--peers"
    ∷ codes "1:a:9092,bad,3:b:9094"
    ∷ codes "--port"
    ∷ []

abbrev config : BrokerConfig
config = record {
  port = pos 9092;
  broker_id = pos 2;
  ip_address = codes "127.0.0.1";
  peers =
      record { broker_id = pos 1; host = codes "a"; port = pos 9092 }
      ∷ record { broker_id = pos 3; host = codes "b"; port = pos 9094 }
      ∷ [];
  data_directory = codes "./data/broker-2";
  type = follower;
  leader_broker_id = pos 1;
}

arguments-run : run_main arguments ≡ runs config
unfolding run_main parse_args set_flag stoi start_broker parse_role parse_peers parse_entries
    getline peer_fields split_at int_to_string
arguments-run = refl

run_main-IsUsable_example : IsUsable config
run_main-IsUsable_example = run_main-IsUsable arguments config arguments-run

config-IsPlain : All IsPlain config.peers
config-IsPlain = (
  record {
    id = 1;
    id_eq = refl;
    id_small = omega arith;
    port = 9092;
    port_eq = refl;
    port_small = omega arith;
    host_colon = (refl, tt);
    host_comma = (refl, tt);
  },
  (
    record {
      id = 3;
      id_eq = refl;
      id_small = omega arith;
      port = 9094;
      port_eq = refl;
      port_small = omega arith;
      host_colon = (refl, tt);
      host_comma = (refl, tt);
    },
    tt,
  ),
)

parse_peers-show_peers_example : parse_peers (show_peers config.peers) ≡ some config.peers
parse_peers-show_peers_example = parse_peers-show_peers config.peers config-IsPlain
