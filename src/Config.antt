-- ===== src/Config.antt =====
-- src/config/broker_config.cpp and include/config/broker_config.h. The two atomics are fields.
use streaming_platform.Prelude.{
  Bool, true, false, Option, none, some, List, [], ◌∷◌, if◌then◌else◌, ◌==◌, ℤ, int_Key,
}
use streaming_platform.Text.{Bytes}

pub data BrokerType : Type 0 where
  leader follower : BrokerType

pub record ClusterPeer : Type 0 where
  pub broker_id : ℤ
  pub host : Bytes
  pub port : ℤ

pub record LeaderEndpoint : Type 0 where
  pub broker_id : ℤ
  pub host : Bytes
  pub port : ℤ

pub record BrokerConfig : Type 0 where
  pub port : ℤ
  pub broker_id : ℤ
  pub ip_address : Bytes
  pub peers : List ClusterPeer
  pub data_directory : Bytes
  pub type : BrokerType
  pub leader_broker_id : ℤ

unfoldable pub is_leader : BrokerConfig → Bool
is_leader c = elim c.type [ leader ↦ true | follower ↦ false ]

unfoldable pub peer_endpoint : ℤ → List ClusterPeer → Option LeaderEndpoint
peer_endpoint id [] = none
peer_endpoint id (p ∷ ps) =
    if p.broker_id == id
    then some (record { broker_id = p.broker_id; host = p.host; port = p.port })
    else peer_endpoint id ps

-- `none` is the result false.
unfoldable pub get_leader_endpoint : BrokerConfig → Option LeaderEndpoint
unfolding peer_endpoint
get_leader_endpoint c =
    if c.leader_broker_id == c.broker_id
    then some (record { broker_id = c.broker_id; host = c.ip_address; port = c.port })
    else peer_endpoint c.leader_broker_id c.peers

unfoldable pub set_leader : ℤ → BrokerConfig → BrokerConfig
set_leader id c = record c {
  leader_broker_id = id;
  type = if id == c.broker_id then leader else follower;
}

unfoldable pub promote_to_leader : BrokerConfig → BrokerConfig
unfolding set_leader
promote_to_leader c = set_leader c.broker_id c
