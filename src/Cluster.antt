-- ===== src/Cluster.antt =====
-- A leader and the servers of its followers: what src/core/broker.cpp, src/network/tcp_server.cpp and
-- src/replication/replication_manager.cpp do together. A follower is the broker behind an id, as it
-- is when the leader's request reaches it; a request or an answer may be lost on the way.
pub mod Answers
pub mod Majority
mod Examples
pub mod Progress
pub mod Lines
use streaming_platform.Prelude.{ℕ, Option, none, some, List, [], ◌∷◌, ℤ}
use streaming_platform.Text.{Bytes}
use streaming_platform.Broker.{Broker, Network}
use streaming_platform.Server.{handle_client}
use streaming_platform.Server.Replicas.{first_frame}

-- What a leader reads from the server of a broker for a payload that it sends there: nothing, or the
-- first frame that the server writes.
pub data Answer (net : Network) (now : ℕ) (payload : Bytes) (f : Broker)
    : Option Bytes → Type 0 where
  lost : Answer net now payload f none
  read : Answer net now payload f (first_frame (handle_client net ((now, payload) ∷ []) (some f)).1)

-- Where the leader's request finds a follower.
pub record Site : Type 0 where
  pub broker : Broker
  pub network : Network
  pub now : ℕ
