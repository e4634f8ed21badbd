-- ===== src/Cluster/Examples.antt =====
-- A leader of three brokers, of which one follower answers and the other is not reached.
use streaming_platform.Prelude.{
  ◌*◌, ◌<◌, ◌≡◌, refl, sym, ap, Bool, true, Option, none, List, [], ◌∷◌, arith, length, ℤ, pos,
  int_Key, ◌==◌, if◌then◌else◌, All, lookup, some, list_Key,
}
use streaming_platform.Text.{Bytes, codes}
use streaming_platform.Config.{BrokerConfig, ClusterPeer, follower}
use streaming_platform.Protocol.Message.{Response}
use streaming_platform.Groups.{contains}
use streaming_platform.Groups.Ownership.{Distinct}
use streaming_platform.Storage.Examples.{fresh, fresh-IsEngine}
use streaming_platform.Storage.Engine.Contents.{append-offset}
use streaming_platform.Replication.{new_manager}
use streaming_platform.Broker.{Broker, Network, handle_produce, success}
use streaming_platform.Broker.Examples.{no_network, alone, broker, request}
use streaming_platform.Server.{handle_client}
use streaming_platform.Server.Replicas.{first_frame}
use streaming_platform.Cluster.{Site, lost, read}
use streaming_platform.Cluster.Answers.{IsFollower, FitsRecord}
use streaming_platform.Cluster.Majority.{offset_of, Copy, IsPeer, handle_produce-majority}
use streaming_platform.Cluster.Progress.{IsReached, handle_produce-success}

abbrev trio : BrokerConfig
trio = record alone {
  peers =
      record { broker_id = pos 2; host = codes "b"; port = pos 9093 }
      ∷ record { broker_id = pos 3; host = codes "c"; port = pos 9094 }
      ∷ [];
}

abbrev leader_broker : Broker
leader_broker = record broker { replication = new_manager trio 0 }

-- The follower with an id
abbrev cluster : ℤ → Site
cluster id = record {
  broker = record broker {
    replication = new_manager (record trio { broker_id = id; type = follower }) 0;
  };
  network = no_network;
  now = 7;
}

abbrev reaches_two : ClusterPeer → Bytes → Option Bytes
reaches_two peer payload =
    let id = peer.broker_id in
    if id == pos 2
    then first_frame
        (handle_client (cluster id).network (((cluster id).now, payload) ∷ [])
          (some (cluster id).broker)).1
    else none

abbrev net : Network
net = record no_network { reply = reaches_two }

offset_zero : offset_of request leader_broker ≡ 0
offset_zero =
    append-offset request.topic request.partition request.message fresh (λ key. []) fresh-IsEngine

request-FitsRecord :
    FitsRecord request.topic request.partition (offset_of request leader_broker) request.message
request-FitsRecord = record {
  request = record {
    topic = omega arith;
    partition = omega arith;
    message = omega arith;
    fetch_offset = omega (arith, offset_zero);
    broker_id = omega arith;
    group_id = omega arith;
    member_id = omega arith;
    messages = omega arith;
  };
  small = omega arith;
}

two-IsFollower : IsFollower (pos 2) (cluster (pos 2)).broker
unfolding new_manager
two-IsFollower = record {
  named = refl;
  small = omega arith;
  spec = λ key. [];
  holds = fresh-IsEngine;
}

three-IsFollower : IsFollower (pos 3) (cluster (pos 3)).broker
unfolding new_manager
three-IsFollower = record {
  named = refl;
  small = omega arith;
  spec = λ key. [];
  holds = fresh-IsEngine;
}

peers-IsPeer : All (IsPeer net request leader_broker cluster) trio.peers
peers-IsPeer = (
  record { follower = two-IsFollower; answer = read },
  (record { follower = three-IsFollower; answer = lost }, tt),
)

abbrev part : ℤ → Bool
part id = id == pos 2

peers-IsReached : All (IsReached part net request leader_broker cluster) trio.peers
unfolding new_manager streaming_platform.Config.is_leader
peers-IsReached = (
  record {
    server = peers-IsPeer.0;
    standing = record { live = λ e. refl; apart = refl };
    does = λ e. record {
      level = record {
        follower = record {
          named = refl;
          small = omega arith;
          spec = λ key. [];
          holds = fresh-IsEngine;
        };
        follows = refl;
        level = sym offset_zero;
      };
      answer = refl;
    };
  },
  (
    record {
      server = peers-IsPeer.1.0;
      standing = record { live = λ e. cc; apart = refl };
      does = λ e. absurd cc;
    },
    tt,
  ),
)

handle_produce-success_example :
    (handle_produce net request leader_broker).1 ≡ success [] (offset_of request leader_broker)
unfolding new_manager streaming_platform.Config.is_leader lookup
handle_produce-success_example =
    handle_produce-success part net request leader_broker cluster refl
      (record { named = refl; placed = refl; filled = refl }) request-FitsRecord refl
      (refl, (refl, tt)) peers-IsReached (omega arith)

answered : (handle_produce net request leader_broker).1.success ≡ true
unfolding new_manager streaming_platform.Config.is_leader lookup
answered =
    ap (λ (x : Response). x.success)
      (handle_produce-success part net request leader_broker cluster refl
        (record { named = refl; placed = refl; filled = refl }) request-FitsRecord refl
        (refl, (refl, tt)) peers-IsReached (omega arith))

handle_produce-majority_example :
    (ids : List ℤ) × Distinct ids
    × (3 < 2 * length ids)
    × ((id : ℤ) → contains id ids ≡ true → Copy net request leader_broker cluster id)
unfolding new_manager streaming_platform.Config.is_leader
handle_produce-majority_example =
    handle_produce-majority net request leader_broker cluster (λ key. []) refl fresh-IsEngine
      request-FitsRecord peers-IsPeer answered
