-- ===== src/Broker/ConsumerExamples.antt =====
-- A group with one member, and a log with one committed message.
use streaming_platform.Prelude.{
  ◌+◌, ◌≡◌, ◌∙◌, refl, sym, ap, some, [], ◌∷◌, arith, pos, lookup, list_Key,
}
use streaming_platform.Text.{codes}
use streaming_platform.Groups.{Groups, is_assigned, next_offset}
use streaming_platform.Protocol.Message.{Request, blank, group_fetch}
use streaming_platform.Replication.{new_manager, mark_committed}
use streaming_platform.Storage.Engine
use streaming_platform.Storage.Engine.Contents.{append-offset, fetch-append}
use streaming_platform.Storage.Examples.{fresh, fresh-IsEngine}
use streaming_platform.Broker.{Broker}
use streaming_platform.Broker.Examples.{no_network, alone}
use streaming_platform.Broker.Produce.{mark_committed-is_committed}
use streaming_platform.Broker.Consumer.{consume_all, IsMember, next_of, consume_all-Offers}

abbrev groups : Groups
groups =
    (
      codes "g",
      record {
        topic = codes "t";
        members = codes "c" ∷ [];
        assignments = (codes "c", pos 0 ∷ []) ∷ [];
        offsets = [];
      },
    )
    ∷ []

abbrev broker : Broker
broker = record {
  storage = (Engine.append (codes "t") (pos 0) (codes "m") fresh).0;
  replication = mark_committed (codes "t") (pos 0) 0 (new_manager alone 0);
  groups = groups;
}

abbrev member : Request
member = record (blank group_fetch) {
  topic = codes "t";
  partition = pos 0;
  group_id = codes "g";
  member_id = codes "c";
}

member-IsMember : IsMember member groups
unfolding is_assigned lookup
member-IsMember = record { named = refl; placed = refl; assigned = refl }

stored : Engine.fetch (codes "t") (pos 0) 0 broker.storage ≡ some (codes "m")
stored =
    ap (λ k. Engine.fetch (codes "t") (pos 0) k broker.storage)
      (sym (append-offset (codes "t") (pos 0) (codes "m") fresh (λ key. []) fresh-IsEngine))
    ∙ fetch-append (codes "t") (pos 0) (codes "m") fresh (λ key. []) (omega arith) fresh-IsEngine

consume_all-Offers_example :
    ((consume_all 1 no_network member broker).1 ≡ codes "m" ∷ [])
    × (next_of member (consume_all 1 no_network member broker).0.groups ≡ next_of member groups + 1)
unfolding mark_committed new_manager streaming_platform.Config.is_leader next_offset lookup
consume_all-Offers_example =
    consume_all-Offers no_network member broker (codes "m" ∷ []) refl member-IsMember
      (mark_committed-is_committed (codes "t") (pos 0) 0 (new_manager alone 0), stored, refl, tt)
      (omega arith)
