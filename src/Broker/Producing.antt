-- ===== src/Broker/Producing.antt =====
-- src/core/broker.cpp: the handlers of produce requests and of batches.
use streaming_platform.Prelude.{
  ℕ, true, not, ◌||◌, List, [], ◌∷◌, if◌then◌else◌, ℤ, is_negative, int_Key,
}
use streaming_platform.Text.{Bytes, codes}
use streaming_platform.Protocol.Message.{Request, Response}
use streaming_platform.Protocol.Codec.{is_empty}
use streaming_platform.Groups
use streaming_platform.Groups.{Groups}
use streaming_platform.Storage.Engine
use streaming_platform.Storage.Engine.{Engine}
use streaming_platform.Replication
use streaming_platform.Replication.{Manager}
use streaming_platform.Replication.Exchange
use streaming_platform.Broker.State.{
  Broker, Network, failure, success, refuse, forward_to_leader, is_leader, topic_partitions,
}

-- groups_.refresh_topic(topic, topic_partitions(topic)), after an append
abbrev pub refreshed : Bytes → Broker → Broker
refreshed topic b = record b {
  groups = Groups.refresh_topic topic (topic_partitions topic b) b.groups;
}

-- What follows the append of one record: replication, the quorum, the commit.
unfoldable pub settle : Network → Request → ℕ → Broker → Broker × Response
settle net r offset b =
    let (m, replicated) =
      Exchange.replicate_message net.reply net.clock r.topic r.partition offset r.message
        b.replication in
    let committed =
      Exchange.broadcast_commit net.sent net.clock r.topic r.partition offset
        (Replication.mark_committed r.topic r.partition offset m) in
    if not replicated
    then (record b { replication = m }, failure (codes "replication_failed") offset)
    else if not (Replication.wait_for_quorum r.topic r.partition offset [] m)
    then (record b { replication = m }, failure (codes "quorum_timeout") offset)
    else (record b { replication = committed }, success [] offset)

unfoldable pub handle_produce : Network → Request → Broker → Broker × Response
handle_produce net r b =
    let (storage, offset) = Engine.append r.topic r.partition r.message b.storage in
    if not (is_leader b)
    then (b, forward_to_leader net r b)
    else if is_empty r.topic
    then (b, refuse (codes "empty_topic"))
    else if is_negative r.partition
    then (b, refuse (codes "invalid_partition"))
    else if is_empty r.message
    then (b, refuse (codes "empty_message"))
    else settle net r offset (refreshed r.topic (record b { storage = storage }))

unfoldable pub append_all : Bytes → ℤ → List Bytes → Engine → Engine × List ℕ
append_all topic partition [] e = (e, [])
append_all topic partition (m ∷ ms) e =
    let (e', offset) = Engine.append topic partition m e in
    let (e'', offsets) = append_all topic partition ms e' in (e'', offset ∷ offsets)

abbrev pub last_or : ℕ → List ℕ → ℕ
last_or d [] = d
last_or d (x ∷ xs) = last_or x xs

-- for (offset : result.appended_offsets) mark_committed, broadcast_commit
unfoldable pub commit_all : Network → Bytes → ℤ → List ℕ → Manager → Manager
commit_all net topic partition [] m = m
commit_all net topic partition (offset ∷ offsets) m = commit_all net topic partition offsets (
    Exchange.broadcast_commit net.sent net.clock topic partition offset
      (Replication.mark_committed topic partition offset m))

abbrev pub head_or : ℕ → List ℕ → ℕ
head_or d [] = d
head_or d (x ∷ xs) = x

unfoldable pub settle_batch : Network → Request → List ℕ → Broker → Broker × Response
settle_batch net r offsets b =
    let last = last_or 0 offsets in
    let (m, replicated) =
      Exchange.replicate_batch net.reply r.topic r.partition (head_or 0 offsets) r.messages
        b.replication in
    if not replicated || not (Replication.wait_for_quorum r.topic r.partition last [] m)
    then (record b { replication = m }, failure (codes "quorum_timeout") last)
    else (
      record b { replication = commit_all net r.topic r.partition offsets m },
      record { success = true; message = []; appended_offset = last; appended_offsets = offsets },
    )

unfoldable pub handle_batch_produce : Network → Request → Broker → Broker × Response
handle_batch_produce net r b =
    let (storage, offsets) = append_all r.topic r.partition r.messages b.storage in
    if is_empty r.messages
    then (b, refuse (codes "empty_batch"))
    else if not (is_leader b)
    then (b, forward_to_leader net r b)
    else if is_empty r.topic || is_negative r.partition
    then (b, refuse (codes "invalid_batch"))
    else settle_batch net r offsets (refreshed r.topic (record b { storage = storage }))
