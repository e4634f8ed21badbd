-- ===== src/Broker/Membership.antt =====
-- src/core/broker.cpp: the handlers of consumer groups.
use streaming_platform.Prelude.{
  Bool, not, ◌||◌, List, [], ◌∷◌, ◌++◌, if◌then◌else◌, ℤ, is_negative, int_Key,
}
use streaming_platform.Text.{Bytes, codes, int_to_string}
use streaming_platform.Protocol.Message
use streaming_platform.Protocol.Message.{Request, Response, RequestType, no_offset}
use streaming_platform.Protocol.Codec.{is_empty}
use streaming_platform.Groups
use streaming_platform.Groups.{Groups}
use streaming_platform.Broker.State.{
  Broker, Network, success, refuse, forward_to_leader, is_leader, topic_partitions, handle_fetch,
}

unfoldable pub join_numbers : List ℤ → Bytes
join_numbers [] = []
join_numbers (p ∷ ps) = codes "," ++ (int_to_string p ++ join_numbers ps)

unfoldable pub format_partitions : List ℤ → Bytes
unfolding join_numbers
format_partitions [] = []
format_partitions (p ∷ ps) = int_to_string p ++ join_numbers ps

abbrev pub no_group : Request → Bool
no_group r = is_empty r.group_id || (is_empty r.member_id || is_empty r.topic)

unfoldable pub handle_join_group : Network → Request → Broker → Broker × Response
handle_join_group net r b =
    let partitions = topic_partitions r.topic b in
    let (groups, assigned) = Groups.join r.group_id r.member_id r.topic partitions b.groups in
    if not (is_leader b)
    then (b, forward_to_leader net r b)
    else if no_group r
    then (b, refuse (codes "invalid_group_request"))
    else if is_empty partitions
    then (b, refuse (codes "topic_not_found"))
    else (
      record b { groups = groups },
      success (codes "assignment:" ++ format_partitions assigned) 0,
    )

unfoldable pub handle_leave_group : Network → Request → Broker → Broker × Response
handle_leave_group net r b =
    if not (is_leader b)
    then (b, forward_to_leader net r b)
    else if no_group r
    then (b, refuse (codes "invalid_group_request"))
    else (
      record b {
        groups = Groups.leave r.group_id r.member_id (topic_partitions r.topic b) b.groups;
      },
      success [] 0,
    )

unfoldable pub assigned_partitions : Request → Groups → List ℤ → List ℤ
assigned_partitions r gs [] = []
assigned_partitions r gs (p ∷ ps) =
    let rest = assigned_partitions r gs ps in
    if Groups.is_assigned r.group_id r.member_id r.topic p gs then p ∷ rest else rest

unfoldable pub handle_group_assignment : Network → Request → Broker → Response
handle_group_assignment net r b =
    if not (is_leader b)
    then forward_to_leader net r b
    else if no_group r
    then refuse (codes "invalid_group_request")
    else success
        (codes "assignment:"
          ++ format_partitions (assigned_partitions r b.groups (topic_partitions r.topic b)))
        0

unfoldable pub handle_group_fetch : Network → Request → Broker → Response
handle_group_fetch net r b =
    if not (is_leader b)
    then forward_to_leader net r b
    else if no_group r || is_negative r.partition
    then refuse (codes "invalid_group_request")
    else if not (Groups.is_assigned r.group_id r.member_id r.topic r.partition b.groups)
    then refuse (codes "partition_not_assigned")
    else handle_fetch
        (record r {
          type = Message.fetch;
          fetch_offset = Groups.next_offset r.group_id r.topic r.partition b.groups;
        })
        b

unfoldable pub handle_commit_offset : Network → Request → Broker → Broker × Response
handle_commit_offset net r b =
    let (groups, done) =
      Groups.commit r.group_id r.member_id r.topic r.partition r.fetch_offset b.groups in
    if not (is_leader b)
    then (b, forward_to_leader net r b)
    else if no_group r || is_negative r.partition
    then (b, refuse (codes "invalid_group_request"))
    else if not done
    then (record b { groups = groups }, refuse (codes "partition_not_assigned"))
    else (record b { groups = groups }, success [] r.fetch_offset)
