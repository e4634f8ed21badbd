-- ===== src/Broker/Consumer.antt =====
-- A member of a consumer group that fetches and commits, one message after the other.
use streaming_platform.Prelude.{
  ℕ, suc, zero, ◌+◌, ◌^◌, ◌<◌, ◌≡◌, refl, ap, ◌∙◌, true, false, some, List, [], ◌∷◌, arith, length,
  is_negative, int_eq, int_eq_iff, int_Key,
}
use streaming_platform.Text.{Bytes}
use streaming_platform.Protocol.Message.{Request}
use streaming_platform.Protocol.Codec.{is_empty}
use streaming_platform.Groups
use streaming_platform.Groups.{Groups}
use streaming_platform.Groups.Offsets.{next_offset-commit, commit-is_assigned, is_assigned-commit}
use streaming_platform.Storage.Engine
use streaming_platform.Storage.Engine.{Engine}
use streaming_platform.Replication.{Manager, is_committed}
use streaming_platform.Broker.{
  Broker, Network, is_leader, no_group, handle_group_fetch, handle_fetch, handle_commit_offset,
  fetched, success,
}

-- The client: it fetches, and commits the offset of the answer, as often as it is told to.
unfoldable pub consume_all : ℕ → Network → Request → Broker → Broker × List Bytes
consume_all zero net r b = (b, [])
consume_all (suc n) net r b =
    let answer = handle_group_fetch net r b in
    let (b', done) =
      handle_commit_offset net (record r { fetch_offset = answer.appended_offset }) b in
    let (b'', messages) = consume_all n net r b' in (b'', answer.message ∷ messages)

-- From an offset on, the broker has these committed messages, none of them empty.
abbrev pub Offers : Request → ℕ → List Bytes → Engine → Manager → Type 0
Offers r s [] e m = Unit {0}
Offers r s (x ∷ xs) e m =
    (is_committed r.topic r.partition s m ≡ true)
    × (Engine.fetch r.topic r.partition s e ≡ some x)
    × (is_empty x ≡ false)
    × Offers r (s + 1) xs e m

-- The member's request names a group, itself and a partition that is assigned to it.
pub record IsMember (r : Request) (gs : Groups) : Type 0 where
  pub named : no_group r ≡ false
  pub placed : is_negative r.partition ≡ false
  pub assigned : Groups.is_assigned r.group_id r.member_id r.topic r.partition gs ≡ true

abbrev pub next_of : Request → Groups → ℕ
next_of r gs = Groups.next_offset r.group_id r.topic r.partition gs

topic_named : (r : Request) → no_group r ≡ false → is_empty r.topic ≡ false
topic_named r h = ground (arith, h)

fetch-next :
    (net : Network) (r : Request) (b : Broker) (s : ℕ) (x : Bytes)
    → is_leader b ≡ true
    → IsMember r b.groups
    → next_of r b.groups ≡ s
    → is_committed r.topic r.partition s b.replication ≡ true
    → Engine.fetch r.topic r.partition s b.storage ≡ some x
    → is_empty x ≡ false
    → handle_group_fetch net r b ≡ success x s
unfolding handle_group_fetch handle_fetch
fetch-next net r b s x leads h at_s committed stored filled =
    rw
      (
        leads,
        h.named,
        h.placed,
        h.assigned,
        topic_named r h.named,
        at_s,
        committed,
        stored,
        fetched,
        filled,
      )
      (ap (λ k. success x k) at_s)

abbrev committed_groups : Request → ℕ → Groups → Groups
committed_groups r s gs = (Groups.commit r.group_id r.member_id r.topic r.partition s gs).0

commit-next :
    (net : Network) (r : Request) (b : Broker) (s : ℕ)
    → is_leader b ≡ true
    → IsMember r b.groups
    → handle_commit_offset net (record r { fetch_offset = s }) b
      ≡ (record b { groups = committed_groups r s b.groups }, success [] s)
unfolding handle_commit_offset
commit-next net r b s leads h = rw (leads, h.named, h.placed, commit-is_assigned, h.assigned) refl

next-moves :
    (r : Request) (gs : Groups) (s : ℕ)
    → IsMember r gs
    → next_of r gs ≡ s
    → s + 1 < 2 ^ 64
    → next_of r (committed_groups r s gs) ≡ s + 1
next-moves r gs s h at_s small =
    let own : int_eq r.partition r.partition ≡ true = (int_eq_iff r.partition r.partition).1 refl in
    next_offset-commit r.group_id r.member_id r.topic r.partition r.partition s gs
    ∙ rw (h.assigned, own, at_s) (omega arith)

stays-IsMember :
    (r : Request) (gs : Groups) (s : ℕ) → IsMember r gs → IsMember r (committed_groups r s gs)
stays-IsMember r gs s h = record {
  named = h.named;
  placed = h.placed;
  assigned = is_assigned-commit r.group_id r.member_id r.topic r.partition s gs ∙ h.assigned;
}

consume_all-step :
    (net : Network) (r : Request) (b : Broker) (n : ℕ) (x : Bytes)
    → is_leader b ≡ true
    → IsMember r b.groups
    → is_committed r.topic r.partition (next_of r b.groups) b.replication ≡ true
    → Engine.fetch r.topic r.partition (next_of r b.groups) b.storage ≡ some x
    → is_empty x ≡ false
    → let rest =
        consume_all n net r
          (record b { groups = committed_groups r (next_of r b.groups) b.groups }) in
      consume_all (suc n) net r b ≡ (rest.0, x ∷ rest.1)
unfolding consume_all
consume_all-step net r b n x leads h committed stored filled =
    rw
      (
        fetch-next net r b (next_of r b.groups) x leads h refl committed stored filled,
        commit-next net r b (next_of r b.groups) leads h,
      )
      refl

-- A member of a group on a leader, to whom the partition is assigned: from the group's next offset on,
-- the broker has committed messages, none of them empty, and offsets stay below 2^64. When the member
-- fetches and commits as often as there are such messages, it gets exactly them, each once and in
-- order, and the group's next offset is behind them.
pub consume_all-Offers :
    (net : Network) (r : Request) (b : Broker) (messages : List Bytes)
    → is_leader b ≡ true
    → IsMember r b.groups
    → Offers r (next_of r b.groups) messages b.storage b.replication
    → next_of r b.groups + length messages < 2 ^ 64
    → ((consume_all (length messages) net r b).1 ≡ messages)
      × (next_of r (consume_all (length messages) net r b).0.groups
          ≡ next_of r b.groups + length messages)
unfolding consume_all
consume_all-Offers net r b [] leads h offers small = (refl, omega arith)
consume_all-Offers net r b (x ∷ xs) leads h offers small =
    let s = next_of r b.groups in
    let b' = record b { groups = committed_groups r s b.groups } in
    let moved = next-moves r b.groups s h refl (omega arith) in
    let rest =
      consume_all-Offers net r b' xs leads (stays-IsMember r b.groups s h) (rw moved offers.3)
        (rw moved (omega arith)) in
    let one = consume_all-step net r b (length xs) x leads h offers.0 offers.1 offers.2 in
    (
      ap (λ (y : Broker × List Bytes). y.1) one ∙ ap (λ ys. x ∷ ys) rest.0,
      ap (λ (y : Broker × List Bytes). next_of r y.0.groups) one ∙ rest.1 ∙ omega (arith, moved),
    )
