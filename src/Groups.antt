-- ===== src/Groups.antt =====
-- src/core/consumer_group_manager.cpp and include/core/consumer_group_manager.h.
-- The mutex makes each operation one step, so an operation is a function of the state.
-- A `std::set<std::string>` is its sorted list; the maps are association lists.
pub mod Members
pub mod Rebalance
pub mod Ownership
pub mod History
pub mod Offsets
mod Examples
use streaming_platform.Prelude.{
  ℕ, zero, suc, ◌+◌, ◌%◌, ◌^◌, Bool, true, false, not, ◌&&◌, ◌||◌, Option, none, some, List, [],
  ◌∷◌, ◌++◌, map, max, if◌then◌else◌, ◌==◌, length, get_elem?, ℤ, int_ltb, int_Key, list_Key, Assoc,
  lookup, insert, erase,
}
use streaming_platform.Text.{Bytes, str_ltb}
use streaming_platform.Protocol.Codec.{is_empty}

pub record Group : Type 0 where
  pub topic : Bytes
  pub members : List Bytes
  pub assignments : Assoc Bytes (List ℤ)
  pub offsets : Assoc ℤ ℕ

abbrev pub Groups : Type 0
Groups = Assoc Bytes Group

-- A group that `groups_[name]` makes.
abbrev pub new_group : Group
new_group = record { topic = []; members = []; assignments = []; offsets = [] }

-- members.insert(member)
unfoldable pub set_insert : Bytes → List Bytes → List Bytes
set_insert x [] = x ∷ []
set_insert x (y ∷ ys) =
    if x == y then y ∷ ys else if str_ltb x y then x ∷ y ∷ ys else y ∷ set_insert x ys

-- members.erase(member)
unfoldable pub set_erase : Bytes → List Bytes → List Bytes
set_erase x [] = []
set_erase x (y ∷ ys) = if x == y then ys else y ∷ set_erase x ys

unfoldable pub insert_sorted : ℤ → List ℤ → List ℤ
insert_sorted p [] = p ∷ []
insert_sorted p (q ∷ qs) = if int_ltb q p then q ∷ insert_sorted p qs else p ∷ q ∷ qs

-- std::sort of partition numbers
unfoldable pub sort : List ℤ → List ℤ
unfolding insert_sorted
sort [] = []
sort (p ∷ ps) = insert_sorted p (sort ps)

abbrev pub or_empty {ℓ} : {A : Type ℓ} → Option (List A) → List A
or_empty none = []
or_empty (some xs) = xs

-- group.assignments[member].push_back(partition)
unfoldable pub push_to : Bytes → ℤ → Assoc Bytes (List ℤ) → Assoc Bytes (List ℤ)
push_to member p a = insert member (or_empty (lookup member a) ++ p ∷ []) a

-- for (member : group.members) group.assignments[member] = {}
unfoldable pub clear_all : List Bytes → Assoc Bytes (List ℤ) → Assoc Bytes (List ℤ)
clear_all [] a = a
clear_all (m ∷ ms) a = clear_all ms (insert m [] a)

-- The member at `index % members.size()` gets the partition; there is one, as members is not empty.
abbrev pub give : Option Bytes → ℤ → Assoc Bytes (List ℤ) → Assoc Bytes (List ℤ)
give none p a = a
give (some member) p a = push_to member p a

unfoldable pub deal : List Bytes → ℕ → List ℤ → Assoc Bytes (List ℤ) → Assoc Bytes (List ℤ)
deal members index [] a = a
deal members index (p ∷ ps) a =
    deal members (index + 1) ps (give (get_elem? members (index % length members)) p a)

unfoldable pub assign : List Bytes → List ℤ → Assoc Bytes (List ℤ)
assign members partitions =
    let cleared = clear_all members [] in
    if is_empty members then cleared else deal members 0 (sort partitions) cleared

unfoldable pub rebalance : Group → List ℤ → Group
rebalance g partitions = record g { assignments = assign g.members partitions }

abbrev pub find_group : Bytes → Groups → Group
find_group name gs = elim (lookup name gs) [ none ↦ new_group | some g ↦ g ]

abbrev pub with_topic : Bytes → Group → Group
with_topic topic g = if is_empty g.topic then record g { topic = topic } else g

-- `groups_[group_name]` adds the group also where the topic then differs.
unfoldable pub join : Bytes → Bytes → Bytes → List ℤ → Groups → Groups × List ℤ
join name member topic partitions gs =
    let g = with_topic topic (find_group name gs) in
    let g' = rebalance (record g { members = set_insert member g.members }) partitions in
    if not (g.topic == topic)
    then (insert name g gs, [])
    else (insert name g' gs, or_empty (lookup member g'.assignments))

abbrev pub leave_group : Bytes → Bytes → List ℤ → Groups → Group → Groups
leave_group name member partitions gs g =
    let left = set_erase member g.members in
    if is_empty left
    then erase name gs
    else insert name (rebalance (record g { members = left }) partitions) gs

unfoldable pub leave : Bytes → Bytes → List ℤ → Groups → Groups
leave name member partitions gs = elim (lookup name gs) [
  | none ↦ gs
  | some g ↦ leave_group name member partitions gs g
]

abbrev pub contains : ℤ → List ℤ → Bool
contains p [] = false
contains p (q ∷ qs) = q == p || contains p qs

abbrev pub owns : Option (List ℤ) → ℤ → Bool
owns none p = false
owns (some ps) p = contains p ps

-- groups_.find(group_name), and `group->second.topic != topic`
abbrev pub subscribed : Bytes → Groups → Bytes → Option Group
subscribed name gs topic = elim (lookup name gs) [
  | none ↦ none
  | some g ↦ if g.topic == topic then some g else none
]

abbrev pub assigned_in : Option Group → Bytes → ℤ → Bool
assigned_in none member p = false
assigned_in (some g) member p = owns (lookup member g.assignments) p

unfoldable pub is_assigned : Bytes → Bytes → Bytes → ℤ → Groups → Bool
is_assigned name member topic p gs = assigned_in (subscribed name gs topic) member p

abbrev pub or_zero : Option ℕ → ℕ
or_zero none = 0
or_zero (some n) = n

abbrev pub offset_in : Option Group → ℤ → ℕ
offset_in none p = 0
offset_in (some g) p = or_zero (lookup p g.offsets)

unfoldable pub next_offset : Bytes → Bytes → ℤ → Groups → ℕ
next_offset name topic p gs = offset_in (subscribed name gs topic) p

-- next = std::max(next, offset + 1), where `offset + 1` wraps at 64 bits
abbrev pub advance : ℤ → ℕ → Group → Group
advance p offset g = record g {
  offsets = insert p (max (or_zero (lookup p g.offsets)) ((offset + 1) % 2 ^ 64)) g.offsets;
}

abbrev pub commit_in : Option Group → Bytes → Bytes → ℤ → ℕ → Groups → Groups × Bool
commit_in none name member p offset gs = (gs, false)
commit_in (some g) name member p offset gs =
    if owns (lookup member g.assignments) p
    then (insert name (advance p offset g) gs, true)
    else (gs, false)

unfoldable pub commit : Bytes → Bytes → Bytes → ℤ → ℕ → Groups → Groups × Bool
commit name member topic p offset gs = commit_in (subscribed name gs topic) name member p offset gs

unfoldable pub refresh_topic : Bytes → List ℤ → Groups → Groups
refresh_topic topic partitions [] = []
refresh_topic topic partitions ((name, g) ∷ gs) =
    (name, if g.topic == topic then rebalance g partitions else g)
    ∷ refresh_topic topic partitions gs
