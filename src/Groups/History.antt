-- ===== src/Groups/History.antt =====
-- Any sequence of operations on the manager: a partition never has two members of a group.
use streaming_platform.Prelude.{
  ℕ, ◌≡◌, refl, subst, ◌∙◌, true, inl, inr, Option, none, some, List, [], ◌∷◌, All, Bool-cases,
  Option-cases, list_eq, ◌==◌, if◌then◌else◌, ℤ, lookup, insert, erase, lookup-insert, lookup-erase,
  list_Key,
}
use streaming_platform.Text.{Bytes}
use streaming_platform.Protocol.Codec.{is_empty}
use streaming_platform.Groups.{
  Group, Groups, new_group, find_group, with_topic, set_insert, set_erase, clear_all, assign,
  rebalance, join, leave, commit, commit_in, advance, refresh_topic, is_assigned, assigned_in,
  subscribed, owns,
}
use streaming_platform.Groups.Members.{IsSorted, set_insert-IsSorted, set_erase-IsSorted}
use streaming_platform.Groups.Ownership.{Distinct, owner_unique}

-- The members are a set, and the assignment is that of `rebalance` for some list of partitions.
pub record IsBalanced (g : Group) : Type 0 where
  pub sorted : IsSorted g.members
  pub partitions : List ℤ
  pub distinct : Distinct partitions
  pub assigned : g.assignments ≡ assign g.members partitions

pub record IsValid (gs : Groups) : Type 0 where
  pub at : (name : Bytes) (g : Group) → lookup name gs ≡ some g → IsBalanced g

rebalance-IsBalanced :
    (g : Group) (ps : List ℤ) → IsSorted g.members → Distinct ps → IsBalanced (rebalance g ps)
unfolding rebalance
rebalance-IsBalanced g ps s d = record {
  sorted = s;
  partitions = ps;
  distinct = d;
  assigned = refl;
}

insert-IsValid :
    (gs : Groups) (name : Bytes) (g : Group)
    → IsValid gs
    → IsBalanced g
    → IsValid (insert name g gs)
insert-IsValid gs name g v b = record {
  at = λ j h e. elim (Bool-cases (list_eq name j)) [
    | inl same ↦
        let found : some g ≡ some h = rw (lookup-insert, same) at e in
        let eq : g ≡ h = cc in subst IsBalanced eq b
    | inr other ↦ v.at j h (rw (lookup-insert, other) at e)
  ];
}

erase-IsValid : (gs : Groups) (name : Bytes) → IsValid gs → IsValid (erase name gs)
erase-IsValid gs name v = record {
  at = λ j h e. elim (Bool-cases (list_eq name j)) [
    | inl same ↦ let gone : none ≡ some h = rw (lookup-erase, same) at e in cc
    | inr other ↦ v.at j h (rw (lookup-erase, other) at e)
  ];
}

new_group-IsBalanced : IsBalanced new_group
unfolding assign clear_all
new_group-IsBalanced = record { sorted = tt; partitions = []; distinct = tt; assigned = refl }

found-IsBalanced : (name : Bytes) (gs : Groups) → IsValid gs → IsBalanced (find_group name gs)
found-IsBalanced name gs v = elim (Option-cases (lookup name gs)) [
  | inl e ↦ rw (e, find_group) new_group-IsBalanced
  | inr (g, e) ↦ rw (e, find_group) (v.at name g e)
]

with_topic-IsBalanced : (topic : Bytes) (g : Group) → IsBalanced g → IsBalanced (with_topic topic g)
with_topic-IsBalanced topic g b = elim (Bool-cases (is_empty g.topic)) [
  | inl e ↦ rw e (record {
    sorted = b.sorted;
    partitions = b.partitions;
    distinct = b.distinct;
    assigned = b.assigned;
  })
  | inr e ↦ rw e b
]

join-IsValid :
    (name member topic : Bytes) (ps : List ℤ) (gs : Groups)
    → Distinct ps
    → IsValid gs
    → IsValid (join name member topic ps gs).0
unfolding join
join-IsValid name member topic ps gs d v =
    let g = with_topic topic (find_group name gs) in
    let b : IsBalanced g =
      with_topic-IsBalanced topic (find_group name gs) (found-IsBalanced name gs v) in
    elim (Bool-cases (list_eq g.topic topic)) [
      | inl same ↦ rw same (
          insert-IsValid gs name _ v (
            rebalance-IsBalanced (record g { members = set_insert member g.members }) ps
              (set_insert-IsSorted member g.members b.sorted) d))
      | inr other ↦ rw other (insert-IsValid gs name g v b)
    ]

leave-IsValid :
    (name member : Bytes) (ps : List ℤ) (gs : Groups)
    → Distinct ps
    → IsValid gs
    → IsValid (leave name member ps gs)
unfolding leave
leave-IsValid name member ps gs d v = elim (Option-cases (lookup name gs)) [
  | inl e ↦ rw (e, leave) v
  | inr (g, e) ↦
      let left = set_erase member g.members in
      elim (Bool-cases (is_empty left)) [
        | inl last ↦ rw (e, leave, last) (erase-IsValid gs name v)
        | inr more ↦
            rw (e, leave, more)
              (insert-IsValid gs name _ v (
                rebalance-IsBalanced (record g { members = left }) ps
                  (set_erase-IsSorted member g.members (v.at name g e).sorted) d))
      ]
]

-- A group that `subscribed` finds is in the map.
subscribed-lookup :
    (name : Bytes) (gs : Groups) (topic : Bytes) (g : Group)
    → subscribed name gs topic ≡ some g
    → lookup name gs ≡ some g
subscribed-lookup name gs topic g e = elim (Option-cases (lookup name gs)) [
  | inl n ↦ let bad : none ≡ some g = rw (n, subscribed) at e in cc
  | inr (h, n) ↦ elim (Bool-cases (list_eq h.topic topic)) [
    | inl same ↦ let eq : some h ≡ some g = rw (n, subscribed, same) at e in n ∙ eq
    | inr other ↦ let bad : none ≡ some g = rw (n, subscribed, other) at e in cc
  ]
]

commit-IsValid :
    (name member topic : Bytes) (p : ℤ) (offset : ℕ) (gs : Groups)
    → IsValid gs
    → IsValid (commit name member topic p offset gs).0
unfolding commit
commit-IsValid name member topic p offset gs v = elim (Option-cases (subscribed name gs topic)) [
  | inl e ↦ rw (e, commit_in) v
  | inr (g, e) ↦
      let b = v.at name g (subscribed-lookup name gs topic g e) in
      elim (Bool-cases (owns (lookup member g.assignments) p)) [
        | inl held ↦
            rw (e, commit_in, held)
              (insert-IsValid gs name (advance p offset g) v (record {
                sorted = b.sorted;
                partitions = b.partitions;
                distinct = b.distinct;
                assigned = b.assigned;
              }))
        | inr other ↦ rw (e, commit_in, other) v
      ]
]

refreshed : Bytes → List ℤ → Option Group → Option Group
refreshed topic ps none = none
refreshed topic ps (some g) = some (if g.topic == topic then rebalance g ps else g)

lookup-refresh_topic :
    (topic : Bytes) (ps : List ℤ) (name : Bytes) (gs : Groups)
    → lookup name (refresh_topic topic ps gs) ≡ refreshed topic ps (lookup name gs)
unfolding lookup refresh_topic refreshed
lookup-refresh_topic topic ps name [] = refl
lookup-refresh_topic topic ps name ((n, g) ∷ gs) = elim (Bool-cases (list_eq n name)) [
  | inl e ↦ rw (e, lookup)
  | inr e ↦ rw (e, lookup) (lookup-refresh_topic topic ps name gs)
]

refresh_topic-IsValid :
    (topic : Bytes) (ps : List ℤ) (gs : Groups)
    → Distinct ps
    → IsValid gs
    → IsValid (refresh_topic topic ps gs)
unfolding refreshed
refresh_topic-IsValid topic ps gs d v = record {
  at = λ name h e. elim (Option-cases (lookup name gs)) [
    | inl n ↦ let bad : refreshed topic ps none ≡ some h = rw (lookup-refresh_topic, n) at e in cc
    | inr (g, n) ↦
        let found : refreshed topic ps (some g) ≡ some h = rw (lookup-refresh_topic, n) at e in
        elim (Bool-cases (list_eq g.topic topic)) [
          | inl same ↦
              let some_eq : some (rebalance g ps) ≡ some h = rw (same) at found in
              let eq : rebalance g ps ≡ h = cc in
              subst IsBalanced eq (rebalance-IsBalanced g ps (v.at name g n).sorted d)
          | inr other ↦
              let some_eq : some g ≡ some h = rw (other) at found in
              let eq : g ≡ h = cc in subst IsBalanced eq (v.at name g n)
        ]
  ];
}

-- The calls of the manager that change its state.
pub data Call : Type 0 where
  joins : (name member topic : Bytes) (partitions : List ℤ) → Call
  leaves : (name member : Bytes) (partitions : List ℤ) → Call
  commits : (name member topic : Bytes) (p : ℤ) (offset : ℕ) → Call
  refreshes : (topic : Bytes) (partitions : List ℤ) → Call

pub step : Call → Groups → Groups
step (joins name member topic ps) gs = (join name member topic ps gs).0
step (leaves name member ps) gs = leave name member ps gs
step (commits name member topic p offset) gs = (commit name member topic p offset gs).0
step (refreshes topic ps) gs = refresh_topic topic ps gs

unfoldable pub run : List Call → Groups → Groups
unfolding step
run [] gs = gs
run (c ∷ cs) gs = run cs (step c gs)

-- The list of partitions of a call names none twice.
abbrev pub ListsOnce : Call → Type 0
ListsOnce (joins name member topic ps) = Distinct ps
ListsOnce (leaves name member ps) = Distinct ps
ListsOnce (commits name member topic p offset) = Unit {0}
ListsOnce (refreshes topic ps) = Distinct ps

step-IsValid : (c : Call) (gs : Groups) → ListsOnce c → IsValid gs → IsValid (step c gs)
unfolding step
step-IsValid (joins name member topic ps) gs d v = join-IsValid name member topic ps gs d v
step-IsValid (leaves name member ps) gs d v = leave-IsValid name member ps gs d v
step-IsValid (commits name member topic p offset) gs d v =
    commit-IsValid name member topic p offset gs v
step-IsValid (refreshes topic ps) gs d v = refresh_topic-IsValid topic ps gs d v

run-IsValid : (cs : List Call) (gs : Groups) → All ListsOnce cs → IsValid gs → IsValid (run cs gs)
unfolding run
run-IsValid [] gs h v = v
run-IsValid (c ∷ cs) gs h v = run-IsValid cs (step c gs) h.1 (step-IsValid c gs h.0 v)

empty-IsValid : IsValid []
unfolding lookup
empty-IsValid = record { at = λ name g e. cc }

assigned-owner :
    (gs : Groups) (name a b topic : Bytes) (p : ℤ)
    → IsValid gs
    → is_assigned name a topic p gs ≡ true
    → is_assigned name b topic p gs ≡ true
    → a ≡ b
unfolding is_assigned
assigned-owner gs name a b topic p v ha hb = elim (Option-cases (subscribed name gs topic)) [
  | inl e ↦ let bad : assigned_in none a p ≡ true = rw e at ha in cc
  | inr (g, e) ↦
      let w = v.at name g (subscribed-lookup name gs topic g e) in
      let by_a : owns (lookup a g.assignments) p ≡ true = rw (e, assigned_in) at ha in
      let by_b : owns (lookup b g.assignments) p ≡ true = rw (e, assigned_in) at hb in
      owner_unique g.members w.partitions a b p w.sorted w.distinct (rw w.assigned at by_a)
        (rw w.assigned at by_b)
]

-- After any sequence of joins, leaves, commits and refreshes from the start, if no call lists a
-- partition twice: two members of a group to whom a partition of a topic is assigned are the same.
pub run-single_owner :
    (cs : List Call) (name a b topic : Bytes) (p : ℤ)
    → All ListsOnce cs
    → is_assigned name a topic p (run cs []) ≡ true
    → is_assigned name b topic p (run cs []) ≡ true
    → a ≡ b
run-single_owner cs name a b topic p h =
    assigned-owner (run cs []) name a b topic p (run-IsValid cs [] h empty-IsValid)
