-- ===== src/Groups/Examples.antt =====
-- Two consumers of one topic, and the theorems at concrete inputs.
use streaming_platform.Prelude.{
  ◌≡◌, refl, ◌+◌, ◌%◌, ◌^◌, max, ◌&&◌, ◌==◌, int_Key, if◌then◌else◌, arith, true, some, List, [],
  ◌∷◌, pos, lookup, insert, list_Key, ℤ,
}
use streaming_platform.Text.{Bytes, codes, str_ltb}
use streaming_platform.Groups.{
  assign, clear_all, deal, push_to, sort, owns, is_assigned, join, rebalance, set_insert, commit,
  next_offset, Groups,
}
use streaming_platform.Groups.Members.{IsSorted}
use streaming_platform.Groups.Rebalance.{share, assign-share}
use streaming_platform.Groups.Ownership.{Distinct, owner_exists}
use streaming_platform.Groups.Offsets.{next_offset-commit}
use streaming_platform.Groups.History.{Call, joins, run, run-single_owner}

abbrev two : List Bytes
two = codes "ann" ∷ codes "bob" ∷ []

abbrev three_partitions : List ℤ
three_partitions = pos 2 ∷ pos 0 ∷ pos 1 ∷ []

two-IsSorted : IsSorted two
unfolding str_ltb
two-IsSorted = ((refl, tt), (tt, tt))

ann_gets : lookup (codes "ann") (assign two three_partitions) ≡ some (pos 0 ∷ pos 2 ∷ [])
unfolding lookup insert assign clear_all deal push_to sort
ann_gets = refl

distinct : Distinct three_partitions
distinct = (refl, (refl, (refl, tt)))

abbrev history : List Call
history =
    joins (codes "g") (codes "bob") (codes "t") three_partitions
    ∷ joins (codes "g") (codes "ann") (codes "t") three_partitions
    ∷ []

history-assigned : is_assigned (codes "g") (codes "ann") (codes "t") (pos 0) (run history []) ≡ true
unfolding is_assigned run join rebalance set_insert str_ltb assign clear_all deal push_to sort
    lookup insert
history-assigned = refl

run-single_owner_example : codes "ann" ≡ codes "ann"
run-single_owner_example =
    run-single_owner history (codes "g") (codes "ann") (codes "ann") (codes "t") (pos 0)
      (distinct, (distinct, tt)) history-assigned history-assigned

assign-share_example :
    lookup (codes "ann") (assign two three_partitions) ≡ some (share 2 0 0 (sort three_partitions))
assign-share_example = assign-share two three_partitions 0 (codes "ann") two-IsSorted refl

owner_exists_example : (m : Bytes) × (owns (lookup m (assign two three_partitions)) (pos 1) ≡ true)
owner_exists_example = owner_exists two three_partitions (pos 1) two-IsSorted (omega arith) refl

abbrev shared : Groups
shared = run history []

next_offset-commit_example :
    next_offset
      (codes "g")
      (codes "t")
      (pos 0)
      (commit (codes "g") (codes "ann") (codes "t") (pos 0) 6 shared).0
    ≡ (if is_assigned (codes "g") (codes "ann") (codes "t") (pos 0) shared && (pos 0 == pos 0)
        then max (next_offset (codes "g") (codes "t") (pos 0) shared) ((6 + 1) % 2 ^ 64)
        else next_offset (codes "g") (codes "t") (pos 0) shared)
next_offset-commit_example =
    next_offset-commit (codes "g") (codes "ann") (codes "t") (pos 0) (pos 0) 6 shared
