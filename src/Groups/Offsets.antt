-- ===== src/Groups/Offsets.antt =====
-- Committed offsets: what `commit` reports and how it moves `next_offset`.
use streaming_platform.Prelude.{
  ℕ, ◌+◌, ◌%◌, ◌^◌, ◌≡◌, refl, true, inl, inr, ◌&&◌, none, some, max, Bool-cases, Option-cases,
  list_eq, list_eq_iff, int_eq, int_eq_iff, subst, ◌==◌, if◌then◌else◌, ℤ, lookup, insert,
  lookup-insert, list_Key, int_Key,
}
use streaming_platform.Text.{Bytes}
use streaming_platform.Groups.{
  Group, Groups, commit, commit_in, advance, is_assigned, assigned_in, subscribed, owns,
  next_offset, offset_in,
}

-- commit returns true exactly for a member to which the partition is assigned.
pub commit-is_assigned :
    (name member topic : Bytes) (p : ℤ) (offset : ℕ) (gs : Groups)
    → (commit name member topic p offset gs).1 ≡ is_assigned name member topic p gs
unfolding commit is_assigned
commit-is_assigned name member topic p offset gs = elim (Option-cases (subscribed name gs topic)) [
  | inl e ↦ rw (e, commit_in, assigned_in)
  | inr (g, e) ↦ elim (Bool-cases (owns (lookup member g.assignments) p)) [
    | inl held ↦ rw (e, commit_in, assigned_in, held)
    | inr other ↦ rw (e, commit_in, assigned_in, other)
  ]
]

subscribed-topic :
    (name : Bytes) (gs : Groups) (topic : Bytes) (g : Group)
    → subscribed name gs topic ≡ some g
    → list_eq g.topic topic ≡ true
subscribed-topic name gs topic g e = elim (Option-cases (lookup name gs)) [
  | inl n ↦ let bad : none ≡ some g = rw (n, subscribed) at e in cc
  | inr (h, n) ↦ elim (Bool-cases (list_eq h.topic topic)) [
    | inl same ↦
        let eq : some h ≡ some g = rw (n, subscribed, same) at e in
        let eq' : h ≡ g = cc in subst (λ (k : Group). list_eq k.topic topic ≡ true) eq' same
    | inr other ↦ let bad : none ≡ some g = rw (n, subscribed, other) at e in cc
  ]
]

subscribed-insert :
    (name topic : Bytes) (g h : Group) (gs : Groups)
    → subscribed name gs topic ≡ some g
    → h.topic ≡ g.topic
    → subscribed name (insert name h gs) topic ≡ some h
subscribed-insert name topic g h gs e same = elim (Bool-cases (list_eq g.topic topic)) [
  | inl at_topic ↦ rw (lookup-insert, (list_eq_iff name name).1 refl, subscribed, same, at_topic)
  | inr other ↦ let bad = subscribed-topic name gs topic g e in cc
]

offset_in-advance :
    (p q : ℤ) (offset : ℕ) (g : Group)
    → offset_in (some (advance p offset g)) q ≡ (
        if p == q then max (offset_in (some g) q) ((offset + 1) % 2 ^ 64) else offset_in (some g) q)
offset_in-advance p q offset g = rw (lookup-insert) (elim (Bool-cases (int_eq p q)) [
  | inl e ↦ let pq : p ≡ q = (int_eq_iff p q).0 e in rw (e, pq) refl
  | inr e ↦ rw e refl
])

-- A commit moves the next offset of the committed partition of the group to one past the offset
-- (which wraps at 64 bits), never back, and that of no other partition of the group; a commit by a
-- member to whom the partition is not assigned moves none.
pub next_offset-commit :
    (name member topic : Bytes) (p q : ℤ) (offset : ℕ) (gs : Groups)
    → next_offset name topic q (commit name member topic p offset gs).0 ≡ (
        if is_assigned name member topic p gs && (p == q)
        then max (next_offset name topic q gs) ((offset + 1) % 2 ^ 64)
        else next_offset name topic q gs)
unfolding next_offset commit is_assigned
next_offset-commit name member topic p q offset gs =
    elim (Option-cases (subscribed name gs topic)) [
      | inl e ↦ rw (e, commit_in, assigned_in) (rw e refl)
      | inr (g, e) ↦ elim (Bool-cases (owns (lookup member g.assignments) p)) [
        | inl held ↦
            rw
              (
                e,
                commit_in,
                assigned_in,
                held,
                subscribed-insert name topic g (advance p offset g) gs e refl,
              )
              (offset_in-advance p q offset g)
        | inr other ↦ rw (e, commit_in, assigned_in, other) (rw e refl)
      ]
    ]

-- A commit changes no assignment of its member.
pub is_assigned-commit :
    (name member topic : Bytes) (p : ℤ) (offset : ℕ) (gs : Groups)
    → is_assigned name member topic p (commit name member topic p offset gs).0
      ≡ is_assigned name member topic p gs
unfolding commit is_assigned
is_assigned-commit name member topic p offset gs = elim (Option-cases (subscribed name gs topic)) [
  | inl e ↦ rw (e, commit_in) (rw e refl)
  | inr (g, e) ↦ elim (Bool-cases (owns (lookup member g.assignments) p)) [
    | inl held ↦
        rw (e, commit_in, held, subscribed-insert name topic g (advance p offset g) gs e refl)
          (rw (assigned_in, held) refl)
    | inr other ↦ rw (e, commit_in, other) (rw e other)
  ]
]
