-- ===== src/Storage/Engine/Partitions.antt =====
-- The partitions that an engine lists for a topic: those with a log, and some that have none.
use streaming_platform.Prelude.{
  ℕ, ◌^◌, ◌<◌, ◌≡◌, refl, sym, ap, ◌∙◌, true, false, inl, inr, Option, none, some, List, [], ◌∷◌,
  ◌++◌, append_assoc, append-nil, arith, Bool-cases, Option-cases, list_eq, list_eq_iff, list_Key,
  int_eq, int_eq_iff, ℤ, pos, Assoc, lookup,
}
use streaming_platform.Text.{Bytes, dash, to_string, int_to_string, strip_prefix}
use streaming_platform.Text.Numbers.{NoDigit, stoi-to_string}
use streaming_platform.Groups.{contains}
use streaming_platform.Groups.Ownership.{contains-sort}
use streaming_platform.Storage.Log.{Log}
use streaming_platform.Storage.Engine.{
  Engine, make_key, has_log, key_partition, add_number, listed_partitions, partitions_for_topic,
}

strip_prefix-append : (prefix rest : Bytes) → strip_prefix prefix (prefix ++ rest) ≡ some rest
unfolding strip_prefix
strip_prefix-append [] rest = refl
strip_prefix-append (p ∷ prefix) rest = ground (arith, strip_prefix-append prefix rest)

-- A key that begins with the topic, a dash and a number is read as the partition with that number.
key_partition-number :
    (topic rest : Bytes) (p : ℕ)
    → p < 2 ^ 31
    → NoDigit rest
    → key_partition (topic ++ dash ∷ []) (topic ++ dash ∷ (to_string p ++ rest)) ≡ some (pos p)
unfolding key_partition
key_partition-number topic rest p small n =
    let e : topic ++ dash ∷ (to_string p ++ rest) ≡ (topic ++ dash ∷ []) ++ (to_string p ++ rest) =
      sym (append_assoc topic (dash ∷ []) (to_string p ++ rest)) in
    rw (e, key_partition, strip_prefix-append (topic ++ dash ∷ []) (to_string p ++ rest))
      (stoi-to_string p rest small n)

contains-add_number :
    (p : ℤ) (o : Option ℤ) (ps : List ℤ)
    → contains p ps ≡ true
    → contains p (add_number o ps) ≡ true
contains-add_number p none ps h = h
contains-add_number p (some q) ps h = ground arith

contains-listed :
    (prefix key : Bytes) (p : ℤ) (l : Log) (logs : Assoc Bytes Log)
    → lookup key logs ≡ some l
    → key_partition prefix key ≡ some p
    → contains p (listed_partitions prefix logs) ≡ true
unfolding listed_partitions lookup
contains-listed prefix key p l [] found e = cc
contains-listed prefix key p l ((k, w) ∷ logs) found e = elim (Bool-cases (list_eq k key)) [
  | inl same ↦
      let own : key_partition prefix k ≡ some p =
        ap (key_partition prefix) ((list_eq_iff k key).0 same) ∙ e in
      let self : int_eq p p ≡ true = (int_eq_iff p p).1 refl in rw (own, add_number, self) refl
  | inr other ↦
      contains-add_number p (key_partition prefix k) (listed_partitions prefix logs)
        (contains-listed prefix key p l logs (rw (lookup, other) at found) e)
]

-- Where an engine has a log under a key that begins with the topic, a dash and a number, it lists
-- the number.
listed_number :
    (topic rest key : Bytes) (p : ℕ) (e : Engine) (l : Log)
    → p < 2 ^ 31
    → NoDigit rest
    → key ≡ topic ++ dash ∷ (to_string p ++ rest)
    → lookup key e.logs ≡ some l
    → contains (pos p) (partitions_for_topic topic e) ≡ true
unfolding partitions_for_topic
listed_number topic rest key p e l small n k found =
    contains-sort (pos p) (listed_partitions (topic ++ dash ∷ []) e.logs)
    ∙ contains-listed (topic ++ dash ∷ []) key (pos p) l e.logs found
        (ap (key_partition (topic ++ dash ∷ [])) k ∙ key_partition-number topic rest p small n)

has_log-lookup :
    (topic : Bytes) (p : ℤ) (e : Engine)
    → has_log topic p e ≡ true
    → (l : Log) × (lookup (make_key topic p) e.logs ≡ some l)
unfolding has_log
has_log-lookup topic p e h = elim (Option-cases (lookup (make_key topic p) e.logs)) [
  | inl none_there ↦ let bad : false ≡ true = rw (has_log, none_there) at h in cc
  | inr found ↦ found
]

-- Every partition below 2^31 of a topic that has a log is listed for the topic.
pub partitions_for_topic-has_log :
    (topic : Bytes) (p : ℕ) (e : Engine)
    → p < 2 ^ 31
    → has_log topic (pos p) e ≡ true
    → contains (pos p) (partitions_for_topic topic e) ≡ true
unfolding make_key int_to_string
partitions_for_topic-has_log topic p e small h =
    let (l, found) = has_log-lookup topic (pos p) e h in
    listed_number topic [] (make_key topic (pos p)) p e l small tt
      (ap (λ t. topic ++ dash ∷ t) (sym (append-nil (to_string p)))) found

-- Where a topic ends in a dash and a number below 2^31, each of its logs lists that number as a
-- partition of the topic before the dash, which may have no log of that number.
pub partitions_for_topic-phantom :
    (topic : Bytes) (p : ℕ) (q : ℤ) (e : Engine)
    → p < 2 ^ 31
    → has_log (topic ++ dash ∷ to_string p) q e ≡ true
    → contains (pos p) (partitions_for_topic topic e) ≡ true
unfolding make_key
partitions_for_topic-phantom topic p q e small h =
    let (l, found) = has_log-lookup (topic ++ dash ∷ to_string p) q e h in
    listed_number topic (dash ∷ int_to_string q) (make_key (topic ++ dash ∷ to_string p) q) p e l
      small (inl (omega arith)) (append_assoc topic (dash ∷ to_string p) (dash ∷ int_to_string q))
      found
