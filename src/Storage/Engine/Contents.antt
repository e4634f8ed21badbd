-- ===== src/Storage/Engine/Contents.antt =====
-- An engine refines one list of messages for each key.
use streaming_platform.Prelude.{
  ℕ, ◌^◌, ◌<◌, ◌≡◌, refl, subst, ◌∙◌, true, inl, inr, Bool-cases, some, List, [], ◌∷◌, ◌++◌, length,
  get_elem?, get_elem?-append_length, ℤ, lookup, lookup-insert, list_Key, list_eq, list_eq_iff,
  ◌==◌, if◌then◌else◌,
}
use streaming_platform.Text.{Bytes}
use streaming_platform.Storage.Log
use streaming_platform.Storage.Log.{Log}
use streaming_platform.Storage.Log.Holding.{IsLog}
use streaming_platform.Storage.Log.Refinement.{append-IsLog, append-counted, fetch-get_elem?}
use streaming_platform.Storage.Engine.{
  Engine, make_key, log_or_open, get_or_create_log, append, fetch, fetch_in,
}

-- The log of each key, opened or still on the disk, holds the messages of the key.
pub record IsEngine (e : Engine) (spec : Bytes → List Bytes) : Type 0 where
  pub at : (key : Bytes) → IsLog (get_or_create_log key e) (spec key)

abbrev pub added : Bytes → Bytes → (Bytes → List Bytes) → Bytes → List Bytes
added key m spec k = if key == k then spec k ++ m ∷ [] else spec k

get_or_create_log-append :
    (topic : Bytes) (p : ℤ) (m key : Bytes) (e : Engine)
    → get_or_create_log key (append topic p m e).0 ≡ (
        if make_key topic p == key
        then (Log.append m (get_or_create_log (make_key topic p) e)).0
        else get_or_create_log key e)
unfolding get_or_create_log append
get_or_create_log-append topic p m key e = elim (Bool-cases (list_eq (make_key topic p) key)) [
  | inl same ↦ rw (lookup-insert, same) refl
  | inr other ↦ rw (lookup-insert, other) refl
]

pub append-IsEngine :
    (topic : Bytes) (p : ℤ) (m : Bytes) (e : Engine) (spec : Bytes → List Bytes)
    → length m < 2 ^ 64
    → IsEngine e spec
    → IsEngine (append topic p m e).0 (added (make_key topic p) m spec)
append-IsEngine topic p m e spec fits h = record {
  at = λ key. elim (Bool-cases (list_eq (make_key topic p) key)) [
    | inl same ↦
        let k : make_key topic p ≡ key = (list_eq_iff (make_key topic p) key).0 same in
        rw (get_or_create_log-append, same)
          (subst
            (λ j.
              IsLog (Log.append m (get_or_create_log (make_key topic p) e)).0 (spec j ++ m ∷ []))
            k
            (append-IsLog (get_or_create_log (make_key topic p) e) (spec (make_key topic p)) m fits
              (h.at (make_key topic p))))
    | inr other ↦ rw (get_or_create_log-append, other) (h.at key)
  ];
}

-- The offset of an append is the number of messages of its key so far.
pub append-offset :
    (topic : Bytes) (p : ℤ) (m : Bytes) (e : Engine) (spec : Bytes → List Bytes)
    → IsEngine e spec
    → (append topic p m e).1 ≡ length (spec (make_key topic p))
unfolding append
append-offset topic p m e spec h =
    append-counted (get_or_create_log (make_key topic p) e) (spec (make_key topic p)) m
      (h.at (make_key topic p))

-- A log that is open is read.
pub fetch_contents :
    (topic : Bytes) (p : ℤ) (offset : ℕ) (e : Engine) (spec : Bytes → List Bytes) (l : Log)
    → lookup (make_key topic p) e.logs ≡ some l
    → IsEngine e spec
    → fetch topic p offset e ≡ get_elem? (spec (make_key topic p)) offset
unfolding fetch get_or_create_log
fetch_contents topic p offset e spec l found h =
    rw (found, fetch_in)
      (fetch-get_elem? l (spec (make_key topic p)) offset
        (rw (found, log_or_open) at (h.at (make_key topic p))))

pub lookup-append :
    (topic : Bytes) (p : ℤ) (m : Bytes) (e : Engine)
    → lookup (make_key topic p) (append topic p m e).0.logs
      ≡ some (Log.append m (get_or_create_log (make_key topic p) e)).0
unfolding append
lookup-append topic p m e =
    rw (lookup-insert, (list_eq_iff (make_key topic p) (make_key topic p)).1 refl) refl

-- Where each log holds its messages: what an append has stored is fetched at the offset that it
-- returned.
pub fetch-append :
    (topic : Bytes) (p : ℤ) (m : Bytes) (e : Engine) (spec : Bytes → List Bytes)
    → length m < 2 ^ 64
    → IsEngine e spec
    → fetch topic p (append topic p m e).1 (append topic p m e).0 ≡ some m
fetch-append topic p m e spec fits h =
    let key = make_key topic p in
    let same : list_eq key key ≡ true = (list_eq_iff key key).1 refl in
    fetch_contents topic p (append topic p m e).1 (append topic p m e).0 (added key m spec) _
      (lookup-append topic p m e) (append-IsEngine topic p m e spec fits h)
    ∙ rw (append-offset topic p m e spec h, same) (get_elem?-append_length (spec key) [] m)
