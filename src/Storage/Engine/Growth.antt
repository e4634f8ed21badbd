-- ===== src/Storage/Engine/Growth.antt =====
-- An engine only ever gets more: what each key holds stays at the front of what it holds later.
use streaming_platform.Prelude.{
  ℕ, ◌^◌, ◌<◌, ◌≡◌, refl, sym, ap, ◌∙◌, inl, inr, Bool-cases, some, List, [], ◌∷◌, ◌++◌,
  append_assoc, append-nil, length, get_elem?, get_elem?-append, get_elem?-lt, list_eq, list_eq_iff,
  list_Key, ◌==◌, if◌then◌else◌, ℤ, lookup, lookup-insert,
}
use streaming_platform.Text.{Bytes}
use streaming_platform.Storage.Log
use streaming_platform.Storage.Log.{Log}
use streaming_platform.Storage.Engine
use streaming_platform.Storage.Engine.{Engine, make_key, get_or_create_log}
use streaming_platform.Storage.Engine.Contents.{
  IsEngine, added, append-IsEngine, fetch_contents, fetch-append,
}

abbrev pub Fits : Bytes → Type 0
Fits m = length m < 2 ^ 64

-- The messages of each key later, which begin with those now.
pub record More (spec : Bytes → List Bytes) (e : Engine) : Type 0 where
  pub later : Bytes → List Bytes
  pub holds : IsEngine e later
  pub behind : Bytes → List Bytes
  pub begins : (key : Bytes) → later key ≡ spec key ++ behind key

pub record Grows (e e' : Engine) : Type 0 where
  pub contents : (spec : Bytes → List Bytes) → IsEngine e spec → More spec e'
  pub open_logs :
      (key : Bytes) (l : Log)
      → lookup key e.logs ≡ some l
      → (l' : Log) × (lookup key e'.logs ≡ some l')

pub Grows-same : (e : Engine) → Grows e e
Grows-same e = record {
  contents = λ spec h. record {
    later = spec;
    holds = h;
    behind = λ key. [];
    begins = λ key. sym (append-nil (spec key));
  };
  open_logs = λ key l h. (l, h);
}

pub Grows-trans : {e e' e'' : Engine} → Grows e e' → Grows e' e'' → Grows e e''
Grows-trans g h = record {
  contents = λ spec s.
      let m = g.contents spec s in
      let n = h.contents m.later m.holds in
      record {
        later = n.later;
        holds = n.holds;
        behind = λ key. m.behind key ++ n.behind key;
        begins = λ key.
            n.begins key
            ∙ ap (λ t. t ++ n.behind key) (m.begins key)
            ∙ append_assoc (spec key) (m.behind key) (n.behind key);
      };
  open_logs = λ key l s. let (l', t) = g.open_logs key l s in h.open_logs key l' t;
}

added_behind : Bytes → Bytes → Bytes → List Bytes
added_behind key m k = if key == k then m ∷ [] else []

added-begins :
    (key m : Bytes) (spec : Bytes → List Bytes) (k : Bytes)
    → added key m spec k ≡ spec k ++ added_behind key m k
unfolding added_behind
added-begins key m spec k = elim (Bool-cases (list_eq key k)) [
  | inl same ↦ rw same refl
  | inr other ↦ rw other (sym (append-nil (spec k)))
]

append-open_logs :
    (topic : Bytes) (p : ℤ) (m : Bytes) (e : Engine) (key : Bytes) (l : Log)
    → lookup key e.logs ≡ some l
    → (l' : Log) × (lookup key (Engine.append topic p m e).0.logs ≡ some l')
unfolding Engine.append
append-open_logs topic p m e key l h = elim (Bool-cases (list_eq (make_key topic p) key)) [
  | inl same ↦
      ((Log.append m (get_or_create_log (make_key topic p) e)).0, rw (lookup-insert, same) refl)
  | inr other ↦ (l, rw (lookup-insert, other) h)
]

pub append-Grows :
    (topic : Bytes) (p : ℤ) (m : Bytes) (e : Engine)
    → Fits m
    → Grows e (Engine.append topic p m e).0
append-Grows topic p m e fits = record {
  contents = λ spec h. record {
    later = added (make_key topic p) m spec;
    holds = append-IsEngine topic p m e spec fits h;
    behind = added_behind (make_key topic p) m;
    begins = added-begins (make_key topic p) m spec;
  };
  open_logs = append-open_logs topic p m e;
}

-- A message is in an open log at an offset.
pub record Placed (topic : Bytes) (p : ℤ) (m : Bytes) (offset : ℕ) (e : Engine) : Type 0 where
  pub spec : Bytes → List Bytes
  pub holds : IsEngine e spec
  pub log : Log
  pub opened : lookup (make_key topic p) e.logs ≡ some log
  pub stored : Engine.fetch topic p offset e ≡ some m

-- It stays there.
pub Grows-Placed :
    {e e' : Engine} (topic : Bytes) (p : ℤ) (m : Bytes) (offset : ℕ)
    → Grows e e'
    → Placed topic p m offset e
    → Placed topic p m offset e'
Grows-Placed {e} {e'} topic p m offset g h =
    let key = make_key topic p in
    let n = g.contents h.spec h.holds in
    let (l', found') = g.open_logs key h.log h.opened in
    let old : get_elem? (h.spec key) offset ≡ some m =
      sym (fetch_contents topic p offset e h.spec h.log h.opened h.holds) ∙ h.stored in
    record {
      spec = n.later;
      holds = n.holds;
      log = l';
      opened = found';
      stored =
          fetch_contents topic p offset e' n.later l' found' n.holds
          ∙ ap (λ xs. get_elem? xs offset) (n.begins key)
          ∙ get_elem?-append (h.spec key) (n.behind key) offset
              (get_elem?-lt (h.spec key) offset m old)
          ∙ old;
    }

append-lookup :
    (topic : Bytes) (p : ℤ) (m : Bytes) (e : Engine)
    → lookup (make_key topic p) (Engine.append topic p m e).0.logs
      ≡ some (Log.append m (get_or_create_log (make_key topic p) e)).0
unfolding Engine.append
append-lookup topic p m e =
    rw (lookup-insert, (list_eq_iff (make_key topic p) (make_key topic p)).1 refl) refl

pub append-Placed :
    (topic : Bytes) (p : ℤ) (m : Bytes) (e : Engine) (spec : Bytes → List Bytes)
    → IsEngine e spec
    → Fits m
    → Placed topic p m (Engine.append topic p m e).1 (Engine.append topic p m e).0
append-Placed topic p m e spec h fits = record {
  spec = added (make_key topic p) m spec;
  holds = append-IsEngine topic p m e spec fits h;
  log = (Log.append m (get_or_create_log (make_key topic p) e)).0;
  opened = append-lookup topic p m e;
  stored = fetch-append topic p m e spec fits h;
}
