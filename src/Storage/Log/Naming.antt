-- ===== src/Storage/Log/Naming.antt =====
-- The names of the segments: the n-th one is segment-n.log, so the name of the next one is new.
use streaming_platform.Prelude.{
  ℕ, zero, suc, ◌+◌, ◌≤◌, ◌≡◌, refl, sym, ap, ◌∙◌, inl, inr, Bool-cases, some, List, [], ◌∷◌, ◌++◌,
  map, arith, length, get_elem?, set, take, drop, list_eq, list_eq_iff, length-append,
  take-length-append,
}
use streaming_platform.Text.{Bytes, codes, to_string, value, value-to_string}
use streaming_platform.Storage.Segment
use streaming_platform.Storage.Segment.{LogSegment}
use streaming_platform.Storage.Log.{segment_name, file_named}

-- The names of the segments are those of the numbers from `k` on.
abbrev pub Numbered : ℕ → List LogSegment → Type 0
Numbered k [] = Unit {0}
Numbered k (s ∷ segments) = (s.name ≡ segment_name k) × Numbered (k + 1) segments

pub Numbered-snoc :
    (k : ℕ) (segments : List LogSegment) (s : LogSegment)
    → Numbered k segments
    → s.name ≡ segment_name (k + length segments)
    → Numbered k (segments ++ s ∷ [])
Numbered-snoc k [] s h e = (e ∙ ap segment_name (omega arith), tt)
Numbered-snoc k (x ∷ segments) s h e =
    (h.0, Numbered-snoc (k + 1) segments s h.1 (e ∙ ap segment_name (omega arith)))

pub Numbered-set :
    (k : ℕ) (segments : List LogSegment) (i : ℕ) (old new : LogSegment)
    → Numbered k segments
    → get_elem? segments i ≡ some old
    → new.name ≡ old.name
    → Numbered k (set segments i new)
Numbered-set k [] i old new h found e = h
Numbered-set k (x ∷ segments) zero old new h found e =
    let same : x ≡ old = cc in (e ∙ sym (ap (λ (s : LogSegment). s.name) same) ∙ h.0, h.1)
Numbered-set k (x ∷ segments) (suc i) old new h found e =
    (h.0, Numbered-set (k + 1) segments i old new h.1 found e)

pub Numbered-append :
    (k : ℕ) (segments : List LogSegment) (i : ℕ) (s : LogSegment) (m : Bytes)
    → Numbered k segments
    → get_elem? segments i ≡ some s
    → Numbered k (set segments i (Segment.append m s).0)
unfolding Segment.append
Numbered-append k segments i s m h found =
    Numbered-set k segments i s (Segment.append m s).0 h found refl

pub Numbered-sync :
    (k : ℕ) (segments : List LogSegment)
    → Numbered k segments
    → Numbered k (map Segment.sync segments)
unfolding Segment.sync
Numbered-sync k [] h = h
Numbered-sync k (s ∷ segments) h = (h.0, Numbered-sync (k + 1) segments h.1)

pub Numbered-last :
    (k : ℕ) (segments : List LogSegment) (s : LogSegment)
    → Numbered k (segments ++ s ∷ [])
    → s.name ≡ segment_name (k + length segments)
Numbered-last k [] s h = h.0 ∙ ap segment_name (omega arith)
Numbered-last k (x ∷ segments) s h =
    Numbered-last (k + 1) segments s h.1 ∙ ap segment_name (omega arith)

pub Numbered-rename :
    (k : ℕ) (segments : List LogSegment) (s t : LogSegment)
    → s.name ≡ t.name
    → Numbered k (segments ++ s ∷ [])
    → Numbered k (segments ++ t ∷ [])
Numbered-rename k [] s t e h = (sym e ∙ h.0, tt)
Numbered-rename k (x ∷ segments) s t e h = (h.0, Numbered-rename (k + 1) segments s t e h.1)

-- Different numbers have different names.
segment_name-injective : (m n : ℕ) → segment_name m ≡ segment_name n → m ≡ n
unfolding segment_name
segment_name-injective m n e =
    let behind : to_string m ++ codes ".log" ≡ to_string n ++ codes ".log" = ap (drop 8) e in
    let same_length : length (to_string m) ≡ length (to_string n) = omega (
      arith,
      ap (λ (t : Bytes). length t) behind,
      length-append (to_string m) (codes ".log"),
      length-append (to_string n) (codes ".log"),
    ) in
    let same : to_string m ≡ to_string n =
      sym (take-length-append (to_string m) (codes ".log"))
      ∙ ap (take (length (to_string m))) behind
      ∙ ap (λ k. take k (to_string n ++ codes ".log")) same_length
      ∙ take-length-append (to_string n) (codes ".log") in
    sym (value-to_string m) ∙ ap (value 0) same ∙ value-to_string n

-- No segment has the name of a later number.
pub file_named-later :
    (k : ℕ) (segments : List LogSegment) (n : ℕ)
    → Numbered k segments
    → k + length segments ≤ n
    → file_named (segment_name n) segments ≡ []
unfolding file_named
file_named-later k [] n h le = refl
file_named-later k (s ∷ segments) n h le =
    let rest = file_named-later (k + 1) segments n h.1 (omega arith) in
    elim (Bool-cases (list_eq (segment_name n) s.name)) [
      | inr other ↦ rw other rest
      | inl same ↦
          let e : n ≡ k =
            segment_name-injective n k ((list_eq_iff (segment_name n) s.name).0 same ∙ h.0) in
          absurd (omega arith)
    ]
