-- ===== src/Main/Peers.antt =====
-- The list of peers of the command line, printed and parsed again.
use streaming_platform.Prelude.{
  ℕ, zero, suc, ◌^◌, ◌≤◌, ◌<◌, ◌≡◌, refl, sym, ap, subst, ◌∙◌, false, inl, inr, ◌⊎◌, some, List, [],
  ◌∷◌, ◌++◌, arith, nat_eq, nat_eq_iff, length, length-append, All, All-append, pos,
}
use streaming_platform.Text.{Bytes, colon, IsDigit, to_string, int_to_string, to_string-IsDigit}
use streaming_platform.Text.Numbers.{to_string-cons, stoi-to_string_all}
use streaming_platform.Config.{ClusterPeer}
use streaming_platform.Main.{
  split_at, getline, comma, peer_fields, add_peer, parse_entries, parse_peers,
}

-- The mark is not in the text.
abbrev pub Lacks : ℕ → Bytes → Type 0
Lacks mark = All (λ c. nat_eq c mark ≡ false)

split_at-mark :
    (mark : ℕ) (s rest : Bytes) → Lacks mark s → split_at mark (s ++ mark ∷ rest) ≡ (s, rest)
unfolding split_at
split_at-mark mark [] rest h = rw ((nat_eq_iff mark mark).1 refl) refl
split_at-mark mark (c ∷ s) rest h = rw (h.0, split_at-mark mark s rest h.1) refl

split_at-all : (mark : ℕ) (s : Bytes) → Lacks mark s → split_at mark s ≡ (s, [])
unfolding split_at
split_at-all mark [] h = refl
split_at-all mark (c ∷ s) h = rw (h.0, split_at-all mark s h.1) refl

getline-mark :
    (mark : ℕ) (s rest : Bytes) → Lacks mark s → getline mark (s ++ mark ∷ rest) ≡ some (s, rest)
unfolding getline
getline-mark mark [] rest h = ap some (split_at-mark mark [] rest h)
getline-mark mark (c ∷ s) rest h = ap some (split_at-mark mark (c ∷ s) rest h)

getline-all :
    (mark c : ℕ) (s : Bytes) → Lacks mark (c ∷ s) → getline mark (c ∷ s) ≡ some (c ∷ s, [])
unfolding getline
getline-all mark c s h = ap some (split_at-all mark (c ∷ s) h)

-- A peer whose numbers are those of an int, and whose host has no mark in it.
pub record IsPlain (p : ClusterPeer) : Type 0 where
  pub id : ℕ
  pub id_eq : p.broker_id ≡ pos id
  pub id_small : id < 2 ^ 31
  pub port : ℕ
  pub port_eq : p.port ≡ pos port
  pub port_small : port < 2 ^ 31
  pub host_colon : Lacks colon p.host
  pub host_comma : Lacks comma p.host

-- id:host:port
unfoldable pub show_peer : ClusterPeer → Bytes
show_peer p = int_to_string p.broker_id ++ colon ∷ (p.host ++ colon ∷ int_to_string p.port)

-- The entries with a comma between them.
unfoldable pub show_peers : List ClusterPeer → Bytes
unfolding show_peer
show_peers [] = []
show_peers (p ∷ []) = show_peer p
show_peers (p ∷ q ∷ ps) = show_peer p ++ comma ∷ show_peers (q ∷ ps)

digits-Lacks : (mark : ℕ) (s : Bytes) → (mark < 48) ⊎ (57 < mark) → All IsDigit s → Lacks mark s
digits-Lacks mark [] m h = tt
digits-Lacks mark (c ∷ s) m h = (ground arith, digits-Lacks mark s m h.1)

peer_fields-marks :
    (id host : Bytes) (c : ℕ) (port : Bytes)
    → Lacks colon id
    → Lacks colon host
    → Lacks colon (c ∷ port)
    → peer_fields (id ++ colon ∷ (host ++ colon ∷ (c ∷ port))) ≡ some (id, host, c ∷ port)
unfolding peer_fields
peer_fields-marks id host c port hi hh hp =
    rw
      (
        getline-mark colon id (host ++ colon ∷ (c ∷ port)) hi,
        peer_fields,
        getline-mark colon host (c ∷ port) hh,
        getline-all colon c port hp,
      )
      refl

-- What show_peer writes, with the texts of the numbers.
shown :
    (p : ClusterPeer) (h : IsPlain p)
    → show_peer p ≡ to_string h.id ++ colon ∷ (p.host ++ colon ∷ to_string h.port)
unfolding show_peer int_to_string
shown p h = rw (h.id_eq, h.port_eq) refl

number-Lacks : (mark n : ℕ) → (mark < 48) ⊎ (57 < mark) → Lacks mark (to_string n)
number-Lacks mark n m = digits-Lacks mark (to_string n) m (to_string-IsDigit n)

peer_fields-show_peer :
    (p : ClusterPeer) (h : IsPlain p)
    → peer_fields (show_peer p) ≡ some (to_string h.id, p.host, to_string h.port)
peer_fields-show_peer p h =
    let (c, d, e) = to_string-cons h.port in
    ap peer_fields (shown p h)
    ∙ rw e (
        peer_fields-marks (to_string h.id) p.host c d (number-Lacks colon h.id (inr (omega arith)))
          h.host_colon (subst (Lacks colon) e (number-Lacks colon h.port (inr (omega arith)))))

add_peer-show_peer :
    (p : ClusterPeer) (h : IsPlain p) (ps : List ClusterPeer)
    → add_peer (peer_fields (show_peer p)) (some ps) ≡ some (p ∷ ps)
add_peer-show_peer p h ps =
    rw
      (
        peer_fields-show_peer p h,
        add_peer,
        stoi-to_string_all h.id h.id_small,
        stoi-to_string_all h.port h.port_small,
      )
      (ap (λ (q : ClusterPeer). some (q ∷ ps)) (sym (same_peer p h)))
  where
    same_peer :
        (p : ClusterPeer) (h : IsPlain p)
        → p ≡ record { broker_id = pos h.id; host = p.host; port = pos h.port }
    same_peer p h = cc

show_peer-Lacks : (p : ClusterPeer) → IsPlain p → Lacks comma (show_peer p)
show_peer-Lacks p h = subst (Lacks comma) (sym (shown p h)) (
    All-append _ (to_string h.id) (colon ∷ (p.host ++ colon ∷ to_string h.port))
      (number-Lacks comma h.id (inl (omega arith)))
      (
        refl,
        All-append _ p.host (colon ∷ to_string h.port) h.host_comma
            (refl, number-Lacks comma h.port (inl (omega arith))),
      ))

show_peer-cons : (p : ClusterPeer) → IsPlain p → (c : ℕ) × (d : Bytes) × (show_peer p ≡ c ∷ d)
show_peer-cons p h =
    let (c, d, e) = to_string-cons h.id in
    (c, d ++ colon ∷ (p.host ++ colon ∷ to_string h.port), shown p h ∙ rw e refl)

entry_last : (p : ClusterPeer) → IsPlain p → getline comma (show_peer p) ≡ some (show_peer p, [])
entry_last p h =
    let (c, d, e) = show_peer-cons p h in
    ap (getline comma) e
    ∙ getline-all comma c d (subst (Lacks comma) e (show_peer-Lacks p h))
    ∙ rw e refl

parse_entries-nil : (fuel : ℕ) → parse_entries fuel [] ≡ some []
unfolding parse_entries getline
parse_entries-nil zero = refl
parse_entries-nil (suc fuel) = refl

parse_entries-round :
    (fuel : ℕ) (s entry rest : Bytes)
    → getline comma s ≡ some (entry, rest)
    → parse_entries (suc fuel) s ≡ add_peer (peer_fields entry) (parse_entries fuel rest)
unfolding parse_entries
parse_entries-round fuel s entry rest e = rw (parse_entries, e) refl

show_peer_pos : (p : ClusterPeer) → IsPlain p → 0 < length (show_peer p)
show_peer_pos p h = let (c, d, e) = show_peer-cons p h in rw e (omega arith)

-- With fuel for the whole text.
parse_entries-show_peers :
    (ps : List ClusterPeer) (fuel : ℕ)
    → All IsPlain ps
    → length (show_peers ps) ≤ fuel
    → parse_entries fuel (show_peers ps) ≡ some ps
unfolding show_peers
parse_entries-show_peers [] fuel h le = parse_entries-nil fuel
parse_entries-show_peers (p ∷ []) zero h le = absurd (omega (arith, show_peer_pos p h.0))
parse_entries-show_peers (p ∷ []) (suc fuel) h le =
    parse_entries-round fuel (show_peer p) (show_peer p) [] (entry_last p h.0)
    ∙ ap (add_peer (peer_fields (show_peer p))) (parse_entries-nil fuel)
    ∙ add_peer-show_peer p h.0 []
parse_entries-show_peers (p ∷ q ∷ ps) zero h le =
    absurd (omega (arith, length-append (show_peer p) (comma ∷ show_peers (q ∷ ps))))
parse_entries-show_peers (p ∷ q ∷ ps) (suc fuel) h le =
    parse_entries-round fuel (show_peers (p ∷ q ∷ ps)) (show_peer p) (show_peers (q ∷ ps))
      (getline-mark comma (show_peer p) (show_peers (q ∷ ps)) (show_peer-Lacks p h.0))
    ∙ ap (add_peer (peer_fields (show_peer p))) (
        parse_entries-show_peers (q ∷ ps) fuel h.1
          (omega (arith, length-append (show_peer p) (comma ∷ show_peers (q ∷ ps)))))
    ∙ add_peer-show_peer p h.0 (q ∷ ps)

-- Peers with ids and ports from 0 to 2^31 - 1, and with no comma and no colon in their hosts, are
-- read back from id:host:port entries with commas between them.
pub parse_peers-show_peers :
    (ps : List ClusterPeer) → All IsPlain ps → parse_peers (show_peers ps) ≡ some ps
unfolding parse_peers
parse_peers-show_peers ps h = parse_entries-show_peers ps (length (show_peers ps)) h (omega arith)
