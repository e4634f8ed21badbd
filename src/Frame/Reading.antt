-- ===== src/Frame/Reading.antt =====
-- `read_exact` takes exactly the bytes that it was asked for, however they arrive.
use streaming_platform.Prelude.{
  ℕ, zero, suc, ◌+◌, ◌-◌, ◌≤◌, ◌<◌, ◌≡◌, refl, sym, ap, ◌∙◌, true, List, [], ◌∷◌, ◌++◌, append-nil,
  append_assoc, arith, min, length, take, drop, All, length-drop, take-take, drop-drop,
}
use streaming_platform.Text.{Bytes}
use streaming_platform.Frame.{Input, read_exact}

-- The buffer got `n` bytes of the stream.
pub record Took (n : ℕ) (unread old : Bytes) (i : Input) : Type 0 where
  pub buffer : i.buffer ≡ old ++ take n unread
  pub stream : i.stream ≡ drop n unread

-- The rest of a read, after a first call that moved `m` bytes.
Took-after :
    (m n : ℕ) (stream buffer : Bytes) (i : Input)
    → m ≤ n
    → Took (n - m) (drop m stream) (buffer ++ take m stream) i
    → Took n stream buffer i
Took-after m n stream buffer i h t = record {
  buffer =
      t.buffer
      ∙ append_assoc buffer (take m stream) _
      ∙ ap (λ xs. buffer ++ xs) (take-take m n stream h);
  stream = t.stream ∙ drop-drop m n stream h;
}

-- A read that reports success got its bytes, whatever the schedule was.
pub read_exact-Took :
    (schedule : List ℕ) (stream buffer : Bytes) (n : ℕ)
    → (read_exact schedule stream buffer n).ok ≡ true
    → Took n stream buffer (read_exact schedule stream buffer n)
unfolding read_exact
read_exact-Took schedule stream buffer zero e = record {
  buffer = sym (append-nil buffer);
  stream = refl;
}
read_exact-Took [] stream buffer (suc n) e = cc
read_exact-Took (c ∷ cs) stream buffer (suc n) e =
    let m = min c (min (suc n) (length stream)) in
    ground (
      arith,
      read_exact-Took cs (drop m stream) (buffer ++ take m stream) (suc n - m),
      Took-after m (suc n) stream buffer
          (read_exact cs (drop m stream) (buffer ++ take m stream) (suc n - m)),
    )

-- It succeeds when enough bytes are there and no call fails, and uses at most a call for each byte.
pub record Done (n : ℕ) (schedule : List ℕ) (i : Input) : Type 0 where
  pub ok : i.ok ≡ true
  pub left : length schedule ≤ length i.schedule + n
  pub positive : All (λ c. 0 < c) i.schedule

pub read_exact-Done :
    (schedule : List ℕ) (stream buffer : Bytes) (n : ℕ)
    → All (λ c. 0 < c) schedule
    → n ≤ length schedule
    → n ≤ length stream
    → Done n schedule (read_exact schedule stream buffer n)
unfolding read_exact
read_exact-Done schedule stream buffer zero h few has = record {
  ok = refl;
  left = omega arith;
  positive = h;
}
read_exact-Done [] stream buffer (suc n) h few has = absurd (omega arith)
read_exact-Done (c ∷ cs) stream buffer (suc n) h few has =
    let m = min c (min (suc n) (length stream)) in
    ground (
      arith,
      length-drop m stream,
      read_exact-Done cs (drop m stream) (buffer ++ take m stream) (suc n - m) h.1,
    )
