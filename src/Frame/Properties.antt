-- ===== src/Frame/Properties.antt =====
-- Whole frames: what `write_frame` puts on a connection, and what `read_frame` takes off it.
use streaming_platform.Prelude.{
  ℕ, zero, suc, ◌+◌, ◌%◌, ◌^◌, ◌≤◌, ◌<◌, ◌≡◌, refl, sym, ap, ◌∙◌, ◌↔◌, Bool, true, false, inl, inr,
  Bool-cases, List, [], ◌∷◌, ◌++◌, append-nil, append_assoc, arith, length, length-append, take,
  drop, take-all, length-take, take-length-append, drop-length-append, All,
}
use streaming_platform.Text.{Bytes}
use streaming_platform.Protocol.Wire.{put_u32, put_u8}
use streaming_platform.Protocol.Wire.Laws.{get_u32-put_u32}
use streaming_platform.Frame.{
  Input, Output, read_exact, read_payload, read_frame, wrap_frame, write_frame, header,
  frame_length, buffers_of, total,
}
use streaming_platform.Frame.Reading.{Took, read_exact-Took, read_exact-Done}
use streaming_platform.Frame.Writing.{write_loop-Sent, write_loop-ok}

length-header : (payload : Bytes) → length (header payload) ≡ 4
unfolding put_u32 put_u8
length-header payload = refl

total-buffers_of : (payload : Bytes) → total (buffers_of payload) ≡ wrap_frame payload
unfolding wrap_frame
total-buffers_of [] = refl
total-buffers_of (b ∷ p) = ap (λ xs. header (b ∷ p) ++ xs) (append-nil (b ∷ p))

length-wrap_frame : (payload : Bytes) → length (wrap_frame payload) ≡ 4 + length payload
unfolding wrap_frame
length-wrap_frame payload =
    omega (arith, length-append (header payload) payload, length-header payload)

frame_size : (payload : Bytes) → length (total (buffers_of payload)) ≡ 4 + length payload
frame_size payload =
    ap (λ (xs : Bytes). length xs) (total-buffers_of payload) ∙ length-wrap_frame payload

-- Whatever `writev` does, the bytes on the connection are a prefix of the wrapped frame, and
-- `write_frame` reports success exactly if they are the whole of it.
pub record Framed (payload : Bytes) (o : Output) : Type 0 where
  pub count : ℕ
  pub within : count ≤ length (wrap_frame payload)
  pub sent : o.sent ≡ take count (wrap_frame payload)
  pub complete : (o.ok ≡ true) ↔ (o.sent ≡ wrap_frame payload)

whole_count :
    (count n : ℕ) (frame : Bytes)
    → length frame ≡ n
    → count ≤ n
    → (count ≡ n) ↔ (take count frame ≡ frame)
whole_count count n frame e h = (
  λ c. take-all count frame (omega arith),
  λ t. omega (arith, length-take count frame (omega arith), ap (λ (xs : Bytes). length xs) t),
)

-- Whatever `writev` does: the bytes on the connection are a prefix of the wrapped frame, and
-- `write_frame` reports success exactly if they are all of it.
pub write_frame-Framed :
    (schedule : List ℕ) (payload : Bytes) → Framed payload (write_frame schedule payload)
unfolding write_frame
write_frame-Framed schedule payload =
    let s =
      write_loop-Sent schedule (buffers_of payload) [] (4 + length payload) (frame_size payload) in
    let sent = s.sent ∙ ap (λ xs. take s.count xs) (total-buffers_of payload) in
    let whole = whole_count s.count _ (wrap_frame payload) (length-wrap_frame payload) s.within in
    record {
      count = s.count;
      within = rw length-wrap_frame s.within;
      sent = sent;
      complete = (λ o. sent ∙ whole.0 (s.complete.0 o), λ q. s.complete.1 (whole.1 (sym sent ∙ q)));
    }

-- `write_frame` succeeds if no call fails and there are as many calls as bytes.
pub write_frame-ok :
    (schedule : List ℕ) (payload : Bytes)
    → All (λ c. 0 < c) schedule
    → 4 + length payload ≤ length schedule
    → (write_frame schedule payload).ok ≡ true
unfolding write_frame
write_frame-ok schedule payload h few =
    write_loop-ok schedule (buffers_of payload) [] (4 + length payload) h few (frame_size payload)

read_payload-Took :
    (i : Input) (n : ℕ) → (read_payload i n).ok ≡ true → Took n i.stream [] (read_payload i n)
read_payload-Took i zero e = record { buffer = refl; stream = refl }
read_payload-Took i (suc n) e = read_exact-Took i.schedule i.stream [] (suc n) e

read_payload-ok :
    (i : Input) (n : ℕ)
    → All (λ c. 0 < c) i.schedule
    → n ≤ length i.schedule
    → n ≤ length i.stream
    → (read_payload i n).ok ≡ true
read_payload-ok i zero h few has = refl
read_payload-ok i (suc n) h few has = (read_exact-Done i.schedule i.stream [] (suc n) h few has).ok

length_lem :
    (payload : Bytes) → length payload < 2 ^ 32 → frame_length (header payload) ≡ length payload
length_lem payload h =
    ap (λ (r : Bool × ℕ × Bytes). r.1)
      (rw append-nil at (get_u32-put_u32 (length payload % 2 ^ 32) [] (omega arith)))
    ∙ omega arith

after_header :
    (i : Input) (payload more : Bytes)
    → length payload < 2 ^ 32
    → i.ok ≡ true
    → i.buffer ≡ header payload
    → i.stream ≡ payload ++ more
    → All (λ c. 0 < c) i.schedule
    → length payload ≤ length i.schedule
    → let j = read_payload i (frame_length i.buffer) in
      (j.ok ≡ true) × (j.buffer ≡ payload) × (j.stream ≡ more)
after_header i payload more small ok buffer stream h few =
    let size = ap frame_length buffer ∙ length_lem payload small in
    let done =
      read_payload-ok i (length payload) h few
        (omega (arith, ap (λ (xs : Bytes). length xs) stream, length-append payload more)) in
    let took = read_payload-Took i (length payload) done in
    rw size (
      done,
      took.buffer ∙ ap (λ xs. take (length payload) xs) stream ∙ take-length-append payload more,
      took.stream ∙ ap (λ xs. drop (length payload) xs) stream ∙ drop-length-append payload more,
    )

-- A frame, followed by any bytes: if no `recv` fails and there are as many calls as bytes, then
-- `read_frame` succeeds, gives the payload, and leaves the bytes that follow it.
pub read_frame-wrap_frame :
    (schedule : List ℕ) (payload more : Bytes)
    → length payload < 2 ^ 32
    → All (λ c. 0 < c) schedule
    → 4 + length payload ≤ length schedule
    → let i = read_frame schedule (wrap_frame payload ++ more) in
      (i.ok ≡ true) × (i.buffer ≡ payload) × (i.stream ≡ more)
unfolding read_frame wrap_frame put_u32
read_frame-wrap_frame schedule payload more small h few =
    let frame = wrap_frame payload ++ more in
    let size = length-append (wrap_frame payload) more in
    let done =
      read_exact-Done schedule frame [] 4 h (omega arith)
        (omega (arith, size, length-wrap_frame payload)) in
    let took = read_exact-Took schedule frame [] 4 done.ok in
    rw done.ok (
      after_header (read_exact schedule frame [] 4) payload more small done.ok
        (took.buffer
          ∙ ap (take 4) (append_assoc (header payload) payload more)
          ∙ take-length-append (header payload) (payload ++ more))
        (took.stream
          ∙ ap (drop 4) (append_assoc (header payload) payload more)
          ∙ drop-length-append (header payload) (payload ++ more))
        done.positive (omega (arith, done.left)))

-- A read of a frame that succeeds gives its payload, however the bytes arrived.
pub read_frame-buffer :
    (reads : List ℕ) (payload more : Bytes)
    → length payload < 2 ^ 32
    → (read_frame reads (wrap_frame payload ++ more)).ok ≡ true
    → (read_frame reads (wrap_frame payload ++ more)).buffer ≡ payload
unfolding read_frame wrap_frame put_u32
read_frame-buffer reads payload more small ok =
    let i = read_exact reads (wrap_frame payload ++ more) [] 4 in
    elim (Bool-cases i.ok) [
      | inr failed ↦ let bad : false ≡ true = rw failed at ok in cc
      | inl done ↦
          let took = read_exact-Took reads (wrap_frame payload ++ more) [] 4 done in
          let head : i.buffer ≡ header payload =
            took.buffer
            ∙ ap (take 4) (append_assoc (header payload) payload more)
            ∙ take-length-append (header payload) (payload ++ more) in
          let rest : i.stream ≡ payload ++ more =
            took.stream
            ∙ ap (drop 4) (append_assoc (header payload) payload more)
            ∙ drop-length-append (header payload) (payload ++ more) in
          let size = ap frame_length head ∙ length_lem payload small in
          rw (done, size)
            (let body = read_payload-Took i (length payload) (rw (done, size) at ok) in
              body.buffer
              ∙ ap (λ xs. take (length payload) xs) rest
              ∙ take-length-append payload more)
    ]
