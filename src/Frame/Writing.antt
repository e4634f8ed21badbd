-- ===== src/Frame/Writing.antt =====
-- The loop over `writev`: what it sends, and when it ends.
use streaming_platform.Prelude.{
  ℕ, zero, suc, ◌+◌, ◌-◌, ◌≤◌, ◌<◌, ◌≡◌, refl, sym, ap, ◌∙◌, ◌↔◌, true, false, inl, inr, List, [],
  ◌∷◌, ◌++◌, append-nil, append_assoc, arith, min, nat_eq, length, take, drop, length-drop,
  drop-append, drop-all, take-add, All, Bool-cases,
}
use streaming_platform.Text.{Bytes}
use streaming_platform.Frame.{Output, total, consume, write_loop}

total-consume : (n : ℕ) (bs : List Bytes) → total (consume n bs) ≡ drop n (total bs)
unfolding consume
total-consume n [] = sym (drop-all n [] (omega arith))
total-consume n (b ∷ bs) =
    ground (arith, total-consume (n - length b) bs, drop-append n b (total bs), drop-all n b)

-- `k` bytes of the buffers went out; all of them exactly if the loop reports success.
pub record Sent (buffers : List Bytes) (out : Bytes) (n : ℕ) (o : Output) : Type 0 where
  pub count : ℕ
  pub within : count ≤ n
  pub sent : o.sent ≡ out ++ take count (total buffers)
  pub complete : (o.ok ≡ true) ↔ (count ≡ n)

-- The rest of a write, after a first call that moved `m` bytes.
Sent-after :
    (m n : ℕ) (buffers : List Bytes) (out : Bytes) (o : Output)
    → m ≤ n
    → Sent (consume m buffers) (out ++ take m (total buffers)) (n - m) o
    → Sent buffers out n o
Sent-after m n buffers out o h t = record {
  count = m + t.count;
  within = omega (arith, t.within);
  sent =
      t.sent
      ∙ append_assoc out (take m (total buffers)) _
      ∙ ap (λ xs. out ++ (take m (total buffers) ++ take t.count xs)) (total-consume m buffers)
      ∙ ap (λ xs. out ++ xs) (take-add m t.count (total buffers));
  complete = ground (arith, t.complete, t.within);
}

Sent-none :
    (n : ℕ) (buffers : List Bytes) (out : Bytes)
    → 0 < n
    → Sent buffers out n (record { ok = false; sent = out })
Sent-none n buffers out h = record {
  count = 0;
  within = omega arith;
  sent = sym (append-nil out);
  complete = ground arith;
}

length-consume :
    (m n : ℕ) (buffers : List Bytes)
    → length (total buffers) ≡ n
    → length (total (consume m buffers)) ≡ n - m
length-consume m n buffers e = rw total-consume (length-drop m (total buffers) ∙ rw e)

pub write_loop-Sent :
    (schedule : List ℕ) (buffers : List Bytes) (out : Bytes) (n : ℕ)
    → length (total buffers) ≡ n
    → Sent buffers out n (write_loop schedule buffers out n)
unfolding write_loop
write_loop-Sent schedule buffers out zero e = record {
  count = 0;
  within = omega arith;
  sent = sym (append-nil out);
  complete = ground arith;
}
write_loop-Sent [] buffers out (suc n) e = Sent-none (suc n) buffers out (omega arith)
write_loop-Sent (c ∷ cs) buffers out (suc n) e =
    let m = min c (length (total buffers)) in
    elim (Bool-cases (nat_eq m 0)) [
      | inl none ↦ rw none (Sent-none (suc n) buffers out (omega arith))
      | inr some ↦ rw some (
          Sent-after m (suc n) buffers out _ (omega arith) (
            write_loop-Sent cs (consume m buffers) (out ++ take m (total buffers)) (suc n - m)
              (length-consume m (suc n) buffers e)))
    ]

-- The loop ends with success when no call fails and there are as many calls as bytes.
pub write_loop-ok :
    (schedule : List ℕ) (buffers : List Bytes) (out : Bytes) (n : ℕ)
    → All (λ c. 0 < c) schedule
    → n ≤ length schedule
    → length (total buffers) ≡ n
    → (write_loop schedule buffers out n).ok ≡ true
unfolding write_loop
write_loop-ok schedule buffers out zero h few e = refl
write_loop-ok [] buffers out (suc n) h few e = absurd (omega arith)
write_loop-ok (c ∷ cs) buffers out (suc n) h few e =
    let m = min c (length (total buffers)) in
    ground (
      arith,
      length-consume m (suc n) buffers,
      write_loop-ok cs (consume m buffers) (out ++ take m (total buffers)) (suc n - m) h.1,
    )
