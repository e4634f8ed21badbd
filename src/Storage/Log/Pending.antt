-- ===== src/Storage/Log/Pending.antt =====
-- The WAL of an open log: what it holds is what the segments may still lose.
use streaming_platform.Prelude.{
  ℕ, suc, ◌+◌, ◌<◌, ◌≡◌, refl, sym, ap, subst, ◌∙◌, true, false, inl, inr, Option, none, some, List,
  [], ◌∷◌, ◌++◌, append-nil, append_assoc, arith, ltb, leb, Bool-cases, length, get_elem?,
  length-append, All,
}
use streaming_platform.Text.{Bytes}
use streaming_platform.Storage.Segment
use streaming_platform.Storage.Log.{
  Log, append_active, roll, active_size, write_wal, write_record, count_append, sync_pending,
  append, flush,
}
use streaming_platform.Storage.Log.Recovery.{
  open_log, load_existing_segments, load_sorted, sort_files, segment_files, recover_wal,
}
use streaming_platform.Storage.Log.Holding.{IsLog}
use streaming_platform.Storage.Log.Replay.{wal_record, wal_records}
use streaming_platform.Storage.Log.Refinement.{
  Call, appends, flushes, run, messages, Fits, append-IsLog, flush-IsLog, new_log-IsLog,
}

-- `base` has been synced; `pending` is in the WAL, record for record.
pub record Logged (l : Log) (ms : List Bytes) : Type 0 where
  pub base : List Bytes
  pub pending : List Bytes
  pub all : base ++ pending ≡ ms
  pub wal_eq : l.wal ≡ wal_records (length base) pending
  pub counted : l.pending_appends ≡ length pending
  pub few : length pending < l.sync_batch_size
  pub next : l.next_offset ≡ length ms

wal_records-snoc :
    (k : ℕ) (ms : List Bytes) (m : Bytes)
    → wal_records k (ms ++ m ∷ []) ≡ wal_records k ms ++ wal_record (k + length ms) m
wal_records-snoc k [] m = append-nil (wal_record k m) ∙ ap (λ i. wal_record i m) (omega arith)
wal_records-snoc k (x ∷ ms) m =
    ap (λ t. wal_record k x ++ t)
      (wal_records-snoc (k + 1) ms m
        ∙ ap (λ i. wal_records (k + 1) ms ++ wal_record i m) (shift k (length ms)))
    ∙ sym (
        append_assoc (wal_record k x) (wal_records (k + 1) ms) (wal_record (k + suc (length ms)) m))
  where
    shift : (k n : ℕ) → k + 1 + n ≡ k + suc n
    shift k n = omega arith

-- What appending a record and rolling leave alone.
record SameCounts (l l' : Log) : Type 0 where
  wal : l'.wal ≡ l.wal
  batch : l'.sync_batch_size ≡ l.sync_batch_size
  pending : l'.pending_appends ≡ l.pending_appends

roll-SameCounts : (l : Log) → SameCounts l (roll l) × ((roll l).next_offset ≡ l.next_offset)
unfolding roll
roll-SameCounts l = elim (Bool-cases (leb l.max_segment_size (active_size l))) [
  | inl full ↦ rw full (record { wal = refl; batch = refl; pending = refl }, refl)
  | inr room ↦ rw room (record { wal = refl; batch = refl; pending = refl }, refl)
]

append_active-SameCounts :
    (m : Bytes) (o : Option Segment.LogSegment) (l : Log) → SameCounts l (append_active m o l)
append_active-SameCounts m none l = record { wal = refl; batch = refl; pending = refl }
append_active-SameCounts m (some s) l = record { wal = refl; batch = refl; pending = refl }

-- A record written, not yet counted.
written :
    (l : Log) (m : Bytes)
    → ((roll (write_record m l)).wal ≡ write_wal l.next_offset m l.wal)
      × ((roll (write_record m l)).sync_batch_size ≡ l.sync_batch_size)
      × ((roll (write_record m l)).pending_appends ≡ l.pending_appends)
unfolding write_record
written l m =
    let l' = record l { wal = write_wal l.next_offset m l.wal } in
    let o = get_elem? l.segments l.active_segment_index in
    let a = append_active-SameCounts m o l' in
    let (r, n) = roll-SameCounts (append_active m o l') in
    (r.wal ∙ a.wal, r.batch ∙ a.batch, r.pending ∙ a.pending)

write_wal-wal_records :
    (base pending ms : List Bytes) (m : Bytes) (next : ℕ)
    → base ++ pending ≡ ms
    → next ≡ length ms
    → write_wal next m (wal_records (length base) pending)
      ≡ wal_records (length base) (pending ++ m ∷ [])
unfolding write_wal wal_record
write_wal-wal_records base pending ms m next e n =
    let k : length base + length pending ≡ next =
      omega (arith, length-append base pending, ap (λ (xs : List Bytes). length xs) e, n) in
    sym (wal_records-snoc (length base) pending m ∙ rw k refl)

module _ (l : Log) (ms : List Bytes) (m : Bytes)
    (next' : (append m l).0.next_offset ≡ length (ms ++ m ∷ [])) where
  -- The batch is not full: the record joins those that wait.
  append-waits :
      (h : Logged l ms)
      → leb
          (roll (write_record m l)).sync_batch_size
          ((roll (write_record m l)).pending_appends + 1)
        ≡ false
      → Logged (append m l).0 (ms ++ m ∷ [])
  unfolding append count_append
  append-waits h room =
      let (w, b, p) = written l m in
      rw room (record {
        base = h.base;
        pending = h.pending ++ m ∷ [];
        all = sym (append_assoc h.base h.pending (m ∷ [])) ∙ ap (λ t. t ++ m ∷ []) h.all;
        wal_eq =
            w
            ∙ ap (write_wal l.next_offset m) h.wal_eq
            ∙ write_wal-wal_records h.base h.pending ms m l.next_offset h.all h.next;
        counted = omega (arith, p, h.counted, length-append h.pending (m ∷ []));
        few = ground (arith, p, b, h.counted, length-append h.pending (m ∷ []));
        next = rw room at next';
      })

  -- It is full: the WAL is emptied behind the sync.
  append-syncs :
      (h : Logged l ms)
      → leb
          (roll (write_record m l)).sync_batch_size
          ((roll (write_record m l)).pending_appends + 1)
        ≡ true
      → Logged (append m l).0 (ms ++ m ∷ [])
  unfolding append count_append sync_pending
  append-syncs h full =
      let (w, b, p) = written l m in
      rw full (record {
        base = ms ++ m ∷ [];
        pending = [];
        all = append-nil (ms ++ m ∷ []);
        wal_eq = refl;
        counted = refl;
        few = omega (arith, b, h.few);
        next = rw full at next';
      })

  append-Logged : Logged l ms → Logged (append m l).0 (ms ++ m ∷ [])
  append-Logged h =
      let l' = roll (write_record m l) in
      elim (Bool-cases (leb l'.sync_batch_size (l'.pending_appends + 1))) [
        | inl full ↦ append-syncs h full
        | inr room ↦ append-waits h room
      ]

flush-Logged : (l : Log) (ms : List Bytes) → Logged l ms → Logged (flush l) ms
unfolding flush sync_pending
flush-Logged l ms h = elim (Bool-cases (ltb 0 l.pending_appends)) [
  | inl due ↦ rw due (record {
    base = ms;
    pending = [];
    all = append-nil ms;
    wal_eq = refl;
    counted = refl;
    few = omega (arith, h.few);
    next = h.next;
  })
  | inr idle ↦ rw idle h
]

run-Logged :
    (cs : List Call) (l : Log) (ms : List Bytes)
    → All Fits cs
    → IsLog l ms
    → Logged l ms
    → Logged (run cs l) (ms ++ messages cs)
unfolding run
run-Logged [] l ms f h g = subst (Logged l) (sym (append-nil ms)) g
run-Logged (appends m ∷ cs) l ms f h g =
    let h' = append-IsLog l ms m f.0 h in
    subst (Logged (run cs (append m l).0)) (append_assoc ms (m ∷ []) (messages cs))
      (run-Logged cs (append m l).0 (ms ++ m ∷ []) f.1 h' (append-Logged l ms m h'.counted g))
run-Logged (flushes ∷ cs) l ms f h g =
    run-Logged cs (flush l) ms f.1 (flush-IsLog l ms h) (flush-Logged l ms g)

new_log-Logged : (max_size batch : ℕ) → Logged (open_log [] [] max_size batch) []
unfolding open_log load_existing_segments load_sorted sort_files segment_files recover_wal
new_log-Logged max_size batch = record {
  base = [];
  pending = [];
  all = refl;
  wal_eq = refl;
  counted = refl;
  few = omega arith;
  next = refl;
}

-- From an empty directory, after any sequence of appends and flushes of messages shorter than 2^64
-- bytes: the WAL holds, record for record, the last messages, those that have been appended since
-- the last sync, and these are fewer than the size of a batch.
pub run-wal :
    (cs : List Call) (max_size batch : ℕ)
    → All Fits cs
    → (base : List Bytes) × (pending : List Bytes) × (messages cs ≡ base ++ pending)
      × ((run cs (open_log [] [] max_size batch)).wal ≡ wal_records (length base) pending)
      × ((run cs (open_log [] [] max_size batch)).pending_appends ≡ length pending)
      × (length pending < (run cs (open_log [] [] max_size batch)).sync_batch_size)
run-wal cs max_size batch f =
    let g =
      run-Logged cs (open_log [] [] max_size batch) [] f (new_log-IsLog max_size batch)
        (new_log-Logged max_size batch) in
    (g.base, g.pending, sym g.all, g.wal_eq, g.counted, g.few)
