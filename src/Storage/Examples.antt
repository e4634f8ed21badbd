-- ===== src/Storage/Examples.antt =====
-- A segment, a log, what a crash leaves of one, and an engine: the theorems at concrete inputs.
use streaming_platform.Prelude.{
  ◌<◌, ◌≡◌, refl, true, some, List, [], ◌∷◌, ◌++◌, arith, All, length, get_elem?, pos, lookup,
  insert, list_Key,
}
use streaming_platform.Text.{Bytes, codes, to_string, int_to_string}
use streaming_platform.Storage.Segment
use streaming_platform.Storage.Segment.{LogSegment, append, read}
use streaming_platform.Storage.Segment.Records.{records, read-append}
use streaming_platform.Storage.Segment.Records
use streaming_platform.Storage.Log
use streaming_platform.Storage.Log.{fetch}
use streaming_platform.Storage.Log.Recovery.{File, open_log}
use streaming_platform.Storage.Log.Refinement.{
  Call, appends, flushes, run, messages, Fits, run-fetch, new_log-IsLog,
}
use streaming_platform.Storage.Log.Replay.{wal_records}
use streaming_platform.Storage.Log.Pending.{run-wal}
use streaming_platform.Storage.Log.Reopening.{Remains, wal_bytes}
use streaming_platform.Storage.Engine
use streaming_platform.Storage.Engine.{Engine, has_log, partitions_for_topic}
use streaming_platform.Storage.Engine.Partitions.{
  partitions_for_topic-has_log, partitions_for_topic-phantom,
}
use streaming_platform.Groups.{contains}
use streaming_platform.Storage.Engine.Contents.{IsEngine, fetch-append}

abbrev segment : LogSegment
segment = record { name = codes "segment-0.log"; file = []; current_size = 0; durable = 0 }

read-append_example :
    read
      (append (codes "one") segment).1
      (Records.appends (codes "two" ∷ []) (append (codes "one") segment).0)
    ≡ some (codes "one")
read-append_example = read-append (codes "one") (codes "two" ∷ []) segment refl (omega arith)

abbrev three_calls : List Call
three_calls = appends (codes "one") ∷ flushes ∷ appends (codes "two") ∷ []

three_calls-Fits : All Fits three_calls
three_calls-Fits = omega arith

run-fetch_example :
    (fetch 1 (run three_calls (open_log [] [] 10 64)) ≡ get_elem? (messages three_calls) 1)
    × ((Log.append (codes "three") (run three_calls (open_log [] [] 10 64))).1
        ≡ length (messages three_calls))
run-fetch_example = run-fetch three_calls 10 64 1 (codes "three") three_calls-Fits

run-wal_example :
    (base : List Bytes) × (pending : List Bytes) × (messages three_calls ≡ base ++ pending)
    × ((run three_calls (open_log [] [] 10 64)).wal ≡ wal_records (length base) pending)
    × ((run three_calls (open_log [] [] 10 64)).pending_appends ≡ length pending)
    × (length pending < (run three_calls (open_log [] [] 10 64)).sync_batch_size)
run-wal_example = run-wal three_calls 10 64 three_calls-Fits

-- A segment with "one" and a part of "two", both of which are in the WAL, and "three" is lost.
abbrev crashed_calls : List Call
crashed_calls = appends (codes "one") ∷ appends (codes "two") ∷ appends (codes "three") ∷ []

abbrev remains : Remains
remains = record {
  rows = [];
  kept = codes "one" ∷ [];
  tail = 3 ∷ 0 ∷ [];
  base = [];
  old = codes "one" ∷ [];
  new = codes "two" ∷ [];
  wal_tail = 2 ∷ 0 ∷ [];
  lost = codes "three" ∷ [];
}

abbrev directory : List File
directory = (codes "segment-0.log", records (codes "one" ∷ []) ++ 3 ∷ 0 ∷ []) ∷ []

-- An engine that starts on this directory.
abbrev left_disk : Bytes → List File × Bytes
left_disk key = (directory, wal_bytes remains)

abbrev pub fresh : Engine.Engine
fresh = record { logs = []; disk = λ key. ([], []); max_segment_size = 1024; sync_batch_size = 64 }

pub fresh-IsEngine : IsEngine fresh (λ key. [])
unfolding Engine.get_or_create_log lookup
fresh-IsEngine = record { at = λ key. new_log-IsLog 1024 64 }

fetch-append_example :
    Engine.fetch
      (codes "t")
      (pos 0)
      (Engine.append (codes "t") (pos 0) (codes "m") fresh).1
      (Engine.append (codes "t") (pos 0) (codes "m") fresh).0
    ≡ some (codes "m")
fetch-append_example =
    fetch-append (codes "t") (pos 0) (codes "m") fresh (λ key. []) (omega arith) fresh-IsEngine

-- The topics orders and orders-1
abbrev two_topics : Engine
two_topics =
    (Engine.append (codes "orders-1") (pos 2) (codes "m")
      (Engine.append (codes "orders") (pos 0) (codes "m") fresh).0).0

orders-has_log : has_log (codes "orders") (pos 0) two_topics ≡ true
unfolding has_log lookup insert Engine.append Engine.make_key int_to_string
orders-has_log = refl

orders_1-has_log : has_log (codes "orders-1") (pos 2) two_topics ≡ true
unfolding has_log lookup insert Engine.append Engine.make_key int_to_string
orders_1-has_log = refl

partitions_for_topic-has_log_example :
    contains (pos 0) (partitions_for_topic (codes "orders") two_topics) ≡ true
partitions_for_topic-has_log_example =
    partitions_for_topic-has_log (codes "orders") 0 two_topics (omega arith) orders-has_log

partitions_for_topic-phantom_example :
    contains (pos 1) (partitions_for_topic (codes "orders") two_topics) ≡ true
unfolding to_string
partitions_for_topic-phantom_example =
    partitions_for_topic-phantom (codes "orders") 1 (pos 2) two_topics (omega arith)
      orders_1-has_log
