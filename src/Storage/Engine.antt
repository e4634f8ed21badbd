-- ===== src/Storage/Engine.antt =====
-- src/storage/storage_engine.cpp: the logs of one broker, by key.
-- `disk` is what the constructor of a log finds in its directory: its regular files and its WAL.
pub mod Contents
pub mod Growth
pub mod Partitions
pub mod Restart
use streaming_platform.Prelude.{
  ℕ, Bool, true, false, Option, none, some, List, [], ◌∷◌, ◌++◌, map, ℤ, Assoc, lookup, insert,
  list_Key,
}
use streaming_platform.Text.{Bytes, dash, int_to_string, strip_prefix, stoi}
use streaming_platform.Groups.{sort}
use streaming_platform.Storage.Log
use streaming_platform.Storage.Log.{Log}
use streaming_platform.Storage.Log.Recovery.{File, open_log}

pub record Engine : Type 0 where
  pub logs : Assoc Bytes Log
  pub disk : Bytes → List File × Bytes
  pub max_segment_size : ℕ
  pub sync_batch_size : ℕ

-- The constructor: no log is open.
abbrev pub new_engine : (Bytes → List File × Bytes) → ℕ → ℕ → Engine
new_engine disk max_segment_size sync_batch_size = record {
  logs = [];
  disk = disk;
  max_segment_size = max_segment_size;
  sync_batch_size = sync_batch_size;
}

-- The constructor without a batch size
abbrev pub default_engine : (Bytes → List File × Bytes) → ℕ → Engine
default_engine disk max_segment_size = new_engine disk max_segment_size 64

unfoldable pub make_key : Bytes → ℤ → Bytes
make_key topic partition = topic ++ dash ∷ int_to_string partition

abbrev pub opened : Engine → Bytes → Log
opened e key =
    let (files, wal) = e.disk key in open_log files wal e.max_segment_size e.sync_batch_size

abbrev pub log_or_open : Engine → Bytes → Option Log → Log
log_or_open e key none = opened e key
log_or_open e key (some l) = l

unfoldable pub get_or_create_log : Bytes → Engine → Log
get_or_create_log key e = log_or_open e key (lookup key e.logs)

-- The engine, and the offset of the record.
unfoldable pub append : Bytes → ℤ → Bytes → Engine → Engine × ℕ
append topic partition message e =
    let key = make_key topic partition in
    let (l, offset) = Log.append message (get_or_create_log key e) in
    (record e { logs = insert key l e.logs }, offset)

abbrev pub fetch_in : ℕ → Option Log → Option Bytes
fetch_in offset none = none
fetch_in offset (some l) = Log.fetch offset l

-- `none` is an exception: no such log, or no such offset.
unfoldable pub fetch : Bytes → ℤ → ℕ → Engine → Option Bytes
fetch topic partition offset e = fetch_in offset (lookup (make_key topic partition) e.logs)

unfoldable pub flush : Bytes → ℤ → Engine → Engine
flush topic partition e =
    let key = make_key topic partition in
    elim (lookup key e.logs) [
      | none ↦ e
      | some l ↦ record e { logs = insert key (Log.flush l) e.logs }
    ]

abbrev pub flush_entry : Bytes × Log → Bytes × Log
flush_entry (key, l) = (key, Log.flush l)

unfoldable pub flush_all : Engine → Engine
flush_all e = record e { logs = map flush_entry e.logs }

unfoldable pub has_log : Bytes → ℤ → Engine → Bool
has_log topic partition e = elim (lookup (make_key topic partition) e.logs) [
  | none ↦ false
  | some l ↦ true
]

abbrev pub add_number : Option ℤ → List ℤ → List ℤ
add_number none ps = ps
add_number (some p) ps = p ∷ ps

-- The partition that a key stands for, as `partitions_for_topic` reads it.
unfoldable pub key_partition : Bytes → Bytes → Option ℤ
key_partition prefix key = elim (strip_prefix prefix key) [ none ↦ none | some rest ↦ stoi rest ]

unfoldable pub listed_partitions : Bytes → Assoc Bytes Log → List ℤ
listed_partitions prefix [] = []
listed_partitions prefix ((key, l) ∷ logs) =
    add_number (key_partition prefix key) (listed_partitions prefix logs)

unfoldable pub partitions_for_topic : Bytes → Engine → List ℤ
partitions_for_topic topic e = sort (listed_partitions (topic ++ dash ∷ []) e.logs)
