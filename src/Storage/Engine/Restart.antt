-- ===== src/Storage/Engine/Restart.antt =====
-- An engine of src/storage/storage_engine.cpp that starts on what a crash has left of a log.
use streaming_platform.Prelude.{◌≡◌, List}
use streaming_platform.Text.{Bytes}
use streaming_platform.Storage.Log
use streaming_platform.Storage.Log.{Log}
use streaming_platform.Storage.Log.Recovery.{File}
use streaming_platform.Storage.Log.Refinement
use streaming_platform.Storage.Engine.{Engine}

-- What the disk holds under a key.
abbrev pub Finds : (Bytes → List File × Bytes) → Bytes → List File → Bytes → Type 0
Finds disk key files wal = disk key ≡ (files, wal)
