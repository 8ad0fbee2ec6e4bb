-- ===== src/Engine/Opening/Tests.antt =====
-- Opening a store on the system in memory, with `EngineHandle::open` of src/engine/mod.rs.
use atomic_blob_store.Prelude.{
  ℕ, ◌+◌, ◌≤◌, ◌≡◌, ◌≢◌, refl, Bool, true, Option, none, some, List, [], ◌∷◌,
}
use atomic_blob_store.Prelude.Bytes.{u64_max}
use atomic_blob_store.Errors.{ok, err, io, start_coordinator, other}
use atomic_blob_store.Config.{AtomicBlobStoreOptions, validate_maximum}
use atomic_blob_store.Format.Reader.{done, failed, plain_error}
use atomic_blob_store.Engine.Tests.{insertion_order}
use atomic_blob_store.Engine.Scheduler.{start}
use atomic_blob_store.Engine.Workers.{new_pool}
use atomic_blob_store.Engine.System.{Reachable}
use atomic_blob_store.Engine.Front.{joined, Store}
use atomic_blob_store.Engine.Opening.{open_handle}
use atomic_blob_store.Engine.Opening.Opened.{open_handle-ok}
use atomic_blob_store.Filesystem.{FilePath}
use atomic_blob_store.Filesystem.Unix.{sync_directory}
use atomic_blob_store.Filesystem.Unix.Memory.{Memory, memory}
use atomic_blob_store.Filesystem.Unix.Start.{initialize_platform, resolve_root, HasNamespace}
use atomic_blob_store.Paths.{PathComponent, normal, validate_namespace}

abbrev empty_memory : Memory
empty_memory = record { entries = []; draws = 0 }

abbrev options : AtomicBlobStoreOptions
options = record {
  format = record { domain_tag = []; filename_suffix = []; envelope_version = 1 };
  max_blob_size = 64;
  max_concurrent_operations = 4;
}

abbrev one_component : List ℕ → List PathComponent
one_component text = normal text ∷ []

-- A thread can always be started.
abbrev spawned : ℕ → Option Bool
spawned n = some true

abbrev opened_store : Store
opened_store = record {
  coordinator = start (new_pool 4 spawned);
  connected = true;
  maximum = 64;
  join = record { handle = joined; outcome = none };
}

opens :
    (open_handle
      (initialize_platform memory)
      one_component
      (done joined)
      spawned
      []
      (b'n' ∷ [])
      options
      empty_memory).0
    ≡ ok opened_store
unfolding open_handle validate_namespace validate_maximum initialize_platform sync_directory
opens = refl

no_thread :
    (open_handle
      (initialize_platform memory)
      one_component
      (failed (plain_error other))
      spawned
      []
      (b'n' ∷ [])
      options
      empty_memory).0
    ≡ err (io start_coordinator (plain_error other))
unfolding open_handle validate_namespace validate_maximum initialize_platform sync_directory
no_thread = refl

open_handle-ok_example :
    (component : FilePath) × (one_component (b'n' ∷ []) ≡ normal component ∷ [])
    × (component ≢ [])
    × (64 + 22 ≤ u64_max)
    × ((absolute : FilePath) × (resolve_root memory [] empty_memory ≡ ok absolute)
        × HasNamespace memory (memory.join absolute component) empty_memory)
    × (opened_store.connected ≡ true)
    × (opened_store.maximum ≡ 64)
    × Reachable 4 insertion_order spawned [] opened_store.coordinator
open_handle-ok_example =
    open_handle-ok memory one_component (done joined) spawned insertion_order [] (b'n' ∷ []) options
      empty_memory opened_store opens
