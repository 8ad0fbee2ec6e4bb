-- ===== src/Engine/Opening.antt =====
-- `EngineHandle::open` and `from_config` of src/engine/mod.rs. `thread` is what the start of
-- the coordinator's thread answers: the outcome of joining it, or an error.
pub mod Opened
mod Tests
use atomic_blob_store.Prelude.{ℕ, Bool, true, Option, none, List}
use atomic_blob_store.Errors.{Result, ok, err, io, start_coordinator}
use atomic_blob_store.Config.{AtomicBlobStoreOptions, BlobFormatIdentity, validate_maximum}
use atomic_blob_store.Format.Reader.{IoResult, done, failed}
use atomic_blob_store.Engine.Workers.{new_pool}
use atomic_blob_store.Engine.Scheduler.{start}
use atomic_blob_store.Engine.Front.{CoordinatorJoinOutcome, Store}
use atomic_blob_store.Filesystem.{FilePath, StoreConfig}
use atomic_blob_store.Filesystem.Actions.{Action, lift, ◌>>=◌, ◌>>◌}
use atomic_blob_store.Paths.{PathComponent, validate_namespace}

abbrev pub from_config :
    IoResult CoordinatorJoinOutcome → (ℕ → Option Bool) → StoreConfig → Result Store
from_config (failed e) spawn config = err (io start_coordinator e)
from_config (done handle) spawn config = ok (record {
  coordinator = start (new_pool config.max_concurrent_operations spawn);
  connected = true;
  maximum = config.maximum;
  join = record { handle = handle; outcome = none };
})

-- With `initialize_platform` of the system.
module _ {S : Type 0}
    (initialize : FilePath → FilePath → BlobFormatIdentity → ℕ → ℕ → Action S StoreConfig)
    (components : List ℕ → List PathComponent) (thread : IoResult CoordinatorJoinOutcome)
    (spawn : ℕ → Option Bool) where
  unfoldable pub open_handle : FilePath → List ℕ → AtomicBlobStoreOptions → Action S Store
  open_handle root namespace options = do
    component ← lift (validate_namespace components namespace)
    lift (validate_maximum options.max_blob_size)
    config ←
        initialize root component options.format options.max_blob_size
          options.max_concurrent_operations
    lift (from_config thread spawn config)
