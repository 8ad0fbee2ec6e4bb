-- ===== src/Engine/Workers/Tests.antt =====
-- A pool of src/engine/workers.rs that may not start its second thread.
use atomic_blob_store.Prelude.{◌==◌, if◌then◌else◌, none, some, false, arith}
use atomic_blob_store.Engine.Workers.{WorkerPool, new_pool, prepare}
use atomic_blob_store.Engine.Workers.Capacity.{IsPrepared, prepare-IsPrepared}

abbrev one_thread : WorkerPool
unfolding new_pool
one_thread = new_pool 4 (λ n. if n == 0 then some false else none)

prepare-IsPrepared_example : IsPrepared 3 4 (prepare one_thread 3)
unfolding new_pool
prepare-IsPrepared_example = prepare-IsPrepared one_thread 3 (omega arith)
