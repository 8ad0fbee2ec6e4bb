-- ===== src/Engine/System.antt =====
-- The coordinator together with its callers and its workers, src/engine/mod.rs and
-- src/engine/scheduler.rs: a caller sends an event, a worker finishes the job of any position, the
-- coordinator takes the first event of its channel.
pub mod Rounds
pub mod Invariants
pub mod Fitting
pub mod Guarantees
use atomic_blob_store.Prelude.{
  ℕ, ◌+◌, ◌*◌, ◌≤◌, ◌≡◌, refl, ◌∙◌, sym, Bool, true, false, Option, none, some, List, [], ◌∷◌, ◌++◌,
  ◌==◌, length, arith, if◌then◌else◌,
}
use atomic_blob_store.Errors.{Result, CleanupReport}
use atomic_blob_store.Engine.Operation.{Operation, BlockingResult, Reply, dropped, sender, deliver}
use atomic_blob_store.Engine.Event.{CoordinatorEvent, MaintenanceSubmission}
use atomic_blob_store.Engine.Workers.{WorkerPool, new_pool}
use atomic_blob_store.Engine.Queues.{KeyOrder}
use atomic_blob_store.Engine.Scheduler.{
  Job, operate, maintain, Scheduler, start, reply, notify, lost_completion, lost_maintenance,
}
use atomic_blob_store.Engine.Coordinator.{running, stopped, round}
use atomic_blob_store.Engine.Accounting.{fits}

-- The events that `submit` and the store's other entry points send.
abbrev pub is_request : CoordinatorEvent → Bool
is_request (CoordinatorEvent.completion c) = false
is_request (CoordinatorEvent.maintenance_completion c) = false
is_request _ = true

-- What a worker reports of a job: `none` for a job that panicked, whose sender is dropped with it.
abbrev pub finish_job :
    Job → Option BlockingResult → Option (Result CleanupReport) → Scheduler → Scheduler
finish_job (operate k op) none r s = notify (lost_completion k) (reply (sender op, dropped) s)
finish_job (operate k op) (some result) r s =
    notify (CoordinatorEvent.completion (record { key_hash = k; outcome = some (op, result) })) s
finish_job (maintain m) result none s = notify lost_maintenance (reply (m.sender, dropped) s)
finish_job (maintain m) result (some r) s =
    notify (CoordinatorEvent.maintenance_completion (record { outcome = some (m.sender, r) })) s

-- `run_owned_operation` returns a result of its operation's kind.
abbrev pub is_result_of : Job → Option BlockingResult → Bool
is_result_of (operate k op) (some result) =
    fits (CoordinatorEvent.completion (record { key_hash = k; outcome = some (op, result) }))
is_result_of _ _ = true

-- The states that a store reaches, with the requests that were sent to it, newest first.
pub data Reachable (max_concurrent_operations : ℕ) (order : KeyOrder) (spawn : ℕ → Option Bool)
    : List CoordinatorEvent → Scheduler → Type 0 where
  started :
      Reachable max_concurrent_operations order spawn []
        (start (new_pool max_concurrent_operations spawn))
  sent :
      {requests : List CoordinatorEvent} {s : Scheduler} (e : CoordinatorEvent)
      → is_request e ≡ true
      → Reachable max_concurrent_operations order spawn requests s
      → Reachable max_concurrent_operations order spawn (e ∷ requests) (notify e s)
  worked :
      {requests : List CoordinatorEvent} {s : Scheduler} (before after : List Job) (job : Job)
      (result : Option BlockingResult) (report : Option (Result CleanupReport))
      → s.jobs ≡ before ++ (job ∷ after)
      → is_result_of job result ≡ true
      → Reachable max_concurrent_operations order spawn requests s
      → Reachable max_concurrent_operations order spawn requests
          (finish_job job result report (record s { jobs = before ++ after }))
  took :
      {requests : List CoordinatorEvent} {s s' : Scheduler} (e : CoordinatorEvent)
      (rest : List CoordinatorEvent)
      → s.channel ≡ e ∷ rest
      → round max_concurrent_operations order e (record s { channel = rest }) ≡ running s'
      → Reachable max_concurrent_operations order spawn requests s
      → Reachable max_concurrent_operations order spawn requests s'
