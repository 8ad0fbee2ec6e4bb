-- ===== src/Engine/Closing.antt =====
-- The handlers of `run_scheduler` (src/engine/scheduler.rs) and the order of the pending events.
use atomic_blob_store.Prelude.{ℕ, refl, false, not, ◌||◌, Option, none, some, if-holds, is_empty}
use atomic_blob_store.Errors.{Result, CleanupReport}
use atomic_blob_store.Engine.Operation.{Operation, BlockingResult, Reply, deliver}
use atomic_blob_store.Engine.Event.{
  Submission, MaintenanceSubmission, CoordinatorEvent, PendingEvent,
}
use atomic_blob_store.Engine.Queues.{KeyOrder, contains, remove}
use atomic_blob_store.Engine.Scheduler.{Scheduler, reply, enqueue, is_open}
use atomic_blob_store.Engine.Coordinator.{
  tidy, reply_if_any, deliver_outcome, reply_maintenance, finish_completion, on_submission,
  on_completion, on_maintenance, on_maintenance_completion, on_flush, on_close, handle,
}
use atomic_blob_store.Engine.Answers.{round_state}
use atomic_blob_store.Engine.Stable.{Kept}
use atomic_blob_store.Engine.Pending.{
  Shaped, Shaped-append, Shaped-accept_close, Shaped-dispatched, Shaped-ready,
}

module _ (max_concurrent_operations : ℕ) (order : KeyOrder) where
  Shaped-on_submission :
      (x : Submission) (s : Scheduler)
      → Shaped s
      → Shaped (round_state (on_submission max_concurrent_operations order x s))
  unfolding on_submission
  Shaped-on_submission x s h =
      if-holds (λ r. Shaped (round_state r)) (not (is_open s.lifecycle)) (λ e. h)
        (λ e.
          if-holds (λ r. Shaped (round_state r)) (s.maintenance_active || not (is_empty s.pending))
            (λ e'. Shaped-append s (PendingEvent.submission x) e refl h)
            (λ e'. Shaped-dispatched max_concurrent_operations order x.key_hash (enqueue x s) h))

  Shaped-on_maintenance :
      (m : MaintenanceSubmission) (s : Scheduler)
      → Shaped s
      → Shaped (round_state (on_maintenance max_concurrent_operations order m s))
  unfolding on_maintenance
  Shaped-on_maintenance m s h =
      if-holds (λ r. Shaped (round_state r)) (not (is_open s.lifecycle)) (λ e. h)
        (λ e.
          Shaped-ready max_concurrent_operations order _
            (Shaped-append s (PendingEvent.maintenance m) e refl h))

  Shaped-on_flush :
      (u : ℕ) (s : Scheduler)
      → Shaped s
      → Shaped (round_state (on_flush max_concurrent_operations order u s))
  unfolding on_flush
  Shaped-on_flush u s h =
      if-holds (λ r. Shaped (round_state r)) (not (is_open s.lifecycle)) (λ e. h)
        (λ e.
          Shaped-ready max_concurrent_operations order _
            (Shaped-append s (PendingEvent.flush u) e refl h))

  Shaped-tidy : (k : ℕ) (s : Scheduler) → Shaped s → Shaped (tidy k s)
  Shaped-tidy k s h = if-holds Shaped (contains k s.active) (λ e. h) (λ e. h)

  Shaped-maintenance_outcome :
      (o : Option (ℕ × Result CleanupReport)) (s : Scheduler)
      → Shaped s
      → Shaped (reply_maintenance (record { outcome = o }) s)
  Shaped-maintenance_outcome none s h = h
  Shaped-maintenance_outcome (some (u, r)) s h = h

  Shaped-finish :
      (r : Option (ℕ × Reply)) (s : Scheduler)
      → Shaped s
      → Kept Shaped (finish_completion max_concurrent_operations order (reply_if_any r s))
  Shaped-finish none s h = tt
  Shaped-finish (some r) s h = Shaped-ready max_concurrent_operations order (reply r s) h

  Shaped-outcome :
      (o : Option (Operation × BlockingResult)) (s : Scheduler)
      → Shaped s
      → Kept Shaped (finish_completion max_concurrent_operations order (deliver_outcome o s))
  Shaped-outcome none s h = Shaped-ready max_concurrent_operations order s h
  Shaped-outcome (some (op, result)) s h = Shaped-finish (deliver op result) s h

  pub Shaped-handle :
      (e : CoordinatorEvent) (s : Scheduler)
      → Shaped s
      → Kept Shaped (handle max_concurrent_operations order e s)
  unfolding handle on_completion on_maintenance_completion on_close
  Shaped-handle (CoordinatorEvent.submission x) s h = Shaped-on_submission x s h
  Shaped-handle (CoordinatorEvent.completion c) s h =
      let freed = record s { active = remove c.key_hash s.active } in
      Shaped-outcome c.outcome _ (
        Shaped-tidy c.key_hash _
          (Shaped-dispatched max_concurrent_operations order c.key_hash freed h))
  Shaped-handle (CoordinatorEvent.maintenance m) s h = Shaped-on_maintenance m s h
  Shaped-handle (CoordinatorEvent.maintenance_completion c) s h =
      Shaped-ready max_concurrent_operations order _
        (Shaped-maintenance_outcome c.outcome (record s { maintenance_active = false }) h)
  Shaped-handle (CoordinatorEvent.flush u) s h = Shaped-on_flush u s h
  Shaped-handle (CoordinatorEvent.close u) s h =
      Shaped-ready max_concurrent_operations order _ (Shaped-accept_close s.lifecycle u s refl h)
