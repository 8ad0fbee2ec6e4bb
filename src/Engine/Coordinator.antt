-- ===== src/Engine/Coordinator.antt =====
-- The body of `run_scheduler` of src/engine/scheduler.rs: one handler for each kind of event, the
-- closing check at the end of a round, and the drain of the channel after a panic.
use atomic_blob_store.Prelude.{
  ℕ, Bool, true, false, not, ◌&&◌, ◌||◌, Option, none, some, List, [], ◌∷◌, ◌++◌, if◌then◌else◌,
  is_empty,
}
use atomic_blob_store.Errors.{Result, ok, err, store_closed, engine_failed, shutdown_failure}
use atomic_blob_store.Engine.Operation.{
  Operation, BlockingResult, Reply, cleaned, passed, dropped, sender, deliver, deliver_error,
}
use atomic_blob_store.Engine.Event.{
  Lifecycle, opened, closing, closed, shutdown_failed, failed, Submission, Completion,
  MaintenanceSubmission, MaintenanceCompletion, CoordinatorEvent, PendingEvent,
}
use atomic_blob_store.Engine.Workers.{WorkerPool, shutdown}
use atomic_blob_store.Engine.Queues.{KeyOrder, contains, remove, remove_if_empty, all_empty}
use atomic_blob_store.Engine.Scheduler.{
  Scheduler, reply, is_open, enqueue, dispatch_if_idle, dispatch_available,
  advance_pending_if_ready,
}

-- A handler's `continue` skips the closing check of the round.
pub data Round : Type 0 where
  checked skipped : Scheduler → Round

pub data Progress : Type 0 where
  running stopped : Scheduler → Progress
  panicked : Progress

abbrev pub starts_with_close : List PendingEvent → Bool
starts_with_close (PendingEvent.close t ∷ rest) = true
starts_with_close _ = false

-- `if !active.contains(&key) && queues.get(&key).is_some_and(VecDeque::is_empty)`.
abbrev pub tidy : ℕ → Scheduler → Scheduler
tidy k s = if contains k s.active then s else record s { queues = remove_if_empty k s.queues }

abbrev pub reply_if_any : Option (ℕ × Reply) → Scheduler → Option Scheduler
reply_if_any none s = none
reply_if_any (some r) s = some (reply r s)

abbrev pub deliver_outcome : Option (Operation × BlockingResult) → Scheduler → Option Scheduler
deliver_outcome none s = some s
deliver_outcome (some (op, result)) s = reply_if_any (deliver op result) s

abbrev pub reply_maintenance : MaintenanceCompletion → Scheduler → Scheduler
reply_maintenance c s = elim c.outcome [ none ↦ s | some (t, r) ↦ reply (t, cleaned r) s ]

abbrev pub queue_close : ℕ → Scheduler → Scheduler
queue_close t s = record s { pending = s.pending ++ (PendingEvent.close t ∷ []) }

abbrev pub accept_close : Lifecycle → ℕ → Scheduler → Scheduler
accept_close opened t s = queue_close t (record s { lifecycle = closing })
accept_close closing t s = queue_close t s
accept_close closed t s = reply (t, passed (ok tt)) s
accept_close shutdown_failed t s = reply (t, passed (err shutdown_failure)) s
accept_close failed t s = reply (t, passed (err shutdown_failure)) s

module _ (max_concurrent_operations : ℕ) (order : KeyOrder) where
  abbrev on_idle : ℕ → Scheduler → Scheduler
  on_idle = dispatch_if_idle max_concurrent_operations order

  abbrev on_available : Scheduler → Scheduler
  on_available = dispatch_available max_concurrent_operations order

  abbrev on_ready : Scheduler → Scheduler
  on_ready = advance_pending_if_ready max_concurrent_operations order

  unfoldable pub on_submission : Submission → Scheduler → Round
  on_submission x s =
      if not (is_open s.lifecycle)
      then skipped (reply (deliver_error x.operation store_closed) s)
      else if s.maintenance_active || not (is_empty s.pending)
      then skipped (record s { pending = s.pending ++ (PendingEvent.submission x ∷ []) })
      else checked (on_available (on_idle x.key_hash (enqueue x s)))

  abbrev pub finish_completion : Option Scheduler → Option Round
  finish_completion none = none
  finish_completion (some s) = some (checked (on_ready s))

  unfoldable pub on_completion : Completion → Scheduler → Option Round
  on_completion c s =
      let freed = record s { active = remove c.key_hash s.active } in
      finish_completion
        (deliver_outcome c.outcome (tidy c.key_hash (on_available (on_idle c.key_hash freed))))

  unfoldable pub on_maintenance : MaintenanceSubmission → Scheduler → Round
  on_maintenance m s =
      if not (is_open s.lifecycle)
      then skipped (reply (m.sender, cleaned (err store_closed)) s)
      else checked
          (on_ready (record s { pending = s.pending ++ (PendingEvent.maintenance m ∷ []) }))

  unfoldable pub on_maintenance_completion : MaintenanceCompletion → Scheduler → Round
  on_maintenance_completion c s =
      checked (on_ready (reply_maintenance c (record s { maintenance_active = false })))

  unfoldable pub on_flush : ℕ → Scheduler → Round
  on_flush t s =
      if not (is_open s.lifecycle)
      then skipped (reply (t, passed (err store_closed)) s)
      else checked (on_ready (record s { pending = s.pending ++ (PendingEvent.flush t ∷ []) }))

  unfoldable pub on_close : ℕ → Scheduler → Round
  on_close t s = checked (on_ready (accept_close s.lifecycle t s))

  unfoldable pub handle : CoordinatorEvent → Scheduler → Option Round
  handle (CoordinatorEvent.submission x) s = some (on_submission x s)
  handle (CoordinatorEvent.completion c) s = on_completion c s
  handle (CoordinatorEvent.maintenance m) s = some (on_maintenance m s)
  handle (CoordinatorEvent.maintenance_completion c) s = some (on_maintenance_completion c s)
  handle (CoordinatorEvent.flush t) s = some (on_flush t s)
  handle (CoordinatorEvent.close t) s = some (on_close t s)

-- The condition under which the coordinator shuts down.
abbrev pub is_drained : Scheduler → Bool
is_drained s =
    starts_with_close s.pending
    && (is_empty s.active && (all_empty s.queues && not s.maintenance_active))

abbrev pub closed_as : Result (Unit {0}) → Lifecycle
closed_as (ok u) = closed
closed_as (err e) = shutdown_failed

abbrev pub close_result : Result (Unit {0}) → Result (Unit {0})
close_result (ok u) = ok tt
close_result (err e) = err shutdown_failure

-- The `while` loop over the closes at the front of `pending`.
unfoldable pub answer_closes : Result (Unit {0}) → List PendingEvent → Scheduler → Scheduler
answer_closes outcome (PendingEvent.close t ∷ rest) s =
    answer_closes outcome rest (reply (t, passed (close_result outcome)) s)
answer_closes outcome rest s = record s { pending = rest }

-- An outcome that is thrown away drops its sender.
abbrev pub drop_operation : Option (Operation × BlockingResult) → Scheduler → Scheduler
drop_operation none s = s
drop_operation (some (op, result)) s = reply (sender op, dropped) s

abbrev pub drop_maintenance : MaintenanceCompletion → Scheduler → Scheduler
drop_maintenance c s = elim c.outcome [ none ↦ s | some (t, r) ↦ reply (t, dropped) s ]

-- The `try_recv` loop after the shutdown.
unfoldable pub answer_rest : Result (Unit {0}) → List CoordinatorEvent → Scheduler → Scheduler
answer_rest outcome [] s = record s { channel = [] }
answer_rest outcome (CoordinatorEvent.close t ∷ rest) s =
    answer_rest outcome rest (reply (t, passed (close_result outcome)) s)
answer_rest outcome (CoordinatorEvent.submission x ∷ rest) s =
    answer_rest outcome rest (reply (deliver_error x.operation store_closed) s)
answer_rest outcome (CoordinatorEvent.maintenance m ∷ rest) s =
    answer_rest outcome rest (reply (m.sender, cleaned (err store_closed)) s)
answer_rest outcome (CoordinatorEvent.flush t ∷ rest) s =
    answer_rest outcome rest (reply (t, passed (err store_closed)) s)
answer_rest outcome (CoordinatorEvent.completion c ∷ rest) s =
    answer_rest outcome rest (drop_operation c.outcome s)
answer_rest outcome (CoordinatorEvent.maintenance_completion c ∷ rest) s =
    answer_rest outcome rest (drop_maintenance c s)

unfoldable pub shut_down : Result (Unit {0}) × WorkerPool → Scheduler → Scheduler
shut_down (outcome, pool) s =
    let left =
      answer_closes outcome s.pending (record s { pool = pool; lifecycle = closed_as outcome }) in
    answer_rest outcome left.channel left

unfoldable pub end_of_round : Option Round → Progress
end_of_round none = panicked
end_of_round (some (skipped s)) = running s
end_of_round (some (checked s)) =
    if is_drained s then stopped (shut_down (shutdown s.pool) s) else running s

-- The end of the loop when every sender of the channel is gone.
abbrev disconnected : Scheduler → Scheduler
disconnected s = record s { pool = (shutdown s.pool).1; lifecycle = closed }

-- One round of the loop on an event that was taken from the channel.
unfoldable pub round : ℕ → KeyOrder → CoordinatorEvent → Scheduler → Progress
round max_concurrent_operations order event s =
    end_of_round (handle max_concurrent_operations order event s)

abbrev pub fail_operation : Option (Operation × BlockingResult) → Scheduler → Scheduler
fail_operation none s = s
fail_operation (some (op, result)) s = reply (deliver_error op engine_failed) s

abbrev pub fail_maintenance : MaintenanceCompletion → Scheduler → Scheduler
fail_maintenance c s = elim c.outcome [
  | none ↦ s
  | some (t, r) ↦ reply (t, cleaned (err engine_failed)) s
]

unfoldable pub fail_queued_after_coordinator_panic : List CoordinatorEvent → Scheduler → Scheduler
fail_queued_after_coordinator_panic [] s = record s { channel = [] }
fail_queued_after_coordinator_panic (CoordinatorEvent.submission x ∷ rest) s =
    fail_queued_after_coordinator_panic rest (reply (deliver_error x.operation engine_failed) s)
fail_queued_after_coordinator_panic (CoordinatorEvent.maintenance m ∷ rest) s =
    fail_queued_after_coordinator_panic rest (reply (m.sender, cleaned (err engine_failed)) s)
fail_queued_after_coordinator_panic (CoordinatorEvent.maintenance_completion c ∷ rest) s =
    fail_queued_after_coordinator_panic rest (fail_maintenance c s)
fail_queued_after_coordinator_panic (CoordinatorEvent.flush t ∷ rest) s =
    fail_queued_after_coordinator_panic rest (reply (t, passed (err engine_failed)) s)
fail_queued_after_coordinator_panic (CoordinatorEvent.close t ∷ rest) s =
    fail_queued_after_coordinator_panic rest (reply (t, passed (err shutdown_failure)) s)
fail_queued_after_coordinator_panic (CoordinatorEvent.completion c ∷ rest) s =
    fail_queued_after_coordinator_panic rest (fail_operation c.outcome s)

-- What `from_config` of src/engine/mod.rs does when the loop has panicked.
unfoldable pub after_panic : Scheduler → Scheduler
after_panic s = fail_queued_after_coordinator_panic s.channel (record s { lifecycle = failed })
