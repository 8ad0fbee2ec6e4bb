-- ===== src/Engine/Stable.antt =====
-- The moves that the handlers of src/engine/scheduler.rs are made of.
use atomic_blob_store.Prelude.{
  ℕ, zero, suc, ◌≡◌, ◌∙◌, true, false, not, ◌||◌, Option, none, some, List, [], ◌∷◌, ◌++◌, length,
  ltb, Bool-cases, Option-cases, inl, inr, is_empty, if-holds, ||_false,
}
use atomic_blob_store.Errors.{Result, ok, CleanupReport, store_closed}
use atomic_blob_store.Engine.Operation.{
  Operation, BlockingResult, Reply, passed, deliver, deliver_error,
}
use atomic_blob_store.Engine.Event.{
  Lifecycle, opened, closing, closed, shutdown_failed, failed, Submission, MaintenanceSubmission,
  CoordinatorEvent, PendingEvent,
}
use atomic_blob_store.Engine.Queues.{KeyOrder, contains, remove, remove_if_empty, find_idle}
use atomic_blob_store.Engine.Scheduler.{
  Scheduler, reply, enqueue, is_open, is_busy, dispatch_if_idle, dispatch_rounds,
  dispatch_available, dispatch_maintenance, advance, advance_pending_if_ready,
}
use atomic_blob_store.Engine.Coordinator.{
  Round, tidy, reply_if_any, deliver_outcome, reply_maintenance, accept_close, finish_completion,
  on_submission, on_completion, on_maintenance, on_maintenance_completion, on_flush, on_close,
  handle,
}
use atomic_blob_store.Engine.Frame.{dispatch_if_idle-SameControl}
use atomic_blob_store.Engine.Answers.{round_state}

pub record Stable (max_concurrent_operations : ℕ) (order : KeyOrder) (P : Scheduler → Type 0)
    : Type 0 where
  pub replied : (r : ℕ × Reply) (s : Scheduler) → P s → P (reply r s)
  pub repended : (l : List PendingEvent) (s : Scheduler) → P s → P (record s { pending = l })
  pub closed_to : (l : Lifecycle) (s : Scheduler) → P s → P (record s { lifecycle = l })
  pub tidied : (k : ℕ) (s : Scheduler) → P s → P (record s { queues = remove_if_empty k s.queues })
  pub enqueued :
      (x : Submission) (s : Scheduler) → s.maintenance_active ≡ false → P s → P (enqueue x s)
  pub idled :
      (k : ℕ) (s : Scheduler) → P s → P (dispatch_if_idle max_concurrent_operations order k s)
  pub maintained :
      (m : MaintenanceSubmission) (s : Scheduler)
      → s.maintenance_active ≡ false
      → is_busy s ≡ false
      → P s
      → P (dispatch_maintenance m (record s { maintenance_active = true }))

-- The state in which the moves of a handler start.
abbrev pub received : CoordinatorEvent → Scheduler → Scheduler
received (CoordinatorEvent.completion c) s = record s { active = remove c.key_hash s.active }
received (CoordinatorEvent.maintenance_completion c) s = record s { maintenance_active = false }
received _ s = s

abbrev pub Kept : (Scheduler → Type 0) → Option Round → Type 0
Kept P none = Unit {0}
Kept P (some r) = P (round_state r)

module _ (max_concurrent_operations : ℕ) (order : KeyOrder) (P : Scheduler → Type 0)
    (stable : Stable max_concurrent_operations order P) where
  Kept-dispatch_rounds :
      (fuel : ℕ) (s : Scheduler) → P s → P (dispatch_rounds max_concurrent_operations order fuel s)
  unfolding dispatch_rounds
  Kept-dispatch_rounds zero s h = h
  Kept-dispatch_rounds (suc fuel) s h =
      elim (Bool-cases (ltb (length s.active) max_concurrent_operations)) [
        | inl e ↦ rw e (elim (Option-cases (find_idle (order.keys s.queues) s.queues s.active)) [
          | inl n ↦ rw n h
          | inr (k, found) ↦ rw found (Kept-dispatch_rounds fuel _ (stable.idled k s h))
        ])
        | inr e ↦ rw e h
      ]

  Kept-dispatched :
      (k : ℕ) (s : Scheduler)
      → P s
      → P (
          dispatch_available max_concurrent_operations order
            (dispatch_if_idle max_concurrent_operations order k s))
  unfolding dispatch_available
  Kept-dispatched k s h = Kept-dispatch_rounds _ _ (stable.idled k s h)

  Kept-advance :
      (l : List PendingEvent) (s : Scheduler)
      → s.maintenance_active ≡ false
      → P s
      → P (advance max_concurrent_operations order l s)
  unfolding advance
  Kept-advance [] s free h = stable.repended [] s h
  Kept-advance (PendingEvent.maintenance m ∷ rest) s free h = elim (Bool-cases (is_busy s)) [
    | inl e ↦ rw e (stable.repended (PendingEvent.maintenance m ∷ rest) s h)
    | inr e ↦
        rw e (stable.maintained m (record s { pending = rest }) free e (stable.repended rest s h))
  ]
  Kept-advance (PendingEvent.submission x ∷ rest) s free h =
      Kept-advance rest _
        ((dispatch_if_idle-SameControl max_concurrent_operations order x.key_hash
            (enqueue x s)).maintenance_active
          ∙ free)
        (stable.idled x.key_hash (enqueue x s) (stable.enqueued x s free h))
  Kept-advance (PendingEvent.flush u ∷ rest) s free h = elim (Bool-cases (is_busy s)) [
    | inl e ↦ rw e (stable.repended (PendingEvent.flush u ∷ rest) s h)
    | inr e ↦ rw e (Kept-advance rest (reply (u, passed (ok tt)) s) free (stable.replied _ s h))
  ]
  Kept-advance (PendingEvent.close u ∷ rest) s free h =
      stable.repended (PendingEvent.close u ∷ rest) s h

  Kept-ready :
      (s : Scheduler) → P s → P (advance_pending_if_ready max_concurrent_operations order s)
  unfolding advance_pending_if_ready
  Kept-ready s h = elim (Bool-cases s.maintenance_active) [
    | inl e ↦ simp e h
    | inr e ↦ simp e (Kept-advance s.pending s e h)
  ]

  Kept-on_submission :
      (x : Submission) (s : Scheduler)
      → P s
      → P (round_state (on_submission max_concurrent_operations order x s))
  unfolding on_submission
  Kept-on_submission x s h =
      if-holds (λ r. P (round_state r)) (not (is_open s.lifecycle))
        (λ e. stable.replied (deliver_error x.operation store_closed) s h)
        (λ e.
          if-holds (λ r. P (round_state r)) (s.maintenance_active || not (is_empty s.pending))
            (λ e'. stable.repended (s.pending ++ (PendingEvent.submission x ∷ [])) s h)
            (λ e'.
              let free = (||_false s.maintenance_active _ e').0 in
              Kept-dispatched x.key_hash (enqueue x s) (stable.enqueued x s free h)))

  Kept-pended :
      (l : List PendingEvent) (s : Scheduler)
      → P s
      → P (advance_pending_if_ready max_concurrent_operations order (record s { pending = l }))
  Kept-pended l s h = Kept-ready (record s { pending = l }) (stable.repended l s h)

  Kept-on_maintenance :
      (m : MaintenanceSubmission) (s : Scheduler)
      → P s
      → P (round_state (on_maintenance max_concurrent_operations order m s))
  unfolding on_maintenance
  Kept-on_maintenance m s h = elim (Bool-cases (not (is_open s.lifecycle))) [
    | inl e ↦ simp e (stable.replied _ s h)
    | inr e ↦ simp e (Kept-pended (s.pending ++ (PendingEvent.maintenance m ∷ [])) s h)
  ]

  Kept-on_flush :
      (u : ℕ) (s : Scheduler) → P s → P (round_state (on_flush max_concurrent_operations order u s))
  unfolding on_flush
  Kept-on_flush u s h = elim (Bool-cases (not (is_open s.lifecycle))) [
    | inl e ↦ simp e (stable.replied _ s h)
    | inr e ↦ simp e (Kept-pended (s.pending ++ (PendingEvent.flush u ∷ [])) s h)
  ]

  Kept-accept_close : (l : Lifecycle) (u : ℕ) (s : Scheduler) → P s → P (accept_close l u s)
  Kept-accept_close opened u s h =
      stable.repended (s.pending ++ (PendingEvent.close u ∷ [])) (record s { lifecycle = closing })
        (stable.closed_to closing s h)
  Kept-accept_close closing u s h = stable.repended (s.pending ++ (PendingEvent.close u ∷ [])) s h
  Kept-accept_close closed u s h = stable.replied _ s h
  Kept-accept_close shutdown_failed u s h = stable.replied _ s h
  Kept-accept_close failed u s h = stable.replied _ s h

  Kept-maintenance_outcome :
      (o : Option (ℕ × Result CleanupReport)) (s : Scheduler)
      → P s
      → P (reply_maintenance (record { outcome = o }) s)
  Kept-maintenance_outcome none s h = h
  Kept-maintenance_outcome (some (u, r)) s h = stable.replied _ s h

  Kept-tidy : (k : ℕ) (s : Scheduler) → P s → P (tidy k s)
  Kept-tidy k s h = elim (Bool-cases (contains k s.active)) [
    | inl e ↦ simp e h
    | inr e ↦ simp e (stable.tidied k s h)
  ]

  Kept-finish :
      (r : Option (ℕ × Reply)) (s : Scheduler)
      → P s
      → Kept P (finish_completion max_concurrent_operations order (reply_if_any r s))
  Kept-finish none s h = tt
  Kept-finish (some r) s h = Kept-ready _ (stable.replied r s h)

  Kept-outcome :
      (o : Option (Operation × BlockingResult)) (s : Scheduler)
      → P s
      → Kept P (finish_completion max_concurrent_operations order (deliver_outcome o s))
  Kept-outcome none s h = Kept-ready s h
  Kept-outcome (some (op, result)) s h = Kept-finish (deliver op result) s h

  pub Kept-handle :
      (e : CoordinatorEvent) (s : Scheduler)
      → P (received e s)
      → Kept P (handle max_concurrent_operations order e s)
  unfolding handle on_completion on_maintenance_completion on_close
  Kept-handle (CoordinatorEvent.submission x) s h = Kept-on_submission x s h
  Kept-handle (CoordinatorEvent.completion c) s h =
      Kept-outcome c.outcome _ (Kept-tidy c.key_hash _ (Kept-dispatched c.key_hash _ h))
  Kept-handle (CoordinatorEvent.maintenance m) s h = Kept-on_maintenance m s h
  Kept-handle (CoordinatorEvent.maintenance_completion c) s h =
      Kept-ready _ (Kept-maintenance_outcome c.outcome _ h)
  Kept-handle (CoordinatorEvent.flush u) s h = Kept-on_flush u s h
  Kept-handle (CoordinatorEvent.close u) s h = Kept-ready _ (Kept-accept_close s.lifecycle u s h)
