-- ===== src/Engine/Answers.antt =====
-- What the handlers of `run_scheduler` (src/engine/scheduler.rs) do with the senders they are given.
use atomic_blob_store.Prelude.{
  ℕ, ap, sym, ◌+◌, ◌≡◌, refl, ◌∙◌, false, not, ◌||◌, Option, none, some, [], ◌∷◌, is_empty, arith,
  Bool-cases, inl, inr,
}
use atomic_blob_store.Errors.{Result, Result, store_closed, CleanupReport}
use atomic_blob_store.Engine.Operation.{Operation, BlockingResult, Reply, sender, deliver}
use atomic_blob_store.Engine.Event.{
  Lifecycle, opened, closing, closed, shutdown_failed, failed, Submission, Completion,
  MaintenanceSubmission, MaintenanceCompletion, CoordinatorEvent, PendingEvent,
}
use atomic_blob_store.Engine.Queues.{KeyOrder, contains, remove}
use atomic_blob_store.Engine.Scheduler.{
  Scheduler, reply, enqueue, is_open, dispatch_if_idle, dispatch_available,
  advance_pending_if_ready,
}
use atomic_blob_store.Engine.Tickets.{
  one, in_event, in_outcome, in_maintenance, core, held, in_pending-append,
}
use atomic_blob_store.Engine.Conservation.{
  sender-deliver_error, core-enqueue, in_queues-remove_if_empty, core-dispatch_if_idle,
  core-dispatch_available, held-advance_pending_if_ready,
}
use atomic_blob_store.Engine.Frame.{dispatch_if_idle-SameControl, dispatch_available-SameControl}
use atomic_blob_store.Engine.Coordinator.{
  Round, checked, skipped, tidy, deliver_outcome, accept_close, on_submission, on_completion,
  on_maintenance, on_maintenance_completion, on_flush, on_close, handle, reply_maintenance,
  finish_completion, reply_if_any,
}

-- The state after a handler, whether or not it ends its round.
abbrev pub round_state : Round → Scheduler
round_state (checked s) = s
round_state (skipped s) = s

-- What a handler leaves; a panic leaves nothing.
abbrev pub left_by : ℕ → Option Round → ℕ → ℕ
left_by t none n = n
left_by t (some r) n = held t (round_state r)

module _ (t max_concurrent_operations : ℕ) (order : KeyOrder) where
  abbrev dispatched : ℕ → Scheduler → Scheduler
  dispatched k s =
      dispatch_available max_concurrent_operations order
        (dispatch_if_idle max_concurrent_operations order k s)

  held-dispatched : (k : ℕ) (s : Scheduler) → held t (dispatched k s) ≡ held t s
  held-dispatched k s =
      let first = dispatch_if_idle-SameControl max_concurrent_operations order k s in
      let rest =
        dispatch_available-SameControl max_concurrent_operations order
          (dispatch_if_idle max_concurrent_operations order k s) in
      ground (
        arith,
        first.pending,
        rest.pending,
        core-dispatch_if_idle t max_concurrent_operations order k s,
        core-dispatch_available t max_concurrent_operations order
            (dispatch_if_idle max_concurrent_operations order k s),
      )

  held-on_submission :
      (x : Submission) (s : Scheduler)
      → held t (round_state (on_submission max_concurrent_operations order x s))
        ≡ one t (sender x.operation) + held t s
  unfolding on_submission
  held-on_submission x s = elim (Bool-cases (not (is_open s.lifecycle))) [
    | inl e ↦ rw e (unfold core in ground (arith, sender-deliver_error x.operation store_closed))
    | inr e ↦ simp e (elim (Bool-cases (s.maintenance_active || not (is_empty s.pending))) [
      | inl p ↦ simp p (
          unfold core in
          omega (arith, in_pending-append t s.pending (PendingEvent.submission x ∷ [])))
      | inr p ↦
          simp p (held-dispatched x.key_hash (enqueue x s) ∙ omega (arith, core-enqueue t x s))
    ])
  ]

  after_ready :
      (s : Scheduler) (n : ℕ)
      → held t s ≡ n
      → held t (advance_pending_if_ready max_concurrent_operations order s) ≡ n
  after_ready s n h = held-advance_pending_if_ready t max_concurrent_operations order s ∙ h

  held-on_maintenance :
      (m : MaintenanceSubmission) (s : Scheduler)
      → held t (round_state (on_maintenance max_concurrent_operations order m s))
        ≡ one t m.sender + held t s
  unfolding on_maintenance
  held-on_maintenance m s = elim (Bool-cases (not (is_open s.lifecycle))) [
    | inl e ↦ rw e (unfold core in omega arith)
    | inr e ↦ rw e (
        after_ready _ _ (
          unfold core in
          omega (arith, in_pending-append t s.pending (PendingEvent.maintenance m ∷ []))))
  ]

  held-on_flush :
      (u : ℕ) (s : Scheduler)
      → held t (round_state (on_flush max_concurrent_operations order u s)) ≡ one t u + held t s
  unfolding on_flush
  held-on_flush u s = elim (Bool-cases (not (is_open s.lifecycle))) [
    | inl e ↦ rw e (unfold core in omega arith)
    | inr e ↦ rw e (
        after_ready _ _
          (unfold core in omega (arith, in_pending-append t s.pending (PendingEvent.flush u ∷ []))))
  ]

  held-accept_close :
      (l : Lifecycle) (u : ℕ) (s : Scheduler) → held t (accept_close l u s) ≡ one t u + held t s
  unfolding core
  held-accept_close opened u s =
      omega (arith, in_pending-append t s.pending (PendingEvent.close u ∷ []))
  held-accept_close closing u s =
      omega (arith, in_pending-append t s.pending (PendingEvent.close u ∷ []))
  held-accept_close closed u s = omega arith
  held-accept_close shutdown_failed u s = omega arith
  held-accept_close failed u s = omega arith

  held-on_close :
      (u : ℕ) (s : Scheduler)
      → held t (round_state (on_close max_concurrent_operations order u s)) ≡ one t u + held t s
  unfolding on_close
  held-on_close u s = after_ready _ _ (held-accept_close s.lifecycle u s)

  held-maintenance_outcome :
      (o : Option (ℕ × Result CleanupReport)) (s : Scheduler)
      → held t (reply_maintenance (record { outcome = o }) s)
        ≡ in_maintenance t (record { outcome = o }) + held t s
  unfolding core
  held-maintenance_outcome none s = omega arith
  held-maintenance_outcome (some (u, r)) s = omega arith

  held-on_maintenance_completion :
      (c : MaintenanceCompletion) (s : Scheduler)
      → held t (round_state (on_maintenance_completion max_concurrent_operations order c s))
        ≡ in_maintenance t c + held t s
  unfolding on_maintenance_completion
  held-on_maintenance_completion c s = after_ready _ _ (
      held-maintenance_outcome c.outcome (record s { maintenance_active = false })
      ∙ unfold core in refl)

  abbrev sent : Option (ℕ × Reply) → ℕ → ℕ
  sent none n = n
  sent (some (u, r)) n = one t u

  sent-deliver :
      (op : Operation) (result : BlockingResult)
      → sent (deliver op result) (one t (sender op)) ≡ one t (sender op)
  unfolding deliver
  sent-deliver (Operation.load u) (BlockingResult.load r) = refl
  sent-deliver (Operation.load_stream c a u) (BlockingResult.load_stream r) = refl
  sent-deliver (Operation.save p u) (BlockingResult.save r) = refl
  sent-deliver (Operation.save_stream d c u) (BlockingResult.save_stream r) = refl
  sent-deliver (Operation.clear u) (BlockingResult.clear r) = refl
  sent-deliver (Operation.inspect u) (BlockingResult.inspect r) = refl
  sent-deliver (Operation.quarantine u) (BlockingResult.quarantine r) = refl
  sent-deliver _ _ = refl

  left_by-finish :
      (r : Option (ℕ × Reply)) (s : Scheduler) (n : ℕ)
      → sent r n ≡ n
      → left_by t
          (finish_completion max_concurrent_operations order (reply_if_any r s))
          (n + held t s)
        ≡ n + held t s
  left_by-finish none s n h = refl
  left_by-finish (some (u, r)) s n h = after_ready (reply (u, r) s) _ (unfold core in omega arith)

  left_by-outcome :
      (o : Option (Operation × BlockingResult)) (s : Scheduler)
      → left_by t
          (finish_completion max_concurrent_operations order (deliver_outcome o s))
          (in_outcome t o + held t s)
        ≡ in_outcome t o + held t s
  left_by-outcome none s = after_ready s (0 + held t s) (omega arith)
  left_by-outcome (some (op, result)) s =
      left_by-finish (deliver op result) s (one t (sender op)) (sent-deliver op result)

  held-tidy : (k : ℕ) (s : Scheduler) → held t (tidy k s) ≡ held t s
  unfolding core
  held-tidy k s = elim (Bool-cases (contains k s.active)) [
    | inl e ↦ simp e
    | inr e ↦ simp (e, in_queues-remove_if_empty t k s.queues)
  ]

  held-freed :
      (k : ℕ) (s : Scheduler)
      → held t (tidy k (dispatched k (record s { active = remove k s.active }))) ≡ held t s
  unfolding core
  held-freed k s =
      held-tidy k (dispatched k (record s { active = remove k s.active }))
      ∙ held-dispatched k (record s { active = remove k s.active })

  left_by-on_completion :
      (c : Completion) (s : Scheduler)
      → left_by t
          (on_completion max_concurrent_operations order c s)
          (in_outcome t c.outcome + held t s)
        ≡ in_outcome t c.outcome + held t s
  unfolding on_completion
  left_by-on_completion c s =
      let freed = record s { active = remove c.key_hash s.active } in
      let same = held-freed c.key_hash s in
      ap
        (λ n.
          left_by t (on_completion max_concurrent_operations order c s)
            (in_outcome t c.outcome + n))
        (sym same)
      ∙ left_by-outcome c.outcome (tidy c.key_hash (dispatched c.key_hash freed))
      ∙ ap (λ n. in_outcome t c.outcome + n) same

  pub left_by-handle :
      (e : CoordinatorEvent) (s : Scheduler)
      → left_by t (handle max_concurrent_operations order e s) (in_event t e + held t s)
        ≡ in_event t e + held t s
  unfolding handle
  left_by-handle (CoordinatorEvent.submission x) s = held-on_submission x s
  left_by-handle (CoordinatorEvent.completion c) s = left_by-on_completion c s
  left_by-handle (CoordinatorEvent.maintenance m) s = held-on_maintenance m s
  left_by-handle (CoordinatorEvent.maintenance_completion c) s = held-on_maintenance_completion c s
  left_by-handle (CoordinatorEvent.flush u) s = held-on_flush u s
  left_by-handle (CoordinatorEvent.close u) s = held-on_close u s
