-- ===== src/Engine/Pending.antt =====
-- The order of the events that wait in `pending` of `run_scheduler` (src/engine/scheduler.rs):
-- requests and closes.
use atomic_blob_store.Prelude.{
  ℕ, ◌≡◌, refl, ◌∙◌, Bool, true, false, not, ◌&&◌, List, [], ◌∷◌, ◌++◌, arith, if◌then◌else◌,
  if-holds,
}
use atomic_blob_store.Errors.{Result, ok, err}
use atomic_blob_store.Engine.Operation.{passed}
use atomic_blob_store.Engine.Event.{
  Lifecycle, opened, closing, closed, shutdown_failed, failed, MaintenanceSubmission, PendingEvent,
}
use atomic_blob_store.Engine.Workers.{WorkerPool, prepare, execute}
use atomic_blob_store.Engine.Queues.{KeyOrder}
use atomic_blob_store.Engine.Scheduler.{
  Scheduler, reply, enqueue, is_open, is_busy, dispatch_if_idle, dispatch_available,
  hand_maintenance, maintain_prepared, dispatch_maintenance, advance, advance_pending_if_ready,
}
use atomic_blob_store.Engine.Coordinator.{accept_close}
use atomic_blob_store.Engine.Frame.{dispatch_if_idle-SameControl, dispatch_available-SameControl}

abbrev pub is_close : PendingEvent → Bool
is_close (PendingEvent.close u) = true
is_close _ = false

abbrev pub all_closes : List PendingEvent → Bool
all_closes [] = true
all_closes (e ∷ rest) = is_close e && all_closes rest

abbrev no_close : List PendingEvent → Bool
no_close [] = true
no_close (e ∷ rest) = not (is_close e) && no_close rest

-- Requests first, then closes.
abbrev closes_last : List PendingEvent → Bool
closes_last [] = true
closes_last (e ∷ rest) = if is_close e then all_closes rest else closes_last rest

abbrev pub shape : Lifecycle → List PendingEvent → Bool
shape l pending = if is_open l then no_close pending else closes_last pending

-- No close waits in an open store; in another, closes come last.
abbrev pub Shaped : Scheduler → Type 0
Shaped s = shape s.lifecycle s.pending ≡ true

all_closes→closes_last : (l : List PendingEvent) → all_closes l ≡ true → closes_last l ≡ true
all_closes→closes_last [] h = refl
all_closes→closes_last (e ∷ rest) h = ground arith

no_close→closes_last : (l : List PendingEvent) → no_close l ≡ true → closes_last l ≡ true
no_close→closes_last [] h = refl
no_close→closes_last (e ∷ rest) h = ground (arith, no_close→closes_last rest)

shape-tail :
    (life : Lifecycle) (e : PendingEvent) (l : List PendingEvent)
    → shape life (e ∷ l) ≡ true
    → shape life l ≡ true
shape-tail life e l h = ground (arith, all_closes→closes_last l)

no_close-append :
    (l : List PendingEvent) (e : PendingEvent)
    → no_close l ≡ true
    → is_close e ≡ false
    → no_close (l ++ (e ∷ [])) ≡ true
no_close-append [] e h n = ground arith
no_close-append (x ∷ l) e h n = ground (arith, no_close-append l e)

all_closes-append :
    (l : List PendingEvent) (u : ℕ)
    → all_closes l ≡ true
    → all_closes (l ++ (PendingEvent.close u ∷ [])) ≡ true
all_closes-append [] u h = refl
all_closes-append (x ∷ l) u h = ground (arith, all_closes-append l u)

closes_last-append :
    (l : List PendingEvent) (u : ℕ)
    → closes_last l ≡ true
    → closes_last (l ++ (PendingEvent.close u ∷ [])) ≡ true
closes_last-append [] u h = refl
closes_last-append (x ∷ l) u h = ground (arith, all_closes-append l u, closes_last-append l u)

-- What leaves `pending` and `lifecycle` as they are keeps the shape.
Shaped-same :
    (s s' : Scheduler) → s'.pending ≡ s.pending → s'.lifecycle ≡ s.lifecycle → Shaped s → Shaped s'
Shaped-same s s' p l h = rw (p, l) h

Shaped-hand_maintenance :
    (r : Result (Unit {0})) (m : MaintenanceSubmission) (s : Scheduler)
    → Shaped s
    → Shaped (hand_maintenance r m s)
Shaped-hand_maintenance (ok u) m s h = h
Shaped-hand_maintenance (err e) m s h = h

Shaped-maintain_prepared :
    (r : Result (Unit {0}) × WorkerPool) (m : MaintenanceSubmission) (s : Scheduler)
    → Shaped s
    → Shaped (maintain_prepared r m s)
Shaped-maintain_prepared (ok u, pool) m s h =
    Shaped-hand_maintenance (execute pool) m (record s { pool = pool }) h
Shaped-maintain_prepared (err e, pool) m s h = h

pub Shaped-append :
    (s : Scheduler) (e : PendingEvent)
    → not (is_open s.lifecycle) ≡ false
    → is_close e ≡ false
    → Shaped s
    → Shaped (record s { pending = s.pending ++ (e ∷ []) })
Shaped-append s e o n h = ground (arith, no_close-append s.pending e)

pub Shaped-accept_close :
    (l : Lifecycle) (u : ℕ) (s : Scheduler)
    → s.lifecycle ≡ l
    → Shaped s
    → Shaped (accept_close l u s)
Shaped-accept_close opened u s e h =
    ground (arith, closes_last-append s.pending u, no_close→closes_last s.pending)
Shaped-accept_close closing u s e h = ground (arith, closes_last-append s.pending u)
Shaped-accept_close closed u s e h = h
Shaped-accept_close shutdown_failed u s e h = h
Shaped-accept_close failed u s e h = h

module _ (max_concurrent_operations : ℕ) (order : KeyOrder) where
  lifecycle-idle :
      (k : ℕ) (s : Scheduler)
      → (dispatch_if_idle max_concurrent_operations order k s).lifecycle ≡ s.lifecycle
  lifecycle-idle k s = (dispatch_if_idle-SameControl max_concurrent_operations order k s).lifecycle

  pub Shaped-dispatched :
      (k : ℕ) (s : Scheduler)
      → Shaped s
      → Shaped (
          dispatch_available max_concurrent_operations order
            (dispatch_if_idle max_concurrent_operations order k s))
  Shaped-dispatched k s h =
      let first = dispatch_if_idle-SameControl max_concurrent_operations order k s in
      let rest =
        dispatch_available-SameControl max_concurrent_operations order
          (dispatch_if_idle max_concurrent_operations order k s) in
      Shaped-same s
        (dispatch_available max_concurrent_operations order
          (dispatch_if_idle max_concurrent_operations order k s))
        (rest.pending ∙ first.pending) (rest.lifecycle ∙ first.lifecycle) h

  Shaped-advance :
      (l : List PendingEvent) (s : Scheduler)
      → shape s.lifecycle l ≡ true
      → Shaped (advance max_concurrent_operations order l s)
  unfolding advance
  Shaped-advance [] s h = h
  Shaped-advance (PendingEvent.maintenance m ∷ rest) s h =
      if-holds Shaped (is_busy s) (λ e. h)
        (λ e.
          unfold dispatch_maintenance in
          Shaped-maintain_prepared (prepare s.pool 1) m
            (record s { pending = rest; maintenance_active = true })
            (shape-tail s.lifecycle (PendingEvent.maintenance m) rest h))
  Shaped-advance (PendingEvent.submission x ∷ rest) s h = Shaped-advance rest _ (
      rw (lifecycle-idle x.key_hash (enqueue x s))
        (shape-tail s.lifecycle (PendingEvent.submission x) rest h))
  Shaped-advance (PendingEvent.flush u ∷ rest) s h =
      if-holds Shaped (is_busy s) (λ e. h)
        (λ e.
          Shaped-advance rest (reply (u, passed (ok tt)) s)
            (shape-tail s.lifecycle (PendingEvent.flush u) rest h))
  Shaped-advance (PendingEvent.close u ∷ rest) s h = h

  pub Shaped-ready :
      (s : Scheduler)
      → Shaped s
      → Shaped (advance_pending_if_ready max_concurrent_operations order s)
  unfolding advance_pending_if_ready
  Shaped-ready s h =
      if-holds Shaped s.maintenance_active (λ e. h) (λ e. Shaped-advance s.pending s h)
