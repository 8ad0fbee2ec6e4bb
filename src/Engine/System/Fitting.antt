-- ===== src/Engine/System/Fitting.antt =====
-- The kinds of the results that the completions in the coordinator's channel carry
-- (src/engine/scheduler.rs).
use atomic_blob_store.Prelude.{
  ℕ, ◌+◌, ◌≡◌, refl, subst, Bool, true, ◌&&◌, ◌||◌, Option, none, some, List, [], ◌∷◌, ◌++◌, arith,
  if-holds, length, leb, &&_true,
}
use atomic_blob_store.Errors.{Result, ok, err, CleanupReport}
use atomic_blob_store.Engine.Operation.{Operation, BlockingResult}
use atomic_blob_store.Engine.Event.{CoordinatorEvent, MaintenanceSubmission}
use atomic_blob_store.Engine.Workers.{WorkerPool, prepare, execute}
use atomic_blob_store.Engine.Queues.{Queues, KeyOrder, contains, pop_front}
use atomic_blob_store.Engine.Scheduler.{
  Job, operate, maintain, Scheduler, start, lost_completion, lost_maintenance, hand_operation,
  hand_maintenance, dispatch_prepared, dispatch_popped, dispatch_if_idle, maintain_prepared,
  dispatch_maintenance,
}
use atomic_blob_store.Engine.Coordinator.{handle, round}
use atomic_blob_store.Engine.Stable.{Stable, received, Kept-handle}
use atomic_blob_store.Engine.Accounting.{fits}
use atomic_blob_store.Engine.System.{
  is_request, finish_job, is_result_of, Reachable, started, sent, worked, took,
}
use atomic_blob_store.Engine.System.Rounds.{running-Kept}

abbrev all_fit : List CoordinatorEvent → Bool
all_fit [] = true
all_fit (e ∷ es) = fits e && all_fit es

abbrev Fitting : Scheduler → Type 0
Fitting s = all_fit s.channel ≡ true

all_fit-append :
    (es : List CoordinatorEvent) (e : CoordinatorEvent)
    → all_fit es ≡ true
    → fits e ≡ true
    → all_fit (es ++ (e ∷ [])) ≡ true
all_fit-append [] e h f = ground arith
all_fit-append (x ∷ es) e h f = ground (arith, all_fit-append es e)

Fitting-hand_operation :
    (r : Result (Unit {0})) (k : ℕ) (op : Operation) (s : Scheduler)
    → Fitting s
    → Fitting (hand_operation r k op s)
Fitting-hand_operation (ok u) k op s h = h
Fitting-hand_operation (err e) k op s h = all_fit-append s.channel (lost_completion k) h refl

Fitting-dispatch_prepared :
    (r : Result (Unit {0}) × WorkerPool) (k : ℕ) (op : Operation) (s : Scheduler)
    → Fitting s
    → Fitting (dispatch_prepared r k op s)
Fitting-dispatch_prepared (ok u, pool) k op s h =
    Fitting-hand_operation (execute pool) k op (record s { pool = pool; active = k ∷ s.active }) h
Fitting-dispatch_prepared (err e, pool) k op s h = h

Fitting-dispatch_popped :
    (r : Option (Operation × Queues)) (k : ℕ) (s : Scheduler)
    → Fitting s
    → Fitting (dispatch_popped r k s)
Fitting-dispatch_popped none k s h = h
Fitting-dispatch_popped (some (op, q)) k s h =
    Fitting-dispatch_prepared (prepare s.pool (length s.active + 1)) k op (record s { queues = q })
      h

Fitting-hand_maintenance :
    (r : Result (Unit {0})) (m : MaintenanceSubmission) (s : Scheduler)
    → Fitting s
    → Fitting (hand_maintenance r m s)
Fitting-hand_maintenance (ok u) m s h = h
Fitting-hand_maintenance (err e) m s h = all_fit-append s.channel lost_maintenance h refl

Fitting-maintain_prepared :
    (r : Result (Unit {0}) × WorkerPool) (m : MaintenanceSubmission) (s : Scheduler)
    → Fitting s
    → Fitting (maintain_prepared r m s)
Fitting-maintain_prepared (ok u, pool) m s h =
    Fitting-hand_maintenance (execute pool) m (record s { pool = pool }) h
Fitting-maintain_prepared (err e, pool) m s h = all_fit-append s.channel lost_maintenance h refl

-- Requests fit, and so does what a worker reports.
fits-is_request : (e : CoordinatorEvent) → is_request e ≡ true → fits e ≡ true
fits-is_request (CoordinatorEvent.completion c) q = ground arith
fits-is_request _ q = refl

Fitting-finish_job :
    (job : Job) (result : Option BlockingResult) (report : Option (Result CleanupReport))
    (s : Scheduler)
    → is_result_of job result ≡ true
    → Fitting s
    → Fitting (finish_job job result report s)
Fitting-finish_job (operate k op) none report s f h =
    all_fit-append s.channel (lost_completion k) h refl
Fitting-finish_job (operate k op) (some result) report s f h =
    all_fit-append s.channel
      (CoordinatorEvent.completion (record { key_hash = k; outcome = some (op, result) })) h f
Fitting-finish_job (maintain m) result none s f h = all_fit-append s.channel lost_maintenance h refl
Fitting-finish_job (maintain m) result (some r) s f h =
    all_fit-append s.channel
      (CoordinatorEvent.maintenance_completion (record { outcome = some (m.sender, r) })) h refl

Fitting-received : (e : CoordinatorEvent) (s : Scheduler) → Fitting s → Fitting (received e s)
Fitting-received (CoordinatorEvent.completion c) s h = h
Fitting-received (CoordinatorEvent.maintenance_completion c) s h = h
Fitting-received (CoordinatorEvent.submission x) s h = h
Fitting-received (CoordinatorEvent.maintenance x) s h = h
Fitting-received (CoordinatorEvent.flush x) s h = h
Fitting-received (CoordinatorEvent.close x) s h = h

module _ (max_concurrent_operations : ℕ) (order : KeyOrder) where
  Fitting-dispatch_if_idle :
      (k : ℕ) (s : Scheduler)
      → Fitting s
      → Fitting (dispatch_if_idle max_concurrent_operations order k s)
  unfolding dispatch_if_idle
  Fitting-dispatch_if_idle k s h =
      if-holds Fitting (contains k s.active || leb max_concurrent_operations (length s.active))
        (λ e. h) (λ e. Fitting-dispatch_popped (pop_front k s.queues) k s h)

  Fitting-Stable : Stable max_concurrent_operations order Fitting
  Fitting-Stable = record {
    replied = λ r s h. h;
    repended = λ l s h. h;
    closed_to = λ l s h. h;
    tidied = λ k s h. h;
    enqueued = λ x s free h. h;
    idled = Fitting-dispatch_if_idle;
    maintained = λ m s free quiet h.
        unfold dispatch_maintenance in
        Fitting-maintain_prepared (prepare s.pool 1) m (record s { maintenance_active = true }) h;
  }

  Reachable-Fitting :
      {spawn : ℕ → Option Bool} {requests : List CoordinatorEvent} {s : Scheduler}
      → Reachable max_concurrent_operations order spawn requests s
      → Fitting s
  unfolding round start
  Reachable-Fitting started = refl
  Reachable-Fitting (sent {s = s} e q r) =
      all_fit-append s.channel e (Reachable-Fitting r) (fits-is_request e q)
  Reachable-Fitting (worked {s = s} before after job result report e f r) =
      Fitting-finish_job job result report (record s { jobs = before ++ after }) f
        (Reachable-Fitting r)
  Reachable-Fitting (took {s = s} {s' = s'} e rest c p r) =
      let fitting = subst (λ l. all_fit l ≡ true) c (Reachable-Fitting r) in
      running-Kept Fitting (handle max_concurrent_operations order e (record s { channel = rest }))
        s'
        (Kept-handle max_concurrent_operations order Fitting Fitting-Stable e
          (record s { channel = rest })
          (Fitting-received e (record s { channel = rest })
            (&&_true (fits e) (all_fit rest) fitting).1))
        p

  pub Reachable-fits :
      {spawn : ℕ → Option Bool} {requests : List CoordinatorEvent} {s : Scheduler}
      (e : CoordinatorEvent) (rest : List CoordinatorEvent)
      → s.channel ≡ e ∷ rest
      → Reachable max_concurrent_operations order spawn requests s
      → fits e ≡ true
  Reachable-fits e rest c r =
      (&&_true (fits e) (all_fit rest) (subst (λ l. all_fit l ≡ true) c (Reachable-Fitting r))).0
