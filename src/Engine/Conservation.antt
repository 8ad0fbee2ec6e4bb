-- ===== src/Engine/Conservation.antt =====
-- The moves of src/engine/scheduler.rs against the count of a sender's requests.
use atomic_blob_store.Prelude.{
  ℕ, zero, suc, ◌+◌, ◌≡◌, refl, ◌∙◌, true, Option, none, some, List, [], ◌∷◌, length, leb, ◌||◌,
  arith, Bool-cases, Option-cases, inl, inr, ltb,
}
use atomic_blob_store.Errors.{Result, ok, err, StoreError}
use atomic_blob_store.Engine.Operation.{Operation, sender, passed, deliver_error}
use atomic_blob_store.Engine.Event.{PendingEvent, Submission, MaintenanceSubmission}
use atomic_blob_store.Engine.Workers.{WorkerPool, prepare}
use atomic_blob_store.Engine.Queues.{
  Queues, KeyOrder, contains, push_back, pop_front, keep_entry, remove_if_empty, find_idle,
}
use atomic_blob_store.Engine.Scheduler.{
  reply, lost_completion, lost_maintenance, enqueue, maintain, operate, Scheduler,
  dispatch_prepared, dispatch_popped, dispatch_if_idle, dispatch_rounds, dispatch_available,
  dispatch_maintenance, maintain_prepared, advance, advance_pending_if_ready, is_busy, queued,
}
use atomic_blob_store.Engine.Tickets.{
  one, in_operations, in_queues, in_pending, core, held, in_operations-append, in_channel-append,
  in_jobs-append,
}

pub sender-deliver_error : (op : Operation) (e : StoreError) → (deliver_error op e).0 ≡ sender op
sender-deliver_error (Operation.load s) e = refl
sender-deliver_error _ e = refl

module _ (t : ℕ) where
  pub in_queues-push_back :
      (k : ℕ) (op : Operation) (q : Queues)
      → in_queues t (push_back k op q) ≡ one t (sender op) + in_queues t q
  unfolding push_back
  in_queues-push_back k op [] = omega arith
  in_queues-push_back k op ((j, ops) ∷ rest) =
      ground (arith, in_queues-push_back k op rest, in_operations-append t ops (op ∷ []))

  abbrev in_popped : Option (Operation × Queues) → ℕ → ℕ
  in_popped none n = n
  in_popped (some (op, q)) n = one t (sender op) + in_queues t q

  in_popped-keep_entry :
      (j : ℕ) (ops : List Operation) (r : Option (Operation × Queues)) (n : ℕ)
      → in_popped r n ≡ n
      → in_popped (keep_entry (j, ops) r) (in_operations t ops + n) ≡ in_operations t ops + n
  in_popped-keep_entry j ops none n h = refl
  in_popped-keep_entry j ops (some (op, q)) n h = omega arith

  in_popped-pop_front :
      (k : ℕ) (q : Queues) → in_popped (pop_front k q) (in_queues t q) ≡ in_queues t q
  unfolding pop_front
  in_popped-pop_front k [] = refl
  in_popped-pop_front k ((j, []) ∷ rest) = ground (
    arith,
    in_popped-keep_entry j [] (pop_front k rest) (in_queues t rest),
    in_popped-pop_front k rest,
  )
  in_popped-pop_front k ((j, op ∷ ops) ∷ rest) = ground (
    arith,
    in_popped-keep_entry j (op ∷ ops) (pop_front k rest) (in_queues t rest),
    in_popped-pop_front k rest,
  )

  pub in_queues-remove_if_empty :
      (k : ℕ) (q : Queues) → in_queues t (remove_if_empty k q) ≡ in_queues t q
  unfolding remove_if_empty
  in_queues-remove_if_empty k [] = refl
  in_queues-remove_if_empty k ((j, []) ∷ rest) = ground (arith, in_queues-remove_if_empty k rest)
  in_queues-remove_if_empty k ((j, op ∷ ops) ∷ rest) =
      ground (arith, in_queues-remove_if_empty k rest)

  core-dispatch_prepared :
      (r : Result (Unit {0}) × WorkerPool) (k : ℕ) (op : Operation) (s : Scheduler)
      → core t (dispatch_prepared r k op s) ≡ one t (sender op) + core t s
  unfolding core
  core-dispatch_prepared (ok u, pool) k op s = ground (
    arith,
    in_jobs-append t s.jobs (operate k op ∷ []),
    in_channel-append t s.channel (lost_completion k ∷ []),
  )
  core-dispatch_prepared (err e, pool) k op s =
      ground (arith, sender-deliver_error op e, in_queues-remove_if_empty k s.queues)

  core-dispatch_popped :
      (r : Option (Operation × Queues)) (k : ℕ) (s : Scheduler)
      → in_popped r (in_queues t s.queues) ≡ in_queues t s.queues
      → core t (dispatch_popped r k s) ≡ core t s
  core-dispatch_popped none k s h = refl
  core-dispatch_popped (some (op, q)) k s h =
      core-dispatch_prepared (prepare s.pool (length s.active + 1)) k op (record s { queues = q })
      ∙ unfold core in omega arith

  core-maintain_prepared :
      (r : Result (Unit {0}) × WorkerPool) (m : MaintenanceSubmission) (s : Scheduler)
      → core t (maintain_prepared r m s) ≡ one t m.sender + core t s
  unfolding core
  core-maintain_prepared (ok u, pool) m s = ground (
    arith,
    in_jobs-append t s.jobs (maintain m ∷ []),
    in_channel-append t s.channel (lost_maintenance ∷ []),
  )
  core-maintain_prepared (err e, pool) m s =
      ground (arith, in_channel-append t s.channel (lost_maintenance ∷ []))

  pending-maintain_prepared :
      (r : Result (Unit {0}) × WorkerPool) (m : MaintenanceSubmission) (s : Scheduler)
      → (maintain_prepared r m s).pending ≡ s.pending
  pending-maintain_prepared (ok u, pool) m s = ground arith
  pending-maintain_prepared (err e, pool) m s = refl

  held-dispatch_maintenance :
      (m : MaintenanceSubmission) (s : Scheduler)
      → held t (dispatch_maintenance m s) ≡ one t m.sender + core t s + in_pending t s.pending
  unfolding dispatch_maintenance
  held-dispatch_maintenance m s = rw (
    pending-maintain_prepared (prepare s.pool 1) m s,
    core-maintain_prepared (prepare s.pool 1) m s,
  )

  pub core-enqueue :
      (x : Submission) (s : Scheduler)
      → core t (enqueue x s) ≡ one t (sender x.operation) + core t s
  unfolding core
  core-enqueue x s = omega (arith, in_queues-push_back x.key_hash x.operation s.queues)

module _ (t max_concurrent_operations : ℕ) (order : KeyOrder) where
  abbrev idle : ℕ → Scheduler → Scheduler
  idle = dispatch_if_idle max_concurrent_operations order

  pub core-dispatch_if_idle : (k : ℕ) (s : Scheduler) → core t (idle k s) ≡ core t s
  unfolding dispatch_if_idle
  core-dispatch_if_idle k s =
      elim (Bool-cases (contains k s.active || leb max_concurrent_operations (length s.active))) [
        | inl e ↦ rw e
        | inr e ↦
            rw e
              (core-dispatch_popped t (pop_front k s.queues) k s (in_popped-pop_front t k s.queues))
      ]

  core-dispatch_rounds :
      (fuel : ℕ) (s : Scheduler)
      → core t (dispatch_rounds max_concurrent_operations order fuel s) ≡ core t s
  unfolding dispatch_rounds
  core-dispatch_rounds zero s = refl
  core-dispatch_rounds (suc fuel) s =
      elim (Bool-cases (ltb (length s.active) max_concurrent_operations)) [
        | inl e ↦ rw e (elim (Option-cases (find_idle (order.keys s.queues) s.queues s.active)) [
          | inl n ↦ rw n
          | inr (k, found) ↦
              rw found (core-dispatch_rounds fuel (idle k s) ∙ core-dispatch_if_idle k s)
        ])
        | inr e ↦ rw e
      ]

  pub core-dispatch_available :
      (s : Scheduler) → core t (dispatch_available max_concurrent_operations order s) ≡ core t s
  unfolding dispatch_available
  core-dispatch_available s = core-dispatch_rounds (suc (queued s.queues)) s

  held-advance :
      (l : List PendingEvent) (s : Scheduler)
      → held t (advance max_concurrent_operations order l s) ≡ core t s + in_pending t l
  unfolding advance
  held-advance [] s = unfold core in refl
  held-advance (PendingEvent.maintenance m ∷ rest) s = elim (Bool-cases (is_busy s)) [
    | inl e ↦ rw e (unfold core in refl)
    | inr e ↦ rw e (
        held-dispatch_maintenance t m (record s { pending = rest; maintenance_active = true })
        ∙ unfold core in omega arith)
  ]
  held-advance (PendingEvent.submission x ∷ rest) s =
      held-advance rest (idle x.key_hash (enqueue x s))
      ∙ omega (arith, core-dispatch_if_idle x.key_hash (enqueue x s), core-enqueue t x s)
  held-advance (PendingEvent.flush u ∷ rest) s = elim (Bool-cases (is_busy s)) [
    | inl e ↦ rw e (unfold core in refl)
    | inr e ↦ rw e (held-advance rest (reply (u, passed (ok tt)) s) ∙ unfold core in omega arith)
  ]
  held-advance (PendingEvent.close u ∷ rest) s = unfold core in refl

  pub held-advance_pending_if_ready :
      (s : Scheduler)
      → held t (advance_pending_if_ready max_concurrent_operations order s) ≡ held t s
  unfolding advance_pending_if_ready
  held-advance_pending_if_ready s = elim (Bool-cases s.maintenance_active) [
    | inl e ↦ simp e
    | inr e ↦ simp e (held-advance s.pending s)
  ]
