-- ===== src/Engine/Safety.antt =====
-- Which jobs may be with the workers at once: `active` and `maintenance_active` of
-- src/engine/scheduler.rs against the jobs and the completions that are on their way.
use atomic_blob_store.Prelude.{
  ℕ, ◌+◌, ◌≤◌, ◌≡◌, refl, true, false, ◌||◌, Option, none, some, [], ◌∷◌, length, leb, arith,
  Bool-cases, inl, inr, if-holds, ||_false,
}
use atomic_blob_store.Errors.{Result, ok, err}
use atomic_blob_store.Engine.Operation.{Operation}
use atomic_blob_store.Engine.Event.{MaintenanceSubmission}
use atomic_blob_store.Engine.Workers.{WorkerPool, prepare, execute}
use atomic_blob_store.Engine.Queues.{
  Queues, KeyOrder, contains, pop_front, remove_if_empty, all_empty,
}
use atomic_blob_store.Engine.Scheduler.{
  operate, maintain, Scheduler, lost_completion, lost_maintenance, is_busy, hand_operation,
  hand_maintenance, dispatch_prepared, dispatch_popped, dispatch_if_idle, dispatch_maintenance,
  maintain_prepared,
}
use atomic_blob_store.Engine.Stable.{Stable}
use atomic_blob_store.Engine.Flights.{
  as_count, jobs_of, completions_of, maintenance_jobs, maintenance_completions, jobs_of-append,
  maintenance_jobs-append, completions_of-append, maintenance_completions-append,
  pop_front-all_empty, all_empty-remove_if_empty,
}

pub record IsSafe (max_concurrent_operations : ℕ) (s : Scheduler) : Type 0 where
  pub bounded : length s.active ≤ max_concurrent_operations
  pub exclusive :
      (k : ℕ) → jobs_of k s.jobs + completions_of k s.channel ≡ as_count (contains k s.active)
  pub maintained :
      maintenance_jobs s.jobs + maintenance_completions s.channel ≡ as_count s.maintenance_active
  pub alone : s.maintenance_active ≡ true → is_busy s ≡ false

module _ (max_concurrent_operations : ℕ) where
  IsSafe-hand_operation :
      (r : Result (Unit {0})) (k : ℕ) (op : Operation) (pool : WorkerPool) (s : Scheduler)
      → IsSafe max_concurrent_operations s
      → s.maintenance_active ≡ false
      → contains k s.active ≡ false
      → leb max_concurrent_operations (length s.active) ≡ false
      → IsSafe max_concurrent_operations
          (hand_operation r k op (record s { pool = pool; active = k ∷ s.active }))
  unfolding contains
  IsSafe-hand_operation (ok u) k op pool s h free new room = record {
    bounded = ground arith;
    exclusive = λ j. ground (arith, h.exclusive j, jobs_of-append j s.jobs (operate k op ∷ []));
    maintained = ground (arith, h.maintained, maintenance_jobs-append s.jobs (operate k op ∷ []));
    alone = λ e. ground arith;
  }
  IsSafe-hand_operation (err e) k op pool s h free new room = record {
    bounded = ground arith;
    exclusive = λ j.
        ground (arith, h.exclusive j, completions_of-append j s.channel (lost_completion k ∷ []));
    maintained =
        ground
          (arith, h.maintained, maintenance_completions-append s.channel (lost_completion k ∷ []));
    alone = λ e. ground arith;
  }

  -- Taking an operation off a queue changes only the queues.
  IsSafe-queues :
      (q : Queues) (s : Scheduler)
      → IsSafe max_concurrent_operations s
      → (s.maintenance_active ≡ true → all_empty q ≡ true)
      → IsSafe max_concurrent_operations (record s { queues = q })
  IsSafe-queues q s h e = record {
    bounded = h.bounded;
    exclusive = h.exclusive;
    maintained = h.maintained;
    alone = λ m. ground (arith, h.alone m, e m);
  }

  IsSafe-tidied :
      (k : ℕ) (s : Scheduler)
      → IsSafe max_concurrent_operations s
      → IsSafe max_concurrent_operations (record s { queues = remove_if_empty k s.queues })
  IsSafe-tidied k s h =
      IsSafe-queues (remove_if_empty k s.queues) s h
        (λ m. all_empty-remove_if_empty k s.queues (ground (arith, h.alone m)))

  IsSafe-dispatch_prepared :
      (r : Result (Unit {0}) × WorkerPool) (k : ℕ) (op : Operation) (s : Scheduler)
      → IsSafe max_concurrent_operations s
      → s.maintenance_active ≡ false
      → contains k s.active ≡ false
      → leb max_concurrent_operations (length s.active) ≡ false
      → IsSafe max_concurrent_operations (dispatch_prepared r k op s)
  IsSafe-dispatch_prepared (ok u, pool) k op s h free new room =
      IsSafe-hand_operation (execute pool) k op pool s h free new room
  IsSafe-dispatch_prepared (err e, pool) k op s h free new room =
      let tidy = IsSafe-tidied k s h in
      record {
        bounded = tidy.bounded;
        exclusive = tidy.exclusive;
        maintained = tidy.maintained;
        alone = tidy.alone;
      }

  IsSafe-hand_maintenance :
      (r : Result (Unit {0})) (m : MaintenanceSubmission) (pool : WorkerPool) (s : Scheduler)
      → IsSafe max_concurrent_operations s
      → s.maintenance_active ≡ false
      → is_busy s ≡ false
      → IsSafe max_concurrent_operations
          (hand_maintenance r m (record s { pool = pool; maintenance_active = true }))
  IsSafe-hand_maintenance (ok u) m pool s h free quiet = record {
    bounded = h.bounded;
    exclusive = λ j. ground (arith, h.exclusive j, jobs_of-append j s.jobs (maintain m ∷ []));
    maintained = ground (arith, h.maintained, maintenance_jobs-append s.jobs (maintain m ∷ []));
    alone = λ e. quiet;
  }
  IsSafe-hand_maintenance (err e) m pool s h free quiet = record {
    bounded = h.bounded;
    exclusive = λ j.
        ground (arith, h.exclusive j, completions_of-append j s.channel (lost_maintenance ∷ []));
    maintained =
        ground
          (arith, h.maintained, maintenance_completions-append s.channel (lost_maintenance ∷ []));
    alone = λ e. quiet;
  }

  free_of_popped :
      (k : ℕ) (op : Operation) (q : Queues) (s : Scheduler)
      → IsSafe max_concurrent_operations s
      → pop_front k s.queues ≡ some (op, q)
      → s.maintenance_active ≡ false
  free_of_popped k op q s h e = elim (Bool-cases s.maintenance_active) [
    | inl m ↦ ground (arith, pop_front-all_empty k s.queues (ground (arith, h.alone m)), e)
    | inr m ↦ m
  ]

  IsSafe-maintain_prepared :
      (r : Result (Unit {0}) × WorkerPool) (m : MaintenanceSubmission) (s : Scheduler)
      → IsSafe max_concurrent_operations s
      → s.maintenance_active ≡ false
      → is_busy s ≡ false
      → IsSafe max_concurrent_operations
          (maintain_prepared r m (record s { maintenance_active = true }))
  IsSafe-maintain_prepared (err e, pool) m s h free quiet = record {
    bounded = h.bounded;
    exclusive = λ j.
        ground (arith, h.exclusive j, completions_of-append j s.channel (lost_maintenance ∷ []));
    maintained =
        ground
          (arith, h.maintained, maintenance_completions-append s.channel (lost_maintenance ∷ []));
    alone = λ e. quiet;
  }
  IsSafe-maintain_prepared (ok u, pool) m s h free quiet =
      IsSafe-hand_maintenance (execute pool) m pool s h free quiet

  -- With maintenance active there is nothing to pop.
  IsSafe-dispatch_popped :
      (r : Option (Operation × Queues)) (k : ℕ) (s : Scheduler)
      → IsSafe max_concurrent_operations s
      → pop_front k s.queues ≡ r
      → contains k s.active ≡ false
      → leb max_concurrent_operations (length s.active) ≡ false
      → IsSafe max_concurrent_operations (dispatch_popped r k s)
  IsSafe-dispatch_popped none k s h e new room = h
  IsSafe-dispatch_popped (some (op, q)) k s h e new room =
      let free = free_of_popped k op q s h e in
      IsSafe-dispatch_prepared (prepare s.pool (length s.active + 1)) k op (record s { queues = q })
        (IsSafe-queues q s h (λ m. ground (arith, free, m))) free new room

  IsSafe-dispatch_if_idle :
      (order : KeyOrder) (k : ℕ) (s : Scheduler)
      → IsSafe max_concurrent_operations s
      → IsSafe max_concurrent_operations (dispatch_if_idle max_concurrent_operations order k s)
  unfolding dispatch_if_idle
  IsSafe-dispatch_if_idle order k s h =
      if-holds (IsSafe max_concurrent_operations)
        (contains k s.active || leb max_concurrent_operations (length s.active)) (λ e. h)
        (λ e.
          let (new, room) = ||_false (contains k s.active) _ e in
          IsSafe-dispatch_popped (pop_front k s.queues) k s h refl new room)

  pub IsSafe-Stable :
      (order : KeyOrder) → Stable max_concurrent_operations order (IsSafe max_concurrent_operations)
  IsSafe-Stable order = record {
    replied = λ r s h. record {
      bounded = h.bounded;
      exclusive = h.exclusive;
      maintained = h.maintained;
      alone = h.alone;
    };
    repended = λ l s h. record {
      bounded = h.bounded;
      exclusive = h.exclusive;
      maintained = h.maintained;
      alone = h.alone;
    };
    closed_to = λ l s h. record {
      bounded = h.bounded;
      exclusive = h.exclusive;
      maintained = h.maintained;
      alone = h.alone;
    };
    tidied = IsSafe-tidied;
    enqueued = λ x s free h. IsSafe-queues _ s h (λ m. ground (arith, free, m));
    idled = IsSafe-dispatch_if_idle order;
    maintained = λ m s free quiet h.
        unfold dispatch_maintenance in IsSafe-maintain_prepared (prepare s.pool 1) m s h free quiet;
  }
