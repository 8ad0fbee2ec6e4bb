-- ===== src/Engine/System/Invariants.antt =====
-- The invariants of the coordinator of src/engine/scheduler.rs, from its start on.
use atomic_blob_store.Prelude.{
  ℕ, ◌≡◌, refl, subst, Bool, true, Option, none, some, List, [], ◌∷◌, ◌++◌, arith,
}
use atomic_blob_store.Errors.{Result, CleanupReport}
use atomic_blob_store.Engine.Operation.{BlockingResult, dropped, sender}
use atomic_blob_store.Engine.Event.{CoordinatorEvent}
use atomic_blob_store.Engine.Workers.{new_pool}
use atomic_blob_store.Engine.Queues.{KeyOrder, contains, all_empty}
use atomic_blob_store.Engine.Scheduler.{
  Job, operate, maintain, Scheduler, start, reply, notify, lost_completion, lost_maintenance,
}
use atomic_blob_store.Engine.Coordinator.{round, handle}
use atomic_blob_store.Engine.Flights.{
  jobs_of, completions_of, maintenance_jobs, maintenance_completions, jobs_of-append,
  maintenance_jobs-append, completions_of-append, maintenance_completions-append,
}
use atomic_blob_store.Engine.Safety.{IsSafe, IsSafe-Stable}
use atomic_blob_store.Engine.Stable.{Kept-handle}
use atomic_blob_store.Engine.System.{is_request, finish_job, Reachable, started, sent, worked, took}
use atomic_blob_store.Engine.System.Rounds.{running-Kept, IsSafe-received}

-- What a caller sends is no completion.
IsSafe-notify :
    (max_concurrent_operations : ℕ) (e : CoordinatorEvent) (s : Scheduler)
    → is_request e ≡ true
    → IsSafe max_concurrent_operations s
    → IsSafe max_concurrent_operations (notify e s)
IsSafe-notify max_concurrent_operations e s q h = record {
  bounded = h.bounded;
  exclusive = λ k. ground (arith, h.exclusive k, completions_of-append k s.channel (e ∷ []));
  maintained = ground (arith, h.maintained, maintenance_completions-append s.channel (e ∷ []));
  alone = h.alone;
}

-- A job that ends becomes one event that counts like it.
IsSafe-reported :
    (max_concurrent_operations : ℕ) (before after : List Job) (job : Job) (e : CoordinatorEvent)
    (s : Scheduler)
    → ((k : ℕ) → jobs_of k (job ∷ []) ≡ completions_of k (e ∷ []))
    → maintenance_jobs (job ∷ []) ≡ maintenance_completions (e ∷ [])
    → IsSafe max_concurrent_operations (record s { jobs = before ++ (job ∷ after) })
    → IsSafe max_concurrent_operations (notify e (record s { jobs = before ++ after }))
IsSafe-reported max_concurrent_operations before after job e s same same_maintenance h = record {
  bounded = h.bounded;
  exclusive = λ k. omega (
    arith,
    h.exclusive k,
    same k,
    jobs_of-append k before (job ∷ after),
    jobs_of-append k (job ∷ []) after,
    jobs_of-append k before after,
    completions_of-append k s.channel (e ∷ []),
  );
  maintained = omega (
    arith,
    h.maintained,
    same_maintenance,
    maintenance_jobs-append before (job ∷ after),
    maintenance_jobs-append (job ∷ []) after,
    maintenance_jobs-append before after,
    maintenance_completions-append s.channel (e ∷ []),
  );
  alone = h.alone;
}

module _ (max_concurrent_operations : ℕ) (order : KeyOrder) where
  IsSafe-finish_job :
      (before after : List Job) (job : Job) (result : Option BlockingResult)
      (report : Option (Result CleanupReport)) (s : Scheduler)
      → IsSafe max_concurrent_operations (record s { jobs = before ++ (job ∷ after) })
      → IsSafe max_concurrent_operations
          (finish_job job result report (record s { jobs = before ++ after }))
  IsSafe-finish_job before after (operate k op) none report s h =
      IsSafe-reported max_concurrent_operations before after (operate k op) (lost_completion k)
        (reply (sender op, dropped) s) (λ j. refl) refl
        ((IsSafe-Stable max_concurrent_operations order).replied _ _ h)
  IsSafe-finish_job before after (operate k op) (some result) report s h =
      IsSafe-reported max_concurrent_operations before after (operate k op)
        (CoordinatorEvent.completion (record { key_hash = k; outcome = some (op, result) })) s
        (λ j. refl) refl h
  IsSafe-finish_job before after (maintain m) result none s h =
      IsSafe-reported max_concurrent_operations before after (maintain m) lost_maintenance
        (reply (m.sender, dropped) s) (λ j. refl) refl
        ((IsSafe-Stable max_concurrent_operations order).replied _ _ h)
  IsSafe-finish_job before after (maintain m) result (some r) s h =
      IsSafe-reported max_concurrent_operations before after (maintain m)
        (CoordinatorEvent.maintenance_completion (record { outcome = some (m.sender, r) })) s
        (λ j. refl) refl h

  IsSafe-start :
      (spawn : ℕ → Option Bool)
      → IsSafe max_concurrent_operations (start (new_pool max_concurrent_operations spawn))
  unfolding start contains all_empty
  IsSafe-start spawn = record {
    bounded = omega arith;
    exclusive = λ k. refl;
    maintained = refl;
    alone = λ m. refl;
  }

  -- In every state that a store reaches: no more keys are active than the configured number of
  -- concurrent operations; a key is active exactly while one job or one unread completion for it
  -- exists; maintenance is active exactly while one maintenance job or its completion exists; and
  -- while maintenance is active no key is, and no operation is queued.
  pub Reachable-IsSafe :
      {spawn : ℕ → Option Bool} {requests : List CoordinatorEvent} {s : Scheduler}
      → Reachable max_concurrent_operations order spawn requests s
      → IsSafe max_concurrent_operations s
  unfolding round
  Reachable-IsSafe {spawn} started = IsSafe-start spawn
  Reachable-IsSafe (sent {s = s} e q r) =
      IsSafe-notify max_concurrent_operations e s q (Reachable-IsSafe r)
  Reachable-IsSafe (worked {s = s} before after job result report e f r) =
      IsSafe-finish_job before after job result report s (
        subst (λ l. IsSafe max_concurrent_operations (record s { jobs = l })) e
          (Reachable-IsSafe r))
  Reachable-IsSafe (took {s = s} {s' = s'} e rest c p r) =
      running-Kept (IsSafe max_concurrent_operations)
        (handle max_concurrent_operations order e (record s { channel = rest })) s'
        (Kept-handle max_concurrent_operations order (IsSafe max_concurrent_operations)
          (IsSafe-Stable max_concurrent_operations order) e (record s { channel = rest })
          (IsSafe-received max_concurrent_operations e rest s (
            subst (λ l. IsSafe max_concurrent_operations (record s { channel = l })) c
              (Reachable-IsSafe r))))
        p
