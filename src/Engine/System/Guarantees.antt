-- ===== src/Engine/System/Guarantees.antt =====
-- What callers may rely on from the start of a store to its shutdown (src/engine/mod.rs and
-- src/engine/scheduler.rs).
use atomic_blob_store.Prelude.{
  ℕ, ◌+◌, ◌≤◌, ◌≡◌, refl, ◌∙◌, sym, ap, subst, Bool, true, false, Option, none, some, List, [], ◌∷◌,
  ◌++◌, arith, is_empty, Bool-cases, inl, inr, &&_true,
}
use atomic_blob_store.Errors.{Result, CleanupReport}
use atomic_blob_store.Engine.Operation.{BlockingResult}
use atomic_blob_store.Engine.Event.{CoordinatorEvent}
use atomic_blob_store.Engine.Workers.{shutdown}
use atomic_blob_store.Engine.Queues.{KeyOrder, contains, all_empty}
use atomic_blob_store.Engine.Scheduler.{Job, operate, maintain, Scheduler, start, notify}
use atomic_blob_store.Engine.Coordinator.{
  Round, stopped, panicked, round, handle, shut_down, starts_with_close,
}
use atomic_blob_store.Engine.Tickets.{
  in_event, in_channel, in_job, in_jobs, in_replies, in_queues, in_pending, core, held,
  in_channel-append, in_jobs-append,
}
use atomic_blob_store.Engine.Flights.{jobs_of, maintenance_jobs}
use atomic_blob_store.Engine.Safety.{IsSafe, IsSafe-Stable}
use atomic_blob_store.Engine.Stable.{Kept, Kept-handle}
use atomic_blob_store.Engine.Pending.{Shaped}
use atomic_blob_store.Engine.Closing.{Shaped-handle}
use atomic_blob_store.Engine.Stopping.{IsQuiet, shut_down-IsQuiet, in_queues-all_empty, no_jobs}
use atomic_blob_store.Engine.Accounting.{Holds, round-Holds}
use atomic_blob_store.Engine.System.{finish_job, Reachable, started, sent, worked, took}
use atomic_blob_store.Engine.System.Rounds.{running-Kept, Last, stopped-Last, IsSafe-received}
use atomic_blob_store.Engine.System.Invariants.{Reachable-IsSafe}
use atomic_blob_store.Engine.System.Fitting.{Reachable-fits}

held-notify :
    (t : ℕ) (e : CoordinatorEvent) (s : Scheduler) → held t (notify e s) ≡ in_event t e + held t s
unfolding core
held-notify t e s = omega (arith, in_channel-append t s.channel (e ∷ []))

held-finish_job :
    (t : ℕ) (job : Job) (result : Option BlockingResult) (report : Option (Result CleanupReport))
    (s : Scheduler)
    → held t (finish_job job result report s) ≡ in_job t job + held t s
held-finish_job t (operate k op) none report s = held-notify t _ _ ∙ unfold core in omega arith
held-finish_job t (operate k op) (some result) report s = held-notify t _ _
held-finish_job t (maintain m) result none s = held-notify t _ _ ∙ unfold core in omega arith
held-finish_job t (maintain m) result (some r) s = held-notify t _ _

held-jobs :
    (t : ℕ) (before after : List Job) (job : Job) (s : Scheduler)
    → in_job t job + held t (record s { jobs = before ++ after })
      ≡ held t (record s { jobs = before ++ (job ∷ after) })
unfolding core
held-jobs t before after job s =
    omega (arith, in_jobs-append t before after, in_jobs-append t before (job ∷ after))

held-channel :
    (t : ℕ) (e : CoordinatorEvent) (rest : List CoordinatorEvent) (s : Scheduler)
    → in_event t e + held t (record s { channel = rest }) ≡ held t (record s { channel = e ∷ rest })
unfolding core
held-channel t e rest s = omega arith

Kept-both :
    (P Q : Scheduler → Type 0) (r : Option Round) → Kept P r → Kept Q r → Kept (λ s. P s × Q s) r
Kept-both P Q none p q = tt
Kept-both P Q (some r) p q = (p, q)

module _ {max_concurrent_operations : ℕ} where
  jobs_of-IsSafe :
      (k : ℕ) (s : Scheduler)
      → IsSafe max_concurrent_operations s
      → jobs_of k s.jobs + maintenance_jobs s.jobs ≤ 1
  unfolding contains
  jobs_of-IsSafe k s h = elim (Bool-cases s.maintenance_active) [
    | inl m ↦ ground (arith, h.exclusive k, h.maintained, h.alone m)
    | inr m ↦ ground (arith, h.exclusive k, h.maintained)
  ]

  -- Nothing is with the workers where nothing is active.
  no_jobs-IsSafe :
      (s : Scheduler)
      → IsSafe max_concurrent_operations s
      → is_empty s.active ≡ true
      → s.maintenance_active ≡ false
      → s.jobs ≡ []
  unfolding contains
  no_jobs-IsSafe s h idle free =
      no_jobs s.jobs (λ k. ground (arith, h.exclusive k, idle)) (ground (arith, h.maintained, free))

in_replies-IsQuiet :
    (t : ℕ) (before after : Scheduler)
    → IsQuiet before after
    → all_empty before.queues ≡ true
    → before.jobs ≡ []
    → in_replies t after.replies ≡ held t after
unfolding core
in_replies-IsQuiet t before after quiet empty idle = omega (
  arith,
  ap (in_queues t) quiet.queues ∙ in_queues-all_empty t before.queues empty,
  ap (in_jobs t) (quiet.jobs ∙ idle),
  ap (in_channel t) quiet.channel,
  ap (in_pending t) quiet.pending,
)

in_replies-Last :
    (max_concurrent_operations t : ℕ) (s' : Scheduler)
    → Last (λ s. IsSafe max_concurrent_operations s × Shaped s) s'
    → in_replies t s'.replies ≡ held t s'
in_replies-Last max_concurrent_operations t s' last =
    let s = last.before in
    let (safe, shaped) = last.kept in
    let (waits, rest) = &&_true (starts_with_close s.pending) _ last.drained in
    let (idle, rest) = &&_true (is_empty s.active) _ rest in
    let (empty, free) = &&_true (all_empty s.queues) _ rest in
    rw last.after (
      in_replies-IsQuiet t s (shut_down (shutdown s.pool) s)
        (shut_down-IsQuiet (shutdown s.pool) s shaped last.drained) empty
        (no_jobs-IsSafe s safe idle (ground (arith, free))))

module _ {max_concurrent_operations : ℕ} {order : KeyOrder} {spawn : ℕ → Option Bool} where
  -- In every state that a store reaches, a round on the first event of the channel does not panic.
  pub round-panicked :
      {requests : List CoordinatorEvent} {s : Scheduler} (e : CoordinatorEvent)
      (rest : List CoordinatorEvent)
      → s.channel ≡ e ∷ rest
      → Reachable max_concurrent_operations order spawn requests s
      → ¬ (round max_concurrent_operations order e (record s { channel = rest }) ≡ panicked)
  round-panicked {s = s} e rest c r p =
      subst (Holds 0 (in_event 0 e + held 0 (record s { channel = rest }))) p (
        round-Holds max_concurrent_operations order 0 e (record s { channel = rest })
          (Reachable-fits max_concurrent_operations order e rest c r))

  -- In every state that a store reaches, at most one job that may touch the blob of a key is with
  -- the workers: an operation on that key or a maintenance run, never two operations and never both.
  pub jobs_of-Reachable :
      {requests : List CoordinatorEvent} {s : Scheduler} (k : ℕ)
      → Reachable max_concurrent_operations order spawn requests s
      → jobs_of k s.jobs + maintenance_jobs s.jobs ≤ 1
  jobs_of-Reachable {s = s} k r =
      jobs_of-IsSafe k s (Reachable-IsSafe max_concurrent_operations order r)

  Reachable-Shaped :
      {requests : List CoordinatorEvent} {s : Scheduler}
      → Reachable max_concurrent_operations order spawn requests s
      → Shaped s
  unfolding round start
  Reachable-Shaped started = refl
  Reachable-Shaped (sent e q r) = Reachable-Shaped r
  Reachable-Shaped (worked before after (operate k op) none report e f r) = Reachable-Shaped r
  Reachable-Shaped (worked before after (operate k op) (some result) report e f r) =
      Reachable-Shaped r
  Reachable-Shaped (worked before after (maintain m) result none e f r) = Reachable-Shaped r
  Reachable-Shaped (worked before after (maintain m) result (some report) e f r) =
      Reachable-Shaped r
  Reachable-Shaped (took {s = s} {s' = s'} e rest c p r) =
      running-Kept Shaped (handle max_concurrent_operations order e (record s { channel = rest }))
        s'
        (Shaped-handle max_concurrent_operations order e (record s { channel = rest })
          (Reachable-Shaped r))
        p

  IsSafe-handle :
      {requests : List CoordinatorEvent} {s : Scheduler} (e : CoordinatorEvent)
      (rest : List CoordinatorEvent)
      → s.channel ≡ e ∷ rest
      → Reachable max_concurrent_operations order spawn requests s
      → Kept
          (IsSafe max_concurrent_operations)
          (handle max_concurrent_operations order e (record s { channel = rest }))
  IsSafe-handle {s = s} e rest c r =
      Kept-handle max_concurrent_operations order (IsSafe max_concurrent_operations)
        (IsSafe-Stable max_concurrent_operations order) e (record s { channel = rest })
        (IsSafe-received max_concurrent_operations e rest s (
          subst (λ l. IsSafe max_concurrent_operations (record s { channel = l })) c
            (Reachable-IsSafe max_concurrent_operations order r)))

  -- A round on the next event of the channel holds what was held.
  Holds-taken :
      {requests : List CoordinatorEvent} {s : Scheduler} (t n : ℕ) (e : CoordinatorEvent)
      (rest : List CoordinatorEvent)
      → s.channel ≡ e ∷ rest
      → Reachable max_concurrent_operations order spawn requests s
      → held t s ≡ n
      → Holds t n (round max_concurrent_operations order e (record s { channel = rest }))
  Holds-taken {s = s} t n e rest c r h =
      subst (λ m. Holds t m (round max_concurrent_operations order e (record s { channel = rest })))
        (held-channel t e rest s ∙ ap (λ l. held t (record s { channel = l })) (sym c) ∙ h)
        (round-Holds max_concurrent_operations order t e (record s { channel = rest })
          (Reachable-fits max_concurrent_operations order e rest c r))

  -- In every state that a store reaches, the requests of each sender that are queued, pending, with
  -- a worker, in the channel or answered are as many as were sent.
  pub held-Reachable :
      {requests : List CoordinatorEvent} {s : Scheduler} (t : ℕ)
      → Reachable max_concurrent_operations order spawn requests s
      → held t s ≡ in_channel t requests
  unfolding start core
  held-Reachable t started = refl
  held-Reachable t (sent {s = s} e q r) =
      held-notify t e s ∙ ap (λ n. in_event t e + n) (held-Reachable t r)
  held-Reachable t (worked {s = s} before after job result report e f r) =
      held-finish_job t job result report (record s { jobs = before ++ after })
      ∙ held-jobs t before after job s
      ∙ ap (λ l. held t (record s { jobs = l })) (sym e)
      ∙ held-Reachable t r
  held-Reachable {requests = requests} t (took {s = s} e rest c p r) =
      subst (Holds t (in_channel t requests)) p
        (Holds-taken t (in_channel t requests) e rest c r (held-Reachable t r))

  -- When a round stops the coordinator of a store that was reached, every request that was ever
  -- sent to it has been answered exactly once, a dropped sender counted as an answer: for each
  -- sender there are as many replies as there were requests.
  pub in_replies-stopped :
      {requests : List CoordinatorEvent} {s s' : Scheduler} (t : ℕ) (e : CoordinatorEvent)
      (rest : List CoordinatorEvent)
      → s.channel ≡ e ∷ rest
      → Reachable max_concurrent_operations order spawn requests s
      → round max_concurrent_operations order e (record s { channel = rest }) ≡ stopped s'
      → in_replies t s'.replies ≡ in_channel t requests
  unfolding round
  in_replies-stopped {requests = requests} {s = s} {s' = s'} t e rest c r p =
      let taken = record s { channel = rest } in
      in_replies-Last max_concurrent_operations t s' (
        stopped-Last (λ x. IsSafe max_concurrent_operations x × Shaped x)
          (handle max_concurrent_operations order e taken) s'
          (Kept-both (IsSafe max_concurrent_operations) Shaped
            (handle max_concurrent_operations order e taken) (IsSafe-handle e rest c r)
            (Shaped-handle max_concurrent_operations order e taken (Reachable-Shaped r)))
          p)
      ∙ subst (Holds t (in_channel t requests)) p
          (Holds-taken t (in_channel t requests) e rest c r (held-Reachable t r))
