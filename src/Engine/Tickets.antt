-- ===== src/Engine/Tickets.antt =====
-- How often a sender occurs among what the coordinator holds and what it has answered.
use atomic_blob_store.Prelude.{
  ℕ, ◌+◌, Option, none, some, List, [], ◌∷◌, ◌++◌, ◌≡◌, ◌==◌, if◌then◌else◌, arith,
}
use atomic_blob_store.Engine.Operation.{Operation, BlockingResult, Reply, sender}
use atomic_blob_store.Engine.Event.{MaintenanceCompletion, CoordinatorEvent, PendingEvent}
use atomic_blob_store.Engine.Queues.{Queues}
use atomic_blob_store.Engine.Scheduler.{Job, operate, maintain, Scheduler}

abbrev pub one : ℕ → ℕ → ℕ
one t u = if u == t then 1 else 0

abbrev pub in_operations : ℕ → List Operation → ℕ
in_operations t [] = 0
in_operations t (op ∷ ops) = one t (sender op) + in_operations t ops

abbrev pub in_queues : ℕ → Queues → ℕ
in_queues t [] = 0
in_queues t ((k, ops) ∷ rest) = in_operations t ops + in_queues t rest

abbrev pub in_outcome : ℕ → Option (Operation × BlockingResult) → ℕ
in_outcome t none = 0
in_outcome t (some (op, result)) = one t (sender op)

abbrev pub in_maintenance : ℕ → MaintenanceCompletion → ℕ
in_maintenance t c = elim c.outcome [ none ↦ 0 | some (u, r) ↦ one t u ]

abbrev pub in_event : ℕ → CoordinatorEvent → ℕ
in_event t (CoordinatorEvent.submission x) = one t (sender x.operation)
in_event t (CoordinatorEvent.completion c) = in_outcome t c.outcome
in_event t (CoordinatorEvent.maintenance m) = one t m.sender
in_event t (CoordinatorEvent.maintenance_completion c) = in_maintenance t c
in_event t (CoordinatorEvent.flush u) = one t u
in_event t (CoordinatorEvent.close u) = one t u

abbrev pub in_channel : ℕ → List CoordinatorEvent → ℕ
in_channel t [] = 0
in_channel t (e ∷ es) = in_event t e + in_channel t es

abbrev pub in_pending_event : ℕ → PendingEvent → ℕ
in_pending_event t (PendingEvent.submission x) = one t (sender x.operation)
in_pending_event t (PendingEvent.maintenance m) = one t m.sender
in_pending_event t (PendingEvent.flush u) = one t u
in_pending_event t (PendingEvent.close u) = one t u

abbrev pub in_pending : ℕ → List PendingEvent → ℕ
in_pending t [] = 0
in_pending t (e ∷ es) = in_pending_event t e + in_pending t es

abbrev pub in_job : ℕ → Job → ℕ
in_job t (operate k op) = one t (sender op)
in_job t (maintain m) = one t m.sender

abbrev pub in_jobs : ℕ → List Job → ℕ
in_jobs t [] = 0
in_jobs t (j ∷ js) = in_job t j + in_jobs t js

abbrev pub in_replies : ℕ → List (ℕ × Reply) → ℕ
in_replies t [] = 0
in_replies t ((u, r) ∷ rest) = one t u + in_replies t rest

-- All places but the pending events.
unfoldable pub core : ℕ → Scheduler → ℕ
core t s = in_queues t s.queues + in_channel t s.channel + in_jobs t s.jobs + in_replies t s.replies

-- The requests of sender `t` that are queued, pending, with a worker, in the channel or answered.
abbrev pub held : ℕ → Scheduler → ℕ
held t s = core t s + in_pending t s.pending

pub in_operations-append :
    (t : ℕ) (xs ys : List Operation)
    → in_operations t (xs ++ ys) ≡ in_operations t xs + in_operations t ys
in_operations-append t [] ys = omega arith
in_operations-append t (x ∷ xs) ys = omega (arith, in_operations-append t xs ys)

pub in_channel-append :
    (t : ℕ) (xs ys : List CoordinatorEvent)
    → in_channel t (xs ++ ys) ≡ in_channel t xs + in_channel t ys
in_channel-append t [] ys = omega arith
in_channel-append t (x ∷ xs) ys = omega (arith, in_channel-append t xs ys)

pub in_pending-append :
    (t : ℕ) (xs ys : List PendingEvent)
    → in_pending t (xs ++ ys) ≡ in_pending t xs + in_pending t ys
in_pending-append t [] ys = omega arith
in_pending-append t (x ∷ xs) ys = omega (arith, in_pending-append t xs ys)

pub in_jobs-append : (t : ℕ) (xs ys : List Job) → in_jobs t (xs ++ ys) ≡ in_jobs t xs + in_jobs t ys
in_jobs-append t [] ys = omega arith
in_jobs-append t (x ∷ xs) ys = omega (arith, in_jobs-append t xs ys)
