-- ===== src/Engine/Stopping.antt =====
-- The state in which the shutdown of `run_scheduler` (src/engine/scheduler.rs) leaves the
-- coordinator.
use atomic_blob_store.Prelude.{
  ℕ, ◌≡◌, refl, ◌∙◌, true, Option, none, some, List, [], ◌∷◌, arith, &&_true,
}
use atomic_blob_store.Errors.{Result, CleanupReport}
use atomic_blob_store.Engine.Operation.{Operation, BlockingResult, Reply}
use atomic_blob_store.Engine.Event.{Lifecycle, CoordinatorEvent, PendingEvent}
use atomic_blob_store.Engine.Workers.{WorkerPool}
use atomic_blob_store.Engine.Queues.{Queues, all_empty}
use atomic_blob_store.Engine.Scheduler.{Job, operate, maintain, Scheduler, reply}
use atomic_blob_store.Engine.Tickets.{in_queues}
use atomic_blob_store.Engine.Flights.{jobs_of, maintenance_jobs}
use atomic_blob_store.Engine.Coordinator.{
  starts_with_close, closed_as, answer_closes, answer_rest, shut_down, is_drained, drop_operation,
  drop_maintenance,
}
use atomic_blob_store.Engine.Pending.{all_closes, shape, Shaped}

-- Two states that hold the same requests but for the channel and the pending events.
record SameWork (s s' : Scheduler) : Type 0 where
  queues : s'.queues ≡ s.queues
  jobs : s'.jobs ≡ s.jobs

answer_closes-pending :
    (outcome : Result (Unit {0})) (l : List PendingEvent) (s : Scheduler)
    → all_closes l ≡ true
    → (answer_closes outcome l s).pending ≡ []
unfolding answer_closes
answer_closes-pending outcome [] s h = refl
answer_closes-pending outcome (PendingEvent.close u ∷ rest) s h =
    answer_closes-pending outcome rest _ (ground arith)
answer_closes-pending outcome (PendingEvent.submission u ∷ rest) s h = ground arith
answer_closes-pending outcome (PendingEvent.maintenance u ∷ rest) s h = ground arith
answer_closes-pending outcome (PendingEvent.flush u ∷ rest) s h = ground arith

answer_closes-SameWork :
    (outcome : Result (Unit {0})) (l : List PendingEvent) (s : Scheduler)
    → SameWork s (answer_closes outcome l s)
unfolding answer_closes
answer_closes-SameWork outcome (PendingEvent.close u ∷ rest) s =
    let h = answer_closes-SameWork outcome rest _ in record { queues = h.queues; jobs = h.jobs }
answer_closes-SameWork outcome [] s = record { queues = refl; jobs = refl }
answer_closes-SameWork outcome (PendingEvent.submission u ∷ rest) s = record {
  queues = refl;
  jobs = refl;
}
answer_closes-SameWork outcome (PendingEvent.maintenance u ∷ rest) s = record {
  queues = refl;
  jobs = refl;
}
answer_closes-SameWork outcome (PendingEvent.flush u ∷ rest) s = record {
  queues = refl;
  jobs = refl;
}

-- What the last loop keeps.
record Emptied (s s' : Scheduler) : Type 0 where
  channel : s'.channel ≡ []
  pending : s'.pending ≡ s.pending
  queues : s'.queues ≡ s.queues
  jobs : s'.jobs ≡ s.jobs

from_dropped_operation :
    (o : Option (Operation × BlockingResult)) (s s' : Scheduler)
    → Emptied (drop_operation o s) s'
    → Emptied s s'
from_dropped_operation none s s' h = h
from_dropped_operation (some (op, r)) s s' h = record {
  channel = h.channel;
  pending = h.pending;
  queues = h.queues;
  jobs = h.jobs;
}

from_dropped_maintenance :
    (o : Option (ℕ × Result CleanupReport)) (s s' : Scheduler)
    → Emptied (drop_maintenance (record { outcome = o }) s) s'
    → Emptied s s'
from_dropped_maintenance none s s' h = h
from_dropped_maintenance (some (u, r)) s s' h = record {
  channel = h.channel;
  pending = h.pending;
  queues = h.queues;
  jobs = h.jobs;
}

from_reply : (r : ℕ × Reply) (s s' : Scheduler) → Emptied (reply r s) s' → Emptied s s'
from_reply r s s' h = record {
  channel = h.channel;
  pending = h.pending;
  queues = h.queues;
  jobs = h.jobs;
}

answer_rest-Emptied :
    (outcome : Result (Unit {0})) (l : List CoordinatorEvent) (s : Scheduler)
    → Emptied s (answer_rest outcome l s)
unfolding answer_rest
answer_rest-Emptied outcome [] s = record {
  channel = refl;
  pending = refl;
  queues = refl;
  jobs = refl;
}
answer_rest-Emptied outcome (CoordinatorEvent.close u ∷ rest) s =
    from_reply _ s _ (answer_rest-Emptied outcome rest _)
answer_rest-Emptied outcome (CoordinatorEvent.submission x ∷ rest) s =
    from_reply _ s _ (answer_rest-Emptied outcome rest _)
answer_rest-Emptied outcome (CoordinatorEvent.maintenance m ∷ rest) s =
    from_reply _ s _ (answer_rest-Emptied outcome rest _)
answer_rest-Emptied outcome (CoordinatorEvent.flush u ∷ rest) s =
    from_reply _ s _ (answer_rest-Emptied outcome rest _)
answer_rest-Emptied outcome (CoordinatorEvent.completion c ∷ rest) s =
    from_dropped_operation c.outcome s _
      (answer_rest-Emptied outcome rest (drop_operation c.outcome s))
answer_rest-Emptied outcome (CoordinatorEvent.maintenance_completion c ∷ rest) s =
    from_dropped_maintenance c.outcome s _ (answer_rest-Emptied outcome rest (drop_maintenance c s))

closes_of_shape :
    (life : Lifecycle) (l : List PendingEvent)
    → shape life l ≡ true
    → starts_with_close l ≡ true
    → all_closes l ≡ true
closes_of_shape life [] h d = refl
closes_of_shape life (PendingEvent.close u ∷ rest) h d = ground arith
closes_of_shape life (PendingEvent.submission u ∷ rest) h d = ground arith
closes_of_shape life (PendingEvent.maintenance u ∷ rest) h d = ground arith
closes_of_shape life (PendingEvent.flush u ∷ rest) h d = ground arith

-- What waits behind a close in front is a run of closes.
drained-all_closes : (s : Scheduler) → Shaped s → is_drained s ≡ true → all_closes s.pending ≡ true
drained-all_closes s h d =
    closes_of_shape s.lifecycle s.pending h (&&_true (starts_with_close s.pending) _ d).0

pub record IsQuiet (before after : Scheduler) : Type 0 where
  pub pending : after.pending ≡ []
  pub channel : after.channel ≡ []
  pub queues : after.queues ≡ before.queues
  pub jobs : after.jobs ≡ before.jobs

pub shut_down-IsQuiet :
    (r : Result (Unit {0}) × WorkerPool) (s : Scheduler)
    → Shaped s
    → is_drained s ≡ true
    → IsQuiet s (shut_down r s)
unfolding shut_down
shut_down-IsQuiet (outcome, pool) s h d =
    let s' = record s { pool = pool; lifecycle = closed_as outcome } in
    let left = answer_closes outcome s.pending s' in
    let closes = answer_closes-SameWork outcome s.pending s' in
    let rest = answer_rest-Emptied outcome left.channel left in
    record {
      pending =
          rest.pending ∙ answer_closes-pending outcome s.pending s' (drained-all_closes s h d);
      channel = rest.channel;
      queues = rest.queues ∙ closes.queues;
      jobs = rest.jobs ∙ closes.jobs;
    }

-- Empty queues hold nothing, and no jobs are left where none is counted.
pub in_queues-all_empty : (t : ℕ) (q : Queues) → all_empty q ≡ true → in_queues t q ≡ 0
unfolding all_empty
in_queues-all_empty t [] h = refl
in_queues-all_empty t ((k, []) ∷ rest) h = ground (arith, in_queues-all_empty t rest h)
in_queues-all_empty t ((k, op ∷ ops) ∷ rest) h = ground arith

pub no_jobs :
    (jobs : List Job) → ((k : ℕ) → jobs_of k jobs ≡ 0) → maintenance_jobs jobs ≡ 0 → jobs ≡ []
no_jobs [] none_of no_maintenance = refl
no_jobs (operate k op ∷ rest) none_of no_maintenance = ground (arith, none_of k)
no_jobs (maintain m ∷ rest) none_of no_maintenance = ground arith
