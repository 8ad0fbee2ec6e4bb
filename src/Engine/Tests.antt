-- ===== src/Engine/Tests.antt =====
-- One store with one request, from its start to its shutdown.
use atomic_blob_store.Prelude.{
  ℕ, ◌+◌, ◌≤◌, ◌≡◌, refl, Bool, true, false, Option, none, some, List, [], ◌∷◌, length, arith,
}
use atomic_blob_store.Errors.{ok}
use atomic_blob_store.Engine.Operation.{Operation, BlockingResult, deliver, answer, passed}
use atomic_blob_store.Engine.Event.{CoordinatorEvent, opened, closed}
use atomic_blob_store.Engine.Workers.{WorkerPool, new_pool, start_workers, prepare, shutdown}
use atomic_blob_store.Engine.Queues.{
  Queues, KeyOrder, contains, remove, has_work, queue_of, push_back, pop_front, remove_if_empty,
  all_empty, find_idle,
}
use atomic_blob_store.Engine.Scheduler.{
  operate, Scheduler, start, notify, dispatch_if_idle, dispatch_rounds, dispatch_available, advance,
  advance_pending_if_ready,
}
use atomic_blob_store.Engine.Coordinator.{
  running, stopped, panicked, on_submission, on_completion, on_close, handle, answer_closes,
  answer_rest, shut_down, end_of_round, round,
}
use atomic_blob_store.Engine.Tickets.{in_channel, in_event, in_replies, held}
use atomic_blob_store.Engine.Flights.{jobs_of, maintenance_jobs}
use atomic_blob_store.Engine.Safety.{IsSafe}
use atomic_blob_store.Engine.Settled.{Settled, dispatch_available-Settled}
use atomic_blob_store.Engine.Accounting.{Holds, round-Holds}
use atomic_blob_store.Engine.Front.{Store, joined, clear, close}
use atomic_blob_store.Engine.Front.Expected.{submission}
use atomic_blob_store.Engine.System.{Reachable, started, sent, worked, took}
use atomic_blob_store.Engine.System.Invariants.{Reachable-IsSafe}
use atomic_blob_store.Engine.System.Guarantees.{
  jobs_of-Reachable, held-Reachable, in_replies-stopped, round-panicked,
}

abbrev keys_of : Queues → List ℕ
keys_of [] = []
keys_of ((k, ops) ∷ rest) = k ∷ keys_of rest

pub keys_of_complete :
    (q : Queues) (k : ℕ) → has_work (queue_of k q) ≡ true → contains k (keys_of q) ≡ true
unfolding queue_of contains
keys_of_complete [] k h = ground arith
keys_of_complete ((j, ops) ∷ rest) k h = ground (arith, keys_of_complete rest k)

abbrev pub insertion_order : KeyOrder
insertion_order = record { keys = keys_of; complete = keys_of_complete }

abbrev every_thread : ℕ → Option Bool
every_thread n = some false

abbrev clear_seven : CoordinatorEvent
clear_seven = CoordinatorEvent.submission (record { key_hash = 7; operation = Operation.clear 100 })

abbrev cleared_seven : CoordinatorEvent
cleared_seven =
    CoordinatorEvent.completion
      (record { key_hash = 7; outcome = some (Operation.clear 100, BlockingResult.clear (ok tt)) })

abbrev one_worker : WorkerPool
one_worker = record {
  accepting = true;
  handles = false ∷ [];
  capacity = 1;
  requests = 1;
  spawn = every_thread;
}

abbrev begun : Scheduler
begun = start (new_pool 1 every_thread)

abbrev asked : Scheduler
asked = notify clear_seven begun

abbrev working : Scheduler
working = record {
  queues = (7, []) ∷ [];
  active = 7 ∷ [];
  pending = [];
  maintenance_active = false;
  lifecycle = opened;
  pool = one_worker;
  channel = [];
  jobs = operate 7 (Operation.clear 100) ∷ [];
  replies = [];
}

abbrev worked_off : Scheduler
worked_off = record working { channel = cleared_seven ∷ []; jobs = [] }

abbrev answered : Scheduler
answered = record working {
  queues = [];
  active = [];
  jobs = [];
  replies = (100, answer (BlockingResult.clear (ok tt))) ∷ [];
}

abbrev leaving : Scheduler
leaving = record answered { channel = CoordinatorEvent.close 200 ∷ [] }

abbrev left : Scheduler
left = record answered {
  lifecycle = closed;
  pool = record one_worker { accepting = false; handles = [] };
  replies = (200, passed (ok tt)) ∷ (100, answer (BlockingResult.clear (ok tt))) ∷ [];
}

abbrev requests : List CoordinatorEvent
requests = CoordinatorEvent.close 200 ∷ clear_seven ∷ []

round_asked : round 1 insertion_order clear_seven begun ≡ running working
unfolding start new_pool round end_of_round handle on_submission dispatch_available dispatch_rounds
    find_idle dispatch_if_idle contains push_back pop_front prepare start_workers queue_of
round_asked = refl

round_worked :
    round 1 insertion_order cleared_seven (record worked_off { channel = [] }) ≡ running answered
unfolding round end_of_round handle on_completion dispatch_available dispatch_rounds find_idle
    dispatch_if_idle contains pop_front queue_of deliver remove remove_if_empty advance
    advance_pending_if_ready
round_worked = refl

round-leaving :
    round 1 insertion_order (CoordinatorEvent.close 200) (record leaving { channel = [] })
    ≡ stopped left
unfolding round end_of_round handle on_close advance advance_pending_if_ready shut_down
    answer_closes answer_rest all_empty shutdown
round-leaving = refl

reached_working : Reachable 1 insertion_order every_thread (clear_seven ∷ []) working
unfolding start
reached_working = took clear_seven [] refl round_asked (sent clear_seven refl started)

reached_worked_off : Reachable 1 insertion_order every_thread (clear_seven ∷ []) worked_off
unfolding deliver
reached_worked_off =
    worked [] [] (operate 7 (Operation.clear 100)) (some (BlockingResult.clear (ok tt))) none refl
      refl reached_working

reached_leaving : Reachable 1 insertion_order every_thread requests leaving
reached_leaving =
    sent (CoordinatorEvent.close 200) refl
      (took cleared_seven [] refl round_worked reached_worked_off)

in_replies-stopped_example : in_replies 100 left.replies ≡ in_channel 100 requests
in_replies-stopped_example =
    in_replies-stopped {spawn = every_thread} 100 (CoordinatorEvent.close 200) [] refl
      reached_leaving round-leaving

jobs_of-Reachable_example : jobs_of 7 working.jobs + maintenance_jobs working.jobs ≤ 1
jobs_of-Reachable_example = jobs_of-Reachable 7 reached_working

held-Reachable_example : held 100 worked_off ≡ in_channel 100 (clear_seven ∷ [])
held-Reachable_example = held-Reachable 100 reached_worked_off

Reachable-IsSafe_example : IsSafe 1 working
Reachable-IsSafe_example = Reachable-IsSafe 1 insertion_order reached_working

round-panicked_example :
    ¬ (round 1 insertion_order cleared_seven (record worked_off { channel = [] }) ≡ panicked)
round-panicked_example = round-panicked cleared_seven [] refl reached_worked_off

round-Holds_example :
    Holds 100
      (in_event 100 clear_seven + held 100 begun)
      (round 1 insertion_order clear_seven begun)
round-Holds_example = round-Holds 1 insertion_order 100 clear_seven begun refl

dispatch_available-Settled_example : Settled 1 insertion_order (
    dispatch_available 1 insertion_order (record begun {
      queues = (7, Operation.clear 100 ∷ []) ∷ (8, Operation.clear 101 ∷ []) ∷ [];
    }))
dispatch_available-Settled_example =
    dispatch_available-Settled 1 insertion_order
      (record begun { queues = (7, Operation.clear 100 ∷ []) ∷ (8, Operation.clear 101 ∷ []) ∷ [] })

abbrev store : Store
store = record {
  coordinator = begun;
  connected = true;
  maximum = 64;
  join = record { handle = joined; outcome = none };
}

abbrev key_length : List ℕ → ℕ
key_length = length
