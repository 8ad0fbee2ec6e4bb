-- ===== src/Engine/Scheduler.antt =====
-- src/engine/scheduler.rs: the coordinator loop. One record holds the loop's variables, the events
-- that wait in its channel, the jobs that the workers have been handed and the replies that were
-- sent, newest first. `none` from `handle` is a panic of the coordinator.
use atomic_blob_store.Prelude.{
  ℕ, zero, suc, ◌+◌, Bool, true, false, not, ◌||◌, Option, none, some, List, [], ◌∷◌, ◌++◌, length,
  ltb, leb, if◌then◌else◌, is_empty,
}
use atomic_blob_store.Errors.{Result, ok, err}
use atomic_blob_store.Engine.Operation.{
  Operation, Reply, cleaned, passed, dropped, sender, deliver_error,
}
use atomic_blob_store.Engine.Event.{
  Lifecycle, opened, Submission, MaintenanceSubmission, CoordinatorEvent, PendingEvent,
}
use atomic_blob_store.Engine.Workers.{WorkerPool, prepare, execute}
use atomic_blob_store.Engine.Queues.{
  Queues, KeyOrder, contains, push_back, pop_front, remove_if_empty, all_empty, find_idle,
}

pub data Job : Type 0 where
  operate : ℕ → Operation → Job
  maintain : MaintenanceSubmission → Job

pub record Scheduler : Type 0 where
  pub queues : Queues
  pub active : List ℕ
  pub pending : List PendingEvent
  pub maintenance_active : Bool
  pub lifecycle : Lifecycle
  pub pool : WorkerPool
  pub channel : List CoordinatorEvent
  pub jobs : List Job
  pub replies : List (ℕ × Reply)

unfoldable pub start : WorkerPool → Scheduler
start pool = record {
  queues = [];
  active = [];
  pending = [];
  maintenance_active = false;
  lifecycle = opened;
  pool = pool;
  channel = [];
  jobs = [];
  replies = [];
}

abbrev pub reply : ℕ × Reply → Scheduler → Scheduler
reply r s = record s { replies = r ∷ s.replies }

abbrev pub notify : CoordinatorEvent → Scheduler → Scheduler
notify e s = record s { channel = s.channel ++ (e ∷ []) }

abbrev pub is_open : Lifecycle → Bool
is_open opened = true
is_open _ = false

-- `!active.is_empty() || queues.values().any(|queue| !queue.is_empty())`.
abbrev pub is_busy : Scheduler → Bool
is_busy s = not (is_empty s.active) || not (all_empty s.queues)

abbrev pub lost_completion : ℕ → CoordinatorEvent
lost_completion k = CoordinatorEvent.completion (record { key_hash = k; outcome = none })

abbrev pub lost_maintenance : CoordinatorEvent
lost_maintenance = CoordinatorEvent.maintenance_completion (record { outcome = none })

-- Handing a job to the pool; where the pool refuses it, the closure is dropped with its sender.
abbrev pub hand_operation : Result (Unit {0}) → ℕ → Operation → Scheduler → Scheduler
hand_operation (ok u) k op s = record s { jobs = s.jobs ++ (operate k op ∷ []) }
hand_operation (err e) k op s = notify (lost_completion k) (reply (sender op, dropped) s)

abbrev pub hand_maintenance : Result (Unit {0}) → MaintenanceSubmission → Scheduler → Scheduler
hand_maintenance (ok u) m s = record s { jobs = s.jobs ++ (maintain m ∷ []) }
hand_maintenance (err e) m s = notify lost_maintenance (reply (m.sender, dropped) s)

abbrev pub dispatch_prepared :
    Result (Unit {0}) × WorkerPool → ℕ → Operation → Scheduler → Scheduler
dispatch_prepared (err e, pool) k op s =
    reply (deliver_error op e) (record s { pool = pool; queues = remove_if_empty k s.queues })
dispatch_prepared (ok u, pool) k op s =
    hand_operation (execute pool) k op (record s { pool = pool; active = k ∷ s.active })

abbrev pub dispatch_popped : Option (Operation × Queues) → ℕ → Scheduler → Scheduler
dispatch_popped none k s = s
dispatch_popped (some (op, queues)) k s =
    dispatch_prepared (prepare s.pool (length s.active + 1)) k op (record s { queues = queues })

abbrev pub maintain_prepared :
    Result (Unit {0}) × WorkerPool → MaintenanceSubmission → Scheduler → Scheduler
maintain_prepared (err e, pool) m s =
    notify lost_maintenance (reply (m.sender, cleaned (err e)) (record s { pool = pool }))
maintain_prepared (ok u, pool) m s = hand_maintenance (execute pool) m (record s { pool = pool })

unfoldable pub dispatch_maintenance : MaintenanceSubmission → Scheduler → Scheduler
dispatch_maintenance m s = maintain_prepared (prepare s.pool 1) m s

abbrev pub enqueue : Submission → Scheduler → Scheduler
enqueue x s = record s { queues = push_back x.key_hash x.operation s.queues }

abbrev pub queued : Queues → ℕ
queued [] = 0
queued ((k, ops) ∷ rest) = length ops + queued rest

module _ (max_concurrent_operations : ℕ) (order : KeyOrder) where
  unfoldable pub dispatch_if_idle : ℕ → Scheduler → Scheduler
  dispatch_if_idle k s =
      if contains k s.active || leb max_concurrent_operations (length s.active)
      then s
      else dispatch_popped (pop_front k s.queues) k s

  -- The `while` loop of `dispatch_available`. Each round takes an operation off a queue.
  unfoldable pub dispatch_rounds : ℕ → Scheduler → Scheduler
  dispatch_rounds zero s = s
  dispatch_rounds (suc fuel) s =
      if ltb (length s.active) max_concurrent_operations
      then elim (find_idle (order.keys s.queues) s.queues s.active) [
        | none ↦ s
        | some k ↦ dispatch_rounds fuel (dispatch_if_idle k s)
      ]
      else s

  unfoldable pub dispatch_available : Scheduler → Scheduler
  dispatch_available s = dispatch_rounds (suc (queued s.queues)) s

  -- The loop of `advance_pending_if_ready` over the pending events.
  unfoldable pub advance : List PendingEvent → Scheduler → Scheduler
  advance [] s = record s { pending = [] }
  advance (PendingEvent.maintenance m ∷ rest) s =
      if is_busy s
      then record s { pending = PendingEvent.maintenance m ∷ rest }
      else dispatch_maintenance m (record s { pending = rest; maintenance_active = true })
  advance (PendingEvent.submission x ∷ rest) s =
      advance rest (dispatch_if_idle x.key_hash (enqueue x s))
  advance (PendingEvent.flush t ∷ rest) s =
      let passed_on = advance rest (reply (t, passed (ok tt)) s) in
      if is_busy s then record s { pending = PendingEvent.flush t ∷ rest } else passed_on
  advance (PendingEvent.close t ∷ rest) s = record s { pending = PendingEvent.close t ∷ rest }

  unfoldable pub advance_pending_if_ready : Scheduler → Scheduler
  advance_pending_if_ready s = if s.maintenance_active then s else advance s.pending s
