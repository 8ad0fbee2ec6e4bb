-- ===== src/Engine/Frame.antt =====
-- The parts of the coordinator's state that dispatching in src/engine/scheduler.rs does not touch.
use atomic_blob_store.Prelude.{
  ℕ, zero, suc, ◌+◌, ◌≡◌, refl, ◌∙◌, ◌||◌, Bool-cases, Option-cases, inl, inr, Option, none, some,
  length, leb, ltb, arith,
}
use atomic_blob_store.Errors.{Result, ok, err}
use atomic_blob_store.Engine.Operation.{Operation}
use atomic_blob_store.Engine.Workers.{WorkerPool, prepare}
use atomic_blob_store.Engine.Queues.{Queues, KeyOrder, contains, pop_front, find_idle}
use atomic_blob_store.Engine.Scheduler.{
  Scheduler, dispatch_prepared, dispatch_popped, dispatch_if_idle, dispatch_rounds,
  dispatch_available, queued,
}

pub record SameControl (s s' : Scheduler) : Type 0 where
  pub pending : s'.pending ≡ s.pending
  pub maintenance_active : s'.maintenance_active ≡ s.maintenance_active
  pub lifecycle : s'.lifecycle ≡ s.lifecycle

SameControl-refl : (s : Scheduler) → SameControl s s
SameControl-refl s = record { pending = refl; maintenance_active = refl; lifecycle = refl }

SameControl-trans : {a b c : Scheduler} → SameControl a b → SameControl b c → SameControl a c
SameControl-trans h k = record {
  pending = k.pending ∙ h.pending;
  maintenance_active = k.maintenance_active ∙ h.maintenance_active;
  lifecycle = k.lifecycle ∙ h.lifecycle;
}

dispatch_prepared-SameControl :
    (r : Result (Unit {0}) × WorkerPool) (k : ℕ) (op : Operation) (s : Scheduler)
    → SameControl s (dispatch_prepared r k op s)
dispatch_prepared-SameControl (ok u, pool) k op s = ground arith
dispatch_prepared-SameControl (err e, pool) k op s = ground arith

dispatch_popped-SameControl :
    (r : Option (Operation × Queues)) (k : ℕ) (s : Scheduler)
    → SameControl s (dispatch_popped r k s)
dispatch_popped-SameControl none k s = SameControl-refl s
dispatch_popped-SameControl (some (op, q)) k s =
    let h =
      dispatch_prepared-SameControl (prepare s.pool (length s.active + 1)) k op
        (record s { queues = q }) in
    record {
      pending = h.pending;
      maintenance_active = h.maintenance_active;
      lifecycle = h.lifecycle;
    }

module _ (max_concurrent_operations : ℕ) (order : KeyOrder) where
  pub dispatch_if_idle-SameControl :
      (k : ℕ) (s : Scheduler) → SameControl s (dispatch_if_idle max_concurrent_operations order k s)
  unfolding dispatch_if_idle
  dispatch_if_idle-SameControl k s =
      elim (Bool-cases (contains k s.active || leb max_concurrent_operations (length s.active))) [
        | inl e ↦ rw e (SameControl-refl s)
        | inr e ↦ rw e (dispatch_popped-SameControl (pop_front k s.queues) k s)
      ]

  dispatch_rounds-SameControl :
      (fuel : ℕ) (s : Scheduler)
      → SameControl s (dispatch_rounds max_concurrent_operations order fuel s)
  unfolding dispatch_rounds
  dispatch_rounds-SameControl zero s = SameControl-refl s
  dispatch_rounds-SameControl (suc fuel) s =
      elim (Bool-cases (ltb (length s.active) max_concurrent_operations)) [
        | inl e ↦ rw e (elim (Option-cases (find_idle (order.keys s.queues) s.queues s.active)) [
          | inl n ↦ rw n (SameControl-refl s)
          | inr (k, found) ↦ rw found (
              SameControl-trans (dispatch_if_idle-SameControl k s)
                (dispatch_rounds-SameControl fuel _))
        ])
        | inr e ↦ rw e (SameControl-refl s)
      ]

  pub dispatch_available-SameControl :
      (s : Scheduler) → SameControl s (dispatch_available max_concurrent_operations order s)
  unfolding dispatch_available
  dispatch_available-SameControl s = dispatch_rounds-SameControl (suc (queued s.queues)) s
