-- ===== src/Engine/Workers.antt =====
-- src/engine/workers.rs: the bounded worker pool. A handle is the outcome of joining its thread,
-- `true` for a panic; `spawn n` is what the operating system answers to the n-th request for a
-- thread, `none` for a refusal.
pub mod Capacity
pub mod Tests
use atomic_blob_store.Prelude.{
  ℕ, zero, suc, ◌+◌, ◌-◌, Bool, true, false, ◌||◌, Option, none, some, List, [], ◌∷◌, ◌++◌, length,
  min, if◌then◌else◌,
}
use atomic_blob_store.Errors.{Result, ok, err, worker_unavailable, shutdown_failure}

pub record WorkerPool : Type 0 where
  pub accepting : Bool
  pub handles : List Bool
  pub capacity : ℕ
  pub requests : ℕ
  pub spawn : ℕ → Option Bool

unfoldable pub new_pool : ℕ → (ℕ → Option Bool) → WorkerPool
new_pool capacity spawn = record {
  accepting = true;
  handles = [];
  capacity = capacity;
  requests = 0;
  spawn = spawn;
}

abbrev pub with_thread : Option Bool → WorkerPool → Result (Unit {0}) × WorkerPool
with_thread none p = (err worker_unavailable, record p { requests = p.requests + 1 })
with_thread (some handle) p =
    (ok tt, record p { requests = p.requests + 1; handles = p.handles ++ (handle ∷ []) })

abbrev pub while_started :
    Result (Unit {0}) × WorkerPool
    → (WorkerPool → Result (Unit {0}) × WorkerPool)
    → Result (Unit {0}) × WorkerPool
while_started (ok u, p) next = next p
while_started (err e, p) next = (err e, p)

-- The `while` loop of `prepare`, by the number of threads that are missing.
unfoldable pub start_workers : ℕ → WorkerPool → Result (Unit {0}) × WorkerPool
start_workers zero p = (ok tt, p)
start_workers (suc missing) p =
    while_started (with_thread (p.spawn p.requests) p) (λ p'. start_workers missing p')

unfoldable pub prepare : WorkerPool → ℕ → Result (Unit {0}) × WorkerPool
prepare p required = start_workers (min required p.capacity - length p.handles) p

-- The pool owns the receiving end, so a send fails only after `shutdown` has dropped the sender.
abbrev pub execute : WorkerPool → Result (Unit {0})
execute p = if p.accepting then ok tt else err worker_unavailable

abbrev pub any_panicked : List Bool → Bool
any_panicked [] = false
any_panicked (panicked ∷ rest) = panicked || any_panicked rest

unfoldable pub shutdown : WorkerPool → Result (Unit {0}) × WorkerPool
shutdown p = (
  if any_panicked p.handles then err shutdown_failure else ok tt,
  record p { accepting = false; handles = [] },
)
