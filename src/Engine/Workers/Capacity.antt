-- ===== src/Engine/Workers/Capacity.antt =====
-- How many threads `WorkerPool::prepare` of src/engine/workers.rs starts.
use atomic_blob_store.Prelude.{
  ℕ, zero, suc, ◌+◌, ◌-◌, ◌≤◌, ◌≡◌, refl, subst, Bool, Option, none, some, [], ◌∷◌, ◌++◌, length,
  min, arith, length-append,
}
use atomic_blob_store.Errors.{Result, ok, err, worker_unavailable}
use atomic_blob_store.Engine.Workers.{
  WorkerPool, with_thread, while_started, start_workers, prepare,
}

-- The outcome of starting `missing` threads where there were `n`: all of them, or fewer and an error.
abbrev pub HasStarted : ℕ → ℕ → Result (Unit {0}) × WorkerPool → Type 0
HasStarted n missing (ok u, p) = length p.handles ≡ n + missing
HasStarted n missing (err e, p) = (e ≡ worker_unavailable) × (length p.handles ≤ n + missing)

HasStarted-later :
    (n missing : ℕ) (r : Result (Unit {0}) × WorkerPool)
    → HasStarted (n + 1) missing r
    → HasStarted n (suc missing) r
HasStarted-later n missing (ok u, q) h = omega (arith, h)
HasStarted-later n missing (err e, q) h = (h.0, omega (arith, h.1))

while_started-HasStarted :
    (missing : ℕ) (p : WorkerPool) (o : Option Bool)
    (next : WorkerPool → Result (Unit {0}) × WorkerPool)
    → ((q : WorkerPool) → HasStarted (length q.handles) missing (next q))
    → HasStarted (length p.handles) (suc missing) (while_started (with_thread o p) next)
while_started-HasStarted missing p none next h = (refl, omega arith)
while_started-HasStarted missing p (some handle) next h =
    let started = record p { requests = p.requests + 1; handles = p.handles ++ (handle ∷ []) } in
    HasStarted-later (length p.handles) missing (next started) (
      subst (λ n. HasStarted n missing (next started)) (length-append p.handles (handle ∷ []))
        (h started))

start_workers-HasStarted :
    (missing : ℕ) (p : WorkerPool) → HasStarted (length p.handles) missing (start_workers missing p)
unfolding start_workers
start_workers-HasStarted zero p = omega arith
start_workers-HasStarted (suc missing) p =
    while_started-HasStarted missing p (p.spawn p.requests) (start_workers missing)
      (start_workers-HasStarted missing)

-- The pool that `prepare` is asked for: enough threads within the capacity, or an error.
abbrev pub IsPrepared : ℕ → ℕ → Result (Unit {0}) × WorkerPool → Type 0
IsPrepared required capacity (ok u, p) =
    (min required capacity ≤ length p.handles) × (length p.handles ≤ capacity)
IsPrepared required capacity (err e, p) = (e ≡ worker_unavailable) × (length p.handles ≤ capacity)

HasStarted-IsPrepared :
    (required capacity n : ℕ) (r : Result (Unit {0}) × WorkerPool)
    → n ≤ capacity
    → HasStarted n (min required capacity - n) r
    → IsPrepared required capacity r
HasStarted-IsPrepared required capacity n (ok u, p) fit h = (omega (arith, h), omega (arith, h))
HasStarted-IsPrepared required capacity n (err e, p) fit h = (h.0, omega (arith, h.1))

-- A pool within its capacity stays within it, and when `prepare` succeeds it has the threads that
-- were required, as far as the capacity allows; the only error is an unavailable worker.
pub prepare-IsPrepared :
    (p : WorkerPool) (required : ℕ)
    → length p.handles ≤ p.capacity
    → IsPrepared required p.capacity (prepare p required)
unfolding prepare
prepare-IsPrepared p required fit =
    HasStarted-IsPrepared required p.capacity (length p.handles)
      (start_workers (min required p.capacity - length p.handles) p) fit
      (start_workers-HasStarted (min required p.capacity - length p.handles) p)
