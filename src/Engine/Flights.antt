-- ===== src/Engine/Flights.antt =====
-- The jobs and completions on their way between the coordinator of src/engine/scheduler.rs and its
-- workers, counted.
use atomic_blob_store.Prelude.{
  ℕ, ◌+◌, ◌≡◌, refl, Bool, true, List, [], ◌∷◌, ◌++◌, ◌==◌, arith, if◌then◌else◌, none,
}
use atomic_blob_store.Engine.Event.{CoordinatorEvent}
use atomic_blob_store.Engine.Queues.{Queues, pop_front, remove_if_empty, all_empty}
use atomic_blob_store.Engine.Scheduler.{Job, operate, maintain}

abbrev pub as_count : Bool → ℕ
as_count b = if b then 1 else 0

-- The jobs for one key.
abbrev pub jobs_of : ℕ → List Job → ℕ
jobs_of k [] = 0
jobs_of k (operate j op ∷ rest) = as_count (j == k) + jobs_of k rest
jobs_of k (maintain m ∷ rest) = jobs_of k rest

abbrev pub completions_of : ℕ → List CoordinatorEvent → ℕ
completions_of k [] = 0
completions_of k (CoordinatorEvent.completion c ∷ rest) =
    as_count (c.key_hash == k) + completions_of k rest
completions_of k (_ ∷ rest) = completions_of k rest

abbrev pub maintenance_jobs : List Job → ℕ
maintenance_jobs [] = 0
maintenance_jobs (operate j op ∷ rest) = maintenance_jobs rest
maintenance_jobs (maintain m ∷ rest) = 1 + maintenance_jobs rest

abbrev pub maintenance_completions : List CoordinatorEvent → ℕ
maintenance_completions [] = 0
maintenance_completions (CoordinatorEvent.maintenance_completion c ∷ rest) =
    1 + maintenance_completions rest
maintenance_completions (_ ∷ rest) = maintenance_completions rest

pub jobs_of-append : (k : ℕ) (xs ys : List Job) → jobs_of k (xs ++ ys) ≡ jobs_of k xs + jobs_of k ys
jobs_of-append k [] ys = omega arith
jobs_of-append k (operate j op ∷ xs) ys = omega (arith, jobs_of-append k xs ys)
jobs_of-append k (maintain m ∷ xs) ys = jobs_of-append k xs ys

pub maintenance_jobs-append :
    (xs ys : List Job) → maintenance_jobs (xs ++ ys) ≡ maintenance_jobs xs + maintenance_jobs ys
maintenance_jobs-append [] ys = omega arith
maintenance_jobs-append (operate j op ∷ xs) ys = maintenance_jobs-append xs ys
maintenance_jobs-append (maintain m ∷ xs) ys = omega (arith, maintenance_jobs-append xs ys)

pub completions_of-append :
    (k : ℕ) (xs ys : List CoordinatorEvent)
    → completions_of k (xs ++ ys) ≡ completions_of k xs + completions_of k ys
completions_of-append k [] ys = omega arith
completions_of-append k (CoordinatorEvent.completion c ∷ xs) ys =
    omega (arith, completions_of-append k xs ys)
completions_of-append k (CoordinatorEvent.submission x ∷ xs) ys = completions_of-append k xs ys
completions_of-append k (CoordinatorEvent.maintenance x ∷ xs) ys = completions_of-append k xs ys
completions_of-append k (CoordinatorEvent.maintenance_completion x ∷ xs) ys =
    completions_of-append k xs ys
completions_of-append k (CoordinatorEvent.flush x ∷ xs) ys = completions_of-append k xs ys
completions_of-append k (CoordinatorEvent.close x ∷ xs) ys = completions_of-append k xs ys

pub maintenance_completions-append :
    (xs ys : List CoordinatorEvent)
    → maintenance_completions (xs ++ ys) ≡ maintenance_completions xs + maintenance_completions ys
maintenance_completions-append [] ys = omega arith
maintenance_completions-append (CoordinatorEvent.maintenance_completion c ∷ xs) ys =
    omega (arith, maintenance_completions-append xs ys)
maintenance_completions-append (CoordinatorEvent.submission x ∷ xs) ys =
    maintenance_completions-append xs ys
maintenance_completions-append (CoordinatorEvent.completion x ∷ xs) ys =
    maintenance_completions-append xs ys
maintenance_completions-append (CoordinatorEvent.maintenance x ∷ xs) ys =
    maintenance_completions-append xs ys
maintenance_completions-append (CoordinatorEvent.flush x ∷ xs) ys =
    maintenance_completions-append xs ys
maintenance_completions-append (CoordinatorEvent.close x ∷ xs) ys =
    maintenance_completions-append xs ys

-- A queue without work has nothing to pop.
pub pop_front-all_empty : (k : ℕ) (q : Queues) → all_empty q ≡ true → pop_front k q ≡ none
unfolding pop_front all_empty
pop_front-all_empty k [] h = refl
pop_front-all_empty k ((j, []) ∷ rest) h = ground (arith, pop_front-all_empty k rest h)
pop_front-all_empty k ((j, op ∷ ops) ∷ rest) h = ground arith

pub all_empty-remove_if_empty :
    (k : ℕ) (q : Queues) → all_empty q ≡ true → all_empty (remove_if_empty k q) ≡ true
unfolding remove_if_empty all_empty
all_empty-remove_if_empty k [] h = refl
all_empty-remove_if_empty k ((j, []) ∷ rest) h = ground (arith, all_empty-remove_if_empty k rest h)
all_empty-remove_if_empty k ((j, op ∷ ops) ∷ rest) h = ground arith
