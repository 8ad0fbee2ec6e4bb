-- ===== src/Engine/System/Rounds.antt =====
-- What a property of the coordinator's state has to survive, from one event of
-- src/engine/scheduler.rs to the next.
use atomic_blob_store.Prelude.{
  ℕ, ◌≤◌, ◌≡◌, refl, sym, ap, subst, true, false, Option, none, some, List, [], ◌∷◌, ◌==◌, length,
  arith, if◌then◌else◌, if-holds, is_empty,
}
use atomic_blob_store.Engine.Event.{CoordinatorEvent}
use atomic_blob_store.Engine.Workers.{shutdown}
use atomic_blob_store.Engine.Queues.{contains, remove}
use atomic_blob_store.Engine.Scheduler.{Scheduler}
use atomic_blob_store.Engine.Coordinator.{
  Round, checked, skipped, Progress, running, stopped, panicked, end_of_round, is_drained,
  shut_down,
}
use atomic_blob_store.Engine.Safety.{IsSafe}
use atomic_blob_store.Engine.Stable.{Kept, received}

abbrev progress_state : Scheduler → Progress → Scheduler
progress_state s (running s') = s'
progress_state s (stopped s') = s'
progress_state s panicked = s

pub running-Kept :
    (P : Scheduler → Type 0) (r : Option Round) (s' : Scheduler)
    → Kept P r
    → end_of_round r ≡ running s'
    → P s'
unfolding end_of_round
running-Kept P none s' h e = ground arith
running-Kept P (some (skipped s)) s' h e = subst P (ap (progress_state s) e) h
running-Kept P (some (checked s)) s' h eq =
    if-holds (λ p. p ≡ running s' → P s') (is_drained s) (λ d e. ground arith)
      (λ d e. subst P (ap (progress_state s) e) h) eq

-- The state that a last round shuts down.
pub record Last (P : Scheduler → Type 0) (s' : Scheduler) : Type 0 where
  pub before : Scheduler
  pub kept : P before
  pub drained : is_drained before ≡ true
  pub after : s' ≡ shut_down (shutdown before.pool) before

pub stopped-Last :
    (P : Scheduler → Type 0) (r : Option Round) (s' : Scheduler)
    → Kept P r
    → end_of_round r ≡ stopped s'
    → Last P s'
unfolding end_of_round
stopped-Last P none s' h e = ground arith
stopped-Last P (some (skipped s)) s' h e = ground arith
stopped-Last P (some (checked s)) s' h eq =
    if-holds (λ p. p ≡ stopped s' → Last P s') (is_drained s)
      (λ d e. record { before = s; kept = h; drained = d; after = sym (ap (progress_state s) e) })
      (λ d e. ground arith) eq

contains-remove :
    (j k : ℕ) (xs : List ℕ) → contains j (remove k xs) ≡ (if k == j then false else contains j xs)
unfolding contains remove
contains-remove j k [] = ground arith
contains-remove j k (x ∷ xs) = ground (arith, contains-remove j k xs)

length-remove : (k : ℕ) (xs : List ℕ) → length (remove k xs) ≤ length xs
unfolding remove
length-remove k [] = ground arith
length-remove k (x ∷ xs) = ground (arith, length-remove k xs)

is_empty-remove : (k : ℕ) (xs : List ℕ) → is_empty xs ≡ true → is_empty (remove k xs) ≡ true
unfolding remove
is_empty-remove k [] h = refl
is_empty-remove k (x ∷ xs) h = ground arith

pub IsSafe-received :
    (max_concurrent_operations : ℕ) (e : CoordinatorEvent) (rest : List CoordinatorEvent)
    (s : Scheduler)
    → IsSafe max_concurrent_operations (record s { channel = e ∷ rest })
    → IsSafe max_concurrent_operations (received e (record s { channel = rest }))
IsSafe-received max_concurrent_operations (CoordinatorEvent.completion c) rest s h = record {
  bounded = omega (arith, h.bounded, length-remove c.key_hash s.active);
  exclusive = λ j. ground (arith, h.exclusive j, contains-remove j c.key_hash s.active);
  maintained = h.maintained;
  alone = λ m. ground (arith, h.alone m, is_empty-remove c.key_hash s.active);
}
IsSafe-received max_concurrent_operations (CoordinatorEvent.maintenance_completion c) rest s h =
    record {
      bounded = h.bounded;
      exclusive = h.exclusive;
      maintained = ground (arith, h.maintained);
      alone = λ m. ground (arith, m);
    }
IsSafe-received max_concurrent_operations (CoordinatorEvent.submission x) rest s h = record {
  bounded = h.bounded;
  exclusive = h.exclusive;
  maintained = h.maintained;
  alone = h.alone;
}
IsSafe-received max_concurrent_operations (CoordinatorEvent.maintenance x) rest s h = record {
  bounded = h.bounded;
  exclusive = h.exclusive;
  maintained = h.maintained;
  alone = h.alone;
}
IsSafe-received max_concurrent_operations (CoordinatorEvent.flush x) rest s h = record {
  bounded = h.bounded;
  exclusive = h.exclusive;
  maintained = h.maintained;
  alone = h.alone;
}
IsSafe-received max_concurrent_operations (CoordinatorEvent.close x) rest s h = record {
  bounded = h.bounded;
  exclusive = h.exclusive;
  maintained = h.maintained;
  alone = h.alone;
}
