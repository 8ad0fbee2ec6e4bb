-- ===== src/Engine/Settled.antt =====
-- Where the `while` loop of `dispatch_available` (src/engine/scheduler.rs) ends.
use atomic_blob_store.Prelude.{
  ℕ, zero, suc, ◌+◌, ◌≤◌, ◌<◌, ◌≡◌, refl, ◌∙◌, ap, true, false, ◌||◌, Option, none, some, List, [],
  ◌∷◌, length, leb, ltb, arith, if-holds, Bool-cases, Option-cases, inl, inr, ◌⊎◌,
}
use atomic_blob_store.Errors.{Result, ok, err}
use atomic_blob_store.Engine.Operation.{Operation}
use atomic_blob_store.Engine.Workers.{WorkerPool, prepare, execute}
use atomic_blob_store.Engine.Queues.{
  Queues, KeyOrder, contains, has_work, queue_of, pop_front, keep_entry, remove_if_empty, find_idle,
}
use atomic_blob_store.Engine.Scheduler.{
  Scheduler, hand_operation, dispatch_prepared, dispatch_popped, dispatch_if_idle, dispatch_rounds,
  dispatch_available, queued,
}

-- A pop takes one operation off a queue that has work.
abbrev popped : Option (Operation × Queues) → ℕ
popped none = 0
popped (some (op, q)) = suc (queued q)

popped-keep_entry :
    (j : ℕ) (ops : List Operation) (r : Option (Operation × Queues))
    → 0 < popped r
    → popped (keep_entry (j, ops) r) ≡ length ops + popped r
popped-keep_entry j ops none h = ground arith
popped-keep_entry j ops (some (op, q)) h = omega arith

popped-pop_front :
    (k : ℕ) (q : Queues)
    → has_work (queue_of k q) ≡ true
    → (popped (pop_front k q) ≡ queued q) × (0 < queued q)
unfolding pop_front queue_of
popped-pop_front k [] h = ground arith
popped-pop_front k ((j, []) ∷ rest) h =
    ground (arith, popped-pop_front k rest, popped-keep_entry j [] (pop_front k rest))
popped-pop_front k ((j, op ∷ ops) ∷ rest) h =
    ground (arith, popped-pop_front k rest, popped-keep_entry j (op ∷ ops) (pop_front k rest))

queued-remove_if_empty : (k : ℕ) (q : Queues) → queued (remove_if_empty k q) ≡ queued q
unfolding remove_if_empty
queued-remove_if_empty k [] = refl
queued-remove_if_empty k ((j, []) ∷ rest) = ground (arith, queued-remove_if_empty k rest)
queued-remove_if_empty k ((j, op ∷ ops) ∷ rest) = ground (arith, queued-remove_if_empty k rest)

queued-hand_operation :
    (r : Result (Unit {0})) (k : ℕ) (op : Operation) (s : Scheduler)
    → queued (hand_operation r k op s).queues ≡ queued s.queues
queued-hand_operation (ok u) k op s = refl
queued-hand_operation (err e) k op s = refl

queued-dispatch_prepared :
    (r : Result (Unit {0}) × WorkerPool) (k : ℕ) (op : Operation) (s : Scheduler)
    → queued (dispatch_prepared r k op s).queues ≡ queued s.queues
queued-dispatch_prepared (ok u, pool) k op s =
    queued-hand_operation (execute pool) k op (record s { pool = pool; active = k ∷ s.active })
queued-dispatch_prepared (err e, pool) k op s = queued-remove_if_empty k s.queues

queued-dispatch_popped :
    (r : Option (Operation × Queues)) (k : ℕ) (s : Scheduler)
    → 0 < popped r
    → suc (queued (dispatch_popped r k s).queues) ≡ popped r
queued-dispatch_popped none k s h = ground arith
queued-dispatch_popped (some (op, q)) k s h =
    ap suc (
      queued-dispatch_prepared (prepare s.pool (length s.active + 1)) k op
        (record s { queues = q }))

-- `find_map` finds a key that has work and is not active.
find_idle-some :
    (ks : List ℕ) (q : Queues) (active : List ℕ) (k : ℕ)
    → find_idle ks q active ≡ some k
    → (has_work (queue_of k q) ≡ true) × (contains k active ≡ false)
unfolding find_idle
find_idle-some [] q active k h = ground arith
find_idle-some (j ∷ ks) q active k h = ground (arith, find_idle-some ks q active k)

find_idle-none :
    (ks : List ℕ) (q : Queues) (active : List ℕ) (k : ℕ)
    → find_idle ks q active ≡ none
    → contains k ks ≡ true
    → has_work (queue_of k q) ≡ true
    → contains k active ≡ true
unfolding find_idle contains
find_idle-none [] q active k h member work = ground arith
find_idle-none (j ∷ ks) q active k h member work = ground (arith, find_idle-none ks q active k)

module _ (max_concurrent_operations : ℕ) (order : KeyOrder) where
  -- Nothing more can be dispatched: the limit is reached, or every key with work is active.
  abbrev pub Settled : Scheduler → Type 0
  Settled s =
      (max_concurrent_operations ≤ length s.active)
      ⊎ ((k : ℕ) → has_work (queue_of k s.queues) ≡ true → contains k s.active ≡ true)

  queued-dispatch_if_idle :
      (k : ℕ) (s : Scheduler)
      → has_work (queue_of k s.queues) ≡ true
      → contains k s.active ≡ false
      → ltb (length s.active) max_concurrent_operations ≡ true
      → suc (queued (dispatch_if_idle max_concurrent_operations order k s).queues) ≡ queued s.queues
  unfolding dispatch_if_idle
  queued-dispatch_if_idle k s work idle room =
      let (same, some_work) = popped-pop_front k s.queues work in
      if-holds (λ (x : Scheduler). suc (queued x.queues) ≡ queued s.queues)
        (contains k s.active || leb max_concurrent_operations (length s.active))
        (λ busy. ground (arith, idle, room, busy))
        (λ free.
          queued-dispatch_popped (pop_front k s.queues) k s (omega (arith, same, some_work)) ∙ same)

  dispatch_rounds-Settled :
      (fuel : ℕ) (s : Scheduler)
      → queued s.queues < fuel
      → Settled (dispatch_rounds max_concurrent_operations order fuel s)
  unfolding dispatch_rounds
  dispatch_rounds-Settled zero s h = ground arith
  dispatch_rounds-Settled (suc fuel) s h =
      elim (Bool-cases (ltb (length s.active) max_concurrent_operations)) [
        | inl room ↦
            rw room (elim (Option-cases (find_idle (order.keys s.queues) s.queues s.active)) [
              | inl n ↦ rw n (
                  inr (λ k work.
                    find_idle-none (order.keys s.queues) s.queues s.active k n
                      (order.complete s.queues k work) work))
              | inr (k, found) ↦
                  let (work, idle) =
                    find_idle-some (order.keys s.queues) s.queues s.active k found in
                  rw found (
                    dispatch_rounds-Settled fuel
                      (dispatch_if_idle max_concurrent_operations order k s)
                      (omega (arith, h, queued-dispatch_if_idle k s work idle room)))
            ])
        | inr full ↦ rw full (inl (ground (arith, full)))
      ]

  -- The fuel of `dispatch_available` is enough: it ends where nothing more can be dispatched, at the
  -- limit of concurrent operations or with every key that has work active.
  pub dispatch_available-Settled :
      (s : Scheduler) → Settled (dispatch_available max_concurrent_operations order s)
  unfolding dispatch_available
  dispatch_available-Settled s = dispatch_rounds-Settled (suc (queued s.queues)) s (omega arith)
