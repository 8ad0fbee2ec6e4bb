-- ===== src/Engine/Accounting.antt =====
-- A whole round of `run_scheduler` (src/engine/scheduler.rs) against the count of a sender's
-- requests.
use atomic_blob_store.Prelude.{
  ℕ, ◌+◌, ◌≡◌, refl, ◌∙◌, Bool, true, false, Option, none, some, List, [], ◌∷◌, arith, Bool-cases,
  inl, inr, sym,
}
use atomic_blob_store.Errors.{Result, store_closed, CleanupReport}
use atomic_blob_store.Engine.Operation.{
  Operation, BlockingResult, Reply, deliver, deliver_error, passed, cleaned,
}
use atomic_blob_store.Engine.Event.{CoordinatorEvent, PendingEvent}
use atomic_blob_store.Engine.Workers.{WorkerPool, shutdown}
use atomic_blob_store.Engine.Queues.{KeyOrder}
use atomic_blob_store.Engine.Scheduler.{Scheduler, reply}
use atomic_blob_store.Engine.Tickets.{
  one, in_event, in_pending, in_channel, in_outcome, in_maintenance, core, held,
}
use atomic_blob_store.Engine.Conservation.{sender-deliver_error}
use atomic_blob_store.Engine.Answers.{left_by, left_by-handle}
use atomic_blob_store.Engine.Coordinator.{
  Round, checked, skipped, Progress, running, stopped, panicked, close_result, closed_as,
  is_drained, on_completion, finish_completion, reply_if_any, deliver_outcome, handle,
  answer_closes, answer_rest, shut_down, end_of_round, round, drop_operation, drop_maintenance,
}

module _ (t : ℕ) where
  held-answer_closes :
      (outcome : Result (Unit {0})) (l : List PendingEvent) (s : Scheduler)
      → held t (answer_closes outcome l s) ≡ core t s + in_pending t l
  unfolding answer_closes core
  held-answer_closes outcome [] s = refl
  held-answer_closes outcome (PendingEvent.close u ∷ rest) s =
      held-answer_closes outcome rest (reply (u, passed (close_result outcome)) s) ∙ omega arith
  held-answer_closes outcome (PendingEvent.submission x ∷ rest) s = refl
  held-answer_closes outcome (PendingEvent.maintenance m ∷ rest) s = refl
  held-answer_closes outcome (PendingEvent.flush u ∷ rest) s = refl

  -- What is held apart from the channel.
  abbrev off_channel : Scheduler → ℕ
  off_channel s = held t (record s { channel = [] })

  held-off_channel : (s : Scheduler) → held t s ≡ in_channel t s.channel + off_channel s
  unfolding core
  held-off_channel s = omega arith

  dropped_outcome :
      (o : Option (Operation × BlockingResult)) (s : Scheduler)
      → off_channel (drop_operation o s) ≡ in_outcome t o + off_channel s
  unfolding core
  dropped_outcome none s = omega arith
  dropped_outcome (some (op, r)) s = omega arith

  dropped_maintenance :
      (o : Option (ℕ × Result CleanupReport)) (s : Scheduler)
      → off_channel (drop_maintenance (record { outcome = o }) s)
        ≡ in_maintenance t (record { outcome = o }) + off_channel s
  unfolding core
  dropped_maintenance none s = omega arith
  dropped_maintenance (some (u, r)) s = omega arith

  off_channel-reply :
      (r : ℕ × Reply) (s : Scheduler) → off_channel (reply r s) ≡ one t r.0 + off_channel s
  unfolding core
  off_channel-reply r s = omega arith

  held-answer_rest :
      (outcome : Result (Unit {0})) (l : List CoordinatorEvent) (s : Scheduler)
      → held t (answer_rest outcome l s) ≡ in_channel t l + off_channel s
  unfolding answer_rest
  held-answer_rest outcome [] s = omega arith
  held-answer_rest outcome (CoordinatorEvent.close u ∷ rest) s =
      held-answer_rest outcome rest _
      ∙ omega (arith, off_channel-reply (u, passed (close_result outcome)) s)
  held-answer_rest outcome (CoordinatorEvent.submission x ∷ rest) s =
      held-answer_rest outcome rest _
      ∙ ground (
        arith,
        off_channel-reply (deliver_error x.operation store_closed) s,
        sender-deliver_error x.operation store_closed,
      )
  held-answer_rest outcome (CoordinatorEvent.maintenance m ∷ rest) s =
      held-answer_rest outcome rest _
      ∙ omega (arith, off_channel-reply (m.sender, cleaned (Result.err store_closed)) s)
  held-answer_rest outcome (CoordinatorEvent.flush u ∷ rest) s =
      held-answer_rest outcome rest _
      ∙ omega (arith, off_channel-reply (u, passed (Result.err store_closed)) s)
  held-answer_rest outcome (CoordinatorEvent.completion c ∷ rest) s =
      held-answer_rest outcome rest _ ∙ omega (arith, dropped_outcome c.outcome s)
  held-answer_rest outcome (CoordinatorEvent.maintenance_completion c ∷ rest) s =
      held-answer_rest outcome rest _ ∙ omega (arith, dropped_maintenance c.outcome s)

  held-shut_down :
      (r : Result (Unit {0}) × WorkerPool) (s : Scheduler) → held t (shut_down r s) ≡ held t s
  unfolding shut_down
  held-shut_down (outcome, pool) s =
      let s' = record s { pool = pool; lifecycle = closed_as outcome } in
      let left = answer_closes outcome s.pending s' in
      held-answer_rest outcome left.channel left
      ∙ sym (held-off_channel left)
      ∙ held-answer_closes outcome s.pending s'
      ∙ unfold core in refl

  -- The coordinator that a round leaves holds `n` requests of the sender.
  abbrev pub Holds : ℕ → Progress → Type 0
  Holds n (running s) = held t s ≡ n
  Holds n (stopped s) = held t s ≡ n
  Holds n panicked = ⊥

  Holds-end_of_round :
      (r : Option Round) (n : ℕ) → ¬ r ≡ none → left_by t r n ≡ n → Holds n (end_of_round r)
  unfolding end_of_round
  Holds-end_of_round none n some_round h = some_round refl
  Holds-end_of_round (some (skipped s)) n some_round h = h
  Holds-end_of_round (some (checked s)) n some_round h = elim (Bool-cases (is_drained s)) [
    | inl e ↦ rw e (held-shut_down (shutdown s.pool) s ∙ h)
    | inr e ↦ rw e h
  ]

-- A result of the kind that the operation's `deliver` expects.
abbrev is_sent : Option (ℕ × Reply) → Bool
is_sent none = false
is_sent (some r) = true

abbrev fits_outcome : Option (Operation × BlockingResult) → Bool
fits_outcome none = true
fits_outcome (some (op, result)) = is_sent (deliver op result)

abbrev pub fits : CoordinatorEvent → Bool
fits (CoordinatorEvent.completion c) = fits_outcome c.outcome
fits _ = true

module _ (max_concurrent_operations : ℕ) (order : KeyOrder) where
  finish_some :
      (r : Option (ℕ × Reply)) (s : Scheduler)
      → is_sent r ≡ true
      → ¬ finish_completion max_concurrent_operations order (reply_if_any r s) ≡ none
  finish_some none s h = ground arith
  finish_some (some r) s h = ground arith

  finish_outcome :
      (o : Option (Operation × BlockingResult)) (s : Scheduler)
      → fits_outcome o ≡ true
      → ¬ finish_completion max_concurrent_operations order (deliver_outcome o s) ≡ none
  finish_outcome none s h = ground arith
  finish_outcome (some (op, result)) s h = finish_some (deliver op result) s h

  handle_some :
      (e : CoordinatorEvent) (s : Scheduler)
      → fits e ≡ true
      → ¬ handle max_concurrent_operations order e s ≡ none
  unfolding handle on_completion
  handle_some (CoordinatorEvent.completion c) s h = finish_outcome c.outcome _ h
  handle_some (CoordinatorEvent.submission x) s h = ground arith
  handle_some (CoordinatorEvent.maintenance m) s h = ground arith
  handle_some (CoordinatorEvent.maintenance_completion c) s h = ground arith
  handle_some (CoordinatorEvent.flush u) s h = ground arith
  handle_some (CoordinatorEvent.close u) s h = ground arith

  -- A round on any event, a completion with a result of its operation's kind, does not panic, and
  -- for every sender the coordinator holds or has answered as many of its requests after the round
  -- as before it, the event's included: none is lost and none is answered twice.
  pub round-Holds :
      (t : ℕ) (e : CoordinatorEvent) (s : Scheduler)
      → fits e ≡ true
      → Holds t (in_event t e + held t s) (round max_concurrent_operations order e s)
  unfolding round
  round-Holds t e s h =
      Holds-end_of_round t (handle max_concurrent_operations order e s) (in_event t e + held t s)
        (handle_some e s h) (left_by-handle t max_concurrent_operations order e s)
