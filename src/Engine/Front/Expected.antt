-- ===== src/Engine/Front/Expected.antt =====
-- What the entry points of src/engine/mod.rs are to send and to answer.
use atomic_blob_store.Prelude.{
  ℕ, Bool, true, false, Option, none, some, List, [], ◌∷◌, if◌then◌else◌,
}
use atomic_blob_store.Errors.{
  Result, ok, err, StoreError, store_closed, engine_failed, shutdown_failure,
  maintenance_coordination_failure,
}
use atomic_blob_store.Engine.Operation.{Operation}
use atomic_blob_store.Engine.Event.{Lifecycle, opened, closing, closed, failed, CoordinatorEvent}
use atomic_blob_store.Engine.Scheduler.{notify}
use atomic_blob_store.Engine.Front.{
  Pending, resolved, waiting, Store, CoordinatorJoinOutcome, joined, panicked,
}

-- A condition that a request has to meet, and the error where it does not.
abbrev pub Check : Type 0
Check = Bool × StoreError

-- The error of the first condition that is not met.
abbrev pub first_failure : List Check → Option StoreError
first_failure [] = none
first_failure ((true, e) ∷ checks) = first_failure checks
first_failure ((false, e) ∷ checks) = some e

-- The store has to be open; one whose coordinator died is told apart from one that was closed.
abbrev pub must_be_open : Lifecycle → Check
must_be_open opened = (true, store_closed)
must_be_open failed = (false, engine_failed)
must_be_open _ = (false, store_closed)

abbrev pub with_event : CoordinatorEvent → Store → Store
with_event event s = record s { coordinator = notify event s.coordinator }

-- A request of the caller `t`: it is sent, or it is refused and nothing changes.
abbrev pub asked {ℓ} :
    {A : Type ℓ} → ℕ → CoordinatorEvent → Store → Option StoreError → Pending A × Store
asked t event s none = (waiting t, with_event event s)
asked t event s (some e) = (resolved (err e), s)

abbrev pub begun : CoordinatorEvent → Store → Option StoreError → Result (Unit {0}) × Store
begun event s none = (ok tt, with_event event s)
begun event s (some e) = (err e, s)

-- What a request about a key has to meet: the store is open at both looks, and the coordinator is
-- there.
abbrev pub request_checks : Lifecycle → Store → List Check
request_checks first s =
    must_be_open first ∷ must_be_open s.coordinator.lifecycle ∷ (s.connected, engine_failed) ∷ []

abbrev pub maintenance_checks : Store → List Check
maintenance_checks s =
    must_be_open s.coordinator.lifecycle ∷ (s.connected, maintenance_coordination_failure) ∷ []

abbrev pub submission : ℕ → Operation → CoordinatorEvent
submission key_hash operation =
    CoordinatorEvent.submission (record { key_hash = key_hash; operation = operation })

-- How the coordinator's thread ended, as it was found first.
abbrev pub found : Option CoordinatorJoinOutcome → CoordinatorJoinOutcome → CoordinatorJoinOutcome
found (some outcome) handle = outcome
found none handle = handle

-- A panic of the coordinator overrules the answer to a close.
abbrev pub unless_panicked : CoordinatorJoinOutcome → Result (Unit {0}) → Result (Unit {0})
unless_panicked panicked result = err shutdown_failure
unless_panicked joined result = result

abbrev pub answered : Result (Unit {0}) → Store → Pending (Unit {0}) × Store
answered result s =
    let outcome = found s.join.outcome s.join.handle in
    (
      resolved (unless_panicked outcome result),
      record s { join = record s.join { outcome = some outcome } },
    )

-- The answer to a close of a store that is closed already, or that failed.
abbrev pub settled : Lifecycle → Option (Result (Unit {0}))
settled opened = none
settled closing = none
settled closed = some (ok tt)
settled _ = some (err shutdown_failure)

abbrev pub closes_as :
    ℕ → Store → Option (Result (Unit {0})) → Option (Result (Unit {0})) → Pending (Unit {0}) × Store
closes_as t s (some result) again = answered result s
closes_as t s none (some result) = answered result s
closes_as t s none none =
    if s.connected
    then (waiting t, with_event (CoordinatorEvent.close t) s)
    else (resolved (err engine_failed), s)
