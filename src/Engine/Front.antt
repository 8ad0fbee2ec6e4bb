-- ===== src/Engine/Front.antt =====
-- The entry points of src/engine/mod.rs: what a caller gets at once, and what is sent to the
-- coordinator. The caller's new channel is the number `t`. A method looks at the lifecycle before it
-- takes the lock, `first`, and again under it. `connected` says that the coordinator's end of its
-- channel is still there. The hash of a key, BLAKE3, is a parameter.
pub mod Expected
pub mod Requests
use atomic_blob_store.Prelude.{
  ℕ, ltb, ◌==◌, if◌then◌else◌, Bool, true, false, Option, none, some, List,
}
use atomic_blob_store.Errors.{
  Result, ok, err, ◌>>=◌, ◌>>◌, StoreError, BlobMetadata, BlobInspection, QuarantineInfo,
  CleanupReport, store_closed, engine_failed, shutdown_failure, blob_too_large, invalid_cleanup_age,
  maintenance_coordination_failure,
}
use atomic_blob_store.Format.Stream.{SaveStreamMessage}
use atomic_blob_store.Engine.Operation.{Operation}
use atomic_blob_store.Engine.Event.{
  Lifecycle, opened, closing, closed, shutdown_failed, failed, CoordinatorEvent,
}
use atomic_blob_store.Engine.Scheduler.{Scheduler, notify}

-- A `Pending` is resolved, or waits for what arrives on a channel.
pub data Pending {ℓ} (A : Type ℓ) : Type ℓ where
  resolved : Result A → Pending A
  waiting : ℕ → Pending A

-- `wait` on a channel of `Pending::new`: a sender that is gone reads as a failed engine.
abbrev wait {ℓ} : {A : Type ℓ} → Option (Result A) → Result A
wait none = err engine_failed
wait (some result) = result

pub data CoordinatorJoinOutcome : Type 0 where
  joined panicked : CoordinatorJoinOutcome

-- `handle` is the outcome of joining the coordinator's thread.
pub record CoordinatorJoin : Type 0 where
  pub handle : CoordinatorJoinOutcome
  pub outcome : Option CoordinatorJoinOutcome

pub record Store : Type 0 where
  pub coordinator : Scheduler
  pub connected : Bool
  pub maximum : ℕ
  pub join : CoordinatorJoin

abbrev joined_result : CoordinatorJoinOutcome → Result (Unit {0}) → Result (Unit {0})
joined_result joined result = result
joined_result panicked result = err shutdown_failure

abbrev join_outcome :
    Option CoordinatorJoinOutcome → CoordinatorJoinOutcome → CoordinatorJoinOutcome
join_outcome none handle = handle
join_outcome (some outcome) handle = outcome

unfoldable pub finish : CoordinatorJoin → Result (Unit {0}) → Result (Unit {0}) × CoordinatorJoin
finish join result =
    let outcome = join_outcome join.outcome join.handle in
    (joined_result outcome result, record join { outcome = some outcome })

abbrev pub ensure_open : Lifecycle → Result (Unit {0})
ensure_open opened = ok tt
ensure_open closing = err store_closed
ensure_open closed = err store_closed
ensure_open shutdown_failed = err store_closed
ensure_open failed = err engine_failed

-- `submissions.send(event)`, with the error for a channel that is gone.
abbrev pub send : CoordinatorEvent → StoreError → Store → Result (Unit {0}) × Store
send event gone s =
    if s.connected
    then (ok tt, record s { coordinator = notify event s.coordinator })
    else (err gone, s)

-- A method that resolves to the error of a test that fails.
abbrev pub unless_failed {ℓ} :
    {A : Type ℓ} → Result (Unit {0}) → Store → Pending A × Store → Pending A × Store
unless_failed (ok u) s next = next
unless_failed (err e) s next = (resolved (err e), s)

abbrev pub wait_on {ℓ} : {A : Type ℓ} → ℕ → Result (Unit {0}) × Store → Pending A × Store
wait_on t (ok u, s) = (waiting t, s)
wait_on t (err e, s) = (resolved (err e), s)

unfoldable pub submit {ℓ} : {A : Type ℓ} → ℕ → Operation → ℕ → Store → Pending A × Store
submit key_hash operation t s = unless_failed (ensure_open s.coordinator.lifecycle) s (
    wait_on t (
      send (CoordinatorEvent.submission (record { key_hash = key_hash; operation = operation }))
        engine_failed s))

abbrev pub if_ok : Result (Unit {0}) → Store → Result (Unit {0}) × Store → Result (Unit {0}) × Store
if_ok (ok u) s next = next
if_ok (err e) s next = (err e, s)

unfoldable pub submit_operation : ℕ → Operation → Store → Result (Unit {0}) × Store
submit_operation key_hash operation s = if_ok (ensure_open s.coordinator.lifecycle) s (
    send (CoordinatorEvent.submission (record { key_hash = key_hash; operation = operation }))
      engine_failed s)

-- The result of a close by the lifecycle: `none` while the store is open or closing.
abbrev pub closed_result : Lifecycle → Option (Result (Unit {0}))
closed_result closed = some (ok tt)
closed_result shutdown_failed = some (err shutdown_failure)
closed_result failed = some (err shutdown_failure)
closed_result opened = none
closed_result closing = none

abbrev after_finish : Result (Unit {0}) × CoordinatorJoin → Store → Pending (Unit {0}) × Store
after_finish (result, join) s = (resolved result, record s { join = join })

abbrev pub closed_pending :
    Option (Result (Unit {0})) → Store → Pending (Unit {0}) × Store → Pending (Unit {0}) × Store
closed_pending none s next = next
closed_pending (some result) s next = after_finish (finish s.join result) s

abbrev or_failed : Option (Result (Unit {0})) → Result (Unit {0})
or_failed none = err engine_failed
or_failed (some result) = result

-- A close whose send fails looks at the lifecycle once more.
abbrev pub send_close : ℕ → Store → Pending (Unit {0}) × Store
send_close t s =
    if s.connected
    then (waiting t, record s { coordinator = notify (CoordinatorEvent.close t) s.coordinator })
    else (resolved (or_failed (closed_result s.coordinator.lifecycle)), s)

unfoldable pub close : Lifecycle → ℕ → Store → Pending (Unit {0}) × Store
close first t s =
    closed_pending (closed_result first) s
      (closed_pending (closed_result s.coordinator.lifecycle) s (send_close t s))

-- What the caller of `close` gets in the end: the answer that arrived, or, where the coordinator
-- dropped its sender, what the lifecycle says; then the coordinator is joined.
abbrev or_disconnected : Option (Result (Unit {0})) → Lifecycle → Result (Unit {0})
or_disconnected none life = or_failed (closed_result life)
or_disconnected (some result) life = result

unfoldable pub wait_close : Option (Result (Unit {0})) → Store → Result (Unit {0}) × CoordinatorJoin
wait_close answer s = finish s.join (or_disconnected answer s.coordinator.lifecycle)

unfoldable pub flush : Lifecycle → ℕ → Store → Pending (Unit {0}) × Store
flush first t s = unless_failed (ensure_open first) s (
    unless_failed (ensure_open s.coordinator.lifecycle) s
      (wait_on t (send (CoordinatorEvent.flush t) maintenance_coordination_failure s)))

unfoldable pub cleanup_stale_temporary_files :
    Lifecycle → ℕ → ℕ → Store → Pending CleanupReport × Store
cleanup_stale_temporary_files first minimum_age t s = unless_failed (ensure_open first) s (
    if minimum_age == 0
    then (resolved (err invalid_cleanup_age), s)
    else unless_failed (ensure_open s.coordinator.lifecycle) s (
        wait_on t (
          send
            (CoordinatorEvent.maintenance (record { minimum_age = some minimum_age; sender = t }))
            maintenance_coordination_failure s)))

module _ (key_hash : List ℕ → ℕ) where
  unfoldable pub load : Lifecycle → List ℕ → ℕ → Store → Pending (Option (List ℕ)) × Store
  load first key t s =
      unless_failed (ensure_open first) s (submit (key_hash key) (Operation.load t) t s)

  unfoldable pub save : Lifecycle → List ℕ → List ℕ → ℕ → Store → Pending (Unit {0}) × Store
  save first key payload t s =
      unless_failed (ensure_open first) s (submit (key_hash key) (Operation.save payload t) t s)

  unfoldable pub clear : Lifecycle → List ℕ → ℕ → Store → Pending (Unit {0}) × Store
  clear first key t s =
      unless_failed (ensure_open first) s (submit (key_hash key) (Operation.clear t) t s)

  unfoldable pub inspect : Lifecycle → List ℕ → ℕ → Store → Pending BlobInspection × Store
  inspect first key t s =
      unless_failed (ensure_open first) s (submit (key_hash key) (Operation.inspect t) t s)

  unfoldable pub quarantine : Lifecycle → List ℕ → ℕ → Store → Pending QuarantineInfo × Store
  quarantine first key t s =
      unless_failed (ensure_open first) s (submit (key_hash key) (Operation.quarantine t) t s)

  -- `chunks` are the messages that the caller will send on the endpoint's channel.
  unfoldable pub start_save_stream :
      Lifecycle → List ℕ → ℕ → List SaveStreamMessage → ℕ → Store → Result (Unit {0}) × Store
  start_save_stream first key declared_len chunks t s = if_ok (ensure_open first) s (
      if ltb s.maximum declared_len
      then (err (blob_too_large declared_len s.maximum), s)
      else submit_operation (key_hash key) (Operation.save_stream declared_len chunks t) s)

  -- The endpoint's two channels are the numbers `chunks` and `acknowledgement`.
  unfoldable pub start_load_stream :
      Lifecycle → List ℕ → ℕ → ℕ → ℕ → Store → Result (Unit {0}) × Store
  start_load_stream first key chunks acknowledgement t s = if_ok (ensure_open first) s (
      submit_operation (key_hash key) (Operation.load_stream (some chunks) (some acknowledgement) t)
        s)
