-- ===== src/Engine/Event.antt =====
-- src/engine/event.rs and src/engine/lifecycle.rs. A key hash is the number that its 32 bytes spell;
-- the code only compares hashes. Every `completion_sender` is a clone of the sender of the
-- coordinator's own channel, and so is left out of the records.
use atomic_blob_store.Prelude.{ℕ, Option}
use atomic_blob_store.Errors.{Result, CleanupReport}
use atomic_blob_store.Engine.Operation.{Operation, BlockingResult}

pub data Lifecycle : Type 0 where
  opened closing closed shutdown_failed failed : Lifecycle

pub record Submission : Type 0 where
  pub key_hash : ℕ
  pub operation : Operation

pub record Completion : Type 0 where
  pub key_hash : ℕ
  pub outcome : Option (Operation × BlockingResult)

pub record MaintenanceSubmission : Type 0 where
  pub minimum_age : Option ℕ
  pub sender : ℕ

pub record MaintenanceCompletion : Type 0 where
  pub outcome : Option (ℕ × Result CleanupReport)

pub data CoordinatorEvent : Type 0 where
  submission : Submission → CoordinatorEvent
  completion : Completion → CoordinatorEvent
  maintenance : MaintenanceSubmission → CoordinatorEvent
  maintenance_completion : MaintenanceCompletion → CoordinatorEvent
  flush : ℕ → CoordinatorEvent
  close : ℕ → CoordinatorEvent

pub data PendingEvent : Type 0 where
  submission : Submission → PendingEvent
  maintenance : MaintenanceSubmission → PendingEvent
  flush : ℕ → PendingEvent
  close : ℕ → PendingEvent
