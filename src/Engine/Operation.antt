-- ===== src/Engine/Operation.antt =====
-- src/engine/operation.rs: queued operations, their results, and how a result reaches its caller.
-- A sender is the number of the channel that the caller waits on.
use atomic_blob_store.Prelude.{ℕ, Option, none, some, List}
use atomic_blob_store.Errors.{
  Result, err, StoreError, BlobMetadata, BlobInspection, QuarantineInfo, CleanupReport,
}
use atomic_blob_store.Format.Stream.{SaveStreamMessage}

pub data Operation : Type 0 where
  load : ℕ → Operation
  load_stream : Option ℕ → Option ℕ → ℕ → Operation
  save : List ℕ → ℕ → Operation
  save_stream : ℕ → List SaveStreamMessage → ℕ → Operation
  clear : ℕ → Operation
  inspect : ℕ → Operation
  quarantine : ℕ → Operation

pub data BlockingResult : Type 0 where
  load : Result (Option (List ℕ)) → BlockingResult
  load_stream : Result (Option BlobMetadata) → BlockingResult
  save : Result (Unit {0}) → BlockingResult
  save_stream : Result (Unit {0}) → BlockingResult
  clear : Result (Unit {0}) → BlockingResult
  inspect : Result BlobInspection → BlockingResult
  quarantine : Result QuarantineInfo → BlockingResult

-- What arrives on a caller's channel; `dropped` is a sender that goes away with nothing sent.
pub data Reply : Type 0 where
  answer : BlockingResult → Reply
  cleaned : Result CleanupReport → Reply
  passed : Result (Unit {0}) → Reply
  dropped : Reply

abbrev pub sender : Operation → ℕ
sender (Operation.load s) = s
sender (Operation.load_stream c a s) = s
sender (Operation.save p s) = s
sender (Operation.save_stream d c s) = s
sender (Operation.clear s) = s
sender (Operation.inspect s) = s
sender (Operation.quarantine s) = s

-- `none` is the `unreachable!` of a result of another kind.
unfoldable pub deliver : Operation → BlockingResult → Option (ℕ × Reply)
deliver (Operation.load s) (BlockingResult.load r) = some (s, answer (BlockingResult.load r))
deliver (Operation.load_stream c a s) (BlockingResult.load_stream r) =
    some (s, answer (BlockingResult.load_stream r))
deliver (Operation.save p s) (BlockingResult.save r) = some (s, answer (BlockingResult.save r))
deliver (Operation.save_stream d c s) (BlockingResult.save_stream r) =
    some (s, answer (BlockingResult.save_stream r))
deliver (Operation.clear s) (BlockingResult.clear r) = some (s, answer (BlockingResult.clear r))
deliver (Operation.inspect s) (BlockingResult.inspect r) =
    some (s, answer (BlockingResult.inspect r))
deliver (Operation.quarantine s) (BlockingResult.quarantine r) =
    some (s, answer (BlockingResult.quarantine r))
deliver _ _ = none

abbrev pub deliver_error : Operation → StoreError → ℕ × Reply
deliver_error (Operation.load s) e = (s, answer (BlockingResult.load (err e)))
deliver_error (Operation.load_stream c a s) e = (s, answer (BlockingResult.load_stream (err e)))
deliver_error (Operation.save p s) e = (s, answer (BlockingResult.save (err e)))
deliver_error (Operation.save_stream d c s) e = (s, answer (BlockingResult.save_stream (err e)))
deliver_error (Operation.clear s) e = (s, answer (BlockingResult.clear (err e)))
deliver_error (Operation.inspect s) e = (s, answer (BlockingResult.inspect (err e)))
deliver_error (Operation.quarantine s) e = (s, answer (BlockingResult.quarantine (err e)))
