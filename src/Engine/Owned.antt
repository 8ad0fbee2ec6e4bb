-- ===== src/Engine/Owned.antt =====
-- `run_owned_operation` of src/engine/operation.rs, on Unix: what a worker does for an operation.
-- `none` is a worker that does not come back: the loop of a quarantine goes beyond `fuel` turns, or
-- an `expect` on a channel or the allocation of a payload panics. Of a channel of chunks it is given how many the receiver takes,
-- and of an acknowledgement whether it arrives. A receiver that comes back is not read again, and is
-- given back as it was.
pub mod Kinds
pub mod Promise
pub mod Reading
pub mod Refinement
pub mod Traces
pub mod Tests
use atomic_blob_store.Prelude.{ℕ, if◌then◌else◌, Bool, Option, none, some, List}
use atomic_blob_store.Errors.{Result, BlobInspection, QuarantineInfo}
use atomic_blob_store.Format.Crc.{Crc32c}
use atomic_blob_store.Format.Load.{load_panics, load_blob, load_blob_into_sender}
use atomic_blob_store.Filesystem.{FilePath, StoreConfig}
use atomic_blob_store.Filesystem.Inspect.{inspect_blob}
use atomic_blob_store.Filesystem.Unix.{
  Unix, save_blob, save_blob_from_receiver, clear_blob, quarantine_blob,
}
use atomic_blob_store.Engine.Operation.{Operation, BlockingResult}

-- An operation and its result, with the state they leave.
abbrev pub Finished : Type 0 → Type 0
Finished S = Option ((Operation × BlockingResult) × S)

abbrev pub finished {ℓ} :
    {S : Type 0} {A : Type ℓ} → Operation → (Result A → BlockingResult) → Result A × S → Finished S
finished op kind (r, s) = some ((op, kind r), s)

abbrev pub finished_if_some {ℓ} :
    {S : Type 0} {A : Type ℓ}
    → Operation
    → (Result A → BlockingResult)
    → Option (Result A × S)
    → Finished S
finished_if_some op kind none = none
finished_if_some op kind (some end) = finished op kind end

module _ (os : Unix) (crc : Crc32c) (takes : ℕ → Option ℕ) (arrives : ℕ → Bool) where
  unfoldable pub run_owned_operation :
      ℕ → StoreConfig → FilePath → Operation → os.State → Finished os.State
  run_owned_operation fuel config path (Operation.load t) s =
      if load_panics config.format config.maximum (os.open_file path s)
      then none
      else finished (Operation.load t) BlockingResult.load (
        load_blob crc config.format config.maximum (os.metadata config.namespace s)
            (os.open_file path s),
        s,
      )
  run_owned_operation fuel config path (Operation.load_stream (some c) (some a) t) s =
      finished (Operation.load_stream none none t) BlockingResult.load_stream (
        (load_blob_into_sender crc config.format config.maximum (os.metadata config.namespace s)
            (os.open_file path s) (takes c) (arrives a)).0,
        s,
      )
  run_owned_operation fuel config path (Operation.load_stream _ _ t) s = none
  run_owned_operation fuel config path (Operation.save payload t) s =
      finished (Operation.save payload t) BlockingResult.save
        (save_blob os crc config path payload s)
  run_owned_operation fuel config path (Operation.save_stream declared chunks t) s =
      finished (Operation.save_stream declared chunks t) BlockingResult.save_stream
        (save_blob_from_receiver os crc config path declared chunks s)
  run_owned_operation fuel config path (Operation.clear t) s =
      finished (Operation.clear t) BlockingResult.clear (clear_blob os config path s)
  run_owned_operation fuel config path (Operation.inspect t) s =
      finished (Operation.inspect t) BlockingResult.inspect
        (inspect_blob (os.metadata config.namespace s) (os.symlink_metadata path s), s)
  run_owned_operation fuel config path (Operation.quarantine t) s =
      finished_if_some (Operation.quarantine t) BlockingResult.quarantine
        (quarantine_blob os fuel config path s)
