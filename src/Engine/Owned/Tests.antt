-- ===== src/Engine/Owned/Tests.antt =====
-- `run_owned_operation` of src/engine/operation.rs on a namespace in memory.
use atomic_blob_store.Prelude.{ℕ, ◌≡◌, some, List, none, [], ◌∷◌, true, arith, refl}
use atomic_blob_store.Format.Tests.{byte_sum}
use atomic_blob_store.Filesystem.Unix.Memory.{memory}
use atomic_blob_store.Filesystem.Unix.Memory.Laws.{memory-Lawful}
use atomic_blob_store.Filesystem.Unix.Tests.{config, name, empty, full}
use atomic_blob_store.Errors.{ok}
use atomic_blob_store.Prelude.Bytes.{from_be, to_be}
use atomic_blob_store.Format.Encode.{envelope_parts, envelope_header}
use atomic_blob_store.Format.Reader.{read_section}
use atomic_blob_store.Format.Decode.{
  decode_panics, declared_length, decode_reader, decode_reader_with_usize_limit,
}
use atomic_blob_store.Format.Load.{load_blob}
use atomic_blob_store.Filesystem.{FilePath}
use atomic_blob_store.Filesystem.Unix.{save_blob, clear_blob}
use atomic_blob_store.Engine.Operation.{Operation, BlockingResult}
use atomic_blob_store.Engine.Owned.{run_owned_operation}
use atomic_blob_store.Engine.Owned.Kinds.{Delivered, run_owned_operation-Delivered}
use atomic_blob_store.Engine.Owned.Traces.{run_all, load-save}
use atomic_blob_store.Engine.Owned.Reading.{IsConfigured}
use atomic_blob_store.Engine.Owned.Refinement.{Keeps, run_owned_operation-Implements}

config-IsConfigured : IsConfigured config
config-IsConfigured = record { tag = refl; version = omega arith; room = omega arith }

run_owned_operation-Delivered_example : Delivered (Operation.quarantine 7) (
    run_owned_operation memory byte_sum
      (λ c. none)
      (λ a. true)
      1
      config
      name
      (Operation.quarantine 7)
      full)
run_owned_operation-Delivered_example =
    run_owned_operation-Delivered memory byte_sum (λ c. none) (λ a. true) 1 config name
      (Operation.quarantine 7) full

run_owned_operation-Implements_example :
    Keeps byte_sum config config-IsConfigured memory memory-Lawful name
      (Operation.save (104 ∷ 105 ∷ []) 7)
      empty
      (run_owned_operation memory byte_sum
        (λ c. none)
        (λ a. true)
        1
        config
        name
        (Operation.save (104 ∷ 105 ∷ []) 7)
        empty)
run_owned_operation-Implements_example =
    run_owned_operation-Implements byte_sum config config-IsConfigured memory memory-Lawful name
      (λ c. none) (λ a. true) 1 (Operation.save (104 ∷ 105 ∷ []) 7) empty

abbrev other_name : FilePath
other_name = b'j' ∷ b'.' ∷ b'b' ∷ []

-- A clear of another key between the save and the load.
abbrev between : List (FilePath × Operation)
between = (other_name, Operation.clear 8) ∷ []

saves :
    run_owned_operation memory byte_sum
      (λ c. none)
      (λ a. true)
      1
      config
      name
      (Operation.save (104 ∷ 105 ∷ []) 7)
      empty
    ≡ some ((Operation.save (104 ∷ 105 ∷ []) 7, BlockingResult.save (ok tt)), full)
unfolding run_owned_operation save_blob envelope_parts envelope_header to_be
saves = refl

clears : run_all byte_sum config memory (λ c. none) (λ a. true) 1 between full ≡ some full
unfolding run_all run_owned_operation clear_blob
clears = refl

loads :
    run_owned_operation memory byte_sum
      (λ c. none)
      (λ a. true)
      1
      config
      name
      (Operation.load 9)
      full
    ≡ some ((Operation.load 9, BlockingResult.load (ok (some (104 ∷ 105 ∷ [])))), full)
unfolding run_owned_operation load_blob decode_reader decode_reader_with_usize_limit decode_panics
    declared_length read_section from_be to_be
loads = refl

abbrev greeting : List ℕ
greeting = 104 ∷ 105 ∷ []

load-save_example : some greeting ≡ some greeting
load-save_example =
    load-save byte_sum config memory (λ c. none) (λ a. true) 1 config-IsConfigured memory-Lawful
      name (104 ∷ 105 ∷ []) 7 9 between empty full full full (Operation.save (104 ∷ 105 ∷ []) 7)
      (Operation.load 9) (some (104 ∷ 105 ∷ [])) saves (refl, tt) clears loads
