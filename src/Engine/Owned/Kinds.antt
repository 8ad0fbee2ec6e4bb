-- ===== src/Engine/Owned/Kinds.antt =====
-- The kind of the result that `run_owned_operation` of src/engine/operation.rs gives back with an
-- operation, on Unix.
use atomic_blob_store.Prelude.{ℕ, if-holds, ◌≡◌, refl, Bool, true, Option, none, some}
use atomic_blob_store.Errors.{Result, QuarantineInfo}
use atomic_blob_store.Format.Crc.{Crc32c}
use atomic_blob_store.Format.Load.{load_panics}
use atomic_blob_store.Filesystem.{FilePath, StoreConfig}
use atomic_blob_store.Filesystem.Unix.{Unix, quarantine_blob}
use atomic_blob_store.Engine.Operation.{Operation, BlockingResult, answer, sender, deliver}
use atomic_blob_store.Engine.Scheduler.{operate}
use atomic_blob_store.Engine.System.{is_result_of}
use atomic_blob_store.Engine.Owned.{Finished, finished_if_some, run_owned_operation}

-- What a worker brings back of an operation is delivered to the operation's own caller, and is one
-- that the coordinator takes for the operation that it handed out.
abbrev pub Delivered : {S : Type 0} → Operation → Finished S → Type 0
Delivered op none = Unit
Delivered op (some ((returned, result), s)) =
    (deliver returned result ≡ some (sender op, answer result))
    × ((k : ℕ) → is_result_of (operate k op) (some result) ≡ true)

quarantine-Delivered :
    {S : Type 0} (t : ℕ) (end : Option (Result QuarantineInfo × S))
    → Delivered
        (Operation.quarantine t)
        (finished_if_some (Operation.quarantine t) BlockingResult.quarantine end)
unfolding deliver
quarantine-Delivered t none = tt
quarantine-Delivered t (some (r, s)) = (refl, λ k. refl)

module _ (os : Unix) (crc : Crc32c) (takes : ℕ → Option ℕ) (arrives : ℕ → Bool) where
  -- Whatever the operation and the answers of the operating system, what a worker brings back on
  -- Unix is an operation and a result of the same kind: the match in `deliver` is never
  -- unreachable, the answer goes to the sender of the operation that was handed out, and the
  -- completion is one that the model of the coordinator's workers admits.
  pub run_owned_operation-Delivered :
      (fuel : ℕ) (config : StoreConfig) (path : FilePath) (op : Operation) (s : os.State)
      → Delivered op (run_owned_operation os crc takes arrives fuel config path op s)
  unfolding run_owned_operation deliver
  run_owned_operation-Delivered fuel config path (Operation.load t) s =
      if-holds (Delivered (Operation.load t))
        (load_panics config.format config.maximum (os.open_file path s)) (λ _. tt)
        (λ _. (refl, λ k. refl))
  run_owned_operation-Delivered fuel config path (Operation.load_stream (some c) (some a) t) s =
      (refl, λ k. refl)
  run_owned_operation-Delivered fuel config path (Operation.load_stream (some c) none t) s = tt
  run_owned_operation-Delivered fuel config path (Operation.load_stream none a t) s = tt
  run_owned_operation-Delivered fuel config path (Operation.save p t) s = (refl, λ k. refl)
  run_owned_operation-Delivered fuel config path (Operation.save_stream d c t) s = (refl, λ k. refl)
  run_owned_operation-Delivered fuel config path (Operation.clear t) s = (refl, λ k. refl)
  run_owned_operation-Delivered fuel config path (Operation.inspect t) s = (refl, λ k. refl)
  run_owned_operation-Delivered fuel config path (Operation.quarantine t) s =
      quarantine-Delivered t (quarantine_blob os fuel config path s)
