-- ===== src/Engine/Owned/Promise.antt =====
-- What an operation of src/engine/operation.rs promises, told of what is stored under each name.
use atomic_blob_store.Prelude.{ℕ, ◌≡◌, ◌≢◌, true, Option, none, some, List, length}
use atomic_blob_store.Errors.{Result, ok, err, map_ok, BlobInspection, BlobState, absent, present}
use atomic_blob_store.Format.Crc.{Crc32c}
use atomic_blob_store.Format.Decode.{decode_reader}
use atomic_blob_store.Format.Stream.Written.{sent, is_completed}
use atomic_blob_store.Filesystem.{FilePath, StoreConfig}
use atomic_blob_store.Filesystem.Files.{Entries, put, seen}
use atomic_blob_store.Filesystem.Promises.{
  Contents, Updates, is_commit_error, is_sync_error, Moves, Tells, reading, metadata_of,
}
use atomic_blob_store.Engine.Operation.{Operation, BlockingResult}

-- What the bytes of a file decode to.
abbrev pub decoded : Crc32c → StoreConfig → List ℕ → Result (List ℕ)
decoded crc config bytes =
    decode_reader crc config.format (record { bytes = bytes; ending = none }) config.maximum

abbrev pub contents : Crc32c → StoreConfig → Entries (List ℕ) → Contents
contents crc config = seen (decoded crc config)

-- An entry that is told to be absent is, and one that is told to be present is there.
abbrev pub IsSeen : Option (Result (List ℕ)) → BlobState → Type 0
IsSeen stored absent = stored ≡ none
IsSeen stored present = stored ≢ none

abbrev pub Inspects : Option (Result (List ℕ)) → Result BlobInspection → Type 0
Inspects stored (ok i) = IsSeen stored i.state
Inspects stored (err e) = Unit

-- The abstract operation: from its result, what is stored before and after it.
abbrev pub Implements : FilePath → Operation → BlockingResult → Contents → Contents → Type 0
Implements path (Operation.load t) (BlockingResult.load r) before after =
    (after ≡ before) × Tells (reading (before path)) r
Implements path (Operation.load_stream c a t) (BlockingResult.load_stream r) before after =
    (after ≡ before) × Tells (map_ok metadata_of (reading (before path))) r
Implements path (Operation.save payload t) (BlockingResult.save r) before after =
    Updates is_commit_error (λ b a. a ≡ put path (some (ok payload)) b) r before after
Implements path (Operation.save_stream declared chunks t) (BlockingResult.save_stream r) before
      after =
    Updates is_commit_error
      (λ b a.
        (is_completed chunks ≡ true)
        × (length (sent chunks) ≡ declared)
        × (a ≡ put path (some (ok (sent chunks))) b))
      r before after
Implements path (Operation.clear t) (BlockingResult.clear r) before after =
    Updates is_sync_error (λ b a. a ≡ put path none b) r before after
Implements path (Operation.inspect t) (BlockingResult.inspect r) before after =
    (after ≡ before) × Inspects (before path) r
Implements path (Operation.quarantine t) (BlockingResult.quarantine r) before after =
    Moves path r before after
Implements path _ _ before after = ⊥
