-- ===== src/Filesystem/Windows.antt =====
-- What src/filesystem/mod.rs calls on Windows. Operations holds its operations, Cleanup the removal of
-- stale staging files, Start the start of a store, Staging the names of staging files, Times the file times and Wide the paths.
pub mod Start
pub mod Wide
pub mod Staging
pub mod Times
pub mod Operations
pub mod Blobs
pub mod Cleanup
pub mod Lawful
pub mod Staged
pub mod Saving
pub mod Memory
mod Tests
use atomic_blob_store.Prelude.{
  ℕ, ◌+◌, ◌*◌, ◌/◌, ◌%◌, ◌^◌, ◌==◌, ltb, if◌then◌else◌, Bool, true, false, ◌||◌, Option, none, some,
  List, [], ◌∷◌, ◌++◌,
}
use atomic_blob_store.Prelude.Bytes.{u64_max}
use atomic_blob_store.Errors.{
  not_found, already_exists, other, IoError, StoreError, Result, ok, err, io, QuarantineInfo,
  atomic_commit, open_atomic_writer, write_envelope, remove_blob, sync_namespace_directory,
  refresh_clear_staging_age, remove_temporary_file, unexpected_file_type, quarantine_namespace_sync,
  quarantine_source_missing, quarantine_commit,
}
use atomic_blob_store.Format.Crc.{Crc32c}
use atomic_blob_store.Format.Reader.{IoResult, done, failed, plain_error}
use atomic_blob_store.Format.Encode.{envelope_header, envelope_parts}
use atomic_blob_store.Format.Stream.{SaveStreamMessage, Writer, write_stream_envelope}
use atomic_blob_store.Format.Load.{ensure_namespace_available}
use atomic_blob_store.Filesystem.{FilePath, StoreConfig}
use atomic_blob_store.Filesystem.Actions.{
  Action, Call, pure, lift, ◌>>=◌, ◌>>◌, or_fail, Turn, again, left, leave, identified, turns,
}
use atomic_blob_store.Filesystem.Inspect.{Metadata, is_kind}
use atomic_blob_store.Filesystem.Identifier.{Coded}
use atomic_blob_store.Filesystem.Unix.{write_sections, quarantine_mark}
use atomic_blob_store.Filesystem.Windows.Wide.{wide_path}
use atomic_blob_store.Filesystem.Windows.Staging.{staging_name, save_kind, clear_kind}

-- The flags of `MoveFileExW` that are used: with the second a file at the destination is replaced.
pub data MoveFlags : Type 0 where
  write_through replace_existing_write_through : MoveFlags

-- An entry of a directory, with its lossy name.
pub record Entry : Type 0 where
  pub name : List ℕ
  pub path : FilePath

-- The calls. A path goes to the system as its 16-bit units with a prefix and a closing zero. A new
-- file is written through a handle that nobody else shares; what was written is there once the
-- handle is closed. `elapsed` is the time since the Unix epoch in seconds and nanoseconds, `now` a
-- `SystemTime`.
pub record Windows : Type 1 where
  pub State : Type 0
  pub join : FilePath → List ℕ → FilePath
  pub file_stem : FilePath → Option (List ℕ)
  pub encode_wide : FilePath → List ℕ
  pub absolute : FilePath → State → IoResult FilePath
  pub metadata : FilePath → State → IoResult Bool
  pub symlink_metadata : FilePath → State → IoResult Metadata
  pub read_dir : FilePath → State → IoResult (List (IoResult Entry))
  pub now : State → ℕ
  pub elapsed : State → IoResult (ℕ × ℕ)
  pub fill : State → Coded (List ℕ) × State
  pub create_dir : FilePath → Call State (Unit {0})
  pub create_new : List ℕ → Call State Writer
  pub flush_file : List ℕ → Writer → Call State (Unit {0})
  pub close : List ℕ → Writer → State → State
  pub move_file_ex : List ℕ → List ℕ → MoveFlags → Call State (Unit {0})
  pub delete_file_w : List ℕ → Call State (Unit {0})
  pub open_directory : List ℕ → Call State (Unit {0})
  pub flush_directory : List ℕ → Call State (Unit {0})
  pub open_existing : List ℕ → Call State (Unit {0})
  pub set_file_time : List ℕ → ℕ → ℕ → Call State (Unit {0})
  pub flush_existing : List ℕ → Call State (Unit {0})
  pub error_file_exists : ℕ
  pub error_already_exists : ℕ
