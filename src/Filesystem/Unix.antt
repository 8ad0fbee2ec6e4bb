-- ===== src/Filesystem/Unix.antt =====
-- The operations of src/filesystem/mod.rs on Unix, over the calls that they make.
pub mod Start
pub mod Lawful
pub mod Saving
pub mod Clearing
pub mod Moving
pub mod Memory
pub mod Tests
use atomic_blob_store.Prelude.{
  ℕ, ◌==◌, if◌then◌else◌, Bool, true, false, Option, none, some, List, [], ◌∷◌, ◌++◌, String,
}
use atomic_blob_store.Errors.{
  not_found, IoError, StoreError, StoreOperation, Result, ok, err, io, QuarantineInfo,
  CleanupReport, atomic_commit, open_atomic_writer, write_envelope, remove_blob,
  open_namespace_directory, sync_namespace_directory, unexpected_file_type,
  quarantine_namespace_sync, quarantine_source_missing, quarantine_commit, cleanup_unsupported,
  namespace_path_is_not_directory, root_does_not_exist, root_is_not_directory, inspect_root,
  inspect_namespace, create_namespace, resolve_current_directory, open_root_directory,
  sync_root_directory,
}
use atomic_blob_store.Config.{BlobFormatIdentity}
use atomic_blob_store.Format.Crc.{Crc32c}
use atomic_blob_store.Format.Reader.{IoResult, done, failed}
use atomic_blob_store.Format.Encode.{envelope_header, envelope_parts}
use atomic_blob_store.Format.Stream.{
  SaveStreamMessage, Writer, write_all, to_write, and_then, write_stream_envelope,
}
use atomic_blob_store.Format.Load.{File, ensure_namespace_available}
use atomic_blob_store.Filesystem.{FilePath, StoreConfig}
use atomic_blob_store.Filesystem.Actions.{
  Action, Call, pure, lift, ◌>>=◌, ◌>>◌, answer_or, or_fail, Turn, again, left, leave, identified,
  turns,
}
use atomic_blob_store.Filesystem.Inspect.{Metadata, is_kind}
use atomic_blob_store.Filesystem.Identifier.{Coded, value, code, random_identifier}

-- The calls. `create_file`, `commit` and the writer between them are those of an `AtomicWriteFile`;
-- a writer that is dropped leaves nothing behind. `metadata` says whether a path is a directory.
pub record Unix : Type 1 where
  pub State : Type 0
  pub os : String
  pub join : FilePath → List ℕ → FilePath
  pub file_stem : FilePath → Option (List ℕ)
  pub is_relative : FilePath → Bool
  pub current_dir : State → IoResult FilePath
  pub metadata : FilePath → State → IoResult Bool
  pub symlink_metadata : FilePath → State → IoResult Metadata
  pub open_file : FilePath → State → IoResult File
  pub fill : State → Coded (List ℕ) × State
  pub create_dir : FilePath → Call State (Unit {0})
  pub open_directory : FilePath → Call State (Unit {0})
  pub sync_all : FilePath → Call State (Unit {0})
  pub create_file : FilePath → Call State Writer
  pub commit : FilePath → Writer → Call State (Unit {0})
  pub remove_file : FilePath → Call State (Unit {0})
  pub rename_noreplace : FilePath → FilePath → State → Coded (Unit {0}) × State
  pub noent : ℕ
  pub exist : ℕ
  pub from_raw_os_error : ℕ → IoError

-- The loop over the sections of an envelope.
abbrev pub write_sections : List (List ℕ) → Writer → Result (Unit {0}) × Writer
write_sections [] w = (ok tt, w)
write_sections (section ∷ sections) w =
    and_then (to_write (write_all w section)) (write_sections sections)

-- A writer after the writes, where they succeeded.
abbrev pub written_or : {S : Type 0} → Result (Unit {0}) × Writer → Action S Writer
written_or (ok u, w) = pure w
written_or (err e, w) = lift (err e)

abbrev pub quarantine_mark : List ℕ
quarantine_mark =
    b'.' ∷ b'q' ∷ b'u' ∷ b'a' ∷ b'r' ∷ b'a' ∷ b'n' ∷ b't' ∷ b'i' ∷ b'n' ∷ b'e' ∷ b'-' ∷ b'v' ∷ b'1'
    ∷ b'.' ∷ []

module _ (os : Unix) where
  open os use {State}

  unfoldable pub sync_directory :
      FilePath → StoreOperation → StoreOperation → Action State (Unit {0})
  sync_directory path open_operation sync_operation =
      or_fail (io open_operation) (os.open_directory path)
      >> or_fail (io sync_operation) (os.sync_all path)

  -- After `remove_file`.
  abbrev pub cleared : StoreConfig → IoResult (Unit {0}) × State → Result (Unit {0}) × State
  cleared config (done u, s) =
      sync_directory config.namespace open_namespace_directory sync_namespace_directory s
  cleared config (failed e, s) =
      if is_kind e.kind not_found
      then (ensure_namespace_available (os.metadata config.namespace s), s)
      else (err (io remove_blob e), s)

  unfoldable pub clear_blob : StoreConfig → FilePath → Action State (Unit {0})
  clear_blob config path s = cleared config (os.remove_file path s)

  unfoldable pub sync_quarantine_namespace : StoreConfig → QuarantineInfo → Action State (Unit {0})
  sync_quarantine_namespace config info =
      or_fail (quarantine_namespace_sync info) (os.open_directory config.namespace)
      >> or_fail (quarantine_namespace_sync info) (os.sync_all config.namespace)

  -- The name that is tried for a random identifier.
  abbrev pub quarantine_path : StoreConfig → List ℕ → List ℕ → FilePath
  quarantine_path config hash identifier =
      os.join config.namespace
        (hash ++ (config.format.filename_suffix ++ (quarantine_mark ++ identifier)))

  abbrev pub after_rename :
      StoreConfig → QuarantineInfo → Coded (Unit {0}) × State → Turn QuarantineInfo × State
  after_rename config info (value u, s) =
      leave ((sync_quarantine_namespace config info >> pure info) s)
  after_rename config info (code c, s) =
      if c == os.noent
      then leave (
          ((λ s'. (ensure_namespace_available (os.metadata config.namespace s'), s'))
              >> lift (err quarantine_source_missing))
            s)
      else if c == os.exist
      then (again, s)
      else leave (err (quarantine_commit (os.from_raw_os_error c)), s)

  -- From the answer of `getrandom`.
  abbrev pub quarantine_drawn :
      StoreConfig → FilePath → List ℕ → Coded (List ℕ) × State → Turn QuarantineInfo × State
  quarantine_drawn config path hash drawn = identified drawn λ identifier s.
      let destination = quarantine_path config hash identifier in
      after_rename config (record { identifier = identifier; diagnostic_path = destination })
        (os.rename_noreplace path destination s)

  abbrev pub quarantine_turn : StoreConfig → FilePath → List ℕ → State → Turn QuarantineInfo × State
  quarantine_turn config path hash s = quarantine_drawn config path hash (os.fill s)

  abbrev pub quarantine_stem :
      ℕ → StoreConfig → FilePath → Option (List ℕ) → State → Option (Result QuarantineInfo × State)
  quarantine_stem fuel config path none s = some (err unexpected_file_type, s)
  quarantine_stem fuel config path (some hash) s = turns fuel (quarantine_turn config path hash) s

  -- At most `fuel` turns of the loop.
  unfoldable pub quarantine_blob :
      ℕ → StoreConfig → FilePath → State → Option (Result QuarantineInfo × State)
  quarantine_blob fuel config path = quarantine_stem fuel config path (os.file_stem path)

  abbrev pub cleanup_stale_files : StoreConfig → ℕ → Action State CleanupReport
  cleanup_stale_files config minimum_age = lift (err (cleanup_unsupported os.os))

  module _ (crc : Crc32c) where
    unfoldable pub save_blob : StoreConfig → FilePath → List ℕ → Action State (Unit {0})
    save_blob config path payload = do
      (header, checksum) ← lift (envelope_parts crc config.format payload config.maximum)
      writer ← or_fail (io open_atomic_writer) (os.create_file path)
      complete ← written_or (write_sections (header ∷ payload ∷ checksum ∷ []) writer)
      or_fail atomic_commit (os.commit path complete)

    unfoldable pub save_blob_from_receiver :
        StoreConfig → FilePath → ℕ → List SaveStreamMessage → Action State (Unit {0})
    save_blob_from_receiver config path declared_len chunks = do
      _ ← lift (envelope_header config.format declared_len config.maximum)
      writer ← or_fail (io open_atomic_writer) (os.create_file path)
      complete ←
          written_or
            (write_stream_envelope crc config.format config.maximum writer declared_len chunks)
      or_fail atomic_commit (os.commit path complete)
