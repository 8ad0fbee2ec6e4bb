-- ===== src/Filesystem/Windows/Operations.antt =====
-- The steps of src/filesystem/mod.rs on Windows: moves, commits, syncs, staging files and ages.
use atomic_blob_store.Prelude.{
  ℕ, ◌==◌, if◌then◌else◌, Bool, false, ◌||◌, Option, none, some, List, [], ◌∷◌,
}
use atomic_blob_store.Errors.{
  other, Result, ok, err, io, atomic_commit, open_atomic_writer, write_envelope,
}
use atomic_blob_store.Format.Crc.{Crc32c}
use atomic_blob_store.Format.Reader.{IoResult, done, failed, plain_error}
use atomic_blob_store.Format.Stream.{SaveStreamMessage, Writer, write_stream_envelope}
use atomic_blob_store.Filesystem.{FilePath, StoreConfig}
use atomic_blob_store.Filesystem.Actions.{Action, Call, ◌>>=◌, or_fail}
use atomic_blob_store.Filesystem.Unix.{write_sections}
use atomic_blob_store.Filesystem.Windows.{
  Windows, MoveFlags, write_through, replace_existing_write_through,
}
use atomic_blob_store.Filesystem.Windows.Times.{file_time}
use atomic_blob_store.Filesystem.Windows.Wide.{wide_path}
use atomic_blob_store.Filesystem.Windows.Staging.{staging_name}

-- The `?` of a call that keeps its `io::Error`.
abbrev pub and_call : {S A : Type 0} → IoResult (Unit {0}) × S → Call S A → IoResult A × S
and_call (done u, s) next = next s
and_call (failed e, s) next = (failed e, s)

-- The test of the error of a first move.
abbrev pub is_taken : Option ℕ → ℕ → ℕ → Bool
is_taken none file_exists already_exists_code = false
is_taken (some c) file_exists already_exists_code = c == file_exists || c == already_exists_code

module _ (os : Windows) where
  open os use {State}

  abbrev pub wide : FilePath → List ℕ
  wide path = wide_path (os.encode_wide path)

  abbrev pub move_file : FilePath → FilePath → MoveFlags → Call State (Unit {0})
  move_file source destination flags = os.move_file_ex (wide source) (wide destination) flags

  abbrev pub delete_file : FilePath → Call State (Unit {0})
  delete_file path = os.delete_file_w (wide path)

  -- After the first move.
  abbrev pub commit_after :
      FilePath → FilePath → IoResult (Unit {0}) × State → Result (Unit {0}) × State
  commit_after staging destination (done u, s) = (ok tt, s)
  commit_after staging destination (failed e, s) =
      if is_taken e.raw_os_error os.error_file_exists os.error_already_exists
      then or_fail atomic_commit (move_file staging destination replace_existing_write_through) s
      else (err (atomic_commit e), s)

  unfoldable pub commit_windows_staging : FilePath → FilePath → Action State (Unit {0})
  commit_windows_staging staging destination s =
      commit_after staging destination (move_file staging destination write_through s)

  unfoldable pub sync_windows_directory : StoreConfig → Call State (Unit {0})
  sync_windows_directory config s =
      and_call (os.open_directory (wide config.namespace) s)
        (os.flush_directory (wide config.namespace))

  -- What was written is flushed if the writes succeeded; either way the handle is closed.
  abbrev pub closing : List ℕ → Writer → IoResult (Unit {0}) × State → Result (Unit {0}) × State
  closing path w (done u, s) = (ok tt, os.close path w s)
  closing path w (failed e, s) = (err (io write_envelope e), os.close path w s)

  abbrev pub flush_staging : List ℕ → Result (Unit {0}) × Writer → Action State (Unit {0})
  flush_staging path (ok u, w) s = closing path w (os.flush_file path w s)
  flush_staging path (err e, w) s = (err e, os.close path w s)

  unfoldable pub create_windows_staging :
      FilePath → List ℕ → List ℕ → List ℕ → Action State (Unit {0})
  create_windows_staging path header payload checksum =
      or_fail (io open_atomic_writer) (os.create_new (wide path)) >>= λ w.
      flush_staging (wide path) (write_sections (header ∷ payload ∷ checksum ∷ []) w)

  abbrev pub refresh_at : FilePath → Option (ℕ × ℕ) → Call State (Unit {0})
  refresh_at path none s = (failed (plain_error other), s)
  refresh_at path (some (low, high)) s =
      and_call (os.open_existing (wide path) s)
        λ s₁. and_call (os.set_file_time (wide path) low high s₁) (os.flush_existing (wide path))

  abbrev pub refresh_after : FilePath → IoResult (ℕ × ℕ) → Call State (Unit {0})
  refresh_after path (failed e) s = (failed (plain_error other), s)
  refresh_after path (done (secs, nanos)) s = refresh_at path (file_time secs nanos) s

  unfoldable pub refresh_windows_clear_age : FilePath → Call State (Unit {0})
  refresh_windows_clear_age path s = refresh_after path (os.elapsed s) s

  abbrev pub staging_path : StoreConfig → List ℕ → List ℕ → List ℕ → FilePath
  staging_path config kind hash identifier =
      os.join config.namespace (staging_name hash config.format.filename_suffix kind identifier)

  module _ (crc : Crc32c) where
    unfoldable pub create_windows_streaming_staging :
        StoreConfig → ℕ → List SaveStreamMessage → FilePath → Action State (Unit {0})
    create_windows_streaming_staging config declared_len chunks path =
        or_fail (io open_atomic_writer) (os.create_new (wide path)) >>= λ w.
        flush_staging (wide path)
          (write_stream_envelope crc config.format config.maximum w declared_len chunks)
