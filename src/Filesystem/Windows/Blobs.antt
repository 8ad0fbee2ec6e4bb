-- ===== src/Filesystem/Windows/Blobs.antt =====
-- The loops of src/filesystem/mod.rs on Windows that save, clear and quarantine a blob.
use atomic_blob_store.Prelude.{ℕ, if◌then◌else◌, Bool, true, false, Option, none, some, List, ◌++◌}
use atomic_blob_store.Errors.{
  not_found, already_exists, Result, ok, err, io, QuarantineInfo, remove_blob,
  sync_namespace_directory, refresh_clear_staging_age, remove_temporary_file, unexpected_file_type,
  quarantine_namespace_sync, quarantine_source_missing, quarantine_commit,
}
use atomic_blob_store.Format.Crc.{Crc32c}
use atomic_blob_store.Format.Reader.{IoResult, done, failed}
use atomic_blob_store.Format.Encode.{envelope_header, envelope_parts}
use atomic_blob_store.Format.Stream.{SaveStreamMessage, Writer}
use atomic_blob_store.Format.Stream.Channel.{left_in_channel}
use atomic_blob_store.Format.Load.{ensure_namespace_available}
use atomic_blob_store.Filesystem.{FilePath, StoreConfig}
use atomic_blob_store.Filesystem.Actions.{
  Action, pure, lift, ◌>>◌, or_fail, Turn, again, left, leave, identified, turns,
}
use atomic_blob_store.Filesystem.Inspect.{is_kind}
use atomic_blob_store.Filesystem.Identifier.{Coded, random_identifier}
use atomic_blob_store.Filesystem.Unix.{quarantine_mark}
use atomic_blob_store.Filesystem.Windows.{Windows, write_through}
use atomic_blob_store.Filesystem.Windows.Staging.{save_kind, clear_kind}
use atomic_blob_store.Filesystem.Windows.Operations.{
  wide, move_file, delete_file, commit_windows_staging, sync_windows_directory,
  create_windows_staging, create_windows_streaming_staging, refresh_windows_clear_age, staging_path,
}

module _ (os : Windows) where
  open os use {State}

  -- The staging file takes the place of the blob.
  abbrev pub commit_staging : StoreConfig → FilePath → FilePath → Action State (Unit {0})
  commit_staging config staging path =
      commit_windows_staging os staging path
      >> or_fail (io sync_namespace_directory) (sync_windows_directory os config)

  -- The state after the attempt to remove a staging file that could not be written.
  abbrev pub discard : Bool → FilePath → State → State
  discard false staging s = s
  discard true staging s = (delete_file os staging s).1

  -- After the staging file was made, `discards` where one that failed is removed.
  abbrev pub after_staging :
      Bool → StoreConfig → FilePath → FilePath → Result (Unit {0}) × State → Turn (Unit {0}) × State
  after_staging discards config path staging (ok u, s) =
      leave (commit_staging config staging path s)
  after_staging discards config path staging (err (io operation e), s) =
      if is_kind e.kind already_exists
      then (again, s)
      else (left (err (io operation e)), discard discards staging s)
  after_staging discards config path staging (err e, s) = (left (err e), discard discards staging s)

  -- The loop of a save, by how the staging file is made.
  abbrev pub save_turn :
      Bool
      → StoreConfig
      → FilePath
      → List ℕ
      → (FilePath → Action State (Unit {0}))
      → State
      → Turn (Unit {0}) × State
  save_turn discards config path hash create s = identified (os.fill s) λ identifier s'.
      let staging = staging_path os config save_kind hash identifier in
      after_staging discards config path staging (create staging s')

  -- A function of the stem of a path, which has to be there.
  abbrev pub with_stem {ℓ} :
      {A : Type ℓ}
      → Option (List ℕ)
      → (List ℕ → State → Option (Result A × State))
      → State
      → Option (Result A × State)
  with_stem none next s = some (err unexpected_file_type, s)
  with_stem (some hash) next s = next hash s

  abbrev pub after_clear_move :
      StoreConfig → FilePath → IoResult (Unit {0}) × State → Turn (Unit {0}) × State
  after_clear_move config staging (done u, s) = leave (
      (or_fail (io sync_namespace_directory) (sync_windows_directory os config)
          >> or_fail (io remove_temporary_file) (delete_file os staging))
        s)
  after_clear_move config staging (failed e, s) =
      if is_kind e.kind not_found
      then (left (ensure_namespace_available (os.metadata config.namespace s)), s)
      else if is_kind e.kind already_exists
      then (again, s)
      else (left (err (io remove_blob e)), s)

  abbrev pub clear_turn : StoreConfig → FilePath → List ℕ → State → Turn (Unit {0}) × State
  clear_turn config path hash s = identified (os.fill s) λ identifier s'.
      let staging = staging_path os config clear_kind hash identifier in
      after_clear_move config staging (move_file os path staging write_through s')

  abbrev pub clear_refreshed :
      ℕ
      → StoreConfig
      → FilePath
      → List ℕ
      → IoResult (Unit {0}) × State
      → Option (Result (Unit {0}) × State)
  clear_refreshed fuel config path hash (done u, s) = turns fuel (clear_turn config path hash) s
  clear_refreshed fuel config path hash (failed e, s) =
      if is_kind e.kind not_found
      then some (ensure_namespace_available (os.metadata config.namespace s), s)
      else some (err (io refresh_clear_staging_age e), s)

  unfoldable pub clear_blob :
      ℕ → StoreConfig → FilePath → State → Option (Result (Unit {0}) × State)
  clear_blob fuel config path =
      with_stem (os.file_stem path)
        λ hash s. clear_refreshed fuel config path hash (refresh_windows_clear_age os path s)

  abbrev pub after_quarantine_move :
      StoreConfig → QuarantineInfo → IoResult (Unit {0}) × State → Turn QuarantineInfo × State
  after_quarantine_move config info (done u, s) =
      leave (
        (or_fail (quarantine_namespace_sync info) (sync_windows_directory os config) >> pure info)
          s)
  after_quarantine_move config info (failed e, s) =
      if is_kind e.kind not_found
      then leave (
          ((λ s'. (ensure_namespace_available (os.metadata config.namespace s'), s'))
              >> lift (err quarantine_source_missing))
            s)
      else if is_kind e.kind already_exists
      then (again, s)
      else (left (err (quarantine_commit e)), s)

  abbrev pub quarantine_turn : StoreConfig → FilePath → List ℕ → State → Turn QuarantineInfo × State
  quarantine_turn config path hash s = identified (os.fill s) λ identifier s'.
      let name = hash ++ (config.format.filename_suffix ++ (quarantine_mark ++ identifier)) in
      let destination = os.join config.namespace name in
      after_quarantine_move config
        (record { identifier = identifier; diagnostic_path = destination })
        (move_file os path destination write_through s')

  unfoldable pub quarantine_blob :
      ℕ → StoreConfig → FilePath → State → Option (Result QuarantineInfo × State)
  quarantine_blob fuel config path =
      with_stem (os.file_stem path) λ hash. turns fuel (quarantine_turn config path hash)

  module _ (crc : Crc32c) where
    abbrev pub save_parts :
        ℕ
        → StoreConfig
        → FilePath
        → List ℕ
        → Result (List ℕ × List ℕ)
        → State
        → Option (Result (Unit {0}) × State)
    save_parts fuel config path payload (err e) s = some (err e, s)
    save_parts fuel config path payload (ok (header, checksum)) s =
        with_stem (os.file_stem path)
          (λ hash. turns fuel (
            save_turn false config path hash
              λ staging. create_windows_staging os staging header payload checksum))
          s

    unfoldable pub save_blob :
        ℕ → StoreConfig → FilePath → List ℕ → State → Option (Result (Unit {0}) × State)
    save_blob fuel config path payload =
        save_parts fuel config path payload
          (envelope_parts crc config.format payload config.maximum)

    -- The chunks that a turn leaves in the channel, from the answer to the opening of its file.
    abbrev pub left_by_writer :
        StoreConfig → ℕ → List SaveStreamMessage → IoResult Writer → List SaveStreamMessage
    left_by_writer config declared_len chunks (failed e) = chunks
    left_by_writer config declared_len chunks (done w) =
        left_in_channel config.format config.maximum w declared_len chunks

    abbrev pub left_by_turn :
        StoreConfig
        → List ℕ
        → ℕ
        → List SaveStreamMessage
        → Coded (List ℕ) × State
        → List SaveStreamMessage
    left_by_turn config hash declared_len chunks (drawn, s) = elim (random_identifier drawn) [
      | err e ↦ chunks
      | ok identifier ↦
          left_by_writer config declared_len chunks
            (os.create_new (wide os (staging_path os config save_kind hash identifier)) s).0
    ]

    -- A turn of the loop of a streamed save, with the channel in its state.
    abbrev pub stream_turn :
        StoreConfig
        → FilePath
        → List ℕ
        → ℕ
        → List SaveStreamMessage × State
        → Turn (Unit {0}) × (List SaveStreamMessage × State)
    stream_turn config path hash declared_len (chunks, s) =
        let (turn, s') =
          save_turn true config path hash
            (create_windows_streaming_staging os crc config declared_len chunks) s in
        (turn, (left_by_turn config hash declared_len chunks (os.fill s), s'))

    abbrev pub drop_channel :
        Option (Result (Unit {0}) × (List SaveStreamMessage × State))
        → Option (Result (Unit {0}) × State)
    drop_channel none = none
    drop_channel (some (r, (chunks, s))) = some (r, s)

    abbrev pub save_stream :
        ℕ
        → StoreConfig
        → FilePath
        → ℕ
        → List SaveStreamMessage
        → Result (List ℕ)
        → State
        → Option (Result (Unit {0}) × State)
    save_stream fuel config path declared_len chunks (err e) s = some (err e, s)
    save_stream fuel config path declared_len chunks (ok header) s =
        with_stem (os.file_stem path)
          (λ hash s.
            drop_channel (turns fuel (stream_turn config path hash declared_len) (chunks, s)))
          s

    unfoldable pub save_blob_from_receiver :
        ℕ
        → StoreConfig
        → FilePath
        → ℕ
        → List SaveStreamMessage
        → State
        → Option (Result (Unit {0}) × State)
    save_blob_from_receiver fuel config path declared_len chunks =
        save_stream fuel config path declared_len chunks
          (envelope_header config.format declared_len config.maximum)
