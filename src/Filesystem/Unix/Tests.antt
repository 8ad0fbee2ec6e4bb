-- ===== src/Filesystem/Unix/Tests.antt =====
-- The operations of src/filesystem/mod.rs on Unix over a namespace in memory: a blob of two bytes is
-- kept under the name `k.b`.
use atomic_blob_store.Prelude.{ℕ, zero, suc, true, ◌≡◌, refl, none, some, List, [], ◌∷◌}
use atomic_blob_store.Prelude.Bytes.{to_be}
use atomic_blob_store.Errors.{Result, ok, err, QuarantineInfo, quarantine_source_missing}
use atomic_blob_store.Format.Reader.{done}
use atomic_blob_store.Format.Tests.{byte_sum, format, messages, file}
use atomic_blob_store.Format.Encode.{envelope_header, envelope_parts}
use atomic_blob_store.Format.Stream.{write_stream_envelope, write_messages}
use atomic_blob_store.Filesystem.{FilePath, StoreConfig}
use atomic_blob_store.Filesystem.Actions.{turns}
use atomic_blob_store.Filesystem.Files.{put}
use atomic_blob_store.Filesystem.Identifier.{hex}
use atomic_blob_store.Filesystem.Promises.{Updates, is_commit_error, is_sync_error, Moves}
use atomic_blob_store.Filesystem.Turns.{Ended}
use atomic_blob_store.Filesystem.Unix.{
  save_blob, save_blob_from_receiver, clear_blob, quarantine_blob, quarantine_path, sync_directory,
  sync_quarantine_namespace,
}
use atomic_blob_store.Filesystem.Unix.Start.{
  resolve_root, HasNamespace, initialize_platform, initialize_platform-ok,
}
use atomic_blob_store.Filesystem.Unix.Saving.{
  Stores, Streams, save_blob-Updates, save_blob_from_receiver-Updates,
}
use atomic_blob_store.Filesystem.Unix.Clearing.{clear_blob-Updates}
use atomic_blob_store.Filesystem.Unix.Moving.{quarantine_blob-Moves, quarantine_blob-ends}
use atomic_blob_store.Filesystem.Unix.Memory.{Memory, memory}
use atomic_blob_store.Filesystem.Unix.Memory.Laws.{memory-Lawful, listed_memory}

abbrev pub config : StoreConfig
config = record { namespace = []; format = format; maximum = 64; max_concurrent_operations = 4 }

abbrev pub name : FilePath
name = b'k' ∷ b'.' ∷ b'b' ∷ []

abbrev pub empty : Memory
empty = record { entries = []; draws = 0 }

abbrev pub full : Memory
full = record { entries = (name, some file.bytes) ∷ []; draws = 0 }

saved : save_blob memory byte_sum config name (104 ∷ 105 ∷ []) empty ≡ (ok tt, full)
unfolding save_blob envelope_parts envelope_header to_be
saved = refl

streamed : save_blob_from_receiver memory byte_sum config name 2 messages empty ≡ (ok tt, full)
unfolding save_blob_from_receiver write_stream_envelope write_messages envelope_header to_be
streamed = refl

nothing_to_move :
    quarantine_blob memory 1 config name empty
    ≡ some (err quarantine_source_missing, record { entries = []; draws = 1 })
unfolding quarantine_blob turns hex to_be
nothing_to_move = refl

save_blob-Updates_example :
    let end = save_blob memory byte_sum config name (104 ∷ 105 ∷ []) empty in
    Updates is_commit_error
      (Stores byte_sum config name (104 ∷ 105 ∷ []))
      end.0
      (memory-Lawful.files empty)
      (memory-Lawful.files end.1)
save_blob-Updates_example =
    save_blob-Updates memory memory-Lawful name byte_sum config (104 ∷ 105 ∷ []) empty

save_blob_from_receiver-Updates_example :
    let end = save_blob_from_receiver memory byte_sum config name 2 messages empty in
    Updates is_commit_error
      (Streams memory memory-Lawful name byte_sum config 2 messages)
      end.0
      (memory-Lawful.files empty)
      (memory-Lawful.files end.1)
save_blob_from_receiver-Updates_example =
    save_blob_from_receiver-Updates memory memory-Lawful name byte_sum config 2 messages empty

clear_blob-Updates_example :
    let end = clear_blob memory config name full in
    Updates is_sync_error
      (λ before after. after ≡ put name none before)
      end.0
      (memory-Lawful.files full)
      (memory-Lawful.files end.1)
clear_blob-Updates_example = clear_blob-Updates memory memory-Lawful config name full

quarantine_blob-Moves_example :
    Ended
      (λ r s'. Moves name r (memory-Lawful.files full) (memory-Lawful.files s'))
      (quarantine_blob memory 1 config name full)
quarantine_blob-Moves_example = quarantine_blob-Moves memory memory-Lawful config name 1 full

abbrev zeros : ℕ → List ℕ
zeros zero = []
zeros (suc n) = b'0' ∷ zeros n

-- The first name that would be tried is there already.
abbrev crowded : Memory
crowded = record {
  entries =
      (name, some file.bytes)
      ∷ (quarantine_path memory config (b'k' ∷ []) (zeros 64), some [])
      ∷ [];
  draws = 0;
}

quarantine_blob-ends_example :
    (out : Result QuarantineInfo × Memory) × (quarantine_blob memory 3 config name crowded
      ≡ some out)
unfolding hex to_be listed_memory quarantine_blob turns sync_quarantine_namespace
quarantine_blob-ends_example =
    quarantine_blob-ends memory config name (b'k' ∷ []) listed_memory crowded refl
      (refl, (refl, (refl, tt)))

initialize_platform-ok_example :
    (absolute : FilePath) × (resolve_root memory [] empty ≡ ok absolute)
    × (memory.metadata absolute empty ≡ done true)
    × HasNamespace memory (memory.join absolute []) empty
    × (record {
      namespace = memory.join absolute [];
      format = format;
      maximum = 64;
      max_concurrent_operations = 4;
    }
        ≡ config)
unfolding initialize_platform sync_directory
initialize_platform-ok_example = initialize_platform-ok memory [] [] format 64 4 empty config refl
