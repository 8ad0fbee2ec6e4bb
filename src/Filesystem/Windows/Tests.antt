-- ===== src/Filesystem/Windows/Tests.antt =====
-- The Windows operations of src/filesystem/mod.rs on files in memory.
use atomic_blob_store.Prelude.{
  ℕ, zero, suc, ◌+◌, ◌≡◌, ◌↔◌, ◌<◌, ◌*◌, ◌^◌, ◌/◌, refl, true, some, List, [], ◌∷◌, arith,
}
use atomic_blob_store.Errors.{ok}
use atomic_blob_store.Format.Reader.{IoResult, done}
use atomic_blob_store.Format.Tests.{byte_sum, file}
use atomic_blob_store.Filesystem.Identifier.{value, random_identifier}
use atomic_blob_store.Filesystem.Identifier.Digits.{unhex, random_identifier-value}
use atomic_blob_store.Filesystem.{FilePath}
use atomic_blob_store.Filesystem.Turns.{Ended}
use atomic_blob_store.Filesystem.Promises.{Updates, is_commit_or_sync_error}
use atomic_blob_store.Filesystem.Unix.Memory.{Memory}
use atomic_blob_store.Filesystem.Unix.Tests.{config, name, full}
use atomic_blob_store.Filesystem.Windows.{Entry}
use atomic_blob_store.Filesystem.Windows.Start.{
  initialize_platform, HasNamespace, initialize_platform-HasNamespace,
}
use atomic_blob_store.Filesystem.Windows.Wide.{wide_path}
use atomic_blob_store.Filesystem.Windows.Staging.{
  is_owned_temporary_filename, IsStaging, is_owned_temporary_filename_iff, staging_name, save_kind,
  split_once, is_hex_64,
}
use atomic_blob_store.Filesystem.Windows.Times.{file_time, file_time_iff}
use atomic_blob_store.Filesystem.Windows.Operations.{wide}
use atomic_blob_store.Filesystem.Windows.Blobs.{save_blob}
use atomic_blob_store.Filesystem.Windows.Staged.{spared}
use atomic_blob_store.Filesystem.Windows.Saving.{Stores, save_blob-Stores}
use atomic_blob_store.Filesystem.Windows.Memory.{memory, memory-Lawful}
use atomic_blob_store.Filesystem.Windows.Cleanup.{clean_entries, cleanup_stale_files, no_report}
use atomic_blob_store.Filesystem.Windows.Cleanup.Report.{
  Fate, reported, MeetAll, cleanup_stale_files-ok,
}

save_blob-Stores_example :
    Ended
      (λ r s'.
        Updates is_commit_or_sync_error
          (Stores memory config name (b'k' ∷ []) memory-Lawful byte_sum (104 ∷ 105 ∷ []))
          r
          (spared memory config name (b'k' ∷ []) (memory-Lawful.files full))
          (spared memory config name (b'k' ∷ []) (memory-Lawful.files s')))
      (save_blob memory byte_sum 1 config name (104 ∷ 105 ∷ []) full)
save_blob-Stores_example =
    save_blob-Stores memory config name (b'k' ∷ []) memory-Lawful byte_sum (104 ∷ 105 ∷ []) 1 full
      refl

abbrev shared : List ℕ
shared = 92 ∷ 92 ∷ b'h' ∷ b'/' ∷ b's' ∷ []

abbrev digits : ℕ → List ℕ
digits zero = []
digits (suc n) = b'0' ∷ digits n

abbrev stale : List ℕ
stale = staging_name (digits 64) config.format.filename_suffix save_kind (digits 64)

stale-owned : is_owned_temporary_filename stale config.format.filename_suffix ≡ true
stale-owned =
    (is_owned_temporary_filename_iff stale (b'b' ∷ [])).1
      (digits 64, save_kind, digits 64, refl, refl, refl, refl)

is_owned_temporary_filename_iff_example :
    (is_owned_temporary_filename stale (b'.' ∷ b'b' ∷ []) ≡ true)
    ↔ IsStaging stale (b'.' ∷ b'b' ∷ [])
is_owned_temporary_filename_iff_example = is_owned_temporary_filename_iff stale (b'b' ∷ [])

-- The Unix epoch.
file_time_iff_example : (file_time 0 0 ≡ some (3577643008, 27111902)) ↔ (
    (3577643008 < 2 ^ 32)
    × (27111902 < 2 ^ 32)
    × (27111902 * 2 ^ 32 + 3577643008 ≡ 0 * 10000000 + 0 / 100 + 116444736000000000))
file_time_iff_example = file_time_iff 0 0 3577643008 27111902

epoch : file_time 0 0 ≡ some (3577643008, 27111902)
unfolding file_time
epoch = refl

abbrev littered : Memory
littered = record {
  entries = (wide memory stale, some []) ∷ (wide memory name, some file.bytes) ∷ [];
  draws = 0;
}

abbrev listed : List (IoResult Entry)
listed =
    done (record { name = stale; path = stale }) ∷ done (record { name = name; path = name }) ∷ []

-- A stale file and a blob.
cleanup_stale_files-ok_example :
    let end = cleanup_stale_files memory config 10 littered in
    (fates : List Fate) × (end.0 ≡ ok (reported no_report fates))
    × MeetAll memory config.format.filename_suffix 1000 10 listed fates littered end.1
unfolding wide_path
cleanup_stale_files-ok_example = cleanup_stale_files-ok memory config 10 littered listed refl

stale_removed :
    (cleanup_stale_files memory config 10 littered).0
    ≡ ok (record { removed = stale ∷ []; skipped = []; failures = [] })
unfolding wide_path cleanup_stale_files clean_entries is_owned_temporary_filename split_once
stale_removed = refl

abbrev repeated : ℕ → List ℕ
repeated zero = []
repeated (suc n) = 171 ∷ repeated n

random_identifier-value_example :
    (identifier : List ℕ) × (random_identifier (value (repeated 32)) ≡ ok identifier)
    × (is_hex_64 identifier ≡ true)
    × (unhex identifier ≡ repeated 32)
random_identifier-value_example = random_identifier-value (repeated 32) refl (ground arith)

start_example : (initialize_platform memory [] [] config.format 64 4 full).0 ≡ ok config
unfolding initialize_platform
start_example = refl

initialize_platform-HasNamespace_example :
    (absolute : FilePath) × (memory.absolute [] full ≡ done absolute)
    × (memory.metadata absolute full ≡ done true)
    × HasNamespace memory (memory.join absolute []) full
    × (record {
      namespace = memory.join absolute [];
      format = config.format;
      maximum = 64;
      max_concurrent_operations = 4;
    }
        ≡ config)
initialize_platform-HasNamespace_example =
    initialize_platform-HasNamespace memory [] [] config.format 64 4 full config start_example
