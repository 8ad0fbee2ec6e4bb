-- ===== src/Filesystem/Promises.antt =====
-- What the operations of src/filesystem/mod.rs promise, told of what is stored under each name and
-- not of how it is written there.
use atomic_blob_store.Prelude.{
  ℕ, ◌≡◌, ◌⊎◌, inl, inr, ap, Bool, true, false, ◌||◌, Option, none, some, List, length,
}
use atomic_blob_store.Errors.{
  StoreError, StoreOperation, Result, ok, err, map_ok, io, BlobMetadata, QuarantineInfo,
  atomic_commit, quarantine_namespace_sync,
}
use atomic_blob_store.Filesystem.{FilePath}
use atomic_blob_store.Filesystem.Files.{Entries, renamed}

-- The error of a commit.
abbrev pub is_commit_error : StoreError → Bool
is_commit_error (atomic_commit e) = true
is_commit_error _ = false

-- The errors of the sync of the namespace directory.
abbrev pub is_sync_error : StoreError → Bool
is_sync_error (io StoreOperation.open_namespace_directory e) = true
is_sync_error (io StoreOperation.sync_namespace_directory e) = true
is_sync_error _ = false

-- The error of a commit, or of the sync behind it.
abbrev pub is_commit_or_sync_error : StoreError → Bool
is_commit_or_sync_error e = is_commit_error e || is_sync_error e

-- A change that is made on success, and may have been made where a late error is reported.
abbrev pub Updates :
    {F : Type 0} → (StoreError → Bool) → (F → F → Type 0) → Result (Unit {0}) → F → F → Type 0
Updates is_late Change (ok u) before after = Change before after
Updates is_late Change (err e) before after =
    (after ≡ before) ⊎ ((is_late e ≡ true) × Change before after)

pub Updates-map :
    {F G : Type 0} (late : StoreError → Bool) (g : F → G) (C : F → F → Type 0) (D : G → G → Type 0)
    → ((f f' : F) → C f f' → D (g f) (g f'))
    → (r : Result (Unit {0})) (f f' : F) → Updates late C r f f'
    → Updates late D r (g f) (g f')
Updates-map late g C D h (ok u) f f' c = h f f' c
Updates-map late g C D h (err e) f f' (inl same) = inl (ap g same)
Updates-map late g C D h (err e) f f' (inr (told, c)) = inr (told, h f f' c)

-- A quarantine moves the entry to a name that was free, and tells the name.
abbrev pub Moves : {A : Type 0} → FilePath → Result QuarantineInfo → Entries A → Entries A → Type 0
Moves path (ok info) before after =
    (before info.diagnostic_path ≡ none) × (after ≡ renamed path info.diagnostic_path before)
Moves path (err (quarantine_namespace_sync info e)) before after =
    (before info.diagnostic_path ≡ none) × (after ≡ renamed path info.diagnostic_path before)
Moves path (err e) before after = after ≡ before

-- What is stored: under each name nothing, a payload, or bytes that do not decode, with the error.
abbrev pub Contents : Type 0
Contents = Entries (Result (List ℕ))

-- The answer of a load by what is stored.
abbrev pub reading : Option (Result (List ℕ)) → Result (Option (List ℕ))
reading none = ok none
reading (some r) = map_ok some r

abbrev pub metadata_of : Option (List ℕ) → Option BlobMetadata
metadata_of none = none
metadata_of (some p) = some (record { payload_len = length p })

-- A load that succeeds tells what is stored.
abbrev pub Tells : {A : Type 0} → Result A → Result A → Type 0
Tells {A} stored r = (a : A) → r ≡ ok a → stored ≡ ok a
