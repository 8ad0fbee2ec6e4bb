-- ===== src/Filesystem/Windows/Cleanup.antt =====
-- `cleanup_stale_files` of src/filesystem/mod.rs on Windows.
pub mod Report
use atomic_blob_store.Prelude.{
  ℕ, suc, ◌+◌, ◌-◌, ◌≡◌, refl, ap, sym, ◌∙◌, Bool, true, false, ◌&&◌, leb, if◌then◌else◌, Option,
  none, some, List, [], ◌∷◌, ◌++◌, length, All, All-append, length-append, if-holds, arith,
  Bool-cases, inl, inr,
}
use atomic_blob_store.Errors.{
  IoError, other, Result, ok, err, io, CleanupReport, CleanupFailure, enumerate_temporary_files,
}
use atomic_blob_store.Format.Reader.{IoResult, done, failed, plain_error}
use atomic_blob_store.Filesystem.{FilePath, StoreConfig}
use atomic_blob_store.Filesystem.Actions.{Action}
use atomic_blob_store.Filesystem.Inspect.{Metadata}
use atomic_blob_store.Filesystem.Windows.{Windows, Entry}
use atomic_blob_store.Filesystem.Windows.Operations.{delete_file}
use atomic_blob_store.Filesystem.Windows.Staging.{is_owned_temporary_filename}

abbrev pub directory_entry : List ℕ
directory_entry =
    b'<' ∷ b'd' ∷ b'i' ∷ b'r' ∷ b'e' ∷ b'c' ∷ b't' ∷ b'o' ∷ b'r' ∷ b'y' ∷ b'-' ∷ b'e' ∷ b'n' ∷ b't'
    ∷ b'r' ∷ b'y' ∷ b'>' ∷ []

abbrev pub push_removed : List ℕ → CleanupReport → CleanupReport
push_removed name report = record report { removed = report.removed ++ (name ∷ []) }

abbrev pub push_skipped : List ℕ → CleanupReport → CleanupReport
push_skipped name report = record report { skipped = report.skipped ++ (name ∷ []) }

abbrev pub push_failure : List ℕ → IoError → CleanupReport → CleanupReport
push_failure name e report = record report {
  failures = report.failures ++ (record { identifier = name; source = e } ∷ []);
}

-- `duration_since` fails for a time in the future.
abbrev pub is_old_enough : ℕ → ℕ → IoResult ℕ → Bool
is_old_enough now minimum_age (done modified) = leb modified now && leb minimum_age (now - modified)
is_old_enough now minimum_age (failed e) = false

abbrev pub no_report : CleanupReport
no_report = record { removed = []; skipped = []; failures = [] }

module _ (os : Windows) where
  open os use {State}

  abbrev pub deleted : List ℕ → CleanupReport → IoResult (Unit {0}) × State → CleanupReport × State
  deleted name report (done u, s) = (push_removed name report, s)
  deleted name report (failed e, s) = (push_failure name e report, s)

  -- An owned entry, by its metadata.
  abbrev pub clean_owned :
      ℕ → ℕ → Entry → IoResult Metadata → CleanupReport → State → CleanupReport × State
  clean_owned now minimum_age entry (failed e) report s = (push_failure entry.name e report, s)
  clean_owned now minimum_age entry (done metadata) report s =
      if metadata.is_file
      then (if is_old_enough now minimum_age metadata.modified
          then deleted entry.name report (delete_file os entry.path s)
          else (push_skipped entry.name report, s))
      else (push_failure entry.name (plain_error other) report, s)

  abbrev pub clean_entry :
      List ℕ → ℕ → ℕ → IoResult Entry → CleanupReport → State → CleanupReport × State
  clean_entry suffix now minimum_age (failed e) report s =
      (push_failure directory_entry e report, s)
  clean_entry suffix now minimum_age (done entry) report s =
      if is_owned_temporary_filename entry.name suffix
      then clean_owned now minimum_age entry (os.symlink_metadata entry.path s) report s
      else (report, s)

  unfoldable pub clean_entries :
      List ℕ → ℕ → ℕ → List (IoResult Entry) → CleanupReport → State → CleanupReport × State
  clean_entries suffix now minimum_age [] report s = (report, s)
  clean_entries suffix now minimum_age (entry ∷ entries) report s =
      let (report', s') = clean_entry suffix now minimum_age entry report s in
      clean_entries suffix now minimum_age entries report' s'

  abbrev pub clean_listed :
      StoreConfig → ℕ → ℕ → IoResult (List (IoResult Entry)) → Action State CleanupReport
  clean_listed config now minimum_age (failed e) s = (err (io enumerate_temporary_files e), s)
  clean_listed config now minimum_age (done entries) s =
      let (report, s') =
        clean_entries config.format.filename_suffix now minimum_age entries no_report s in
      (ok report, s')

  unfoldable pub cleanup_stale_files : StoreConfig → ℕ → Action State CleanupReport
  cleanup_stale_files config minimum_age s =
      clean_listed config (os.now s) minimum_age (os.read_dir config.namespace s) s
