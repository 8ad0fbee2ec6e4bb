-- ===== src/Filesystem/Windows/Cleanup/Report.antt =====
-- What `cleanup_stale_files` of src/filesystem/mod.rs reports on Windows, and what it removes.
use atomic_blob_store.Prelude.{
  ℕ, ◌+◌, ◌≤◌, arith, ◌≡◌, ◌⊎◌, refl, ap, ◌∙◌, true, false, List, [], ◌∷◌, ◌++◌, Bool-cases, inl,
  inr, append-nil, append_assoc,
}
use atomic_blob_store.Errors.{ok, CleanupReport, CleanupFailure, IoError, other}
use atomic_blob_store.Format.Reader.{IoResult, done, failed, plain_error}
use atomic_blob_store.Filesystem.{StoreConfig}
use atomic_blob_store.Filesystem.Actions.{IoResult-cases}
use atomic_blob_store.Filesystem.Inspect.{Metadata}
use atomic_blob_store.Filesystem.Windows.{Windows, Entry}
use atomic_blob_store.Filesystem.Windows.Operations.{delete_file}
use atomic_blob_store.Filesystem.Windows.Staging.{is_owned_temporary_filename}
use atomic_blob_store.Filesystem.Windows.Cleanup.{
  is_old_enough, deleted, clean_owned, clean_entry, clean_entries, no_report, cleanup_stale_files,
  directory_entry, push_removed, push_skipped, push_failure,
}

-- What becomes of an entry: it is passed over, or its name is reported.
pub data Fate : Type 0 where
  ignored : Fate
  removed skipped : List ℕ → Fate
  failure : List ℕ → IoError → Fate

abbrev pub removed_of : List Fate → List (List ℕ)
removed_of [] = []
removed_of (removed name ∷ fates) = name ∷ removed_of fates
removed_of (_ ∷ fates) = removed_of fates

abbrev pub skipped_of : List Fate → List (List ℕ)
skipped_of [] = []
skipped_of (skipped name ∷ fates) = name ∷ skipped_of fates
skipped_of (_ ∷ fates) = skipped_of fates

abbrev pub failures_of : List Fate → List CleanupFailure
failures_of [] = []
failures_of (failure name e ∷ fates) = record { identifier = name; source = e } ∷ failures_of fates
failures_of (_ ∷ fates) = failures_of fates

-- The report of some fates, behind a report.
abbrev pub reported : CleanupReport → List Fate → CleanupReport
reported report fates = record {
  removed = report.removed ++ removed_of fates;
  skipped = report.skipped ++ skipped_of fates;
  failures = report.failures ++ failures_of fates;
}

abbrev pushed : Fate → CleanupReport → CleanupReport
pushed ignored report = report
pushed (removed name) report = push_removed name report
pushed (skipped name) report = push_skipped name report
pushed (failure name e) report = push_failure name e report

reported-pushed :
    (fate : Fate) (report : CleanupReport) (fates : List Fate)
    → reported (pushed fate report) fates ≡ reported report (fate ∷ fates)
reported-pushed ignored report fates = refl
reported-pushed (removed name) report fates =
    rw (append_assoc report.removed (name ∷ []) (removed_of fates))
reported-pushed (skipped name) report fates =
    rw (append_assoc report.skipped (name ∷ []) (skipped_of fates))
reported-pushed (failure name e) report fates = rw (
    append_assoc report.failures (record { identifier = name; source = e } ∷ [])
      (failures_of fates))

reported-nil : (report : CleanupReport) → report ≡ reported report []
reported-nil report =
    rw (append-nil report.removed, append-nil report.skipped, append-nil report.failures)

module _ (os : Windows) (suffix : List ℕ) (now minimum_age : ℕ) where
  -- A file with the name of a staging file, and whether it is regular and old enough.
  abbrev pub IsOwned : Entry → Metadata → os.State → Type 0
  IsOwned entry m s =
      (is_owned_temporary_filename entry.name suffix ≡ true)
      × (os.symlink_metadata entry.path s ≡ done m)

  -- At least as old as asked; a file from the future, or of an unknown time, is not.
  abbrev pub IsOld : Metadata → Type 0
  IsOld m = (t : ℕ) × (m.modified ≡ done t) × (t + minimum_age ≤ now)

  is_old_enough-IsOld :
      (m : Metadata) (x : IoResult ℕ)
      → m.modified ≡ x
      → is_old_enough now minimum_age x ≡ true
      → IsOld m
  is_old_enough-IsOld m (done t) e h = (t, e, ground (arith, h))
  is_old_enough-IsOld m (failed x) e h = absurd (cc)

  too_young : (m : Metadata) → is_old_enough now minimum_age m.modified ≡ false → ¬ IsOld m
  too_young m h (t, e, old) = ground (arith, old, rw e at h)

  abbrev pub IsStale : Entry → os.State → Type 0
  IsStale entry s = (m : Metadata) × IsOwned entry m s × (m.is_file ≡ true) × IsOld m

  -- Why a staging file fails to be removed.
  abbrev pub Fails : Entry → IoError → os.State → os.State → Type 0
  Fails entry e s s' =
      ((is_owned_temporary_filename entry.name suffix ≡ true)
        × (os.symlink_metadata entry.path s ≡ failed e)
        × (s' ≡ s))
      ⊎ (((m : Metadata) × IsOwned entry m s
            × (m.is_file ≡ false)
            × (e ≡ plain_error other)
            × (s' ≡ s))
          ⊎ (IsStale entry s × (delete_file os entry.path s ≡ (failed e, s'))))

  -- The fate of an entry that is met in one state and left in another.
  abbrev pub Meets : IoResult Entry → Fate → os.State → os.State → Type 0
  Meets (failed x) (failure name e) s s' = (name ≡ directory_entry) × (e ≡ x) × (s' ≡ s)
  Meets (done entry) ignored s s' =
      (is_owned_temporary_filename entry.name suffix ≡ false) × (s' ≡ s)
  Meets (done entry) (removed name) s s' =
      (name ≡ entry.name) × IsStale entry s × (delete_file os entry.path s ≡ (done tt, s'))
  Meets (done entry) (skipped name) s s' =
      (name ≡ entry.name)
      × ((m : Metadata) × IsOwned entry m s × (m.is_file ≡ true) × (¬ IsOld m))
      × (s' ≡ s)
  Meets (done entry) (failure name e) s s' = (name ≡ entry.name) × Fails entry e s s'
  Meets _ _ s s' = ⊥

  -- The entries one after the other, each with its fate.
  abbrev pub MeetAll : List (IoResult Entry) → List Fate → os.State → os.State → Type 0
  MeetAll [] [] s s' = s' ≡ s
  MeetAll (x ∷ xs) (fate ∷ fates) s s' =
      (s₁ : os.State) × Meets x fate s s₁ × MeetAll xs fates s₁ s'
  MeetAll _ _ s s' = ⊥

  abbrev Cleans : IoResult Entry → CleanupReport → os.State → CleanupReport × os.State → Type 0
  Cleans x report s out = (fate : Fate) × (out.0 ≡ pushed fate report) × Meets x fate s out.1

  deleted-Cleans :
      (entry : Entry) (report : CleanupReport) (s : os.State)
      → IsStale entry s
      → Cleans (done entry) report s (deleted os entry.name report (delete_file os entry.path s))
  deleted-Cleans entry report s stale = elim (IoResult-cases (delete_file os entry.path s)) [
    | inl (u, s', e) ↦ rw e (removed entry.name, refl, (refl, stale, e))
    | inr (x, s', e) ↦ rw e (failure entry.name x, refl, (refl, inr (inr (stale, e))))
  ]

  clean_owned-Cleans :
      (entry : Entry) (report : CleanupReport) (s : os.State) (x : IoResult Metadata)
      → os.symlink_metadata entry.path s ≡ x
      → is_owned_temporary_filename entry.name suffix ≡ true
      → Cleans (done entry) report s (clean_owned os now minimum_age entry x report s)
  clean_owned-Cleans entry report s (failed e) h owned =
      (failure entry.name e, refl, (refl, inl (owned, h, refl)))
  clean_owned-Cleans entry report s (done m) h owned = elim (Bool-cases m.is_file) [
    | inr special ↦ rw special (
      failure entry.name (plain_error other),
      refl,
      (refl, inr (inl (m, (owned, h), special, refl, refl))),
    )
    | inl file ↦ elim (Bool-cases (is_old_enough now minimum_age m.modified)) [
      | inl old ↦
          rw (file, old)
            (deleted-Cleans entry report s
              (m, (owned, h), file, is_old_enough-IsOld m m.modified refl old))
      | inr young ↦
          rw (file, young)
            (skipped entry.name, refl, (refl, (m, (owned, h), file, too_young m young), refl))
    ]
  ]

  clean_entry-Cleans :
      (x : IoResult Entry) (report : CleanupReport) (s : os.State)
      → Cleans x report s (clean_entry os suffix now minimum_age x report s)
  clean_entry-Cleans (failed e) report s = (failure directory_entry e, refl, (refl, refl, refl))
  clean_entry-Cleans (done entry) report s =
      elim (Bool-cases (is_owned_temporary_filename entry.name suffix)) [
        | inl owned ↦
            rw owned
              (clean_owned-Cleans entry report s (os.symlink_metadata entry.path s) refl owned)
        | inr foreign ↦ rw foreign (ignored, refl, (foreign, refl))
      ]

  clean_entries-Cleans :
      (entries : List (IoResult Entry)) (report : CleanupReport) (s : os.State)
      → let out = clean_entries os suffix now minimum_age entries report s in
        (fates : List Fate) × (out.0 ≡ reported report fates) × MeetAll entries fates s out.1
  unfolding clean_entries
  clean_entries-Cleans [] report s = ([], reported-nil report, refl)
  clean_entries-Cleans (x ∷ xs) report s =
      let (report', s') = clean_entry os suffix now minimum_age x report s in
      let (fate, first, met) = clean_entry-Cleans x report s in
      let (fates, rest, all) = clean_entries-Cleans xs report' s' in
      (
        fate ∷ fates,
        rest ∙ ap (λ r. reported r fates) first ∙ reported-pushed fate report fates,
        (s', met, all),
      )

-- A cleanup on Windows that could list the namespace meets every listed entry once, in order, and
-- its report is made of what became of them, in that order: the name of an entry is under removed
-- where it is a regular file with the name of a staging file, at least as old as asked, and was
-- deleted; under skipped where it is such a file that is younger; under failures, with the error,
-- where its metadata could not be read, where it is no regular file, or where its deletion failed;
-- an entry that could not be listed is a failure as well, and an entry with another name is nowhere.
-- The state changes by those deletions alone.
pub cleanup_stale_files-ok :
    (os : Windows) (config : StoreConfig) (minimum_age : ℕ) (s : os.State)
    (entries : List (IoResult Entry))
    → os.read_dir config.namespace s ≡ done entries
    → let end = cleanup_stale_files os config minimum_age s in
      (fates : List Fate) × (end.0 ≡ ok (reported no_report fates))
      × MeetAll os config.format.filename_suffix (os.now s) minimum_age entries fates s end.1
unfolding cleanup_stale_files
cleanup_stale_files-ok os config minimum_age s entries listed =
    let (fates, same, met) =
      clean_entries-Cleans os config.format.filename_suffix (os.now s) minimum_age entries no_report
        s in
    rw listed (fates, ap ok same, met)
