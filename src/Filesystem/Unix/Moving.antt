-- ===== src/Filesystem/Unix/Moving.antt =====
-- The entries of the namespace before and after `quarantine_blob` of src/filesystem/mod.rs on Unix,
-- and that its loop ends.
use atomic_blob_store.Prelude.{
  ℕ, suc, ◌==◌, ◌≡◌, refl, ◌∙◌, subst, Bool, true, false, Option, none, some, List, length,
  if-holds, ==_iff, [],
}
use atomic_blob_store.Errors.{
  Result, err, QuarantineInfo, quarantine_namespace_sync, quarantine_source_missing,
}
use atomic_blob_store.Format.Reader.{IoResult, done, failed}
use atomic_blob_store.Format.Load.{ensure_namespace_available}
use atomic_blob_store.Filesystem.{FilePath, StoreConfig}
use atomic_blob_store.Filesystem.Actions.{Turn, lift, pure, and_run}
use atomic_blob_store.Filesystem.Files.{Entries}
use atomic_blob_store.Filesystem.Identifier.{Coded, value, code, hex}
use atomic_blob_store.Filesystem.Promises.{Moves}
use atomic_blob_store.Filesystem.Turns.{Turned, Ended, turns-Turned, tried, Taken, turns-ends}
use atomic_blob_store.Filesystem.Unix.{
  Unix, sync_quarantine_namespace, quarantine_path, after_rename, quarantine_drawn, quarantine_turn,
  quarantine_stem, quarantine_blob,
}
use atomic_blob_store.Filesystem.Names.{IsDistinct}
use atomic_blob_store.Filesystem.Unix.Lawful.{Lawful, Listed}
use atomic_blob_store.Filesystem.Unix.Clearing.{sync-holds}

module _ (os : Unix) (lawful : Lawful os) (config : StoreConfig) (path : FilePath) where
  open lawful use {files}

  -- The answer and the state are as they have to be after a start from the entries `f`.
  abbrev Quarantines : Entries (List ℕ) → Result QuarantineInfo → os.State → Type 0
  Quarantines f r s = Moves path r f (files s)

  missing-Moves :
      (namespace : IoResult Bool) (f : Entries (List ℕ)) (s : os.State)
      → files s ≡ f
      → let end =
          and_run
            (ensure_namespace_available namespace, s)
            λ _. lift (err quarantine_source_missing) in
        Moves path end.0 f (files end.1)
  missing-Moves (done true) f s e = e
  missing-Moves (done false) f s e = e
  missing-Moves (failed x) f s e = e

  after_rename-Turned :
      (info : QuarantineInfo) (s : os.State) (x : Coded (Unit {0}) × os.State)
      → os.rename_noreplace path info.diagnostic_path s ≡ x
      → Turned (λ s'. files s' ≡ files s) (Quarantines (files s)) (after_rename os config info x)
  unfolding sync_quarantine_namespace
  after_rename-Turned info s (value u, s') e =
      let (free, changed) = lawful.moved path info.diagnostic_path s s' e in
      sync-holds os lawful
        (λ out. let end = and_run out (λ _. pure info) in Moves path end.0 (files s) (files end.1))
        (quarantine_namespace_sync info) (quarantine_namespace_sync info) config.namespace s'
        (λ s₂ same. (free, same ∙ changed)) (λ x s₂ same. (free, same ∙ changed))
        (λ x s₂ same. (free, same ∙ changed))
  after_rename-Turned info s (code c, s') e =
      let same = lawful.not_moved path info.diagnostic_path c s s' e in
      let Q : Turn QuarantineInfo × os.State → Type 0 =
        Turned (λ s'. files s' ≡ files s) (Quarantines (files s)) in
      if-holds Q (c == os.noent)
        (λ _. missing-Moves (os.metadata config.namespace s') (files s) s' same)
        (λ _. if-holds Q (c == os.exist) (λ _. same) (λ _. same))

  quarantine_drawn-Turned :
      (hash : List ℕ) (f : Entries (List ℕ)) (x : Coded (List ℕ) × os.State)
      → files x.1 ≡ f
      → Turned (λ s'. files s' ≡ f) (Quarantines f) (quarantine_drawn os config path hash x)
  quarantine_drawn-Turned hash f (code c, s) e = e
  quarantine_drawn-Turned hash f (value bytes, s) e =
      let destination = quarantine_path os config hash (hex bytes) in
      let info : QuarantineInfo = record {
        identifier = hex bytes;
        diagnostic_path = destination;
      } in
      subst
        (λ f.
          Turned (λ s'. files s' ≡ f) (Quarantines f)
            (after_rename os config info (os.rename_noreplace path destination s)))
        e (after_rename-Turned info s (os.rename_noreplace path destination s) refl)

  quarantine_stem-Ended :
      (fuel : ℕ) (stem : Option (List ℕ)) (s : os.State)
      → Ended (Quarantines (files s)) (quarantine_stem os fuel config path stem s)
  quarantine_stem-Ended fuel none s = refl
  quarantine_stem-Ended fuel (some hash) s =
      turns-Turned (quarantine_turn os config path hash) (λ s'. files s' ≡ files s)
        (Quarantines (files s))
        (λ s' same. quarantine_drawn-Turned hash (files s) (os.fill s') (lawful.filled s' ∙ same))
        fuel s refl

  -- A quarantine on Unix that returns, whatever of the calls below it fails: when it succeeds, or
  -- reports that the sync of the directory failed, the entry has moved to the name that the answer
  -- tells, which was free, and every other entry holds what it held; when it fails otherwise,
  -- nothing has changed.
  pub quarantine_blob-Moves :
      (fuel : ℕ) (s : os.State)
      → Ended (λ r s'. Moves path r (files s) (files s')) (quarantine_blob os fuel config path s)
  unfolding quarantine_blob
  quarantine_blob-Moves fuel s = quarantine_stem-Ended fuel (os.file_stem path) s

module _ (os : Unix) (config : StoreConfig) (path : FilePath) (hash : List ℕ) where
  -- The name that a turn from the answer of `getrandom` tries.
  abbrev drawn_path : Coded (List ℕ) → FilePath
  drawn_path (value bytes) = quarantine_path os config hash (hex bytes)
  drawn_path (code c) = []

  abbrev pub next_path : os.State → FilePath
  next_path s = drawn_path (os.fill s).0

  module _ (listed : Listed os) where
    open listed use {names}

    after_rename-Taken :
        (info : QuarantineInfo) (s : os.State) (x : Coded (Unit {0}) × os.State)
        → os.rename_noreplace path info.diagnostic_path s ≡ x
        → Taken
            (quarantine_turn os config path hash)
            next_path
            (λ s'. names s' ≡ names s)
            (names s)
            info.diagnostic_path
            (after_rename os config info x)
    after_rename-Taken info s (value u, s') e = tt
    after_rename-Taken info s (code c, s') e =
        let Q : Turn QuarantineInfo × os.State → Type 0 =
          Taken (quarantine_turn os config path hash) next_path (λ s'. names s' ≡ names s) (names s)
            info.diagnostic_path in
        if-holds Q (c == os.noent) (λ _. tt)
          (λ _.
            if-holds Q (c == os.exist)
              (λ h. (
                listed.not_moved path info.diagnostic_path c s s' e,
                listed.existing path info.diagnostic_path c s s' e ((==_iff c os.exist).0 h),
              ))
              (λ _. tt))

    quarantine_drawn-Taken :
        (l : List FilePath) (x : Coded (List ℕ) × os.State)
        → names x.1 ≡ l
        → Taken
            (quarantine_turn os config path hash)
            next_path
            (λ s'. names s' ≡ l)
            l
            (drawn_path x.0)
            (quarantine_drawn os config path hash x)
    quarantine_drawn-Taken l (code c, s) e = tt
    quarantine_drawn-Taken l (value bytes, s) e =
        let destination = quarantine_path os config hash (hex bytes) in
        let info : QuarantineInfo = record {
          identifier = hex bytes;
          diagnostic_path = destination;
        } in
        subst
          (λ l.
            Taken (quarantine_turn os config path hash) next_path (λ s'. names s' ≡ l) l destination
              (after_rename os config info (os.rename_noreplace path destination s)))
          e (after_rename-Taken info s (os.rename_noreplace path destination s) refl)

    -- On Unix, the loop of a quarantine whose path has the stem `hash` ends: where the names that it
    -- would try in one more turn than the namespace has entries all differ, it returns in so many
    -- turns. The fuel counts the turns.
    pub quarantine_blob-ends :
        (s : os.State)
        → os.file_stem path ≡ some hash
        → IsDistinct
            (tried (quarantine_turn os config path hash) next_path (suc (length (names s))) s)
        → (out : Result QuarantineInfo × os.State) × (quarantine_blob os
              (suc (length (names s)))
              config
              path
              s
            ≡ some out)
    unfolding quarantine_blob
    quarantine_blob-ends s stem distinct = rw stem (
        turns-ends (quarantine_turn os config path hash) next_path (λ s'. names s' ≡ names s)
          (names s)
          (λ s' same. quarantine_drawn-Taken (names s) (os.fill s') (listed.filled s' ∙ same)) s
          refl distinct)
