-- ===== src/Filesystem/Unix/Clearing.antt =====
-- The entries of the namespace before and after `clear_blob` of src/filesystem/mod.rs on Unix.
use atomic_blob_store.Prelude.{ℕ, ◌≡◌, refl, sym, ap, ◌∙◌, inl, inr, none, List, if-holds}
use atomic_blob_store.Errors.{
  Result, ok, err, io, open_namespace_directory, sync_namespace_directory, StoreError, IoError,
  not_found,
}
use atomic_blob_store.Format.Load.{ensure_namespace_available}
use atomic_blob_store.Filesystem.{FilePath, StoreConfig}
use atomic_blob_store.Filesystem.Actions.{or_fail, ◌>>◌, IoResult-cases}
use atomic_blob_store.Filesystem.Inspect.{is_kind}
use atomic_blob_store.Filesystem.Files.{Entries, put, put-none}
use atomic_blob_store.Filesystem.Promises.{Updates, is_sync_error}
use atomic_blob_store.Filesystem.Unix.{Unix, sync_directory, clear_blob}
use atomic_blob_store.Filesystem.Unix.Lawful.{Lawful}

module _ (os : Unix) (lawful : Lawful os) where
  open lawful use {files}

  -- Whatever holds of the three ways in which opening and syncing a directory can end, each with
  -- the entries that were there.
  pub sync-holds :
      (Q : Result (Unit {0}) × os.State → Type 0) (opening syncing : IoError → StoreError)
      (directory : FilePath) (s : os.State)
      → ((s' : os.State) → files s' ≡ files s → Q (ok tt, s'))
      → ((e : IoError) (s' : os.State) → files s' ≡ files s → Q (err (opening e), s'))
      → ((e : IoError) (s' : os.State) → files s' ≡ files s → Q (err (syncing e), s'))
      → Q (
          (or_fail opening (os.open_directory directory) >> or_fail syncing (os.sync_all directory))
            s)
  sync-holds Q opening syncing directory s good unopened unsynced =
      elim (IoResult-cases (os.open_directory directory s)) [
        | inr (e, s₁, h) ↦
            rw h (unopened e s₁ (ap (λ x. files x.1) (sym h) ∙ lawful.directory_opened directory s))
        | inl (u, s₁, h) ↦
            let first = ap (λ x. files x.1) (sym h) ∙ lawful.directory_opened directory s in
            elim (IoResult-cases (os.sync_all directory s₁)) [
              | inr (e, s₂, k) ↦
                  rw (h, k)
                    (unsynced e s₂
                      (ap (λ x. files x.1) (sym k) ∙ lawful.synced directory s₁ ∙ first))
              | inl (v, s₂, k) ↦
                  rw (h, k)
                    (good s₂ (ap (λ x. files x.1) (sym k) ∙ lawful.synced directory s₁ ∙ first))
            ]
      ]

  still_absent :
      {F : Type 0} (C : F → F → Type 0) (r : Result (Unit {0})) {f f' : F}
      → f' ≡ f
      → C f f'
      → Updates is_sync_error C r f f'
  still_absent C (ok u) e c = c
  still_absent C (err x) e c = inl e

  -- A clear on Unix, whatever of the calls below it fails: when it succeeds, nothing is left under
  -- its path and every other entry holds what it held; when it fails, nothing has changed, unless
  -- the error is that of opening or syncing the directory, and then the entry may be gone.
  pub clear_blob-Updates :
      (config : StoreConfig) (path : FilePath) (s : os.State)
      → let end = clear_blob os config path s in
        Updates is_sync_error
          (λ before after. after ≡ put path none before)
          end.0
          (files s)
          (files end.1)
  unfolding clear_blob sync_directory
  clear_blob-Updates config path s =
      let C : Entries (List ℕ) → Entries (List ℕ) → Type 0 =
        λ before after. after ≡ put path none before in
      elim (IoResult-cases (os.remove_file path s)) [
        | inl (u, s', e) ↦
            let gone = lawful.removed path s s' e in
            rw e (
              sync-holds (λ end. Updates is_sync_error C end.0 (files s) (files end.1))
                (io open_namespace_directory) (io sync_namespace_directory) config.namespace s'
                (λ s₂ same. same ∙ gone) (λ x s₂ same. inr (refl, same ∙ gone))
                (λ x s₂ same. inr (refl, same ∙ gone)))
        | inr (x, s', e) ↦
            let (same, missing) = lawful.not_removed path x s s' e in
            rw e (
              if-holds
                (λ (end : Result (Unit {0}) × os.State).
                  Updates is_sync_error C end.0 (files s) (files end.1))
                (is_kind x.kind not_found)
                (λ m.
                  still_absent C (ensure_namespace_available (os.metadata config.namespace s')) same
                    (same ∙ sym (put-none path (files s) (missing m))))
                (λ m. inl same))
      ]
