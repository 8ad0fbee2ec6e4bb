-- ===== src/Filesystem/Windows/Saving.antt =====
-- The files of the namespace before and after `save_blob` of src/filesystem/mod.rs on Windows.
use atomic_blob_store.Prelude.{
  ℕ, ◌≡◌, refl, sym, ap, ◌∙◌, subst, inl, inr, false, some, List, [], ◌∷◌, concat, if-holds,
}
use atomic_blob_store.Errors.{
  StoreError, Result, ok, err, io, Result-cases, already_exists, sync_namespace_directory,
}
use atomic_blob_store.Format.Crc.{Crc32c}
use atomic_blob_store.Format.Encode.{envelope_parts, encode_envelope}
use atomic_blob_store.Filesystem.{FilePath, StoreConfig}
use atomic_blob_store.Filesystem.Actions.{or_fail, Turn, identified, and_run, IoResult-cases}
use atomic_blob_store.Filesystem.Inspect.{is_kind}
use atomic_blob_store.Filesystem.Identifier.{Coded, value, code, hex}
use atomic_blob_store.Filesystem.Promises.{Updates, is_commit_or_sync_error}
use atomic_blob_store.Filesystem.Turns.{Turned, Ended, turns-Turned}
use atomic_blob_store.Filesystem.Unix.Saving.{encoded}
use atomic_blob_store.Filesystem.Windows.{Windows}
use atomic_blob_store.Filesystem.Windows.Lawful.{Lawful}
use atomic_blob_store.Filesystem.Windows.Operations.{
  staging_path, create_windows_staging, sync_windows_directory,
}
use atomic_blob_store.Filesystem.Windows.Staging.{save_kind}
use atomic_blob_store.Filesystem.Windows.Blobs.{commit_staging, after_staging, save_blob}
use atomic_blob_store.Filesystem.Windows.Staged.{
  staging, Spared, spared, spared_put, view, synced, create-holds, commit-holds,
}

module _ (os : Windows) (config : StoreConfig) (path : FilePath) (hash : List ℕ)
    (lawful : Lawful os) where
  open lawful use {files}

  module _ (crc : Crc32c) (payload : List ℕ) where
    -- The name of the path holds the encoding of the payload, every other spared name what it held.
    abbrev pub Stores : Spared os config path hash → Spared os config path hash → Type 0
    Stores before after =
        (e : List ℕ) × (encode_envelope crc config.format payload config.maximum ≡ ok e)
        × (after ≡ spared_put os config path hash e before)

    abbrev Saves : Spared os config path hash → Result (Unit {0}) → os.State → Type 0
    Saves before r s =
        Updates is_commit_or_sync_error Stores r before (view os config path hash lawful s)

    abbrev SavesTurn : Spared os config path hash → Turn (Unit {0}) × os.State → Type 0
    SavesTurn before = Turned (λ s. view os config path hash lawful s ≡ before) (Saves before)

    commit_staging-Saves :
        (identifier e : List ℕ) (s : os.State)
        → encode_envelope crc config.format payload config.maximum ≡ ok e
        → files s (staging os config path hash identifier) ≡ some e
        → let end =
            commit_staging os config (staging_path os config save_kind hash identifier) path s in
          Saves (view os config path hash lawful s) end.0 end.1
    commit_staging-Saves identifier e s encodes held =
        commit-holds os config path hash lawful
          (λ out.
            let end =
              and_run out
                (λ _. or_fail (io sync_namespace_directory) (sync_windows_directory os config)) in
            Saves (view os config path hash lawful s) end.0 end.1)
          identifier e s held
          (λ s' changed. elim (IoResult-cases (sync_windows_directory os config s')) [
            | inl (u, s₂, k) ↦ rw k (
              e,
              encodes,
              ap (λ x. view os config path hash lawful x.1) (sym k)
                  ∙ ap (spared os config path hash) (synced os config path hash lawful s')
                  ∙ changed,
            )
            | inr (x, s₂, k) ↦ rw k (
                inr (
                  refl,
                  (
                    e,
                    encodes,
                    ap (λ x. view os config path hash lawful x.1) (sym k)
                        ∙ ap (spared os config path hash) (synced os config path hash lawful s')
                        ∙ changed,
                  ),
                ))
          ])
          (λ x s' same. inl same) (λ x s' changed. inr (refl, (e, encodes, changed)))

    refused :
        (at : FilePath) (before : Spared os config path hash) (x : StoreError) (s : os.State)
        → view os config path hash lawful s ≡ before
        → SavesTurn before (after_staging os false config path at (err x, s))
    refused at before (io operation e) s same =
        if-holds (SavesTurn before) (is_kind e.kind already_exists) (λ _. same) (λ _. inl same)
    refused at before _ s same = inl same

    save_turn-Saves :
        (before : Spared os config path hash) (header checksum : List ℕ)
        (x : Coded (List ℕ) × os.State)
        → encode_envelope crc config.format payload config.maximum
          ≡ ok (concat (header ∷ payload ∷ checksum ∷ []))
        → view os config path hash lawful x.1 ≡ before
        → SavesTurn before (
            identified x λ identifier s.
              after_staging os false config path
                (staging_path os config save_kind hash identifier)
                (create_windows_staging os
                  (staging_path os config save_kind hash identifier)
                  header
                  payload
                  checksum
                  s))
    save_turn-Saves before header checksum (code c, s) encodes same = inl same
    save_turn-Saves before header checksum (value bytes, s) encodes same =
        let at = staging_path os config save_kind hash (hex bytes) in
        create-holds os config path hash lawful
          (λ out. SavesTurn before (after_staging os false config path at out)) (hex bytes) header
          payload checksum s
          (λ s' e held.
            subst
              (λ (b : Spared os config path hash).
                let end = commit_staging os config at path s' in Saves b end.0 end.1)
              (e ∙ same) (commit_staging-Saves (hex bytes) _ s' encodes held))
          (λ x s' e. refused at before x s' (e ∙ same))

    -- A save on Windows that returns, whatever of the calls below it fails, seen on the names
    -- that none of its staging files has: when it succeeds, the name of its path holds the
    -- encoding of the payload and every other name what it held; when it fails, nothing has
    -- changed, unless the error is that of the commit or of the sync of the directory, and then
    -- either nothing has changed or the new blob is there in full. A move that fails may have been
    -- made all the same. The stem of the path is `hash`.
    pub save_blob-Stores :
        (fuel : ℕ) (s : os.State)
        → os.file_stem path ≡ some hash
        → Ended
            (λ r s'.
              Updates is_commit_or_sync_error Stores r
                (view os config path hash lawful s)
                (view os config path hash lawful s'))
            (save_blob os crc fuel config path payload s)
    unfolding save_blob
    save_blob-Stores fuel s stem =
        elim (Result-cases (envelope_parts crc config.format payload config.maximum)) [
          | inr (x, k) ↦ rw k (inl refl)
          | inl (parts, k) ↦
              rw (k, stem)
                (turns-Turned _
                  (λ s'. view os config path hash lawful s' ≡ view os config path hash lawful s)
                  (Saves (view os config path hash lawful s))
                  (λ s' same.
                    save_turn-Saves (view os config path hash lawful s) parts.0 parts.1 (os.fill s')
                      (encoded crc config payload parts k)
                      (ap (spared os config path hash) (lawful.filled s') ∙ same))
                  fuel s refl)
        ]
