-- ===== src/Filesystem/Windows/Staged.antt =====
-- The staging files of a save of src/filesystem/mod.rs on Windows, and what other names hold meanwhile.
use atomic_blob_store.Prelude.{
  ℕ, ◌≡◌, refl, sym, ap, ◌∙◌, inl, inr, false, if◌then◌else◌, Option, some, List, [], ◌∷◌, ◌++◌,
  concat, if-holds,
}
use atomic_blob_store.Errors.{IoError, StoreError, Result, ok, err, atomic_commit}
use atomic_blob_store.Format.Reader.{IoResult, done, failed}
use atomic_blob_store.Format.Decode.{bytes_eq}
use atomic_blob_store.Format.Stream.{Writer}
use atomic_blob_store.Filesystem.{FilePath, StoreConfig}
use atomic_blob_store.Filesystem.Actions.{IoResult-cases}
use atomic_blob_store.Filesystem.Files.{Entries, put, renamed, put_same, put_other}
use atomic_blob_store.Filesystem.Unix.{write_sections}
use atomic_blob_store.Filesystem.Unix.Saving.{write_sections-ok}
use atomic_blob_store.Filesystem.Windows.{
  Windows, MoveFlags, write_through, replace_existing_write_through,
}
use atomic_blob_store.Filesystem.Windows.Lawful.{Lawful}
use atomic_blob_store.Filesystem.Windows.Operations.{
  wide, staging_path, create_windows_staging, flush_staging, closing, commit_windows_staging,
  sync_windows_directory, is_taken,
}
use atomic_blob_store.Filesystem.Windows.Staging.{save_kind}
use mathlib.Core.Path.{fun_ext}

module _ (os : Windows) (config : StoreConfig) (path : FilePath) (hash : List ℕ) where
  abbrev pub staging : List ℕ → List ℕ
  staging identifier = wide os (staging_path os config save_kind hash identifier)

  -- A name that no staging file of a save of this path has.
  abbrev pub IsSpared : List ℕ → Type 0
  IsSpared q = (identifier : List ℕ) → bytes_eq q (staging identifier) ≡ false

  -- What is under those names.
  abbrev pub Spared : Type 0
  Spared = (q : List ℕ) → IsSpared q → Option (List ℕ)

  unfoldable pub spared : Entries (List ℕ) → Spared
  spared f = λ q h. f q

  abbrev pub spared_put : List ℕ → Spared → Spared
  spared_put e f = λ q h. if bytes_eq q (wide os path) then some e else f q h

  spared-put :
      (identifier : List ℕ) (v : Option (List ℕ)) (f : Entries (List ℕ))
      → spared (put (staging identifier) v f) ≡ spared f
  unfolding spared
  spared-put identifier v f =
      fun_ext λ q. fun_ext λ h. put_other (staging identifier) q v f (h identifier)

  spared-renamed :
      (identifier e : List ℕ) (f : Entries (List ℕ))
      → f (staging identifier) ≡ some e
      → spared (renamed (staging identifier) (wide os path) f) ≡ spared_put e (spared f)
  unfolding spared renamed put
  spared-renamed identifier e f held = fun_ext λ q. fun_ext λ h. rw (h identifier, held)

  spared-copied :
      (identifier e : List ℕ) (f : Entries (List ℕ))
      → f (staging identifier) ≡ some e
      → spared (put (wide os path) (f (staging identifier)) f) ≡ spared_put e (spared f)
  unfolding spared put
  spared-copied identifier e f held = fun_ext λ q. fun_ext λ h. rw held

  module _ (lawful : Lawful os) where
    open lawful use {files}

    abbrev pub view : os.State → Spared
    view s = spared (files s)

    -- The three ways in which a directory sync ends leave the files alone.
    pub synced : (s : os.State) → files (sync_windows_directory os config s).1 ≡ files s
    unfolding sync_windows_directory
    synced s = elim (IoResult-cases (os.open_directory (wide os config.namespace) s)) [
      | inl (u, s', e) ↦ rw e (
          lawful.directory_flushed (wide os config.namespace) s'
          ∙ ap (λ x. files x.1) (sym e)
          ∙ lawful.directory_opened (wide os config.namespace) s)
      | inr (x, s', e) ↦
          rw e (ap (λ x. files x.1) (sym e) ∙ lawful.directory_opened (wide os config.namespace) s)
    ]

    -- A file that was written and closed holds the sections; one that was not is a staging file.
    closing-holds :
        (Q : Result (Unit {0}) × os.State → Type 0) (identifier : List ℕ) (w : Writer)
        (s : os.State) (x : IoResult (Unit {0}) × os.State)
        → files x.1 ≡ files s
        → ((s' : os.State)
            → view s' ≡ view s
            → files s' (staging identifier) ≡ some w.written
            → Q (ok tt, s'))
        → ((e : StoreError) (s' : os.State) → view s' ≡ view s → Q (err e, s'))
        → Q (closing os (staging identifier) w x)
    closing-holds Q identifier w s (done u, s') e good bad =
        good (os.close (staging identifier) w s')
          (ap spared (lawful.closed (staging identifier) w s')
            ∙ spared-put identifier (some w.written) (files s')
            ∙ ap spared e)
          (ap (λ f. f (staging identifier)) (lawful.closed (staging identifier) w s')
            ∙ put_same (staging identifier) (some w.written) (files s'))
    closing-holds Q identifier w s (failed x, s') e good bad =
        bad _ (os.close (staging identifier) w s') (
          ap spared (lawful.closed (staging identifier) w s')
          ∙ spared-put identifier (some w.written) (files s')
          ∙ ap spared e)

    flush_staging-holds :
        (Q : Result (Unit {0}) × os.State → Type 0) (identifier e : List ℕ)
        (out : Result (Unit {0}) × Writer) (s : os.State)
        → ((w : Writer) → out ≡ (ok tt, w) → w.written ≡ e)
        → ((s' : os.State)
            → view s' ≡ view s
            → files s' (staging identifier) ≡ some e
            → Q (ok tt, s'))
        → ((x : StoreError) (s' : os.State) → view s' ≡ view s → Q (err x, s'))
        → Q (flush_staging os (staging identifier) out s)
    flush_staging-holds Q identifier e (err x, w) s content good bad =
        bad x (os.close (staging identifier) w s) (
          ap spared (lawful.closed (staging identifier) w s)
          ∙ spared-put identifier (some w.written) (files s))
    flush_staging-holds Q identifier e (ok u, w) s content good bad =
        closing-holds Q identifier w s (os.flush_file (staging identifier) w s)
          (lawful.flushed (staging identifier) w s)
          (λ s' same held. good s' same (held ∙ ap some (content w refl))) bad

    pub create-holds :
        (Q : Result (Unit {0}) × os.State → Type 0) (identifier header payload checksum : List ℕ)
        (s : os.State)
        → ((s' : os.State)
            → view s' ≡ view s
            → files s' (staging identifier) ≡ some (concat (header ∷ payload ∷ checksum ∷ []))
            → Q (ok tt, s'))
        → ((x : StoreError) (s' : os.State) → view s' ≡ view s → Q (err x, s'))
        → Q (
            create_windows_staging os
              (staging_path os config save_kind hash identifier)
              header
              payload
              checksum
              s)
    unfolding create_windows_staging
    create-holds Q identifier header payload checksum s good bad =
        let sections = header ∷ payload ∷ checksum ∷ [] in
        elim (IoResult-cases (os.create_new (staging identifier) s)) [
          | inr (x, s', e) ↦
              rw e (bad _ s' (ap spared (lawful.not_created (staging identifier) x s s' e)))
          | inl (w, s', e) ↦
              let (new, made) = lawful.created (staging identifier) w s s' e in
              let same = ap spared made ∙ spared-put identifier (some []) (files s) in
              rw e (
                flush_staging-holds Q identifier (concat sections) (write_sections sections w) s'
                  (λ w' out.
                    write_sections-ok sections w w' out ∙ ap (λ l. l ++ concat sections) new)
                  (λ s₂ e₂ held. good s₂ (e₂ ∙ same) held) (λ x s₂ e₂. bad x s₂ (e₂ ∙ same)))
        ]

    -- After a move of the staging file that failed the names are as they were, or the blob is
    -- replaced.
    failed-holds :
        (Q : Result (Unit {0}) × os.State → Type 0) (identifier e : List ℕ) (flags : MoveFlags)
        (x : IoError) (s s' : os.State)
        → files s (staging identifier) ≡ some e
        → os.move_file_ex (staging identifier) (wide os path) flags s ≡ (failed x, s')
        → (view s' ≡ view s → Q (err (atomic_commit x), s'))
        → (view s' ≡ spared_put e (view s) → Q (err (atomic_commit x), s'))
        → Q (err (atomic_commit x), s')
    failed-holds Q identifier e flags x s s' held h same changed =
        elim (lawful.not_moved (staging identifier) (wide os path) flags x s s' h) [
          | inl k ↦ same (ap spared k)
          | inr k ↦ elim k [
            | inl k ↦ changed (ap spared k ∙ spared-renamed identifier e (files s) held)
            | inr k ↦ changed (ap spared k ∙ spared-copied identifier e (files s) held)
          ]
        ]

    -- The blob is replaced by what the staging file holds, or the names are as they were; a move
    -- that fails leaves one of the two.
    pub commit-holds :
        (Q : Result (Unit {0}) × os.State → Type 0) (identifier e : List ℕ) (s : os.State)
        → files s (staging identifier) ≡ some e
        → ((s' : os.State) → view s' ≡ spared_put e (view s) → Q (ok tt, s'))
        → ((x : IoError) (s' : os.State) → view s' ≡ view s → Q (err (atomic_commit x), s'))
        → ((x : IoError) (s' : os.State)
            → view s' ≡ spared_put e (view s)
            → Q (err (atomic_commit x), s'))
        → Q (commit_windows_staging os (staging_path os config save_kind hash identifier) path s)
    unfolding commit_windows_staging
    commit-holds Q identifier e s held good bad moved =
        let from = staging identifier in
        let to = wide os path in
        elim (IoResult-cases (os.move_file_ex from to write_through s)) [
          | inl (u, s', h) ↦ rw h (
              good s' (
                ap spared (lawful.moved from to write_through s s' h)
                ∙ spared-renamed identifier e (files s) held))
          | inr (x, s', h) ↦ rw h (
              if-holds Q (is_taken x.raw_os_error os.error_file_exists os.error_already_exists)
                (λ taken.
                  let same = lawful.refused from to x s s' h taken in
                  let held' = ap (λ f. f from) same ∙ held in
                  let replaced : spared_put e (view s') ≡ spared_put e (view s) =
                    ap (λ f. spared_put e (spared f)) same in
                  elim (IoResult-cases
                    (os.move_file_ex from to replace_existing_write_through s')) [
                      | inl (u, s₂, k) ↦ rw k (
                          good s₂ (
                            ap spared (lawful.moved from to replace_existing_write_through s' s₂ k)
                            ∙ spared-renamed identifier e (files s') held'
                            ∙ replaced))
                      | inr (y, s₂, k) ↦ rw k (
                          failed-holds Q identifier e replace_existing_write_through y s' s₂ held' k
                            (λ l. bad y s₂ (l ∙ ap spared same)) (λ l. moved y s₂ (l ∙ replaced)))
                    ])
                (λ _.
                  failed-holds Q identifier e write_through x s s' held h (bad x s') (moved x s')))
        ]
