-- ===== src/Filesystem/Windows/Start.antt =====
-- `initialize_platform` of src/filesystem/mod.rs, on Windows.
use atomic_blob_store.Prelude.{ℕ, ap, ◌≡◌, ◌⊎◌, inl, inr, if◌then◌else◌, Bool-cases, true}
use atomic_blob_store.Errors.{
  already_exists, IoError, Result, ok, err, io, create_namespace, normalize_root, ok-injective,
}
use atomic_blob_store.Config.{BlobFormatIdentity}
use atomic_blob_store.Format.Reader.{IoResult, done, failed}
use atomic_blob_store.Format.Load.{ensure_namespace_available}
use atomic_blob_store.Filesystem.{FilePath, StoreConfig}
use atomic_blob_store.Filesystem.Actions.{Action, pure, ◌>>=◌, ◌>>◌, IoResult-cases, and_run-ok}
use atomic_blob_store.Filesystem.Inspect.{is_kind}
use atomic_blob_store.Filesystem.Unix.Start.{check_root, check_root-ok, ensure-ok}
use atomic_blob_store.Filesystem.Windows.{Windows}

module _ (os : Windows) where
  open os use {State}

  abbrev pub normalized : IoResult FilePath → Result FilePath
  normalized (done root) = ok root
  normalized (failed e) = err (io normalize_root e)

  -- After `create_dir`: a new entry is left as it is, an old one has to be a directory.
  abbrev pub created : FilePath → IoResult (Unit {0}) × State → Result (Unit {0}) × State
  created namespace (done u, s) = (ok tt, s)
  created namespace (failed e, s) =
      if is_kind e.kind already_exists
      then (ensure_namespace_available (os.metadata namespace s), s)
      else (err (io create_namespace e), s)

  unfoldable pub initialize_platform :
      FilePath → FilePath → BlobFormatIdentity → ℕ → ℕ → Action State StoreConfig
  initialize_platform root component format maximum workers = do
    absolute ← (λ s. (normalized (os.absolute root s), s))
    (λ s. (check_root (os.metadata absolute s), s))
    let namespace = os.join absolute component
    (λ s. created namespace (os.create_dir namespace s))
    pure (record {
      namespace = namespace;
      format = format;
      maximum = maximum;
      max_concurrent_operations = workers;
    })

  -- What was found of the namespace: it was made, or it was there and is a directory.
  abbrev pub HasNamespace : FilePath → os.State → Type 0
  HasNamespace namespace s =
      ((s' : State) × (os.create_dir namespace s ≡ (done tt, s')))
      ⊎ ((e : IoError) × (s' : State) × (os.create_dir namespace s ≡ (failed e, s'))
          × (is_kind e.kind already_exists ≡ true)
          × (os.metadata namespace s' ≡ done true))

  created-ok :
      (namespace : FilePath) (s : State)
      → (created namespace (os.create_dir namespace s)).0 ≡ ok tt
      → HasNamespace namespace s
  created-ok namespace s h = elim (IoResult-cases (os.create_dir namespace s)) [
    | inl (u, s', e) ↦ inl (s', e)
    | inr (x, s', e) ↦ elim (Bool-cases (is_kind x.kind already_exists)) [
      | inl k ↦ inr (x, s', e, k, ensure-ok (os.metadata namespace s') (rw (e, k) at h))
      | inr k ↦ absurd (let stop : err (io create_namespace x) ≡ ok tt = rw (e, k) at h in cc)
    ]
  ]

  normalized-ok :
      (x : IoResult FilePath) (absolute : FilePath) → normalized x ≡ ok absolute → x ≡ done absolute
  normalized-ok (done root) absolute h = ap done (ok-injective h)
  normalized-ok (failed e) absolute h = absurd (cc)

  -- When the start of a store on Windows succeeds, the root, made absolute, is a directory; the
  -- namespace lies under it, and was either made, or was there already and is a directory; and the
  -- configuration is what was asked for.
  pub initialize_platform-HasNamespace :
      (root component : FilePath) (format : BlobFormatIdentity) (maximum workers : ℕ) (s : State)
      (config : StoreConfig)
      → (initialize_platform root component format maximum workers s).0 ≡ ok config
      → (absolute : FilePath) × (os.absolute root s ≡ done absolute)
        × (os.metadata absolute s ≡ done true)
        × HasNamespace (os.join absolute component) s
        × (record {
          namespace = os.join absolute component;
          format = format;
          maximum = maximum;
          max_concurrent_operations = workers;
        }
            ≡ config)
  unfolding initialize_platform
  initialize_platform-HasNamespace root component format maximum workers s config h =
      let (absolute, rooted, h) = and_run-ok (normalized (os.absolute root s), s) _ config h in
      let (u, directory, h) = and_run-ok (check_root (os.metadata absolute s), s) _ config h in
      let (u, made, h) =
        and_run-ok
          (created (os.join absolute component) (os.create_dir (os.join absolute component) s)) _
          config h in
      (
        absolute,
        normalized-ok (os.absolute root s) absolute rooted,
        check_root-ok (os.metadata absolute s) directory,
        created-ok (os.join absolute component) s made,
        ok-injective h,
      )
