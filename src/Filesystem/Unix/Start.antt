-- ===== src/Filesystem/Unix/Start.antt =====
-- `initialize_platform` of src/filesystem/mod.rs, on Unix.
use atomic_blob_store.Prelude.{
  ℕ, ◌≡◌, ◌⊎◌, inl, inr, refl, if◌then◌else◌, Bool, Bool-cases, true, false,
}
use atomic_blob_store.Errors.{
  not_found, already_exists, IoError, ok-injective, Result, ok, err, io, root_does_not_exist,
  root_is_not_directory, inspect_root, create_namespace, resolve_current_directory,
  open_root_directory, sync_root_directory,
}
use atomic_blob_store.Config.{BlobFormatIdentity}
use atomic_blob_store.Format.Reader.{IoResult, done, failed}
use atomic_blob_store.Format.Load.{ensure_namespace_available}
use atomic_blob_store.Filesystem.{FilePath, StoreConfig}
use atomic_blob_store.Filesystem.Actions.{Action, pure, ◌>>=◌, ◌>>◌, IoResult-cases, and_run-ok}
use atomic_blob_store.Filesystem.Inspect.{is_kind}
use atomic_blob_store.Filesystem.Unix.{Unix, sync_directory}

abbrev pub check_root : IoResult Bool → Result (Unit {0})
check_root (done true) = ok tt
check_root (done false) = err root_is_not_directory
check_root (failed e) =
    if is_kind e.kind not_found then err root_does_not_exist else err (io inspect_root e)

pub ensure-ok : (x : IoResult Bool) → ensure_namespace_available x ≡ ok tt → x ≡ done true
ensure-ok (done true) h = refl
ensure-ok (done false) h = absurd (cc)
ensure-ok (failed e) h = absurd (cc)

pub check_root-ok : (x : IoResult Bool) → check_root x ≡ ok tt → x ≡ done true
check_root-ok (done true) h = refl
check_root-ok (done false) h = absurd (cc)
check_root-ok (failed e) h = elim (Bool-cases (is_kind e.kind not_found)) [
  | inl k ↦ absurd (let stop : err root_does_not_exist ≡ ok tt = rw k at h in cc)
  | inr k ↦ absurd (let stop : err (io inspect_root e) ≡ ok tt = rw k at h in cc)
]

-- A relative root is resolved against the current directory.
module _ (os : Unix) where
  open os use {State}

  abbrev joined : FilePath → IoResult FilePath → Result FilePath
  joined root (done directory) = ok (os.join directory root)
  joined root (failed e) = err (io resolve_current_directory e)

  abbrev pub resolve_root : FilePath → State → Result FilePath
  resolve_root root s = if os.is_relative root then joined root (os.current_dir s) else ok root

  -- After `create_dir`: the new entry is made durable, an old one has to be a directory.
  abbrev pub created : FilePath → FilePath → IoResult (Unit {0}) × State → Result (Unit {0}) × State
  created root namespace (done u, s) =
      sync_directory os root open_root_directory sync_root_directory s
  created root namespace (failed e, s) =
      if is_kind e.kind already_exists
      then (ensure_namespace_available (os.metadata namespace s), s)
      else (err (io create_namespace e), s)

  unfoldable pub initialize_platform :
      FilePath → FilePath → BlobFormatIdentity → ℕ → ℕ → Action State StoreConfig
  initialize_platform root component format maximum workers = do
    absolute ← (λ s. (resolve_root root s, s))
    (λ s. (check_root (os.metadata absolute s), s))
    let namespace = os.join absolute component
    (λ s. created absolute namespace (os.create_dir namespace s))
    pure (record {
      namespace = namespace;
      format = format;
      maximum = maximum;
      max_concurrent_operations = workers;
    })

  -- What was found of the namespace: it was made, or it was there and is a directory.
  abbrev pub HasNamespace : FilePath → os.State → Type 0
  HasNamespace namespace s =
      ((s' : State) × (os.create_dir namespace s ≡ (done tt, s')))
      ⊎ ((e : IoError) × (s' : State) × (os.create_dir namespace s ≡ (failed e, s'))
          × (is_kind e.kind already_exists ≡ true)
          × (os.metadata namespace s' ≡ done true))

  created-ok :
      (root namespace : FilePath) (s : State)
      → (created root namespace (os.create_dir namespace s)).0 ≡ ok tt
      → HasNamespace namespace s
  created-ok root namespace s h = elim (IoResult-cases (os.create_dir namespace s)) [
    | inl (u, s', e) ↦ inl (s', e)
    | inr (x, s', e) ↦ elim (Bool-cases (is_kind x.kind already_exists)) [
      | inl k ↦ inr (x, s', e, k, ensure-ok (os.metadata namespace s') (rw (e, k) at h))
      | inr k ↦ absurd (let stop : err (io create_namespace x) ≡ ok tt = rw (e, k) at h in cc)
    ]
  ]

  -- When the start of a store on Unix succeeds, the root, a relative one taken from the current
  -- directory, is a directory; the namespace lies under it, and was either made, or was there
  -- already and is a directory; and the configuration is what was asked for.
  pub initialize_platform-ok :
      (root component : FilePath) (format : BlobFormatIdentity) (maximum workers : ℕ) (s : State)
      (config : StoreConfig)
      → (initialize_platform root component format maximum workers s).0 ≡ ok config
      → (absolute : FilePath) × (resolve_root root s ≡ ok absolute)
        × (os.metadata absolute s ≡ done true)
        × HasNamespace (os.join absolute component) s
        × (record {
          namespace = os.join absolute component;
          format = format;
          maximum = maximum;
          max_concurrent_operations = workers;
        }
            ≡ config)
  unfolding initialize_platform
  initialize_platform-ok root component format maximum workers s config h =
      let (absolute, rooted, h) = and_run-ok (resolve_root root s, s) _ config h in
      let (u, directory, h) = and_run-ok (check_root (os.metadata absolute s), s) _ config h in
      let (u, made, h) =
        and_run-ok
          (created absolute (os.join absolute component)
            (os.create_dir (os.join absolute component) s))
          _ config h in
      (
        absolute,
        rooted,
        check_root-ok (os.metadata absolute s) directory,
        created-ok absolute (os.join absolute component) s made,
        ok-injective h,
      )
