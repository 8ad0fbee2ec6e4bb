-- ===== src/Engine/Opening/Opened.antt =====
-- The store that `EngineHandle::open` of src/engine/mod.rs returns.
use atomic_blob_store.Prelude.{
  ℕ, ◌+◌, ◌≤◌, ◌≡◌, ◌≢◌, sym, ap, subst, ◌∙◌, Bool, true, Option, List, [], ◌∷◌,
}
use atomic_blob_store.Prelude.Bytes.{u64_max}
use atomic_blob_store.Errors.{ok, ok-injective}
use atomic_blob_store.Config.{AtomicBlobStoreOptions, validate_maximum}
use atomic_blob_store.Config.Validation.{validate_maximum_iff}
use atomic_blob_store.Format.Reader.{IoResult, done, failed}
use atomic_blob_store.Engine.Workers.{new_pool}
use atomic_blob_store.Engine.Queues.{KeyOrder}
use atomic_blob_store.Engine.Scheduler.{start}
use atomic_blob_store.Engine.System.{Reachable, started}
use atomic_blob_store.Engine.Front.{CoordinatorJoinOutcome, Store}
use atomic_blob_store.Engine.Opening.{from_config, open_handle}
use atomic_blob_store.Filesystem.{FilePath, StoreConfig}
use atomic_blob_store.Filesystem.Actions.{and_run-ok}
use atomic_blob_store.Filesystem.Unix.{Unix}
use atomic_blob_store.Filesystem.Unix.Start.{
  initialize_platform, resolve_root, HasNamespace, initialize_platform-ok,
}
use atomic_blob_store.Paths.{
  PathComponent, prefix, root_dir, cur_dir, parent_dir, normal, sole_component, validate_namespace,
}

sole_component-ok :
    (l : List PathComponent) (component : FilePath)
    → sole_component l ≡ ok component
    → (l ≡ normal component ∷ []) × (component ≢ [])
sole_component-ok [] component h = absurd (cc)
sole_component-ok (prefix ∷ []) component h = absurd (cc)
sole_component-ok (root_dir ∷ []) component h = absurd (cc)
sole_component-ok (cur_dir ∷ []) component h = absurd (cc)
sole_component-ok (parent_dir ∷ []) component h = absurd (cc)
sole_component-ok (normal [] ∷ []) component h = absurd (cc)
sole_component-ok (normal (b ∷ bs) ∷ []) component h = (
  ap (λ c. normal c ∷ []) (ok-injective h),
  λ e. let full : b ∷ bs ≡ [] = ok-injective h ∙ e in cc,
)
sole_component-ok (prefix ∷ c ∷ l) component h = absurd (cc)
sole_component-ok (root_dir ∷ c ∷ l) component h = absurd (cc)
sole_component-ok (cur_dir ∷ c ∷ l) component h = absurd (cc)
sole_component-ok (parent_dir ∷ c ∷ l) component h = absurd (cc)
sole_component-ok (normal [] ∷ c ∷ l) component h = absurd (cc)
sole_component-ok (normal (b ∷ bs) ∷ c ∷ l) component h = absurd (cc)

from_config-ok :
    (thread : IoResult CoordinatorJoinOutcome) (spawn : ℕ → Option Bool) (config : StoreConfig)
    (store : Store)
    → from_config thread spawn config ≡ ok store
    → (store.coordinator ≡ start (new_pool config.max_concurrent_operations spawn))
      × (store.connected ≡ true)
      × (store.maximum ≡ config.maximum)
from_config-ok (failed e) spawn config store h = absurd (cc)
from_config-ok (done handle) spawn config store h =
    let same = sym (ok-injective h) in
    (ap (λ s. s.coordinator) same, ap (λ s. s.connected) same, ap (λ s. s.maximum) same)

module _ (os : Unix) (components : List ℕ → List PathComponent)
    (thread : IoResult CoordinatorJoinOutcome) (spawn : ℕ → Option Bool) (order : KeyOrder) where
  -- A store that opens on Unix was given a namespace of one normal component that is not empty and a
  -- maximum with which the length of an envelope is a `u64`; its namespace was made, or was there as a
  -- directory, under its root; it takes operations up to that maximum; and its coordinator is in the
  -- first of its reachable states, with no request sent and the asked number of workers.
  pub open_handle-ok :
      (root : FilePath) (namespace : List ℕ) (options : AtomicBlobStoreOptions) (s : os.State)
      (store : Store)
      → (open_handle (initialize_platform os) components thread spawn root namespace options s).0
        ≡ ok store
      → (component : FilePath) × (components namespace ≡ normal component ∷ [])
        × (component ≢ [])
        × (options.max_blob_size + 22 ≤ u64_max)
        × ((absolute : FilePath) × (resolve_root os root s ≡ ok absolute)
            × HasNamespace os (os.join absolute component) s)
        × (store.connected ≡ true)
        × (store.maximum ≡ options.max_blob_size)
        × Reachable options.max_concurrent_operations order spawn [] store.coordinator
  unfolding open_handle validate_namespace
  open_handle-ok root namespace options s store h =
      let (component, named, h) =
        and_run-ok (validate_namespace components namespace, s) _ store h in
      let (u, small, h) = and_run-ok (validate_maximum options.max_blob_size, s) _ store h in
      let (config, made, h) =
        and_run-ok
          (initialize_platform os root component options.format options.max_blob_size
            options.max_concurrent_operations s)
          _ store h in
      let (one, full) = sole_component-ok (components namespace) component named in
      let (absolute, rooted, directory, found, same) =
        initialize_platform-ok os root component options.format options.max_blob_size
          options.max_concurrent_operations s config made in
      let (begun, open_end, most) = from_config-ok thread spawn config store h in
      (
        component,
        one,
        full,
        (validate_maximum_iff options.max_blob_size).0 small,
        (absolute, rooted, found),
        open_end,
        most ∙ sym (ap (λ c. c.maximum) same),
        subst (Reachable options.max_concurrent_operations order spawn [])
            (ap (λ c. start (new_pool c.max_concurrent_operations spawn)) same ∙ sym begun) started,
      )
