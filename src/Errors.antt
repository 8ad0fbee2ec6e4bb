-- ===== src/Errors.antt =====
-- src/error.rs and the error part of src/config.rs: the values that the store returns and the errors
-- that it reports. `io::Error` is read as its kind and its operating-system code, all that the code
-- looks at; a `Result` is `ok` or `err`.
use atomic_blob_store.Prelude.{ℕ, List, Option, String, ◌≡◌, refl, ◌⊎◌, inl, inr, Bool, true, false}

-- `io::ErrorKind`, as far as the code tells kinds apart.
pub data ErrorKind : Type 0 where
  not_found already_exists unexpected_eof other : ErrorKind

pub record IoError : Type 0 where
  pub kind : ErrorKind
  pub raw_os_error : Option ℕ

pub data BlobState : Type 0 where
  absent present : BlobState

-- `modified` is a `SystemTime`, here nanoseconds since an origin.
pub record BlobInspection : Type 0 where
  pub state : BlobState
  pub size : Option ℕ
  pub modified : Option ℕ

pub record BlobMetadata : Type 0 where
  pub payload_len : ℕ

-- A path is the list of the bytes that name it.
pub record QuarantineInfo : Type 0 where
  pub identifier : List ℕ
  pub diagnostic_path : List ℕ

pub record CleanupFailure : Type 0 where
  pub identifier : List ℕ
  pub source : IoError

pub record CleanupReport : Type 0 where
  pub removed : List (List ℕ)
  pub skipped : List (List ℕ)
  pub failures : List CleanupFailure

pub data StoreOperation : Type 0 where
  resolve_current_directory normalize_root start_initialization start_coordinator : StoreOperation
  inspect_root inspect_namespace create_namespace open_root_directory : StoreOperation
  sync_root_directory open_blob read_envelope open_atomic_writer write_envelope : StoreOperation
  remove_blob open_namespace_directory sync_namespace_directory inspect_blob : StoreOperation
  quarantine_blob generate_identifier enumerate_temporary_files : StoreOperation
  remove_temporary_file refresh_clear_staging_age : StoreOperation

pub data EnvelopeSection : Type 0 where
  magic version payload_length payload checksum : EnvelopeSection

pub data ConfigError : Type 0 where
  invalid_domain_tag_length : ℕ → ConfigError
  invalid_filename_suffix : ConfigError
  unsupported_configured_envelope_version : ℕ → ConfigError
  invalid_namespace : ConfigError
  invalid_maximum_blob_size : ℕ → ConfigError

-- The source of `identifier_generation` is the code of a `getrandom::Error`.
pub data StoreError : Type 0 where
  configuration : ConfigError → StoreError
  io : StoreOperation → IoError → StoreError
  atomic_commit : IoError → StoreError
  root_does_not_exist root_is_not_directory namespace_path_is_not_directory : StoreError
  invalid_envelope_domain : List ℕ → List ℕ → StoreError
  unsupported_envelope_version : ℕ → StoreError
  truncated_envelope : EnvelopeSection → StoreError
  blob_too_large : ℕ → ℕ → StoreError
  invalid_payload_length : ℕ → StoreError
  trailing_data : StoreError
  checksum_mismatch : ℕ → ℕ → StoreError
  input_ended_early : ℕ → ℕ → StoreError
  input_has_trailing_data : ℕ → StoreError
  input_io output_io : IoError → StoreError
  stream_cancelled : StoreError
  unsupported_platform : String → StoreError
  coordination_failure store_closed engine_failed worker_unavailable : StoreError
  shutdown_failure quarantine_source_missing : StoreError
  quarantine_commit : IoError → StoreError
  quarantine_namespace_sync : QuarantineInfo → IoError → StoreError
  cleanup_unsupported : String → StoreError
  invalid_cleanup_age : StoreError
  identifier_generation : ℕ → StoreError
  unexpected_file_type maintenance_coordination_failure : StoreError

pub data Result {ℓ} (A : Type ℓ) : Type ℓ where
  ok : A → Result A
  err : StoreError → Result A

-- `Result::map`.
abbrev pub map_ok {ℓ κ} : {A : Type ℓ} {B : Type κ} → (A → B) → Result A → Result B
map_ok f (ok a) = ok (f a)
map_ok f (err e) = err e

-- The `?` of a chain, with and without a value.
infixl 5 ◌>>=◌ ◌>>◌
abbrev pub ◌>>=◌ {ℓ κ} : {A : Type ℓ} {B : Type κ} → Result A → (A → Result B) → Result B
err failure >>= next = err failure
ok value >>= next = next value

abbrev pub ◌>>◌ {ℓ} : {B : Type ℓ} → Result (Unit {0}) → Result B → Result B
first >> second = first >>= λ _. second

pub Result-cases {ℓ} :
    {A : Type ℓ} (r : Result A) → ((a : A) × (r ≡ ok a)) ⊎ ((e : StoreError) × (r ≡ err e))
Result-cases (ok a) = inl (a, refl)
Result-cases (err e) = inr (e, refl)

pub ok-injective {ℓ} : {A : Type ℓ} {a b : A} → ok a ≡ ok b → a ≡ b
ok-injective h = cc

-- A chain that succeeds has a first step that succeeds: its value goes to what follows.
pub unbind {ℓ κ μ} :
    {A : Type ℓ} {B : Type κ} {P : Type μ} (m : Result A) (f : A → Result B) {b : B}
    → (m >>= f) ≡ ok b
    → ((a : A) → m ≡ ok a → f a ≡ ok b → P)
    → P
unbind (ok a) f h k = k a refl h
unbind (err e) f h k = absurd (cc)

-- The match that turns a failed test into an early return.
abbrev pub require : Bool → StoreError → Result (Unit {0})
require true e = ok tt
require false e = err e

pub unrequire {ℓ κ} :
    {A : Type ℓ} {P : Type κ} (b : Bool) (e : StoreError) (m : Result A) {a : A}
    → (require b e >> m) ≡ ok a
    → (b ≡ true → m ≡ ok a → P)
    → P
unrequire true e m h k = k refl h
unrequire false e m h k = absurd (cc)
