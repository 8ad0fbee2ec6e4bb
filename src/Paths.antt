-- ===== src/Paths.antt =====
-- src/path.rs, and `blob_path` of src/engine/mod.rs. BLAKE3 and its hexadecimal form, the components
-- of a path and the joining of paths are arguments. A hash is a number.
pub mod Naming
mod Tests
use atomic_blob_store.Prelude.{ℕ, ◌≡◌, true, List, [], ◌∷◌, ◌++◌}
use atomic_blob_store.Errors.{Result, ok, err, configuration, invalid_namespace}
use atomic_blob_store.Config.{BlobFormatIdentity}
use atomic_blob_store.Filesystem.{FilePath, StoreConfig}
use atomic_blob_store.Filesystem.Windows.Staging.{is_hex_64}

-- The calls of the blake3 crate.
pub record Blake3 : Type 0 where
  pub hash : List ℕ → ℕ
  pub to_hex : ℕ → List ℕ

-- The hexadecimal form of a hash is 64 lowercase digits, and another for another hash.
pub record IsHexadecimal (blake3 : Blake3) : Type 0 where
  pub digits : (key : List ℕ) → is_hex_64 (blake3.to_hex (blake3.hash key)) ≡ true
  pub distinct :
      (a b : List ℕ)
      → blake3.to_hex (blake3.hash a) ≡ blake3.to_hex (blake3.hash b)
      → blake3.hash a ≡ blake3.hash b

-- `std::path::Component`.
pub data PathComponent : Type 0 where
  prefix root_dir cur_dir parent_dir : PathComponent
  normal : List ℕ → PathComponent

unfoldable pub blob_filename : Blake3 → BlobFormatIdentity → List ℕ → List ℕ
blob_filename blake3 format canonical_key =
    blake3.to_hex (blake3.hash canonical_key) ++ format.filename_suffix

unfoldable pub key_hash : Blake3 → List ℕ → ℕ
key_hash blake3 canonical_key = blake3.hash canonical_key

unfoldable pub blob_path : Blake3 → (FilePath → List ℕ → FilePath) → StoreConfig → List ℕ → FilePath
blob_path blake3 join config canonical_key =
    join config.namespace (blob_filename blake3 config.format canonical_key)

-- The test of the first two components.
abbrev pub sole_component : List PathComponent → Result FilePath
sole_component (normal (b ∷ bs) ∷ []) = ok (b ∷ bs)
sole_component _ = err (configuration invalid_namespace)

unfoldable pub validate_namespace : (List ℕ → List PathComponent) → List ℕ → Result FilePath
validate_namespace components namespace = sole_component (components namespace)
