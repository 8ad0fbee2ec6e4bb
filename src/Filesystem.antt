-- ===== src/Filesystem.antt =====
-- src/filesystem/mod.rs, over what it calls of the operating system, of the standard library and of
-- the crates getrandom, atomic_write_file and rustix, which are arguments. Actions chains such
-- calls, Identifier makes the random names, Unix and Windows hold the operations on each system.
pub mod Actions
pub mod Files
pub mod Identifier
pub mod Inspect
pub mod Promises
pub mod Names
pub mod Turns
pub mod Unix
pub mod Windows
use atomic_blob_store.Prelude.{ℕ, List}
use atomic_blob_store.Config.{BlobFormatIdentity}

-- A path, or a text, is the list of its bytes.
abbrev pub FilePath : Type 0
FilePath = List ℕ

pub record StoreConfig : Type 0 where
  pub namespace : FilePath
  pub format : BlobFormatIdentity
  pub maximum : ℕ
  pub max_concurrent_operations : ℕ
