-- ===== src/Filesystem/Inspect.antt =====
-- `inspect_blob` of src/filesystem/mod.rs.
use atomic_blob_store.Prelude.{ℕ, if◌then◌else◌, Bool, true, false, Option, none, some}
use atomic_blob_store.Errors.{
  ErrorKind, not_found, already_exists, StoreOperation, Result, ok, err, ◌>>◌, io, BlobInspection,
  absent, present, unexpected_file_type,
}
use atomic_blob_store.Format.Reader.{IoResult, done, failed}
use atomic_blob_store.Format.Load.{ensure_namespace_available}

-- What `symlink_metadata` tells of an entry.
pub record Metadata : Type 0 where
  pub is_file : Bool
  pub len : ℕ
  pub modified : IoResult ℕ

abbrev pub is_kind : ErrorKind → ErrorKind → Bool
is_kind not_found not_found = true
is_kind already_exists already_exists = true
is_kind _ _ = false

-- `metadata.modified().ok()`.
abbrev pub to_option : {A : Type 0} → IoResult A → Option A
to_option (done a) = some a
to_option (failed e) = none

abbrev pub inspected : Metadata → Result BlobInspection
inspected m =
    if m.is_file
    then ok (record { state = present; size = some m.len; modified = to_option m.modified })
    else err unexpected_file_type

-- From the metadata of the namespace, whether it is a directory, and of the blob's own path.
abbrev pub inspect_blob : IoResult Bool → IoResult Metadata → Result BlobInspection
inspect_blob namespace (done metadata) = inspected metadata
inspect_blob namespace (failed e) =
    if is_kind e.kind not_found
    then (ensure_namespace_available namespace
        >> ok (record { state = absent; size = none; modified = none }))
    else err (io StoreOperation.inspect_blob e)
