-- ===== src/Filesystem/Unix/Lawful.antt =====
-- What the operations of src/filesystem/mod.rs on Unix rely on in the calls that they make.
use atomic_blob_store.Prelude.{ℕ, ◌≡◌, ◌⊎◌, true, none, some, List, [], length, All}
use atomic_blob_store.Prelude.Bytes.{IsByte}
use atomic_blob_store.Errors.{IoError, not_found}
use atomic_blob_store.Format.Reader.{done, failed}
use atomic_blob_store.Format.Stream.{Writer}
use atomic_blob_store.Format.Load.{File, is_not_found}
use atomic_blob_store.Filesystem.{FilePath}
use atomic_blob_store.Filesystem.Files.{Entries, put, renamed}
use atomic_blob_store.Filesystem.Inspect.{Metadata, is_kind}
use atomic_blob_store.Filesystem.Identifier.{value, code}
use atomic_blob_store.Filesystem.Names.{occurs}
use atomic_blob_store.Filesystem.Unix.{Unix}

-- `files` tells the bytes that each entry of the namespace holds. The temporary files of
-- atomic_write_file, which no operation names, are not among the entries.
pub record Lawful (os : Unix) : Type 1 where
  pub files : os.State → Entries (List ℕ)
  pub opened :
      (p : FilePath) (f : File) (s : os.State)
      → os.open_file p s ≡ done f
      → f.front.ending ≡ none
      → files s p ≡ some f.front.bytes
  pub opened_bytes :
      (p : FilePath) (f : File) (s : os.State)
      → os.open_file p s ≡ done f
      → All IsByte f.front.bytes
  pub not_opened :
      (p : FilePath) (e : IoError) (s : os.State)
      → os.open_file p s ≡ failed e
      → is_not_found e.kind ≡ true
      → files s p ≡ none
  pub inspected :
      (p : FilePath) (m : Metadata) (s : os.State)
      → os.symlink_metadata p s ≡ done m
      → m.is_file ≡ true
      → (b : List ℕ) × (files s p ≡ some b) × (m.len ≡ length b)
  pub not_inspected :
      (p : FilePath) (e : IoError) (s : os.State)
      → os.symlink_metadata p s ≡ failed e
      → is_kind e.kind not_found ≡ true
      → files s p ≡ none
  pub filled : (s : os.State) → files (os.fill s).1 ≡ files s
  pub directory_opened : (p : FilePath) (s : os.State) → files (os.open_directory p s).1 ≡ files s
  pub synced : (p : FilePath) (s : os.State) → files (os.sync_all p s).1 ≡ files s
  pub created : (p : FilePath) (s : os.State) → files (os.create_file p s).1 ≡ files s
  pub created_empty :
      (p : FilePath) (w : Writer) (s s' : os.State)
      → os.create_file p s ≡ (done w, s')
      → w.written ≡ []
  -- A commit replaces the file at once; one that fails may have done so.
  pub committed :
      (p : FilePath) (w : Writer) (s s' : os.State)
      → os.commit p w s ≡ (done tt, s')
      → files s' ≡ put p (some w.written) (files s)
  pub not_committed :
      (p : FilePath) (w : Writer) (e : IoError) (s s' : os.State)
      → os.commit p w s ≡ (failed e, s')
      → (files s' ≡ files s) ⊎ (files s' ≡ put p (some w.written) (files s))
  pub removed :
      (p : FilePath) (s s' : os.State)
      → os.remove_file p s ≡ (done tt, s')
      → files s' ≡ put p none (files s)
  pub not_removed :
      (p : FilePath) (e : IoError) (s s' : os.State)
      → os.remove_file p s ≡ (failed e, s')
      → (files s' ≡ files s) × (is_kind e.kind not_found ≡ true → files s p ≡ none)
  pub moved :
      (p q : FilePath) (s s' : os.State)
      → os.rename_noreplace p q s ≡ (value tt, s')
      → (files s q ≡ none) × (files s' ≡ renamed p q (files s))
  pub not_moved :
      (p q : FilePath) (c : ℕ) (s s' : os.State)
      → os.rename_noreplace p q s ≡ (code c, s')
      → files s' ≡ files s

-- `names` tells every entry of the namespace, of whatever type.
pub record Listed (os : Unix) : Type 1 where
  pub names : os.State → List FilePath
  pub filled : (s : os.State) → names (os.fill s).1 ≡ names s
  pub not_moved :
      (p q : FilePath) (c : ℕ) (s s' : os.State)
      → os.rename_noreplace p q s ≡ (code c, s')
      → names s' ≡ names s
  pub existing :
      (p q : FilePath) (c : ℕ) (s s' : os.State)
      → os.rename_noreplace p q s ≡ (code c, s')
      → c ≡ os.exist
      → occurs q (names s) ≡ true
