-- ===== src/Filesystem/Windows/Lawful.antt =====
-- What the operations of src/filesystem/mod.rs on Windows rely on in the calls that they make.
use atomic_blob_store.Prelude.{ℕ, ◌≡◌, ◌⊎◌, true, some, List, []}
use atomic_blob_store.Errors.{IoError}
use atomic_blob_store.Format.Reader.{done, failed}
use atomic_blob_store.Format.Stream.{Writer}
use atomic_blob_store.Filesystem.Files.{Entries, put, renamed}
use atomic_blob_store.Filesystem.Windows.{Windows, MoveFlags, write_through}
use atomic_blob_store.Filesystem.Windows.Operations.{is_taken}

-- `files` tells the bytes of each file by the units of its path as they go to the system. A new file
-- is there when it was created, with what was written once its handle is closed. A move that fails
-- may have been made all the same, or in part, with the file at both names, unless its error says
-- that there is a file at the destination, which it was not to replace.
pub record Lawful (os : Windows) : Type 1 where
  pub files : os.State → Entries (List ℕ)
  pub filled : (s : os.State) → files (os.fill s).1 ≡ files s
  pub created :
      (p : List ℕ) (w : Writer) (s s' : os.State)
      → os.create_new p s ≡ (done w, s')
      → (w.written ≡ []) × (files s' ≡ put p (some []) (files s))
  pub not_created :
      (p : List ℕ) (e : IoError) (s s' : os.State)
      → os.create_new p s ≡ (failed e, s')
      → files s' ≡ files s
  pub flushed : (p : List ℕ) (w : Writer) (s : os.State) → files (os.flush_file p w s).1 ≡ files s
  pub closed :
      (p : List ℕ) (w : Writer) (s : os.State)
      → files (os.close p w s) ≡ put p (some w.written) (files s)
  pub moved :
      (p q : List ℕ) (flags : MoveFlags) (s s' : os.State)
      → os.move_file_ex p q flags s ≡ (done tt, s')
      → files s' ≡ renamed p q (files s)
  pub not_moved :
      (p q : List ℕ) (flags : MoveFlags) (e : IoError) (s s' : os.State)
      → os.move_file_ex p q flags s ≡ (failed e, s')
      → (files s' ≡ files s)
        ⊎ (files s' ≡ renamed p q (files s))
        ⊎ (files s' ≡ put q (files s p) (files s))
  pub refused :
      (p q : List ℕ) (e : IoError) (s s' : os.State)
      → os.move_file_ex p q write_through s ≡ (failed e, s')
      → is_taken e.raw_os_error os.error_file_exists os.error_already_exists ≡ true
      → files s' ≡ files s
  pub directory_opened : (p : List ℕ) (s : os.State) → files (os.open_directory p s).1 ≡ files s
  pub directory_flushed : (p : List ℕ) (s : os.State) → files (os.flush_directory p s).1 ≡ files s
