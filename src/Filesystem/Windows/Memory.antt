-- ===== src/Filesystem/Windows/Memory.antt =====
-- A concrete system on which the Windows operations of src/filesystem/mod.rs run: the files are a
-- list of what was last put under each name, and no call fails without a reason.
use atomic_blob_store.Prelude.{
  ℕ, suc, ◌≡◌, refl, sym, ap, ◌∙◌, true, inl, if◌then◌else◌, Option, none, some, List, [], ◌∷◌,
  length, take, drop, ◌-◌,
}
use atomic_blob_store.Prelude.Bytes.{to_be}
use atomic_blob_store.Errors.{IoError, not_found, already_exists}
use atomic_blob_store.Format.Reader.{IoResult, done, failed, plain_error}
use atomic_blob_store.Format.Decode.{bytes_eq}
use atomic_blob_store.Format.Stream.{Writer}
use atomic_blob_store.Filesystem.Files.{put, renamed}
use atomic_blob_store.Filesystem.Identifier.{value}
use atomic_blob_store.Filesystem.Unix.Memory.{Memory, held_in, stem, to_metadata, removing}
use atomic_blob_store.Filesystem.Windows.{
  Windows, Entry, MoveFlags, write_through, replace_existing_write_through,
}
use atomic_blob_store.Filesystem.Windows.Wide.{wide_path}
use atomic_blob_store.Filesystem.Windows.Lawful.{Lawful}

abbrev opening_error : IoError
opening_error = record { kind = already_exists; raw_os_error = some 183 }

abbrev creating : Option (List ℕ) → List ℕ → Memory → IoResult Writer × Memory
creating (some b) p s = (failed opening_error, s)
creating none p s =
    (done (record { written = []; script = [] }), record s { entries = (p, some []) ∷ s.entries })

abbrev moving :
    MoveFlags
    → Option (List ℕ)
    → Option (List ℕ)
    → List ℕ
    → List ℕ
    → Memory
    → IoResult (Unit {0}) × Memory
moving flags d none p q s = (failed (plain_error not_found), s)
moving write_through (some d) (some b) p q s = (failed opening_error, s)
moving flags d (some b) p q s =
    (done tt, record s { entries = (q, some b) ∷ (p, none) ∷ s.entries })

-- The name of a file, from the units that go to the system.
abbrev unwide : List ℕ → List ℕ
unwide p = take (length p - 5) (drop 4 p)

abbrev listing : List (List ℕ × Option (List ℕ)) → List (IoResult Entry)
listing [] = []
listing ((p, none) ∷ l) = listing l
listing ((p, some b) ∷ l) = done (record { name = unwide p; path = unwide p }) ∷ listing l

abbrev pub memory : Windows
memory = record {
  State = Memory;
  join = λ directory name. name;
  file_stem = λ p. some (stem p);
  encode_wide = λ p. p;
  absolute = λ p s. done p;
  metadata = λ p s. done true;
  symlink_metadata = λ p s. to_metadata (held_in s.entries (wide_path p));
  read_dir = λ p s. done (listing s.entries);
  now = λ s. 1000;
  elapsed = λ s. done (1, 0);
  fill = λ s. (value (to_be 32 s.draws), record s { draws = suc s.draws });
  create_dir = λ p s. (done tt, s);
  create_new = λ p s. creating (held_in s.entries p) p s;
  flush_file = λ p w s. (done tt, s);
  close = λ p w s. record s { entries = (p, some w.written) ∷ s.entries };
  move_file_ex = λ p q flags s. moving flags (held_in s.entries q) (held_in s.entries p) p q s;
  delete_file_w = λ p s. removing (held_in s.entries p) p s;
  open_directory = λ p s. (done tt, s);
  flush_directory = λ p s. (done tt, s);
  open_existing = λ p s. (done tt, s);
  set_file_time = λ p low high s. (done tt, s);
  flush_existing = λ p s. (done tt, s);
  error_file_exists = 80;
  error_already_exists = 183;
}

abbrev files : Memory → List ℕ → Option (List ℕ)
files s = held_in s.entries

abbrev written_by : IoResult Writer → List ℕ
written_by (done w) = w.written
written_by (failed e) = []

creating-done :
    (v : Option (List ℕ)) (p : List ℕ) (w : Writer) (s s' : Memory)
    → creating v p s ≡ (done w, s')
    → (w.written ≡ []) × (files s' ≡ put p (some []) (files s))
unfolding put
creating-done (some b) p w s s' e =
    absurd (let stop : failed opening_error ≡ done w = ap (λ x. x.0) e in cc)
creating-done none p w s s' e = (ap (λ x. written_by x.0) (sym e), ap (λ x. files x.1) (sym e))

creating-failed :
    (v : Option (List ℕ)) (p : List ℕ) (x : IoError) (s s' : Memory)
    → creating v p s ≡ (failed x, s')
    → files s' ≡ files s
creating-failed (some b) p x s s' e = ap (λ y. files y.1) (sym e)
creating-failed none p x s s' e =
    absurd
      (let stop : done (record { written = []; script = [] }) ≡ failed x = ap (λ y. y.0) e in cc)

moved_to :
    (b p q : List ℕ) (s : Memory)
    → some b ≡ files s p
    → files (record s { entries = (q, some b) ∷ (p, none) ∷ s.entries }) ≡ renamed p q (files s)
unfolding renamed put
moved_to b p q s h =
    ap (λ v. λ r. if bytes_eq r q then v else if bytes_eq r p then none else files s r) h

moving-done :
    (flags : MoveFlags) (d b : Option (List ℕ)) (p q : List ℕ) (s s' : Memory)
    → b ≡ files s p
    → moving flags d b p q s ≡ (done tt, s')
    → files s' ≡ renamed p q (files s)
unfolding renamed put
moving-done flags d none p q s s' h e =
    absurd (let stop : failed (plain_error not_found) ≡ done tt = ap (λ x. x.0) e in cc)
moving-done write_through (some d) (some b) p q s s' h e =
    absurd (let stop : failed opening_error ≡ done tt = ap (λ x. x.0) e in cc)
moving-done write_through none (some b) p q s s' h e =
    ap (λ x. files x.1) (sym e) ∙ moved_to b p q s h
moving-done replace_existing_write_through d (some b) p q s s' h e =
    ap (λ x. files x.1) (sym e) ∙ moved_to b p q s h

moving-failed :
    (flags : MoveFlags) (d b : Option (List ℕ)) (p q : List ℕ) (x : IoError) (s s' : Memory)
    → moving flags d b p q s ≡ (failed x, s')
    → files s' ≡ files s
moving-failed flags d none p q x s s' e = ap (λ y. files y.1) (sym e)
moving-failed write_through (some d) (some b) p q x s s' e = ap (λ y. files y.1) (sym e)
moving-failed write_through none (some b) p q x s s' e =
    absurd (let stop : done tt ≡ failed x = ap (λ y. y.0) e in cc)
moving-failed replace_existing_write_through d (some b) p q x s s' e =
    absurd (let stop : done tt ≡ failed x = ap (λ y. y.0) e in cc)

pub memory-Lawful : Lawful memory
unfolding put
memory-Lawful = record {
  files = files;
  filled = λ s. refl;
  created = λ p w s s' e. creating-done (files s p) p w s s' e;
  not_created = λ p x s s' e. creating-failed (files s p) p x s s' e;
  flushed = λ p w s. refl;
  closed = λ p w s. refl;
  moved = λ p q flags s s' e. moving-done flags (files s q) (files s p) p q s s' refl e;
  not_moved = λ p q flags x s s' e. inl (moving-failed flags (files s q) (files s p) p q x s s' e);
  refused = λ p q x s s' e taken. moving-failed write_through (files s q) (files s p) p q x s s' e;
  directory_opened = λ p s. refl;
  directory_flushed = λ p s. refl;
}
