-- ===== src/Filesystem/Unix/Memory.antt =====
-- A concrete system on which the operations of src/filesystem/mod.rs run: the entries are a list of
-- what was last put under each name, and no call fails without a reason.
pub mod Laws
use atomic_blob_store.Prelude.{
  ℕ, suc, ◌+◌, ◌≡◌, ◌≢◌, refl, sym, ap, ◌∙◌, Bool, true, false, ◌&&◌, ltb, if◌then◌else◌, Option,
  none, some, List, [], ◌∷◌, ◌++◌, length, All, Bool-cases, inl, inr, arith, if-holds, ltb→lt,
  &&_true,
}
use atomic_blob_store.Prelude.Bytes.{IsByte, to_be}
use atomic_blob_store.Errors.{ErrorKind, IoError, not_found, other}
use atomic_blob_store.Format.Reader.{IoResult, done, failed, plain_error}
use atomic_blob_store.Format.Decode.{bytes_eq}
use atomic_blob_store.Format.Stream.{Writer}
use atomic_blob_store.Format.Load.{File, is_not_found}
use atomic_blob_store.Filesystem.{FilePath}
use atomic_blob_store.Filesystem.Files.{put, renamed}
use atomic_blob_store.Filesystem.Identifier.{Coded, value, code}
use atomic_blob_store.Filesystem.Inspect.{Metadata, is_kind}
use atomic_blob_store.Filesystem.Names.{occurs}
use atomic_blob_store.Filesystem.Unix.{Unix}
use atomic_blob_store.Filesystem.Unix.Lawful.{Lawful, Listed}

-- `draws` counts the calls of `getrandom`, each of which gives another number.
pub record Memory : Type 0 where
  pub entries : List (FilePath × Option (List ℕ))
  pub draws : ℕ

abbrev pub held_in : List (FilePath × Option (List ℕ)) → FilePath → Option (List ℕ)
held_in [] q = none
held_in ((p, v) ∷ l) q = if bytes_eq q p then v else held_in l q

abbrev pub all_bytes : List ℕ → Bool
all_bytes [] = true
all_bytes (b ∷ bs) = ltb b 256 && all_bytes bs

abbrev pub to_file : Option (List ℕ) → IoResult File
to_file none = failed (plain_error not_found)
to_file (some b) =
    if all_bytes b
    then done (record {
      front = record { bytes = b; ending = none };
      rewound = done (record { bytes = b; ending = none });
    })
    else failed (plain_error other)

abbrev pub to_metadata : Option (List ℕ) → IoResult Metadata
to_metadata none = failed (plain_error not_found)
to_metadata (some b) = done (record { is_file = true; len = length b; modified = done 0 })

abbrev pub removing : Option (List ℕ) → FilePath → Memory → IoResult (Unit {0}) × Memory
removing none p s = (failed (plain_error not_found), s)
removing (some b) p s = (done tt, record s { entries = (p, none) ∷ s.entries })

-- What is at the destination, and what is at the source.
abbrev pub renaming :
    Option (List ℕ) → Option (List ℕ) → FilePath → FilePath → Memory → Coded (Unit {0}) × Memory
renaming (some d) b p q s = (code 17, s)
renaming none none p q s = (code 2, s)
renaming none (some b) p q s =
    (value tt, record s { entries = (q, some b) ∷ (p, none) ∷ s.entries })

-- A name up to its first dot.
abbrev pub stem : FilePath → List ℕ
stem [] = []
stem (b ∷ bs) = let rest = stem bs in if bytes_eq (b ∷ []) (b'.' ∷ []) then [] else b ∷ rest

abbrev pub memory : Unix
memory = record {
  State = Memory;
  os = "memory";
  join = λ directory name. name;
  file_stem = λ p. some (stem p);
  is_relative = λ p. false;
  current_dir = λ s. done [];
  metadata = λ p s. done true;
  symlink_metadata = λ p s. to_metadata (held_in s.entries p);
  open_file = λ p s. to_file (held_in s.entries p);
  fill = λ s. (value (to_be 32 s.draws), record s { draws = suc s.draws });
  create_dir = λ p s. (done tt, s);
  open_directory = λ p s. (done tt, s);
  sync_all = λ p s. (done tt, s);
  create_file = λ p s. (done (record { written = []; script = [] }), s);
  commit = λ p w s. (done tt, record s { entries = (p, some w.written) ∷ s.entries });
  remove_file = λ p s. removing (held_in s.entries p) p s;
  rename_noreplace = λ p q s. renaming (held_in s.entries q) (held_in s.entries p) p q s;
  noent = 2;
  exist = 17;
  from_raw_os_error = λ c. record { kind = other; raw_os_error = some c };
}
