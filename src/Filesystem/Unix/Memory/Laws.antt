-- ===== src/Filesystem/Unix/Memory/Laws.antt =====
-- The system in memory behaves as the operations of src/filesystem/mod.rs on Unix rely on.
use atomic_blob_store.Prelude.{
  ℕ, ◌≡◌, ◌≢◌, refl, sym, ap, ◌∙◌, true, ltb, if◌then◌else◌, Option, none, some, List, [], ◌∷◌,
  length, All, Bool-cases, inl, inr, arith, ltb→lt, &&_true,
}
use atomic_blob_store.Prelude.Bytes.{IsByte}
use atomic_blob_store.Errors.{IoError, not_found, other}
use atomic_blob_store.Format.Reader.{IoResult, done, failed, plain_error}
use atomic_blob_store.Format.Decode.{bytes_eq}
use atomic_blob_store.Format.Stream.{Writer}
use atomic_blob_store.Format.Load.{File, is_not_found}
use atomic_blob_store.Filesystem.{FilePath}
use atomic_blob_store.Filesystem.Files.{put, renamed}
use atomic_blob_store.Filesystem.Identifier.{Coded, value, code}
use atomic_blob_store.Filesystem.Inspect.{Metadata}
use atomic_blob_store.Filesystem.Names.{occurs}
use atomic_blob_store.Filesystem.Unix.Lawful.{Lawful, Listed}
use atomic_blob_store.Filesystem.Unix.Memory.{
  Memory, held_in, all_bytes, to_file, to_metadata, removing, renaming, memory,
}

all_bytes-IsByte : (bs : List ℕ) → all_bytes bs ≡ true → All IsByte bs
all_bytes-IsByte [] h = tt
all_bytes-IsByte (b ∷ bs) h =
    let (first, rest) = &&_true (ltb b 256) (all_bytes bs) h in
    (ltb→lt b 256 first, all_bytes-IsByte bs rest)

abbrev files : Memory → FilePath → Option (List ℕ)
files s = held_in s.entries

to_file-done :
    (v : Option (List ℕ)) (f : File)
    → to_file v ≡ done f
    → (v ≡ some f.front.bytes) × All IsByte f.front.bytes
to_file-done none f e = absurd (cc)
to_file-done (some b) f e = elim (Bool-cases (all_bytes b)) [
  | inl h ↦ ground (arith, all_bytes-IsByte b h, h)
  | inr h ↦ absurd (let stop : failed (plain_error other) ≡ done f = rw h at e in cc)
]

to_file-failed :
    (v : Option (List ℕ)) (x : IoError)
    → to_file v ≡ failed x
    → is_not_found x.kind ≡ true
    → v ≡ none
to_file-failed none x e h = refl
to_file-failed (some b) x e h = elim (Bool-cases (all_bytes b)) [
  | inl k ↦ ground (arith, k)
  | inr k ↦ ground (arith, k)
]

removing-done :
    (v : Option (List ℕ)) (p : FilePath) (s s' : Memory)
    → removing v p s ≡ (done tt, s')
    → files s' ≡ put p none (files s)
unfolding put
removing-done none p s s' e =
    absurd (let stop : failed (plain_error not_found) ≡ done tt = ap (λ x. x.0) e in cc)
removing-done (some b) p s s' e = ap (λ x. files x.1) (sym e)

removing-failed :
    (v : Option (List ℕ)) (p : FilePath) (x : IoError) (s s' : Memory)
    → removing v p s ≡ (failed x, s')
    → (files s' ≡ files s) × (v ≡ none)
removing-failed none p x s s' e = (ap (λ y. files y.1) (sym e), refl)
removing-failed (some b) p x s s' e = absurd (let stop : done tt ≡ failed x = ap (λ y. y.0) e in cc)

renaming-value :
    (d b : Option (List ℕ)) (p q : FilePath) (s s' : Memory)
    → b ≡ files s p
    → renaming d b p q s ≡ (value tt, s')
    → (d ≡ none) × (files s' ≡ renamed p q (files s))
unfolding renamed put
renaming-value (some d) b p q s s' h e =
    absurd (let stop : code 17 ≡ value tt = ap (λ x. x.0) e in cc)
renaming-value none none p q s s' h e =
    absurd (let stop : code 2 ≡ value tt = ap (λ x. x.0) e in cc)
renaming-value none (some b) p q s s' h e = (
  refl,
  ap (λ x. files x.1) (sym e)
      ∙ ap (λ v. λ r. if bytes_eq r q then v else if bytes_eq r p then none else files s r) h,
)

abbrev pub code_of : Coded (Unit {0}) → ℕ
code_of (value u) = 0
code_of (code c) = c

pub renaming-code :
    (d b : Option (List ℕ)) (p q : FilePath) (c : ℕ) (s s' : Memory)
    → renaming d b p q s ≡ (code c, s')
    → (s ≡ s') × (c ≡ 17 → d ≢ none)
renaming-code (some d) b p q c s s' e = (ap (λ x. x.1) e, λ h k. cc)
renaming-code none none p q c s s' e =
    (ap (λ x. x.1) e, λ h. absurd (let same : 2 ≡ 17 = ap (λ x. code_of x.0) e ∙ h in omega arith))
renaming-code none (some b) p q c s s' e =
    absurd (let stop : value tt ≡ code c = ap (λ x. x.0) e in cc)

abbrev pub names_of : List (FilePath × Option (List ℕ)) → List FilePath
names_of [] = []
names_of ((p, v) ∷ l) = p ∷ names_of l

pub occurs-held :
    (l : List (FilePath × Option (List ℕ))) (q : FilePath)
    → held_in l q ≢ none
    → occurs q (names_of l) ≡ true
occurs-held [] q h = absurd (h refl)
occurs-held ((p, v) ∷ l) q h = ground (arith, occurs-held l q)

to_metadata-done :
    (v : Option (List ℕ)) (m : Metadata)
    → to_metadata v ≡ done m
    → (b : List ℕ) × (v ≡ some b) × (m.len ≡ length b)
to_metadata-done none m e = absurd (cc)
to_metadata-done (some b) m e = (b, refl, cc)

to_metadata-failed : (v : Option (List ℕ)) (x : IoError) → to_metadata v ≡ failed x → v ≡ none
to_metadata-failed none x e = refl
to_metadata-failed (some b) x e = absurd (cc)

abbrev written_by : IoResult Writer → List ℕ
written_by (done w) = w.written
written_by (failed e) = []

pub memory-Lawful : Lawful memory
unfolding put
memory-Lawful = record {
  files = files;
  opened = λ p f s e k. (to_file-done (files s p) f e).0;
  opened_bytes = λ p f s e. (to_file-done (files s p) f e).1;
  not_opened = λ p x s e k. to_file-failed (files s p) x e k;
  inspected = λ p m s e k. to_metadata-done (files s p) m e;
  not_inspected = λ p x s e k. to_metadata-failed (files s p) x e;
  filled = λ s. refl;
  directory_opened = λ p s. refl;
  synced = λ p s. refl;
  created = λ p s. refl;
  created_empty = λ p w s s' e. ap (λ x. written_by x.0) (sym e);
  committed = λ p w s s' e. ap (λ x. files x.1) (sym e);
  not_committed = λ p w x s s' e. absurd (let stop : done tt ≡ failed x = ap (λ y. y.0) e in cc);
  removed = λ p s s' e. removing-done (files s p) p s s' e;
  not_removed =
      λ p x s s' e. let (same, gone) = removing-failed (files s p) p x s s' e in (same, λ _. gone);
  moved = λ p q s s' e. renaming-value (files s q) (files s p) p q s s' refl e;
  not_moved = λ p q c s s' e. ap files (sym (renaming-code (files s q) (files s p) p q c s s' e).0);
}

unfoldable pub listed_memory : Listed memory
listed_memory = record {
  names = λ s. names_of s.entries;
  filled = λ s. refl;
  not_moved = λ p q c s s' e.
      ap (λ x. names_of x.entries) (sym (renaming-code (files s q) (files s p) p q c s s' e).0);
  existing = λ p q c s s' e h.
      occurs-held s.entries q ((renaming-code (files s q) (files s p) p q c s s' e).1 h);
}
