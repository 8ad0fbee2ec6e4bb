-- ===== src/Filesystem/Files.antt =====
-- What the operations of src/filesystem/mod.rs do to the entries of a directory.
use atomic_blob_store.Prelude.{
  ◌≡◌, refl, sym, ap, ◌∙◌, false, if◌then◌else◌, Option, none, inl, inr, Bool-cases,
}
use atomic_blob_store.Format.Decode.{bytes_eq}
use atomic_blob_store.Format.Envelope.{bytes_eq_self, eq_of_bytes_eq}
use atomic_blob_store.Filesystem.{FilePath}
use mathlib.Core.Path.{fun_ext}
use mathlib.Core.Option

-- What each entry holds.
abbrev pub Entries : Type 0 → Type 0
Entries A = FilePath → Option A

module _ {A : Type 0} where
  unfoldable pub put : FilePath → Option A → Entries A → Entries A
  put p v f = λ q. if bytes_eq q p then v else f q

  unfoldable pub renamed : FilePath → FilePath → Entries A → Entries A
  renamed source destination f = put destination (f source) (put source none f)

  pub put_same : (p : FilePath) (v : Option A) (f : Entries A) → put p v f p ≡ v
  unfolding put
  put_same p v f = rw bytes_eq_self

  pub put_other :
      (p q : FilePath) (v : Option A) (f : Entries A) → bytes_eq q p ≡ false → put p v f q ≡ f q
  unfolding put
  put_other p q v f h = rw h

  -- To remove what is not there changes nothing.
  pub put-none : (p : FilePath) (f : Entries A) → f p ≡ none → put p none f ≡ f
  unfolding put
  put-none p f h = fun_ext λ q. elim (Bool-cases (bytes_eq q p)) [
    | inl e ↦ rw e (sym (rw (eq_of_bytes_eq q p e) h))
    | inr e ↦ rw e
  ]

module _ {A B : Type 0} (g : A → B) where
  -- The entries seen through a function.
  unfoldable pub seen : Entries A → Entries B
  seen f q = Option.map g (f q)

  pub seen-put :
      (p : FilePath) (v : Option A) (f : Entries A)
      → seen (put p v f) ≡ put p (Option.map g v) (seen f)
  unfolding seen put
  seen-put p v f = fun_ext λ q. elim (Bool-cases (bytes_eq q p)) [ inl e ↦ rw e | inr e ↦ rw e ]

  pub seen-renamed : (p q : FilePath) (f : Entries A) → seen (renamed p q f) ≡ renamed p q (seen f)
  unfolding renamed
  seen-renamed p q f =
      seen-put q (f p) (put p none f)
      ∙ ap (put q (Option.map g (f p))) (seen-put p none f)
      ∙ unfold seen in refl
