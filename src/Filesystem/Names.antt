-- ===== src/Filesystem/Names.antt =====
-- Lists of names, for the loops of src/filesystem/mod.rs that try new names until one is free: names
-- that differ from each other and all occur in a list are no more than it has.
use atomic_blob_store.Prelude.{
  ◌+◌, ◌≤◌, ◌≡◌, sym, ap, ◌∙◌, subst, Bool, true, false, ◌||◌, if◌then◌else◌, List, [], ◌∷◌, length,
  All, arith, Bool-cases, inl, inr, ||_false,
}
use atomic_blob_store.Format.Decode.{bytes_eq}
use atomic_blob_store.Format.Envelope.{bytes_eq_self, eq_of_bytes_eq}
use atomic_blob_store.Filesystem.{FilePath}

abbrev pub occurs : FilePath → List FilePath → Bool
occurs x [] = false
occurs x (y ∷ ys) = bytes_eq x y || occurs x ys

abbrev pub IsDistinct : List FilePath → Type 0
IsDistinct [] = Unit
IsDistinct (x ∷ xs) = (occurs x xs ≡ false) × IsDistinct xs

abbrev erase : FilePath → List FilePath → List FilePath
erase x [] = []
erase x (y ∷ ys) = let rest = erase x ys in if bytes_eq x y then ys else y ∷ rest

length-erase :
    (x : FilePath) (ys : List FilePath) → occurs x ys ≡ true → length (erase x ys) + 1 ≡ length ys
length-erase x [] h = cc
length-erase x (y ∷ ys) h = ground (arith, length-erase x ys)

bytes_eq_sym : (x y : FilePath) → bytes_eq x y ≡ false → bytes_eq y x ≡ false
bytes_eq_sym x y h = elim (Bool-cases (bytes_eq y x)) [
  | inl e ↦
      let contradiction : true ≡ false =
        sym (bytes_eq_self x) ∙ ap (bytes_eq x) (sym (eq_of_bytes_eq y x e)) ∙ h in
      absurd (cc)
  | inr e ↦ e
]

occurs-erase :
    (x z : FilePath) (ys : List FilePath)
    → bytes_eq x z ≡ false
    → occurs z ys ≡ true
    → occurs z (erase x ys) ≡ true
occurs-erase x z [] differ h = h
occurs-erase x z (y ∷ ys) differ h = elim (Bool-cases (bytes_eq x y)) [
  | inl e ↦
      let other : bytes_eq z y ≡ false =
        subst (λ q. bytes_eq z q ≡ false) (eq_of_bytes_eq x y e) (bytes_eq_sym x z differ) in
      rw e (ground (arith, other))
  | inr e ↦ rw e (ground (arith, occurs-erase x z ys differ))
]

All-occurs-erase :
    (x : FilePath) (xs ys : List FilePath)
    → occurs x xs ≡ false
    → All (λ z. occurs z ys ≡ true) xs
    → All (λ z. occurs z (erase x ys) ≡ true) xs
All-occurs-erase x [] ys h k = tt
All-occurs-erase x (z ∷ zs) ys h k =
    let (differ, rest) = ||_false (bytes_eq x z) (occurs x zs) h in
    (occurs-erase x z ys differ k.0, All-occurs-erase x zs ys rest k.1)

pub length-IsDistinct :
    (xs ys : List FilePath)
    → IsDistinct xs
    → All (λ z. occurs z ys ≡ true) xs
    → length xs ≤ length ys
length-IsDistinct [] ys d k = omega arith
length-IsDistinct (x ∷ xs) ys d k = omega (
  arith,
  length-erase x ys k.0,
  length-IsDistinct xs (erase x ys) d.1 (All-occurs-erase x xs ys d.0 k.1),
)
