-- ===== src/Filesystem/Turns.antt =====
-- The loops of src/filesystem/mod.rs that try new names: what holds when one is left, and that it is
-- left once more names were tried than there are entries.
use atomic_blob_store.Prelude.{
  ℕ, zero, suc, ◌≡◌, refl, ap, Option, none, some, Option-cases, inl, inr, List, [], ◌∷◌, length,
  All, true, arith,
}
use atomic_blob_store.Errors.{Result}
use atomic_blob_store.Filesystem.{FilePath}
use atomic_blob_store.Filesystem.Actions.{Turn, again, left, or_again, turns}
use atomic_blob_store.Filesystem.Names.{occurs, IsDistinct, length-IsDistinct}

module _ {S A : Type 0} where
  -- A turn keeps `I` when the loop goes on, and gives `P` when it is left.
  abbrev pub Turned : (S → Type 0) → (Result A → S → Type 0) → Turn A × S → Type 0
  Turned I P (again, s) = I s
  Turned I P (left r, s) = P r s

  abbrev pub Ended : (Result A → S → Type 0) → Option (Result A × S) → Type 0
  Ended P none = Unit
  Ended P (some (r, s)) = P r s

  or_again-Turned :
      (I : S → Type 0) (P : Result A → S → Type 0) (t : Turn A × S)
      (next : S → Option (Result A × S))
      → Turned I P t
      → ((s : S) → I s → Ended P (next s))
      → Ended P (or_again t next)
  or_again-Turned I P (again, s) next h k = k s h
  or_again-Turned I P (left r, s) next h k = h

  module _ (turn : S → Turn A × S) where
    pub turns-Turned :
        (I : S → Type 0) (P : Result A → S → Type 0)
        → ((s : S) → I s → Turned I P (turn s))
        → (n : ℕ) (s : S) → I s
        → Ended P (turns n turn s)
    unfolding turns
    turns-Turned I P h zero s i = tt
    turns-Turned I P h (suc n) s i =
        or_again-Turned I P (turn s) (turns n turn) (h s i) (turns-Turned I P h n)

    module _ (name : S → FilePath) where
      -- The names that the first turns would try.
      abbrev pub tried : ℕ → S → List FilePath
      tried zero s = []
      tried (suc n) s = name s ∷ tried n (turn s).1

      length-tried : (n : ℕ) (s : S) → length (tried n s) ≡ n
      length-tried zero s = refl
      length-tried (suc n) s = ap suc (length-tried n (turn s).1)

      module _ (I : S → Type 0) (names : List FilePath) where
        -- The loop goes on only where the name was one of `names`.
        abbrev pub Taken : FilePath → Turn A × S → Type 0
        Taken tried_name = Turned (λ s. I s × (occurs tried_name names ≡ true)) (λ r s. Unit {0})

        again-Taken :
            (n : ℕ) (s : S) (t : Turn A × S)
            → Taken (name s) t
            → or_again t (turns n turn) ≡ none
            → ((s' : S)
                → I s'
                → turns n turn s' ≡ none
                → All (λ z. occurs z names ≡ true) (tried n s'))
            → All (λ z. occurs z names ≡ true) (name s ∷ tried n t.1)
        again-Taken n s (again, s') (i, o) e k = (o, k s' i e)
        again-Taken n s (left r, s') h e k = absurd (cc)

        tried-Taken :
            ((s : S) → I s → Taken (name s) (turn s))
            → (n : ℕ) (s : S) → I s
            → turns n turn s ≡ none
            → All (λ z. occurs z names ≡ true) (tried n s)
        unfolding turns
        tried-Taken taken zero s i e = tt
        tried-Taken taken (suc n) s i e =
            again-Taken n s (turn s) (taken s i) e (tried-Taken taken n)

        -- One more name than there are entries, all different, and the loop is left.
        pub turns-ends :
            ((s : S) → I s → Taken (name s) (turn s))
            → (s : S) → I s
            → IsDistinct (tried (suc (length names)) s)
            → (out : Result A × S) × (turns (suc (length names)) turn s ≡ some out)
        turns-ends taken s i d = elim (Option-cases (turns (suc (length names)) turn s)) [
          | inr (out, e) ↦ (out, e)
          | inl e ↦ absurd (
              omega (
                arith,
                length-tried (suc (length names)) s,
                length-IsDistinct (tried (suc (length names)) s) names d
                    (tried-Taken taken (suc (length names)) s i e),
              ))
        ]
