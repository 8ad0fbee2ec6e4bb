-- ===== src/Filesystem/Actions.antt =====
-- Calls that read and change the state `S` of the operating system, and the loops of
-- src/filesystem/mod.rs that try new names until one is free.
use atomic_blob_store.Prelude.{ℕ, zero, suc, List, Option, none, some, ◌≡◌, refl, ◌⊎◌, inl, inr}
use atomic_blob_store.Errors.{IoError, StoreError, Result, ok, err}
use atomic_blob_store.Format.Reader.{IoResult, done, failed}
use atomic_blob_store.Filesystem.Identifier.{Coded, random_identifier}

abbrev pub Action {ℓ} : Type 0 → Type ℓ → Type ℓ
Action S A = S → Result A × S

-- A call that answers with an `io::Error`, or changes nothing but its state.
abbrev pub Call : Type 0 → Type 0 → Type 0
Call S A = S → IoResult A × S

module _ {ℓ} {S : Type 0} {A : Type ℓ} where
  abbrev pub pure : A → Action S A
  pure a s = (ok a, s)

  abbrev pub lift : Result A → Action S A
  lift r s = (r, s)

abbrev pub and_run {ℓ κ} :
    {S : Type 0} {A : Type ℓ} {B : Type κ} → Result A × S → (A → Action S B) → Result B × S
and_run (ok a, s) next = next a s
and_run (err e, s) next = (err e, s)

-- An action that succeeds was reached by one that did.
pub and_run-ok {ℓ κ} :
    {S : Type 0} {A : Type ℓ} {B : Type κ} (x : Result A × S) (next : A → Action S B) (b : B)
    → (and_run x next).0 ≡ ok b
    → (a : A) × (x.0 ≡ ok a) × ((next a x.1).0 ≡ ok b)
and_run-ok (ok a, s) next b h = (a, refl, h)
and_run-ok (err e, s) next b h = absurd (cc)

-- The `?` of a call, with and without a value.
infixl 5 ◌>>=◌ ◌>>◌
abbrev pub ◌>>=◌ {ℓ κ} :
    {S : Type 0} {A : Type ℓ} {B : Type κ} → Action S A → (A → Action S B) → Action S B
(first >>= next) s = and_run (first s) next

abbrev pub ◌>>◌ {ℓ} : {S : Type 0} {B : Type ℓ} → Action S (Unit {0}) → Action S B → Action S B
first >> second = first >>= λ _. second

-- `map_err` on the answer of a call.
abbrev pub answer_or : {S A : Type 0} → (IoError → StoreError) → IoResult A × S → Result A × S
answer_or error (done a, s) = (ok a, s)
answer_or error (failed e, s) = (err (error e), s)

abbrev pub or_fail : {S A : Type 0} → (IoError → StoreError) → Call S A → Action S A
or_fail error call s = answer_or error (call s)

-- One turn of a loop: another name is tried, or the loop is left.
pub data Turn {ℓ} (A : Type ℓ) : Type ℓ where
  again : Turn A
  left : Result A → Turn A

abbrev pub leave {ℓ} : {S : Type 0} {A : Type ℓ} → Result A × S → Turn A × S
leave (r, s) = (left r, s)

abbrev pub or_again {ℓ} :
    {S : Type 0} {A : Type ℓ} → Turn A × S → (S → Option (Result A × S)) → Option (Result A × S)
or_again (again, s) next = next s
or_again (left r, s) next = some (r, s)

-- `random_identifier()?` in a turn, from what `getrandom` answered.
abbrev pub identified {ℓ} :
    {S : Type 0} {A : Type ℓ} → Coded (List ℕ) × S → (List ℕ → S → Turn A × S) → Turn A × S
identified (drawn, s) next = elim (random_identifier drawn) [
  | ok identifier ↦ next identifier s
  | err e ↦ (left (err e), s)
]

-- A loop by its turn; `none` is a loop that takes more turns than it is given.
unfoldable pub turns {ℓ} :
    {S : Type 0} {A : Type ℓ} → ℕ → (S → Turn A × S) → S → Option (Result A × S)
turns zero turn s = none
turns (suc n) turn s = or_again (turn s) (turns n turn)

pub IoResult-cases :
    {S A : Type 0} (x : IoResult A × S)
    → ((a : A) × (s : S) × (x ≡ (done a, s))) ⊎ ((e : IoError) × (s : S) × (x ≡ (failed e, s)))
IoResult-cases (done a, s) = inl (a, s, refl)
IoResult-cases (failed e, s) = inr (e, s, refl)
