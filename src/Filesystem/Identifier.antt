-- ===== src/Filesystem/Identifier.antt =====
-- `random_identifier` of src/filesystem/mod.rs. What `getrandom::fill` leaves in the 32 bytes, or the
-- code of its error, is given.
pub mod Digits
use atomic_blob_store.Prelude.{ℕ, ◌+◌, ◌-◌, ◌/◌, ◌%◌, ltb, if◌then◌else◌, List, [], ◌∷◌}
use atomic_blob_store.Errors.{Result, ok, err, identifier_generation}

-- The answer of a call that reports its errors by their codes.
pub data Coded (A : Type 0) : Type 0 where
  value : A → Coded A
  code : ℕ → Coded A

-- `HEX_DIGITS[digit]`.
abbrev pub hex_digit : ℕ → ℕ
hex_digit n = if ltb n 10 then b'0' + n else b'a' + (n - 10)

unfoldable pub hex : List ℕ → List ℕ
hex [] = []
hex (byte ∷ bytes) = hex_digit (byte / 16) ∷ hex_digit (byte % 16) ∷ hex bytes

abbrev pub random_identifier : Coded (List ℕ) → Result (List ℕ)
random_identifier (value bytes) = ok (hex bytes)
random_identifier (code c) = err (identifier_generation c)
