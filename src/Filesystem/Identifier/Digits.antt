-- ===== src/Filesystem/Identifier/Digits.antt =====
-- The identifiers that `random_identifier` of src/filesystem/mod.rs makes.
use atomic_blob_store.Prelude.{
  ℕ, ◌+◌, ◌-◌, ◌*◌, ◌/◌, ◌%◌, ◌<◌, ◌≡◌, refl, true, ltb, if◌then◌else◌, List, [], ◌∷◌, length, All,
  arith,
}
use atomic_blob_store.Prelude.Bytes.{IsByte}
use atomic_blob_store.Errors.{ok}
use atomic_blob_store.Filesystem.Identifier.{hex_digit, hex, value, random_identifier}
use atomic_blob_store.Filesystem.Windows.Staging.{is_hex, all_hex, is_hex_64}

hex_digit-is_hex : (n : ℕ) → n < 16 → is_hex (hex_digit n) ≡ true
hex_digit-is_hex n h = ground arith

pub length-hex : (bs : List ℕ) → length (hex bs) ≡ 2 * length bs
unfolding hex
length-hex [] = refl
length-hex (b ∷ bs) = omega (arith, length-hex bs)

pub all_hex-hex : (bs : List ℕ) → All IsByte bs → all_hex (hex bs) ≡ true
unfolding hex
all_hex-hex [] h = refl
all_hex-hex (b ∷ bs) h = rw (
  hex_digit-is_hex (b / 16) (omega (arith, h.0)),
  hex_digit-is_hex (b % 16) (omega arith),
  all_hex-hex bs h.1,
)

-- The number of a digit.
abbrev digit_value : ℕ → ℕ
digit_value d = if ltb d b'a' then d - b'0' else d - b'a' + 10

digit_value-hex_digit : (n : ℕ) → n < 16 → digit_value (hex_digit n) ≡ n
digit_value-hex_digit n h = ground arith

abbrev pub unhex : List ℕ → List ℕ
unhex [] = []
unhex (high ∷ []) = []
unhex (high ∷ low ∷ digits) = (digit_value high * 16 + digit_value low) ∷ unhex digits

pub unhex-hex : (bs : List ℕ) → All IsByte bs → unhex (hex bs) ≡ bs
unfolding hex
unhex-hex [] h = refl
unhex-hex (b ∷ bs) h =
    let both : b / 16 * 16 + b % 16 ≡ b = omega arith in
    rw (
      digit_value-hex_digit (b / 16) (omega (arith, h.0)),
      digit_value-hex_digit (b % 16) (omega arith),
      unhex-hex bs h.1,
      both,
    )

-- From 32 random bytes an identifier of 64 lowercase hexadecimal digits is made, and the bytes can
-- be read back from it, so that different bytes make different identifiers.
pub random_identifier-value :
    (bytes : List ℕ)
    → length bytes ≡ 32
    → All IsByte bytes
    → (identifier : List ℕ) × (random_identifier (value bytes) ≡ ok identifier)
      × (is_hex_64 identifier ≡ true)
      × (unhex identifier ≡ bytes)
random_identifier-value bytes size h =
    let long : length (hex bytes) ≡ 64 = omega (arith, length-hex bytes, size) in
    (hex bytes, refl, rw (long, all_hex-hex bytes h), unhex-hex bytes h)
