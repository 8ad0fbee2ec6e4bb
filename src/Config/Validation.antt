-- ===== src/Config/Validation.antt =====
-- What the checks of src/config.rs let through.
use atomic_blob_store.Prelude.{
  ℕ, ◌+◌, ◌≤◌, ◌≡◌, ◌↔◌, ◌⊎◌, refl, List, [], ◌∷◌, length, All, arith, true, &&_true,
}
use atomic_blob_store.Prelude.Bytes.{u64_max}
use atomic_blob_store.Errors.{ok}
use atomic_blob_store.Config.{
  BlobFormatIdentity, new_identity, validate_suffix, validate_maximum, is_suffix_byte,
  all_suffix_bytes,
}

-- A byte that the documented pattern `[a-z0-9_-]` matches.
abbrev pub IsSuffixByte : ℕ → Type 0
IsSuffixByte b = ((b'a' ≤ b) × (b ≤ b'z')) ⊎ ((b'0' ≤ b) × (b ≤ b'9')) ⊎ (b ≡ b'_') ⊎ (b ≡ b'-')

-- The documented shape of a suffix, `\.[a-z0-9_-]+` in at most 32 bytes.
pub record IsSuffix (suffix : List ℕ) : Type 0 where
  pub rest : List ℕ
  pub dotted : suffix ≡ b'.' ∷ rest
  pub bytes : All IsSuffixByte rest
  pub long : 1 ≤ length rest
  pub short : length rest ≤ 31

pub record IsIdentity (format : BlobFormatIdentity) : Type 0 where
  pub tag : length format.domain_tag ≡ 8
  pub suffix : IsSuffix format.filename_suffix
  pub version : format.envelope_version ≡ 1

is_suffix_byte_iff : (b : ℕ) → (is_suffix_byte b ≡ true) ↔ IsSuffixByte b
is_suffix_byte_iff b = (λ h. ground arith, λ h. ground arith)

all_suffix_bytes-All : (l : List ℕ) → all_suffix_bytes l ≡ true → All IsSuffixByte l
all_suffix_bytes-All [] h = tt
all_suffix_bytes-All (b ∷ l) h =
    let (first, rest) = &&_true (is_suffix_byte b) (all_suffix_bytes l) h in
    ((is_suffix_byte_iff b).0 first, all_suffix_bytes-All l rest)

All-all_suffix_bytes : (l : List ℕ) → All IsSuffixByte l → all_suffix_bytes l ≡ true
All-all_suffix_bytes [] h = refl
All-all_suffix_bytes (b ∷ l) h = rw ((is_suffix_byte_iff b).1 h.0, All-all_suffix_bytes l h.1)

validate_suffix-IsSuffix : (suffix : List ℕ) → validate_suffix suffix ≡ ok tt → IsSuffix suffix
unfolding validate_suffix
validate_suffix-IsSuffix [] h = cc
validate_suffix-IsSuffix (b ∷ l) h = record {
  rest = l;
  dotted = ground arith;
  bytes = all_suffix_bytes-All l (ground arith);
  long = ground arith;
  short = ground arith;
}

IsSuffix-validate_suffix : (suffix : List ℕ) → IsSuffix suffix → validate_suffix suffix ≡ ok tt
unfolding validate_suffix
IsSuffix-validate_suffix suffix h =
    rw (h.dotted, All-all_suffix_bytes h.rest h.bytes) (ground (arith, h.long, h.short))

-- `BlobFormatIdentity::new` accepts exactly the identities with an eight-byte tag, a suffix of the
-- documented shape and version 1, and stores the three values unchanged.
pub new_identity_iff :
    (domain suffix : List ℕ) (version : ℕ) (format : BlobFormatIdentity)
    → (new_identity domain suffix version ≡ ok format) ↔ (
        (format
          ≡ record { domain_tag = domain; filename_suffix = suffix; envelope_version = version })
        × IsIdentity
            (record { domain_tag = domain; filename_suffix = suffix; envelope_version = version }))
unfolding new_identity
new_identity_iff domain suffix version format = (
  λ h. (
    ground arith,
    record {
      tag = ground arith;
      suffix = validate_suffix-IsSuffix suffix (ground arith);
      version = ground arith;
    },
  ),
  λ (e, v).
      let checked = IsSuffix-validate_suffix suffix v.suffix in
      ground (arith, checked, v.tag, v.version),
)

-- `validate_maximum` accepts exactly the maxima for which the length of a complete envelope is a
-- `u64`.
pub validate_maximum_iff :
    (maximum : ℕ) → (validate_maximum maximum ≡ ok tt) ↔ (maximum + 22 ≤ u64_max)
unfolding validate_maximum
validate_maximum_iff maximum = (λ h. ground arith, λ h. ground arith)
