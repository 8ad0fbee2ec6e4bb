-- ===== src/Config.antt =====
-- src/config.rs and `validate_maximum` of src/engine/mod.rs.
-- Text is the list of its bytes; `usize` and `u64` are both 64 bits wide.
pub mod Validation
pub mod Tests
use atomic_blob_store.Prelude.{
  ℕ, ◌+◌, ◌*◌, Bool, true, false, ◌&&◌, ◌||◌, List, [], ◌∷◌, ◌++◌, length, ltb, leb, ◌==◌,
  if◌then◌else◌,
}
use atomic_blob_store.Prelude.Bytes.{u64_max}
use atomic_blob_store.Errors.{
  Result, ok, err, ◌>>=◌, ◌>>◌, configuration, invalid_domain_tag_length, invalid_filename_suffix,
  unsupported_configured_envelope_version, invalid_maximum_blob_size,
}

abbrev pub domain_tag_len : ℕ
domain_tag_len = 8

abbrev pub envelope_version_v1 : ℕ
envelope_version_v1 = 1

abbrev pub max_filename_suffix_len : ℕ
max_filename_suffix_len = 32

abbrev pub header_len : ℕ
header_len = 18

abbrev pub checksum_len : ℕ
checksum_len = 4

abbrev pub stream_chunk_size : ℕ
stream_chunk_size = 64 * 1024

abbrev pub stream_channel_capacity : ℕ
stream_channel_capacity = 2

abbrev pub default_max_blob_size : ℕ
default_max_blob_size = 64 * 1024 * 1024

abbrev pub default_max_concurrent_operations : ℕ
default_max_concurrent_operations = 4

pub record BlobFormatIdentity : Type 0 where
  pub domain_tag : List ℕ
  pub filename_suffix : List ℕ
  pub envelope_version : ℕ

-- The test of one byte behind the leading dot.
abbrev pub is_suffix_byte : ℕ → Bool
is_suffix_byte byte =
    (leb b'a' byte && leb byte b'z')
    || (leb b'0' byte && leb byte b'9')
    || (byte == b'_' || byte == b'-')

abbrev pub all_suffix_bytes : List ℕ → Bool
all_suffix_bytes [] = true
all_suffix_bytes (byte ∷ rest) = is_suffix_byte byte && all_suffix_bytes rest

-- `starts_with('.')` and the test of `suffix[1..]`.
abbrev pub is_dotted : List ℕ → Bool
is_dotted [] = false
is_dotted (first ∷ rest) = first == b'.' && all_suffix_bytes rest

pub validate_suffix : List ℕ → Result (Unit {0})
validate_suffix suffix =
    if leb 2 (length suffix) && leb (length suffix) max_filename_suffix_len && is_dotted suffix
    then ok tt
    else err (configuration invalid_filename_suffix)

-- `<[u8; DOMAIN_TAG_LEN]>::try_from`.
abbrev pub to_domain_tag : List ℕ → Result (List ℕ)
to_domain_tag domain =
    if length domain == domain_tag_len
    then ok domain
    else err (configuration (invalid_domain_tag_length (length domain)))

pub new_identity : List ℕ → List ℕ → ℕ → Result BlobFormatIdentity
new_identity domain suffix version = do
  tag ← to_domain_tag domain
  validate_suffix suffix
  if version == envelope_version_v1
      then ok (record { domain_tag = tag; filename_suffix = suffix; envelope_version = version })
      else err (configuration (unsupported_configured_envelope_version version))

-- `max_concurrent_operations` is a `NonZeroUsize`.
pub record AtomicBlobStoreOptions : Type 0 where
  pub format : BlobFormatIdentity
  pub max_blob_size : ℕ
  pub max_concurrent_operations : ℕ

abbrev new_options : BlobFormatIdentity → AtomicBlobStoreOptions
new_options format = record {
  format = format;
  max_blob_size = default_max_blob_size;
  max_concurrent_operations = default_max_concurrent_operations;
}

-- `checked_add` of the envelope's overhead.
unfoldable pub validate_maximum : ℕ → Result (Unit {0})
validate_maximum maximum =
    if ltb u64_max (maximum + (header_len + checksum_len))
    then err (configuration (invalid_maximum_blob_size maximum))
    else ok tt
