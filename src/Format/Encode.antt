-- ===== src/Format/Encode.antt =====
-- The encoder of src/format.rs.
use atomic_blob_store.Prelude.{ℕ, List, ◌++◌, length, ltb, if◌then◌else◌}
use atomic_blob_store.Prelude.Bytes.{to_be}
use atomic_blob_store.Errors.{Result, ok, err, ◌>>=◌, blob_too_large}
use atomic_blob_store.Config.{BlobFormatIdentity}
use atomic_blob_store.Format.Crc.{Crc32c}

unfoldable pub envelope_header : BlobFormatIdentity → ℕ → ℕ → Result (List ℕ)
envelope_header format size maximum =
    if ltb maximum size
    then err (blob_too_large size maximum)
    else ok (format.domain_tag ++ (to_be 2 format.envelope_version ++ to_be 8 size))

module _ (crc : Crc32c) where
  open crc use {crc32c, crc32c_append}

  unfoldable pub envelope_parts : BlobFormatIdentity → List ℕ → ℕ → Result (List ℕ × List ℕ)
  envelope_parts format payload maximum = do
    header ← envelope_header format (length payload) maximum
    ok (header, to_be 4 (crc32c_append (crc32c header) payload))

  unfoldable pub encode_envelope : BlobFormatIdentity → List ℕ → ℕ → Result (List ℕ)
  encode_envelope format payload maximum = do
    (header, checksum) ← envelope_parts format payload maximum
    ok (header ++ (payload ++ checksum))
