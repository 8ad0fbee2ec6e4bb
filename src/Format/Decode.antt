-- ===== src/Format/Decode.antt =====
-- The two readers of src/format.rs: `decode_reader` returns the payload, and
-- `validate_envelope_reader` checks an envelope in chunks of constant size.
use atomic_blob_store.Prelude.{
  ℕ, ◌+◌, ◌-◌, ◌<◌, Bool, true, false, ◌&&◌, List, [], ◌∷◌, ◌++◌, leb, ◌==◌, min, arith, ltb,
  Option, none, some, if◌then◌else◌,
}
use atomic_blob_store.Prelude.Bytes.{to_be, from_be, u64_max, isize_max}
use atomic_blob_store.Prelude.Order.{lt_wf}
use atomic_blob_store.Errors.{
  Result, ok, err, ◌>>=◌, ◌>>◌, require, BlobMetadata, magic, version, payload_length, payload,
  checksum, invalid_envelope_domain, unsupported_envelope_version, blob_too_large,
  invalid_payload_length, trailing_data, checksum_mismatch, io, read_envelope,
}
use atomic_blob_store.Config.{
  BlobFormatIdentity, domain_tag_len, header_len, checksum_len, stream_chunk_size,
}
use atomic_blob_store.Format.Crc.{Crc32c}
use atomic_blob_store.Format.Reader.{Reader, IoResult, done, failed, read_count, read_section}
use mathlib.Core.Logic.{dite}
use mathlib.Core.WellFounded.{Acc}
use native.Mathlib.Decide.{dec_lt}
use Prim.Native.Nat.{zero, suc}

abbrev pub bytes_eq : List ℕ → List ℕ → Bool
bytes_eq [] [] = true
bytes_eq (x ∷ xs) (y ∷ ys) = x == y && bytes_eq xs ys
bytes_eq _ _ = false

-- The match on `reader.read(&mut trailing)`.
abbrev pub expect_end : IoResult ℕ → Result (Unit {0})
expect_end (done zero) = ok tt
expect_end (done (suc n)) = err trailing_data
expect_end (failed e) = err (io read_envelope e)

pub chunk_shrinks : (n : ℕ) → 0 < n → n - min n stream_chunk_size < n
chunk_shrinks n h = omega arith

-- The declared length for which `decode_reader_with_usize_limit` allocates the payload, where it
-- comes so far.
unfoldable pub declared_length : BlobFormatIdentity → Reader → ℕ → ℕ → Result ℕ
declared_length format r maximum usize_limit = do
  (found, r₁) ← read_section r 8 magic
  require (bytes_eq found format.domain_tag) (invalid_envelope_domain format.domain_tag found)
  (v, r₂) ← read_section r₁ 2 version
  require (from_be 0 v == format.envelope_version) (unsupported_envelope_version (from_be 0 v))
  (l, r₃) ← read_section r₂ 8 payload_length
  let declared = from_be 0 l
  require (leb declared maximum) (blob_too_large declared maximum)
  require (leb declared usize_limit) (invalid_payload_length declared)
  require (leb (declared + (header_len + checksum_len)) u64_max) (invalid_payload_length declared)
  ok declared

-- `vec![0; payload_len]` panics beyond `isize::MAX` bytes.
abbrev pub is_over_capacity : Result ℕ → Bool
is_over_capacity (ok n) = ltb isize_max n
is_over_capacity (err e) = false

unfoldable pub decode_panics : BlobFormatIdentity → Reader → ℕ → Bool
decode_panics format r maximum = is_over_capacity (declared_length format r maximum u64_max)

module _ (crc : Crc32c) where
  open crc use {crc32c, crc32c_append}

  -- What it returns where the allocation of the payload does not panic.
  unfoldable pub decode_reader_with_usize_limit :
      BlobFormatIdentity → Reader → ℕ → ℕ → Result (List ℕ)
  decode_reader_with_usize_limit format r maximum usize_limit = do
    (found, r₁) ← read_section r 8 magic
    require (bytes_eq found format.domain_tag) (invalid_envelope_domain format.domain_tag found)
    (v, r₂) ← read_section r₁ 2 version
    require (from_be 0 v == format.envelope_version) (unsupported_envelope_version (from_be 0 v))
    (l, r₃) ← read_section r₂ 8 payload_length
    let declared = from_be 0 l
    require (leb declared maximum) (blob_too_large declared maximum)
    require (leb declared usize_limit) (invalid_payload_length declared)
    require (leb (declared + (header_len + checksum_len)) u64_max) (invalid_payload_length declared)
    (body, r₄) ← read_section r₃ declared payload
    (sum, r₅) ← read_section r₄ 4 checksum
    expect_end (read_count r₅.bytes r₅.ending)
    let actual =
        crc32c_append
          (crc32c_append
            (crc32c_append (crc32c format.domain_tag) (to_be 2 format.envelope_version))
            (to_be 8 declared))
          body
    require (from_be 0 sum == actual) (checksum_mismatch (from_be 0 sum) actual)
    ok body

  unfoldable pub decode_reader : BlobFormatIdentity → Reader → ℕ → Result (List ℕ)
  decode_reader format r maximum = decode_reader_with_usize_limit format r maximum u64_max

  -- `decode_reader` with its panic, as `none`.
  unfoldable pub decode_reader_or_panic : BlobFormatIdentity → Reader → ℕ → Option (Result (List ℕ))
  decode_reader_or_panic format r maximum =
      if decode_panics format r maximum then none else some (decode_reader format r maximum)

  -- The loop of `validate_envelope_reader` over the payload.
  unfoldable pub validate_payload :
      (remaining : ℕ) → Acc ◌<◌ remaining → ℕ → Reader → Result (ℕ × Reader)
  validate_payload remaining (Acc.intro _ smaller) actual r =
      dite (dec_lt 0 remaining)
        (λ more. do
          let requested = min remaining stream_chunk_size
          (chunk, r') ← read_section r requested payload
          validate_payload (remaining - requested) (smaller _ (chunk_shrinks remaining more))
              (crc32c_append actual chunk) r')
        (λ _. ok (actual, r))

  unfoldable pub validate_envelope_reader : BlobFormatIdentity → Reader → ℕ → Result BlobMetadata
  validate_envelope_reader format r maximum = do
    (found, r₁) ← read_section r domain_tag_len magic
    require (bytes_eq found format.domain_tag) (invalid_envelope_domain format.domain_tag found)
    (v, r₂) ← read_section r₁ 2 version
    require (from_be 0 v == format.envelope_version) (unsupported_envelope_version (from_be 0 v))
    (l, r₃) ← read_section r₂ 8 payload_length
    let declared = from_be 0 l
    require (leb declared maximum) (blob_too_large declared maximum)
    (actual, r₄) ← validate_payload declared (lt_wf.apply declared) (crc32c (found ++ (v ++ l))) r₃
    (sum, r₅) ← read_section r₄ checksum_len checksum
    expect_end (read_count r₅.bytes r₅.ending)
    require (from_be 0 sum == actual) (checksum_mismatch (from_be 0 sum) actual)
    ok (record { payload_len = declared })
