-- ===== src/Format/Envelope.antt =====
-- The bytes that `encode_envelope` writes.
use atomic_blob_store.Prelude.{
  ℕ, ◌≤◌, ◌≡◌, refl, true, List, [], ◌∷◌, ◌++◌, length, append_assoc, arith,
}
use atomic_blob_store.Prelude.Bytes.{to_be}
use atomic_blob_store.Errors.{ok}
use atomic_blob_store.Config.{BlobFormatIdentity}
use atomic_blob_store.Format.Crc.{Crc32c}
use atomic_blob_store.Format.Encode.{envelope_header, encode_envelope, envelope_parts}
use atomic_blob_store.Format.Decode.{bytes_eq}

-- The bytes of a header.
abbrev pub header : BlobFormatIdentity → ℕ → List ℕ
header format n = format.domain_tag ++ (to_be 2 format.envelope_version ++ to_be 8 n)

pub header-append :
    (format : BlobFormatIdentity) (n : ℕ) (t : List ℕ)
    → header format n ++ t
      ≡ format.domain_tag ++ (to_be 2 format.envelope_version ++ (to_be 8 n ++ t))
header-append format n t = simp append_assoc

pub bytes_eq_self : (xs : List ℕ) → bytes_eq xs xs ≡ true
bytes_eq_self [] = refl
bytes_eq_self (x ∷ xs) = ground (arith, bytes_eq_self xs)

pub eq_of_bytes_eq : (xs ys : List ℕ) → bytes_eq xs ys ≡ true → xs ≡ ys
eq_of_bytes_eq [] [] h = refl
eq_of_bytes_eq [] (y ∷ ys) h = cc
eq_of_bytes_eq (x ∷ xs) [] h = cc
eq_of_bytes_eq (x ∷ xs) (y ∷ ys) h = ground (arith, eq_of_bytes_eq xs ys)

module _ (crc : Crc32c) where
  open crc use {crc32c, crc32c_append, append_lem, fits}

  -- The bytes of an envelope.
  abbrev pub envelope : BlobFormatIdentity → List ℕ → List ℕ
  envelope format p =
      header format (length p) ++ (p ++ to_be 4 (crc32c (header format (length p) ++ p)))

  pub encode_envelope_lem :
      (format : BlobFormatIdentity) (p : List ℕ) (maximum : ℕ)
      → length p ≤ maximum
      → encode_envelope crc format p maximum ≡ ok (envelope format p)
  unfolding encode_envelope envelope_parts envelope_header
  encode_envelope_lem format p maximum h = ground (arith, append_lem (header format (length p)) p)

  pub encode_envelope-ok :
      (format : BlobFormatIdentity) (p : List ℕ) (maximum : ℕ) (e : List ℕ)
      → encode_envelope crc format p maximum ≡ ok e
      → (length p ≤ maximum) × (e ≡ envelope format p)
  unfolding encode_envelope envelope_parts envelope_header
  encode_envelope-ok format p maximum e h = ground (arith, append_lem (header format (length p)) p)

  -- `decode_reader` sums up the sections one by one.
  pub crc_sections :
      (format : BlobFormatIdentity) (n : ℕ) (p : List ℕ)
      → crc32c_append
          (crc32c_append
            (crc32c_append (crc32c format.domain_tag) (to_be 2 format.envelope_version))
            (to_be 8 n))
          p
        ≡ crc32c (header format n ++ p)
  crc_sections format n p = simp (append_lem, append_assoc)

  pub envelope-append :
      (format : BlobFormatIdentity) (p rest : List ℕ)
      → envelope format p ++ rest
        ≡ format.domain_tag
          ++ (to_be 2 format.envelope_version
              ++ (to_be 8 (length p)
                  ++ (p ++ (to_be 4 (crc32c (header format (length p) ++ p)) ++ rest))))
  envelope-append format p rest = simp append_assoc
