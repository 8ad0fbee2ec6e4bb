-- ===== src/Format/RoundTrip.antt =====
-- `decode_reader` against `encode_envelope`.
use atomic_blob_store.Prelude.{
  ℕ, ◌+◌, ◌^◌, ◌≤◌, ◌<◌, ◌≡◌, refl, subst, ◌↔◌, none, some, Option, List, [], ◌∷◌, ◌++◌, length,
  All, append-nil, arith, ◌==◌, leb, ==_self, le→leb,
}
use atomic_blob_store.Prelude.Bytes.{
  IsByte, u64_max, to_be, from_be, length-to_be, from_be-to_be, to_be-from_be,
}
use atomic_blob_store.Errors.{
  IoError, ok, ◌>>◌, unbind, unrequire, require, checksum_mismatch, ok-injective, magic, version,
  payload_length, payload, checksum, EnvelopeSection,
}
use atomic_blob_store.Config.{BlobFormatIdentity}
use atomic_blob_store.Format.Crc.{Crc32c}
use atomic_blob_store.Format.Reader.{
  Reader, read_count, read_section, read_section-append, read_section-ok,
}
use atomic_blob_store.Format.Encode.{encode_envelope}
use atomic_blob_store.Format.Decode.{
  bytes_eq, expect_end, decode_reader_with_usize_limit, decode_reader,
}
use atomic_blob_store.Format.Envelope.{
  header, header-append, envelope, bytes_eq_self, eq_of_bytes_eq, encode_envelope_lem,
  encode_envelope-ok, crc_sections, envelope-append,
}

All-split : (xs ys : List ℕ) → All IsByte (xs ++ ys) → All IsByte xs × All IsByte ys
All-split [] ys h = (tt, h)
All-split (x ∷ xs) ys h = let (k, l) = All-split xs ys h.1 in ((h.0, k), l)

-- A section that was read, as bytes and as a number.
pub section_facts :
    (r : Reader) (n : ℕ) (s : EnvelopeSection) (a : List ℕ × Reader)
    → All IsByte r.bytes
    → read_section r n s ≡ ok a
    → (r.bytes ≡ a.0 ++ a.1.bytes)
      × (a.1.ending ≡ r.ending)
      × (length a.0 ≡ n)
      × (to_be n (from_be 0 a.0) ≡ a.0)
      × All IsByte a.1.bytes
section_facts r n s a bytes h =
    let (long, split, ending) = read_section-ok r n s a.0 a.1 h in
    let (front, back) = All-split a.0 a.1.bytes (subst (All IsByte) split bytes) in
    (split, ending, long, rw long at (to_be-from_be a.0 front), back)

pub expect_end-ok :
    (bytes : List ℕ) (ending : Option IoError)
    → expect_end (read_count bytes ending) ≡ ok tt
    → (bytes ≡ []) × (ending ≡ none)
expect_end-ok [] none h = (refl, refl)
expect_end-ok [] (some e) h = cc
expect_end-ok (b ∷ bs) ending h = cc

module _ (crc : Crc32c) where
  open crc use {crc32c, fits}

  -- The answer of `decode_reader` to a header of its own format, a payload of the declared length,
  -- four bytes of checksum and whatever follows: first the end of the input is checked, then the
  -- checksum, and only then is the payload returned. The tag has eight bytes, the version is a
  -- `u16`, the payload is within the maximum, and `validate_maximum` lets the maximum through.
  pub decode_reader-sections :
      (format : BlobFormatIdentity) (p : List ℕ) (maximum : ℕ) (sum rest : List ℕ)
      (ending : Option IoError)
      → length format.domain_tag ≡ 8
      → format.envelope_version < 2 ^ 16
      → length p ≤ maximum
      → maximum + 22 ≤ u64_max
      → length sum ≡ 4
      → decode_reader crc format
          (record { bytes = header format (length p) ++ (p ++ (sum ++ rest)); ending = ending })
          maximum
        ≡ (expect_end (read_count rest ending)
            >> (require
                  (from_be 0 sum == crc32c (header format (length p) ++ p))
                  (checksum_mismatch (from_be 0 sum) (crc32c (header format (length p) ++ p)))
                >> ok p))
  unfolding decode_reader decode_reader_with_usize_limit
  decode_reader-sections format p maximum sum rest ending tag ver fit room four = rw (
    header-append format (length p) (p ++ (sum ++ rest)),
    read_section-append format.domain_tag _ 8 ending magic tag,
    bytes_eq_self,
    read_section-append (to_be 2 format.envelope_version) _ 2 ending version (length-to_be 2 _),
    from_be-to_be 2 format.envelope_version (omega arith),
    ==_self,
    read_section-append (to_be 8 (length p)) _ 8 ending payload_length (length-to_be 8 _),
    from_be-to_be 8 (length p) (omega arith),
    le→leb (length p) maximum fit,
    le→leb (length p) u64_max (omega arith),
    le→leb (length p + 22) u64_max (omega arith),
    read_section-append p _ (length p) ending payload refl,
    read_section-append sum _ 4 ending checksum four,
    crc_sections crc,
  )

  -- What `decode_reader` makes of an envelope and whatever follows it.
  pub decode_reader-envelope :
      (format : BlobFormatIdentity) (p : List ℕ) (maximum : ℕ) (ending : Option IoError)
      → length format.domain_tag ≡ 8
      → format.envelope_version < 2 ^ 16
      → length p ≤ maximum
      → maximum + 22 ≤ u64_max
      → decode_reader crc format (record { bytes = envelope crc format p; ending = ending }) maximum
        ≡ (expect_end (read_count [] ending) >> ok p)
  decode_reader-envelope format p maximum ending tag ver fit room =
      let sum = crc32c (header format (length p) ++ p) in
      rw (← append-nil (to_be 4 sum)) (
        rw (
          decode_reader-sections format p maximum (to_be 4 sum) [] ending tag ver fit room
              (length-to_be 4 sum),
          from_be-to_be 4 sum (fits _),
          ==_self,
        ))

  -- An accepted input is the envelope of the payload, up to its last byte.
  decode_reader-ok :
      (format : BlobFormatIdentity) (r : Reader) (maximum : ℕ) (p : List ℕ)
      → All IsByte r.bytes
      → decode_reader crc format r maximum ≡ ok p
      → (length p ≤ maximum) × (r.bytes ≡ envelope crc format p) × (r.ending ≡ none)
  unfolding decode_reader decode_reader_with_usize_limit
  decode_reader-ok format r maximum p bytes h = unbind (read_section r 8 magic) _ h λ a e₁ h₁.
      unrequire (bytes_eq a.0 format.domain_tag) _ _ h₁ λ tag h₂.
        unbind (read_section a.1 2 version) _ h₂ λ b e₂ h₃.
          unrequire (from_be 0 b.0 == format.envelope_version) _ _ h₃ λ ver h₄.
            unbind (read_section b.1 8 payload_length) _ h₄ λ c e₃ h₅.
              unrequire (leb (from_be 0 c.0) maximum) _ _ h₅ λ fit h₆.
                unrequire (leb (from_be 0 c.0) u64_max) _ _ h₆ λ _ h₇.
                  unrequire (leb (from_be 0 c.0 + 22) u64_max) _ _ h₇ λ _ h₈.
                    unbind (read_section c.1 (from_be 0 c.0) payload) _ h₈ λ d e₄ h₉.
                      unbind (read_section d.1 4 checksum) _ h₉ λ e e₅ k₁.
                        unbind (expect_end (read_count e.1.bytes e.1.ending)) _ k₁ λ u end k₂.
                          unrequire (from_be 0 e.0 == _) _ _ k₂ λ sum k₃.
                            let f₁ = section_facts r 8 magic a bytes e₁ in
                            let f₂ = section_facts a.1 2 version b f₁.4 e₂ in
                            let f₃ = section_facts b.1 8 payload_length c f₂.4 e₃ in
                            let f₄ = section_facts c.1 (from_be 0 c.0) payload d f₃.4 e₄ in
                            let f₅ = section_facts d.1 4 checksum e f₄.4 e₅ in
                            let (last, good) = expect_end-ok e.1.bytes e.1.ending end in
                            let same = ok-injective k₃ in
                            let declared : from_be 0 c.0 ≡ length p =
                              ground (arith, same, f₄.2, f₅.2) in
                            let tag_eq = eq_of_bytes_eq a.0 format.domain_tag tag in
                            (
                              ground (arith, fit, declared),
                              ground (
                                arith,
                                same,
                                f₁.0,
                                f₂.0,
                                f₂.3,
                                f₃.0,
                                f₃.3,
                                f₄.0,
                                f₅.0,
                                f₅.3,
                                last,
                                sum,
                                ver,
                                tag_eq,
                                declared,
                                envelope-append crc format p [],
                                append-nil (envelope crc format p),
                                crc_sections crc format (length p) p,
                              ),
                              ground (arith, good, f₁.1, f₂.1, f₃.1, f₄.1, f₅.1),
                            )

  -- `decode_reader` accepts exactly what `encode_envelope` writes: from bytes that end regularly, for
  -- an eight-byte domain tag, a `u16` version and a maximum that `validate_maximum` lets through, it
  -- returns a payload if and only if the bytes are the whole encoding of that payload.
  pub decode_reader_iff :
      (format : BlobFormatIdentity) (r : Reader) (maximum : ℕ) (p : List ℕ)
      → length format.domain_tag ≡ 8
      → format.envelope_version < 2 ^ 16
      → maximum + 22 ≤ u64_max
      → All IsByte r.bytes
      → (decode_reader crc format r maximum ≡ ok p)
        ↔ ((encode_envelope crc format p maximum ≡ ok r.bytes) × (r.ending ≡ none))
  decode_reader_iff format r maximum p tag ver room bytes = (
    λ h.
        let (fit, whole, ending) = decode_reader-ok format r maximum p bytes h in
        (rw whole (encode_envelope_lem crc format p maximum fit), ending),
    λ (h, ending).
        let (fit, whole) = encode_envelope-ok crc format p maximum r.bytes h in
        ground
          (arith, whole, ending, decode_reader-envelope format p maximum r.ending tag ver fit room),
  )
