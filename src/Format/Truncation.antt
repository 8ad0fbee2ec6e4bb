-- ===== src/Format/Truncation.antt =====
-- `decode_reader` on an envelope that is cut short.
use atomic_blob_store.Prelude.{
  ℕ, ◌+◌, ◌-◌, ◌^◌, ◌≤◌, ◌<◌, ◌≡◌, none, refl, ap, ◌∙◌, true, List, ◌++◌, length, take, arith, ltb,
  [], append-nil, Bool-cases, inl, inr, if◌then◌else◌, ==_self, le→leb, length-append,
}
use atomic_blob_store.Prelude.Bytes.{u64_max, to_be, length-to_be, from_be-to_be}
use atomic_blob_store.Errors.{
  err, EnvelopeSection, truncated_envelope, magic, version, payload_length, payload, checksum,
}
use atomic_blob_store.Config.{BlobFormatIdentity}
use atomic_blob_store.Format.Crc.{Crc32c}
use atomic_blob_store.Format.Reader.{read_section-take}
use atomic_blob_store.Format.Envelope.{header, envelope, envelope-append, bytes_eq_self}
use atomic_blob_store.Format.Decode.{decode_reader, decode_reader_with_usize_limit}

-- The section of an envelope in which the byte at offset `n` lies.
abbrev pub section_at : ℕ → ℕ → EnvelopeSection
section_at len n =
    if ltb n 8
    then magic
    else if ltb n 10
    then version
    else if ltb n 18
    then payload_length
    else if ltb n (18 + len)
    then payload
    else checksum

shift : (a b n : ℕ) → a ≤ n → ltb (n - a) b ≡ ltb n (a + b)
shift a b n h = ground arith

length_sections :
    (a b c d e : List ℕ)
    → length a ≡ 8
    → length b ≡ 2
    → length c ≡ 8
    → length e ≡ 4
    → length (a ++ (b ++ (c ++ (d ++ (e ++ []))))) ≡ 22 + length d
length_sections a b c d e ha hb hc he =
    rw (length-append, length-append, length-append, length-append, length-append) (omega arith)

-- Every proper prefix of an envelope, read to a regular end of file, is rejected, and the error
-- names the section in which the first missing byte lies: for an eight-byte domain tag, a `u16`
-- version, a payload within the maximum and a maximum that `validate_maximum` lets through.
pub decode_reader-take :
    (crc : Crc32c) (format : BlobFormatIdentity) (p : List ℕ) (maximum n : ℕ)
    → length format.domain_tag ≡ 8
    → format.envelope_version < 2 ^ 16
    → length p ≤ maximum
    → maximum + 22 ≤ u64_max
    → n < length (envelope crc format p)
    → decode_reader crc format
        (record { bytes = take n (envelope crc format p); ending = none })
        maximum
      ≡ err (truncated_envelope (section_at (length p) n))
unfolding decode_reader decode_reader_with_usize_limit
decode_reader-take crc format p maximum n tag ver fit room cut =
    rw (tail, read_section-take format.domain_tag _ 8 n magic tag)
      (elim (Bool-cases (ltb n 8)) [
        | inl c ↦ rw c
        | inr c₁ ↦
            rw
              (
                c₁,
                bytes_eq_self,
                read_section-take (to_be 2 format.envelope_version) _ 2 (n - 8) version
                    (length-to_be 2 _),
                shift 8 2 n (ground arith),
              )
              (elim (Bool-cases (ltb n 10)) [
                | inl c ↦ rw c
                | inr c₂ ↦
                    let at₃ : ltb (n - 8 - 2) 8 ≡ ltb n 18 = ground arith in
                    rw
                      (
                        c₂,
                        from_be-to_be 2 format.envelope_version (omega arith),
                        ==_self,
                        read_section-take (to_be 8 (length p)) _ 8 (n - 8 - 2) payload_length
                            (length-to_be 8 _),
                        at₃,
                      )
                      (elim (Bool-cases (ltb n 18)) [
                        | inl c ↦ rw c
                        | inr c₃ ↦
                            let at₄ : ltb (n - 8 - 2 - 8) (length p) ≡ ltb n (18 + length p) =
                              ground arith in
                            rw
                              (
                                c₃,
                                from_be-to_be 8 (length p) (omega arith),
                                le→leb (length p) maximum fit,
                                le→leb (length p) u64_max (omega arith),
                                le→leb (length p + 22) u64_max (omega arith),
                                read_section-take p _ (length p) (n - 8 - 2 - 8) payload refl,
                                at₄,
                              )
                              (elim (Bool-cases (ltb n (18 + length p))) [
                                | inl c ↦ rw c
                                | inr c₄ ↦
                                    let at₅ : ltb (n - 8 - 2 - 8 - length p) 4 ≡ true =
                                      ground (arith, whole) in
                                    rw (
                                      c₄,
                                      read_section-take sum [] 4 (n - 8 - 2 - 8 - length p) checksum
                                          (length-to_be 4 _),
                                      at₅,
                                    )
                              ])
                      ])
              ])
      ])
  where
    sum : List ℕ
    sum = to_be 4 (crc.crc32c (header format (length p) ++ p))

    tail :
        envelope crc format p
        ≡ format.domain_tag
          ++ (to_be 2 format.envelope_version ++ (to_be 8 (length p) ++ (p ++ (sum ++ []))))
    tail = rw (← append-nil (envelope crc format p)) (envelope-append crc format p [])

    whole : length (envelope crc format p) ≡ 22 + length p
    whole =
        ap length tail
        ∙ length_sections format.domain_tag (to_be 2 format.envelope_version) (to_be 8 (length p)) p
            sum tag (length-to_be 2 _) (length-to_be 8 _) (length-to_be 4 _)
