-- ===== src/Format/Load/Sent.antt =====
-- What `load_blob_into_sender` of src/format.rs sends.
use atomic_blob_store.Prelude.{
  ℕ, ◌+◌, ◌-◌, ◌≤◌, ◌<◌, ◌≡◌, refl, ap, ◌∙◌, sym, Option, none, some, List, [], ◌++◌, length,
  concat, All, take, drop, min, arith, take-append-drop, length-take, length-drop, append_assoc,
  length-append, drop-length, Bool, true, inl, inr, ◌^◌,
}
use atomic_blob_store.Prelude.Bytes.{IsByte, u64_max, to_be, length-to_be}
use atomic_blob_store.Prelude.Order.{lt_wf}
use atomic_blob_store.Errors.{IoError, Result, ok, err, payload, BlobMetadata, map_ok, Result-cases}
use atomic_blob_store.Config.{BlobFormatIdentity, stream_chunk_size}
use atomic_blob_store.Format.Crc.{Crc32c}
use atomic_blob_store.Format.Reader.{Reader, read_section-append, IoResult, done}
use atomic_blob_store.Format.Decode.{chunk_shrinks, decode_reader, validate_envelope_reader}
use atomic_blob_store.Format.Load.{Chunks, send_chunks, load_blob_into_sender}
use atomic_blob_store.Format.Envelope.{header, envelope, encode_envelope-ok}
use atomic_blob_store.Format.RoundTrip.{decode_reader_iff}
use atomic_blob_store.Format.Agreement.{validate_envelope_reader-value}
use mathlib.Core.Logic.{dif_pos, dif_neg}
use mathlib.Core.WellFounded.{Acc}
use native.Mathlib.Decide.{dec_lt}
use native.Mathlib.Bridge.{le_prop}

send_chunks-concat :
    (remaining : ℕ) (w : Acc ◌<◌ remaining) (p rest : List ℕ) (ending : Option IoError)
    → length p ≡ remaining
    → ((send_chunks remaining w (record { bytes = p ++ rest; ending = ending }) none).0 ≡ ok tt)
      × (concat (send_chunks remaining w (record { bytes = p ++ rest; ending = ending }) none).1
          ≡ p)
unfolding send_chunks
send_chunks-concat remaining (Acc.intro _ smaller) p rest ending size = elim (dec_lt 0 remaining) [
  | yes more ↦
      let n = min remaining stream_chunk_size in
      let next =
        send_chunks-concat (remaining - n) (smaller (remaining - n) (chunk_shrinks remaining more))
          (drop n p) rest ending (omega (arith, length-drop n p)) in
      let split : p ++ rest ≡ take n p ++ (drop n p ++ rest) =
        ap (λ l. l ++ rest) (sym (take-append-drop n p))
        ∙ append_assoc (take n p) (drop n p) rest in
      rw
        (
          dif_pos _ le_prop more,
          split,
          read_section-append (take n p) (drop n p ++ rest) n ending payload
              (omega (arith, length-take n p)),
        )
        (next.0, ap (λ l. take n p ++ l) next.1 ∙ take-append-drop n p)
  | no over ↦ rw (dif_neg _ over) (refl, ground (arith, size, over))
]

-- The chunks are the payload that the decoder returns; where it fails nothing is sent.
abbrev pub Delivers : Result (List ℕ) → Result (Option BlobMetadata) × Chunks → Type 0
Delivers (ok p) out = (out.0 ≡ ok (some (record { payload_len = length p }))) × (concat out.1 ≡ p)
Delivers (err e) out = out ≡ (err e, [])

length-header :
    (format : BlobFormatIdentity) (n : ℕ)
    → length format.domain_tag ≡ 8
    → length (header format n) ≡ 18
length-header format n tag = omega (
  arith,
  tag,
  length-append format.domain_tag (to_be 2 format.envelope_version ++ to_be 8 n),
  length-append (to_be 2 format.envelope_version) (to_be 8 n),
  length-to_be 2 format.envelope_version,
  length-to_be 8 n,
)

-- The answer of the validation is the answer of the decoder, with the payload measured.
abbrev measured : Result (List ℕ) → Result BlobMetadata
measured r = map_ok (λ p. record { payload_len = length p }) r

module _ (crc : Crc32c) where
  -- Behind the eighteen bytes of the header lies the payload.
  drop-envelope :
      (format : BlobFormatIdentity) (p : List ℕ)
      → length format.domain_tag ≡ 8
      → drop 18 (envelope crc format p) ≡ p ++ to_be 4 (crc.crc32c (header format (length p) ++ p))
  drop-envelope format p tag =
      ap (λ n. drop n (envelope crc format p)) (sym (length-header format (length p) tag))
      ∙ drop-length (header format (length p))
          (p ++ to_be 4 (crc.crc32c (header format (length p) ++ p)))

  payload-sent :
      (format : BlobFormatIdentity) (maximum : ℕ) (namespace : IoResult Bool)
      (front rewound : Reader) (p : List ℕ)
      → length format.domain_tag ≡ 8
      → front.bytes ≡ envelope crc format p
      → rewound.bytes ≡ drop 18 front.bytes
      → validate_envelope_reader crc format front maximum ≡ ok (record { payload_len = length p })
      → Delivers (ok p) (
          load_blob_into_sender crc format maximum namespace
            (done (record { front = front; rewound = done rewound }))
            none
            true)
  unfolding load_blob_into_sender
  payload-sent format maximum namespace front rewound p tag whole same valid =
      let bytes = same ∙ ap (drop 18) whole ∙ drop-envelope format p tag in
      let all =
        send_chunks-concat (length p) (lt_wf.apply (length p)) p
          (to_be 4 (crc.crc32c (header format (length p) ++ p))) rewound.ending refl in
      rw valid (let out = rw (← bytes) at all in (rw out.0 refl, out.1))

  -- A streamed load of a file that opens, whose bytes after the seek are those it had before, whose
  -- receiver takes every chunk and whose acknowledgement arrives, sends chunks that make up exactly
  -- the payload that `decode_reader` returns, and answers with its length; where `decode_reader`
  -- fails, it fails with the same error and has sent nothing. The tag has eight bytes, the version
  -- is a `u16`, and `validate_maximum` lets the maximum through.
  pub load_blob_into_sender-Delivers :
      (format : BlobFormatIdentity) (maximum : ℕ) (namespace : IoResult Bool)
      (front rewound : Reader)
      → length format.domain_tag ≡ 8
      → format.envelope_version < 2 ^ 16
      → maximum + 22 ≤ u64_max
      → All IsByte front.bytes
      → rewound.bytes ≡ drop 18 front.bytes
      → Delivers (decode_reader crc format front maximum) (
          load_blob_into_sender crc format maximum namespace
            (done (record { front = front; rewound = done rewound }))
            none
            true)
  load_blob_into_sender-Delivers format maximum namespace front rewound tag ver room bytes same =
      let agree = validate_envelope_reader-value crc format front maximum room bytes in
      elim (Result-cases (decode_reader crc format front maximum)) [
        | inl (p, e) ↦
            let written =
              ((decode_reader_iff crc format front maximum p tag ver room bytes).0 e).0 in
            let whole = (encode_envelope-ok crc format p maximum front.bytes written).1 in
            rw e (
              payload-sent format maximum namespace front rewound p tag whole same
                (agree ∙ ap measured e))
        | inr (x, e) ↦ rw e (unfold load_blob_into_sender in rw (agree ∙ ap measured e) refl)
      ]
