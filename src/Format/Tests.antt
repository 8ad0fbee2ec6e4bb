-- ===== src/Format/Tests.antt =====
-- The envelope of two bytes, with the sum of the bytes in place of CRC-32C.
use atomic_blob_store.Prelude.{
  ℕ, ◌+◌, ◌%◌, ◌^◌, ◌≡◌, refl, ◌↔◌, ◌==◌, ltb, if◌then◌else◌, true, none, List, [], ◌∷◌, ◌++◌,
  length, take, All, arith,
}
use atomic_blob_store.Prelude.Bytes.{u64_max, IsByte, from_be, to_be}
use atomic_blob_store.Errors.{
  ok, err, ◌>>◌, require, blob_too_large, checksum_mismatch, truncated_envelope,
}
use atomic_blob_store.Config.{BlobFormatIdentity}
use atomic_blob_store.Format.Crc.{Crc32c}
use atomic_blob_store.Format.Reader.{Reader, read_count, done}
use atomic_blob_store.Format.Encode.{encode_envelope, envelope_header}
use atomic_blob_store.Format.Decode.{
  declared_length, decode_reader_or_panic, decode_reader, validate_envelope_reader, expect_end,
}
use atomic_blob_store.Format.Envelope.{header, envelope}
use atomic_blob_store.Format.Stream.{
  SaveStreamMessage, chunk, complete, Writer, write_messages, write_stream_envelope,
}
use atomic_blob_store.Format.Stream.Written.{
  sent, is_completed, stream_result, write_stream_envelope-ok, write_stream_envelope-result,
}
use atomic_blob_store.Format.RoundTrip.{decode_reader_iff, decode_reader-sections}
use atomic_blob_store.Format.Load.{load_blob_into_sender}
use atomic_blob_store.Format.Load.Sent.{Delivers, load_blob_into_sender-Delivers}
use atomic_blob_store.Format.Agreement.{Agrees, validate_envelope_reader-eq-decode_reader}
use atomic_blob_store.Format.Truncation.{section_at, decode_reader-take}

abbrev pub sum : List ℕ → ℕ
sum [] = 0
sum (b ∷ bs) = b + sum bs

pub sum-append : (xs ys : List ℕ) → sum (xs ++ ys) ≡ sum xs + sum ys
sum-append [] ys = omega arith
sum-append (x ∷ xs) ys = omega (arith, sum-append xs ys)

abbrev pub byte_sum : Crc32c
byte_sum = record {
  crc32c = λ xs. sum xs % 2 ^ 32;
  crc32c_append = λ c ys. (c + sum ys) % 2 ^ 32;
  append_lem = λ xs ys. omega (arith, sum-append xs ys);
  fits = λ xs. omega arith;
}

abbrev pub format : BlobFormatIdentity
format = record {
  domain_tag = 65 ∷ 66 ∷ 67 ∷ 68 ∷ 69 ∷ 70 ∷ 71 ∷ 72 ∷ [];
  filename_suffix = b'.' ∷ b'b' ∷ [];
  envelope_version = 1;
}

abbrev payload : List ℕ
payload = 104 ∷ 105 ∷ []

abbrev pub file : Reader
file = record {
  bytes =
      65 ∷ 66 ∷ 67 ∷ 68 ∷ 69 ∷ 70 ∷ 71 ∷ 72 ∷ 0 ∷ 1 ∷ 0 ∷ 0 ∷ 0 ∷ 0 ∷ 0 ∷ 0 ∷ 0 ∷ 2 ∷ 104 ∷ 105 ∷ 0
      ∷ 0 ∷ 2 ∷ 248 ∷ [];
  ending = none;
}

file-IsByte : All IsByte file.bytes
file-IsByte = ground arith

decode_reader_iff_example :
    (decode_reader byte_sum format file 64 ≡ ok payload)
    ↔ ((encode_envelope byte_sum format payload 64 ≡ ok file.bytes) × (file.ending ≡ none))
decode_reader_iff_example =
    decode_reader_iff byte_sum format file 64 payload refl (omega arith) (omega arith) file-IsByte

decode_reader-sections_example :
    decode_reader byte_sum format
      (record {
        bytes = header format 2 ++ (payload ++ ((0 ∷ 0 ∷ 2 ∷ 247 ∷ []) ++ []));
        ending = none;
      })
      64
    ≡ (expect_end (read_count [] none)
        >> (require
              (from_be 0 (0 ∷ 0 ∷ 2 ∷ 247 ∷ []) == 760)
              (checksum_mismatch (from_be 0 (0 ∷ 0 ∷ 2 ∷ 247 ∷ [])) 760)
            >> ok payload))
unfolding to_be
decode_reader-sections_example =
    decode_reader-sections byte_sum format payload 64 (0 ∷ 0 ∷ 2 ∷ 247 ∷ []) [] none refl
      (omega arith) (omega arith) (omega arith) refl

validate_envelope_reader-eq-decode_reader_example :
    Agrees byte_sum
      (validate_envelope_reader byte_sum format file 64)
      (decode_reader_or_panic byte_sum format file 64)
      (declared_length format file 64 u64_max)
validate_envelope_reader-eq-decode_reader_example =
    validate_envelope_reader-eq-decode_reader byte_sum format file 64 (omega arith) file-IsByte

decode_reader-take_example :
    decode_reader byte_sum format
      (record { bytes = take 19 (envelope byte_sum format payload); ending = none })
      64
    ≡ err (truncated_envelope (section_at 2 19))
unfolding to_be
decode_reader-take_example =
    decode_reader-take byte_sum format payload 64 19 refl (omega arith) (omega arith) (omega arith)
      (omega arith)

abbrev pub messages : List SaveStreamMessage
messages = chunk (104 ∷ []) ∷ chunk (105 ∷ []) ∷ complete ∷ []

abbrev empty_file : Writer
empty_file = record { written = []; script = [] }

write_stream_envelope-result_example :
    (write_stream_envelope byte_sum format 64 empty_file 2 messages).0
    ≡ (if ltb 64 2 then err (blob_too_large 2 64) else stream_result 2 2 true)
write_stream_envelope-result_example =
    write_stream_envelope-result byte_sum format 64 2 [] messages (omega arith)

messages-written :
    write_stream_envelope byte_sum format 64 empty_file 2 messages
    ≡ (ok tt, record { written = file.bytes; script = [] })
unfolding write_stream_envelope write_messages envelope_header to_be
messages-written = refl

write_stream_envelope-ok_example :
    (is_completed messages ≡ true)
    × (length (sent messages) ≡ 2)
    × (e : List ℕ) × (encode_envelope byte_sum format (sent messages) 64 ≡ ok e)
    × (file.bytes ≡ [] ++ e)
write_stream_envelope-ok_example =
    write_stream_envelope-ok byte_sum format 64 2 empty_file
      (record { written = file.bytes; script = [] }) messages messages-written

load_blob_into_sender-Delivers_example : Delivers (decode_reader byte_sum format file 64) (
    load_blob_into_sender byte_sum format 64
      (done true)
      (done (record {
        front = file;
        rewound = done (record { bytes = 104 ∷ 105 ∷ 0 ∷ 0 ∷ 2 ∷ 248 ∷ []; ending = none });
      }))
      none
      true)
load_blob_into_sender-Delivers_example =
    load_blob_into_sender-Delivers byte_sum format 64 (done true) file
      (record { bytes = 104 ∷ 105 ∷ 0 ∷ 0 ∷ 2 ∷ 248 ∷ []; ending = none }) refl (omega arith)
      (omega arith) file-IsByte refl
