-- ===== src/Format/Stream/Written.antt =====
-- What `write_stream_envelope` answers and writes.
use atomic_blob_store.Prelude.{
  ℕ, ◌+◌, ◌≤◌, ◌≡◌, Bool, true, false, List, [], ◌∷◌, ◌++◌, length, ltb, ◌==◌, if◌then◌else◌, arith,
  append_assoc, append-nil, length-append, Bool-cases, inl, inr, lt→ltb, ltb→lt, le→ltb,
  ltb_false→le, ||_true, ap, refl, ◌∙◌, ◌||◌, Option, none, some,
}
use atomic_blob_store.Prelude.Bytes.{to_be, u64_max}
use atomic_blob_store.Errors.{
  Result, IoError, StoreError, ok, err, stream_cancelled, input_ended_early,
  input_has_trailing_data, blob_too_large,
}
use atomic_blob_store.Config.{BlobFormatIdentity}
use native.Mathlib.Nat.{add-zero, zero-add}
use atomic_blob_store.Format.Crc.{Crc32c}
use atomic_blob_store.Format.Encode.{envelope_header, encode_envelope}
use atomic_blob_store.Format.Envelope.{header, envelope, encode_envelope_lem}
use atomic_blob_store.Format.Stream.{
  SaveStreamMessage, chunk, complete, Writer, to_write, write_all, write_scripted, and_then,
  write_messages, write_stream_envelope,
}

-- The bytes that are sent before the stream is completed or given up.
abbrev pub sent : List SaveStreamMessage → List ℕ
sent [] = []
sent (chunk bytes ∷ rest) = bytes ++ sent rest
sent (complete ∷ rest) = []

abbrev pub is_completed : List SaveStreamMessage → Bool
is_completed [] = false
is_completed (chunk bytes ∷ rest) = is_completed rest
is_completed (complete ∷ rest) = true

-- The answer by the number of bytes sent.
abbrev pub stream_result : ℕ → ℕ → Bool → Result (Unit {0})
stream_result declared total completed =
    if ltb declared total
    then err (input_has_trailing_data declared)
    else if completed
    then (if total == declared then ok tt else err (input_ended_early declared total))
    else err stream_cancelled

pub not_ok : (e : StoreError) → ¬ (err e ≡ ok (tt {0}))
not_ok e h = cc

pub and_then-ok {ℓ} :
    {P : Type ℓ} (m : Result (Unit {0}) × Writer) (next : Writer → Result (Unit {0}) × Writer)
    {w : Writer}
    → and_then m next ≡ (ok tt, w)
    → ((w' : Writer) → m ≡ (ok tt, w') → next w' ≡ (ok tt, w) → P)
    → P
and_then-ok (ok u, w') next h k = k w' refl h
and_then-ok (err e, w') next h k = absurd (not_ok e (ap (λ x. x.0) h))

write_scripted-ok :
    (script : List (Option (ℕ × IoError))) (old new : List ℕ) (w' : Writer)
    → to_write (write_scripted script old new) ≡ (ok tt, w')
    → w'.written ≡ old ++ new
write_scripted-ok [] old new w' h = ground arith
write_scripted-ok (none ∷ next) old new w' h = ground arith
write_scripted-ok (some (n, e) ∷ next) old new w' h = absurd (not_ok _ (ap (λ x. x.0) h))

pub write_all-ok :
    (w w' : Writer) (new : List ℕ)
    → to_write (write_all w new) ≡ (ok tt, w')
    → w'.written ≡ w.written ++ new
write_all-ok w w' new h = write_scripted-ok w.script w.written new w' h

module _ (crc : Crc32c) where
  open crc use {crc32c, crc32c_append, append_lem}

  write_messages_result :
      (ms : List SaveStreamMessage) (declared written sum : ℕ) (front : List ℕ)
      → written ≤ declared
      → declared ≤ u64_max
      → (write_messages crc ms declared written sum (record { written = front; script = [] })).0
        ≡ stream_result declared (written + length (sent ms)) (is_completed ms)
  unfolding write_messages
  write_messages_result [] declared written sum front h room = ground arith
  write_messages_result (chunk bytes ∷ rest) declared written sum front h room =
      let total = written + length bytes in
      let size : written + length (bytes ++ sent rest) ≡ total + length (sent rest) =
        omega (arith, length-append bytes (sent rest)) in
      elim (Bool-cases (ltb declared total)) [
        | inl over ↦
            let more : ltb declared (total + length (sent rest)) ≡ true =
              lt→ltb _ _ (omega (arith, ltb→lt declared total over)) in
            rw (over, ||_true, size, more)
        | inr fits ↦
            let within : total ≤ declared = ltb_false→le declared total fits in
            rw (fits, le→ltb u64_max total (omega arith), size)
              (write_messages_result rest declared total (crc32c_append sum bytes) (front ++ bytes)
                within room)
      ]
  write_messages_result (complete ∷ rest) declared written sum front h room =
      rw (add-zero, le→ltb declared written h)
        (elim (Bool-cases (written == declared)) [ inl e ↦ rw e | inr e ↦ rw e ])

  write_messages_ok :
      (ms : List SaveStreamMessage) (declared written : ℕ) (front : List ℕ) (w w' : Writer)
      → write_messages crc ms declared written (crc32c front) w ≡ (ok tt, w')
      → (is_completed ms ≡ true)
        × (written + length (sent ms) ≡ declared)
        × (w'.written ≡ w.written ++ (sent ms ++ to_be 4 (crc32c (front ++ sent ms))))
  unfolding write_messages
  write_messages_ok [] declared written front w w' h = absurd (not_ok _ (ap (λ x. x.0) h))
  write_messages_ok (chunk bytes ∷ rest) declared written front w w' h =
      elim (Bool-cases
        (ltb u64_max (written + length bytes) || ltb declared (written + length bytes))) [
          | inl over ↦ absurd (not_ok _ (ap (λ x. x.0) (rw over at h)))
          | inr fits ↦ and_then-ok (to_write (write_all w bytes)) _ (rw fits at h) λ w₁ e k.
              let (done, size, all) =
                write_messages_ok rest declared (written + length bytes) (front ++ bytes) w₁ w'
                  (rw append_lem at k) in
              (
                done,
                omega (arith, size, length-append bytes (sent rest)),
                rw (
                  all,
                  write_all-ok w w₁ bytes e,
                  append_assoc w.written bytes,
                  append_assoc bytes (sent rest),
                  append_assoc front bytes,
                ),
              )
        ]
  write_messages_ok (complete ∷ rest) declared written front w w' h =
      elim (Bool-cases (written == declared)) [
        | inl e ↦ (
          refl,
          ground (arith, e),
          write_all-ok w w' (to_be 4 (crc32c front)) (rw e at h) ∙ rw append-nil,
        )
        | inr e ↦ absurd (not_ok _ (ap (λ x. x.0) (rw e at h)))
      ]

  -- On a destination where no write fails, and for a maximum that `validate_maximum` lets through,
  -- the answer of `write_stream_envelope` depends only on how many bytes were sent and on whether
  -- the stream was completed: a declared length above the
  -- maximum is refused, more bytes than declared are trailing data, fewer at completion an early
  -- end, and a stream that is given up within the declared length is cancelled.
  pub write_stream_envelope-result :
      (format : BlobFormatIdentity) (maximum declared : ℕ) (front : List ℕ)
      (ms : List SaveStreamMessage)
      → maximum + 22 ≤ u64_max
      → (write_stream_envelope crc format maximum
          (record { written = front; script = [] })
          declared
          ms).0
        ≡ (if ltb maximum declared
            then err (blob_too_large declared maximum)
            else stream_result declared (length (sent ms)) (is_completed ms))
  unfolding write_stream_envelope envelope_header
  write_stream_envelope-result format maximum declared front ms room =
      elim (Bool-cases (ltb maximum declared)) [
        | inl over ↦ rw over
        | inr fits ↦ rw fits (
            rw zero-add at (
              write_messages_result ms declared 0 (crc32c (header format declared))
                (front ++ header format declared) (omega arith)
                (omega (arith, ltb_false→le maximum declared fits))))
      ]

  -- Whatever writes fail on the way: when `write_stream_envelope` succeeds, the stream was
  -- completed, exactly the declared number of bytes was sent, and what it appended to the
  -- destination is the encoding of those bytes by `encode_envelope`.
  pub write_stream_envelope-ok :
      (format : BlobFormatIdentity) (maximum declared : ℕ) (w w' : Writer)
      (ms : List SaveStreamMessage)
      → write_stream_envelope crc format maximum w declared ms ≡ (ok tt, w')
      → (is_completed ms ≡ true)
        × (length (sent ms) ≡ declared)
        × (e : List ℕ) × (encode_envelope crc format (sent ms) maximum ≡ ok e)
        × (w'.written ≡ w.written ++ e)
  unfolding write_stream_envelope envelope_header
  write_stream_envelope-ok format maximum declared w w' ms h =
      elim (Bool-cases (ltb maximum declared)) [
        | inl over ↦ absurd (not_ok _ (ap (λ x. x.0) (rw over at h)))
        | inr fits ↦
            and_then-ok (to_write (write_all w (header format declared))) _ (rw fits at h) λ w₁ e k.
              let (done, size, all) =
                write_messages_ok ms declared 0 (header format declared) w₁ w' k in
              let same : length (sent ms) ≡ declared = omega (arith, size) in
              (
                done,
                same,
                envelope crc format (sent ms),
                encode_envelope_lem crc format (sent ms) maximum
                    (omega (arith, ltb_false→le maximum declared fits)),
                rw (
                  all,
                  write_all-ok w w₁ (header format declared) e,
                  same,
                  append_assoc w.written,
                ),
              )
      ]
