-- ===== src/Format/Stream.antt =====
-- The streaming side of src/format.rs. A channel is the list of the messages that it delivers before
-- its sender is gone. A `Write` destination is what has been written to it, and a script that says
-- which of the next `write_all` calls fail, after how many bytes.
pub mod Written
pub mod Channel
use atomic_blob_store.Prelude.{
  ℕ, ◌+◌, ◌-◌, ◌<◌, Bool, true, false, ◌||◌, Option, none, some, List, [], ◌∷◌, ◌++◌, length, take,
  ltb, ◌==◌, if◌then◌else◌, min,
}
use atomic_blob_store.Prelude.Bytes.{to_be, u64_max}
use atomic_blob_store.Errors.{
  IoError, Result, ok, err, io, write_envelope, stream_cancelled, input_ended_early,
  input_has_trailing_data,
}
use atomic_blob_store.Config.{BlobFormatIdentity}
use atomic_blob_store.Format.Crc.{Crc32c}
use atomic_blob_store.Format.Reader.{IoResult, done, failed}
use atomic_blob_store.Format.Encode.{envelope_header}

pub data SaveStreamMessage : Type 0 where
  chunk : List ℕ → SaveStreamMessage
  complete : SaveStreamMessage

pub record Writer : Type 0 where
  pub written : List ℕ
  pub script : List (Option (ℕ × IoError))

abbrev pub write_scripted :
    List (Option (ℕ × IoError)) → List ℕ → List ℕ → IoResult (Unit {0}) × Writer
write_scripted [] old new = (done tt, record { written = old ++ new; script = [] })
write_scripted (none ∷ next) old new = (done tt, record { written = old ++ new; script = next })
write_scripted (some (n, e) ∷ next) old new =
    (failed e, record { written = old ++ take n new; script = next })

-- `write_all`.
abbrev pub write_all : Writer → List ℕ → IoResult (Unit {0}) × Writer
write_all w new = write_scripted w.script w.written new

-- A `write_all` whose failure is returned.
abbrev pub to_write : IoResult (Unit {0}) × Writer → Result (Unit {0}) × Writer
to_write (done u, w) = (ok tt, w)
to_write (failed e, w) = (err (io write_envelope e), w)

abbrev pub and_then :
    Result (Unit {0}) × Writer → (Writer → Result (Unit {0}) × Writer) → Result (Unit {0}) × Writer
and_then (ok u, w) next = next w
and_then (err e, w) next = (err e, w)

module _ (crc : Crc32c) where
  open crc use {crc32c, crc32c_append}

  -- The loop over the messages, with the declared length, what was written and its checksum.
  unfoldable pub write_messages :
      List SaveStreamMessage → ℕ → ℕ → ℕ → Writer → Result (Unit {0}) × Writer
  write_messages [] declared written sum w = (err stream_cancelled, w)
  write_messages (chunk bytes ∷ rest) declared written sum w =
      let total = written + length bytes in
      let next = λ (w' : Writer). write_messages rest declared total (crc32c_append sum bytes) w' in
      if ltb u64_max total || ltb declared total
      then (err (input_has_trailing_data declared), w)
      else and_then (to_write (write_all w bytes)) next
  write_messages (complete ∷ rest) declared written sum w =
      if written == declared
      then to_write (write_all w (to_be 4 sum))
      else (err (input_ended_early declared written), w)

  abbrev write_header :
      Result (List ℕ) → ℕ → Writer → List SaveStreamMessage → Result (Unit {0}) × Writer
  write_header (err e) declared w chunks = (err e, w)
  write_header (ok header) declared w chunks =
      and_then (to_write (write_all w header))
        λ w'. write_messages chunks declared 0 (crc32c header) w'

  unfoldable pub write_stream_envelope :
      BlobFormatIdentity → ℕ → Writer → ℕ → List SaveStreamMessage → Result (Unit {0}) × Writer
  write_stream_envelope format maximum w declared chunks =
      write_header (envelope_header format declared maximum) declared w chunks
