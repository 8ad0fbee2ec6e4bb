-- ===== src/Format/Stream/Channel.antt =====
-- The messages that `write_stream_envelope` of src/format.rs leaves in its channel.
use atomic_blob_store.Prelude.{ℕ, ◌+◌, ◌||◌, List, [], ◌∷◌, length, ltb, if◌then◌else◌}
use atomic_blob_store.Prelude.Bytes.{u64_max}
use atomic_blob_store.Errors.{Result, ok, err}
use atomic_blob_store.Config.{BlobFormatIdentity}
use atomic_blob_store.Format.Encode.{envelope_header}
use atomic_blob_store.Format.Stream.{
  SaveStreamMessage, chunk, complete, Writer, write_all, to_write,
}

-- `rest` where a write failed, and what is left after the writer otherwise.
abbrev and_left :
    Result (Unit {0}) × Writer
    → List SaveStreamMessage
    → (Writer → List SaveStreamMessage)
    → List SaveStreamMessage
and_left (ok u, w) rest next = next w
and_left (err e, w) rest next = rest

unfoldable pub left_in_messages : List SaveStreamMessage → ℕ → ℕ → Writer → List SaveStreamMessage
left_in_messages [] declared written w = []
left_in_messages (chunk bytes ∷ rest) declared written w =
    let total = written + length bytes in
    let next = λ (w' : Writer). left_in_messages rest declared total w' in
    if ltb u64_max total || ltb declared total
    then rest
    else and_left (to_write (write_all w bytes)) rest next
left_in_messages (complete ∷ rest) declared written w = rest

abbrev left_after_header :
    Result (List ℕ) → ℕ → Writer → List SaveStreamMessage → List SaveStreamMessage
left_after_header (err e) declared w chunks = chunks
left_after_header (ok header) declared w chunks =
    and_left (to_write (write_all w header)) chunks (left_in_messages chunks declared 0)

abbrev pub left_in_channel :
    BlobFormatIdentity → ℕ → Writer → ℕ → List SaveStreamMessage → List SaveStreamMessage
left_in_channel format maximum w declared chunks =
    left_after_header (envelope_header format declared maximum) declared w chunks
