-- ===== src/Blocking.antt =====
-- The transfer loops of src/blocking.rs. The other methods of the facade wait on what the entry
-- points of Engine/Front give.
pub mod Reads
pub mod SaveFrom
pub mod LoadInto
mod Tests
use atomic_blob_store.Prelude.{
  ℕ, zero, suc, ◌+◌, ◌-◌, ◌<◌, Bool, true, false, Option, none, some, List, [], ◌∷◌, ◌++◌, length,
  min,
}
use atomic_blob_store.Prelude.Order.{lt_wf}
use atomic_blob_store.Errors.{
  IoError, Result, ok, err, BlobMetadata, input_ended_early, input_has_trailing_data, input_io,
  output_io,
}
use atomic_blob_store.Config.{stream_chunk_size}
use atomic_blob_store.Format.Reader.{IoResult, done, failed}
use atomic_blob_store.Format.Stream.{SaveStreamMessage, chunk, complete, Writer, write_all}
use atomic_blob_store.Blocking.Reads.{Source, read, piece_shrinks}
use mathlib.Core.Logic.{dite}
use mathlib.Core.WellFounded.{Acc}
use native.Mathlib.Decide.{dec_lt}

-- How the loop over the chunks ends: with the input read as far as declared, by an end or an error
-- of the input, or because the receiver of the chunks is gone. With it, the messages sent.
pub data Ending : Type 0 where
  through : Source → Option ℕ → Ending
  ended_early : ℕ → Ending
  input_failed : IoError → Ending
  receiver_gone : Ending

abbrev pub Transfer : Type 0
Transfer = Ending × List SaveStreamMessage

abbrev pub sending : SaveStreamMessage → Transfer → Transfer
sending message (ending, messages) = (ending, message ∷ messages)

-- `chunks.send`, by the number of messages that the receiver still takes.
abbrev pub send_or_gone : Option ℕ → SaveStreamMessage → (Option ℕ → Transfer) → Transfer
send_or_gone none message next = sending message (next none)
send_or_gone (some zero) message next = (receiver_gone, [])
send_or_gone (some (suc n)) message next = sending message (next (some n))

-- After a read: an empty one is the end of the input.
abbrev pub after_read :
    ℕ → IoResult (List ℕ) × Source → ((b : ℕ) (bs : List ℕ) → Source → Transfer) → Transfer
after_read so_far (failed e, source) next = (input_failed e, [])
after_read so_far (done [], source) next = (ended_early so_far, [])
after_read so_far (done (b ∷ bs), source) next = next b bs source

unfoldable pub transfer : (remaining : ℕ) → Acc ◌<◌ remaining → ℕ → Source → Option ℕ → Transfer
transfer remaining (Acc.intro _ smaller) so_far source takes =
    dite (dec_lt 0 remaining)
      (λ more. after_read so_far (read (min remaining stream_chunk_size) source) λ b bs source'.
        send_or_gone takes (chunk (b ∷ bs)) λ left.
          transfer (remaining - length (b ∷ bs)) (smaller _ (piece_shrinks remaining b bs more))
            (so_far + length (b ∷ bs)) source' left)
      (λ _. (through source takes, []))

-- The message that completes the stream.
abbrev pub send_complete :
    Option ℕ
    → List SaveStreamMessage
    → (List SaveStreamMessage → Result (Unit {0}))
    → Result (Unit {0})
send_complete (some zero) messages wait = wait messages
send_complete _ messages wait = wait (messages ++ (complete ∷ []))

-- The test for trailing data.
abbrev pub after_trailing :
    ℕ
    → Option ℕ
    → List SaveStreamMessage
    → (List SaveStreamMessage → Result (Unit {0}))
    → IoResult (List ℕ)
    → Result (Unit {0})
after_trailing declared takes messages wait (failed e) = err (input_io e)
after_trailing declared takes messages wait (done []) = send_complete takes messages wait
after_trailing declared takes messages wait (done (b ∷ bs)) = err (input_has_trailing_data declared)

abbrev pub finish_transfer :
    ℕ → (List SaveStreamMessage → Result (Unit {0})) → Transfer → Result (Unit {0})
finish_transfer declared wait (through source takes, messages) =
    after_trailing declared takes messages wait (read 1 source).0
finish_transfer declared wait (ended_early actual, messages) =
    err (input_ended_early declared actual)
finish_transfer declared wait (input_failed e, messages) = err (input_io e)
finish_transfer declared wait (receiver_gone, messages) = wait messages

-- After `start_save_stream`. `wait` is the result of the worker by the messages that reach it, and
-- `takes` the number of messages that it takes before it goes away, with `none` all.
unfoldable pub save_from :
    ℕ → Source → Option ℕ → (List SaveStreamMessage → Result (Unit {0})) → Result (Unit {0})
save_from declared source takes wait =
    finish_transfer declared wait (transfer declared (lt_wf.apply declared) 0 source takes)

abbrev pub and_write :
    IoResult (Unit {0}) × Writer
    → (Writer → IoResult (Unit {0}) × Writer)
    → IoResult (Unit {0}) × Writer
and_write (done u, w) next = next w
and_write (failed e, w) next = (failed e, w)

-- The loop over the chunks of a load.
unfoldable pub write_chunks : List (List ℕ) → Writer → IoResult (Unit {0}) × Writer
write_chunks [] w = (done tt, w)
write_chunks (bytes ∷ rest) w = and_write (write_all w bytes) (write_chunks rest)

abbrev pub finish_load :
    Result (Option BlobMetadata)
    → IoResult (Unit {0}) × Writer
    → Result (Option BlobMetadata) × Writer
finish_load result (done u, w) = (result, w)
finish_load result (failed e, w) = (err (output_io e), w)

-- After `start_load_stream`, from the chunks that arrive and the result of the worker.
unfoldable pub load_into :
    List (List ℕ) → Result (Option BlobMetadata) → Writer → Result (Option BlobMetadata) × Writer
load_into chunks result w = finish_load result (write_chunks chunks w)
