-- ===== src/Tokio.antt =====
-- src/tokio.rs: opening a store, and the transfer loop of `save_from`, which looks at the result of
-- the worker before each read. The other methods are those of the blocking facade.
pub mod Race
mod Tests
use atomic_blob_store.Prelude.{
  ℕ, zero, suc, ◌+◌, ◌-◌, ◌<◌, Option, none, some, List, [], ◌∷◌, length, min,
}
use atomic_blob_store.Prelude.Order.{lt_wf}
use atomic_blob_store.Errors.{
  IoError, Result, ok, err, io, start_initialization, engine_failed, input_ended_early, input_io,
}
use atomic_blob_store.Config.{stream_chunk_size}
use atomic_blob_store.Format.Reader.{IoResult, done, failed}
use atomic_blob_store.Format.Stream.{SaveStreamMessage, chunk}
use atomic_blob_store.Blocking.{
  Ending, through, ended_early, input_failed, receiver_gone, finish_transfer, after_trailing,
}
use atomic_blob_store.Blocking.Reads.{Source, read, piece_shrinks}
use mathlib.Core.Logic.{dite}
use mathlib.Core.WellFounded.{Acc}
use native.Mathlib.Decide.{dec_lt}

-- From whether the thread of the initialization starts, and what arrives from it: nothing where it
-- is gone before it answers.
abbrev pub open_store {ℓ} : {A : Type ℓ} → IoResult (Unit {0}) → Option (Result A) → Result A
open_store (failed e) answer = err (io start_initialization e)
open_store (done u) none = err engine_failed
open_store (done u) (some result) = result

-- The looks at the result of the worker that are still to come: `some` where it is there. After the
-- last the reads come first.
abbrev pub Polls : Type 0
Polls = List (Option (Result (Unit {0})))

-- The loop ends as in the blocking facade, with the looks that are left, or with an early result.
pub data AsyncEnding : Type 0 where
  answered : Result (Unit {0}) → AsyncEnding
  ended : Ending → Polls → AsyncEnding

abbrev pub AsyncTransfer : Type 0
AsyncTransfer = AsyncEnding × List SaveStreamMessage

-- `select!`, with the result of the worker first.
abbrev pub select {ℓ} : {A : Type ℓ} → Polls → (Result (Unit {0}) → A) → (Polls → A) → A
select [] early later = later []
select (none ∷ polls) early later = later polls
select (some result ∷ polls) early later = early result

abbrev pub sending_async : SaveStreamMessage → AsyncTransfer → AsyncTransfer
sending_async message (ending, messages) = (ending, message ∷ messages)

abbrev pub send_or_gone_async :
    Polls → Option ℕ → SaveStreamMessage → (Option ℕ → AsyncTransfer) → AsyncTransfer
send_or_gone_async polls none message next = sending_async message (next none)
send_or_gone_async polls (some zero) message next = (ended receiver_gone polls, [])
send_or_gone_async polls (some (suc n)) message next = sending_async message (next (some n))

abbrev pub after_read_async :
    Polls
    → ℕ
    → IoResult (List ℕ) × Source
    → ((b : ℕ) (bs : List ℕ) → Source → AsyncTransfer)
    → AsyncTransfer
after_read_async polls so_far (failed e, source) next = (ended (input_failed e) polls, [])
after_read_async polls so_far (done [], source) next = (ended (ended_early so_far) polls, [])
after_read_async polls so_far (done (b ∷ bs), source) next = next b bs source

unfoldable pub transfer_async :
    (remaining : ℕ) → Acc ◌<◌ remaining → Polls → ℕ → Source → Option ℕ → AsyncTransfer
transfer_async remaining (Acc.intro _ smaller) polls so_far source takes =
    dite (dec_lt 0 remaining)
      (λ more.
        select polls (λ result. (answered result, []))
          λ later.
            after_read_async later so_far (read (min remaining stream_chunk_size) source)
              λ b bs source'. send_or_gone_async later takes (chunk (b ∷ bs)) λ left.
                transfer_async (remaining - length (b ∷ bs))
                  (smaller _ (piece_shrinks remaining b bs more)) later (so_far + length (b ∷ bs))
                  source' left)
      (λ _. (ended (through source takes) polls, []))

abbrev pub finish_async :
    ℕ → (List SaveStreamMessage → Result (Unit {0})) → AsyncTransfer → Result (Unit {0})
finish_async declared wait (answered result, messages) = result
finish_async declared wait (ended (through source takes) polls, messages) =
    select polls (λ result. result)
      λ later. after_trailing declared takes messages wait (read 1 source).0
finish_async declared wait (ended ending polls, messages) =
    finish_transfer declared wait (ending, messages)

-- After `start_save_stream`, as `save_from` of the blocking facade, with the looks at the result.
unfoldable pub save_from_async :
    ℕ → Polls → Source → Option ℕ → (List SaveStreamMessage → Result (Unit {0})) → Result (Unit {0})
save_from_async declared polls source takes wait =
    finish_async declared wait (transfer_async declared (lt_wf.apply declared) polls 0 source takes)
