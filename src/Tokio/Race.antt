-- ===== src/Tokio/Race.antt =====
-- `save_from` of src/tokio.rs against that of src/blocking.rs.
use atomic_blob_store.Prelude.{
  ℕ, zero, suc, ◌+◌, ◌-◌, ◌<◌, ◌≡◌, refl, ◌⊎◌, inl, inr, Option, none, some, List, [], ◌∷◌, length,
  min, ap, subst,
}
use atomic_blob_store.Prelude.Order.{lt_wf}
use atomic_blob_store.Errors.{Result}
use atomic_blob_store.Config.{stream_chunk_size}
use atomic_blob_store.Format.Reader.{IoResult, done, failed}
use atomic_blob_store.Format.Stream.{SaveStreamMessage, chunk}
use atomic_blob_store.Blocking.{
  through, ended_early, input_failed, receiver_gone, Transfer, sending, send_or_gone, after_read,
  transfer, finish_transfer, after_trailing, save_from,
}
use atomic_blob_store.Blocking.Reads.{Source, read, piece_shrinks}
use atomic_blob_store.Tokio.{
  Polls, answered, ended, AsyncTransfer, select, sending_async, send_or_gone_async,
  after_read_async, transfer_async, finish_async, save_from_async,
}
use mathlib.Core.Logic.{dif_pos, dif_neg}
use mathlib.Core.WellFounded.{Acc}
use native.Mathlib.Decide.{dec_lt}
use native.Mathlib.Bridge.{le_prop}

-- One of the looks finds the result.
abbrev pub IsPolled : Result (Unit {0}) → Polls → Type 0
IsPolled r [] = ⊥
IsPolled r (none ∷ polls) = IsPolled r polls
IsPolled r (some result ∷ polls) = (r ≡ result) ⊎ IsPolled r polls

-- The loop was left early with a result that was found, or it did what the blocking loop does, with
-- looks left that find nothing new.
abbrev Follows : Polls → AsyncTransfer → Transfer → Type 0
Follows polls (answered r, messages) t = IsPolled r polls
Follows polls (ended ending left, messages) t =
    ((ending, messages) ≡ t) × ((r : Result (Unit {0})) → IsPolled r left → IsPolled r polls)

later-Follows :
    (x : Option (Result (Unit {0}))) (polls : Polls) (a : AsyncTransfer) (t : Transfer)
    → Follows polls a t
    → Follows (x ∷ polls) a t
later-Follows none polls a t h = h
later-Follows (some r) polls (answered s, messages) t h = inr h
later-Follows (some r) polls (ended ending left, messages) t (same, found) =
    (same, λ s k. inr (found s k))

sending-Follows :
    (polls : Polls) (message : SaveStreamMessage) (a : AsyncTransfer) (t : Transfer)
    → Follows polls a t
    → Follows polls (sending_async message a) (sending message t)
sending-Follows polls message (answered r, messages) t h = h
sending-Follows polls message (ended ending left, messages) t (same, found) =
    (ap (sending message) same, found)

send-Follows :
    (polls : Polls) (takes : Option ℕ) (message : SaveStreamMessage)
    (next : Option ℕ → AsyncTransfer) (next' : Option ℕ → Transfer)
    → ((left : Option ℕ) → Follows polls (next left) (next' left))
    → Follows polls (send_or_gone_async polls takes message next) (send_or_gone takes message next')
send-Follows polls none message next next' h =
    sending-Follows polls message (next none) (next' none) (h none)
send-Follows polls (some zero) message next next' h = (refl, λ r k. k)
send-Follows polls (some (suc n)) message next next' h =
    sending-Follows polls message (next (some n)) (next' (some n)) (h (some n))

read-Follows :
    (polls : Polls) (so_far : ℕ) (x : IoResult (List ℕ) × Source)
    (next : (b : ℕ) (bs : List ℕ) → Source → AsyncTransfer)
    (next' : (b : ℕ) (bs : List ℕ) → Source → Transfer)
    → ((b : ℕ) (bs : List ℕ) (rest : Source) → Follows polls (next b bs rest) (next' b bs rest))
    → Follows polls (after_read_async polls so_far x next) (after_read so_far x next')
read-Follows polls so_far (failed e, rest) next next' h = (refl, λ r k. k)
read-Follows polls so_far (done [], rest) next next' h = (refl, λ r k. k)
read-Follows polls so_far (done (b ∷ bs), rest) next next' h = h b bs rest

select-Follows :
    (polls : Polls) (later : Polls → AsyncTransfer) (t : Transfer)
    → ((left : Polls) → Follows left (later left) t)
    → Follows polls (select polls (λ result. (answered result, [])) later) t
select-Follows [] later t h = h []
select-Follows (none ∷ polls) later t h = later-Follows none polls (later polls) t (h polls)
select-Follows (some r ∷ polls) later t h = inl refl

transfer-Follows :
    (remaining : ℕ) (w : Acc ◌<◌ remaining) (polls : Polls) (so_far : ℕ) (source : Source)
    (takes : Option ℕ)
    → Follows polls
        (transfer_async remaining w polls so_far source takes)
        (transfer remaining w so_far source takes)
unfolding transfer transfer_async
transfer-Follows remaining (Acc.intro _ smaller) polls so_far source takes =
    elim (dec_lt 0 remaining) [
      | yes more ↦
          rw (dif_pos {C = AsyncTransfer} _ le_prop more, dif_pos {C = Transfer} _ le_prop more)
            (select-Follows polls
              (λ later.
                after_read_async later so_far (read (min remaining stream_chunk_size) source)
                  λ b bs rest. send_or_gone_async later takes (chunk (b ∷ bs)) λ left.
                    transfer_async (remaining - length (b ∷ bs))
                      (smaller _ (piece_shrinks remaining b bs more)) later
                      (so_far + length (b ∷ bs)) rest left)
              _
              λ later.
                read-Follows later so_far (read (min remaining stream_chunk_size) source) _ _
                  λ b bs rest. send-Follows later takes (chunk (b ∷ bs)) _ _ λ left.
                    transfer-Follows (remaining - length (b ∷ bs))
                      (smaller _ (piece_shrinks remaining b bs more)) later
                      (so_far + length (b ∷ bs)) rest left)
      | no over ↦
          rw (dif_neg {C = AsyncTransfer} _ over, dif_neg {C = Transfer} _ over) (refl, λ r k. k)
    ]

module _ (declared : ℕ) (wait : List SaveStreamMessage → Result (Unit {0})) (polls : Polls) where
  trailing-Follows :
      (left : Polls) (result : Result (Unit {0}))
      → ((r : Result (Unit {0})) → IsPolled r left → IsPolled r polls)
      → (select left (λ r. r) (λ later. result) ≡ result)
        ⊎ IsPolled (select left (λ r. r) (λ later. result)) polls
  trailing-Follows [] result found = inl refl
  trailing-Follows (none ∷ left) result found = inl refl
  trailing-Follows (some r ∷ left) result found = inr (found r (inl refl))

  finish-Follows :
      (a : AsyncTransfer) (t : Transfer)
      → Follows polls a t
      → (finish_async declared wait a ≡ finish_transfer declared wait t)
        ⊎ IsPolled (finish_async declared wait a) polls
  finish-Follows (answered r, messages) t h = inr h
  finish-Follows (ended (through source takes) left, messages) t (same, found) =
      subst
        (λ (t : Transfer).
          (finish_async declared wait (ended (through source takes) left, messages)
            ≡ finish_transfer declared wait t)
          ⊎ IsPolled (finish_async declared wait (ended (through source takes) left, messages))
              polls)
        same
        (trailing-Follows left (after_trailing declared takes messages wait (read 1 source).0)
          found)
  finish-Follows (ended (ended_early n) left, messages) t (same, found) =
      inl (ap (finish_transfer declared wait) same)
  finish-Follows (ended (input_failed e) left, messages) t (same, found) =
      inl (ap (finish_transfer declared wait) same)
  finish-Follows (ended receiver_gone left, messages) t (same, found) =
      inl (ap (finish_transfer declared wait) same)

  -- `save_from` of the Tokio facade answers as that of the blocking facade on the same input and
  -- worker, or with the result of the worker that one of its looks found before a read. Where no
  -- look finds one it is the same function.
  pub save_from_async-save_from :
      (source : Source) (takes : Option ℕ)
      → (save_from_async declared polls source takes wait ≡ save_from declared source takes wait)
        ⊎ IsPolled (save_from_async declared polls source takes wait) polls
  unfolding save_from save_from_async
  save_from_async-save_from source takes =
      finish-Follows (transfer_async declared (lt_wf.apply declared) polls 0 source takes)
        (transfer declared (lt_wf.apply declared) 0 source takes)
        (transfer-Follows declared (lt_wf.apply declared) polls 0 source takes)
