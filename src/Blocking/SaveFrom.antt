-- ===== src/Blocking/SaveFrom.antt =====
-- What `save_from` of src/blocking.rs makes of its input.
use atomic_blob_store.Prelude.{
  ℕ, ◌+◌, ◌-◌, ◌≤◌, ◌<◌, ◌≡◌, refl, sym, ap, ◌∙◌, Bool, true, Option, none, some, List, [], ◌∷◌,
  ◌++◌, length, min, ltb, if◌then◌else◌, arith, append_assoc, append-nil, length-append, le→ltb,
  lt→ltb,
}
use atomic_blob_store.Prelude.Order.{lt_wf}
use atomic_blob_store.Errors.{
  IoError, Result, err, input_ended_early, input_has_trailing_data, input_io,
}
use atomic_blob_store.Config.{stream_chunk_size}
use atomic_blob_store.Format.Reader.{IoResult, done, failed}
use atomic_blob_store.Format.Stream.{SaveStreamMessage, chunk, complete}
use atomic_blob_store.Format.Stream.Written.{sent, is_completed}
use atomic_blob_store.Blocking.{
  through, ended_early, input_failed, receiver_gone, Transfer, sending, after_read, transfer,
  finish_transfer, after_trailing, save_from,
}
use atomic_blob_store.Blocking.Reads.{Source, read, piece_shrinks, content, Reads, read-Reads}
use mathlib.Core.Logic.{dif_pos, dif_neg}
use mathlib.Core.WellFounded.{Acc}
use native.Mathlib.Decide.{dec_lt}
use native.Mathlib.Bridge.{le_prop}

-- Where the loop ends, as to the content of the source and the bytes that were sent.
abbrev Ends : ℕ → ℕ → Source → Transfer → Type 0
Ends remaining so_far source (through rest takes, messages) =
    (takes ≡ none)
    × (length (sent messages) ≡ remaining)
    × (content source ≡ (sent messages ++ (content rest).0, (content rest).1))
Ends remaining so_far source (ended_early actual, messages) =
    (actual ≡ so_far + length (content source).0)
    × (length (content source).0 < remaining)
    × ((content source).1 ≡ none)
Ends remaining so_far source (input_failed e, messages) =
    (length (content source).0 < remaining) × ((content source).1 ≡ some e)
Ends remaining so_far source (receiver_gone, messages) = ⊥

sending-Ends :
    (remaining so_far b : ℕ) (bs : List ℕ) (source rest : Source) (t : Transfer)
    → length (b ∷ bs) ≤ remaining
    → content source ≡ ((b ∷ bs) ++ (content rest).0, (content rest).1)
    → Ends (remaining - length (b ∷ bs)) (so_far + length (b ∷ bs)) rest t
    → Ends remaining so_far source (sending (chunk (b ∷ bs)) t)
sending-Ends remaining so_far b bs source rest (through left takes, messages) fits split
      (all, size, more) =
    (
      all,
      omega (arith, length-append (b ∷ bs) (sent messages), size),
      split
          ∙ ap (λ (x : List ℕ × Option IoError). ((b ∷ bs) ++ x.0, x.1)) more
          ∙ ap (λ (l : List ℕ). (l, (content left).1))
              (sym (append_assoc (b ∷ bs) (sent messages) (content left).0)),
    )
sending-Ends remaining so_far b bs source rest (ended_early actual, messages) fits split
      (count, short, regular) =
    let size : length (content source).0 ≡ length (b ∷ bs) + length (content rest).0 =
      ap (λ (x : List ℕ × Option IoError). length x.0) split
      ∙ length-append (b ∷ bs) (content rest).0 in
    (
      omega (arith, count, size),
      omega (arith, size, short),
      ap (λ (x : List ℕ × Option IoError). x.1) split ∙ regular,
    )
sending-Ends remaining so_far b bs source rest (input_failed e, messages) fits split
      (short, fails) =
    let size : length (content source).0 ≡ length (b ∷ bs) + length (content rest).0 =
      ap (λ (x : List ℕ × Option IoError). length x.0) split
      ∙ length-append (b ∷ bs) (content rest).0 in
    (omega (arith, size, short), ap (λ (x : List ℕ × Option IoError). x.1) split ∙ fails)
sending-Ends remaining so_far b bs source rest (receiver_gone, messages) fits split never = never

after_read-Ends :
    (remaining so_far n : ℕ) (source : Source) (x : IoResult (List ℕ) × Source)
    (next : (b : ℕ) (bs : List ℕ) → Source → Transfer)
    → 0 < remaining
    → n ≤ remaining
    → Reads n source x
    → ((b : ℕ) (bs : List ℕ) (rest : Source)
        → length (b ∷ bs) ≤ remaining
        → content source ≡ ((b ∷ bs) ++ (content rest).0, (content rest).1)
        → Ends remaining so_far source (next b bs rest))
    → Ends remaining so_far source (after_read so_far x next)
after_read-Ends remaining so_far n source (failed e, rest) next more within reads k =
    (rw reads (omega arith), ap (λ (x : List ℕ × Option IoError). x.1) reads)
after_read-Ends remaining so_far n source (done [], rest) next more within reads k = (
  rw reads (omega arith),
  rw reads (omega arith),
  ap (λ (x : List ℕ × Option IoError). x.1) reads,
)
after_read-Ends remaining so_far n source (done (b ∷ bs), rest) next more within (fits, split) k =
    k b bs rest (omega arith) split

transfer-Ends :
    (remaining : ℕ) (w : Acc ◌<◌ remaining) (so_far : ℕ) (source : Source)
    → Ends remaining so_far source (transfer remaining w so_far source none)
unfolding transfer
transfer-Ends remaining (Acc.intro _ smaller) so_far source = elim (dec_lt 0 remaining) [
  | yes more ↦ rw (dif_pos _ le_prop more) (
      after_read-Ends remaining so_far (min remaining stream_chunk_size) source
        (read (min remaining stream_chunk_size) source) _ more (omega arith)
        (read-Reads (min remaining stream_chunk_size) source (omega arith))
        λ b bs rest fits split. sending-Ends remaining so_far b bs source rest _ fits split (
          transfer-Ends (remaining - length (b ∷ bs))
            (smaller _ (piece_shrinks remaining b bs more)) (so_far + length (b ∷ bs)) rest))
  | no over ↦ rw (dif_neg _ over) (refl, omega (arith, over), refl)
]

sent-complete : (ms : List SaveStreamMessage) → sent (ms ++ (complete ∷ [])) ≡ sent ms
sent-complete [] = refl
sent-complete (chunk bytes ∷ ms) = ap (λ l. bytes ++ l) (sent-complete ms)
sent-complete (complete ∷ ms) = refl

is_completed-complete : (ms : List SaveStreamMessage) → is_completed (ms ++ (complete ∷ [])) ≡ true
is_completed-complete [] = refl
is_completed-complete (chunk bytes ∷ ms) = is_completed-complete ms
is_completed-complete (complete ∷ ms) = refl

-- The answer where no byte is missing or too many, by the error that ends the input.
abbrev pub unless_failing : Option IoError → Result (Unit {0}) → Result (Unit {0})
unless_failing none result = result
unless_failing (some e) result = err (input_io e)

-- The answer of a save by the content of its input, and by what the worker answers to all of it.
abbrev pub save_result : ℕ → List ℕ × Option IoError → Result (Unit {0}) → Result (Unit {0})
save_result declared (bytes, ending) saved =
    if ltb (length bytes) declared
    then unless_failing ending (err (input_ended_early declared (length bytes)))
    else if ltb declared (length bytes)
    then err (input_has_trailing_data declared)
    else unless_failing ending saved

module _ (declared : ℕ) (wait : List SaveStreamMessage → Result (Unit {0}))
    (answer : List ℕ → Bool → Result (Unit {0})) where
  trailing-result :
      (source rest : Source) (messages : List SaveStreamMessage) (x : IoResult (List ℕ) × Source)
      → ((ms : List SaveStreamMessage) → wait ms ≡ answer (sent ms) (is_completed ms))
      → length (sent messages) ≡ declared
      → content source ≡ (sent messages ++ (content rest).0, (content rest).1)
      → Reads 1 rest x
      → after_trailing declared none messages wait x.0
        ≡ save_result declared (content source) (answer (content source).0 true)
  trailing-result source rest messages (failed e, left) h size split reads =
      let whole : content source ≡ (sent messages, some e) =
        split
        ∙ ap (λ (x : List ℕ × Option IoError). (sent messages ++ x.0, x.1)) reads
        ∙ rw append-nil in
      rw (
        whole,
        le→ltb (length (sent messages)) declared (omega (arith, size)),
        le→ltb declared (length (sent messages)) (omega (arith, size)),
      )
  trailing-result source rest messages (done [], left) h size split reads =
      let whole : content source ≡ (sent messages, none) =
        split
        ∙ ap (λ (x : List ℕ × Option IoError). (sent messages ++ x.0, x.1)) reads
        ∙ rw append-nil in
      rw
        (
          whole,
          le→ltb (length (sent messages)) declared (omega (arith, size)),
          le→ltb declared (length (sent messages)) (omega (arith, size)),
        )
        (h (messages ++ (complete ∷ [])) ∙ rw (sent-complete, is_completed-complete))
  trailing-result source rest messages (done (b ∷ bs), left) h size split (fits, reads) =
      let long : length (content source).0
          ≡ length (sent messages) + (1 + (length bs + length (content left).0)) =
        ap (λ (x : List ℕ × Option IoError). length x.0) split
        ∙ length-append (sent messages) (content rest).0
        ∙ ap (λ (n : ℕ). length (sent messages) + n)
            (ap (λ (x : List ℕ × Option IoError). length x.0) reads
              ∙ length-append (b ∷ bs) (content left).0
              ∙ omega arith) in
      rw (
        le→ltb (length (content source).0) declared (omega (arith, long, size)),
        lt→ltb declared (length (content source).0) (omega (arith, long, size)),
      )

  transfer-result :
      (source : Source) (t : Transfer)
      → ((ms : List SaveStreamMessage) → wait ms ≡ answer (sent ms) (is_completed ms))
      → Ends declared 0 source t
      → finish_transfer declared wait t
        ≡ save_result declared (content source) (answer (content source).0 true)
  transfer-result source (through rest none, messages) h (all, size, split) =
      trailing-result source rest messages (read 1 rest) h size split
        (read-Reads 1 rest (omega arith))
  transfer-result source (through rest (some n), messages) h (all, size, split) = absurd (cc)
  transfer-result source (ended_early actual, messages) h (count, short, regular) =
      rw (lt→ltb (length (content source).0) declared short, regular)
        (ap (λ (n : ℕ). err (input_ended_early declared n)) (omega (arith, count)))
  transfer-result source (input_failed e, messages) h (short, fails) =
      rw (lt→ltb (length (content source).0) declared short, fails)
  transfer-result source (receiver_gone, messages) h never = absurd never

  -- The answer of `save_from` depends only on what its input delivers up to its end, and not on how
  -- the reads cut it: fewer bytes than declared are an early end with their number, or the error
  -- that ends the input; more are trailing data; and for exactly the declared number the answer is
  -- the error that ends the input, or else that of the worker to all the bytes and the completion.
  -- The worker takes every message, and its answer depends on the bytes and the completion alone.
  pub save_from-result :
      (source : Source)
      → ((ms : List SaveStreamMessage) → wait ms ≡ answer (sent ms) (is_completed ms))
      → save_from declared source none wait
        ≡ save_result declared (content source) (answer (content source).0 true)
  unfolding save_from
  save_from-result source h =
      transfer-result source (transfer declared (lt_wf.apply declared) 0 source none) h
        (transfer-Ends declared (lt_wf.apply declared) 0 source)
