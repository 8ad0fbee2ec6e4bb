-- ===== src/Blocking/Tests.antt =====
-- Saves from an input in two pieces, and a load into a destination, with the loops of src/blocking.rs.
use atomic_blob_store.Prelude.Order.{lt_wf}
use native.Mathlib.Decide.{dec_lt}
use atomic_blob_store.Prelude.{
  ℕ, ◌≡◌, refl, Bool, true, false, Option, none, some, List, [], ◌∷◌, ◌++◌, length,
}
use atomic_blob_store.Errors.{
  Result, ok, err, BlobMetadata, engine_failed, input_ended_early, input_has_trailing_data,
}
use atomic_blob_store.Format.Reader.{done}
use atomic_blob_store.Format.Load.{Chunks}
use atomic_blob_store.Format.Stream.{SaveStreamMessage, Writer}
use atomic_blob_store.Format.Stream.Written.{sent, is_completed}
use atomic_blob_store.Blocking.{transfer, save_from, write_chunks, load_into}
use atomic_blob_store.Blocking.Reads.{Source, content}
use atomic_blob_store.Blocking.SaveFrom.{save_result, save_from-result}
use atomic_blob_store.Blocking.LoadInto.{load_into-ok}

-- An input that delivers two pieces.
abbrev two_pieces : Source
two_pieces = done (104 ∷ 105 ∷ []) ∷ done (33 ∷ []) ∷ []

-- A worker that refuses an incomplete stream.
abbrev answer_if_complete : List ℕ → Bool → Result (Unit {0})
answer_if_complete bytes false = err engine_failed
answer_if_complete bytes true = ok tt

abbrev wait_for_worker : List SaveStreamMessage → Result (Unit {0})
wait_for_worker ms = answer_if_complete (sent ms) (is_completed ms)

save_from_all : save_from 3 two_pieces none wait_for_worker ≡ ok tt
unfolding save_from transfer lt_wf dec_lt
save_from_all = refl

save_from_short : save_from 5 two_pieces none wait_for_worker ≡ err (input_ended_early 5 3)
unfolding save_from transfer lt_wf dec_lt
save_from_short = refl

save_from_long : save_from 2 two_pieces none wait_for_worker ≡ err (input_has_trailing_data 2)
unfolding save_from transfer lt_wf dec_lt
save_from_long = refl

save_from-result_example :
    save_from 3 two_pieces none wait_for_worker ≡ save_result 3 (content two_pieces) (ok tt)
save_from-result_example =
    save_from-result 3 wait_for_worker answer_if_complete two_pieces λ ms. refl

-- A destination that has one byte already and takes all writes.
abbrev destination : Writer
destination = record { written = 1 ∷ []; script = [] }

abbrev three_bytes : BlobMetadata
three_bytes = record { payload_len = 3 }

abbrev delivered : Result (List ℕ)
delivered = ok (104 ∷ 105 ∷ 33 ∷ [])

abbrev loaded : Result (Option BlobMetadata) × Chunks
loaded = (ok (some three_bytes), (104 ∷ 105 ∷ []) ∷ (33 ∷ []) ∷ [])

loaded_ok : (load_into loaded.1 loaded.0 destination).0 ≡ ok (some three_bytes)
unfolding load_into write_chunks
loaded_ok = refl

load_into-ok_example :
    (payload : List ℕ) × (delivered ≡ ok payload)
    × (some three_bytes ≡ some (record { payload_len = length payload }))
    × ((load_into loaded.1 loaded.0 destination).1.written ≡ (1 ∷ []) ++ payload)
load_into-ok_example =
    load_into-ok delivered loaded destination (some three_bytes) (refl, refl) loaded_ok
