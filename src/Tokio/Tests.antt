-- ===== src/Tokio/Tests.antt =====
-- Saves with the loop of src/tokio.rs, where the worker answers early and where it does not.
use atomic_blob_store.Prelude.Order.{lt_wf}
use native.Mathlib.Decide.{dec_lt}
use atomic_blob_store.Prelude.{◌≡◌, refl, ◌⊎◌, none, some, List, [], ◌∷◌}
use atomic_blob_store.Errors.{Result, ok, err, engine_failed}
use atomic_blob_store.Format.Reader.{done}
use atomic_blob_store.Format.Stream.{SaveStreamMessage}
use atomic_blob_store.Blocking.{save_from}
use atomic_blob_store.Blocking.Reads.{Source}
use atomic_blob_store.Tokio.{Polls, transfer_async, save_from_async}
use atomic_blob_store.Tokio.Race.{IsPolled, save_from_async-save_from}

-- An input that delivers two pieces.
abbrev pieces : Source
pieces = done (104 ∷ 105 ∷ []) ∷ done (33 ∷ []) ∷ []

abbrev accept_all : List SaveStreamMessage → Result (Unit {0})
accept_all ms = ok tt

-- The result of the worker is there before the second read.
abbrev early : Polls
early = none ∷ some (err engine_failed) ∷ []

answered_early : save_from_async 3 early pieces none accept_all ≡ err engine_failed
unfolding save_from_async transfer_async lt_wf dec_lt
answered_early = refl

answered_late : save_from_async 3 [] pieces none accept_all ≡ ok tt
unfolding save_from_async transfer_async lt_wf dec_lt
answered_late = refl

save_from_async-save_from_example :
    (save_from_async 3 early pieces none accept_all ≡ save_from 3 pieces none accept_all)
    ⊎ IsPolled (save_from_async 3 early pieces none accept_all) early
save_from_async-save_from_example = save_from_async-save_from 3 accept_all early pieces none
