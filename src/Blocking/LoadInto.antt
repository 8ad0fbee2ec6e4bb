-- ===== src/Blocking/LoadInto.antt =====
-- What `load_into` of src/blocking.rs writes.
use atomic_blob_store.Prelude.{
  ℕ, ◌≡◌, refl, sym, ap, ◌∙◌, Option, none, some, List, [], ◌∷◌, ◌++◌, length, concat, append-nil,
  append_assoc,
}
use atomic_blob_store.Errors.{IoError, Result, ok, err, BlobMetadata, ok-injective}
use atomic_blob_store.Format.Reader.{IoResult, done, failed}
use atomic_blob_store.Format.Load.{Chunks}
use atomic_blob_store.Format.Load.Sent.{Delivers}
use atomic_blob_store.Format.Stream.{Writer, write_scripted, write_all}
use atomic_blob_store.Blocking.{and_write, write_chunks, finish_load, load_into}

-- A run of writes that succeeds appends all that was to be written; one that fails, a part of it.
abbrev Writes : List ℕ → List ℕ → IoResult (Unit {0}) × Writer → Type 0
Writes old new (done u, w) = w.written ≡ old ++ new
Writes old new (failed e, w) = Unit

write_scripted-Writes :
    (script : List (Option (ℕ × IoError))) (old new : List ℕ)
    → Writes old new (write_scripted script old new)
write_scripted-Writes [] old new = refl
write_scripted-Writes (none ∷ next) old new = refl
write_scripted-Writes (some (n, e) ∷ next) old new = tt

and_write-Writes :
    (old first rest : List ℕ) (x : IoResult (Unit {0}) × Writer)
    (next : Writer → IoResult (Unit {0}) × Writer)
    → Writes old first x
    → ((w : Writer) → Writes w.written rest (next w))
    → Writes old (first ++ rest) (and_write x next)
and_write-Writes old first rest (failed e, w) next h k = tt
and_write-Writes old first rest (done u, w) next h k = further (next w) (k w)
  where
    further :
        (y : IoResult (Unit {0}) × Writer) → Writes w.written rest y → Writes old (first ++ rest) y
    further (failed e, w') all = tt
    further (done v, w') all = all ∙ ap (λ l. l ++ rest) h ∙ append_assoc old first rest

write_chunks-Writes :
    (chunks : List (List ℕ)) (w : Writer) → Writes w.written (concat chunks) (write_chunks chunks w)
unfolding write_chunks
write_chunks-Writes [] w = sym (append-nil w.written)
write_chunks-Writes (bytes ∷ rest) w =
    and_write-Writes w.written bytes (concat rest) (write_all w bytes) (write_chunks rest)
      (write_scripted-Writes w.script w.written bytes) (write_chunks-Writes rest)

finish_load-ok :
    (old new : List ℕ) (result : Result (Option BlobMetadata)) (x : IoResult (Unit {0}) × Writer)
    (m : Option BlobMetadata)
    → Writes old new x
    → (finish_load result x).0 ≡ ok m
    → (result ≡ ok m) × ((finish_load result x).1.written ≡ old ++ new)
finish_load-ok old new result (done u, w) m h k = (k, h)
finish_load-ok old new result (failed e, w) m h k = absurd (cc)

-- When `load_into` succeeds on the chunks and the answer of a worker that delivers what the decoder
-- returns, the decoder returned a payload, the answer tells its length, and what was appended to the
-- destination is exactly that payload. Whatever writes may fail.
pub load_into-ok :
    (decoded : Result (List ℕ)) (out : Result (Option BlobMetadata) × Chunks) (w : Writer)
    (m : Option BlobMetadata)
    → Delivers decoded out
    → (load_into out.1 out.0 w).0 ≡ ok m
    → (payload : List ℕ) × (decoded ≡ ok payload)
      × (m ≡ some (record { payload_len = length payload }))
      × ((load_into out.1 out.0 w).1.written ≡ w.written ++ payload)
unfolding load_into
load_into-ok (ok payload) out w m (answers, all) k =
    let (result, written) =
      finish_load-ok w.written (concat out.1) out.0 (write_chunks out.1 w) m
        (write_chunks-Writes out.1 w) k in
    (
      payload,
      refl,
      sym (ok-injective (sym answers ∙ result)),
      written ∙ ap (λ l. w.written ++ l) all,
    )
load_into-ok (err e) out w m refused k =
    let (result, written) =
      finish_load-ok w.written (concat out.1) out.0 (write_chunks out.1 w) m
        (write_chunks-Writes out.1 w) k in
    absurd (let stop : err e ≡ ok m = sym (ap (λ x. x.0) refused) ∙ result in cc)
