-- ===== src/Filesystem/Unix/Saving.antt =====
-- The entries of the namespace before and after `save_blob` and `save_blob_from_receiver` of
-- src/filesystem/mod.rs on Unix.
use atomic_blob_store.Prelude.{
  ℕ, ◌≡◌, refl, sym, ap, ◌∙◌, subst, inl, inr, true, some, List, [], ◌∷◌, ◌++◌, length, concat,
  append-nil, append_assoc,
}
use atomic_blob_store.Errors.{Result, ok, err, atomic_commit, Result-cases, io, open_atomic_writer}
use atomic_blob_store.Format.Crc.{Crc32c}
use atomic_blob_store.Format.Encode.{envelope_header, envelope_parts, encode_envelope}
use atomic_blob_store.Format.Stream.{
  SaveStreamMessage, Writer, write_all, to_write, write_stream_envelope,
}
use atomic_blob_store.Format.Stream.Written.{
  sent, is_completed, and_then-ok, write_all-ok, write_stream_envelope-ok,
}
use atomic_blob_store.Filesystem.{FilePath, StoreConfig}
use atomic_blob_store.Filesystem.Actions.{◌>>=◌, or_fail, IoResult-cases}
use atomic_blob_store.Filesystem.Files.{Entries, put}
use atomic_blob_store.Filesystem.Promises.{Updates, is_commit_error}
use atomic_blob_store.Filesystem.Unix.{
  Unix, write_sections, written_or, save_blob, save_blob_from_receiver,
}
use atomic_blob_store.Filesystem.Unix.Lawful.{Lawful}

pub write_sections-ok :
    (sections : List (List ℕ)) (w w' : Writer)
    → write_sections sections w ≡ (ok tt, w')
    → w'.written ≡ w.written ++ concat sections
write_sections-ok [] w w' h = ap (λ x. x.1.written) (sym h) ∙ sym (append-nil w.written)
write_sections-ok (x ∷ xs) w w' h = and_then-ok (to_write (write_all w x)) _ h λ w₁ e k.
    write_sections-ok xs w₁ w' k
    ∙ ap (λ l. l ++ concat xs) (write_all-ok w w₁ x e)
    ∙ append_assoc w.written x (concat xs)

pub encoded :
    (crc : Crc32c) (config : StoreConfig) (payload : List ℕ) (parts : List ℕ × List ℕ)
    → envelope_parts crc config.format payload config.maximum ≡ ok parts
    → encode_envelope crc config.format payload config.maximum
      ≡ ok ([] ++ concat (parts.0 ∷ payload ∷ parts.1 ∷ []))
unfolding encode_envelope
encoded crc config payload parts h = rw (h, append-nil)

-- The entry holds the encoding of the payload, and all others what they held.
abbrev pub Stores :
    Crc32c → StoreConfig → FilePath → List ℕ → Entries (List ℕ) → Entries (List ℕ) → Type 0
Stores crc config path payload before after =
    (e : List ℕ) × (encode_envelope crc config.format payload config.maximum ≡ ok e)
    × (after ≡ put path (some e) before)

module _ (os : Unix) (lawful : Lawful os) (path : FilePath) where
  open lawful use {files}

  -- What the writer wrote, once it is committed.
  committing :
      (Change : Entries (List ℕ) → Entries (List ℕ) → Type 0) (out : Result (Unit {0}) × Writer)
      (s : os.State)
      → ((w : Writer) (f : Entries (List ℕ))
          → out ≡ (ok tt, w)
          → Change f (put path (some w.written) f))
      → let end = (written_or out >>= λ w. or_fail atomic_commit (os.commit path w)) s in
        Updates is_commit_error Change end.0 (files s) (files end.1)
  committing Change (err e, w) s h = inl refl
  committing Change (ok u, w) s h = elim (IoResult-cases (os.commit path w s)) [
    | inl (u, s', e) ↦
        rw e (subst (Change (files s)) (sym (lawful.committed path w s s' e)) (h w (files s) refl))
    | inr (x, s', e) ↦ elim (lawful.not_committed path w x s s' e) [
      | inl same ↦ rw e (inl same)
      | inr changed ↦ rw e (inr (refl, subst (Change (files s)) (sym changed) (h w (files s) refl)))
    ]
  ]

  -- A new file is written and committed.
  replacing :
      (Change : Entries (List ℕ) → Entries (List ℕ) → Type 0)
      (write : Writer → Result (Unit {0}) × Writer) (s : os.State)
      → ((w w' : Writer) (f : Entries (List ℕ))
          → w.written ≡ []
          → write w ≡ (ok tt, w')
          → Change f (put path (some w'.written) f))
      → let end =
          (or_fail (io open_atomic_writer) (os.create_file path) >>= λ w.
          written_or (write w) >>= λ w'. or_fail atomic_commit (os.commit path w'))
            s in
        Updates is_commit_error Change end.0 (files s) (files end.1)
  replacing Change write s h = elim (IoResult-cases (os.create_file path s)) [
    | inl (w, s', e) ↦ rw e (
        subst
          (λ f.
            let end =
              (written_or (write w) >>= λ w'. or_fail atomic_commit (os.commit path w')) s' in
            Updates is_commit_error Change end.0 f (files end.1))
          (ap (λ x. files x.1) (sym e) ∙ lawful.created path s)
          (committing Change (write w) s'
            (λ w' f k. h w w' f (lawful.created_empty path w s s' e) k)))
    | inr (x, s', e) ↦ rw e (inl (ap (λ x. files x.1) (sym e) ∙ lawful.created path s))
  ]

  module _ (crc : Crc32c) (config : StoreConfig) where
    open config use {format, maximum}

    -- A save on Unix, whatever of the calls below it fails: when it succeeds, the entry of its path
    -- holds the encoding of the payload and every other entry what it held; when it fails, nothing
    -- has changed, unless the error is that of the commit, and then either nothing has changed or
    -- the new blob is there in full.
    pub save_blob-Updates :
        (payload : List ℕ) (s : os.State)
        → let end = save_blob os crc config path payload s in
          Updates is_commit_error (Stores crc config path payload) end.0 (files s) (files end.1)
    unfolding save_blob
    save_blob-Updates payload s = elim (Result-cases (envelope_parts crc format payload maximum)) [
      | inr (e, k) ↦ rw k (inl refl)
      | inl (parts, k) ↦ rw k (
          replacing (Stores crc config path payload)
            (write_sections (parts.0 ∷ payload ∷ parts.1 ∷ [])) s
            λ w w' f new out. (
              w'.written,
              encoded crc config payload parts k
                  ∙ ap ok (
                      sym (
                        rw new at (write_sections-ok (parts.0 ∷ payload ∷ parts.1 ∷ []) w w' out))),
              refl,
            ))
    ]

    -- The entry holds the encoding of what was sent, which was completed and has the declared length.
    abbrev pub Streams : ℕ → List SaveStreamMessage → Entries (List ℕ) → Entries (List ℕ) → Type 0
    Streams declared chunks before after =
        (is_completed chunks ≡ true)
        × (length (sent chunks) ≡ declared)
        × Stores crc config path (sent chunks) before after

    -- A streamed save on Unix, whatever of the calls below it fails: when it succeeds, the stream was
    -- completed, exactly the declared number of bytes was sent, the entry of its path holds the
    -- encoding of those bytes and every other entry what it held; when it fails, nothing has changed,
    -- unless the error is that of the commit, and then either nothing has changed or all of this
    -- holds as well.
    pub save_blob_from_receiver-Updates :
        (declared : ℕ) (chunks : List SaveStreamMessage) (s : os.State)
        → let end = save_blob_from_receiver os crc config path declared chunks s in
          Updates is_commit_error (Streams declared chunks) end.0 (files s) (files end.1)
    unfolding save_blob_from_receiver
    save_blob_from_receiver-Updates declared chunks s =
        elim (Result-cases (envelope_header format declared maximum)) [
          | inr (e, k) ↦ rw k (inl refl)
          | inl (header, k) ↦ rw k (
              replacing (Streams declared chunks)
                (λ w. write_stream_envelope crc format maximum w declared chunks) s
                λ w w' f new out.
                  let (whole, size, e, k, all) =
                    write_stream_envelope-ok crc format maximum declared w w' chunks out in
                  (whole, size, (w'.written, k ∙ ap ok (sym (all ∙ ap (λ l. l ++ e) new)), refl)))
        ]
