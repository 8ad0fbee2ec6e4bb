-- ===== src/Format/Load.antt =====
-- `load_blob` and `load_blob_into_sender` of src/format.rs, and `ensure_namespace_available` of
-- src/filesystem/mod.rs. What the operating system answers is given: to `metadata` whether the path
-- is a directory, to `open` a file that reads as `front` first and as `rewound` after the seek. The
-- receiver of the chunks takes a number of them before it goes away, or with `none` all.
pub mod Sent
use atomic_blob_store.Prelude.{
  ℕ, zero, suc, ◌+◌, ◌-◌, ◌<◌, Bool, true, false, Option, none, some, List, [], ◌∷◌, min,
  if◌then◌else◌,
}
use atomic_blob_store.Prelude.Order.{lt_wf}
use atomic_blob_store.Errors.{
  ErrorKind, not_found, IoError, Result, ok, err, ◌>>=◌, ◌>>◌, map_ok, require, StoreError,
  BlobMetadata, io, open_blob, inspect_namespace, read_envelope, namespace_path_is_not_directory,
  stream_cancelled, payload,
}
use atomic_blob_store.Config.{BlobFormatIdentity, stream_chunk_size}
use atomic_blob_store.Format.Crc.{Crc32c}
use atomic_blob_store.Format.Reader.{Reader, IoResult, done, failed, read_section}
use atomic_blob_store.Format.Decode.{
  decode_panics, decode_reader, validate_envelope_reader, chunk_shrinks,
}
use mathlib.Core.Logic.{dite}
use mathlib.Core.WellFounded.{Acc}
use native.Mathlib.Decide.{dec_lt}

pub record File : Type 0 where
  pub front : Reader
  pub rewound : IoResult Reader

abbrev pub ensure_namespace_available : IoResult Bool → Result (Unit {0})
ensure_namespace_available (done true) = ok tt
ensure_namespace_available (done false) = err namespace_path_is_not_directory
ensure_namespace_available (failed e) = err (io inspect_namespace e)

abbrev pub is_not_found : ErrorKind → Bool
is_not_found not_found = true
is_not_found _ = false

-- A file that does not exist is no blob, provided that its directory is there.
abbrev pub absent {ℓ} : {A : Type ℓ} → IoResult Bool → IoError → Result (Option A)
absent namespace e =
    if is_not_found e.kind
    then (ensure_namespace_available namespace >> ok none)
    else err (io open_blob e)

abbrev pub Chunks : Type 0
Chunks = List (List ℕ)

-- What a chain sends, whether or not it fails.
abbrev pub and_sends {ℓ κ} :
    {A : Type ℓ} {B : Type κ} → Result A → (A → Result B × Chunks) → Result B × Chunks
and_sends (ok a) next = next a
and_sends (err e) next = (err e, [])

-- `chunks.send(chunk)`, by the number of chunks that the receiver still takes.
abbrev pub send_one :
    Option ℕ → List ℕ → (Option ℕ → Result (Unit {0}) × Chunks) → Result (Unit {0}) × Chunks
send_one none chunk next = let (result, rest) = next none in (result, chunk ∷ rest)
send_one (some zero) chunk next = (err stream_cancelled, [])
send_one (some (suc n)) chunk next = let (result, rest) = next (some n) in (result, chunk ∷ rest)

-- The loop over the payload after the seek.
unfoldable pub send_chunks :
    (remaining : ℕ) → Acc ◌<◌ remaining → Reader → Option ℕ → Result (Unit {0}) × Chunks
send_chunks remaining (Acc.intro _ smaller) r takes =
    dite (dec_lt 0 remaining)
      (λ more.
        let requested = min remaining stream_chunk_size in
        and_sends (read_section r requested payload) λ p. send_one takes p.0 λ left.
          send_chunks (remaining - requested) (smaller _ (chunk_shrinks remaining more)) p.1 left)
      (λ _. (ok tt, []))

abbrev pub to_read : IoResult Reader → Result Reader
to_read (done r) = ok r
to_read (failed e) = err (io read_envelope e)

-- The wait for the acknowledgement after the last chunk.
abbrev pub acknowledged :
    Bool → BlobMetadata → Result (Unit {0}) × Chunks → Result (Option BlobMetadata) × Chunks
acknowledged arrived metadata (result, chunks) =
    (result >> (require arrived stream_cancelled >> ok (some metadata)), chunks)

-- `load_blob` panics where `decode_reader` does.
abbrev pub load_panics : BlobFormatIdentity → ℕ → IoResult File → Bool
load_panics format maximum (failed e) = false
load_panics format maximum (done file) = decode_panics format file.front maximum

module _ (crc : Crc32c) where
  -- What it returns where the decoder does not panic.
  unfoldable pub load_blob :
      BlobFormatIdentity → ℕ → IoResult Bool → IoResult File → Result (Option (List ℕ))
  load_blob format maximum namespace (failed e) = absent namespace e
  load_blob format maximum namespace (done file) =
      map_ok some (decode_reader crc format file.front maximum)

  unfoldable pub load_blob_into_sender :
      BlobFormatIdentity
      → ℕ
      → IoResult Bool
      → IoResult File
      → Option ℕ
      → Bool
      → Result (Option BlobMetadata) × Chunks
  load_blob_into_sender format maximum namespace (failed e) takes arrived = (absent namespace e, [])
  load_blob_into_sender format maximum namespace (done file) takes arrived =
      and_sends (validate_envelope_reader crc format file.front maximum) λ metadata.
        and_sends (to_read file.rewound) λ r.
          acknowledged arrived metadata
            (send_chunks metadata.payload_len (lt_wf.apply metadata.payload_len) r takes)
