-- ===== src/Engine/Owned/Reading.antt =====
-- The loads and inspections of src/engine/operation.rs on Unix against what is stored.
use atomic_blob_store.Prelude.{
  ℕ, ◌+◌, ◌^◌, ◌≤◌, ◌<◌, ◌≡◌, refl, ap, ◌∙◌, Bool, true, false, Option, none, some, List, length,
  inl, inr, if-holds, Bool-cases,
}
use atomic_blob_store.Prelude.Bytes.{u64_max}
use atomic_blob_store.Prelude.Order.{lt_wf}
use atomic_blob_store.Errors.{
  IoError, not_found, BlobState, ◌>>◌, Result, ok, err, map_ok, unbind, ok-injective, BlobMetadata,
  Result-cases,
}
use atomic_blob_store.Format.Crc.{Crc32c}
use atomic_blob_store.Format.Reader.{Reader, IoResult, done, failed}
use atomic_blob_store.Format.Decode.{decode_reader}
use atomic_blob_store.Format.RoundTrip.{decode_reader_iff}
use atomic_blob_store.Format.Agreement.{validate_envelope_reader-value}
use atomic_blob_store.Format.Load.{
  File, load_blob, load_blob_into_sender, is_not_found, ensure_namespace_available, absent, to_read,
  acknowledged, and_sends, Chunks, send_chunks,
}
use atomic_blob_store.Filesystem.{FilePath, StoreConfig}
use atomic_blob_store.Filesystem.Files.{seen}
use atomic_blob_store.Filesystem.Promises.{Tells, reading, metadata_of}
use atomic_blob_store.Filesystem.Inspect.{Metadata, inspect_blob, is_kind}
use atomic_blob_store.Filesystem.Unix.{Unix}
use atomic_blob_store.Filesystem.Unix.Lawful.{Lawful}
use atomic_blob_store.Engine.Owned.Promise.{contents, Inspects}

-- A configuration that `BlobFormatIdentity::new` and `validate_maximum` let through.
pub record IsConfigured (config : StoreConfig) : Type 0 where
  pub tag : length config.format.domain_tag ≡ 8
  pub version : config.format.envelope_version < 2 ^ 16
  pub room : config.maximum + 22 ≤ u64_max

acknowledged-ok :
    (arrived : Bool) (m : BlobMetadata) (out : Result (Unit {0}) × Chunks) (v : Option BlobMetadata)
    → (acknowledged arrived m out).0 ≡ ok v
    → some m ≡ v
acknowledged-ok true m (ok u, chunks) v k = ok-injective k
acknowledged-ok false m (ok u, chunks) v k = absurd (cc)
acknowledged-ok arrived m (err e, chunks) v k = absurd (cc)

and_sends-ok {ℓ κ} :
    {A : Type ℓ} {B : Type κ} (P : B → Type 0) (r : Result A) (next : A → Result B × Chunks) (b : B)
    → ((a : A) → (next a).0 ≡ ok b → P b)
    → (and_sends r next).0 ≡ ok b
    → P b
and_sends-ok P (ok a) next b h k = h a k
and_sends-ok P (err e) next b h k = absurd (cc)

absent_inspected :
    (namespace : Result (Unit {0})) (v : Option (Result (List ℕ)))
    → v ≡ none
    → Inspects v
        (namespace >> ok (record { state = BlobState.absent; size = none; modified = none }))
absent_inspected (ok u) v e = e
absent_inspected (err x) v e = tt

absent-Tells :
    {A : Type 0} (namespace : IoResult Bool) (e : IoError) (stored : Result (Option A))
    → (is_not_found e.kind ≡ true → stored ≡ ok none)
    → Tells stored (absent namespace e)
absent-Tells namespace e stored h =
    if-holds (Tells stored) (is_not_found e.kind)
      (λ missing v k.
        unbind (ensure_namespace_available namespace) _ k λ _ _ last. h missing ∙ last)
      (λ _ v k. absurd (cc))

module _ (crc : Crc32c) (config : StoreConfig) (valid : IsConfigured config) where
  open valid use {tag, version, room}
  open config use {format, maximum}

  module _ (os : Unix) (lawful : Lawful os) (path : FilePath) (s : os.State) where
    open lawful use {files}

    unfoldable pub stored : Option (Result (List ℕ))
    stored = contents crc config (files s) path

    -- A file that opens and decodes is what is stored.
    front_stored :
        (f : File) (p : List ℕ)
        → os.open_file path s ≡ done f
        → decode_reader crc format f.front maximum ≡ ok p
        → stored ≡ some (ok p)
    unfolding stored seen
    front_stored f p o h =
        let bytes = lawful.opened_bytes path f s o in
        let (encodes, regular) =
          (decode_reader_iff crc format f.front maximum p tag version room bytes).0 h in
        let whole : Reader = record { bytes = f.front.bytes; ending = none } in
        rw (
          lawful.opened path f s o regular,
          (decode_reader_iff crc format whole maximum p tag version room bytes).1 (encodes, refl),
        )

    missing_stored :
        (e : IoError) → os.open_file path s ≡ failed e → is_not_found e.kind ≡ true → stored ≡ none
    unfolding stored seen
    missing_stored e o m = rw (lawful.not_opened path e s o m)

    pub load_blob-Tells :
        (namespace : IoResult Bool) (o : IoResult File)
        → os.open_file path s ≡ o
        → Tells (reading stored) (load_blob crc format maximum namespace o)
    unfolding load_blob
    load_blob-Tells namespace (failed e) o v k =
        absent-Tells namespace e (reading stored) (λ m. rw (missing_stored e o m)) v k
    load_blob-Tells namespace (done f) o v k =
        elim (Result-cases (decode_reader crc format f.front maximum)) [
          | inl (p, h) ↦ rw (front_stored f p o h) (rw h at k)
          | inr (e, h) ↦ absurd (let stop : err e ≡ ok v = rw h at k in cc)
        ]

    pub load_blob_into_sender-Tells :
        (namespace : IoResult Bool) (o : IoResult File) (takes : Option ℕ) (arrived : Bool)
        → os.open_file path s ≡ o
        → Tells
            (map_ok metadata_of (reading stored))
            (load_blob_into_sender crc format maximum namespace o takes arrived).0
    unfolding load_blob_into_sender
    load_blob_into_sender-Tells namespace (failed e) takes arrived o v k =
        absent-Tells namespace e (map_ok metadata_of (reading stored))
          (λ m. rw (missing_stored e o m)) v k
    load_blob_into_sender-Tells namespace (done f) takes arrived o v k =
        let agree =
          validate_envelope_reader-value crc format f.front maximum room
            (lawful.opened_bytes path f s o) in
        elim (Result-cases (decode_reader crc format f.front maximum)) [
          | inl (p, h) ↦ rw (front_stored f p o h) (
              and_sends-ok (λ w. ok (some (record { payload_len = length p })) ≡ ok w)
                (to_read f.rewound) _ v
                (λ r l. ap ok (
                  acknowledged-ok arrived _
                    (send_chunks (length p) (lt_wf.apply (length p)) r takes) v l))
                (rw (agree, h) at k))
          | inr (e, h) ↦ absurd (let stop : err e ≡ ok v = rw (agree, h) at k in cc)
        ]

    pub inspect_blob-Inspects :
        (namespace : IoResult Bool) (o : IoResult Metadata)
        → os.symlink_metadata path s ≡ o
        → Inspects stored (inspect_blob namespace o)
    unfolding stored seen
    inspect_blob-Inspects namespace (done m) o = elim (Bool-cases m.is_file) [
      | inl file ↦
          let (bytes, held, size) = lawful.inspected path m s o file in
          rw (file, held) (λ none_stored. cc)
      | inr other ↦ rw other tt
    ]
    inspect_blob-Inspects namespace (failed e) o =
        if-holds (Inspects stored) (is_kind e.kind not_found)
          (λ missing.
            absent_inspected (ensure_namespace_available namespace) stored
              (rw (lawful.not_inspected path e s o missing)))
          (λ _. tt)
