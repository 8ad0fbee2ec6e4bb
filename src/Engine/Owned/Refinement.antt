-- ===== src/Engine/Owned/Refinement.antt =====
-- `run_owned_operation` of src/engine/operation.rs on Unix against what its operations promise.
use atomic_blob_store.Prelude.{
  ℕ, if-holds, ◌≡◌, refl, ap, ◌∙◌, Bool, true, Option, none, some, List, length,
}
use atomic_blob_store.Errors.{Result, ok, err, StoreError, QuarantineInfo}
use atomic_blob_store.Format.Crc.{Crc32c}
use atomic_blob_store.Format.Encode.{encode_envelope}
use atomic_blob_store.Format.Envelope.{encode_envelope-ok}
use atomic_blob_store.Format.RoundTrip.{decode_reader-envelope}
use atomic_blob_store.Format.Load.{load_panics}
use atomic_blob_store.Filesystem.{FilePath, StoreConfig}
use atomic_blob_store.Filesystem.Files.{Entries, put, seen, seen-put, seen-renamed}
use atomic_blob_store.Filesystem.Promises.{
  Contents, Updates-map, is_commit_error, is_sync_error, Moves,
}
use atomic_blob_store.Filesystem.Unix.{Unix, quarantine_blob}
use atomic_blob_store.Filesystem.Unix.Lawful.{Lawful}
use atomic_blob_store.Filesystem.Unix.Saving.{
  Stores, Streams, save_blob-Updates, save_blob_from_receiver-Updates,
}
use atomic_blob_store.Filesystem.Unix.Clearing.{clear_blob-Updates}
use atomic_blob_store.Filesystem.Unix.Moving.{quarantine_blob-Moves}
use atomic_blob_store.Filesystem.Turns.{Ended}
use atomic_blob_store.Engine.Operation.{Operation, BlockingResult}
use atomic_blob_store.Engine.Owned.{Finished, finished_if_some, run_owned_operation}
use atomic_blob_store.Format.Stream.Written.{sent, is_completed}
use atomic_blob_store.Engine.Owned.Reading.{
  IsConfigured, stored, load_blob-Tells, load_blob_into_sender-Tells, inspect_blob-Inspects,
}
use atomic_blob_store.Engine.Owned.Promise.{decoded, contents, Implements}

seen-Moves :
    {A B : Type 0} (g : A → B) (path : FilePath) (r : Result QuarantineInfo) (f f' : Entries A)
    → Moves path r f f'
    → Moves path r (seen g f) (seen g f')
unfolding seen
seen-Moves g path (ok info) f f' (free, moved) =
    (rw free, ap (seen g) moved ∙ seen-renamed g path info.diagnostic_path f)
seen-Moves g path (err (StoreError.quarantine_namespace_sync info e)) f f' (free, moved) =
    (rw free, ap (seen g) moved ∙ seen-renamed g path info.diagnostic_path f)
seen-Moves g path (err _) f f' same = ap (seen g) same

module _ (crc : Crc32c) (config : StoreConfig) (valid : IsConfigured config) where
  open valid use {tag, version, room}
  open config use {format, maximum}

  decoded-encode_envelope :
      (p e : List ℕ) → encode_envelope crc format p maximum ≡ ok e → decoded crc config e ≡ ok p
  decoded-encode_envelope p e h =
      let (fit, whole) = encode_envelope-ok crc format p maximum e h in
      rw whole (decode_reader-envelope crc format p maximum none tag version fit room)

  contents-Stores :
      (path : FilePath) (p : List ℕ) (f f' : Entries (List ℕ))
      → Stores crc config path p f f'
      → contents crc config f' ≡ put path (some (ok p)) (contents crc config f)
  contents-Stores path p f f' (e, encodes, changed) =
      ap (contents crc config) changed
      ∙ seen-put (decoded crc config) path (some e) f
      ∙ ap (λ d. put path (some d) (contents crc config f)) (decoded-encode_envelope p e encodes)

module _ (crc : Crc32c) (config : StoreConfig) (valid : IsConfigured config) (os : Unix)
    (lawful : Lawful os) (path : FilePath) where
  open lawful use {files}

  abbrev held : os.State → Contents
  held s = contents crc config (files s)

  -- The result of an operation keeps the operation's promise, if there is one.
  abbrev pub Keeps : Operation → os.State → Finished os.State → Type 0
  Keeps op s none = Unit
  Keeps op s (some ((returned, result), s')) = Implements path op result (held s) (held s')

  quarantine-Keeps :
      (t : ℕ) (s : os.State) (end : Option (Result QuarantineInfo × os.State))
      → Ended (λ r s'. Moves path r (files s) (files s')) end
      → Keeps
          (Operation.quarantine t)
          s
          (finished_if_some (Operation.quarantine t) BlockingResult.quarantine end)
  quarantine-Keeps t s none h = tt
  quarantine-Keeps t s (some (r, s')) h =
      seen-Moves (decoded crc config) path r (files s) (files s') h

  -- On Unix, every operation that a worker finishes does what its abstract description says, told of
  -- the payload stored under each name, whatever calls fail: a load tells what is stored, and
  -- changes nothing; a save or a completed stream of the declared length stores the payload under
  -- its name alone; a clear takes the entry away; a quarantine moves it to a name that was free; an
  -- inspection tells whether the entry is there. On failure nothing has changed, but for the errors
  -- that come after the change. The format and the maximum are those that a configuration admits,
  -- and the calls behave as documented.
  pub run_owned_operation-Implements :
      (takes : ℕ → Option ℕ) (arrives : ℕ → Bool) (fuel : ℕ) (op : Operation) (s : os.State)
      → Keeps op s (run_owned_operation os crc takes arrives fuel config path op s)
  unfolding run_owned_operation stored
  run_owned_operation-Implements takes arrives fuel (Operation.load t) s =
      if-holds (Keeps (Operation.load t) s)
        (load_panics config.format config.maximum (os.open_file path s)) (λ _. tt)
        (λ _. (
          refl,
          load_blob-Tells crc config valid os lawful path s (os.metadata config.namespace s)
              (os.open_file path s) refl,
        ))
  run_owned_operation-Implements takes arrives fuel (Operation.load_stream (some c) (some a) t) s =
      (
        refl,
        load_blob_into_sender-Tells crc config valid os lawful path s
            (os.metadata config.namespace s) (os.open_file path s) (takes c) (arrives a) refl,
      )
  run_owned_operation-Implements takes arrives fuel (Operation.load_stream (some c) none t) s = tt
  run_owned_operation-Implements takes arrives fuel (Operation.load_stream none a t) s = tt
  run_owned_operation-Implements takes arrives fuel (Operation.save p t) s =
      Updates-map is_commit_error (contents crc config) (Stores crc config path p)
        (λ b a. a ≡ put path (some (ok p)) b) (contents-Stores crc config valid path p) _ _ _
        (save_blob-Updates os lawful path crc config p s)
  run_owned_operation-Implements takes arrives fuel (Operation.save_stream d chunks t) s =
      Updates-map is_commit_error (contents crc config) (Streams os lawful path crc config d chunks)
        (λ b a.
          (is_completed chunks ≡ true)
          × (length (sent chunks) ≡ d)
          × (a ≡ put path (some (ok (sent chunks))) b))
        (λ f f' (whole, size, stores).
          (whole, size, contents-Stores crc config valid path (sent chunks) f f' stores))
        _ _ _ (save_blob_from_receiver-Updates os lawful path crc config d chunks s)
  run_owned_operation-Implements takes arrives fuel (Operation.clear t) s =
      Updates-map is_sync_error (contents crc config) (λ b a. a ≡ put path none b)
        (λ b a. a ≡ put path none b)
        (λ f f' e. ap (contents crc config) e ∙ seen-put (decoded crc config) path none f) _ _ _
        (clear_blob-Updates os lawful config path s)
  run_owned_operation-Implements takes arrives fuel (Operation.inspect t) s = (
    refl,
    inspect_blob-Inspects crc config valid os lawful path s (os.metadata config.namespace s)
        (os.symlink_metadata path s) refl,
  )
  run_owned_operation-Implements takes arrives fuel (Operation.quarantine t) s =
      quarantine-Keeps t s (quarantine_blob os fuel config path s)
        (quarantine_blob-Moves os lawful config path fuel s)
