-- ===== src/Engine/Owned/Traces.antt =====
-- Operations of src/engine/operation.rs one after the other, on one namespace on Unix.
use atomic_blob_store.Prelude.{
  ℕ, ◌≡◌, refl, sym, ap, ◌∙◌, subst, Bool, false, Option, none, some, List, [], ◌∷◌, All, inl, inr,
  Bool-cases,
}
use atomic_blob_store.Errors.{Result, ok, err, StoreError, QuarantineInfo, ok-injective}
use atomic_blob_store.Format.Crc.{Crc32c}
use atomic_blob_store.Format.Decode.{bytes_eq}
use atomic_blob_store.Format.Envelope.{eq_of_bytes_eq}
use atomic_blob_store.Filesystem.{FilePath, StoreConfig}
use atomic_blob_store.Filesystem.Files.{Entries, put, renamed, put_same, put_other}
use atomic_blob_store.Filesystem.Promises.{Contents, Updates, Moves, Tells, reading}
use atomic_blob_store.Filesystem.Unix.{Unix}
use atomic_blob_store.Filesystem.Unix.Lawful.{Lawful}
use atomic_blob_store.Engine.Operation.{Operation, BlockingResult}
use atomic_blob_store.Engine.Owned.{Finished, run_owned_operation}
use atomic_blob_store.Engine.Owned.Promise.{contents, Implements}
use atomic_blob_store.Engine.Owned.Reading.{IsConfigured}
use atomic_blob_store.Engine.Owned.Refinement.{Keeps, run_owned_operation-Implements}

-- An operation on another name leaves what is stored under `q`.
module _ {A : Type 0} (q path : FilePath) (other : bytes_eq q path ≡ false) where
  put-Leaves : (v : Option A) (f f' : Entries A) → f' ≡ put path v f → f' q ≡ f q
  put-Leaves v f f' e = ap (λ g. g q) e ∙ put_other path q v f other

  Updates-Leaves :
      (late : StoreError → Bool) (C : Entries A → Entries A → Type 0) (r : Result (Unit {0}))
      (f f' : Entries A)
      → ((f f' : Entries A) → C f f' → f' q ≡ f q)
      → Updates late C r f f'
      → f' q ≡ f q
  Updates-Leaves late C (ok u) f f' h c = h f f' c
  Updates-Leaves late C (err e) f f' h (inl same) = ap (λ g. g q) same
  Updates-Leaves late C (err e) f f' h (inr (told, c)) = h f f' c

  renamed-Leaves :
      (p : FilePath) (v : A) (f f' : Entries A)
      → f q ≡ some v
      → (f p ≡ none) × (f' ≡ renamed path p f)
      → f' q ≡ f q
  unfolding renamed
  renamed-Leaves p v f f' there (free, moved) = elim (Bool-cases (bytes_eq q p)) [
    | inl e ↦
        absurd
          (let stop : none ≡ some v = sym free ∙ ap f (sym (eq_of_bytes_eq q p e)) ∙ there in cc)
    | inr e ↦
        ap (λ g. g q) moved
        ∙ put_other p q (f path) (put path none f) e
        ∙ put_other path q none f other
  ]

  Moves-Leaves :
      (r : Result QuarantineInfo) (v : A) (f f' : Entries A)
      → f q ≡ some v
      → Moves path r f f'
      → f' q ≡ f q
  Moves-Leaves (ok info) v f f' there moves = renamed-Leaves info.diagnostic_path v f f' there moves
  Moves-Leaves (err (StoreError.quarantine_namespace_sync info e)) v f f' there moves =
      renamed-Leaves info.diagnostic_path v f f' there moves
  Moves-Leaves (err _) v f f' there same = ap (λ g. g q) same

Implements-Leaves :
    (q path : FilePath) (op : Operation) (result : BlockingResult) (before after : Contents)
    (v : Result (List ℕ))
    → bytes_eq q path ≡ false
    → before q ≡ some v
    → Implements path op result before after
    → after q ≡ before q
Implements-Leaves q path (Operation.load t) (BlockingResult.load r) f f' v other there
      (same, told) =
    ap (λ g. g q) same
Implements-Leaves q path (Operation.load_stream c a t) (BlockingResult.load_stream r) f f' v other
      there (same, told) =
    ap (λ g. g q) same
Implements-Leaves q path (Operation.save p t) (BlockingResult.save r) f f' v other there h =
    Updates-Leaves q path other _ (λ b a. a ≡ put path (some (ok p)) b) r f f'
      (put-Leaves q path other (some (ok p))) h
Implements-Leaves q path (Operation.save_stream d chunks t) (BlockingResult.save_stream r) f f' v
      other there h =
    Updates-Leaves q path other _ _ r f f'
      (λ g g' (whole, size, e). put-Leaves q path other _ g g' e) h
Implements-Leaves q path (Operation.clear t) (BlockingResult.clear r) f f' v other there h =
    Updates-Leaves q path other _ (λ b a. a ≡ put path none b) r f f' (put-Leaves q path other none)
      h
Implements-Leaves q path (Operation.inspect t) (BlockingResult.inspect r) f f' v other there
      (same, told) =
    ap (λ g. g q) same
Implements-Leaves q path (Operation.quarantine t) (BlockingResult.quarantine r) f f' v other there
      h =
    Moves-Leaves q path other r v f f' there h
Implements-Leaves q path _ _ f f' v other there never = absurd never

abbrev and_go_on : {S : Type 0} → Finished S → (S → Option S) → Option S
and_go_on none next = none
and_go_on (some (end, s)) next = next s

module _ (crc : Crc32c) (config : StoreConfig) (os : Unix) (takes : ℕ → Option ℕ)
    (arrives : ℕ → Bool) (fuel : ℕ) where
  -- The workers' operations in the order in which they run.
  unfoldable pub run_all : List (FilePath × Operation) → os.State → Option os.State
  run_all [] s = some s
  run_all ((path, op) ∷ rest) s =
      and_go_on (run_owned_operation os crc takes arrives fuel config path op s) (run_all rest)

  module _ (valid : IsConfigured config) (lawful : Lawful os) where
    open lawful use {files}

    abbrev held : os.State → Contents
    held s = contents crc config (files s)

    go_on-Leaves :
        (q path : FilePath) (op : Operation) (v : Result (List ℕ)) (s s' : os.State)
        (end : Finished os.State) (next : os.State → Option os.State)
        → bytes_eq q path ≡ false
        → held s q ≡ some v
        → Keeps crc config valid os lawful path op s end
        → ((s₁ : os.State) → held s₁ q ≡ some v → next s₁ ≡ some s' → held s' q ≡ some v)
        → and_go_on end next ≡ some s'
        → held s' q ≡ some v
    go_on-Leaves q path op v s s' none next other there keeps h k = absurd (cc)
    go_on-Leaves q path op v s s' (some ((returned, result), s₁)) next other there keeps h k =
        h s₁ (Implements-Leaves q path op result (held s) (held s₁) v other there keeps ∙ there) k

    run_all-Leaves :
        (q : FilePath) (v : Result (List ℕ)) (ops : List (FilePath × Operation)) (s s' : os.State)
        → All (λ x. bytes_eq q x.0 ≡ false) ops
        → held s q ≡ some v
        → run_all ops s ≡ some s'
        → held s' q ≡ some v
    unfolding run_all
    run_all-Leaves q v [] s s' others there k =
        subst (λ x. held x q ≡ some v) (let same : s ≡ s' = cc in same) there
    run_all-Leaves q v ((path, op) ∷ rest) s s' others there k =
        go_on-Leaves q path op v s s'
          (run_owned_operation os crc takes arrives fuel config path op s) (run_all rest) others.0
          there
          (run_owned_operation-Implements crc config valid os lawful path takes arrives fuel op s)
          (λ s₁ there' k'. run_all-Leaves q v rest s₁ s' others.1 there' k') k

    -- On Unix, a load that succeeds after a save that succeeded answers with the saved payload,
    -- whatever operations on other names, failed ones too, the workers finish between them. The
    -- format and the maximum are those that a configuration admits, and the calls behave as
    -- documented.
    pub load-save :
        (q : FilePath) (payload : List ℕ) (t t' : ℕ) (ops : List (FilePath × Operation))
        (s s₁ s₂ s₃ : os.State) (first last : Operation) (answer : Option (List ℕ))
        → run_owned_operation os crc takes arrives fuel config q (Operation.save payload t) s
          ≡ some ((first, BlockingResult.save (ok tt)), s₁)
        → All (λ x. bytes_eq q x.0 ≡ false) ops
        → run_all ops s₁ ≡ some s₂
        → run_owned_operation os crc takes arrives fuel config q (Operation.load t') s₂
          ≡ some ((last, BlockingResult.load (ok answer)), s₃)
        → answer ≡ some payload
    load-save q payload t t' ops s s₁ s₂ s₃ first last answer saves others between loads =
        let implements =
          run_owned_operation-Implements crc config valid os lawful q takes arrives fuel in
        let stored : held s₁ ≡ put q (some (ok payload)) (held s) =
          subst (Keeps crc config valid os lawful q (Operation.save payload t) s) saves
            (implements (Operation.save payload t) s) in
        let kept : held s₂ q ≡ some (ok payload) =
          run_all-Leaves q (ok payload) ops s₁ s₂ others
            (ap (λ f. f q) stored ∙ put_same q (some (ok payload)) (held s)) between in
        let told : (held s₃ ≡ held s₂) × Tells (reading (held s₂ q)) (ok answer) =
          subst (Keeps crc config valid os lawful q (Operation.load t') s₂) loads
            (implements (Operation.load t') s₂) in
        sym (ok-injective (sym (ap reading kept) ∙ told.1 answer refl))
