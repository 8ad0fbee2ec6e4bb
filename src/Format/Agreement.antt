-- ===== src/Format/Agreement.antt =====
-- `validate_envelope_reader` against `decode_reader`.
use atomic_blob_store.Prelude.{
  ℕ, ◌+◌, ◌-◌, ◌≤◌, ◌<◌, ◌≡◌, refl, ap, ◌∙◌, inl, inr, Bool, true, false, List, ◌++◌, length, All,
  append_assoc, append-nil, arith, ◌==◌, leb, min, Option, none, some, Bool-cases, ltb→lt, lt→ltb,
  ltb,
}
use atomic_blob_store.Prelude.Bytes.{IsByte, u64_max, isize_max, to_be, from_be}
use atomic_blob_store.Errors.{
  BlobMetadata, Result, ok, err, ◌>>=◌, ◌>>◌, map_ok, require, StoreError, magic, version,
  payload_length, payload, checksum, Result-cases,
}
use atomic_blob_store.Config.{BlobFormatIdentity, stream_chunk_size}
use atomic_blob_store.Format.Crc.{Crc32c}
use atomic_blob_store.Format.Reader.{
  Reader, read_section, read_count, read_section-ok, read_section-split, read_section-zero,
}
use atomic_blob_store.Format.Decode.{
  chunk_shrinks, bytes_eq, expect_end, decode_reader_with_usize_limit, decode_reader,
  validate_payload, validate_envelope_reader, is_over_capacity, declared_length, decode_panics,
  decode_reader_or_panic,
}
use atomic_blob_store.Prelude.Order.{lt_wf}
use atomic_blob_store.Format.RoundTrip.{section_facts}
use atomic_blob_store.Format.Envelope.{eq_of_bytes_eq, crc_sections}
use mathlib.Core.Logic.{dif_pos, dif_neg}
use mathlib.Core.WellFounded.{Acc}
use native.Mathlib.Decide.{dec_lt}
use native.Mathlib.Bridge.{le_prop}

-- Two chains that start with the same step agree if they agree after it.
map_ok-bind {ℓ κ μ} :
    {A : Type ℓ} {B : Type κ} {C : Type μ} (h : B → C) (m : Result A) (f : A → Result C)
    (g : A → Result B)
    → ((a : A) → m ≡ ok a → f a ≡ map_ok h (g a))
    → (m >>= f) ≡ map_ok h (m >>= g)
map_ok-bind h (ok a) f g k = k a refl
map_ok-bind h (err e) f g k = refl

map_ok-bind-map {ℓ κ μ ν} :
    {A : Type ℓ} {B : Type κ} {C : Type μ} {D : Type ν} (h : B → C) (j : A → D) (m : Result A)
    (f : D → Result C) (g : A → Result B)
    → ((a : A) → m ≡ ok a → f (j a) ≡ map_ok h (g a))
    → (map_ok j m >>= f) ≡ map_ok h (m >>= g)
map_ok-bind-map h j (ok a) f g k = k a refl
map_ok-bind-map h j (err e) f g k = refl

map_ok-require {ℓ κ} :
    {B : Type ℓ} {C : Type κ} (h : B → C) (b : Bool) (e : StoreError) (f : Result C) (g : Result B)
    → (b ≡ true → f ≡ map_ok h g)
    → (require b e >> f) ≡ map_ok h (require b e >> g)
map_ok-require h true e f g k = k refl
map_ok-require h false e f g k = refl

module _ (crc : Crc32c) where
  open crc use {crc32c, crc32c_append, append_lem, fits}

  -- Reading in chunks is reading at once.
  validate_payload-read :
      (remaining : ℕ) (w : Acc ◌<◌ remaining) (front : List ℕ) (r : Reader)
      → validate_payload crc remaining w (crc32c front) r
        ≡ map_ok (λ q. (crc32c (front ++ q.0), q.1)) (read_section r remaining payload)
  unfolding validate_payload
  validate_payload-read remaining (Acc.intro _ smaller) front r = elim (dec_lt 0 remaining) [
    | yes more ↦
        let n = min remaining stream_chunk_size in
        rw (dif_pos _ le_prop more, whole n (remaining - n) (omega arith))
          (elim (Result-cases (read_section r n payload)) [
            | inl ((chunk, r'), e) ↦
                rw (e, append_lem front chunk)
                  (validate_payload-read (remaining - n)
                      (smaller (remaining - n) (chunk_shrinks remaining more)) (front ++ chunk) r'
                    ∙ rest chunk (read_section r' (remaining - n) payload))
            | inr (x, e) ↦ rw e
          ])
    | no over ↦
        let empty : remaining ≡ 0 = omega arith in
        rw (dif_neg _ over, empty, read_section-zero, append-nil)
  ]
    where
      whole :
          (n k : ℕ)
          → remaining ≡ n + k
          → read_section r remaining payload ≡ (
              read_section r n payload >>= λ p.
              map_ok (λ q. (p.0 ++ q.0, q.1)) (read_section p.1 k payload))
      whole n k e = ap (λ (m : ℕ). read_section r m payload) e ∙ read_section-split r n k payload

      rest :
          (chunk : List ℕ) (q : Result (List ℕ × Reader))
          → map_ok {A = List ℕ × Reader} {B = ℕ × Reader}
              (λ a. (crc32c ((front ++ chunk) ++ a.0), a.1))
              q
            ≡ map_ok {A = List ℕ × Reader} {B = ℕ × Reader}
                (λ a. (crc32c (front ++ a.0), a.1))
                (map_ok (λ a. (chunk ++ a.0, a.1)) q)
      rest chunk (ok a) = rw append_assoc
      rest chunk (err e) = refl

  same_sum :
      (format : BlobFormatIdentity) (a b c d : List ℕ)
      → a ≡ format.domain_tag
      → to_be 2 (from_be 0 b) ≡ b
      → (from_be 0 b == format.envelope_version) ≡ true
      → to_be 8 (from_be 0 c) ≡ c
      → crc32c ((a ++ (b ++ c)) ++ d)
        ≡ crc32c_append
            (crc32c_append
              (crc32c_append (crc32c format.domain_tag) (to_be 2 format.envelope_version))
              (to_be 8 (from_be 0 c)))
            d
  same_sum format a b c d tag v ver l =
      ground (arith, tag, v, ver, l, crc_sections crc format (from_be 0 c) d)

  -- The chunked validation answers as the decoder does where it does not panic.
  pub validate_envelope_reader-value :
      (format : BlobFormatIdentity) (r : Reader) (maximum : ℕ)
      → maximum + 22 ≤ u64_max
      → All IsByte r.bytes
      → validate_envelope_reader crc format r maximum
        ≡ map_ok (λ p. record { payload_len = length p }) (decode_reader crc format r maximum)
  unfolding validate_envelope_reader decode_reader decode_reader_with_usize_limit
  validate_envelope_reader-value format r maximum room bytes =
      map_ok-bind _ (read_section r 8 magic) _ _ λ a e₁.
        map_ok-require _ (bytes_eq a.0 format.domain_tag) _ _ _ λ tag.
          map_ok-bind _ (read_section a.1 2 version) _ _ λ b e₂.
            map_ok-require _ (from_be 0 b.0 == format.envelope_version) _ _ _ λ ver.
              map_ok-bind _ (read_section b.1 8 payload_length) _ _ λ c e₃.
                map_ok-require _ (leb (from_be 0 c.0) maximum) _ _ _ λ fit.
                  let f₁ = section_facts r 8 magic a bytes e₁ in
                  let f₂ = section_facts a.1 2 version b f₁.4 e₂ in
                  let f₃ = section_facts b.1 8 payload_length c f₂.4 e₃ in
                  let small : leb (from_be 0 c.0) u64_max ≡ true = ground (arith, fit) in
                  let smaller : leb (from_be 0 c.0 + 22) u64_max ≡ true = ground (arith, fit) in
                  rw
                    (
                      small,
                      smaller,
                      validate_payload-read (from_be 0 c.0) (lt_wf.apply (from_be 0 c.0))
                          (a.0 ++ (b.0 ++ c.0)) c.1,
                    )
                    (map_ok-bind-map _ _ (read_section c.1 (from_be 0 c.0) payload) _ _ λ d e₄.
                      rw
                        (same_sum format a.0 b.0 c.0 d.0 (eq_of_bytes_eq a.0 format.domain_tag tag)
                          f₂.3 ver f₃.3)
                        (map_ok-bind _ (read_section d.1 4 checksum) _ _ λ e e₅.
                          map_ok-bind _ (expect_end (read_count e.1.bytes e.1.ending)) _ _ λ u _.
                            map_ok-require _ (from_be 0 e.0 == _) _ _ _
                              λ sum. rw (read_section-ok c.1 (from_be 0 c.0) payload d.0 d.1 e₄).0))

  -- The header passes its checks and declares more than an allocation may have.
  abbrev pub IsOverCapacity : Result ℕ → Type 0
  IsOverCapacity declared = (n : ℕ) × (declared ≡ ok n) × (isize_max < n)

  -- The same answer, or a panic over a declared length that is no size of an allocation.
  abbrev pub Agrees : Result BlobMetadata → Option (Result (List ℕ)) → Result ℕ → Type 0
  Agrees validated none declared = IsOverCapacity declared
  Agrees validated (some decoded) declared =
      (validated ≡ map_ok (λ p. record { payload_len = length p }) decoded)
      × (¬ IsOverCapacity declared)

  over_capacity : (declared : Result ℕ) → is_over_capacity declared ≡ true → IsOverCapacity declared
  over_capacity (ok n) h = (n, refl, ltb→lt isize_max n h)
  over_capacity (err e) h = absurd (cc)

  within_capacity :
      (declared : Result ℕ) → is_over_capacity declared ≡ false → ¬ IsOverCapacity declared
  within_capacity declared h (n, e, over) =
      let test : ltb isize_max n ≡ false = rw e at h in
      let found : ltb isize_max n ≡ true = lt→ltb isize_max n over in cc

  -- The chunked validation and the decoder give the same answer on every input, errors included,
  -- unless the decoder panics: validation succeeds exactly where decoding does, with the length of
  -- the decoded payload, and fails with the same error. The decoder panics exactly where the header
  -- passes its checks and declares more than `isize::MAX` bytes. The input is bytes, and the maximum
  -- one that `validate_maximum` lets through.
  pub validate_envelope_reader-eq-decode_reader :
      (format : BlobFormatIdentity) (r : Reader) (maximum : ℕ)
      → maximum + 22 ≤ u64_max
      → All IsByte r.bytes
      → Agrees
          (validate_envelope_reader crc format r maximum)
          (decode_reader_or_panic crc format r maximum)
          (declared_length format r maximum u64_max)
  unfolding decode_reader_or_panic decode_panics
  validate_envelope_reader-eq-decode_reader format r maximum room bytes =
      elim (Bool-cases (is_over_capacity (declared_length format r maximum u64_max))) [
        | inl over ↦ rw over (over_capacity (declared_length format r maximum u64_max) over)
        | inr within ↦ rw within (
          validate_envelope_reader-value format r maximum room bytes,
          within_capacity (declared_length format r maximum u64_max) within,
        )
      ]
