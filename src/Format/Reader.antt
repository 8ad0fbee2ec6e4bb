-- ===== src/Format/Reader.antt =====
-- A `Read` source as the bytes that it still delivers and the way it then ends, and `read_section`
-- of src/format.rs.
use atomic_blob_store.Prelude.{
  ℕ, ◌+◌, ◌≡◌, Option, none, some, List, [], ◌∷◌, ◌++◌, length, take, drop, leb, ltb, ◌-◌,
  if◌then◌else◌, arith, take-split, drop-drop, length-drop, take-length, drop-length, length-take,
  take-append, Bool-cases, inl, inr, length-append, take-append-drop,
}
use atomic_blob_store.Errors.{
  ErrorKind, IoError, unexpected_eof, EnvelopeSection, StoreError, Result, ok, err, ◌>>=◌, map_ok,
  io, read_envelope, truncated_envelope,
}

-- `ending` is the error that follows the last byte; `none` is a regular end of file.
pub record Reader : Type 0 where
  pub bytes : List ℕ
  pub ending : Option IoError

pub data IoResult {ℓ} (A : Type ℓ) : Type ℓ where
  done : A → IoResult A
  failed : IoError → IoResult A

abbrev pub plain_error : ErrorKind → IoError
plain_error k = record { kind = k; raw_os_error = none }

abbrev pub ending_error : Option IoError → IoError
ending_error none = plain_error unexpected_eof
ending_error (some e) = e

-- `read_exact` into a buffer of `n` bytes.
abbrev pub read_exact : Reader → ℕ → IoResult (List ℕ × Reader)
read_exact r n =
    if leb n (length r.bytes)
    then done (take n r.bytes, record r { bytes = drop n r.bytes })
    else failed (ending_error r.ending)

-- `read` into a buffer of one byte: how many bytes were read.
abbrev pub read_count : List ℕ → Option IoError → IoResult ℕ
read_count (b ∷ bs) ending = done 1
read_count [] none = done 0
read_count [] (some e) = failed e

abbrev pub section_error : EnvelopeSection → IoError → ErrorKind → StoreError
section_error s e unexpected_eof = truncated_envelope s
section_error s e k = io read_envelope e

abbrev pub to_section {ℓ} : {A : Type ℓ} → EnvelopeSection → IoResult A → Result A
to_section s (done a) = ok a
to_section s (failed e) = err (section_error s e e.kind)

unfoldable pub read_section : Reader → ℕ → EnvelopeSection → Result (List ℕ × Reader)
read_section r n s = to_section s (read_exact r n)

pub read_section-zero : (r : Reader) (s : EnvelopeSection) → read_section r 0 s ≡ ok ([], r)
unfolding read_section
read_section-zero r s = ground arith

-- A read of two lengths is two reads.
pub read_section-split :
    (r : Reader) (n k : ℕ) (s : EnvelopeSection)
    → read_section r (n + k) s
      ≡ (read_section r n s >>= λ p. map_ok (λ q. (p.0 ++ q.0, q.1)) (read_section p.1 k s))
unfolding read_section
read_section-split r n k s =
    ground (arith, take-split n k r.bytes, drop-drop n k r.bytes, length-drop n r.bytes)

-- The bytes at the front are read as they stand.
pub read_section-append :
    (x rest : List ℕ) (n : ℕ) (ending : Option IoError) (s : EnvelopeSection)
    → length x ≡ n
    → read_section (record { bytes = x ++ rest; ending = ending }) n s
      ≡ ok (x, record { bytes = rest; ending = ending })
unfolding read_section
read_section-append x rest n ending s h =
    ground
      (arith, h, length-append x rest, rw h at (take-length x rest), rw h at (drop-length x rest))

-- What a read that succeeds has taken.
pub read_section-ok :
    (r : Reader) (n : ℕ) (s : EnvelopeSection) (x : List ℕ) (r' : Reader)
    → read_section r n s ≡ ok (x, r')
    → (length x ≡ n) × (r.bytes ≡ x ++ r'.bytes) × (r'.ending ≡ r.ending)
unfolding read_section
read_section-ok r n s x r' h = ground (arith, length-take n r.bytes, take-append-drop n r.bytes)

-- A read near the end of an input that is cut short.
pub read_section-take :
    (x rest : List ℕ) (n k : ℕ) (s : EnvelopeSection)
    → length x ≡ n
    → read_section (record { bytes = take k (x ++ rest); ending = none }) n s ≡ (
        if ltb k n
        then err (truncated_envelope s)
        else ok (x, record { bytes = take (k - n) rest; ending = none }))
read_section-take x rest n k s h = elim (Bool-cases (ltb k n)) [
  | inl short ↦ rw short (unfold read_section in ground (arith, length-take k (x ++ rest)))
  | inr enough ↦
      let kept : take k (x ++ rest) ≡ x ++ take (k - n) rest =
        rw h at (take-append x rest k (ground arith)) in
      rw (enough, kept) (read_section-append x (take (k - n) rest) n none s h)
]
