-- ===== src/Blocking/Reads.antt =====
-- A `Read` source, src/blocking.rs: the pieces that it delivers, each by one or more reads, or the
-- error of a read. An empty piece, or no more, is the end of the input.
use atomic_blob_store.Prelude.{
  ℕ, suc, ◌-◌, ◌<◌, ◌≤◌, ◌≡◌, refl, leb, if◌then◌else◌, Option, none, some, List, [], ◌∷◌, ◌++◌,
  length, take, drop, arith, zero, ap, sym, ◌∙◌, take-append-drop, append_assoc, length-take,
  length-drop, Bool-cases, false, inl, inr,
}
use atomic_blob_store.Errors.{IoError}
use atomic_blob_store.Format.Reader.{IoResult, done, failed}

abbrev pub Source : Type 0
Source = List (IoResult (List ℕ))

-- `read` into a buffer of `n` bytes.
abbrev pub read : ℕ → Source → IoResult (List ℕ) × Source
read n [] = (done [], [])
read n (failed e ∷ rest) = (failed e, rest)
read n (done piece ∷ rest) =
    if leb (length piece) n
    then (done piece, rest)
    else (done (take n piece), done (drop n piece) ∷ rest)

pub piece_shrinks :
    (remaining b : ℕ) (bs : List ℕ) → 0 < remaining → remaining - length (b ∷ bs) < remaining
piece_shrinks remaining b bs more = omega arith

-- What the source delivers up to its end, and the error that ends it, if there is one.
abbrev pub content : Source → List ℕ × Option IoError
content [] = ([], none)
content (failed e ∷ rest) = ([], some e)
content (done [] ∷ rest) = ([], none)
content (done (b ∷ bs) ∷ rest) = let (bytes, ending) = content rest in (b ∷ (bs ++ bytes), ending)

-- What a read tells of the content of the source, and what it leaves of it.
abbrev pub Reads : ℕ → Source → IoResult (List ℕ) × Source → Type 0
Reads n source (failed e, rest) = content source ≡ ([], some e)
Reads n source (done [], rest) = content source ≡ ([], none)
Reads n source (done (b ∷ bs), rest) =
    (length (b ∷ bs) ≤ n) × (content source ≡ ((b ∷ bs) ++ (content rest).0, (content rest).1))

content-done :
    (piece : List ℕ) (rest : Source)
    → 0 < length piece
    → content (done piece ∷ rest) ≡ (piece ++ (content rest).0, (content rest).1)
content-done [] rest h = absurd (omega arith)
content-done (b ∷ bs) rest h = refl

read_more :
    (m b : ℕ) (bs : List ℕ) (rest : Source)
    → leb (length (b ∷ bs)) (suc m) ≡ false
    → Reads
        (suc m)
        (done (b ∷ bs) ∷ rest)
        (done (take (suc m) (b ∷ bs)), done (drop (suc m) (b ∷ bs)) ∷ rest)
read_more m b bs rest h = (
  omega (arith, length-take m bs),
  rw (content-done (drop m bs) rest (ground (arith, length-drop m bs))) (
      ap (λ (l : List ℕ). (b ∷ l, (content rest).1))
        (ap (λ l. l ++ (content rest).0) (sym (take-append-drop m bs))
          ∙ append_assoc (take m bs) (drop m bs) (content rest).0)),
)

pub read-Reads : (n : ℕ) (source : Source) → 0 < n → Reads n source (read n source)
read-Reads n [] more = refl
read-Reads n (failed e ∷ rest) more = refl
read-Reads n (done [] ∷ rest) more = ground arith
read-Reads zero (done (b ∷ bs) ∷ rest) more = absurd (omega arith)
read-Reads (suc m) (done (b ∷ bs) ∷ rest) more = elim (Bool-cases (leb (length (b ∷ bs)) (suc m))) [
  | inl fits ↦ rw fits (ground (arith, fits), refl)
  | inr long ↦ rw long (read_more m b bs rest long)
]
