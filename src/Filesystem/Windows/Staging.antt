-- ===== src/Filesystem/Windows/Staging.antt =====
-- The names of staging files of src/filesystem/mod.rs: how they are made, and
-- `is_owned_temporary_filename`, which recognises them.
use atomic_blob_store.Prelude.{
  ℕ, ◌==◌, leb, ◌≡◌, ◌≢◌, ◌↔◌, refl, sym, ap, subst, Bool, true, false, ◌&&◌, ◌||◌, if◌then◌else◌,
  Option, none, some, List, [], ◌∷◌, ◌++◌, length, All, arith, inl, inr, Bool-cases, &&_true,
}
use atomic_blob_store.Format.Decode.{bytes_eq}
use atomic_blob_store.Format.Envelope.{eq_of_bytes_eq}

abbrev pub tmp_mark : List ℕ
tmp_mark = b'.' ∷ b't' ∷ b'm' ∷ b'p' ∷ b'-' ∷ b'v' ∷ b'1' ∷ b'.' ∷ []

abbrev pub save_kind : List ℕ
save_kind = b's' ∷ b'a' ∷ b'v' ∷ b'e' ∷ []

abbrev pub clear_kind : List ℕ
clear_kind = b'c' ∷ b'l' ∷ b'e' ∷ b'a' ∷ b'r' ∷ []

-- The name of a staging file of the kind `kind`, under the namespace.
abbrev pub staging_name : List ℕ → List ℕ → List ℕ → List ℕ → List ℕ
staging_name hash suffix kind identifier =
    hash ++ ((suffix ++ tmp_mark) ++ (kind ++ (b'.' ∷ identifier)))

-- What follows the prefix that a text begins with.
abbrev strip : List ℕ → List ℕ → Option (List ℕ)
strip xs [] = some xs
strip [] (p ∷ ps) = none
strip (x ∷ xs) (p ∷ ps) = let rest = strip xs ps in if x == p then rest else none

abbrev before : ℕ → Option (List ℕ × List ℕ) → Option (List ℕ × List ℕ)
before x none = none
before x (some (front, back)) = some (x ∷ front, back)

abbrev here_or : Option (List ℕ) → Option (List ℕ × List ℕ) → Option (List ℕ × List ℕ)
here_or (some back) later = some ([], back)
here_or none later = later

-- `split_once`, at the first place where the marker stands.
unfoldable pub split_once : List ℕ → List ℕ → Option (List ℕ × List ℕ)
split_once [] marker = here_or (strip [] marker) none
split_once (x ∷ xs) marker =
    let later = before x (split_once xs marker) in here_or (strip (x ∷ xs) marker) later

-- `is_ascii_hexdigit` and not `is_ascii_uppercase`.
abbrev pub is_hex : ℕ → Bool
is_hex b = (leb b'0' b && leb b b'9') || (leb b'a' b && leb b b'f')

abbrev pub all_hex : List ℕ → Bool
all_hex [] = true
all_hex (b ∷ bs) = is_hex b && all_hex bs

abbrev pub is_hex_64 : List ℕ → Bool
is_hex_64 bs = length bs == 64 && all_hex bs

abbrev pub is_kind_name : List ℕ → Bool
is_kind_name kind = bytes_eq kind save_kind || bytes_eq kind clear_kind

abbrev is_owned_rest : Option (List ℕ × List ℕ) → Bool
is_owned_rest none = false
is_owned_rest (some (kind, identifier)) = is_kind_name kind && is_hex_64 identifier

abbrev is_owned_split : Option (List ℕ × List ℕ) → Bool
is_owned_split none = false
is_owned_split (some (hash, rest)) = is_hex_64 hash && is_owned_rest (split_once rest (b'.' ∷ []))

unfoldable pub is_owned_temporary_filename : List ℕ → List ℕ → Bool
is_owned_temporary_filename name suffix = is_owned_split (split_once name (suffix ++ tmp_mark))

strip-append : (marker rest : List ℕ) → strip (marker ++ rest) marker ≡ some rest
strip-append [] rest = refl
strip-append (m ∷ ms) rest = ground (arith, strip-append ms rest)

-- A marker whose first byte is not in front of it is found where it stands.
split_once-append :
    (front : List ℕ) (m : ℕ) (ms rest : List ℕ)
    → All (λ x. x ≢ m) front
    → split_once (front ++ ((m ∷ ms) ++ rest)) (m ∷ ms) ≡ some (front, rest)
unfolding split_once
split_once-append [] m ms rest h = ground (arith, strip-append ms rest)
split_once-append (x ∷ xs) m ms rest h = ground (arith, h.0, split_once-append xs m ms rest h.1)

strip-some : (xs marker rest : List ℕ) → strip xs marker ≡ some rest → xs ≡ marker ++ rest
strip-some xs [] rest h = ground (arith)
strip-some [] (p ∷ ps) rest h = absurd (cc)
strip-some (x ∷ xs) (p ∷ ps) rest h = ground (arith, strip-some xs ps rest)

-- The parts make up the text, with the marker between them.
abbrev Splits : List ℕ → List ℕ → Option (List ℕ × List ℕ) → Type 0
Splits text marker none = Unit
Splits text marker (some (front, back)) = text ≡ front ++ (marker ++ back)

here_or-Splits :
    (text marker : List ℕ) (o : Option (List ℕ)) (later : Option (List ℕ × List ℕ))
    → ((rest : List ℕ) → o ≡ some rest → text ≡ marker ++ rest)
    → Splits text marker later
    → Splits text marker (here_or o later)
here_or-Splits text marker none later h k = k
here_or-Splits text marker (some rest) later h k = h rest refl

before-Splits :
    (x : ℕ) (xs marker : List ℕ) (o : Option (List ℕ × List ℕ))
    → Splits xs marker o
    → Splits (x ∷ xs) marker (before x o)
before-Splits x xs marker none h = tt
before-Splits x xs marker (some (front, back)) h = ap (λ l. x ∷ l) h

split_once-Splits : (text marker : List ℕ) → Splits text marker (split_once text marker)
unfolding split_once
split_once-Splits [] marker =
    here_or-Splits [] marker (strip [] marker) none (strip-some [] marker) tt
split_once-Splits (x ∷ xs) marker =
    here_or-Splits (x ∷ xs) marker (strip (x ∷ xs) marker) (before x (split_once xs marker))
      (strip-some (x ∷ xs) marker)
      (before-Splits x xs marker (split_once xs marker) (split_once-Splits xs marker))

hex_not_dot : (bs : List ℕ) → all_hex bs ≡ true → All (λ x. x ≢ b'.') bs
hex_not_dot [] h = tt
hex_not_dot (b ∷ bs) h = (ground arith, hex_not_dot bs (ground (arith, h)))

kind_not_dot : (kind : List ℕ) → is_kind_name kind ≡ true → All (λ x. x ≢ b'.') kind
kind_not_dot kind h = elim (Bool-cases (bytes_eq kind save_kind)) [
  | inl e ↦ subst (All (λ x. x ≢ b'.')) (sym (eq_of_bytes_eq kind save_kind e)) (ground arith)
  | inr e ↦
      subst (All (λ x. x ≢ b'.')) (sym (eq_of_bytes_eq kind clear_kind (rw e at h))) (ground arith)
]

-- A staging name of a save or a clear: its hash and its identifier are 64 lowercase hexadecimal
-- digits.
abbrev pub IsStaging : List ℕ → List ℕ → Type 0
IsStaging name suffix =
    (hash kind identifier : List ℕ) × (is_hex_64 hash ≡ true)
    × (is_kind_name kind ≡ true)
    × (is_hex_64 identifier ≡ true)
    × (name ≡ staging_name hash suffix kind identifier)

owned_rest :
    (rest : List ℕ) (o : Option (List ℕ × List ℕ))
    → Splits rest (b'.' ∷ []) o
    → is_owned_rest o ≡ true
    → (kind identifier : List ℕ) × (is_kind_name kind ≡ true)
      × (is_hex_64 identifier ≡ true)
      × (rest ≡ kind ++ (b'.' ∷ identifier))
owned_rest rest none h k = absurd (cc)
owned_rest rest (some (kind, identifier)) h k =
    let (named, digits) = &&_true (is_kind_name kind) (is_hex_64 identifier) k in
    (kind, identifier, named, digits, h)

owned_split :
    (name suffix : List ℕ) (o : Option (List ℕ × List ℕ))
    → Splits name (suffix ++ tmp_mark) o
    → is_owned_split o ≡ true
    → IsStaging name suffix
owned_split name suffix none h k = absurd (cc)
owned_split name suffix (some (hash, rest)) h k =
    let (digits, k) = &&_true (is_hex_64 hash) _ k in
    let (kind, identifier, named, more, e) =
      owned_rest rest (split_once rest (b'.' ∷ [])) (split_once-Splits rest (b'.' ∷ [])) k in
    (hash, kind, identifier, digits, named, more, rw e at h)

-- `is_owned_temporary_filename` recognises exactly the names that a save or a clear on Windows gives
-- its staging file, for a suffix that begins with a dot as every configured one does: a hash of 64
-- lowercase hexadecimal digits, the suffix, `.tmp-v1.`, `save` or `clear`, a dot, and an identifier
-- of 64 such digits.
pub is_owned_temporary_filename_iff :
    (name suffix : List ℕ)
    → (is_owned_temporary_filename name (b'.' ∷ suffix) ≡ true) ↔ IsStaging name (b'.' ∷ suffix)
unfolding is_owned_temporary_filename
is_owned_temporary_filename_iff name suffix = (
  owned_split name (b'.' ∷ suffix) (split_once name ((b'.' ∷ suffix) ++ tmp_mark))
      (split_once-Splits name ((b'.' ∷ suffix) ++ tmp_mark)),
  λ (hash, kind, identifier, digits, named, more, e).
      let (size, h) = &&_true (length hash == 64) (all_hex hash) digits in
      rw (
        e,
        split_once-append hash b'.' (suffix ++ tmp_mark) (kind ++ (b'.' ∷ identifier))
            (hex_not_dot hash h),
        digits,
        split_once-append kind b'.' [] identifier (kind_not_dot kind named),
        named,
        more,
      ),
)
