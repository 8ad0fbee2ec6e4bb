-- ===== src/Filesystem/Windows/Wide.antt =====
-- `wide_path` of src/filesystem/mod.rs, from the 16-bit units of a path.
use atomic_blob_store.Prelude.{
  ℕ, ◌==◌, ◌≡◌, ◌≢◌, Bool, true, false, ◌&&◌, ◌||◌, if◌then◌else◌, List, [], ◌∷◌, ◌++◌, drop,
}

abbrev separator : ℕ
separator = 92

abbrev alternate_separator : ℕ
alternate_separator = b'/'

abbrev pub verbatim_prefix : List ℕ
verbatim_prefix = separator ∷ separator ∷ b'?' ∷ separator ∷ []

abbrev pub device_prefix : List ℕ
device_prefix = separator ∷ separator ∷ b'.' ∷ separator ∷ []

abbrev unc_prefix : List ℕ
unc_prefix = separator ∷ separator ∷ b'?' ∷ separator ∷ b'U' ∷ b'N' ∷ b'C' ∷ separator ∷ []

abbrev pub starts_with : List ℕ → List ℕ → Bool
starts_with path [] = true
starts_with [] (p ∷ ps) = false
starts_with (x ∷ xs) (p ∷ ps) = x == p && starts_with xs ps

-- The prefix that is put before what remains of a path.
abbrev pub split_prefix : List ℕ → List ℕ × List ℕ
split_prefix path =
    if starts_with path verbatim_prefix || starts_with path device_prefix
    then ([], path)
    else if starts_with path (separator ∷ separator ∷ [])
    then (unc_prefix, drop 2 path)
    else (verbatim_prefix, path)

abbrev pub to_separator : ℕ → ℕ
to_separator unit = if unit == alternate_separator then separator else unit

abbrev pub to_separators : List ℕ → List ℕ
to_separators [] = []
to_separators (unit ∷ units) = to_separator unit ∷ to_separators units

abbrev extended : List ℕ × List ℕ → List ℕ
extended (prefix, remainder) = prefix ++ (to_separators remainder ++ (0 ∷ []))

unfoldable pub wide_path : List ℕ → List ℕ
wide_path path = extended (split_prefix path)

-- Windows reads the path as it is written: it is verbatim or names a device.
abbrev pub IsExtended : List ℕ → Type 0
IsExtended path = (starts_with path verbatim_prefix || starts_with path device_prefix) ≡ true

abbrev pub IsPlain : ℕ → Type 0
IsPlain unit = unit ≢ b'/'

-- What Windows reads in a path: behind the prefix of a verbatim path the path as it is, and behind
-- that of a verbatim share its name with the two separators that a share begins with.
abbrev pub meaning : List ℕ → List ℕ
meaning path =
    if starts_with path unc_prefix
    then separator ∷ separator ∷ drop 8 path
    else if starts_with path verbatim_prefix
    then drop 4 path
    else path

abbrev pub unc_name : List ℕ
unc_name = b'U' ∷ b'N' ∷ b'C' ∷ []

-- A path that is extended already is only given backslashes for its slashes and the closing zero;
-- any other still means what it says, with backslashes and the zero.
abbrev pub Keeps : Bool → List ℕ → List ℕ → Type 0
Keeps true path w = w ≡ to_separators path ++ (0 ∷ [])
Keeps false path w = meaning w ≡ to_separators path ++ (0 ∷ [])
