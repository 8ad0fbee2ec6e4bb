-- ===== src/Paths/Tests.antt =====
-- Names of blobs under a stand-in for BLAKE3 that hashes a key to its length in one byte.
use atomic_blob_store.Prelude.{
  ℕ, ◌%◌, ◌≡◌, ◌↔◌, refl, ap, ◌∙◌, sym, false, List, [], ◌∷◌, length, All, arith,
}
use atomic_blob_store.Prelude.Bytes.{IsByte}
use atomic_blob_store.Errors.{err, configuration, invalid_namespace}
use atomic_blob_store.Config.{BlobFormatIdentity}
use atomic_blob_store.Config.Validation.{IsSuffix}
use atomic_blob_store.Filesystem.Identifier.{hex}
use atomic_blob_store.Filesystem.Identifier.Digits.{unhex, unhex-hex, all_hex-hex, length-hex}
use atomic_blob_store.Filesystem.Windows.Staging.{is_owned_temporary_filename}
use atomic_blob_store.Paths.{
  Blake3, IsHexadecimal, blob_filename, key_hash, normal, parent_dir, validate_namespace,
}
use atomic_blob_store.Paths.Naming.{blob_filename-key_hash, blob_filename-not_owned}

abbrev zeros : ℕ → List ℕ
zeros n =
    n ∷ 0 ∷ 0 ∷ 0 ∷ 0 ∷ 0 ∷ 0 ∷ 0 ∷ 0 ∷ 0 ∷ 0 ∷ 0 ∷ 0 ∷ 0 ∷ 0 ∷ 0 ∷ 0 ∷ 0 ∷ 0 ∷ 0 ∷ 0 ∷ 0 ∷ 0 ∷ 0
    ∷ 0 ∷ 0 ∷ 0 ∷ 0 ∷ 0 ∷ 0 ∷ 0 ∷ 0 ∷ []

abbrev by_length : Blake3
by_length = record { hash = λ key. length key % 256; to_hex = λ n. hex (zeros n) }

zeros-IsByte : (key : List ℕ) → All IsByte (zeros (length key % 256))
zeros-IsByte key = (omega arith, ground arith)

first_or_zero : List ℕ → ℕ
first_or_zero [] = 0
first_or_zero (b ∷ bs) = b

by_length-IsHexadecimal : IsHexadecimal by_length
by_length-IsHexadecimal = record {
  digits = λ key.
      let long : length (hex (zeros (length key % 256))) ≡ 64 =
        omega (arith, length-hex (zeros (length key % 256))) in
      rw (long, all_hex-hex (zeros (length key % 256)) (zeros-IsByte key));
  distinct = λ a b h.
      let same : zeros (length a % 256) ≡ zeros (length b % 256) =
        sym (unhex-hex (zeros (length a % 256)) (zeros-IsByte a))
        ∙ ap unhex h
        ∙ unhex-hex (zeros (length b % 256)) (zeros-IsByte b) in
      cc;
}

abbrev blob_format : BlobFormatIdentity
blob_format = record {
  domain_tag = 0 ∷ 0 ∷ 0 ∷ 0 ∷ 0 ∷ 0 ∷ 0 ∷ 0 ∷ [];
  filename_suffix = b'.' ∷ b'b' ∷ [];
  envelope_version = 1;
}

blob_suffix-IsSuffix : IsSuffix (b'.' ∷ b'b' ∷ [])
blob_suffix-IsSuffix = record {
  rest = b'b' ∷ [];
  dotted = refl;
  bytes = (ground arith, tt);
  long = ground arith;
  short = ground arith;
}

blob_filename-key_hash_example :
    (blob_filename by_length blob_format (1 ∷ 2 ∷ [])
      ≡ blob_filename by_length blob_format (3 ∷ 4 ∷ []))
    ↔ (key_hash by_length (1 ∷ 2 ∷ []) ≡ key_hash by_length (3 ∷ 4 ∷ []))
blob_filename-key_hash_example =
    blob_filename-key_hash by_length blob_format (1 ∷ 2 ∷ []) (3 ∷ 4 ∷ []) by_length-IsHexadecimal

blob_filename-not_owned_example :
    is_owned_temporary_filename
      (blob_filename by_length blob_format (1 ∷ 2 ∷ []))
      (b'.' ∷ b'b' ∷ [])
    ≡ false
blob_filename-not_owned_example =
    blob_filename-not_owned by_length blob_format (1 ∷ 2 ∷ []) by_length-IsHexadecimal
      blob_suffix-IsSuffix

-- A namespace of two components is refused.
nested_refused :
    validate_namespace (λ text. parent_dir ∷ normal text ∷ []) (b'n' ∷ [])
    ≡ err (configuration invalid_namespace)
unfolding validate_namespace
nested_refused = refl
