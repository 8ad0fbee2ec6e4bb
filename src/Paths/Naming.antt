-- ===== src/Paths/Naming.antt =====
-- The names of the files of blobs, src/path.rs, against the hashes that the coordinator orders
-- operations by and the names that a cleanup on Windows takes for staging files.
use atomic_blob_store.Prelude.{
  ℕ, ◌≡◌, ◌↔◌, ◌==◌, refl, sym, ap, ◌∙◌, true, false, List, [], ◌∷◌, ◌++◌, length, arith, &&_true,
  Bool-cases, inl, inr, length-append,
}
use atomic_blob_store.Config.{BlobFormatIdentity}
use atomic_blob_store.Config.Validation.{IsSuffix}
use atomic_blob_store.Filesystem.Windows.Staging.{
  is_hex_64, all_hex, tmp_mark, IsStaging, is_owned_temporary_filename,
  is_owned_temporary_filename_iff,
}
use atomic_blob_store.Paths.{Blake3, IsHexadecimal, blob_filename, key_hash}

hex_64-length : (bs : List ℕ) → is_hex_64 bs ≡ true → length bs ≡ 64
hex_64-length bs h =
    let (size, digits) = &&_true (length bs == 64) (all_hex bs) h in ground (arith, size)

append_prefix : (xs ys zs : List ℕ) → length xs ≡ length ys → xs ++ zs ≡ ys ++ zs → xs ≡ ys
append_prefix [] [] zs size h = refl
append_prefix [] (y ∷ ys) zs size h = absurd (omega (arith, size))
append_prefix (x ∷ xs) [] zs size h = absurd (omega (arith, size))
append_prefix (x ∷ xs) (y ∷ ys) zs size h =
    let rest : xs ≡ ys = append_prefix xs ys zs (omega (arith, size)) (cc) in
    let first : x ≡ y = cc in cc

-- Two keys have the same file exactly when they have the same `key_hash`, by which the coordinator
-- lets only one operation run at a time.
pub blob_filename-key_hash :
    (blake3 : Blake3) (format : BlobFormatIdentity) (a b : List ℕ)
    → IsHexadecimal blake3
    → (blob_filename blake3 format a ≡ blob_filename blake3 format b)
      ↔ (key_hash blake3 a ≡ key_hash blake3 b)
unfolding blob_filename key_hash
blob_filename-key_hash blake3 format a b law = (
  λ h. law.distinct a b (
      append_prefix (blake3.to_hex (blake3.hash a)) (blake3.to_hex (blake3.hash b))
        format.filename_suffix
        (hex_64-length (blake3.to_hex (blake3.hash a)) (law.digits a)
          ∙ sym (hex_64-length (blake3.to_hex (blake3.hash b)) (law.digits b)))
        h),
  λ h. ap (λ (n : ℕ). blake3.to_hex n ++ format.filename_suffix) h,
)

longer : (digits suffix : List ℕ) → length digits ≡ 64 → IsStaging (digits ++ suffix) suffix → ⊥
longer digits suffix size (hash, kind, identifier, digits', named, more, e) = omega (
  arith,
  size,
  hex_64-length hash digits',
  ap (λ (l : List ℕ). length l) e,
  length-append digits suffix,
  length-append hash ((suffix ++ tmp_mark) ++ (kind ++ (b'.' ∷ identifier))),
  length-append (suffix ++ tmp_mark) (kind ++ (b'.' ∷ identifier)),
  length-append suffix tmp_mark,
)

-- A cleanup on Windows never takes the file of a blob for a staging file: with any suffix that a
-- format may have, the name of no blob is that of an owned temporary file.
pub blob_filename-not_owned :
    (blake3 : Blake3) (format : BlobFormatIdentity) (key : List ℕ)
    → IsHexadecimal blake3
    → IsSuffix format.filename_suffix
    → is_owned_temporary_filename (blob_filename blake3 format key) format.filename_suffix ≡ false
unfolding blob_filename
blob_filename-not_owned blake3 format key law suffix =
    elim (Bool-cases (
      is_owned_temporary_filename (blake3.to_hex (blake3.hash key) ++ format.filename_suffix)
        format.filename_suffix)) [
          | inr h ↦ h
          | inl h ↦ absurd (
              longer (blake3.to_hex (blake3.hash key)) (b'.' ∷ suffix.rest)
                (hex_64-length (blake3.to_hex (blake3.hash key)) (law.digits key))
                ((is_owned_temporary_filename_iff
                    (blake3.to_hex (blake3.hash key) ++ (b'.' ∷ suffix.rest)) suffix.rest).0
                  (rw suffix.dotted at h)))
        ]
