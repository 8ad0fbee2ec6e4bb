-- ===== src/Format/Crc.antt =====
-- The `crc32c` crate: the checksum of some bytes, and the checksum of bytes appended to those of a
-- known checksum.
use atomic_blob_store.Prelude.{ℕ, ◌^◌, ◌<◌, ◌≡◌, List, ◌++◌}

pub record Crc32c : Type 0 where
  pub crc32c : List ℕ → ℕ
  pub crc32c_append : ℕ → List ℕ → ℕ
  pub append_lem : (xs ys : List ℕ) → crc32c_append (crc32c xs) ys ≡ crc32c (xs ++ ys)
  pub fits : (xs : List ℕ) → crc32c xs < 2 ^ 32
