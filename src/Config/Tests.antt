-- ===== src/Config/Tests.antt =====
-- The checks of src/config.rs on one identity.
use atomic_blob_store.Prelude.{ℕ, ◌≡◌, ◌↔◌, List, [], ◌∷◌}
use atomic_blob_store.Errors.{ok}
use atomic_blob_store.Config.{BlobFormatIdentity, new_identity}
use atomic_blob_store.Config.Validation.{IsIdentity, new_identity_iff}

abbrev letters : List ℕ
letters = 65 ∷ 66 ∷ 67 ∷ 68 ∷ 69 ∷ 70 ∷ 71 ∷ 72 ∷ []

abbrev blob_suffix : List ℕ
blob_suffix = b'.' ∷ b'b' ∷ []

abbrev identity : BlobFormatIdentity
identity = record { domain_tag = letters; filename_suffix = blob_suffix; envelope_version = 1 }

new_identity_iff_example :
    (new_identity letters blob_suffix 1 ≡ ok identity)
    ↔ ((identity ≡ identity) × IsIdentity identity)
new_identity_iff_example = new_identity_iff letters blob_suffix 1 identity
