-- ===== src/Tests/Hashes.antt =====
-- The hash of "abc".
use miinfer.Prelude.{◌≡◌, refl, ◌∷◌, [], some}
use miinfer.Sha256.Compress.{initial_hash}
use miinfer.Sha256.{new_hash, update, finish_state, sha256_bytes, Input, full, at_end, sha256_file}
use miinfer.Sha256.Standard.{standard}
use miinfer.Sha256.Agrees.{sha256_bytes-standard}
use miinfer.Sha256.Digest.{contents, hash_of, sha256_file-contents}

abc_hashed :
    finish_state (update new_hash (97 ∷ 98 ∷ 99 ∷ []))
    ≡ 3128432319 ∷ 2399260650 ∷ 1094795486 ∷ 1571693091 ∷ 2953011619 ∷ 2518121116 ∷ 3021012833
      ∷ 4060091821 ∷ []
unfolding finish_state update new_hash initial_hash
abc_hashed = refl

sha256_bytes-standard_example : sha256_bytes (97 ∷ 98 ∷ 99 ∷ []) ≡ standard (97 ∷ 98 ∷ 99 ∷ [])
sha256_bytes-standard_example = sha256_bytes-standard (97 ∷ 98 ∷ 99 ∷ [])

-- A file of three bytes, of which the first read gives two.
abbrev split_file : Input
split_file = full (97 ∷ 98 ∷ []) (at_end (99 ∷ []))

sha256_file-contents_example : sha256_file (some split_file) ≡ hash_of (contents split_file)
sha256_file-contents_example = sha256_file-contents split_file
