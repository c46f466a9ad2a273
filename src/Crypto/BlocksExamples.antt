-- ===== src/Crypto/BlocksExamples.antt =====
-- A run of the theorem on `hash`: a message of 70 bytes, which needs two blocks.
use crypt_bank.Prelude.{◌≡◌, refl, replicate}
use crypt_bank.Crypto.{hash, add_bytes, revert}
use crypt_bank.Crypto.Digest.{padded_digest, hash-padded_digest}

hash-padded_digest_example :
    hash (replicate 64 3) 5 (replicate 70 97)
    ≡ add_bytes 5 (revert (padded_digest (replicate 70 97)))
hash-padded_digest_example = hash-padded_digest (replicate 64 3) 5 (replicate 70 97) refl
