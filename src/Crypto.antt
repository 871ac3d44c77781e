-- ===== src/Crypto.antt =====
-- kernel/eth_crypto.c: hashing and signing, over what OpenSSL and libsecp256k1 return.
pub mod Wallet
use evmxt.Prelude.{ℕ, List, Option, none, some, ltb, ◌==◌, if◌then◌else◌, length, take, drop}
use evmxt.Memory.{◌>>=◌}

-- The libraries: `EVP_Q_digest` of "KECCAK-256" (none: it fails), and
-- `secp256k1_ecdsa_sign_recoverable` of a hash by a key, with the serialized signature and its
-- recovery id (none: it fails).
pub record Libraries : Type 0 where
  pub keccak_digest : List ℕ → Option (List ℕ)
  pub sign_recoverable : List ℕ → List ℕ → Option (List ℕ × ℕ)

-- The hash, if the function returns nonzero.
unfoldable pub eth_keccak256 : Libraries → List ℕ → Option (List ℕ)
eth_keccak256 libs data_bytes =
    libs.keccak_digest data_bytes >>= λ out. if length out == 32 then some out else none

pub record Signature : Type 0 where
  pub r : List ℕ
  pub s : List ℕ
  pub v : ℕ

-- The signature, if the function returns 0.
unfoldable pub sign_hash : Libraries → List ℕ → List ℕ → Option Signature
sign_hash libs private_key hash = libs.sign_recoverable hash private_key >>= λ (sig_out, recid).
    if ltb 1 recid
    then none
    else some (record { r = take 32 sig_out; s = take 32 (drop 32 sig_out); v = recid })
