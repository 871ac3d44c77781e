-- ===== src/Crypto/Wallet.antt =====
-- kernel/eth_crypto.c: `derive_address` and `generate_eth_wallet`.
use evmxt.Prelude.{ℕ, Bool, List, [], ◌∷◌, Option, none, some, if◌then◌else◌, take, drop}
use evmxt.Memory.{◌>>=◌}
use evmxt.Crypto.{Libraries, eth_keccak256}

-- libsecp256k1: the uncompressed serialization of the public key (none: there is none), and
-- `secp256k1_ec_seckey_verify`.
pub record KeyLibrary : Type 0 where
  pub public_key : List ℕ → Option (List ℕ)
  pub verify : List ℕ → Bool

-- Without the leading 0x04.
abbrev pub key_bytes : List ℕ → List ℕ
key_bytes serialized = take 64 (drop 1 serialized)

abbrev pub address_of : List ℕ → List ℕ
address_of hash = take 20 (drop 12 hash)

unfoldable pub derive_address : Libraries → KeyLibrary → List ℕ → Option (List ℕ)
derive_address libs keys private_key = keys.public_key private_key >>= λ serialized.
    eth_keccak256 libs (key_bytes serialized) >>= λ hash. some (address_of hash)

-- What the loop over `RAND_priv_bytes` ends with; each draw is its bytes, or none where it fails.
pub data Drawn : Type 0 where
  found : List ℕ → Drawn
  no_entropy : Drawn
  still_drawing : Drawn

unfoldable pub draw_key : (List ℕ → Bool) → List (Option (List ℕ)) → Drawn
draw_key verify [] = still_drawing
draw_key verify (none ∷ draws) = no_entropy
draw_key verify (some key ∷ draws) = if verify key then found key else draw_key verify draws

pub record Wallet : Type 0 where
  pub private_key : List ℕ
  pub public_key : List ℕ
  pub address : List ℕ

abbrev pub wallet_of : Libraries → KeyLibrary → List ℕ → Option Wallet
wallet_of libs keys private_key = keys.public_key private_key >>= λ serialized.
    eth_keccak256 libs (key_bytes serialized) >>= λ hash. some (record {
      private_key = private_key;
      public_key = key_bytes serialized;
      address = address_of hash;
    })

abbrev pub drawn_wallet : Libraries → KeyLibrary → Drawn → Option (Option Wallet)
drawn_wallet libs keys (found private_key) = some (wallet_of libs keys private_key)
drawn_wallet libs keys no_entropy = some none
drawn_wallet libs keys still_drawing = none

-- For outputs that are not NULL: the wallet, if the function returns 0; `none` as long as it draws.
-- Whether the context can be created is the argument `memory`.
unfoldable pub generate_eth_wallet :
    Libraries → KeyLibrary → Bool → List (Option (List ℕ)) → Option (Option Wallet)
unfolding draw_key
generate_eth_wallet libs keys memory draws =
    if memory then drawn_wallet libs keys (draw_key keys.verify draws) else some none
