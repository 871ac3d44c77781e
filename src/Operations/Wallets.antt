-- ===== src/Operations/Wallets.antt =====
-- kernel/operations.c and kernel/eth_crypto.c: a created wallet can be set again.
use evmxt.Prelude.{
  ℕ, ◌≡◌, refl, subst, inl, inr, Bool, true, false, List, [], ◌∷◌, Option, none, some, length, All,
  IsByte, Bool-cases,
}
use mathlib.Core.Option.{some-injective}
use evmxt.Memory.Laws.{>>=-eq-some}
use evmxt.Crypto.{Libraries, eth_keccak256}
use evmxt.Crypto.Wallet.{
  KeyLibrary, key_bytes, address_of, derive_address, Drawn, found, no_entropy, still_drawing,
  draw_key, drawn_wallet, Wallet, wallet_of, generate_eth_wallet,
}

-- Draws of 32 bytes.
abbrev pub Draws : List (Option (List ℕ)) → Type 0
Draws [] = Unit
Draws (none ∷ draws) = Draws draws
Draws (some key ∷ draws) = (length key ≡ 32) × All IsByte key × Draws draws

draw_key-found :
    (verify : List ℕ → Bool) (draws : List (Option (List ℕ))) {key : List ℕ}
    → Draws draws
    → draw_key verify draws ≡ found key
    → (length key ≡ 32) × All IsByte key × (verify key ≡ true)
unfolding draw_key
draw_key-found verify [] drawn h = cc
draw_key-found verify (none ∷ draws) drawn h = cc
draw_key-found verify (some first ∷ draws) {key} (size, hs, drawn) h =
    elim (Bool-cases (verify first)) [
      | inl good ↦
          let same : found first ≡ found key = rw good at h in
          let equal : first ≡ key = cc same in
          subst (λ k. (length k ≡ 32) × All IsByte k × (verify k ≡ true)) equal (size, hs, good)
      | inr bad ↦ draw_key-found verify draws drawn (rw bad at h)
    ]

-- The wallet's key is valid, and the public key and the address are the key's.
abbrev pub IsWallet : Libraries → KeyLibrary → Wallet → Type 0
IsWallet libs keys wallet =
    (length wallet.private_key ≡ 32)
    × All IsByte wallet.private_key
    × (keys.verify wallet.private_key ≡ true)
    × (derive_address libs keys wallet.private_key ≡ some wallet.address)

wallet_of-IsWallet :
    (libs : Libraries) (keys : KeyLibrary) (key : List ℕ) {wallet : Wallet}
    → length key ≡ 32
    → All IsByte key
    → keys.verify key ≡ true
    → wallet_of libs keys key ≡ some wallet
    → IsWallet libs keys wallet
wallet_of-IsWallet libs keys key {wallet} size hs good h =
    let (serialized, public, rest) = >>=-eq-some (keys.public_key key) _ h in
    let (hash, hashed, last) = >>=-eq-some (eth_keccak256 libs (key_bytes serialized)) _ rest in
    let same = some-injective _ _ last in
    let derived : derive_address libs keys key ≡ some (address_of hash) =
      unfold derive_address in rw (public, hashed) refl in
    subst (IsWallet libs keys) same (size, hs, good, derived)

pub generate_eth_wallet-IsWallet :
    (libs : Libraries) (keys : KeyLibrary) (memory : Bool) (draws : List (Option (List ℕ)))
    {wallet : Wallet}
    → Draws draws
    → generate_eth_wallet libs keys memory draws ≡ some (some wallet)
    → IsWallet libs keys wallet
unfolding generate_eth_wallet
generate_eth_wallet-IsWallet libs keys false draws drawn h = cc
generate_eth_wallet-IsWallet libs keys true draws {wallet} drawn h =
    helper (draw_key keys.verify draws) refl h
  where
    helper :
        (d : Drawn)
        → draw_key keys.verify draws ≡ d
        → drawn_wallet libs keys d ≡ some (some wallet)
        → IsWallet libs keys wallet
    helper (found key) is_found made =
        let (size, hs, good) = draw_key-found keys.verify draws drawn is_found in
        wallet_of-IsWallet libs keys key size hs good (some-injective _ _ made)
    helper no_entropy is_found made = cc
    helper still_drawing is_found made = cc
