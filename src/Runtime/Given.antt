-- ===== src/Runtime/Given.antt =====
-- kernel/operations.c: what holds of the values that a handler is given, before it stores them.
use evmxt.Prelude.{
  codes, subst, ℕ, ◌≤◌, ◌≡◌, ◌≢◌, sym, ap, ◌∙◌, inl, inr, not, ◌&&◌, ◌||◌, List, [], ◌∷◌, some,
  arith, length, length-take, length-drop, drop, Bool-cases, ltb, ltb→ge, ==_iff, ◌==◌, All, IsByte,
}
use evmxt.Memory.Laws.{>>=-eq-some}
use evmxt.Crypto.{Libraries, eth_keccak256}
use evmxt.Crypto.Wallet.{KeyLibrary, derive_address, key_bytes, address_of}
use evmxt.Lua.{
  LuaValue, nil, boolean, integer, float, string, table, other, lua_max_integer, is_negative,
  raw_get_text,
}
use evmxt.LuaAbi.{integer_field}
use evmxt.LuaAbi.Scalars.{no_nul}
use evmxt.Operations.{
  World, gives, require, decode_exactly, decode_positive, expect, bytes_to_uint64,
}
use evmxt.Operations.Laws.{
  gives-injective, >>?-eq-gives, require-eq-gives, expect-eq-gives, decode_exactly-Reads,
}
use evmxt.Operations.Queries.{
  lua_number, chain_id_of, is_quantity, as_text, nonce_of, read_key, check_gas, read_gas, Gas,
}

eth_keccak256-length :
    (libs : Libraries) (bs : List ℕ) {hash : List ℕ}
    → eth_keccak256 libs bs ≡ some hash
    → length hash ≡ 32
unfolding eth_keccak256
eth_keccak256-length libs bs {hash} h =
    let (out, hashed, checked) = >>=-eq-some (libs.keccak_digest bs) _ h in
    elim (Bool-cases (length out == 32)) [
      | inl size ↦
          let same : some out ≡ some hash = rw size at checked in
          let equal : out ≡ hash = cc same in
          omega (arith, (==_iff (length out) 32).0 size, ap length equal)
      | inr bad ↦ let no = rw bad at checked in cc
    ]

pub derive_address-length :
    (libs : Libraries) (keys : KeyLibrary) (key : List ℕ) {address : List ℕ}
    → derive_address libs keys key ≡ some address
    → length address ≡ 20
unfolding derive_address
derive_address-length libs keys key {address} h =
    let (serialized, public, rest) = >>=-eq-some (keys.public_key key) _ h in
    let (hash, hashed, last) = >>=-eq-some (eth_keccak256 libs (key_bytes serialized)) _ rest in
    let size = eth_keccak256-length libs (key_bytes serialized) hashed in
    let equal : address_of hash ≡ address = cc last in
    omega (
      arith,
      ap length (sym equal),
      length-take 20 (drop 12 hash) (omega (arith, length-drop 12 hash)),
    )

lua_number-bounded : (bytes : List ℕ) {n : ℕ} → lua_number bytes ≡ gives n → n ≤ lua_max_integer
unfolding lua_number
lua_number-bounded bytes {n} h = elim (Bool-cases (ltb lua_max_integer (bytes_to_uint64 bytes))) [
  | inl large ↦ let no = rw large at h in cc
  | inr fits ↦
      let same : gives (bytes_to_uint64 bytes) ≡ gives n = rw fits at h in
      let equal : bytes_to_uint64 bytes ≡ n = cc same in
      omega (arith, equal, ltb→ge lua_max_integer (bytes_to_uint64 bytes) fits)
]

pub chain_id_of-bounded :
    (response : List ℕ) {n : ℕ} → chain_id_of response ≡ gives n → n ≤ lua_max_integer
unfolding chain_id_of
chain_id_of-bounded [] h = cc
chain_id_of-bounded (c ∷ response) h =
    let (bytes, got, last) = >>?-eq-gives (decode_positive 8 (c ∷ response)) lua_number h in
    lua_number-bounded bytes last

pub nonce_of-bounded :
    (response : List ℕ) {n : ℕ} → nonce_of response ≡ gives n → n ≤ lua_max_integer
unfolding nonce_of
nonce_of-bounded response h =
    let (u, quantity, rest) = >>?-eq-gives (require (is_quantity 18 response)) _ h in
    let (bytes, got, last) = >>?-eq-gives (decode_positive 8 response) lua_number rest in
    lua_number-bounded bytes last

-- The strings of Lua consist of bytes.
abbrev pub TextIsBytes : LuaValue → Type 0
TextIsBytes (string text) = All IsByte text
TextIsBytes _ = Unit

abbrev pub GasIsValid : Gas → Type 0
GasIsValid gas =
    (gas.gas_limit ≤ lua_max_integer)
    × (length gas.max_priority_fee_per_gas ≡ 32)
    × (length gas.max_fee_per_gas ≡ 32)

check_gas-GasIsValid :
    (limit : ℕ) (priority maximum : List ℕ) {gas : Gas}
    → check_gas limit priority maximum ≡ gives gas
    → GasIsValid gas
unfolding check_gas
check_gas-GasIsValid limit priority maximum {gas} h =
    let test = is_negative limit || (not (length priority == 32) || not (length maximum == 32)) in
    elim (Bool-cases test) [
      | inl bad ↦ let no = rw bad at h in cc
      | inr good ↦ subst GasIsValid (gives-injective _ gas (rw good at h)) (ground (arith, good))
    ]

pub read_gas-GasIsValid :
    (w : World) (value : LuaValue) {gas : Gas} → read_gas w value ≡ gives gas → GasIsValid gas
unfolding read_gas
read_gas-GasIsValid w (table t) h =
    let (u, room, rest) = >>?-eq-gives (require w.grow_stack) _ h in
    let (limit, has_limit, rest₁) =
      >>?-eq-gives (expect (integer_field w.lua.heap t (codes "gas_limit"))) _ rest in
    let (priority, has_priority, rest₂) =
      >>?-eq-gives (expect (as_text (raw_get_text w.lua.heap t (codes "max_priority_fee_per_gas"))))
        _ rest₁ in
    let (maximum, has_maximum, last) =
      >>?-eq-gives (expect (as_text (raw_get_text w.lua.heap t (codes "max_fee_per_gas")))) _
        rest₂ in
    check_gas-GasIsValid limit priority maximum last
read_gas-GasIsValid w nil h = cc
read_gas-GasIsValid w (boolean b) h = cc
read_gas-GasIsValid w (integer n) h = cc
read_gas-GasIsValid w (float text) h = cc
read_gas-GasIsValid w (string text) h = cc
read_gas-GasIsValid w other h = cc

nonempty : (text : List ℕ) → 2 ≤ length text → text ≢ []
nonempty text h e = omega (arith, ap length e)

pub read_key-derives :
    (w : World) (value : LuaValue) {key address : List ℕ}
    → TextIsBytes value
    → read_key w value ≡ gives (key, address)
    → (length key ≡ 32) × (derive_address w.libraries w.keys key ≡ some address)
unfolding read_key
read_key-derives w (string text) {key} {address} hs h =
    let (u, long, rest) = >>?-eq-gives (require (not (ltb (length text) 2) && no_nul text)) _ h in
    let size : 2 ≤ length text =
      ground (arith, require-eq-gives (not (ltb (length text) 2) && no_nul text) long) in
    let (found, decoded, rest₁) = >>?-eq-gives (decode_exactly 32 text) _ rest in
    let (derived, got, last) =
      >>?-eq-gives (expect (derive_address w.libraries w.keys found)) _ rest₁ in
    let right = decode_exactly-Reads 32 text (nonempty text size) hs (omega arith) decoded in
    let address_found = expect-eq-gives (derive_address w.libraries w.keys found) got in
    let same = gives-injective (found, derived) (key, address) last in
    let same_key = ap (λ p. p.0) same in
    let same_address = ap (λ p. p.1) same in
    (
      omega (arith, right.1, ap length same_key),
      subst (λ k. derive_address w.libraries w.keys k ≡ some address) same_key
          (address_found ∙ ap some same_address),
    )
read_key-derives w nil hs h = cc
read_key-derives w (boolean b) hs h = cc
read_key-derives w (integer n) hs h = cc
read_key-derives w (float text) hs h = cc
read_key-derives w (table t) hs h = cc
read_key-derives w other hs h = cc
