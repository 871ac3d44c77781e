-- ===== src/Operations.antt =====
-- kernel/operations.c and kernel/runtime.h: the runtime's context, and what the handlers share.
pub mod Queries
pub mod Calls
pub mod Laws
pub mod SignedBytes
pub mod Sends
pub mod Sending
pub mod Wallets
pub mod Quantities
use evmxt.Prelude.{
  codes, ℕ, ◌+◌, ◌*◌, ◌%◌, ◌^◌, Bool, true, false, ◌&&◌, ◌||◌, not, List, [], ◌∷◌, ◌++◌, Option,
  none, some, ltb, ◌==◌, if◌then◌else◌, length, take, replicate,
}
use evmxt.Memory.{◌>>=◌}
use evmxt.Hex.{hex_decode, hex_encode}
use evmxt.Hex
use evmxt.Crypto.{Libraries}
use evmxt.Crypto.Wallet.{KeyLibrary}
use evmxt.Eip1559.Envelope.{System}
use evmxt.Rpc.{Network, rpc_call, c_string}
use evmxt.Lua.{LuaValue, string}
use evmxt.LuaAbi.{LuaState}
use evmxt.LuaAbi.Encode.{Memory}

-- `lua_runtime_ctx`; the URL is NULL or a string.
pub record Context : Type 0 where
  pub chain_id : ℕ
  pub nonce : ℕ
  pub gas_limit : ℕ
  pub max_priority_fee_per_gas : List ℕ
  pub max_fee_per_gas : List ℕ
  pub private_key : List ℕ
  pub address : List ℕ
  pub wallet_set : Bool
  pub chain_id_set : Bool
  pub nonce_set : Bool
  pub gas_set : Bool
  pub rpc_url : Option (List ℕ)

-- What `eip_1559_tx_encode` can allocate.
pub record Allocation : Type 0 where
  pub list_memory : Bool
  pub malloc : ℕ → Option (List ℕ)

-- What a handler finds: the libraries, the network, the Lua state, and which allocations succeed.
pub record World : Type 0 where
  pub libraries : Libraries
  pub keys : KeyLibrary
  pub key_memory : Bool
  pub draws : List (Option (List ℕ))
  pub network : Network
  pub realloc : ℕ → Bool
  pub lua : LuaState
  pub grow_stack : Bool
  pub abi_memory : Memory
  pub sizing : Allocation
  pub signing : Allocation
  pub raw_memory : Bool
  pub hex_memory : Bool
  pub params_memory : Bool

abbrev pub system : World → Allocation → System
system w a = record { libraries = w.libraries; list_memory = a.list_memory; malloc = a.malloc }

-- What code gives, unless it reports an error; it is stuck when it touches memory out of bounds or
-- does not return.
pub data Attempt {ℓ} (A : Type ℓ) : Type ℓ where
  gives : A → Attempt A
  refused : Attempt A
  stuck : Attempt A

infixl 5 ◌>>?◌
abbrev pub ◌>>?◌ {ℓ κ} : {A : Type ℓ} {B : Type κ} → Attempt A → (A → Attempt B) → Attempt B
gives a >>? f = f a
refused >>? f = refused
stuck >>? f = stuck

-- An allocation or a library's answer, which may fail; a memory access, which may be out of bounds.
abbrev pub expect {ℓ} : {A : Type ℓ} → Option A → Attempt A
expect none = refused
expect (some a) = gives a

abbrev pub access {ℓ} : {A : Type ℓ} → Option A → Attempt A
access none = stuck
access (some a) = gives a

abbrev pub require : Bool → Attempt {0} Unit
require b = if b then gives tt else refused

-- What a handler pushes: a value, or the table of a new wallet.
pub data Response : Type 0 where
  pushed : LuaValue → Response
  wallet_table : List ℕ → List ℕ → List ℕ → Response

-- The context that a handler leaves, and its answer; it returns 0 when it is `refused`.
pub record Outcome : Type 0 where
  pub context : Context
  pub answer : Attempt Response

abbrev pub answered : Context → Response → Outcome
answered ctx response = record { context = ctx; answer = gives response }

-- What comes before a handler's first change of the context, and the rest.
abbrev pub conclude {ℓ} : {A : Type ℓ} → Context → Attempt A → (A → Outcome) → Outcome
conclude ctx (gives a) f = f a
conclude ctx refused f = record { context = ctx; answer = refused }
conclude ctx stuck f = record { context = ctx; answer = stuck }

-- The value at the top; there is none on an empty stack.
abbrev pub top_value : List LuaValue → LuaValue
top_value [] = LuaValue.other
top_value (value ∷ stack) = value

abbrev pub is_nil : LuaValue → Bool
is_nil LuaValue.nil = true
is_nil _ = false

-- A URL that is neither NULL nor empty.
abbrev pub usable_url : Option (List ℕ) → Attempt (List ℕ)
usable_url none = refused
usable_url (some []) = refused
usable_url (some (c ∷ url)) = gives (c ∷ url)

unfoldable pub bytes_loop : List ℕ → ℕ → ℕ
bytes_loop [] value = value
bytes_loop (b ∷ bytes) value = bytes_loop bytes (value * 256 % 2 ^ 64 + b)

-- `<< 8` leaves the low byte zero, and `|` puts the next byte there.
unfoldable pub bytes_to_uint64 : List ℕ → ℕ
unfolding bytes_loop
bytes_to_uint64 bytes = bytes_loop bytes 0

-- An array of `n` bytes that is written before it is read.
abbrev pub fresh : ℕ → List ℕ
fresh n = replicate n 0

-- `hex_decode` into such an array: the bytes, if the count is positive, or exactly what is expected.
abbrev pub positive : ℕ × List ℕ → Attempt (List ℕ)
positive (count, bytes) =
    if Hex.is_negative count || count == 0 then refused else gives (take count bytes)

abbrev pub exactly : ℕ → ℕ × List ℕ → Attempt (List ℕ)
exactly n (count, bytes) = if count == n then gives bytes else refused

unfoldable pub decode_positive : ℕ → List ℕ → Attempt (List ℕ)
decode_positive capacity text = access (hex_decode text (fresh capacity) capacity) >>? positive

unfoldable pub decode_exactly : ℕ → List ℕ → Attempt (List ℕ)
decode_exactly n text = access (hex_decode text (fresh n) n) >>? exactly n

-- The string that `hex_encode` leaves in an array that is as long as it has to be.
unfoldable pub hex_string : List ℕ → Attempt (List ℕ)
hex_string bytes =
    access (hex_encode bytes (fresh (length bytes * 2 + 3))) >>? λ text. gives (c_string text)

unfoldable pub call_rpc : World → List ℕ → List ℕ → List ℕ → Attempt (List ℕ)
call_rpc w url method params = expect (rpc_call w.network w.realloc url method params)

-- "0x"
unfoldable pub is_prefixed : List ℕ → Bool
is_prefixed (c₀ ∷ c₁ ∷ text) = c₀ == b'0' && c₁ == b'x'
is_prefixed _ = false
