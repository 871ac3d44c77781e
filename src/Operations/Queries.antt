-- ===== src/Operations/Queries.antt =====
-- kernel/operations.c: the handlers but the two that call a contract.
use evmxt.Prelude.{
  codes, ℕ, Bool, true, ◌&&◌, ◌||◌, not, List, [], ◌∷◌, ◌++◌, Option, none, some, ltb, ◌==◌,
  if◌then◌else◌, length,
}
use evmxt.Crypto.Wallet.{derive_address, Wallet, generate_eth_wallet}
use evmxt.Lua.{
  LuaValue, boolean, integer, string, table, lua_max_integer, is_negative, raw_get_text,
}
use evmxt.LuaAbi.{integer_field}
use evmxt.LuaAbi.Scalars.{no_nul}
use evmxt.Operations.{
  Context, World, Attempt, gives, refused, ◌>>?◌, expect, access, require, Response, pushed,
  wallet_table, Outcome, answered, conclude, top_value, is_nil, usable_url, bytes_to_uint64,
  decode_positive, decode_exactly, hex_string, call_rpc, is_prefixed,
}

abbrev pub wallet_text : Wallet → Attempt Response
wallet_text wallet = hex_string wallet.private_key >>? λ private_key.
    hex_string wallet.public_key >>? λ public_key.
    hex_string wallet.address >>? λ address. gives (wallet_table private_key public_key address)

-- It is stuck as long as the random draws do not end the loop.
unfoldable pub new_wallet : World → List LuaValue → Attempt Response
new_wallet w stack = require (is_nil (top_value stack)) >>? λ _.
    access (generate_eth_wallet w.libraries w.keys w.key_memory w.draws) >>? λ made.
    expect made >>? wallet_text

unfoldable pub operation_create_wallet : World → List LuaValue → Context → Outcome
unfolding new_wallet
operation_create_wallet w stack ctx = conclude ctx (new_wallet w stack) (answered ctx)

-- A number that fits a Lua integer.
unfoldable pub lua_number : List ℕ → Attempt ℕ
lua_number bytes =
    if ltb lua_max_integer (bytes_to_uint64 bytes) then refused else gives (bytes_to_uint64 bytes)

unfoldable pub chain_id_of : List ℕ → Attempt ℕ
unfolding lua_number
chain_id_of [] = refused
chain_id_of (c ∷ response) = decode_positive 8 (c ∷ response) >>? lua_number

abbrev pub with_chain_id : Context → ℕ → Outcome
with_chain_id ctx chain_id =
    answered (record ctx { chain_id = chain_id; chain_id_set = true }) (pushed (integer chain_id))

unfoldable pub operation_get_chain_id : World → List LuaValue → Context → Outcome
unfolding chain_id_of
operation_get_chain_id w stack ctx =
    conclude ctx
      (require (is_nil (top_value stack)) >>? λ _. usable_url ctx.rpc_url >>? λ url.
        call_rpc w url (codes "eth_chainId") (codes "[]") >>? chain_id_of)
      (with_chain_id ctx)

-- The key and its address.
unfoldable pub read_key : World → LuaValue → Attempt (List ℕ × List ℕ)
read_key w (string key) = require (not (ltb (length key) 2) && no_nul key) >>? λ _.
    decode_exactly 32 key >>? λ private_key.
    expect (derive_address w.libraries w.keys private_key) >>? λ address.
    gives (private_key, address)
read_key w _ = refused

abbrev pub with_wallet : Context → List ℕ × List ℕ → Outcome
with_wallet ctx (private_key, address) =
    answered (record ctx { private_key = private_key; address = address; wallet_set = true })
      (pushed (boolean true))

unfoldable pub operation_set_wallet : World → List LuaValue → Context → Outcome
unfolding read_key
operation_set_wallet w stack ctx = conclude ctx (read_key w (top_value stack)) (with_wallet ctx)

-- `["<address>","<block>"]`
abbrev pub account_params : List ℕ → List ℕ → List ℕ
account_params address block = codes "[\"" ++ (address ++ (codes "\",\"" ++ (block ++ codes "\"]")))

unfoldable pub query_account : World → Context → List ℕ → List ℕ → Attempt (List ℕ)
query_account w ctx method block = usable_url ctx.rpc_url >>? λ url.
    hex_string ctx.address >>? λ address. call_rpc w url method (account_params address block)

-- `response[2] != '0'`, unless it is the only digit.
unfoldable pub no_leading_zero : List ℕ → Bool
no_leading_zero (c₀ ∷ c₁ ∷ c₂ ∷ c₃ ∷ rest) = not (c₂ == b'0')
no_leading_zero _ = true

-- A quantity of at most `longest` characters: "0x" and digits.
unfoldable pub is_quantity : ℕ → List ℕ → Bool
unfolding is_prefixed no_leading_zero
is_quantity longest response =
    not (ltb (length response) 3)
    && (not (ltb longest (length response)) && (is_prefixed response && no_leading_zero response))

unfoldable pub nonce_of : List ℕ → Attempt ℕ
unfolding is_quantity
nonce_of response =
    require (is_quantity 18 response) >>? λ _. decode_positive 8 response >>? lua_number

abbrev pub with_nonce : Context → ℕ → Outcome
with_nonce ctx nonce =
    answered (record ctx { nonce = nonce; nonce_set = true }) (pushed (integer nonce))

-- -1 is pushed as its pattern.
unfoldable pub operation_get_nonce : World → List LuaValue → Context → Outcome
unfolding nonce_of query_account
operation_get_nonce w stack ctx = conclude ctx (require (is_nil (top_value stack))) λ _.
    if not ctx.wallet_set
    then answered ctx (pushed (integer 0xffff_ffff_ffff_ffff))
    else conclude ctx
        (query_account w ctx (codes "eth_getTransactionCount") (codes "pending") >>? nonce_of)
        (with_nonce ctx)

unfoldable pub check_balance : List ℕ → Attempt (List ℕ)
check_balance response = require (is_quantity 66 response) >>? λ _.
    decode_positive 32 response >>? λ balance. gives response

abbrev pub push_text : Context → List ℕ → Outcome
push_text ctx response = answered ctx (pushed (string response))

unfoldable pub operation_get_balance : World → List LuaValue → Context → Outcome
unfolding check_balance
operation_get_balance w stack ctx =
    conclude ctx
      (require (is_nil (top_value stack)) >>? λ _. require ctx.wallet_set >>? λ _.
        query_account w ctx (codes "eth_getBalance") (codes "latest") >>? check_balance)
      (push_text ctx)

pub record Gas : Type 0 where
  pub gas_limit : ℕ
  pub max_priority_fee_per_gas : List ℕ
  pub max_fee_per_gas : List ℕ

abbrev pub as_text : LuaValue → Option (List ℕ)
as_text (string text) = some text
as_text _ = none

-- The shape of the storage.
unfoldable pub check_gas : ℕ → List ℕ → List ℕ → Attempt Gas
check_gas limit priority maximum =
    if is_negative limit || (not (length priority == 32) || not (length maximum == 32))
    then refused
    else gives (record {
      gas_limit = limit;
      max_priority_fee_per_gas = priority;
      max_fee_per_gas = maximum;
    })

unfoldable pub read_gas : World → LuaValue → Attempt Gas
unfolding check_gas
read_gas w (table t) = require w.grow_stack >>? λ _.
    expect (integer_field w.lua.heap t (codes "gas_limit")) >>? λ limit.
    expect (as_text (raw_get_text w.lua.heap t (codes "max_priority_fee_per_gas"))) >>? λ priority.
    expect (as_text (raw_get_text w.lua.heap t (codes "max_fee_per_gas"))) >>? λ maximum.
    check_gas limit priority maximum
read_gas w _ = refused

abbrev pub with_gas : Context → Gas → Outcome
with_gas ctx gas =
    answered
      (record ctx {
        gas_limit = gas.gas_limit;
        max_priority_fee_per_gas = gas.max_priority_fee_per_gas;
        max_fee_per_gas = gas.max_fee_per_gas;
        gas_set = true;
      })
      (pushed (boolean true))

unfoldable pub operation_set_gas : World → List LuaValue → Context → Outcome
unfolding read_gas
operation_set_gas w stack ctx = conclude ctx (read_gas w (top_value stack)) (with_gas ctx)
