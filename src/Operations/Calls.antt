-- ===== src/Operations/Calls.antt =====
-- kernel/operations.c: `operation_call` and `operation_eth_call`.
use evmxt.Prelude.{
  codes, ℕ, suc, ◌+◌, ◌-◌, ◌/◌, ◌%◌, Bool, false, ◌&&◌, ◌||◌, not, List, [], ◌∷◌, ◌++◌, Option,
  none, some, ltb, leb, ◌==◌, if◌then◌else◌, length, take, Result, done, fail,
}
use evmxt.Memory.{size_max, Span, null_data, some_data}
use evmxt.Abi.Encode.{AbiBuffer}
use evmxt.Eip1559.{Eip1559Status, ok, no_space, Tx, null_entries}
use evmxt.Eip1559.Envelope.{eip_1559_tx_encode}
use evmxt.Lua.{LuaValue, string, table, raw_get_text}
use evmxt.LuaAbi.{Reason, out_of_bounds, Failure}
use evmxt.LuaAbi.Scalars.{is_hex_text}
use evmxt.LuaAbi.Encode.{lua_abi_encode_call}
use evmxt.Operations.{
  Context, World, system, Attempt, gives, refused, stuck, ◌>>?◌, access, require, pushed, Outcome,
  answered, conclude, usable_url, fresh, decode_exactly, hex_string, call_rpc, is_prefixed,
}

-- The operation and its data, which stand at the top and two below it.
abbrev pub call_frame : List LuaValue → Attempt (LuaValue × LuaValue)
call_frame (payload ∷ index ∷ operation ∷ stack) = gives (operation, payload)
call_frame _ = refused

unfoldable pub call_address : LuaValue → Attempt (List ℕ)
call_address (string address) =
    if length address == 42 && is_hex_text address then decode_exactly 20 address else refused
call_address _ = refused

abbrev pub call_destination : World → LuaValue → Attempt (List ℕ)
call_destination w (table t) =
    require w.grow_stack >>? λ _. call_address (raw_get_text w.lua.heap t (codes "to"))
call_destination w _ = refused

-- A failure of `lua_abi_encode_call` is a message, unless it stands for a fault.
abbrev pub failed_attempt {ℓ} : {A : Type ℓ} → Reason → Attempt A
failed_attempt out_of_bounds = stuck
failed_attempt _ = refused

abbrev pub attempted {ℓ} : {A : Type ℓ} → Result Failure A → Attempt A
attempted (done a) = gives a
attempted (fail failure) = failed_attempt failure.reason

-- `to` and the call data.
unfoldable pub prepare_contract_call : World → LuaValue × LuaValue → Attempt (List ℕ × AbiBuffer)
unfolding call_address
prepare_contract_call w (operation, payload) = call_destination w operation >>? λ to.
    attempted (lua_abi_encode_call w.abi_memory w.lua payload) >>? λ calldata. gives (to, calldata)

abbrev pub calldata_span : AbiBuffer → Span
calldata_span buffer = elim buffer.bytes [
  | none ↦ null_data buffer.len
  | some bytes ↦ some_data bytes
]

abbrev pub transaction : Context → List ℕ × AbiBuffer → Tx
transaction ctx (to, calldata) = record {
  chain_id = ctx.chain_id;
  nonce = ctx.nonce;
  max_priority_fee_per_gas = ctx.max_priority_fee_per_gas;
  max_fee_per_gas = ctx.max_fee_per_gas;
  gas_limit = ctx.gas_limit;
  to = some to;
  value = fresh 32;
  calldata = calldata_span calldata;
  access_list = null_entries 0;
}

abbrev pub written_size : Eip1559Status → ℕ → Attempt ℕ
written_size no_space raw_len = gives raw_len
written_size status raw_len = refused

-- What was written, of the bytes of `raw`.
abbrev pub written_bytes : Eip1559Status → Option (List ℕ) → ℕ → Attempt (List ℕ)
written_bytes ok out raw_len = access out >>? λ raw. gives (take raw_len raw)
written_bytes status out raw_len = refused

unfoldable pub size_transaction : World → Context → Tx → Attempt ℕ
size_transaction w ctx tx =
    access (eip_1559_tx_encode (system w w.sizing) (some tx) (some ctx.private_key) none 0) >>? λ e.
    written_size e.status e.written

-- Sized, and then written to a buffer of that size.
unfoldable pub sign_transaction : World → Context → Tx → Attempt (List ℕ)
unfolding size_transaction
sign_transaction w ctx tx = size_transaction w ctx tx >>? λ raw_len. require w.raw_memory >>? λ _.
    access (
      eip_1559_tx_encode (system w w.signing) (some tx) (some ctx.private_key)
        (some (fresh raw_len)) raw_len)
    >>? λ e. written_bytes e.status e.out e.written

-- Bytes as hexadecimal text, if its size fits `size_t`.
unfoldable pub long_hex : World → List ℕ → Attempt (List ℕ)
long_hex w bytes = require (not (ltb ((size_max - 3) / 2) (length bytes)) && w.hex_memory) >>? λ _.
    hex_string bytes

-- `snprintf`, which is negative when the length is no `int`, `malloc`, and `snprintf` again.
unfoldable pub format_params : World → List ℕ → Attempt (List ℕ)
format_params w text =
    require (not (ltb 0x7fff_ffff (length text)) && w.params_memory) >>? λ _. gives text

abbrev pub raw_params : List ℕ → List ℕ
raw_params raw_hex = codes "[\"" ++ (raw_hex ++ codes "\"]")

unfoldable pub check_hash : List ℕ → Attempt (List ℕ)
check_hash response = require (length response == 66 && is_prefixed response) >>? λ _.
    decode_exactly 32 response >>? λ hash. gives response

unfoldable pub broadcast : World → List ℕ → List ℕ → Attempt (List ℕ)
unfolding long_hex format_params check_hash
broadcast w url raw = long_hex w raw >>? λ raw_hex.
    format_params w (raw_params raw_hex) >>? λ params.
    call_rpc w url (codes "eth_sendRawTransaction") params >>? check_hash

abbrev pub next_nonce : Context → Context
next_nonce ctx =
    if ctx.nonce == size_max
    then record ctx { nonce_set = false }
    else record ctx { nonce = ctx.nonce + 1 }

abbrev pub with_next_nonce : Context → List ℕ → Outcome
with_next_nonce ctx response = answered (next_nonce ctx) (pushed (string response))

abbrev pub is_ready : Context → Bool
is_ready ctx = ctx.wallet_set && (ctx.chain_id_set && (ctx.nonce_set && ctx.gas_set))

-- Up to the node's answer.
unfoldable pub send_call : World → List LuaValue → Context → Attempt (List ℕ)
unfolding prepare_contract_call sign_transaction broadcast
send_call w stack ctx = usable_url ctx.rpc_url >>? λ url. require (is_ready ctx) >>? λ _.
    call_frame stack >>? λ frame. prepare_contract_call w frame >>? λ prepared.
    sign_transaction w ctx (transaction ctx prepared) >>? λ raw. broadcast w url raw

unfoldable pub operation_call : World → List LuaValue → Context → Outcome
unfolding send_call
operation_call w stack ctx = conclude ctx (send_call w stack ctx) (with_next_nonce ctx)

-- The bytes of a buffer; none are read of an empty one.
abbrev pub buffer_content : AbiBuffer → Attempt (List ℕ)
buffer_content buffer =
    if buffer.len == 0
    then gives []
    else (access buffer.bytes >>? λ bytes. gives (take buffer.len bytes))

abbrev pub is_hex_digit : ℕ → Bool
is_hex_digit c = leb b'0' c && leb c b'9' || (leb b'a' c && leb c b'f' || leb b'A' c && leb c b'F')

-- `strspn`
unfoldable pub hex_span : List ℕ → ℕ
hex_span [] = 0
hex_span (c ∷ cs) = let rest = hex_span cs in if is_hex_digit c then suc rest else 0

abbrev pub behind_prefix : List ℕ → List ℕ
behind_prefix (c₀ ∷ c₁ ∷ text) = text
behind_prefix _ = []

unfoldable pub check_result : List ℕ → Attempt (List ℕ)
unfolding hex_span
check_result response =
    require (
      is_prefixed response
      && (length response % 2 == 0 && hex_span (behind_prefix response) == length response - 2))
    >>? λ _. gives response

-- The sender, if there is a wallet.
unfoldable pub sender_text : Context → Attempt (List ℕ)
sender_text ctx =
    if ctx.wallet_set
    then (hex_string ctx.address >>? λ sender.
        gives (codes ",\"from\":\"" ++ (sender ++ codes "\"")))
    else gives []

abbrev pub call_params : List ℕ → List ℕ → List ℕ → List ℕ
call_params address data_hex from =
    codes "[{\"to\":\""
    ++ (address
        ++ (codes "\",\"data\":\""
            ++ (data_hex ++ (codes "\"" ++ (from ++ codes "},\"latest\"]")))))

unfoldable pub simulate : World → Context → List ℕ → List ℕ × AbiBuffer → Attempt (List ℕ)
unfolding sender_text check_result
simulate w ctx url (to, calldata) = buffer_content calldata >>? λ bytes.
    long_hex w bytes >>? λ data_hex. hex_string to >>? λ address. sender_text ctx >>? λ from.
    format_params w (call_params address data_hex from) >>? λ params.
    call_rpc w url (codes "eth_call") params >>? check_result

unfoldable pub operation_eth_call : World → List LuaValue → Context → Outcome
unfolding simulate
operation_eth_call w stack ctx =
    conclude ctx
      (usable_url ctx.rpc_url >>? λ url. call_frame stack >>? λ frame.
        prepare_contract_call w frame >>? λ prepared. simulate w ctx url prepared)
      (λ response. answered ctx (pushed (string response)))
