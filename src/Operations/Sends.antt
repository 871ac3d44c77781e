-- ===== src/Operations/Sends.antt =====
-- kernel/operations.c: what it means for `operation_call` to send, and its steps taken apart.
use evmxt.Prelude.{
  ◌&&◌, ◌==◌, codes, ℕ, ◌+◌, ◌≡◌, ◌≢◌, refl, ap, ◌∙◌, ◌⊎◌, inl, inr, true, false, List, [], ◌∷◌,
  ◌++◌, Option, none, some, arith, length, replicate, ==_iff, Bool-cases, Result, done, fail,
}
use evmxt.Memory.{size_max, Span, null_data, some_data}
use evmxt.Abi.Encode.{AbiBuffer}
use evmxt.Lua.{LuaValue, string, table, raw_get_text}
use evmxt.Eip1559.{Tx, null_entries}
use evmxt.LuaAbi.{Failure, Reason}
use evmxt.LuaAbi.Scalars.{is_hex_text}
use evmxt.LuaAbi.Encode.{lua_abi_encode_call}
use evmxt.Rpc.{rpc_call}
use evmxt.Operations.{
  Context, World, gives, ◌>>?◌, pushed, Outcome, usable_url, is_prefixed, decode_exactly,
  hex_string,
}
use evmxt.Operations.Laws.{>>?-eq-gives, require-then, gives-injective}
use evmxt.Operations.Calls.{
  call_frame, call_address, call_destination, attempted, failed_attempt, prepare_contract_call,
  calldata_span, transaction, check_hash, next_nonce, is_ready,
}
use evmxt.Operations.SignedBytes.{IsSigned}

-- The bytes of a buffer, or NULL with its length.
abbrev pub data_of : Option (List ℕ) → ℕ → Span
data_of none len = null_data len
data_of (some bytes) len = some_data bytes

-- A transaction from the context's settings, without a value and without an access list.
abbrev pub call_of : Context → List ℕ → AbiBuffer → Tx
call_of ctx to calldata = record {
  chain_id = ctx.chain_id;
  nonce = ctx.nonce;
  max_priority_fee_per_gas = ctx.max_priority_fee_per_gas;
  max_fee_per_gas = ctx.max_fee_per_gas;
  gas_limit = ctx.gas_limit;
  to = some to;
  value = replicate 32 0;
  calldata = data_of calldata.bytes calldata.len;
  access_list = null_entries 0;
}

-- The wallet, the chain id, the nonce and the gas were set.
abbrev pub IsConfigured : Context → Type 0
IsConfigured ctx =
    (ctx.wallet_set ≡ true)
    × (ctx.chain_id_set ≡ true)
    × (ctx.nonce_set ≡ true)
    × (ctx.gas_set ≡ true)

-- The context after a sent transaction: the next nonce, or none behind the last.
abbrev pub MovesOn : Context → Context → Type 0
MovesOn ctx ctx' =
    ((ctx.nonce ≡ size_max) × (ctx' ≡ record ctx { nonce_set = false }))
    ⊎ ((ctx.nonce ≢ size_max) × (ctx' ≡ record ctx { nonce = ctx.nonce + 1 }))

-- "0x" and 64 digits of 32 bytes.
abbrev pub IsHashText : List ℕ → Type 0
IsHashText text =
    (digits hash : List ℕ) × (text ≡ b'0' ∷ b'x' ∷ digits)
    × (length digits ≡ 64)
    × (decode_exactly 32 text ≡ gives hash)

-- The call on the stack: the payload at the top and the operation two below it, a table with the
-- address of the contract.
abbrev pub IsCall : World → List LuaValue → List ℕ → AbiBuffer → Type 0
IsCall w stack to calldata =
    (payload index : LuaValue) × (rest : List LuaValue) × (t : ℕ) × (address : List ℕ) × (stack
      ≡ payload ∷ index ∷ table t ∷ rest)
    × (raw_get_text w.lua.heap t (codes "to") ≡ string address)
    × (length address ≡ 42)
    × (decode_exactly 20 address ≡ gives to)
    × (lua_abi_encode_call w.abi_memory w.lua payload ≡ done calldata)

-- What stands behind an answer.
abbrev pub Sends : World → List LuaValue → Context → Outcome → Type 0
Sends w stack ctx outcome =
    (url to raw raw_hex response : List ℕ) × (calldata : AbiBuffer) × (ctx.rpc_url ≡ some url)
    × (url ≢ [])
    × IsConfigured ctx
    × IsCall w stack to calldata
    × IsSigned w ctx.private_key (call_of ctx to calldata) raw
    × (hex_string raw ≡ gives raw_hex)
    × (rpc_call w.network w.realloc url (codes "eth_sendRawTransaction")
          (codes "[\"" ++ (raw_hex ++ codes "\"]"))
        ≡ some response)
    × IsHashText response
    × (outcome.answer ≡ gives (pushed (string response)))
    × MovesOn ctx outcome.context

pub usable_url-some :
    (rpc_url : Option (List ℕ)) {url : List ℕ}
    → usable_url rpc_url ≡ gives url
    → (rpc_url ≡ some url) × (url ≢ [])
usable_url-some none h = cc
usable_url-some (some []) h = cc
usable_url-some (some (c ∷ cs)) {url} h =
    let same = gives-injective (c ∷ cs) url h in (ap some same, λ e. cc (same, e))

pub is_ready-IsConfigured : (ctx : Context) → is_ready ctx ≡ true → IsConfigured ctx
is_ready-IsConfigured ctx h = ground (arith, h)

pub next_nonce-MovesOn : (ctx : Context) → MovesOn ctx (next_nonce ctx)
next_nonce-MovesOn ctx = elim (Bool-cases (ctx.nonce == size_max)) [
  | inl last ↦ inl ((==_iff ctx.nonce size_max).0 last, rw last refl)
  | inr other ↦ inr (λ e. ground (arith, other, e), rw other refl)
]

pub check_hash-IsHashText :
    (text : List ℕ) {answer : List ℕ} → check_hash text ≡ gives answer → IsHashText text
unfolding check_hash is_prefixed
check_hash-IsHashText [] h = cc
check_hash-IsHashText (c ∷ []) h = cc
check_hash-IsHashText (c ∷ d ∷ cs) h =
    let text : List ℕ = c ∷ d ∷ cs in
    let (prefixed, rest) =
      require-then (length text == 66 && is_prefixed text)
        (decode_exactly 32 text >>? λ hash. gives text) h in
    let (hash, decoded, same) = >>?-eq-gives (decode_exactly 32 text) _ rest in
    let zero_first : c ≡ b'0' = ground (arith, prefixed) in
    let x_second : d ≡ b'x' = ground (arith, prefixed) in
    let size : length cs ≡ 64 = ground (arith, prefixed) in
    (cs, hash, rw (zero_first, x_second) refl, size, decoded)

destination-table :
    (w : World) (operation : LuaValue) {to : List ℕ}
    → call_destination w operation ≡ gives to
    → (t : ℕ) × (operation ≡ table t)
      × (call_address (raw_get_text w.lua.heap t (codes "to")) ≡ gives to)
destination-table w (table t) h =
    (t, refl, (require-then _ (call_address (raw_get_text w.lua.heap t (codes "to"))) h).1)
destination-table w LuaValue.nil h = cc
destination-table w (LuaValue.boolean b) h = cc
destination-table w (LuaValue.integer n) h = cc
destination-table w (LuaValue.float text) h = cc
destination-table w (string text) h = cc
destination-table w LuaValue.other h = cc

address_text :
    (v : LuaValue) {to : List ℕ}
    → call_address v ≡ gives to
    → (address : List ℕ) × (v ≡ string address)
      × (length address ≡ 42)
      × (decode_exactly 20 address ≡ gives to)
unfolding call_address
address_text (string address) h = elim (Bool-cases (length address == 42 && is_hex_text address)) [
  | inl good ↦ (address, refl, ground (arith, good), rw good at h)
  | inr bad ↦ let no = rw bad at h in cc
]
address_text LuaValue.nil h = cc
address_text (LuaValue.boolean b) h = cc
address_text (LuaValue.integer n) h = cc
address_text (LuaValue.float text) h = cc
address_text (table t) h = cc
address_text LuaValue.other h = cc

not_given : (reason : Reason) {calldata : AbiBuffer} → failed_attempt reason ≢ gives calldata
not_given reason h = ground (arith, h)

attempted-done :
    (r : Result Failure AbiBuffer) {calldata : AbiBuffer}
    → attempted r ≡ gives calldata
    → r ≡ done calldata
attempted-done (done buffer) {calldata} h = ap done (gives-injective buffer calldata h)
attempted-done (fail failure) h = absurd (not_given failure.reason h)

framed_call :
    (stack : List LuaValue) {frame : LuaValue × LuaValue}
    → call_frame stack ≡ gives frame
    → (index : LuaValue) × (rest : List LuaValue) × (stack ≡ frame.1 ∷ index ∷ frame.0 ∷ rest)
framed_call [] h = cc
framed_call (payload ∷ []) h = cc
framed_call (payload ∷ index ∷ []) h = cc
framed_call (payload ∷ index ∷ operation ∷ rest) {frame} h =
    let same = gives-injective (operation, payload) frame h in
    (index, rest, ap (λ (f : LuaValue × LuaValue). f.1 ∷ index ∷ f.0 ∷ rest) same)

pub prepared-IsCall :
    (w : World) (stack : List LuaValue) (frame : LuaValue × LuaValue) {to : List ℕ}
    {calldata : AbiBuffer}
    → call_frame stack ≡ gives frame
    → prepare_contract_call w frame ≡ gives (to, calldata)
    → IsCall w stack to calldata
unfolding prepare_contract_call
prepared-IsCall w stack (operation, payload) {to} {calldata} framed h =
    let (to', aimed, rest) = >>?-eq-gives (call_destination w operation) _ h in
    let (calldata', encoded, last) =
      >>?-eq-gives (attempted (lua_abi_encode_call w.abi_memory w.lua payload)) _ rest in
    let same = gives-injective (to', calldata') (to, calldata) last in
    let (index, tail, whole) = framed_call stack framed in
    let (t, is_table, addressed) = destination-table w operation aimed in
    let (address, found, long, decoded) = address_text _ addressed in
    (
      payload,
      index,
      tail,
      t,
      address,
      whole ∙ ap (λ v. payload ∷ index ∷ v ∷ tail) is_table,
      found,
      long,
      decoded ∙ ap (λ (p : List ℕ × AbiBuffer). gives p.0) same,
      attempted-done (lua_abi_encode_call w.abi_memory w.lua payload) encoded
          ∙ ap (λ (p : List ℕ × AbiBuffer). done p.1) same,
    )

span_data :
    (bytes : Option (List ℕ)) (len : ℕ)
    → calldata_span (record { bytes = bytes; len = len }) ≡ data_of bytes len
span_data none len = refl
span_data (some bytes) len = refl

pub transaction-call_of :
    (ctx : Context) (to : List ℕ) (calldata : AbiBuffer)
    → transaction ctx (to, calldata) ≡ call_of ctx to calldata
transaction-call_of ctx to calldata =
    ap (λ span. record (call_of ctx to calldata) { calldata = span })
      (span_data calldata.bytes calldata.len)
