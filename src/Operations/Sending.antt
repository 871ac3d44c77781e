-- ===== src/Operations/Sending.antt =====
-- kernel/operations.c: what `operation_call` sends.
use evmxt.Prelude.{
  zero, suc, ◌&&◌, ◌==◌, codes, ℕ, ◌≡◌, refl, sym, ap, ◌∙◌, subst, ◌⊎◌, inl, inr, List, some, arith,
  length, replicate, All, IsByte,
}
use evmxt.Lua.{LuaValue}
use evmxt.Eip1559.Signing.{Allocates}
use evmxt.Eip1559.Valid.{IsAmount}
use evmxt.Eip1559.SignedFields.{SignsBytes}
use evmxt.Rpc.{rpc_call}
use evmxt.Operations.{
  Context, World, system, gives, ◌>>?◌, require, Outcome, usable_url, is_prefixed, decode_exactly,
  hex_string, call_rpc,
}
use evmxt.Operations.Laws.{
  >>?-eq-gives, require-then, conclude-cases, Unanswered, gives-injective, require-eq-gives,
  expect-eq-gives,
}
use evmxt.Operations.Calls.{
  call_frame, prepare_contract_call, transaction, sign_transaction, long_hex, format_params,
  raw_params, check_hash, broadcast, with_next_nonce, is_ready, operation_call, send_call,
}
use evmxt.Operations.SignedBytes.{IsSigned, sign_transaction-IsSigned}
use evmxt.Operations.Sends.{
  Sends, MovesOn, usable_url-some, is_ready-IsConfigured, next_nonce-MovesOn, check_hash-IsHashText,
  prepared-IsCall, transaction-call_of,
}

long_hex-hex_string :
    (w : World) (bytes : List ℕ) {text : List ℕ}
    → long_hex w bytes ≡ gives text
    → hex_string bytes ≡ gives text
unfolding long_hex
long_hex-hex_string w bytes h = (require-then _ (hex_string bytes) h).1

format_params-same :
    (w : World) (text : List ℕ) {params : List ℕ}
    → format_params w text ≡ gives params
    → text ≡ params
unfolding format_params
format_params-same w text {params} h = gives-injective text params (require-then _ (gives text) h).1

check_hash-same :
    (response : List ℕ) {answer : List ℕ} → check_hash response ≡ gives answer → response ≡ answer
unfolding check_hash
check_hash-same response {answer} h =
    let (prefixed, rest) =
      require-then (length response == 66 && is_prefixed response)
        (decode_exactly 32 response >>? λ hash. gives response) h in
    let (hash, decoded, same) = >>?-eq-gives (decode_exactly 32 response) _ rest in
    gives-injective response answer same

broadcast-parts :
    (w : World) (url raw : List ℕ) {response : List ℕ}
    → broadcast w url raw ≡ gives response
    → (raw_hex : List ℕ) × (hex_string raw ≡ gives raw_hex)
      × (rpc_call w.network w.realloc url (codes "eth_sendRawTransaction") (raw_params raw_hex)
          ≡ some response)
      × (check_hash response ≡ gives response)
unfolding broadcast call_rpc
broadcast-parts w url raw {response} h =
    let method = codes "eth_sendRawTransaction" in
    let (raw_hex, long, rest) = >>?-eq-gives (long_hex w raw) _ h in
    let (params, formatted, rest₁) = >>?-eq-gives (format_params w (raw_params raw_hex)) _ rest in
    let (answer, called, checked) = >>?-eq-gives (call_rpc w url method params) check_hash rest₁ in
    let same = check_hash-same answer checked in
    (
      raw_hex,
      long_hex-hex_string w raw long,
      ap (rpc_call w.network w.realloc url method)
            (format_params-same w (raw_params raw_hex) formatted)
          ∙ expect-eq-gives (rpc_call w.network w.realloc url method params) called
          ∙ ap some same,
      subst (λ r. check_hash r ≡ gives response) same checked,
    )

pub zero-IsAmount : IsAmount (replicate 32 0)
zero-IsAmount = (refl, zeroes 32)
  where
    zeroes : (n : ℕ) → All IsByte (replicate n 0)
    zeroes zero = tt
    zeroes (suc n) = (omega arith, zeroes n)

-- If `malloc` gives `eip_1559_tx_encode` as many bytes as it is asked for, secp256k1 writes bytes,
-- and the context's two fees are 32 bytes each, `operation_call` ends in one of two ways. Either
-- there is a URL, the wallet, the chain id, the nonce and the gas were set, the stack holds a call
-- whose data was encoded and whose address was decoded, and 0x02 with the RLP encoding of the
-- twelve fields of an EIP-1559 transaction was sent as hexadecimal text to
-- `eth_sendRawTransaction`: the context's chain id, nonce, priority fee, fee and gas limit, the
-- address, no value, the data, no access list, and the recovery id and the two halves of a
-- signature, by the context's key, of the hash of 0x02 and the encoding of the first nine. Then
-- the answer is 0x and 64 digits of 32 bytes, it is pushed, and the context changes in the nonce
-- alone, which is one more, or no longer set when it was `UINT64_MAX`. Or there is no answer, and
-- the context is unchanged.
pub operation_call-Sends :
    (w : World) (stack : List LuaValue) (ctx : Context)
    → Allocates (system w w.signing)
    → SignsBytes w.libraries
    → IsAmount ctx.max_priority_fee_per_gas
    → IsAmount ctx.max_fee_per_gas
    → Sends w stack ctx (operation_call w stack ctx)
      ⊎ (((operation_call w stack ctx).context ≡ ctx)
          × Unanswered (operation_call w stack ctx).answer)
unfolding operation_call send_call
operation_call-Sends w stack ctx allocates signs priority fee =
    elim (conclude-cases ctx (send_call w stack ctx) (with_next_nonce ctx)) [
      | inr unanswered ↦ inr unanswered
      | inl (response, all, whole) ↦
          let (url, usable, rest) = >>?-eq-gives (usable_url ctx.rpc_url) _ all in
          let (u, ready, rest₁) = >>?-eq-gives (require (is_ready ctx)) _ rest in
          let (frame, framed, rest₂) = >>?-eq-gives (call_frame stack) _ rest₁ in
          let ((to, calldata), made, rest₃) =
            >>?-eq-gives (prepare_contract_call w frame) _ rest₂ in
          let tx = transaction ctx (to, calldata) in
          let (raw, signed, last) =
            >>?-eq-gives (sign_transaction w ctx tx) (broadcast w url) rest₃ in
          let (raw_hex, hexed, called, checked) = broadcast-parts w url raw last in
          let (set, not_empty) = usable_url-some ctx.rpc_url usable in
          let bytes =
            sign_transaction-IsSigned w ctx tx allocates signs (priority, fee, zero-IsAmount)
              signed in
          inl (
            url,
            to,
            raw,
            raw_hex,
            response,
            calldata,
            set,
            not_empty,
            is_ready-IsConfigured ctx (require-eq-gives (is_ready ctx) ready),
            prepared-IsCall w stack frame framed made,
            subst (λ t. IsSigned w ctx.private_key t raw) (transaction-call_of ctx to calldata)
                bytes,
            hexed,
            called,
            check_hash-IsHashText response checked,
            ap Outcome.answer whole,
            subst (MovesOn ctx) (sym (ap Outcome.context whole)) (next_nonce-MovesOn ctx),
          )
    ]
