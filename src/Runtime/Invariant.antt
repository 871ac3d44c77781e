-- ===== src/Runtime/Invariant.antt =====
-- kernel/operations.c: what the context keeps to, operation by operation.
use evmxt.Prelude.{
  codes, if-holds, ℕ, ◌≤◌, ◌≡◌, inl, inr, Bool, true, false, not, List, Option, none, some, arith,
  length, Bool-cases, ◌==◌,
}
use evmxt.Memory.{size_max}
use evmxt.Crypto.{Libraries}
use evmxt.Crypto.Wallet.{KeyLibrary, derive_address}
use evmxt.Lua.{LuaValue, lua_max_integer}
use evmxt.Operations.{
  Context, World, Attempt, gives, Outcome, conclude, require, is_nil, top_value, usable_url,
  call_rpc,
}
use evmxt.Operations.Laws.{conclude-holds, >>?-eq-gives}
use evmxt.Operations.Queries.{
  operation_create_wallet, operation_get_chain_id, operation_set_wallet, operation_get_nonce,
  operation_set_gas, operation_get_balance, chain_id_of, nonce_of, read_key, read_gas, with_wallet,
  with_chain_id, with_nonce, with_gas, query_account,
}
use evmxt.Operations.Calls.{operation_call, operation_eth_call, next_nonce}
use evmxt.Runtime.{Op, run_op, dispatched, run_dispatched, handle_operation}
use evmxt.Runtime.Given.{
  derive_address-length, chain_id_of-bounded, nonce_of-bounded, TextIsBytes, read_gas-GasIsValid,
  read_key-derives,
}

-- With a wallet, the address is the key's.
abbrev pub WalletIsValid : Libraries → KeyLibrary → Bool → List ℕ → List ℕ → Type 0
WalletIsValid libs keys true key address = derive_address libs keys key ≡ some address
WalletIsValid libs keys false key address = Unit

-- The arrays have their lengths, and the numbers stay in their ranges.
abbrev pub IsValid : Libraries → KeyLibrary → Context → Type 0
IsValid libs keys ctx =
    WalletIsValid libs keys ctx.wallet_set ctx.private_key ctx.address
    × (length ctx.private_key ≡ 32)
    × (length ctx.address ≡ 20)
    × (length ctx.max_priority_fee_per_gas ≡ 32)
    × (length ctx.max_fee_per_gas ≡ 32)
    × (ctx.chain_id ≤ lua_max_integer)
    × (ctx.gas_limit ≤ lua_max_integer)
    × (ctx.nonce ≤ size_max)

module _ (libs : Libraries) (keys : KeyLibrary) where
  abbrev Preserved : Outcome → Type 0
  Preserved outcome = IsValid libs keys outcome.context

  -- A handler that changes the context only by its last step.
  keeps {ℓ} :
      {A : Type ℓ} (ctx : Context) (m : Attempt A) (f : A → Outcome)
      → IsValid libs keys ctx
      → ((a : A) → m ≡ gives a → Preserved (f a))
      → Preserved (conclude ctx m f)
  keeps ctx m f valid after = conclude-holds Preserved ctx m f (λ _. valid) after

  next_nonce-IsValid : (ctx : Context) → IsValid libs keys ctx → IsValid libs keys (next_nonce ctx)
  next_nonce-IsValid ctx (wallet, key, address, priority, maximum, chain, gas, nonce) =
      elim (Bool-cases (ctx.nonce == size_max)) [
        | inl last ↦ simp last (wallet, key, address, priority, maximum, chain, gas, nonce)
        | inr more ↦
            simp more (wallet, key, address, priority, maximum, chain, gas, ground (arith, more))
      ]

  set_wallet-IsValid :
      (w : World) (stack : List LuaValue) (ctx : Context)
      → w.libraries ≡ libs
      → w.keys ≡ keys
      → TextIsBytes (top_value stack)
      → IsValid libs keys ctx
      → Preserved (operation_set_wallet w stack ctx)
  unfolding operation_set_wallet
  set_wallet-IsValid w stack ctx same_libs same_keys hs valid =
      keeps ctx (read_key w (top_value stack)) (with_wallet ctx) valid λ (key, address) got.
        let (size, derived) = read_key-derives w (top_value stack) hs got in
        let ours : derive_address libs keys key ≡ some address =
          rw (same_libs, same_keys) at derived in
        (
          ours,
          size,
          derive_address-length libs keys key ours,
          valid.3,
          valid.4,
          valid.5,
          valid.6,
          valid.7,
        )

  get_chain_id-IsValid :
      (w : World) (stack : List LuaValue) (ctx : Context)
      → IsValid libs keys ctx
      → Preserved (operation_get_chain_id w stack ctx)
  unfolding operation_get_chain_id
  get_chain_id-IsValid w stack ctx valid = keeps ctx _ (with_chain_id ctx) valid λ chain_id got.
      let (u, empty, rest) = >>?-eq-gives (require (is_nil (top_value stack))) _ got in
      let (url, usable, rest₁) = >>?-eq-gives (usable_url ctx.rpc_url) _ rest in
      let (response, called, last) =
        >>?-eq-gives (call_rpc w url (codes "eth_chainId") (codes "[]")) chain_id_of rest₁ in
      (
        valid.0,
        valid.1,
        valid.2,
        valid.3,
        valid.4,
        chain_id_of-bounded response last,
        valid.6,
        valid.7,
      )

  get_nonce-IsValid :
      (w : World) (stack : List LuaValue) (ctx : Context)
      → IsValid libs keys ctx
      → Preserved (operation_get_nonce w stack ctx)
  unfolding operation_get_nonce
  get_nonce-IsValid w stack ctx valid =
      keeps ctx (require (is_nil (top_value stack))) _ valid λ _ _.
        if-holds Preserved (not ctx.wallet_set) _ _ valid (
          keeps ctx _ (with_nonce ctx) valid λ nonce got.
            let (response, called, last) =
              >>?-eq-gives (query_account w ctx (codes "eth_getTransactionCount") (codes "pending"))
                nonce_of got in
            let small : nonce ≤ size_max = omega (arith, nonce_of-bounded response last) in
            (valid.0, valid.1, valid.2, valid.3, valid.4, valid.5, valid.6, small))

  run_op-IsValid :
      (op : Op) (w : World) (stack : List LuaValue) (ctx : Context)
      → w.libraries ≡ libs
      → w.keys ≡ keys
      → TextIsBytes (top_value stack)
      → IsValid libs keys ctx
      → Preserved (run_op op w stack ctx)
  unfolding operation_call operation_create_wallet operation_get_chain_id operation_set_wallet
      operation_set_gas operation_get_balance operation_eth_call operation_get_nonce
  run_op-IsValid Op.call w stack ctx same_libs same_keys hs valid =
      keeps ctx _ _ valid (λ a _. next_nonce-IsValid ctx valid)
  run_op-IsValid Op.wallet_create w stack ctx same_libs same_keys hs valid =
      keeps ctx _ _ valid (λ a _. valid)
  run_op-IsValid Op.get_chain_id w stack ctx same_libs same_keys hs valid =
      get_chain_id-IsValid w stack ctx valid
  run_op-IsValid Op.set_wallet w stack ctx same_libs same_keys hs valid =
      set_wallet-IsValid w stack ctx same_libs same_keys hs valid
  run_op-IsValid Op.get_nonce w stack ctx same_libs same_keys hs valid =
      get_nonce-IsValid w stack ctx valid
  run_op-IsValid Op.set_gas w stack ctx same_libs same_keys hs valid =
      keeps ctx (read_gas w (top_value stack)) (with_gas ctx) valid λ gas got.
        let (limit, priority, maximum) = read_gas-GasIsValid w (top_value stack) got in
        (valid.0, valid.1, valid.2, priority, maximum, valid.5, limit, valid.7)
  run_op-IsValid Op.get_balance w stack ctx same_libs same_keys hs valid =
      keeps ctx _ _ valid (λ a _. valid)
  run_op-IsValid Op.eth_call w stack ctx same_libs same_keys hs valid =
      keeps ctx _ _ valid (λ a _. valid)

  run_dispatched-IsValid :
      (found : Option Op) (w : World) (stack : List LuaValue) (ctx : Context)
      → w.libraries ≡ libs
      → w.keys ≡ keys
      → TextIsBytes (top_value stack)
      → IsValid libs keys ctx
      → Preserved (run_dispatched found w stack ctx)
  run_dispatched-IsValid none w stack ctx same_libs same_keys hs valid = valid
  run_dispatched-IsValid (some op) w stack ctx same_libs same_keys hs valid =
      run_op-IsValid op w stack ctx same_libs same_keys hs valid

  -- Every operation keeps a valid context valid.
  pub handle_operation-IsValid :
      (w : World) (index : ℕ) (stack : List LuaValue) (ctx : Context)
      → w.libraries ≡ libs
      → w.keys ≡ keys
      → TextIsBytes (top_value stack)
      → IsValid libs keys ctx
      → IsValid libs keys (handle_operation w index stack ctx).context
  unfolding handle_operation
  handle_operation-IsValid w index stack ctx same_libs same_keys hs valid =
      run_dispatched-IsValid (dispatched index) w stack ctx same_libs same_keys hs valid
