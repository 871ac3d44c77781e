-- ===== src/Runtime/Unanswered.antt =====
-- kernel/operations.h: a handler that reports an error leaves the context unchanged.
use evmxt.Prelude.{ℕ, ◌≡◌, refl, ◌⊎◌, inl, inr, List, Option, none, some, Bool-cases}
use evmxt.Lua.{LuaValue}
use evmxt.Operations.{
  Context, World, Attempt, gives, Response, Outcome, conclude, require, is_nil, top_value,
}
use evmxt.Operations.Laws.{conclude-holds}
use evmxt.Operations.Queries.{
  operation_create_wallet, operation_get_chain_id, operation_set_wallet, operation_get_nonce,
  operation_set_gas, operation_get_balance,
}
use evmxt.Operations.Calls.{operation_call, operation_eth_call}
use evmxt.Runtime.{Op, run_op, dispatched, run_dispatched, handle_operation}

abbrev pub Answers : Outcome → Type 0
Answers outcome = (response : Response) × (outcome.answer ≡ gives response)

abbrev AnswersOrKeeps : Context → Outcome → Type 0
AnswersOrKeeps ctx outcome = Answers outcome ⊎ (outcome.context ≡ ctx)

kept {ℓ} :
    {A : Type ℓ} (ctx : Context) (m : Attempt A) (f : A → Outcome)
    → ((a : A) → Answers (f a))
    → AnswersOrKeeps ctx (conclude ctx m f)
kept ctx m f answers =
    conclude-holds (AnswersOrKeeps ctx) ctx m f (λ answer. inr refl) (λ a _. inl (answers a))

get_nonce-AnswersOrKeeps :
    (w : World) (stack : List LuaValue) (ctx : Context)
    → AnswersOrKeeps ctx (operation_get_nonce w stack ctx)
unfolding operation_get_nonce
get_nonce-AnswersOrKeeps w stack ctx =
    conclude-holds (AnswersOrKeeps ctx) ctx (require (is_nil (top_value stack))) _
      (λ answer. inr refl)
      λ _ _. elim (Bool-cases ctx.wallet_set) [
        | inl set ↦ simp set (kept ctx _ _ (λ a. (_, refl)))
        | inr unset ↦ simp unset (inl (_, refl))
      ]

run_op-AnswersOrKeeps :
    (op : Op) (w : World) (stack : List LuaValue) (ctx : Context)
    → AnswersOrKeeps ctx (run_op op w stack ctx)
unfolding operation_call operation_create_wallet operation_get_chain_id operation_set_wallet
    operation_set_gas operation_get_balance operation_eth_call
run_op-AnswersOrKeeps Op.call w stack ctx = kept ctx _ _ (λ a. (_, refl))
run_op-AnswersOrKeeps Op.wallet_create w stack ctx = kept ctx _ _ (λ a. (_, refl))
run_op-AnswersOrKeeps Op.get_chain_id w stack ctx = kept ctx _ _ (λ a. (_, refl))
run_op-AnswersOrKeeps Op.set_wallet w stack ctx = kept ctx _ _ (λ a. (_, refl))
run_op-AnswersOrKeeps Op.get_nonce w stack ctx = get_nonce-AnswersOrKeeps w stack ctx
run_op-AnswersOrKeeps Op.set_gas w stack ctx = kept ctx _ _ (λ a. (_, refl))
run_op-AnswersOrKeeps Op.get_balance w stack ctx = kept ctx _ _ (λ a. (_, refl))
run_op-AnswersOrKeeps Op.eth_call w stack ctx = kept ctx _ _ (λ a. (_, refl))

run_dispatched-AnswersOrKeeps :
    (found : Option Op) (w : World) (stack : List LuaValue) (ctx : Context)
    → AnswersOrKeeps ctx (run_dispatched found w stack ctx)
run_dispatched-AnswersOrKeeps none w stack ctx = inr refl
run_dispatched-AnswersOrKeeps (some op) w stack ctx = run_op-AnswersOrKeeps op w stack ctx

-- For every index, stack and context, `handle_operation` either answers the program or leaves the
-- context unchanged.
pub handle_operation-keeps :
    (w : World) (index : ℕ) (stack : List LuaValue) (ctx : Context)
    → Answers (handle_operation w index stack ctx)
      ⊎ ((handle_operation w index stack ctx).context ≡ ctx)
unfolding handle_operation
handle_operation-keeps w index stack ctx =
    run_dispatched-AnswersOrKeeps (dispatched index) w stack ctx
