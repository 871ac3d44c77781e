-- ===== src/Runtime.antt =====
-- kernel/runtime.c: the dispatch of the operations that a Lua program yields.
pub mod Unanswered
pub mod Given
pub mod Invariant
pub mod Loop
mod Examples
use evmxt.Prelude.{
  codes, ℕ, Bool, true, false, List, [], ◌∷◌, ◌==◌, if◌then◌else◌, Option, none, some, replicate,
}
use evmxt.Lua.{LuaValue, integer, table}
use evmxt.Operations.{Context, World, Attempt, gives, refused, stuck, Response, Outcome}
use evmxt.Operations.Calls.{operation_call, operation_eth_call}
use evmxt.Operations.Queries.{
  operation_create_wallet, operation_get_chain_id, operation_set_wallet, operation_get_nonce,
  operation_set_gas, operation_get_balance,
}

-- `op`, without the instruction that halts.
pub data Op : Type 0 where
  call wallet_create get_chain_id set_wallet get_nonce set_gas get_balance eth_call : Op

-- The labels of `dispatch`.
abbrev pub run_op : Op → World → List LuaValue → Context → Outcome
run_op call = operation_call
run_op wallet_create = operation_create_wallet
run_op get_chain_id = operation_get_chain_id
run_op set_wallet = operation_set_wallet
run_op get_nonce = operation_get_nonce
run_op set_gas = operation_set_gas
run_op get_balance = operation_get_balance
run_op eth_call = operation_eth_call

-- The entry of `dispatch` at an index, on the index's 64-bit pattern: a negative one is too large.
abbrev pub dispatched : ℕ → Option Op
dispatched index =
    if index == 0
    then some call
    else if index == 1
    then some wallet_create
    else if index == 2
    then some get_chain_id
    else if index == 3
    then some set_wallet
    else if index == 4
    then some get_nonce
    else if index == 5
    then some set_gas
    else if index == 6
    then some get_balance
    else if index == 7
    then some eth_call
    else none

abbrev pub run_dispatched : Option Op → World → List LuaValue → Context → Outcome
run_dispatched none w stack ctx = record { context = ctx; answer = refused }
run_dispatched (some op) w stack ctx = run_op op w stack ctx

-- Halting, after the operation, changes nothing.
unfoldable pub handle_operation : World → ℕ → List LuaValue → Context → Outcome
handle_operation w index stack ctx = run_dispatched (dispatched index) w stack ctx

-- What `lua_resume` ends with: `main` returns, raises an error, or yields so many values, of which
-- the top is given with its fields `index` and `data`.
pub data Resumed : Type 0 where
  returned : Resumed
  raised : Resumed
  yielded : ℕ → LuaValue → LuaValue → LuaValue → Resumed

-- How the loop goes on.
pub data Ending : Type 0 where
  finished : Ending
  stopped : Ending
  crashed : Ending
  waiting : Ending

-- The context, and whether the loop goes on.
pub record State : Type 0 where
  pub context : Context
  pub ending : Ending

abbrev pub after : Outcome → State
after outcome = elim outcome.answer [
  | gives response ↦ record { context = outcome.context; ending = waiting }
  | refused ↦ record { context = outcome.context; ending = stopped }
  | stuck ↦ record { context = outcome.context; ending = crashed }
]

abbrev pub handle_index : World → LuaValue → LuaValue → LuaValue → Context → State
handle_index w operation (integer index) payload ctx =
    after (handle_operation w index (payload ∷ integer index ∷ operation ∷ []) ctx)
handle_index w operation _ payload ctx = record { context = ctx; ending = stopped }

abbrev pub handle_yielded : World → LuaValue → LuaValue → LuaValue → Context → State
handle_yielded w (table t) index payload ctx = handle_index w (table t) index payload ctx
handle_yielded w _ index payload ctx = record { context = ctx; ending = stopped }

-- One round of the loop.
unfoldable pub resume_step : World → Resumed → Context → State
resume_step w returned ctx = record { context = ctx; ending = finished }
resume_step w raised ctx = record { context = ctx; ending = stopped }
resume_step w (yielded count operation index payload) ctx =
    if count == 1
    then handle_yielded w operation index payload ctx
    else record { context = ctx; ending = stopped }

abbrev pub go_on : State → (Context → State) → State
go_on state next = elim state.ending [ waiting ↦ next state.context | _ ↦ state ]

-- The loop, along what the program does and finds in each round; it waits for more rounds, or ends.
unfoldable pub resume_loop : List (World × Resumed) → Context → State
resume_loop [] ctx = record { context = ctx; ending = waiting }
resume_loop ((w, resumed) ∷ rounds) ctx = go_on (resume_step w resumed ctx) (resume_loop rounds)

-- `lua_runtime_ctx ctx = {0};` with the URL of the configuration.
abbrev pub initial : List ℕ → Context
initial url = record {
  chain_id = 0;
  nonce = 0;
  gas_limit = 0;
  max_priority_fee_per_gas = replicate 32 0;
  max_fee_per_gas = replicate 32 0;
  private_key = replicate 32 0;
  address = replicate 20 0;
  wallet_set = false;
  chain_id_set = false;
  nonce_set = false;
  gas_set = false;
  rpc_url = some url;
}
