-- ===== src/Runtime/Loop.antt =====
-- kernel/runtime.c and kernel/main.c: the resume loop from the first context on.
use evmxt.Prelude.{if-holds, ℕ, ◌≡◌, refl, List, [], ◌∷◌, arith, All, ◌==◌}
use evmxt.Crypto.{Libraries}
use evmxt.Crypto.Wallet.{KeyLibrary}
use evmxt.Lua.{LuaValue, integer, table}
use evmxt.Operations.{Context, World, Attempt, gives, refused, stuck, Outcome}
use evmxt.Runtime.{
  handle_operation, Resumed, yielded, returned, raised, Ending, State, resume_step, resume_loop,
  handle_yielded, initial, after, go_on,
}
use evmxt.Runtime.Given.{TextIsBytes}
use evmxt.Runtime.Invariant.{IsValid, handle_operation-IsValid}

module _ (libs : Libraries) (keys : KeyLibrary) where
  -- A round with these libraries, in which the program yields a string of bytes at most.
  abbrev pub IsRound : World × Resumed → Type 0
  IsRound (w, yielded count operation index payload) =
      (w.libraries ≡ libs) × (w.keys ≡ keys) × TextIsBytes payload
  IsRound (w, returned) = Unit
  IsRound (w, raised) = Unit

  after-IsValid :
      (outcome : Outcome)
      → IsValid libs keys outcome.context
      → IsValid libs keys (after outcome).context
  after-IsValid outcome valid = helper outcome.answer
    where
      helper :
          (answer : Attempt _)
          → IsValid libs keys (after (record outcome { answer = answer })).context
      helper (gives a) = valid
      helper refused = valid
      helper stuck = valid

  handle_yielded-IsValid :
      (w : World) (operation index payload : LuaValue) (ctx : Context)
      → w.libraries ≡ libs
      → w.keys ≡ keys
      → TextIsBytes payload
      → IsValid libs keys ctx
      → IsValid libs keys (handle_yielded w operation index payload ctx).context
  handle_yielded-IsValid w (table t) (integer index) payload ctx same_libs same_keys hs valid =
      let stack = payload ∷ integer index ∷ table t ∷ [] in
      after-IsValid (handle_operation w index stack ctx)
        (handle_operation-IsValid libs keys w index stack ctx same_libs same_keys hs valid)
  handle_yielded-IsValid w _ _ payload ctx same_libs same_keys hs valid = valid

  resume_step-IsValid :
      (w : World) (resumed : Resumed) (ctx : Context)
      → IsRound (w, resumed)
      → IsValid libs keys ctx
      → IsValid libs keys (resume_step w resumed ctx).context
  unfolding resume_step
  resume_step-IsValid w returned ctx sound valid = valid
  resume_step-IsValid w raised ctx sound valid = valid
  resume_step-IsValid w (yielded count operation index payload) ctx (same_libs, same_keys, hs)
        valid =
      if-holds (λ (s : State). IsValid libs keys s.context) (count == 1) _ _
        (handle_yielded-IsValid w operation index payload ctx same_libs same_keys hs valid) valid

  go_on-IsValid :
      (state : State) (next : Context → State)
      → IsValid libs keys state.context
      → ((ctx : Context) → IsValid libs keys ctx → IsValid libs keys (next ctx).context)
      → IsValid libs keys (go_on state next).context
  go_on-IsValid state next valid further = helper state.ending
    where
      helper :
          (ending : Ending)
          → IsValid libs keys (go_on (record state { ending = ending }) next).context
      helper Ending.finished = valid
      helper Ending.stopped = valid
      helper Ending.crashed = valid
      helper Ending.waiting = further state.context valid

  resume_loop-keeps :
      (rounds : List (World × Resumed)) (ctx : Context)
      → All IsRound rounds
      → IsValid libs keys ctx
      → IsValid libs keys (resume_loop rounds ctx).context
  unfolding resume_loop
  resume_loop-keeps [] ctx sound valid = valid
  resume_loop-keeps ((w, resumed) ∷ rounds) ctx (here, later) valid =
      go_on-IsValid (resume_step w resumed ctx) (resume_loop rounds)
        (resume_step-IsValid w resumed ctx here valid) (λ next. resume_loop-keeps rounds next later)

-- Whatever a program yields in whatever rounds, if the libraries stay the same and its strings
-- consist of bytes, the resume loop leaves a context, from the first one of `main` on, in which
-- the address is the one derived from the private key when a wallet is set, the keys, the address
-- and the fees have their lengths, the chain id and the gas limit fit a Lua integer, and the nonce
-- fits `uint64_t`.
pub resume_loop-IsValid :
    (libs : Libraries) (keys : KeyLibrary) (url : List ℕ) (rounds : List (World × Resumed))
    → All (IsRound libs keys) rounds
    → IsValid libs keys (resume_loop rounds (initial url)).context
resume_loop-IsValid libs keys url rounds sound =
    resume_loop-keeps libs keys rounds (initial url) sound
      (tt, refl, refl, refl, refl, omega arith, omega arith, omega arith)
