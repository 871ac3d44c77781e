-- ===== src/LuaAbi/Examples.antt =====
-- kernel/lua_abi.c: the theorems at a call of one argument, an array of two numbers.
use evmxt.Prelude.{
  ◌⊎◌, arith, codes, ℕ, ◌≡◌, refl, true, false, some, List, [], ◌∷◌, ◌==◌, if◌then◌else◌, done,
}
use evmxt.Abi.{word, AbiValues, invalid, abi_selector}
use evmxt.Lua.{LuaValue, integer, string, table, boolean, Table, Heap, same_text}
use evmxt.LuaAbi.{LuaState, dense_count, arena_take}
use evmxt.Lua.{find_entry}
use evmxt.LuaAbi.Scalars.{build_integer, build_number}
use evmxt.LuaAbi.Build.{
  build_value, build_kind, build_container, check_members, element_descriptor, build_members,
  build_children, argument_path, decimal_loop, path_step,
}
use evmxt.LuaAbi.Build.{build_arguments}
use evmxt.LuaAbi.Encode.{first_pass, second_pass, Call, read_call, Memory, lua_abi_encode_call}
use evmxt.LuaAbi.{failed, exceeds_width}
use evmxt.LuaAbi.Scalars.{build_int}
use evmxt.BigEndian.{be_bytes}
use evmxt.LuaAbi.Signed.{twos_complement}
use evmxt.LuaAbi.Ranges.{InSignedRange, build_int_lem}
use evmxt.LuaAbi.Passes.{build_arguments-second_pass}
use evmxt.LuaAbi.Calls.{Encoded, lua_abi_encode_call-Encoded}

abbrev table_of : List (LuaValue × LuaValue) → ℕ → Table
table_of entries raw_length = record { entries = entries; raw_length = raw_length }

abbrev heap : Heap
heap t =
    if t == 0
    then table_of
        ((string (codes "selector"), string (codes "abcd"))
          ∷ (string (codes "params"), table 1)
          ∷ (string (codes "values"), table 2)
          ∷ [])
        0
    else if t == 1
    then table_of ((integer 1, table 3) ∷ []) 1
    else if t == 2
    then table_of ((integer 1, table 5) ∷ []) 1
    else if t == 3
    then table_of ((string (codes "kind"), integer 8) ∷ (string (codes "element"), table 4) ∷ []) 0
    else if t == 4
    then table_of
        ((string (codes "kind"), integer 3)
          ∷ (string (codes "bits"), integer 256)
          ∷ (string (codes "dynamic"), boolean false)
          ∷ [])
        0
    else table_of ((integer 1, integer 7) ∷ (integer 2, integer 9) ∷ []) 2

abbrev lua : LuaState
lua = record { heap = heap; check_stack = λ n. true }

abbrev call : Call
call = record { selector = codes "abcd"; params = 1; values = 2; count = 1 }

call_is_read : read_call lua (table 0) ≡ done call
unfolding read_call same_text dense_count find_entry
call_is_read = refl

abbrev counted : AbiValues
counted = AbiValues.cons (abi_selector (some (codes "abcd"))) (AbiValues.cons invalid AbiValues.nil)

call_is_counted :
    build_arguments (first_pass lua) call.params call.values call.count call.selector
    ≡ done (4, counted)
unfolding build_arguments arena_take build_value find_entry same_text dense_count build_kind
    build_container check_members element_descriptor build_members build_children argument_path
    decimal_loop path_step build_integer build_number
call_is_counted = refl

build_arguments-second_pass_example :
    (root : AbiValues) × (build_arguments
        (second_pass lua 4)
        call.params
        call.values
        call.count
        call.selector
      ≡ done (4, root))
build_arguments-second_pass_example =
    build_arguments-second_pass lua call.params call.values call.count call.selector 4 counted
      call_is_counted

abbrev memory : Memory
memory = record { descriptors = true; encoding = true }

lua_abi_encode_call-Encoded_example :
    (root : AbiValues) × (build_arguments
        (second_pass lua 4)
        call.params
        call.values
        call.count
        call.selector
      ≡ done (4, root))
    × Encoded memory root (lua_abi_encode_call memory lua (table 0))
lua_abi_encode_call-Encoded_example =
    lua_abi_encode_call-Encoded memory lua (table 0) call 4 counted refl call_is_read
      call_is_counted

build_int_lem_example :
    (InSignedRange 8 0xffff_ffff_ffff_ff80
      × (build_int 0xffff_ffff_ffff_ff80 8 []
          ≡ done (word (be_bytes 32 (twos_complement 0xffff_ffff_ffff_ff80)))))
    ⊎ ((¬ InSignedRange 8 0xffff_ffff_ffff_ff80)
        × (build_int 0xffff_ffff_ffff_ff80 8 [] ≡ failed [] exceeds_width))
build_int_lem_example = build_int_lem 0xffff_ffff_ffff_ff80 8 [] (omega arith)
