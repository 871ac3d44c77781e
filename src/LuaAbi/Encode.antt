-- ===== src/LuaAbi/Encode.antt =====
-- kernel/lua_abi.c: `lua_abi_encode_call`, with both of its passes.
use evmxt.Prelude.{
  codes, ℕ, ◌/◌, Bool, true, false, not, List, [], Option, none, some, ◌==◌, if◌then◌else◌, length,
  Result, done, bind,
}
use evmxt.Memory.{size_max}
use evmxt.Abi.{
  AbiStatus, AbiValue, AbiValues, invalid, selector, nil, cons, abi_bool, abi_array,
  abi_fixed_array, abi_fixed_array_dynamic, abi_tuple, abi_selector,
}
use evmxt.Abi
use evmxt.Abi.Inspect.{roots}
use evmxt.Abi.Encode.{AbiBuffer, empty_buffer, abi_encode_alloc}
use evmxt.Lua.{LuaValue, string, table, raw_get_text}
use evmxt.LuaAbi.{
  cannot_grow_stack, expected_call, bad_selector, counts_differ, no_storage, not_dense,
  encoding_failed, out_of_bounds, Failure, LuaState, failed, dense_count,
}
use evmxt.LuaAbi.Build.{Pass, build_arguments}

-- `SIZE_MAX / sizeof(abi_value)`: 40 bytes.
abbrev pub unlimited : ℕ
unlimited = size_max / 40

abbrev pub first_pass : LuaState → Pass
first_pass lua = record { lua = lua; capacity = unlimited; filling = false }

abbrev pub second_pass : LuaState → ℕ → Pass
second_pass lua used = record { lua = lua; capacity = used; filling = true }

-- The tables of a checked call.
pub record Call : Type 0 where
  pub selector : List ℕ
  pub params : ℕ
  pub values : ℕ
  pub count : ℕ

abbrev pub call_selector : LuaValue → Result Failure (List ℕ)
call_selector (string sel) = if length sel == 4 then done sel else failed [] bad_selector
call_selector _ = failed [] bad_selector

abbrev pub as_table : LuaValue → Result Failure ℕ
as_table (table t) = done t
as_table _ = failed [] not_dense

unfoldable pub read_call : LuaState → LuaValue → Result Failure Call
read_call lua (table c) = bind (call_selector (raw_get_text lua.heap c (codes "selector"))) λ sel.
    let params = raw_get_text lua.heap c (codes "params") in
    let values = raw_get_text lua.heap c (codes "values") in
    bind (dense_count lua params []) λ param_count. bind (dense_count lua values []) λ value_count.
      if param_count == value_count
      then (bind (as_table params) λ p.
          bind (as_table values)
            λ v. done (record { selector = sel; params = p; values = v; count = param_count }))
      else failed [] counts_differ
read_call lua _ = failed [] expected_call

-- Whether `malloc` of the descriptors and `calloc` of the encoding succeed.
pub record Memory : Type 0 where
  pub descriptors : Bool
  pub encoding : Bool

abbrev pub encoded_call : Option (AbiStatus × Option AbiBuffer) → Result Failure AbiBuffer
encoded_call (some (Abi.ok, some buffer)) = done buffer
encoded_call (some (status, out)) = failed [] encoding_failed
encoded_call none = failed [] out_of_bounds

-- Both passes over a checked call, and the encoding.
unfoldable pub encode_checked : Memory → LuaState → Call → Result Failure AbiBuffer
encode_checked memory lua call =
    bind (build_arguments (first_pass lua) call.params call.values call.count call.selector)
      λ (used, counted).
        if not memory.descriptors
        then failed [] no_storage
        else bind
            (build_arguments (second_pass lua used) call.params call.values call.count
              call.selector)
            λ (used', root).
              encoded_call (abi_encode_alloc memory.encoding (roots root) (some empty_buffer))

-- For an output and a Lua state that are not NULL; on a failure the output is empty.
unfoldable pub lua_abi_encode_call : Memory → LuaState → LuaValue → Result Failure AbiBuffer
unfolding encode_checked read_call
lua_abi_encode_call memory lua call =
    if not (lua.check_stack 65)
    then failed [] cannot_grow_stack
    else bind (read_call lua call) (encode_checked memory lua)
