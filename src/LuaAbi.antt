-- ===== src/LuaAbi.antt =====
-- kernel/lua_abi.c and kernel/lua_abi.h: Lua values, checked against compiled descriptors and
-- turned into the descriptors of abi.c.
pub mod Scalars
pub mod Build
pub mod Encode
pub mod Follows
pub mod Passes
pub mod Shapes
pub mod Values
pub mod Trees
pub mod Calls
pub mod Signed
pub mod Ranges
mod Examples
use evmxt.Prelude.{
  codes, ℕ, zero, suc, ◌+◌, ◌-◌, ◌*◌, ◌/◌, ◌%◌, ◌^◌, Bool, true, false, ◌&&◌, ◌||◌, not, List, [],
  ◌∷◌, ◌++◌, Option, none, some, ltb, leb, ◌==◌, if◌then◌else◌, length, take, Result, done, fail,
  bind,
}
use evmxt.Lua.{
  LuaValue, nil, boolean, integer, float, string, table, other, lua_max_integer, is_negative, Table,
  Heap, raw_get_text,
}

-- The messages of `fail`, without their numbers.
pub data Reason : Type 0 where
  missing_state cannot_grow_stack expected_call bad_selector counts_differ no_storage : Reason
  not_dense too_large invalid_index sparse storage_overflow : Reason
  not_address not_hex wrong_width not_integer negative exceeds_width : Reason
  not_text bad_size wrong_length : Reason
  tuple_mismatch bad_element bad_length length_mismatch path_too_long : Reason
  too_deep not_descriptor bad_kind not_boolean unknown_kind encoding_failed : Reason
  out_of_bounds : Reason

-- `ctx->path` with what went wrong there.
pub record Failure : Type 0 where
  pub path : List ℕ
  pub reason : Reason

-- The state that is read, and whether `lua_checkstack` succeeds with so many levels left.
pub record LuaState : Type 0 where
  pub heap : Heap
  pub check_stack : ℕ → Bool

-- The protocol's kinds.
abbrev pub kind_address : ℕ
kind_address = 1

abbrev pub kind_bool : ℕ
kind_bool = 2

abbrev pub kind_uint : ℕ
kind_uint = 3

abbrev pub kind_int : ℕ
kind_int = 4

abbrev pub kind_fixed_bytes : ℕ
kind_fixed_bytes = 5

abbrev pub kind_bytes : ℕ
kind_bytes = 6

abbrev pub kind_string : ℕ
kind_string = 7

abbrev pub kind_array : ℕ
kind_array = 8

abbrev pub kind_fixed_array : ℕ
kind_fixed_array = 9

abbrev pub kind_tuple : ℕ
kind_tuple = 10

abbrev pub failed {ℓ} : {A : Type ℓ} → List ℕ → Reason → Result Failure A
failed path reason = fail (record { path = path; reason = reason })

-- Of a descriptor that is a table: the field, if it is an integer or a boolean.
abbrev pub as_integer : LuaValue → Option ℕ
as_integer (integer n) = some n
as_integer _ = none

abbrev pub as_boolean : LuaValue → Option Bool
as_boolean (boolean b) = some b
as_boolean _ = none

abbrev pub integer_field : Heap → ℕ → List ℕ → Option ℕ
integer_field heap t name = as_integer (raw_get_text heap t name)

abbrev pub dynamic_field : Heap → ℕ → Option Bool
dynamic_field heap t = as_boolean (raw_get_text heap t (codes "dynamic"))

-- `key < 1 || (lua_Unsigned)key > length`, or no integer.
abbrev pub is_index : ℕ → LuaValue → Bool
is_index len (integer key) = not (is_negative key || key == 0 || ltb len key)
is_index len _ = false

-- The loop over `lua_next`: `seen`, unless a key is no index.
unfoldable pub count_entries : ℕ → List (LuaValue × LuaValue) → ℕ → Option ℕ
count_entries len [] seen = some seen
count_entries len ((key, value) ∷ rest) seen =
    if is_index len key then count_entries len rest (seen + 1) else none

unfoldable pub dense_entries : List ℕ → ℕ → Option ℕ → Result Failure ℕ
dense_entries path len none = failed path invalid_index
dense_entries path len (some seen) = if seen == len then done len else failed path sparse

unfoldable pub dense_count : LuaState → LuaValue → List ℕ → Result Failure ℕ
unfolding count_entries dense_entries
dense_count lua (table t) path =
    if ltb lua_max_integer (lua.heap t).raw_length
    then failed path too_large
    else dense_entries path (lua.heap t).raw_length
        (count_entries (lua.heap t).raw_length (lua.heap t).entries 0)
dense_count lua _ path = failed path not_dense

-- `arena->used` afterwards.
unfoldable pub arena_take : ℕ → List ℕ → ℕ → ℕ → Result Failure ℕ
arena_take capacity path used count =
    if ltb (capacity - used) count then failed path storage_overflow else done (used + count)
