-- ===== src/LuaAbi/Build.antt =====
-- kernel/lua_abi.c: `build_container`, `build_value` and `build_arguments`.
use evmxt.Prelude.{
  codes, ℕ, zero, suc, ◌+◌, ◌-◌, ◌/◌, ◌%◌, Bool, true, false, ◌&&◌, ◌||◌, not, List, [], ◌∷◌, ◌++◌,
  Option, none, some, ltb, ◌==◌, if◌then◌else◌, length, Result, done, bind,
}
use evmxt.Abi.{
  AbiValue, AbiValues, invalid, nil, cons, abi_bool, abi_array, abi_fixed_array,
  abi_fixed_array_dynamic, abi_tuple, abi_selector,
}
use evmxt.Lua.{LuaValue, boolean, table, is_negative, raw_get_text, raw_get_index}
use evmxt.LuaAbi.{
  cannot_grow_stack, tuple_mismatch, bad_element, bad_length, length_mismatch, path_too_long,
  too_deep, not_descriptor, not_dense, bad_kind, not_boolean, unknown_kind, Failure, LuaState,
  failed, integer_field, dynamic_field, dense_count, arena_take, kind_address, kind_bool, kind_uint,
  kind_int, kind_fixed_bytes, kind_bytes, kind_string, kind_array, kind_fixed_array, kind_tuple,
}
use evmxt.LuaAbi.Scalars.{build_address, build_integer, build_bytes}

-- "%zu" on fuel, which is the number itself.
unfoldable pub decimal_loop : ℕ → ℕ → List ℕ → List ℕ
decimal_loop zero n text = (b'0' + n % 10) ∷ text
decimal_loop (suc fuel) n text =
    let rest = decimal_loop fuel (n / 10) ((b'0' + n % 10) ∷ text) in
    if ltb n 10 then (b'0' + n) ∷ text else rest

unfoldable pub decimal : ℕ → List ℕ
decimal n = decimal_loop n n []

abbrev pub path_capacity : ℕ
path_capacity = 2048

-- ".tuple[%zu]" and "[%zu]"
unfoldable pub path_step : Bool → ℕ → List ℕ
unfolding decimal
path_step true i = (codes ".tuple[") ++ decimal i ++ (codes "]")
path_step false i = (codes "[") ++ decimal i ++ (codes "]")

-- "argument #%zu"
unfoldable pub argument_path : ℕ → List ℕ
unfolding decimal
argument_path i = (codes "argument #") ++ decimal i

-- What a pass knows throughout: the Lua state, the arena's capacity, and whether it has storage,
-- which is so in the second pass.
pub record Pass : Type 0 where
  pub lua : LuaState
  pub capacity : ℕ
  pub filling : Bool

-- `arena->used` with what is built.
abbrev pub Built {ℓ} : Type ℓ → Type ℓ
Built A = Result Failure (ℕ × A)

abbrev pub Builder : Type 0
Builder = LuaValue → LuaValue → List ℕ → ℕ → Built AbiValue

-- The descriptor of the member `i`: arrays reuse one, tuples have one for each.
abbrev pub child_descriptor : LuaState → Bool → LuaValue → ℕ → LuaValue
child_descriptor lua true (table t) i = raw_get_index lua.heap t i
child_descriptor lua true _ i = LuaValue.nil
child_descriptor lua false descriptor i = descriptor

-- The loop of `build_container` from the member `i + 1` on, of which `n` are left.
unfoldable pub build_children :
    Builder → LuaState → Bool → LuaValue → ℕ → ℕ → ℕ → List ℕ → ℕ → Built AbiValues
build_children build lua tupled descriptors values zero i path used = done (used, nil)
build_children build lua tupled descriptors values (suc n) i path used =
    if ltb (path_capacity - length path) (length (path_step tupled (i + 1)) + 1)
    then failed path path_too_long
    else bind
        (build (child_descriptor lua tupled descriptors (i + 1))
          (raw_get_index lua.heap values (i + 1)) (path ++ path_step tupled (i + 1)) used)
        λ (used', child).
          bind (build_children build lua tupled descriptors values n (i + 1) path used')
            λ (used'', children). done (used'', cons child children)

-- `*out`; `filling` is whether `out` is not NULL, and the children are NULL where there are none.
abbrev pub children_of : ℕ → AbiValues → Option AbiValues
children_of zero children = none
children_of (suc n) children = some children

unfoldable pub container_value : ℕ → ℕ → AbiValues → Bool → AbiValue
container_value kind count children element_dynamic =
    if kind == kind_array
    then abi_array (children_of count children) count
    else if kind == kind_tuple
    then abi_tuple (children_of count children) count
    else if count == 0 && element_dynamic
    then abi_fixed_array_dynamic none 0
    else abi_fixed_array (children_of count children) count

unfoldable pub tuple_descriptors : LuaState → LuaValue → List ℕ → ℕ → Result Failure Bool
tuple_descriptors lua components path count =
    bind (dense_count lua components path)
      λ component_count. if count == component_count then done false else failed path tuple_mismatch

abbrev pub fixed_length : Option ℕ → List ℕ → ℕ → Bool → Result Failure Bool
fixed_length none path count element_dynamic = failed path bad_length
fixed_length (some len) path count element_dynamic =
    if is_negative len
    then failed path bad_length
    else if len == count
    then done element_dynamic
    else failed path length_mismatch

abbrev pub element_flag : LuaState → ℕ → ℕ → List ℕ → ℕ → Option Bool → Result Failure Bool
element_flag lua t kind path count none = failed path bad_element
element_flag lua t kind path count (some element_dynamic) =
    if kind == kind_fixed_array
    then fixed_length (integer_field lua.heap t (codes "length")) path count element_dynamic
    else done element_dynamic

-- `t` is the descriptor of the array.
unfoldable pub element_descriptor : LuaState → ℕ → LuaValue → ℕ → List ℕ → ℕ → Result Failure Bool
element_descriptor lua t (table e) kind path count =
    element_flag lua t kind path count (dynamic_field lua.heap e)
element_descriptor lua t _ kind path count = failed path bad_element

abbrev pub is_tuple_kind : ℕ → Bool
is_tuple_kind kind = kind == kind_tuple

abbrev pub member_descriptors : LuaState → ℕ → ℕ → LuaValue
member_descriptors lua t kind =
    if is_tuple_kind kind
    then raw_get_text lua.heap t (codes "components")
    else raw_get_text lua.heap t (codes "element")

-- The checks of the descriptor against the count, and `element_dynamic`.
unfoldable pub check_members : LuaState → ℕ → ℕ → List ℕ → ℕ → Result Failure Bool
check_members lua t kind path count =
    if is_tuple_kind kind
    then tuple_descriptors lua (member_descriptors lua t kind) path count
    else element_descriptor lua t (member_descriptors lua t kind) kind path count

unfoldable pub build_members : Builder → Pass → ℕ → ℕ → ℕ → List ℕ → ℕ → ℕ → Bool → Built AbiValue
build_members build pass t values kind path used count element_dynamic =
    bind (arena_take pass.capacity path used count) λ used'.
      bind
        (build_children build pass.lua (is_tuple_kind kind) (member_descriptors pass.lua t kind)
          values count 0 path used')
        λ (used'', children). done (
          used'',
          if pass.filling then container_value kind count children element_dynamic else invalid,
        )

unfoldable pub build_container : Builder → Pass → ℕ → LuaValue → ℕ → List ℕ → ℕ → Built AbiValue
build_container build pass t (table values) kind path used =
    bind (dense_count pass.lua (table values) path) λ count.
      bind (check_members pass.lua t kind path count)
        λ element_dynamic. build_members build pass t values kind path used count element_dynamic
build_container build pass t value kind path used = failed path not_dense

abbrev pub built {ℓ} : {A : Type ℓ} → ℕ → Result Failure A → Built A
built used r = bind r λ value. done (used, value)

abbrev pub build_bool : LuaValue → List ℕ → Result Failure AbiValue
build_bool (boolean b) path = done (abi_bool (if b then 1 else 0))
build_bool _ path = failed path not_boolean

-- The `switch`; `t` is the descriptor.
unfoldable pub build_kind : Builder → Pass → ℕ → LuaValue → ℕ → List ℕ → ℕ → Built AbiValue
build_kind build pass t value kind path used =
    if kind == kind_bool
    then built used (build_bool value path)
    else if kind == kind_address
    then built used (build_address value path)
    else if kind == kind_uint || kind == kind_int
    then built used (build_integer pass.lua.heap t value kind path)
    else if kind == kind_fixed_bytes || kind == kind_bytes || kind == kind_string
    then built used (build_bytes pass.lua.heap t value kind path)
    else if kind == kind_array || kind == kind_fixed_array || kind == kind_tuple
    then build_container build pass t value kind path used
    else failed path unknown_kind

abbrev pub with_kind : Builder → Pass → ℕ → LuaValue → Option ℕ → List ℕ → ℕ → Built AbiValue
with_kind build pass t value none path used = failed path bad_kind
with_kind build pass t value (some kind) path used = build_kind build pass t value kind path used

abbrev pub with_descriptor : Builder → Pass → LuaValue → LuaValue → List ℕ → ℕ → Built AbiValue
with_descriptor build pass (table t) value path used =
    with_kind build pass t value (integer_field pass.lua.heap t (codes "kind")) path used
with_descriptor build pass _ value path used = failed path not_descriptor

-- The first argument is how many levels `ABI_MAX_DEPTH` leaves: 65 less `depth`.
unfoldable pub build_value : ℕ → Pass → Builder
build_value zero pass descriptor value path used = failed path too_deep
build_value (suc levels) pass descriptor value path used =
    if not (pass.lua.check_stack levels)
    then failed path cannot_grow_stack
    else with_descriptor (build_value levels pass) pass descriptor value path used

-- The loop of `build_arguments` from the argument `i + 1` on, of which `n` are left.
unfoldable pub argument_loop : Pass → ℕ → ℕ → ℕ → ℕ → ℕ → Built AbiValues
argument_loop pass params values zero i used = done (used, nil)
argument_loop pass params values (suc n) i used =
    bind
      (build_value 64 pass (raw_get_index pass.lua.heap params (i + 1))
        (raw_get_index pass.lua.heap values (i + 1)) (argument_path (i + 1)) used)
      λ (used', argument).
        bind (argument_loop pass params values n (i + 1) used')
          λ (used'', rest). done (used'', cons argument rest)

-- With the arguments behind the selector.
unfoldable pub build_arguments : Pass → ℕ → ℕ → ℕ → List ℕ → Built AbiValues
unfolding argument_loop
build_arguments pass params values count sel =
    bind (arena_take pass.capacity [] 0 (count + 1)) λ used.
      bind (argument_loop pass params values count 0 used)
        λ (used', arguments). done (used', cons (abi_selector (some sel)) arguments)
