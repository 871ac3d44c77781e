-- ===== src/LuaAbi/Passes.antt =====
-- kernel/lua_abi.c: the second pass over the arguments repeats the first, in the storage that the
-- first one counted.
use evmxt.Prelude.{
  ℕ, zero, suc, ◌+◌, ◌≡◌, Bool, true, false, not, ◌||◌, List, [], Option, none, some, arith, ◌==◌,
  if◌then◌else◌, Result, done, bind,
}
use evmxt.Abi.{AbiValue, AbiValues, invalid, nil, cons, abi_selector}
use evmxt.Lua.{LuaValue, boolean, integer, float, string, table, other, raw_get_index}
use evmxt.LuaAbi.Scalars.{build_address, build_integer, build_bytes}
use evmxt.LuaAbi.{
  cannot_grow_stack, unknown_kind, kind_address, kind_bool, kind_uint, kind_int, kind_fixed_bytes,
  kind_bytes, kind_string, kind_array, kind_fixed_array, kind_tuple, Failure, LuaState, failed,
  dense_count,
}
use evmxt.LuaAbi.Build.{
  argument_path, Pass, Built, Builder, build_children, container_value, check_members,
  member_descriptors, is_tuple_kind, build_members, build_container, built, build_bool, build_kind,
  with_kind, with_descriptor, build_value, argument_loop, build_arguments,
}
use evmxt.LuaAbi.Encode.{unlimited, first_pass, second_pass}
use evmxt.LuaAbi.Follows.{
  Follows, Follows-fail, Follows-done, Follows-if, Follows-bind, Follows-then, Follows-arena,
  FollowsBuilder, children-Follows,
}

-- Two passes over one Lua state.
abbrev pass : LuaState → ℕ → Bool → Pass
pass lua capacity filling = record { lua = lua; capacity = capacity; filling = filling }

module _ (lua : LuaState) (limit capacity : ℕ) (counting filling : Bool) where
  abbrev first : Pass
  first = pass lua limit counting

  abbrev second : Pass
  second = pass lua capacity filling

  -- What `build_members` does behind the check of the storage.
  abbrev filled : Builder → Bool → ℕ → ℕ → ℕ → List ℕ → ℕ → Bool → ℕ → Built AbiValue
  filled build fill t values kind path count element_dynamic used =
      bind
        (build_children build lua (is_tuple_kind kind) (member_descriptors lua t kind) values count
          0 path used)
        λ (u, kids).
          done (u, if fill then container_value kind count kids element_dynamic else invalid)

  members-Follows :
      (build build' : Builder) (t values kind : ℕ) (path : List ℕ) (used count : ℕ)
      (element_dynamic : Bool)
      → FollowsBuilder capacity build build'
      → Follows capacity used
          (build_members build first t values kind path used count element_dynamic)
          (build_members build' second t values kind path used count element_dynamic)
  unfolding build_members
  members-Follows build build' t values kind path used count element_dynamic follows =
      Follows-arena capacity limit used count path
        (filled build counting t values kind path count element_dynamic)
        (filled build' filling t values kind path count element_dynamic)
        (Follows-then capacity (used + count) _ _
          (λ (u, kids).
            done (u, if counting then container_value kind count kids element_dynamic else invalid))
          (λ (u, kids).
            done (u, if filling then container_value kind count kids element_dynamic else invalid))
          (children-Follows capacity build build' lua (is_tuple_kind kind)
            (member_descriptors lua t kind) values count 0 path (used + count) follows)
          λ u kids kids'.
            Follows-done capacity u
              (if counting then container_value kind count kids element_dynamic else invalid)
              (if filling then container_value kind count kids' element_dynamic else invalid))

  container-Follows :
      (build build' : Builder) (t : ℕ) (value : LuaValue) (kind : ℕ) (path : List ℕ) (used : ℕ)
      → FollowsBuilder capacity build build'
      → Follows capacity used
          (build_container build first t value kind path used)
          (build_container build' second t value kind path used)
  unfolding build_container
  container-Follows build build' t (table values) kind path used follows =
      Follows-bind capacity used (dense_count lua (table values) path)
        (λ count.
          bind (check_members lua t kind path count)
            (build_members build first t values kind path used count))
        (λ count.
          bind (check_members lua t kind path count)
            (build_members build' second t values kind path used count))
        λ count.
          Follows-bind capacity used (check_members lua t kind path count)
            (build_members build first t values kind path used count)
            (build_members build' second t values kind path used count)
            λ element_dynamic.
              members-Follows build build' t values kind path used count element_dynamic follows
  container-Follows build build' t LuaValue.nil kind path used follows =
      Follows-fail capacity used _ _
  container-Follows build build' t (boolean b) kind path used follows =
      Follows-fail capacity used _ _
  container-Follows build build' t (integer n) kind path used follows =
      Follows-fail capacity used _ _
  container-Follows build build' t (float s) kind path used follows = Follows-fail capacity used _ _
  container-Follows build build' t (string s) kind path used follows =
      Follows-fail capacity used _ _
  container-Follows build build' t other kind path used follows = Follows-fail capacity used _ _

  built-Follows :
      (used : ℕ) (m : Result Failure AbiValue) → Follows capacity used (built used m) (built used m)
  built-Follows used m = Follows-bind capacity used m _ _ λ a. Follows-done capacity used a a

  kind-Follows :
      (build build' : Builder) (t : ℕ) (value : LuaValue) (kind : ℕ) (path : List ℕ) (used : ℕ)
      → FollowsBuilder capacity build build'
      → Follows capacity used
          (build_kind build first t value kind path used)
          (build_kind build' second t value kind path used)
  unfolding build_kind
  kind-Follows build build' t value kind path used follows =
      Follows-if capacity (kind == kind_bool) used _ _ _ _
        (built-Follows used (build_bool value path))
        (Follows-if capacity (kind == kind_address) used _ _ _ _
          (built-Follows used (build_address value path))
          (Follows-if capacity (kind == kind_uint || kind == kind_int) used _ _ _ _
            (built-Follows used (build_integer lua.heap t value kind path))
            (Follows-if capacity
              (kind == kind_fixed_bytes || kind == kind_bytes || kind == kind_string) used _ _ _ _
              (built-Follows used (build_bytes lua.heap t value kind path))
              (Follows-if capacity
                (kind == kind_array || kind == kind_fixed_array || kind == kind_tuple) used _
                (failed path unknown_kind) _ (failed path unknown_kind)
                (container-Follows build build' t value kind path used follows)
                (Follows-fail capacity used _ _)))))

  with_kind-Follows :
      (build build' : Builder) (t : ℕ) (value : LuaValue) (kind : Option ℕ) (path : List ℕ)
      (used : ℕ)
      → FollowsBuilder capacity build build'
      → Follows capacity used
          (with_kind build first t value kind path used)
          (with_kind build' second t value kind path used)
  with_kind-Follows build build' t value none path used follows = Follows-fail capacity used _ _
  with_kind-Follows build build' t value (some kind) path used follows =
      kind-Follows build build' t value kind path used follows

  with_descriptor-Follows :
      (build build' : Builder) (descriptor value : LuaValue) (path : List ℕ) (used : ℕ)
      → FollowsBuilder capacity build build'
      → Follows capacity used
          (with_descriptor build first descriptor value path used)
          (with_descriptor build' second descriptor value path used)
  with_descriptor-Follows build build' (table t) value path used follows =
      with_kind-Follows build build' t value _ path used follows
  with_descriptor-Follows build build' LuaValue.nil value path used follows =
      Follows-fail capacity used _ _
  with_descriptor-Follows build build' (boolean b) value path used follows =
      Follows-fail capacity used _ _
  with_descriptor-Follows build build' (integer n) value path used follows =
      Follows-fail capacity used _ _
  with_descriptor-Follows build build' (float s) value path used follows =
      Follows-fail capacity used _ _
  with_descriptor-Follows build build' (string s) value path used follows =
      Follows-fail capacity used _ _
  with_descriptor-Follows build build' other value path used follows =
      Follows-fail capacity used _ _

  build_value-Follows :
      (levels : ℕ) → FollowsBuilder capacity (build_value levels first) (build_value levels second)
  unfolding build_value
  build_value-Follows zero descriptor value path used = Follows-fail capacity used _ _
  build_value-Follows (suc levels) descriptor value path used =
      Follows-if capacity (not (lua.check_stack levels)) used (failed path cannot_grow_stack) _
        (failed path cannot_grow_stack) _ (Follows-fail capacity used _ _)
        (with_descriptor-Follows (build_value levels first) (build_value levels second) descriptor
          value path used (build_value-Follows levels))

  -- What the loop does behind an argument.
  abbrev later_arguments : Pass → ℕ → ℕ → ℕ → ℕ → ℕ × AbiValue → Built AbiValues
  later_arguments p params values n i (used, argument) =
      bind (argument_loop p params values n (i + 1) used)
        λ (used', rest). done (used', cons argument rest)

  arguments-Follows :
      (params values n i used : ℕ)
      → Follows capacity used
          (argument_loop first params values n i used)
          (argument_loop second params values n i used)
  unfolding argument_loop
  arguments-Follows params values zero i used = Follows-done capacity used nil nil
  arguments-Follows params values (suc n) i used =
      let descriptor = raw_get_index lua.heap params (i + 1) in
      let value = raw_get_index lua.heap values (i + 1) in
      let path = argument_path (i + 1) in
      Follows-then capacity used (build_value 64 first descriptor value path used)
        (build_value 64 second descriptor value path used) (later_arguments first params values n i)
        (later_arguments second params values n i)
        (build_value-Follows 64 descriptor value path used)
        λ u argument argument'.
          Follows-then capacity u (argument_loop first params values n (i + 1) u)
            (argument_loop second params values n (i + 1) u)
            (λ (u', rest). done (u', cons argument rest))
            (λ (u', rest). done (u', cons argument' rest))
            (arguments-Follows params values n (i + 1) u)
            λ u' rest rest'. Follows-done capacity u' (cons argument rest) (cons argument' rest')

  abbrev behind_selector : Pass → ℕ → ℕ → ℕ → List ℕ → ℕ → Built AbiValues
  behind_selector p params values count sel used =
      bind (argument_loop p params values count 0 used)
        λ (used', arguments). done (used', cons (abi_selector (some sel)) arguments)

  build_arguments-Follows :
      (params values count : ℕ) (sel : List ℕ)
      → Follows capacity 0
          (build_arguments first params values count sel)
          (build_arguments second params values count sel)
  unfolding build_arguments
  build_arguments-Follows params values count sel =
      Follows-arena capacity limit 0 (count + 1) [] (behind_selector first params values count sel)
        (behind_selector second params values count sel)
        (Follows-then capacity (0 + (count + 1))
          (argument_loop first params values count 0 (0 + (count + 1)))
          (argument_loop second params values count 0 (0 + (count + 1)))
          (λ (u, arguments). done (u, cons (abi_selector (some sel)) arguments))
          (λ (u, arguments). done (u, cons (abi_selector (some sel)) arguments))
          (arguments-Follows params values count 0 (0 + (count + 1)))
          λ u arguments arguments'.
            Follows-done capacity u (cons (abi_selector (some sel)) arguments)
              (cons (abi_selector (some sel)) arguments'))

-- When the counting pass over the arguments succeeds, the filling pass over the same Lua state
-- succeeds in a storage of exactly the size counted, and uses all of it.
pub build_arguments-second_pass :
    (lua : LuaState) (params values count : ℕ) (sel : List ℕ) (used : ℕ) (counted : AbiValues)
    → build_arguments (first_pass lua) params values count sel ≡ done (used, counted)
    → (root : AbiValues) × (build_arguments (second_pass lua used) params values count sel
        ≡ done (used, root))
build_arguments-second_pass lua params values count sel used counted h =
    let follows = build_arguments-Follows lua unlimited used false true params values count sel in
    (follows used counted h).1 (omega arith)
