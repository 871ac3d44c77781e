-- ===== src/LuaAbi/Trees.antt =====
-- kernel/lua_abi.c: the shape of the containers and of the roots that are built.
use evmxt.Prelude.{
  codes, if-holds, ℕ, zero, suc, ◌+◌, ◌-◌, ◌≤◌, ◌≡◌, inl, inr, Bool, true, false, not, ◌&&◌, ◌||◌,
  List, [], ◌++◌, Option, none, some, arith, ltb, ltb→ge, ◌==◌, if◌then◌else◌, length, Bool-cases,
  Result, done, fail, bind,
}
use evmxt.Memory.{size_max}
use evmxt.Abi.{
  ListKind, AbiValue, AbiValues, abi_array, abi_tuple, abi_fixed_array, abi_fixed_array_dynamic,
  invalid, cons, abi_selector,
}
use evmxt.Abi.Spec.{IsShaped, AllShaped}
use evmxt.Lua.{
  LuaValue, boolean, integer, float, string, table, other, raw_get_index, lua_max_integer,
}
use evmxt.LuaAbi.{
  cannot_grow_stack, unknown_kind, path_too_long, Failure, LuaState, failed, arena_take,
  dense_count, dense_entries, integer_field, kind_address, kind_bool, kind_uint, kind_int,
  kind_fixed_bytes, kind_bytes, kind_string, kind_array, kind_fixed_array, kind_tuple,
}
use evmxt.LuaAbi.Scalars.{build_address, build_integer, build_bytes}
use evmxt.LuaAbi.Build.{
  argument_path, Pass, child_descriptor, path_step, path_capacity, is_tuple_kind,
  member_descriptors, Builder, build_children, children_of, container_value, check_members,
  build_members, build_container, built, build_bool, build_kind, with_kind, with_descriptor,
  build_value, argument_loop, build_arguments,
}
use evmxt.LuaAbi.Shapes.{OptionShaped, make_list_value-IsShaped}
use evmxt.LuaAbi.Values.{
  Gives, Gives-bind, Gives-if, Gives-done, Shaped, build_address-Shaped, sized_number-Shaped,
  build_bytes-Shaped, build_bool-Shaped,
}

abbrev pub ShapedPair : ℕ × AbiValue → Type 0
ShapedPair (used, value) = IsShaped value

abbrev pub ShapedPairs : ℕ × AbiValues → Type 0
ShapedPairs (used, values) = AllShaped values

built-Shaped : (used : ℕ) (m : Result Failure AbiValue) → Shaped m → Gives ShapedPair (built used m)
built-Shaped used (done value) h = h
built-Shaped used (fail e) h = tt

abbrev ShapedBuilder : Builder → Type 0
ShapedBuilder build =
    (descriptor value : LuaValue) (path : List ℕ) (used : ℕ)
    → Gives ShapedPair (build descriptor value path used)

build_children-Shaped :
    (build : Builder) (lua : LuaState) (tupled : Bool) (descriptors : LuaValue) (values n i : ℕ)
    (path : List ℕ) (used : ℕ)
    → ShapedBuilder build
    → Gives ShapedPairs (build_children build lua tupled descriptors values n i path used)
unfolding build_children
build_children-Shaped build lua tupled descriptors values zero i path used shaped = tt
build_children-Shaped build lua tupled descriptors values (suc n) i path used shaped =
    let child =
      build (child_descriptor lua tupled descriptors (i + 1))
        (raw_get_index lua.heap values (i + 1)) (path ++ path_step tupled (i + 1)) used in
    let others = build_children build lua tupled descriptors values n (i + 1) path in
    Gives-if ShapedPairs (ltb (path_capacity - length path) (length (path_step tupled (i + 1)) + 1))
      (failed path path_too_long) _ tt
      (Gives-bind ShapedPairs child
        (λ (used', value). bind (others used') λ (used'', rest). done (used'', cons value rest))
        λ (used', value) made.
          Gives-bind ShapedPairs (others used') (λ (used'', rest). done (used'', cons value rest))
            λ (used'', rest) more. (
              Gives-done ShapedPair child (shaped _ _ _ used) made,
              Gives-done ShapedPairs (others used')
                  (build_children-Shaped build lua tupled descriptors values n (i + 1) path used'
                    shaped)
                  more,
            ))

container_value-Shaped :
    (kind n : ℕ) (children : AbiValues) (element_dynamic : Bool)
    → n ≤ size_max
    → AllShaped children
    → IsShaped (container_value kind n children element_dynamic)
unfolding container_value abi_array abi_tuple abi_fixed_array abi_fixed_array_dynamic
container_value-Shaped kind n children element_dynamic small shaped =
    let members = children_of-Shaped n children shaped in
    if-holds IsShaped (kind == kind_array) _ _
      (make_list_value-IsShaped ListKind.array (children_of n children) n false small members)
      (if-holds IsShaped (kind == kind_tuple) _ _
        (make_list_value-IsShaped ListKind.tuple (children_of n children) n false small members)
        (if-holds IsShaped (n == 0 && element_dynamic) _ _
          (make_list_value-IsShaped ListKind.fixed_array none 0 true (omega arith) tt)
          (make_list_value-IsShaped ListKind.fixed_array (children_of n children) n false small
            members)))
  where
    children_of-Shaped : (m : ℕ) (vs : AbiValues) → AllShaped vs → OptionShaped (children_of m vs)
    children_of-Shaped zero vs h = tt
    children_of-Shaped (suc m) vs h = h

dense_entries-bounded :
    (path : List ℕ) (len : ℕ) (seen : Option ℕ)
    → len ≤ lua_max_integer
    → Gives (λ n. n ≤ lua_max_integer) (dense_entries path len seen)
unfolding dense_entries
dense_entries-bounded path len none h = tt
dense_entries-bounded path len (some seen) h =
    Gives-if (λ n. n ≤ lua_max_integer) (seen == len) (done len) _ h tt

dense_count-bounded :
    (lua : LuaState) (value : LuaValue) (path : List ℕ)
    → Gives (λ n. n ≤ lua_max_integer) (dense_count lua value path)
unfolding dense_count
dense_count-bounded lua (table t) path =
    let size = (lua.heap t).raw_length in
    elim (Bool-cases (ltb lua_max_integer size)) [
      | inl large ↦ rw large tt
      | inr fits ↦ rw fits (dense_entries-bounded path size _ (ltb→ge lua_max_integer size fits))
    ]
dense_count-bounded lua LuaValue.nil path = tt
dense_count-bounded lua (boolean b) path = tt
dense_count-bounded lua (integer n) path = tt
dense_count-bounded lua (float s) path = tt
dense_count-bounded lua (string s) path = tt
dense_count-bounded lua other path = tt

build_members-Shaped :
    (build : Builder) (p : Pass) (t values kind : ℕ) (path : List ℕ) (used n : ℕ)
    (element_dynamic : Bool)
    → n ≤ lua_max_integer
    → ShapedBuilder build
    → Gives ShapedPair (build_members build p t values kind path used n element_dynamic)
unfolding build_members
build_members-Shaped build p t values kind path used n element_dynamic small shaped =
    let children =
      build_children build p.lua (is_tuple_kind kind) (member_descriptors p.lua t kind) values n 0
        path in
    let value = λ (kids : AbiValues).
      if p.filling then container_value kind n kids element_dynamic else invalid in
    Gives-bind ShapedPair (arena_take p.capacity path used n)
      (λ used'. bind (children used') λ (used'', kids). done (used'', value kids))
      λ used' taken.
        Gives-bind ShapedPair (children used') (λ (used'', kids). done (used'', value kids))
          λ (used'', kids) made.
            let good =
              Gives-done ShapedPairs (children used')
                (build_children-Shaped build p.lua (is_tuple_kind kind)
                  (member_descriptors p.lua t kind) values n 0 path used' shaped)
                made in
            if-holds IsShaped p.filling (container_value kind n kids element_dynamic) invalid
              (container_value-Shaped kind n kids element_dynamic (omega arith) good) tt

build_container-Shaped :
    (build : Builder) (p : Pass) (t : ℕ) (value : LuaValue) (kind : ℕ) (path : List ℕ) (used : ℕ)
    → ShapedBuilder build
    → Gives ShapedPair (build_container build p t value kind path used)
unfolding build_container
build_container-Shaped build p t (table values) kind path used shaped =
    Gives-bind ShapedPair (dense_count p.lua (table values) path)
      (λ n.
        bind (check_members p.lua t kind path n) (build_members build p t values kind path used n))
      λ n counted.
        Gives-bind ShapedPair (check_members p.lua t kind path n)
          (build_members build p t values kind path used n)
          λ element_dynamic checked.
            build_members-Shaped build p t values kind path used n element_dynamic
              (Gives-done (λ m. m ≤ lua_max_integer) (dense_count p.lua (table values) path)
                (dense_count-bounded p.lua (table values) path) counted)
              shaped
build_container-Shaped build p t LuaValue.nil kind path used shaped = tt
build_container-Shaped build p t (boolean b) kind path used shaped = tt
build_container-Shaped build p t (integer n) kind path used shaped = tt
build_container-Shaped build p t (float s) kind path used shaped = tt
build_container-Shaped build p t (string s) kind path used shaped = tt
build_container-Shaped build p t other kind path used shaped = tt

build_kind-Shaped :
    (build : Builder) (p : Pass) (t : ℕ) (value : LuaValue) (kind : ℕ) (path : List ℕ) (used : ℕ)
    → ShapedBuilder build
    → Gives ShapedPair (build_kind build p t value kind path used)
unfolding build_kind build_integer
build_kind-Shaped build p t value kind path used shaped =
    let heap = p.lua.heap in
    Gives-if ShapedPair (kind == kind_bool) (built used (build_bool value path)) _
      (built-Shaped used (build_bool value path) (build_bool-Shaped value path))
      (Gives-if ShapedPair (kind == kind_address) (built used (build_address value path)) _
        (built-Shaped used (build_address value path) (build_address-Shaped value path))
        (Gives-if ShapedPair (kind == kind_uint || kind == kind_int)
          (built used (build_integer heap t value kind path)) _
          (built-Shaped used (build_integer heap t value kind path)
            (sized_number-Shaped kind (integer_field heap t (codes "bits")) value path))
          (Gives-if ShapedPair
            (kind == kind_fixed_bytes || kind == kind_bytes || kind == kind_string)
            (built used (build_bytes heap t value kind path)) _
            (built-Shaped used (build_bytes heap t value kind path)
              (build_bytes-Shaped heap t value kind path))
            (Gives-if ShapedPair
              (kind == kind_array || kind == kind_fixed_array || kind == kind_tuple)
              (build_container build p t value kind path used) (failed path unknown_kind)
              (build_container-Shaped build p t value kind path used shaped) tt))))

with_descriptor-Shaped :
    (build : Builder) (p : Pass) (descriptor value : LuaValue) (path : List ℕ) (used : ℕ)
    → ShapedBuilder build
    → Gives ShapedPair (with_descriptor build p descriptor value path used)
with_descriptor-Shaped build p (table t) value path used shaped =
    helper (integer_field p.lua.heap t (codes "kind"))
  where
    helper : (kind : Option ℕ) → Gives ShapedPair (with_kind build p t value kind path used)
    helper none = tt
    helper (some kind) = build_kind-Shaped build p t value kind path used shaped
with_descriptor-Shaped build p LuaValue.nil value path used shaped = tt
with_descriptor-Shaped build p (boolean b) value path used shaped = tt
with_descriptor-Shaped build p (integer n) value path used shaped = tt
with_descriptor-Shaped build p (float s) value path used shaped = tt
with_descriptor-Shaped build p (string s) value path used shaped = tt
with_descriptor-Shaped build p other value path used shaped = tt

build_value-Shaped : (levels : ℕ) (p : Pass) → ShapedBuilder (build_value levels p)
unfolding build_value
build_value-Shaped zero p descriptor value path used = tt
build_value-Shaped (suc levels) p descriptor value path used =
    Gives-if ShapedPair (not (p.lua.check_stack levels)) (failed path cannot_grow_stack)
      (with_descriptor (build_value levels p) p descriptor value path used) tt
      (with_descriptor-Shaped (build_value levels p) p descriptor value path used
        (build_value-Shaped levels p))

argument_loop-Shaped :
    (p : Pass) (params values n i used : ℕ)
    → Gives ShapedPairs (argument_loop p params values n i used)
unfolding argument_loop
argument_loop-Shaped p params values zero i used = tt
argument_loop-Shaped p params values (suc n) i used =
    let argument =
      build_value 64 p (raw_get_index p.lua.heap params (i + 1))
        (raw_get_index p.lua.heap values (i + 1)) (argument_path (i + 1)) used in
    let others = argument_loop p params values n (i + 1) in
    Gives-bind ShapedPairs argument
      (λ (used', value). bind (others used') λ (used'', rest). done (used'', cons value rest))
      λ (used', value) made.
        Gives-bind ShapedPairs (others used') (λ (used'', rest). done (used'', cons value rest))
          λ (used'', rest) more. (
            Gives-done ShapedPair argument (build_value-Shaped 64 p _ _ _ used) made,
            Gives-done ShapedPairs (others used')
                (argument_loop-Shaped p params values n (i + 1) used') more,
          )

-- With a selector of four bytes, the roots have the shape of the C types.
pub build_arguments-Shaped :
    (p : Pass) (params values count : ℕ) (sel : List ℕ)
    → length sel ≡ 4
    → Gives ShapedPairs (build_arguments p params values count sel)
unfolding build_arguments abi_selector
build_arguments-Shaped p params values count sel four =
    let arguments = argument_loop p params values count 0 in
    Gives-bind ShapedPairs (arena_take p.capacity [] 0 (count + 1))
      (λ used.
        bind (arguments used) λ (used', rest). done (used', cons (abi_selector (some sel)) rest))
      λ used taken.
        Gives-bind ShapedPairs (arguments used)
          (λ (used', rest). done (used', cons (abi_selector (some sel)) rest))
          λ (used', rest) made. (
            four,
            Gives-done ShapedPairs (arguments used)
                (argument_loop-Shaped p params values count 0 used) made,
          )
