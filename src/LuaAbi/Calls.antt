-- ===== src/LuaAbi/Calls.antt =====
-- kernel/lua_abi.c: a checked call ends in the call data of its values, or in an error.
use evmxt.Prelude.{
  codes, ℕ, ◌≡◌, ◌≢◌, refl, sym, ap, ◌∙◌, subst, ◌⊎◌, inl, inr, true, false, List, [], none, some,
  arith, ◌==◌, ==_iff, length, Bool-cases, Result, done, fail, bind-eq-done,
}
use evmxt.Abi.{AbiStatus, AbiValues}
use evmxt.Abi
use evmxt.Abi.Inspect.{roots, inspect_root}
use evmxt.Abi.Encode.{AbiBuffer, empty_buffer, abi_encode_alloc}
use evmxt.Abi.Contract.{calldata}
use evmxt.Abi.Errors.{IsInspectError}
use evmxt.Abi.Promises.{abi_encode_alloc_contract}
use evmxt.Abi.Spec.{AllShaped}
use evmxt.Lua.{LuaValue, boolean, integer, float, string, table, other, raw_get_text}
use evmxt.LuaAbi.{Failure, LuaState, failed, no_storage, encoding_failed, dense_count}
use evmxt.LuaAbi.Build.{build_arguments}
use evmxt.LuaAbi.Encode.{
  first_pass, second_pass, Call, call_selector, as_table, read_call, Memory, encoded_call,
  encode_checked, lua_abi_encode_call,
}
use evmxt.LuaAbi.Passes.{build_arguments-second_pass}
use evmxt.LuaAbi.Values.{Gives-done}
use evmxt.LuaAbi.Trees.{ShapedPairs, build_arguments-Shaped}

call_selector-four :
    (value : LuaValue) {sel : List ℕ} → call_selector value ≡ done sel → length sel ≡ 4
call_selector-four (string text) {sel} h = elim (Bool-cases (length text == 4)) [
  | inl four ↦
      let same : done text ≡ done sel = rw four at h in
      let equal : text ≡ sel = cc same in
      omega (arith, (==_iff (length text) 4).0 four, ap length equal)
  | inr bad ↦ let no = rw bad at h in cc
]
call_selector-four LuaValue.nil h = cc
call_selector-four (boolean b) h = cc
call_selector-four (integer n) h = cc
call_selector-four (float s) h = cc
call_selector-four (table t) h = cc
call_selector-four other h = cc

read_call-four :
    (lua : LuaState) (value : LuaValue) {call : Call}
    → read_call lua value ≡ done call
    → length call.selector ≡ 4
unfolding read_call
read_call-four lua (table c) {call} h =
    let selected = raw_get_text lua.heap c (codes "selector") in
    let params = raw_get_text lua.heap c (codes "params") in
    let values = raw_get_text lua.heap c (codes "values") in
    let (sel, is_sel, rest) = bind-eq-done (call_selector selected) _ h in
    let (n, counted, rest₁) = bind-eq-done (dense_count lua params []) _ rest in
    let (m, counted', rest₂) = bind-eq-done (dense_count lua values []) _ rest₁ in
    elim (Bool-cases (n == m)) [
      | inr bad ↦ let no = rw bad at rest₂ in cc
      | inl same ↦
          let (p, is_p, rest₃) = bind-eq-done (as_table params) _ (rw same at rest₂) in
          let (v, is_v, last) = bind-eq-done (as_table values) _ rest₃ in
          let four = call_selector-four selected is_sel in
          omega (arith, four, ap length (selector_of last))
    ]
  where
    selector_of :
        {sel : List ℕ} {p v n : ℕ} {whole : Call}
        → ◌≡◌ {A = Result Failure Call}
            (done (record { selector = sel; params = p; values = v; count = n }))
            (done whole)
        → sel ≡ whole.selector
    selector_of e = ap (chosen []) e
      where
        chosen : List ℕ → Result Failure Call → List ℕ
        chosen other_one (done c) = c.selector
        chosen other_one (fail e) = other_one
read_call-four lua LuaValue.nil h = cc
read_call-four lua (boolean b) h = cc
read_call-four lua (integer n) h = cc
read_call-four lua (float s) h = cc
read_call-four lua (string s) h = cc
read_call-four lua other h = cc

-- A buffer with exactly these bytes.
abbrev pub Holds : AbiBuffer → List ℕ → Type 0
Holds buffer bytes =
    (buffer.len ≡ length bytes)
    × ((buffer.bytes ≡ some bytes) ⊎ ((buffer.bytes ≡ none) × (bytes ≡ [])))

-- How a call ends whose values were counted: in its call data, or out of memory, or because abi.c
-- refuses the values.
abbrev pub Encoded : Memory → AbiValues → Result Failure AbiBuffer → Type 0
Encoded memory root r =
    ((buffer : AbiBuffer) × (r ≡ done buffer) × Holds buffer (calldata root))
    ⊎ ((r ≡ failed [] no_storage) × (memory.descriptors ≡ false))
    ⊎ ((r ≡ failed [] encoding_failed)
        × ((memory.encoding ≡ false)
            ⊎ ((status : AbiStatus) × (inspect_root (roots root) ≡ fail status))))

refused_status :
    (status : AbiStatus) (result : AbiBuffer)
    → status ≢ Abi.ok
    → encoded_call (some (status, some result)) ≡ failed [] encoding_failed
refused_status Abi.ok result bad = absurd (bad refl)
refused_status Abi.invalid_argument result bad = refl
refused_status Abi.overflow result bad = refl
refused_status Abi.no_space result bad = refl
refused_status Abi.no_memory result bad = refl
refused_status Abi.depth_exceeded result bad = refl

error_not_ok : (status : AbiStatus) → IsInspectError status → status ≢ Abi.ok
error_not_ok status h e = rw e at h

encoded_call-Encoded :
    (memory : Memory) (root : AbiValues)
    → AllShaped root
    → Encoded memory root
        (encoded_call (abi_encode_alloc memory.encoding (roots root) (some empty_buffer)))
encoded_call-Encoded memory root shaped =
    let (status, result, called, ended) =
      abi_encode_alloc_contract memory.encoding (roots root) empty_buffer shaped in
    elim ended [
      | inl (is_ok, size, bytes) ↦ inl (
        result,
        ap encoded_call called ∙ ap (λ s. encoded_call (some (s, some result))) is_ok,
        (size, bytes),
      )
      | inr (empty, inl (full, no_room, some_there)) ↦
          inr (inr (ap encoded_call called ∙ refused_status status result (λ e. cc), inl no_room))
      | inr (empty, inr (error, bad)) ↦ inr (
          inr (
            ap encoded_call called ∙ refused_status status result (error_not_ok status error),
            inr (status, bad),
          ))
    ]

encode_checked-Encoded :
    (memory : Memory) (lua : LuaState) (call : Call) (used : ℕ) (counted : AbiValues)
    → length call.selector ≡ 4
    → build_arguments (first_pass lua) call.params call.values call.count call.selector
      ≡ done (used, counted)
    → (root : AbiValues) × (build_arguments
          (second_pass lua used)
          call.params
          call.values
          call.count
          call.selector
        ≡ done (used, root))
      × Encoded memory root (encode_checked memory lua call)
unfolding encode_checked
encode_checked-Encoded memory lua call used counted four first =
    let (root, second) =
      build_arguments-second_pass lua call.params call.values call.count call.selector used counted
        first in
    let shaped =
      Gives-done ShapedPairs
        (build_arguments (second_pass lua used) call.params call.values call.count call.selector)
        (build_arguments-Shaped (second_pass lua used) call.params call.values call.count
          call.selector four)
        second in
    (
      root,
      second,
      elim (Bool-cases memory.descriptors) [
        | inl room ↦
            let computed : encode_checked memory lua call
                ≡ encoded_call (abi_encode_alloc memory.encoding (roots root) (some empty_buffer)) =
              rw (first, room, second) refl in
            subst (Encoded memory root) (sym computed) (encoded_call-Encoded memory root shaped)
        | inr full ↦ inr (inl (rw (first, full) refl, full))
      ],
    )

-- When the Lua stack can grow, the call is read and the counting pass over its values succeeds,
-- the filling pass succeeds in exactly the storage that was counted, and `lua_abi_encode_call`
-- ends in the call data of the selector and the values that were built, or reports missing storage
-- when the descriptors cannot be allocated, or reports a failed encoding when the encoding cannot
-- be allocated or abi.c refuses the values. It never touches memory out of bounds.
pub lua_abi_encode_call-Encoded :
    (memory : Memory) (lua : LuaState) (value : LuaValue) (call : Call) (used : ℕ)
    (counted : AbiValues)
    → lua.check_stack 65 ≡ true
    → read_call lua value ≡ done call
    → build_arguments (first_pass lua) call.params call.values call.count call.selector
      ≡ done (used, counted)
    → (root : AbiValues) × (build_arguments
          (second_pass lua used)
          call.params
          call.values
          call.count
          call.selector
        ≡ done (used, root))
      × Encoded memory root (lua_abi_encode_call memory lua value)
unfolding lua_abi_encode_call
lua_abi_encode_call-Encoded memory lua value call used counted room read first =
    let (root, second, ended) =
      encode_checked-Encoded memory lua call used counted (read_call-four lua value read) first in
    (root, second, rw (room, read) ended)
