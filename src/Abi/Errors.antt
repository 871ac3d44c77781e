-- ===== src/Abi/Errors.antt =====
-- kernel/abi.c: the statuses that the first pass can give.
use evmxt.Prelude.{ℕ, ◌+◌, ◌≡◌, ◌≢◌, Bool, true, arith, length, Result, done, fail, bind}
use evmxt.Memory.{null_data, some_data}
use evmxt.Abi.{
  AbiStatus, ok, invalid_argument, overflow, no_space, no_memory, depth_exceeded, AbiValue,
  AbiValues, invalid, selector, word, bytes, null_values, values, nil, cons, count, ListKind, array,
  fixed_array, tuple,
}
use evmxt.Abi.Inspect.{
  Layout, Sums, no_sums, add_sizes, add_child, finish_sequence, finish_list, inspect_bytes,
  inspect_value, inspect_children, is_tuple, inspect_sequence, Roots, null_roots, roots,
  inspect_values, inspect_root, root_arguments, root_selector_size,
}
use evmxt.Abi.Root.{root_layout}

-- The statuses that an inspection can give.
abbrev pub IsInspectError : AbiStatus → Type 0
IsInspectError invalid_argument = Unit
IsInspectError overflow = Unit
IsInspectError depth_exceeded = Unit
IsInspectError _ = ⊥

abbrev Errors {ℓ} : {A : Type ℓ} → Result AbiStatus A → Type ℓ
Errors r = (r ≢ fail ok) × (r ≢ fail no_space) × (r ≢ fail no_memory)

Errors-fail {ℓ} :
    {A : Type ℓ} (r : Result AbiStatus A) (e : AbiStatus) → Errors r → r ≡ fail e → IsInspectError e
Errors-fail r ok h eq = absurd (h.0 eq)
Errors-fail r no_space h eq = absurd (h.1 eq)
Errors-fail r no_memory h eq = absurd (h.2 eq)
Errors-fail r invalid_argument h eq = tt
Errors-fail r overflow h eq = tt
Errors-fail r depth_exceeded h eq = tt

abbrev failed {ℓ} : {A : Type ℓ} → AbiStatus → Result AbiStatus A
failed e = fail e

change {ℓ κ} :
    {A : Type ℓ} {B : Type κ} (e f : AbiStatus)
    → failed {A = A} e ≡ failed f
    → failed {A = B} e ≡ failed f
change e f h = cc h

Errors-bind {ℓ κ} :
    {A : Type ℓ} {B : Type κ} (r : Result AbiStatus A) (f : A → Result AbiStatus B)
    → Errors r
    → ((a : A) → Errors (f a))
    → Errors (bind r f)
Errors-bind (done a) f h k = k a
Errors-bind (fail e) f h k =
    (λ eq. h.0 (change e _ eq), λ eq. h.1 (change e _ eq), λ eq. h.2 (change e _ eq))

Errors-add_child : (tupled : Bool) (s : Sums) (child : Layout) → Errors (add_child tupled s child)
unfolding add_child add_sizes
Errors-add_child tupled s child = ground arith

Errors-finish_sequence : (s : Sums) → Errors (finish_sequence s)
unfolding finish_sequence add_sizes
Errors-finish_sequence s = ground arith

Errors-finish_list :
    (kind : ListKind) (flag : Bool) (n : ℕ) (l : Layout) → Errors (finish_list kind flag n l)
unfolding finish_list add_sizes
Errors-finish_list array flag n l = ground arith
Errors-finish_list fixed_array flag n l = ground arith
Errors-finish_list tuple flag n l = ground arith

Errors-inspect_bytes : (n : ℕ) → Errors (inspect_bytes n)
unfolding inspect_bytes add_sizes
Errors-inspect_bytes n = ground arith

mutual
  unfolding inspect_value

  Errors-inspect_value : (v : AbiValue) (depth : ℕ) → Errors (inspect_value v depth)
  Errors-inspect_value invalid depth = ground arith
  Errors-inspect_value (selector s) depth = ground arith
  Errors-inspect_value (word w) depth = ground arith
  Errors-inspect_value (bytes (null_data n)) depth = ground (arith, Errors-inspect_bytes 0)
  Errors-inspect_value (bytes (some_data bs)) depth =
      ground (arith, Errors-inspect_bytes (length bs))
  Errors-inspect_value (null_values kind flag n) depth =
      let empty =
        Errors-bind (finish_sequence no_sums) (finish_list kind flag 0)
          (Errors-finish_sequence no_sums) (Errors-finish_list kind flag 0) in
      ground (arith, empty)
  Errors-inspect_value (values kind flag vs) depth =
      let kids = inspect_children vs (depth + 1) (is_tuple kind) no_sums in
      let whole =
        Errors-bind (bind kids finish_sequence) (finish_list kind flag (count vs))
          (Errors-bind kids finish_sequence
            (Errors-inspect_children vs (depth + 1) (is_tuple kind) no_sums) Errors-finish_sequence)
          (Errors-finish_list kind flag (count vs)) in
      ground (arith, whole)

  Errors-inspect_children :
      (vs : AbiValues) (depth : ℕ) (tupled : Bool) (s : Sums)
      → Errors (inspect_children vs depth tupled s)
  Errors-inspect_children nil depth tupled s = ground arith
  Errors-inspect_children (cons v vs) depth tupled s =
      Errors-bind (bind (inspect_value v depth) (add_child tupled s)) _
        (Errors-bind (inspect_value v depth) (add_child tupled s) (Errors-inspect_value v depth)
          (Errors-add_child tupled s))
        (Errors-inspect_children vs depth tupled)

Errors-add_selector :
    (vs : AbiValues) (l : Layout)
    → Errors (
        bind
          (add_sizes l.encoded_size (root_selector_size vs))
          λ total. done (root_layout vs total))
unfolding add_sizes
Errors-add_selector vs l = ground arith

Errors-inspect_values : (vs : AbiValues) → Errors (inspect_values vs)
unfolding inspect_values inspect_sequence
Errors-inspect_values vs =
    let kids = inspect_children (root_arguments vs) 1 true no_sums in
    Errors-bind (bind kids finish_sequence) _
      (Errors-bind kids finish_sequence (Errors-inspect_children (root_arguments vs) 1 true no_sums)
        Errors-finish_sequence)
      (Errors-add_selector vs)

Errors-inspect_root : (vs : Roots) → Errors (inspect_root vs)
unfolding inspect_root
Errors-inspect_root (null_roots n) = ground (arith, Errors-inspect_values nil)
Errors-inspect_root (roots vs) = Errors-inspect_values vs

pub inspect_root-fails : (vs : Roots) {e : AbiStatus} → inspect_root vs ≡ fail e → IsInspectError e
inspect_root-fails vs {e} h = Errors-fail (inspect_root vs) e (Errors-inspect_root vs) h
