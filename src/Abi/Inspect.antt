-- ===== src/Abi/Inspect.antt =====
-- kernel/abi.c: the first pass, which validates a tree of values and adds up its size.
use evmxt.Prelude.{
  ℕ, ◌+◌, ◌-◌, ◌*◌, ◌/◌, ◌%◌, Bool, true, false, ◌&&◌, ◌||◌, not, List, Option, none, some, ltb,
  ◌==◌, if◌then◌else◌, length, Result, done, fail, bind,
}
use evmxt.Memory.{size_max, null_data, some_data}
use evmxt.Abi.{
  AbiStatus, invalid_argument, overflow, depth_exceeded, ListKind, array, fixed_array, tuple,
  AbiValue, AbiValues, invalid, selector, word, bytes, null_values, values, nil, cons, count,
  abi_max_depth,
}

pub record Layout : Type 0 where
  pub encoded_size : ℕ
  pub is_dynamic : Bool

abbrev pub size_modulus : ℕ
size_modulus = 0x1_0000_0000_0000_0000

-- The sum as it wraps, and whether it did.
unfoldable pub size_add_overflows : ℕ → ℕ → Bool × ℕ
size_add_overflows left right = let sum = (left + right) % size_modulus in (ltb sum left, sum)

-- `if (size_add_overflows(left, right, &sum)) return ABI_OVERFLOW;`
unfoldable pub add_sizes : ℕ → ℕ → Result AbiStatus ℕ
unfolding size_add_overflows
add_sizes left right =
    let (overflows, sum) = size_add_overflows left right in
    if overflows then fail overflow else done sum

-- The variables of the loop; `previous` is whether the element before was dynamic, if there was one.
pub record Sums : Type 0 where
  pub head_size : ℕ
  pub tail_size : ℕ
  pub any_dynamic : Bool
  pub previous : Option Bool

abbrev pub no_sums : Sums
no_sums = record { head_size = 0; tail_size = 0; any_dynamic = false; previous = none }

abbrev pub differs : Option Bool → Bool → Bool
differs none b = false
differs (some true) b = not b
differs (some false) b = b

-- One round, after the child's own inspection.
unfoldable pub add_child : Bool → Sums → Layout → Result AbiStatus Sums
unfolding add_sizes
add_child is_tuple s child =
    if not is_tuple && differs s.previous child.is_dynamic
    then fail invalid_argument
    else bind (add_sizes s.head_size (if child.is_dynamic then 32 else child.encoded_size)) λ heads.
      bind (if child.is_dynamic then add_sizes s.tail_size child.encoded_size else done s.tail_size)
        λ tails. done (record {
          head_size = heads;
          tail_size = tails;
          any_dynamic = s.any_dynamic || child.is_dynamic;
          previous = some child.is_dynamic;
        })

unfoldable pub finish_sequence : Sums → Result AbiStatus Layout
unfolding add_sizes
finish_sequence s =
    bind (add_sizes s.head_size s.tail_size)
      λ size. done (record { encoded_size = size; is_dynamic = s.any_dynamic })

abbrev pub is_tuple : ListKind → Bool
is_tuple array = false
is_tuple fixed_array = false
is_tuple tuple = true

-- What a list adds to the layout of its elements.
unfoldable pub finish_list : ListKind → Bool → ℕ → Layout → Result AbiStatus Layout
unfolding add_sizes
finish_list array flag n l =
    bind (add_sizes l.encoded_size 32)
      λ size. done (record { encoded_size = size; is_dynamic = true })
finish_list fixed_array flag n l =
    if n == 0
    then done (record { encoded_size = l.encoded_size; is_dynamic = flag })
    else if flag && not l.is_dynamic
    then fail invalid_argument
    else done l
finish_list tuple flag n l = done l

unfoldable pub inspect_bytes : ℕ → Result AbiStatus Layout
unfolding add_sizes
inspect_bytes len =
    if ltb (size_max - 31) len
    then fail overflow
    else bind (add_sizes ((len + 31) / 32 * 32) 32)
        λ size. done (record { encoded_size = size; is_dynamic = true })

unfoldable mutual
  pub inspect_value : AbiValue → ℕ → Result AbiStatus Layout
  inspect_value invalid depth =
      if ltb abi_max_depth depth then fail depth_exceeded else fail invalid_argument
  inspect_value (selector s) depth =
      if ltb abi_max_depth depth then fail depth_exceeded else fail invalid_argument
  inspect_value (word w) depth =
      if ltb abi_max_depth depth
      then fail depth_exceeded
      else done (record { encoded_size = 32; is_dynamic = false })
  inspect_value (bytes (null_data len)) depth =
      if ltb abi_max_depth depth
      then fail depth_exceeded
      else if len == 0
      then inspect_bytes 0
      else fail invalid_argument
  inspect_value (bytes (some_data bs)) depth =
      if ltb abi_max_depth depth then fail depth_exceeded else inspect_bytes (length bs)
  inspect_value (null_values kind flag n) depth =
      if ltb abi_max_depth depth
      then fail depth_exceeded
      else if n == 0
      then bind (finish_sequence no_sums) (finish_list kind flag 0)
      else fail invalid_argument
  inspect_value (values kind flag vs) depth =
      if ltb abi_max_depth depth
      then fail depth_exceeded
      else bind (bind (inspect_children vs (depth + 1) (is_tuple kind) no_sums) finish_sequence)
          (finish_list kind flag (count vs))

  -- The loop of `inspect_sequence`; the depth is that of the children.
  pub inspect_children : AbiValues → ℕ → Bool → Sums → Result AbiStatus Sums
  inspect_children nil depth tupled s = done s
  inspect_children (cons v vs) depth tupled s =
      bind (bind (inspect_value v depth) (add_child tupled s)) (inspect_children vs depth tupled)

unfoldable pub inspect_sequence : AbiValues → ℕ → Bool → Result AbiStatus Layout
unfolding inspect_value finish_sequence
inspect_sequence vs depth tupled =
    bind (inspect_children vs (depth + 1) tupled no_sums) finish_sequence

pub record RootLayout : Type 0 where
  pub arguments : AbiValues
  pub selector_size : ℕ
  pub total_size : ℕ

-- A selector may stand in front of the arguments.
abbrev pub root_selector : AbiValues → List ℕ
root_selector (cons (selector s) vs) = s
root_selector _ = List.[]

abbrev pub root_arguments : AbiValues → AbiValues
root_arguments (cons (selector s) vs) = vs
root_arguments vs = vs

abbrev pub root_selector_size : AbiValues → ℕ
root_selector_size (cons (selector s) vs) = 4
root_selector_size _ = 0

-- The array that a call passes: NULL with a count, or as many values as it counts.
pub data Roots : Type 0 where
  null_roots : ℕ → Roots
  roots : AbiValues → Roots

unfoldable pub inspect_values : AbiValues → Result AbiStatus RootLayout
unfolding add_sizes
inspect_values vs = bind (inspect_sequence (root_arguments vs) 0 true) λ layout.
    bind (add_sizes layout.encoded_size (root_selector_size vs)) λ total. done (record {
      arguments = root_arguments vs;
      selector_size = root_selector_size vs;
      total_size = total;
    })

unfoldable pub inspect_root : Roots → Result AbiStatus RootLayout
unfolding inspect_values
inspect_root (null_roots n) = if n == 0 then inspect_values nil else fail invalid_argument
inspect_root (roots vs) = inspect_values vs
