-- ===== src/Abi/Sizes.antt =====
-- kernel/abi.c: the size and the dynamic flag that the first pass reports are those of the encoding.
use evmxt.Prelude.{
  ℕ, ◌+◌, ◌-◌, ◌*◌, ◌/◌, ◌≤◌, ◌≡◌, refl, ap, ◌∙◌, Bool, true, false, ◌||◌, inl, inr, List, ◌++◌,
  arith, ltb, ltb→ge, Bool-cases, if◌then◌else◌, length, length-append_bytes, length-replicate,
  done, bind, bind-eq-done,
}
use evmxt.BigEndian.{be_bytes}
use evmxt.BigEndian.Laws.{length-be_bytes}
use evmxt.Memory.{size_max, null_data, some_data}
use evmxt.Abi.{
  ListKind, array, fixed_array, tuple, AbiValue, AbiValues, invalid, selector, word, bytes,
  null_values, values, nil, cons, count, abi_max_depth, zeros,
}
use evmxt.Abi.Inspect.{
  Layout, Sums, no_sums, add_sizes, add_child, finish_sequence, is_tuple, finish_list,
  inspect_bytes, inspect_value, inspect_children,
}
use evmxt.Abi.Spec.{
  dynamic, any_dynamic, dynamic_list, padded, list_prefix, encoding, heads, tails, head_length,
  sequence, IsShaped, AllShaped,
}

-- A sum that passed the overflow test is the sum.
pub add_sizes-done :
    (a b : ℕ) {n : ℕ}
    → a ≤ size_max
    → b ≤ size_max
    → add_sizes a b ≡ done n
    → (n ≡ a + b) × (n ≤ size_max)
unfolding add_sizes
add_sizes-done a b ha hb h = ground arith

pub length-padded : (bs : List ℕ) → length (padded bs) ≡ (length bs + 31) / 32 * 32
unfolding padded
length-padded bs = omega (
  arith,
  length-append_bytes bs (zeros ((length bs + 31) / 32 * 32 - length bs)),
  length-replicate {0} {A = ℕ} ((length bs + 31) / 32 * 32 - length bs) 0,
)

-- What a layout says of a value: its size and whether it is dynamic.
abbrev pub Describes : Layout → ℕ → Bool → Type 0
Describes l n d = (l.encoded_size ≡ n) × (l.is_dynamic ≡ d) × (n ≤ size_max)

pub inspect_bytes-Describes :
    (bs : List ℕ) {l : Layout}
    → inspect_bytes (length bs) ≡ done l
    → Describes l (length (be_bytes 32 (length bs) ++ padded bs)) true × (length bs ≤ size_max)
unfolding inspect_bytes add_sizes
inspect_bytes-Describes bs {l} h = ground (
  arith,
  length-append_bytes (be_bytes 32 (length bs)) (padded bs),
  length-be_bytes 32 (length bs),
  length-padded bs,
)

-- How the loop's variables grow over a list of values.
tail_length : AbiValues → ℕ
tail_length vs = length (tails vs)

abbrev Grows : Sums → Sums → AbiValues → Type 0
Grows s t vs =
    (t.head_size ≡ s.head_size + head_length vs)
    × (t.tail_size ≡ s.tail_size + length (tails vs))
    × (t.any_dynamic ≡ (s.any_dynamic || any_dynamic vs))
    × (t.head_size ≤ size_max)
    × (t.tail_size ≤ size_max)

pub add_child-done :
    (tupled : Bool) (s t : Sums) (child : Layout)
    → s.head_size ≤ size_max
    → s.tail_size ≤ size_max
    → child.encoded_size ≤ size_max
    → add_child tupled s child ≡ done t
    → (t.head_size ≡ s.head_size + (if child.is_dynamic then 32 else child.encoded_size))
      × (t.tail_size ≡ s.tail_size + (if child.is_dynamic then child.encoded_size else 0))
      × (t.any_dynamic ≡ (s.any_dynamic || child.is_dynamic))
      × (t.head_size ≤ size_max)
      × (t.tail_size ≤ size_max)
unfolding add_child add_sizes
add_child-done tupled s t child hh ht hc h = ground arith

pub length-heads : (vs : AbiValues) (offset : ℕ) → length (heads vs offset) ≡ head_length vs
unfolding encoding
length-heads nil offset = refl
length-heads (cons v vs) offset = elim (Bool-cases (dynamic v)) [
  | inl dyn ↦ rw dyn (
      omega (
        arith,
        length-append_bytes (be_bytes 32 offset) (heads vs (offset + length (encoding v))),
        length-be_bytes 32 offset,
        length-heads vs (offset + length (encoding v)),
      ))
  | inr static ↦
      rw static
        (omega (arith, length-append_bytes (encoding v) (heads vs offset), length-heads vs offset))
]

pub length-sequence : (vs : AbiValues) → length (sequence vs) ≡ head_length vs + length (tails vs)
length-sequence vs = omega (
  arith,
  length-append_bytes (heads vs (head_length vs)) (tails vs),
  length-heads vs (head_length vs),
)

pub finish_sequence-done :
    (s : Sums) {l : Layout}
    → s.head_size ≤ size_max
    → s.tail_size ≤ size_max
    → finish_sequence s ≡ done l
    → Describes l (s.head_size + s.tail_size) s.any_dynamic
unfolding finish_sequence add_sizes
finish_sequence-done s {l} hh ht h = ground arith

pub finish_list-done :
    (kind : ListKind) (flag : Bool) (n m : ℕ) (any : Bool) (l₀ l : Layout)
    → Describes l₀ m any
    → finish_list kind flag n l₀ ≡ done l
    → Describes l (length (list_prefix kind n) + m) (dynamic_list kind flag n any)
unfolding finish_list add_sizes
finish_list-done array flag n m any l₀ l d h = ground (arith, length-be_bytes 32 n)
finish_list-done fixed_array flag n m any l₀ l d h = ground arith
finish_list-done tuple flag n m any l₀ l d h = ground arith

-- The passes that a successful inspection of a list is made of.
pub inspect_value-values :
    (kind : ListKind) (flag : Bool) (vs : AbiValues) (depth : ℕ) {l : Layout}
    → inspect_value (values kind flag vs) depth ≡ done l
    → (t : Sums) × (l₀ : Layout) × (inspect_children vs (depth + 1) (is_tuple kind) no_sums
        ≡ done t)
      × (finish_sequence t ≡ done l₀)
      × (finish_list kind flag (count vs) l₀ ≡ done l)
      × (depth ≤ abi_max_depth)
unfolding inspect_value
inspect_value-values kind flag vs depth h = elim (Bool-cases (ltb abi_max_depth depth)) [
  | inl deep ↦ absurd (cc (rw deep at h))
  | inr shallow ↦
      let (l₀, first, listed) =
        bind-eq-done
          (bind (inspect_children vs (depth + 1) (is_tuple kind) no_sums) finish_sequence) _
          (rw shallow at h) in
      let (t, kids, finished) =
        bind-eq-done (inspect_children vs (depth + 1) (is_tuple kind) no_sums) _ first in
      (t, l₀, kids, finished, listed, ltb→ge _ _ shallow)
]

pub inspect_children-cons :
    (v : AbiValue) (vs : AbiValues) (depth : ℕ) (tupled : Bool) (s : Sums) {t : Sums}
    → inspect_children (cons v vs) depth tupled s ≡ done t
    → (child : Layout) × (s' : Sums) × (inspect_value v depth ≡ done child)
      × (add_child tupled s child ≡ done s')
      × (inspect_children vs depth tupled s' ≡ done t)
unfolding inspect_value
inspect_children-cons v vs depth tupled s h =
    let (s', both, rest) = bind-eq-done (bind (inspect_value v depth) (add_child tupled s)) _ h in
    let (child, first, added) = bind-eq-done (inspect_value v depth) _ both in
    (child, s', first, added, rest)

pub inspect_value-null_values :
    (kind : ListKind) (flag : Bool) (n depth : ℕ) {l : Layout}
    → inspect_value (null_values kind flag n) depth ≡ done l
    → Describes l (length (list_prefix kind 0)) (dynamic_list kind flag 0 false) × (n ≡ 0)
unfolding inspect_value finish_list finish_sequence add_sizes
inspect_value-null_values array flag n depth h = ground (arith, length-be_bytes 32 0)
inspect_value-null_values fixed_array flag n depth h = ground arith
inspect_value-null_values tuple flag n depth h = ground arith

inspect_value-null_bytes :
    (n depth : ℕ) {l : Layout}
    → inspect_value (bytes (null_data n)) depth ≡ done l
    → Describes l (length (be_bytes 32 0)) true
unfolding inspect_value inspect_bytes add_sizes
inspect_value-null_bytes n depth h = ground (arith, length-be_bytes 32 0)

pub inspect_value-null_empty :
    (n depth : ℕ) {l : Layout} → inspect_value (bytes (null_data n)) depth ≡ done l → n ≡ 0
unfolding inspect_value
inspect_value-null_empty n depth h = ground arith

pub inspect_value-bytes :
    (bs : List ℕ) (depth : ℕ) {l : Layout}
    → inspect_value (bytes (some_data bs)) depth ≡ done l
    → inspect_bytes (length bs) ≡ done l
unfolding inspect_value
inspect_value-bytes bs depth h = ground arith

-- The growth over a list, from that of its first value and of the others.
Grows-cons :
    (v : AbiValue) (vs : AbiValues) (s s' t : Sums) (child : Layout)
    → Describes child (length (encoding v)) (dynamic v)
    → (s'.head_size ≡ s.head_size + (if child.is_dynamic then 32 else child.encoded_size))
      × (s'.tail_size ≡ s.tail_size + (if child.is_dynamic then child.encoded_size else 0))
      × (s'.any_dynamic ≡ (s.any_dynamic || child.is_dynamic))
    → Grows s' t vs
    → Grows s t (cons v vs)
unfolding encoding dynamic
Grows-cons v vs s s' t child described added grown =
    ground (arith, length-append_bytes (encoding v) (tails vs))

mutual
  unfolding encoding dynamic inspect_value

  pub inspected :
      (v : AbiValue) (depth : ℕ) (l : Layout)
      → IsShaped v
      → inspect_value v depth ≡ done l
      → Describes l (length (encoding v)) (dynamic v)
  inspected invalid depth l shaped h = ground arith
  inspected (selector s) depth l shaped h = ground arith
  inspected (word w) depth l shaped h = ground arith
  inspected (bytes (null_data n)) depth l shaped h = inspect_value-null_bytes n depth h
  inspected (bytes (some_data bs)) depth l shaped h =
      (inspect_bytes-Describes bs (inspect_value-bytes bs depth h)).0
  inspected (null_values kind flag n) depth l shaped h =
      (inspect_value-null_values kind flag n depth h).0
  inspected (values kind flag vs) depth l shaped h =
      let (t, l₀, kids, finished, listed, shallow) = inspect_value-values kind flag vs depth h in
      let (heads_sum, tails_sum, any, hh, ht) =
        inspected_children vs (depth + 1) (is_tuple kind) no_sums t shaped.1 (omega arith)
          (omega arith) kids in
      let (size, dyn, small) =
        finish_list-done kind flag (count vs) (t.head_size + t.tail_size) t.any_dynamic l₀ l
          (finish_sequence-done t hh ht finished) listed in
      let total = length-append_bytes (list_prefix kind (count vs)) (sequence vs) in
      (
        omega (arith, total, length-sequence vs),
        dyn ∙ ap (dynamic_list kind flag (count vs)) any,
        omega (arith, total, length-sequence vs),
      )

  pub inspected_children :
      (vs : AbiValues) (depth : ℕ) (tupled : Bool) (s t : Sums)
      → AllShaped vs
      → s.head_size ≤ size_max
      → s.tail_size ≤ size_max
      → inspect_children vs depth tupled s ≡ done t
      → Grows s t vs
  inspected_children nil depth tupled s t shaped hh ht h = ground arith
  inspected_children (cons v vs) depth tupled s t (shaped, all_shaped) hh ht h =
      let (child, s', first, added, rest) = inspect_children-cons v vs depth tupled s h in
      let (size, dyn, small) = inspected v depth child shaped first in
      let (head', tail', any', hh', ht') =
        add_child-done tupled s s' child hh ht (omega arith) added in
      let grown = inspected_children vs depth tupled s' t all_shaped hh' ht' rest in
      Grows-cons v vs s s' t child (size, dyn, small) (head', tail', any') grown
