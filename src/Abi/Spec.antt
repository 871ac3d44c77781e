-- ===== src/Abi/Spec.antt =====
-- The ABI encoding as the Solidity specification states it: heads, then tails.
use evmxt.Prelude.{
  ℕ, ◌+◌, ◌-◌, ◌*◌, ◌/◌, Bool, true, false, ◌||◌, List, [], ◌++◌, ◌==◌, if◌then◌else◌, length, ◌≡◌,
  ◌≤◌,
}
use evmxt.BigEndian.{be_bytes}
use evmxt.Memory.{size_max, null_data, some_data}
use evmxt.Abi.{
  ListKind, array, fixed_array, tuple, AbiValue, AbiValues, invalid, selector, word, bytes,
  null_values, values, nil, cons, count, zeros,
}

-- Whether a list's type is dynamic, from its elements.
abbrev pub dynamic_list : ListKind → Bool → ℕ → Bool → Bool
dynamic_list array flag n any = true
dynamic_list fixed_array flag n any = if n == 0 then flag else any
dynamic_list tuple flag n any = any

-- Whether a value's type is dynamic.
unfoldable mutual
  pub dynamic : AbiValue → Bool
  dynamic (values kind flag vs) = dynamic_list kind flag (count vs) (any_dynamic vs)
  dynamic (null_values kind flag n) = dynamic_list kind flag 0 false
  dynamic (bytes span) = true
  dynamic (word w) = false
  dynamic (selector s) = false
  dynamic invalid = false

  pub any_dynamic : AbiValues → Bool
  any_dynamic nil = false
  any_dynamic (cons v vs) = dynamic v || any_dynamic vs

-- Bytes, padded to whole words.
unfoldable pub padded : List ℕ → List ℕ
padded bs = bs ++ zeros ((length bs + 31) / 32 * 32 - length bs)

abbrev pub list_prefix : ListKind → ℕ → List ℕ
list_prefix array n = be_bytes 32 n
list_prefix fixed_array n = []
list_prefix tuple n = []

unfoldable mutual
  pub encoding : AbiValue → List ℕ
  encoding (word w) = w
  encoding (bytes (some_data bs)) = be_bytes 32 (length bs) ++ padded bs
  encoding (bytes (null_data n)) = be_bytes 32 0
  encoding (values kind flag vs) =
      list_prefix kind (count vs) ++ (heads vs (head_length vs) ++ tails vs)
  encoding (null_values kind flag n) = list_prefix kind 0
  encoding (selector s) = []
  encoding invalid = []

  -- The part of the heads: a static value, or where the tail of a dynamic one starts.
  pub heads : AbiValues → ℕ → List ℕ
  heads nil offset = []
  heads (cons v vs) offset =
      (if dynamic v then be_bytes 32 offset else encoding v)
      ++ heads vs (if dynamic v then offset + length (encoding v) else offset)

  pub tails : AbiValues → List ℕ
  tails nil = []
  tails (cons v vs) = (if dynamic v then encoding v else []) ++ tails vs

  pub head_length : AbiValues → ℕ
  head_length nil = 0
  head_length (cons v vs) = (if dynamic v then 32 else length (encoding v)) + head_length vs

-- The elements of a sequence, encoded as a tuple.
abbrev pub sequence : AbiValues → List ℕ
sequence vs = heads vs (head_length vs) ++ tails vs

-- What the C types fix: words have 32 bytes, selectors 4, and a count is a `size_t`.
abbrev mutual
  pub IsShaped : AbiValue → Type 0
  IsShaped (word w) = length w ≡ 32
  IsShaped (selector s) = length s ≡ 4
  IsShaped (values kind flag vs) = (count vs ≤ size_max) × AllShaped vs
  IsShaped (null_values kind flag n) = Unit
  IsShaped (bytes span) = Unit
  IsShaped invalid = Unit

  pub AllShaped : AbiValues → Type 0
  AllShaped nil = Unit
  AllShaped (cons v vs) = IsShaped v × AllShaped vs
