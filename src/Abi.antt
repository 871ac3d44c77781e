-- ===== src/Abi.antt =====
-- kernel/abi.c and kernel/abi.h: the descriptors of ABI values and their constructors.
pub mod Inspect
pub mod Write
pub mod Spec
pub mod Words
pub mod Sizes
pub mod Writes
pub mod Encode
pub mod Contract
pub mod Root
pub mod Errors
pub mod Scalars
pub mod Promises
mod Examples
use evmxt.Prelude.{
  ℕ, zero, suc, ◌+◌, ◌-◌, ◌*◌, ◌/◌, ◌%◌, ◌^◌, Bool, true, false, ◌&&◌, ◌||◌, not, List, [], ◌∷◌,
  ◌++◌, Option, none, some, ltb, leb, ◌==◌, if◌then◌else◌, length, replicate,
}
use evmxt.Memory.{size_max, Span, null_data, some_data, span_length, splice}

abbrev pub abi_max_depth : ℕ
abi_max_depth = 64

pub data AbiStatus : Type 0 where
  ok invalid_argument overflow no_space no_memory depth_exceeded : AbiStatus

-- The kinds that hold a list of values.
pub data ListKind : Type 0 where
  array fixed_array tuple : ListKind

-- The kind with its union; `invalid` is any kind that is none of the others. The flag of a list is
-- `ABI_F_DYNAMIC_ELEMENT`. A list that is not NULL points to as many values as it counts.
mutual
  pub data AbiValue : Type 0 where
    invalid : AbiValue
    selector : List ℕ → AbiValue
    word : List ℕ → AbiValue
    bytes : Span → AbiValue
    null_values : ListKind → Bool → ℕ → AbiValue
    values : ListKind → Bool → AbiValues → AbiValue

  pub data AbiValues : Type 0 where
    nil : AbiValues
    cons : AbiValue → AbiValues → AbiValues

abbrev pub count : AbiValues → ℕ
count nil = 0
count (cons v vs) = suc (count vs)

abbrev pub zeros : ℕ → List ℕ
zeros n = replicate n 0

unfoldable pub first_values : ℕ → AbiValues → AbiValues
first_values zero vs = nil
first_values (suc n) nil = nil
first_values (suc n) (cons v vs) = cons v (first_values n vs)

unfoldable pub make_list_value : ListKind → Option AbiValues → ℕ → Bool → AbiValue
unfolding first_values
make_list_value kind none n flag = if n == 0 then null_values kind flag 0 else invalid
make_list_value kind (some vs) n flag = values kind flag (first_values n vs)

-- A pointer to 32 bytes, or NULL.
pub abi_word : Option (List ℕ) → AbiValue
abi_word none = invalid
abi_word (some w) = word w

unfoldable pub abi_selector : Option (List ℕ) → AbiValue
abi_selector none = invalid
abi_selector (some s) = selector s

-- The data at the right end of a zeroed word.
unfoldable pub abi_uint_be : Span → AbiValue
abi_uint_be (null_data len) = if ltb 32 len || not (len == 0) then invalid else word (zeros 32)
abi_uint_be (some_data bs) =
    if ltb 32 (length bs) then invalid else word (zeros (32 - length bs) ++ bs)

-- `(uint8_t)-(bytes[0] >> 7)`
abbrev pub sign_byte : ℕ → ℕ
sign_byte b = (256 - b / 128) % 256

unfoldable pub abi_int_be : Span → AbiValue
abi_int_be (null_data len) = invalid
abi_int_be (some_data []) = invalid
abi_int_be (some_data (b ∷ bs)) =
    if ltb 32 (suc (length bs))
    then invalid
    else word (replicate (32 - suc (length bs)) (sign_byte b) ++ (b ∷ bs))

unfoldable pub abi_ufixed_be : Span → AbiValue
unfolding abi_uint_be
abi_ufixed_be = abi_uint_be

unfoldable pub abi_fixed_be : Span → AbiValue
unfolding abi_int_be
abi_fixed_be = abi_int_be

-- `for (i = 0; i < 8; ++i) word[31 - i] = (uint8_t)(number >> (i << 3));` from round `i` on.
unfoldable pub word_loop : ℕ → ℕ → ℕ → List ℕ → List ℕ
word_loop zero i number w = w
word_loop (suc rounds) i number w =
    word_loop rounds (i + 1) number (splice (31 - i) ((number / 256 ^ i % 256) ∷ []) w)

unfoldable pub abi_uint64 : ℕ → AbiValue
unfolding word_loop
abi_uint64 number = word (word_loop 8 0 number (zeros 32))

-- The number by its bit pattern: it is negative from 2^63 on.
unfoldable pub abi_int64 : ℕ → AbiValue
unfolding word_loop
abi_int64 bits =
    let sign = if leb 0x8000_0000_0000_0000 bits then 0xff else 0 in
    word (word_loop 8 0 bits (replicate 24 sign ++ zeros 8))

unfoldable pub abi_bool : ℕ → AbiValue
unfolding abi_uint64
abi_bool boolean = abi_uint64 (if boolean == 0 then 0 else 1)

-- A pointer to 20 bytes, or NULL.
unfoldable pub abi_address : Option (List ℕ) → AbiValue
unfolding abi_uint_be
abi_address none = invalid
abi_address (some address) = abi_uint_be (some_data address)

-- The data at the left end of a zeroed word.
unfoldable pub abi_fixed_bytes : Span → AbiValue
abi_fixed_bytes (null_data len) = invalid
abi_fixed_bytes (some_data []) = invalid
abi_fixed_bytes (some_data (b ∷ bs)) =
    if ltb 32 (suc (length bs)) then invalid else word ((b ∷ bs) ++ zeros (32 - suc (length bs)))

-- A pointer to 24 bytes, or NULL.
unfoldable pub abi_function : Option (List ℕ) → AbiValue
unfolding abi_fixed_bytes
abi_function none = invalid
abi_function (some bs) = abi_fixed_bytes (some_data bs)

unfoldable pub abi_bytes : Span → AbiValue
abi_bytes (null_data len) = if len == 0 then bytes (null_data 0) else invalid
abi_bytes (some_data bs) = bytes (some_data bs)

unfoldable pub abi_string_n : Span → AbiValue
unfolding abi_bytes
abi_string_n = abi_bytes

unfoldable pub abi_string : Option (List ℕ) → AbiValue
unfolding abi_bytes
abi_string none = invalid
abi_string (some text) = abi_bytes (some_data text)

unfoldable pub abi_array : Option AbiValues → ℕ → AbiValue
unfolding make_list_value
abi_array vs n = make_list_value array vs n false

unfoldable pub abi_fixed_array : Option AbiValues → ℕ → AbiValue
unfolding make_list_value
abi_fixed_array vs n = make_list_value fixed_array vs n false

unfoldable pub abi_fixed_array_dynamic : Option AbiValues → ℕ → AbiValue
unfolding make_list_value
abi_fixed_array_dynamic vs n = make_list_value fixed_array vs n true

unfoldable pub abi_tuple : Option AbiValues → ℕ → AbiValue
unfolding make_list_value
abi_tuple vs n = make_list_value tuple vs n false
