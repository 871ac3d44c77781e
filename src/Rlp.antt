-- ===== src/Rlp.antt =====
-- kernel/rlp.c and kernel/rlp.h: the descriptors of RLP values and their encoder.
-- `encode_item` is modelled by its two uses: `measure_item` is the call with `out == NULL`, and
-- `write_item` (Rlp/Encode) the call with a buffer.
pub mod Encode
pub mod Spec
pub mod Width
pub mod Measure
pub mod Sizes
pub mod Writes
pub mod Headers
pub mod Integers
pub mod Contract
mod Examples
use evmxt.Prelude.{
  ℕ, zero, suc, ◌+◌, ◌-◌, ◌/◌, ◌%◌, Bool, true, false, List, [], ◌∷◌, Option, none, some, ltb, leb,
  ◌==◌, if◌then◌else◌, length, Result, done, fail, bind,
}
use evmxt.Memory.{size_max, Span, null_data, some_data, ◌>>=◌, store}

abbrev pub rlp_max_depth : ℕ
rlp_max_depth = 64

-- `sizeof(rlp_value)`: a 4-byte kind, 4 bytes of padding and a union of 16 bytes.
abbrev pub sizeof_rlp_value : ℕ
sizeof_rlp_value = 24

pub data RlpStatus : Type 0 where
  ok invalid_argument overflow no_space depth_exceeded : RlpStatus

-- The kind with its union. A list that is not NULL points to as many children as it counts.
mutual
  pub data RlpValue : Type 0 where
    invalid : RlpValue
    bytes : Span → RlpValue
    uint64 : ℕ → RlpValue
    null_list : ℕ → RlpValue
    list : RlpValues → RlpValue

  pub data RlpValues : Type 0 where
    nil : RlpValues
    cons : RlpValue → RlpValues → RlpValues

unfoldable pub rlp_bytes : Span → RlpValue
rlp_bytes = bytes

-- The text up to its terminator.
pub rlp_string : Option (List ℕ) → RlpValue
unfolding rlp_bytes
rlp_string none = invalid
rlp_string (some text) = rlp_bytes (some_data text)

unfoldable pub rlp_uint64 : ℕ → RlpValue
rlp_uint64 = uint64

-- `while (bytes && len && *bytes == 0) { ++bytes; --len; }`
unfoldable pub strip_zeroes : List ℕ → List ℕ
strip_zeroes [] = []
strip_zeroes (b ∷ bs) = if b == 0 then strip_zeroes bs else b ∷ bs

unfoldable pub rlp_uint_be : Span → RlpValue
unfolding strip_zeroes rlp_bytes
rlp_uint_be (null_data len) = rlp_bytes (null_data len)
rlp_uint_be (some_data data_bytes) = rlp_bytes (some_data (strip_zeroes data_bytes))

unfoldable pub first_values : ℕ → RlpValues → RlpValues
first_values zero values = nil
first_values (suc n) nil = nil
first_values (suc n) (cons v vs) = cons v (first_values n vs)

-- A NULL array with a count, or the first `n` values of an array.
unfoldable pub rlp_list : Option RlpValues → ℕ → RlpValue
unfolding first_values
rlp_list none n = null_list n
rlp_list (some values) n = list (first_values n values)

-- `while (length) { ++count; length >>= 8; }`: the fuel is the length itself.
unfoldable pub length_bytes_loop : ℕ → ℕ → ℕ → ℕ
length_bytes_loop zero count len = count
length_bytes_loop (suc fuel) count len =
    let rest = length_bytes_loop fuel (count + 1) (len / 256) in if len == 0 then count else rest

unfoldable pub length_bytes : ℕ → ℕ
unfolding length_bytes_loop
length_bytes len = length_bytes_loop len 0 len

-- `for (i = count; i > 0; --i) { out[i] = (uint8_t)length; length >>= 8; }`
unfoldable pub write_length_loop : ℕ → ℕ → ℕ → List ℕ → Option (List ℕ)
write_length_loop out zero len buf = some buf
write_length_loop out (suc i) len buf =
    store (out + suc i) (len % 256) buf >>= write_length_loop out i (len / 256)

abbrev pub prefix_base : Bool → ℕ
prefix_base is_list = if is_list then 0xc0 else 0x80

unfoldable pub write_prefix : ℕ → ℕ → Bool → List ℕ → Option (List ℕ)
unfolding length_bytes write_length_loop
write_prefix out len is_list buf =
    let base = prefix_base is_list in
    if leb len 55
    then store out ((base + len) % 256) buf
    else (store out ((base + 55 + length_bytes len) % 256) buf
        >>= write_length_loop out (length_bytes len) len)

-- `while (number) { integer[8 - ++length] = (uint8_t)number; number >>= 8; }`: the used tail of the
-- 8-byte array, which is what `bytes` points to afterwards.
unfoldable pub integer_loop : ℕ → ℕ → List ℕ → List ℕ
integer_loop zero number tail_bytes = tail_bytes
integer_loop (suc fuel) number tail_bytes =
    let rest = integer_loop fuel (number / 256) ((number % 256) ∷ tail_bytes) in
    if number == 0 then tail_bytes else rest

-- What `bytes` and `length` denote after the `switch`, for the kinds that are no list.
unfoldable pub item_bytes : RlpValue → List ℕ
unfolding integer_loop
item_bytes (bytes (some_data data_bytes)) = data_bytes
item_bytes (uint64 number) = integer_loop number number []
item_bytes _ = []

abbrev pub is_list : RlpValue → Bool
is_list (list values) = true
is_list (null_list count) = true
is_list _ = false

abbrev pub count : RlpValues → ℕ
count nil = 0
count (cons v vs) = suc (count vs)

-- `!is_list && length == 1 && bytes[0] < 0x80`
abbrev pub is_single : Bool → List ℕ → Bool
is_single true bs = false
is_single false [] = false
is_single false (b ∷ []) = ltb b 0x80
is_single false (b ∷ c ∷ bs) = false

abbrev pub prefix_size : ℕ → ℕ
prefix_size len = if leb len 55 then 1 else 1 + length_bytes len

-- `*size`, from the kind, the bytes and the length.
unfoldable pub total_size : Bool → List ℕ → ℕ → Result RlpStatus ℕ
unfolding length_bytes
total_size listed bs len =
    if is_single listed bs
    then done 1
    else if ltb 8 (length_bytes len)
    then fail overflow
    else if ltb (size_max - prefix_size len) len
    then fail overflow
    else done (prefix_size len + len)

-- `length` after the `switch`; a list adds up the sizes of its children.
unfoldable mutual
  pub item_length : RlpValue → ℕ → Result RlpStatus ℕ
  item_length invalid depth =
      if ltb rlp_max_depth depth then fail depth_exceeded else fail invalid_argument
  item_length (bytes (null_data len)) depth =
      if ltb rlp_max_depth depth
      then fail depth_exceeded
      else if len == 0
      then done 0
      else fail invalid_argument
  item_length (bytes (some_data data_bytes)) depth =
      if ltb rlp_max_depth depth then fail depth_exceeded else done (length data_bytes)
  item_length (uint64 number) depth =
      if ltb rlp_max_depth depth
      then fail depth_exceeded
      else done (length (item_bytes (uint64 number)))
  item_length (null_list n) depth =
      if ltb rlp_max_depth depth
      then fail depth_exceeded
      else if n == 0
      then done 0
      else fail invalid_argument
  item_length (list values) depth =
      if ltb rlp_max_depth depth
      then fail depth_exceeded
      else if ltb (size_max / sizeof_rlp_value) (count values)
      then fail overflow
      else children_length values (depth + 1) 0

  pub children_length : RlpValues → ℕ → ℕ → Result RlpStatus ℕ
  children_length nil depth len = done len
  children_length (cons v vs) depth len =
      bind (bind (item_length v depth) (total_size (is_list v) (item_bytes v))) λ child_size.
        if ltb (size_max - len) child_size
        then fail overflow
        else children_length vs depth (len + child_size)

unfoldable pub measure_item : RlpValue → ℕ → Result RlpStatus ℕ
unfolding item_length total_size item_bytes
measure_item v depth = bind (item_length v depth) (total_size (is_list v) (item_bytes v))
