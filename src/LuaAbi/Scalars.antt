-- ===== src/LuaAbi/Scalars.antt =====
-- kernel/lua_abi.c: `build_address`, `build_integer` and `build_bytes`.
use evmxt.Prelude.{
  codes, ℕ, zero, suc, ◌-◌, ◌/◌, ◌%◌, ◌^◌, Bool, true, false, ◌&&◌, ◌||◌, not, List, [], ◌∷◌,
  Option, none, some, ltb, leb, ◌==◌, if◌then◌else◌, length, take, replicate, Result, done,
}
use evmxt.Memory.{some_data}
use evmxt.Hex.{hex_decode, u32}
use evmxt.Hex
use evmxt.Abi.{
  AbiValue, abi_address, abi_uint_be, abi_uint64, abi_int64, abi_fixed_bytes, abi_bytes,
  abi_string_n,
}
use evmxt.Lua.{LuaValue, integer, string, is_negative, Heap}
use evmxt.LuaAbi.{
  not_address, not_hex, wrong_width, not_integer, negative, exceeds_width, not_text, bad_size,
  wrong_length, out_of_bounds, Failure, failed, integer_field, kind_uint, kind_fixed_bytes,
  kind_bytes,
}

-- `text[0] == '0' && text[1] == 'x' && !memchr(text, '\0', length)`
unfoldable pub no_nul : List ℕ → Bool
no_nul [] = true
no_nul (c ∷ cs) = not (c == 0) && no_nul cs

unfoldable pub is_hex_text : List ℕ → Bool
unfolding no_nul
is_hex_text (c₀ ∷ c₁ ∷ rest) = c₀ == b'0' && c₁ == b'x' && no_nul rest
is_hex_text _ = false

-- `uint8_t bytes[n];`, whose contents are not read before they are written.
abbrev pub fresh : ℕ → List ℕ
fresh n = replicate n 0

unfoldable pub decoded_address : List ℕ → Option (ℕ × List ℕ) → Result Failure AbiValue
decoded_address path none = failed path out_of_bounds
decoded_address path (some (count, bytes)) =
    if count == 20 then done (abi_address (some bytes)) else failed path not_address

unfoldable pub build_address : LuaValue → List ℕ → Result Failure AbiValue
unfolding decoded_address is_hex_text
build_address (string text) path =
    if not (length text == 42) || not (is_hex_text text)
    then failed path not_address
    else decoded_address path (hex_decode text (fresh 20) 20)
build_address _ path = failed path not_address

-- Whether the loop over the bytes outside the declared width finds one that is not zero.
unfoldable pub exceeds : ℕ → List ℕ → Bool
exceeds zero bytes = false
exceeds (suc n) [] = false
exceeds (suc n) (b ∷ bytes) = not (b == 0) || exceeds n bytes

unfoldable pub decoded_uint : ℕ → List ℕ → Option (ℕ × List ℕ) → Result Failure AbiValue
unfolding exceeds
decoded_uint width path none = failed path out_of_bounds
decoded_uint width path (some (count, bytes)) =
    if Hex.is_negative count || count == 0
    then failed path not_hex
    else if exceeds (count - width / 8) bytes
    then failed path exceeds_width
    else done (abi_uint_be (some_data (take count bytes)))

unfoldable pub build_uint_hex : List ℕ → ℕ → List ℕ → Result Failure AbiValue
unfolding decoded_uint is_hex_text
build_uint_hex text width path =
    if ltb (length text) 3 || ltb 66 (length text) || not (is_hex_text text)
    then failed path not_hex
    else decoded_uint width path (hex_decode text (fresh 32) 32)

-- `width < 8 || width > 256 || width % 8 != 0`; a negative width is less than 8.
abbrev pub bad_width : ℕ → Bool
bad_width width = is_negative width || ltb width 8 || ltb 256 width || not (width % 8 == 0)

unfoldable pub build_uint : ℕ → ℕ → List ℕ → Result Failure AbiValue
build_uint value width path =
    if is_negative value
    then failed path negative
    else if ltb width 64 && leb (2 ^ width) value
    then failed path exceeds_width
    else done (abi_uint64 value)

-- `value < -limit || value >= limit`, on the pattern of the value.
abbrev pub outside_limit : ℕ → ℕ → Bool
outside_limit value limit =
    if is_negative value then ltb limit (0x1_0000_0000_0000_0000 - value) else leb limit value

unfoldable pub build_int : ℕ → ℕ → List ℕ → Result Failure AbiValue
build_int value width path =
    if ltb width 64 && outside_limit value (2 ^ (width - 1))
    then failed path exceeds_width
    else done (abi_int64 value)

unfoldable pub build_number : ℕ → ℕ → LuaValue → List ℕ → Result Failure AbiValue
unfolding build_uint build_int build_uint_hex
build_number kind width (string text) path =
    if kind == kind_uint then build_uint_hex text width path else failed path not_integer
build_number kind width (integer value) path =
    if kind == kind_uint then build_uint value width path else build_int value width path
build_number kind width _ path = failed path not_integer

abbrev pub sized_number : ℕ → Option ℕ → LuaValue → List ℕ → Result Failure AbiValue
sized_number kind none value path = failed path wrong_width
sized_number kind (some width) value path =
    if bad_width width then failed path wrong_width else build_number kind width value path

-- `t` is the descriptor.
unfoldable pub build_integer : Heap → ℕ → LuaValue → ℕ → List ℕ → Result Failure AbiValue
build_integer heap t value kind path =
    sized_number kind (integer_field heap t (codes "bits")) value path

abbrev pub bad_bytes_size : ℕ → Bool
bad_bytes_size width = is_negative width || ltb width 1 || ltb 32 width

unfoldable pub build_fixed_bytes : Option ℕ → List ℕ → List ℕ → Result Failure AbiValue
build_fixed_bytes none text path = failed path bad_size
build_fixed_bytes (some width) text path =
    if bad_bytes_size width
    then failed path bad_size
    else if length text == width
    then done (abi_fixed_bytes (some_data text))
    else failed path wrong_length

unfoldable pub build_bytes : Heap → ℕ → LuaValue → ℕ → List ℕ → Result Failure AbiValue
unfolding build_fixed_bytes
build_bytes heap t (string text) kind path =
    if kind == kind_fixed_bytes
    then build_fixed_bytes (integer_field heap t (codes "size")) text path
    else if kind == kind_bytes
    then done (abi_bytes (some_data text))
    else done (abi_string_n (some_data text))
build_bytes heap t _ kind path = failed path not_text
