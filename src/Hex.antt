-- ===== src/Hex.antt =====
-- kernel/hex.c: hexadecimal text to bytes and back. A C string is the list of its characters, with
-- the terminator read behind them, so none of them is 0; a read further on is a fault, as is a write
-- out of bounds.
pub mod Spec
pub mod Digits
pub mod Decode
pub mod Text
pub mod Encode
pub mod Quantity
pub mod Shortest
mod Examples
use evmxt.Prelude.{
  ℕ, zero, suc, ◌+◌, ◌-◌, ◌*◌, ◌/◌, ◌%◌, ◌^◌, Bool, true, false, ◌&&◌, ◌||◌, List, [], ◌∷◌, ◌++◌,
  Option, none, some, ltb, leb, ◌==◌, if◌then◌else◌, length, drop, bit_and, bit_or,
}
use evmxt.Memory.{◌>>=◌, store, memcpy}

-- `s[i]`
unfoldable pub char_at : List ℕ → ℕ → Option ℕ
char_at [] zero = some 0
char_at [] (suc i) = none
char_at (c ∷ cs) zero = some c
char_at (c ∷ cs) (suc i) = char_at cs i

-- Both characters are read: the test joins them by `&`.
unfoldable pub has_prefix : List ℕ → Option Bool
unfolding char_at
has_prefix hex_str = char_at hex_str 0 >>= λ c₀.
    char_at hex_str 1 >>= λ c₁. some (c₀ == b'0' && bit_or c₁ 0x20 == b'x')

abbrev pub u32 : ℕ
u32 = 2 ^ 32

-- The bit pattern of the `int` -1.
abbrev pub minus_one : ℕ
minus_one = 0xffff_ffff

abbrev pub is_negative : ℕ → Bool
is_negative w = leb 0x8000_0000 w

-- An `int`, as its bit pattern.
unfoldable pub hexval : ℕ → ℕ
hexval c =
    let d = (c + u32 - b'0') % u32 in
    let a = (bit_or c 0x20 + u32 - b'a') % u32 in
    let valid = leb d 9 || leb a 5 in
    let v = bit_and c 0x0f + c / 64 * 9 in bit_or v (if valid then 0 else minus_one)

-- The loop from `i` on, over the characters not yet read: the value returned, and the buffer.
unfoldable pub decode_loop : List ℕ → ℕ → List ℕ → Option (ℕ × List ℕ)
unfolding hexval
decode_loop [] j out = some (j % u32, out)
decode_loop (c ∷ []) j out =
    if is_negative (hexval c) || is_negative (hexval 0)
    then some (minus_one, out)
    else (store j (bit_or (hexval c * 16) (hexval 0) % 256) out >>= λ out'.
        some ((j + 1) % u32, out'))
decode_loop (c ∷ d ∷ rest) j out =
    if is_negative (hexval c) || is_negative (hexval d)
    then some (minus_one, out)
    else (store j (bit_or (hexval c * 16) (hexval d) % 256) out >>= decode_loop rest (j + 1))

-- An odd number of digits starts with one that stands for a byte of its own.
unfoldable pub decode_odd : List ℕ → List ℕ → Option (ℕ × List ℕ)
decode_odd [] out = decode_loop [] 0 out
decode_odd (c ∷ rest) out =
    if is_negative (hexval c)
    then some (minus_one, out)
    else (store 0 (hexval c % 256) out >>= decode_loop rest 1)

unfoldable pub decode_digits : List ℕ → List ℕ → ℕ → Option (ℕ × List ℕ)
decode_digits digits out out_cap =
    let is_odd = length digits % 2 in
    if ltb out_cap (length digits / 2 + is_odd)
    then some (minus_one, out)
    else if is_odd == 0
    then decode_loop digits 0 out
    else decode_odd digits out

unfoldable pub hex_decode : List ℕ → List ℕ → ℕ → Option (ℕ × List ℕ)
hex_decode hex_str out out_cap = has_prefix hex_str >>= λ prefixed.
    decode_digits (if prefixed then drop 2 hex_str else hex_str) out out_cap

-- `sprintf` of "%x" and "%02x" at a byte: the digits, lower case.
abbrev pub hex_digit : ℕ → ℕ
hex_digit n = if ltb n 10 then b'0' + n else b'a' + n - 10

abbrev pub format_02x : ℕ → List ℕ
format_02x b = hex_digit (b / 16) ∷ hex_digit (b % 16) ∷ []

abbrev pub format_x : ℕ → List ℕ
format_x b = if ltb b 16 then hex_digit b ∷ [] else format_02x b

-- `sprintf` writes a terminator, too.
unfoldable pub encode_loop : List ℕ → ℕ → List ℕ → Option (List ℕ)
encode_loop [] i out = some out
encode_loop (b ∷ bs) i out =
    memcpy (2 + i * 2) (format_02x b ++ (0 ∷ [])) out >>= encode_loop bs (i + 1)

unfoldable pub hex_encode : List ℕ → List ℕ → Option (List ℕ)
unfolding encode_loop
hex_encode bytes out =
    store 0 b'0' out >>= store 1 b'x' >>= encode_loop bytes 0 >>= store (2 + length bytes * 2) 0

-- `while (start < len && bytes[start] == 0) start++;` leaves the bytes from `start` on.
unfoldable pub skip_zeroes : List ℕ → List ℕ
skip_zeroes [] = []
skip_zeroes (b ∷ bs) = if b == 0 then skip_zeroes bs else b ∷ bs

-- The loop with `pos`, which grows by what `sprintf` returns.
unfoldable pub quantity_loop : List ℕ → ℕ → List ℕ → Option (List ℕ)
quantity_loop [] pos out = store pos 0 out
quantity_loop (b ∷ bs) pos out =
    memcpy pos (format_02x b ++ (0 ∷ [])) out >>= quantity_loop bs (pos + 2)

unfoldable pub write_quantity : List ℕ → List ℕ → Option (List ℕ)
unfolding quantity_loop
write_quantity [] out = memcpy 0 (b'0' ∷ b'x' ∷ b'0' ∷ 0 ∷ []) out
write_quantity (b ∷ bs) out =
    store 0 b'0' out
    >>= store 1 b'x'
    >>= memcpy 2 (format_x b ++ (0 ∷ []))
    >>= quantity_loop bs (2 + length (format_x b))

unfoldable pub hex_encode_quantity : List ℕ → List ℕ → Option (List ℕ)
unfolding skip_zeroes write_quantity
hex_encode_quantity bytes out = write_quantity (skip_zeroes bytes) out
