-- ===== src/Hex/Examples.antt =====
-- kernel/hex.c: the theorems at short texts, and tests.
use evmxt.Prelude.{
  ℕ, ◌≤◌, ◌≡◌, ◌≢◌, ◌%◌, refl, ◌⊎◌, List, [], ◌∷◌, ◌++◌, some, arith, length, replicate, All,
  IsByte,
}
use mathlib.Core.Option
use evmxt.Memory.{splice, store}
use evmxt.BigEndian.{from_be}
use evmxt.Hex.{
  hex_decode, has_prefix, decode_digits, decode_odd, decode_loop, hex_encode, hex_encode_quantity,
  hexval, u32, minus_one, skip_zeroes,
}
use evmxt.Hex.Spec.{digit_value, hex_text, quantity_text}
use evmxt.Hex.Digits.{hexval_lem}
use evmxt.Hex.Text.{Decodes, Rejects, hex_decode_cases}
use evmxt.Hex.Encode.{hex_encode_lem, hex_decode-hex_encode}
use evmxt.Hex.Shortest.{IsShortest, hex_encode_quantity-IsShortest}
use evmxt.Hex.Quantity.{hex_decode-quantity_text, quantity_bytes}

abbrev buffer : List ℕ
buffer = replicate 10 0xff

-- "0xAbC"
abbrev odd_text : List ℕ
odd_text = b'0' ∷ b'x' ∷ b'A' ∷ b'b' ∷ b'C' ∷ []

abbrev two_bytes : List ℕ
two_bytes = 10 ∷ 188 ∷ []

odd_decoded : hex_decode odd_text buffer 2 ≡ some (2, 10 ∷ 188 ∷ replicate 8 0xff)
unfolding hex_decode hexval has_prefix decode_digits decode_odd store decode_loop
odd_decoded = refl

odd_text-IsByte : All IsByte odd_text
odd_text-IsByte = (omega arith, (omega arith, (omega arith, (omega arith, (omega arith, tt)))))

two_bytes-IsByte : All IsByte two_bytes
two_bytes-IsByte = (omega arith, (omega arith, tt))

not_empty : odd_text ≢ []
not_empty e = cc

hex_decode_cases_example : Decodes odd_text buffer 4 ⊎ Rejects odd_text buffer 4
hex_decode_cases_example =
    hex_decode_cases odd_text buffer 4 not_empty odd_text-IsByte (omega arith)

hex_encode_lem_example :
    hex_encode two_bytes buffer ≡ some (splice 0 (hex_text two_bytes ++ (0 ∷ [])) buffer)
hex_encode_lem_example = hex_encode_lem two_bytes buffer (omega arith)

hex_decode-hex_encode_example :
    hex_decode (hex_text two_bytes) buffer 5
    ≡ some (length two_bytes % u32, splice 0 two_bytes buffer)
hex_decode-hex_encode_example =
    hex_decode-hex_encode two_bytes buffer 5 two_bytes-IsByte (omega arith) (omega arith)

hex_encode_quantity-IsShortest_example :
    (digits : List ℕ) × (hex_encode_quantity two_bytes buffer
      ≡ some (splice 0 (b'0' ∷ b'x' ∷ (digits ++ (0 ∷ []))) buffer))
    × IsShortest (from_be 0 two_bytes) digits
hex_encode_quantity-IsShortest_example =
    hex_encode_quantity-IsShortest two_bytes buffer two_bytes-IsByte (omega arith)

bytes_fit : length (quantity_bytes (skip_zeroes two_bytes)) ≤ 5
unfolding skip_zeroes quantity_bytes
bytes_fit = omega arith

hex_decode-quantity_text_example :
    (read : List ℕ) × (hex_decode (quantity_text two_bytes) buffer 5
      ≡ some (length read % u32, splice 0 read buffer))
    × (from_be 0 read ≡ from_be 0 two_bytes)
hex_decode-quantity_text_example =
    hex_decode-quantity_text two_bytes buffer 5 two_bytes-IsByte bytes_fit (omega arith)

hexval_lem_example : hexval b'F' ≡ Option.get_or (digit_value b'F') minus_one
hexval_lem_example = hexval_lem b'F' (omega arith)
