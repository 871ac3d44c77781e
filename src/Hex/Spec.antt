-- ===== src/Hex/Spec.antt =====
-- Hexadecimal text, without bit tricks.
use evmxt.Prelude.{
  ℕ, ◌+◌, ◌-◌, ◌*◌, ◌%◌, ◌&&◌, ◌||◌, List, [], ◌∷◌, ◌++◌, Option, none, some, leb, ◌==◌,
  if◌then◌else◌, length,
}
use evmxt.Memory.{◌>>=◌}
use evmxt.Hex.{format_02x, format_x, skip_zeroes}

-- The value of a digit, if the character is one.
unfoldable pub digit_value : ℕ → Option ℕ
digit_value c =
    if leb b'0' c && leb c b'9'
    then some (c - b'0')
    else if leb b'a' c && leb c b'f'
    then some (c - b'a' + 10)
    else if leb b'A' c && leb c b'F'
    then some (c - b'A' + 10)
    else none

-- The bytes that pairs of digits stand for.
unfoldable pub pairs_value : List ℕ → Option (List ℕ)
pairs_value [] = some []
pairs_value (c ∷ []) = none
pairs_value (c ∷ d ∷ rest) = digit_value c >>= λ hi.
    digit_value d >>= λ low. pairs_value rest >>= λ bs. some ((hi * 16 + low) ∷ bs)

-- An odd number of digits is read with a zero in front.
unfoldable pub digits_value : List ℕ → Option (List ℕ)
digits_value digits = pairs_value (if length digits % 2 == 0 then digits else b'0' ∷ digits)

-- A text without its "0x" or "0X".
unfoldable pub text_digits : List ℕ → List ℕ
text_digits [] = []
text_digits (c ∷ []) = c ∷ []
text_digits (c ∷ d ∷ rest) = if c == b'0' && (d == b'x' || d == b'X') then rest else c ∷ d ∷ rest

unfoldable pub hex_digits : List ℕ → List ℕ
hex_digits [] = []
hex_digits (b ∷ bs) = format_02x b ++ hex_digits bs

-- "0x" and two digits for each byte.
abbrev pub hex_text : List ℕ → List ℕ
hex_text bytes = b'0' ∷ b'x' ∷ hex_digits bytes

-- "0x" and the digits of the number with no leading zero.
unfoldable pub quantity_digits : List ℕ → List ℕ
quantity_digits [] = b'0' ∷ []
quantity_digits (b ∷ bs) = format_x b ++ hex_digits bs

unfoldable pub quantity_text : List ℕ → List ℕ
quantity_text bytes = b'0' ∷ b'x' ∷ quantity_digits (skip_zeroes bytes)
