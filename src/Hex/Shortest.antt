-- ===== src/Hex/Shortest.antt =====
-- kernel/hex.c: the text of `hex_encode_quantity`, by the number that it stands for.
use evmxt.Prelude.{
  ℕ, ◌+◌, ◌*◌, ◌/◌, ◌%◌, ◌≤◌, ◌<◌, ◌≡◌, ◌≢◌, refl, ◌∙◌, ◌⊎◌, inl, inr, List, [], ◌∷◌, ◌++◌, some,
  arith, ltb, ltb→lt, ltb→ge, ◌==◌, Bool-cases, length, length-append_bytes, All, IsByte,
}
use evmxt.BigEndian.{from_be}
use evmxt.Memory.{splice}
use evmxt.Hex.{hex_digit, format_x, skip_zeroes, hex_encode_quantity}
use evmxt.Hex.Spec.{digits_value, hex_digits, quantity_digits, quantity_text}
use evmxt.Hex.Encode.{length-hex_digits}
use evmxt.Hex.Quantity.{
  hex_encode_quantity-text, quantity_bytes, digits_value-quantity, skip_zeroes-IsByte,
  from_be-quantity_bytes, from_be-skip_zeroes, length-format_x,
}

-- The digits of a number, without a zero in front but for the number 0 itself.
abbrev pub IsShortest : ℕ → List ℕ → Type 0
IsShortest n digits =
    ((read : List ℕ) × (digits_value digits ≡ some read) × (from_be 0 read ≡ n))
    × ((digits ≡ b'0' ∷ []) ⊎ ((c : ℕ) × (cs : List ℕ) × (digits ≡ c ∷ cs) × (c ≢ b'0')))

nonzero_digit : (n : ℕ) → 0 < n → n < 16 → hex_digit n ≢ b'0'
nonzero_digit n some_value small e = ground arith

first_digit :
    (b : ℕ) (rest : List ℕ)
    → b ≢ 0
    → b < 256
    → (c : ℕ) × (cs : List ℕ) × (format_x b ++ rest ≡ c ∷ cs) × (c ≢ b'0')
first_digit b rest nonzero byte = elim (Bool-cases (ltb b 16)) [
  | inl short ↦
      (hex_digit b, rest, rw short refl, nonzero_digit b (omega arith) (ltb→lt b 16 short))
  | inr long ↦
      let high = ltb→ge b 16 long in
      (
        hex_digit (b / 16),
        hex_digit (b % 16) ∷ rest,
        rw long refl,
        nonzero_digit (b / 16) (omega arith) (omega arith),
      )
]

shortest_digits :
    (bs : List ℕ)
    → All IsByte bs
    → (quantity_digits (skip_zeroes bs) ≡ b'0' ∷ [])
      ⊎ ((c : ℕ) × (cs : List ℕ) × (quantity_digits (skip_zeroes bs) ≡ c ∷ cs) × (c ≢ b'0'))
unfolding skip_zeroes quantity_digits
shortest_digits [] hs = inl refl
shortest_digits (b ∷ bs) (hb, hs) = elim (Bool-cases (b == 0)) [
  | inl zero_byte ↦ rw zero_byte (shortest_digits bs hs)
  | inr other ↦ rw other (inr (first_digit b (hex_digits bs) (λ e. ground (arith, other, e)) hb))
]

length-quantity_digits : (bs : List ℕ) → length (quantity_digits bs) ≤ 2 * length bs + 1
unfolding quantity_digits
length-quantity_digits [] = omega arith
length-quantity_digits (b ∷ bs) = omega (
  arith,
  length-format_x b,
  length-append_bytes (format_x b) (hex_digits bs),
  length-hex_digits bs,
)

length-skip_zeroes : (bs : List ℕ) → length (skip_zeroes bs) ≤ length bs
unfolding skip_zeroes
length-skip_zeroes [] = omega arith
length-skip_zeroes (b ∷ bs) = ground (arith, length-skip_zeroes bs)

-- For bytes of any number, with room for the prefix, two digits for each and one more, and a
-- terminator, `hex_encode_quantity` stays inside the buffer and writes 0x, digits and a
-- terminator, and nothing else; the digits stand for the number of the bytes, and are a single 0
-- or begin with another digit.
pub hex_encode_quantity-IsShortest :
    (bytes out : List ℕ)
    → All IsByte bytes
    → 2 * length bytes + 4 ≤ length out
    → (digits : List ℕ) × (hex_encode_quantity bytes out
        ≡ some (splice 0 (b'0' ∷ b'x' ∷ (digits ++ (0 ∷ []))) out))
      × IsShortest (from_be 0 bytes) digits
unfolding quantity_text
hex_encode_quantity-IsShortest bytes out hs room =
    let kept = skip_zeroes bytes in
    let size = length-quantity_digits kept in
    (
      quantity_digits kept,
      hex_encode_quantity-text bytes out (omega (arith, length-skip_zeroes bytes)),
      (
        (
          quantity_bytes kept,
          digits_value-quantity kept (skip_zeroes-IsByte bytes hs),
          from_be-quantity_bytes kept ∙ from_be-skip_zeroes bytes,
        ),
        shortest_digits bytes hs,
      ),
    )
