-- ===== src/Hex/Quantity.antt =====
-- kernel/hex.c: `hex_encode_quantity`, and its texts read back.
use evmxt.Prelude.{
  ℕ, suc, ◌+◌, ◌*◌, ◌/◌, ◌%◌, ◌≤◌, ◌<◌, ◌≡◌, refl, ap, ◌∙◌, inl, inr, List, [], ◌∷◌, ◌++◌,
  append_assoc, some, arith, ltb, ltb→lt, ◌==◌, Bool-cases, length, length-append_bytes, All,
  All-append, IsByte,
}
use evmxt.BigEndian.{from_be}
use evmxt.Memory.{splice}
use evmxt.Memory.Laws.{length-splice, store_lem, memcpy_lem, splice_terminator}
use evmxt.Hex.{
  format_02x, format_x, quantity_loop, write_quantity, skip_zeroes, hex_encode_quantity, hex_decode,
  u32,
}
use evmxt.Hex.Spec.{
  digit_value, pairs_value, digits_value, text_digits, hex_digits, quantity_digits, quantity_text,
}
use evmxt.Hex.Digits.{digit_value-hex_digit, hex_digit-IsByte}
use evmxt.Hex.Encode.{
  splice_prefixed, length-hex_digits, pairs_value-hex_digits, hex_digits-IsByte, hex_decode-value,
}

quantity_loop_lem :
    (bs : List ℕ) (pos : ℕ) (out : List ℕ)
    → pos + 2 * length bs + 1 ≤ length out
    → quantity_loop bs pos out ≡ some (splice pos (hex_digits bs ++ (0 ∷ [])) out)
unfolding quantity_loop hex_digits
quantity_loop_lem [] pos out room = store_lem pos 0 out (omega arith)
quantity_loop_lem (b ∷ bs) pos out room =
    let text = format_02x b ++ (0 ∷ []) in
    let rest = hex_digits bs ++ (0 ∷ []) in
    let ih =
      quantity_loop_lem bs (pos + 2) (splice pos text out)
        (omega (arith, length-splice pos text out)) in
    rw (memcpy_lem pos text out (omega arith)) (
      ih
      ∙ ap some (
          splice_terminator pos (pos + 2) (format_02x b) rest out 0 refl
            (omega (arith, length-append_bytes (hex_digits bs) (0 ∷ [])))))

pub length-format_x : (b : ℕ) → (1 ≤ length (format_x b)) × (length (format_x b) ≤ 2)
length-format_x b = ground arith

write_quantity_lem :
    (bs out : List ℕ)
    → length (quantity_digits bs) + 3 ≤ length out
    → write_quantity bs out ≡ some (splice 0 (b'0' ∷ b'x' ∷ (quantity_digits bs ++ (0 ∷ []))) out)
unfolding write_quantity quantity_digits
write_quantity_lem [] out room = memcpy_lem 0 (b'0' ∷ b'x' ∷ b'0' ∷ 0 ∷ []) out (omega arith)
write_quantity_lem (b ∷ bs) out room =
    let one = splice 0 (b'0' ∷ []) out in
    let two = splice 1 (b'x' ∷ []) one in
    let top = format_x b in
    let three = splice 2 (top ++ (0 ∷ [])) two in
    let rest = hex_digits bs ++ (0 ∷ []) in
    let same_size : length three ≡ length out = omega (
      arith,
      length-splice 0 (b'0' ∷ []) out,
      length-splice 1 (b'x' ∷ []) one,
      length-splice 2 (top ++ (0 ∷ [])) two,
    ) in
    let space : 2 + length top + 2 * length bs + 1 ≤ length out =
      omega (arith, length-append_bytes top (hex_digits bs), length-hex_digits bs) in
    rw
      (
        store_lem 0 b'0' out (omega arith),
        store_lem 1 b'x' one (omega (arith, length-splice 0 (b'0' ∷ []) out)),
        memcpy_lem 2 (top ++ (0 ∷ [])) two (
            omega (
              arith,
              length-append_bytes top (0 ∷ []),
              length-splice 0 (b'0' ∷ []) out,
              length-splice 1 (b'x' ∷ []) one,
            )),
      )
      (quantity_loop_lem bs (2 + length top) three (omega arith)
        ∙ ap some (
            splice_terminator 2 (2 + length top) top rest two 0 refl
              (omega (arith, length-append_bytes (hex_digits bs) (0 ∷ [])))
            ∙ splice_prefixed (top ++ rest) out
            ∙ rw append_assoc))

pub hex_encode_quantity-text :
    (bytes out : List ℕ)
    → length (quantity_text bytes) + 1 ≤ length out
    → hex_encode_quantity bytes out ≡ some (splice 0 (quantity_text bytes ++ (0 ∷ [])) out)
unfolding hex_encode_quantity quantity_text
hex_encode_quantity-text bytes out room = write_quantity_lem (skip_zeroes bytes) out (omega arith)

-- The bytes that a quantity stands for: those from the first that is not zero, or one zero.
unfoldable pub quantity_bytes : List ℕ → List ℕ
quantity_bytes [] = 0 ∷ []
quantity_bytes (b ∷ bs) = b ∷ bs

pub skip_zeroes-IsByte : (bs : List ℕ) → All IsByte bs → All IsByte (skip_zeroes bs)
unfolding skip_zeroes
skip_zeroes-IsByte [] hs = tt
skip_zeroes-IsByte (b ∷ bs) (hb, hs) = elim (Bool-cases (b == 0)) [
  | inl zero_byte ↦ rw zero_byte (skip_zeroes-IsByte bs hs)
  | inr other ↦ rw other (hb, hs)
]

zero_digit : digit_value b'0' ≡ some 0
unfolding digit_value
zero_digit = refl

pub digits_value-quantity :
    (bs : List ℕ) → All IsByte bs → digits_value (quantity_digits bs) ≡ some (quantity_bytes bs)
unfolding digits_value quantity_digits quantity_bytes pairs_value
digits_value-quantity [] hs = rw zero_digit
digits_value-quantity (b ∷ bs) (hb, hs) =
    let pairs = pairs_value-hex_digits bs hs in
    elim (Bool-cases (ltb b 16)) [
      | inl short ↦
          let odd : suc (length (hex_digits bs)) % 2 ≡ 1 = omega (arith, length-hex_digits bs) in
          rw (short, odd, zero_digit, digit_value-hex_digit b (ltb→lt b 16 short), pairs)
            (ap (λ n. some (n ∷ bs)) (omega arith))
      | inr long ↦
          let even : suc (suc (length (hex_digits bs))) % 2 ≡ 0 =
            omega (arith, length-hex_digits bs) in
          rw
            (
              long,
              even,
              digit_value-hex_digit (b / 16) (omega arith),
              digit_value-hex_digit (b % 16) (omega arith),
              pairs,
            )
            (ap (λ n. some (n ∷ bs)) (omega arith))
    ]

length-digits_value :
    (bs : List ℕ) → (length (quantity_digits bs) + 1) / 2 ≡ length (quantity_bytes bs)
unfolding quantity_digits quantity_bytes
length-digits_value [] = refl
length-digits_value (b ∷ bs) = omega (
  arith,
  length-format_x b,
  length-append_bytes (format_x b) (hex_digits bs),
  length-hex_digits bs,
)

format_x-IsByte : (b : ℕ) → b < 256 → All IsByte (format_x b)
format_x-IsByte b h = elim (Bool-cases (ltb b 16)) [
  | inl short ↦ rw short (hex_digit-IsByte b (ltb→lt b 16 short), tt)
  | inr long ↦
      rw long
        (hex_digit-IsByte (b / 16) (omega arith), (hex_digit-IsByte (b % 16) (omega arith), tt))
]

quantity_digits-IsByte : (bs : List ℕ) → All IsByte bs → All IsByte (quantity_digits bs)
unfolding quantity_digits
quantity_digits-IsByte [] hs = omega arith
quantity_digits-IsByte (b ∷ bs) (hb, hs) =
    All-append IsByte (format_x b) (hex_digits bs) (format_x-IsByte b hb) (hex_digits-IsByte bs hs)

pub from_be-skip_zeroes : (bs : List ℕ) → from_be 0 (skip_zeroes bs) ≡ from_be 0 bs
unfolding skip_zeroes from_be
from_be-skip_zeroes [] = refl
from_be-skip_zeroes (b ∷ bs) = elim (Bool-cases (b == 0)) [
  | inl zero_byte ↦
      let same : 0 * 256 + b ≡ 0 = ground arith in rw (zero_byte, same) (from_be-skip_zeroes bs)
  | inr other ↦ rw other
]

pub from_be-quantity_bytes : (bs : List ℕ) → from_be 0 (quantity_bytes bs) ≡ from_be 0 bs
unfolding quantity_bytes from_be
from_be-quantity_bytes [] = refl
from_be-quantity_bytes (b ∷ bs) = refl

-- `hex_decode` of the quantity text of some bytes, with room for the bytes it reads, gives bytes
-- at the front of the buffer that stand for the same number, and returns how many.
pub hex_decode-quantity_text :
    (bytes out : List ℕ) (out_cap : ℕ)
    → All IsByte bytes
    → length (quantity_bytes (skip_zeroes bytes)) ≤ out_cap
    → out_cap ≤ length out
    → (read : List ℕ) × (hex_decode (quantity_text bytes) out out_cap
        ≡ some (length read % u32, splice 0 read out))
      × (from_be 0 read ≡ from_be 0 bytes)
unfolding quantity_text text_digits
hex_decode-quantity_text bytes out out_cap hs room inside =
    let kept = skip_zeroes bytes in
    let kept_bytes = skip_zeroes-IsByte bytes hs in
    let decoded =
      hex_decode-value (quantity_text bytes) out (quantity_bytes kept) out_cap (λ e. cc)
        (omega arith, (omega arith, quantity_digits-IsByte kept kept_bytes))
        (digits_value-quantity kept kept_bytes) (omega (arith, length-digits_value kept)) room
        inside in
    (quantity_bytes kept, decoded, from_be-quantity_bytes kept ∙ from_be-skip_zeroes bytes)
