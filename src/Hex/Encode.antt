-- ===== src/Hex/Encode.antt =====
-- kernel/hex.c: `hex_encode` and `hex_encode_quantity`, and texts read back by `hex_decode`.
use evmxt.Prelude.{
  ℕ, ◌+◌, ◌*◌, ◌/◌, ◌%◌, ◌≤◌, ◌≡◌, ◌≢◌, refl, ap, ◌∙◌, inl, inr, List, [], ◌∷◌, ◌++◌, some, arith,
  length, length-append_bytes, All, IsByte,
}
use evmxt.Memory.{store, splice, ◌>>=◌}
use evmxt.Memory.Laws.{splice-append, length-splice, store_lem, memcpy_lem, splice_terminator}
use evmxt.Hex.{format_02x, encode_loop, hex_encode, hex_decode, u32}
use evmxt.Hex.Spec.{pairs_value, digits_value, text_digits, hex_digits, hex_text}
use evmxt.Hex.Digits.{digit_value-hex_digit, hex_digit-IsByte}
use evmxt.Hex.Text.{hex_decode_cases}

pub length-hex_digits : (bs : List ℕ) → length (hex_digits bs) ≡ 2 * length bs
unfolding hex_digits
length-hex_digits [] = refl
length-hex_digits (b ∷ bs) = omega (arith, length-hex_digits bs)

-- Each round overwrites the terminator of the round before; one more stands behind the last.
encode_loop_lem :
    (bs : List ℕ) (i p : ℕ) (out : List ℕ)
    → p ≡ 2 + i * 2
    → p + 2 * length bs + 1 ≤ length out
    → (encode_loop bs i out >>= store (p + 2 * length bs) 0)
      ≡ some (splice p (hex_digits bs ++ (0 ∷ [])) out)
unfolding encode_loop hex_digits
encode_loop_lem [] i p out e room =
    let place : p + 0 ≡ p = omega arith in rw place (store_lem p 0 out (omega arith))
encode_loop_lem (b ∷ bs) i p out e room =
    let text = format_02x b ++ (0 ∷ []) in
    let printed = splice p text out in
    let rest = hex_digits bs ++ (0 ∷ []) in
    let last : p + 2 * length (b ∷ bs) ≡ p + 2 + 2 * length bs = omega arith in
    let ih =
      encode_loop_lem bs (i + 1) (p + 2) printed (omega arith)
        (omega (arith, length-splice p text out)) in
    rw (← e, memcpy_lem p text out (omega arith), last)
      (ih
        ∙ ap some (
            splice_terminator p (p + 2) (format_02x b) rest out 0 (omega arith)
              (omega (arith, length-append_bytes (hex_digits bs) (0 ∷ [])))))

-- The two stores of "0x", and what is written behind them.
pub splice_prefixed :
    (cs out : List ℕ)
    → splice 2 cs (splice 1 (b'x' ∷ []) (splice 0 (b'0' ∷ []) out))
      ≡ splice 0 (b'0' ∷ b'x' ∷ cs) out
splice_prefixed cs out =
    ap (splice 2 cs) (splice-append 0 1 (b'0' ∷ []) (b'x' ∷ []) out refl)
    ∙ splice-append 0 2 (b'0' ∷ b'x' ∷ []) cs out refl

-- With `2 * len + 3` bytes of room, `hex_encode` stays inside the buffer and writes the prefix,
-- two lower-case digits for each byte and a terminator, and nothing else.
pub hex_encode_lem :
    (bytes out : List ℕ)
    → 2 * length bytes + 3 ≤ length out
    → hex_encode bytes out ≡ some (splice 0 (hex_text bytes ++ (0 ∷ [])) out)
unfolding hex_encode
hex_encode_lem bytes out room =
    let one = splice 0 (b'0' ∷ []) out in
    let two = splice 1 (b'x' ∷ []) one in
    let end : 2 + length bytes * 2 ≡ 2 + 2 * length bytes = omega arith in
    let whole =
      encode_loop_lem bytes 0 2 two refl
        (omega (arith, length-splice 0 (b'0' ∷ []) out, length-splice 1 (b'x' ∷ []) one)) in
    rw
      (
        store_lem 0 b'0' out (omega arith),
        store_lem 1 b'x' one (omega (arith, length-splice 0 (b'0' ∷ []) out)),
        end,
      )
      (whole ∙ ap some (splice_prefixed (hex_digits bytes ++ (0 ∷ [])) out))

pub pairs_value-hex_digits : (bs : List ℕ) → All IsByte bs → pairs_value (hex_digits bs) ≡ some bs
unfolding pairs_value hex_digits
pairs_value-hex_digits [] hs = refl
pairs_value-hex_digits (b ∷ bs) (hb, hs) =
    rw
      (
        digit_value-hex_digit (b / 16) (omega arith),
        digit_value-hex_digit (b % 16) (omega arith),
        pairs_value-hex_digits bs hs,
      )
      (ap (λ n. some (n ∷ bs)) (omega arith))

pub hex_digits-IsByte : (bs : List ℕ) → All IsByte bs → All IsByte (hex_digits bs)
unfolding hex_digits
hex_digits-IsByte [] hs = tt
hex_digits-IsByte (b ∷ bs) (hb, hs) = (
  hex_digit-IsByte (b / 16) (omega arith),
  (hex_digit-IsByte (b % 16) (omega arith), hex_digits-IsByte bs hs),
)

digits_value-hex_text :
    (bs : List ℕ) → All IsByte bs → digits_value (text_digits (hex_text bs)) ≡ some bs
unfolding digits_value text_digits
digits_value-hex_text bs hs =
    let even : length (hex_digits bs) % 2 ≡ 0 = omega (arith, length-hex_digits bs) in
    rw even (pairs_value-hex_digits bs hs)

-- A text whose digits form bytes that fit is decoded to them.
pub hex_decode-value :
    (s out bytes : List ℕ) (out_cap : ℕ)
    → s ≢ []
    → All IsByte s
    → digits_value (text_digits s) ≡ some bytes
    → (length (text_digits s) + 1) / 2 ≤ length bytes
    → length bytes ≤ out_cap
    → out_cap ≤ length out
    → hex_decode s out out_cap ≡ some (length bytes % u32, splice 0 bytes out)
hex_decode-value s out bytes out_cap ne hs value size room inside =
    elim (hex_decode_cases s out out_cap ne hs inside) [
      | inl (bs, good, fits, result) ↦ let same : bs ≡ bytes = cc (good, value) in rw same at result
      | inr (inl bad, _) ↦ cc (bad, value)
      | inr (inr large, _) ↦ absurd (omega arith)
    ]

-- `hex_decode` of the text that encodes some bytes, with room for them, gives the bytes back at
-- the front of the buffer and returns their number (as an `int`).
pub hex_decode-hex_encode :
    (bytes out : List ℕ) (out_cap : ℕ)
    → All IsByte bytes
    → length bytes ≤ out_cap
    → out_cap ≤ length out
    → hex_decode (hex_text bytes) out out_cap ≡ some (length bytes % u32, splice 0 bytes out)
unfolding text_digits
hex_decode-hex_encode bytes out out_cap hs room inside =
    hex_decode-value (hex_text bytes) out bytes out_cap (λ e. cc)
      (omega arith, (omega arith, hex_digits-IsByte bytes hs)) (digits_value-hex_text bytes hs)
      (omega (arith, length-hex_digits bytes)) room inside
