-- ===== src/Hex/Text.antt =====
-- kernel/hex.c: `hex_decode` on whole texts: the prefix, the odd digit and the capacity.
use evmxt.Prelude.{
  ℕ, ◌+◌, ◌*◌, ◌/◌, ◌%◌, ◌≤◌, ◌<◌, ◌≡◌, ◌≢◌, refl, sym, ap, ◌∙◌, Bool, true, false, ◌⊎◌, inl, inr,
  not, ◌&&◌, ◌||◌, List, [], ◌∷◌, none, some, arith, ltb, ◌==◌, Bool-cases, Option-cases, length,
  All, IsByte, if◌then◌else◌, ge→ltb, lt→ltb, ltb→lt, ltb→ge, passes_below, passes_below_each,
  bit_or,
}
use evmxt.Memory.{splice}
use evmxt.Memory.Laws.{store_lem}
use evmxt.Hex.{minus_one, u32, decode_loop, decode_odd, decode_digits, has_prefix, hex_decode}
use evmxt.Hex.Spec.{digit_value, pairs_value, digits_value, text_digits}
use evmxt.Hex.Digits.{digit_value-lt, hexval-digit, hexval-none, is_negative-small}
use evmxt.Hex.Decode.{
  decode_loop-pairs, decode_loop-bad, pairs_value-some, decode_loop-good, decode_loop-bad_second,
}

zero_digit : digit_value b'0' ≡ some 0
unfolding digit_value
zero_digit = refl

-- The odd digit in front is read as the pair of a zero and that digit.
decode_odd-pad :
    (c : ℕ) (rest out : List ℕ)
    → c < 256
    → 0 < length out
    → decode_odd (c ∷ rest) out ≡ decode_loop (b'0' ∷ c ∷ rest) 0 out
unfolding decode_odd
decode_odd-pad c rest out h room = elim (Option-cases (digit_value c)) [
  | inl bad ↦
      let pair = decode_loop-bad_second b'0' c 0 rest 0 out (omega arith) h zero_digit bad in
      rw (hexval-none c h bad) (sym pair)
  | inr (v, is_v) ↦
      let small = digit_value-lt c is_v in
      let low : v % 256 ≡ 0 * 16 + v = omega arith in
      let pair = decode_loop-good b'0' c 0 v rest 0 out (omega arith) h zero_digit is_v room in
      rw (hexval-digit c h is_v, is_negative-small v small, low, store_lem 0 (0 * 16 + v) out room)
        (sym pair)
]

pub length-pairs_value : (cs bs : List ℕ) → pairs_value cs ≡ some bs → 2 * length bs ≡ length cs
unfolding pairs_value
length-pairs_value [] bs e = ground arith
length-pairs_value (c ∷ []) bs e = cc
length-pairs_value (c ∷ d ∷ rest) bs e =
    let (hi, low, tail, is_hi, is_low, is_tail, whole) = pairs_value-some c d rest bs e in
    omega (arith, length-pairs_value rest tail is_tail, ap length whole)

-- The digits with the zero that an odd number of them is read with.
abbrev pad : List ℕ → List ℕ
pad digits = if length digits % 2 == 0 then digits else b'0' ∷ digits

length-pad : (digits : List ℕ) → length (pad digits) / 2 ≡ length digits / 2 + length digits % 2
length-pad digits = ground arith

pad-IsByte : (digits : List ℕ) → All IsByte digits → All IsByte (pad digits)
pad-IsByte digits hs = elim (Bool-cases (length digits % 2 == 0)) [
  | inl even ↦ rw even hs
  | inr odd ↦ rw odd (omega arith, hs)
]

decode_digits-pad :
    (digits out : List ℕ) (out_cap : ℕ)
    → All IsByte digits
    → length (pad digits) / 2 ≤ out_cap
    → out_cap ≤ length out
    → decode_digits digits out out_cap ≡ decode_loop (pad digits) 0 out
unfolding decode_digits
decode_digits-pad [] out out_cap hs room inside = rw (ge→ltb out_cap 0 (omega arith))
decode_digits-pad (c ∷ rest) out out_cap (hc, hs) room inside =
    let enough = ge→ltb out_cap _ (rw length-pad at room) in
    elim (Bool-cases (length (c ∷ rest) % 2 == 0)) [
      | inl even ↦ rw (enough, even)
      | inr odd ↦
          let halves : length (b'0' ∷ c ∷ rest) / 2 ≤ out_cap = rw odd at room in
          let some_room : 0 < length out = omega arith in
          rw (enough, odd) (decode_odd-pad c rest out hc some_room)
    ]

pub decode_digits-large :
    (digits out : List ℕ) (out_cap : ℕ)
    → out_cap < length (pad digits) / 2
    → decode_digits digits out out_cap ≡ some (minus_one, out)
unfolding decode_digits
decode_digits-large digits out out_cap h =
    rw (lt→ltb out_cap (length digits / 2 + length digits % 2) (rw length-pad at h))

x_table :
    passes_below
      (λ d. if bit_or d 0x20 == b'x' then d == b'x' || d == b'X' else not (d == b'x' || d == b'X'))
      256
    ≡ true
unfolding passes_below
x_table = refl

x_test : (d : ℕ) → d < 256 → (bit_or d 0x20 == b'x') ≡ (d == b'x' || d == b'X')
x_test d h = same _ _ (passes_below_each _ 256 x_table d h)
  where
    same : (a b : Bool) → (if a then b else not b) ≡ true → a ≡ b
    same true true e = refl
    same true false e = sym e
    same false true e = e
    same false false e = refl

-- A text with a character at least: its prefix is dropped.
hex_decode-digits :
    (s out : List ℕ) (out_cap : ℕ)
    → s ≢ []
    → All IsByte s
    → hex_decode s out out_cap ≡ decode_digits (text_digits s) out out_cap
unfolding hex_decode has_prefix text_digits
hex_decode-digits [] out out_cap ne hs = absurd (ne refl)
hex_decode-digits (c ∷ []) out out_cap ne hs = elim (Bool-cases (c == b'0')) [
  | inl zero_first ↦ rw zero_first
  | inr other ↦ rw other
]
hex_decode-digits (c ∷ d ∷ rest) out out_cap ne (hc, (hd, hs)) = rw (x_test d hd)

text_digits-IsByte : (s : List ℕ) → All IsByte s → All IsByte (text_digits s)
unfolding text_digits
text_digits-IsByte [] hs = tt
text_digits-IsByte (c ∷ []) hs = hs
text_digits-IsByte (c ∷ d ∷ rest) (hc, (hd, hs)) =
    elim (Bool-cases (c == b'0' && (d == b'x' || d == b'X'))) [
      | inl prefixed ↦ rw prefixed hs
      | inr plain ↦ rw plain (hc, (hd, hs))
    ]

-- The digits of a text form bytes and these fit: they are written at the front of the buffer.
abbrev pub Decodes : List ℕ → List ℕ → ℕ → Type 0
Decodes s out out_cap =
    (bs : List ℕ) × (digits_value (text_digits s) ≡ some bs)
    × (length bs ≤ out_cap)
    × (hex_decode s out out_cap ≡ some (length bs % u32, splice 0 bs out))

-- A character is no digit, or the bytes do not fit: -1.
abbrev pub Rejects : List ℕ → List ℕ → ℕ → Type 0
Rejects s out out_cap =
    ((digits_value (text_digits s) ≡ none) ⊎ (out_cap < (length (text_digits s) + 1) / 2))
    × ((out' : List ℕ) × (hex_decode s out out_cap ≡ some (minus_one, out')))

-- On a nonempty text of characters and a buffer of at least `out_cap` bytes, `hex_decode` stays
-- inside the text and the buffer, and either writes the bytes that the digits after an optional
-- prefix stand for at the front and returns their number (as an `int`), or returns -1 because a
-- character is no digit or the bytes do not fit.
pub hex_decode_cases :
    (s out : List ℕ) (out_cap : ℕ)
    → s ≢ []
    → All IsByte s
    → out_cap ≤ length out
    → Decodes s out out_cap ⊎ Rejects s out out_cap
unfolding digits_value
hex_decode_cases s out out_cap ne hs inside =
    let digits = text_digits s in
    let start = hex_decode-digits s out out_cap ne hs in
    let padded = pad-IsByte digits (text_digits-IsByte s hs) in
    elim (Bool-cases (ltb out_cap (length (pad digits) / 2))) [
      | inl large ↦
          let over = ltb→lt _ _ large in
          inr (
            inr (omega (arith, length-pad digits)),
            (out, start ∙ decode_digits-large digits out out_cap over),
          )
      | inr fits ↦
          let room = ltb→ge _ _ fits in
          let step = decode_digits-pad digits out out_cap (text_digits-IsByte s hs) room inside in
          elim (Option-cases (pairs_value (pad digits))) [
            | inl bad ↦
                let (out', fails) = decode_loop-bad (pad digits) 0 out padded bad (omega arith) in
                inr (inl bad, (out', start ∙ step ∙ fails))
            | inr (bs, good) ↦
                let size = length-pairs_value (pad digits) bs good in
                inl (
                  bs,
                  good,
                  omega arith,
                  start
                      ∙ step
                      ∙ decode_loop-pairs (pad digits) 0 out bs padded good (omega arith)
                      ∙ ap (λ n. some (n % u32, splice 0 bs out)) (omega arith),
                )
          ]
    ]
