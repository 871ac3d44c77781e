-- ===== src/Hex/Decode.antt =====
-- kernel/hex.c: `hex_decode` on every text.
use evmxt.Prelude.{
  ℕ, suc, ◌+◌, ◌*◌, ◌/◌, ◌%◌, ◌≤◌, ◌<◌, ◌≡◌, ap, ◌∙◌, inl, inr, List, [], ◌∷◌, none, some, arith,
  Bool-cases, Option-cases, length, All, IsByte,
}
use mathlib.Core.Path.{ap₂}
use native.Mathlib.Nat.{add-zero}
use evmxt.Memory.{splice}
use evmxt.Memory.Laws.{splice-nil, splice-append, length-splice, store_lem, >>=-eq-some}
use evmxt.Hex.{hexval, is_negative, minus_one, u32, decode_loop}
use evmxt.Hex.Spec.{digit_value, pairs_value}
use evmxt.Hex.Digits.{digit_value-lt, hexval-digit, hexval-none, join_digits, is_negative-small}

-- One round on two digits, and on a character that is none.
pub decode_loop-good :
    (c d hi low : ℕ) (rest : List ℕ) (j : ℕ) (out : List ℕ)
    → c < 256
    → d < 256
    → digit_value c ≡ some hi
    → digit_value d ≡ some low
    → j < length out
    → decode_loop (c ∷ d ∷ rest) j out
      ≡ decode_loop rest (j + 1) (splice j ((hi * 16 + low) ∷ []) out)
unfolding decode_loop
decode_loop-good c d hi low rest j out hc hd ec ed room =
    let hi_small = digit_value-lt c ec in
    let low_small = digit_value-lt d ed in
    rw (
      hexval-digit c hc ec,
      hexval-digit d hd ed,
      is_negative-small hi hi_small,
      is_negative-small low low_small,
      join_digits hi low hi_small low_small,
      store_lem j (hi * 16 + low) out room,
    )

pub decode_loop-bad_first :
    (c d : ℕ) (rest : List ℕ) (j : ℕ) (out : List ℕ)
    → c < 256
    → digit_value c ≡ none
    → decode_loop (c ∷ d ∷ rest) j out ≡ some (minus_one, out)
unfolding decode_loop
decode_loop-bad_first c d rest j out hc ec = rw (hexval-none c hc ec)

pub decode_loop-bad_second :
    (c d hi : ℕ) (rest : List ℕ) (j : ℕ) (out : List ℕ)
    → c < 256
    → d < 256
    → digit_value c ≡ some hi
    → digit_value d ≡ none
    → decode_loop (c ∷ d ∷ rest) j out ≡ some (minus_one, out)
unfolding decode_loop
decode_loop-bad_second c d hi rest j out hc hd ec ed =
    rw (hexval-digit c hc ec, hexval-none d hd ed, is_negative-small hi (digit_value-lt c ec))

decode_loop-last : (c j : ℕ) (out : List ℕ) → decode_loop (c ∷ []) j out ≡ some (minus_one, out)
unfolding decode_loop
decode_loop-last c j out = elim (Bool-cases (is_negative (hexval c))) [
  | inl bad ↦ rw bad
  | inr good ↦ rw good
]

pub pairs_value-some :
    (c d : ℕ) (rest bs : List ℕ)
    → pairs_value (c ∷ d ∷ rest) ≡ some bs
    → (hi : ℕ) × (low : ℕ) × (tail : List ℕ) × (digit_value c ≡ some hi)
      × (digit_value d ≡ some low)
      × (pairs_value rest ≡ some tail)
      × (bs ≡ (hi * 16 + low) ∷ tail)
unfolding pairs_value
pairs_value-some c d rest bs h =
    let (hi, is_hi, after_hi) = >>=-eq-some (digit_value c) _ h in
    let (low, is_low, after_low) = >>=-eq-some (digit_value d) _ after_hi in
    let (tail, is_tail, whole) = >>=-eq-some (pairs_value rest) _ after_low in
    (hi, low, tail, is_hi, is_low, is_tail, ground arith)

-- Digits in pairs, from index `j` of the buffer on.
pub decode_loop-pairs :
    (cs : List ℕ) (j : ℕ) (out bs : List ℕ)
    → All IsByte cs
    → pairs_value cs ≡ some bs
    → j + length bs ≤ length out
    → decode_loop cs j out ≡ some ((j + length bs) % u32, splice j bs out)
unfolding pairs_value decode_loop
decode_loop-pairs [] j out bs hs e room =
    let empty : bs ≡ [] = ground arith in rw (empty, splice-nil, add-zero)
decode_loop-pairs (c ∷ []) j out bs hs e room = cc
decode_loop-pairs (c ∷ d ∷ rest) j out bs (hc, (hd, hs)) e room =
    let (hi, low, tail, is_hi, is_low, is_tail, whole) = pairs_value-some c d rest bs e in
    let size : length bs ≡ suc (length tail) = ap length whole in
    let first : List ℕ = (hi * 16 + low) ∷ [] in
    decode_loop-good c d hi low rest j out hc hd is_hi is_low (omega arith)
    ∙ decode_loop-pairs rest (j + 1) (splice j first out) tail hs is_tail
        (omega (arith, length-splice j first out))
    ∙ ap₂ (λ n b. some (n % u32, b)) (omega arith)
        (splice-append j (j + 1) first tail out (omega arith) ∙ rw whole)

-- Where a character is no digit, or the last one stands alone, the loop gives -1.
pub decode_loop-bad :
    (cs : List ℕ) (j : ℕ) (out : List ℕ)
    → All IsByte cs
    → pairs_value cs ≡ none
    → j + length cs / 2 ≤ length out
    → (out' : List ℕ) × (decode_loop cs j out ≡ some (minus_one, out'))
unfolding pairs_value
decode_loop-bad [] j out hs e room = cc
decode_loop-bad (c ∷ []) j out hs e room = (out, decode_loop-last c j out)
decode_loop-bad (c ∷ d ∷ rest) j out (hc, (hd, hs)) e room = elim (Option-cases (digit_value c)) [
  | inl bad ↦ (out, decode_loop-bad_first c d rest j out hc bad)
  | inr (hi, is_hi) ↦ elim (Option-cases (digit_value d)) [
    | inl bad ↦ (out, decode_loop-bad_second c d hi rest j out hc hd is_hi bad)
    | inr (low, is_low) ↦
        let first : List ℕ = (hi * 16 + low) ∷ [] in
        let (out', fails) =
          decode_loop-bad rest (j + 1) (splice j first out) hs (ground arith)
            (omega (arith, length-splice j first out)) in
        (out', decode_loop-good c d hi low rest j out hc hd is_hi is_low (omega arith) ∙ fails)
  ]
]
