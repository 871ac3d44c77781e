-- ===== src/Uniswap/Text.antt =====
-- lua-lib/c-bindings/uniswap_v3.c: `push_uint160_hex` and the quantity text of hex.c.
use evmxt.Prelude.{
  ℕ, suc, ◌+◌, ◌*◌, ◌/◌, ◌%◌, ◌^◌, ◌≤◌, ◌<◌, ◌≡◌, ◌≢◌, refl, sym, ap, ◌∙◌, ◌⊎◌, inl, inr, List, [],
  ◌∷◌, ◌++◌, none, some, Option-cases, Bool-cases, ltb, ◌==◌, arith, length, replicate, take, drop,
  take_front, length-append_bytes,
}
use evmxt.Memory.{splice}
use evmxt.Memory.Laws.{store_lem, splice-append, length-splice, splice-zero, splice-nil}
use evmxt.BigEndian.{be_bytes, from_be}
use evmxt.BigEndian.Laws.{from_be-be_bytes, length-be_bytes}
use evmxt.Hex.{hex_digit, skip_zeroes, format_x}
use evmxt.Hex.Spec.{hex_digits, quantity_digits, quantity_text}
use evmxt.Hex.Encode.{length-hex_digits}
use evmxt.Hex.Quantity.{from_be-skip_zeroes}
use evmxt.Uniswap.{
  BigNumbers, first_nonzero, encode_bytes, encode_shortest, blank_text, push_bytes,
  push_uint160_hex,
}
use evmxt.Uniswap.Libraries.{AreBigNumbers}

encode_bytes_lem :
    (bs : List ℕ) (output : ℕ) (encoded : List ℕ)
    → output + 2 * length bs ≤ length encoded
    → encode_bytes bs output encoded
      ≡ some (output + 2 * length bs, splice output (hex_digits bs) encoded)
unfolding encode_bytes hex_digits
encode_bytes_lem [] output encoded room =
    let same : output + 0 ≡ output = omega arith in rw (same, splice-nil)
encode_bytes_lem (b ∷ bs) output encoded room =
    let high = hex_digit (b / 16) ∷ [] in
    let low = hex_digit (b % 16) ∷ [] in
    let one = splice output high encoded in
    let place : output + 2 + 2 * length bs ≡ output + 2 * suc (length bs) = omega arith in
    let front = splice-append output (output + 1) high low encoded refl in
    rw
      (
        store_lem output (hex_digit (b / 16)) encoded (omega arith),
        store_lem (output + 1) (hex_digit (b % 16)) one
            (omega (arith, length-splice output high encoded)),
        front,
      )
      (encode_bytes_lem bs (output + 2) (splice output (high ++ low) encoded)
          (omega (arith, length-splice output (high ++ low) encoded))
        ∙ rw (place, splice-append output (output + 2) (high ++ low) (hex_digits bs) encoded refl)
            refl)

first_nonzero_lem : (bs : List ℕ) → from_be 0 bs ≢ 0 → first_nonzero bs ≡ some (skip_zeroes bs)
unfolding first_nonzero skip_zeroes from_be
first_nonzero_lem [] h = absurd (h refl)
first_nonzero_lem (b ∷ bs) h = elim (Bool-cases (b == 0)) [
  | inl zero_byte ↦
      let same : 0 * 256 + b ≡ 0 = ground arith in
      rw zero_byte (first_nonzero_lem bs (rw same at h))
  | inr other ↦ rw other refl
]

length-skip_zeroes : (bs : List ℕ) → length (skip_zeroes bs) ≤ length bs
unfolding skip_zeroes
length-skip_zeroes [] = omega arith
length-skip_zeroes (b ∷ bs) = ground (arith, length-skip_zeroes bs)

encode_shortest_lem :
    (b : ℕ) (bs encoded : List ℕ)
    → 2 + 2 * length (b ∷ bs) ≤ length encoded
    → encode_shortest (b ∷ bs) encoded
      ≡ some (2 + length (quantity_digits (b ∷ bs)), splice 2 (quantity_digits (b ∷ bs)) encoded)
unfolding encode_shortest quantity_digits
encode_shortest_lem b bs encoded room = elim (Bool-cases (ltb b 16)) [
  | inl short ↦
      let one = splice 2 (hex_digit b ∷ []) encoded in
      let size : 3 + 2 * length bs ≡ 2 + suc (length (hex_digits bs)) =
        omega (arith, length-hex_digits bs) in
      rw (short, store_lem 2 (hex_digit b) encoded (omega arith))
        (encode_bytes_lem bs 3 one (omega (arith, length-splice 2 (hex_digit b ∷ []) encoded))
          ∙ rw (size, splice-append 2 3 (hex_digit b ∷ []) (hex_digits bs) encoded refl) refl)
  | inr long ↦
      let size : 2 + 2 * length (b ∷ bs) ≡ 2 + suc (suc (length (hex_digits bs))) =
        omega (arith, length-hex_digits bs) in
      rw long (encode_bytes_lem (b ∷ bs) 2 encoded room ∙ rw size (unfold hex_digits in refl))
]

take_text :
    (ds : List ℕ)
    → length ds ≤ 40
    → take (2 + length ds) (splice 2 ds blank_text) ≡ b'0' ∷ b'x' ∷ ds
unfolding splice
take_text ds short =
    let rest = drop (length ds) zeros in
    let two : 2 + length ds ≡ suc (suc (length ds)) = omega arith in
    rw two (
      ap (λ xs. b'0' ∷ b'x' ∷ take (length ds) xs) (splice-zero ds zeros (omega arith))
      ∙ ap (λ xs. b'0' ∷ b'x' ∷ xs) (take_front ds rest))
  where
    zeros : List ℕ
    zeros = replicate 40 0

List-cases : (xs : List ℕ) → (xs ≡ []) ⊎ ((b : ℕ) × (bs : List ℕ) × (xs ≡ b ∷ bs))
List-cases [] = inl refl
List-cases (b ∷ bs) = inr (b, bs, refl)

length-format_x-le : (b : ℕ) → length (format_x b) ≤ 2
length-format_x-le b = ground arith

length-quantity_digits :
    (b : ℕ) (bs : List ℕ) → length (quantity_digits (b ∷ bs)) ≤ 2 * length (b ∷ bs)
unfolding quantity_digits
length-quantity_digits b bs = omega (
  arith,
  length-append_bytes (format_x b) (hex_digits bs),
  length-hex_digits bs,
  length-format_x-le b,
)

push_kept :
    (bytes : List ℕ) (b : ℕ) (bs : List ℕ)
    → from_be 0 bytes ≢ 0
    → length bytes ≡ 20
    → skip_zeroes bytes ≡ b ∷ bs
    → push_bytes (some bytes) ≡ some (some (quantity_text bytes))
unfolding push_bytes quantity_text
push_kept bytes b bs nonzero long kept =
    let short : length (b ∷ bs) ≤ 20 = omega (arith, length-skip_zeroes bytes, ap length kept) in
    rw (first_nonzero_lem bytes nonzero, kept, encode_shortest_lem b bs blank_text (omega arith))
      (ap (λ text. some (some text))
        (take_text (quantity_digits (b ∷ bs)) (omega (arith, length-quantity_digits b bs))))

push_bytes_lem :
    (bytes : List ℕ)
    → from_be 0 bytes ≢ 0
    → length bytes ≡ 20
    → push_bytes (some bytes) ≡ some (some (quantity_text bytes))
push_bytes_lem bytes nonzero long = elim (List-cases (skip_zeroes bytes)) [
  | inl none_left ↦
      absurd (nonzero (sym (from_be-skip_zeroes bytes) ∙ rw none_left (unfold from_be in refl)))
  | inr (b, bs, kept) ↦ push_kept bytes b bs nonzero long kept
]

-- `push_uint160_hex` of a positive number stays inside its arrays, and pushes the quantity text of
-- the number's 20 bytes, or fails.
pub push_uint160_hex-text :
    (bn : BigNumbers) (value : ℕ)
    → AreBigNumbers bn
    → 0 < value
    → (push_uint160_hex bn value ≡ some none)
      ⊎ ((push_uint160_hex bn value ≡ some (some (quantity_text (be_bytes 20 value))))
          × (value < 256 ^ 20))
unfolding push_uint160_hex
push_uint160_hex-text bn value laws positive = elim (Option-cases (bn.bn2binpad value 20)) [
  | inl lost ↦ inl (rw lost (unfold push_bytes in refl))
  | inr (bytes, padded) ↦
      let (small, same) = laws.padded value 20 padded in
      let whole = from_be-be_bytes 20 value small in
      inr (
        rw (padded, same)
            (push_bytes_lem (be_bytes 20 value) (omega (arith, whole)) (length-be_bytes 20 value)),
        small,
      )
]
