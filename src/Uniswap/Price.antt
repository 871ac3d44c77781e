-- ===== src/Uniswap/Price.antt =====
-- lua-lib/c-bindings/uniswap_v3.c: the price limit is floor(sqrt(amount1 / amount0) * 2^96).
use evmxt.Prelude.{
  ℕ, zero, suc, ◌+◌, ◌*◌, ◌/◌, ◌^◌, ◌≤◌, ◌<◌, ◌≡◌, refl, ap, ◌∙◌, ◌⊎◌, inl, inr, Option, some,
  Option-cases, Bool-cases, ltb, ltb→lt, ltb→ge, ◌==◌, ==_iff, arith,
}
use native.Mathlib.Nat.{mul-le-mul_left, mul-le-mul_right}
use evmxt.BigEndian.{be_bytes}
use evmxt.Hex.Spec.{quantity_text}
use evmxt.Uniswap.{
  BigNumbers, settled, integer_sqrt, SqrtPrice, pushed, underflows, exceeds, not_computed,
  price_root, price_quotient, price_limit,
}
use evmxt.Uniswap.Libraries.{AreBigNumbers}
use evmxt.Uniswap.Sqrt.{IsRoot, integer_sqrt-Roots}
use evmxt.Uniswap.Text.{push_uint160_hex-text}

-- The square root of the quotient of two numbers, rounded down once.
abbrev pub IsRatioRoot : ℕ → ℕ → ℕ → Type 0
IsRatioRoot top bottom root =
    (root * root * bottom ≤ top) × (top < (root + 1) * (root + 1) * bottom)

division :
    (top bottom : ℕ)
    → 0 < bottom
    → (top / bottom * bottom ≤ top) × (top < (top / bottom + 1) * bottom)
division top bottom h = (omega arith, omega arith)

-- Taking the integer quotient first does not change the final floor.
root_of_quotient :
    (top bottom root : ℕ) → 0 < bottom → IsRoot (top / bottom) root → IsRatioRoot top bottom root
root_of_quotient top bottom root h (low, high) =
    let (below, above) = division top bottom h in
    (omega (arith, mul-le-mul_right bottom low), omega (arith, mul-le-mul_right bottom high))

-- How the computation ends: with the text of the root, with the error that fits the ratio, or with
-- a failure of the library.
abbrev pub Prices : ℕ → ℕ → Option SqrtPrice → Type 0
Prices top bottom result =
    ((root : ℕ) × (result ≡ some (pushed (quantity_text (be_bytes 20 root))))
      × IsRatioRoot top bottom root
      × (0 < root)
      × (root < 2 ^ 160))
    ⊎ ((result ≡ some underflows) × (top < bottom))
    ⊎ ((result ≡ some exceeds) × (2 ^ 160 * 2 ^ 160 * bottom ≤ top))
    ⊎ (result ≡ some not_computed)

lt_or_ge : (a b : ℕ) → (a < b) ⊎ (b ≤ a)
lt_or_ge a b = omega arith

wide_power : (bn : BigNumbers) (n k : ℕ) → AreBigNumbers bn → k < bn.num_bits n → 2 ^ k ≤ n
wide_power bn n k laws h = elim (lt_or_ge n (2 ^ k)) [
  | inl small ↦ absurd (omega (arith, (laws.bits n k).1 small))
  | inr large ↦ large
]

price_root-pushes :
    (bn : BigNumbers) (root : ℕ)
    → AreBigNumbers bn
    → 0 < root
    → ((price_root bn (settled root) ≡ some (pushed (quantity_text (be_bytes 20 root))))
        × (root < 2 ^ 160))
      ⊎ ((price_root bn (settled root) ≡ some exceeds) × (2 ^ 160 ≤ root))
      ⊎ (price_root bn (settled root) ≡ some not_computed)
unfolding price_root
price_root-pushes bn root laws positive = elim (Bool-cases (ltb 160 (bn.num_bits root))) [
  | inl wide ↦
      inr (inl (rw wide refl, wide_power bn root 160 laws (ltb→lt 160 (bn.num_bits root) wide)))
  | inr narrow ↦
      let small = (laws.bits root 160).0 (ltb→ge 160 (bn.num_bits root) narrow) in
      elim (push_uint160_hex-text bn root laws positive) [
        | inl lost ↦ inr (inr (rw (narrow, lost) refl))
        | inr (text, fits) ↦ inl (rw (narrow, text) refl, small)
      ]
]

square_large : (root : ℕ) → 2 ^ 160 ≤ root → 2 ^ 160 * 2 ^ 160 ≤ root * root
square_large root h = omega (arith, mul-le-mul_left root h)

root_positive : (value root : ℕ) → 0 < value → value < (root + 1) * (root + 1) → 0 < root
root_positive value zero h k = absurd (omega arith)
root_positive value (suc root) h k = omega arith

price_settled-Prices :
    (bn : BigNumbers) (top bottom root : ℕ)
    → AreBigNumbers bn
    → 0 < root
    → IsRatioRoot top bottom root
    → Prices top bottom (price_root bn (settled root))
price_settled-Prices bn top bottom root laws positive (low, high) =
    elim (price_root-pushes bn root laws positive) [
      | inl (text, small) ↦ inl (root, text, (low, high), positive, small)
      | inr (inl (over, wide)) ↦
          let big = mul-le-mul_right bottom (square_large root wide) in
          inr (inr (inl (over, omega arith)))
      | inr (inr lost) ↦ inr (inr (inr lost))
    ]

price_sqrt-Prices :
    (bn : BigNumbers) (top bottom : ℕ)
    → AreBigNumbers bn
    → 0 < bottom
    → 0 < top / bottom
    → Prices top bottom (price_root bn (integer_sqrt bn (top / bottom)))
price_sqrt-Prices bn top bottom laws h positive =
    elim (integer_sqrt-Roots bn (top / bottom) laws positive) [
      | inl lost ↦ inr (inr (inr (rw lost (unfold price_root in refl))))
      | inr (root, found, is_root) ↦ rw found (
          price_settled-Prices bn top bottom root laws
            (root_positive (top / bottom) root positive is_root.1)
            (root_of_quotient top bottom root h is_root))
    ]

price_quotient-Prices :
    (bn : BigNumbers) (top bottom : ℕ)
    → AreBigNumbers bn
    → 0 < bottom
    → Prices top bottom (price_quotient bn (some (top / bottom)))
unfolding price_quotient
price_quotient-Prices bn top bottom laws h =
    let quotient = top / bottom in
    let (below, above) = division top bottom h in
    elim (Bool-cases (quotient == 0)) [
      | inl none_left ↦
          let empty = (==_iff quotient 0).0 none_left in
          let near : top < (0 + 1) * bottom = rw empty at above in
          inr (inl (rw none_left refl, omega (arith, near)))
      | inr some_left ↦ elim (Bool-cases (ltb 320 (bn.num_bits quotient))) [
        | inl wide ↦
            let least = wide_power bn quotient 320 laws (ltb→lt 320 (bn.num_bits quotient) wide) in
            inr
              (inr (inl (rw (some_left, wide) refl, omega (arith, mul-le-mul_right bottom least))))
        | inr narrow ↦
            rw (some_left, narrow) (price_sqrt-Prices bn top bottom laws h (ground arith))
      ]
    ]

-- The price limit of two positive amounts.
pub price_limit-Prices :
    (bn : BigNumbers) (amount1 amount0 : ℕ)
    → AreBigNumbers bn
    → 0 < amount1
    → 0 < amount0
    → Prices (amount1 * 2 ^ 192) amount0 (price_limit bn amount1 amount0)
unfolding price_limit
price_limit-Prices bn amount1 amount0 laws h₁ h₀ = elim (Bool-cases bn.get_quotient) [
  | inr refused ↦ inr (inr (inr (rw refused refl)))
  | inl got ↦ elim (Option-cases (bn.lshift amount1 192)) [
    | inl lost ↦ inr (inr (inr (simp (got, lost) (unfold price_quotient in refl))))
    | inr (scaled, shifts) ↦ elim (Option-cases (bn.div scaled amount0)) [
      | inl lost ↦ inr (inr (inr (simp (got, shifts, lost) (unfold price_quotient in refl))))
      | inr (quotient, divides) ↦
          let s = laws.shifted amount1 192 shifts in
          let q = laws.divided scaled amount0 (omega arith) divides ∙ ap (λ n. n / amount0) s in
          simp (got, shifts, divides, q)
            (price_quotient-Prices bn (amount1 * 2 ^ 192) amount0 laws h₀)
    ]
  ]
]
