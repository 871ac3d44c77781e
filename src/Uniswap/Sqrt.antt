-- ===== src/Uniswap/Sqrt.antt =====
-- lua-lib/c-bindings/uniswap_v3.c: `integer_sqrt` ends, and with the integer square root.
use evmxt.Prelude.{
  ℕ, zero, suc, ◌+◌, ◌-◌, ◌*◌, ◌/◌, ◌^◌, ◌≤◌, ◌<◌, ◌≡◌, refl, ap, ◌∙◌, ◌⊎◌, inl, inr, Bool, true,
  false, not, Option, none, some, Option-cases, Bool-cases, leb, arith, if◌then◌else◌,
}
use evmxt.Memory.Laws.{>>=-eq-some}
use native.Mathlib.Nat.{mul-le-mul_left, pow-suc, one-le-pow}
use evmxt.Uniswap.{
  BigNumbers, newton_step, Newton, failed, settled, newton_loop, newton_from, integer_sqrt,
}
use evmxt.Uniswap.Libraries.{AreBigNumbers}

mean_square_low : (x d t e : ℕ) → t ≡ x + e → d ≤ x + 2 * e → x * d ≤ t * t
mean_square_low x d t e same h = rw same (omega (arith, mul-le-mul_left x h))

mean_square_high : (x d t e f : ℕ) → x ≡ d + 2 * e + f → t ≡ d + e + f → x * d ≤ t * t
mean_square_high x d t e f whole same = rw (whole, same) (omega arith)

le_cases : (a b : ℕ) → (a ≤ b) ⊎ (b ≤ a)
le_cases a b = omega arith

-- A product is at most the square of the mean of its factors.
mean_square : (x d t : ℕ) → x + d ≤ 2 * t → x * d ≤ t * t
mean_square x d t h = elim (le_cases x t) [
  | inl below ↦ mean_square_low x d t (t - x) (omega arith) (omega arith)
  | inr above ↦ mean_square_high x d t (x - t) (t - (d + (x - t))) (omega arith) (omega arith)
]

-- The square root of a number, rounded down.
abbrev pub IsRoot : ℕ → ℕ → Type 0
IsRoot value root = (root * root ≤ value) × (value < (root + 1) * (root + 1))

-- A root that is not too small, and a guess that is no root yet leads to a smaller one.
abbrev IsGuess : ℕ → ℕ → Type 0
IsGuess value root = (value < (root + 1) * (root + 1)) × (0 < root)

quotient_bounds :
    (value root quotient : ℕ)
    → 0 < root
    → quotient ≡ value / root
    → (root * quotient ≤ value) × (value < root * (quotient + 1))
quotient_bounds value root quotient h e = rw e (omega arith, omega arith)

improves :
    (value root quotient next : ℕ)
    → 0 < value
    → 0 < root
    → quotient ≡ value / root
    → next ≡ (root + quotient) / 2
    → IsGuess value next × (root ≤ next → root * root ≤ value)
improves value root quotient next positive above divided halved =
    let (low, high) = quotient_bounds value root quotient above divided in
    let mean = mean_square root (quotient + 1) (next + 1) (omega (arith, halved)) in
    (
      (omega arith, least root high above halved),
      λ stays.
          let reaches : root ≤ quotient = omega (arith, halved) in
          omega (arith, mul-le-mul_left root reaches),
    )
  where
    least : (r : ℕ) → value < r * (quotient + 1) → 0 < r → next ≡ (r + quotient) / 2 → 0 < next
    least zero h a e = absurd (omega arith)
    least (suc zero) h a e = omega arith
    least (suc (suc r)) h a e = omega arith

newton_step-improves :
    (bn : BigNumbers) (value root : ℕ) {next : ℕ}
    → AreBigNumbers bn
    → 0 < value
    → 0 < root
    → newton_step bn value root ≡ some next
    → IsGuess value next × (root ≤ next → root * root ≤ value)
unfolding newton_step
newton_step-improves bn value root {next} laws positive above h =
    let (quotient, divides, rest) = >>=-eq-some (bn.div value root) _ h in
    let (sum, adds, halves) = >>=-eq-some (bn.add root quotient) _ rest in
    improves value root quotient next positive above (laws.divided value root (omega arith) divides)
      (laws.halved sum halves ∙ ap (λ n. n / 2) (laws.added root quotient adds))

-- How a computation of the root of `value` ends.
abbrev pub Roots : ℕ → Newton → Type 0
Roots value result = (result ≡ failed) ⊎ ((root : ℕ) × (result ≡ settled root) × IsRoot value root)

-- The guesses decrease, so fuel above the first is enough.
newton_loop-Roots :
    (bn : BigNumbers) (fuel value root : ℕ)
    → AreBigNumbers bn
    → 0 < value
    → IsGuess value root
    → root < fuel
    → Roots value (newton_loop bn fuel value root)
unfolding newton_loop
newton_loop-Roots bn zero value root laws positive guess enough = absurd (omega arith)
newton_loop-Roots bn (suc fuel) value root laws positive guess enough =
    elim (Option-cases (newton_step bn value root)) [
      | inl lost ↦ inl (rw (newton_loop, lost) refl)
      | inr (next, stepped) ↦
          let (better, done_if) =
            newton_step-improves bn value root laws positive guess.1 stepped in
          elim (Bool-cases (leb root next)) [
            | inl stays ↦
                inr (root, rw (newton_loop, stepped, stays) refl, (done_if (ground arith), guess.0))
            | inr moves ↦ elim (Option-cases (bn.copy next)) [
              | inl lost ↦ inl (rw (newton_loop, stepped, moves, lost) refl)
              | inr (copied, copies) ↦
                  let same = laws.copied next copies in
                  rw (newton_loop, stepped, moves, copies, same)
                    (newton_loop-Roots bn fuel value next laws positive better (ground arith))
            ]
          ]
    ]

half_power : (b : ℕ) → 2 ^ b ≤ 2 ^ ((b + 1) / 2) * 2 ^ ((b + 1) / 2)
half_power zero = omega arith
half_power (suc zero) = omega arith
half_power (suc (suc b)) =
    let half : (suc (suc b) + 1) / 2 ≡ suc ((b + 1) / 2) = omega arith in
    rw (half, pow-suc, pow-suc 2 b, pow-suc 2 ((b + 1) / 2)) (omega (arith, half_power b))

first-IsGuess : (value bits : ℕ) → value < 2 ^ bits → IsGuess value (2 ^ ((bits + 1) / 2))
first-IsGuess value bits h =
    (omega (arith, half_power bits), omega (arith, one-le-pow ((bits + 1) / 2) 2 (omega arith)))

newton_from-Roots :
    (bn : BigNumbers) (value : ℕ) (start : Option ℕ)
    → AreBigNumbers bn
    → 0 < value
    → ((root : ℕ) → start ≡ some root → IsGuess value root)
    → (got : Bool) → Roots value (if not got then failed else newton_from bn value start)
newton_from-Roots bn value start laws positive guess false = inl refl
newton_from-Roots bn value none laws positive guess true = inl refl
newton_from-Roots bn value (some root) laws positive guess true =
    newton_loop-Roots bn (suc root) value root laws positive (guess root refl) (omega arith)

-- If the big numbers obey their laws, `integer_sqrt` of a positive number ends: with the square
-- root rounded down, or with a failure of the library.
pub integer_sqrt-Roots :
    (bn : BigNumbers) (value : ℕ)
    → AreBigNumbers bn
    → 0 < value
    → Roots value (integer_sqrt bn value)
unfolding integer_sqrt
integer_sqrt-Roots bn value laws positive =
    let bits = bn.num_bits value in
    let fits = (laws.bits value bits).0 (omega arith) in
    newton_from-Roots bn value (bn.set_bit 0 ((bits + 1) / 2)) laws positive
      (λ root set. rw (laws.power ((bits + 1) / 2) set) (first-IsGuess value bits fits)) bn.get_next
