-- ===== src/Hex/Digits.antt =====
-- kernel/hex.c: the branchless digit test against the plain one, over all characters.
use evmxt.Prelude.{
  ℕ, ◌+◌, ◌*◌, ◌/◌, ◌%◌, ◌<◌, ◌≡◌, refl, ap, ◌∙◌, true, false, none, some, arith, ◌==◌, ==_iff,
  passes_below, passes_below_each, bit_or,
}
use evmxt.Hex.{hexval, is_negative, minus_one, hex_digit}
use evmxt.Hex.Spec.{digit_value}
use mathlib.Core.Option

abbrev expected : ℕ → ℕ
expected c = Option.get_or (digit_value c) minus_one

hexval_table : passes_below (λ c. hexval c == expected c) 256 ≡ true
unfolding passes_below hexval digit_value
hexval_table = refl

-- On every byte, the branch-free `hexval` is the digit's value, or -1 for a character that is no
-- digit.
pub hexval_lem : (c : ℕ) → c < 256 → hexval c ≡ Option.get_or (digit_value c) minus_one
hexval_lem c h = (==_iff _ _).0 (passes_below_each _ 256 hexval_table c h)

pub digit_value-lt : (c : ℕ) {v : ℕ} → digit_value c ≡ some v → v < 16
unfolding digit_value
digit_value-lt c h = ground arith

pub hexval-digit : (c : ℕ) {v : ℕ} → c < 256 → digit_value c ≡ some v → hexval c ≡ v
hexval-digit c h e = hexval_lem c h ∙ ap (λ o. Option.get_or o minus_one) e

pub hexval-none : (c : ℕ) → c < 256 → digit_value c ≡ none → hexval c ≡ minus_one
hexval-none c h e = hexval_lem c h ∙ ap (λ o. Option.get_or o minus_one) e

join_table : passes_below (λ x. bit_or (x / 16 * 16) (x % 16) % 256 == x) 256 ≡ true
unfolding passes_below
join_table = refl

-- `(uint8_t)(hi << 4 | low)` of two digits.
pub join_digits : (hi low : ℕ) → hi < 16 → low < 16 → bit_or (hi * 16) low % 256 ≡ hi * 16 + low
join_digits hi low p q =
    let joined =
      (==_iff _ _).0 (passes_below_each _ 256 join_table (hi * 16 + low) (omega arith)) in
    let top : (hi * 16 + low) / 16 ≡ hi = omega arith in
    let bottom : (hi * 16 + low) % 16 ≡ low = omega arith in rw (top, bottom) at joined

pub is_negative-small : (v : ℕ) → v < 16 → is_negative v ≡ false
is_negative-small v h = ground arith

-- The digits that `sprintf` prints are read back.
pub digit_value-hex_digit : (n : ℕ) → n < 16 → digit_value (hex_digit n) ≡ some n
unfolding digit_value
digit_value-hex_digit n h = ground arith

pub hex_digit-IsByte : (n : ℕ) → n < 16 → hex_digit n < 256
hex_digit-IsByte n h = ground arith
