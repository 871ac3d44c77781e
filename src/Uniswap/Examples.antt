-- ===== src/Uniswap/Examples.antt =====
-- lua-lib/c-bindings/uniswap_v3.c: the theorems at a concrete library, and tests.
use evmxt.Prelude.{
  ℕ, zero, suc, ◌+◌, ◌*◌, ◌/◌, ◌^◌, ◌≤◌, ◌<◌, ◌≡◌, refl, ◌∙◌, ◌↔◌, ◌⊎◌, true, List, none, some, ltb,
  ◌==◌, arith, if◌then◌else◌,
}
use native.Mathlib.Nat.{pow-suc, one-le-pow}
use evmxt.BigEndian.{be_bytes, from_be}
use evmxt.Lua.{integer}
use evmxt.Uniswap.{
  BigNumbers, settled, integer_sqrt, newton_loop, newton_step, no_operands, parse_positive_integer,
  parse_integer, parse_ok, sqrt_price_limit_x96,
}
use evmxt.Uniswap.Libraries.{AreBigNumbers}
use evmxt.Uniswap.Sqrt.{Roots, integer_sqrt-Roots}
use evmxt.Uniswap.Price.{Prices}
use evmxt.Uniswap.Calls.{sqrt_price_limit_x96-Prices}

unfoldable bit_length : ℕ → ℕ → ℕ
bit_length zero n = 0
bit_length (suc fuel) n = let rest = bit_length fuel (n / 2) in if n == 0 then 0 else suc rest

bit_length_iff : (fuel n k : ℕ) → n ≤ fuel → (bit_length fuel n ≤ k) ↔ (n < 2 ^ k)
unfolding bit_length
bit_length_iff zero n k h =
    (λ fits. omega (arith, one-le-pow k 2 (omega arith)), λ small. omega arith)
bit_length_iff (suc fuel) n zero h = ground arith
bit_length_iff (suc fuel) n (suc k) h =
    let half = bit_length_iff fuel (n / 2) k (omega arith) in
    let power = one-le-pow k 2 (omega arith) in ground (arith, half, power, pow-suc 2 k)

abbrev numbers : BigNumbers
numbers = record {
  get_operands = true;
  get_quotient = true;
  get_next = true;
  bin2bn = λ bs. some (from_be 0 bs);
  hex2bn = λ digits. none;
  num_bits = λ n. bit_length n n;
  set_bit = λ n k. some (n + 2 ^ k);
  lshift = λ n k. some (n * 2 ^ k);
  rshift1 = λ n. some (n / 2);
  div = λ a b. some (a / b);
  add = λ a b. some (a + b);
  copy = λ n. some n;
  bn2binpad = λ n w. if ltb n (256 ^ w) then some (be_bytes w n) else none;
}

some-eq : {a b : ℕ} → some a ≡ some b → b ≡ a
some-eq h = cc h

padded_iff :
    (n w : ℕ) {bs : List ℕ}
    → (if ltb n (256 ^ w) then some (be_bytes w n) else none) ≡ some bs
    → (n < 256 ^ w) × (bs ≡ be_bytes w n)
padded_iff n w h = ground arith

numbers-AreBigNumbers : AreBigNumbers numbers
numbers-AreBigNumbers = record {
  bits = λ n k. bit_length_iff n n k (omega arith);
  power = λ k h. some-eq h ∙ (omega arith);
  shifted = λ n k h. some-eq h;
  halved = λ n h. some-eq h;
  divided = λ a b ne h. some-eq h;
  added = λ a b h. some-eq h;
  copied = λ n h. some-eq h;
  padded = λ n w h. padded_iff n w h;
  read_bytes = λ bs h. some-eq h;
}

one_parsed : parse_positive_integer numbers (integer 1) ≡ parse_ok 1
unfolding parse_positive_integer parse_integer from_be
one_parsed = refl

four_parsed : parse_positive_integer numbers (integer 4) ≡ parse_ok 4
unfolding parse_positive_integer parse_integer from_be
four_parsed = refl

integer_sqrt-Roots_example : Roots 1000 (integer_sqrt numbers 1000)
integer_sqrt-Roots_example = integer_sqrt-Roots numbers 1000 numbers-AreBigNumbers (omega arith)

thousand : integer_sqrt numbers 1000 ≡ settled 31
unfolding integer_sqrt newton_loop newton_step bit_length
thousand = refl

sqrt_price_limit_x96-Prices_example :
    (sqrt_price_limit_x96 numbers (integer 4) (integer 1) ≡ some no_operands)
    ⊎ Prices (4 * 2 ^ 192) 1 (sqrt_price_limit_x96 numbers (integer 4) (integer 1))
sqrt_price_limit_x96-Prices_example =
    sqrt_price_limit_x96-Prices numbers (integer 4) (integer 1) 4 1 numbers-AreBigNumbers
      four_parsed one_parsed
