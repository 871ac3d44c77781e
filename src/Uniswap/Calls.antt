-- ===== src/Uniswap/Calls.antt =====
-- lua-lib/c-bindings/uniswap_v3.c: the operands, and a whole call from Lua.
use evmxt.Prelude.{
  ℕ, zero, suc, ◌+◌, ◌*◌, ◌/◌, ◌%◌, ◌^◌, ◌<◌, ◌≡◌, refl, sym, ap, ◌∙◌, ◌⊎◌, inl, inr, false, ◌||◌,
  List, [], ◌∷◌, ◌++◌, append_assoc, append-nil, some, Option-cases, Bool-cases, ◌==◌, arith,
}
use native.Mathlib.Nat.{pow-suc, div-div-eq-div-mul}
use native.Mathlib.Numerals.{add-one}
use evmxt.BigEndian.{be_bytes, from_be}
use evmxt.BigEndian.Laws.{from_be-be_bytes}
use evmxt.Lua.{LuaValue, nil, boolean, integer, float, string, table, other, is_negative}
use evmxt.Uniswap.{
  BigNumbers, parse_ok, integer_bytes, parse_integer, parsed_hex, parse_hex, parse_positive_integer,
  no_operands, sqrt_price_limit_x96,
}
use evmxt.Uniswap.Libraries.{AreBigNumbers}
use evmxt.Uniswap.Price.{Prices, price_limit-Prices}

integer_bytes_lem :
    (rounds i value : ℕ) (filled : List ℕ)
    → integer_bytes rounds i value filled ≡ be_bytes rounds (value / 256 ^ i) ++ filled
unfolding integer_bytes be_bytes
integer_bytes_lem zero i value filled = refl
integer_bytes_lem (suc rounds) i value filled =
    let byte = value / 256 ^ i % 256 in
    let next : value / 256 ^ (i + 1) ≡ value / 256 ^ i / 256 =
      rw (add-one, pow-suc) (sym (div-div-eq-div-mul value (256 ^ i) 256)) in
    integer_bytes_lem rounds (i + 1) value (byte ∷ filled)
    ∙ rw next (sym (append_assoc (be_bytes rounds (value / 256 ^ i / 256)) (byte ∷ []) filled))

positive_integer :
    (value : ℕ) → (is_negative value || value == 0) ≡ false → (0 < value) × (value < 256 ^ 8)
positive_integer value h = ground arith

eight_bytes : (value : ℕ) → value < 256 ^ 8 → from_be 0 (integer_bytes 8 0 value []) ≡ value
eight_bytes value small =
    let whole : value / 256 ^ 0 ≡ value = omega arith in
    ap (from_be 0) (integer_bytes_lem 8 0 value [] ∙ append-nil (be_bytes 8 (value / 256 ^ 0)))
    ∙ rw whole (from_be-be_bytes 8 value small)

-- An integer that is accepted is read as it is, and is positive.
parse_integer-ok :
    (bn : BigNumbers) (value : ℕ) {n : ℕ}
    → AreBigNumbers bn
    → parse_integer bn value ≡ parse_ok n
    → (n ≡ value) × (0 < n)
unfolding parse_integer
parse_integer-ok bn value {n} laws h = elim (Bool-cases (is_negative value || value == 0)) [
  | inl refused ↦ cc (rw refused at h)
  | inr accepted ↦ elim (Option-cases (bn.bin2bn (integer_bytes 8 0 value []))) [
    | inl lost ↦ cc (rw (accepted, lost) at h)
    | inr (m, reads) ↦
        let same : n ≡ m = cc (rw (accepted, reads) at h) in
        let range = positive_integer value accepted in
        let read = laws.read_bytes (integer_bytes 8 0 value []) reads ∙ eight_bytes value range.1 in
        (same ∙ read, omega (arith, same, read, range.0))
  ]
]

parse_hex-ok : (bn : BigNumbers) (hex : List ℕ) {n : ℕ} → parse_hex bn hex ≡ parse_ok n → 0 < n
unfolding parse_hex parsed_hex
parse_hex-ok bn [] h = ground arith
parse_hex-ok bn (c₀ ∷ []) h = ground arith
parse_hex-ok bn (c₀ ∷ c₁ ∷ []) h = ground arith
parse_hex-ok bn (c₀ ∷ c₁ ∷ c₂ ∷ digits) h = ground arith

parse_positive_integer-positive :
    (bn : BigNumbers) (v : LuaValue) {n : ℕ}
    → AreBigNumbers bn
    → parse_positive_integer bn v ≡ parse_ok n
    → 0 < n
unfolding parse_positive_integer
parse_positive_integer-positive bn nil laws h = cc h
parse_positive_integer-positive bn (boolean b) laws h = cc h
parse_positive_integer-positive bn (integer value) laws h = (parse_integer-ok bn value laws h).1
parse_positive_integer-positive bn (float text) laws h = parse_hex-ok bn text h
parse_positive_integer-positive bn (string hex) laws h = parse_hex-ok bn hex h
parse_positive_integer-positive bn (table t) laws h = cc h
parse_positive_integer-positive bn other laws h = cc h

-- If the big numbers obey their laws and both operands parse as positive amounts,
-- `sqrt_price_limit_x96` either cannot get its operands, or ends in one of four ways: with the
-- shortest hexadecimal text of the square root, rounded down, of the first amount times 2^192 over
-- the second, which is positive and less than 2^160; with an underflow, when that ratio is less
-- than one; with an overflow, when the root does not fit 160 bits; or with a failure of the
-- library.
pub sqrt_price_limit_x96-Prices :
    (bn : BigNumbers) (v₁ v₀ : LuaValue) (amount1 amount0 : ℕ)
    → AreBigNumbers bn
    → parse_positive_integer bn v₁ ≡ parse_ok amount1
    → parse_positive_integer bn v₀ ≡ parse_ok amount0
    → (sqrt_price_limit_x96 bn v₁ v₀ ≡ some no_operands)
      ⊎ Prices (amount1 * 2 ^ 192) amount0 (sqrt_price_limit_x96 bn v₁ v₀)
unfolding sqrt_price_limit_x96
sqrt_price_limit_x96-Prices bn v₁ v₀ amount1 amount0 laws h₁ h₀ =
    elim (Bool-cases bn.get_operands) [
      | inr refused ↦ inl (rw refused refl)
      | inl got ↦ inr (
          simp (got, h₁, h₀)
            (price_limit-Prices bn amount1 amount0 laws
              (parse_positive_integer-positive bn v₁ laws h₁)
              (parse_positive_integer-positive bn v₀ laws h₀)))
    ]
