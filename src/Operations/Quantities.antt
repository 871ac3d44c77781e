-- ===== src/Operations/Quantities.antt =====
-- kernel/operations.c: `bytes_to_uint64`, and the numbers that the node answers.
use evmxt.Prelude.{
  ℕ, ◌+◌, ◌*◌, ◌%◌, ◌^◌, ◌≤◌, ◌<◌, ◌≡◌, refl, sym, ◌∙◌, subst, inl, inr, List, [], ◌∷◌, some, arith,
  length, All, IsByte, Bool-cases, ltb, ltb→ge,
}
use mathlib.Core.Option.{some-injective}
use native.Mathlib.Nat.{pow-suc, one-le-pow, mul-le-mul_left, pow-le-pow_right}
use evmxt.BigEndian.{from_be}
use evmxt.BigEndian.Laws.{digit_room}
use evmxt.Hex.Spec.{pairs_value, digits_value}
use evmxt.Hex.Digits.{digit_value-lt}
use evmxt.Hex.Decode.{pairs_value-some}
use evmxt.Lua.{lua_max_integer}
use evmxt.Operations.{gives, bytes_loop, bytes_to_uint64, decode_positive}
use evmxt.Operations.Laws.{Reads, decode_positive-Reads, >>?-eq-gives, gives-injective}
use evmxt.Operations.Queries.{lua_number, chain_id_of}

bytes_loop-from_be :
    (bs : List ℕ) (value : ℕ)
    → All IsByte bs
    → (value + 1) * 256 ^ length bs ≤ 2 ^ 64
    → bytes_loop bs value ≡ from_be value bs
unfolding bytes_loop from_be
bytes_loop-from_be [] value hs room = refl
bytes_loop-from_be (b ∷ bs) value (hb, hs) room =
    let p = 256 ^ length bs in
    let wide : (value + 1) * (p * 256) ≤ 2 ^ 64 = rw (pow-suc 256 (length bs)) at room in
    let positive : 1 ≤ p = one-le-pow (length bs) 256 (omega arith) in
    let next = digit_room value b p hb in
    let wider = mul-le-mul_left (value + 1) (let h : 256 ≤ p * 256 = omega arith in h) in
    let small : value * 256 < 2 ^ 64 = omega arith in
    let kept : value * 256 % 2 ^ 64 ≡ value * 256 = omega arith in
    rw kept (bytes_loop-from_be bs (value * 256 + b) hs (omega arith))

pairs_value-IsByte : (cs : List ℕ) {bs : List ℕ} → pairs_value cs ≡ some bs → All IsByte bs
unfolding pairs_value
pairs_value-IsByte [] {bs} h = subst (All IsByte) (some-injective [] bs h) tt
pairs_value-IsByte (c ∷ []) h = cc
pairs_value-IsByte (c ∷ d ∷ rest) {bs} h =
    let (hi, low, tail, is_hi, is_low, is_tail, whole) = pairs_value-some c d rest bs h in
    let first : hi * 16 + low < 256 =
      omega (arith, digit_value-lt c is_hi, digit_value-lt d is_low) in
    subst (All IsByte) (sym whole) (first, pairs_value-IsByte rest is_tail)

pub Reads-IsByte : (text : List ℕ) {bs : List ℕ} → Reads text bs → All IsByte bs
unfolding digits_value
Reads-IsByte text h = pairs_value-IsByte _ h

lua_number-value :
    (bytes : List ℕ) {n : ℕ}
    → All IsByte bytes
    → length bytes ≤ 8
    → lua_number bytes ≡ gives n
    → (n ≡ from_be 0 bytes) × (n ≤ lua_max_integer)
unfolding lua_number bytes_to_uint64
lua_number-value bytes {n} hs short h =
    let room : 256 ^ length bytes ≤ 256 ^ 8 = pow-le-pow_right {n = 256} (omega arith) short in
    let value = bytes_loop-from_be bytes 0 hs (omega arith) in
    elim (Bool-cases (ltb lua_max_integer (bytes_loop bytes 0))) [
      | inl large ↦ let no = rw large at h in cc
      | inr fits ↦
          let same = gives-injective (bytes_loop bytes 0) n (rw fits at h) in
          (sym same ∙ value, omega (arith, same, ltb→ge lua_max_integer (bytes_loop bytes 0) fits))
    ]

-- A chain id that is read from an answer of bytes is the number that the answer's hexadecimal
-- digits stand for, without a wrap-around, and fits a Lua integer.
pub chain_id_of_lem :
    (response : List ℕ) {n : ℕ}
    → All IsByte response
    → chain_id_of response ≡ gives n
    → (bs : List ℕ) × Reads response bs × (n ≡ from_be 0 bs) × (n ≤ lua_max_integer)
unfolding chain_id_of
chain_id_of_lem [] hs h = cc
chain_id_of_lem (c ∷ response) hs h =
    let (bs, decoded, last) = >>?-eq-gives (decode_positive 8 (c ∷ response)) lua_number h in
    let (right, some_bytes, short) =
      decode_positive-Reads 8 (c ∷ response) (λ e. cc) hs (omega arith) decoded in
    let (value, bounded) = lua_number-value bs (Reads-IsByte (c ∷ response) right) short last in
    (bs, right, value, bounded)
