-- ===== src/Eip1559/Amounts.antt =====
-- kernel/eip_1559_tx.c: amounts as 32 big-endian bytes, and their order.
use evmxt.Prelude.{
  ℕ, zero, suc, ◌+◌, ◌*◌, ◌/◌, ◌%◌, ◌^◌, ◌≤◌, ◌<◌, ◌≡◌, refl, sym, ap, ◌∙◌, ◌↔◌, ◌⊎◌, inl, inr,
  append-nil, true, false, List, [], ◌∷◌, ◌++◌, append_assoc, some, arith, ◌==◌, length, replicate,
  All, IsByte,
}
use evmxt.Memory.{size_max, store}
use evmxt.BigEndian.{be_bytes, from_be}
use evmxt.BigEndian.Laws.{be_bytes-suc, be_bytes-zero}
use evmxt.Eip1559.{uint256_loop, eip_1559_uint256, memcmp_greater}

-- A store at the last of some zeroes.
store-last :
    (p v : ℕ) (rest : List ℕ)
    → store p v (replicate (suc p) 0 ++ rest) ≡ some (replicate p 0 ++ (v ∷ rest))
unfolding store
store-last zero v rest = refl
store-last (suc p) v rest = rw (store-last p v rest) refl

uint256_loop_lem :
    (fuel position value : ℕ) (rest : List ℕ)
    → value ≤ fuel
    → value < 256 ^ position
    → uint256_loop fuel position value (replicate position 0 ++ rest)
      ≡ some (be_bytes position value ++ rest)
unfolding uint256_loop
uint256_loop_lem zero position zero rest enough small = rw be_bytes-zero refl
uint256_loop_lem zero position (suc value) rest enough small = absurd (omega arith)
uint256_loop_lem (suc fuel) zero zero rest enough small = unfold be_bytes in refl
uint256_loop_lem (suc fuel) (suc position) zero rest enough small = rw be_bytes-zero refl
uint256_loop_lem (suc fuel) zero (suc value) rest enough small = absurd (omega arith)
uint256_loop_lem (suc fuel) (suc position) (suc value) rest enough small =
    let last = suc value % 256 in
    let nonzero : (suc value == 0) ≡ false = ground arith in
    rw (nonzero, store-last position last rest)
      (uint256_loop_lem fuel position (suc value / 256) (last ∷ rest) (omega arith) (omega arith)
        ∙ ap some (
            sym (append_assoc (be_bytes position (suc value / 256)) (last ∷ []) rest)
            ∙ ap (λ bs. bs ++ rest) (sym (be_bytes-suc position (suc value)))))

-- `eip_1559_uint256` of a 64-bit number stays inside the array and leaves the number as 32 big-
-- endian bytes.
pub eip_1559_uint256_lem :
    (value : ℕ) → value ≤ size_max → eip_1559_uint256 value ≡ some (be_bytes 32 value)
unfolding eip_1559_uint256
eip_1559_uint256_lem value small =
    ap (uint256_loop value 32 value) (sym (append-nil (replicate 32 0)))
    ∙ uint256_loop_lem value 32 value [] (omega arith) (omega arith)
    ∙ ap some (append-nil (be_bytes 32 value))

-- A higher digit outweighs all that follow.
from_be_higher :
    (m n : ℕ) (xs ys : List ℕ)
    → m < n
    → All IsByte xs
    → length xs ≡ length ys
    → from_be m xs < from_be n ys
unfolding from_be
from_be_higher m n [] [] h hx e = h
from_be_higher m n [] (y ∷ ys) h hx e = absurd (omega arith)
from_be_higher m n (x ∷ xs) [] h hx e = absurd (omega arith)
from_be_higher m n (x ∷ xs) (y ∷ ys) h (hx, hxs) e =
    from_be_higher (m * 256 + x) (n * 256 + y) xs ys (omega arith) hxs (omega arith)

compare_cases : (a b : ℕ) → (a < b) ⊎ (a ≡ b) ⊎ (b < a)
compare_cases a b = ground arith

memcmp_greater_from :
    (acc : ℕ) (left right : List ℕ)
    → All IsByte left
    → All IsByte right
    → length left ≡ length right
    → (memcmp_greater left right ≡ true) ↔ (from_be acc right < from_be acc left)
unfolding memcmp_greater from_be
memcmp_greater_from acc [] [] hl hr same = ground arith
memcmp_greater_from acc [] (b ∷ right) hl hr same = absurd (omega arith)
memcmp_greater_from acc (a ∷ left) [] hl hr same = absurd (omega arith)
memcmp_greater_from acc (a ∷ left) (b ∷ right) (ha, hl) (hb, hr) same = elim (compare_cases a b) [
  | inl below ↦
      let less =
        from_be_higher (acc * 256 + a) (acc * 256 + b) left right (omega arith) hl (omega arith) in
      ground (arith, less)
  | inr (inl equal) ↦
      let later = memcmp_greater_from (acc * 256 + a) left right hl hr (omega arith) in
      ground (arith, later, equal)
  | inr (inr above) ↦
      let more =
        from_be_higher (acc * 256 + b) (acc * 256 + a) right left (omega arith) hr (omega arith) in
      ground (arith, more)
]

-- On big-endian byte arrays of one length, `memcmp(left, right) > 0` exactly when the left number
-- is greater.
pub memcmp_greater_iff :
    (left right : List ℕ)
    → All IsByte left
    → All IsByte right
    → length left ≡ length right
    → (memcmp_greater left right ≡ true) ↔ (from_be 0 right < from_be 0 left)
memcmp_greater_iff left right hl hr same = memcmp_greater_from 0 left right hl hr same
