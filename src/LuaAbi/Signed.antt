-- ===== src/LuaAbi/Signed.antt =====
-- kernel/abi.c: `abi_int64` as the two's complement of its integer.
use evmxt.Prelude.{
  ℕ, zero, suc, ◌+◌, ◌-◌, ◌*◌, ◌^◌, ◌≤◌, ◌<◌, ◌≡◌, refl, sym, ap, ◌∙◌, List, [], ◌∷◌, ◌++◌, some,
  arith, leb, length, replicate, append-nil, length-append_bytes, All, All-append, IsByte,
  if◌then◌else◌, Bool-cases, inl, inr,
}
use mathlib.Core.Option.{some-injective}
use native.Mathlib.Nat.{pow-suc}
use evmxt.Memory.{size_max, splice}
use evmxt.Memory.Laws.{splice_whole, splice_middle}
use evmxt.BigEndian.{be_bytes, from_be}
use evmxt.BigEndian.Laws.{
  be_bytes-from_be, be_bytes-IsByte, length-be_bytes, from_be-be_bytes, from_be-append,
}
use evmxt.Abi.{word, word_loop, abi_int64, zeros}
use evmxt.Abi.Words.{size_word_loop-eight}
use evmxt.Abi.Scalars.{word_loop-size_word_loop}
use evmxt.Abi.Write.{write_size_word}

-- The loop over a word whose first 24 bytes are filled leaves these, and the number behind them.
word_loop-filled :
    (bits : ℕ) (front : List ℕ)
    → length front ≡ 24
    → word_loop 8 0 bits (front ++ zeros 8) ≡ front ++ be_bytes 8 bits
unfolding write_size_word
word_loop-filled bits front long =
    let w = front ++ zeros 8 in
    let size : length w ≡ 32 = omega (arith, length-append_bytes front (zeros 8)) in
    let low = be_bytes 8 bits in
    let low_size = length-be_bytes 8 bits in
    some-injective _ _ (
      sym (word_loop-size_word_loop 8 0 bits w size (omega arith))
      ∙ size_word_loop-eight bits 0 w (omega arith)
      ∙ ap some (
          ap (splice 24 low) (sym (splice_whole w w refl))
          ∙ ap (λ ys. splice 24 low (splice 0 (front ++ ys) w)) (sym (append-nil (zeros 8)))
          ∙ splice_middle 0 24 front (zeros 8) low [] w (omega arith) low_size
          ∙ ap (λ ys. splice 0 (front ++ ys) w) (append-nil low)
          ∙ splice_whole (front ++ low) w (omega (arith, length-append_bytes front low))))

from_be_shift : (acc : ℕ) (bs : List ℕ) → from_be acc bs ≡ acc * 256 ^ length bs + from_be 0 bs
unfolding from_be
from_be_shift acc [] = omega arith
from_be_shift acc (b ∷ bs) =
    let p = 256 ^ length bs in
    let expand : (acc * 256 + b) * p ≡ acc * (p * 256) + (0 * 256 + b) * p = grind arith in
    let wide : acc * 256 ^ suc (length bs) ≡ acc * (p * 256) =
      ap (λ (t : ℕ). acc * t) (pow-suc 256 (length bs)) in
    omega (arith, expand, wide, from_be_shift (acc * 256 + b) bs, from_be_shift (0 * 256 + b) bs)

-- The number of 32 bytes that stands for a 64-bit pattern: a negative integer is taken from 2^256.
abbrev pub twos_complement : ℕ → ℕ
twos_complement bits = if leb 0x8000_0000_0000_0000 bits then 2 ^ 256 - (2 ^ 64 - bits) else bits

filled_value :
    (sign bits : ℕ)
    → bits ≤ size_max
    → from_be 0 (replicate 24 sign ++ be_bytes 8 bits)
      ≡ from_be 0 (replicate 24 sign) * 2 ^ 64 + bits
filled_value sign bits small =
    let front = replicate 24 sign in
    let low = be_bytes 8 bits in
    from_be-append 0 front low
    ∙ from_be_shift (from_be 0 front) low
    ∙ rw (length-be_bytes 8 bits, from_be-be_bytes 8 bits (omega arith)) refl

ones_value : from_be 0 (replicate 24 0xff) ≡ 2 ^ 192 - 1
unfolding from_be
ones_value = refl

zeros_value : from_be 0 (replicate 24 0) ≡ 0
unfolding from_be
zeros_value = refl

replicate-IsByte : (n b : ℕ) → b < 256 → All IsByte (replicate n b)
replicate-IsByte zero b h = tt
replicate-IsByte (suc n) b h = (h, replicate-IsByte n b h)

filled_word :
    (sign bits n : ℕ)
    → sign < 256
    → from_be 0 (replicate 24 sign ++ be_bytes 8 bits) ≡ n
    → replicate 24 sign ++ be_bytes 8 bits ≡ be_bytes 32 n
filled_word sign bits n byte value =
    let bs = replicate 24 sign ++ be_bytes 8 bits in
    let hs =
      All-append IsByte (replicate 24 sign) (be_bytes 8 bits) (replicate-IsByte 24 sign byte)
        (be_bytes-IsByte 8 bits) in
    let size : length bs ≡ 32 =
      omega (
        arith,
        length-append_bytes (replicate 24 sign) (be_bytes 8 bits),
        length-be_bytes 8 bits,
      ) in
    sym (be_bytes-from_be bs hs) ∙ rw (size, value) refl

pub abi_int64_lem :
    (bits : ℕ) → bits ≤ size_max → abi_int64 bits ≡ word (be_bytes 32 (twos_complement bits))
unfolding abi_int64
abi_int64_lem bits small = elim (Bool-cases (leb 0x8000_0000_0000_0000 bits)) [
  | inl below ↦
      let value = filled_value 0xff bits small in
      rw below (
        ap word (
          word_loop-filled bits (replicate 24 0xff) refl
          ∙ filled_word 0xff bits (2 ^ 256 - (2 ^ 64 - bits)) (omega arith)
              (omega (arith, ones_value))))
  | inr above ↦
      let value = filled_value 0 bits small in
      rw above (
        ap word (
          word_loop-filled bits (replicate 24 0) refl
          ∙ filled_word 0 bits bits (omega arith) (omega (arith, zeros_value))))
]
