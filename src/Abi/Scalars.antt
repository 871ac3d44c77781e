-- ===== src/Abi/Scalars.antt =====
-- kernel/abi.c: the words that the constructors of scalars build.
use evmxt.Prelude.{
  ℕ, zero, suc, ◌+◌, ◌-◌, ◌/◌, ◌%◌, ◌^◌, ◌≤◌, ◌≡◌, refl, sym, ap, ◌∙◌, List, [], ◌∷◌, ◌++◌, some,
  arith, length, false, All, IsByte, ltb, ge→ltb,
}
use evmxt.Memory.{size_max, splice, some_data}
use evmxt.Memory.Laws.{length-splice, splice_whole, store_lem}
use evmxt.BigEndian.{be_bytes, from_be}
use evmxt.BigEndian.Laws.{be_bytes-from_be, be_bytes_pad, length-be_bytes, from_be-lt}
use evmxt.Abi.{word, zeros, word_loop, abi_uint64, abi_uint_be}
use evmxt.Abi.Write.{size_word_loop, write_size_word}
use evmxt.Abi.Words.{write_size_word-zeros}
use evmxt.Abi.Writes.{length-zeros}
use mathlib.Core.Option.{some-injective}

-- The loop of `write_size_word`, on a word of its own.
pub word_loop-size_word_loop :
    (rounds i number : ℕ) (w : List ℕ)
    → length w ≡ 32
    → i + rounds ≤ 8
    → size_word_loop rounds i number 0 w ≡ some (word_loop rounds i number w)
unfolding size_word_loop word_loop
word_loop-size_word_loop zero i number w long few = refl
word_loop-size_word_loop (suc rounds) i number w long few =
    let byte = number / 256 ^ i % 256 in
    let place : 0 + (31 - i) ≡ 31 - i = omega arith in
    rw (place, store_lem (31 - i) byte w (omega arith))
      (word_loop-size_word_loop rounds (i + 1) number (splice (31 - i) (byte ∷ []) w)
        (length-splice (31 - i) (byte ∷ []) w ∙ long) (omega arith))

-- `abi_uint64` of a 64-bit number describes the number's 32-byte big-endian word.
pub abi_uint64_lem :
    (number : ℕ) → number ≤ size_max → abi_uint64 number ≡ word (be_bytes 32 number)
unfolding abi_uint64 write_size_word
abi_uint64_lem number small =
    let blank = zeros 32 in
    let long = length-zeros 32 in
    let written = write_size_word-zeros 0 number blank small (omega arith) in
    ap word (
      some-injective _ _ (
        sym (word_loop-size_word_loop 8 0 number blank long (omega arith))
        ∙ ap (size_word_loop 8 0 number 0) (sym (splice_whole blank blank refl))
        ∙ written
        ∙ ap some
            (splice_whole (be_bytes 32 number) blank (omega (arith, length-be_bytes 32 number)))))

-- `abi_uint_be` of at most 32 bytes describes the 32-byte big-endian word of the number that they
-- stand for.
pub abi_uint_be_lem :
    (bs : List ℕ)
    → All IsByte bs
    → length bs ≤ 32
    → abi_uint_be (some_data bs) ≡ word (be_bytes 32 (from_be 0 bs))
unfolding abi_uint_be
abi_uint_be_lem bs hs short =
    let n = from_be 0 bs in
    let fits : ltb 32 (length bs) ≡ false = ge→ltb 32 (length bs) short in
    let width : length bs + (32 - length bs) ≡ 32 = omega arith in
    let padded = be_bytes_pad (length bs) (32 - length bs) n (omega (arith, from_be-lt 0 bs hs)) in
    rw fits (
      ap (λ xs. word (zeros (32 - length bs) ++ xs)) (sym (be_bytes-from_be bs hs))
      ∙ ap word (sym padded)
      ∙ ap (λ w. word (be_bytes w n)) width)
