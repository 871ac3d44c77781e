-- ===== src/Abi/Words.antt =====
-- kernel/abi.c: the scalar constructors as numbers, and `write_size_word`.
use evmxt.Prelude.{
  ℕ, zero, suc, ◌+◌, ◌-◌, ◌/◌, ◌%◌, ◌^◌, ◌≤◌, ◌≡◌, refl, sym, ap, ◌∙◌, List, [], ◌∷◌, ◌++◌,
  append_assoc, append-nil, some, arith, length,
}
use native.Mathlib.Nat.{pow-suc, div-div-eq-div-mul}
use native.Mathlib.Numerals.{add-one}
use evmxt.BigEndian.{be_bytes}
use evmxt.BigEndian.Laws.{length-be_bytes, be_bytes_pad}
use evmxt.Memory.{size_max, splice}
use evmxt.Memory.Laws.{splice-append_back, length-splice, store_lem, splice-nil, splice_middle}
use evmxt.Abi.{zeros}
use evmxt.Abi.Write.{size_word_loop, write_size_word}

-- The loop writes the lowest `rounds` bytes of what is left of the number.
size_word_loop_lem :
    (rounds i number out p : ℕ) (buf : List ℕ)
    → i + rounds ≤ 32
    → p + i + rounds ≡ out + 32
    → out + 32 ≤ length buf
    → size_word_loop rounds i number out buf
      ≡ some (splice p (be_bytes rounds (number / 256 ^ i)) buf)
unfolding size_word_loop be_bytes
size_word_loop_lem zero i number out p buf few place room = rw splice-nil
size_word_loop_lem (suc rounds) i number out p buf few place room =
    let m = number / 256 ^ i in
    let low : List ℕ = (m % 256) ∷ [] in
    let stored = splice (out + (31 - i)) low buf in
    let next : number / 256 ^ (i + 1) ≡ m / 256 =
      rw (add-one, pow-suc) (sym (div-div-eq-div-mul number (256 ^ i) 256)) in
    rw
      (
        store_lem (out + (31 - i)) (m % 256) buf (omega arith),
        size_word_loop_lem rounds (i + 1) number out p stored (omega arith) (omega arith)
            (omega (arith, length-splice (out + (31 - i)) low buf)),
        next,
      )
      (ap some (
        splice-append_back p (out + (31 - i)) (be_bytes rounds (m / 256)) low buf
          (omega (arith, length-be_bytes rounds (m / 256)))))

pub size_word_loop-eight :
    (number out : ℕ) (buf : List ℕ)
    → out + 32 ≤ length buf
    → write_size_word out number buf ≡ some (splice (out + 24) (be_bytes 8 number) buf)
unfolding write_size_word
size_word_loop-eight number out buf room =
    let whole : number / 256 ^ 0 ≡ number = omega arith in
    size_word_loop_lem 8 0 number out (out + 24) buf (omega arith) (omega arith) room
    ∙ ap (λ n. some (splice (out + 24) (be_bytes 8 n) buf)) whole

word_bytes : (number : ℕ) → number ≤ size_max → be_bytes 32 number ≡ zeros 24 ++ be_bytes 8 number
word_bytes number h = be_bytes_pad 8 24 number (omega arith)

-- Over zeroes, `write_size_word` leaves the number's 32-byte word.
pub write_size_word_lem :
    (out number : ℕ) (rest buf : List ℕ)
    → number ≤ size_max
    → out + 32 ≤ length buf
    → write_size_word out number (splice out (zeros 32 ++ rest) buf)
      ≡ some (splice out (be_bytes 32 number ++ rest) buf)
write_size_word_lem out number rest buf small room =
    size_word_loop-eight number out (splice out (zeros 32 ++ rest) buf) (rw length-splice room)
    ∙ ap some (
        splice_middle out (out + 24) (zeros 24) (zeros 8) (be_bytes 8 number) rest buf refl
          (length-be_bytes 8 number)
        ∙ ap (λ bs. splice out bs buf)
            (rw (word_bytes number small) (sym (append_assoc (zeros 24) (be_bytes 8 number) rest))))

-- On 32 zeroed bytes inside the buffer, `write_size_word` of a `size_t` leaves the number's
-- 32-byte big-endian word and changes nothing else.
pub write_size_word-zeros :
    (out number : ℕ) (buf : List ℕ)
    → number ≤ size_max
    → out + 32 ≤ length buf
    → write_size_word out number (splice out (zeros 32) buf)
      ≡ some (splice out (be_bytes 32 number) buf)
write_size_word-zeros out number buf small room =
    ap (λ bs. write_size_word out number (splice out bs buf)) (sym (append-nil (zeros 32)))
    ∙ write_size_word_lem out number [] buf small room
    ∙ ap (λ bs. some (splice out bs buf)) (append-nil (be_bytes 32 number))
