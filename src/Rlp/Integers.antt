-- ===== src/Rlp/Integers.antt =====
-- kernel/rlp.c: the two ways to describe an unsigned integer agree.
use evmxt.Prelude.{
  ℕ, zero, suc, ◌/◌, ◌%◌, ◌^◌, ◌<◌, ◌≡◌, ◌≢◌, refl, ap, ◌⊎◌, inl, List, [], ◌∷◌, ◌++◌, arith,
  length,
}
use evmxt.Memory.{some_data}
use evmxt.Rlp.{strip_zeroes, rlp_uint_be, rlp_uint64, length_bytes, length_bytes_loop, item_bytes}
use evmxt.BigEndian.{be_bytes}
use evmxt.Rlp.Spec.{string, view}
use evmxt.BigEndian.Laws.{be_bytes-suc, length-be_bytes}
use evmxt.Rlp.Width.{length_bytes-suc}

strip_zeroes-append :
    (xs ys : List ℕ)
    → ((strip_zeroes xs ≡ []) × (strip_zeroes (xs ++ ys) ≡ strip_zeroes ys))
      ⊎ ((strip_zeroes xs ≢ []) × (strip_zeroes (xs ++ ys) ≡ strip_zeroes xs ++ ys))
unfolding strip_zeroes
strip_zeroes-append [] ys = inl (refl, refl)
strip_zeroes-append (x ∷ xs) ys = ground (arith, strip_zeroes-append xs ys)

be_bytes-ne-nil : (n : ℕ) → be_bytes (length_bytes (suc n)) (suc n) ≢ []
be_bytes-ne-nil n e =
    absurd (
      omega
        (arith, length_bytes-suc n, length-be_bytes (length_bytes (suc n)) (suc n), ap length e))

length_bytes-zero : length_bytes 0 ≡ 0
unfolding length_bytes length_bytes_loop
length_bytes-zero = refl

strip-be_bytes-suc :
    (w n k : ℕ)
    → n / 256 ≡ k
    → n ≢ 0
    → strip_zeroes (be_bytes w k) ≡ be_bytes (length_bytes k) k
    → strip_zeroes (be_bytes (suc w) n) ≡ be_bytes (length_bytes n) n
unfolding strip_zeroes be_bytes
strip-be_bytes-suc w zero k e ne ih = absurd (ne refl)
strip-be_bytes-suc w (suc n) zero e ne ih = ground (
  arith,
  length_bytes-suc n,
  length_bytes-zero,
  be_bytes-suc (length_bytes (suc n / 256)) (suc n),
  strip_zeroes-append (be_bytes w 0) ((suc n % 256) ∷ []),
)
strip-be_bytes-suc w (suc n) (suc k) e ne ih = ground (
  arith,
  length_bytes-suc n,
  be_bytes-suc (length_bytes (suc n / 256)) (suc n),
  be_bytes-ne-nil k,
  strip_zeroes-append (be_bytes w (suc k)) ((suc n % 256) ∷ []),
)

strip-zero : (w : ℕ) → strip_zeroes (be_bytes w 0) ≡ []
unfolding be_bytes strip_zeroes
strip-zero zero = refl
strip-zero (suc w) = ground (arith, strip-zero w, strip_zeroes-append (be_bytes w 0) (0 ∷ []))

-- Stripped of its leading zeroes, a number's big-endian word of any width is its minimal form.
pub strip_zeroes-be_bytes :
    (w n : ℕ) → n < 256 ^ w → strip_zeroes (be_bytes w n) ≡ be_bytes (length_bytes n) n
strip_zeroes-be_bytes w zero h = rw length-zero (strip-zero w)
  where
    length-zero : be_bytes (length_bytes 0) 0 ≡ []
    length-zero = rw length_bytes-zero (unfold be_bytes in refl)
strip_zeroes-be_bytes zero (suc n) h = absurd (omega arith)
strip_zeroes-be_bytes (suc w) (suc n) h =
    strip-be_bytes-suc w (suc n) (suc n / 256) refl (omega arith)
      (strip_zeroes-be_bytes w (suc n / 256) (omega arith))

-- `rlp_uint_be` of a number's big-endian word of any width that holds it describes the same item
-- as `rlp_uint64` of the number.
pub uint_be-uint64 :
    (w n : ℕ) → n < 256 ^ w → view (rlp_uint_be (some_data (be_bytes w n))) ≡ view (rlp_uint64 n)
unfolding rlp_uint_be view item_bytes rlp_uint64
uint_be-uint64 w n h = ap string (strip_zeroes-be_bytes w n h)
