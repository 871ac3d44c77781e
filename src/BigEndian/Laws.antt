-- ===== src/BigEndian/Laws.antt =====
-- Laws of big-endian bytes.
use evmxt.Prelude.{
  ℕ, zero, suc, ◌+◌, ◌*◌, ◌/◌, ◌%◌, ◌^◌, ◌≤◌, ◌<◌, ◌≡◌, refl, sym, ap, ◌∙◌, List, [], ◌∷◌, ◌++◌,
  append_assoc, append-nil, arith, replicate, length, length-append_bytes, All, All-append, IsByte,
}
use native.Mathlib.Nat.{pow-suc}
use evmxt.BigEndian.{be_bytes, from_be}

pub length-be_bytes : (w n : ℕ) → length (be_bytes w n) ≡ w
unfolding be_bytes
length-be_bytes zero n = refl
length-be_bytes (suc w) n = omega (
  arith,
  length-append_bytes (be_bytes w (n / 256)) ((n % 256) ∷ []),
  length-be_bytes w (n / 256),
)

pub be_bytes-suc : (w n : ℕ) → be_bytes (suc w) n ≡ be_bytes w (n / 256) ++ ((n % 256) ∷ [])
unfolding be_bytes
be_bytes-suc w n = refl

pub from_be-append :
    (acc : ℕ) (xs ys : List ℕ) → from_be acc (xs ++ ys) ≡ from_be (from_be acc xs) ys
unfolding from_be
from_be-append acc [] ys = refl
from_be-append acc (x ∷ xs) ys = from_be-append (acc * 256 + x) xs ys

pub from_be-be_bytes : (w n : ℕ) → n < 256 ^ w → from_be 0 (be_bytes w n) ≡ n
unfolding be_bytes
from_be-be_bytes zero n h = unfold from_be in omega arith
from_be-be_bytes (suc w) n h =
    rw
      (
        from_be-append 0 (be_bytes w (n / 256)) ((n % 256) ∷ []),
        from_be-be_bytes w (n / 256) (omega arith),
      )
      (unfold from_be in omega arith)

pub be_bytes-IsByte : (w n : ℕ) → All IsByte (be_bytes w n)
unfolding be_bytes
be_bytes-IsByte zero n = tt
be_bytes-IsByte (suc w) n =
    All-append _ (be_bytes w (n / 256)) _ (be_bytes-IsByte w (n / 256)) (omega arith, tt)

pub digit_room : (acc b p : ℕ) → b < 256 → (acc * 256 + b + 1) * p ≤ (acc + 1) * (p * 256)
digit_room acc b p h = let scaled : (b + 1) * p ≤ 256 * p = grind arith in omega arith

pub from_be-lt :
    (acc : ℕ) (bs : List ℕ) → All IsByte bs → from_be acc bs < (acc + 1) * 256 ^ length bs
unfolding from_be
from_be-lt acc [] h = omega arith
from_be-lt acc (b ∷ bs) (hb, hbs) = omega (
  arith,
  from_be-lt (acc * 256 + b) bs hbs,
  digit_room acc b (256 ^ length bs) hb,
  pow-suc 256 (length bs),
  ap (λ (t : ℕ). (acc + 1) * t) (pow-suc 256 (length bs)),
)

pub be_bytes-zero : (w : ℕ) → be_bytes w 0 ≡ replicate w 0
unfolding be_bytes
be_bytes-zero zero = refl
be_bytes-zero (suc w) = ap (λ bs. bs ++ (0 ∷ [])) (be_bytes-zero w) ∙ snoc w
  where
    snoc : (k : ℕ) → ◌≡◌ {A = List ℕ} (replicate k 0 ++ (0 ∷ [])) (0 ∷ replicate k 0)
    snoc zero = refl
    snoc (suc k) = ap (λ bs. 0 ∷ bs) (snoc k)

-- A number that fits `w` bytes has zeroes in front in a wider word.
pub be_bytes_pad : (w k n : ℕ) → n < 256 ^ w → be_bytes (w + k) n ≡ replicate k 0 ++ be_bytes w n
unfolding be_bytes
be_bytes_pad zero k n h =
    let none : n ≡ 0 = omega arith in
    let width : 0 + k ≡ k = omega arith in
    rw (none, width) (be_bytes-zero k ∙ sym (append-nil (replicate k 0)))
be_bytes_pad (suc w) k n h =
    let width : suc w + k ≡ suc (w + k) = omega arith in
    rw width (
      ap (λ bs. bs ++ ((n % 256) ∷ [])) (be_bytes_pad w k (n / 256) (omega arith))
      ∙ append_assoc (replicate k 0) (be_bytes w (n / 256)) ((n % 256) ∷ []))

be_bytes-from_be_from :
    (k acc : ℕ) (bs : List ℕ)
    → All IsByte bs
    → be_bytes (k + length bs) (from_be acc bs) ≡ be_bytes k acc ++ bs
unfolding from_be
be_bytes-from_be_from k acc [] hs =
    let same : k + 0 ≡ k = omega arith in rw same (sym (append-nil (be_bytes k acc)))
be_bytes-from_be_from k acc (b ∷ bs) (hb, hbs) =
    let width : k + suc (length bs) ≡ suc k + length bs = omega arith in
    let high : (acc * 256 + b) / 256 ≡ acc = omega arith in
    let low : (acc * 256 + b) % 256 ≡ b = omega arith in
    rw width (
      be_bytes-from_be_from (suc k) (acc * 256 + b) bs hbs
      ∙ ap (λ xs. xs ++ bs) (be_bytes-suc k (acc * 256 + b))
      ∙ append_assoc (be_bytes k ((acc * 256 + b) / 256)) (((acc * 256 + b) % 256) ∷ []) bs
      ∙ rw (high, low) refl)

-- Bytes are the big-endian word of the number that they stand for.
pub be_bytes-from_be : (bs : List ℕ) → All IsByte bs → be_bytes (length bs) (from_be 0 bs) ≡ bs
unfolding be_bytes
be_bytes-from_be bs hs =
    let width : 0 + length bs ≡ length bs = omega arith in
    rw width at (be_bytes-from_be_from 0 0 bs hs)
