-- ===== src/Rlp/Width.antt =====
-- kernel/rlp.c: `length_bytes` and the integer loop of `encode_item`, against big-endian bytes.
use evmxt.Prelude.{
  ℕ, zero, suc, ◌+◌, ◌/◌, ◌%◌, ◌^◌, ◌≤◌, ◌<◌, ◌≡◌, refl, sym, ap, ◌∙◌, ◌≢◌, List, [], ◌∷◌, ◌++◌,
  append_assoc, append-nil, arith, length,
}
use evmxt.Rlp.{length_bytes_loop, length_bytes, integer_loop}
use evmxt.BigEndian.{be_bytes, from_be}
use evmxt.BigEndian.Laws.{
  length-be_bytes, be_bytes-suc, from_be-be_bytes, be_bytes-IsByte, from_be-lt,
}

loop_count : (f c n : ℕ) → length_bytes_loop f c n ≡ c + length_bytes_loop f 0 n
unfolding length_bytes_loop
loop_count zero c n = omega arith
loop_count (suc f) c n =
    ground (arith, loop_count f (c + 1) (n / 256), loop_count f (0 + 1) (n / 256))

loop_fuel : (f g n : ℕ) → n ≤ f → n ≤ g → length_bytes_loop f 0 n ≡ length_bytes_loop g 0 n
unfolding length_bytes_loop
loop_fuel zero zero n hf hg = refl
loop_fuel zero (suc g) n hf hg = ground arith
loop_fuel (suc f) zero n hf hg = ground arith
loop_fuel (suc f) (suc g) n hf hg =
    ground (
      arith,
      loop_count f (0 + 1) (n / 256),
      loop_count g (0 + 1) (n / 256),
      loop_fuel f g (n / 256),
    )

pub length_bytes-suc : (n : ℕ) → length_bytes (suc n) ≡ suc (length_bytes (suc n / 256))
unfolding length_bytes length_bytes_loop
length_bytes-suc n =
    ground (arith, loop_count n (0 + 1) (suc n / 256), loop_fuel n (suc n / 256) (suc n / 256))

-- What holds at 0 and passes from `n / 256` to `n` holds of every number.
pub byte_induction {ℓ} :
    (P : ℕ → Type ℓ) → P 0 → ((n : ℕ) → P (suc n / 256) → P (suc n)) → (n : ℕ) → P n
byte_induction P base step n = go n n (omega arith)
  where
    go : (f n : ℕ) → n ≤ f → P n
    go f zero h = base
    go zero (suc n) h = absurd (omega arith)
    go (suc f) (suc n) h = step n (go f (suc n / 256) (omega arith))

pub lt-pow_length_bytes : (n : ℕ) → n < 256 ^ length_bytes n
lt-pow_length_bytes =
    byte_induction (λ n. n < 256 ^ length_bytes n)
      (unfold length_bytes length_bytes_loop in omega arith)
      λ n ih. rw length_bytes-suc (omega arith)

pub pow_length_bytes-le : (n w : ℕ) → n < 256 ^ w → length_bytes n ≤ w
pow_length_bytes-le zero w h = unfold length_bytes length_bytes_loop in omega arith
pow_length_bytes-le (suc n) zero h = absurd (omega arith)
pow_length_bytes-le (suc n) (suc w) h =
    omega (arith, length_bytes-suc n, pow_length_bytes-le (suc n / 256) w (omega arith))

integer_loop-be_bytes :
    (f n : ℕ) (bs : List ℕ) → n ≤ f → integer_loop f n bs ≡ be_bytes (length_bytes n) n ++ bs
unfolding integer_loop
integer_loop-be_bytes zero zero bs h = unfold be_bytes length_bytes length_bytes_loop in refl
integer_loop-be_bytes zero (suc n) bs h = absurd (omega arith)
integer_loop-be_bytes (suc f) zero bs h = unfold be_bytes length_bytes length_bytes_loop in refl
integer_loop-be_bytes (suc f) (suc n) bs h =
    let w : ℕ = length_bytes (suc n / 256) in
    ground (
      arith,
      length_bytes-suc n,
      be_bytes-suc w (suc n),
      integer_loop-be_bytes f (suc n / 256) ((suc n % 256) ∷ bs),
      append_assoc (be_bytes w (suc n / 256)) ((suc n % 256) ∷ []) bs,
    )

-- The loop over a `uint64` leaves the number's big-endian bytes at the shortest width.
pub integer_loop_lem : (n : ℕ) → integer_loop n n [] ≡ be_bytes (length_bytes n) n
integer_loop_lem n = integer_loop-be_bytes n n [] (omega arith) ∙ append-nil _

-- No width below `length_bytes` holds the number, so its first byte is not zero.
pub be_bytes_minimal : (n b : ℕ) (bs : List ℕ) → be_bytes (length_bytes n) n ≡ b ∷ bs → b ≢ 0
unfolding from_be
be_bytes_minimal n b bs e z =
    let width : length_bytes n ≡ suc (length bs) =
      sym (length-be_bytes (length_bytes n) n) ∙ ap length e in
    let value : from_be 0 (b ∷ bs) ≡ n =
      rw e at (from_be-be_bytes (length_bytes n) n (lt-pow_length_bytes n)) in
    let small : from_be 0 bs < 256 ^ length bs =
      omega (arith, from_be-lt 0 bs (rw e at (be_bytes-IsByte (length_bytes n) n)).1) in
    let n_small : n < 256 ^ length bs = rw (← value, z) small in
    absurd (omega (arith, pow_length_bytes-le n (length bs) n_small))
