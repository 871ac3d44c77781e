-- ===== src/Uniswap/Libraries.antt =====
-- lua-lib/c-bindings/uniswap_v3.c: what its theorems assume of OpenSSL's big numbers.
use evmxt.Prelude.{ℕ, ◌+◌, ◌*◌, ◌/◌, ◌^◌, ◌≤◌, ◌<◌, ◌≡◌, ◌≢◌, ◌↔◌, List, some}
use evmxt.BigEndian.{be_bytes, from_be}
use evmxt.Uniswap.{BigNumbers}

-- A function that succeeds has computed what its documentation says, of the arguments that it
-- is called with here; any may fail.
pub record AreBigNumbers (bn : BigNumbers) : Type 0 where
  pub bits : (n k : ℕ) → (bn.num_bits n ≤ k) ↔ (n < 2 ^ k)
  pub power : (k : ℕ) {m : ℕ} → bn.set_bit 0 k ≡ some m → m ≡ 2 ^ k
  pub shifted : (n k : ℕ) {m : ℕ} → bn.lshift n k ≡ some m → m ≡ n * 2 ^ k
  pub halved : (n : ℕ) {m : ℕ} → bn.rshift1 n ≡ some m → m ≡ n / 2
  pub divided : (a b : ℕ) {m : ℕ} → b ≢ 0 → bn.div a b ≡ some m → m ≡ a / b
  pub added : (a b : ℕ) {m : ℕ} → bn.add a b ≡ some m → m ≡ a + b
  pub copied : (n : ℕ) {m : ℕ} → bn.copy n ≡ some m → m ≡ n
  pub padded :
      (n w : ℕ) {bs : List ℕ} → bn.bn2binpad n w ≡ some bs → (n < 256 ^ w) × (bs ≡ be_bytes w n)
  pub read_bytes : (bs : List ℕ) {m : ℕ} → bn.bin2bn bs ≡ some m → m ≡ from_be 0 bs
