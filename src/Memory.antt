-- ===== src/Memory.antt =====
-- C memory as the kernel uses it: an output buffer is the list of its bytes, a pointer into it is
-- an index, and a write outside it is a fault (`none`). `splice` says what a write leaves.
pub mod Laws
use evmxt.Prelude.{ℕ, zero, suc, ◌+◌, ◌≤◌, length, List, [], ◌∷◌, Option, none, some}
use mathlib.Core.Option

-- `size_t` and `uint64_t` have 64 bits.
abbrev pub size_max : ℕ
size_max = 0xffff_ffff_ffff_ffff

abbrev pub IsU64 : ℕ → Type 0
IsU64 n = n ≤ size_max

-- A pointer argument with its length: NULL with whatever length was passed, or a pointer to so
-- many readable bytes.
pub data Span : Type 0 where
  null_data : ℕ → Span
  some_data : List ℕ → Span

abbrev pub span_length : Span → ℕ
span_length (null_data n) = n
span_length (some_data bytes) = length bytes

infixl 5 ◌>>=◌
abbrev pub ◌>>=◌ {ℓ κ} : {A : Type ℓ} {B : Type κ} → Option A → (A → Option B) → Option B
none >>= f = none
some a >>= f = f a

-- `buf[p] = v`
unfoldable pub store : ℕ → ℕ → List ℕ → Option (List ℕ)
store p v [] = none
store zero v (x ∷ xs) = some (v ∷ xs)
store (suc p) v (x ∷ xs) = Option.map (λ ys. x ∷ ys) (store p v xs)

-- `memcpy(buf + p, src, length src)`, a byte at a time
unfoldable pub memcpy : ℕ → List ℕ → List ℕ → Option (List ℕ)
memcpy p [] buf = some buf
memcpy p (b ∷ bs) buf = store p b buf >>= memcpy (p + 1) bs

-- The buffer with `bs` in place of the bytes from `p` on.
unfoldable pub splice : ℕ → List ℕ → List ℕ → List ℕ
splice p bs [] = []
splice zero [] (x ∷ xs) = x ∷ xs
splice zero (b ∷ bs) (x ∷ xs) = b ∷ splice zero bs xs
splice (suc p) bs (x ∷ xs) = x ∷ splice p bs xs
