-- ===== src/BigEndian.antt =====
-- Numbers as big-endian bytes.
pub mod Laws
use evmxt.Prelude.{ℕ, zero, suc, ◌+◌, ◌*◌, ◌/◌, ◌%◌, List, [], ◌∷◌, ◌++◌}

-- The lowest `width` bytes of a number, the highest of them first.
unfoldable pub be_bytes : ℕ → ℕ → List ℕ
be_bytes zero n = []
be_bytes (suc width) n = be_bytes width (n / 256) ++ ((n % 256) ∷ [])

-- The number that big-endian bytes stand for.
unfoldable pub from_be : ℕ → List ℕ → ℕ
from_be acc [] = acc
from_be acc (b ∷ bs) = from_be (acc * 256 + b) bs
