-- ===== src/Rlp/Measure.antt =====
-- kernel/rlp.c: the size that `encode_item` reports is the length of the encoding, and it reports
-- one exactly for the well-formed values whose encoding fits `size_t`.
use evmxt.Prelude.{
  ℕ, suc, ◌+◌, ◌≤◌, ◌≡◌, refl, sym, ap, ◌∙◌, true, false, inl, inr, List, [], ◌∷◌, arith, leb,
  Bool-cases, length, length-append_bytes, done,
}
use evmxt.Memory.{size_max}
use evmxt.Rlp.{
  RlpValue, invalid, bytes, uint64, null_list, list, is_list, item_bytes, total_size, prefix_size,
  length_bytes,
}
use evmxt.BigEndian.{be_bytes}
use evmxt.Rlp.Spec.{header, encode_string, encoding, view}
use evmxt.BigEndian.Laws.{length-be_bytes}
use evmxt.Rlp.Width.{integer_loop_lem, pow_length_bytes-le}

pub length-header : (base len : ℕ) → length (header base len) ≡ prefix_size len
unfolding header
length-header base len = elim (Bool-cases (leb len 55)) [
  | inl small ↦ rw small
  | inr large ↦ rw large (ap suc (length-be_bytes (length_bytes len) len) ∙ omega arith)
]

pub item_bytes-uint64 : (n : ℕ) → item_bytes (uint64 n) ≡ be_bytes (length_bytes n) n
unfolding item_bytes
item_bytes-uint64 n = integer_loop_lem n

pub view_leaf :
    (v : RlpValue) → is_list v ≡ false → encoding (view v) ≡ encode_string (item_bytes v)
unfolding encoding view item_bytes
view_leaf invalid h = refl
view_leaf (bytes span) h = refl
view_leaf (uint64 n) h = ap encode_string (sym (item_bytes-uint64 n))
view_leaf (null_list n) h = cc
view_leaf (list vs) h = cc

-- An error of `total_size` is an overflow; a size is the length of what is written.
pub total_size-string :
    (bs : List ℕ) {n : ℕ}
    → total_size false bs (length bs) ≡ done n
    → (n ≡ length (encode_string bs)) × (n ≤ size_max)
unfolding total_size encode_string
total_size-string [] h = ground (arith, length-header 0x80 0)
total_size-string (b ∷ []) h =
    ground (arith, length-header 0x80 1, length-append_bytes (header 0x80 1) (b ∷ []))
total_size-string (b ∷ c ∷ bs) h = ground (
  arith,
  length-header 0x80 (length (b ∷ c ∷ bs)),
  length-append_bytes (header 0x80 (length (b ∷ c ∷ bs))) (b ∷ c ∷ bs),
)

pub total_size-list :
    (len : ℕ) {n : ℕ}
    → total_size true [] len ≡ done n
    → (n ≡ prefix_size len + len) × (n ≤ size_max)
unfolding total_size
total_size-list len h = ground arith

length_bytes-fits : (len : ℕ) → len ≤ size_max → length_bytes len ≤ 8
length_bytes-fits len h = pow_length_bytes-le len 8 (omega arith)

pub total_size-string_fits :
    (bs : List ℕ)
    → length (encode_string bs) ≤ size_max
    → total_size false bs (length bs) ≡ done (length (encode_string bs))
unfolding total_size encode_string
total_size-string_fits [] h = ground (arith, length-header 0x80 0, length_bytes-fits 0)
total_size-string_fits (b ∷ []) h =
    ground (
      arith,
      length-header 0x80 1,
      length-append_bytes (header 0x80 1) (b ∷ []),
      length_bytes-fits 1,
    )
total_size-string_fits (b ∷ c ∷ bs) h = ground (
  arith,
  length-header 0x80 (length (b ∷ c ∷ bs)),
  length-append_bytes (header 0x80 (length (b ∷ c ∷ bs))) (b ∷ c ∷ bs),
  length_bytes-fits (length (b ∷ c ∷ bs)),
)

pub total_size-list_fits :
    (len : ℕ)
    → prefix_size len + len ≤ size_max
    → total_size true [] len ≡ done (prefix_size len + len)
unfolding total_size
total_size-list_fits len h = ground (arith, length_bytes-fits len)
