-- ===== src/Rlp/Headers.antt =====
-- kernel/rlp.c: `write_prefix` against the headers of the yellow paper, stated by their bounds.
use evmxt.Prelude.{
  ℕ, ◌+◌, ◌-◌, ◌^◌, ◌≤◌, ◌<◌, ◌≡◌, refl, sym, ap, ◌∙◌, ◌⊎◌, inl, inr, Bool, true, false, List, [],
  ◌∷◌, some, arith, leb, length, if◌then◌else◌,
}
use native.Mathlib.Nat.{pow-le-pow_right}
use evmxt.Memory.{size_max, splice}
use evmxt.BigEndian.{be_bytes}
use evmxt.Rlp.{length_bytes, prefix_base, prefix_size, write_prefix}
use evmxt.Rlp.Spec.{header}
use evmxt.Rlp.Measure.{length-header}
use evmxt.Rlp.Width.{lt-pow_length_bytes, pow_length_bytes-le}
use evmxt.Rlp.Writes.{write_prefix_lem}

-- The header of a string or of a list: up to 55 bytes, one byte; from there on, the width of the
-- length, and the length in big-endian bytes of the one width that holds it and no less would.
abbrev pub IsHeader : Bool → ℕ → List ℕ → Type 0
IsHeader listed len top =
    let base = if listed then 0xc0 else 0x80 in
    ((len ≤ 55) × (top ≡ (base + len) ∷ []))
    ⊎ ((55 < len)
        × (w : ℕ) × (256 ^ (w - 1) ≤ len)
        × (len < 256 ^ w)
        × (top ≡ (base + 55 + w) ∷ be_bytes w len))

width_unique : (len w : ℕ) → 0 < len → 256 ^ (w - 1) ≤ len → len < 256 ^ w → w ≡ length_bytes len
width_unique len w some_len low high =
    let upper = pow_length_bytes-le len w high in
    elim (compare w (length_bytes len)) [
      | inl same ↦ same
      | inr other ↦
          let held = lt-pow_length_bytes len in
          let wider : 256 ^ length_bytes len ≤ 256 ^ (w - 1) =
            pow-le-pow_right {n = 256} (omega arith) {i = length_bytes len} {j = w - 1}
              (omega arith) in
          absurd (omega arith)
    ]
  where
    compare : (a b : ℕ) → (a ≡ b) ⊎ ((a < b) ⊎ (b < a))
    compare a b = ground arith

IsHeader-header :
    (listed : Bool) (len : ℕ) (top : List ℕ)
    → IsHeader listed len top
    → top ≡ header (prefix_base listed) len
unfolding header
IsHeader-header listed len top (inl (short, same)) =
    let yes : leb len 55 ≡ true = ground arith in same ∙ rw yes refl
IsHeader-header listed len top (inr (long, w, low, high, same)) =
    let no : leb len 55 ≡ false = ground arith in
    let width = width_unique len w (omega arith) low high in same ∙ rw (no, ← width) refl

-- For a length that fits `size_t`, with room for the header, `write_prefix` stays inside the
-- buffer and writes exactly the header of the length, and nothing else: up to 55, one byte, which
-- is 0x80, or 0xc0 of a list, and the length; from there on, that base and 55 and a width, and the
-- length in big-endian bytes of this width, which is the one that holds the length when no smaller
-- one does.
pub write_prefix-IsHeader :
    (out len : ℕ) (listed : Bool) (top buf : List ℕ)
    → len ≤ size_max
    → IsHeader listed len top
    → out + length top ≤ length buf
    → write_prefix out len listed buf ≡ some (splice out top buf)
write_prefix-IsHeader out len listed top buf small right room =
    let same = IsHeader-header listed len top right in
    let size : length top ≡ prefix_size len =
      ap length same ∙ length-header (prefix_base listed) len in
    write_prefix_lem out len listed buf small (omega arith)
    ∙ ap (λ t. some (splice out t buf)) (sym same)
