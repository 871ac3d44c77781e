-- ===== src/LuaAbi/Ranges.antt =====
-- kernel/lua_abi.c: which Lua integers `build_uint` and `build_int` accept.
use evmxt.Prelude.{
  ℕ, ◌-◌, ◌^◌, ◌≤◌, ◌<◌, ◌≡◌, refl, ◌⊎◌, inl, inr, ◌&&◌, true, false, List, arith, ltb, leb, ltb→lt,
  ltb→ge, Bool-cases, done,
}
use native.Mathlib.Nat.{pow-le-pow_right}
use evmxt.Memory.{size_max}
use evmxt.BigEndian.{be_bytes}
use evmxt.Abi.{word}
use evmxt.LuaAbi.Signed.{twos_complement, abi_int64_lem}
use evmxt.Abi.Scalars.{abi_uint64_lem}
use evmxt.Lua.{lua_max_integer, is_negative}
use evmxt.LuaAbi.{negative, exceeds_width, failed}
use evmxt.LuaAbi.Scalars.{outside_limit, build_uint, build_int}

-- The integer of a 64-bit pattern, against the magnitude that a signed type of this width allows.
abbrev pub InLimit : ℕ → ℕ → Type 0
InLimit limit value =
    ((value ≤ lua_max_integer) × (value < limit))
    ⊎ ((lua_max_integer < value) × (0x1_0000_0000_0000_0000 - value ≤ limit))

abbrev pub InSignedRange : ℕ → ℕ → Type 0
InSignedRange width value = InLimit (2 ^ (width - 1)) value

wide_power : (width : ℕ) → 64 ≤ width → 0x1_0000_0000_0000_0000 ≤ 2 ^ width
wide_power width h = pow-le-pow_right {n = 2} (omega arith) {i = 64} {j = width} h

wide_half : (width : ℕ) → 64 ≤ width → 0x8000_0000_0000_0000 ≤ 2 ^ (width - 1)
wide_half width h = pow-le-pow_right {n = 2} (omega arith) {i = 63} {j = width - 1} (omega arith)

-- `build_uint` accepts exactly the integers of the width that are not negative, and describes their
-- words.
pub build_uint_lem :
    (value width : ℕ) (path : List ℕ)
    → value ≤ size_max
    → ((value ≤ lua_max_integer)
        × (value < 2 ^ width)
        × (build_uint value width path ≡ done (word (be_bytes 32 value))))
      ⊎ ((lua_max_integer < value) × (build_uint value width path ≡ failed path negative))
      ⊎ ((value ≤ lua_max_integer)
          × (2 ^ width ≤ value)
          × (build_uint value width path ≡ failed path exceeds_width))
unfolding build_uint
build_uint_lem value width path small = elim (Bool-cases (is_negative value)) [
  | inl below ↦ inr (inl (ltb→lt lua_max_integer value below, rw below refl))
  | inr above ↦ elim (Bool-cases (ltb width 64 && leb (2 ^ width) value)) [
    | inl large ↦ inr (inr (ground (arith, above), ground (arith, large), rw (above, large) refl))
    | inr fits ↦ inl (
      ground (arith, above),
      elim (Bool-cases (ltb width 64)) [
        | inl narrow ↦ ground (arith, narrow, fits)
        | inr wide ↦
            omega
              (arith, wide_power width (ltb→ge width 64 wide), ltb→ge lua_max_integer value above)
      ],
      rw (above, fits, abi_uint64_lem value small) refl,
    )
  ]
]

narrow_range : (value limit : ℕ) → outside_limit value limit ≡ false → InLimit limit value
narrow_range value limit h = elim (Bool-cases (is_negative value)) [
  | inl below ↦ inr (ground (arith, below), ground (arith, below, h))
  | inr above ↦ inl (ground (arith, above), ground (arith, above, h))
]

out_of_range :
    (value limit : ℕ)
    → value ≤ size_max
    → outside_limit value limit ≡ true
    → ¬ (InLimit limit value)
out_of_range value limit small h r = elim (Bool-cases (is_negative value)) [
  | inl below ↦ ground (arith, below, h, r)
  | inr above ↦ ground (arith, above, h, r)
]

wide_range : (value limit : ℕ) → 0x8000_0000_0000_0000 ≤ limit → InLimit limit value
wide_range value limit h = elim (Bool-cases (is_negative value)) [
  | inl below ↦ inr (ground (arith, below), ground (arith, below))
  | inr above ↦ inl (ground (arith, above), ground (arith, above))
]

-- For every 64-bit pattern and every width, `build_int` accepts the Lua integer exactly when it
-- lies in the range of a signed type of that width, between minus two to the width less one and
-- one below its opposite, and then describes the 32-byte big-endian word of its two's complement:
-- the integer itself, or 2^256 less its magnitude when it is negative. Otherwise it reports that
-- the width is exceeded.
pub build_int_lem :
    (value width : ℕ) (path : List ℕ)
    → value ≤ size_max
    → (InSignedRange width value
        × (build_int value width path ≡ done (word (be_bytes 32 (twos_complement value)))))
      ⊎ ((¬ InSignedRange width value) × (build_int value width path ≡ failed path exceeds_width))
unfolding build_int
build_int_lem value width path small =
    let limit = 2 ^ (width - 1) in
    elim (Bool-cases (ltb width 64)) [
      | inr wide ↦ inl (
        wide_range value limit (wide_half width (ltb→ge width 64 wide)),
        rw (wide, abi_int64_lem value small) refl,
      )
      | inl narrow ↦ elim (Bool-cases (outside_limit value limit)) [
        | inl outside ↦ inr (out_of_range value limit small outside, rw (narrow, outside) refl)
        | inr inside ↦
            inl
              (narrow_range value limit inside, rw (narrow, inside, abi_int64_lem value small) refl)
      ]
    ]
