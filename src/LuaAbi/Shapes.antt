-- ===== src/LuaAbi/Shapes.antt =====
-- kernel/lua_abi.c: the values built have the shape of the C types, as abi.c relies on.
use evmxt.Prelude.{
  if-holds, ℕ, zero, suc, ◌+◌, ◌-◌, ◌/◌, ◌%◌, ◌^◌, ◌≤◌, ◌≡◌, refl, ◌∙◌, inl, inr, Bool, List, [],
  ◌∷◌, ◌++◌, Option, none, some, arith, ltb, leb, ltb→ge, ◌==◌, if◌then◌else◌, length,
  length-append_bytes, length-replicate, replicate, Bool-cases,
}
use evmxt.Memory.{size_max, some_data, splice}
use evmxt.Memory.Laws.{length-splice}
use evmxt.Abi.{
  ListKind, AbiValues, nil, cons, zeros, count, first_values, make_list_value, word_loop,
  abi_uint_be, abi_uint64, abi_int64, abi_bool, abi_address, abi_fixed_bytes,
}
use evmxt.Abi.Spec.{IsShaped, AllShaped}
use evmxt.Abi.Writes.{length-zeros}

length-word_loop : (rounds i n : ℕ) (w : List ℕ) → length (word_loop rounds i n w) ≡ length w
unfolding word_loop
length-word_loop zero i n w = refl
length-word_loop (suc rounds) i n w =
    length-word_loop rounds (i + 1) n (splice (31 - i) ((n / 256 ^ i % 256) ∷ []) w)
    ∙ length-splice (31 - i) ((n / 256 ^ i % 256) ∷ []) w

pub uint64-IsShaped : (n : ℕ) → IsShaped (abi_uint64 n)
unfolding abi_uint64
uint64-IsShaped n = length-word_loop 8 0 n (zeros 32) ∙ length-zeros 32

pub int64-IsShaped : (bits : ℕ) → IsShaped (abi_int64 bits)
unfolding abi_int64
int64-IsShaped bits =
    let sign = if leb 0x8000_0000_0000_0000 bits then 0xff else 0 in
    length-word_loop 8 0 bits (replicate 24 sign ++ zeros 8)
    ∙ omega (
      arith,
      length-append_bytes (replicate 24 sign) (zeros 8),
      length-replicate {A = ℕ} 24 sign,
      length-zeros 8,
    )

pub bool-IsShaped : (b : ℕ) → IsShaped (abi_bool b)
unfolding abi_bool
bool-IsShaped b = uint64-IsShaped (if b == 0 then 0 else 1)

pub uint_be-IsShaped : (bs : List ℕ) → IsShaped (abi_uint_be (some_data bs))
unfolding abi_uint_be
uint_be-IsShaped bs = elim (Bool-cases (ltb 32 (length bs))) [
  | inl long ↦ rw long tt
  | inr short ↦
      let fits = ltb→ge 32 (length bs) short in
      rw short (
        omega
          (arith, length-append_bytes (zeros (32 - length bs)) bs, length-zeros (32 - length bs)))
]

pub address-IsShaped : (bs : List ℕ) → IsShaped (abi_address (some bs))
unfolding abi_address
address-IsShaped bs = uint_be-IsShaped bs

pub fixed_bytes-IsShaped : (bs : List ℕ) → IsShaped (abi_fixed_bytes (some_data bs))
unfolding abi_fixed_bytes
fixed_bytes-IsShaped [] = tt
fixed_bytes-IsShaped (b ∷ bs) =
    let n = suc (length bs) in
    elim (Bool-cases (ltb 32 n)) [
      | inl long ↦ rw long tt
      | inr short ↦
          let fits = ltb→ge 32 n short in
          rw short
            (omega (arith, length-append_bytes (b ∷ bs) (zeros (32 - n)), length-zeros (32 - n)))
    ]

count-first_values : (n : ℕ) (vs : AbiValues) → count (first_values n vs) ≤ n
unfolding first_values
count-first_values zero vs = omega arith
count-first_values (suc n) nil = omega arith
count-first_values (suc n) (cons v vs) = omega (arith, count-first_values n vs)

first_values-AllShaped : (n : ℕ) (vs : AbiValues) → AllShaped vs → AllShaped (first_values n vs)
unfolding first_values
first_values-AllShaped zero vs h = tt
first_values-AllShaped (suc n) nil h = tt
first_values-AllShaped (suc n) (cons v vs) (hv, hvs) = (hv, first_values-AllShaped n vs hvs)

abbrev pub OptionShaped : Option AbiValues → Type 0
OptionShaped none = Unit
OptionShaped (some vs) = AllShaped vs

pub make_list_value-IsShaped :
    (kind : ListKind) (vs : Option AbiValues) (n : ℕ) (flag : Bool)
    → n ≤ size_max
    → OptionShaped vs
    → IsShaped (make_list_value kind vs n flag)
unfolding make_list_value
make_list_value-IsShaped kind none n flag small h = if-holds IsShaped (n == 0) _ _ tt tt
make_list_value-IsShaped kind (some vs) n flag small h =
    (omega (arith, count-first_values n vs), first_values-AllShaped n vs h)
