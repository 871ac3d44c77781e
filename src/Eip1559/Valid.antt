-- ===== src/Eip1559/Valid.antt =====
-- kernel/eip_1559_tx.c: which transactions `validate_transaction` accepts.
use evmxt.Prelude.{
  ℕ, ◌≤◌, ◌≡◌, refl, ◌⊎◌, inl, inr, true, false, List, some, arith, Bool-cases, length, All, IsByte,
}
use evmxt.Memory.{Span, null_data, some_data}
use evmxt.BigEndian.{from_be}
use evmxt.Eip1559.{
  ok, invalid_argument, AccessList, null_entries, entries, Tx, memcmp_greater, validate_transaction,
  missing_data, missing_entries,
}
use evmxt.Eip1559.Amounts.{memcmp_greater_iff}

-- `uint8_t[32]`
abbrev pub IsAmount : List ℕ → Type 0
IsAmount w = (length w ≡ 32) × All IsByte w

-- The arrays of the C structure.
abbrev pub HasArrays : Tx → Type 0
HasArrays tx =
    IsAmount tx.max_priority_fee_per_gas × IsAmount tx.max_fee_per_gas × IsAmount tx.value

-- NULL only with the length 0.
abbrev pub HasData : Span → Type 0
HasData (null_data n) = n ≡ 0
HasData (some_data bs) = Unit

abbrev pub HasEntries : AccessList → Type 0
HasEntries (null_entries n) = n ≡ 0
HasEntries (entries es) = Unit

-- Nothing is missing, and the priority fee is at most the fee, both as big-endian numbers.
abbrev pub IsValidTx : Tx → Type 0
IsValidTx tx =
    HasData tx.calldata
    × HasEntries tx.access_list
    × (from_be 0 tx.max_priority_fee_per_gas ≤ from_be 0 tx.max_fee_per_gas)

data_cases :
    (s : Span) → (HasData s × (missing_data s ≡ false)) ⊎ ((¬ HasData s) × (missing_data s ≡ true))
data_cases (null_data n) = ground arith
data_cases (some_data bs) = inl (tt, refl)

entries_cases :
    (a : AccessList)
    → (HasEntries a × (missing_entries a ≡ false)) ⊎ ((¬ HasEntries a) × (missing_entries a ≡ true))
entries_cases (null_entries n) = ground arith
entries_cases (entries es) = inl (tt, refl)

-- For a transaction whose amounts are 32 bytes each, `validate_transaction` returns `EIP_1559_OK`
-- exactly when data and access list are NULL only with the length 0 and the priority fee, as a
-- number, is at most the fee; otherwise it returns `EIP_1559_INVALID_ARGUMENT`.
pub validate_transaction_lem :
    (tx : Tx)
    → HasArrays tx
    → (IsValidTx tx × (validate_transaction (some tx) ≡ ok))
      ⊎ ((¬ IsValidTx tx) × (validate_transaction (some tx) ≡ invalid_argument))
unfolding validate_transaction
validate_transaction_lem tx ((long₁, h₁), (long₂, h₂), last) =
    let left = tx.max_priority_fee_per_gas in
    let right = tx.max_fee_per_gas in
    let order = memcmp_greater_iff left right h₁ h₂ (omega arith) in
    elim (data_cases tx.calldata) [
      | inr (none_given, missing) ↦ inr (λ valid. none_given valid.0, rw missing refl)
      | inl (data_given, has_data) ↦ elim (entries_cases tx.access_list) [
        | inr (none_listed, missing) ↦
            inr (λ valid. none_listed valid.1, rw (has_data, missing) refl)
        | inl (listed, has_entries) ↦ elim (Bool-cases (memcmp_greater left right)) [
          | inl greater ↦
              let above = order.0 greater in
              inr (
                λ valid. let below = valid.2 in omega arith,
                rw (has_data, has_entries, greater) refl,
              )
          | inr fair ↦
              let below : from_be 0 left ≤ from_be 0 right = ground (arith, order, fair) in
              inl ((data_given, listed, below), rw (has_data, has_entries, fair) refl)
        ]
      ]
    ]
