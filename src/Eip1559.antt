-- ===== src/Eip1559.antt =====
-- kernel/eip_1559_tx.c: EIP-1559 transactions, unsigned and signed.
pub mod Envelope
pub mod Amounts
pub mod Valid
pub mod Fields
pub mod SignedFields
pub mod Contract
pub mod Signing
pub mod Errors
pub mod Transaction
mod Examples
use evmxt.Prelude.{
  ℕ, zero, suc, ◌+◌, ◌-◌, ◌*◌, ◌/◌, ◌%◌, Bool, true, false, ◌&&◌, not, List, [], ◌∷◌, Option, none,
  some, ltb, ◌==◌, if◌then◌else◌, length, replicate, Result, done, fail, bind,
}
use evmxt.Memory.{size_max, Span, null_data, some_data, ◌>>=◌, store}
use evmxt.Rlp.{
  RlpValue, RlpValues, nil, cons, list, rlp_bytes, rlp_list, rlp_uint64, rlp_uint_be,
  sizeof_rlp_value,
}

pub data Eip1559Status : Type 0 where
  ok invalid_argument overflow no_space no_memory crypto_error : Eip1559Status

-- The keys of an entry: NULL with a count, or as many keys as it counts.
pub data StorageKeys : Type 0 where
  null_keys : ℕ → StorageKeys
  keys : List (List ℕ) → StorageKeys

pub record AccessEntry : Type 0 where
  pub address : List ℕ
  pub storage_keys : StorageKeys

-- The access list: NULL with a count, or as many entries as it counts.
pub data AccessList : Type 0 where
  null_entries : ℕ → AccessList
  entries : List AccessEntry → AccessList

pub record Tx : Type 0 where
  pub chain_id : ℕ
  pub nonce : ℕ
  pub max_priority_fee_per_gas : List ℕ
  pub max_fee_per_gas : List ℕ
  pub gas_limit : ℕ
  pub to : Option (List ℕ)
  pub value : List ℕ
  pub calldata : Span
  pub access_list : AccessList

-- `while (value != 0) { --position; out[position] = (uint8_t)value; value >>= 8; }` on fuel.
unfoldable pub uint256_loop : ℕ → ℕ → ℕ → List ℕ → Option (List ℕ)
uint256_loop zero position value out = some out
uint256_loop (suc fuel) zero value out = if value == 0 then some out else none
uint256_loop (suc fuel) (suc position) value out =
    let rest = store position (value % 256) out >>= uint256_loop fuel position (value / 256) in
    if value == 0 then some out else rest

-- `memset(out, 0, 32)`, and the loop; `none` is a write in front of the array.
unfoldable pub eip_1559_uint256 : ℕ → Option (List ℕ)
unfolding uint256_loop
eip_1559_uint256 value = uint256_loop value 32 value (replicate 32 0)

-- `memcmp(left, right, n) > 0`
unfoldable pub memcmp_greater : List ℕ → List ℕ → Bool
memcmp_greater [] right = false
memcmp_greater (a ∷ left) [] = false
memcmp_greater (a ∷ left) (b ∷ right) = if a == b then memcmp_greater left right else ltb b a

abbrev pub missing_data : Span → Bool
missing_data (null_data n) = not (n == 0)
missing_data (some_data bs) = false

abbrev pub missing_entries : AccessList → Bool
missing_entries (null_entries n) = not (n == 0)
missing_entries (entries es) = false

unfoldable pub validate_transaction : Option Tx → Eip1559Status
unfolding memcmp_greater
validate_transaction none = invalid_argument
validate_transaction (some tx) =
    if missing_data tx.calldata
    then invalid_argument
    else if missing_entries tx.access_list
    then invalid_argument
    else if memcmp_greater tx.max_priority_fee_per_gas tx.max_fee_per_gas
    then invalid_argument
    else ok

abbrev pub max_descriptors : ℕ
max_descriptors = size_max / sizeof_rlp_value

abbrev pub missing_keys : StorageKeys → Bool
missing_keys (null_keys n) = not (n == 0)
missing_keys (keys ks) = false

abbrev pub key_count : StorageKeys → ℕ
key_count (null_keys n) = n
key_count (keys ks) = length ks

-- The first loop of `build_access_list`.
unfoldable pub count_descriptors : List AccessEntry → ℕ → Result Eip1559Status ℕ
count_descriptors [] descriptor_count = done descriptor_count
count_descriptors (e ∷ es) descriptor_count =
    let rest = count_descriptors es (descriptor_count + key_count e.storage_keys) in
    if missing_keys e.storage_keys
    then fail invalid_argument
    else if ltb (max_descriptors - descriptor_count) (key_count e.storage_keys)
    then fail overflow
    else rest

-- The descriptors of the second loop, by value.
unfoldable pub key_values : List (List ℕ) → RlpValues
key_values [] = nil
key_values (k ∷ ks) = cons (rlp_bytes (some_data k)) (key_values ks)

abbrev pub keys_value : StorageKeys → RlpValue
keys_value (null_keys n) = rlp_list (some nil) n
keys_value (keys ks) = rlp_list (some (key_values ks)) (length ks)

unfoldable pub entry_values : List AccessEntry → RlpValues
unfolding key_values
entry_values [] = nil
entry_values (e ∷ es) =
    let fields = cons (rlp_bytes (some_data e.address)) (cons (keys_value e.storage_keys) nil) in
    cons (rlp_list (some fields) 2) (entry_values es)

-- `*descriptors_out` (none: NULL). Whether `malloc` succeeds is the first argument.
unfoldable pub build_entries : Bool → List AccessEntry → Result Eip1559Status (Option RlpValues)
unfolding count_descriptors entry_values
build_entries memory [] = done none
build_entries memory (e ∷ es) =
    if ltb (max_descriptors / 3) (length (e ∷ es))
    then fail overflow
    else bind (count_descriptors (e ∷ es) (3 * length (e ∷ es)))
        λ n. if memory then done (some (entry_values (e ∷ es))) else fail no_memory

-- An access list that is NULL with a count was refused before.
abbrev pub entries_of : AccessList → List AccessEntry
entries_of (null_entries n) = []
entries_of (entries es) = es

unfoldable pub build_access_list : Bool → Tx → Result Eip1559Status (Option RlpValues)
unfolding build_entries
build_access_list memory tx = build_entries memory (entries_of tx.access_list)

abbrev pub recipient : Option (List ℕ) → Span
recipient none = null_data 0
recipient (some address) = some_data address

abbrev pub append_values : RlpValues → RlpValues → RlpValues
append_values nil ws = ws
append_values (cons v vs) ws = cons v (append_values vs ws)

-- The first nine of `fields`.
unfoldable pub unsigned_fields : Tx → Option RlpValues → RlpValues
unsigned_fields tx access_list = cons (rlp_uint64 tx.chain_id) (
    cons (rlp_uint64 tx.nonce) (
      cons (rlp_uint_be (some_data tx.max_priority_fee_per_gas)) (
        cons (rlp_uint_be (some_data tx.max_fee_per_gas)) (
          cons (rlp_uint64 tx.gas_limit) (
            cons (rlp_bytes (recipient tx.to)) (
              cons (rlp_uint_be (some_data tx.value)) (
                cons (rlp_bytes tx.calldata)
                  (cons (rlp_list access_list (length (entries_of tx.access_list))) nil))))))))
