-- ===== src/Eip1559/Examples.antt =====
-- kernel/eip_1559_tx.c: the theorems at a signed transaction, with stand-ins for the libraries.
use evmxt.Prelude.{
  zero, suc, All, IsByte, subst, ℕ, ◌≡◌, refl, ap, ◌⊎◌, true, List, [], ◌∷◌, some, arith, length,
  length-replicate, replicate, done,
}
use evmxt.Memory.{some_data}
use evmxt.BigEndian.{be_bytes}
use evmxt.BigEndian.Laws.{be_bytes-IsByte, length-be_bytes}
use evmxt.Rlp.Spec.{view}
use evmxt.Rlp.{RlpValue, RlpValues, rlp_list, nil, cons, list, uint64}
use evmxt.Eip1559.{
  Eip1559Status, keys, entries, Tx, entries_of, entry_values, unsigned_fields, build_access_list,
  count_descriptors, eip_1559_uint256, validate_transaction,
}
use evmxt.Eip1559.Envelope.{Envelope, System, encode_envelope, eip_1559_tx_encode}
use evmxt.Eip1559.Amounts.{eip_1559_uint256_lem}
use evmxt.Eip1559.Valid.{IsAmount, HasArrays, IsValidTx, validate_transaction_lem}
use evmxt.Eip1559.SignedFields.{SignsBytes}
use mathlib.Core.Option.{some-injective}
use evmxt.Eip1559.Fields.{unsigned_item, view-unsigned_fields}
use evmxt.Eip1559.Contract.{Sealed, TooShort, Overflows, encode_envelope_contract}
use evmxt.Eip1559.Signing.{Allocates}
use evmxt.Eip1559.Transaction.{Encodes, Rejects, eip_1559_tx_encode_contract}

abbrev system : System
system = record {
  libraries = record {
    keccak_digest = λ bs. some (replicate 32 (length bs));
    sign_recoverable = λ hash key. some (replicate 64 7, 1);
  };
  list_memory = true;
  malloc = λ n. some (replicate n 0xff);
}

replicate-some : (n : ℕ) (bs : List ℕ) → some (replicate n 0xff) ≡ some bs → length bs ≡ n
replicate-some n bs h =
    let same : replicate n 0xff ≡ bs = cc h in
    omega (arith, ap length same, length-replicate {A = ℕ} n 0xff)

system-Allocates : Allocates system
system-Allocates n bs h = replicate-some n bs h

sevens-IsByte : (n : ℕ) → All IsByte (replicate n 7)
sevens-IsByte zero = tt
sevens-IsByte (suc n) = (omega arith, sevens-IsByte n)

system-SignsBytes : SignsBytes system.libraries
system-SignsBytes hash key sig_out recid h =
    let same : (replicate 64 7, 1) ≡ (sig_out, recid) = some-injective _ _ h in
    subst (All IsByte) (ap (λ (p : List ℕ × ℕ). p.0) same) (sevens-IsByte 64)

abbrev transfer : Tx
transfer = record {
  chain_id = 1;
  nonce = 9;
  max_priority_fee_per_gas = be_bytes 32 2;
  max_fee_per_gas = be_bytes 32 30;
  gas_limit = 21000;
  to = some (replicate 20 0x35);
  value = be_bytes 32 1000;
  calldata = some_data (1 ∷ 2 ∷ []);
  access_list =
      entries (record { address = replicate 20 1; storage_keys = keys (be_bytes 32 5 ∷ []) } ∷ []);
}

word-IsAmount : (n : ℕ) → IsAmount (be_bytes 32 n)
word-IsAmount n = (length-be_bytes 32 n, be_bytes-IsByte 32 n)

transfer-HasArrays : HasArrays transfer
transfer-HasArrays = (word-IsAmount 2, word-IsAmount 30, word-IsAmount 1000)

abbrev buffer : List ℕ
buffer = replicate 300 0xff

abbrev two_numbers : RlpValue
two_numbers = list (cons (uint64 1) (cons (uint64 1024) nil))

eip_1559_tx_encode_contract_example :
    (e : Envelope) × (eip_1559_tx_encode system
        (some transfer)
        (some (be_bytes 32 1))
        (some buffer)
        300
      ≡ some e)
    × (Encodes system transfer (some (be_bytes 32 1)) buffer 300 e
        ⊎ Rejects system transfer (some (be_bytes 32 1)) buffer e)
eip_1559_tx_encode_contract_example =
    eip_1559_tx_encode_contract system transfer (some (be_bytes 32 1)) buffer 300 system-Allocates
      system-SignsBytes transfer-HasArrays (omega arith)

abbrev transfer_fields : RlpValues
transfer_fields = unsigned_fields transfer (some (entry_values (entries_of transfer.access_list)))

transfer_list :
    build_access_list true transfer ≡ done (some (entry_values (entries_of transfer.access_list)))
unfolding build_access_list count_descriptors
transfer_list = refl

view-unsigned_fields_example : view (rlp_list (some transfer_fields) 9) ≡ unsigned_item transfer
view-unsigned_fields_example =
    view-unsigned_fields true transfer (some (entry_values (entries_of transfer.access_list)))
      (be_bytes-IsByte 32 2) (be_bytes-IsByte 32 30) (be_bytes-IsByte 32 1000) transfer_list

encode_envelope_contract_example :
    (e : Envelope) × (encode_envelope two_numbers (some buffer) 10 0 ≡ some e)
    × (Sealed two_numbers buffer 10 e
        ⊎ TooShort two_numbers (some buffer) 10 e
        ⊎ Overflows two_numbers (some buffer) 0 e)
encode_envelope_contract_example = encode_envelope_contract two_numbers buffer 10 0 (omega arith)

eip_1559_uint256_lem_example : eip_1559_uint256 1000 ≡ some (be_bytes 32 1000)
eip_1559_uint256_lem_example = eip_1559_uint256_lem 1000 (omega arith)

validate_transaction_lem_example :
    (IsValidTx transfer × (validate_transaction (some transfer) ≡ Eip1559Status.ok))
    ⊎ ((¬ IsValidTx transfer)
        × (validate_transaction (some transfer) ≡ Eip1559Status.invalid_argument))
validate_transaction_lem_example = validate_transaction_lem transfer transfer-HasArrays
