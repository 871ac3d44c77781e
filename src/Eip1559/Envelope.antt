-- ===== src/Eip1559/Envelope.antt =====
-- kernel/eip_1559_tx.c: the type byte in front of the RLP fields, the hash to sign, and the whole
-- encoding.
use evmxt.Prelude.{
  ℕ, ◌+◌, ◌-◌, Bool, false, not, List, ◌++◌, Option, none, some, ltb, ◌==◌, if◌then◌else◌, take,
  drop, Result, done, fail,
}
use evmxt.Memory.{size_max, some_data, ◌>>=◌, store}
use evmxt.Rlp.{RlpStatus, RlpValue, RlpValues, nil, cons, rlp_list, rlp_uint64, rlp_uint_be}
use evmxt.Rlp.Encode.{rlp_encoded_size, rlp_encode}
use evmxt.Crypto.{Libraries, eth_keccak256, sign_hash, Signature}
use evmxt.Eip1559.{
  Eip1559Status, ok, invalid_argument, overflow, no_space, no_memory, crypto_error, Tx,
  validate_transaction, build_access_list, unsigned_fields, append_values,
}

-- What a call leaves: its status, the buffer (none: NULL) and `*written`.
pub record Envelope : Type 0 where
  pub status : Eip1559Status
  pub out : Option (List ℕ)
  pub written : ℕ

-- `status != RLP_OK || rlp_size == SIZE_MAX` gives none.
unfoldable pub usable_size : RlpStatus × Option ℕ → Option ℕ
usable_size (RlpStatus.ok, some rlp_size) = if rlp_size == size_max then none else some rlp_size
usable_size _ = none

-- `rlp_encode(fields, out + 1, capacity - 1, &rlp_size); out[0] = TRANSACTION_TYPE;`
unfoldable pub write_envelope : RlpValue → List ℕ → ℕ → ℕ → Option (List ℕ)
write_envelope fields buf capacity rlp_size =
    rlp_encode (some fields) (some (drop 1 buf)) (capacity - 1) (some rlp_size) >>= λ e.
    e.out >>= λ behind. store 0 0x02 (take 1 buf ++ behind)

-- From the size on; `none` is a write out of bounds or through NULL.
unfoldable pub envelope_sized : RlpValue → Option (List ℕ) → ℕ → ℕ → Option ℕ → Option Envelope
envelope_sized fields out capacity written none =
    some (record { status = overflow; out = out; written = written })
envelope_sized fields out capacity written (some rlp_size) =
    if ltb capacity (1 + rlp_size)
    then some (record { status = no_space; out = out; written = 1 + rlp_size })
    else (out >>= λ buf. write_envelope fields buf capacity rlp_size >>= λ buf'.
        some (record { status = ok; out = some buf'; written = 1 + rlp_size }))

unfoldable pub encode_envelope : RlpValue → Option (List ℕ) → ℕ → ℕ → Option Envelope
encode_envelope fields out capacity written =
    envelope_sized fields out capacity written
      (usable_size (rlp_encoded_size (some fields) (some 0)))

-- The system: the libraries, whether the access list can be allocated, and `malloc` of the payload,
-- whose bytes are not initialized.
pub record System : Type 0 where
  pub libraries : Libraries
  pub list_memory : Bool
  pub malloc : ℕ → Option (List ℕ)

abbrev pub hashed : Option (List ℕ) → Result Eip1559Status (List ℕ)
hashed none = fail crypto_error
hashed (some hash) = done hash

-- The hash of a payload, if it was written.
unfoldable pub hash_payload :
    System → Eip1559Status → Option (List ℕ) → ℕ → Result Eip1559Status (List ℕ)
hash_payload sys ok (some payload) size = hashed (eth_keccak256 sys.libraries (take size payload))
hash_payload sys ok none size = fail ok
hash_payload sys status payload size = fail status

abbrev pub write_payload :
    System → RlpValue → ℕ → Option (List ℕ) → Option (Result Eip1559Status (List ℕ))
write_payload sys unsigned size none = some (fail no_memory)
write_payload sys unsigned size (some payload) =
    encode_envelope unsigned (some payload) size size >>= λ e.
    some (hash_payload sys e.status e.out e.written)

-- From the size query on: it is expected to end in `EIP_1559_NO_SPACE`.
unfoldable pub hash_sized :
    System → RlpValue → Eip1559Status → ℕ → Option (Result Eip1559Status (List ℕ))
unfolding hash_payload
hash_sized sys unsigned no_space size = write_payload sys unsigned size (sys.malloc size)
hash_sized sys unsigned status size = some (fail status)

unfoldable pub hash_signing_payload : System → RlpValue → Option (Result Eip1559Status (List ℕ))
hash_signing_payload sys unsigned =
    encode_envelope unsigned none 0 0 >>= λ e. hash_sized sys unsigned e.status e.written

-- `fields[9]` to `fields[11]`.
unfoldable pub signature_fields : Signature → RlpValues
signature_fields signature =
    cons (rlp_uint64 signature.v)
      (cons (rlp_uint_be (some_data signature.r)) (cons (rlp_uint_be (some_data signature.s)) nil))

abbrev pub signed : RlpValues → Option Signature → Result Eip1559Status RlpValue
signed fields none = fail crypto_error
signed fields (some signature) =
    done (rlp_list (some (append_values fields (signature_fields signature))) 12)

-- The transaction with its signature, from the hash on.
unfoldable pub sign_fields :
    System → RlpValues → List ℕ → Result Eip1559Status (List ℕ) → Result Eip1559Status RlpValue
sign_fields sys fields private_key (fail e) = fail e
sign_fields sys fields private_key (done hash) =
    signed fields (sign_hash sys.libraries private_key hash)

-- The value to encode: nine fields without a key, twelve with one.
unfoldable pub transaction_value :
    System → RlpValues → Option (List ℕ) → Option (Result Eip1559Status RlpValue)
transaction_value sys fields none = some (done (rlp_list (some fields) 9))
transaction_value sys fields (some private_key) =
    hash_signing_payload sys (rlp_list (some fields) 9) >>= λ hashed.
    some (sign_fields sys fields private_key hashed)

unfoldable pub encode_signed : Result Eip1559Status RlpValue → Option (List ℕ) → ℕ → Option Envelope
encode_signed (fail e) out capacity = some (record { status = e; out = out; written = 0 })
encode_signed (done transaction) out capacity = encode_envelope transaction out capacity 0

-- From the access list on.
unfoldable pub encode_listed :
    System
    → Tx
    → Option (List ℕ)
    → Result Eip1559Status (Option RlpValues)
    → Option (List ℕ)
    → ℕ
    → Option Envelope
encode_listed sys tx private_key (fail e) out capacity =
    some (record { status = e; out = out; written = 0 })
encode_listed sys tx private_key (done access_list) out capacity =
    transaction_value sys (unsigned_fields tx access_list) private_key >>= λ transaction.
    encode_signed transaction out capacity

unfoldable pub encode_validated :
    System → Tx → Option (List ℕ) → Eip1559Status → Option (List ℕ) → ℕ → Option Envelope
encode_validated sys tx private_key ok out capacity =
    encode_listed sys tx private_key (build_access_list sys.list_memory tx) out capacity
encode_validated sys tx private_key status out capacity =
    some (record { status = status; out = out; written = 0 })

abbrev null_with_capacity : Option (List ℕ) → ℕ → Bool
null_with_capacity none capacity = not (capacity == 0)
null_with_capacity (some buf) capacity = false

-- For a `written` that is not NULL.
unfoldable pub eip_1559_tx_encode :
    System → Option Tx → Option (List ℕ) → Option (List ℕ) → ℕ → Option Envelope
eip_1559_tx_encode sys none private_key out capacity =
    some (record { status = invalid_argument; out = out; written = 0 })
eip_1559_tx_encode sys (some tx) private_key out capacity =
    if null_with_capacity out capacity
    then some (record { status = invalid_argument; out = out; written = 0 })
    else encode_validated sys tx private_key (validate_transaction (some tx)) out capacity
