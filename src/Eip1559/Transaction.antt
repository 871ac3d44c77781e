-- ===== src/Eip1559/Transaction.antt =====
-- kernel/eip_1559_tx.c: what `eip_1559_tx_encode` leaves.
use evmxt.Prelude.{
  ℕ, ◌≤◌, ◌≡◌, refl, ◌⊎◌, inl, inr, List, Option, none, some, length, Option-cases, Result, done,
  fail,
}
use evmxt.Rlp.{RlpValue, RlpValues, rlp_list}
use evmxt.Crypto.{eth_keccak256, sign_hash}
use evmxt.Eip1559.{
  Eip1559Status, invalid_argument, overflow, no_memory, crypto_error, Tx, build_entries,
  build_access_list, unsigned_fields, append_values, entries_of,
}
use evmxt.Eip1559.Envelope.{
  Envelope, System, signature_fields, sign_fields, transaction_value, encode_signed, encode_listed,
  encode_validated, eip_1559_tx_encode,
}
use evmxt.Rlp.Spec.{view}
use evmxt.Eip1559.Fields.{unsigned_item, view-unsigned_fields}
use evmxt.Eip1559.Contract.{Fits, Sealed, TooShort, encode_envelope_contract}
use evmxt.Eip1559.Valid.{HasArrays, IsValidTx, validate_transaction_lem}
use evmxt.Eip1559.SignedFields.{IsTransaction, IsBuilt, SignsBytes, IsBuilt-IsTransaction}
use evmxt.Eip1559.Errors.{IsTxError, Errors-IsTxError, Errors-build_entries}
use evmxt.Eip1559.Signing.{payload, Allocates, hash_signing_payload_contract}

-- Why a payload has no signature: the hash or the signing fails, `malloc` fails, or the payload does
-- not fit `size_t`.
abbrev pub NotSigned : System → List ℕ → RlpValue → Eip1559Status → Type 0
NotSigned sys private_key nine status =
    ((status ≡ crypto_error)
      × ((eth_keccak256 sys.libraries (payload nine) ≡ none)
          ⊎ ((hash : List ℕ) × (eth_keccak256 sys.libraries (payload nine) ≡ some hash)
              × (sign_hash sys.libraries private_key hash ≡ none))))
    ⊎ ((status ≡ no_memory) × (sys.malloc (length (payload nine)) ≡ none))
    ⊎ ((status ≡ overflow) × (¬ Fits nine))

NotSigned-IsTxError :
    (sys : System) (private_key : List ℕ) (nine : RlpValue) (status : Eip1559Status)
    → NotSigned sys private_key nine status
    → IsTxError status
NotSigned-IsTxError sys private_key nine status (inl (e, why)) = rw e tt
NotSigned-IsTxError sys private_key nine status (inr (inl (e, why))) = rw e tt
NotSigned-IsTxError sys private_key nine status (inr (inr (e, why))) = rw e tt

transaction_value_contract :
    (sys : System) (fields : RlpValues) (key : Option (List ℕ))
    → Allocates sys
    → (r : Result Eip1559Status RlpValue) × (transaction_value sys fields key ≡ some r)
      × (((v : RlpValue) × (r ≡ done v) × IsBuilt sys fields key v)
          ⊎ ((e : Eip1559Status) × (private_key : List ℕ) × (r ≡ fail e)
              × (key ≡ some private_key)
              × NotSigned sys private_key (rlp_list (some fields) 9) e))
unfolding transaction_value sign_fields
transaction_value_contract sys fields none allocates =
    (done (rlp_list (some fields) 9), refl, inl (rlp_list (some fields) 9, refl, refl))
transaction_value_contract sys fields (some key) allocates =
    let nine = rlp_list (some fields) 9 in
    let (result, called, ended) = hash_signing_payload_contract sys nine allocates in
    let libs = sys.libraries in
    elim ended [
      | inl (answer, fits) ↦ elim (Option-cases (eth_keccak256 libs (payload nine))) [
        | inl unhashed ↦ (
          fail crypto_error,
          rw (called, answer, unhashed) refl,
          inr (crypto_error, key, refl, refl, inl (refl, inl unhashed)),
        )
        | inr (hash, got) ↦ elim (Option-cases (sign_hash libs key hash)) [
          | inl unsigned ↦ (
            fail crypto_error,
            rw (called, answer, got, unsigned) refl,
            inr (crypto_error, key, refl, refl, inl (refl, inr (hash, got, unsigned))),
          )
          | inr (signature, made) ↦
              let twelve = rlp_list (some (append_values fields (signature_fields signature))) 12 in
              (
                done twelve,
                rw (called, answer, got, made) refl,
                inl (twelve, refl, (hash, signature, got, made, refl)),
              )
        ]
      ]
      | inr (inl (answer, nothing, fits)) ↦ (
        fail no_memory,
        rw (called, answer) refl,
        inr (no_memory, key, refl, refl, inr (inl (refl, nothing))),
      )
      | inr (inr (answer, bad)) ↦ (
        fail overflow,
        rw (called, answer) refl,
        inr (overflow, key, refl, refl, inr (inr (refl, bad))),
      )
    ]

Result-cases {ℓ} :
    {A : Type ℓ} (r : Result Eip1559Status A)
    → ((a : A) × (r ≡ done a)) ⊎ ((e : Eip1559Status) × (r ≡ fail e))
Result-cases (done a) = inl (a, refl)
Result-cases (fail e) = inr (e, refl)

-- A valid transaction is written, or is too long for the capacity.
abbrev pub Encodes : System → Tx → Option (List ℕ) → List ℕ → ℕ → Envelope → Type 0
Encodes sys tx key buf capacity e =
    IsValidTx tx
    × (v : RlpValue) × IsTransaction sys tx key v
    × (Sealed v buf capacity e ⊎ TooShort v (some buf) capacity e)

-- Why a valid transaction is not written: the access list, the signature, or a size that does not
-- fit `size_t`.
abbrev pub Fails : System → Tx → Option (List ℕ) → Eip1559Status → Type 0
Fails sys tx key status =
    (build_access_list sys.list_memory tx ≡ fail status)
    ⊎ ((private_key : List ℕ) × (nine : RlpValue) × (key ≡ some private_key)
        × (view nine ≡ unsigned_item tx)
        × NotSigned sys private_key nine status)
    ⊎ ((v : RlpValue) × IsTransaction sys tx key v × (status ≡ overflow) × (¬ Fits v))

-- An error is returned, with the buffer unchanged and the size 0: `EIP_1559_INVALID_ARGUMENT` for
-- what is not valid, and otherwise for a cause.
abbrev pub Rejects : System → Tx → Option (List ℕ) → List ℕ → Envelope → Type 0
Rejects sys tx key buf e =
    (((¬ IsValidTx tx) × (e.status ≡ invalid_argument))
      ⊎ (IsValidTx tx × IsTxError e.status × Fails sys tx key e.status))
    × (e.out ≡ some buf)
    × (e.written ≡ 0)

encode_listed_contract :
    (sys : System) (tx : Tx) (key : Option (List ℕ)) (access_list : Option RlpValues) (buf : List ℕ)
    (capacity : ℕ)
    → Allocates sys
    → SignsBytes sys.libraries
    → HasArrays tx
    → capacity ≤ length buf
    → IsValidTx tx
    → build_access_list sys.list_memory tx ≡ done access_list
    → (e : Envelope) × (encode_listed sys tx key (done access_list) (some buf) capacity ≡ some e)
      × (Encodes sys tx key buf capacity e ⊎ Rejects sys tx key buf e)
unfolding encode_listed encode_signed
encode_listed_contract sys tx key access_list buf capacity allocates bytes arrays room valid built =
    let (r, called, ended) =
      transaction_value_contract sys (unsigned_fields tx access_list) key allocates in
    let nine = rlp_list (some (unsigned_fields tx access_list)) 9 in
    let ((l₁, h₁), (l₂, h₂), (l₃, h₃)) = arrays in
    let same = view-unsigned_fields sys.list_memory tx access_list h₁ h₂ h₃ built in
    elim ended [
      | inr (e, private_key, failed, keyed, why) ↦
          let error = NotSigned-IsTxError sys private_key nine e why in
          (
            record { status = e; out = some buf; written = 0 },
            rw (called, failed) refl,
            inr (inr (valid, error, inr (inl (private_key, nine, keyed, same, why))), refl, refl),
          )
      | inl (v, made, right) ↦
          let (e, encoded, finished) = encode_envelope_contract v buf capacity 0 room in
          let whole = IsBuilt-IsTransaction sys tx key access_list v arrays bytes built right in
          (
            e,
            rw (called, made) encoded,
            (elim finished [
              | inl sealed ↦ inl (valid, v, whole, inl sealed)
              | inr (inl short) ↦ inl (valid, v, whole, inr short)
              | inr (inr (status, out, written, bad)) ↦
                  inr (inr (valid, rw status tt, inr (inr (v, whole, status, bad))), out, written)
            ]),
          )
    ]

-- If `malloc` gives as many bytes as it is asked for, secp256k1 writes bytes, and the
-- transaction's three amounts are 32 bytes each, a call of `eip_1559_tx_encode` with a
-- transaction, a key or none, a buffer of at least `capacity` bytes and a `written` pointer never
-- writes out of bounds, and ends in one of two ways. Either the transaction is valid, that is,
-- data and access list are NULL only when they are empty and the priority fee is at most the fee,
-- and 0x02 with the RLP encoding of its nine fields, or, with a key, of twelve, stands at the
-- front of the buffer, the rest unchanged, or, when it is longer than the capacity, only its size
-- is reported; the last three of the twelve are the recovery id, which is at most 1, and the first
-- and second 32 bytes of a signature by the key of the 32-byte hash of 0x02 and the encoding of
-- the nine. Or an error is returned, with the buffer unchanged and the size 0:
-- `EIP_1559_INVALID_ARGUMENT` when the transaction is not valid, the error of `build_access_list`
-- when the list cannot be built, `EIP_1559_CRYPTO_ERROR` when there is a key and the hash or the
-- signing fails, `EIP_1559_NO_MEMORY` when there is a key and `malloc` fails, and
-- `EIP_1559_OVERFLOW` when the value to hash or to write does not fit `size_t`; there is no other
-- error.
pub eip_1559_tx_encode_contract :
    (sys : System) (tx : Tx) (key : Option (List ℕ)) (buf : List ℕ) (capacity : ℕ)
    → Allocates sys
    → SignsBytes sys.libraries
    → HasArrays tx
    → capacity ≤ length buf
    → (e : Envelope) × (eip_1559_tx_encode sys (some tx) key (some buf) capacity ≡ some e)
      × (Encodes sys tx key buf capacity e ⊎ Rejects sys tx key buf e)
unfolding eip_1559_tx_encode encode_validated build_access_list
eip_1559_tx_encode_contract sys tx key buf capacity allocates bytes arrays room =
    elim (validate_transaction_lem tx arrays) [
      | inr (wrong, refused) ↦ (
        record { status = invalid_argument; out = some buf; written = 0 },
        rw refused refl,
        inr (inl (wrong, refl), refl, refl),
      )
      | inl (valid, accepted) ↦
          let build = build_entries sys.list_memory (entries_of tx.access_list) in
          elim (Result-cases build) [
            | inl (access_list, built) ↦
                let (e, encoded, ended) =
                  encode_listed_contract sys tx key access_list buf capacity allocates bytes arrays
                    room valid built in
                (e, rw (accepted, built) encoded, ended)
            | inr (e, bad) ↦
                let error =
                  Errors-IsTxError build e
                    (Errors-build_entries sys.list_memory (entries_of tx.access_list)) bad in
                (
                  record { status = e; out = some buf; written = 0 },
                  rw (accepted, bad) (unfold encode_listed in refl),
                  inr (inr (valid, error, inl bad), refl, refl),
                )
          ]
    ]
