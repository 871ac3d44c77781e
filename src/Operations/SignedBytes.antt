-- ===== src/Operations/SignedBytes.antt =====
-- kernel/operations.c: the bytes that `sign_transaction` gives.
use mathlib.Core.Option.{some-injective}
use evmxt.Prelude.{
  ◌≤◌, ℕ, ◌+◌, ◌≡◌, refl, sym, ap, ◌∙◌, subst, ◌⊎◌, inl, inr, List, ◌∷◌, Option, none, some, arith,
  length, take, take_front, length-replicate, drop,
}
use evmxt.Rlp.{RlpValue}
use evmxt.Rlp.Spec.{view, encoding}
use evmxt.Eip1559.{
  Eip1559Status, ok, invalid_argument, overflow, no_space, no_memory, crypto_error, Tx,
}
use evmxt.Eip1559.Envelope.{Envelope, eip_1559_tx_encode}
use evmxt.Eip1559.Signing.{Allocates}
use evmxt.Eip1559.Contract.{Sealed}
use evmxt.Eip1559.Valid.{HasArrays, IsValidTx}
use evmxt.Eip1559.Fields.{unsigned_item}
use evmxt.Eip1559.SignedFields.{signed_item, SignsBytes, IsTransaction}
use evmxt.Eip1559.Transaction.{Encodes, Rejects, eip_1559_tx_encode_contract}
use evmxt.Operations.{Context, World, system, gives, access, require, fresh}
use evmxt.Operations.Laws.{>>?-eq-gives, gives-injective, access-eq-gives}
use evmxt.Operations.Calls.{written_bytes, size_transaction, sign_transaction}

-- The bytes of a signed transaction: 0x02 and the RLP encoding of twelve fields, the last three a
-- signature by the key of the hash of 0x02 and the encoding of the first nine.
abbrev pub IsSigned : World → List ℕ → Tx → List ℕ → Type 0
IsSigned w private_key tx raw =
    IsValidTx tx
    × (hash sig_out : List ℕ) × (recid : ℕ) × (w.libraries.keccak_digest
          (0x02 ∷ encoding (unsigned_item tx))
        ≡ some hash)
    × (length hash ≡ 32)
    × (w.libraries.sign_recoverable hash private_key ≡ some (sig_out, recid))
    × (recid ≤ 1)
    × (raw ≡ 0x02 ∷ encoding (signed_item tx recid (take 32 sig_out) (take 32 (drop 32 sig_out))))

written_bytes-ok :
    (status : Eip1559Status) (out : Option (List ℕ)) (n : ℕ) {bytes : List ℕ}
    → written_bytes status out n ≡ gives bytes
    → (status ≡ ok) × (raw : List ℕ) × (out ≡ some raw) × (take n raw ≡ bytes)
written_bytes-ok ok none n h = cc
written_bytes-ok ok (some raw) n h = (refl, raw, refl, gives-injective _ _ h)
written_bytes-ok invalid_argument out n h = cc
written_bytes-ok overflow out n h = cc
written_bytes-ok no_space out n h = cc
written_bytes-ok no_memory out n h = cc
written_bytes-ok crypto_error out n h = cc

-- The encoding is the whole of the bytes that were written.
written_bytes-Sealed :
    (v : RlpValue) (buf : List ℕ) (capacity : ℕ) (e : Envelope) (raw bytes : List ℕ)
    → Sealed v buf capacity e
    → e.out ≡ some raw
    → take e.written raw ≡ bytes
    → bytes ≡ 0x02 ∷ encoding (view v)
written_bytes-Sealed v buf capacity e raw bytes (status, out, written, fits, room) some_raw front =
    let enc = encoding (view v) in
    let same = some-injective _ _ (sym some_raw ∙ out) in
    let size : 1 + length enc ≡ length (0x02 ∷ enc) = omega arith in
    sym front
    ∙ ap (λ n. take n raw) (written ∙ size)
    ∙ ap (take (length (0x02 ∷ enc))) same
    ∙ take_front (0x02 ∷ enc) (drop (1 + length enc) buf)

IsTransaction-IsSigned :
    (w : World) (private_key : List ℕ) (tx : Tx) (v : RlpValue) (bytes : List ℕ)
    → IsValidTx tx
    → IsTransaction (system w w.signing) tx (some private_key) v
    → bytes ≡ 0x02 ∷ encoding (view v)
    → IsSigned w private_key tx bytes
IsTransaction-IsSigned w private_key tx v bytes valid
      (hash, sig_out, recid, hashed, width, made, low, twelve) same =
    let whole = same ∙ ap (λ i. 0x02 ∷ encoding i) twelve in
    (valid, hash, sig_out, recid, hashed, width, made, low, whole)

encoded-IsSigned :
    (w : World) (key : List ℕ) (tx : Tx) (buf : List ℕ) (n : ℕ) (e : Envelope) (raw bytes : List ℕ)
    → Encodes (system w w.signing) tx (some key) buf n e
      ⊎ Rejects (system w w.signing) tx (some key) buf e
    → e.status ≡ ok
    → e.out ≡ some raw
    → take e.written raw ≡ bytes
    → IsSigned w key tx bytes
encoded-IsSigned w key tx buf n e raw bytes (inr (inl (wrong, error), kept, nothing)) is_ok out
      front =
    absurd (cc (error, is_ok))
encoded-IsSigned w key tx buf n e raw bytes (inr (inr (valid, error, why), kept, nothing)) is_ok out
      front =
    absurd (rw is_ok at error)
encoded-IsSigned w key tx buf n e raw bytes (inl (valid, v, made, inl sealed)) is_ok out front =
    IsTransaction-IsSigned w key tx v bytes valid made
      (written_bytes-Sealed v buf n e raw bytes sealed out front)
encoded-IsSigned w key tx buf n e raw bytes (inl (valid, v, made, inr short)) is_ok out front =
    absurd (cc (short.0, is_ok))

pub sign_transaction-IsSigned :
    (w : World) (ctx : Context) (tx : Tx) {bytes : List ℕ}
    → Allocates (system w w.signing)
    → SignsBytes w.libraries
    → HasArrays tx
    → sign_transaction w ctx tx ≡ gives bytes
    → IsSigned w ctx.private_key tx bytes
unfolding sign_transaction
sign_transaction-IsSigned w ctx tx {bytes} allocates signs arrays h =
    let (n, sized, rest) = >>?-eq-gives (size_transaction w ctx tx) _ h in
    let (u, room, rest₁) = >>?-eq-gives (require w.raw_memory) _ rest in
    let call =
      eip_1559_tx_encode (system w w.signing) (some tx) (some ctx.private_key) (some (fresh n)) n in
    let (e, got, last) = >>?-eq-gives (access call) _ rest₁ in
    let (is_ok, raw, out, front) = written_bytes-ok e.status e.out e.written last in
    let size = length-replicate {A = ℕ} n 0 in
    let (e', called, ended) =
      eip_1559_tx_encode_contract (system w w.signing) tx (some ctx.private_key) (fresh n) n
        allocates signs arrays (omega arith) in
    let same : e' ≡ e = some-injective _ _ (sym called ∙ access-eq-gives call got) in
    encoded-IsSigned w ctx.private_key tx (fresh n) n e raw bytes
      (subst
        (λ x.
          Encodes (system w w.signing) tx (some ctx.private_key) (fresh n) n x
          ⊎ Rejects (system w w.signing) tx (some ctx.private_key) (fresh n) x)
        same ended)
      is_ok out front
