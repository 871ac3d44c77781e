-- ===== src/Eip1559/Signing.antt =====
-- kernel/eip_1559_tx.c: what is hashed, signed and encoded.
use evmxt.Prelude.{
  take_front, ℕ, ◌+◌, ◌≡◌, refl, ◌⊎◌, inl, inr, List, ◌∷◌, none, some, arith, length, drop,
  Option-cases, Result, fail,
}
use evmxt.Rlp.{RlpValue}
use evmxt.Rlp.Spec.{encoding, view}
use evmxt.Crypto.{eth_keccak256}
use evmxt.Eip1559.{Eip1559Status, overflow, no_memory}
use evmxt.Eip1559.Envelope.{
  System, hashed, hash_payload, write_payload, hash_sized, hash_signing_payload,
}
use evmxt.Eip1559.Contract.{Fits, encode_envelope_contract, encode_envelope_query}

-- The bytes to hash and to send.
abbrev pub payload : RlpValue → List ℕ
payload v = 0x02 ∷ encoding (view v)

-- `malloc` gives as many bytes as it is asked for.
abbrev pub Allocates : System → Type 0
Allocates sys = (n : ℕ) (bs : List ℕ) → sys.malloc n ≡ some bs → length bs ≡ n

-- How hashing ends.
abbrev pub Hashes : System → RlpValue → Result Eip1559Status (List ℕ) → Type 0
Hashes sys v result =
    ((result ≡ hashed (eth_keccak256 sys.libraries (payload v))) × Fits v)
    ⊎ ((result ≡ fail no_memory) × (sys.malloc (length (payload v)) ≡ none) × Fits v)
    ⊎ ((result ≡ fail overflow) × (¬ Fits v))

hash_written :
    (sys : System) (v : RlpValue) (buf : List ℕ)
    → Fits v
    → length buf ≡ length (payload v)
    → write_payload sys v (length (payload v)) (some buf)
      ≡ some (hashed (eth_keccak256 sys.libraries (payload v)))
unfolding hash_payload
hash_written sys v buf fits long =
    let size = length (payload v) in
    let (e, called, ended) = encode_envelope_contract v buf size size (omega arith) in
    elim ended [
      | inl (status, out, written, fits', room) ↦
          let sized : e.written ≡ length (payload v) = omega (arith, written) in
          rw
            (
              called,
              status,
              out,
              sized,
              take_front (payload v) (drop (1 + length (encoding (view v))) buf),
            )
            refl
      | inr (inl (status, out, written, fits', short)) ↦ absurd (omega arith)
      | inr (inr (status, out, written, bad)) ↦ absurd (bad fits)
    ]

pub hash_signing_payload_contract :
    (sys : System) (v : RlpValue)
    → Allocates sys
    → (result : Result Eip1559Status (List ℕ)) × (hash_signing_payload sys v ≡ some result)
      × Hashes sys v result
unfolding hash_signing_payload hash_sized
hash_signing_payload_contract sys v allocates =
    let (e, called, ended) = encode_envelope_query v 0 in
    elim ended [
      | inl (status, out, written, fits, short) ↦
          let size = length (payload v) in
          let sized : e.written ≡ length (payload v) = omega (arith, written) in
          elim (Option-cases (sys.malloc size)) [
            | inl nothing ↦ (
              fail no_memory,
              rw (called, status, sized, nothing) refl,
              inr (inl (refl, nothing, fits)),
            )
            | inr (buf, got) ↦ (
              hashed (eth_keccak256 sys.libraries (payload v)),
              rw (called, status, sized, got)
                  (hash_written sys v buf fits (allocates size buf got)),
              inl (refl, fits),
            )
          ]
      | inr (status, out, written, bad) ↦
          (fail overflow, rw (called, status) refl, inr (inr (refl, bad)))
    ]
