-- ===== src/Eip1559/Contract.antt =====
-- kernel/eip_1559_tx.c: what `encode_envelope` leaves.
use evmxt.Prelude.{
  ℕ, suc, ◌+◌, ◌-◌, ◌≤◌, ◌<◌, ◌≡◌, ◌≢◌, refl, sym, ap, ◌∙◌, ◌⊎◌, inl, inr, true, List, [], ◌∷◌,
  ◌++◌, Option, none, some, arith, ltb, ltb→lt, ltb→ge, Bool-cases, Option-cases, length, drop,
}
use evmxt.Memory.{size_max, store}
use evmxt.Rlp.{RlpStatus, RlpValue}
use evmxt.Rlp.Encode.{rlp_encoded_size}
use evmxt.Rlp.Spec.{encoding, view}
use evmxt.Rlp.Contract.{Encodable, rlp_encoded_size_iff, rlp_encode_contract}
use evmxt.Eip1559.{ok, overflow, no_space}
use evmxt.Eip1559.Envelope.{Envelope, usable_size, write_envelope, envelope_sized, encode_envelope}

-- The value's payload, with the type byte, has a length below 2^64.
abbrev pub Fits : RlpValue → Type 0
Fits v = Encodable v × (length (encoding (view v)) < size_max)

usable_size-some :
    (answer : RlpStatus × Option ℕ) {n : ℕ}
    → usable_size answer ≡ some n
    → (answer ≡ (RlpStatus.ok, some n)) × (n ≢ size_max)
unfolding usable_size
usable_size-some answer h = ground arith

usable_size-none : (n : ℕ) → usable_size (RlpStatus.ok, some n) ≡ none → n ≡ size_max
unfolding usable_size
usable_size-none n h = ground arith

drop-drop : (n : ℕ) (b : ℕ) (bs : List ℕ) → drop n bs ≡ drop (1 + n) (b ∷ bs)
drop-drop n b bs = let more : 1 + n ≡ suc n = omega arith in rw more refl

write_envelope_lem :
    (v : RlpValue) (buf : List ℕ) (capacity n : ℕ)
    → Encodable v
    → 1 + length (encoding (view v)) ≤ capacity
    → capacity ≤ length buf
    → write_envelope v buf capacity n
      ≡ some (0x02 ∷ (encoding (view v) ++ drop (1 + length (encoding (view v))) buf))
unfolding write_envelope
write_envelope_lem v [] capacity n well room inside = absurd (omega arith)
write_envelope_lem v (b ∷ rest) capacity n well room inside =
    let (e, called, ended) = rlp_encode_contract v rest (capacity - 1) n (omega arith) in
    elim ended [
      | inl (status, out, size, well', fits) ↦
          rw (called, out, sym (drop-drop (length (encoding (view v))) b rest))
            (unfold store in refl)
      | inr (inl (status, out, size, well', short)) ↦ absurd (omega arith)
      | inr (inr (status, out, size, bad)) ↦ absurd (bad well)
    ]

abbrev pub Sealed : RlpValue → List ℕ → ℕ → Envelope → Type 0
Sealed v buf capacity e =
    let enc = encoding (view v) in
    (e.status ≡ ok)
    × (e.out ≡ some (0x02 ∷ (enc ++ drop (1 + length enc) buf)))
    × (e.written ≡ 1 + length enc)
    × Fits v
    × (1 + length enc ≤ capacity)

abbrev pub TooShort : RlpValue → Option (List ℕ) → ℕ → Envelope → Type 0
TooShort v out capacity e =
    (e.status ≡ no_space)
    × (e.out ≡ out)
    × (e.written ≡ 1 + length (encoding (view v)))
    × Fits v
    × (capacity < 1 + length (encoding (view v)))

abbrev pub Overflows : RlpValue → Option (List ℕ) → ℕ → Envelope → Type 0
Overflows v out old e = (e.status ≡ overflow) × (e.out ≡ out) × (e.written ≡ old) × (¬ Fits v)

usable-Fits :
    (v : RlpValue) {n : ℕ}
    → usable_size (rlp_encoded_size (some v) (some 0)) ≡ some n
    → Fits v × (n ≡ length (encoding (view v)))
usable-Fits v {n} h =
    let (answer, ne) = usable_size-some (rlp_encoded_size (some v) (some 0)) h in
    let (well, size) = (rlp_encoded_size_iff v 0 n).0 answer in
    let small = well.1 in ((well, omega arith), size)

unusable-Fits : (v : RlpValue) → usable_size (rlp_encoded_size (some v) (some 0)) ≡ none → ¬ Fits v
unusable-Fits v h (well, small) =
    let answer = (rlp_encoded_size_iff v 0 (length (encoding (view v)))).1 (well, refl) in
    let same = usable_size-none (length (encoding (view v))) (ap usable_size (sym answer) ∙ h) in
    absurd (omega arith)

-- `encode_envelope` of a value into a buffer of at least `capacity` bytes never writes out of
-- bounds; it leaves 0x02 and the value's RLP encoding at the front and reports the size, or
-- reports the size alone when the capacity is less, or returns `EIP_1559_OVERFLOW` exactly when
-- the value is not encodable or its payload's size would not fit `size_t`, with nothing changed.
pub encode_envelope_contract :
    (v : RlpValue) (buf : List ℕ) (capacity old : ℕ)
    → capacity ≤ length buf
    → (e : Envelope) × (encode_envelope v (some buf) capacity old ≡ some e)
      × (Sealed v buf capacity e ⊎ TooShort v (some buf) capacity e ⊎ Overflows v (some buf) old e)
unfolding encode_envelope envelope_sized
encode_envelope_contract v buf capacity old room =
    let whole = λ (size : Option ℕ). envelope_sized v (some buf) capacity old size in
    elim (Option-cases (usable_size (rlp_encoded_size (some v) (some 0)))) [
      | inl bad ↦ (
        record { status = overflow; out = some buf; written = old },
        ap whole bad,
        inr (inr (refl, refl, refl, unusable-Fits v bad)),
      )
      | inr (n, good) ↦
          let (fits, size) = usable-Fits v good in
          elim (Bool-cases (ltb capacity (1 + n))) [
            | inl short ↦
                let below = ltb→lt capacity (1 + n) short in
                (
                  record { status = no_space; out = some buf; written = 1 + n },
                  ap whole good ∙ rw short refl,
                  inr (inl (refl, refl, omega arith, fits, omega arith)),
                )
            | inr enough ↦
                let above = ltb→ge capacity (1 + n) enough in
                let enc = encoding (view v) in
                (
                  record {
                    status = ok;
                    out = some (0x02 ∷ (enc ++ drop (1 + length enc) buf));
                    written = 1 + n;
                  },
                  ap whole good
                      ∙ rw (enough, write_envelope_lem v buf capacity n fits.0 (omega arith) room)
                          refl,
                  inl (refl, refl, omega arith, fits, omega arith),
                )
          ]
    ]

-- With a NULL buffer and no capacity, the size is all that is given.
pub encode_envelope_query :
    (v : RlpValue) (old : ℕ)
    → (e : Envelope) × (encode_envelope v none 0 old ≡ some e)
      × (TooShort v none 0 e ⊎ Overflows v none old e)
unfolding encode_envelope envelope_sized
encode_envelope_query v old =
    let whole = λ (size : Option ℕ). envelope_sized v none 0 old size in
    elim (Option-cases (usable_size (rlp_encoded_size (some v) (some 0)))) [
      | inl bad ↦ (
        record { status = overflow; out = none; written = old },
        ap whole bad,
        inr (refl, refl, refl, unusable-Fits v bad),
      )
      | inr (n, good) ↦
          let (fits, size) = usable-Fits v good in
          let short : ltb 0 (1 + n) ≡ true = ground arith in
          (
            record { status = no_space; out = none; written = 1 + n },
            ap whole good ∙ rw short refl,
            inl (refl, refl, omega arith, fits, omega arith),
          )
    ]
