-- ===== src/Rlp/Contract.antt =====
-- kernel/rlp.h: what `rlp_encoded_size` and `rlp_encode` promise their callers.
use evmxt.Prelude.{
  ℕ, ◌+◌, ◌≤◌, ◌<◌, ◌≡◌, ◌≢◌, refl, ap, ◌↔◌, ◌⊎◌, Bool, inl, inr, List, ◌++◌, none, some, arith,
  ltb, Bool-cases, ltb→lt, ltb→ge, lt→ltb, subst, length, drop, Result, done, fail, bind,
}
use evmxt.Memory.{size_max, splice, null_data, some_data}
use evmxt.Memory.Laws.{splice-zero}
use evmxt.Rlp.{
  RlpStatus, ok, invalid_argument, overflow, no_space, depth_exceeded, RlpValue, RlpValues, invalid,
  bytes, uint64, null_list, list, nil, cons, is_list, item_bytes, item_length, children_length,
  total_size, measure_item,
}
use evmxt.Rlp.Encode.{Encoded, rlp_encoded_size, size_result, rlp_encode, encode_root}
use evmxt.Rlp.Spec.{encoding, view}
use evmxt.Rlp.Sizes.{WellFormed, measured, measured_pos, measure_item_iff}
use evmxt.Rlp.Writes.{writes}

-- The encoding of a well-formed value that fits `size_t`.
abbrev pub Encodable : RlpValue → Type 0
Encodable v = WellFormed v 0 × (length (encoding (view v)) ≤ size_max)

Result-cases :
    (r : Result RlpStatus ℕ) → ((n : ℕ) × (r ≡ done n)) ⊎ ((e : RlpStatus) × (r ≡ fail e))
Result-cases (done n) = inl (n, refl)
Result-cases (fail e) = inr (e, refl)

-- The statuses that measuring can give.
abbrev pub IsMeasureError : RlpStatus → Type 0
IsMeasureError ok = ⊥
IsMeasureError no_space = ⊥
IsMeasureError _ = Unit

abbrev Errors : Result RlpStatus ℕ → Type 0
Errors r = (r ≢ fail ok) × (r ≢ fail no_space)

Errors-fail : (e : RlpStatus) → Errors (fail e) → IsMeasureError e
Errors-fail ok h = absurd (h.0 refl)
Errors-fail no_space h = absurd (h.1 refl)
Errors-fail invalid_argument h = tt
Errors-fail overflow h = tt
Errors-fail depth_exceeded h = tt

Errors-bind :
    (r : Result RlpStatus ℕ) (f : ℕ → Result RlpStatus ℕ)
    → Errors r
    → ((n : ℕ) → Errors (f n))
    → Errors (bind r f)
Errors-bind (done n) f h k = k n
Errors-bind (fail e) f h k = h

Errors-total_size : (listed : Bool) (bs : List ℕ) (len : ℕ) → Errors (total_size listed bs len)
unfolding total_size
Errors-total_size listed bs len = ground arith

mutual
  unfolding item_length

  Errors-item_length : (v : RlpValue) (depth : ℕ) → Errors (item_length v depth)
  Errors-item_length invalid depth = ground arith
  Errors-item_length (bytes (null_data n)) depth = ground arith
  Errors-item_length (bytes (some_data bs)) depth = ground arith
  Errors-item_length (uint64 k) depth = ground arith
  Errors-item_length (null_list k) depth = ground arith
  Errors-item_length (list vs) depth = ground (arith, Errors-children_length vs (depth + 1) 0)

  Errors-children_length : (vs : RlpValues) (depth acc : ℕ) → Errors (children_length vs depth acc)
  Errors-children_length nil depth acc = ground arith
  Errors-children_length (cons v vs) depth acc =
      let head = total_size (is_list v) (item_bytes v) in
      Errors-bind (bind (item_length v depth) head) _
        (Errors-bind (item_length v depth) head (Errors-item_length v depth)
          (Errors-total_size (is_list v) (item_bytes v)))
        λ n. ground (arith, Errors-children_length vs depth (acc + n))

measure_item-fails :
    (v : RlpValue) (depth : ℕ) {e : RlpStatus} → measure_item v depth ≡ fail e → IsMeasureError e
unfolding measure_item
measure_item-fails v depth {e} h = Errors-fail e (
    subst Errors h (
      Errors-bind (item_length v depth) _ (Errors-item_length v depth)
        (Errors-total_size (is_list v) (item_bytes v))))

-- What one call leaves, for a value that is not NULL and a buffer that is not NULL: success with
-- the encoding written over the front, too little room, or an error.
abbrev pub Wrote : RlpValue → List ℕ → ℕ → Encoded → Type 0
Wrote v buf capacity e =
    let enc = encoding (view v) in
    (e.status ≡ ok)
    × (e.out ≡ some (enc ++ drop (length enc) buf))
    × (e.size ≡ some (length enc))
    × Encodable v
    × (length enc ≤ capacity)

abbrev pub TooSmall : RlpValue → List ℕ → ℕ → Encoded → Type 0
TooSmall v buf capacity e =
    (e.status ≡ no_space)
    × (e.out ≡ some buf)
    × (e.size ≡ some (length (encoding (view v))))
    × Encodable v
    × (capacity < length (encoding (view v)))

abbrev pub Refused : RlpValue → List ℕ → Encoded → Type 0
Refused v buf e = IsMeasureError e.status × (e.out ≡ some buf) × (e.size ≡ some 0) × (¬ Encodable v)

-- A call of `rlp_encode` with a value, a buffer of at least `capacity` bytes and a size pointer
-- never writes out of bounds, and ends in one of three ways: success, when the value is encodable
-- and its encoding fits, with exactly the specified encoding at the front of the buffer, the rest
-- unchanged and the size reported; `RLP_NO_SPACE`, when it is encodable but longer than the
-- capacity, with the buffer unchanged and the size reported; or a measuring error, when it is not
-- encodable, with the buffer unchanged and the size 0.
pub rlp_encode_contract :
    (v : RlpValue) (buf : List ℕ) (capacity old : ℕ)
    → capacity ≤ length buf
    → (e : Encoded) × (rlp_encode (some v) (some buf) capacity (some old) ≡ some e)
      × (Wrote v buf capacity e ⊎ TooSmall v buf capacity e ⊎ Refused v buf e)
unfolding rlp_encode
rlp_encode_contract v buf capacity old room = elim (Result-cases (measure_item v 0)) [
  | inr (e, bad) ↦ (
    record { status = e; out = some buf; size = some 0 },
    rw bad,
    inr (
        inr (
          measure_item-fails v 0 bad,
          refl,
          refl,
          λ (well, small). cc (bad, (measure_item_iff v 0 _).1 (well, refl, small)),
        )),
  )
  | inl (n, good) ↦
      let (well, size, small) = measured v 0 n good in
      elim (Bool-cases (ltb capacity n)) [
        | inl short ↦ (
          record { status = no_space; out = some buf; size = some n },
          rw (good, short),
          inr (
              inl (
                refl,
                refl,
                ap some size,
                (well, rw size at small),
                rw size at (ltb→lt _ _ short),
              )),
        )
        | inr fits ↦
            let enough = ltb→ge capacity n fits in
            let enc = encoding (view v) in
            let wrote = writes v 0 n 0 buf good (omega arith) in
            let front = splice-zero enc buf (omega arith) in
            (
              record { status = ok; out = some (splice 0 enc buf); size = some n },
              rw (good, fits, encode_root, wrote),
              inl (refl, ap some front, ap some size, (well, rw size at small), rw size at enough),
            )
      ]
]

size_result-ok :
    (r : Result RlpStatus ℕ) {n : ℕ} → size_result r ≡ (ok, some n) → (r ≡ done n) ⊎ (r ≡ fail ok)
size_result-ok (done m) h = ground arith
size_result-ok (fail e) h = ground arith

-- `rlp_encoded_size` of a value returns `RLP_OK` with a size exactly when the value is encodable
-- and the size is the length of its specified encoding.
pub rlp_encoded_size_iff :
    (v : RlpValue) (old n : ℕ)
    → (rlp_encoded_size (some v) (some old) ≡ (ok, some n))
      ↔ (Encodable v × (n ≡ length (encoding (view v))))
unfolding rlp_encoded_size
rlp_encoded_size_iff v old n = (forth, back)
  where
    forth :
        rlp_encoded_size (some v) (some old) ≡ (ok, some n)
        → Encodable v × (n ≡ length (encoding (view v)))
    forth h = elim (size_result-ok (measure_item v 0) h) [
      | inl good ↦ let (well, size, small) = measured v 0 n good in ((well, rw size at small), size)
      | inr bad ↦ absurd (measure_item-fails v 0 bad)
    ]

    back :
        Encodable v × (n ≡ length (encoding (view v)))
        → rlp_encoded_size (some v) (some old) ≡ (ok, some n)
    back ((well, small), size) =
        ap size_result ((measure_item_iff v 0 n).1 (well, size, rw (← size) at small))

-- For an encodable value, `rlp_encode` with a NULL buffer and capacity 0 returns `RLP_NO_SPACE`
-- and reports the length of the encoding.
pub rlp_encode_query :
    (v : RlpValue) (old : ℕ)
    → Encodable v
    → rlp_encode (some v) none 0 (some old)
      ≡ some (record { status = no_space; out = none; size = some (length (encoding (view v))) })
unfolding rlp_encode
rlp_encode_query v old (well, small) =
    let good = (measure_item_iff v 0 (length (encoding (view v)))).1 (well, refl, small) in
    let positive : 0 < length (encoding (view v)) = measured_pos v 0 good in
    rw (good, lt→ltb 0 _ positive)
