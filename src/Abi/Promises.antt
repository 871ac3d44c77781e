-- ===== src/Abi/Promises.antt =====
-- kernel/abi.h: what `abi_encoded_size`, `abi_encode` and `abi_encode_alloc` promise their callers.
use evmxt.Prelude.{
  ℕ, ◌≤◌, ◌<◌, ◌≡◌, refl, sym, ap, ◌∙◌, ◌⊎◌, Bool, false, inl, inr, List, [], ◌∷◌, ◌++◌, Option,
  none, some, arith, ltb, ltb→lt, ltb→ge, ◌==◌, ==_iff, Bool-cases, length, drop, Result, done,
  fail,
}
use evmxt.Memory.{splice}
use evmxt.Memory.Laws.{splice-zero, splice_whole, memcpy_lem}
use evmxt.Abi.{AbiStatus, ok, no_space, no_memory, AbiValues, zeros}
use evmxt.Abi.Inspect.{RootLayout, Roots, null_roots, roots, inspect_values, inspect_root}
use evmxt.Abi.Write.{write_root}
use evmxt.Abi.Encode.{
  root_values, Encoded, fill, encode_root, abi_encode, AbiBuffer, empty_buffer, allocate_root,
  abi_encode_alloc, assign, encode_inspected, allocate_inspected,
}
use evmxt.Abi.Spec.{AllShaped}
use evmxt.Abi.Contract.{calldata}
use evmxt.Abi.Root.{IsRoot, inspect_values-IsRoot, write_root_lem}
use evmxt.Abi.Writes.{length-zeros}
use evmxt.Abi.Errors.{IsInspectError, inspect_root-fails}

Result-cases :
    (r : Result AbiStatus RootLayout)
    → ((root : RootLayout) × (r ≡ done root)) ⊎ ((e : AbiStatus) × (r ≡ fail e))
Result-cases (done root) = inl (root, refl)
Result-cases (fail e) = inr (e, refl)

-- An inspected root is that of the values passed.
inspect_root-done :
    (vs : Roots) {root : RootLayout}
    → inspect_root vs ≡ done root
    → inspect_values (root_values vs) ≡ done root
unfolding inspect_root
inspect_root-done (null_roots n) h = ground arith
inspect_root-done (roots vs) h = h

inspect_root-IsRoot :
    (vs : Roots) (root : RootLayout)
    → AllShaped (root_values vs)
    → inspect_root vs ≡ done root
    → IsRoot (root_values vs) root
inspect_root-IsRoot vs root shaped h =
    inspect_values-IsRoot (root_values vs) shaped (inspect_root-done vs h)

no_bytes : (bs : List ℕ) → length bs ≡ 0 → bs ≡ []
no_bytes [] h = refl
no_bytes (b ∷ bs) h = absurd (omega arith)

fill_lem :
    (vs : AbiValues) (root : RootLayout) (buf : List ℕ)
    → AllShaped vs
    → IsRoot vs root
    → root.total_size ≤ length buf
    → fill vs root buf ≡ some (splice 0 (calldata vs) buf)
unfolding fill
fill_lem vs root buf shaped is_root room =
    rw (memcpy_lem 0 (zeros root.total_size) buf (omega (arith, length-zeros root.total_size)))
      (write_root_lem vs root buf shaped is_root room)

encode_root_lem :
    (vs : AbiValues) (root : RootLayout) (buf : List ℕ) (written : Option ℕ)
    → AllShaped vs
    → IsRoot vs root
    → root.total_size ≤ length buf
    → encode_root vs root (some buf) written
      ≡ some (record {
        status = ok;
        out = some (calldata vs ++ drop (length (calldata vs)) buf);
        written = written;
      })
unfolding encode_root
encode_root_lem vs root buf written shaped is_root room =
    let size = is_root.2 in
    let front = splice-zero (calldata vs) buf (omega (arith, size)) in
    elim (Bool-cases (root.total_size == 0)) [
      | inl empty ↦
          let none_there =
            no_bytes (calldata vs) (omega (arith, size, (==_iff root.total_size 0).0 empty)) in
          rw (empty, none_there) refl
      | inr some_there ↦ rw (some_there, fill_lem vs root buf shaped is_root room, front) refl
    ]

-- What a call leaves whose buffer is not NULL: the encoding at the front of the buffer, too little
-- room, or an error.
abbrev pub Wrote : Roots → List ℕ → ℕ → Option ℕ → Encoded → Type 0
Wrote vs buf capacity old e =
    let enc = calldata (root_values vs) in
    (e.status ≡ ok)
    × (e.out ≡ some (enc ++ drop (length enc) buf))
    × (e.written ≡ assign old (length enc))
    × (length enc ≤ capacity)

abbrev pub TooSmall : Roots → List ℕ → ℕ → Option ℕ → Encoded → Type 0
TooSmall vs buf capacity old e =
    let enc = calldata (root_values vs) in
    (e.status ≡ no_space)
    × (e.out ≡ some buf)
    × (e.written ≡ assign old (length enc))
    × (capacity < length enc)

abbrev pub Refused : Roots → List ℕ → Option ℕ → Encoded → Type 0
Refused vs buf old e =
    IsInspectError e.status
    × (e.out ≡ some buf)
    × (e.written ≡ old)
    × (inspect_root vs ≡ fail e.status)

-- A call of `abi_encode` with values of the C types' shape and a buffer of at least `capacity`
-- bytes never writes out of bounds, and ends in one of three ways: `ABI_OK` with exactly the
-- selector and the specified head and tail encoding of the arguments at the front, the rest
-- unchanged and `*written` their length; `ABI_NO_SPACE` with the buffer unchanged and the length
-- reported; or the error of the first pass with the buffer and `*written` unchanged.
pub abi_encode_contract :
    (vs : Roots) (buf : List ℕ) (capacity : ℕ) (old : Option ℕ)
    → AllShaped (root_values vs)
    → capacity ≤ length buf
    → (e : Encoded) × (abi_encode vs (some buf) capacity old ≡ some e)
      × (Wrote vs buf capacity old e ⊎ TooSmall vs buf capacity old e ⊎ Refused vs buf old e)
unfolding abi_encode encode_inspected
abi_encode_contract vs buf capacity old shaped room =
    let whole = λ (r : Result AbiStatus RootLayout).
      encode_inspected r (root_values vs) (some buf) capacity old in
    elim (Result-cases (inspect_root vs)) [
      | inr (e, bad) ↦ (
        record { status = e; out = some buf; written = old },
        ap whole bad,
        inr (inr (inspect_root-fails vs bad, refl, refl, bad)),
      )
      | inl (root, good) ↦
          let is_root = inspect_root-IsRoot vs root shaped good in
          let size = is_root.2 in
          elim (Bool-cases (ltb capacity root.total_size)) [
            | inl short ↦ (
              record { status = no_space; out = some buf; written = assign old root.total_size },
              ap whole good ∙ rw short refl,
              inr (inl (refl, refl, ap (assign old) size, rw size at (ltb→lt _ _ short))),
            )
            | inr fits ↦
                let enough = ltb→ge capacity root.total_size fits in
                (
                  _,
                  ap whole good
                      ∙ rw fits (
                          encode_root_lem (root_values vs) root buf (assign old root.total_size)
                            shaped is_root (omega arith)),
                  inl (refl, refl, ap (assign old) size, rw size at enough),
                )
          ]
    ]

-- What `abi_encode_alloc` leaves for a result that is not NULL.
abbrev pub Allocated : Roots → AbiStatus → AbiBuffer → Type 0
Allocated vs status result =
    let enc = calldata (root_values vs) in
    (status ≡ ok)
    × (result.len ≡ length enc)
    × ((result.bytes ≡ some enc) ⊎ ((result.bytes ≡ none) × (enc ≡ [])))

abbrev pub NotAllocated : Roots → Bool → AbiStatus → AbiBuffer → Type 0
NotAllocated vs memory status result =
    (result ≡ empty_buffer)
    × (((status ≡ no_memory) × (memory ≡ false) × (0 < length (calldata (root_values vs))))
        ⊎ (IsInspectError status × (inspect_root vs ≡ fail status)))

calloc_lem :
    (vs : AbiValues) (root : RootLayout)
    → AllShaped vs
    → IsRoot vs root
    → write_root vs root 0 (zeros root.total_size) ≡ some (calldata vs)
calloc_lem vs root shaped is_root =
    let zs = zeros root.total_size in
    let long = length-zeros root.total_size in
    let size = is_root.2 in
    ap (write_root vs root 0) (sym (splice_whole zs zs refl))
    ∙ write_root_lem vs root zs shaped is_root (omega arith)
    ∙ ap some (splice_whole (calldata vs) zs (omega arith))

allocate_root_lem :
    (memory : Bool) (vs : Roots) (root : RootLayout)
    → AllShaped (root_values vs)
    → IsRoot (root_values vs) root
    → (status : AbiStatus) × (result : AbiBuffer) × (allocate_root memory (root_values vs) root
        ≡ some (status, some result))
      × (Allocated vs status result ⊎ NotAllocated vs memory status result)
unfolding allocate_root
allocate_root_lem memory vs root shaped is_root =
    let size = is_root.2 in
    let enc = calldata (root_values vs) in
    elim (Bool-cases (root.total_size == 0)) [
      | inl empty ↦
          let nothing = (==_iff root.total_size 0).0 empty in
          (
            ok,
            empty_buffer,
            rw empty refl,
            inl (refl, omega arith, inr (refl, no_bytes enc (omega arith))),
          )
      | inr some_there ↦ elim (Bool-cases memory) [
        | inl got ↦ (
          ok,
          record { bytes = some enc; len = root.total_size },
          rw (some_there, got, calloc_lem (root_values vs) root shaped is_root) refl,
          inl (refl, size, inl refl),
        )
        | inr none_left ↦ (
          no_memory,
          empty_buffer,
          rw (some_there, none_left) refl,
          inr (refl, inl (refl, none_left, ground arith)),
        )
      ]
    ]

-- For values of the C types' shape and a result that is not NULL, `abi_encode_alloc` never writes
-- out of bounds and either returns `ABI_OK` with a buffer that holds exactly the encoding (NULL
-- for an empty one), or leaves the empty buffer, with `ABI_NO_MEMORY` when the allocation of a
-- nonempty encoding failed or else with the first pass's error.
pub abi_encode_alloc_contract :
    (memory : Bool) (vs : Roots) (old : AbiBuffer)
    → AllShaped (root_values vs)
    → (status : AbiStatus) × (result : AbiBuffer) × (abi_encode_alloc memory vs (some old)
        ≡ some (status, some result))
      × (Allocated vs status result ⊎ NotAllocated vs memory status result)
unfolding abi_encode_alloc allocate_inspected allocate_root
abi_encode_alloc_contract memory vs old shaped =
    let whole = λ (r : Result AbiStatus RootLayout). allocate_inspected r memory (root_values vs) in
    elim (Result-cases (inspect_root vs)) [
      | inr (e, bad) ↦
          (e, empty_buffer, ap whole bad, inr (refl, inr (inspect_root-fails vs bad, bad)))
      | inl (root, good) ↦
          let is_root = inspect_root-IsRoot vs root shaped good in
          let size = is_root.2 in
          let (status, result, built, right) = allocate_root_lem memory vs root shaped is_root in
          (status, result, ap whole good ∙ built, right)
    ]
