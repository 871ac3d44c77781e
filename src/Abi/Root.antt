-- ===== src/Abi/Root.antt =====
-- kernel/abi.c: `inspect_root` and `write_root`.
use evmxt.Prelude.{
  ℕ, ◌+◌, ◌≤◌, ◌≡◌, refl, sym, ap, ◌∙◌, ◌⊎◌, true, inl, inr, List, [], some, arith, length,
  length-append_bytes, Result, done, bind-eq-done, subst,
}
use evmxt.Memory.{size_max, splice, memcpy}
use evmxt.Memory.Laws.{splice-append, splice_middle, length-splice, memcpy_lem}
use evmxt.Abi.{
  AbiStatus, AbiValues, invalid, selector, word, bytes, null_values, values, nil, cons, zeros,
}
use evmxt.Abi.Inspect.{
  Layout, add_sizes, inspect_sequence, RootLayout, root_selector, root_arguments,
  root_selector_size, inspect_values,
}
use evmxt.Abi.Write.{write_root}
use evmxt.Abi.Spec.{sequence, AllShaped}
use evmxt.Abi.Sizes.{add_sizes-done}
use evmxt.Abi.Contract.{calldata, inspect_sequence-done, write_sequence_lem}
use evmxt.Abi.Writes.{zeros_add, length-zeros}

-- Without and with a selector.
selector_cases :
    (vs : AbiValues)
    → AllShaped vs
    → ((root_selector_size vs ≡ 0) × (root_selector vs ≡ []))
      ⊎ ((root_selector_size vs ≡ 4) × (length (root_selector vs) ≡ 4))
selector_cases nil h = inl (refl, refl)
selector_cases (cons (selector s) vs) h = inr (refl, h.0)
selector_cases (cons invalid vs) h = inl (refl, refl)
selector_cases (cons (word w) vs) h = inl (refl, refl)
selector_cases (cons (bytes span) vs) h = inl (refl, refl)
selector_cases (cons (null_values k f n) vs) h = inl (refl, refl)
selector_cases (cons (values k f ws) vs) h = inl (refl, refl)

root_arguments-AllShaped : (vs : AbiValues) → AllShaped vs → AllShaped (root_arguments vs)
root_arguments-AllShaped nil h = h
root_arguments-AllShaped (cons (selector s) vs) h = h.1
root_arguments-AllShaped (cons invalid vs) h = h
root_arguments-AllShaped (cons (word w) vs) h = h
root_arguments-AllShaped (cons (bytes span) vs) h = h
root_arguments-AllShaped (cons (null_values k f n) vs) h = h
root_arguments-AllShaped (cons (values k f ws) vs) h = h

selector_size-lem :
    (vs : AbiValues) → AllShaped vs → length (root_selector vs) ≡ root_selector_size vs
selector_size-lem vs h = elim (selector_cases vs h) [
  | inl (size, none_there) ↦ rw (size, none_there)
  | inr (size, four) ↦ rw (size, four)
]

abbrev laid_out : RootLayout → Result AbiStatus RootLayout
laid_out root = done root

done-injective : (a b : RootLayout) → laid_out a ≡ laid_out b → a ≡ b
done-injective a b h = cc h

abbrev pub root_layout : AbiValues → ℕ → RootLayout
root_layout vs total = record {
  arguments = root_arguments vs;
  selector_size = root_selector_size vs;
  total_size = total;
}

-- What a successful inspection says of the roots.
abbrev pub IsRoot : AbiValues → RootLayout → Type 0
IsRoot vs root =
    (root.arguments ≡ root_arguments vs)
    × (root.selector_size ≡ root_selector_size vs)
    × (root.total_size ≡ length (calldata vs))
    × (root.total_size ≤ size_max)
    × ((l : Layout) × (inspect_sequence (root_arguments vs) 0 true ≡ done l))

pub inspect_values-IsRoot :
    (vs : AbiValues) {root : RootLayout}
    → AllShaped vs
    → inspect_values vs ≡ done root
    → IsRoot vs root
unfolding inspect_values
inspect_values-IsRoot vs {root} shaped h =
    let (l, first, after) = bind-eq-done (inspect_sequence (root_arguments vs) 0 true) _ h in
    let (total, added, built) =
      bind-eq-done (add_sizes l.encoded_size (root_selector_size vs)) _ after in
    let args = root_arguments-AllShaped vs shaped in
    let (t, kids, size, small) = inspect_sequence-done (root_arguments vs) 0 true args first in
    let head = selector_size-lem vs shaped in
    let few : root_selector_size vs ≤ 4 = elim (selector_cases vs shaped) [
      | inl (none_there, e) ↦ omega arith
      | inr (four, e) ↦ omega arith
    ] in
    let (sum, fits) =
      add_sizes-done l.encoded_size (root_selector_size vs) small (omega arith) added in
    let joined = length-append_bytes (root_selector vs) (sequence (root_arguments vs)) in
    let right : IsRoot vs (root_layout vs total) =
      (refl, refl, omega arith, omega arith, (l, first)) in
    subst (IsRoot vs) (done-injective _ root built) right

-- The selector takes the first four of the zeroes.
selector_written :
    (ss : List ℕ) (n : ℕ) (buf : List ℕ)
    → length ss ≡ 4
    → 4 + n ≤ length buf
    → memcpy 0 ss (splice 0 (zeros (4 + n)) buf) ≡ some (splice 4 (zeros n) (splice 0 ss buf))
selector_written ss n buf four room =
    let zs = splice 0 (zeros (4 + n)) buf in
    memcpy_lem 0 ss zs (omega (arith, length-splice 0 (zeros (4 + n)) buf))
    ∙ ap (λ bs. some (splice 0 ss (splice 0 bs buf))) (zeros_add 4 n)
    ∙ ap some (
        splice_middle 0 0 [] (zeros 4) ss (zeros n) buf refl (omega (arith, length-zeros 4))
        ∙ sym (splice-append 0 4 ss (zeros n) buf (omega arith)))

pub write_root_lem :
    (vs : AbiValues) (root : RootLayout) (buf : List ℕ)
    → AllShaped vs
    → IsRoot vs root
    → root.total_size ≤ length buf
    → write_root vs root 0 (splice 0 (zeros root.total_size) buf)
      ≡ some (splice 0 (calldata vs) buf)
unfolding write_root
write_root_lem vs root buf shaped (args, sel, size, small, (l, first)) room =
    let ss = root_selector vs in
    let body = sequence (root_arguments vs) in
    let joined = length-append_bytes ss body in
    let shapes = root_arguments-AllShaped vs shaped in
    elim (selector_cases vs shaped) [
      | inl (four, none_there) ↦
          rw (sel, four, args, size, none_there)
            (write_sequence_lem (root_arguments vs) 0 0 true l buf shapes first
              (omega (arith, ap length none_there)))
      | inr (four, long) ↦
          rw
            (
              sel,
              four,
              args,
              size,
              joined,
              long,
              selector_written ss (length body) buf long (omega (arith, joined)),
            )
            (write_sequence_lem (root_arguments vs) 4 0 true l (splice 0 ss buf) shapes first
                (omega (arith, joined, length-splice 0 ss buf))
              ∙ ap some (splice-append 0 4 ss body buf (omega arith)))
    ]
