-- ===== src/Abi/Contract.antt =====
-- kernel/abi.h: what `abi_encoded_size`, `abi_encode` and `abi_encode_alloc` promise.
use evmxt.Prelude.{
  ℕ, ◌+◌, ◌-◌, ◌≤◌, ◌≡◌, ap, ◌∙◌, Bool, List, [], ◌++◌, some, arith, length, done, bind-eq-done,
}
use evmxt.Memory.{size_max, splice}
use evmxt.Abi.{AbiValue, AbiValues, zeros}
use evmxt.Abi.Inspect.{
  Layout, Sums, no_sums, inspect_value, inspect_children, inspect_sequence, root_selector,
  root_arguments,
}
use evmxt.Abi.Write.{write_sequence}
use evmxt.Abi.Spec.{encoding, dynamic, heads, tails, head_length, sequence, IsShaped, AllShaped}
use evmxt.Abi.Sizes.{
  Describes, inspected, inspected_children, finish_sequence-done, length-sequence,
}
use evmxt.Abi.Writes.{zeros_add, heads_loop_lem, writes_children}

-- When the first pass accepts a value of the C types' shape at any depth, the size it reports is
-- the length of the value's specified encoding, fits `size_t`, and the flag says whether the value
-- is dynamic.
pub inspect_value-Describes :
    (v : AbiValue) (depth : ℕ) (l : Layout)
    → IsShaped v
    → inspect_value v depth ≡ done l
    → Describes l (length (encoding v)) (dynamic v)
inspect_value-Describes v depth l shaped h = inspected v depth l shaped h

-- The encoding of a call: a selector, if there is one, and the arguments as a tuple.
abbrev pub calldata : AbiValues → List ℕ
calldata vs = root_selector vs ++ sequence (root_arguments vs)

pub inspect_sequence-done :
    (vs : AbiValues) (depth : ℕ) (tupled : Bool) {l : Layout}
    → AllShaped vs
    → inspect_sequence vs depth tupled ≡ done l
    → (t : Sums) × (inspect_children vs (depth + 1) tupled no_sums ≡ done t)
      × (l.encoded_size ≡ length (sequence vs))
      × (l.encoded_size ≤ size_max)
unfolding inspect_sequence
inspect_sequence-done vs depth tupled shaped h =
    let (t, kids, finished) = bind-eq-done (inspect_children vs (depth + 1) tupled no_sums) _ h in
    let (heads_sum, tails_sum, any, hh, ht) =
      inspected_children vs (depth + 1) tupled no_sums t shaped (omega arith) (omega arith) kids in
    let (size, dyn, small) = finish_sequence-done t hh ht finished in
    (t, kids, omega (arith, length-sequence vs), omega arith)

-- After a successful first pass over values of the C types' shape, `write_sequence` at an offset
-- with enough zeroed room, inside the buffer, turns the zeroes into the specified heads and tails
-- and changes nothing else.
pub write_sequence_lem :
    (vs : AbiValues) (out depth : ℕ) (tupled : Bool) (l : Layout) (buf : List ℕ)
    → AllShaped vs
    → inspect_sequence vs depth tupled ≡ done l
    → out + length (sequence vs) ≤ length buf
    → write_sequence vs out depth (splice out (zeros (length (sequence vs))) buf)
      ≡ some (splice out (sequence vs) buf)
unfolding write_sequence
write_sequence_lem vs out depth tupled l buf shaped h room =
    let (t, kids, size, small) = inspect_sequence-done vs depth tupled shaped h in
    let hl = head_length vs in
    let tl = length (tails vs) in
    let parts = length-sequence vs in
    let heads_size =
      heads_loop_lem vs (depth + 1) 0 tupled no_sums t shaped (omega arith) (omega arith) kids
        (omega (arith, parts))
      ∙ ap some (let same : 0 + hl ≡ hl = omega arith in same) in
    rw (heads_size, parts, zeros_add)
      (writes_children vs out (depth + 1) out (out + hl) tupled no_sums t [] [] buf shaped
          (omega arith) (omega arith) kids (omega arith) (omega arith) (omega (arith, parts))
          (omega (arith, parts))
        ∙ ap (λ k. some (splice out (heads vs k ++ tails vs) buf))
            (let same : out + hl - out ≡ hl = omega arith in same))
