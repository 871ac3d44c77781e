-- ===== src/Abi/Examples.antt =====
-- kernel/abi.c: the theorems at a call with a selector, a number and a string, and tests.
use evmxt.Prelude.{
  ℕ, ◌+◌, ◌≤◌, ◌≡◌, refl, ◌⊎◌, true, List, [], ◌∷◌, ◌++◌, none, some, arith, length, replicate,
  done,
}
use evmxt.BigEndian.{be_bytes, from_be}
use evmxt.Abi.Scalars.{abi_uint64_lem, abi_uint_be_lem}
use evmxt.Memory.{splice, some_data}
use evmxt.Abi.{
  abi_uint64, abi_uint_be, AbiStatus, AbiValue, AbiValues, selector, word, bytes, nil, cons, zeros,
}
use evmxt.Abi.Inspect.{
  Layout, Roots, roots, inspect_sequence, inspect_value, add_child, inspect_bytes,
}
use evmxt.Abi.Write.{write_sequence, write_size_word}
use evmxt.Abi.Encode.{Encoded, AbiBuffer, empty_buffer, abi_encode, abi_encode_alloc, root_values}
use evmxt.Abi.Spec.{sequence, AllShaped, encoding, dynamic, padded}
use evmxt.Abi.Words.{write_size_word-zeros}
use evmxt.Abi.Contract.{inspect_value-Describes, write_sequence_lem}
use evmxt.Abi.Sizes.{Describes}
use evmxt.Abi.Promises.{
  Wrote, TooSmall, Refused, Allocated, NotAllocated, abi_encode_contract, abi_encode_alloc_contract,
}

abbrev arguments : AbiValues
arguments = cons (word (replicate 31 0 ++ (5 ∷ []))) (cons (bytes (some_data (104 ∷ 105 ∷ []))) nil)

abbrev call : Roots
call = roots (cons (selector (0xa9 ∷ 0x05 ∷ 0x9c ∷ 0xbb ∷ [])) arguments)

abbrev buffer : List ℕ
buffer = replicate 140 0xff

arguments-AllShaped : AllShaped arguments
arguments-AllShaped = (refl, (tt, tt))

call-AllShaped : AllShaped (root_values call)
call-AllShaped = (refl, arguments-AllShaped)

abi_encode_contract_example :
    (e : Encoded) × (abi_encode call (some buffer) 140 none ≡ some e)
    × (Wrote call buffer 140 none e ⊎ TooSmall call buffer 140 none e ⊎ Refused call buffer none e)
abi_encode_contract_example = abi_encode_contract call buffer 140 none call-AllShaped (omega arith)

abi_encode_alloc_contract_example :
    (status : AbiStatus) × (result : AbiBuffer) × (abi_encode_alloc true call (some empty_buffer)
      ≡ some (status, some result))
    × (Allocated call status result ⊎ NotAllocated call true status result)
abi_encode_alloc_contract_example = abi_encode_alloc_contract true call empty_buffer call-AllShaped

abbrev layout : Layout
layout = record { encoded_size = 128; is_dynamic = true }

arguments_layout : inspect_sequence arguments 0 true ≡ done layout
unfolding inspect_sequence add_child inspect_bytes
arguments_layout = refl

arguments_fit : 4 + length (sequence arguments) ≤ length buffer
unfolding encoding dynamic be_bytes padded
arguments_fit = omega arith

write_sequence_lem_example :
    write_sequence arguments 4 0 (splice 4 (zeros (length (sequence arguments))) buffer)
    ≡ some (splice 4 (sequence arguments) buffer)
write_sequence_lem_example =
    write_sequence_lem arguments 4 0 true layout buffer arguments-AllShaped arguments_layout
      arguments_fit

abbrev text : AbiValue
text = bytes (some_data (104 ∷ 105 ∷ []))

text_layout : inspect_value text 3 ≡ done (record { encoded_size = 64; is_dynamic = true })
unfolding inspect_value inspect_bytes
text_layout = refl

inspect_value-Describes_example :
    Describes
      (record { encoded_size = 64; is_dynamic = true })
      (length (encoding text))
      (dynamic text)
inspect_value-Describes_example =
    inspect_value-Describes text 3 (record { encoded_size = 64; is_dynamic = true }) tt text_layout

write_size_word-zeros_example :
    write_size_word 4 1024 (splice 4 (zeros 32) buffer) ≡ some (splice 4 (be_bytes 32 1024) buffer)
write_size_word-zeros_example = write_size_word-zeros 4 1024 buffer (omega arith) (omega arith)

abi_uint64_lem_example : abi_uint64 1024 ≡ word (be_bytes 32 1024)
abi_uint64_lem_example = abi_uint64_lem 1024 (omega arith)

abi_uint_be_lem_example :
    abi_uint_be (some_data (4 ∷ 0 ∷ [])) ≡ word (be_bytes 32 (from_be 0 (4 ∷ 0 ∷ [])))
abi_uint_be_lem_example =
    abi_uint_be_lem (4 ∷ 0 ∷ []) (omega arith, (omega arith, tt)) (omega arith)
