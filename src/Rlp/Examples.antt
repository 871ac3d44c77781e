-- ===== src/Rlp/Examples.antt =====
-- kernel/rlp.c: the theorems at ["cat", 1024], and tests.
use evmxt.Prelude.{
  inr, ℕ, ◌≤◌, ◌≡◌, refl, ap, ◌↔◌, ◌⊎◌, true, List, [], ◌∷◌, ◌++◌, none, some, arith, length,
  replicate, done,
}
use evmxt.Memory.{splice, some_data, size_max, store, memcpy}
use evmxt.BigEndian.{be_bytes}
use evmxt.Rlp.{
  ok, no_space, RlpValue, bytes, uint64, list, nil, cons, measure_item, item_bytes, write_prefix,
  rlp_uint_be, rlp_uint64, length_bytes, integer_loop,
}
use evmxt.Rlp.Encode.{Encoded, rlp_encoded_size, rlp_encode, write_leaf}
use evmxt.Rlp.Spec.{encoding, view, header, encode_string}
use evmxt.Rlp.Sizes.{WellFormed, measure_item_iff}
use evmxt.Rlp.Headers.{IsHeader, write_prefix-IsHeader}
use evmxt.BigEndian.Laws.{length-be_bytes}
use evmxt.Rlp.Integers.{uint_be-uint64}
use evmxt.Rlp.Width.{integer_loop_lem}
use evmxt.Rlp.Contract.{
  Encodable, Wrote, TooSmall, Refused, rlp_encode_contract, rlp_encoded_size_iff, rlp_encode_query,
}

abbrev cat : RlpValue
cat = bytes (some_data (99 ∷ 97 ∷ 116 ∷ []))

abbrev animals : RlpValue
animals = list (cons cat (cons (uint64 1024) nil))

abbrev buffer : List ℕ
buffer = replicate 10 0xff

abbrev animals_bytes : List ℕ
animals_bytes = 0xc7 ∷ 0x83 ∷ 99 ∷ 97 ∷ 116 ∷ 0x82 ∷ 4 ∷ 0 ∷ []

animals-encoding : encoding (view animals) ≡ animals_bytes
unfolding encoding view item_bytes header encode_string
animals-encoding = unfold be_bytes length_bytes in refl

animals_encoded :
    rlp_encode (some animals) (some buffer) 10 (some 0)
    ≡ some (record { status = ok; out = some (animals_bytes ++ (0xff ∷ 0xff ∷ [])); size = some 8 })
unfolding rlp_encode write_prefix store write_leaf memcpy
animals_encoded = unfold length_bytes in refl

rlp_encode_contract_example :
    (e : Encoded) × (rlp_encode (some animals) (some buffer) 10 (some 0) ≡ some e)
    × (Wrote animals buffer 10 e ⊎ TooSmall animals buffer 10 e ⊎ Refused animals buffer e)
rlp_encode_contract_example = rlp_encode_contract animals buffer 10 0 (omega arith)

rlp_encoded_size_iff_example :
    (rlp_encoded_size (some animals) (some 0) ≡ (ok, some 8))
    ↔ (Encodable animals × (8 ≡ length (encoding (view animals))))
rlp_encoded_size_iff_example = rlp_encoded_size_iff animals 0 8

animals-Encodable : Encodable animals
animals-Encodable = (
  (omega arith, omega arith, (omega arith, (omega arith, tt))),
  let size = ap length animals-encoding in omega arith,
)

rlp_encode_query_example :
    rlp_encode (some animals) none 0 (some 7)
    ≡ some
        (record { status = no_space; out = none; size = some (length (encoding (view animals))) })
rlp_encode_query_example = rlp_encode_query animals 7 animals-Encodable

measure_item_iff_example :
    (measure_item animals 64 ≡ done 8)
    ↔ (WellFormed animals 64 × (8 ≡ length (encoding (view animals))) × (8 ≤ size_max))
measure_item_iff_example = measure_item_iff animals 64 8

-- 1024 takes two bytes.
kilobyte-IsHeader : IsHeader true 1024 (0xf9 ∷ be_bytes 2 1024)
kilobyte-IsHeader = inr (omega arith, 2, omega arith, omega arith, refl)

write_prefix-IsHeader_example :
    write_prefix 2 1024 true buffer ≡ some (splice 2 (0xf9 ∷ be_bytes 2 1024) buffer)
write_prefix-IsHeader_example =
    write_prefix-IsHeader 2 1024 true (0xf9 ∷ be_bytes 2 1024) buffer (omega arith)
      kilobyte-IsHeader (omega (arith, length-be_bytes 2 1024))

uint_be-uint64_example : view (rlp_uint_be (some_data (be_bytes 32 1024))) ≡ view (rlp_uint64 1024)
uint_be-uint64_example = uint_be-uint64 32 1024 (omega arith)

integer_loop_lem_example : integer_loop 1024 1024 [] ≡ be_bytes (length_bytes 1024) 1024
integer_loop_lem_example = integer_loop_lem 1024
