-- ===== src/Rlp/Encode.antt =====
-- kernel/rlp.c: the writing half of `encode_item`, `rlp_encoded_size` and `rlp_encode`.
use evmxt.Prelude.{
  ℕ, ◌+◌, Bool, true, false, ◌&&◌, not, List, [], Option, none, some, ltb, ◌==◌, if◌then◌else◌,
  Result, done, fail,
}
use evmxt.Memory.{memcpy}
use evmxt.Rlp.{
  RlpStatus, ok, invalid_argument, no_space, RlpValue, RlpValues, invalid, bytes, uint64, null_list,
  list, nil, cons, is_list, is_single, item_bytes, item_length, total_size, prefix_size,
  measure_item, write_prefix,
}

-- How a call with a buffer ends: a write out of bounds, an error with the buffer as it then is, or
-- the size with the buffer.
pub data Written : Type 0 where
  fault : Written
  failed : RlpStatus → List ℕ → Written
  written : ℕ → List ℕ → Written

abbrev pub then_write : Written → (ℕ → List ℕ → Written) → Written
then_write fault k = fault
then_write (failed e buf) k = failed e buf
then_write (written n buf) k = k n buf

-- A write that may fault, in the middle of a call.
abbrev pub after : Option (List ℕ) → (List ℕ → Written) → Written
after none k = fault
after (some buf) k = k buf

-- The measuring part of the call: an error leaves the buffer alone.
abbrev pub on_result : Result RlpStatus ℕ → List ℕ → (ℕ → Written) → Written
on_result (done n) buf k = k n
on_result (fail e) buf k = failed e buf

-- A value that is no list, once its length and size are known.
unfoldable pub write_string : List ℕ → ℕ → ℕ → ℕ → List ℕ → Written
write_string bs len size out buf =
    if is_single false bs
    then after (memcpy out bs buf) (written size)
    else after (write_prefix out len false buf)
        λ buf'. after (memcpy (out + prefix_size len) bs buf') (written size)

unfoldable pub write_leaf : RlpValue → ℕ → ℕ → List ℕ → Written
unfolding write_string item_length item_bytes total_size
write_leaf v depth out buf = on_result (item_length v depth) buf λ len.
    on_result (total_size (is_list v) (item_bytes v) len) buf
      λ size. write_string (item_bytes v) len size out buf

unfoldable mutual
  pub write_item : RlpValue → ℕ → ℕ → List ℕ → Written
  write_item (list values) depth out buf = on_result (item_length (list values) depth) buf λ len.
      on_result (total_size true [] len) buf λ size. after (write_prefix out len true buf) λ buf'.
        then_write (write_values values (depth + 1) (out + prefix_size len) buf')
          λ end buf''. written size buf''
  write_item (null_list n) depth out buf = on_result (item_length (null_list n) depth) buf λ len.
      on_result (total_size true [] len) buf
        λ size. after (write_prefix out len true buf) (written size)
  write_item invalid depth out buf = write_leaf invalid depth out buf
  write_item (bytes span) depth out buf = write_leaf (bytes span) depth out buf
  write_item (uint64 number) depth out buf = write_leaf (uint64 number) depth out buf

  -- The children one after the other; the number returned is where the next byte would go.
  pub write_values : RlpValues → ℕ → ℕ → List ℕ → Written
  write_values nil depth out buf = written out buf
  write_values (cons v vs) depth out buf =
      then_write (write_item v depth out buf)
        λ child_size buf'. write_values vs depth (out + child_size) buf'

-- A value by its pointer, which may be NULL.
unfoldable pub measure_pointer : Option RlpValue → Result RlpStatus ℕ
unfolding measure_item
measure_pointer none = fail invalid_argument
measure_pointer (some v) = measure_item v 0

abbrev pub size_result : Result RlpStatus ℕ → RlpStatus × Option ℕ
size_result (done n) = (ok, some n)
size_result (fail e) = (e, some 0)

-- The status, with `*size` afterwards (`none`: the pointer is NULL).
unfoldable pub rlp_encoded_size : Option RlpValue → Option ℕ → RlpStatus × Option ℕ
unfolding measure_pointer
rlp_encoded_size value none = (invalid_argument, none)
rlp_encoded_size value (some old) = size_result (measure_pointer value)

-- What a call of `rlp_encode` leaves: its status, the buffer and `*written`.
pub record Encoded : Type 0 where
  pub status : RlpStatus
  pub out : Option (List ℕ)
  pub size : Option ℕ

-- The last call, `encode_item(value, 0, out, written)`; with `out == NULL` it only measures.
unfoldable pub encode_root : RlpValue → Option (List ℕ) → ℕ → Option Encoded
unfolding measure_item write_item
encode_root v none required = elim (measure_item v 0) [
  | done n ↦ some (record { status = ok; out = none; size = some n })
  | fail e ↦ some (record { status = e; out = none; size = some required })
]
encode_root v (some buf) required = elim (write_item v 0 0 buf) [
  | fault ↦ none
  | failed e buf' ↦ some (record { status = e; out = some buf'; size = some required })
  | written n buf' ↦ some (record { status = ok; out = some buf'; size = some n })
]

abbrev pub is_null {ℓ} : {A : Type ℓ} → Option A → Bool
is_null none = true
is_null (some x) = false

-- `none` is a write out of bounds.
unfoldable pub rlp_encode : Option RlpValue → Option (List ℕ) → ℕ → Option ℕ → Option Encoded
unfolding measure_pointer encode_root
rlp_encode value out capacity none =
    some (record { status = invalid_argument; out = out; size = none })
rlp_encode none out capacity (some old) =
    some (record { status = invalid_argument; out = out; size = some 0 })
rlp_encode (some v) out capacity (some old) =
    if is_null out && not (capacity == 0)
    then some (record { status = invalid_argument; out = out; size = some 0 })
    else elim (measure_item v 0) [
      | fail e ↦ some (record { status = e; out = out; size = some 0 })
      | done required ↦
          if ltb capacity required
          then some (record { status = no_space; out = out; size = some required })
          else encode_root v out required
    ]
