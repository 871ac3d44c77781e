-- ===== src/Rlp/Writes.antt =====
-- kernel/rlp.c: with a buffer, `encode_item` writes the encoding in place and nothing else.
use evmxt.Prelude.{
  ℕ, zero, suc, ◌+◌, ◌/◌, ◌%◌, ◌≤◌, ◌<◌, ◌≡◌, refl, sym, ap, ◌∙◌, Bool, true, false, inl, inr, List,
  [], ◌∷◌, ◌++◌, append-nil, some, arith, ltb, leb, Bool-cases, length, length-append_bytes, done,
}
use mathlib.Core.Path.{ap₂}
use native.Mathlib.Nat.{add-zero}
use evmxt.Memory.{size_max, ◌>>=◌, splice, store, memcpy}
use evmxt.Memory.Laws.{
  splice-nil, length-splice, splice-append, splice-append_back, store_lem, memcpy_lem,
}
use evmxt.Rlp.{
  RlpValue, RlpValues, invalid, bytes, uint64, null_list, list, nil, cons, is_list, item_bytes,
  item_length, children_length, total_size, prefix_base, prefix_size, measure_item, length_bytes,
  write_length_loop, write_prefix,
}
use evmxt.Rlp.Encode.{
  written, write_string, write_leaf, write_item, write_values, after, then_write,
}
use evmxt.BigEndian.{be_bytes}
use evmxt.Rlp.Spec.{header, encode_string, encoding, encodings, view, views}
use evmxt.BigEndian.Laws.{length-be_bytes}
use evmxt.Rlp.Width.{pow_length_bytes-le}
use evmxt.Rlp.Measure.{length-header, view_leaf, total_size-string, total_size-list}
use evmxt.Rlp.Sizes.{
  item_length-list, item_length-null_list, children_length-cons, measure_item-eq-done,
  item_length-leaf, measured, measured_children,
}

write_length_loop_lem :
    (out w n : ℕ) (buf : List ℕ)
    → out + w < length buf
    → write_length_loop out w n buf ≡ some (splice (out + 1) (be_bytes w n) buf)
unfolding write_length_loop be_bytes
write_length_loop_lem out zero n buf h = rw splice-nil
write_length_loop_lem out (suc w) n buf h =
    let low : List ℕ = (n % 256) ∷ [] in
    let stored = splice (out + suc w) low buf in
    let room : out + w < length stored = omega (arith, length-splice (out + suc w) low buf) in
    rw (store_lem (out + suc w) (n % 256) buf h, write_length_loop_lem out w (n / 256) stored room)
      (ap some (
        splice-append_back (out + 1) (out + suc w) (be_bytes w (n / 256)) low buf
          (omega (arith, length-be_bytes w (n / 256)))))

long_prefix :
    (out first w n : ℕ) (buf : List ℕ)
    → out + (1 + w) ≤ length buf
    → (store out first buf >>= write_length_loop out w n)
      ≡ some (splice out (first ∷ be_bytes w n) buf)
long_prefix out first w n buf room =
    let stored = splice out (first ∷ []) buf in
    let inside : out + w < length stored = omega (arith, length-splice out (first ∷ []) buf) in
    rw (store_lem out first buf (omega arith), write_length_loop_lem out w n stored inside)
      (ap some (splice-append out (out + 1) (first ∷ []) (be_bytes w n) buf (omega arith)))

prefix_byte_short :
    (listed : Bool) (len : ℕ)
    → leb len 55 ≡ true
    → (prefix_base listed + len) % 256 ≡ prefix_base listed + len
prefix_byte_short listed len h = ground arith

prefix_byte_long :
    (listed : Bool) (w : ℕ)
    → w ≤ 8
    → (prefix_base listed + 55 + w) % 256 ≡ prefix_base listed + 55 + w
prefix_byte_long listed w h = ground arith

-- For a length that fits `size_t`, with room for the prefix, `write_prefix` stays inside the
-- buffer and writes exactly the specified header, in its short or its long form.
pub write_prefix_lem :
    (out len : ℕ) (listed : Bool) (buf : List ℕ)
    → len ≤ size_max
    → out + prefix_size len ≤ length buf
    → write_prefix out len listed buf ≡ some (splice out (header (prefix_base listed) len) buf)
unfolding write_prefix header
write_prefix_lem out len listed buf small room = elim (Bool-cases (leb len 55)) [
  | inl short ↦
      let inside : out + 1 ≤ length buf = rw short at room in
      rw (short, prefix_byte_short listed len short) (store_lem out _ buf (omega arith))
  | inr long ↦
      let inside : out + (1 + length_bytes len) ≤ length buf = rw long at room in
      rw
        (long, prefix_byte_long listed (length_bytes len) (pow_length_bytes-le len 8 (omega arith)))
        (long_prefix out _ (length_bytes len) len buf inside)
]

prefixed_write :
    (bs : List ℕ) (size out : ℕ) (buf : List ℕ)
    → size ≡ length (header 0x80 (length bs) ++ bs)
    → size ≤ size_max
    → out + size ≤ length buf
    → after
        (write_prefix out (length bs) false buf)
        (λ buf'. after (memcpy (out + prefix_size (length bs)) bs buf') (written size))
      ≡ written size (splice out (header 0x80 (length bs) ++ bs) buf)
prefixed_write bs size out buf is_size small room =
    let top = header 0x80 (length bs) in
    let sizes : size ≡ prefix_size (length bs) + length bs =
      is_size ∙ rw (length-append_bytes, length-header) in
    let inside : out + prefix_size (length bs) + length bs ≤ length (splice out top buf) =
      rw length-splice (omega arith) in
    rw
      (
        write_prefix_lem out (length bs) false buf (omega arith) (omega arith),
        memcpy_lem (out + prefix_size (length bs)) bs (splice out top buf) inside,
      )
      (ap (written size) (
        splice-append out (out + prefix_size (length bs)) top bs buf
          (ap (λ k. out + k) (sym (length-header 0x80 (length bs))))))

single_write :
    (b size out : ℕ) (buf : List ℕ)
    → size ≡ 1
    → out + size ≤ length buf
    → after (memcpy out (b ∷ []) buf) (written size) ≡ written size (splice out (b ∷ []) buf)
single_write b size out buf is_size room = rw (memcpy_lem out (b ∷ []) buf (omega arith))

-- A value that is no list.
pub write_string_lem :
    (bs : List ℕ) (size out : ℕ) (buf : List ℕ)
    → total_size false bs (length bs) ≡ done size
    → out + size ≤ length buf
    → write_string bs (length bs) size out buf ≡ written size (splice out (encode_string bs) buf)
unfolding write_string encode_string
write_string_lem [] size out buf total room =
    let (is_size, small) = total_size-string [] total in
    prefixed_write [] size out buf (is_size ∙ ap length (sym (append-nil (header 0x80 0)))) small
      room
    ∙ rw append-nil
write_string_lem (b ∷ []) size out buf total room =
    let (is_size, small) = total_size-string (b ∷ []) total in
    elim (Bool-cases (ltb b 0x80)) [
      | inl low ↦ rw low (single_write b size out buf (rw low at is_size) room)
      | inr high ↦ rw high (prefixed_write (b ∷ []) size out buf (rw high at is_size) small room)
    ]
write_string_lem (b ∷ c ∷ bs) size out buf total room =
    let (is_size, small) = total_size-string (b ∷ c ∷ bs) total in
    prefixed_write (b ∷ c ∷ bs) size out buf is_size small room

pub write_leaf_lem :
    (v : RlpValue) (depth n out : ℕ) (buf : List ℕ)
    → is_list v ≡ false
    → measure_item v depth ≡ done n
    → out + n ≤ length buf
    → write_leaf v depth out buf ≡ written n (splice out (encoding (view v)) buf)
unfolding write_leaf
write_leaf_lem v depth n out buf h measure room =
    let (len, is_len, is_total) = measure_item-eq-done v depth measure in
    let (well, same) = item_length-leaf v depth h is_len in
    let total : total_size false (item_bytes v) (length (item_bytes v)) ≡ done n =
      rw (h, same) at is_total in
    rw (is_len, is_total, same, view_leaf v h)
      (write_string_lem (item_bytes v) n out buf total room)

-- A list whose body is written behind its prefix.
write_list_prefix :
    (len out n : ℕ) (buf : List ℕ)
    → total_size true [] len ≡ done n
    → out + n ≤ length buf
    → write_prefix out len true buf ≡ some (splice out (header 0xc0 len) buf)
write_list_prefix len out n buf total room =
    let (is_size, small) = total_size-list len total in
    write_prefix_lem out len true buf (omega arith) (omega arith)

write_values-cons :
    (v : RlpValue) (vs : RlpValues) (depth out n end : ℕ) (buf buf' buf'' : List ℕ)
    → write_item v depth out buf ≡ written n buf'
    → write_values vs depth (out + n) buf' ≡ written end buf''
    → write_values (cons v vs) depth out buf ≡ written end buf''
unfolding write_item
write_values-cons v vs depth out n end buf buf' buf'' first rest = rw first rest

write_item-list :
    (vs : RlpValues) (depth out len n end : ℕ) (buf buf' buf'' : List ℕ)
    → item_length (list vs) depth ≡ done len
    → total_size true [] len ≡ done n
    → write_prefix out len true buf ≡ some buf'
    → write_values vs (depth + 1) (out + prefix_size len) buf' ≡ written end buf''
    → write_item (list vs) depth out buf ≡ written n buf''
unfolding write_item
write_item-list vs depth out len n end buf buf' buf'' is_len total prefix rest =
    rw (is_len, total, prefix) (ap (λ w. then_write w (λ e b. written n b)) rest)

write_item-null_list :
    (k depth out len n : ℕ) (buf buf' : List ℕ)
    → item_length (null_list k) depth ≡ done len
    → total_size true [] len ≡ done n
    → write_prefix out len true buf ≡ some buf'
    → write_item (null_list k) depth out buf ≡ written n buf'
unfolding write_item
write_item-null_list k depth out len n buf buf' is_len total prefix = rw (is_len, total, prefix)

mutual
  unfolding encoding view write_item item_bytes

  pub writes :
      (v : RlpValue) (depth n out : ℕ) (buf : List ℕ)
      → measure_item v depth ≡ done n
      → out + n ≤ length buf
      → write_item v depth out buf ≡ written n (splice out (encoding (view v)) buf)
  writes invalid depth n out buf e room = write_leaf_lem invalid depth n out buf refl e room
  writes (bytes span) depth n out buf e room =
      write_leaf_lem (bytes span) depth n out buf refl e room
  writes (uint64 k) depth n out buf e room = write_leaf_lem (uint64 k) depth n out buf refl e room
  writes (null_list k) depth n out buf e room =
      let (len, is_len, total) = measure_item-eq-done (null_list k) depth e in
      let (well, empty) = item_length-null_list k depth is_len in
      write_item-null_list k depth out len n buf (splice out (header 0xc0 len) buf) is_len total
        (write_list_prefix len out n buf total room)
      ∙ rw (empty, append-nil)
  writes (list vs) depth n out buf e room =
      let (len, is_len, total) = measure_item-eq-done (list vs) depth e in
      let (is_size, small) = total_size-list len total in
      let (shallow, few, kids) = item_length-list vs depth is_len in
      let body = encodings (views vs) in
      let top = header 0xc0 len in
      let sum = (measured_children vs (depth + 1) 0 len kids).1 in
      let same : length body ≡ len = omega arith in
      write_item-list vs depth out len n (out + prefix_size len + len) buf (splice out top buf)
        (splice (out + prefix_size len) body (splice out top buf)) is_len total
        (write_list_prefix len out n buf total room)
        (writes_children vs (depth + 1) 0 len len (out + prefix_size len) (splice out top buf) kids
          (omega arith) (omega (arith, length-splice out top buf)))
      ∙ ap (written n) (
          rw same (
            splice-append out (out + prefix_size len) top body buf
              (ap (λ k. out + k) (sym (length-header 0xc0 len)))))

  pub writes_children :
      (vs : RlpValues) (depth acc len m out : ℕ) (buf : List ℕ)
      → children_length vs depth acc ≡ done len
      → len ≡ acc + m
      → out + m ≤ length buf
      → write_values vs depth out buf ≡ written (out + m) (splice out (encodings (views vs)) buf)
  writes_children nil depth acc len m out buf e same room =
      let (wells, sum) = measured_children nil depth acc len e in
      let empty : m ≡ 0 = omega arith in rw (empty, add-zero, splice-nil)
  writes_children (cons v vs) depth acc len m out buf e same room =
      let (n, size, rest, small) = children_length-cons v vs depth acc e in
      let (well, is_size, fits) = measured v depth n size in
      let (wells, sizes) = measured_children vs depth (acc + n) len rest in
      let first = encoding (view v) in
      let body = encodings (views vs) in
      let placed = splice out first buf in
      let after_first : len ≡ acc + n + length body = sizes in
      write_values-cons v vs depth out n (out + n + length body) buf placed
        (splice (out + n) body placed) (writes v depth n out buf size (omega arith))
        (writes_children vs depth (acc + n) len (length body) (out + n) placed rest after_first
          (omega (arith, length-splice out first buf)))
      ∙ ap₂ written (omega arith)
          (splice-append out (out + n) first body buf (ap (λ k. out + k) is_size))
