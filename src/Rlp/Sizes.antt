-- ===== src/Rlp/Sizes.antt =====
-- kernel/rlp.c: `encode_item` with `out == NULL` over a whole tree.
use evmxt.Prelude.{
  ℕ, ◌+◌, ◌-◌, ◌/◌, ◌≤◌, ◌<◌, ◌≡◌, refl, sym, ap, ◌∙◌, ◌↔◌, Bool, true, false, List, [], ◌++◌,
  arith, ge→ltb, length, length-append_bytes, done, bind-eq-done,
}
use evmxt.Memory.{size_max, null_data, some_data}
use evmxt.Rlp.{
  RlpValue, RlpValues, invalid, bytes, uint64, null_list, list, nil, cons, count, is_list,
  item_bytes, item_length, children_length, total_size, prefix_size, measure_item, rlp_max_depth,
  sizeof_rlp_value,
}
use evmxt.Rlp.Spec.{header, encoding, encodings, view, views}
use evmxt.Rlp.Measure.{
  length-header, view_leaf, total_size-string, total_size-list, total_size-string_fits,
  total_size-list_fits,
}

-- No NULL pointer with a length, no invalid kind, at most 64 list ancestors, and no list whose
-- array would not fit memory.
abbrev mutual
  pub WellFormed : RlpValue → ℕ → Type 0
  WellFormed invalid depth = ⊥
  WellFormed (bytes (null_data len)) depth = (depth ≤ rlp_max_depth) × (len ≡ 0)
  WellFormed (bytes (some_data bs)) depth = depth ≤ rlp_max_depth
  WellFormed (uint64 number) depth = depth ≤ rlp_max_depth
  WellFormed (null_list n) depth = (depth ≤ rlp_max_depth) × (n ≡ 0)
  WellFormed (list values) depth =
      (depth ≤ rlp_max_depth)
      × (count values ≤ size_max / sizeof_rlp_value)
      × AllWellFormed values (depth + 1)

  pub AllWellFormed : RlpValues → ℕ → Type 0
  AllWellFormed nil depth = Unit
  AllWellFormed (cons v vs) depth = WellFormed v depth × AllWellFormed vs depth

pub item_length-leaf :
    (v : RlpValue) (depth : ℕ) {len : ℕ}
    → is_list v ≡ false
    → item_length v depth ≡ done len
    → WellFormed v depth × (len ≡ length (item_bytes v))
unfolding item_length
item_length-leaf invalid depth h e = ground arith
item_length-leaf (bytes (null_data n)) depth h e = unfold item_bytes in ground arith
item_length-leaf (bytes (some_data bs)) depth h e = unfold item_bytes in ground arith
item_length-leaf (uint64 number) depth h e = ground arith
item_length-leaf (null_list n) depth h e = cc
item_length-leaf (list vs) depth h e = cc

item_length-leaf_fits :
    (v : RlpValue) (depth : ℕ)
    → is_list v ≡ false
    → WellFormed v depth
    → item_length v depth ≡ done (length (item_bytes v))
unfolding item_length
item_length-leaf_fits invalid depth h well = absurd well
item_length-leaf_fits (bytes (null_data n)) depth h well = unfold item_bytes in ground arith
item_length-leaf_fits (bytes (some_data bs)) depth h well = unfold item_bytes in ground arith
item_length-leaf_fits (uint64 number) depth h well = ground arith
item_length-leaf_fits (null_list n) depth h well = cc
item_length-leaf_fits (list vs) depth h well = cc

pub measure_item-eq-done :
    (v : RlpValue) (depth : ℕ) {n : ℕ}
    → measure_item v depth ≡ done n
    → (len : ℕ) × (item_length v depth ≡ done len)
      × (total_size (is_list v) (item_bytes v) len ≡ done n)
unfolding measure_item
measure_item-eq-done v depth e = bind-eq-done (item_length v depth) _ e

pub measure_leaf :
    (v : RlpValue) (depth : ℕ) {n : ℕ}
    → is_list v ≡ false
    → measure_item v depth ≡ done n
    → WellFormed v depth × (n ≡ length (encoding (view v))) × (n ≤ size_max)
measure_leaf v depth {n} h e =
    let (len, is_len, is_total) = measure_item-eq-done v depth e in
    let (well, same) = item_length-leaf v depth h is_len in
    let total : total_size false (item_bytes v) (length (item_bytes v)) ≡ done n =
      rw (h, same) at is_total in
    let (size, small) = total_size-string (item_bytes v) total in
    (well, size ∙ ap length (sym (view_leaf v h)), small)

pub item_length-list :
    (vs : RlpValues) (depth : ℕ) {len : ℕ}
    → item_length (list vs) depth ≡ done len
    → (depth ≤ rlp_max_depth)
      × (count vs ≤ size_max / sizeof_rlp_value)
      × (children_length vs (depth + 1) 0 ≡ done len)
unfolding item_length
item_length-list vs depth e = ground arith

pub item_length-null_list :
    (k depth : ℕ) {len : ℕ}
    → item_length (null_list k) depth ≡ done len
    → WellFormed (null_list k) depth × (len ≡ 0)
unfolding item_length
item_length-null_list k depth e = ground arith

pub children_length-cons :
    (v : RlpValue) (vs : RlpValues) (depth acc : ℕ) {len : ℕ}
    → children_length (cons v vs) depth acc ≡ done len
    → (n : ℕ) × (measure_item v depth ≡ done n)
      × (children_length vs depth (acc + n) ≡ done len)
      × (n ≤ size_max - acc)
unfolding item_length measure_item
children_length-cons v vs depth acc e =
    let (n, size, rest) = bind-eq-done (measure_item v depth) _ e in
    (n, size, ground arith, ground arith)

list_total :
    {n len : ℕ} (body : List ℕ)
    → length body ≡ len
    → total_size true [] len ≡ done n
    → (n ≡ length (header 0xc0 (length body) ++ body)) × (n ≤ size_max)
list_total {n} {len} body e total =
    let (size, small) = total_size-list len total in
    (rw (length-append_bytes, length-header, e) size, small)

mutual
  unfolding encoding view item_length item_bytes

  pub measured :
      (v : RlpValue) (depth n : ℕ)
      → measure_item v depth ≡ done n
      → WellFormed v depth × (n ≡ length (encoding (view v))) × (n ≤ size_max)
  measured invalid depth n e = measure_leaf invalid depth refl e
  measured (bytes span) depth n e = measure_leaf (bytes span) depth refl e
  measured (uint64 k) depth n e = measure_leaf (uint64 k) depth refl e
  measured (null_list k) depth n e =
      let (len, is_len, total) = measure_item-eq-done (null_list k) depth e in
      let (well, empty) = item_length-null_list k depth is_len in
      let (size, small) = list_total [] (sym empty) total in (well, size, small)
  measured (list vs) depth n e =
      let (len, is_len, total) = measure_item-eq-done (list vs) depth e in
      let (shallow, few, kids) = item_length-list vs depth is_len in
      let (well, size) = measured_children vs (depth + 1) 0 len kids in
      let (total_is, small) = list_total (encodings (views vs)) (omega arith) total in
      ((shallow, few, well), total_is, small)

  pub measured_children :
      (vs : RlpValues) (depth acc len : ℕ)
      → children_length vs depth acc ≡ done len
      → AllWellFormed vs depth × (len ≡ acc + length (encodings (views vs)))
  measured_children nil depth acc len e = (tt, ground arith)
  measured_children (cons v vs) depth acc len e =
      let (n, size, rest, small) = children_length-cons v vs depth acc e in
      let (well, is_size, fits) = measured v depth n size in
      let (wells, sizes) = measured_children vs depth (acc + n) len rest in
      ((well, wells), omega (arith, length-append_bytes (encoding (view v)) (encodings (views vs))))

-- The other direction.
pub measure_leaf_fits :
    (v : RlpValue) (depth : ℕ)
    → is_list v ≡ false
    → WellFormed v depth
    → length (encoding (view v)) ≤ size_max
    → measure_item v depth ≡ done (length (encoding (view v)))
unfolding measure_item
measure_leaf_fits v depth h well fits =
    let encoded = view_leaf v h in
    rw (item_length-leaf_fits v depth h well, h, encoded)
      (total_size-string_fits (item_bytes v) (rw encoded at fits))

list_fits :
    (body : List ℕ)
    → length (header 0xc0 (length body) ++ body) ≤ size_max
    → total_size true [] (length body) ≡ done (length (header 0xc0 (length body) ++ body))
list_fits body fits =
    let size : length (header 0xc0 (length body) ++ body)
        ≡ prefix_size (length body) + length body =
      rw (length-append_bytes, length-header) in
    rw size (total_size-list_fits (length body) (rw size at fits))

measure_item-list :
    (vs : RlpValues) (depth len : ℕ)
    → depth ≤ rlp_max_depth
    → count vs ≤ size_max / sizeof_rlp_value
    → children_length vs (depth + 1) 0 ≡ done len
    → measure_item (list vs) depth ≡ total_size true [] len
unfolding measure_item item_length item_bytes
measure_item-list vs depth len shallow few kids = ground arith

measure_item-null_list :
    (k depth : ℕ)
    → WellFormed (null_list k) depth
    → measure_item (null_list k) depth ≡ total_size true [] 0
unfolding measure_item item_length item_bytes
measure_item-null_list k depth well = ground arith

children_length-step :
    (v : RlpValue) (vs : RlpValues) (depth acc n : ℕ)
    → measure_item v depth ≡ done n
    → acc + n ≤ size_max
    → children_length (cons v vs) depth acc ≡ children_length vs depth (acc + n)
unfolding item_length measure_item
children_length-step v vs depth acc n size small =
    rw size (rw (ge→ltb (size_max - acc) n (omega arith)))

mutual
  unfolding encoding view item_length

  fits :
      (v : RlpValue) (depth : ℕ)
      → WellFormed v depth
      → length (encoding (view v)) ≤ size_max
      → measure_item v depth ≡ done (length (encoding (view v)))
  fits invalid depth well small = absurd well
  fits (bytes span) depth well small = measure_leaf_fits (bytes span) depth refl well small
  fits (uint64 k) depth well small = measure_leaf_fits (uint64 k) depth refl well small
  fits (null_list k) depth well small = measure_item-null_list k depth well ∙ list_fits [] small
  fits (list vs) depth (shallow, few, well) small =
      measure_item-list vs depth (length (encodings (views vs))) shallow few (
        fits_children vs (depth + 1) 0 well (
          omega (
            arith,
            length-append_bytes (header 0xc0 (length (encodings (views vs))))
                (encodings (views vs)),
          ))
        ∙ ap done (omega arith))
      ∙ list_fits (encodings (views vs)) small

  fits_children :
      (vs : RlpValues) (depth acc : ℕ)
      → AllWellFormed vs depth
      → acc + length (encodings (views vs)) ≤ size_max
      → children_length vs depth acc ≡ done (acc + length (encodings (views vs)))
  fits_children nil depth acc well small = ap done (omega arith)
  fits_children (cons v vs) depth acc (well, wells) small =
      let split = length-append_bytes (encoding (view v)) (encodings (views vs)) in
      let size = fits v depth well (omega (arith, split)) in
      children_length-step v vs depth acc (length (encoding (view v))) size (omega (arith, split))
      ∙ fits_children vs depth (acc + length (encoding (view v))) wells (omega (arith, split))
      ∙ ap done (omega (arith, split))

-- Measuring a value at a depth succeeds with a size exactly when the tree below it is well-formed
-- at that depth and the size is the length of its specified encoding and fits `size_t`: no sum
-- wraps around and no error is spurious.
pub measure_item_iff :
    (v : RlpValue) (depth n : ℕ)
    → (measure_item v depth ≡ done n)
      ↔ (WellFormed v depth × (n ≡ length (encoding (view v))) × (n ≤ size_max))
measure_item_iff v depth n = (
  measured v depth n,
  λ (well, size, small). fits v depth well (rw size at small) ∙ ap done (sym size),
)

total_size_pos :
    (listed : Bool) (bs : List ℕ) (len : ℕ) {n : ℕ} → total_size listed bs len ≡ done n → 0 < n
unfolding total_size
total_size_pos listed bs len h = ground arith

-- No encoding is empty.
pub measured_pos : (v : RlpValue) (depth : ℕ) {n : ℕ} → measure_item v depth ≡ done n → 0 < n
measured_pos v depth h =
    let (len, is_len, total) = measure_item-eq-done v depth h in
    total_size_pos (is_list v) (item_bytes v) len total
