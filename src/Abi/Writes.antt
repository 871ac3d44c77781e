-- ===== src/Abi/Writes.antt =====
-- kernel/abi.c: over zeroes, the second pass leaves the encoding in place and nothing else.
use evmxt.Prelude.{
  ℕ, zero, suc, ◌+◌, ◌-◌, ◌*◌, ◌/◌, ◌%◌, ◌≤◌, ◌≡◌, refl, sym, ap, ◌∙◌, Bool, true, false, inl, inr,
  List, [], ◌∷◌, ◌++◌, append_assoc, append-nil, Option, some, arith, Bool-cases, if◌then◌else◌,
  length, length-append_bytes, length-replicate, done,
}
use evmxt.BigEndian.{be_bytes}
use evmxt.BigEndian.Laws.{length-be_bytes}
use evmxt.Memory.{size_max, null_data, some_data, splice}
use evmxt.Memory.Laws.{
  splice-append, splice_over, splice_middle, in_the_middle, length-splice, memcpy_lem,
}
use evmxt.Abi.{
  ListKind, array, fixed_array, tuple, AbiValue, AbiValues, invalid, selector, word, bytes,
  null_values, values, nil, cons, count, zeros,
}
use evmxt.Abi.Inspect.{
  Layout, Sums, no_sums, size_modulus, is_tuple, inspect_value, inspect_children,
}
use evmxt.Abi.Write.{
  write_size_word, head_of, heads_loop, write_count, contents, write_value, write_children,
}
use evmxt.Abi.Spec.{
  dynamic, padded, list_prefix, encoding, heads, tails, head_length, sequence, IsShaped, AllShaped,
}
use evmxt.Abi.Sizes.{
  inspected, inspect_value-values, inspect_children-cons, add_child-done, inspect_bytes-Describes,
  inspect_value-bytes, inspect_value-null_values, inspect_value-null_empty, length-sequence,
}
use evmxt.Abi.Words.{write_size_word_lem, write_size_word-zeros}

pub zeros_add : (a b : ℕ) → zeros (a + b) ≡ zeros a ++ zeros b
zeros_add zero b = let same : 0 + b ≡ b = omega arith in rw same
zeros_add (suc a) b =
    let same : suc a + b ≡ suc (a + b) = omega arith in rw same (ap (λ bs. 0 ∷ bs) (zeros_add a b))

pub length-zeros : (n : ℕ) → length (zeros n) ≡ n
length-zeros n = length-replicate n 0

-- The size of the heads, as the first loop of `write_sequence` adds it up.
pub heads_loop_lem :
    (vs : AbiValues) (depth acc : ℕ) (tupled : Bool) (s t : Sums)
    → AllShaped vs
    → s.head_size ≤ size_max
    → s.tail_size ≤ size_max
    → inspect_children vs depth tupled s ≡ done t
    → acc + head_length vs ≤ size_max
    → heads_loop vs depth acc ≡ some (acc + head_length vs)
unfolding heads_loop encoding
heads_loop_lem nil depth acc tupled s t shaped hh ht h small = ap some (omega arith)
heads_loop_lem (cons v vs) depth acc tupled s t (shaped, all_shaped) hh ht h small =
    let (child, s', first, added, rest) = inspect_children-cons v vs depth tupled s h in
    let (size, dyn, fits) = inspected v depth child shaped first in
    let (head', tail', any', hh', ht') =
      add_child-done tupled s s' child hh ht (omega arith) added in
    let own : head_of child ≡ (if dynamic v then 32 else length (encoding v)) = rw (dyn, size) in
    let wrapped : (acc + head_of child) % size_modulus ≡ acc + head_of child = omega arith in
    rw (first, wrapped)
      (heads_loop_lem vs depth (acc + head_of child) tupled s' t all_shaped hh' ht' rest
          (omega arith)
        ∙ ap some (omega arith))

-- The output of a sequence half written: heads, room for heads, tails, room for tails.
abbrev region : List ℕ → ℕ → List ℕ → ℕ → List ℕ
region hs a ts b = hs ++ (zeros a ++ (ts ++ zeros b))

-- A static child goes to the room for heads.
region-head :
    (f : List ℕ → Option (List ℕ)) (out head a b : ℕ) (hs ts xs buf : List ℕ)
    → head ≡ out + length hs
    → ((base : List ℕ)
        → length base ≡ length buf
        → f (splice head (zeros (length xs)) base) ≡ some (splice head xs base))
    → f (splice out (region hs (length xs + a) ts b) buf)
      ≡ some (splice out (region (hs ++ xs) a ts b) buf)
region-head f out head a b hs ts xs buf place acts =
    let rest = zeros a ++ (ts ++ zeros b) in
    ap (λ bs. f (splice out bs buf))
      (rw zeros_add
        (ap (λ bs. hs ++ bs) (append_assoc (zeros (length xs)) (zeros a) (ts ++ zeros b))))
    ∙ in_the_middle f out head hs (zeros (length xs)) xs rest buf place
        (sym (length-zeros (length xs))) acts
    ∙ ap (λ bs. some (splice out bs buf)) (sym (append_assoc hs xs rest))

-- A dynamic child goes to the room for tails.
region-tail :
    (f : List ℕ → Option (List ℕ)) (out tail a b : ℕ) (hs ts xs buf : List ℕ)
    → tail ≡ out + length hs + a + length ts
    → ((base : List ℕ)
        → length base ≡ length buf
        → f (splice tail (zeros (length xs)) base) ≡ some (splice tail xs base))
    → f (splice out (region hs a ts (length xs + b)) buf)
      ≡ some (splice out (region hs a (ts ++ xs) b) buf)
region-tail f out tail a b hs ts xs buf place acts =
    let front = hs ++ (zeros a ++ ts) in
    let at_tail : tail ≡ out + length front = omega (
      arith,
      length-append_bytes hs (zeros a ++ ts),
      length-append_bytes (zeros a) ts,
      length-zeros a,
    ) in
    ap (λ bs. f (splice out bs buf)) (simp (zeros_add, append_assoc))
    ∙ in_the_middle f out tail front (zeros (length xs)) xs (zeros b) buf at_tail
        (sym (length-zeros (length xs))) acts
    ∙ ap (λ bs. some (splice out bs buf)) (simp append_assoc)

-- One round of the second loop, on a static and on a dynamic child.
write_children-static :
    (v : AbiValue) (vs : AbiValues) (depth out head tail : ℕ) (child : Layout) (buf buf' : List ℕ)
    → inspect_value v depth ≡ done child
    → child.is_dynamic ≡ false
    → write_value v head depth buf ≡ some buf'
    → write_children (cons v vs) depth out head tail buf
      ≡ write_children vs depth out (head + child.encoded_size) tail buf'
unfolding write_value
write_children-static v vs depth out head tail child buf buf' first static wrote =
    rw (first, static, wrote)

write_children-dynamic :
    (v : AbiValue) (vs : AbiValues) (depth out head tail : ℕ) (child : Layout)
    (buf buf' buf'' : List ℕ)
    → inspect_value v depth ≡ done child
    → child.is_dynamic ≡ true
    → write_size_word head (tail - out) buf ≡ some buf'
    → write_value v tail depth buf' ≡ some buf''
    → write_children (cons v vs) depth out head tail buf
      ≡ write_children vs depth out (head + 32) (tail + child.encoded_size) buf''
unfolding write_value
write_children-dynamic v vs depth out head tail child buf buf' buf'' first dyn offset wrote =
    rw (first, dyn, offset, wrote)

-- The size word of something longer.
write_size_word-longer :
    (out number k total : ℕ) (buf : List ℕ)
    → number ≤ size_max
    → out + 32 ≤ length buf
    → total ≡ 32 + k
    → write_size_word out number (splice out (zeros total) buf)
      ≡ some (splice out (be_bytes 32 number ++ zeros k) buf)
write_size_word-longer out number k total buf small room e =
    ap (λ bs. write_size_word out number (splice out bs buf)) (ap zeros e ∙ zeros_add 32 k)
    ∙ write_size_word_lem out number (zeros k) buf small room

write_value-bytes :
    (bs : List ℕ) (out depth : ℕ) (buf : List ℕ)
    → length bs ≤ size_max
    → out + length (be_bytes 32 (length bs) ++ padded bs) ≤ length buf
    → write_value
        (bytes (some_data bs))
        out
        depth
        (splice out (zeros (length (be_bytes 32 (length bs) ++ padded bs))) buf)
      ≡ some (splice out (be_bytes 32 (length bs) ++ padded bs) buf)
unfolding write_value padded
write_value-bytes bs out depth buf small room =
    let pad = (length bs + 31) / 32 * 32 - length bs in
    let size = be_bytes 32 (length bs) in
    let total : length (size ++ (bs ++ zeros pad)) ≡ 32 + (length bs + pad) = omega (
      arith,
      length-append_bytes size (bs ++ zeros pad),
      length-be_bytes 32 (length bs),
      length-append_bytes bs (zeros pad),
      length-zeros pad,
    ) in
    let placed : out + 32 ≡ out + length size = omega (arith, length-be_bytes 32 (length bs)) in
    let sized = splice out (size ++ zeros (length bs + pad)) buf in
    rw (write_size_word-longer out (length bs) (length bs + pad) _ buf small (omega arith) total) (
      memcpy_lem (out + 32) bs sized
        (omega (arith, length-splice out (size ++ zeros (length bs + pad)) buf))
      ∙ ap some (
          ap (λ zs. splice (out + 32) bs (splice out (size ++ zs) buf)) (zeros_add (length bs) pad)
          ∙ splice_middle out (out + 32) size (zeros (length bs)) bs (zeros pad) buf placed
              (sym (length-zeros (length bs)))))

-- The count of an array, with room for its elements behind it.
write_count_lem :
    (kind : ListKind) (n out k total : ℕ) (buf : List ℕ)
    → n ≤ size_max
    → out + total ≤ length buf
    → total ≡ length (list_prefix kind n) + k
    → write_count kind n out (splice out (zeros total) buf)
      ≡ some (splice out (list_prefix kind n ++ zeros k) buf)
write_count_lem array n out k total buf small room e =
    let e' : total ≡ 32 + k = omega (arith, length-be_bytes 32 n) in
    write_size_word-longer out n k total buf small (omega arith) e'
write_count_lem fixed_array n out k total buf small room e =
    let e' : total ≡ k = omega arith in rw e'
write_count_lem tuple n out k total buf small room e = let e' : total ≡ k = omega arith in rw e'

contents_lem : (kind : ListKind) (n out : ℕ) → contents kind out ≡ out + length (list_prefix kind n)
contents_lem array n out = omega (arith, length-be_bytes 32 n)
contents_lem fixed_array n out = omega arith
contents_lem tuple n out = omega arith

write_value-values :
    (kind : ListKind) (flag : Bool) (vs : AbiValues) (out depth c k : ℕ) (buf : List ℕ)
    → count vs ≤ size_max
    → c ≡ out + length (list_prefix kind (count vs))
    → k ≡ length (sequence vs)
    → out + length (list_prefix kind (count vs) ++ sequence vs) ≤ length buf
    → heads_loop vs (depth + 1) 0 ≡ some (head_length vs)
    → ((base : List ℕ)
        → length base ≡ length buf
        → write_children vs (depth + 1) c c (c + head_length vs) (splice c (zeros k) base)
          ≡ some (splice c (sequence vs) base))
    → write_value
        (values kind flag vs)
        out
        depth
        (splice out (zeros (length (list_prefix kind (count vs) ++ sequence vs))) buf)
      ≡ some (splice out (list_prefix kind (count vs) ++ sequence vs) buf)
unfolding write_value
write_value-values kind flag vs out depth c k buf few place size room heads_size wrote =
    let top = list_prefix kind (count vs) in
    let at_contents : contents kind out ≡ c = contents_lem kind (count vs) out ∙ sym place in
    let total = length-append_bytes top (sequence vs) in
    let filled = splice out top buf in
    rw
      (
        write_count_lem kind (count vs) out k _ buf few room (omega (arith, total)),
        heads_size,
        at_contents,
        sym (splice-append out c top (zeros k) buf place),
      )
      (wrote filled (length-splice out top buf)
        ∙ ap some (splice-append out c top (sequence vs) buf place))

write_value-null_values :
    (kind : ListKind) (flag : Bool) (n out depth : ℕ) (buf : List ℕ)
    → n ≡ 0
    → out + length (list_prefix kind 0) ≤ length buf
    → write_value
        (null_values kind flag n)
        out
        depth
        (splice out (zeros (length (list_prefix kind 0))) buf)
      ≡ some (splice out (list_prefix kind 0) buf)
unfolding write_value
write_value-null_values kind flag n out depth buf empty room =
    let counted =
      write_count_lem kind 0 out 0 (length (list_prefix kind 0)) buf (omega arith) room
        (omega arith) in
    rw (empty, counted, append-nil)

write_value-null_bytes :
    (n out depth : ℕ) (buf : List ℕ)
    → n ≡ 0
    → out + length (be_bytes 32 0) ≤ length buf
    → write_value (bytes (null_data n)) out depth (splice out (zeros (length (be_bytes 32 0))) buf)
      ≡ some (splice out (be_bytes 32 0) buf)
unfolding write_value
write_value-null_bytes n out depth buf empty room =
    let wrote =
      write_size_word-zeros out 0 buf (omega arith) (omega (arith, length-be_bytes 32 0)) in
    rw (empty, length-be_bytes, wrote)

-- The offset of a dynamic child, in the room for heads.
offset_written :
    (out head offset a b : ℕ) (hs ts buf : List ℕ)
    → head ≡ out + length hs
    → offset ≤ size_max
    → head + 32 ≤ length buf
    → write_size_word head offset (splice out (region hs (32 + a) ts b) buf)
      ≡ some (splice out (region (hs ++ be_bytes 32 offset) a ts b) buf)
offset_written out head offset a b hs ts buf place small room =
    let width = length-be_bytes 32 offset in
    ap (λ k. write_size_word head offset (splice out (region hs (k + a) ts b) buf)) (sym width)
    ∙ region-head (write_size_word head offset) out head a b hs ts (be_bytes 32 offset) buf place
        λ base same.
          ap (λ k. write_size_word head offset (splice head (zeros k) base)) width
          ∙ write_size_word-zeros head offset base small (omega arith)

mutual
  unfolding encoding dynamic write_value

  pub writes :
      (v : AbiValue) (out depth : ℕ) (l : Layout) (buf : List ℕ)
      → IsShaped v
      → inspect_value v depth ≡ done l
      → out + length (encoding v) ≤ length buf
      → write_value v out depth (splice out (zeros (length (encoding v))) buf)
        ≡ some (splice out (encoding v) buf)
  writes invalid out depth l buf shaped h room = refl
  writes (selector s) out depth l buf shaped h room = refl
  writes (word w) out depth l buf shaped h room =
      memcpy_lem out w (splice out (zeros (length w)) buf) (rw length-splice room)
      ∙ ap some (splice_over out w (zeros (length w)) buf (omega (arith, length-zeros (length w))))
  writes (bytes (null_data n)) out depth l buf shaped h room =
      write_value-null_bytes n out depth buf (inspect_value-null_empty n depth h) room
  writes (bytes (some_data bs)) out depth l buf shaped h room =
      write_value-bytes bs out depth buf
        (inspect_bytes-Describes bs (inspect_value-bytes bs depth h)).1 room
  writes (null_values kind flag n) out depth l buf shaped h room =
      write_value-null_values kind flag n out depth buf
        (inspect_value-null_values kind flag n depth h).1 room
  writes (values kind flag vs) out depth l buf (few, shaped) h room =
      let (t, l₀, kids, finished, listed, shallow) = inspect_value-values kind flag vs depth h in
      let (size, dyn, small) = inspected (values kind flag vs) depth l (few, shaped) h in
      let c = out + length (list_prefix kind (count vs)) in
      let total = length-append_bytes (list_prefix kind (count vs)) (sequence vs) in
      let parts = length-sequence vs in
      let hl = head_length vs in
      let tl = length (tails vs) in
      write_value-values kind flag vs out depth c (hl + tl) buf few refl (omega (arith, parts)) room
        (heads_loop_lem vs (depth + 1) 0 (is_tuple kind) no_sums t shaped (omega arith)
            (omega arith) kids (omega (arith, total, parts))
          ∙ ap some (omega arith))
        (λ base same.
          ap (λ zs. write_children vs (depth + 1) c c (c + hl) (splice c zs base)) (zeros_add hl tl)
          ∙ writes_children vs c (depth + 1) c (c + hl) (is_tuple kind) no_sums t [] [] base shaped
              (omega arith) (omega arith) kids (omega arith) (omega arith)
              (omega (arith, total, parts)) (omega (arith, total, parts))
          ∙ ap (λ k. some (splice c (heads vs k ++ tails vs) base)) (omega arith))

  pub writes_children :
      (vs : AbiValues) (out depth head tail : ℕ) (tupled : Bool) (s t : Sums) (hs ts buf : List ℕ)
      → AllShaped vs
      → s.head_size ≤ size_max
      → s.tail_size ≤ size_max
      → inspect_children vs depth tupled s ≡ done t
      → head ≡ out + length hs
      → tail ≡ out + length hs + head_length vs + length ts
      → length hs + head_length vs + length ts + length (tails vs) ≤ size_max
      → out + length hs + head_length vs + length ts + length (tails vs) ≤ length buf
      → write_children vs depth out head tail
          (splice out (region hs (head_length vs) ts (length (tails vs))) buf)
        ≡ some (splice out ((hs ++ heads vs (tail - out)) ++ (ts ++ tails vs)) buf)
  writes_children nil out depth head tail tupled s t hs ts buf shaped hh ht h eh et small room =
      ap (λ bs. some (splice out bs buf)) (simp append-nil)
  writes_children (cons v vs) out depth head tail tupled s t hs ts buf (shaped, all_shaped) hh ht h
        eh et small room =
      let (child, s', first, added, rest) = inspect_children-cons v vs depth tupled s h in
      let (size, dyn, fits) = inspected v depth child shaped first in
      let (head', tail', any', hh', ht') =
        add_child-done tupled s s' child hh ht (omega arith) added in
      let own = encoding v in
      let hl = head_length vs in
      let tl = length (tails vs) in
      elim (Bool-cases (dynamic v)) [
        | inr static ↦
            let small' : length hs + (length own + hl) + length ts + tl ≤ size_max =
              rw static at small in
            let room' : out + length hs + (length own + hl) + length ts + tl ≤ length buf =
              rw static at room in
            let et' : tail ≡ out + length hs + (length own + hl) + length ts = rw static at et in
            let joined = length-append_bytes hs own in
            rw static (
              write_children-static v vs depth out head tail child _ _ first (dyn ∙ static) (
                region-head (write_value v head depth) out head hl tl hs ts own buf eh
                  λ base same. writes v head depth child base shaped first (omega arith))
              ∙ writes_children vs out depth (head + child.encoded_size) tail tupled s' t
                  (hs ++ own) ts buf all_shaped hh' ht' rest (omega (arith, joined))
                  (omega (arith, joined)) (omega (arith, joined)) (omega (arith, joined))
              ∙ ap (λ bs. some (splice out (bs ++ (ts ++ tails vs)) buf))
                  (append_assoc hs own (heads vs (tail - out))))
        | inl moving ↦
            let split = length-append_bytes own (tails vs) in
            let small' : length hs + (32 + hl) + length ts + length (own ++ tails vs) ≤ size_max =
              rw moving at small in
            let room' : out + length hs + (32 + hl) + length ts + length (own ++ tails vs)
                ≤ length buf =
              rw moving at room in
            let et' : tail ≡ out + length hs + (32 + hl) + length ts = rw moving at et in
            let offset = tail - out in
            let size_word = be_bytes 32 offset in
            let width = length-be_bytes 32 offset in
            let joined = length-append_bytes hs size_word in
            let joined_tails = length-append_bytes ts own in
            let shifted : tail + child.encoded_size - out ≡ offset + length own = omega arith in
            rw (moving, split)
              (write_children-dynamic v vs depth out head tail child _ _ _ first (dyn ∙ moving)
                  (offset_written out head offset hl (length own + tl) hs ts buf eh (omega arith)
                    (omega arith))
                  (region-tail (write_value v tail depth) out tail hl tl (hs ++ size_word) ts own
                    buf (omega (arith, joined, width))
                    λ base same. writes v tail depth child base shaped first (omega (arith, split)))
                ∙ writes_children vs out depth (head + 32) (tail + child.encoded_size) tupled s' t
                    (hs ++ size_word) (ts ++ own) buf all_shaped hh' ht' rest
                    (omega (arith, joined, width)) (omega (arith, joined, joined_tails, width))
                    (omega (arith, joined, joined_tails, width, split))
                    (omega (arith, joined, joined_tails, width, split))
                ∙ ap
                    (λ k. some (
                      splice out (((hs ++ size_word) ++ heads vs k) ++ ((ts ++ own) ++ tails vs))
                        buf))
                    shifted
                ∙ ap (λ bs. some (splice out bs buf)) (simp append_assoc))
      ]
