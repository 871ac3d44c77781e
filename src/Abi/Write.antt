-- ===== src/Abi/Write.antt =====
-- kernel/abi.c: the second pass, which writes heads and tails into the zeroed output.
use evmxt.Prelude.{
  ℕ, zero, suc, ◌+◌, ◌-◌, ◌/◌, ◌%◌, ◌^◌, List, Option, none, some, ◌==◌, if◌then◌else◌, length,
  Result, done, fail,
}
use evmxt.Memory.{null_data, some_data, ◌>>=◌, store, memcpy}
use evmxt.Abi.{
  AbiStatus, ListKind, array, fixed_array, tuple, AbiValue, AbiValues, invalid, selector, word,
  bytes, null_values, values, nil, cons, count,
}
use evmxt.Abi.Inspect.{Layout, RootLayout, inspect_value, size_modulus, root_selector}

-- `for (i = 0; i < 8; ++i) out[31 - i] = (uint8_t)(number >> (i << 3));` from round `i` on.
unfoldable pub size_word_loop : ℕ → ℕ → ℕ → ℕ → List ℕ → Option (List ℕ)
size_word_loop zero i number out buf = some buf
size_word_loop (suc rounds) i number out buf =
    store (out + (31 - i)) (number / 256 ^ i % 256) buf >>= size_word_loop rounds (i + 1) number out

unfoldable pub write_size_word : ℕ → ℕ → List ℕ → Option (List ℕ)
unfolding size_word_loop
write_size_word out number buf = size_word_loop 8 0 number out buf

-- The result of an inspection whose status is ignored: on an error the layout is not set, and
-- reading it is a fault.
abbrev pub layout_of : Result AbiStatus Layout → Option Layout
layout_of (done l) = some l
layout_of (fail e) = none

abbrev pub head_of : Layout → ℕ
head_of l = if l.is_dynamic then 32 else l.encoded_size

-- The first loop of `write_sequence`; the depth is that of the children.
unfoldable pub heads_loop : AbiValues → ℕ → ℕ → Option ℕ
heads_loop nil depth head_size = some head_size
heads_loop (cons v vs) depth head_size = layout_of (inspect_value v depth) >>= λ child.
    heads_loop vs depth ((head_size + head_of child) % size_modulus)

-- An array writes its count, and its elements behind it.
abbrev pub write_count : ListKind → ℕ → ℕ → List ℕ → Option (List ℕ)
write_count array n out buf = write_size_word out n buf
write_count fixed_array n out buf = some buf
write_count tuple n out buf = some buf

abbrev pub contents : ListKind → ℕ → ℕ
contents array out = out + 32
contents fixed_array out = out
contents tuple out = out

unfoldable mutual
  pub write_value : AbiValue → ℕ → ℕ → List ℕ → Option (List ℕ)
  write_value invalid out depth buf = some buf
  write_value (selector s) out depth buf = some buf
  write_value (word w) out depth buf = memcpy out w buf
  write_value (bytes (null_data len)) out depth buf =
      write_size_word out len buf >>= λ buf'. if len == 0 then some buf' else none
  write_value (bytes (some_data bs)) out depth buf =
      write_size_word out (length bs) buf >>= memcpy (out + 32) bs
  write_value (null_values kind flag n) out depth buf =
      write_count kind n out buf >>= λ buf'. if n == 0 then some buf' else none
  write_value (values kind flag vs) out depth buf = write_count kind (count vs) out buf >>= λ buf'.
      heads_loop vs (depth + 1) 0 >>= λ head_size.
      write_children vs (depth + 1) (contents kind out) (contents kind out)
        (contents kind out + head_size) buf'

  -- The second loop of `write_sequence`: `out`, `head` and `tail`.
  pub write_children : AbiValues → ℕ → ℕ → ℕ → ℕ → List ℕ → Option (List ℕ)
  write_children nil depth out head tail buf = some buf
  write_children (cons v vs) depth out head tail buf =
      layout_of (inspect_value v depth) >>= λ child.
      (if child.is_dynamic then write_size_word head (tail - out) buf else some buf) >>= λ buf'.
      write_value v (if child.is_dynamic then tail else head) depth buf'
      >>= write_children vs depth out (head + head_of child)
          (if child.is_dynamic then tail + child.encoded_size else tail)

unfoldable pub write_sequence : AbiValues → ℕ → ℕ → List ℕ → Option (List ℕ)
unfolding heads_loop write_value
write_sequence vs out depth buf = heads_loop vs (depth + 1) 0 >>= λ head_size.
    write_children vs (depth + 1) out out (out + head_size) buf

unfoldable pub write_root : AbiValues → RootLayout → ℕ → List ℕ → Option (List ℕ)
unfolding write_sequence
write_root vs root out buf =
    (elim root.selector_size [ zero ↦ some buf | suc n ↦ memcpy out (root_selector vs) buf ])
    >>= write_sequence root.arguments (out + root.selector_size) 0
