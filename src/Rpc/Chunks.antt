-- ===== src/Rpc/Chunks.antt =====
-- kernel/rpc.c: the response is put together whatever way it arrives.
use evmxt.Prelude.{
  ℕ, ◌+◌, ◌-◌, ◌<◌, ◌≡◌, refl, sym, ap, Bool, true, List, [], ◌∷◌, ◌++◌, Option, some, none, arith,
  length, length-append_bytes, append_assoc, append-nil, ge→ltb,
}
use evmxt.Memory.{size_max}
use evmxt.Rpc.{write_callback, receive, buffer_bytes}

-- All bytes in order.
unfoldable pub concat : List (List ℕ) → List ℕ
concat [] = []
concat (chunk ∷ chunks) = chunk ++ concat chunks

write_callback_lem :
    (realloc : ℕ → Bool) (buf : Option (List ℕ)) (chunk : List ℕ)
    → ((n : ℕ) → realloc n ≡ true)
    → length (buffer_bytes buf ++ chunk) < size_max
    → write_callback realloc buf chunk ≡ some (some (buffer_bytes buf ++ chunk))
unfolding write_callback
write_callback_lem realloc buf chunk memory fits =
    let held = buffer_bytes buf in
    let size = length-append_bytes held chunk in
    rw
      (
        ge→ltb (size_max - length held - 1) (length chunk) (omega arith),
        memory (length held + length chunk + 1),
      )
      refl

receive-concat :
    (realloc : ℕ → Bool) (chunks : List (List ℕ)) (held : List ℕ)
    → ((n : ℕ) → realloc n ≡ true)
    → length held + length (concat chunks) < size_max
    → receive realloc chunks (some held) ≡ some (some (held ++ concat chunks))
unfolding receive concat
receive-concat realloc [] held memory fits = ap (λ bs. some (some bs)) (sym (append-nil held))
receive-concat realloc (chunk ∷ chunks) held memory fits =
    let first = length-append_bytes held chunk in
    let whole = length-append_bytes chunk (concat chunks) in
    rw
      (
        write_callback_lem realloc (some held) chunk memory (omega arith),
        receive-concat realloc chunks (held ++ chunk) memory (omega arith),
      )
      (ap (λ bs. some (some bs)) (append_assoc held chunk (concat chunks)))

-- If `realloc` never fails and the whole response is shorter than `SIZE_MAX`, the response that
-- the callback collects is the concatenation of the chunks, whatever their sizes.
pub receive_lem :
    (realloc : ℕ → Bool) (chunk : List ℕ) (chunks : List (List ℕ))
    → ((n : ℕ) → realloc n ≡ true)
    → length (concat (chunk ∷ chunks)) < size_max
    → receive realloc (chunk ∷ chunks) none ≡ some (some (concat (chunk ∷ chunks)))
unfolding receive concat
receive_lem realloc chunk chunks memory fits =
    let whole = length-append_bytes chunk (concat chunks) in
    rw (write_callback_lem realloc none chunk memory (omega arith))
      (receive-concat realloc chunks chunk memory (omega arith))
