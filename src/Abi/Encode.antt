-- ===== src/Abi/Encode.antt =====
-- kernel/abi.c: the public functions over both passes.
use evmxt.Prelude.{
  ℕ, Bool, true, false, List, Option, none, some, ltb, ◌==◌, if◌then◌else◌, Result, done, fail,
}
use evmxt.Memory.{◌>>=◌, memcpy}
use evmxt.Abi.{AbiStatus, ok, invalid_argument, no_space, no_memory, AbiValues, nil, zeros}
use evmxt.Abi.Inspect.{RootLayout, Roots, null_roots, roots, inspect_root}
use evmxt.Abi.Write.{write_root}

abbrev pub root_values : Roots → AbiValues
root_values (null_roots n) = nil
root_values (roots vs) = vs

abbrev pub is_null {ℓ} : {A : Type ℓ} → Option A → Bool
is_null none = true
is_null (some x) = false

-- `if (pointer != NULL) *pointer = n;`
abbrev pub assign : Option ℕ → ℕ → Option ℕ
assign none n = none
assign (some old) n = some n

abbrev pub sized : Result AbiStatus RootLayout → Option ℕ → AbiStatus × Option ℕ
sized (done root) size = (ok, assign size root.total_size)
sized (fail e) size = (e, size)

-- The status, with `*size` afterwards (`none`: the pointer is NULL).
unfoldable pub abi_encoded_size : Roots → Option ℕ → AbiStatus × Option ℕ
abi_encoded_size vs none = (invalid_argument, none)
abi_encoded_size vs (some old) = sized (inspect_root vs) (some old)

-- What a call of `abi_encode` leaves.
pub record Encoded : Type 0 where
  pub status : AbiStatus
  pub out : Option (List ℕ)
  pub written : Option ℕ

-- `memset(out, 0, total); write_root(values, &root, out);`
unfoldable pub fill : AbiValues → RootLayout → List ℕ → Option (List ℕ)
fill vs root buf = memcpy 0 (zeros root.total_size) buf >>= write_root vs root 0

-- From the second pass on; `none` is a write out of bounds.
unfoldable pub encode_root : AbiValues → RootLayout → Option (List ℕ) → Option ℕ → Option Encoded
encode_root vs root none written =
    if root.total_size == 0
    then some (record { status = ok; out = none; written = written })
    else some (record { status = invalid_argument; out = none; written = written })
encode_root vs root (some buf) written =
    if root.total_size == 0
    then some (record { status = ok; out = some buf; written = written })
    else (fill vs root buf >>= λ buf'.
        some (record { status = ok; out = some buf'; written = written }))

-- From the first pass on.
unfoldable pub encode_inspected :
    Result AbiStatus RootLayout → AbiValues → Option (List ℕ) → ℕ → Option ℕ → Option Encoded
encode_inspected (fail e) vs out capacity written =
    some (record { status = e; out = out; written = written })
encode_inspected (done root) vs out capacity written =
    if ltb capacity root.total_size
    then some (record { status = no_space; out = out; written = assign written root.total_size })
    else encode_root vs root out (assign written root.total_size)

unfoldable pub abi_encode : Roots → Option (List ℕ) → ℕ → Option ℕ → Option Encoded
abi_encode vs out capacity written =
    encode_inspected (inspect_root vs) (root_values vs) out capacity written

pub record AbiBuffer : Type 0 where
  pub bytes : Option (List ℕ)
  pub len : ℕ

abbrev pub empty_buffer : AbiBuffer
empty_buffer = record { bytes = none; len = 0 }

-- From the allocation on: whether `calloc` succeeds is the argument `memory`.
unfoldable pub allocate_root : Bool → AbiValues → RootLayout → Option (AbiStatus × Option AbiBuffer)
allocate_root memory vs root =
    if root.total_size == 0
    then some (ok, some empty_buffer)
    else if memory
    then (write_root vs root 0 (zeros root.total_size) >>= λ bytes.
        some (ok, some (record { bytes = some bytes; len = root.total_size })))
    else some (no_memory, some empty_buffer)

unfoldable pub allocate_inspected :
    Result AbiStatus RootLayout → Bool → AbiValues → Option (AbiStatus × Option AbiBuffer)
unfolding allocate_root
allocate_inspected (fail e) memory vs = some (e, some empty_buffer)
allocate_inspected (done root) memory vs = allocate_root memory vs root

unfoldable pub abi_encode_alloc :
    Bool → Roots → Option AbiBuffer → Option (AbiStatus × Option AbiBuffer)
abi_encode_alloc memory vs none = some (invalid_argument, none)
abi_encode_alloc memory vs (some old) = allocate_inspected (inspect_root vs) memory (root_values vs)

unfoldable pub abi_buffer_free : Option AbiBuffer → Option AbiBuffer
abi_buffer_free none = none
abi_buffer_free (some buffer) = some empty_buffer
