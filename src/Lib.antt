-- ===== src/Lib.antt =====
-- A model of evmxt's kernel, the C library behind a command line for EVM chains, and its proofs.
--
-- The kernel turns values into the bytes that a node accepts. A caller builds non-owning descriptors
-- by constructors, asks for a size, and encodes into a buffer of its own. Transactions are RLP lists
-- (kernel/rlp.c), calls of contracts are ABI tuples behind a selector (kernel/abi.c), and bytes travel
-- in JSON as hexadecimal text (kernel/hex.c).
--
--   Prelude    Boolean tests, lists measured by native numbers, results.
--   Memory     An output buffer as the list of its bytes; a write outside it is a fault (`none`).
--              `splice` says what a write leaves, Memory/Laws has its laws.
--   BigEndian  Numbers as big-endian bytes, and the laws of both directions.
--   Rlp        kernel/rlp.h and kernel/rlp.c: RlpValue is `struct rlp_value`, and `encode_item` is
--              modelled by its two uses, `measure_item` (out == NULL) and `write_item` (Rlp/Encode,
--              with `rlp_encoded_size` and `rlp_encode`). Rlp/Spec is the yellow paper's encoding;
--              Rlp/Contract relates the two; Rlp/Headers is about the headers alone.
--   Abi        kernel/abi.h and kernel/abi.c: AbiValue is `struct abi_value`. Abi/Inspect is the
--              first pass (`inspect_value`, `inspect_sequence`, `inspect_root`), Abi/Write the second
--              (`write_value`, `write_sequence`, `write_root`), Abi/Encode the public functions.
--              Abi/Spec is the head and tail encoding of the Solidity specification; Abi/Contract
--              and Abi/Promises relate the two.
--   Hex        kernel/hex.c: `hex_decode`, `hex_encode`, `hex_encode_quantity`. Hex/Spec reads and
--              writes digits without bit tricks; Hex/Shortest is about the text of a number.
--
--   Crypto     kernel/eth_crypto.c: `eth_keccak256` and `sign_hash`, and in Crypto/Wallet
--              `derive_address` and `generate_eth_wallet`, over the records Libraries and KeyLibrary
--              of what OpenSSL and libsecp256k1 return.
--   Eip1559    kernel/eip_1559_tx.h and kernel/eip_1559_tx.c: Tx is `eip_1559_tx`, with validation and
--              the access list. Eip1559/Envelope has `encode_envelope`, `hash_signing_payload` and
--              `eip_1559_tx_encode` over the RLP encoder, Eip1559/Contract, Eip1559/Signing and
--              Eip1559/Transaction what they leave, Eip1559/Amounts the 32-byte amounts,
--              Eip1559/Valid which transactions are accepted, Eip1559/Fields the nine fields as RLP
--              items, Eip1559/SignedFields the twelve, and Eip1559/Errors the errors of an access list.
--              `memcmp_greater` is the C library's `memcmp(...) > 0`, which `validate_transaction`
--              calls.
--
--   Lua        Lua values and tables as C code sees them: a value is data, a table a reference into a
--              heap that is only read.
--   LuaAbi     kernel/lua_abi.h and kernel/lua_abi.c: `dense_count` and the fields, LuaAbi/Scalars with
--              `build_address`, `build_integer` and `build_bytes`, LuaAbi/Build with
--              `build_container`, `build_value` and `build_arguments`, LuaAbi/Encode with
--              `lua_abi_encode_call`.
--              LuaAbi/Follows and LuaAbi/Passes relate the counting pass to the filling one,
--              LuaAbi/Shapes, LuaAbi/Values and LuaAbi/Trees are about the shape of what is built,
--              LuaAbi/Calls is about the whole call, LuaAbi/Ranges about the integers accepted,
--              LuaAbi/Signed about the word of a negative one.
--   Rpc        kernel/rpc.c: the request, the response buffer and the reply, over the record Network
--              of what cJSON and libcurl answer. Rpc/Chunks is about the buffer.
--   Operations kernel/operations.c and kernel/runtime.h: Context is `lua_runtime_ctx`, World what a
--              handler finds around it, Outcome what it leaves. Operations/Queries has six of the
--              handlers, Operations/Calls `operation_call` and `operation_eth_call`. Operations/Sends
--              says what it means to send a call, Operations/SignedBytes and Operations/Sending are
--              about what a call sends, Operations/Wallets about created wallets,
--              Operations/Quantities about the numbers that a node answers.
--   Runtime    kernel/runtime.c: `handle_operation` with its dispatch, and the loop of
--              `start_lua_runtime` as `resume_loop`, along a list of rounds, each with what
--              `lua_resume` ends with and the world that the handler finds. Runtime/Unanswered is
--              about errors, Runtime/Given, Runtime/Invariant and Runtime/Loop are about what the
--              context keeps to.
--   Uniswap    lua-lib/c-bindings/uniswap_v3.c: `parse_positive_integer`, `integer_sqrt`,
--              `push_uint160_hex` and `sqrt_price_limit_x96`, over the record BigNumbers of OpenSSL's
--              functions, whose laws are in Uniswap/Libraries.
--
-- An operation that a Lua program yields goes from Runtime to a handler of Operations, which reads the
-- call by LuaAbi and the encoders, signs by Eip1559, and asks the node by Rpc.
--
-- Machine integers: `size_t` and `uint64_t` have 64 bits, and each sum is written with the test or the
-- wrap-around of the source. An `int` of hex.c is its 32-bit pattern. A pointer with a length is a
-- `Span`: NULL with any length, or so many readable bytes; an array of descriptors is a list.
--
-- Loops: `length_bytes` and the loop over a `uint64` run on fuel, which is the number itself and
-- enough because each round divides it by 256; the proofs show that the loops reach zero. Except those
-- below, all other loops are structural. Recursion over descriptors is structural; the depth limit of
-- 64 is part of the model.
--
-- The loop of `eip_1559_uint256` runs on the value as fuel, too, by the same argument. Newton's loop runs
-- on one more than its first guess, which is enough because each round lowers the guess; the proof shows
-- it. The digits of a number in a path run on the number as fuel. The depth of `build_value` is counted
-- down from the 64 levels that are allowed. The loop over random draws and the resume loop run along the
-- list of what is drawn or yielded, since nothing bounds them.
--
-- Parameters: the libraries (OpenSSL, libsecp256k1, cJSON, libcurl, Lua's tables), and which allocations
-- succeed. The theorems assume of them, each by name, that `malloc` gives as many bytes as it is asked
-- for, that the strings of Lua and the signatures of secp256k1 consist of bytes, that draws have 32 bytes, and that OpenSSL's functions on
-- big numbers, where they succeed, return what they are documented to return.
--
-- Not modelled: the layout of an access list's descriptors in one allocation (they are values here), a
-- NULL `written` of `eip_1559_tx_encode`, the texts of error messages, contexts and outputs that are
-- NULL, the Lua stack within a handler, the loading of configuration and program (kernel/main.c and the
-- first part of `start_lua_runtime`), kernel/selector.c, the keyring and the contract build
-- (lua-lib/c-bindings/wallet.c and compiler.c), and the Lua scripts. Aliasing of input and output buffers,
-- which the headers forbid, is left out.
pub mod Prelude
pub mod Memory
pub mod BigEndian
pub mod Abi
pub mod Crypto
pub mod Eip1559
pub mod Hex
pub mod Lua
pub mod LuaAbi
pub mod Operations
pub mod Rlp
pub mod Rpc
pub mod Runtime
pub mod Uniswap
