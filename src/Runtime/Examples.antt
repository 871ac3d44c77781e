-- ===== src/Runtime/Examples.antt =====
-- kernel/operations.c, kernel/runtime.c and kernel/rpc.c: the theorems at a run that creates, sets
-- and uses a wallet, with stand-ins for the libraries and the node.
use evmxt.Prelude.{
  codes, subst, ℕ, zero, suc, ◌≤◌, ◌≡◌, refl, ap, ◌⊎◌, true, List, [], ◌∷◌, none, some, arith,
  length, replicate, length-replicate, ◌==◌, if◌then◌else◌, All, IsByte,
}
use evmxt.Memory.{store, memcpy}
use evmxt.Hex.{hex_encode, hex_decode, has_prefix, decode_digits, decode_odd, hexval, decode_loop}
use evmxt.BigEndian.{from_be}
use evmxt.Hex.Spec.{hex_text, hex_digits}
use evmxt.Crypto.{Libraries, eth_keccak256}
use evmxt.Crypto.Wallet.{KeyLibrary}
use evmxt.Eip1559.Signing.{Allocates}
use evmxt.Rpc.{
  Network, string, array, object, no_items, no_members, member, receive, rpc_call, c_string,
}
use evmxt.Rpc.Chunks.{concat, receive_lem}
use evmxt.Lua.{same_text, LuaValue, Heap, lua_max_integer}
use evmxt.Operations.{
  Context, Allocation, World, system, Attempt, gives, Response, pushed, wallet_table, hex_string,
}
use evmxt.Operations.Laws.{Reads, Unanswered}
use evmxt.Operations.Quantities.{chain_id_of_lem}
use evmxt.Operations.Queries.{chain_id_of}
use evmxt.Operations.{call_rpc, decode_positive, bytes_to_uint64}
use evmxt.Operations.Queries.{operation_get_chain_id}
use evmxt.Operations.Calls.{operation_call}
use evmxt.Operations.Sends.{Sends}
use evmxt.Operations.Sending.{zero-IsAmount, operation_call-Sends}
use evmxt.Eip1559.SignedFields.{SignsBytes}
use mathlib.Core.Option.{some-injective}
use evmxt.Runtime.{Resumed, yielded, returned, handle_operation, initial, resume_loop}
use evmxt.Runtime.Unanswered.{Answers, handle_operation-keeps}
use evmxt.Runtime.Invariant.{IsValid}
use evmxt.Runtime.Loop.{resume_loop-IsValid}

abbrev libraries : Libraries
libraries = record {
  keccak_digest = λ bs. some (replicate 32 (length bs));
  sign_recoverable = λ hash key. some (replicate 64 7, 1);
}

abbrev keys : KeyLibrary
keys = record { public_key = λ key. some (replicate 65 4); verify = λ key. true }

-- The parameters are the empty array, and every answer is 0x1.
abbrev network : Network
network = record {
  parse = λ text. elim text [
    | [] ↦ none
    | c ∷ cs ↦
        if c == b'['
        then some (array no_items)
        else some (object (member (codes "result") (string (codes "0x1")) no_members))
  ];
  print = λ json. some (codes "{}");
  object_memory = true;
  set_up = true;
  perform = λ url body. some (codes "{\"result\"" ∷ codes ":\"0x1\"}" ∷ []);
}

abbrev empty_heap : Heap
empty_heap t = record { entries = []; raw_length = 0 }

abbrev allocation : Allocation
allocation = record { list_memory = true; malloc = λ n. some (replicate n 0xff) }

abbrev draw : List ℕ
draw = replicate 32 9

abbrev world : World
world = record {
  libraries = libraries;
  keys = keys;
  key_memory = true;
  draws = some draw ∷ [];
  network = network;
  realloc = λ n. true;
  lua = record { heap = empty_heap; check_stack = λ n. true };
  grow_stack = true;
  abi_memory = record { descriptors = true; encoding = true };
  sizing = allocation;
  signing = allocation;
  raw_memory = true;
  hex_memory = true;
  params_memory = true;
}

abbrev url : List ℕ
url = codes "http://node"

abbrev stack : List LuaValue
stack = LuaValue.nil ∷ LuaValue.integer 2 ∷ LuaValue.table 0 ∷ []

-- The node's chain.
chain : (handle_operation world 2 stack (initial url)).answer ≡ gives (pushed (LuaValue.integer 1))
unfolding handle_operation operation_get_chain_id call_rpc rpc_call same_text decode_positive
    hex_decode has_prefix decode_digits decode_odd hexval store decode_loop bytes_to_uint64
chain = refl

handle_operation-keeps_example :
    Answers (handle_operation world 2 stack (initial url))
    ⊎ ((handle_operation world 2 stack (initial url)).context ≡ initial url)
handle_operation-keeps_example = handle_operation-keeps world 2 stack (initial url)

abbrev rounds : List (World × Resumed)
rounds =
    (world, yielded 1 (LuaValue.table 0) (LuaValue.integer 2) LuaValue.nil)
    ∷ (world, yielded 1 (LuaValue.table 0) (LuaValue.integer 1) LuaValue.nil)
    ∷ (world, returned)
    ∷ []

resume_loop-IsValid_example : IsValid libraries keys (resume_loop rounds (initial url)).context
resume_loop-IsValid_example =
    resume_loop-IsValid libraries keys url rounds ((refl, refl, tt), ((refl, refl, tt), (tt, tt)))

-- A call of one number, at an address.
abbrev call_heap : Heap
call_heap t =
    if t == 0
    then record {
      entries = (LuaValue.string (codes "to"), LuaValue.string (hex_text (replicate 20 0x35))) ∷ [];
      raw_length = 0;
    }
    else if t == 1
    then record {
      entries =
          (LuaValue.string (codes "selector"), LuaValue.string (codes "abcd"))
          ∷ (LuaValue.string (codes "params"), LuaValue.table 2)
          ∷ (LuaValue.string (codes "values"), LuaValue.table 3)
          ∷ [];
      raw_length = 0;
    }
    else if t == 2
    then record { entries = (LuaValue.integer 1, LuaValue.table 4) ∷ []; raw_length = 1 }
    else if t == 3
    then record { entries = (LuaValue.integer 1, LuaValue.integer 7) ∷ []; raw_length = 1 }
    else record {
      entries =
          (LuaValue.string (codes "kind"), LuaValue.integer 3)
          ∷ (LuaValue.string (codes "bits"), LuaValue.integer 256)
          ∷ [];
      raw_length = 0;
    }

abbrev transaction_hash : List ℕ
transaction_hash = hex_text (replicate 32 0xab)

abbrev sending_world : World
sending_world = record world {
  network = record network {
    parse = λ text. elim text [
      | [] ↦ none
      | c ∷ cs ↦
          if c == b'['
          then some (array no_items)
          else some (object (member (codes "result") (string transaction_hash) no_members))
    ];
  };
  lua = record { heap = call_heap; check_stack = λ n. true };
}

abbrev ready : Context
ready = record (initial url) {
  chain_id = 1;
  nonce = 9;
  gas_limit = 21000;
  private_key = draw;
  wallet_set = true;
  chain_id_set = true;
  nonce_set = true;
  gas_set = true;
}

abbrev call_stack : List LuaValue
call_stack = LuaValue.table 1 ∷ LuaValue.integer 0 ∷ LuaValue.table 0 ∷ []

sending_world-Allocates : Allocates (system sending_world sending_world.signing)
sending_world-Allocates n bs h =
    let same : replicate n 0xff ≡ bs = cc h in
    omega (arith, ap length same, length-replicate {A = ℕ} n 0xff)

libraries-SignsBytes : SignsBytes libraries
libraries-SignsBytes hash key sig_out recid h =
    let same : (replicate 64 7, 1) ≡ (sig_out, recid) = some-injective _ _ h in
    subst (All IsByte) (ap (λ (p : List ℕ × ℕ). p.0) same) (sevens 64)
  where
    sevens : (n : ℕ) → All IsByte (replicate n 7)
    sevens zero = tt
    sevens (suc n) = (omega arith, sevens n)

operation_call-Sends_example :
    Sends sending_world call_stack ready (operation_call sending_world call_stack ready)
    ⊎ (((operation_call sending_world call_stack ready).context ≡ ready)
        × Unanswered (operation_call sending_world call_stack ready).answer)
operation_call-Sends_example =
    operation_call-Sends sending_world call_stack ready sending_world-Allocates libraries-SignsBytes
      zero-IsAmount zero-IsAmount

-- The whole call, up to the node's answer.
sent :
    (operation_call sending_world call_stack ready).answer
    ≡ gives (pushed (LuaValue.string transaction_hash))
unfolding operation_call evmxt.Lua.find_entry same_text hex_digits evmxt.LuaAbi.Scalars.is_hex_text
    evmxt.Operations.decode_exactly hex_decode has_prefix decode_digits decode_loop store
    evmxt.LuaAbi.Encode.lua_abi_encode_call evmxt.LuaAbi.dense_count
    evmxt.LuaAbi.Build.build_arguments evmxt.LuaAbi.arena_take evmxt.LuaAbi.Build.build_value
    evmxt.LuaAbi.Build.build_kind evmxt.LuaAbi.Scalars.build_integer
    evmxt.LuaAbi.Scalars.build_number evmxt.Abi.Encode.abi_encode_alloc
    evmxt.Abi.Encode.allocate_inspected evmxt.Abi.Inspect.inspect_root
    evmxt.Abi.Inspect.inspect_sequence evmxt.Abi.abi_selector evmxt.Abi.abi_uint64
    evmxt.Abi.Inspect.add_child evmxt.Abi.Write.write_root memcpy evmxt.Memory.splice
    evmxt.Eip1559.Envelope.eip_1559_tx_encode evmxt.Eip1559.Envelope.encode_validated
    evmxt.Eip1559.validate_transaction evmxt.Eip1559.Envelope.encode_listed
    evmxt.Eip1559.build_access_list evmxt.Eip1559.Envelope.transaction_value
    evmxt.Eip1559.Envelope.hash_signing_payload evmxt.Eip1559.Envelope.encode_envelope
    evmxt.Eip1559.Envelope.envelope_sized evmxt.Eip1559.Envelope.usable_size
    evmxt.Rlp.Encode.rlp_encoded_size evmxt.Rlp.rlp_list evmxt.Eip1559.unsigned_fields
    evmxt.Rlp.rlp_uint64 evmxt.Rlp.rlp_uint_be evmxt.Eip1559.Envelope.hash_sized
    evmxt.Eip1559.Envelope.write_envelope evmxt.Rlp.Encode.rlp_encode evmxt.Rlp.write_prefix
    evmxt.Rlp.Encode.write_leaf evmxt.Eip1559.Envelope.encode_signed
    evmxt.Eip1559.Envelope.sign_fields eth_keccak256 evmxt.Crypto.sign_hash
    evmxt.Eip1559.Envelope.signature_fields hex_string hex_encode c_string call_rpc rpc_call
    evmxt.Operations.is_prefixed
sent = refl

receive_lem_example :
    receive (λ n. true) ((1 ∷ 2 ∷ []) ∷ (3 ∷ []) ∷ []) none
    ≡ some (some (concat ((1 ∷ 2 ∷ []) ∷ (3 ∷ []) ∷ [])))
receive_lem_example =
    receive_lem (λ n. true) (1 ∷ 2 ∷ []) ((3 ∷ []) ∷ []) (λ n. refl) (unfold concat in omega arith)

abbrev created : Attempt Response
created =
    gives (wallet_table (hex_text draw) (hex_text (replicate 64 4)) (hex_text (replicate 20 64)))

one_chain : chain_id_of (codes "0x1") ≡ gives 1
unfolding chain_id_of decode_positive hex_decode has_prefix decode_digits decode_odd hexval store
    decode_loop bytes_to_uint64
one_chain = refl

chain_id_of_lem_example :
    (bs : List ℕ) × Reads (codes "0x1") bs × (1 ≡ from_be 0 bs) × (1 ≤ lua_max_integer)
chain_id_of_lem_example =
    chain_id_of_lem (codes "0x1") (omega arith, (omega arith, (omega arith, tt))) one_chain
