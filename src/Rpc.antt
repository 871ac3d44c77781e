-- ===== src/Rpc.antt =====
-- kernel/rpc.c: JSON-RPC requests, over what cJSON and libcurl answer.
pub mod Chunks
use evmxt.Prelude.{
  codes, ℕ, ◌+◌, ◌-◌, Bool, true, false, ◌&&◌, not, List, [], ◌∷◌, ◌++◌, Option, none, some, ltb,
  ◌==◌, if◌then◌else◌, length,
}
use evmxt.Memory.{size_max, ◌>>=◌}
use evmxt.Lua.{same_text}

-- A value of cJSON; the items of an array and the members of an object have types of their own.
mutual
  pub data Json : Type 0 where
    null : Json
    boolean : Bool → Json
    number : ℕ → Json
    string : List ℕ → Json
    array : Items → Json
    object : Members → Json

  pub data Items : Type 0 where
    no_items : Items
    item : Json → Items → Items

  pub data Members : Type 0 where
    no_members : Members
    member : List ℕ → Json → Members → Members

-- cJSON's parser and printer (none: NULL), whether the objects can be allocated and filled, and
-- libcurl: whether a handle and its options can be set up, and the chunks that `curl_easy_perform`
-- hands to the callback (none: it fails whatever the callback does).
pub record Network : Type 0 where
  pub parse : List ℕ → Option Json
  pub print : Json → Option (List ℕ)
  pub object_memory : Bool
  pub set_up : Bool
  pub perform : List ℕ → List ℕ → Option (List (List ℕ))

-- The characters in front of the terminator.
unfoldable pub c_string : List ℕ → List ℕ
c_string [] = []
c_string (c ∷ cs) = if c == 0 then [] else c ∷ c_string cs

-- What the buffer holds: `data` (none: NULL) without its terminator, as long as `len`.
abbrev pub buffer_bytes : Option (List ℕ) → List ℕ
buffer_bytes none = []
buffer_bytes (some bytes) = bytes

-- A chunk is its bytes, as many as the product of `size` and `nmemb`; `realloc` succeeds for so many
-- bytes, or not. A product over `SIZE_MAX`, which the source tests for by a division, is refused by
-- the one test here as well, for it leaves no room. A chunk that is refused fails the transfer.
unfoldable pub write_callback : (ℕ → Bool) → Option (List ℕ) → List ℕ → Option (Option (List ℕ))
write_callback realloc buf chunk =
    let held = buffer_bytes buf in
    if ltb (size_max - length held - 1) (length chunk)
    then none
    else if realloc (length held + length chunk + 1)
    then some (some (held ++ chunk))
    else none

-- The transfer: the chunks, one after the other.
unfoldable pub receive : (ℕ → Bool) → List (List ℕ) → Option (List ℕ) → Option (Option (List ℕ))
unfolding write_callback
receive realloc [] buf = some buf
receive realloc (chunk ∷ chunks) buf = write_callback realloc buf chunk >>= receive realloc chunks

abbrev pub is_array : Json → Bool
is_array (array items) = true
is_array _ = false

abbrev pub request : List ℕ → Json → Json
request method arguments = object (
    member (codes "jsonrpc") (string (codes "2.0")) (
      member (codes "method") (string method)
        (member (codes "id") (number 1) (member (codes "params") arguments no_members))))

unfoldable pub compose_json_rpc_request : Network → List ℕ → List ℕ → Option (List ℕ)
compose_json_rpc_request net method params = net.parse params >>= λ arguments.
    if net.object_memory && is_array arguments then net.print (request method arguments) else none

-- `cJSON_GetObjectItemCaseSensitive`
unfoldable pub find_item : List ℕ → Members → Option Json
find_item name no_members = none
find_item name (member key value rest) =
    if same_text name key then some value else find_item name rest

abbrev pub get_item : List ℕ → Json → Option Json
get_item name (object items) = find_item name items
get_item name _ = none

-- `cJSON_IsString`, and the copy of its text.
abbrev pub string_of : Option Json → Option (List ℕ)
string_of (some (string text)) = some (c_string text)
string_of _ = none

abbrev pub result_unless : Option Json → Json → Option (List ℕ)
result_unless none reply = string_of (get_item (codes "result") reply)
result_unless (some error) reply = none

unfoldable pub reply_result : Json → Option (List ℕ)
unfolding find_item
reply_result reply = result_unless (get_item (codes "error") reply) reply

-- For a URL, a method and parameters that are not NULL.
unfoldable pub rpc_call : Network → (ℕ → Bool) → List ℕ → List ℕ → List ℕ → Option (List ℕ)
unfolding compose_json_rpc_request receive reply_result c_string
rpc_call net realloc url method params = compose_json_rpc_request net method params >>= λ body.
    if net.set_up
    then (net.perform url body >>= λ chunks. receive realloc chunks none >>= λ buf.
        buf >>= λ bytes. net.parse (c_string bytes) >>= reply_result)
    else none
