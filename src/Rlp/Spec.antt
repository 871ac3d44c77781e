-- ===== src/Rlp/Spec.antt =====
-- RLP as the Ethereum yellow paper states it: items, and the bytes of an item.
use evmxt.Prelude.{ℕ, suc, ◌+◌, List, [], ◌∷◌, ◌++◌, ltb, leb, if◌then◌else◌, length}
use evmxt.BigEndian.{be_bytes}
use evmxt.Rlp.{
  RlpValue, RlpValues, invalid, bytes, uint64, null_list, list, nil, cons, item_bytes, length_bytes,
}

mutual
  pub data Item : Type 0 where
    string : List ℕ → Item
    sequence : Items → Item

  pub data Items : Type 0 where
    no_items : Items
    item : Item → Items → Items

unfoldable pub header : ℕ → ℕ → List ℕ
unfolding be_bytes
header base len =
    if leb len 55
    then (base + len) ∷ []
    else (base + 55 + length_bytes len) ∷ be_bytes (length_bytes len) len

unfoldable pub encode_string : List ℕ → List ℕ
encode_string [] = header 0x80 0
encode_string (b ∷ []) = if ltb b 0x80 then b ∷ [] else header 0x80 1 ++ (b ∷ [])
encode_string (b ∷ c ∷ bs) = header 0x80 (suc (suc (length bs))) ++ (b ∷ c ∷ bs)

unfoldable mutual
  pub encoding : Item → List ℕ
  encoding (string bs) = encode_string bs
  encoding (sequence items) = header 0xc0 (length (encodings items)) ++ encodings items

  pub encodings : Items → List ℕ
  encodings no_items = []
  encodings (item i is) = encoding i ++ encodings is

-- The item that a descriptor describes; an integer is its minimal big-endian bytes.
unfoldable mutual
  pub view : RlpValue → Item
  view (list values) = sequence (views values)
  view (null_list n) = sequence no_items
  view invalid = string []
  view (bytes span) = string (item_bytes (bytes span))
  view (uint64 n) = string (be_bytes (length_bytes n) n)

  pub views : RlpValues → Items
  views nil = no_items
  views (cons v vs) = item (view v) (views vs)
