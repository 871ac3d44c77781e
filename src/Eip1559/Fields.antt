-- ===== src/Eip1559/Fields.antt =====
-- kernel/eip_1559_tx.c: the fields of a transaction as RLP items.
use evmxt.Prelude.{
  ℕ, zero, suc, ◌≡◌, refl, sym, ap, ◌∙◌, Bool, List, [], ◌∷◌, Option, none, some, arith, length,
  All, IsByte, done,
}
use evmxt.Memory.{some_data}
use evmxt.BigEndian.{be_bytes, from_be}
use evmxt.BigEndian.Laws.{be_bytes-from_be, from_be-lt}
use evmxt.Rlp.{
  RlpValue, RlpValues, nil, cons, first_values, rlp_list, rlp_bytes, rlp_uint_be, rlp_uint64,
  length_bytes, item_bytes,
}
use evmxt.Rlp.Spec.{Item, Items, string, sequence, no_items, item, view, views}
use evmxt.Rlp.Integers.{uint_be-uint64}
use evmxt.Eip1559.{
  AccessEntry, StorageKeys, null_keys, keys, Tx, key_values, keys_value, entry_values, entries_of,
  build_entries, build_access_list, unsigned_fields, recipient,
}

-- A number is its shortest big-endian bytes.
abbrev pub number : ℕ → Item
number n = string (be_bytes (length_bytes n) n)

-- An amount is the number that its bytes stand for.
abbrev pub amount : List ℕ → Item
amount w = number (from_be 0 w)

unfoldable pub key_items : List (List ℕ) → Items
key_items [] = no_items
key_items (k ∷ ks) = item (string k) (key_items ks)

abbrev pub keys_of : StorageKeys → List (List ℕ)
keys_of (null_keys n) = []
keys_of (keys ks) = ks

-- [[address, [key, ...]], ...]
unfoldable pub entry_items : List AccessEntry → Items
unfolding key_items
entry_items [] = no_items
entry_items (e ∷ es) =
    item
      (sequence
        (item (string e.address) (item (sequence (key_items (keys_of e.storage_keys))) no_items)))
      (entry_items es)

abbrev pub recipient_bytes : Option (List ℕ) → List ℕ
recipient_bytes none = []
recipient_bytes (some address) = address

-- The nine fields that are signed.
abbrev pub unsigned_item : Tx → Item
unsigned_item tx = sequence (
    item (number tx.chain_id) (
      item (number tx.nonce) (
        item (amount tx.max_priority_fee_per_gas) (
          item (amount tx.max_fee_per_gas) (
            item (number tx.gas_limit) (
              item (string (recipient_bytes tx.to)) (
                item (amount tx.value) (
                  item (view (rlp_bytes tx.calldata))
                    (item (sequence (entry_items (entries_of tx.access_list))) no_items)))))))))

pub amount-lem : (w : List ℕ) → All IsByte w → view (rlp_uint_be (some_data w)) ≡ amount w
amount-lem w hw =
    let small = from_be-lt 0 w hw in
    ap (λ bs. view (rlp_uint_be (some_data bs))) (sym (be_bytes-from_be w hw))
    ∙ uint_be-uint64 (length w) (from_be 0 w) (omega arith)
    ∙ (unfold view rlp_uint64 in refl)

first_values-key_values :
    (ks : List (List ℕ)) → views (first_values (length ks) (key_values ks)) ≡ key_items ks
unfolding first_values key_values key_items view item_bytes rlp_bytes
first_values-key_values [] = refl
first_values-key_values (k ∷ ks) = ap (item (string k)) (first_values-key_values ks)

view-keys_value : (ks : StorageKeys) → view (keys_value ks) ≡ sequence (key_items (keys_of ks))
unfolding rlp_list view key_items first_values
view-keys_value (null_keys zero) = refl
view-keys_value (null_keys (suc n)) = refl
view-keys_value (keys ks) = ap sequence (first_values-key_values ks)

first_values-entry_values :
    (es : List AccessEntry) → views (first_values (length es) (entry_values es)) ≡ entry_items es
unfolding first_values entry_values entry_items view item_bytes rlp_bytes rlp_list
first_values-entry_values [] = refl
first_values-entry_values (e ∷ es) =
    let rest = views (first_values (length es) (entry_values es)) in
    let whole =
      λ (i : Item) (is : Items). item (sequence (item (string e.address) (item i no_items))) is in
    ap (λ i. whole i rest) (view-keys_value e.storage_keys)
    ∙ ap (whole (sequence (key_items (keys_of e.storage_keys)))) (first_values-entry_values es)

pub view-access_list :
    (memory : Bool) (es : List AccessEntry) (access_list : Option RlpValues)
    → build_entries memory es ≡ done access_list
    → view (rlp_list access_list (length es)) ≡ sequence (entry_items es)
unfolding build_entries
view-access_list memory [] none h = unfold rlp_list view entry_items in refl
view-access_list memory [] (some vs) h = cc
view-access_list memory (e ∷ es) none h = absurd (ground arith)
view-access_list memory (e ∷ es) (some vs) h =
    let same : vs ≡ entry_values (e ∷ es) = ground arith in
    rw same (unfold rlp_list view in ap sequence (first_values-entry_values (e ∷ es)))

view-nine :
    (a b c d e f g h i : RlpValue)
    → view (
        rlp_list
          (some
            (cons a (cons b (cons c (cons d (cons e (cons f (cons g (cons h (cons i nil))))))))))
          9)
      ≡ sequence (
          item (view a) (
            item (view b) (
              item (view c) (
                item (view d) (
                  item
                    (view e)
                    (item (view f) (item (view g) (item (view h) (item (view i) no_items)))))))))
unfolding rlp_list first_values view
view-nine a b c d e f g h i = refl

pub view-number : (n : ℕ) → view (rlp_uint64 n) ≡ number n
unfolding view rlp_uint64
view-number n = refl

pub view-recipient :
    (to : Option (List ℕ)) → view (rlp_bytes (recipient to)) ≡ string (recipient_bytes to)
unfolding view rlp_bytes item_bytes
view-recipient none = refl
view-recipient (some address) = refl

-- When the access list was built and the three amounts consist of bytes, the nine fields describe
-- the RLP list that EIP-1559 states: chain id, nonce, both fees, gas limit, recipient, value, data
-- and access list, in this order, each number and amount by its shortest big-endian bytes, an
-- absent recipient as the empty string, and each entry of the access list as its address and the
-- list of its keys.
pub view-unsigned_fields :
    (memory : Bool) (tx : Tx) (access_list : Option RlpValues)
    → All IsByte tx.max_priority_fee_per_gas
    → All IsByte tx.max_fee_per_gas
    → All IsByte tx.value
    → build_access_list memory tx ≡ done access_list
    → view (rlp_list (some (unsigned_fields tx access_list)) 9) ≡ unsigned_item tx
unfolding build_access_list unsigned_fields
view-unsigned_fields memory tx access_list h₁ h₂ h₃ built =
    let listed = view-access_list memory (entries_of tx.access_list) access_list built in
    rw
      (
        view-nine,
        view-number tx.chain_id,
        view-number tx.nonce,
        view-number tx.gas_limit,
        amount-lem tx.max_priority_fee_per_gas h₁,
        amount-lem tx.max_fee_per_gas h₂,
        amount-lem tx.value h₃,
        view-recipient,
        listed,
      )
      refl
