-- ===== src/Eip1559/SignedFields.antt =====
-- kernel/eip_1559_tx.c: the twelve fields of a signed transaction as RLP items.
use evmxt.Prelude.{
  ℕ, zero, suc, ◌≤◌, ◌≡◌, refl, sym, ap, ◌∙◌, Bool, List, [], ◌∷◌, Option, none, some, arith,
  length, take, drop, All, IsByte, Bool-cases, inl, inr, ltb, ltb→ge, if◌then◌else◌, subst, done,
}
use mathlib.Core.Option.{some-injective}
use mathlib.Core.Path.{ap₂}
use evmxt.Memory.{◌>>=◌}
use evmxt.Rlp.{RlpValue, RlpValues, nil, cons, first_values, rlp_list, rlp_bytes}
use evmxt.Rlp.Spec.{Item, string, sequence, no_items, item, encoding, view}
use evmxt.Crypto.{Libraries, eth_keccak256, sign_hash, Signature}
use evmxt.Eip1559.{Tx, entries_of, build_access_list, unsigned_fields, append_values}
use evmxt.Eip1559.Envelope.{System, signature_fields}
use evmxt.Eip1559.Signing.{payload}
use evmxt.Eip1559.Valid.{HasArrays}
use evmxt.Eip1559.Fields.{
  number, amount, entry_items, recipient_bytes, unsigned_item, amount-lem, view-access_list,
  view-number, view-recipient, view-unsigned_fields,
}

-- The nine fields, the recovery id, and the two halves of a signature.
abbrev pub signed_item : Tx → ℕ → List ℕ → List ℕ → Item
signed_item tx recid r s = sequence (
    item (number tx.chain_id) (
      item (number tx.nonce) (
        item (amount tx.max_priority_fee_per_gas) (
          item (amount tx.max_fee_per_gas) (
            item (number tx.gas_limit) (
              item (string (recipient_bytes tx.to)) (
                item (amount tx.value) (
                  item (view (rlp_bytes tx.calldata)) (
                    item (sequence (entry_items (entries_of tx.access_list)))
                      (item (number recid) (item (amount r) (item (amount s) no_items))))))))))))

-- What `secp256k1` writes are bytes.
abbrev pub SignsBytes : Libraries → Type 0
SignsBytes libs =
    (hash private_key sig_out : List ℕ) (recid : ℕ)
    → libs.sign_recoverable hash private_key ≡ some (sig_out, recid)
    → All IsByte sig_out

-- The value that is encoded: without a key, the nine fields; with one, twelve, for a signature by
-- the key of the hash of 0x02 and the encoding of the nine.
abbrev pub IsTransaction : System → Tx → Option (List ℕ) → RlpValue → Type 0
IsTransaction sys tx none v = view v ≡ unsigned_item tx
IsTransaction sys tx (some private_key) v =
    (hash sig_out : List ℕ) × (recid : ℕ) × (sys.libraries.keccak_digest
        (0x02 ∷ encoding (unsigned_item tx))
      ≡ some hash)
    × (length hash ≡ 32)
    × (sys.libraries.sign_recoverable hash private_key ≡ some (sig_out, recid))
    × (recid ≤ 1)
    × (view v ≡ signed_item tx recid (take 32 sig_out) (take 32 (drop 32 sig_out)))

-- The value as it is built.
abbrev pub IsBuilt : System → RlpValues → Option (List ℕ) → RlpValue → Type 0
IsBuilt sys fields none v = v ≡ rlp_list (some fields) 9
IsBuilt sys fields (some private_key) v =
    (hash : List ℕ) × (signature : Signature) × (eth_keccak256 sys.libraries
        (payload (rlp_list (some fields) 9))
      ≡ some hash)
    × (sign_hash sys.libraries private_key hash ≡ some signature)
    × (v ≡ rlp_list (some (append_values fields (signature_fields signature))) 12)

view-twelve :
    (a b c d e f g h i j k l : RlpValue)
    → view (
        rlp_list
          (some (
            cons a (
              cons b (
                cons c (
                  cons d
                    (cons e (cons f (cons g (cons h (cons i (cons j (cons k (cons l nil)))))))))))))
          12)
      ≡ sequence (
          item (view a) (
            item (view b) (
              item (view c) (
                item (view d) (
                  item (view e) (
                    item (view f) (
                      item (view g) (
                        item (view h) (
                          item
                            (view i)
                            (item (view j) (item (view k) (item (view l) no_items))))))))))))
unfolding rlp_list first_values view
view-twelve a b c d e f g h i j k l = refl

take-IsByte : (n : ℕ) (bs : List ℕ) → All IsByte bs → All IsByte (take n bs)
take-IsByte zero bs hs = tt
take-IsByte (suc n) [] hs = tt
take-IsByte (suc n) (b ∷ bs) (hb, hs) = (hb, take-IsByte n bs hs)

drop-IsByte : (n : ℕ) (bs : List ℕ) → All IsByte bs → All IsByte (drop n bs)
drop-IsByte zero bs hs = hs
drop-IsByte (suc n) [] hs = tt
drop-IsByte (suc n) (b ∷ bs) (hb, hs) = drop-IsByte n bs hs

eth_keccak256-some :
    (libs : Libraries) (bs hash : List ℕ)
    → eth_keccak256 libs bs ≡ some hash
    → (libs.keccak_digest bs ≡ some hash) × (length hash ≡ 32)
unfolding eth_keccak256
eth_keccak256-some libs bs hash h = ground arith

signed_from :
    (o : Option (List ℕ × ℕ)) (signature : Signature)
    → (o >>= λ (sig_out, recid).
        if ltb 1 recid
        then none
        else some (record { r = take 32 sig_out; s = take 32 (drop 32 sig_out); v = recid }))
      ≡ some signature
    → (sig_out : List ℕ) × (o ≡ some (sig_out, signature.v))
      × (signature.v ≤ 1)
      × (signature.r ≡ take 32 sig_out)
      × (signature.s ≡ take 32 (drop 32 sig_out))
signed_from none signature h = cc
signed_from (some (sig_out, recid)) signature h = elim (Bool-cases (ltb 1 recid)) [
  | inl large ↦ let no = rw large at h in cc
  | inr small ↦
      let same = some-injective _ _ (rw small at h) in
      let low : recid ≤ 1 = ltb→ge 1 recid small in
      (
        sig_out,
        ap (λ n. some (sig_out, n)) (ap Signature.v same),
        subst (λ n. n ≤ 1) (ap Signature.v same) low,
        sym (ap Signature.r same),
        sym (ap Signature.s same),
      )
]

sign_hash-some :
    (libs : Libraries) (key hash : List ℕ) (signature : Signature)
    → sign_hash libs key hash ≡ some signature
    → (sig_out : List ℕ) × (libs.sign_recoverable hash key ≡ some (sig_out, signature.v))
      × (signature.v ≤ 1)
      × (signature.r ≡ take 32 sig_out)
      × (signature.s ≡ take 32 (drop 32 sig_out))
unfolding sign_hash
sign_hash-some libs key hash signature h = signed_from (libs.sign_recoverable hash key) signature h

view-signed_fields :
    (memory : Bool) (tx : Tx) (access_list : Option RlpValues) (signature : Signature)
    → HasArrays tx
    → All IsByte signature.r
    → All IsByte signature.s
    → build_access_list memory tx ≡ done access_list
    → view (
        rlp_list
          (some (append_values (unsigned_fields tx access_list) (signature_fields signature)))
          12)
      ≡ signed_item tx signature.v signature.r signature.s
unfolding build_access_list unsigned_fields signature_fields
view-signed_fields memory tx access_list signature ((l₁, h₁), (l₂, h₂), (l₃, h₃)) hr hs built =
    let listed = view-access_list memory (entries_of tx.access_list) access_list built in
    rw
      (
        view-twelve,
        view-number tx.chain_id,
        view-number tx.nonce,
        view-number tx.gas_limit,
        view-number signature.v,
        amount-lem tx.max_priority_fee_per_gas h₁,
        amount-lem tx.max_fee_per_gas h₂,
        amount-lem tx.value h₃,
        amount-lem signature.r hr,
        amount-lem signature.s hs,
        view-recipient,
        listed,
      )
      refl

pub IsBuilt-IsTransaction :
    (sys : System) (tx : Tx) (key : Option (List ℕ)) (access_list : Option RlpValues) (v : RlpValue)
    → HasArrays tx
    → SignsBytes sys.libraries
    → build_access_list sys.list_memory tx ≡ done access_list
    → IsBuilt sys (unsigned_fields tx access_list) key v
    → IsTransaction sys tx key v
IsBuilt-IsTransaction sys tx none access_list v ((l₁, h₁), (l₂, h₂), (l₃, h₃)) bytes built same =
    ap view same ∙ view-unsigned_fields sys.list_memory tx access_list h₁ h₂ h₃ built
IsBuilt-IsTransaction sys tx (some key) access_list v arrays bytes built
      (hash, signature, hashed, signed, same) =
    let ((l₁, h₁), (l₂, h₂), (l₃, h₃)) = arrays in
    let nine = view-unsigned_fields sys.list_memory tx access_list h₁ h₂ h₃ built in
    let (digest, width) = eth_keccak256-some sys.libraries _ hash hashed in
    let (sig_out, made, low, first, second) =
      sign_hash-some sys.libraries key hash signature signed in
    let all = bytes hash key sig_out signature.v made in
    let r_bytes = subst (All IsByte) (sym first) (take-IsByte 32 sig_out all) in
    let s_bytes =
      subst (All IsByte) (sym second)
        (take-IsByte 32 (drop 32 sig_out) (drop-IsByte 32 sig_out all)) in
    let twelve =
      view-signed_fields sys.list_memory tx access_list signature arrays r_bytes s_bytes built in
    (
      hash,
      sig_out,
      signature.v,
      ap (λ i. sys.libraries.keccak_digest (0x02 ∷ encoding i)) (sym nine) ∙ digest,
      width,
      made,
      low,
      ap view same ∙ twelve ∙ ap₂ (signed_item tx signature.v) first second,
    )
