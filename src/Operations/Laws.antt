-- ===== src/Operations/Laws.antt =====
-- kernel/operations.c: attempts taken apart, and hexadecimal text in and out.
use evmxt.Prelude.{
  ◌⊎◌, ◌||◌, ℕ, ◌+◌, ◌*◌, ◌/◌, ◌%◌, ◌≤◌, ◌<◌, ◌≡◌, ◌≢◌, refl, sym, ap, ◌∙◌, inl, inr, Bool, true,
  false, List, [], ◌∷◌, ◌++◌, Option, none, some, arith, length, take, take_front, drop,
  length-replicate, length-append_bytes, All, IsByte, Bool-cases, ◌==◌, ==_iff,
}
use evmxt.Memory.{splice}
use evmxt.Memory.Laws.{splice_whole, splice-zero}
use evmxt.Hex.{hex_digit, hex_encode, hex_decode, u32, minus_one}
use evmxt.Hex
use evmxt.Hex.Spec.{digits_value, text_digits, hex_digits, hex_text}
use evmxt.Hex.Encode.{length-hex_digits, hex_encode_lem, hex_decode-hex_encode}
use evmxt.Hex.Text.{hex_decode_cases}
use evmxt.Rpc.{c_string}
use evmxt.Operations.{
  Context, Attempt, gives, refused, stuck, ◌>>?◌, expect, access, require, Outcome, conclude, fresh,
  positive, exactly, decode_positive, decode_exactly, hex_string,
}

pub >>?-eq-gives {ℓ κ} :
    {A : Type ℓ} {B : Type κ} (m : Attempt A) (f : A → Attempt B) {b : B}
    → (m >>? f) ≡ gives b
    → (a : A) × (m ≡ gives a) × (f a ≡ gives b)
>>?-eq-gives (gives a) f h = (a, refl, h)
>>?-eq-gives refused f h = cc
>>?-eq-gives stuck f h = cc

abbrev given_or {ℓ} : {A : Type ℓ} → A → Attempt A → A
given_or b (gives a) = a
given_or b refused = b
given_or b stuck = b

pub gives-injective {ℓ} : {A : Type ℓ} (a b : A) → gives a ≡ gives b → a ≡ b
gives-injective a b h = ap (given_or a) h

pub require-eq-gives : (b : Bool) {u : Unit} → require b ≡ gives u → b ≡ true
require-eq-gives true h = refl
require-eq-gives false h = cc

pub require-then {ℓ} :
    {A : Type ℓ} (b : Bool) (m : Attempt A) {a : A}
    → (require b >>? λ _. m) ≡ gives a
    → (b ≡ true) × (m ≡ gives a)
require-then true m h = (refl, h)
require-then false m h = cc

pub expect-eq-gives {ℓ} : {A : Type ℓ} (o : Option A) {a : A} → expect o ≡ gives a → o ≡ some a
expect-eq-gives none h = cc
expect-eq-gives (some a) h = cc

pub access-eq-gives {ℓ} : {A : Type ℓ} (o : Option A) {a : A} → access o ≡ gives a → o ≡ some a
access-eq-gives none h = cc
access-eq-gives (some a) h = cc

-- What holds of the unchanged context and after every answer holds at the end.
pub conclude-holds {ℓ κ} :
    {A : Type ℓ} (P : Outcome → Type κ) (ctx : Context) (m : Attempt A) (f : A → Outcome)
    → ((answer : Attempt _) → P (record { context = ctx; answer = answer }))
    → ((a : A) → m ≡ gives a → P (f a))
    → P (conclude ctx m f)
conclude-holds P ctx (gives a) f unchanged after = after a refl
conclude-holds P ctx refused f unchanged after = unchanged refused
conclude-holds P ctx stuck f unchanged after = unchanged stuck

abbrev pub Unanswered {ℓ} : {A : Type ℓ} → Attempt A → Type 0
Unanswered (gives a) = ⊥
Unanswered refused = Unit
Unanswered stuck = Unit

-- Either everything was given, or nothing changes and there is no answer.
pub conclude-cases {ℓ} :
    {A : Type ℓ} (ctx : Context) (m : Attempt A) (f : A → Outcome)
    → ((a : A) × (m ≡ gives a) × (conclude ctx m f ≡ f a))
      ⊎ (((conclude ctx m f).context ≡ ctx) × Unanswered (conclude ctx m f).answer)
conclude-cases ctx (gives a) f = inl (a, refl, refl)
conclude-cases ctx refused f = inr (refl, tt)
conclude-cases ctx stuck f = inr (refl, tt)

pub digit_visible : (n : ℕ) → n < 16 → (hex_digit n == 0) ≡ false
digit_visible n h = ground arith

c_string-hex_digits :
    (bs rest : List ℕ) → All IsByte bs → c_string (hex_digits bs ++ (0 ∷ rest)) ≡ hex_digits bs
unfolding c_string hex_digits
c_string-hex_digits [] rest hs = refl
c_string-hex_digits (b ∷ bs) rest (hb, hs) =
    rw
      (
        digit_visible (b / 16) (omega arith),
        digit_visible (b % 16) (omega arith),
        c_string-hex_digits bs rest hs,
      )
      refl

pub c_string-hex_text :
    (bs : List ℕ) → All IsByte bs → c_string (hex_text bs ++ (0 ∷ [])) ≡ hex_text bs
unfolding c_string
c_string-hex_text bs hs = rw (c_string-hex_digits bs [] hs) refl

pub hex_string_lem : (bytes : List ℕ) → All IsByte bytes → hex_string bytes ≡ gives (hex_text bytes)
unfolding hex_string
hex_string_lem bytes hs =
    let size : length (hex_text bytes ++ (0 ∷ [])) ≡ length bytes * 2 + 3 =
      omega (arith, length-append_bytes (hex_text bytes) (0 ∷ []), length-hex_digits bytes) in
    let room = length-replicate {A = ℕ} (length bytes * 2 + 3) 0 in
    rw
      (
        hex_encode_lem bytes (fresh (length bytes * 2 + 3)) (omega arith),
        splice_whole (hex_text bytes ++ (0 ∷ [])) (fresh (length bytes * 2 + 3)) (omega arith),
        c_string-hex_text bytes hs,
      )
      refl

-- The digits of a text stand for the bytes.
abbrev pub Reads : List ℕ → List ℕ → Type 0
Reads text bytes = digits_value (text_digits text) ≡ some bytes

take_spliced : (bs : List ℕ) (n : ℕ) → length bs ≤ n → take (length bs) (splice 0 bs (fresh n)) ≡ bs
take_spliced bs n h =
    let room = length-replicate {A = ℕ} n 0 in
    rw (splice-zero bs (fresh n) (omega arith)) (take_front bs (drop (length bs) (fresh n)))

small_count : (n : ℕ) → n < 0x8000_0000 → n % u32 ≡ n
small_count n h = omega arith

positive-eq-gives :
    (count : ℕ) (bytes : List ℕ) {out : List ℕ}
    → positive (count, bytes) ≡ gives out
    → (0 < count) × (take count bytes ≡ out)
positive-eq-gives count bytes h = elim (Bool-cases (Hex.is_negative count || count == 0)) [
  | inl bad ↦ let no = rw bad at h in cc
  | inr good ↦ (ground (arith, good), let yes = rw good at h in cc)
]

exactly-eq-gives :
    (n count : ℕ) (bytes : List ℕ) {out : List ℕ}
    → exactly n (count, bytes) ≡ gives out
    → (count ≡ n) × (bytes ≡ out)
exactly-eq-gives n count bytes h = elim (Bool-cases (count == n)) [
  | inl good ↦ ((==_iff count n).0 good, let yes = rw good at h in cc)
  | inr bad ↦ let no = rw bad at h in cc
]

-- What `hex_decode` found, when it is read by a function that refuses -1.
decoded-Reads :
    (capacity : ℕ) (text : List ℕ) (read : ℕ × List ℕ → Attempt (List ℕ)) {bytes : List ℕ}
    → text ≢ []
    → All IsByte text
    → capacity < 0x8000_0000
    → ((out : List ℕ) → read (minus_one, out) ≢ gives bytes)
    → (access (hex_decode text (fresh capacity) capacity) >>? read) ≡ gives bytes
    → (bs : List ℕ) × Reads text bs
      × (length bs ≤ capacity)
      × (read (length bs, splice 0 bs (fresh capacity)) ≡ gives bytes)
decoded-Reads capacity text read ne hs small refuses h =
    let room = length-replicate {A = ℕ} capacity 0 in
    elim (hex_decode_cases text (fresh capacity) capacity ne hs (omega arith)) [
      | inl (bs, good, fits, result) ↦
          (bs, good, fits, rw (result, small_count (length bs) (omega arith)) at h)
      | inr (bad, (out, result)) ↦ absurd (refuses out (rw result at h))
    ]

pub decode_positive-Reads :
    (capacity : ℕ) (text : List ℕ) {bytes : List ℕ}
    → text ≢ []
    → All IsByte text
    → capacity < 0x8000_0000
    → decode_positive capacity text ≡ gives bytes
    → Reads text bytes × (0 < length bytes) × (length bytes ≤ capacity)
unfolding decode_positive
decode_positive-Reads capacity text ne hs small h =
    let (bs, good, fits, taken) =
      decoded-Reads capacity text positive ne hs small (λ out e. cc e) h in
    let (some_bytes, front) = positive-eq-gives (length bs) (splice 0 bs (fresh capacity)) taken in
    let same = sym (take_spliced bs capacity fits) ∙ front in
    (good ∙ ap some same, omega (arith, ap length same), omega (arith, ap length same))

pub decode_exactly-Reads :
    (n : ℕ) (text : List ℕ) {bytes : List ℕ}
    → text ≢ []
    → All IsByte text
    → n < 0x8000_0000
    → decode_exactly n text ≡ gives bytes
    → Reads text bytes × (length bytes ≡ n)
unfolding decode_exactly
decode_exactly-Reads n text ne hs small h =
    let (bs, good, fits, taken) =
      decoded-Reads n text (exactly n) ne hs small
        (λ out e. let same = (exactly-eq-gives n minus_one out e).0 in omega arith) h in
    let (size, whole) = exactly-eq-gives n (length bs) (splice 0 bs (fresh n)) taken in
    let room = length-replicate {A = ℕ} n 0 in
    let same = sym (splice_whole bs (fresh n) (omega arith)) ∙ whole in
    (good ∙ ap some same, omega (arith, ap length same))

-- The way back: text of exactly so many bytes.
pub decode_exactly-hex_text :
    (bytes : List ℕ)
    → All IsByte bytes
    → length bytes < 0x8000_0000
    → decode_exactly (length bytes) (hex_text bytes) ≡ gives bytes
unfolding decode_exactly
decode_exactly-hex_text bytes hs small =
    let n = length bytes in
    let room = length-replicate {A = ℕ} n 0 in
    let itself : (n == n) ≡ true = (==_iff n n).1 refl in
    rw
      (
        hex_decode-hex_encode bytes (fresh n) n hs (omega arith) (omega arith),
        small_count n small,
        itself,
        splice_whole bytes (fresh n) (omega arith),
      )
      refl
