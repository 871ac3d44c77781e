-- ===== src/Memory/Laws.antt =====
-- The laws of `splice`, and what `store` and `memcpy` do inside the buffer's bounds.
use evmxt.Prelude.{
  ℕ, zero, suc, ◌+◌, ◌≤◌, ◌<◌, ◌≡◌, refl, sym, ap, ◌∙◌, List, [], ◌∷◌, ◌++◌, Option, none, some,
  arith, length, drop,
}
use evmxt.Memory.{store, memcpy, splice, ◌>>=◌}

pub splice-nil : (p : ℕ) (buf : List ℕ) → splice p [] buf ≡ buf
unfolding splice
splice-nil zero [] = refl
splice-nil (suc p) [] = refl
splice-nil zero (x ∷ xs) = refl
splice-nil (suc p) (x ∷ xs) = ap (λ ys. x ∷ ys) (splice-nil p xs)

pub length-splice : (p : ℕ) (bs buf : List ℕ) → length (splice p bs buf) ≡ length buf
unfolding splice
length-splice zero bs [] = refl
length-splice (suc p) bs [] = refl
length-splice zero [] (x ∷ xs) = refl
length-splice zero (b ∷ bs) (x ∷ xs) = ap suc (length-splice zero bs xs)
length-splice (suc p) bs (x ∷ xs) = ap suc (length-splice p bs xs)

-- Two adjacent writes are one, in either order.
pub splice-append :
    (p q : ℕ) (cs bs buf : List ℕ)
    → q ≡ p + length cs
    → splice q bs (splice p cs buf) ≡ splice p (cs ++ bs) buf
unfolding splice
splice-append p q cs bs [] e = refl
splice-append zero zero [] bs (x ∷ xs) e = refl
splice-append zero (suc q) [] bs (x ∷ xs) e = absurd (omega arith)
splice-append zero zero (c ∷ cs) bs (x ∷ xs) e = absurd (omega arith)
splice-append zero (suc q) (c ∷ cs) bs (x ∷ xs) e =
    ap (λ ys. c ∷ ys) (splice-append zero q cs bs xs (omega arith))
splice-append (suc p) zero cs bs (x ∷ xs) e = absurd (omega arith)
splice-append (suc p) (suc q) cs bs (x ∷ xs) e =
    ap (λ ys. x ∷ ys) (splice-append p q cs bs xs (omega arith))

pub splice-append_back :
    (p q : ℕ) (cs bs buf : List ℕ)
    → q ≡ p + length cs
    → splice p cs (splice q bs buf) ≡ splice p (cs ++ bs) buf
unfolding splice
splice-append_back p q cs bs [] e = refl
splice-append_back zero zero [] bs (x ∷ xs) e = splice-nil zero (splice zero bs (x ∷ xs))
splice-append_back zero (suc q) [] bs (x ∷ xs) e = absurd (omega arith)
splice-append_back zero zero (c ∷ cs) bs (x ∷ xs) e = absurd (omega arith)
splice-append_back zero (suc q) (c ∷ cs) bs (x ∷ xs) e =
    ap (λ ys. c ∷ ys) (splice-append_back zero q cs bs xs (omega arith))
splice-append_back (suc p) zero cs bs (x ∷ xs) e = absurd (omega arith)
splice-append_back (suc p) (suc q) cs bs (x ∷ xs) e =
    ap (λ ys. x ∷ ys) (splice-append_back p q cs bs xs (omega arith))

-- A write at the front, within bounds, leaves the bytes behind it.
pub splice-zero :
    (bs buf : List ℕ) → length bs ≤ length buf → splice 0 bs buf ≡ bs ++ drop (length bs) buf
unfolding splice
splice-zero [] [] h = refl
splice-zero [] (x ∷ xs) h = refl
splice-zero (b ∷ bs) [] h = absurd (omega arith)
splice-zero (b ∷ bs) (x ∷ xs) h = ap (λ ys. b ∷ ys) (splice-zero bs xs (omega arith))

pub store_lem :
    (p v : ℕ) (buf : List ℕ) → p < length buf → store p v buf ≡ some (splice p (v ∷ []) buf)
unfolding store splice
store_lem p v [] h = absurd (omega arith)
store_lem zero v (x ∷ []) h = refl
store_lem zero v (x ∷ y ∷ xs) h = refl
store_lem (suc p) v (x ∷ xs) h = rw (store_lem p v xs (omega arith))

pub memcpy_lem :
    (p : ℕ) (bs buf : List ℕ)
    → p + length bs ≤ length buf
    → memcpy p bs buf ≡ some (splice p bs buf)
unfolding memcpy
memcpy_lem p [] buf h = rw splice-nil
memcpy_lem p (b ∷ bs) buf h =
    let within : p + 1 + length bs ≤ length (splice p (b ∷ []) buf) =
      omega (arith, length-splice p (b ∷ []) buf) in
    rw (store_lem p b buf (omega arith), memcpy_lem (p + 1) bs (splice p (b ∷ []) buf) within)
      (ap some (splice-append p (p + 1) (b ∷ []) bs buf (omega arith)))

pub >>=-eq-some {ℓ κ} :
    {A : Type ℓ} {B : Type κ} (m : Option A) (f : A → Option B) {b : B}
    → (m >>= f) ≡ some b
    → (a : A) × (m ≡ some a) × (f a ≡ some b)
>>=-eq-some none f h = cc
>>=-eq-some (some a) f h = (a, refl, h)

-- A write over the same place hides a shorter one.
pub splice_over :
    (p : ℕ) (bs cs buf : List ℕ)
    → length cs ≤ length bs
    → splice p bs (splice p cs buf) ≡ splice p bs buf
unfolding splice
splice_over p bs cs [] h = refl
splice_over zero [] [] (x ∷ xs) h = refl
splice_over zero [] (c ∷ cs) (x ∷ xs) h = absurd (omega arith)
splice_over zero (b ∷ bs) [] (x ∷ xs) h = refl
splice_over zero (b ∷ bs) (c ∷ cs) (x ∷ xs) h =
    ap (λ ys. b ∷ ys) (splice_over zero bs cs xs (omega arith))
splice_over (suc p) bs cs (x ∷ xs) h = ap (λ ys. x ∷ ys) (splice_over p bs cs xs h)

-- The terminator of one string is the first character of the next.
pub splice_terminator :
    (p q : ℕ) (bs cs buf : List ℕ) (c : ℕ)
    → q ≡ p + length bs
    → 0 < length cs
    → splice q cs (splice p (bs ++ (c ∷ [])) buf) ≡ splice p (bs ++ cs) buf
splice_terminator p q bs cs buf c e h =
    ap (splice q cs) (sym (splice-append p q bs (c ∷ []) buf e))
    ∙ splice_over q cs (c ∷ []) (splice p bs buf) (omega arith)
    ∙ splice-append p q bs cs buf e

-- A write into the middle of what was written before.
pub splice_middle :
    (p q : ℕ) (bs ys xs cs buf : List ℕ)
    → q ≡ p + length bs
    → length xs ≡ length ys
    → splice q xs (splice p (bs ++ (ys ++ cs)) buf) ≡ splice p (bs ++ (xs ++ cs)) buf
splice_middle p q bs ys xs cs buf e same =
    let base = splice p bs buf in
    ap (splice q xs) (sym (splice-append p q bs (ys ++ cs) buf e))
    ∙ ap (splice q xs) (sym (splice-append_back q (q + length ys) ys cs base refl))
    ∙ splice_over q xs ys (splice (q + length ys) cs base) (omega arith)
    ∙ splice-append_back q (q + length ys) xs cs base (omega arith)
    ∙ splice-append p q bs (xs ++ cs) buf e

-- What a function does to `ys` wherever they stand, it does in the middle of a larger write.
pub in_the_middle :
    (f : List ℕ → Option (List ℕ)) (p q : ℕ) (bs ys xs cs buf : List ℕ)
    → q ≡ p + length bs
    → length xs ≡ length ys
    → ((base : List ℕ) → length base ≡ length buf → f (splice q ys base) ≡ some (splice q xs base))
    → f (splice p (bs ++ (ys ++ cs)) buf) ≡ some (splice p (bs ++ (xs ++ cs)) buf)
in_the_middle f p q bs ys xs cs buf e same acts =
    let whole = splice p (bs ++ (ys ++ cs)) buf in
    ap f (sym (splice_middle p q bs ys ys cs buf e refl))
    ∙ acts whole (length-splice p (bs ++ (ys ++ cs)) buf)
    ∙ ap some (splice_middle p q bs ys xs cs buf e same)

-- A write over the whole buffer leaves nothing of it.
pub splice_whole : (bs buf : List ℕ) → length bs ≡ length buf → splice 0 bs buf ≡ bs
unfolding splice
splice_whole [] [] h = refl
splice_whole [] (x ∷ xs) h = absurd (omega arith)
splice_whole (b ∷ bs) [] h = absurd (omega arith)
splice_whole (b ∷ bs) (x ∷ xs) h = ap (λ ys. b ∷ ys) (splice_whole bs xs (omega arith))
