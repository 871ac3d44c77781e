-- ===== src/Eip1559/Errors.antt =====
-- kernel/eip_1559_tx.c: the errors of building an access list.
use evmxt.Prelude.{ℕ, ◌+◌, ◌*◌, ◌≡◌, ◌≢◌, Bool, List, [], ◌∷◌, arith, length, Result, fail}
use evmxt.Eip1559.{
  Eip1559Status, ok, invalid_argument, overflow, no_space, no_memory, crypto_error, AccessEntry,
  count_descriptors, build_entries, key_count,
}

abbrev pub IsTxError : Eip1559Status → Type 0
IsTxError ok = ⊥
IsTxError no_space = ⊥
IsTxError _ = Unit

abbrev pub Errors {ℓ} : {A : Type ℓ} → Result Eip1559Status A → Type ℓ
Errors r = (r ≢ fail ok) × (r ≢ fail no_space)

pub Errors-IsTxError {ℓ} :
    {A : Type ℓ} (r : Result Eip1559Status A) (e : Eip1559Status)
    → Errors r
    → r ≡ fail e
    → IsTxError e
Errors-IsTxError r ok h eq = absurd (h.0 eq)
Errors-IsTxError r no_space h eq = absurd (h.1 eq)
Errors-IsTxError r invalid_argument h eq = tt
Errors-IsTxError r overflow h eq = tt
Errors-IsTxError r no_memory h eq = tt
Errors-IsTxError r crypto_error h eq = tt

Errors-count_descriptors : (es : List AccessEntry) (n : ℕ) → Errors (count_descriptors es n)
unfolding count_descriptors
Errors-count_descriptors [] n = ground arith
Errors-count_descriptors (e ∷ es) n =
    ground (arith, Errors-count_descriptors es (n + key_count e.storage_keys))

pub Errors-build_entries :
    (memory : Bool) (es : List AccessEntry) → Errors (build_entries memory es)
unfolding build_entries
Errors-build_entries memory [] = ground arith
Errors-build_entries memory (e ∷ es) =
    ground (arith, Errors-count_descriptors (e ∷ es) (3 * length (e ∷ es)))
