-- ===== src/LuaAbi/Follows.antt =====
-- kernel/lua_abi.c: what it is that a pass over the arguments repeats another one.
use evmxt.Prelude.{
  ℕ, zero, suc, ◌+◌, ◌-◌, ◌≤◌, ◌≡◌, ap, ◌∙◌, inl, inr, Bool, true, false, List, arith, ltb, ge→ltb,
  if◌then◌else◌, Bool-cases, Result, done, fail, bind, bind-eq-done,
}
use evmxt.Abi.{nil}
use evmxt.Lua.{LuaValue}
use evmxt.LuaAbi.{Failure, LuaState, arena_take}
use evmxt.LuaAbi.Build.{Built, Builder, build_children}

-- The second result follows the first: where the first succeeds, the storage in use has grown, and
-- if the capacity of the second is not exceeded, it succeeds with the same use.
abbrev pub Follows {ℓ} : {A : Type ℓ} → ℕ → ℕ → Built A → Built A → Type ℓ
Follows {A = A} capacity used r r' =
    (used' : ℕ) (a : A)
    → r ≡ done (used', a)
    → (used ≤ used') × (used' ≤ capacity → (a' : A) × (r' ≡ done (used', a')))

module _ {ℓ} {A : Type ℓ} (capacity : ℕ) where
  pub Follows-fail : (used : ℕ) (e : Failure) (r' : Built A) → Follows capacity used (fail e) r'
  Follows-fail used e r' used' a h = cc

  pub Follows-done :
      (used : ℕ) (a a' : A) → Follows capacity used (done (used, a)) (done (used, a'))
  Follows-done used a a' used' b h =
      let same : used ≡ used' = cc h in (omega arith, λ fits. (a', ap (λ u. done (u, a')) same))

  pub Follows-if :
      (b : Bool) (used : ℕ) (r s r' s' : Built A)
      → Follows capacity used r r'
      → Follows capacity used s s'
      → Follows capacity used (if b then r else s) (if b then r' else s')
  Follows-if true used r s r' s' hr hs = hr
  Follows-if false used r s r' s' hr hs = hs

  -- After the same step that takes no storage.
  pub Follows-bind {κ} :
      {B : Type κ} (used : ℕ) (m : Result Failure B) (f g : B → Built A)
      → ((b : B) → Follows capacity used (f b) (g b))
      → Follows capacity used (bind m f) (bind m g)
  Follows-bind used (done b) f g h = h b
  Follows-bind used (fail e) f g h = Follows-fail used e (fail e)

  pub Follows-then {κ} :
      {B : Type κ} (used : ℕ) (r r' : Built B) (f g : ℕ × B → Built A)
      → Follows capacity used r r'
      → ((u : ℕ) (b b' : B) → Follows capacity u (f (u, b)) (g (u, b')))
      → Follows capacity used (bind r f) (bind r' g)
  Follows-then used r r' f g first next used' a h =
      let ((u, b), done_first, rest) = bind-eq-done r f h in
      let (grows, same) = first u b done_first in
      let (grows', finish) = next u b b used' a rest in
      (
        omega arith,
        λ fits.
            let (b', done_second) = same (omega arith) in
            let (a', last) = (next u b b' used' a rest).1 fits in
            (a', ap (λ s. bind s g) done_second ∙ last),
      )

  pub Follows-arena :
      (limit used count : ℕ) (path : List ℕ) (f g : ℕ → Built A)
      → Follows capacity (used + count) (f (used + count)) (g (used + count))
      → Follows capacity used
          (bind (arena_take limit path used count) f)
          (bind (arena_take capacity path used count) g)
  unfolding arena_take
  Follows-arena limit used count path f g next used' a h =
      elim (Bool-cases (ltb (limit - used) count)) [
        | inl full ↦ let no = rw full at h in cc
        | inr room ↦
            let (grows, same) = next used' a (rw room at h) in
            (
              omega arith,
              λ fits.
                  let (a', last) = same fits in
                  (a', rw (ge→ltb (capacity - used) count (omega arith)) last),
            )
      ]

-- A builder that follows another one.
abbrev pub FollowsBuilder : ℕ → Builder → Builder → Type 0
FollowsBuilder capacity build build' =
    (descriptor value : LuaValue) (path : List ℕ) (used : ℕ)
    → Follows capacity used (build descriptor value path used) (build' descriptor value path used)

pub children-Follows :
    (capacity : ℕ) (build build' : Builder) (lua : LuaState) (tupled : Bool)
    (descriptors : LuaValue) (values n i : ℕ) (path : List ℕ) (used : ℕ)
    → FollowsBuilder capacity build build'
    → Follows capacity used
        (build_children build lua tupled descriptors values n i path used)
        (build_children build' lua tupled descriptors values n i path used)
unfolding build_children
children-Follows capacity build build' lua tupled descriptors values zero i path used follows =
    Follows-done capacity used nil nil
children-Follows capacity build build' lua tupled descriptors values (suc n) i path used follows =
    Follows-if capacity _ used _ _ _ _ (Follows-fail capacity used _ _) (
      Follows-then capacity used _ _ _ _ (follows _ _ _ used) λ u child child'.
        Follows-then capacity u _ _ _ _
          (children-Follows capacity build build' lua tupled descriptors values n (i + 1) path u
            follows)
          λ u' kids kids'. Follows-done capacity u' _ _)
