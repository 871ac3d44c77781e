-- ===== src/LuaAbi/Values.antt =====
-- kernel/lua_abi.c: the shape of the scalars and byte strings that are built.
use evmxt.Prelude.{
  leb, ◌^◌, codes, if-holds, ℕ, ◌-◌, ◌/◌, ◌≡◌, refl, subst, Bool, not, ◌&&◌, ◌||◌, List, Option,
  none, some, ltb, ◌==◌, if◌then◌else◌, length, take, Result, done, fail, bind,
}
use evmxt.Abi.{AbiValue, abi_uint64, abi_int64, abi_bytes, abi_string_n}
use evmxt.Abi.Spec.{IsShaped}
use evmxt.Hex.{hex_decode}
use evmxt.Hex
use evmxt.Lua.{
  LuaValue, boolean, integer, float, string, table, other, raw_get_index, lua_max_integer, Heap,
}
use evmxt.Lua
use evmxt.LuaAbi.{
  negative, exceeds_width, not_integer, Failure, failed, integer_field, kind_uint, kind_fixed_bytes,
  kind_bytes,
}
use evmxt.LuaAbi.Scalars.{
  decoded_address, build_address, decoded_uint, build_uint_hex, build_uint, build_int, build_number,
  sized_number, build_fixed_bytes, build_bytes, outside_limit, bad_width, bad_bytes_size, exceeds,
  is_hex_text, fresh,
}
use evmxt.LuaAbi.Build.{build_bool}
use evmxt.LuaAbi.Shapes.{
  uint64-IsShaped, int64-IsShaped, bool-IsShaped, uint_be-IsShaped, address-IsShaped,
  fixed_bytes-IsShaped,
}

-- What a result gives has a property.
abbrev pub Gives {ℓ κ} : {A : Type ℓ} → (A → Type κ) → Result Failure A → Type κ
Gives P (done a) = P a
Gives P (fail e) = Unit

pub Gives-bind {ℓ κ μ} :
    {A : Type ℓ} {B : Type κ} (P : B → Type μ) (m : Result Failure A) (f : A → Result Failure B)
    → ((a : A) → m ≡ done a → Gives P (f a))
    → Gives P (bind m f)
Gives-bind P (done a) f h = h a refl
Gives-bind P (fail e) f h = tt

pub Gives-if {ℓ κ} :
    {A : Type ℓ} (P : A → Type κ) (b : Bool) (r s : Result Failure A)
    → Gives P r
    → Gives P s
    → Gives P (if b then r else s)
Gives-if P b r s hr hs = if-holds (Gives P) b r s hr hs

pub Gives-done {ℓ κ} :
    {A : Type ℓ} (P : A → Type κ) (m : Result Failure A) {a : A} → Gives P m → m ≡ done a → P a
Gives-done P m h e = subst (Gives P) e h

abbrev pub Shaped : Result Failure AbiValue → Type 0
Shaped = Gives IsShaped

decoded_address-Shaped :
    (path : List ℕ) (decoded : Option (ℕ × List ℕ)) → Shaped (decoded_address path decoded)
unfolding decoded_address
decoded_address-Shaped path none = tt
decoded_address-Shaped path (some (n, bytes)) =
    Gives-if IsShaped (n == 20) (done _) _ (address-IsShaped bytes) tt

pub build_address-Shaped : (value : LuaValue) (path : List ℕ) → Shaped (build_address value path)
unfolding build_address
build_address-Shaped (string text) path =
    Gives-if IsShaped (not (length text == 42) || not (is_hex_text text)) _
      (decoded_address path (hex_decode text (fresh 20) 20)) tt
      (decoded_address-Shaped path (hex_decode text (fresh 20) 20))
build_address-Shaped LuaValue.nil path = tt
build_address-Shaped (boolean b) path = tt
build_address-Shaped (integer n) path = tt
build_address-Shaped (float s) path = tt
build_address-Shaped (table t) path = tt
build_address-Shaped other path = tt

decoded_uint-Shaped :
    (width : ℕ) (path : List ℕ) (decoded : Option (ℕ × List ℕ))
    → Shaped (decoded_uint width path decoded)
unfolding decoded_uint
decoded_uint-Shaped width path none = tt
decoded_uint-Shaped width path (some (n, bytes)) =
    Gives-if IsShaped (Hex.is_negative n || n == 0) _ _ tt (
      Gives-if IsShaped (exceeds (n - width / 8) bytes) _ (done _) tt
        (uint_be-IsShaped (take n bytes)))

build_uint_hex-Shaped :
    (text : List ℕ) (width : ℕ) (path : List ℕ) → Shaped (build_uint_hex text width path)
unfolding build_uint_hex
build_uint_hex-Shaped text width path =
    Gives-if IsShaped (ltb (length text) 3 || ltb 66 (length text) || not (is_hex_text text)) _ _ tt
      (decoded_uint-Shaped width path (hex_decode text (fresh 32) 32))

build_uint-Shaped : (value width : ℕ) (path : List ℕ) → Shaped (build_uint value width path)
unfolding build_uint
build_uint-Shaped value width path =
    Gives-if IsShaped (Lua.is_negative value) (failed path negative) _ tt (
      Gives-if IsShaped (ltb width 64 && leb (2 ^ width) value) (failed path exceeds_width)
        (done (abi_uint64 value)) tt (uint64-IsShaped value))

build_int-Shaped : (value width : ℕ) (path : List ℕ) → Shaped (build_int value width path)
unfolding build_int
build_int-Shaped value width path =
    Gives-if IsShaped (ltb width 64 && outside_limit value (2 ^ (width - 1)))
      (failed path exceeds_width) (done (abi_int64 value)) tt (int64-IsShaped value)

pub build_number-Shaped :
    (kind width : ℕ) (value : LuaValue) (path : List ℕ)
    → Shaped (build_number kind width value path)
unfolding build_number
build_number-Shaped kind width (string text) path =
    Gives-if IsShaped (kind == kind_uint) (build_uint_hex text width path) (failed path not_integer)
      (build_uint_hex-Shaped text width path) tt
build_number-Shaped kind width (integer value) path =
    Gives-if IsShaped (kind == kind_uint) (build_uint value width path) (build_int value width path)
      (build_uint-Shaped value width path) (build_int-Shaped value width path)
build_number-Shaped kind width LuaValue.nil path = tt
build_number-Shaped kind width (boolean b) path = tt
build_number-Shaped kind width (float s) path = tt
build_number-Shaped kind width (table t) path = tt
build_number-Shaped kind width other path = tt

pub sized_number-Shaped :
    (kind : ℕ) (width : Option ℕ) (value : LuaValue) (path : List ℕ)
    → Shaped (sized_number kind width value path)
sized_number-Shaped kind none value path = tt
sized_number-Shaped kind (some width) value path =
    Gives-if IsShaped (bad_width width) _ (build_number kind width value path) tt
      (build_number-Shaped kind width value path)

build_fixed_bytes-Shaped :
    (width : Option ℕ) (text path : List ℕ) → Shaped (build_fixed_bytes width text path)
unfolding build_fixed_bytes
build_fixed_bytes-Shaped none text path = tt
build_fixed_bytes-Shaped (some width) text path =
    Gives-if IsShaped (bad_bytes_size width) _ _ tt
      (Gives-if IsShaped (length text == width) (done _) _ (fixed_bytes-IsShaped text) tt)

pub build_bytes-Shaped :
    (heap : Heap) (t : ℕ) (value : LuaValue) (kind : ℕ) (path : List ℕ)
    → Shaped (build_bytes heap t value kind path)
unfolding build_bytes abi_bytes abi_string_n
build_bytes-Shaped heap t (string text) kind path =
    let size = integer_field heap t (codes "size") in
    Gives-if IsShaped (kind == kind_fixed_bytes) (build_fixed_bytes size text path) _
      (build_fixed_bytes-Shaped size text path)
      (Gives-if IsShaped (kind == kind_bytes) (done _) (done _) tt tt)
build_bytes-Shaped heap t LuaValue.nil kind path = tt
build_bytes-Shaped heap t (boolean b) kind path = tt
build_bytes-Shaped heap t (integer n) kind path = tt
build_bytes-Shaped heap t (float s) kind path = tt
build_bytes-Shaped heap t (table t') kind path = tt
build_bytes-Shaped heap t other kind path = tt

pub build_bool-Shaped : (value : LuaValue) (path : List ℕ) → Shaped (build_bool value path)
build_bool-Shaped (boolean b) path = bool-IsShaped (if b then 1 else 0)
build_bool-Shaped LuaValue.nil path = tt
build_bool-Shaped (integer n) path = tt
build_bool-Shaped (float s) path = tt
build_bool-Shaped (string s) path = tt
build_bool-Shaped (table t) path = tt
build_bool-Shaped other path = tt
