-- ===== src/Lua.antt =====
-- What the C code sees of Lua: values, and tables by reference into a heap that it only reads.
use evmxt.Prelude.{ℕ, Bool, true, false, ◌&&◌, List, [], ◌∷◌, ltb, ◌==◌, if◌then◌else◌}

-- An integer is its 64-bit pattern; a float is the text that `lua_tolstring` makes of it; `other` is
-- a function, a userdata or a thread.
pub data LuaValue : Type 0 where
  nil : LuaValue
  boolean : Bool → LuaValue
  integer : ℕ → LuaValue
  float : List ℕ → LuaValue
  string : List ℕ → LuaValue
  table : ℕ → LuaValue
  other : LuaValue

-- `LUA_MAXINTEGER`; a `lua_Integer` is negative from 2^63 on.
abbrev pub lua_max_integer : ℕ
lua_max_integer = 0x7fff_ffff_ffff_ffff

abbrev pub is_negative : ℕ → Bool
is_negative n = ltb lua_max_integer n

-- What `lua_next` enumerates, and what `lua_rawlen` answers, which is any border.
pub record Table : Type 0 where
  pub entries : List (LuaValue × LuaValue)
  pub raw_length : ℕ

abbrev pub Heap : Type 0
Heap = ℕ → Table

unfoldable pub same_text : List ℕ → List ℕ → Bool
same_text [] [] = true
same_text (a ∷ as₁) (b ∷ bs) = a == b && same_text as₁ bs
same_text _ _ = false

abbrev pub is_key_text : List ℕ → LuaValue → Bool
is_key_text name (string s) = same_text name s
is_key_text name _ = false

abbrev pub is_key_index : ℕ → LuaValue → Bool
is_key_index i (integer n) = i == n
is_key_index i _ = false

unfoldable pub find_entry : (LuaValue → Bool) → List (LuaValue × LuaValue) → LuaValue
find_entry is_key [] = nil
find_entry is_key ((key, value) ∷ rest) = if is_key key then value else find_entry is_key rest

-- `lua_rawget` with a string and `lua_rawgeti`, at a value that is a table.
abbrev pub raw_get_text : Heap → ℕ → List ℕ → LuaValue
raw_get_text heap t name = find_entry (is_key_text name) (heap t).entries

abbrev pub raw_get_index : Heap → ℕ → ℕ → LuaValue
raw_get_index heap t i = find_entry (is_key_index i) (heap t).entries
