-- ===== src/Uniswap.antt =====
-- lua-lib/c-bindings/uniswap_v3.c: the price limit of a swap, as a square root over OpenSSL's big
-- numbers.
pub mod Libraries
pub mod Sqrt
pub mod Text
pub mod Price
pub mod Calls
mod Examples
use evmxt.Prelude.{
  ℕ, zero, suc, ◌+◌, ◌-◌, ◌*◌, ◌/◌, ◌%◌, ◌^◌, Bool, true, false, ◌&&◌, ◌||◌, not, List, [], ◌∷◌,
  ◌++◌, Option, none, some, ltb, leb, ◌==◌, if◌then◌else◌, length, take, drop, replicate,
}
use evmxt.Memory.{◌>>=◌, store}
use evmxt.Hex.{hex_digit}
use evmxt.Lua.{LuaValue, nil, boolean, integer, float, string, table, other, is_negative}

-- OpenSSL's functions on big numbers, which are natural numbers here; `none` is a failure, as of an
-- allocation. `BN_CTX_get` stands at three places.
pub record BigNumbers : Type 0 where
  pub get_operands : Bool
  pub get_quotient : Bool
  pub get_next : Bool
  pub bin2bn : List ℕ → Option ℕ
  pub hex2bn : List ℕ → Option (ℕ × ℕ)
  pub num_bits : ℕ → ℕ
  pub set_bit : ℕ → ℕ → Option ℕ
  pub lshift : ℕ → ℕ → Option ℕ
  pub rshift1 : ℕ → Option ℕ
  pub div : ℕ → ℕ → Option ℕ
  pub add : ℕ → ℕ → Option ℕ
  pub copy : ℕ → Option ℕ
  pub bn2binpad : ℕ → ℕ → Option (List ℕ)

-- With the number that PARSE_OK leaves in `result`.
pub data ParseResult : Type 0 where
  parse_ok : ℕ → ParseResult
  parse_invalid parse_zero parse_allocation_failed : ParseResult

-- The loop over `bytes[sizeof(bytes) - i - 1]`, which fills the array from its end.
unfoldable pub integer_bytes : ℕ → ℕ → ℕ → List ℕ → List ℕ
integer_bytes zero i value filled = filled
integer_bytes (suc rounds) i value filled =
    integer_bytes rounds (i + 1) value ((value / 256 ^ i % 256) ∷ filled)

abbrev pub parsed_bytes : Option ℕ → ParseResult
parsed_bytes none = parse_allocation_failed
parsed_bytes (some n) = parse_ok n

unfoldable pub parse_integer : BigNumbers → ℕ → ParseResult
unfolding integer_bytes
parse_integer bn value =
    if is_negative value || value == 0
    then parse_zero
    else parsed_bytes (bn.bin2bn (integer_bytes 8 0 value []))

unfoldable pub is_hex_digit : ℕ → Bool
is_hex_digit digit =
    (leb b'0' digit && leb digit b'9')
    || (leb b'a' digit && leb digit b'f')
    || (leb b'A' digit && leb digit b'F')

-- The loop from `i = 2` on.
unfoldable pub all_hex_digits : List ℕ → Bool
unfolding is_hex_digit
all_hex_digits [] = true
all_hex_digits (digit ∷ rest) = is_hex_digit digit && all_hex_digits rest

unfoldable pub parsed_hex : Option (ℕ × ℕ) → ℕ → ParseResult
parsed_hex none len = parse_allocation_failed
parsed_hex (some (n, read)) len =
    if not (read == len) then parse_allocation_failed else if n == 0 then parse_zero else parse_ok n

unfoldable pub parse_hex : BigNumbers → List ℕ → ParseResult
unfolding all_hex_digits parsed_hex
parse_hex bn (c₀ ∷ c₁ ∷ c₂ ∷ digits) =
    if ltb 66 (3 + length digits) || not (c₀ == b'0') || not (c₁ == b'x')
    then parse_invalid
    else if not (all_hex_digits (c₂ ∷ digits))
    then parse_invalid
    else parsed_hex (bn.hex2bn (c₂ ∷ digits)) (1 + length digits)
parse_hex bn _ = parse_invalid

unfoldable pub parse_positive_integer : BigNumbers → LuaValue → ParseResult
unfolding parse_integer parse_hex
parse_positive_integer bn (integer value) = parse_integer bn value
parse_positive_integer bn (string hex) = parse_hex bn hex
parse_positive_integer bn (float text) = parse_hex bn text
parse_positive_integer bn _ = parse_invalid

-- `next = floor((root + floor(value / root)) / 2)`
unfoldable pub newton_step : BigNumbers → ℕ → ℕ → Option ℕ
newton_step bn value root =
    bn.div value root >>= λ quotient. bn.add root quotient >>= λ sum. bn.rshift1 sum

-- How the loop ends: not within its fuel, with a failure, or with a root.
pub data Newton : Type 0 where
  stuck : Newton
  failed : Newton
  settled : ℕ → Newton

unfoldable pub newton_loop : BigNumbers → ℕ → ℕ → ℕ → Newton
newton_loop bn zero value root = stuck
newton_loop bn (suc fuel) value root = elim (newton_step bn value root) [
  | none ↦ failed
  | some next ↦
      if leb root next
      then settled root
      else (elim (bn.copy next) [ none ↦ failed | some copied ↦ newton_loop bn fuel value copied ])
]

abbrev pub newton_from : BigNumbers → ℕ → Option ℕ → Newton
newton_from bn value none = failed
newton_from bn value (some root) = newton_loop bn (suc root) value root

unfoldable pub integer_sqrt : BigNumbers → ℕ → Newton
integer_sqrt bn value =
    if not bn.get_next
    then failed
    else newton_from bn value (bn.set_bit 0 ((bn.num_bits value + 1) / 2))

-- `while (bytes[first] == 0) ++first;` leaves the bytes from `first` on; behind the last one it
-- reads out of bounds.
unfoldable pub first_nonzero : List ℕ → Option (List ℕ)
first_nonzero [] = none
first_nonzero (b ∷ bs) = if b == 0 then first_nonzero bs else some (b ∷ bs)

-- Two digits for each byte, from `output` on.
unfoldable pub encode_bytes : List ℕ → ℕ → List ℕ → Option (ℕ × List ℕ)
encode_bytes [] output encoded = some (output, encoded)
encode_bytes (b ∷ bs) output encoded =
    store output (hex_digit (b / 16)) encoded
    >>= store (output + 1) (hex_digit (b % 16))
    >>= encode_bytes bs (output + 2)

-- The first byte has one digit if it is less than 16.
unfoldable pub encode_shortest : List ℕ → List ℕ → Option (ℕ × List ℕ)
unfolding encode_bytes
encode_shortest [] encoded = none
encode_shortest (b ∷ bs) encoded =
    if ltb b 16
    then store 2 (hex_digit b) encoded >>= encode_bytes bs 3
    else encode_bytes (b ∷ bs) 2 encoded

-- `char encoded[42] = "0x";`
abbrev pub blank_text : List ℕ
blank_text = b'0' ∷ b'x' ∷ replicate 40 0

-- The text pushed; the outer `none` is an access out of bounds, the inner one a failure.
unfoldable pub push_bytes : Option (List ℕ) → Option (Option (List ℕ))
unfolding first_nonzero encode_shortest
push_bytes none = some none
push_bytes (some bytes) = first_nonzero bytes >>= λ rest.
    encode_shortest rest blank_text >>= λ (output, encoded). some (some (take output encoded))

unfoldable pub push_uint160_hex : BigNumbers → ℕ → Option (Option (List ℕ))
push_uint160_hex bn value = push_bytes (bn.bn2binpad value 20)

-- What the Lua function does: push a text, or raise an error; the first argument is `amount1`.
pub data SqrtPrice : Type 0 where
  pushed : List ℕ → SqrtPrice
  no_operands : SqrtPrice
  not_positive : Bool → SqrtPrice
  not_integer : Bool → SqrtPrice
  underflows exceeds not_computed : SqrtPrice

abbrev pub computed : Option (List ℕ) → SqrtPrice
computed none = not_computed
computed (some text) = pushed text

-- From the root on; `none` is a loop that does not end or an access out of bounds.
unfoldable pub price_root : BigNumbers → Newton → Option SqrtPrice
price_root bn stuck = none
price_root bn failed = some not_computed
price_root bn (settled root) =
    if ltb 160 (bn.num_bits root)
    then some exceeds
    else (push_uint160_hex bn root >>= λ text. some (computed text))

unfoldable pub price_quotient : BigNumbers → Option ℕ → Option SqrtPrice
price_quotient bn none = some not_computed
price_quotient bn (some quotient) =
    if quotient == 0
    then some underflows
    else if ltb 320 (bn.num_bits quotient)
    then some exceeds
    else price_root bn (integer_sqrt bn quotient)

-- From the parsed operands on.
unfoldable pub price_limit : BigNumbers → ℕ → ℕ → Option SqrtPrice
price_limit bn amount1 amount0 =
    if not bn.get_quotient
    then some not_computed
    else price_quotient bn (bn.lshift amount1 192 >>= λ scaled. bn.div scaled amount0)

abbrev pub blame : Bool → ParseResult → SqrtPrice
blame first parse_zero = not_positive first
blame first _ = not_integer first

abbrev pub both_parsed : BigNumbers → ParseResult → ParseResult → Option SqrtPrice
both_parsed bn (parse_ok amount1) (parse_ok amount0) = price_limit bn amount1 amount0
both_parsed bn parse_allocation_failed second = some no_operands
both_parsed bn (parse_ok amount1) parse_allocation_failed = some no_operands
both_parsed bn parse_invalid parse_allocation_failed = some no_operands
both_parsed bn parse_zero parse_allocation_failed = some no_operands
both_parsed bn (parse_ok amount1) second = some (blame false second)
both_parsed bn first second = some (blame true first)

unfoldable pub sqrt_price_limit_x96 : BigNumbers → LuaValue → LuaValue → Option SqrtPrice
sqrt_price_limit_x96 bn amount1 amount0 =
    if not bn.get_operands
    then some no_operands
    else both_parsed bn (parse_positive_integer bn amount1) (parse_positive_integer bn amount0)
