-- ===== src/Gateway/Hex.antt =====
-- rpc-gateway.mjs, `quantity` and `bytes`: numbers and bytes as hexadecimal texts.
use Prim.Native.Char.{Char, code}
use oncm.Prelude.{
  ℕ, zero, suc, ◌+◌, ◌-◌, ◌*◌, ◌/◌, ◌%◌, Bool, true, false, ◌&&◌, Option, none, some, leb, ltb,
  ◌==◌, if◌then◌else◌, String, utf16_length, without_prefix, Result, ok, throw,
}
use oncm.Gateway.Json.{Json, str, Error, invalid_params, text_of}

-- The value of a hexadecimal digit, in either case.
unfoldable pub digit_value : ℕ → Option ℕ
digit_value c =
    if leb 48 c && leb c 57
    then some (c - 48)
    else if leb 97 c && leb c 102
    then some (c - 87)
    else if leb 65 c && leb c 70
    then some (c - 55)
    else none

-- The number that digits stand for, after those that stand for the first argument.
unfoldable pub value_from : ℕ → String → Option ℕ
unfolding digit_value
value_from n String.[] = some n
value_from n (String.◌∷◌ c s) = elim (digit_value (code c)) [
  | none ↦ none
  | some d ↦ value_from (n * 16 + d) s
]

-- `0|[1-9a-f][0-9a-f]*`
unfoldable pub canonical_digits : String → Option ℕ
unfolding value_from
canonical_digits String.[] = none
canonical_digits (String.◌∷◌ c String.[]) = value_from 0 (String.◌∷◌ c String.[])
canonical_digits (String.◌∷◌ c (String.◌∷◌ d s)) =
    if code c == 48 then none else value_from 0 (String.◌∷◌ c (String.◌∷◌ d s))

-- What stands after `0x` or `0X`.
unfoldable pub hex_body : String → Option String
unfolding without_prefix
hex_body s = elim (without_prefix "0x" s) [
  | some digits ↦ some digits
  | none ↦ without_prefix "0X" s
]

-- `quantity`, of a text
unfoldable pub quantity_text : String → Option ℕ
unfolding canonical_digits hex_body utf16_length
quantity_text s = elim (hex_body s) [
  | none ↦ none
  | some digits ↦ if leb (utf16_length s) 66 then canonical_digits digits else none
]

unfoldable pub quantity : Json → Result Error ℕ
unfolding text_of quantity_text
quantity (str s) = elim (quantity_text s) [ none ↦ throw invalid_params | some n ↦ ok n ]
quantity _ = throw invalid_params

-- An even number of digits.
unfoldable pub is_byte_digits : String → Bool
unfolding digit_value
is_byte_digits String.[] = true
is_byte_digits (String.◌∷◌ c String.[]) = false
is_byte_digits (String.◌∷◌ c (String.◌∷◌ d s)) = elim (digit_value (code c)) [
  | none ↦ false
  | some _ ↦ elim (digit_value (code d)) [ none ↦ false | some _ ↦ is_byte_digits s ]
]

abbrev pub is_size : Option ℕ → ℕ → Bool
is_size none n = true
is_size (some exact) n = n == 2 + exact * 2

-- A text of at most that many bytes, and of the exact size that is asked for where there is one.
unfoldable pub is_bytes : String → ℕ → Option ℕ → Bool
unfolding is_byte_digits hex_body utf16_length
is_bytes s most exact = elim (hex_body s) [
  | none ↦ false
  | some digits ↦
      is_byte_digits digits && leb (utf16_length s) (2 + most * 2) && is_size exact (utf16_length s)
]

-- `bytes`
unfoldable pub bytes : Json → ℕ → Option ℕ → Result Error String
unfolding is_bytes
bytes (str s) most exact = if is_bytes s most exact then ok s else throw invalid_params
bytes _ most exact = throw invalid_params

-- A digit of `toString(16)`.
unfoldable pub digit_char : ℕ → Char
digit_char n =
    if n == 0
    then "0"
    else if n == 1
    then "1"
    else if n == 2
    then "2"
    else if n == 3
    then "3"
    else if n == 4
    then "4"
    else if n == 5
    then "5"
    else if n == 6
    then "6"
    else if n == 7
    then "7"
    else if n == 8
    then "8"
    else if n == 9
    then "9"
    else if n == 10
    then "a"
    else if n == 11
    then "b"
    else if n == 12
    then "c"
    else if n == 13
    then "d"
    else if n == 14
    then "e"
    else "f"

-- The digits of a number before a text; the number itself is fuel enough.
unfoldable pub hex_digits : ℕ → ℕ → String → String
unfolding digit_char
hex_digits zero n rest = String.◌∷◌ (digit_char n) rest
hex_digits (suc fuel) n rest =
    let more = hex_digits fuel (n / 16) (String.◌∷◌ (digit_char (n % 16)) rest) in
    if ltb n 16 then String.◌∷◌ (digit_char n) rest else more

-- `'0x' + n.toString(16)`
unfoldable pub hex_text : ℕ → String
unfolding hex_digits
hex_text n = String.◌∷◌ "0" (String.◌∷◌ "x" (hex_digits n n ""))
