-- ===== src/Community/Texts.antt =====
-- community.mjs: what the code asks of a text. JavaScript's `length` counts UTF-16 units, and `trim` takes the white
-- space off both ends.
use Prim.Native.Char.{code}
use oncm.Prelude.{
  utf16_length, ℕ, ◌≤◌, Bool, true, false, ◌||◌, ◌&&◌, leb, ◌==◌, if◌then◌else◌, String, chars,
  every_char, arith, Bool-cases, inl, inr,
}

-- white space and line terminators
unfoldable pub is_space : ℕ → Bool
is_space c =
    (leb 9 c && leb c 13)
    || (c == 32)
    || (c == 160)
    || (c == 5760)
    || (leb 8192 c && leb c 8202)
    || (c == 8232)
    || (c == 8233)
    || (c == 8239)
    || (c == 8287)
    || (c == 12288)
    || (c == 65279)

abbrev pub is_empty : String → Bool
is_empty String.[] = true
is_empty (String.◌∷◌ c s) = false

unfoldable pub trim_start : String → String
unfolding is_space
trim_start String.[] = String.[]
trim_start (String.◌∷◌ c s) = if is_space (code c) then trim_start s else String.◌∷◌ c s

unfoldable pub trim_end : String → String
unfolding is_space
trim_end String.[] = String.[]
trim_end (String.◌∷◌ c s) =
    let rest = trim_end s in
    if is_space (code c) && is_empty rest then String.[] else String.◌∷◌ c rest

unfoldable pub trim : String → String
unfolding trim_start trim_end
trim s = trim_end (trim_start s)

-- `[0-9a-f]`, in either case
unfoldable pub is_hex : ℕ → Bool
is_hex c = (leb 48 c && leb c 57) || (leb 97 c && leb c 102) || (leb 65 c && leb c 70)

-- `/^0x[0-9a-f]{64}$/i`, from the `0` and from the `x`
unfoldable pub after_zero : String → Bool
unfolding is_hex
after_zero String.[] = false
after_zero (String.◌∷◌ c s) =
    (code c == 120 || code c == 88) && every_char is_hex s && (chars s == 64)

unfoldable pub is_statement : String → Bool
unfolding after_zero
is_statement String.[] = false
is_statement (String.◌∷◌ c s) = (code c == 48) && after_zero s

length-trim_start-le : (s : String) → utf16_length (trim_start s) ≤ utf16_length s
unfolding trim_start utf16_length
length-trim_start-le String.[] = omega arith
length-trim_start-le (String.◌∷◌ c s) = elim (Bool-cases (is_space (code c))) [
  | inl e ↦ rw e (omega (arith, length-trim_start-le s))
  | inr e ↦ rw e (omega arith)
]

length-trim_end-le : (s : String) → utf16_length (trim_end s) ≤ utf16_length s
unfolding trim_end utf16_length
length-trim_end-le String.[] = omega arith
length-trim_end-le (String.◌∷◌ c s) =
    elim (Bool-cases (is_space (code c) && is_empty (trim_end s))) [
      | inl e ↦ rw (e, utf16_length) (omega arith)
      | inr e ↦ rw (e, utf16_length) (omega (arith, length-trim_end-le s))
    ]

pub length-trim-le : (s : String) → utf16_length (trim s) ≤ utf16_length s
unfolding trim
length-trim-le s = omega (arith, length-trim_end-le (trim_start s), length-trim_start-le s)
