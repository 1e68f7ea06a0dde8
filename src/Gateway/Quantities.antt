-- ===== src/Gateway/Quantities.antt =====
-- rpc-gateway.mjs: a number that is written as a quantity is read back.
use Prim.Native.Char.{code}
use native.Mathlib.Omega.{pow_step}
use oncm.Prelude.{
  ℕ, zero, suc, ◌+◌, ◌*◌, ◌/◌, ◌%◌, ◌^◌, ◌≤◌, ◌<◌, ◌≡◌, refl, ap, ◌∙◌, inl, inr, true, false, some,
  leb, ltb, ◌==◌, String, utf16_length, without_prefix, ltb→lt, lt→ltb, Bool-cases, ok, arith,
}
use oncm.Gateway.Json.{str}
use oncm.Gateway.Hex.{
  digit_value, value_from, canonical_digits, hex_body, quantity_text, quantity, digit_char,
  hex_digits, hex_text,
}

digit_value-digit_char : (d : ℕ) → d < 16 → digit_value (code (digit_char d)) ≡ some d
unfolding digit_value digit_char
digit_value-digit_char zero h = refl
digit_value-digit_char (suc zero) h = refl
digit_value-digit_char (suc (suc zero)) h = refl
digit_value-digit_char (suc (suc (suc zero))) h = refl
digit_value-digit_char (suc (suc (suc (suc zero)))) h = refl
digit_value-digit_char (suc (suc (suc (suc (suc zero))))) h = refl
digit_value-digit_char (suc (suc (suc (suc (suc (suc zero)))))) h = refl
digit_value-digit_char (suc (suc (suc (suc (suc (suc (suc zero))))))) h = refl
digit_value-digit_char (suc (suc (suc (suc (suc (suc (suc (suc zero)))))))) h = refl
digit_value-digit_char (suc (suc (suc (suc (suc (suc (suc (suc (suc zero))))))))) h = refl
digit_value-digit_char (suc (suc (suc (suc (suc (suc (suc (suc (suc (suc zero)))))))))) h = refl
digit_value-digit_char (suc (suc (suc (suc (suc (suc (suc (suc (suc (suc (suc zero))))))))))) h =
    refl
digit_value-digit_char (suc (suc (suc (suc (suc (suc (suc (suc (suc (suc (suc (suc zero))))))))))))
      h =
    refl
digit_value-digit_char
      (suc (suc (suc (suc (suc (suc (suc (suc (suc (suc (suc (suc (suc zero))))))))))))) h =
    refl
digit_value-digit_char
      (suc (suc (suc (suc (suc (suc (suc (suc (suc (suc (suc (suc (suc (suc zero)))))))))))))) h =
    refl
digit_value-digit_char
      (suc (suc (suc (suc (suc (suc (suc (suc (suc (suc (suc (suc (suc (suc (suc zero)))))))))))))))
      h =
    refl
digit_value-digit_char
      (suc
        (suc (suc (suc (suc (suc (suc (suc (suc (suc (suc (suc (suc (suc (suc (suc n))))))))))))))))
      h =
    absurd (omega (arith, h))

value_from-digit :
    (n d : ℕ) (rest : String)
    → d < 16
    → value_from n (String.◌∷◌ (digit_char d) rest) ≡ value_from (n * 16 + d) rest
unfolding value_from
value_from-digit n d rest h = rw (digit_value-digit_char d h, value_from) refl

from_digit :
    (n d : ℕ) (rest : String) {m : ℕ}
    → d < 16
    → n * 16 + d ≡ m
    → value_from n (String.◌∷◌ (digit_char d) rest) ≡ value_from m rest
from_digit n d rest h e = value_from-digit n d rest h ∙ ap (λ k. value_from k rest) e

-- The digits of n before a text stand for n, with fuel enough.
value_from-hex_digits :
    (fuel n : ℕ) (rest : String)
    → n < 16 ^ suc fuel
    → value_from 0 (hex_digits fuel n rest) ≡ value_from n rest
unfolding hex_digits
value_from-hex_digits zero n rest h = from_digit 0 n rest (omega (arith, h)) (omega arith)
value_from-hex_digits (suc fuel) n rest h = elim (Bool-cases (ltb n 16)) [
  | inl small ↦ rw (small, hex_digits) (from_digit 0 n rest (ground arith) (omega arith))
  | inr large ↦
      rw (large, hex_digits)
        (value_from-hex_digits fuel (n / 16) (String.◌∷◌ (digit_char (n % 16)) rest)
            (omega (arith, h, pow_step 16 (suc fuel)))
          ∙ from_digit (n / 16) (n % 16) rest (omega arith) (omega arith))
]

digit_char-nonzero : (d : ℕ) → 0 < d → d < 16 → (code (digit_char d) == 48) ≡ false
unfolding digit_char
digit_char-nonzero zero z h = absurd (omega (arith, z))
digit_char-nonzero (suc zero) z h = refl
digit_char-nonzero (suc (suc zero)) z h = refl
digit_char-nonzero (suc (suc (suc zero))) z h = refl
digit_char-nonzero (suc (suc (suc (suc zero)))) z h = refl
digit_char-nonzero (suc (suc (suc (suc (suc zero))))) z h = refl
digit_char-nonzero (suc (suc (suc (suc (suc (suc zero)))))) z h = refl
digit_char-nonzero (suc (suc (suc (suc (suc (suc (suc zero))))))) z h = refl
digit_char-nonzero (suc (suc (suc (suc (suc (suc (suc (suc zero)))))))) z h = refl
digit_char-nonzero (suc (suc (suc (suc (suc (suc (suc (suc (suc zero))))))))) z h = refl
digit_char-nonzero (suc (suc (suc (suc (suc (suc (suc (suc (suc (suc zero)))))))))) z h = refl
digit_char-nonzero (suc (suc (suc (suc (suc (suc (suc (suc (suc (suc (suc zero))))))))))) z h = refl
digit_char-nonzero (suc (suc (suc (suc (suc (suc (suc (suc (suc (suc (suc (suc zero)))))))))))) z
      h =
    refl
digit_char-nonzero
      (suc (suc (suc (suc (suc (suc (suc (suc (suc (suc (suc (suc (suc zero))))))))))))) z h =
    refl
digit_char-nonzero
      (suc (suc (suc (suc (suc (suc (suc (suc (suc (suc (suc (suc (suc (suc zero)))))))))))))) z h =
    refl
digit_char-nonzero
      (suc (suc (suc (suc (suc (suc (suc (suc (suc (suc (suc (suc (suc (suc (suc zero)))))))))))))))
      z h =
    refl
digit_char-nonzero
      (suc
        (suc (suc (suc (suc (suc (suc (suc (suc (suc (suc (suc (suc (suc (suc (suc n))))))))))))))))
      z h =
    absurd (omega (arith, h))

digit_char-size :
    (d : ℕ) (rest : String)
    → d < 16
    → utf16_length (String.◌∷◌ (digit_char d) rest) ≡ 1 + utf16_length rest
unfolding digit_char utf16_length
digit_char-size zero rest h = refl
digit_char-size (suc zero) rest h = refl
digit_char-size (suc (suc zero)) rest h = refl
digit_char-size (suc (suc (suc zero))) rest h = refl
digit_char-size (suc (suc (suc (suc zero)))) rest h = refl
digit_char-size (suc (suc (suc (suc (suc zero))))) rest h = refl
digit_char-size (suc (suc (suc (suc (suc (suc zero)))))) rest h = refl
digit_char-size (suc (suc (suc (suc (suc (suc (suc zero))))))) rest h = refl
digit_char-size (suc (suc (suc (suc (suc (suc (suc (suc zero)))))))) rest h = refl
digit_char-size (suc (suc (suc (suc (suc (suc (suc (suc (suc zero))))))))) rest h = refl
digit_char-size (suc (suc (suc (suc (suc (suc (suc (suc (suc (suc zero)))))))))) rest h = refl
digit_char-size (suc (suc (suc (suc (suc (suc (suc (suc (suc (suc (suc zero))))))))))) rest h = refl
digit_char-size (suc (suc (suc (suc (suc (suc (suc (suc (suc (suc (suc (suc zero)))))))))))) rest
      h =
    refl
digit_char-size (suc (suc (suc (suc (suc (suc (suc (suc (suc (suc (suc (suc (suc zero)))))))))))))
      rest h =
    refl
digit_char-size
      (suc (suc (suc (suc (suc (suc (suc (suc (suc (suc (suc (suc (suc (suc zero)))))))))))))) rest
      h =
    refl
digit_char-size
      (suc (suc (suc (suc (suc (suc (suc (suc (suc (suc (suc (suc (suc (suc (suc zero)))))))))))))))
      rest h =
    refl
digit_char-size
      (suc
        (suc (suc (suc (suc (suc (suc (suc (suc (suc (suc (suc (suc (suc (suc (suc n))))))))))))))))
      rest h =
    absurd (omega (arith, h))

canonical-digit :
    (d : ℕ) (rest : String)
    → 0 < d
    → d < 16
    → canonical_digits (String.◌∷◌ (digit_char d) rest)
      ≡ value_from 0 (String.◌∷◌ (digit_char d) rest)
unfolding canonical_digits
canonical-digit d String.[] z h = refl
canonical-digit d (String.◌∷◌ c s) z h = rw (digit_char-nonzero d z h, canonical_digits) refl

-- The digits of a number above zero do not begin with a zero.
canonical-hex_digits :
    (fuel n : ℕ) (rest : String)
    → 0 < n
    → n < 16 ^ suc fuel
    → canonical_digits (hex_digits fuel n rest) ≡ value_from 0 (hex_digits fuel n rest)
unfolding hex_digits
canonical-hex_digits zero n rest z h = canonical-digit n rest z (omega (arith, h))
canonical-hex_digits (suc fuel) n rest z h = elim (Bool-cases (ltb n 16)) [
  | inl small ↦ rw (small, hex_digits) (canonical-digit n rest z (ltb→lt n 16 small))
  | inr large ↦
      rw (large, hex_digits)
        (canonical-hex_digits fuel (n / 16) (String.◌∷◌ (digit_char (n % 16)) rest) (ground arith)
          (omega (arith, h, pow_step 16 (suc fuel))))
]

size-hex_digits :
    (k fuel n : ℕ) (rest : String)
    → n < 16 ^ suc k
    → n < 16 ^ suc fuel
    → utf16_length (hex_digits fuel n rest) ≤ suc k + utf16_length rest
unfolding hex_digits
size-hex_digits k zero n rest h f = rw (digit_char-size n rest (omega (arith, f))) (omega arith)
size-hex_digits zero (suc fuel) n rest h f =
    rw (lt→ltb n 16 (omega (arith, h)), hex_digits, digit_char-size n rest (omega (arith, h)))
      (omega arith)
size-hex_digits (suc k) (suc fuel) n rest h f = elim (Bool-cases (ltb n 16)) [
  | inl small ↦ rw (small, hex_digits, digit_char-size n rest (ltb→lt n 16 small)) (omega arith)
  | inr large ↦
      let more =
        size-hex_digits k fuel (n / 16) (String.◌∷◌ (digit_char (n % 16)) rest)
          (omega (arith, h, pow_step 16 (suc k))) (omega (arith, f, pow_step 16 (suc fuel))) in
      rw (large, hex_digits) (omega (arith, more, digit_char-size (n % 16) rest (omega arith)))
]

fuel_enough : (n : ℕ) → n < 16 ^ suc n
fuel_enough zero = omega arith
fuel_enough (suc n) = omega (arith, fuel_enough n, pow_step 16 (suc n))

canonical-digits : (n : ℕ) → canonical_digits (hex_digits n n "") ≡ some n
unfolding hex_digits canonical_digits value_from
canonical-digits zero = refl
canonical-digits (suc n) =
    canonical-hex_digits (suc n) (suc n) "" (omega arith) (fuel_enough (suc n))
    ∙ value_from-hex_digits (suc n) (suc n) "" (fuel_enough (suc n))

short-digits : (m : ℕ) → m ≤ 64 → leb (1 + (1 + m)) 66 ≡ true
short-digits m h = ground arith

-- The test of a text's size and the reading of its digits, with the text apart.
read :
    (body : String) (n : ℕ)
    → leb (1 + (1 + utf16_length body)) 66 ≡ true
    → canonical_digits body ≡ some n
    → quantity (str (String.◌∷◌ "0" (String.◌∷◌ "x" body))) ≡ ok n
unfolding quantity quantity_text hex_body without_prefix utf16_length
read body n short e = cc (short, e)

-- A number below 16 ^ 64, which is what 32 bytes hold, is read back from the text that it is forwarded as.
pub quantity-hex_text : (n : ℕ) → n < 16 ^ 64 → quantity (str (hex_text n)) ≡ ok n
unfolding hex_text utf16_length
quantity-hex_text n h =
    read (hex_digits n n "") n (short-digits _ (size-hex_digits 63 n n "" h (fuel_enough n)))
      (canonical-digits n)
