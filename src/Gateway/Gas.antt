-- ===== src/Gateway/Gas.antt =====
-- rpc-gateway.mjs, `call`: the gas of a simulated call as it is forwarded.
use oncm.Prelude.{
  ℕ, ◌≤◌, ◌<◌, ◌≡◌, refl, sym, inl, inr, ◌&&◌, Option, none, some, ltb, leb, ltb→lt, leb→le, String,
  is_same, is_same_iff, ok, >>=-eq-ok, ok-injective, Bool-cases, arith,
}
use oncm.Gateway.Json.{Json, str, obj, Fields, end, field, member, with_field, fields_of}
use oncm.Gateway.Hex.{quantity, hex_text}
use oncm.Gateway.Quantities.{quantity-hex_text}
use oncm.Gateway.Params.{Library, call, call_keys, check_call, check_access, gas_of, gas_limit}
use oncm.Gateway.Transactions.{require-ok, both}

member-with_field : (k : String) (v : Json) (fs : Fields) → member k (with_field k v fs) ≡ some v
unfolding with_field
member-with_field k v end = rw ((is_same_iff k k).1 refl) refl
member-with_field k v (field j w fs) = elim (Bool-cases (is_same j k)) [
  | inl e ↦ rw (e, with_field, e) refl
  | inr e ↦ rw (e, with_field, e) (member-with_field k v fs)
]

gas_of-capped : (o : Option Json) (gas : ℕ) → gas_of o ≡ ok gas → (0 < gas) × (gas ≤ gas_limit)
unfolding gas_of
gas_of-capped none gas h = let e = ok-injective h in (omega (arith, e), omega (arith, e))
gas_of-capped (some x) gas h =
    let (n, _, h1) = >>=-eq-ok (quantity x) _ h in
    let (capped, h2) = require-ok (ltb 0 n && leb n gas_limit) _ h1 in
    let e = ok-injective h2 in
    (rw e at (ltb→lt 0 n (both _ _ capped).0), rw e at (leb→le n gas_limit (both _ _ capped).1))

-- A call that passes its checks is forwarded with a gas field, whether or not it came with one, which reads back as a number from 1 to
-- the cap.
pub call-capped :
    (lib : Library) (x y : Json)
    → call lib x ≡ ok y
    → (fs : Fields) × (gas : ℕ) × (y ≡ obj fs)
      × (member "gas" fs ≡ some (str (hex_text gas)))
      × (quantity (str (hex_text gas)) ≡ ok gas)
      × (0 < gas)
      × (gas ≤ gas_limit)
unfolding call
call-capped lib x y h =
    let (fs, _, h1) = >>=-eq-ok (fields_of x call_keys) _ h in
    let (_, _, h2) = >>=-eq-ok (check_call lib fs) _ h1 in
    let (gas, is_gas, h3) = >>=-eq-ok (gas_of (member "gas" fs)) _ h2 in
    let (_, _, h4) = >>=-eq-ok (check_access lib fs) _ h3 in
    let (positive, capped) = gas_of-capped (member "gas" fs) gas is_gas in
    (
      with_field "gas" (str (hex_text gas)) fs,
      gas,
      sym (ok-injective h4),
      member-with_field "gas" (str (hex_text gas)) fs,
      quantity-hex_text gas (omega (arith, capped)),
      positive,
      capped,
    )
