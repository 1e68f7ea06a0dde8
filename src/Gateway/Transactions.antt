-- ===== src/Gateway/Transactions.antt =====
-- rpc-gateway.mjs, `validateRawTransaction`: what is known of a transaction that passes.
use oncm.Prelude.{
  ℕ, ◌≤◌, ◌<◌, ◌≡◌, refl, ap, inl, inr, Bool, true, false, ◌&&◌, not, Option, none, some, ltb, leb,
  ltb→lt, leb→le, ◌==◌, ==_iff, if◌then◌else◌, String, Result, ok, throw, ◌>>=◌, >>=-eq-ok,
  ok-injective, Option-cases,
}
use oncm.Gateway.Json.{Json, str, Error, require_that}
use oncm.Gateway.Hex.{bytes}
use oncm.Gateway.Params.{
  Library, Transaction, chain, gas_limit, raw_limit, decoded, sender_of, validate_raw_transaction,
}

pub not-true : (b : Bool) → not b ≡ true → b ≡ false
not-true true h = cc
not-true false h = refl

pub both : (a b : Bool) → (a && b) ≡ true → (a ≡ true) × (b ≡ true)
both true true h = (refl, refl)
both true false h = cc
both false b h = cc

-- The inversion of a test before the rest of a chain.
pub require-ok {ℓ} :
    {A : Type ℓ} (b : Bool) (k : Result Error A) {y : A}
    → (require_that b >>= λ _. k) ≡ ok y
    → (b ≡ true) × (k ≡ ok y)
require-ok true k h = (refl, h)
require-ok false k h = cc

-- What the library tells of a signed transaction that may be sent.
abbrev pub Sendable : Library → String → Type 0
Sendable lib raw =
    (tx : Transaction) × (who : String) × (lib.transaction_from raw ≡ some tx)
    × (tx.sender ≡ some who)
    × (tx.is_signed ≡ true)
    × (tx.chain_id ≡ chain)
    × (tx.is_canonical ≡ true)
    × (lib.is_dev_sender who ≡ false)
    × (0 < tx.gas_limit)
    × (tx.gas_limit ≤ gas_limit)

if-ok :
    (b : Bool) (e : Error) (s t : String)
    → ◌≡◌ {A = Result Error String} (if b then ok s else throw e) (ok t)
    → s ≡ t
if-ok true e s t h = ok-injective h
if-ok false e s t h = cc

bytes-str :
    (x : Json) (most : ℕ) (exact : Option ℕ) (s : String) → bytes x most exact ≡ ok s → x ≡ str s
unfolding bytes
bytes-str (str t) most exact s h = ap (λ u. str u) (if-ok _ _ t s h)
bytes-str Json.null most exact s h = cc
bytes-str (Json.bool b) most exact s h = cc
bytes-str (Json.num n d) most exact s h = cc
bytes-str (Json.arr xs) most exact s h = cc
bytes-str (Json.obj fs) most exact s h = cc

decoded-some :
    (lib : Library) (raw : String) (tx : Transaction)
    → decoded lib raw ≡ ok tx
    → lib.transaction_from raw ≡ some tx
unfolding decoded
decoded-some lib raw tx h = elim (Option-cases (lib.transaction_from raw)) [
  | inl e ↦ cc (rw (e, decoded) at h)
  | inr (t, e) ↦ cc (rw (e, decoded) at h, e)
]

sender_of-some : (tx : Transaction) (who : String) → sender_of tx ≡ ok who → tx.sender ≡ some who
unfolding sender_of
sender_of-some tx who h = elim (Option-cases (tx.sender)) [
  | inl e ↦ cc (rw (e, sender_of) at h)
  | inr (t, e) ↦ cc (rw (e, sender_of) at h, e)
]

pub validate_raw_transaction-Sendable :
    (lib : Library) (w : Bool) (x : Json) (who : String)
    → validate_raw_transaction lib w x ≡ ok who
    → (w ≡ true) × (raw : String) × (x ≡ str raw) × Sendable lib raw
unfolding validate_raw_transaction
validate_raw_transaction-Sendable lib false x who h = cc
validate_raw_transaction-Sendable lib true x who h =
    let (raw, is_raw, h1) = >>=-eq-ok _ _ h in
    let (tx, is_tx, h2) = >>=-eq-ok _ _ h1 in
    let (from, is_from, h3) = >>=-eq-ok _ _ h2 in
    let (signed, h4) = require-ok (leb tx.kind 2 && tx.is_signed) _ h3 in
    let (on_chain, h5) = require-ok (tx.chain_id == chain) _ h4 in
    let (canonical, h6) = require-ok tx.is_canonical _ h5 in
    let (not_dev, h7) = require-ok (not (lib.is_dev_sender from)) _ h6 in
    let (gas, h8) = require-ok (ltb 0 tx.gas_limit && leb tx.gas_limit gas_limit) _ h7 in
    (
      refl,
      raw,
      bytes-str x raw_limit none raw is_raw,
      (
        tx,
        from,
        decoded-some lib raw tx is_tx,
        sender_of-some tx from is_from,
        (both _ _ signed).1,
        (==_iff tx.chain_id chain).0 on_chain,
        canonical,
        not-true _ not_dev,
        ltb→lt 0 tx.gas_limit (both _ _ gas).0,
        leb→le tx.gas_limit gas_limit (both _ _ gas).1,
      ),
    )
