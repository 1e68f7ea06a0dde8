-- ===== src/Gateway/Admitted.antt =====
-- rpc-gateway.mjs: what an envelope that `validateRpcEnvelope` returns is known to hold.
use oncm.Prelude.{
  ℕ, suc, ◌≤◌, ◌<◌, ◌≡◌, refl, sym, ap, subst, ◌≢◌, inl, inr, Bool, true, false, ◌&&◌, ◌||◌, not,
  some, List, [], ◌∷◌, length, All, ltb, leb, ltb→lt, leb→le, ==_iff, if◌then◌else◌, String,
  is_same, is_same_iff, includes, get_elem?, Result, ok, throw, ◌>>=◌, >>=-eq-ok, ok-injective,
  Option-cases, arith,
}
use oncm.Gateway.Json.{Json, str, Error, no_method, require_that, fields_of, count, text_of, member}
use oncm.Gateway.Params.{Library, required}
use oncm.Gateway.Envelope.{
  RequestId, is_same_id, is_id_among, Call, Envelope, plain_methods, account_methods, hash_methods,
  block_methods, run_methods, param, check_method, check_raw, check_request, check_requests,
  check_account, check_storage, check_hash, check_block, check_run, check_fee_history, check_logs,
  id_of, params_of, is_array, as_list, validate_rpc_envelope, request_keys,
}
use oncm.Gateway.Transactions.{
  not-true, both, require-ok, Sendable, validate_raw_transaction-Sendable,
}

-- The methods that the gateway offers.
abbrev pub is_offered : String → Bool
is_offered m =
    includes plain_methods m
    || includes account_methods m
    || is_same m "eth_getStorageAt"
    || includes hash_methods m
    || includes block_methods m
    || includes run_methods m
    || is_same m "eth_feeHistory"
    || is_same m "eth_getLogs"
    || is_same m "eth_sendRawTransaction"

one_of {ℓ} :
    {A : Type ℓ} (a b c d e f g h i : Bool) (x1 x2 x3 x4 x5 x6 x7 x8 x9 : Result Error A) (y : A)
    → (if a
        then x1
        else if b
        then x2
        else if c
        then x3
        else if d
        then x4
        else if e
        then x5
        else if f
        then x6
        else if g
        then x7
        else if h
        then x8
        else if i
        then x9
        else throw no_method)
      ≡ ok y
    → (a || b || c || d || e || f || g || h || i) ≡ true
one_of a b c d e f g h i x1 x2 x3 x4 x5 x6 x7 x8 x9 y k = ground arith

-- A checked request: an offered method, where a signed transaction stands alone, may be written, and may be sent.
abbrev pub Checked : Library → Bool → Bool → Call → Type 0
Checked lib w is_batch c =
    (is_offered c.method ≡ true)
    × (c.method ≡ "eth_sendRawTransaction"
        → (is_batch ≡ false)
          × (w ≡ true)
          × (raw : String) × (get_elem? c.params 0 ≡ some (str raw))
          × Sendable lib raw)

check_method-offered :
    (lib : Library) (w is_batch : Bool) (m : String) (x : Json) (ps : List Json)
    → check_method lib w is_batch m x ≡ ok ps
    → is_offered m ≡ true
unfolding check_method
check_method-offered lib w is_batch m x ps h =
    one_of (includes plain_methods m) (includes account_methods m) (is_same m "eth_getStorageAt")
      (includes hash_methods m) (includes block_methods m) (includes run_methods m)
      (is_same m "eth_feeHistory") (is_same m "eth_getLogs") (is_same m "eth_sendRawTransaction")
      (count x 0 0) (count x 2 2 >>= check_account lib) (count x 3 3 >>= check_storage lib)
      (count x 1 1 >>= check_hash) (count x 2 2 >>= check_block (is_same m "eth_getBlockByHash"))
      (count x 1 2 >>= check_run lib) (count x 3 3 >>= check_fee_history)
      (count x 1 1 >>= check_logs lib)
      (require_that (not is_batch) >>= (λ _. count x 1 1) >>= check_raw lib w) ps h

param-some : (k : ℕ) (xs : List Json) (x : Json) → param k xs ≡ ok x → get_elem? xs k ≡ some x
unfolding param required
param-some k xs x h = elim (Option-cases (get_elem? xs k)) [
  | inl e ↦ cc (rw (e, param, required) at h)
  | inr (t, e) ↦ cc (rw (e, param, required) at h, e)
]

check_raw-Sendable :
    (lib : Library) (w : Bool) (xs ps : List Json)
    → check_raw lib w xs ≡ ok ps
    → (w ≡ true) × (raw : String) × (get_elem? ps 0 ≡ some (str raw)) × Sendable lib raw
unfolding check_raw
check_raw-Sendable lib w xs ps h =
    let (who, h1, same) = >>=-eq-ok _ _ h in
    let (x, is_x, h2) = >>=-eq-ok _ _ h1 in
    let (writes, raw, is_raw, sendable) = validate_raw_transaction-Sendable lib w x who h2 in
    (writes, raw, rw (ok-injective same) at (rw is_raw at (param-some 0 xs x is_x)), sendable)

sent-alone :
    (lib : Library) (w is_batch : Bool) (x : Json) (ps : List Json)
    → check_method lib w is_batch "eth_sendRawTransaction" x ≡ ok ps
    → (is_batch ≡ false)
      × (w ≡ true)
      × (raw : String) × (get_elem? ps 0 ≡ some (str raw))
      × Sendable lib raw
unfolding check_method
sent-alone lib w is_batch x ps h =
    let (xs, h1, h2) = >>=-eq-ok _ (check_raw lib w) h in
    let (single, h3) = require-ok (not is_batch) (count x 1 1) h1 in
    let (writes, raw, is_raw, sendable) = check_raw-Sendable lib w xs ps h2 in
    (not-true _ single, writes, raw, is_raw, sendable)

abbrev pub Differ : RequestId → List Call → Type 0
Differ x [] = Unit
Differ x (c ∷ cs) = (x ≢ c.id) × Differ x cs

abbrev pub AllDiffer : List Call → Type 0
AllDiffer [] = Unit
AllDiffer (c ∷ cs) = Differ c.id cs × AllDiffer cs

abbrev pub AllChecked : Library → Bool → Bool → List Call → Type 0
AllChecked lib w is_batch cs = All (Checked lib w is_batch) cs

is_same_id_refl : (x : RequestId) → is_same_id x x ≡ true
is_same_id_refl (RequestId.text s) = (is_same_iff s s).1 refl
is_same_id_refl (RequestId.whole n) = (==_iff n n).1 refl
is_same_id_refl (RequestId.negative n) = (==_iff n n).1 refl

check_request-Checked :
    (lib : Library) (w is_batch : Bool) (seen : List RequestId) (x : Json) (c : Call)
    → check_request lib w is_batch seen x ≡ ok c
    → (is_id_among seen c.id ≡ false) × Checked lib w is_batch c
unfolding check_request
check_request-Checked lib w is_batch seen x c h =
    let (fs, _, h1) = >>=-eq-ok (fields_of x request_keys) _ h in
    let (version, _, h2) = >>=-eq-ok (required (member "jsonrpc" fs) >>= text_of) _ h1 in
    let (_, h3) = require-ok (is_same version "2.0") _ h2 in
    let (given, _, h4) = >>=-eq-ok (required (member "id" fs) >>= id_of) _ h3 in
    let (fresh, h5) = require-ok (not (is_id_among seen given)) _ h4 in
    let (m, _, h6) = >>=-eq-ok (required (member "method" fs) >>= text_of) _ h5 in
    let (ps, is_ps, h7) = >>=-eq-ok (check_method lib w is_batch m (params_of fs)) _ h6 in
    subst (λ (d : Call). (is_id_among seen d.id ≡ false) × Checked lib w is_batch d)
      {x = record { id = given; method = m; params = ps }} (ok-injective h7)
      (
        not-true _ fresh,
        (
          check_method-offered lib w is_batch m (params_of fs) ps is_ps,
          λ same.
              sent-alone lib w is_batch (params_of fs) ps
                (subst (λ n. check_method lib w is_batch n (params_of fs) ≡ ok ps) same is_ps),
        ),
      )

check_requests-Differ :
    (lib : Library) (w is_batch : Bool) (seen : List RequestId) (xs : List Json) (cs : List Call)
    (x : RequestId)
    → check_requests lib w is_batch seen xs ≡ ok cs
    → is_id_among seen x ≡ true
    → Differ x cs
unfolding check_requests
check_requests-Differ lib w is_batch seen [] cs x h k = rw (sym (ok-injective h)) tt
check_requests-Differ lib w is_batch seen (y ∷ ys) cs x h k =
    let (c, is_c, h1) = >>=-eq-ok _ _ h in
    let (rest, is_rest, h2) = >>=-eq-ok _ _ h1 in
    let (fresh, _) = check_request-Checked lib w is_batch seen y c is_c in
    subst (Differ x) {x = c ∷ rest} (ok-injective h2) (
      (λ (same : x ≡ c.id). cc (rw same at k, fresh)),
      check_requests-Differ lib w is_batch (c.id ∷ seen) ys rest x is_rest
          (still (is_same_id c.id x) k),
    )
  where
    still : (b : Bool) → is_id_among seen x ≡ true → (if b then true else is_id_among seen x) ≡ true
    still true e = refl
    still false e = e

check_requests-AllChecked :
    (lib : Library) (w is_batch : Bool) (seen : List RequestId) (xs : List Json) (cs : List Call)
    → check_requests lib w is_batch seen xs ≡ ok cs
    → (length cs ≡ length xs) × AllDiffer cs × AllChecked lib w is_batch cs
unfolding check_requests
check_requests-AllChecked lib w is_batch seen [] cs h = rw (sym (ok-injective h)) (refl, tt, tt)
check_requests-AllChecked lib w is_batch seen (y ∷ ys) cs h =
    let (c, is_c, h1) = >>=-eq-ok _ _ h in
    let (rest, is_rest, h2) = >>=-eq-ok _ _ h1 in
    let (_, checked) = check_request-Checked lib w is_batch seen y c is_c in
    let (as_long, differ, all) =
      check_requests-AllChecked lib w is_batch (c.id ∷ seen) ys rest is_rest in
    subst (λ ds. (length ds ≡ length (y ∷ ys)) × AllDiffer ds × AllChecked lib w is_batch ds)
      {x = c ∷ rest} (ok-injective h2)
      (
        ap suc as_long,
        (
          check_requests-Differ lib w is_batch (c.id ∷ seen) ys rest c.id is_rest
              (rw (is_same_id_refl c.id) refl),
          differ,
        ),
        (checked, all),
      )

-- A validated envelope has 1 to 10 requests, as many as the input, with ids that differ from each other, for offered methods only. A signed
-- transaction is among them only outside a batch and with writes enabled, and then the library reads it as a signed transaction for the
-- chain, canonical, from no development sender and within the gas cap.
pub validate_rpc_envelope-AllChecked :
    (lib : Library) (w : Bool) (input : Json) (e : Envelope)
    → validate_rpc_envelope lib w input ≡ ok e
    → (0 < length e.calls)
      × (length e.calls ≤ 10)
      × (length e.calls ≡ length (as_list input))
      × (e.is_batch ≡ is_array input)
      × AllDiffer e.calls
      × AllChecked lib w e.is_batch e.calls
unfolding validate_rpc_envelope
validate_rpc_envelope-AllChecked lib w input e h =
    let (sized, h1) =
      require-ok (ltb 0 (length (as_list input)) && leb (length (as_list input)) 10) _ h in
    let (cs, is_cs, h2) = >>=-eq-ok _ _ h1 in
    let (as_long, differ, all) =
      check_requests-AllChecked lib w (is_array input) [] (as_list input) cs is_cs in
    rw (sym (ok-injective h2)) (
      rw as_long (ltb→lt 0 _ (both _ _ sized).0),
      rw as_long (leb→le _ 10 (both _ _ sized).1),
      as_long,
      refl,
      differ,
      all,
    )
