-- ===== src/Gateway/Dispatch/Order.antt =====
-- rpc-gateway.mjs, `dispatch`: the answers are in the order of the requests, and a transaction is sent by permission only.
use oncm.Prelude.{
  ◌≤◌, ◌≡◌, refl, sym, ap, subst, ◌∙◌, inl, inr, Bool, true, false, ◌&&◌, ==_iff, Option, none,
  some, List, [], ◌∷◌, length, get_elem?, Among, All-Among, leb, leb→le, String, is_same,
  is_same_iff, Result, ok, throw, ok-injective, Result-cases, Bool-cases, arith,
}
use oncm.Gateway.Json.{Json, str, num, Fields, Error, member}
use oncm.Gateway.Admitted.{Checked, validate_rpc_envelope-AllChecked}
use oncm.Gateway.Transactions.{both, Sendable}
use oncm.Gateway.Params.{Library}
use oncm.Gateway.Envelope.{
  RequestId, text, whole, negative, Call, Envelope, validate_rpc_envelope, as_list, is_array,
}
use oncm.Gateway.Dispatch.{
  Wire, Outside, is_id, is_text, is_reply, id_json, forward, received, with_range, admit_calls,
  no_accounts, started, send_call, send_calls, permission, sized, send_admitted, no_wire, serve,
}
use oncm.Gateway.Dispatch.Sent.{
  Admits, same, by_range, Pairs, admit_calls-Pairs, Forwarded, serve-Forwarded, consed-ok,
  serve_or_not,
}

-- One answer for each request, with its id.
abbrev pub Answers : List Call → List Fields → Type 0
Answers [] [] = Unit
Answers (c ∷ cs) (fs ∷ fss) = (is_id c.id (member "id" fs) ≡ true) × Answers cs fss
Answers _ _ = ⊥

id_json-is_id : (x : RequestId) → is_id x (some (id_json x)) ≡ true
unfolding id_json
id_json-is_id (text s) = (is_same_iff s s).1 refl
id_json-is_id (whole n) = (==_iff n n).1 refl
id_json-is_id (negative n) = (==_iff n n).1 refl

is_reply-id : (c : Call) (fs : Fields) → is_reply c fs ≡ true → is_id c.id (member "id" fs) ≡ true
unfolding is_reply
is_reply-id c fs h =
    let tag = is_text "2.0" (member "jsonrpc" fs) in
    let named = is_id c.id (member "id" fs) in (both tag named (both (tag && named) _ h).0).1

received-id :
    (c : Call) (o : Option Json) (fs : Fields)
    → received c o ≡ ok fs
    → is_id c.id (member "id" fs) ≡ true
unfolding received
received-id c none fs h = cc
received-id c (some Json.null) fs h = cc
received-id c (some (Json.bool b)) fs h = cc
received-id c (some (num n d)) fs h = cc
received-id c (some (str s)) fs h = cc
received-id c (some (Json.arr xs)) fs h = cc
received-id c (some (Json.obj gs)) fs h = elim (Bool-cases (is_reply c gs)) [
  | inr bad ↦ cc (rw (bad, received) at h)
  | inl good ↦
      subst (λ x. is_id c.id (member "id" x) ≡ true) (ok-injective (rw (good, received) at h))
        (is_reply-id c gs good)
]

send_call-id :
    (out : Outside) (c : Call) (w : Wire) (fs : Fields)
    → (send_call out c w).1 ≡ ok fs
    → is_id c.id (member "id" fs) ≡ true
unfolding send_call forward started no_accounts
send_call-id out c w fs h = elim (Bool-cases (out.is_aborted (length w.sent))) [
  | inl late ↦ cc (rw (late, send_call) at h)
  | inr live ↦ elim (Bool-cases (is_same c.method "eth_accounts")) [
    | inl accounts ↦
        subst (λ gs. is_id c.id (member "id" gs) ≡ true)
          (ok-injective (rw (live, accounts, send_call) at h)) (id_json-is_id c.id)
    | inr other ↦
        received-id c (out.response (length w.sent) c) fs (rw (live, other, send_call) at h)
  ]
]

send_calls-Answers :
    (out : Outside) (cs : List Call) (w : Wire) (body : List Fields)
    → (send_calls out cs w).1 ≡ ok body
    → Answers cs body
unfolding send_calls
send_calls-Answers out [] w body h = subst (Answers []) (ok-injective h) tt
send_calls-Answers out (c ∷ cs) w body h = elim (Result-cases (send_call out c w).1) [
  | inl (e, bad) ↦ cc (rw (bad, send_calls) at h)
  | inr (fs, good) ↦
      let (rest, is_rest, is_body) =
        consed-ok fs (send_calls out cs (send_call out c w).0).1 (rw (good, send_calls) at h) in
      rw is_body
        (send_call-id out c w fs good, send_calls-Answers out cs (send_call out c w).0 rest is_rest)
]

Admits-id : (c d : Call) → Admits c d → d.id ≡ c.id
unfolding with_range
Admits-id c d (same e) = refl
Admits-id c d (by_range fs from to f a b) = refl

Pairs-Answers :
    (cs ds : List Call) (body : List Fields) → Pairs cs ds → Answers ds body → Answers cs body
Pairs-Answers [] [] body p a = a
Pairs-Answers (c ∷ cs) (d ∷ ds) (fs ∷ fss) (p, ps) (a, as') = (
  subst (λ x. is_id x (member "id" fs) ≡ true) (Admits-id c d p) a,
  Pairs-Answers cs ds fss ps as',
)
Pairs-Answers (c ∷ cs) (d ∷ ds) [] p a = absurd a
Pairs-Answers [] (d ∷ ds) body p a = absurd p
Pairs-Answers (c ∷ cs) [] body p a = absurd p

sized-ok :
    (out : Outside) (r : Result Error (List Fields)) (body : List Fields)
    → sized out r ≡ ok body
    → (r ≡ ok body) × (out.printed_size body ≤ 2097152)
unfolding sized
sized-ok out (throw e) body h = cc
sized-ok out (ok xs) body h = elim (Bool-cases (leb (out.printed_size xs) 2097152)) [
  | inr large ↦ cc (rw (large, sized) at h)
  | inl small ↦
      let e = ok-injective (rw (small, sized) at h) in
      (ap (λ ys. ok ys) e, rw e at (leb→le _ _ small))
]

send_admitted-parts :
    (out : Outside) (m : Wire × Result Error (List Call)) (body : List Fields)
    → (send_admitted out m).1 ≡ ok body
    → (ds : List Call) × (m.1 ≡ ok ds)
      × ((send_calls out ds m.0).1 ≡ ok body)
      × (out.printed_size body ≤ 2097152)
unfolding send_admitted
send_admitted-parts out (w, throw e) body h = cc
send_admitted-parts out (w, ok ds) body h =
    let (sent, small) = sized-ok out (send_calls out ds w).1 body h in (ds, refl, sent, small)

serve-parts :
    (out : Outside) (cs : List Call) (body : List Fields)
    → (serve out cs).1 ≡ ok body
    → (send_admitted out (admit_calls out cs no_wire)).1 ≡ ok body
unfolding serve
serve-parts out cs body h = elim (Result-cases (permission out cs)) [
  | inl (e, bad) ↦ cc (rw (bad, serve) at h)
  | inr (tt, good) ↦ rw (good, serve) at h
]

-- A successful answer has, for each request of the envelope and in their order, one object with the id of the request, and is within the
-- bound on its size.
pub serve-Answers :
    (out : Outside) (cs : List Call) (body : List Fields)
    → (serve out cs).1 ≡ ok body
    → Answers cs body × (out.printed_size body ≤ 2097152)
serve-Answers out cs body h =
    let (ds, admitted, sent, small) =
      send_admitted-parts out (admit_calls out cs no_wire) body (serve-parts out cs body h) in
    (
      Pairs-Answers cs ds body (admit_calls-Pairs out cs ds no_wire admitted)
          (send_calls-Answers out ds (admit_calls out cs no_wire).0 body sent),
      small,
    )

single : (input : Json) → is_array input ≡ false → length (as_list input) ≡ 1
single (Json.arr xs) h = cc
single Json.null h = refl
single (Json.bool b) h = refl
single (num n d) h = refl
single (str s) h = refl
single (Json.obj fs) h = refl

sent_as_is : (c d : Call) → Admits c d → d.method ≡ "eth_sendRawTransaction" → d ≡ c
unfolding with_range
sent_as_is c d (same e) h = refl
sent_as_is c d (by_range fs from to f a b) h = cc (rw h at f)

permission-some :
    (out : Outside) (c : Call) (cs : List Call)
    → c.method ≡ "eth_sendRawTransaction"
    → length cs ≡ 1
    → Among c cs
    → permission out cs ≡ ok tt
    → out.permitted ≡ some true
unfolding permission
permission-some out c [] h l (i, e) p = cc
permission-some out c (b ∷ a ∷ cs) h l m p = absurd (omega (arith, l))
permission-some out c (b ∷ []) h l m p = allowed out.permitted refl
  where
    sends : is_same b.method "eth_sendRawTransaction" ≡ true
    sends =
        (is_same_iff b.method "eth_sendRawTransaction").1
          (sym (All-Among (λ a. a.method ≡ b.method) c (b ∷ []) (refl, tt) m) ∙ h)

    allowed : (o : Option Bool) → out.permitted ≡ o → out.permitted ≡ some true
    allowed none e = cc (rw (sends, e, permission) at p)
    allowed (some true) e = e
    allowed (some false) e = cc (rw (sends, e, permission) at p)

sent_only :
    (out : Outside) (lib : Library) (w : Bool) (input : Json) (e : Envelope) (d : Call)
    → validate_rpc_envelope lib w input ≡ ok e
    → Among d (serve out e.calls).0.sent
    → d.method ≡ "eth_sendRawTransaction"
    → (permission out e.calls ≡ ok tt) × Among d e.calls
sent_only out lib w input e d h m sends = elim (serve_or_not out e.calls) [
  | inl nothing ↦ absurd (none_among (subst (λ (x : Wire). Among d x.sent) nothing m))
  | inr (permitted, _) ↦
      elim (All-Among (Forwarded e.calls) d (serve out e.calls).0.sent (serve-Forwarded out e.calls)
        m) [
          | inl is_head ↦ cc (
              (is_same_iff "eth_blockNumber" "eth_sendRawTransaction").1
                (sym (ap (λ (x : Call). x.method) is_head) ∙ sends))
          | inr (_, c, among, admits) ↦
              (permitted, subst (λ x. Among x e.calls) (sym (sent_as_is c d admits sends)) among)
        ]
]
  where
    none_among : Among d [] → ⊥
    none_among (i, none_there) = cc

-- When a signed transaction is forwarded, the envelope has no other request, the permission to write came in time, and the transaction is
-- a canonical one for the chain that no development sender has signed.
pub sent_permitted :
    (out : Outside) (lib : Library) (w : Bool) (input : Json) (e : Envelope) (d : Call)
    → validate_rpc_envelope lib w input ≡ ok e
    → Among d (serve out e.calls).0.sent
    → d.method ≡ "eth_sendRawTransaction"
    → (out.permitted ≡ some true)
      × (length e.calls ≡ 1)
      × (raw : String) × (get_elem? d.params 0 ≡ some (str raw))
      × Sendable lib raw
sent_permitted out lib w input e d h m sends =
    let (permitted, among) = sent_only out lib w input e d h m sends in
    let (_, _, as_long, batch, _, all) = validate_rpc_envelope-AllChecked lib w input e h in
    let (alone, _, raw, is_raw, sendable) =
      (All-Among (Checked lib w e.is_batch) d e.calls all among).1 sends in
    let one = as_long ∙ single input (sym batch ∙ alone) in
    (permission-some out d e.calls sends one among permitted, one, raw, is_raw, sendable)
