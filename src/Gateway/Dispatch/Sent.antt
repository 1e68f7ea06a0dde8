-- ===== src/Gateway/Dispatch/Sent.antt =====
-- rpc-gateway.mjs, `dispatch`: which requests are forwarded.
use oncm.Prelude.{
  ℕ, ◌+◌, ◌-◌, ◌≤◌, ◌<◌, ◌≡◌, refl, sym, ap, subst, ◌⊎◌, inl, inr, false, ◌&&◌, Option, none, some,
  List, [], ◌∷◌, length, All, Among, Among-here, Among-there, leb, ltb, leb→le, ltb→lt, is_same,
  includes, Result, ok, throw, ok-injective, Result-cases, Bool-cases, Option-cases, arith,
}
use oncm.Gateway.Json.{Json, str, Fields, Error, member}
use oncm.Gateway.Transactions.{both}
use oncm.Gateway.Envelope.{Call}
use oncm.Gateway.Dispatch.{
  Wire, Outside, forward, head_call, head_or_ask, keep_head, result_of, head_tags, number,
  number_after, with_range, ranged, range_filter, admit_range, admit_call, admit_calls, consed,
  started, send_call, send_calls, permission, send_admitted, no_wire, serve,
}

-- What an admitted request becomes: itself, or, where it asks for logs by a range, the same with the numbers of the range, fewer
-- than 2000 apart.
pub data Admits (c : Call) : Call → Type 0 where
  same : range_filter c ≡ none → Admits c c
  by_range :
      (fs : Fields) (from to : ℕ)
      → range_filter c ≡ some fs
      → from ≤ to
      → to < from + 2000
      → Admits c (with_range from to fs c)

ranged-Admits :
    (fs : Fields) (c d : Call) (from to : Result Error ℕ)
    → range_filter c ≡ some fs
    → ranged fs c from to ≡ ok d
    → Admits c d
unfolding ranged
ranged-Admits fs c d (throw e) to f h = cc
ranged-Admits fs c d (ok from) (throw e) f h = cc
ranged-Admits fs c d (ok from) (ok to) f h =
    elim (Bool-cases (leb from to && ltb (to - from) 2000)) [
      | inr wide ↦ cc (rw (wide, ranged) at h)
      | inl narrow ↦
          let (le, lt) = both (leb from to) (ltb (to - from) 2000) narrow in
          subst (Admits c) (ok-injective (rw (narrow, ranged) at h)) (
            by_range fs from to f (leb→le from to le)
              (omega (arith, ltb→lt (to - from) 2000 lt, leb→le from to le)))
    ]

admit_call-Admits :
    (out : Outside) (c d : Call) (w : Wire) → (admit_call out c w).1 ≡ ok d → Admits c d
unfolding admit_call admit_range
admit_call-Admits out c d w h = elim (Option-cases (range_filter c)) [
  | inl e ↦ subst (Admits c) (ok-injective (rw (e, admit_call) at h)) (same e)
  | inr (fs, e) ↦
      let from = number out (member "fromBlock" fs) w in
      ranged-Admits fs c d from.1 (number_after out from.1 (member "toBlock" fs) from.0).1 e
        (rw (e, admit_call) at h)
]

-- One admitted request for each.
abbrev pub Pairs : List Call → List Call → Type 0
Pairs [] [] = Unit
Pairs (c ∷ cs) (d ∷ ds) = Admits c d × Pairs cs ds
Pairs _ _ = ⊥

pub consed-ok {ℓ} :
    {A : Type ℓ} (x : A) (r : Result Error (List A)) {ys : List A}
    → consed x r ≡ ok ys
    → (xs : List A) × (r ≡ ok xs) × (ys ≡ x ∷ xs)
unfolding consed
consed-ok x (ok xs) h = (xs, refl, sym (ok-injective h))
consed-ok x (throw e) h = cc

pub admit_calls-Pairs :
    (out : Outside) (cs ds : List Call) (w : Wire) → (admit_calls out cs w).1 ≡ ok ds → Pairs cs ds
unfolding admit_calls
admit_calls-Pairs out [] ds w h = subst (Pairs []) (ok-injective h) tt
admit_calls-Pairs out (c ∷ cs) ds w h = elim (Result-cases (admit_call out c w).1) [
  | inl (e, bad) ↦ cc (rw (bad, admit_calls) at h)
  | inr (d, good) ↦
      let (rest, is_rest, is_ds) =
        consed-ok d (admit_calls out cs (admit_call out c w).0).1 (rw (good, admit_calls) at h) in
      rw is_ds (
        admit_call-Admits out c d w good,
        admit_calls-Pairs out cs rest (admit_call out c w).0 is_rest,
      )
]

-- A request that is forwarded for others: it asks for the latest block, or is one of them as admitted, and not `eth_accounts`.
abbrev pub Forwarded : List Call → Call → Type 0
Forwarded cs d =
    (d ≡ head_call)
    ⊎ (is_same d.method "eth_accounts" ≡ false) × (c : Call) × Among c cs × Admits c d

module _ (P : Call → Type 0) (out : Outside) where
  send_call-All :
      (d : Call) (w : Wire)
      → All P w.sent
      → (is_same d.method "eth_accounts" ≡ false → P d)
      → All P (send_call out d w).0.sent
  unfolding send_call forward started
  send_call-All d w p q = elim (Bool-cases (out.is_aborted (length w.sent))) [
    | inl late ↦ rw (late, send_call) p
    | inr live ↦ elim (Bool-cases (is_same d.method "eth_accounts")) [
      | inl accounts ↦ rw (live, accounts, send_call) p
      | inr other ↦ rw (live, other, send_call) (q other, p)
    ]
  ]

  -- What holds of the requests forwarded before and of those to send, but for `eth_accounts`, holds of all that are forwarded.
  pub send_calls-All :
      (ds : List Call) (w : Wire)
      → All P w.sent
      → All (λ d. is_same d.method "eth_accounts" ≡ false → P d) ds
      → All P (send_calls out ds w).0.sent
  unfolding send_calls
  send_calls-All [] w p q = p
  send_calls-All (d ∷ ds) w p (q, qs) = elim (Result-cases (send_call out d w).1) [
    | inl (e, bad) ↦ rw (bad, send_calls) (send_call-All d w p q)
    | inr (fs, good) ↦
        rw (good, send_calls) (send_calls-All ds (send_call out d w).0 (send_call-All d w p q) qs)
  ]

-- While the ranges are admitted: nothing was forwarded, or the latest block was asked for and is known.
abbrev Asked : Wire → Type 0
Asked w = (w.sent ≡ []) ⊎ (w.sent ≡ head_call ∷ []) × (n : ℕ) × (w.head ≡ some n)

abbrev AtMostHead : Wire → Type 0
AtMostHead w = (w.sent ≡ []) ⊎ (w.sent ≡ head_call ∷ [])

Asked-AtMostHead : (w : Wire) → Asked w → AtMostHead w
Asked-AtMostHead w (inl e) = inl e
Asked-AtMostHead w (inr (e, n, h)) = inr e

-- A step that asks for no more than the latest block, and for that once.
abbrev Asks {ℓ} : {A : Type ℓ} → Wire × Result Error A → Type ℓ
Asks (w, r) = AtMostHead w × ((a : _) → r ≡ ok a → Asked w)

kept : (w : Wire) (r : Result Error ℕ) → w.sent ≡ head_call ∷ [] → Asks (keep_head w r, r)
unfolding keep_head
kept w (throw e) h = (inr h, λ a k. cc)
kept w (ok n) h = (inr h, λ a k. inr (h, n, refl))

head_or_ask-Asks :
    (out : Outside) (w : Wire) (o : Option ℕ) → w.head ≡ o → Asked w → Asks (head_or_ask out w o)
unfolding head_or_ask forward
head_or_ask-Asks out w (some n) e q = (Asked-AtMostHead w q, λ a h. q)
head_or_ask-Asks out w none e (inl none_sent) =
    kept (forward out head_call w).0 (result_of (forward out head_call w).1)
      (ap (λ cs. head_call ∷ cs) none_sent)
head_or_ask-Asks out w none e (inr (_, n, known)) = cc

number-Asks : (out : Outside) (tag : Option Json) (w : Wire) → Asked w → Asks (number out tag w)
unfolding number
number-Asks out none w q = head_or_ask-Asks out w w.head refl q
number-Asks out (some (str s)) w q = elim (Bool-cases (is_same s "earliest")) [
  | inl e ↦ rw (e, number) (Asked-AtMostHead w q, λ a h. q)
  | inr e ↦ elim (Bool-cases (includes head_tags s)) [
    | inl f ↦ rw (e, f, number) (head_or_ask-Asks out w w.head refl q)
    | inr f ↦ rw (e, f, number) (Asked-AtMostHead w q, λ a h. q)
  ]
]
number-Asks out (some Json.null) w q = (Asked-AtMostHead w q, λ a h. q)
number-Asks out (some (Json.bool b)) w q = (Asked-AtMostHead w q, λ a h. q)
number-Asks out (some (Json.num n d)) w q = (Asked-AtMostHead w q, λ a h. q)
number-Asks out (some (Json.arr xs)) w q = (Asked-AtMostHead w q, λ a h. q)
number-Asks out (some (Json.obj fs)) w q = (Asked-AtMostHead w q, λ a h. q)

number_after-Asks :
    (out : Outside) (first : Wire × Result Error ℕ) (tag : Option Json)
    → Asks first
    → Asks (number_after out first.1 tag first.0)
unfolding number_after
number_after-Asks out (w, throw e) tag (most, _) = (most, λ a h. cc)
number_after-Asks out (w, ok n) tag (_, asked) = number-Asks out tag w (asked n refl)

ranged-ok :
    (fs : Fields) (c d : Call) (from to : Result Error ℕ)
    → ranged fs c from to ≡ ok d
    → (n : ℕ) × (to ≡ ok n)
unfolding ranged
ranged-ok fs c d (throw e) to h = cc
ranged-ok fs c d (ok from) (throw e) h = cc
ranged-ok fs c d (ok from) (ok to) h = (to, refl)

admit_call-Asks : (out : Outside) (c : Call) (w : Wire) → Asked w → Asks (admit_call out c w)
unfolding admit_call admit_range
admit_call-Asks out c w q = elim (Option-cases (range_filter c)) [
  | inl e ↦ rw (e, admit_call) (Asked-AtMostHead w q, λ a h. q)
  | inr (fs, e) ↦
      let from = number out (member "fromBlock" fs) w in
      let to = number_after out from.1 (member "toBlock" fs) from.0 in
      let (most, asked) =
        number_after-Asks out from (member "toBlock" fs)
          (number-Asks out (member "fromBlock" fs) w q) in
      rw (e, admit_call)
        (most, λ a h. (let (n, is_n) = ranged-ok fs c a from.1 to.1 h in asked n is_n))
]

admit_calls-Asks :
    (out : Outside) (cs : List Call) (w : Wire) → Asked w → Asks (admit_calls out cs w)
unfolding admit_calls
admit_calls-Asks out [] w q = (Asked-AtMostHead w q, λ a h. q)
admit_calls-Asks out (c ∷ cs) w q = elim (Result-cases (admit_call out c w).1) [
  | inl (e, bad) ↦ rw (bad, admit_calls) ((admit_call-Asks out c w q).0, λ a h. cc)
  | inr (d, good) ↦
      let (most, asked) =
        admit_calls-Asks out cs (admit_call out c w).0 ((admit_call-Asks out c w q).1 d good) in
      rw (good, admit_calls)
        (
          most,
          λ a h.
              (let (xs, is_xs, _) = consed-ok d (admit_calls out cs (admit_call out c w).0).1 h in
                asked xs is_xs),
        )
]

Pairs-Forwarded :
    (all cs ds : List Call)
    → ((c : Call) → Among c cs → Among c all)
    → Pairs cs ds
    → All (λ d. is_same d.method "eth_accounts" ≡ false → Forwarded all d) ds
Pairs-Forwarded all [] [] sub p = tt
Pairs-Forwarded all (c ∷ cs) (d ∷ ds) sub (p, ps) = (
  (λ other. inr (other, c, sub c (Among-here c cs), p)),
  Pairs-Forwarded all cs ds (λ x m. sub x (Among-there x c cs m)) ps,
)
Pairs-Forwarded all [] (d ∷ ds) sub p = absurd p
Pairs-Forwarded all (c ∷ cs) [] sub p = absurd p

AtMostHead-All : (cs : List Call) (w : Wire) → AtMostHead w → All (Forwarded cs) w.sent
AtMostHead-All cs w (inl e) = rw e tt
AtMostHead-All cs w (inr e) = rw e (inl refl, tt)

admitted_wire : (out : Outside) (cs : List Call) → AtMostHead (admit_calls out cs no_wire).0
admitted_wire out cs = (admit_calls-Asks out cs no_wire (inl refl)).0

send_admitted-throw :
    (out : Outside) (m : Wire × Result Error (List Call)) (e : Error)
    → m.1 ≡ throw e
    → (send_admitted out m).0 ≡ m.0
unfolding send_admitted
send_admitted-throw out (w, throw d) e h = refl
send_admitted-throw out (w, ok cs) e h = cc

send_admitted-ok :
    (out : Outside) (m : Wire × Result Error (List Call)) (ds : List Call)
    → m.1 ≡ ok ds
    → (send_admitted out m).0 ≡ (send_calls out ds m.0).0
unfolding send_admitted
send_admitted-ok out (w, throw d) ds h = cc
send_admitted-ok out (w, ok cs) ds h = ap (λ xs. (send_calls out xs w).0) (ok-injective h)

pub serve_or_not :
    (out : Outside) (cs : List Call)
    → ((serve out cs).0 ≡ no_wire)
      ⊎ (permission out cs ≡ ok tt)
        × ((serve out cs).0 ≡ (send_admitted out (admit_calls out cs no_wire)).0)
unfolding serve
serve_or_not out cs = elim (Result-cases (permission out cs)) [
  | inl (e, bad) ↦ inl (rw (bad, serve) refl)
  | inr (tt, good) ↦ inr (good, rw (good, serve) refl)
]

-- Every request that is forwarded asks for the latest block, or is a request of the envelope other than `eth_accounts`, unchanged or,
-- where it asks for logs by a range, with the numbers of a range of at most 2000 blocks.
pub serve-Forwarded : (out : Outside) (cs : List Call) → All (Forwarded cs) (serve out cs).0.sent
serve-Forwarded out cs = elim (serve_or_not out cs) [
  | inl e ↦ rw e tt
  | inr (_, e) ↦ elim (Result-cases (admit_calls out cs no_wire).1) [
    | inl (thrown, bad) ↦
        rw (e, send_admitted-throw out (admit_calls out cs no_wire) thrown bad)
          (AtMostHead-All cs (admit_calls out cs no_wire).0 (admitted_wire out cs))
    | inr (ds, good) ↦
        rw (e, send_admitted-ok out (admit_calls out cs no_wire) ds good)
          (send_calls-All (Forwarded cs) out ds (admit_calls out cs no_wire).0
            (AtMostHead-All cs (admit_calls out cs no_wire).0 (admitted_wire out cs))
            (Pairs-Forwarded cs cs ds (λ c m. m) (admit_calls-Pairs out cs ds no_wire good)))
  ]
]

-- Where the range of one request is not admitted, no request of the envelope is forwarded: at most the latest block was asked for, once.
pub serve_refused :
    (out : Outside) (cs : List Call) (e : Error)
    → (admit_calls out cs no_wire).1 ≡ throw e
    → ((serve out cs).0.sent ≡ []) ⊎ ((serve out cs).0.sent ≡ head_call ∷ [])
serve_refused out cs thrown bad = elim (serve_or_not out cs) [
  | inl e ↦ rw e (inl refl)
  | inr (_, e) ↦
      rw (e, send_admitted-throw out (admit_calls out cs no_wire) thrown bad) (admitted_wire out cs)
]
