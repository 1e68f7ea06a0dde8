-- ===== src/Community/Listing/Answers.antt =====
-- community.mjs, `list`: what it answers.
use oncm.Prelude.{
  ℕ, ◌+◌, ◌≤◌, ◌≡◌, refl, sym, ap, ◌∙◌, Bool, true, some, List, [], ◌∷◌, All, map, keep, length,
  length-map, sum_of-map, String, ok, >>=-eq-ok, ok-injective, arith,
}
use oncm.Prelude.Sort.{sort, sum_of-sort}
use oncm.Community.{Comment, Db, profile}
use oncm.Community.Listing.{
  Decorated, id_of, View, Entry, Row, row_of, has, view_from, no_view, when_done, threads, is_on,
  is_before, decorate, decorate_all, Answer, threaded, list,
}
use oncm.Community.Listing.Counts.{hits, times}
use oncm.Community.Listing.Cycles.{Safe, All-has}
use oncm.Community.Listing.Breaking.{IsDistinct}
use oncm.Community.Listing.Broken.{break_cycles-IsBroken}
use oncm.Community.Listing.Stack.{ids_of, entry_ids}
use oncm.Community.Listing.Fallbacks.{IsKept, entries-KeptIn, All-rows}
use oncm.Community.Listing.Complete.{
  no_view-IsSound, All-listed, All-ids_of, nothing_left, times-result,
}

abbrev pub row_ids : List Row → List ℕ
row_ids rows = map (λ r. id_of r.entry.comment) rows

ids-rows : (v : View) (es : List Entry) → row_ids (map (row_of v) es) ≡ entry_ids es
ids-rows v [] = refl
ids-rows v (e ∷ es) = ap (λ u. id_of e.comment ∷ u) (ids-rows v es)

-- The same identifiers, each as often.
abbrev pub SameIds : List ℕ → List ℕ → Type 0
SameIds xs ys = (x : ℕ) → times x xs ≡ times x ys

-- Each row stands under the parent that its comment names, or has a fallback and no parent.
abbrev pub AllKept : List Row → Type 0
AllKept rows = All (λ r. IsKept r.entry.comment.comment.parent r.parent r.fallback) rows

done-eq :
    (v : View) (r : List Entry × List Entry) → r.1 ≡ [] → when_done v r ≡ some (map (row_of v) r.0)
done-eq v (result, []) h = refl
done-eq v (result, e ∷ left) h = cc

-- For comments with identifiers that differ, whatever parents they name, cycles of them included, the loops end with the fuel given, and the
-- threads have every comment once, under its own parent unless a fallback tells why not.
pub threads-SameIds :
    (cs : List Decorated)
    → IsDistinct (ids_of cs)
    → (rows : List Row) × (threads cs ≡ some rows)
      × SameIds (row_ids rows) (ids_of cs)
      × AllKept rows
unfolding threads
threads-SameIds cs d =
    let ids : List ℕ = ids_of cs in
    let (v, ran, b) =
      break_cycles-IsBroken ids d (length cs + 1) cs (view_from ids cs no_view)
        (omega (arith, length-map id_of cs)) (no_view-IsSound ids cs) (All-listed cs) in
    let safe : (x : ℕ) → has x ids ≡ true → Safe v.finished v.parents x = λ x h.
      All-has (Safe v.finished v.parents) x v.finished b.sound.safe (
        All-has (λ y. has y v.finished ≡ true) x ids
          (All-ids_of (λ y. has y v.finished ≡ true) cs b.all_finished) h) in
    let rest = nothing_left cs d v.finished v.parents b.sound.closed safe in
    (
      _,
      rw (ran, threads) (done-eq v _ rest),
      λ x.
          ap (times x) (ids-rows v _)
          ∙ times-result cs d v.finished v.parents b.sound.closed safe x,
      All-rows v _ (entries-KeptIn (length cs + 1) cs v d ran),
    )

abbrev pub comment_ids : List Comment → List ℕ
comment_ids cs = map (λ c. c.id) cs

decorate-id : (db : Db) (c : Comment) (x : Decorated) → decorate db c ≡ ok x → id_of x ≡ c.id
unfolding decorate
decorate-id db c x h =
    let (p, _, k) = >>=-eq-ok (profile c.author db) _ h in sym (ap id_of (ok-injective k))

decorate_all-ids :
    (db : Db) (cs : List Comment) (ds : List Decorated)
    → decorate_all db cs ≡ ok ds
    → ids_of ds ≡ comment_ids cs
unfolding decorate_all
decorate_all-ids db [] ds h = sym (ap ids_of (ok-injective h))
decorate_all-ids db (c ∷ cs) ds h =
    let (x, hx, h1) = >>=-eq-ok (decorate db c) _ h in
    let (rest, hr, h2) = >>=-eq-ok (decorate_all db cs) _ h1 in
    sym (ap ids_of (ok-injective h2))
    ∙ ap (λ u. u ∷ ids_of rest) (decorate-id db c x hx)
    ∙ ap (λ u. c.id ∷ u) (decorate_all-ids db cs rest hr)

times-keep-le :
    (x : ℕ) (q : Comment → Bool) (cs : List Comment)
    → times x (comment_ids (keep q cs)) ≤ times x (comment_ids cs)
unfolding times
times-keep-le x q [] = omega arith
times-keep-le x q (c ∷ cs) = ground (arith, times-keep-le x q cs)

times-sort :
    (x : ℕ) (before : Decorated → Decorated → Bool) (cs : List Decorated)
    → times x (ids_of (sort before cs)) ≡ times x (ids_of cs)
unfolding times
times-sort x before cs =
    sum_of-map (hits x) id_of (sort before cs)
    ∙ sum_of-sort before (λ c. hits x (id_of c)) cs
    ∙ sym (sum_of-map (hits x) id_of cs)

-- Where no two comments have the same identifier, an answer for a statement is the threads of it, which are there whatever parents the
-- comments name, and have every comment on the statement once and no other. A row without a fallback stands under the parent that its
-- comment names, and a row with one has no parent.
pub list-SameIds :
    (db : Db) (statement : String) (top : Bool) (answer : Answer)
    → IsDistinct (comment_ids db.comments)
    → list (some statement) top db ≡ ok answer
    → (rows : List Row) × (answer ≡ threaded (some rows))
      × SameIds (row_ids rows) (comment_ids (keep (is_on (some statement)) db.comments))
      × AllKept rows
unfolding list
list-SameIds db statement top answer d h =
    let on : List Comment = keep (is_on (some statement)) db.comments in
    let (ds, hd, h1) = >>=-eq-ok (decorate_all db on) _ h in
    let sorted : List Decorated = sort (is_before top) ds in
    let same : (x : ℕ) → times x (ids_of sorted) ≡ times x (comment_ids on) =
      λ x. times-sort x (is_before top) ds ∙ ap (times x) (decorate_all-ids db on ds hd) in
    let distinct : IsDistinct (ids_of sorted) = record {
      once = λ x.
          omega (arith, same x, times-keep-le x (is_on (some statement)) db.comments, d.once x);
    } in
    let (rows, found, all, kept) = threads-SameIds sorted distinct in
    (rows, sym (ok-injective h1) ∙ ap threaded found, λ x. all x ∙ same x, kept)
