-- ===== src/Community/Listing/Complete.antt =====
-- community.mjs, `list`: it ends, and it has every comment on the statement once.
use oncm.Prelude.{
  ℕ, ◌+◌, ◌≤◌, ◌≡◌, refl, sym, ap, ◌∙◌, inl, inr, true, false, Option, none, some, List, [], ◌∷◌,
  map, All, length, length-map, ◌==◌, if◌then◌else◌, Bool-cases, subst, arith,
}
use oncm.Community.Listing.{
  Decorated, id_of, View, Parents, has, set_at, valid_parent, view_from, no_view, is_child_of,
  children_of, Entry, unfold_stack,
}
use oncm.Community.Listing.Counts.{times, times_of_absent, length-le}
use oncm.Community.Listing.Cycles.{Safe, top, up, has-All}
use oncm.Community.Listing.Walks.{IsClosed}
use oncm.Community.Listing.Breaking.{IsDistinct}
use oncm.Community.Listing.Broken.{IsSound}
use oncm.Community.Listing.Stack.{
  ids_of, entry_ids, listed, times-nil, times_of_distinct, ids-roots, times-children,
  unfold_stack-Counted, unfold_stack-ends,
}

valid_parent-has :
    (ids : List ℕ) (o : Option ℕ) (y : ℕ) → valid_parent ids o ≡ some y → has y ids ≡ true
unfolding valid_parent
valid_parent-has ids none y h = cc
valid_parent-has ids (some q) y h = elim (Bool-cases (has q ids)) [
  | inl e ↦ subst (λ u. has u ids ≡ true) (some-injective (rw e at h)) e
  | inr e ↦ cc (rw e at h)
]
  where
    some-injective : {a b : ℕ} → ◌≡◌ {A = Option ℕ} (some a) (some b) → a ≡ b
    some-injective h = cc

set_at-IsClosed :
    (ids : List ℕ) (key : ℕ) (o : Option ℕ) (p : Parents)
    → IsClosed ids p
    → IsClosed ids (set_at key (valid_parent ids o) p)
set_at-IsClosed ids key o p c = record {
  closed = λ x y h. elim (Bool-cases (x == key)) [
    | inl e ↦ valid_parent-has ids o y (rw e at h)
    | inr e ↦ c.closed x y (rw e at h)
  ];
}

view_from-IsSound :
    (ids : List ℕ) (cs : List Decorated) (v : View)
    → IsClosed ids v.parents
    → v.finished ≡ []
    → IsSound ids (view_from ids cs v)
unfolding view_from
view_from-IsSound ids [] v c h = record {
  closed = c;
  safe = subst (λ u. All (Safe u v.parents) u) (sym h) tt;
}
view_from-IsSound ids (x ∷ cs) v c h =
    view_from-IsSound ids cs _ (set_at-IsClosed ids (id_of x) x.comment.parent v.parents c) h

pub no_view-IsSound : (ids : List ℕ) (cs : List Decorated) → IsSound ids (view_from ids cs no_view)
no_view-IsSound ids cs = view_from-IsSound ids cs no_view (record { closed = λ x y h. cc }) refl

pub All-ids_of :
    (P : ℕ → Type 0) (cs : List Decorated) → All (λ c. P (id_of c)) cs → All P (ids_of cs)
All-ids_of P [] h = tt
All-ids_of P (c ∷ cs) h = (h.0, All-ids_of P cs h.1)

pub All-listed : (xs : List Decorated) → All (λ c. has (id_of c) (ids_of xs) ≡ true) xs
All-listed xs = by_ids xs (has-All (λ x. has x (ids_of xs) ≡ true) (ids_of xs) (λ x h. h))
  where
    by_ids :
        (cs : List Decorated)
        → All (λ x. has x (ids_of xs) ≡ true) (ids_of cs)
        → All (λ c. has (id_of c) (ids_of xs) ≡ true) cs
    by_ids [] h = tt
    by_ids (c ∷ cs) h = (h.0, by_ids cs h.1)

module _ (cs : List Decorated) (d : IsDistinct (ids_of cs)) (finished : List ℕ) (p : Parents)
    (c : IsClosed (ids_of cs) p) where
  abbrev roots : List Entry
  roots = map (λ c. record { comment = c; depth = 0; root = id_of c }) (children_of p cs none)

  times-roots :
      (x : ℕ)
      → times x (entry_ids roots) ≡ (if is_child_of none (p x) then listed (ids_of cs) x else 0)
  times-roots x = ap (times x) (ids-roots (children_of p cs none)) ∙ times-children p cs d none x

  abbrev outcome : ℕ → List Entry × List Entry
  outcome fuel = unfold_stack fuel p cs roots

  -- However much fuel there is, no comment is twice in the result.
  times-le :
      (fuel x : ℕ) → Safe finished p x → times x (entry_ids (outcome fuel).0) ≤ listed (ids_of cs) x
  times-le fuel x (top h e) =
      let counted = unfold_stack-Counted p cs d x fuel roots in
      omega (arith, rw e at counted, rw e at (times-roots x))
  times-le fuel x (up {y = y} h e s) =
      let counted = unfold_stack-Counted p cs d x fuel roots in
      let parent = times-le fuel y s in
      let start = times-roots x in
      elim (Bool-cases (has x (ids_of cs))) [
        | inl k ↦
            rw k
              (omega (arith, rw (e, k) at counted, rw e at start, listed-le (ids_of cs) y, parent))
        | inr k ↦ rw k (omega (arith, rw (e, k) at counted, rw e at start))
      ]
    where
      listed-le : (ids : List ℕ) (y : ℕ) → listed ids y ≤ 1
      listed-le ids y = ground arith

  -- Where nothing is left, every comment is there once.
  times-eq :
      (fuel x : ℕ)
      → (outcome fuel).1 ≡ []
      → has x (ids_of cs) ≡ true
      → Safe finished p x
      → times x (entry_ids (outcome fuel).0) ≡ 1
  times-eq fuel x done k (top h e) =
      let counted = unfold_stack-Counted p cs d x fuel roots in
      let start = times-roots x in
      omega (arith, times-nil x, rw (e, done) at counted, rw (e, k) at start)
  times-eq fuel x done k (up {y = y} h e s) =
      let counted = unfold_stack-Counted p cs d x fuel roots in
      let parent = times-eq fuel y done (c.closed x y e) s in
      let start = times-roots x in
      omega (arith, times-nil x, rw (e, done, k) at counted, rw e at start, parent)

  -- What is not listed comes nowhere.
  times_of_unlisted :
      (fuel x : ℕ) (o : Option ℕ)
      → p x ≡ o
      → has x (ids_of cs) ≡ false
      → times x (entry_ids (outcome fuel).0) ≡ 0
  times_of_unlisted fuel x none e k =
      omega
        (arith, rw e at (unfold_stack-Counted p cs d x fuel roots), rw (e, k) at (times-roots x))
  times_of_unlisted fuel x (some y) e k =
      omega
        (arith, rw (e, k) at (unfold_stack-Counted p cs d x fuel roots), rw e at (times-roots x))

  module _ (safe : (x : ℕ) → has x (ids_of cs) ≡ true → Safe finished p x) where
    times-result-le : (fuel x : ℕ) → times x (entry_ids (outcome fuel).0) ≤ times x (ids_of cs)
    times-result-le fuel x = elim (Bool-cases (has x (ids_of cs))) [
      | inl k ↦ omega (arith, times-le fuel x (safe x k), times_of_distinct (ids_of cs) d x)
      | inr k ↦ omega (arith, times_of_unlisted fuel x (p x) refl k)
    ]

    -- One more than the number of the comments is enough fuel.
    pub nothing_left : (outcome (length cs + 1)).1 ≡ []
    nothing_left = elim (unfold_stack-ends p cs d (length cs + 1) roots) [
      | inl h ↦ h
      | inr h ↦ absurd (
          omega (
            arith,
            h,
            length-le (entry_ids (outcome (length cs + 1)).0) (ids_of cs)
                (times-result-le (length cs + 1)),
            length-map (λ (e : Entry). id_of e.comment) (outcome (length cs + 1)).0,
            length-map id_of cs,
          ))
    ]

    pub times-result :
        (x : ℕ) → times x (entry_ids (outcome (length cs + 1)).0) ≡ times x (ids_of cs)
    times-result x = elim (Bool-cases (has x (ids_of cs))) [
      | inl k ↦
          times-eq (length cs + 1) x nothing_left k (safe x k)
          ∙ sym (times_of_distinct (ids_of cs) d x ∙ one x k)
      | inr k ↦
          times_of_unlisted (length cs + 1) x (p x) refl k ∙ sym (times_of_absent x (ids_of cs) k)
    ]
      where
        one : (x : ℕ) → has x (ids_of cs) ≡ true → listed (ids_of cs) x ≡ 1
        one x k = ground arith
