-- ===== src/Community/Listing/Fallbacks.antt =====
-- community.mjs, `list`: a comment stands under the parent that it names, or what has become of that is told.
use oncm.Prelude.{
  ℕ, zero, suc, ◌≡◌, refl, sym, ◌∙◌, ◌⊎◌, inl, inr, Bool, true, false, Option, none, some, List, [],
  ◌∷◌, map, All, All-append, All-keep, ◌==◌, ==_iff, if◌then◌else◌, Bool-cases, Option-cases, subst,
  arith,
}
use oncm.Prelude.Sort.{All-sort}
use oncm.Community.Listing.{
  Decorated, id_of, View, Parents, Fallback, has, set_at, valid_parent, is_missing, missing_parent,
  cycle, view_from, no_view, walk, first_of_cycle, end_walk, break_cycles, is_child_of, children_of,
  is_earlier, replies_of, Entry, unfold_stack, row_of,
}
use oncm.Community.Listing.Counts.{times, absent-times}
use oncm.Community.Listing.Cycles.{different}
use oncm.Community.Listing.Breaking.{IsDistinct, times-head}
use oncm.Community.Listing.Stack.{ids_of}

-- The parent is the comment's own and there is no fallback, or there is one and the comment has no parent in the view.
abbrev pub IsKept : Option ℕ → Option ℕ → Option Fallback → Type 0
IsKept own parent fallback =
    ((fallback ≡ none) × (parent ≡ own)) ⊎ ((f : Fallback) × (fallback ≡ some f) × (parent ≡ none))

abbrev pub KeptIn : View → Decorated → Type 0
KeptIn v c = IsKept c.comment.parent (v.parents (id_of c)) (v.fallback (id_of c))

added-IsKept :
    (ids : List ℕ) (own : Option ℕ) (key : ℕ) (v : View)
    → v.fallback key ≡ none
    → IsKept own (set_at key (valid_parent ids own) v.parents key) (
        (if is_missing ids own then set_at key (some missing_parent) v.fallback else v.fallback)
          key)
unfolding valid_parent
added-IsKept ids none key v h = rw ((==_iff key key).1 refl) (inl (h, refl))
added-IsKept ids (some q) key v h = elim (Bool-cases (has q ids)) [
  | inl e ↦ rw (e, (==_iff key key).1 refl) (inl (h, refl))
  | inr e ↦ rw (e, (==_iff key key).1 refl) (inr (missing_parent, refl, refl))
]

some_inj : {v w : View} → ◌≡◌ {A = Option View} (some v) (some w) → v ≡ w
some_inj h = cc

abbrev added : List ℕ → Decorated → View → View
added ids c v = record v {
  parents = set_at (id_of c) (valid_parent ids c.comment.parent) v.parents;
  fallback =
      if is_missing ids c.comment.parent
      then set_at (id_of c) (some missing_parent) v.fallback
      else v.fallback;
}

elsewhere :
    (v : View) (x key : ℕ) (b : Bool)
    → (x == key) ≡ false
    → (if b then set_at key (some missing_parent) v.fallback else v.fallback) x ≡ v.fallback x
elsewhere v x key true e = rw e refl
elsewhere v x key false e = refl

-- The view at an identifier of none of the comments that are gone through.
view_from_other :
    (ids : List ℕ) (cs : List Decorated) (v : View) (x : ℕ)
    → has x (ids_of cs) ≡ false
    → ((view_from ids cs v).parents x ≡ v.parents x)
      × ((view_from ids cs v).fallback x ≡ v.fallback x)
unfolding view_from
view_from_other ids [] v x h = (refl, refl)
view_from_other ids (c ∷ cs) v x h =
    let other : (x == id_of c) ≡ false = ground arith in
    let (a, b) = view_from_other ids cs _ x (ground arith) in
    (a ∙ rw other refl, b ∙ elsewhere v x (id_of c) (is_missing ids c.comment.parent) other)

IsDistinct-tail : (x : ℕ) (xs : List ℕ) → IsDistinct (x ∷ xs) → IsDistinct xs
unfolding times
IsDistinct-tail x xs d = record { once = λ y. omega (arith, d.once y) }

head-absent : (x : ℕ) (xs : List ℕ) → IsDistinct (x ∷ xs) → has x xs ≡ false
head-absent x xs d = absent-times x xs (omega (arith, d.once x, times-head x xs))

view_from-KeptIn :
    (ids : List ℕ) (cs : List Decorated) (v : View)
    → IsDistinct (ids_of cs)
    → ((x : ℕ) → has x (ids_of cs) ≡ true → v.fallback x ≡ none)
    → All (KeptIn (view_from ids cs v)) cs
unfolding view_from
view_from-KeptIn ids [] v d h = tt
view_from-KeptIn ids (c ∷ cs) v d h =
    let fresh : has (id_of c) (ids_of cs) ≡ false = head-absent (id_of c) (ids_of cs) d in
    let (a, b) = view_from_other ids cs (added ids c v) (id_of c) fresh in
    (
      rw (a, b)
          (added-IsKept ids c.comment.parent (id_of c) v
            (h (id_of c) (rw ((==_iff (id_of c) (id_of c)).1 refl) refl))),
      view_from-KeptIn ids cs _ (IsDistinct-tail (id_of c) (ids_of cs) d) (λ x k.
          elsewhere v x (id_of c) (is_missing ids c.comment.parent)
            (different (ids_of cs) x (id_of c) k fresh)
          ∙ h x (ground arith)),
    )

IsKept-cut :
    (own parent : Option ℕ) (fallback : Option Fallback) (here : Bool)
    → IsKept own parent fallback
    → IsKept own (if here then none else parent) (if here then some cycle else fallback)
IsKept-cut own parent fallback true k = inr (cycle, refl, refl)
IsKept-cut own parent fallback false k = k

end_walk-KeptIn :
    (v : View) (t : List ℕ) (e : Option ℕ) (c : Decorated) → KeptIn v c → KeptIn (end_walk t e v) c
unfolding end_walk
end_walk-KeptIn v t none c k = k
end_walk-KeptIn v t (some y) c k = elim (Bool-cases (has y t)) [
  | inl e ↦ rw e (IsKept-cut c.comment.parent _ _ (id_of c == first_of_cycle y t) k)
  | inr e ↦ rw e k
]

break_cycles-KeptIn :
    (fuel : ℕ) (cs : List Decorated) (v v' : View) (c : Decorated)
    → break_cycles fuel cs v ≡ some v'
    → KeptIn v c
    → KeptIn v' c
unfolding break_cycles
break_cycles-KeptIn fuel [] v v' c h k = subst (λ u. KeptIn u c) (some_inj h) k
break_cycles-KeptIn fuel (d ∷ cs) v v' c h k =
    elim (Option-cases (walk fuel v.parents v.finished [] (some (id_of d)))) [
      | inl e ↦ cc (rw (e, break_cycles) at h)
      | inr ((t, last), e) ↦
          break_cycles-KeptIn fuel cs (end_walk t last v) v' c (rw (e, break_cycles) at h)
            (end_walk-KeptIn v t last c k)
    ]

All-replies :
    (P : Decorated → Type 0) (p : Parents) (cs : List Decorated) (id : ℕ)
    → All P cs
    → All P (replies_of p cs id)
unfolding replies_of
All-replies P p cs id a =
    All-sort is_earlier P (children_of p cs (some id))
      (All-keep P (λ c. is_child_of (some id) (p (id_of c))) cs a)

All-entries :
    (P : Decorated → Type 0) (f : Decorated → Entry) (cs : List Decorated)
    → ((c : Decorated) → (f c).comment ≡ c)
    → All P cs
    → All (λ e. P e.comment) (map f cs)
All-entries P f [] same a = tt
All-entries P f (c ∷ cs) same a = (subst P (sym (same c)) a.0, All-entries P f cs same a.1)

unfold_stack-All :
    (P : Decorated → Type 0) (fuel : ℕ) (p : Parents) (cs : List Decorated) (stack : List Entry)
    → All P cs
    → All (λ e. P e.comment) stack
    → All (λ e. P e.comment) (unfold_stack fuel p cs stack).0
unfolding unfold_stack
unfold_stack-All P zero p cs stack a b = tt
unfold_stack-All P (suc fuel) p cs [] a b = tt
unfold_stack-All P (suc fuel) p cs (e ∷ stack) a b = (
  b.0,
  unfold_stack-All P fuel p cs _ a (
      All-append (λ e. P e.comment) _ stack
        (All-entries P _ (replies_of p cs (id_of e.comment)) (λ r. refl)
          (All-replies P p cs (id_of e.comment) a))
        b.1),
)

-- The rows keep what the view says of the comments of their entries.
pub All-rows :
    (v : View) (es : List Entry)
    → All (λ e. KeptIn v e.comment) es
    → All (λ r. IsKept r.entry.comment.comment.parent r.parent r.fallback) (map (row_of v) es)
All-rows v [] a = tt
All-rows v (e ∷ es) a = (a.0, All-rows v es a.1)

-- What the loops answer for comments with identifiers that differ.
pub entries-KeptIn :
    (fuel : ℕ) (cs : List Decorated) (v : View)
    → IsDistinct (ids_of cs)
    → break_cycles fuel cs (view_from (ids_of cs) cs no_view) ≡ some v
    → All
        (λ e. KeptIn v e.comment)
        (unfold_stack fuel v.parents cs (
          map
            (λ c. record { comment = c; depth = 0; root = id_of c })
            (children_of v.parents cs none))).0
entries-KeptIn fuel cs v d h =
    let before : All (KeptIn (view_from (ids_of cs) cs no_view)) cs =
      view_from-KeptIn (ids_of cs) cs no_view d (λ x k. refl) in
    let after : All (KeptIn v) cs = each (λ c. break_cycles-KeptIn fuel cs _ v c h) cs before in
    unfold_stack-All (KeptIn v) fuel v.parents cs _ after (
      All-entries (KeptIn v) _ (children_of v.parents cs none) (λ r. refl)
        (All-keep (KeptIn v) (λ c. is_child_of none (v.parents (id_of c))) cs after))
  where
    each :
        {P Q : Decorated → Type 0} (f : (c : Decorated) → P c → Q c) (ds : List Decorated)
        → All P ds
        → All Q ds
    each f [] a = tt
    each f (c ∷ ds) a = (f c a.0, each f ds a.1)
