-- ===== src/Community/Listing/Stack.antt =====
-- community.mjs, `list`: what the loop over the stack brings into the result.
use mathlib.Core.List.{map-append}
use oncm.Prelude.{
  ℕ, zero, suc, ◌+◌, ◌≡◌, refl, sym, ap, ◌∙◌, ◌⊎◌, inl, inr, Option, none, some, List, [], ◌∷◌,
  ◌++◌, map, length, sum_of-map, ◌==◌, ==_iff, if◌then◌else◌, Bool-cases, arith,
}
use oncm.Prelude.Sort.{sort, sum_of-sort}
use oncm.Community.Listing.{
  Decorated, id_of, Parents, has, is_child_of, children_of, is_earlier, replies_of, Entry,
  unfold_stack,
}
use oncm.Community.Listing.Counts.{hits, times, times-has, times_of_absent, times-append}
use oncm.Community.Listing.Breaking.{IsDistinct}

abbrev pub ids_of : List Decorated → List ℕ
ids_of cs = map id_of cs

abbrev pub entry_ids : List Entry → List ℕ
entry_ids es = map (λ e. id_of e.comment) es

-- 1 for an identifier that is listed
abbrev pub listed : List ℕ → ℕ → ℕ
listed ids x = if has x ids then 1 else 0

pub times-nil : (x : ℕ) → times x [] ≡ 0
unfolding times
times-nil x = refl

times-cons : (x y : ℕ) (ys : List ℕ) → times x (y ∷ ys) ≡ hits x y + times x ys
unfolding times
times-cons x y ys = refl

pub times_of_distinct : (ids : List ℕ) → IsDistinct ids → (x : ℕ) → times x ids ≡ listed ids x
times_of_distinct ids d x = elim (Bool-cases (has x ids)) [
  | inl e ↦ rw e (omega (arith, times-has x ids e, d.once x))
  | inr e ↦ rw e (times_of_absent x ids e)
]

times-children_of :
    (p : Parents) (cs : List Decorated) (parent : Option ℕ) (x : ℕ)
    → times x (ids_of (children_of p cs parent))
      ≡ (if is_child_of parent (p x) then times x (ids_of cs) else 0)
unfolding times
times-children_of p [] parent x = ground arith
times-children_of p (c ∷ cs) parent x = elim (Bool-cases (id_of c == x)) [
  | inl e ↦
      let same : id_of c ≡ x = (==_iff (id_of c) x).0 e in
      let alike : is_child_of parent (p (id_of c)) ≡ is_child_of parent (p x) =
        ap (λ u. is_child_of parent (p u)) same in
      let ih = times-children_of p cs parent x in
      elim (Bool-cases (is_child_of parent (p x))) [
        | inl k ↦ rw (alike ∙ k, k) (omega (arith, rw k at ih))
        | inr k ↦ rw (alike ∙ k, k) (rw k at ih)
      ]
  | inr e ↦
      let ih = times-children_of p cs parent x in
      elim (Bool-cases (is_child_of parent (p (id_of c)))) [
        | inl k ↦ rw (k, e) (ground (arith, ih))
        | inr k ↦ rw (k, e) (ground (arith, ih))
      ]
]

ids-entries :
    (depth root : ℕ) (cs : List Decorated)
    → entry_ids (map (λ r. record { comment = r; depth = depth; root = root }) cs) ≡ ids_of cs
ids-entries depth root [] = refl
ids-entries depth root (c ∷ cs) = ap (λ u. id_of c ∷ u) (ids-entries depth root cs)

pub ids-roots :
    (cs : List Decorated)
    → entry_ids (map (λ c. record { comment = c; depth = 0; root = id_of c }) cs) ≡ ids_of cs
ids-roots [] = refl
ids-roots (c ∷ cs) = ap (λ u. id_of c ∷ u) (ids-roots cs)

times-sort :
    (x : ℕ) (cs : List Decorated) → times x (ids_of (sort is_earlier cs)) ≡ times x (ids_of cs)
unfolding times
times-sort x cs =
    sum_of-map (hits x) id_of (sort is_earlier cs)
    ∙ sum_of-sort is_earlier (λ c. hits x (id_of c)) cs
    ∙ sym (sum_of-map (hits x) id_of cs)

module _ (p : Parents) (cs : List Decorated) (d : IsDistinct (ids_of cs)) where
  -- A comment comes into the result with its parent, if it has one.
  abbrev pub brought : ℕ → Option ℕ → List Entry → ℕ
  brought x none result = 0
  brought x (some y) result = if has x (ids_of cs) then times y (entry_ids result) else 0

  abbrev child_count : ℕ → Option ℕ → Option ℕ → ℕ
  child_count x parent o = if is_child_of parent o then listed (ids_of cs) x else 0

  pub times-children :
      (parent : Option ℕ) (x : ℕ)
      → times x (ids_of (children_of p cs parent)) ≡ child_count x parent (p x)
  times-children parent x =
      times-children_of p cs parent x
      ∙ ap (λ u. if is_child_of parent (p x) then u else 0) (times_of_distinct (ids_of cs) d x)

  times-replies :
      (e : Entry) (x : ℕ)
      → times x (
          entry_ids (
            map
              (λ r. record { comment = r; depth = e.depth + 1; root = e.root })
              (replies_of p cs (id_of e.comment))))
        ≡ child_count x (some (id_of e.comment)) (p x)
  unfolding replies_of
  times-replies e x =
      ap (times x) (ids-entries (e.depth + 1) e.root (replies_of p cs (id_of e.comment)))
      ∙ times-sort x (children_of p cs (some (id_of e.comment)))
      ∙ times-children (some (id_of e.comment)) x

  abbrev Counted : ℕ → Option ℕ → List Entry → List Entry × List Entry → Type 0
  Counted x o stack (result, left) =
      times x (entry_ids result) + times x (entry_ids left)
      ≡ times x (entry_ids stack) + brought x o result

  brought-cons :
      (x : ℕ) (o : Option ℕ) (e : Entry) (result : List Entry)
      → brought x o (e ∷ result) ≡ child_count x (some (id_of e.comment)) o + brought x o result
  unfolding times
  brought-cons x none e result = refl
  brought-cons x (some y) e result = ground arith

  brought-nil : (x : ℕ) (o : Option ℕ) → brought x o [] ≡ 0
  unfolding times
  brought-nil x none = refl
  brought-nil x (some y) = ground arith

  push-Counted :
      (x : ℕ) (o : Option ℕ) (e : Entry) (replies stack : List Entry) (r : List Entry × List Entry)
      → times x (entry_ids replies) ≡ child_count x (some (id_of e.comment)) o
      → Counted x o (replies ++ stack) r
      → Counted x o (e ∷ stack) (e ∷ r.0, r.1)
  push-Counted x o e replies stack (result, left) h k =
      let joined =
        ap (times x) (map-append (λ (e : Entry). id_of e.comment) replies stack)
        ∙ times-append x (entry_ids replies) (entry_ids stack) in
      omega (
        arith,
        joined,
        h,
        k,
        brought-cons x o e result,
        times-cons x (id_of e.comment) (entry_ids result),
        times-cons x (id_of e.comment) (entry_ids stack),
      )

  pub unfold_stack-Counted :
      (x fuel : ℕ) (stack : List Entry) → Counted x (p x) stack (unfold_stack fuel p cs stack)
  unfolding unfold_stack
  unfold_stack-Counted x zero stack = omega (arith, times-nil x, brought-nil x (p x))
  unfold_stack-Counted x (suc fuel) [] = omega (arith, times-nil x, brought-nil x (p x))
  unfold_stack-Counted x (suc fuel) (e ∷ stack) =
      push-Counted x (p x) e _ stack _ (times-replies e x) (unfold_stack-Counted x fuel _)

  -- Either the stack is empty in the end, or all fuel went into the result.
  pub unfold_stack-ends :
      (fuel : ℕ) (stack : List Entry)
      → ((unfold_stack fuel p cs stack).1 ≡ []) ⊎ (length (unfold_stack fuel p cs stack).0 ≡ fuel)
  unfolding unfold_stack
  unfold_stack-ends zero stack = inr refl
  unfold_stack-ends (suc fuel) [] = inl refl
  unfold_stack-ends (suc fuel) (e ∷ stack) = elim (unfold_stack-ends fuel _) [
    | inl h ↦ inl h
    | inr h ↦ inr (ap suc h)
  ]
