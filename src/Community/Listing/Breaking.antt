-- ===== src/Community/Listing/Breaking.antt =====
-- community.mjs, `list`: the loop that takes cycles apart, for comments with identifiers that differ.
use oncm.Prelude.{
  ℕ, ◌+◌, ◌≤◌, ◌≡◌, refl, ap, inl, inr, true, false, Option, some, List, [], ◌∷◌, ◌++◌, All,
  All-append, leb, ◌==◌, ==_iff, Bool-cases, subst, arith,
}
use oncm.Prelude.Sort.{sort, sum_of-sort}
use oncm.Community.Listing.{Parents, has, up_to, head_or, first_of_cycle}
use oncm.Community.Listing.Counts.{hits, times, times-has, has-times, absent-times, times-append}
use oncm.Community.Listing.Cycles.{
  Safe, top, Chain, EndsSafe, cut, cut_self, has-append_left, All-has, has-All, Safe-append,
  Safe-cut, Chain-Safe, Chain-cut, Chain-split,
}

-- No identifier stands twice.
pub record IsDistinct (ids : List ℕ) : Type 0 where
  pub once : (x : ℕ) → times x ids ≤ 1

has-up_to : (y : ℕ) (t : List ℕ) → has y t ≡ true → has y (up_to y t) ≡ true
has-up_to y [] h = cc
has-up_to y (x ∷ xs) h = ground (arith, has-up_to y xs)

pub up_to-has : (y x : ℕ) (t : List ℕ) → has x (up_to y t) ≡ true → has x t ≡ true
up_to-has y x [] h = cc
up_to-has y x (z ∷ zs) h = ground (arith, up_to-has y x zs)

head-has : (d : ℕ) (l : List ℕ) → 1 ≤ times d l → has (head_or d l) l ≡ true
unfolding times
head-has d [] h = absurd (omega arith)
head-has d (x ∷ xs) h = ground arith

times-sort : (x : ℕ) (xs : List ℕ) → times x (sort leb xs) ≡ times x xs
unfolding times
times-sort x xs = sum_of-sort leb (hits x) xs

-- The edge that is taken out begins in the cycle.
pub first_of_cycle-has :
    (y : ℕ) (t : List ℕ) → has y t ≡ true → has (first_of_cycle y t) (up_to y t) ≡ true
unfolding first_of_cycle
first_of_cycle-has y t h =
    let l : List ℕ = sort leb (up_to y t) in
    let there : 1 ≤ times y l =
      omega (arith, times-sort y (up_to y t), times-has y (up_to y t) (has-up_to y t h)) in
    let found : has (head_or y l) l ≡ true = head-has y l there in
    has-times (head_or y l) (up_to y t)
      (omega (arith, times-sort (head_or y l) (up_to y t), times-has (head_or y l) l found))

-- A trail at an identifier of its cycle: the cycle is entered at it or before it.
pub up_to-split :
    (y root : ℕ) (t : List ℕ)
    → has y t ≡ true
    → has root (up_to y t) ≡ true
    → (later earlier : List ℕ) × (t ≡ later ++ root ∷ earlier) × (has y (root ∷ earlier) ≡ true)
up_to-split y root [] h k = cc
up_to-split y root (x ∷ xs) h k = elim (Bool-cases (x == root)) [
  | inl e ↦ (
    [],
    xs,
    ap (λ u. u ∷ xs) ((==_iff x root).0 e),
    subst (λ u. has y (u ∷ xs) ≡ true) ((==_iff x root).0 e) h,
  )
  | inr e ↦ elim (Bool-cases (x == y)) [
    | inl q ↦ absurd (ground arith)
    | inr q ↦
        let (later, earlier, same, entered) = up_to-split y root xs (ground arith) (ground arith) in
        (x ∷ later, earlier, ap (λ u. x ∷ u) same, entered)
  ]
]

All-map : {P Q : ℕ → Type 0} (f : (x : ℕ) → P x → Q x) (xs : List ℕ) → All P xs → All Q xs
All-map f [] h = tt
All-map f (x ∷ xs) h = (f x h.0, All-map f xs h.1)

pub times-head : (x : ℕ) (xs : List ℕ) → times x (x ∷ xs) ≡ 1 + times x xs
unfolding times
times-head x xs = rw ((==_iff x x).1 refl) refl

module _ (finished : List ℕ) (p : Parents) (safe : All (Safe finished p) finished) where
  own_trail : (t : List ℕ) → All (λ x. has x (t ++ finished) ≡ true) t
  own_trail t =
      has-All (λ x. has x (t ++ finished) ≡ true) t (λ x h. has-append_left x t finished h)

  -- The walk has ended without a parent, or at one that was finished before.
  pub plain-AllSafe :
      (t : List ℕ) (e : Option ℕ)
      → Chain p e t
      → EndsSafe (t ++ finished) p e
      → All (Safe (t ++ finished) p) (t ++ finished)
  plain-AllSafe t e chain good =
      All-append (Safe (t ++ finished) p) t finished
        (Chain-Safe (t ++ finished) p e t chain good (own_trail t))
        (All-map (λ x s. Safe-append t s) finished safe)

  All-split :
      (P : ℕ → Type 0) (xs : List ℕ) (y : ℕ) (ys : List ℕ)
      → All P (xs ++ y ∷ ys)
      → All P xs × P y × All P ys
  All-split P [] y ys h = (tt, h.0, h.1)
  All-split P (x ∷ xs) y ys h = let (a, b, c) = All-split P xs y ys h.1 in ((h.0, a), b, c)

  -- The walk has ended in its own trail, at `y`, and the edge of `root` is taken out.
  pub cycle-AllSafe :
      (later earlier : List ℕ) (root y : ℕ)
      → Chain p (some y) (later ++ root ∷ earlier)
      → times root (later ++ root ∷ earlier) ≤ 1
      → has root finished ≡ false
      → has y (root ∷ earlier) ≡ true
      → All
          (Safe ((later ++ root ∷ earlier) ++ finished) (cut root p))
          ((later ++ root ∷ earlier) ++ finished)
  cycle-AllSafe later earlier root y chain once absent entered =
      let t : List ℕ = later ++ root ∷ earlier in
      let all : List ℕ = t ++ finished in
      let q : Parents = cut root p in
      let counted = times-append root later (root ∷ earlier) in
      let (in_later, root_in, in_earlier) =
        All-split (λ x. has x all ≡ true) later root earlier (own_trail t) in
      let (chain_later, chain_earlier) = Chain-split p (some y) later earlier root chain in
      let root_safe : Safe all q root = top root_in (cut_self root p) in
      let earlier_safe : All (Safe all q) earlier =
        Chain-Safe all q (some root) earlier
          (Chain-cut root p (some root) earlier
            (absent-times root earlier (omega (arith, counted, once, times-head root earlier)))
            chain_earlier)
          root_safe in_earlier in
      let y_safe : Safe all q y =
        All-has (Safe all q) y (root ∷ earlier) (root_safe, earlier_safe) entered in
      let later_safe : All (Safe all q) later =
        Chain-Safe all q (some y) later
          (Chain-cut root p (some y) later
            (absent-times root later (omega (arith, counted, once, times-head root earlier)))
            chain_later)
          y_safe in_later in
      All-append (Safe all q) t finished
        (All-append (Safe all q) later (root ∷ earlier) later_safe (root_safe, earlier_safe))
        (All-map (λ x s. Safe-append t (Safe-cut root absent s)) finished safe)
