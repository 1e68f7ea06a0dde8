-- ===== src/Community/Listing/Walks.antt =====
-- community.mjs, `list`: the loop that follows the parents ends before its fuel does.
use oncm.Prelude.{
  ℕ, zero, suc, ◌+◌, ◌≤◌, ◌<◌, ◌≡◌, refl, inl, inr, true, false, Option, none, some, List, ◌∷◌,
  ◌++◌, length, ◌==◌, ==_iff, Bool-cases, subst, arith,
}
use oncm.Community.Listing.{Parents, has, is_met, next_of, walk}
use oncm.Community.Listing.Counts.{times, times-has, times_of_absent, length-le}
use oncm.Community.Listing.Cycles.{Chain, has-append_left, has-append_right}

abbrev pub IsListed : List ℕ → Option ℕ → Type 0
IsListed ids none = Unit
IsListed ids (some x) = has x ids ≡ true

-- Parents are among the identifiers.
pub record IsClosed (ids : List ℕ) (p : Parents) : Type 0 where
  pub closed : (x y : ℕ) → p x ≡ some y → has y ids ≡ true

-- A trail on its way to `e`, which has no identifier twice and none that is finished.
pub record IsTrail (ids : List ℕ) (finished : List ℕ) (p : Parents) (trail : List ℕ) (e : Option ℕ)
    : Type 0 where
  pub chain : Chain p e trail
  pub few : (x : ℕ) → times x trail ≤ times x ids
  pub apart : (x : ℕ) → has x trail ≡ true → has x finished ≡ false

-- Where a walk from a trail to `e` ends.
pub record Walked (ids : List ℕ) (finished : List ℕ) (p : Parents) (before : List ℕ)
    (start : Option ℕ) (trail : List ℕ) (e : Option ℕ) : Type 0 where
  pub is_trail : IsTrail ids finished p trail e
  pub met : is_met finished trail e ≡ true
  pub kept : (x : ℕ) → has x before ≡ true → has x trail ≡ true
  pub reached : IsListed (trail ++ finished) start

module _ (ids : List ℕ) (finished : List ℕ) (p : Parents) (c : IsClosed ids p) where
  IsListed-next : (e : Option ℕ) → IsListed ids e → IsListed ids (next_of p e)
  IsListed-next none h = tt
  IsListed-next (some x) h = listed (p x) refl
    where
      listed : (o : Option ℕ) → p x ≡ o → IsListed ids o
      listed none q = tt
      listed (some y) q = c.closed x y q

  met-reached :
      (trail : List ℕ) (e : Option ℕ)
      → is_met finished trail e ≡ true
      → IsListed (trail ++ finished) e
  met-reached trail none h = tt
  met-reached trail (some x) h = elim (Bool-cases (has x trail)) [
    | inl t ↦ has-append_left x trail finished t
    | inr t ↦ has-append_right x trail finished (ground arith)
  ]

  push-IsTrail :
      (trail : List ℕ) (x : ℕ)
      → IsTrail ids finished p trail (some x)
      → has x ids ≡ true
      → is_met finished trail (some x) ≡ false
      → IsTrail ids finished p (x ∷ trail) (p x)
  unfolding times
  push-IsTrail trail x v listed h = record {
    chain = (refl, v.chain);
    few = λ z. elim (Bool-cases (x == z)) [
      | inr e ↦ ground (arith, v.few z)
      | inl e ↦
          let same : x ≡ z = (==_iff x z).0 e in
          let none_yet : times x trail ≡ 0 = times_of_absent x trail (ground arith) in
          let one : 1 ≤ times x ids = times-has x ids listed in
          subst (λ u. times u (x ∷ trail) ≤ times u ids) same (ground arith)
    ];
    apart = λ z k. elim (Bool-cases (x == z)) [
      | inr e ↦ v.apart z (ground arith)
      | inl e ↦ rw (← (==_iff x z).0 e) (ground arith)
    ];
  }

  pub walk-Walked :
      (fuel : ℕ) (trail : List ℕ) (e : Option ℕ)
      → IsTrail ids finished p trail e
      → IsListed ids e
      → length ids < fuel + length trail
      → (t : List ℕ) × (e' : Option ℕ) × (walk fuel p finished trail e ≡ some (t, e'))
        × Walked ids finished p trail e t e'
  unfolding walk
  walk-Walked zero trail e v listed h = absurd (omega (arith, h, length-le trail ids v.few))
  walk-Walked (suc fuel) trail none v listed h =
      (trail, none, refl, record { is_trail = v; met = refl; kept = λ x k. k; reached = tt })
  walk-Walked (suc fuel) trail (some x) v listed h =
      elim (Bool-cases (is_met finished trail (some x))) [
        | inl met ↦ (
          trail,
          some x,
          rw (met, walk) refl,
          record {
            is_trail = v;
            met = met;
            kept = λ z k. k;
            reached = met-reached trail (some x) met;
          },
        )
        | inr more ↦
            let (t, e', q, w) =
              walk-Walked fuel (x ∷ trail) (p x) (push-IsTrail trail x v listed more)
                (IsListed-next (some x) listed) (omega arith) in
            (
              t,
              e',
              rw (more, walk) q,
              record {
                is_trail = w.is_trail;
                met = w.met;
                kept = λ z k. w.kept z (ground arith);
                reached = has-append_left x t finished (w.kept x (ground arith));
              },
            )
      ]
