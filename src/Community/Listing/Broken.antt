-- ===== src/Community/Listing/Broken.antt =====
-- community.mjs, `list`: when all comments have been walked from, the parents of each lead to a comment without a parent.
use oncm.Prelude.{
  ℕ, ◌≤◌, ◌<◌, ◌≡◌, refl, sym, inl, inr, true, false, Option, none, some, List, [], ◌∷◌, ◌++◌, All,
  length, ◌==◌, Bool-cases, subst, arith,
}
use oncm.Community.Listing.{
  Decorated, id_of, View, Parents, has, is_met, first_of_cycle, end_walk, break_cycles,
}
use oncm.Community.Listing.Counts.{times}
use oncm.Community.Listing.Cycles.{Safe, Chain, cut, has-append_right, All-has, Safe-append}
use oncm.Community.Listing.Walks.{IsClosed, IsTrail, Walked, walk-Walked}
use oncm.Community.Listing.Breaking.{
  IsDistinct, first_of_cycle-has, up_to-has, up_to-split, plain-AllSafe, cycle-AllSafe,
}

pub record IsSound (ids : List ℕ) (v : View) : Type 0 where
  pub closed : IsClosed ids v.parents
  pub safe : All (Safe v.finished v.parents) v.finished

cut-IsClosed : (ids : List ℕ) (root : ℕ) (p : Parents) → IsClosed ids p → IsClosed ids (cut root p)
cut-IsClosed ids root p c = record {
  closed = λ x y h. elim (Bool-cases (x == root)) [
    | inl e ↦ cc (rw e at h)
    | inr e ↦ c.closed x y (rw e at h)
  ];
}

module _ (ids : List ℕ) (distinct : IsDistinct ids) where
  cycle-IsSound :
      (v : View) (t : List ℕ) (y : ℕ)
      → IsSound ids v
      → IsTrail ids v.finished v.parents t (some y)
      → has y t ≡ true
      → All (Safe (t ++ v.finished) (cut (first_of_cycle y t) v.parents)) (t ++ v.finished)
  cycle-IsSound v t y s w looped =
      let root : ℕ = first_of_cycle y t in
      let there : has root t ≡ true = up_to-has y root t (first_of_cycle-has y t looped) in
      let (later, earlier, same, entered) =
        up_to-split y root t looped (first_of_cycle-has y t looped) in
      subst (λ u. All (Safe (u ++ v.finished) (cut root v.parents)) (u ++ v.finished)) (sym same)
        (cycle-AllSafe v.finished v.parents s.safe later earlier root y
          (subst (Chain v.parents (some y)) same w.chain)
          (subst (λ u. times root u ≤ 1) same (omega (arith, w.few root, distinct.once root)))
          (w.apart root there) entered)

  end_walk-IsSound :
      {start : Option ℕ} (v : View) (t : List ℕ) (e : Option ℕ)
      → IsSound ids v
      → Walked ids v.finished v.parents [] start t e
      → IsSound ids (end_walk t e v) × ((end_walk t e v).finished ≡ t ++ v.finished)
  unfolding end_walk
  end_walk-IsSound v t none s w = (
    record {
      closed = s.closed;
      safe = plain-AllSafe v.finished v.parents s.safe t none w.is_trail.chain tt;
    },
    refl,
  )
  end_walk-IsSound v t (some y) s w = elim (Bool-cases (has y t)) [
    | inl looped ↦
        rw (looped, end_walk)
          (
            record {
              closed = cut-IsClosed ids (first_of_cycle y t) v.parents s.closed;
              safe = cycle-IsSound v t y s w.is_trail looped;
            },
            refl,
          )
    | inr ended ↦
        let before : has y v.finished ≡ true = is_finished y v.finished t w.met ended in
        rw (ended, end_walk)
          (
            record {
              closed = s.closed;
              safe =
                  plain-AllSafe v.finished v.parents s.safe t (some y) w.is_trail.chain (
                    Safe-append t (All-has (Safe v.finished v.parents) y v.finished s.safe before));
            },
            refl,
          )
  ]
    where
      is_finished :
          (y : ℕ) (F t : List ℕ) → is_met F t (some y) ≡ true → has y t ≡ false → has y F ≡ true
      is_finished y F t h k = ground arith

  -- What holds when the comments `cs` have been walked from.
  pub record IsBroken (cs : List Decorated) (before : View) (v : View) : Type 0 where
    pub sound : IsSound ids v
    pub all_finished : All (λ c. has (id_of c) v.finished ≡ true) cs
    pub kept : (x : ℕ) → has x before.finished ≡ true → has x v.finished ≡ true

  start-IsTrail : (finished : List ℕ) (p : Parents) (x : ℕ) → IsTrail ids finished p [] (some x)
  unfolding times
  start-IsTrail finished p x = record { chain = tt; few = λ z. omega arith; apart = λ z h. cc }

  pub break_cycles-IsBroken :
      (fuel : ℕ) (cs : List Decorated) (v : View)
      → length ids < fuel
      → IsSound ids v
      → All (λ c. has (id_of c) ids ≡ true) cs
      → (v' : View) × (break_cycles fuel cs v ≡ some v') × IsBroken cs v v'
  unfolding break_cycles
  break_cycles-IsBroken fuel [] v h s listed =
      (v, refl, record { sound = s; all_finished = tt; kept = λ x k. k })
  break_cycles-IsBroken fuel (c ∷ cs) v h s listed =
      let (t, e, walked, w) =
        walk-Walked ids v.finished v.parents s.closed fuel [] (some (id_of c))
          (start-IsTrail v.finished v.parents (id_of c)) listed.0 (omega arith) in
      let (sound, finished) = end_walk-IsSound v t e s w in
      let (v', ran, b) = break_cycles-IsBroken fuel cs (end_walk t e v) h sound listed.1 in
      (
        v',
        rw (walked, break_cycles) ran,
        record {
          sound = b.sound;
          all_finished = (
            b.kept (id_of c) (subst (λ u. has (id_of c) u ≡ true) (sym finished) w.reached),
            b.all_finished,
          );
          kept = λ x k.
              b.kept x
                (subst (λ u. has x u ≡ true) (sym finished) (has-append_right x t v.finished k));
        },
      )
