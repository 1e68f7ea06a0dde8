-- ===== src/Treasury/Allocation/Shares.antt =====
-- treasury.mjs, `allocationWithTreasury`: what a draft that it returns promises.
use mathlib.Core.List.{Mem, Perm, perm_append_singleton, map-append, mem-cons_self, mem-cons_of_mem}
use mathlib.Core.List.Perm
use native.Mathlib.Nat.{mod-lt, div-add-mod}
use oncm.Prelude.{
  ℕ, ◌+◌, ◌-◌, ◌*◌, ◌≤◌, ◌<◌, ◌≡◌, refl, ap, ◌∙◌, ◌⊎◌, inl, inr, false, ◌||◌, List, [], ◌∷◌, ◌++◌,
  map, length, sum_of, All, All-append, any, leb, ◌==◌, ok, throw, Result, ◌>>◌, throw_if, arith,
  sum_of-append, sum_of-map, length-map, Bool-cases, subst,
}
use oncm.Prelude.Sort.{sort, length-sort, sum_of-sort, All-sort, sort-perm}
use oncm.Treasury.Allocation.{
  Row, Scaled, Error, bad_others, rounds_to_zero, scale, by_remainder, by_recipient, others_of,
  share_out,
}
use oncm.Treasury.Allocation.Rounding.{
  total, scaled, floors, floors-le, dust-le-length, bump, spread-bump, sum_of-bump, recipients-bump,
  All-bump,
}

module _ (treasury bps : ℕ) (rows : List Row) where
  abbrev pub others : List Row
  others = others_of treasury rows

  abbrev pub remaining : ℕ
  remaining = 10000 - bps

  -- the shares after the dust
  abbrev spread_out : List Scaled
  spread_out =
      bump (remaining - floors remaining others) (sort by_remainder (scaled remaining others))

  abbrev drafted : List Row
  drafted =
      sort by_recipient
        (map (λ r. r.row) spread_out ++ record { recipient = treasury; weight = bps } ∷ [])

  dust_fits :
      0 < total remaining others
      → remaining - floors remaining others ≤ length (sort by_remainder (scaled remaining others))
  dust_fits h = omega (
    arith,
    length-sort by_remainder (scaled remaining others),
    length-map (scale remaining (total remaining others)) others,
    dust-le-length remaining others h,
  )

  -- With the loop over the dust evaluated.
  share_out-eq :
      ((total remaining others == 0) || leb 32 (length others)) ≡ false
      → share_out treasury bps rows
        ≡ (throw_if (any (λ r. r.weight == 0) spread_out) rounds_to_zero >> ok drafted)
  unfolding share_out
  share_out-eq h = rw (h, spread-bump _ _ (dust_fits (ground arith)))

  -- An exact share of another recipient, rounded down or up.
  pub record IsRounded (r : Row) : Type 0 where
    pub weight : ℕ
    pub listed : Mem (record { recipient = r.recipient; weight = weight }) others
    pub not_above : r.weight * total remaining others ≤ weight * remaining + total remaining others
    pub not_below : weight * remaining < r.weight * total remaining others + total remaining others

  abbrev pub IsShare : Row → Type 0
  IsShare r = ((r.recipient ≡ treasury) × (r.weight ≡ bps)) ⊎ IsRounded r

  pub record IsShared (drafts : List Row) : Type 0 where
    pub full : sum_of (λ r. r.weight) drafts ≡ 10000
    pub recipients : Perm (map (λ r. r.recipient) drafts) (treasury ∷ map (λ r. r.recipient) others)
    pub shares : All IsShare drafts
    pub positive : All (λ r. 0 < r.weight) drafts

  drafted_full : bps ≤ 10000 → 0 < total remaining others → sum_of (λ r. r.weight) drafted ≡ 10000
  drafted_full b h = omega (
    arith,
    sum_of-sort by_recipient (λ r. r.weight)
        (map (λ (x : Scaled). x.row) spread_out
          ++ record { recipient = treasury; weight = bps } ∷ []),
    sum_of-append (λ (r : Row). r.weight) (map (λ (x : Scaled). x.row) spread_out)
        (record { recipient = treasury; weight = bps } ∷ []),
    sum_of-map (λ (r : Row). r.weight) (λ (x : Scaled). x.row) spread_out,
    sum_of-bump _ _ (dust_fits h),
    sum_of-sort by_remainder (λ x. x.weight) (scaled remaining others),
    floors-le remaining others h,
  )

  recipients-scaled :
      (rs : List Row) (r t : ℕ)
      → map (λ (x : Scaled). x.recipient) (map (scale r t) rs) ≡ map (λ x. x.recipient) rs
  unfolding scale
  recipients-scaled [] r t = refl
  recipients-scaled (x ∷ rs) r t = ap (◌∷◌ x.recipient) (recipients-scaled rs r t)

  map-rows :
      (xs : List Scaled)
      → map (λ (r : Row). r.recipient) (map (λ (x : Scaled). x.row) xs) ≡ map (λ x. x.recipient) xs
  map-rows [] = refl
  map-rows (x ∷ xs) = ap (◌∷◌ x.recipient) (map-rows xs)

  drafted_recipients :
      Perm (map (λ r. r.recipient) drafted) (treasury ∷ map (λ r. r.recipient) others)
  drafted_recipients = Perm.trans (Perm.map (λ (r : Row). r.recipient) (sort-perm by_recipient _)) (
      rw
        (
          map-append (λ (r : Row). r.recipient) (map (λ (x : Scaled). x.row) spread_out),
          map-rows spread_out,
          recipients-bump (remaining - floors remaining others)
              (sort by_remainder (scaled remaining others)),
        )
        (Perm.trans (perm_append_singleton treasury _) (
          Perm.cons treasury (
            rw (← recipients-scaled others remaining (total remaining others)) (
              Perm.map (λ (x : Scaled). x.recipient)
                (sort-perm by_remainder (scaled remaining others)))))))

  -- A share that is rounded down.
  abbrev IsFloor : Scaled → Type 0
  IsFloor x =
      (w : ℕ) × Mem (record { recipient = x.recipient; weight = w }) others
      × (x.weight * total remaining others ≤ w * remaining)
      × (w * remaining < x.weight * total remaining others + total remaining others)

  scaled-IsFloor :
      (rs : List Row)
      → ((r : Row) → Mem r rs → Mem r others)
      → 0 < total remaining others
      → All IsFloor (map (scale remaining (total remaining others)) rs)
  unfolding scale
  scaled-IsFloor [] s h = tt
  scaled-IsFloor (r ∷ rs) s h = (
    (
      r.weight,
      s r mem-cons_self,
      omega (arith, div-add-mod (r.weight * remaining) (total remaining others)),
      omega (
        arith,
        div-add-mod (r.weight * remaining) (total remaining others),
        mod-lt (r.weight * remaining) h,
      ),
    ),
    scaled-IsFloor rs (λ q m. s q (mem-cons_of_mem r m)) h,
  )

  All-map_row :
      (xs : List Scaled)
      → All (λ (x : Scaled). IsShare (x.row)) xs
      → All IsShare (map (λ (x : Scaled). x.row) xs)
  All-map_row [] h = tt
  All-map_row (x ∷ xs) h = (h.0, All-map_row xs h.1)

  drafted_shares : 0 < total remaining others → All IsShare drafted
  drafted_shares h = All-sort by_recipient IsShare _ (
      All-append IsShare (map (λ (x : Scaled). x.row) spread_out) _
        (All-map_row spread_out (
          All-bump IsFloor (λ x. IsShare (x.row))
            (λ x (w, m, a, b).
              inr (record { weight = w; listed = m; not_above = omega arith; not_below = b }))
            (λ x (w, m, a, b).
              inr (record {
                weight = w;
                listed = m;
                not_above = omega arith;
                not_below = omega arith;
              }))
            _ _ (All-sort by_remainder IsFloor _ (scaled-IsFloor others (λ r m. m) h))))
        (inl (refl, refl), tt))

  none_zero :
      (xs : List Scaled)
      → any (λ (x : Scaled). x.weight == 0) xs ≡ false
      → All (λ (r : Row). 0 < r.weight) (map (λ (x : Scaled). x.row) xs)
  none_zero [] h = tt
  none_zero (x ∷ xs) h = ground (arith, none_zero xs)

  drafted-IsShared :
      0 < bps
      → bps ≤ 10000
      → 0 < total remaining others
      → any (λ (x : Scaled). x.weight == 0) spread_out ≡ false
      → IsShared drafted
  drafted-IsShared p b h z = record {
    full = drafted_full b h;
    recipients = drafted_recipients;
    shares = drafted_shares h;
    positive =
        All-sort by_recipient (λ (r : Row). 0 < r.weight) _
          (All-append (λ (r : Row). 0 < r.weight) (map (λ (x : Scaled). x.row) spread_out) _
            (none_zero spread_out z) (p, tt));
  }

  abbrev Outcome : Result Error (List Row) → Type 0
  Outcome r =
      (r ≡ throw bad_others)
      ⊎ (r ≡ throw rounds_to_zero)
      ⊎ ((drafts : List Row) × (r ≡ ok drafts) × IsShared drafts)

  -- Sharing out never runs past the rows, and what it returns is exactly shared.
  pub share_out-Outcome : 0 < bps → bps ≤ 10000 → Outcome (share_out treasury bps rows)
  unfolding share_out
  share_out-Outcome p b =
      elim (Bool-cases ((total remaining others == 0) || leb 32 (length others))) [
        | inl bad ↦ inl (rw bad)
        | inr good ↦ elim (Bool-cases (any (λ (x : Scaled). x.weight == 0) spread_out)) [
          | inl zero' ↦ inr (inl (share_out-eq good ∙ (rw zero')))
          | inr fine ↦ inr (
              inr
                (drafted, share_out-eq good ∙ (rw fine), drafted-IsShared p b (ground arith) fine))
        ]
      ]

  pub share_out-IsShared :
      0 < bps
      → bps ≤ 10000
      → (drafts : List Row) → share_out treasury bps rows ≡ ok drafts
      → IsShared drafts
  share_out-IsShared p b drafts e = elim (share_out-Outcome p b) [
    | inl f ↦ cc
    | inr (inl f) ↦ cc
    | inr (inr (found, f, shared)) ↦ subst IsShared (cc) shared
  ]
