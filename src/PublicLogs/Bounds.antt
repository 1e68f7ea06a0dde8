-- ===== src/PublicLogs/Bounds.antt =====
-- public-logs.mjs: the limits on what comes back.
use oncm.Prelude.{
  ℕ, zero, suc, ◌+◌, ◌-◌, ◌/◌, ◌≤◌, ◌≡◌, refl, ◌||◌, none, List, [], ◌∷◌, ◌++◌, length, ltb, leb,
  ◌==◌, Result, ok, throw_if, >>=-eq-ok, arith, sum_of, sum_of-append, length-append, Bool-cases,
  Option-cases, ok-injective, inl, inr,
}
use oncm.PublicLogs.{
  Error, Query, by_hash, Limits, Chain, Filter, append, fetch, fetch_range, paginated_logs,
  too_many_pages, backwards, division_by_zero, block_number,
}

module _ {A : Type 0} (size_of : A → ℕ) (l : Limits) (query : Query → Result Error (List A)) where
  append-Bounded :
      (page logs : List A) (bytes : ℕ) (all : List A) (total : ℕ)
      → append size_of l query page (logs, bytes) ≡ ok (all, total)
      → bytes ≡ sum_of size_of logs
      → length logs ≤ l.max_logs
      → bytes ≤ l.max_bytes
      → (total ≡ sum_of size_of all) × (length all ≤ l.max_logs) × (total ≤ l.max_bytes)
  unfolding append
  append-Bounded [] logs bytes all total h e m n = ground arith
  append-Bounded (x ∷ page) logs bytes all total h e m n =
      elim (Bool-cases (leb l.max_logs (length logs) || ltb l.max_bytes (bytes + size_of x))) [
        | inl stop ↦ cc (rw stop at h)
        | inr room ↦
            append-Bounded page (logs ++ x ∷ []) (bytes + size_of x) all total (rw room at h)
              (omega (arith, e, sum_of-append size_of logs (x ∷ [])))
              (ground (arith, length-append logs (x ∷ []))) (ground arith)
      ]

  -- The bytes are counted, and no limit is passed.
  abbrev pub Bounded : List A × ℕ → Type 0
  Bounded (logs, bytes) =
      (bytes ≡ sum_of size_of logs) × (length logs ≤ l.max_logs) × (bytes ≤ l.max_bytes)

  append_keeps :
      (page : List A) (acc acc' : List A × ℕ)
      → append size_of l query page acc ≡ ok acc'
      → Bounded acc
      → Bounded acc'
  append_keeps page (logs, bytes) (all, total) h (e, m, n) =
      append-Bounded page logs bytes all total h e m n

  fetch-Bounded :
      (fuel start last : ℕ) (acc acc' : List A × ℕ)
      → fetch size_of l query fuel start last acc ≡ ok acc'
      → Bounded acc
      → Bounded acc'
  unfolding fetch
  fetch-Bounded zero start last acc acc' h v = elim (Bool-cases (leb start last)) [
    | inl more ↦ cc (rw more at h)
    | inr done ↦ (let e : acc ≡ acc' = ok-injective (rw done at h) in rw e at v)
  ]
  fetch-Bounded (suc fuel) start last acc acc' h v = elim (Bool-cases (leb start last)) [
    | inl more ↦
        let (page, _, h1) = >>=-eq-ok (query _) _ (rw more at h) in
        let (mid, h2, h3) = >>=-eq-ok (append size_of l query page acc) _ h1 in
        fetch-Bounded fuel (start + l.page_size) last mid acc' h3 (append_keeps page acc mid h2 v)
    | inr done ↦ (let e : acc ≡ acc' = ok-injective (rw done at h) in rw e at v)
  ]

  fetch_range-Bounded :
      (first last : ℕ) (acc : List A × ℕ)
      → fetch_range size_of l query first last ≡ ok acc
      → Bounded ([], 0)
      → Bounded acc
  unfolding fetch_range
  fetch_range-Bounded first last acc h start =
      let (_, _, h5) = >>=-eq-ok (throw_if (ltb last first) backwards) _ h in
      let (_, _, h6) = >>=-eq-ok (throw_if (l.page_size == 0) division_by_zero) _ h5 in
      let (_, _, h7) =
        >>=-eq-ok (throw_if (ltb l.max_pages ((last - first) / l.page_size + 1)) too_many_pages) _
          h6 in
      fetch-Bounded ((last - first) / l.page_size + 1) first last ([], 0) acc h7 start

  -- Logs that are returned pass neither the limit on their number nor the one on their bytes, whatever the
  -- provider answers.
  pub paginated_logs-Bounded :
      (chain : Chain) (f : Filter) (logs : List A)
      → paginated_logs size_of l query chain f ≡ ok logs
      → (length logs ≤ l.max_logs) × (sum_of size_of logs ≤ l.max_bytes)
  unfolding paginated_logs
  paginated_logs-Bounded chain f logs h = elim (Option-cases f.block_hash) [
    | inr (hash, e) ↦
        let (page, _, h1) = >>=-eq-ok (query (by_hash hash)) _ (rw e at h) in
        let ((all, bytes), h2, h3) = >>=-eq-ok (append size_of l query page ([], 0)) _ h1 in
        bounded all bytes (ok-injective h3) (append_keeps page ([], 0) (all, bytes) h2 start)
    | inl e ↦
        let ((known, first), _, h1) =
          >>=-eq-ok (block_number chain f.from_block none) _ (rw e at h) in
        let ((known', last), _, h2) = >>=-eq-ok (block_number chain f.to_block known) _ h1 in
        let ((all, bytes), h3, h4) = >>=-eq-ok (fetch_range size_of l query first last) _ h2 in
        bounded all bytes (ok-injective h4) (fetch_range-Bounded first last (all, bytes) h3 start)
  ]
    where
      start : Bounded ([], 0)
      start = (refl, omega arith, omega arith)

      bounded :
          (all : List A) (bytes : ℕ)
          → all ≡ logs
          → Bounded (all, bytes)
          → (length logs ≤ l.max_logs) × (sum_of size_of logs ≤ l.max_bytes)
      bounded all bytes e (c, m, n) =
          let r : (length all ≤ l.max_logs) × (sum_of size_of all ≤ l.max_bytes) =
            (m, omega (arith, c, n)) in
          rw e at r
