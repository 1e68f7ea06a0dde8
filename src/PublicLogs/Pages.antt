-- ===== src/PublicLogs/Pages.antt =====
-- public-logs.mjs: the pages together are the one query that they replace.
use oncm.Prelude.{
  ℕ, zero, suc, ◌+◌, ◌-◌, ◌*◌, ◌/◌, ◌≤◌, ◌<◌, ◌≡◌, refl, sym, ◌∙◌, ap, true, false, ◌||◌, List, [],
  ◌∷◌, ◌++◌, length, ltb, leb, ◌==◌, if◌then◌else◌, Result, ok, throw, ◌>>=◌, arith, Bool-cases,
  inl, inr, dec_lt,
}
use oncm.PublicLogs.{Error, Query, range, Limits, append, fetch, fetch_range}

module _ {A : Type 0} where
  -- The logs of `n` blocks from a block on.
  abbrev pub blocks : (ℕ → List A) → ℕ → ℕ → List A
  blocks logs_of a zero = []
  blocks logs_of a (suc n) = logs_of a ++ blocks logs_of (suc a) n

  append_nil : (xs : List A) → xs ++ [] ≡ xs
  append_nil [] = refl
  append_nil (x ∷ xs) = ap (◌∷◌ x) (append_nil xs)

  append_assoc : (xs ys zs : List A) → (xs ++ ys) ++ zs ≡ xs ++ (ys ++ zs)
  append_assoc [] ys zs = refl
  append_assoc (x ∷ xs) ys zs = ap (◌∷◌ x) (append_assoc xs ys zs)

  blocks-add :
      (f : ℕ → List A) (a m n : ℕ) → blocks f a (m + n) ≡ blocks f a m ++ blocks f (a + m) n
  blocks-add f a zero n =
      let e : a + 0 ≡ a = omega arith in let k : 0 + n ≡ n = omega arith in cc (e, k)
  blocks-add f a (suc m) n =
      let e : suc a + m ≡ a + suc m = omega arith in
      let k : suc m + n ≡ suc (m + n) = omega arith in
      ap (λ (x : ℕ). blocks f a x) k
      ∙ ap (λ (xs : List A). f a ++ xs)
          (blocks-add f (suc a) m n ∙ ap (λ (k : ℕ). blocks f (suc a) m ++ blocks f k n) e)
      ∙ sym (append_assoc (f a) (blocks f (suc a) m) (blocks f (a + suc m) n))

module _ {A : Type 0} (size_of : A → ℕ) (l : Limits) (query : Query → Result Error (List A)) where
  append-++ :
      (xs ys : List A) (acc : List A × ℕ)
      → append size_of l query (xs ++ ys) acc
        ≡ (append size_of l query xs acc >>= append size_of l query ys)
  unfolding append
  append-++ [] ys acc = refl
  append-++ (x ∷ xs) ys (logs, bytes) =
      elim (Bool-cases (leb l.max_logs (length logs) || ltb l.max_bytes (bytes + size_of x))) [
        | inl e ↦ rw e refl
        | inr e ↦ rw e (append-++ xs ys (logs ++ x ∷ [], bytes + size_of x))
      ]

  >>=_ok : {B : Type 0} (m : Result Error B) → (m >>= λ x. ok x) ≡ m
  >>=_ok (ok x) = refl
  >>=_ok (throw e) = refl

  fetch_done :
      (fuel start last : ℕ) (acc : List A × ℕ)
      → last < start
      → fetch size_of l query fuel start last acc ≡ ok acc
  unfolding fetch
  fetch_done zero start last acc h = ground arith
  fetch_done (suc fuel) start last acc h = ground arith

  -- The provider answers each range with the logs of its blocks.
  abbrev pub Answers : (ℕ → List A) → Type 0
  Answers f = (a n : ℕ) → query (range a (a + n)) ≡ ok (blocks f a (suc n))

  page-eq :
      (f : ℕ → List A) (start n last : ℕ)
      → Answers f
      → last ≡ start + n
      → query (range start last) ≡ ok (blocks f start (suc n))
  page-eq f start n last h e = rw e (h start n)

  -- the last page, and a page with more after it
  fetch_last :
      (f : ℕ → List A) (fuel start last : ℕ) (acc : List A × ℕ)
      → Answers f
      → 0 < l.page_size
      → start ≤ last
      → last < start + l.page_size
      → fetch size_of l query (suc fuel) start last acc
        ≡ append size_of l query (blocks f start (suc (last - start))) acc
  unfolding fetch
  fetch_last f fuel start last acc h p q r =
      let e : (if ltb last (start + l.page_size - 1) then last else start + l.page_size - 1)
          ≡ last =
        ground arith in
      let page = page-eq f start (last - start) last h (omega (arith, q)) in
      let go : leb start last ≡ true = ground arith in
      rw (go, e, page) (finish (append size_of l query (blocks f start (suc (last - start))) acc))
    where
      finish :
          (m : Result Error (List A × ℕ))
          → (m >>= λ acc'. fetch size_of l query fuel (start + l.page_size) last acc') ≡ m
      finish (ok x) = fetch_done fuel (start + l.page_size) last x r
      finish (throw e) = refl

  fetch_more :
      (f : ℕ → List A) (fuel start last : ℕ) (acc : List A × ℕ)
      → Answers f
      → 0 < l.page_size
      → start + l.page_size ≤ last
      → fetch size_of l query (suc fuel) start last acc ≡ (
          append size_of l query (blocks f start l.page_size) acc
          >>= fetch size_of l query fuel (start + l.page_size) last)
  unfolding fetch
  fetch_more f fuel start last acc h p r =
      let e : (if ltb last (start + l.page_size - 1) then last else start + l.page_size - 1)
          ≡ start + l.page_size - 1 =
        ground arith in
      let size : suc (l.page_size - 1) ≡ l.page_size = omega (arith, p) in
      let page =
        page-eq f start (l.page_size - 1) (start + l.page_size - 1) h (omega (arith, p))
        ∙ ap (λ (k : ℕ). ok (blocks f start k)) size in
      let go : leb start last ≡ true = ground arith in rw (go, e, page) refl

  append_none : (acc : List A × ℕ) → append size_of l query [] acc ≡ ok acc
  unfolding append
  append_none acc = refl

  >>=_cong :
      {B C : Type 0} (m : Result Error B) (g h : B → Result Error C)
      → ((b : B) → g b ≡ h b)
      → (m >>= g) ≡ (m >>= h)
  >>=_cong (ok b) g h e = e b
  >>=_cong (throw x) g h e = refl

  -- With enough fuel, the loop is `append` at all the logs of its blocks.
  fetch-append :
      (f : ℕ → List A) (fuel start last n : ℕ) (acc : List A × ℕ)
      → Answers f
      → 0 < l.page_size
      → start + n ≡ suc last
      → n ≤ fuel * l.page_size
      → fetch size_of l query fuel start last acc ≡ append size_of l query (blocks f start n) acc
  fetch-append f zero start last n acc h p e k =
      let none' : n ≡ 0 = omega (arith, k) in
      rw none' (fetch_done zero start last acc (omega (arith, e, none')) ∙ sym (append_none acc))
  fetch-append f (suc fuel) start last zero acc h p e k =
      fetch_done (suc fuel) start last acc (omega (arith, e)) ∙ sym (append_none acc)
  fetch-append f (suc fuel) start last (suc n) acc h p e k =
      elim (dec_lt last (start + l.page_size)) [
        | yes near ↦
            let m : last - start ≡ n = omega (arith, e) in
            fetch_last f fuel start last acc h p (omega (arith, e)) near
            ∙ ap (λ (x : ℕ). append size_of l query (blocks f start (suc x)) acc) m
        | no far ↦
            let whole : suc n ≡ l.page_size + (suc n - l.page_size) = omega (arith, e, far) in
            let left : suc n - l.page_size ≤ fuel * l.page_size = fits (suc n) fuel l.page_size k in
            fetch_more f fuel start last acc h p (omega (arith, far))
            ∙ >>=_cong (append size_of l query (blocks f start l.page_size) acc) _ _ (λ acc'.
              fetch-append f fuel (start + l.page_size) last (suc n - l.page_size) acc' h p
                (omega (arith, e, far)) left)
            ∙ sym (
                append-++ (blocks f start l.page_size)
                  (blocks f (start + l.page_size) (suc n - l.page_size)) acc)
            ∙ ap (λ (xs : List A). append size_of l query xs acc)
                (sym (blocks-add f start l.page_size (suc n - l.page_size))
                  ∙ ap (λ (x : ℕ). blocks f start x) (sym whole))
      ]
    where
      fits : (n fuel size : ℕ) → n ≤ suc fuel * size → n - size ≤ fuel * size
      fits n fuel size h = omega (arith, h)

  div_fits : (n size : ℕ) → 0 < size → n < (n / size + 1) * size
  div_fits n size h = omega (arith, h)

  -- Where the provider answers each range with the logs of its blocks, the pages of a range are as one query for all of it,
  -- with the same limits on what comes back: no block is missed or asked for twice.
  pub fetch_range-append :
      (f : ℕ → List A) (first last : ℕ)
      → Answers f
      → 0 < l.page_size
      → first ≤ last
      → (last - first) / l.page_size + 1 ≤ l.max_pages
      → fetch_range size_of l query first last
        ≡ append size_of l query (blocks f first (last - first + 1)) ([], 0)
  unfolding fetch_range
  fetch_range-append f first last h p q k =
      let a : ltb last first ≡ false = ground arith in
      let b : (l.page_size == 0) ≡ false = ground arith in
      let c : ltb l.max_pages ((last - first) / l.page_size + 1) ≡ false = ground arith in
      rw (a, b, c)
        (fetch-append f ((last - first) / l.page_size + 1) first last (last - first + 1) ([], 0) h p
          (omega (arith, q)) (omega (arith, div_fits (last - first) l.page_size p)))
