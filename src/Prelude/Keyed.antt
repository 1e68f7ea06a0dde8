-- ===== src/Prelude/Keyed.antt =====
-- A JavaScript `Map` as the list of its entries in insertion order.
use oncm.Prelude.{
  length, ◌+◌, ◌≤◌, ◌≡◌, refl, Bool, List, [], ◌∷◌, Option, none, some, ◌≢◌, ite, if_neg, sym,
  arith, All, All-keep, keep, if◌then◌else◌,
}

module _ {ℓ} {K V : Type ℓ} (dec : Discrete K) where
  -- `map.get(k)`
  unfoldable pub get : K → List (K × V) → Option V
  get k [] = none
  get k ((j, v) ∷ m) = ite (dec j k) (some v) (get k m)

  -- `map.set(k, v)`: in place if the key is there, else at the end.
  unfoldable pub put : K → V → List (K × V) → List (K × V)
  put k v [] = (k, v) ∷ []
  put k v ((j, w) ∷ m) = ite (dec j k) ((j, v) ∷ m) ((j, w) ∷ put k v m)

  -- `map.delete(k)`
  unfoldable pub delete : K → List (K × V) → List (K × V)
  delete k [] = []
  delete k ((j, w) ∷ m) = ite (dec j k) m ((j, w) ∷ delete k m)

  -- No entry has the key.
  abbrev pub IsFresh : K → List (K × V) → Type ℓ
  IsFresh k m = All (λ e. e.0 ≢ k) m

  -- The keys are distinct.
  abbrev pub IsMap : List (K × V) → Type ℓ
  IsMap [] = Unit
  IsMap ((j, v) ∷ m) = IsFresh j m × IsMap m

  pub get-put :
      (k j : K) (v : V) (m : List (K × V)) → get j (put k v m) ≡ ite (dec k j) (some v) (get j m)
  unfolding get put
  get-put k j v [] = refl
  get-put k j v ((i, w) ∷ m) = ground (arith, get-put k j v m)

  pub get_of_IsFresh : (k : K) (m : List (K × V)) → IsFresh k m → get k m ≡ none
  unfolding get
  get_of_IsFresh k [] h = refl
  get_of_IsFresh k ((j, v) ∷ m) h = ground (arith, get_of_IsFresh k m h.1)

  pub get-none-IsFresh : (k : K) (m : List (K × V)) → get k m ≡ none → IsFresh k m
  unfolding get
  get-none-IsFresh k [] h = tt
  get-none-IsFresh k ((j, v) ∷ m) h = ground (arith, get-none-IsFresh k m)

  pub put-IsFresh :
      (k j : K) (v : V) (m : List (K × V)) → k ≢ j → IsFresh j m → IsFresh j (put k v m)
  unfolding put
  put-IsFresh k j v [] n h = (n, tt)
  put-IsFresh k j v ((i, w) ∷ m) n h = ground (arith, put-IsFresh k j v m n h.1)

  pub put-IsMap : (k : K) (v : V) (m : List (K × V)) → IsMap m → IsMap (put k v m)
  unfolding put
  put-IsMap k v [] h = (tt, tt)
  put-IsMap k v ((j, w) ∷ m) h = elim (dec j k) [
    | yes p ↦ ground arith
    | no p ↦ rw (if_neg _ p) (put-IsFresh k j v m (λ e. p (sym e)) h.0, put-IsMap k v m h.1)
  ]

  -- `for (const [k, v] of map) if (!p(v)) map.delete(k)`
  abbrev pub retain : (V → Bool) → List (K × V) → List (K × V)
  retain p m = keep (λ e. p e.1) m

  pub get-retain :
      (p : V → Bool) (k : K) (m : List (K × V))
      → IsMap m
      → get k (retain p m) ≡ elim (get k m) [ none ↦ none | some v ↦ if p v then some v else none ]
  unfolding get
  get-retain p k [] h = refl
  get-retain p k ((j, v) ∷ m) h = ground (arith, get-retain p k m h.1, get_of_IsFresh k m)

  pub retain-IsMap : (p : V → Bool) (m : List (K × V)) → IsMap m → IsMap (retain p m)
  retain-IsMap p [] h = h
  retain-IsMap p ((j, v) ∷ m) h =
      ground
        (arith, retain-IsMap p m h.1, All-keep (λ (e : K × V). e.0 ≢ j) (λ (e : K × V). p e.1) m)

  delete-IsFresh : (k j : K) (m : List (K × V)) → IsFresh j m → IsFresh j (delete k m)
  unfolding delete
  delete-IsFresh k j [] h = tt
  delete-IsFresh k j ((i, w) ∷ m) h = ground (arith, delete-IsFresh k j m h.1)

  pub delete-IsMap : (k : K) (m : List (K × V)) → IsMap m → IsMap (delete k m)
  unfolding delete
  delete-IsMap k [] h = tt
  delete-IsMap k ((j, w) ∷ m) h = ground (arith, delete-IsMap k m h.1, delete-IsFresh k j m h.0)

  pub get-delete :
      (k j : K) (m : List (K × V)) → IsMap m → get j (delete k m) ≡ ite (dec k j) none (get j m)
  unfolding get delete
  get-delete k j [] h = ground arith
  get-delete k j ((i, w) ∷ m) h = ground (arith, get-delete k j m h.1, get_of_IsFresh j m)

  pub length-delete-le : (k : K) (m : List (K × V)) → length (delete k m) ≤ length m
  unfolding delete
  length-delete-le k [] = omega arith
  length-delete-le k ((i, w) ∷ m) = ground (arith, length-delete-le k m)

  pub length-delete_hit :
      (k : K) (m : List (K × V)) {w : V} → get k m ≡ some w → length (delete k m) + 1 ≡ length m
  unfolding delete get
  length-delete_hit k [] h = cc
  length-delete_hit k ((j, w) ∷ m) {w = u} h = ground (arith, length-delete_hit k m {w = u})

  pub length-put-le : (k : K) (v : V) (m : List (K × V)) → length (put k v m) ≤ length m + 1
  unfolding put
  length-put-le k v [] = omega arith
  length-put-le k v ((j, w) ∷ m) = ground (arith, length-put-le k v m)

  pub length-put_hit :
      (k : K) (v : V) (m : List (K × V)) {w : V} → get k m ≡ some w → length (put k v m) ≡ length m
  unfolding put get
  length-put_hit k v [] h = cc
  length-put_hit k v ((j, w) ∷ m) {w = u} h = ground (arith, length-put_hit k v m {w = u})
