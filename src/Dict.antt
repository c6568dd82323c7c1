-- ===== src/Dict.antt =====
-- Python's `dict`: an association list in insertion order, which is the order of iteration. A write
-- to a key that is present keeps its place.
use proxy_model_py.Base.{
  suc, ◌≤◌, ◌<◌, ◌≡◌, refl, ◌≢◌, inl, inr, Bool, Option, none, some, List, [], ◌∷◌, arith, Eq, ◌==◌,
  ==_refl, if◌then◌else◌, is_some, length, Bool-cases,
}

abbrev pub Dict {ℓ} : Type 0 → Type ℓ → Type ℓ
Dict K V = List (K × V)

module _ {ℓ} {K : Type 0} {V : Type ℓ} ⦃e : Eq K⦄ where
  -- d.get(k, None)
  unfoldable pub get : Dict K V → K → Option V
  get [] k = none
  get ((j, v) ∷ d) k = if j == k then some v else get d k

  -- k in d
  unfoldable pub contains : Dict K V → K → Bool
  unfolding get
  contains d k = is_some (get d k)

  -- d[k] = v
  unfoldable pub put : Dict K V → K → V → Dict K V
  put [] k v = (k, v) ∷ []
  put ((j, w) ∷ d) k v = if j == k then (j, v) ∷ d else (j, w) ∷ put d k v

  -- d.pop(k, None), without the value
  unfoldable pub remove : Dict K V → K → Dict K V
  remove [] k = []
  remove ((j, w) ∷ d) k = let rest = remove d k in if j == k then rest else (j, w) ∷ rest

  pub get-put :
      (d : Dict K V) (k j : K) (v : V) → get (put d k v) j ≡ (if k == j then some v else get d j)
  unfolding get put
  get-put [] k j v = refl
  get-put ((i, w) ∷ d) k j v =
      ground (arith, e.same_iff i k, e.same_iff i j, e.same_iff k j, get-put d k j v)

  pub get-remove :
      (d : Dict K V) (k j : K) → get (remove d k) j ≡ (if k == j then none else get d j)
  unfolding get remove
  get-remove [] k j = ground arith
  get-remove ((i, w) ∷ d) k j =
      ground (arith, e.same_iff i k, e.same_iff i j, e.same_iff k j, get-remove d k j)

  pub get-put_self : (d : Dict K V) (k : K) (v : V) → get (put d k v) k ≡ some v
  get-put_self d k v = ground (arith, get-put d k k v, ==_refl k)

  pub get-remove_self : (d : Dict K V) (k : K) → get (remove d k) k ≡ none
  get-remove_self d k = ground (arith, get-remove d k k, ==_refl k)

  -- A new key makes one more entry.
  pub length-put_new :
      (d : Dict K V) (k : K) (v : V) → get d k ≡ none → length (put d k v) ≡ suc (length d)
  unfolding get put
  length-put_new [] k v h = refl
  length-put_new ((i, w) ∷ d) k v h = ground (arith, length-put_new d k v)

  pub length-remove-le : (d : Dict K V) (k : K) → length (remove d k) ≤ length d
  unfolding remove
  length-remove-le [] k = omega arith
  length-remove-le ((i, w) ∷ d) k = ground (arith, length-remove-le d k)

  -- A key that is present leaves fewer entries behind.
  pub length-remove-lt : (d : Dict K V) (k : K) → get d k ≢ none → length (remove d k) < length d
  unfolding get remove
  length-remove-lt [] k h = absurd (h refl)
  length-remove-lt ((i, w) ∷ d) k h = ground (arith, length-remove-lt d k, length-remove-le d k)

  -- Removing an absent key changes nothing.
  pub remove_absent : (d : Dict K V) (k : K) → get d k ≡ none → remove d k ≡ d
  unfolding get remove
  remove_absent [] k h = refl
  remove_absent ((i, w) ∷ d) k h = ground (arith, remove_absent d k)

  -- A new key, removed again, leaves the dict as it was.
  pub remove-put : (d : Dict K V) (k : K) (v : V) → get d k ≡ none → remove (put d k v) k ≡ d
  unfolding get put remove
  remove-put [] k v h = ground (arith, ==_refl k)
  remove-put ((i, w) ∷ d) k v h = ground (arith, remove-put d k v)

  -- No key stands twice.
  abbrev pub HasUniqueKeys : Dict K V → Type ℓ
  HasUniqueKeys [] = Unit
  HasUniqueKeys ((k, v) ∷ d) = (get d k ≡ none) × HasUniqueKeys d

  pub put-HasUniqueKeys :
      (d : Dict K V) (k : K) (v : V) → HasUniqueKeys d → HasUniqueKeys (put d k v)
  unfolding put get
  put-HasUniqueKeys [] k v u = (refl, tt)
  put-HasUniqueKeys ((i, w) ∷ d) k v u = elim (Bool-cases (i == k)) [
    | inl same ↦ rw same u
    | inr other ↦ rw other (
      ground (arith, get-put d k i v, e.same_iff k i, e.same_iff i k),
      put-HasUniqueKeys d k v u.1,
    )
  ]

  pub remove-HasUniqueKeys : (d : Dict K V) (k : K) → HasUniqueKeys d → HasUniqueKeys (remove d k)
  unfolding remove get
  remove-HasUniqueKeys [] k u = tt
  remove-HasUniqueKeys ((i, w) ∷ d) k u = elim (Bool-cases (i == k)) [
    | inl same ↦ rw same (remove-HasUniqueKeys d k u.1)
    | inr other ↦ rw other (
      ground (arith, get-remove d k i, e.same_iff k i, e.same_iff i k),
      remove-HasUniqueKeys d k u.1,
    )
  ]

  -- A key that is present takes exactly its entry with it.
  pub length-remove_present :
      (d : Dict K V) (k : K) (v : V)
      → HasUniqueKeys d
      → get d k ≡ some v
      → suc (length (remove d k)) ≡ length d
  unfolding get remove
  length-remove_present [] k v u h = cc
  length-remove_present ((i, w) ∷ d) k v u h =
      ground (arith, length-remove_present d k v u.1, remove_absent d k, e.same_iff i k)
