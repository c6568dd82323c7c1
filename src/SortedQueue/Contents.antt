-- ===== src/SortedQueue/Contents.antt =====
-- What the calls of proxy/mempool/sorted_queue.py do to the items of a sorted queue.
use mathlib.Core.List.{Perm}
use mathlib.Core.List.Perm
use proxy_model_py.Base.{
  ℕ, zero, suc, ◌≤◌, ◌≡◌, refl, List, [], ◌∷◌, arith, ℤ, ◌≤ℤ◌, ltb_ℤ, length, All, get_elem?, some,
  string_eq, drop, inl, inr, Bool-cases,
}
use proxy_model_py.SortedQueue.{insert_at, remove_at}
use proxy_model_py.SortedQueue.Order.{IsSorted, scan_left}

module _ {A : Type 0} where
  pub All-insert_at :
      (P : A → Type 0) (i : ℕ) (x : A) (q : List A) → P x → All P q → All P (insert_at i x q)
  unfolding insert_at
  All-insert_at P zero x q hx hq = (hx, hq)
  All-insert_at P (suc i) x [] hx hq = (hx, tt)
  All-insert_at P (suc i) x (a ∷ q) hx hq = (hq.0, All-insert_at P i x q hx hq.1)

  pub All-remove_at : (P : A → Type 0) (i : ℕ) (q : List A) → All P q → All P (remove_at i q)
  unfolding remove_at
  All-remove_at P i [] h = tt
  All-remove_at P zero (a ∷ q) h = h.1
  All-remove_at P (suc i) (a ∷ q) h = (h.0, All-remove_at P i q h.1)

  pub insert_at-perm : (i : ℕ) (x : A) (q : List A) → Perm (insert_at i x q) (x ∷ q)
  unfolding insert_at
  insert_at-perm zero x q = Perm.rfl
  insert_at-perm (suc i) x [] = Perm.rfl
  insert_at-perm (suc i) x (a ∷ q) =
      Perm.trans (Perm.cons a (insert_at-perm i x q)) (Perm.swap x a q)

  pub remove_at-perm :
      (i : ℕ) (q : List A) (x : A) → get_elem? q i ≡ some x → Perm q (x ∷ remove_at i q)
  unfolding remove_at
  remove_at-perm i [] x e = cc
  remove_at-perm zero (a ∷ q) x e = Perm.cons' (ground arith) Perm.rfl
  remove_at-perm (suc i) (a ∷ q) x e =
      Perm.trans (Perm.cons a (remove_at-perm i q x e)) (Perm.swap x a _)

  pub remove_at-insert_at :
      (i : ℕ) (x : A) (q : List A) → i ≤ length q → remove_at i (insert_at i x q) ≡ q
  unfolding insert_at remove_at
  remove_at-insert_at zero x [] h = refl
  remove_at-insert_at zero x (a ∷ q) h = refl
  remove_at-insert_at (suc i) x [] h = absurd (omega arith)
  remove_at-insert_at (suc i) x (a ∷ q) h = ground (arith, remove_at-insert_at i x q)

  pub get_elem?-insert_at :
      (i : ℕ) (x : A) (q : List A) → i ≤ length q → get_elem? (insert_at i x q) i ≡ some x
  unfolding insert_at
  get_elem?-insert_at zero x q h = refl
  get_elem?-insert_at (suc i) x [] h = absurd (omega arith)
  get_elem?-insert_at (suc i) x (a ∷ q) h = get_elem?-insert_at i x q (omega arith)

  pub drop-insert_at :
      (i : ℕ) (x : A) (q : List A) → i ≤ length q → drop i (insert_at i x q) ≡ x ∷ drop i q
  unfolding insert_at
  drop-insert_at zero x q h = refl
  drop-insert_at (suc i) x [] h = absurd (omega arith)
  drop-insert_at (suc i) x (a ∷ q) h = drop-insert_at i x q (omega arith)

  pub length-insert_at : (i : ℕ) (x : A) (q : List A) → length (insert_at i x q) ≡ suc (length q)
  unfolding insert_at
  length-insert_at zero x q = refl
  length-insert_at (suc i) x [] = refl
  length-insert_at (suc i) x (a ∷ q) = ground (arith, length-insert_at i x q)

module _ {A : Type 0} (lt_key : A → ℤ) where
  pub All-le_trans :
      (x a : A) (q : List A)
      → lt_key x ≤ℤ lt_key a
      → All (λ b. lt_key a ≤ℤ lt_key b) q
      → All (λ b. lt_key x ≤ℤ lt_key b) q
  All-le_trans x a [] h hs = tt
  All-le_trans x a (b ∷ q) h hs = (omega arith, All-le_trans x a q h hs.1)

  pub insert_at-IsSorted :
      (x : A) (q : List A)
      → IsSorted lt_key q
      → IsSorted lt_key (insert_at (scan_left lt_key q (lt_key x)) x q)
  unfolding insert_at scan_left
  insert_at-IsSorted x [] s = (tt, tt)
  insert_at-IsSorted x (a ∷ q) s = elim (Bool-cases (ltb_ℤ (lt_key a) (lt_key x))) [
    | inl below ↦ rw below (
      All-insert_at (λ b. lt_key a ≤ℤ lt_key b) (scan_left lt_key q (lt_key x)) x q (ground arith)
          s.0,
      insert_at-IsSorted x q s.1,
    )
    | inr above ↦ rw above ((ground arith, All-le_trans x a q (ground arith) s.0), s)
  ]

  pub remove_at-IsSorted :
      (i : ℕ) (q : List A) → IsSorted lt_key q → IsSorted lt_key (remove_at i q)
  unfolding remove_at
  remove_at-IsSorted i [] s = tt
  remove_at-IsSorted zero (a ∷ q) s = s.1
  remove_at-IsSorted (suc i) (a ∷ q) s =
      (All-remove_at (λ b. lt_key a ≤ℤ lt_key b) i q s.0, remove_at-IsSorted i q s.1)

  -- Inserting at the scan's position leaves the position as it is.
  pub scan_left-insert_at :
      (x : A) (q : List A)
      → scan_left lt_key (insert_at (scan_left lt_key q (lt_key x)) x q) (lt_key x)
        ≡ scan_left lt_key q (lt_key x)
  unfolding insert_at scan_left
  scan_left-insert_at x [] = ground arith
  scan_left-insert_at x (a ∷ q) = elim (Bool-cases (ltb_ℤ (lt_key a) (lt_key x))) [
    | inl below ↦ rw below (rw below (ground (arith, scan_left-insert_at x q)))
    | inr above ↦ rw above (ground arith)
  ]
