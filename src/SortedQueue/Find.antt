-- ===== src/SortedQueue/Find.antt =====
-- `find` and `find_from_pos` of proxy/mempool/sorted_queue.py: what they find, and that they find it.
use proxy_model_py.Base.{
  ℕ, zero, suc, ◌+◌, ◌-◌, ◌≤◌, ◌≡◌, refl, Bool, true, false, List, [], ◌∷◌, arith, ℤ, ◌≤ℤ◌, ltb_ℤ,
  All, get_elem?, some, none, Option, String, ◌==◌, string_eq, ◌&&◌, ◌||◌, not, drop, inl, inr,
  Bool-cases,
}
use proxy_model_py.SortedQueue.{find, find_loop, key_differs}
use proxy_model_py.SortedQueue.Order.{IsSorted, scan_left}
use proxy_model_py.SortedQueue.Bisect.{bisect_left-eq-scan_left}
use proxy_model_py.SortedQueue.Contents.{All-le_trans}

module _ {A : Type 0} (lt_key : A → ℤ) (eq_key : A → String) where
  -- Both keys of `a` are those of `item`.
  abbrev pub same_item : A → A → Bool
  same_item item a = not (key_differs lt_key item a) && eq_key a == eq_key item

  -- Some item of the queue has both keys.
  unfoldable pub holds : List A → A → Bool
  holds [] item = false
  holds (a ∷ q) item = same_item item a || holds q item

  -- An item at some place with both keys is held.
  pub holds_at :
      (q : List A) (item : A) (i : ℕ) (a : A)
      → get_elem? q i ≡ some a
      → same_item item a ≡ true
      → holds q item ≡ true
  unfolding holds
  holds_at [] item i a e h = cc
  holds_at (b ∷ q) item zero a e h = ground arith
  holds_at (b ∷ q) item (suc i) a e h = ground (arith, holds_at q item i a e h)

  holds_above :
      (item a : A) (q : List A)
      → All (λ b. lt_key a ≤ℤ lt_key b) q
      → ltb_ℤ (lt_key item) (lt_key a) ≡ true
      → holds q item ≡ false
  unfolding holds
  holds_above item a [] h n = refl
  holds_above item a (b ∷ q) h n = ground (arith, holds_above item a q h.1 n)

  -- What a search that starts at `index` owes: the place of an item with both keys, or that there
  -- is none.
  abbrev pub Finds : ℕ → List A → A → Option ℕ → Type 0
  Finds index q item none = holds q item ≡ false
  Finds index q item (some i) =
      (a : A) × (index ≤ i) × (get_elem? q (i - index) ≡ some a) × (same_item item a ≡ true)

  Finds-suc :
      (index : ℕ) (b : A) (q : List A) (item : A) (r : Option ℕ)
      → same_item item b ≡ false
      → Finds (suc index) q item r
      → Finds index (b ∷ q) item r
  unfolding holds
  Finds-suc index b q item none n h = ground arith
  Finds-suc index b q item (some i) n (x, le, at, same) =
      let e : i - index ≡ suc (i - suc index) = omega arith in (x, omega arith, rw e at, same)

  find_loop-Finds :
      (index : ℕ) (q : List A) (item : A)
      → IsSorted lt_key q
      → All (λ b. lt_key item ≤ℤ lt_key b) q
      → Finds index q item (find_loop lt_key eq_key index q item)
  unfolding find_loop holds
  find_loop-Finds index [] item s h = refl
  find_loop-Finds index (a ∷ q) item s h = elim (Bool-cases (key_differs lt_key item a)) [
    | inl differs ↦ rw differs (ground (arith, holds_above item a q s.0))
    | inr same ↦ elim (Bool-cases (eq_key a == eq_key item)) [
      | inl hit ↦
          rw (same, hit)
            (let e : index - index ≡ 0 = omega arith in
              (a, omega arith, rw e refl, rw (same, hit) refl))
      | inr miss ↦
          rw (same, miss)
            (Finds-suc index a q item _ (rw (same, miss) refl)
              (find_loop-Finds (suc index) q item s.1 h.1))
    ]
  ]

  -- From the scan's position on, in the numbering of the whole queue.
  find_scan-Finds :
      (index : ℕ) (q : List A) (item : A)
      → IsSorted lt_key q
      → Finds index q item (
          find_loop lt_key eq_key
            (index + scan_left lt_key q (lt_key item))
            (drop (scan_left lt_key q (lt_key item)) q)
            item)
  unfolding scan_left
  find_scan-Finds index [] item s = unfold find_loop holds in refl
  find_scan-Finds index (a ∷ q) item s = elim (Bool-cases (ltb_ℤ (lt_key a) (lt_key item))) [
    | inl below ↦ rw below (
        let e : index + suc (scan_left lt_key q (lt_key item))
            ≡ suc index + scan_left lt_key q (lt_key item) =
          omega arith in
        rw e (Finds-suc index a q item _ (ground arith) (find_scan-Finds (suc index) q item s.1)))
    | inr above ↦ rw above (
        let e : index + 0 ≡ index = omega arith in
        rw e (
          find_loop-Finds index (a ∷ q) item s
            (ground arith, All-le_trans lt_key item a q (ground arith) s.0)))
  ]

  -- In a sorted queue `find` gives the place of an item with both keys of `item`, and gives none
  -- exactly when no item of the queue has them.
  pub find-Finds :
      (q : List A) (item : A) → IsSorted lt_key q → Finds 0 q item (find lt_key eq_key q item)
  unfolding find
  find-Finds q item s = rw (bisect_left-eq-scan_left lt_key q item s) (
      let e : 0 + scan_left lt_key q (lt_key item) ≡ scan_left lt_key q (lt_key item) =
        omega arith in
      rw e at (find_scan-Finds 0 q item s))
