-- ===== src/SortedQueue/Order.antt =====
-- The order of the queue of proxy/mempool/sorted_queue.py, and the position that a scan from the
-- front finds.
use proxy_model_py.Base.{
  ℕ, zero, suc, ◌≤◌, ◌≡◌, refl, false, List, [], ◌∷◌, arith, ℤ, ◌≤ℤ◌, ltb, ltb_ℤ, if◌then◌else◌,
  length, All,
}
use proxy_model_py.SortedQueue.{is_below}

module _ {A : Type 0} (lt_key : A → ℤ) where
  -- No key is below a key in front of it.
  abbrev pub IsSorted : List A → Type 0
  IsSorted [] = Unit
  IsSorted (a ∷ q) = All (λ b. lt_key a ≤ℤ lt_key b) q × IsSorted q

  -- How many items stand in front of the first that is not below `x`.
  unfoldable pub scan_left : List A → ℤ → ℕ
  scan_left [] x = 0
  scan_left (a ∷ q) x = let rest = suc (scan_left q x) in if ltb_ℤ (lt_key a) x then rest else 0

  pub scan_left-le-length : (q : List A) (x : ℤ) → scan_left q x ≤ length q
  unfolding scan_left
  scan_left-le-length [] x = omega arith
  scan_left-le-length (a ∷ q) x = ground (arith, scan_left-le-length q x)

  is_below-above :
      (a : A) (q : List A) (x : ℤ) (i : ℕ)
      → All (λ b. lt_key a ≤ℤ lt_key b) q
      → ltb_ℤ (lt_key a) x ≡ false
      → is_below lt_key q x i ≡ false
  unfolding is_below
  is_below-above a [] x i h n = refl
  is_below-above a (b ∷ q) x zero h n = ground arith
  is_below-above a (b ∷ q) x (suc i) h n = is_below-above a q x i h.1 n

  -- In a sorted queue the items below `x` are those in front of that position.
  pub is_below-scan_left :
      (q : List A) (x : ℤ) (i : ℕ) → IsSorted q → is_below lt_key q x i ≡ ltb i (scan_left q x)
  unfolding scan_left is_below
  is_below-scan_left [] x i s = ground arith
  is_below-scan_left (a ∷ q) x zero s = ground arith
  is_below-scan_left (a ∷ q) x (suc i) s =
      ground (arith, is_below-scan_left q x i s.1, is_below-above a q x i s.0)
