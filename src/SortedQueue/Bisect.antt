-- ===== src/SortedQueue/Bisect.antt =====
-- `bisect_left` of proxy/mempool/sorted_queue.py against a scan of the queue.
use proxy_model_py.Base.{ℕ, zero, suc, ◌+◌, ◌/◌, ◌≤◌, ◌<◌, ◌≡◌, List, arith, ℤ, length}
use proxy_model_py.SortedQueue.{bisect_loop, bisect_left}
use proxy_model_py.SortedQueue.Order.{IsSorted, scan_left, scan_left-le-length, is_below-scan_left}

module _ {A : Type 0} (lt_key : A → ℤ) where
  bisect_loop-eq-scan_left :
      (fuel : ℕ) (q : List A) (x : ℤ) (lo hi : ℕ)
      → IsSorted lt_key q
      → lo ≤ scan_left lt_key q x
      → scan_left lt_key q x ≤ hi
      → hi < lo + fuel
      → bisect_loop lt_key fuel q x lo hi ≡ scan_left lt_key q x
  unfolding bisect_loop
  bisect_loop-eq-scan_left zero q x lo hi s l h f = absurd (omega arith)
  bisect_loop-eq-scan_left (suc fuel) q x lo hi s l h f = ground (
    arith,
    is_below-scan_left lt_key q x ((lo + hi) / 2) s,
    bisect_loop-eq-scan_left fuel q x ((lo + hi) / 2 + 1) hi s,
    bisect_loop-eq-scan_left fuel q x lo ((lo + hi) / 2) s,
  )

  -- On a sorted queue the bisection gives the number of items, counted from the front, that stand
  -- before the first one whose key is not below the item's.
  pub bisect_left-eq-scan_left :
      (q : List A) (item : A)
      → IsSorted lt_key q
      → bisect_left lt_key q item ≡ scan_left lt_key q (lt_key item)
  unfolding bisect_left
  bisect_left-eq-scan_left q item s =
      bisect_loop-eq-scan_left (suc (length q)) q (lt_key item) 0 (length q) s (omega arith)
        (scan_left-le-length lt_key q (lt_key item)) (omega arith)
