-- ===== src/SortedQueue/Calls.antt =====
-- `add` and `pop` of proxy/mempool/sorted_queue.py on a sorted queue.
use mathlib.Core.List.{Perm}
use proxy_model_py.Base.{
  ℕ, zero, suc, ◌-◌, ◌≤◌, ◌<◌, ◌≡◌, refl, ◌∙◌, ap, true, false, List, [], ◌∷◌, arith, ℤ, pos,
  if◌then◌else◌, get_elem?, some, none, Option, String, string_eq, length, ==_refl, Result, ok, err,
  drop, assertion_error,
}
use proxy_model_py.SortedQueue.{
  find, find_loop, add, pop_item, pop_index, insert_at, remove_at, bisect_left,
}
use proxy_model_py.SortedQueue.Order.{IsSorted, scan_left, scan_left-le-length}
use proxy_model_py.SortedQueue.Bisect.{bisect_left-eq-scan_left}
use proxy_model_py.SortedQueue.Contents.{
  insert_at-perm, remove_at-perm, insert_at-IsSorted, remove_at-IsSorted, scan_left-insert_at,
  drop-insert_at, remove_at-insert_at, get_elem?-insert_at, length-insert_at,
}
use proxy_model_py.SortedQueue.Find.{same_item, holds, holds_at, Finds, find-Finds}

module _ {A : Type 0} where
  lt_of_get_elem? : (q : List A) (i : ℕ) (a : A) → get_elem? q i ≡ some a → i < length q
  lt_of_get_elem? [] i a e = cc
  lt_of_get_elem? (b ∷ q) zero a e = omega arith
  lt_of_get_elem? (b ∷ q) (suc i) a e = omega (arith, lt_of_get_elem? q i a e)

  -- An index that is in range pops that item.
  pub pop_index_lem :
      (q : List A) (i : ℕ) (a : A)
      → get_elem? q i ≡ some a
      → pop_index q (pos i) ≡ ok (a, remove_at i q)
  unfolding pop_index
  pop_index_lem [] i a e = cc
  pop_index_lem (b ∷ q) i a e = ground (arith, lt_of_get_elem? (b ∷ q) i a e)

module _ {A : Type 0} (lt_key : A → ℤ) (eq_key : A → String) where
  same_item_refl : (x : A) → same_item lt_key eq_key x x ≡ true
  same_item_refl x = ground (arith, ==_refl (eq_key x))

  add_of_find :
      (q : List A) (x : A) (i : ℕ) (r : Option ℕ)
      → find_loop lt_key eq_key i (drop i q) x ≡ r
      → Finds lt_key eq_key 0 q x r
      → bisect_left lt_key q x ≡ i
      → add lt_key eq_key q x
        ≡ (if holds lt_key eq_key q x then err assertion_error else ok (insert_at i x q))
  unfolding add
  add_of_find q x i none e f b = rw (b, e, f, add) (rw b)
  add_of_find q x i (some j) e (a, le, at, same) b =
      rw (b, e, holds_at lt_key eq_key q x (j - 0) a at same, add)

  -- `add` refuses an item whose keys are in the queue, and puts any other before the first item
  -- whose key is not below its own.
  pub add_lem :
      (q : List A) (x : A)
      → IsSorted lt_key q
      → add lt_key eq_key q x ≡ (
          if holds lt_key eq_key q x
          then err assertion_error
          else ok (insert_at (scan_left lt_key q (lt_key x)) x q))
  unfolding find
  add_lem q x s =
      add_of_find q x (scan_left lt_key q (lt_key x)) _ refl
        (rw (bisect_left-eq-scan_left lt_key q x s, find) at (find-Finds lt_key eq_key q x s))
        (bisect_left-eq-scan_left lt_key q x s)

  add_inv :
      (q r : List A) (x : A)
      → IsSorted lt_key q
      → add lt_key eq_key q x ≡ ok r
      → r ≡ insert_at (scan_left lt_key q (lt_key x)) x q
  add_inv q r x s e = ground (arith, add_lem q x s)

  -- An addition to a sorted queue that succeeds keeps it sorted and adds that one item.
  pub add-IsSorted :
      (q r : List A) (x : A)
      → IsSorted lt_key q
      → add lt_key eq_key q x ≡ ok r
      → IsSorted lt_key r × Perm r (x ∷ q) × (length r ≡ suc (length q))
  add-IsSorted q r x s e =
      rw (add_inv q r x s e)
        (insert_at-IsSorted lt_key x q s, insert_at-perm _ x q, length-insert_at _ x q)

  -- What `pop` of an item owes: an item with its keys, taken out of the queue, which stays sorted;
  -- or the failed assertion, exactly when no item has its keys.
  abbrev pub Pops : List A → A → Result (A × List A) → Type 0
  Pops q x (ok (y, r)) = (same_item lt_key eq_key x y ≡ true) × Perm q (y ∷ r) × IsSorted lt_key r
  Pops q x (err e) = (holds lt_key eq_key q x ≡ false) × (e ≡ assertion_error)

  pop_item_of_find :
      (q : List A) (x : A) (r : Option ℕ)
      → IsSorted lt_key q
      → find lt_key eq_key q x ≡ r
      → Finds lt_key eq_key 0 q x r
      → Pops q x (pop_item lt_key eq_key q x)
  unfolding pop_item holds
  pop_item_of_find [] x r s e f = (refl, refl)
  pop_item_of_find (b ∷ q) x none s e f = rw (e, pop_item) (f, refl)
  pop_item_of_find (b ∷ q) x (some i) s e (a, le, at, same) =
      let i' : i - 0 ≡ i = omega arith in
      let at' : get_elem? (b ∷ q) i ≡ some a = rw i' at at in
      rw (e, pop_item, pop_index_lem (b ∷ q) i a at')
        (same, remove_at-perm i (b ∷ q) a at', remove_at-IsSorted lt_key i (b ∷ q) s)

  -- `pop` of an item of a sorted queue.
  pub pop_item-Pops :
      (q : List A) (x : A) → IsSorted lt_key q → Pops q x (pop_item lt_key eq_key q x)
  pop_item-Pops q x s = pop_item_of_find q x _ s refl (find-Finds lt_key eq_key q x s)

  pub pop_item_lem :
      (q : List A) (x a : A) (i : ℕ)
      → find lt_key eq_key q x ≡ some i
      → get_elem? q i ≡ some a
      → pop_item lt_key eq_key q x ≡ ok (a, remove_at i q)
  unfolding pop_item
  pop_item_lem [] x a i e at = cc
  pop_item_lem (b ∷ q) x a i e at = rw (e, pop_item) (pop_index_lem (b ∷ q) i a at)

  find_loop_hit : (i : ℕ) (x : A) (q : List A) → find_loop lt_key eq_key i (x ∷ q) x ≡ some i
  unfolding find_loop
  find_loop_hit i x q = ground (arith, ==_refl (eq_key x))

  find-insert_at :
      (q : List A) (x : A)
      → IsSorted lt_key q
      → find lt_key eq_key (insert_at (scan_left lt_key q (lt_key x)) x q) x
        ≡ some (scan_left lt_key q (lt_key x))
  unfolding find
  find-insert_at q x s =
      let at : bisect_left lt_key (insert_at (scan_left lt_key q (lt_key x)) x q) x
          ≡ scan_left lt_key q (lt_key x) =
        bisect_left-eq-scan_left lt_key _ x (insert_at-IsSorted lt_key x q s)
        ∙ scan_left-insert_at lt_key x q in
      rw (at, drop-insert_at _ x q (scan_left-le-length lt_key q (lt_key x))) (find_loop_hit _ x _)

  -- An item added to a sorted queue can be popped, and the queue is then as it was.
  pub pop_item-add :
      (q r : List A) (x : A)
      → IsSorted lt_key q
      → add lt_key eq_key q x ≡ ok r
      → pop_item lt_key eq_key r x ≡ ok (x, q)
  pop_item-add q r x s e =
      let room : scan_left lt_key q (lt_key x) ≤ length q =
        scan_left-le-length lt_key q (lt_key x) in
      rw (add_inv q r x s e) (
        pop_item_lem _ x x _ (find-insert_at q x s) (get_elem?-insert_at _ x q room)
        ∙ ap (λ (t : List A). ok (x, t)) (remove_at-insert_at _ x q room))
