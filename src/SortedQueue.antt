-- ===== src/SortedQueue.antt =====
-- proxy/mempool/sorted_queue.py: a list kept in order of a key by bisection. `lt_key` orders the
-- items, `eq_key` tells them apart. The keys are read anew at each call, as the source reads them
-- from the items, so `lt_key` may look into objects that change.
pub mod Order
pub mod Bisect
pub mod Contents
pub mod Find
pub mod Calls
use proxy_model_py.Base.{
  ℕ, zero, suc, ◌+◌, ◌-◌, ◌/◌, ◌<◌, Bool, true, false, Option, none, some, List, [], ◌∷◌, ◌++◌, ℤ,
  pos, negsuc, ltb, ltb_ℤ, ◌==◌, if◌then◌else◌, Result, ok, err, assertion_error, index_error,
  ◌>>=◌, or_raise, length, get_elem?, take, drop, String, ◌||◌, string_eq,
}

-- An index of Python: a negative one counts from the end.
unfoldable pub resolve_index : ℕ → ℤ → Option ℕ
resolve_index n (pos i) = if ltb i n then some i else none
resolve_index n (negsuc i) = if ltb i n then some (n - suc i) else none

module _ {A : Type 0} where
  -- queue.insert(pos, item)
  unfoldable pub insert_at : ℕ → A → List A → List A
  insert_at zero x q = x ∷ q
  insert_at (suc i) x [] = x ∷ []
  insert_at (suc i) x (a ∷ q) = a ∷ insert_at i x q

  -- queue.pop(index), without the value
  unfoldable pub remove_at : ℕ → List A → List A
  remove_at i [] = []
  remove_at zero (a ∷ q) = q
  remove_at (suc i) (a ∷ q) = a ∷ remove_at i q

  -- queue[index]
  unfoldable pub item_at : List A → ℤ → Result A
  unfolding resolve_index
  item_at q i = elim (resolve_index (length q) i) [
    | none ↦ err index_error
    | some j ↦ or_raise index_error (get_elem? q j)
  ]

  -- queue[index:] and queue[:index]
  unfoldable pub extract_list_from : List A → ℕ → List A × List A
  extract_list_from q i = (drop i q, take i q)

  -- pop, given an index
  unfoldable pub pop_index : List A → ℤ → Result (A × List A)
  unfolding resolve_index
  pop_index [] i = err assertion_error
  pop_index (a ∷ q) i = elim (resolve_index (length (a ∷ q)) i) [
    | none ↦ err index_error
    | some j ↦ do x ← or_raise index_error (get_elem? (a ∷ q) j); ok (x, remove_at j (a ∷ q))
  ]

module _ {A : Type 0} (lt_key : A → ℤ) where
  -- key(queue[mid]) < x
  unfoldable pub is_below : List A → ℤ → ℕ → Bool
  is_below q x i = elim (get_elem? q i) [ none ↦ false | some a ↦ ltb_ℤ (lt_key a) x ]

  -- The loop of `bisect.bisect_left`, on fuel.
  unfoldable pub bisect_loop : ℕ → List A → ℤ → ℕ → ℕ → ℕ
  unfolding is_below
  bisect_loop zero q x lo hi = lo
  bisect_loop (suc fuel) q x lo hi = elim (ltb lo hi) [
    | true ↦ elim (is_below q x ((lo + hi) / 2)) [
      | true ↦ bisect_loop fuel q x ((lo + hi) / 2 + 1) hi
      | false ↦ bisect_loop fuel q x lo ((lo + hi) / 2)
    ]
    | false ↦ lo
  ]

  unfoldable pub bisect_left : List A → A → ℕ
  unfolding bisect_loop
  bisect_left q item = bisect_loop (suc (length q)) q (lt_key item) 0 (length q)

  -- lt_key_func(item) != lt_key_func(queue[index])
  abbrev pub key_differs : A → A → Bool
  key_differs a b = ltb_ℤ (lt_key a) (lt_key b) || ltb_ℤ (lt_key b) (lt_key a)

module _ {A : Type 0} (lt_key : A → ℤ) (eq_key : A → String) where
  -- The loop of `find_from_pos`, over what is left of the queue from `index` on.
  unfoldable pub find_loop : ℕ → List A → A → Option ℕ
  find_loop index [] item = none
  find_loop index (a ∷ rest) item =
      let next = find_loop (suc index) rest item in
      if key_differs lt_key item a
      then none
      else if eq_key a == eq_key item
      then some index
      else next

  unfoldable pub find_from_pos : List A → ℕ → A → Option ℕ
  find_from_pos q start item = find_loop start (drop start q) item

  unfoldable pub find : List A → A → Option ℕ
  unfolding find_from_pos
  find q item = find_from_pos q (bisect_left lt_key q item) item

  unfoldable pub add : List A → A → Result (List A)
  unfolding find_from_pos
  add q item =
      let start = bisect_left lt_key q item in
      elim (find_from_pos q start item) [
        | none ↦ ok (insert_at start item q)
        | some i ↦ err assertion_error
      ]

  -- pop, given an item
  unfoldable pub pop_item : List A → A → Result (A × List A)
  pop_item [] item = err assertion_error
  pop_item (a ∷ q) item = elim (find (a ∷ q) item) [
    | none ↦ err assertion_error
    | some i ↦ pop_index (a ∷ q) (pos i)
  ]
