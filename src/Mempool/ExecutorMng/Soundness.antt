-- ===== src/Mempool/ExecutorMng/Soundness.antt =====
-- When the calls of `MPExecutorMng` of proxy/mempool/executor_mng.py succeed.
use proxy_model_py.Base.{
  ℕ, suc, ◌≡◌, ◌≤◌, refl, ap, ◌∙◌, true, false, none, some, List, [], ◌∷◌, ◌++◌, subst,
  length-append, ◌==◌, nat_eq, length, if◌then◌else◌, ok, arith, Bool-cases, Option-cases, inl, inr,
  ◌⊎◌,
}
use proxy_model_py.Dict
use proxy_model_py.Dict.{Dict}
use proxy_model_py.Mempool.ExecutorMng.{
  ExecutorMng, pop_last, member, set_add, set_delete, has_available, get_executor, release_executor,
}

pub pop_last-append : {A : Type 0} (xs : List A) (x : A) → pop_last (xs ++ x ∷ []) ≡ some (xs, x)
pop_last-append [] x = refl
pop_last-append (y ∷ ys) x = rw (pop_last-append ys x) refl

-- A list that is not empty has a last item.
pub ends : {A : Type 0} (x : A) (xs : List A) → (ys : List A) × (y : A) × (x ∷ xs ≡ ys ++ y ∷ [])
ends x [] = ([], x, refl)
ends x (y ∷ xs) = let r = ends y xs in (x ∷ r.0, r.1, ap (λ zs. x ∷ zs) r.2)

-- No item stands twice.
abbrev pub IsDistinct : List ℕ → Type 0
IsDistinct [] = Unit
IsDistinct (i ∷ is) = (member i is ≡ false) × IsDistinct is

pub member-append :
    (i j : ℕ) (xs : List ℕ) → member i (xs ++ j ∷ []) ≡ (if j == i then true else member i xs)
member-append i j [] = ground arith
member-append i j (x ∷ xs) = ground (arith, member-append i j xs)

front-IsDistinct :
    (xs : List ℕ) (i : ℕ) → IsDistinct (xs ++ i ∷ []) → IsDistinct xs × (member i xs ≡ false)
front-IsDistinct [] i d = (tt, refl)
front-IsDistinct (x ∷ xs) i d =
    let r = front-IsDistinct xs i d.1 in
    (
      (ground (arith, member-append x i xs, d.0), r.0),
      ground (arith, r.1, member-append x i xs, d.0, nat_eq.same_iff i x, nat_eq.same_iff x i),
    )

member-set_add : (i : ℕ) (s : List ℕ) → member i (set_add i s) ≡ true
member-set_add i s = elim (Bool-cases (member i s)) [
  | inl there ↦ rw there there
  | inr new ↦ rw new (ground (arith, member-append i i s, nat_eq.same_iff i i))
]

member-set_delete : (i : ℕ) (s : List ℕ) → member i (set_delete i s) ≡ false
member-set_delete i [] = refl
member-set_delete i (j ∷ js) = ground (arith, member-set_delete i js)

-- Each free executor runs, none is free twice, and ids are not used again.
pub record IsSound {Info : Type 0} (m : ExecutorMng Info) : Type 0 where
  pub running :
      (i : ℕ) → member i m.available_executor_pool ≡ true → Dict.contains m.executor_dict i ≡ true
  pub distinct : IsDistinct m.available_executor_pool
  pub unique : Dict.HasUniqueKeys m.executor_dict
  pub unused : (i : ℕ) → m.last_id ≤ i → Dict.get m.executor_dict i ≡ none

module _ {Info : Type 0} where
  get_last :
      (m : ExecutorMng Info) (ys : List ℕ) (y : ℕ) (info : Info)
      → m.available_executor_pool ≡ ys ++ y ∷ []
      → Dict.get m.executor_dict y ≡ some info
      → get_executor m
        ≡ ok (
          record m {
            available_executor_pool = ys;
            busy_executor_pool = set_add y m.busy_executor_pool;
          },
          y,
          info,
        )
  unfolding get_executor
  get_last m ys y info e at = rw (e, pop_last-append ys y, at) refl

  runs :
      (m : ExecutorMng Info) (ys : List ℕ) (y : ℕ)
      → IsSound m
      → m.available_executor_pool ≡ ys ++ y ∷ []
      → (info : Info) × (Dict.get m.executor_dict y ≡ some info)
  unfolding Dict.contains
  runs m ys y s e = elim (Option-cases (Dict.get m.executor_dict y)) [
    | inl absent ↦ absurd (
        ground (
          arith,
          s.running y,
          e,
          member-append y y ys,
          ap (member y) e,
          absent,
          nat_eq.same_iff y y,
        ))
    | inr found ↦ found
  ]

  pub taken-IsSound :
      (m : ExecutorMng Info) (ys : List ℕ) (y : ℕ) (busy : List ℕ)
      → IsSound m
      → m.available_executor_pool ≡ ys ++ y ∷ []
      → IsSound (record m { available_executor_pool = ys; busy_executor_pool = busy })
  taken-IsSound m ys y busy s e =
      let d = front-IsDistinct ys y (subst IsDistinct e s.distinct) in
      record {
        running = λ i h. s.running i (ap (member i) e ∙ ground (arith, member-append i y ys, h));
        distinct = d.0;
        unique = s.unique;
        unused = s.unused;
      }

  -- What the release of a busy executor owes.
  abbrev pub Released : ℕ → ExecutorMng Info → Type 0
  Released i n =
      (k : ExecutorMng Info) × (release_executor i n ≡ ok k)
      × IsSound k
      × (member i k.available_executor_pool ≡ true)
      × (member i k.busy_executor_pool ≡ false)

  release-IsSound :
      (n : ExecutorMng Info) (i : ℕ) (info : Info)
      → IsSound n
      → Dict.get n.executor_dict i ≡ some info
      → member i n.available_executor_pool ≡ false
      → member i n.busy_executor_pool ≡ true
      → Released i n
  unfolding release_executor Dict.contains
  release-IsSound n i info s at taken busy = (
    record n {
      available_executor_pool = i ∷ n.available_executor_pool;
      busy_executor_pool = set_delete i n.busy_executor_pool;
    },
    rw (busy, at) refl,
    record {
      running = λ j h. runs_still j (Bool-cases (i == j)) h;
      distinct = (taken, s.distinct);
      unique = s.unique;
      unused = s.unused;
    },
    ground (arith, nat_eq.same_iff i i),
    member-set_delete i n.busy_executor_pool,
  )
    where
      runs_still :
          (j : ℕ)
          → ((i == j) ≡ true) ⊎ ((i == j) ≡ false)
          → member j (i ∷ n.available_executor_pool) ≡ true
          → Dict.contains n.executor_dict j ≡ true
      runs_still j (inl same) h =
          let e : i ≡ j = (nat_eq.same_iff i j).0 same in
          ground (arith, at, ap (Dict.get n.executor_dict) e)
      runs_still j (inr other) h = s.running j (ground (arith, h, other))

  -- In a sound state, where each free executor runs, none stands twice among the free ones and the ids from
  -- `last_id` on are not used: when executors are free, one can be had. It runs, it is busy then and not free
  -- any more, the executors and their number stay, and the state is sound again. When the caller releases it,
  -- that succeeds, it is free and not busy, and the state is sound once more.
  pub get_executor-IsSound :
      (m : ExecutorMng Info)
      → IsSound m
      → has_available m ≡ true
      → (n : ExecutorMng Info) × (i : ℕ) × (info : Info) × (get_executor m ≡ ok (n, i, info))
        × IsSound n
        × (Dict.get m.executor_dict i ≡ some info)
        × (member i n.available_executor_pool ≡ false)
        × (length m.available_executor_pool ≡ suc (length n.available_executor_pool))
        × (n.executor_dict ≡ m.executor_dict)
        × (member i n.busy_executor_pool ≡ true)
        × Released i n
  unfolding has_available
  get_executor-IsSound m s some_free = go m.available_executor_pool refl
    where
      go :
          (free : List ℕ)
          → m.available_executor_pool ≡ free
          → (n : ExecutorMng Info) × (i : ℕ) × (info : Info) × (get_executor m ≡ ok (n, i, info))
            × IsSound n
            × (Dict.get m.executor_dict i ≡ some info)
            × (member i n.available_executor_pool ≡ false)
            × (length m.available_executor_pool ≡ suc (length n.available_executor_pool))
            × (n.executor_dict ≡ m.executor_dict)
            × (member i n.busy_executor_pool ≡ true)
            × Released i n
      go [] e = absurd (ground (arith, some_free, ap length e))
      go (x ∷ xs) e =
          let r = ends x xs in
          let at_end = e ∙ r.2 in
          let found = runs m r.0 r.1 s at_end in
          let d = front-IsDistinct r.0 r.1 (subst IsDistinct at_end s.distinct) in
          (
            _,
            r.1,
            found.0,
            get_last m r.0 r.1 found.0 at_end found.1,
            taken-IsSound m r.0 r.1 _ s at_end,
            found.1,
            d.1,
            ap length at_end ∙ omega (arith, length-append r.0 (r.1 ∷ [])),
            refl,
            member-set_add r.1 m.busy_executor_pool,
            release-IsSound _ r.1 found.0 (taken-IsSound m r.0 r.1 _ s at_end) found.1 d.1
                (member-set_add r.1 m.busy_executor_pool),
          )
