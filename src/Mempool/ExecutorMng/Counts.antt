-- ===== src/Mempool/ExecutorMng/Counts.antt =====
-- How many executors `MPExecutorMng` of proxy/mempool/executor_mng.py runs.
use proxy_model_py.Base.{
  ℕ, zero, suc, ◌+◌, ◌≡◌, ◌≤◌, refl, ap, ◌∙◌, true, false, none, List, [], ◌∷◌, ◌++◌, ltb, min, max,
  ◌-◌, length-append, nat_eq, length, if◌then◌else◌, ok, arith, Bool-cases, inl, inr, ◌⊎◌,
}
use proxy_model_py.Dict
use proxy_model_py.Dict.{Dict}
use proxy_model_py.Mempool.ExecutorMng.{
  ExecutorMng, pop_last, member, has_available, run_executors, stop_free, mark_busy, stop_executors,
  set_executor_cnt,
}
use proxy_model_py.Mempool.ExecutorMng.Soundness.{
  IsSound, get_executor-IsSound, ends, pop_last-append,
}

module _ {Info : Type 0} where
  -- An executor that is not free can be taken out of the dict.
  removed-IsSound :
      (m : ExecutorMng Info) (i : ℕ)
      → IsSound m
      → member i m.available_executor_pool ≡ false
      → IsSound (record m { executor_dict = Dict.remove m.executor_dict i })
  unfolding Dict.contains
  removed-IsSound m i s away = record {
    running = λ j h.
        ground
          (arith, s.running j h, Dict.get-remove m.executor_dict i j, nat_eq.same_iff i j, away);
    distinct = s.distinct;
    unique = Dict.remove-HasUniqueKeys m.executor_dict i s.unique;
    unused = λ j le. ground (arith, s.unused j le, Dict.get-remove m.executor_dict i j);
  }

  none_available : (m : ExecutorMng Info) → has_available m ≡ false → m.available_executor_pool ≡ []
  unfolding has_available
  none_available m h = go m.available_executor_pool h
    where
      go : (free : List ℕ) → ltb 0 (length free) ≡ false → free ≡ []
      go [] e = refl
      go (x ∷ xs) e = ground (arith, e)

  -- What is left to stop is left only when no executor is free any more.
  stop_free-IsSound :
      (n : ℕ) (m : ExecutorMng Info)
      → IsSound m
      → (o : ExecutorMng Info) × (k : ℕ) × (stop_free n m ≡ ok (o, k))
        × IsSound o
        × (length o.executor_dict + n ≡ length m.executor_dict + k)
        × ((k ≡ 0) ⊎ (o.available_executor_pool ≡ []))
  unfolding stop_free
  stop_free-IsSound zero m s = (m, zero, refl, s, refl, inl refl)
  stop_free-IsSound (suc n) m s = elim (Bool-cases (has_available m)) [
    | inl some_free ↦
        let g = get_executor-IsSound m s some_free in
        let after : ExecutorMng Info = record g.0 {
          executor_dict = Dict.remove g.0.executor_dict g.1;
        } in
        let at = ap (λ (d : Dict ℕ Info). Dict.get d g.1) g.8 ∙ g.5 in
        let rest = stop_free-IsSound n after (removed-IsSound g.0 g.1 g.4 g.6) in
        (
          rest.0,
          rest.1,
          rw (some_free, g.3) rest.2,
          rest.3,
          omega (
            arith,
            rest.4,
            ap length g.8,
            Dict.length-remove_present g.0.executor_dict g.1 g.2 g.4.unique at,
          ),
          rest.5,
        )
    | inr none_free ↦
        (m, suc n, rw none_free refl, s, omega arith, inr (none_available m none_free))
  ]

  -- Of a dict without repeated keys the last entry can be taken.
  front-HasUniqueKeys :
      (d : Dict ℕ Info) (i : ℕ) (info : Info)
      → Dict.HasUniqueKeys (d ++ (i, info) ∷ [])
      → Dict.HasUniqueKeys d
  unfolding Dict.get
  front-HasUniqueKeys [] i info u = tt
  front-HasUniqueKeys ((j, w) ∷ d) i info u =
      (absent_front d j i info u.0, front-HasUniqueKeys d i info u.1)
    where
      absent_front :
          (d : Dict ℕ Info) (j i : ℕ) (info : Info)
          → Dict.get (d ++ (i, info) ∷ []) j ≡ none
          → Dict.get d j ≡ none
      absent_front [] j i info h = refl
      absent_front ((k, w) ∷ d) j i info h = ground (arith, h, absent_front d j i info)

  -- Busy executors can be marked as long as there are some; the dict has that many fewer.
  mark_busy_lem :
      (n : ℕ) (m : ExecutorMng Info) (d : Dict ℕ Info)
      → m.executor_dict ≡ d
      → n ≤ length d
      → (o : ExecutorMng Info) × (mark_busy n m ≡ ok o) × (length o.executor_dict + n ≡ length d)
  unfolding mark_busy
  mark_busy_lem zero m d e le = (m, refl, omega (arith, ap length e))
  mark_busy_lem (suc n) m [] e le = absurd (omega (arith, le))
  mark_busy_lem (suc n) m (x ∷ xs) e le =
      let r = ends x xs in
      let len = ap length r.2 ∙ length-append r.0 (r.1 ∷ []) in
      let rest =
        mark_busy_lem n
          (record m {
            executor_dict = r.0;
            stopped_executor_dict = Dict.put m.stopped_executor_dict r.1.0 r.1.1;
          })
          r.0 refl (omega (arith, le, len)) in
      (rest.0, rw (e, ap pop_last r.2 ∙ pop_last-append r.0 r.1) rest.1, omega (arith, rest.2, len))

  -- As many executors as asked for are stopped, when so many run.
  pub stop_executors_lem :
      (n : ℕ) (m : ExecutorMng Info)
      → IsSound m
      → n ≤ length m.executor_dict
      → (o : ExecutorMng Info) × (stop_executors n m ≡ ok o)
        × (length o.executor_dict + n ≡ length m.executor_dict)
  unfolding stop_executors
  stop_executors_lem n m s le =
      let f = stop_free-IsSound n m s in
      let b = mark_busy_lem f.1 f.0 f.0.executor_dict refl (omega (arith, f.4, le)) in
      (b.0, rw f.2 b.1, omega (arith, f.4, b.2))

  added-IsSound :
      (create : ℕ → Info) (m : ExecutorMng Info)
      → IsSound m
      → IsSound (record m {
        last_id = m.last_id + 1;
        executor_dict = Dict.put m.executor_dict m.last_id (create m.last_id);
        available_executor_pool = m.last_id ∷ m.available_executor_pool;
      })
  unfolding Dict.contains
  added-IsSound create m s = record {
    running = λ i h.
        ground (arith, s.running i, Dict.get-put m.executor_dict m.last_id i (create m.last_id), h);
    distinct = (ground (arith, s.running m.last_id, s.unused m.last_id (omega arith)), s.distinct);
    unique = Dict.put-HasUniqueKeys m.executor_dict m.last_id (create m.last_id) s.unique;
    unused = λ i le. ground (
      arith,
      s.unused i,
      Dict.get-put m.executor_dict m.last_id i (create m.last_id),
      le,
      nat_eq.same_iff m.last_id i,
    );
  }

  run_executors-IsSound :
      (create : ℕ → Info) (n : ℕ) (m : ExecutorMng Info)
      → IsSound m
      → IsSound (run_executors create n m)
        × (length (run_executors create n m).executor_dict ≡ length m.executor_dict + n)
  unfolding run_executors
  run_executors-IsSound create zero m s = (s, omega arith)
  run_executors-IsSound create (suc n) m s =
      let new = s.unused m.last_id (omega arith) in
      let added : ExecutorMng Info = record m {
        last_id = m.last_id + 1;
        executor_dict = Dict.put m.executor_dict m.last_id (create m.last_id);
        available_executor_pool = m.last_id ∷ m.available_executor_pool;
      } in
      let rest = run_executors-IsSound create n added (added-IsSound create m s) in
      (
        rest.0,
        omega (arith, rest.1, Dict.length-put_new m.executor_dict m.last_id (create m.last_id) new),
      )

  -- From a sound state `set_executor_cnt` raises nothing, and afterwards as many executors run as the
  -- count and the limit of the configuration ask for, whether some had to be started or stopped.
  pub set_executor_cnt_lem :
      (create_executor : ℕ → Info) (limit executor_count : ℕ) (m : ExecutorMng Info)
      → IsSound m
      → (o : ExecutorMng Info) × (set_executor_cnt create_executor limit executor_count m ≡ ok o)
        × (length o.executor_dict ≡ min (max (executor_count + 1) 3) limit)
  unfolding set_executor_cnt
  set_executor_cnt_lem create_executor limit executor_count m s =
      go (min (max (executor_count + 1) 3) limit)
    where
      go :
          (wanted : ℕ)
          → (o : ExecutorMng Info) × ((if ltb (length m.executor_dict) wanted
                then ok (run_executors create_executor (wanted - length m.executor_dict) m)
                else if ltb wanted (length m.executor_dict)
                then stop_executors (length m.executor_dict - wanted) m
                else ok m)
              ≡ ok o)
            × (length o.executor_dict ≡ wanted)
      go wanted = elim (Bool-cases (ltb (length m.executor_dict) wanted)) [
        | inl few ↦ rw few (
          _,
          refl,
          ground (
            arith,
            few,
            (run_executors-IsSound create_executor (wanted - length m.executor_dict) m s).1,
          ),
        )
        | inr enough ↦ rw enough (elim (Bool-cases (ltb wanted (length m.executor_dict))) [
          | inl many ↦
              let r = stop_executors_lem (length m.executor_dict - wanted) m s (ground arith) in
              rw many (r.0, r.1, ground (arith, r.2, many))
          | inr right ↦ rw right (m, refl, ground (arith, enough, right))
        ])
      ]

  -- Stopping one executor while some are free leaves among the busy ones an id that does not run any
  -- more.
  pub stopped_stays_busy :
      (m : ExecutorMng Info)
      → IsSound m
      → has_available m ≡ true
      → (o : ExecutorMng Info) × (i : ℕ) × (stop_executors 1 m ≡ ok o)
        × (member i o.busy_executor_pool ≡ true)
        × (Dict.get o.executor_dict i ≡ none)
  unfolding stop_executors stop_free mark_busy
  stopped_stays_busy m s some_free =
      let g = get_executor-IsSound m s some_free in
      (
        record g.0 { executor_dict = Dict.remove g.0.executor_dict g.1 },
        g.1,
        rw (some_free, g.3) refl,
        g.9,
        Dict.get-remove_self g.0.executor_dict g.1,
      )
