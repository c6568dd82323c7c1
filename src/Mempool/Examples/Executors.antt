-- ===== src/Mempool/Examples/Executors.antt =====
-- The theorems on the executors of proxy/mempool/executor_mng.py at two executors, of which one is free.
use proxy_model_py.Base.{
  ℕ, ◌≡◌, ◌+◌, refl, true, false, some, none, [], ◌∷◌, ok, arith, String, nat_eq, max, min, length,
  suc,
}
use proxy_model_py.Dict
use proxy_model_py.Mempool.ExecutorMng.{
  ExecutorMng, member, has_available, get_executor, stop_executors, set_executor_cnt,
  release_executor,
}
use proxy_model_py.Mempool.ExecutorMng.Soundness.{IsSound, Released, get_executor-IsSound}
use proxy_model_py.Mempool.ExecutorMng.Counts.{set_executor_cnt_lem, stopped_stays_busy}

abbrev create : ℕ → String
create i = "executor"

abbrev pub two : ExecutorMng String
two = record {
  available_executor_pool = 1 ∷ [];
  busy_executor_pool = 0 ∷ [];
  executor_dict = (0, "executor") ∷ (1, "executor") ∷ [];
  stopped_executor_dict = [];
  last_id = 2;
}

two-IsSound : IsSound two
unfolding Dict.get Dict.contains
two-IsSound = record {
  running = λ i h. ground (arith, h, nat_eq.same_iff 1 i);
  distinct = (refl, tt);
  unique = (refl, (refl, tt));
  unused = λ i le. ground (arith, le, nat_eq.same_iff 0 i, nat_eq.same_iff 1 i);
}

one_free : has_available two ≡ true
unfolding has_available
one_free = refl

get_executor-IsSound_example :
    (n : ExecutorMng String) × (i : ℕ) × (info : String) × (get_executor two ≡ ok (n, i, info))
    × IsSound n
    × (Dict.get two.executor_dict i ≡ some info)
    × (member i n.available_executor_pool ≡ false)
    × (length two.available_executor_pool ≡ suc (length n.available_executor_pool))
    × (n.executor_dict ≡ two.executor_dict)
    × (member i n.busy_executor_pool ≡ true)
    × Released i n
get_executor-IsSound_example = get_executor-IsSound two two-IsSound one_free

set_executor_cnt_lem_example :
    (o : ExecutorMng String) × (set_executor_cnt create 10 4 two ≡ ok o)
    × (length o.executor_dict ≡ min (max (4 + 1) 3) 10)
set_executor_cnt_lem_example = set_executor_cnt_lem create 10 4 two two-IsSound

stopped_stays_busy_example :
    (o : ExecutorMng String) × (i : ℕ) × (stop_executors 1 two ≡ ok o)
    × (member i o.busy_executor_pool ≡ true)
    × (Dict.get o.executor_dict i ≡ none)
stopped_stays_busy_example = stopped_stays_busy two two-IsSound one_free

-- A released executor is free again, behind those that were free before.
release_runs :
    release_executor 0 two
    ≡ ok (record two { available_executor_pool = 0 ∷ 1 ∷ []; busy_executor_pool = [] })
unfolding release_executor Dict.get Dict.contains
release_runs = refl
