-- ===== src/Mempool/ExecutorMng.antt =====
-- `MPExecutorMng` of proxy/mempool/executor_mng.py: the processes that execute transactions. What
-- `_create_executor` makes of an id (a process and its socket) is the parameter `create_executor`;
-- starting and killing a process, and the call of the user's `on_executor_released`, are not modelled.
pub mod Soundness
pub mod Counts
use proxy_model_py.Base.{
  ℕ, zero, suc, true, false, ◌+◌, ◌-◌, max, min, Bool, Option, none, some, List, [], ◌∷◌, ◌++◌, not,
  ltb, ◌==◌, nat_eq, length, if◌then◌else◌, is_some, Result, ok, err, ◌>>=◌, or_raise, index_error,
  key_error, attribute_error,
}
use proxy_model_py.Dict
use proxy_model_py.Dict.{Dict}

-- The head of `available_executor_pool` is the left end of the deque.
pub record ExecutorMng (Info : Type 0) : Type 0 where
  pub available_executor_pool : List ℕ
  pub busy_executor_pool : List ℕ
  pub executor_dict : Dict ℕ Info
  pub stopped_executor_dict : Dict ℕ Info
  pub last_id : ℕ

-- deque.pop() and dict.popitem(): the last item.
abbrev pub pop_last : {A : Type 0} → List A → Option (List A × A)
pop_last [] = none
pop_last (x ∷ xs) = elim (pop_last xs) [ none ↦ some ([], x) | some (ys, y) ↦ some (x ∷ ys, y) ]

abbrev pub member : ℕ → List ℕ → Bool
member i [] = false
member i (j ∷ js) = if j == i then true else member i js

-- set.add and set.remove
abbrev pub set_add : ℕ → List ℕ → List ℕ
set_add i s = if member i s then s else s ++ i ∷ []

abbrev pub set_delete : ℕ → List ℕ → List ℕ
set_delete i [] = []
set_delete i (j ∷ js) = let rest = set_delete i js in if j == i then rest else j ∷ rest

module _ {Info : Type 0} where
  unfoldable pub init : ExecutorMng Info
  init = record {
    available_executor_pool = [];
    busy_executor_pool = [];
    executor_dict = [];
    stopped_executor_dict = [];
    last_id = 0;
  }

  unfoldable pub has_available : ExecutorMng Info → Bool
  has_available m = ltb 0 (length m.available_executor_pool)

  -- `_get_executor`, which `submit_mp_request` calls.
  unfoldable pub get_executor : ExecutorMng Info → Result (ExecutorMng Info × ℕ × Info)
  get_executor m = do
    popped ← or_raise index_error (pop_last m.available_executor_pool)
    info ← or_raise attribute_error (Dict.get m.executor_dict popped.1)
    ok (
      record m {
        available_executor_pool = popped.0;
        busy_executor_pool = set_add popped.1 m.busy_executor_pool;
      },
      popped.1,
      info,
    )

  unfoldable pub run_executors : (ℕ → Info) → ℕ → ExecutorMng Info → ExecutorMng Info
  run_executors create_executor zero m = m
  run_executors create_executor (suc n) m = run_executors create_executor n (record m {
    last_id = m.last_id + 1;
    executor_dict = Dict.put m.executor_dict m.last_id (create_executor m.last_id);
    available_executor_pool = m.last_id ∷ m.available_executor_pool;
  })

  -- The first loop of `_stop_executors`: the free executors are stopped, `n` at most; how many are
  -- still to be stopped comes with the result.
  unfoldable pub stop_free : ℕ → ExecutorMng Info → Result (ExecutorMng Info × ℕ)
  stop_free zero m = ok (m, zero)
  stop_free (suc n) m = if not (has_available m) then ok (m, suc n) else do
    got ← get_executor m
    stop_free n (record got.0 { executor_dict = Dict.remove got.0.executor_dict got.1 })

  -- The second loop: executors that are busy are marked.
  unfoldable pub mark_busy : ℕ → ExecutorMng Info → Result (ExecutorMng Info)
  mark_busy zero m = ok m
  mark_busy (suc n) m = do
    popped ← or_raise key_error (pop_last m.executor_dict)
    mark_busy n (record m {
      executor_dict = popped.0;
      stopped_executor_dict = Dict.put m.stopped_executor_dict popped.1.0 popped.1.1;
    })

  unfoldable pub stop_executors : ℕ → ExecutorMng Info → Result (ExecutorMng Info)
  stop_executors n m = do stopped ← stop_free n m; mark_busy stopped.1 stopped.0

  -- `limit` is `mempool_executor_limit_cnt` of the configuration. Of the two differences one is 0.
  unfoldable pub set_executor_cnt :
      (ℕ → Info) → ℕ → ℕ → ExecutorMng Info → Result (ExecutorMng Info)
  set_executor_cnt create_executor limit executor_count m =
      let wanted = min (max (executor_count + 1) 3) limit in
      let running = length m.executor_dict in
      if ltb running wanted
      then ok (run_executors create_executor (wanted - running) m)
      else if ltb wanted running
      then stop_executors (running - wanted) m
      else ok m

  unfoldable pub release_executor : ℕ → ExecutorMng Info → Result (ExecutorMng Info)
  release_executor i m =
      let freed = record m { busy_executor_pool = set_delete i m.busy_executor_pool } in
      if not (member i m.busy_executor_pool)
      then err key_error
      else if Dict.contains m.executor_dict i
      then ok (record freed { available_executor_pool = i ∷ m.available_executor_pool })
      else if Dict.contains m.stopped_executor_dict i
      then ok (record freed { stopped_executor_dict = Dict.remove m.stopped_executor_dict i })
      else err key_error
