-- ===== src/Mempool/MemPool/Acquire.antt =====
-- How `MemPool` of proxy/mempool/mempool.py takes the next transaction to an executor.
use proxy_model_py.Base.{
  ℕ, zero, suc, ◌+◌, String, Bool, true, false, Option, none, some, List, [], ◌∷◌, ◌++◌, not, ltb,
  if◌then◌else◌, Result, ok, err, ◌>>=◌, or_raise, attribute_error, length,
}
use proxy_model_py.Mempool.TxRequest.{TxRequest}
use proxy_model_py.Mempool.Schedule.Calls
use proxy_model_py.Mempool.StuckTxDict
use proxy_model_py.Mempool.StuckTxDict.{StuckTxDict, StuckTxInfo, sig}
use proxy_model_py.Mempool.ExecutorMng
use proxy_model_py.Mempool.ExecutorMng.{ExecutorMng}
use proxy_model_py.Resources
use proxy_model_py.Resources.{OpResIdent}
use proxy_model_py.Mempool.MemPool.State.{MemPool, ExecRequest, from_tx_req, from_stuck_tx}

-- `NeonTxBeginCode` of proxy/statistic/data.py
pub data BeginCode : Type 0 where
  failed started restarted stuck_pushed : BeginCode

-- How many stuck transactions wait.
abbrev pub stuck_cnt : StuckTxDict → ℕ
stuck_cnt d = length d.own_tx_dict + length d.external_tx_dict

abbrev pub is_failed : BeginCode → Bool
is_failed failed = true
is_failed code = false

module _ {Info : Type 0} (now : ℕ) where
  -- `_attach_resource_to_tx` for a transaction with this signature.
  unfoldable pub attach_resource : MemPool Info → String → Result (MemPool Info × Option OpResIdent)
  attach_resource m tx_sig = do
    got ← Resources.get_resource m.op_res_mng tx_sig now
    ok (record m { op_res_mng = got.0 }, got.1)

  -- The end of a round of `_acquire_stuck_tx`.
  abbrev pub push_stuck :
      StuckTxInfo
      → MemPool Info × Option OpResIdent
      → Result (MemPool Info × BeginCode × Option ExecRequest)
  push_stuck stuck_tx (m, none) = ok (m, failed, none)
  push_stuck stuck_tx (m, some ident) = do
    taken ← StuckTxDict.acquire_tx m.stuck_tx_dict stuck_tx
    ok (record m { stuck_tx_dict = taken.0 }, stuck_pushed, some (from_stuck_tx stuck_tx ident))

  -- A round of the loop of `_acquire_stuck_tx`, by what `drop_stuck_tx` answers; `next` is the next one.
  abbrev pub after_drop :
      (MemPool Info → Result (Option (MemPool Info × BeginCode × Option ExecRequest)))
      → StuckTxInfo
      → MemPool Info
      → Bool
      → Result (Option (MemPool Info × BeginCode × Option ExecRequest))
  after_drop next stuck_tx m false = do
    d ← StuckTxDict.skip_tx m.stuck_tx_dict stuck_tx
    next (record m { stuck_tx_dict = d })
  after_drop next stuck_tx m true = do
    attached ← attach_resource m (sig stuck_tx)
    r ← push_stuck stuck_tx attached
    ok (some r)

  abbrev pub stuck_round :
      (MemPool Info → Result (Option (MemPool Info × BeginCode × Option ExecRequest)))
      → MemPool Info
      → Option StuckTxInfo
      → Result (Option (MemPool Info × BeginCode × Option ExecRequest))
  stuck_round next m none = ok (some (m, failed, none))
  stuck_round next m (some stuck_tx) = do
    dropped ← Calls.drop_stuck_tx m.tx_schedule (sig stuck_tx)
    after_drop next stuck_tx (record m { tx_schedule = dropped.1 }) dropped.0

  -- The loop of `_acquire_stuck_tx`, on fuel; `none` says that the fuel ran out.
  unfoldable pub stuck_loop :
      ℕ → MemPool Info → Result (Option (MemPool Info × BeginCode × Option ExecRequest))
  stuck_loop zero m = ok none
  stuck_loop (suc fuel) m =
      stuck_round (λ n. stuck_loop fuel n) m (StuckTxDict.peek_tx m.stuck_tx_dict)

  unfoldable pub acquire_stuck_tx :
      MemPool Info → Result (Option (MemPool Info × BeginCode × Option ExecRequest))
  acquire_stuck_tx m = stuck_loop (suc (stuck_cnt m.stuck_tx_dict)) m

  abbrev pub restart :
      ExecRequest
      → List ExecRequest
      → MemPool Info × Option OpResIdent
      → MemPool Info × BeginCode × Option ExecRequest
  restart req rest (m, none) = (m, failed, none)
  restart req rest (m, some ident) =
      (record m { rescheduled_tx_queue = rest }, restarted, some (record req { res_ident = ident }))

  abbrev pub acquire_rescheduled :
      MemPool Info → List ExecRequest → Result (MemPool Info × BeginCode × Option ExecRequest)
  acquire_rescheduled m [] = ok (m, failed, none)
  acquire_rescheduled m (req ∷ rest) = do
    attached ← attach_resource m req.tx.sig
    ok (restart req rest attached)

  unfoldable pub acquire_rescheduled_tx :
      MemPool Info → Result (MemPool Info × BeginCode × Option ExecRequest)
  acquire_rescheduled_tx m = acquire_rescheduled m m.rescheduled_tx_queue

  abbrev pub start :
      TxRequest
      → MemPool Info × Option OpResIdent
      → Result (MemPool Info × BeginCode × Option ExecRequest)
  start tx (m, none) = ok (m, failed, none)
  start tx (m, some ident) = do
    s ← Calls.acquire_tx m.tx_schedule tx
    ok (record m { tx_schedule = s }, started, some (from_tx_req tx ident))

  abbrev pub acquire_peeked :
      MemPool Info → Option TxRequest → Result (MemPool Info × BeginCode × Option ExecRequest)
  acquire_peeked m none = ok (m, failed, none)
  acquire_peeked m (some tx) = do
    price ← or_raise attribute_error m.gas_price
    if ltb tx.gas_price price.min_gas_price
        then ok (m, failed, none)
        else do attached ← attach_resource m tx.sig; start tx attached

  unfoldable pub acquire_scheduled_tx :
      MemPool Info → Result (MemPool Info × BeginCode × Option ExecRequest)
  acquire_scheduled_tx m = do top ← Calls.peek_top_tx m.tx_schedule; acquire_peeked m top

  abbrev pub or_scheduled :
      MemPool Info × BeginCode × Option ExecRequest
      → Result (MemPool Info × BeginCode × Option ExecRequest)
  or_scheduled (m, code, some req) = ok (m, code, some req)
  or_scheduled (m, code, none) = acquire_scheduled_tx m

  abbrev pub or_rescheduled :
      MemPool Info
      → Option (MemPool Info × BeginCode × Option ExecRequest)
      → Result (MemPool Info × BeginCode × Option ExecRequest)
  or_rescheduled m none = ok (m, failed, none)
  or_rescheduled m (some (n, code, some req)) = ok (n, code, some req)
  or_rescheduled m (some (n, code, none)) = do r ← acquire_rescheduled_tx n; or_scheduled r

  -- `_acquire_tx`: stuck transactions first, then the rescheduled ones, then the schedule. An exception
  -- is answered with `failed` in the source.
  unfoldable pub acquire_tx : MemPool Info → Result (MemPool Info × BeginCode × Option ExecRequest)
  acquire_tx m = do stuck ← acquire_stuck_tx m; or_rescheduled m stuck

  abbrev pub submit :
      MemPool Info × BeginCode × Option ExecRequest → Result (MemPool Info × BeginCode)
  submit (m, code, none) = ok (m, code)
  submit (m, code, some req) = elim (ExecutorMng.get_executor m.executor_mng) [
    | ok got ↦ ok (
      record m {
        executor_mng = got.0;
        processing_task_list =
            m.processing_task_list ++ record { executor_id = got.1; mp_request = req } ∷ [];
      },
      code,
    )
    | err e ↦ ok (record m { waiting_tx_list = m.waiting_tx_list ++ req ∷ [] }, failed)
  ]

  -- `_enqueue_tx_request`; a request that no executor takes is rescheduled.
  unfoldable pub enqueue_tx_request : MemPool Info → Result (MemPool Info × BeginCode)
  enqueue_tx_request m = do acquired ← acquire_tx m; submit acquired

  -- The inner loop of `_process_tx_schedule_loop`: each round but the last takes a free executor.
  unfoldable pub schedule_loop : ℕ → MemPool Info → Result (MemPool Info)
  schedule_loop zero m = ok m
  schedule_loop (suc fuel) m = if not (ExecutorMng.has_available m.executor_mng) then ok m else do
    r ← enqueue_tx_request m
    elim (is_failed r.1) [ true ↦ ok r.0 | false ↦ schedule_loop fuel r.0 ]

  -- A round of `_process_tx_schedule_loop`, which waits while the mempool is suspended.
  unfoldable pub process_tx_schedule : MemPool Info → Result (MemPool Info)
  process_tx_schedule m =
      if m.is_active then schedule_loop (length m.executor_mng.available_executor_pool) m else ok m
