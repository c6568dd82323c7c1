-- ===== src/Mempool/MemPool/Results.antt =====
-- How `MemPool` of proxy/mempool/mempool.py takes back what the executors did, with the results of
-- `execute_neon_tx` of proxy/mempool/mempool_executor_task_exec_neon_tx.py.
use proxy_model_py.Base.{
  ℕ, String, Bool, true, false, Option, none, some, List, [], ◌∷◌, ◌++◌, ◌||◌, if◌then◌else◌,
  Result, ok, ◌>>=◌,
}
use proxy_model_py.Mempool.TxRequest.{ExecCfg, neon_tx_info}
use proxy_model_py.Mempool.Schedule.Calls
use proxy_model_py.Mempool.CompletedTxDict
use proxy_model_py.Mempool.StuckTxDict
use proxy_model_py.Mempool.StuckTxDict.{StuckTxError}
use proxy_model_py.Mempool.ExecutorMng
use proxy_model_py.Resources
use proxy_model_py.Resources.{OpResIdent}
use proxy_model_py.Mempool.MemPool.State.{MemPool, ExecRequest, Task, release_resource}

-- How the execution of a transaction ends: it returns, or it raises one of these exceptions. The
-- configuration that comes along is the one that the execution leaves.
pub data Execution : Type 0 where
  returns nonce_too_low_error nonce_too_high_error bad_resource_error reschedule_error :
      ℕ → ExecCfg → Execution
  stuck_tx_error : StuckTxError → Execution
  other_error : String → Execution

-- `MPTxExecResult` by its `MPTxExecResultCode`: `data` is the configuration (with `state_tx_cnt`), the
-- exception's text or the exception.
pub data ExecResult : Type 0 where
  done reschedule bad_resource nonce_too_high : ℕ → ExecCfg → ExecResult
  failed : String → ExecResult
  stuck_tx : StuckTxError → ExecResult

unfoldable pub execute_neon_tx : Execution → ExecResult
execute_neon_tx (returns cnt cfg) = done cnt cfg
execute_neon_tx (nonce_too_low_error cnt cfg) = done cnt cfg
execute_neon_tx (nonce_too_high_error cnt cfg) = nonce_too_high cnt cfg
execute_neon_tx (bad_resource_error cnt cfg) = bad_resource cnt cfg
execute_neon_tx (reschedule_error cnt cfg) = reschedule cnt cfg
execute_neon_tx (stuck_tx_error e) = stuck_tx e
execute_neon_tx (other_error e) = failed e

-- `NeonTxEndCode` of proxy/statistic/data.py
pub data EndCode : Type 0 where
  unspecified unfinished done stuck_done failed rescheduled canceled : EndCode

-- What an `asyncio.Task` of an executor has come to.
pub data TaskState : Type 0 where
  running : TaskState
  raised : String → TaskState
  returned : ExecResult → TaskState

unfoldable pub with_cfg : ExecRequest → ℕ → ExecCfg → ExecRequest
with_cfg req cnt cfg = record req { tx = record req.tx { state_tx_cnt = cnt; exec_cfg = cfg } }

unfoldable pub keeps_resource : ExecRequest → Bool
keeps_resource req = req.tx.exec_cfg.is_resource_used || req.tx.exec_cfg.has_completed_receipt

module _ {Info : Type 0} (private_key : OpResIdent → String) (recheck_cnt now time_ns : ℕ) where
  abbrev pub cancel : MemPool Info → ExecRequest → Result (MemPool Info × EndCode)
  cancel m req = do
    r ← Calls.cancel_tx m.tx_schedule req.tx
    ok (record m { tx_schedule = r.1 }, canceled)

  abbrev pub disable : MemPool Info × Option OpResIdent → MemPool Info
  disable (m, none) = m
  disable (m, some ident) = record m { op_res_mng = Resources.disable_resource m.op_res_mng ident }

  unfoldable pub on_bad_resource : MemPool Info → ExecRequest → Result (MemPool Info × EndCode)
  on_bad_resource m req = cancel (disable (release_resource private_key recheck_cnt m req)) req

  unfoldable pub on_cancel_tx : MemPool Info → ExecRequest → Result (MemPool Info × EndCode)
  on_cancel_tx m req = cancel (release_resource private_key recheck_cnt m req).0 req

  unfoldable pub on_reschedule_tx : MemPool Info → ExecRequest → MemPool Info × EndCode
  on_reschedule_tx m req = (
    record m { waiting_tx_list = m.waiting_tx_list ++ req ∷ [] },
    if keeps_resource req then rescheduled else canceled,
  )

  -- The second half of `_reschedule_tx`, once it has slept.
  unfoldable pub wake_tx : MemPool Info → ExecRequest → Result (MemPool Info)
  wake_tx m req =
      if keeps_resource req
      then ok (record m {
        op_res_mng = Resources.update_resource m.op_res_mng req.tx.sig now;
        rescheduled_tx_queue = m.rescheduled_tx_queue ++ req ∷ [];
      })
      else (do r ← on_cancel_tx m req; ok r.0)

  -- A stuck transaction leaves the dict of those in processing.
  abbrev pub end_stuck : MemPool Info → ExecRequest → EndCode → Result (MemPool Info × EndCode)
  end_stuck m req code = do
    d ← StuckTxDict.done_tx m.stuck_tx_dict req.tx.sig
    ok (record m { stuck_tx_dict = d }, code)

  unfoldable pub on_done_stuck_tx : MemPool Info → ExecRequest → Result (MemPool Info × EndCode)
  on_done_stuck_tx m req = end_stuck (release_resource private_key recheck_cnt m req).0 req done

  -- What `_on_done_tx` and `_on_fail_tx` do with a transaction of the schedule.
  abbrev pub finish :
      MemPool Info → ExecRequest → Option String → EndCode → Result (MemPool Info × EndCode)
  finish m req exc code = do
    s ← Calls.done_tx m.tx_schedule req.tx
    ok (
      record m {
        tx_schedule = s;
        completed_tx_dict =
            CompletedTxDict.done_tx m.completed_tx_dict (neon_tx_info req.tx) exc now;
      },
      code,
    )

  unfoldable pub on_done_tx : MemPool Info → ExecRequest → Result (MemPool Info × EndCode)
  on_done_tx m req = finish (release_resource private_key recheck_cnt m req).0 req none done

  abbrev pub fail_by_kind :
      Bool → MemPool Info → ExecRequest → String → Result (MemPool Info × EndCode)
  fail_by_kind true m req exc = end_stuck m req failed
  fail_by_kind false m req exc = finish m req (some exc) failed

  unfoldable pub on_fail_tx : MemPool Info → ExecRequest → String → Result (MemPool Info × EndCode)
  on_fail_tx m req exc =
      fail_by_kind req.is_stuck_tx (release_resource private_key recheck_cnt m req).0 req exc

  unfoldable pub on_stuck_tx :
      MemPool Info → ExecRequest → StuckTxError → Result (MemPool Info × EndCode)
  on_stuck_tx m req e = do
    let n = (release_resource private_key recheck_cnt m req).0
    got ← Resources.get_resource n.op_res_mng e.neon_tx_sig now
    let d =
        StuckTxDict.add_own_tx (CompletedTxDict.contains n.completed_tx_dict) n.stuck_tx_dict e
          time_ns
    on_cancel_tx (record n { op_res_mng = got.0; stuck_tx_dict = d }) req

  -- `_process_mp_tx_result` after the configuration is taken over.
  abbrev pub by_code : MemPool Info → ExecRequest → ExecResult → Result (MemPool Info × EndCode)
  by_code m req (done cnt cfg) = on_done_tx m (with_cfg req cnt cfg)
  by_code m req (reschedule cnt cfg) = ok (on_reschedule_tx m (with_cfg req cnt cfg))
  by_code m req (bad_resource cnt cfg) = on_bad_resource m (with_cfg req cnt cfg)
  by_code m req (nonce_too_high cnt cfg) = on_cancel_tx m (with_cfg req cnt cfg)
  by_code m req (failed exc) = on_fail_tx m req exc
  by_code m req (stuck_tx e) = on_stuck_tx m req e

  abbrev pub stuck_by_code :
      MemPool Info → ExecRequest → ExecResult → Result (MemPool Info × EndCode)
  stuck_by_code m req (done cnt cfg) = on_done_stuck_tx m (with_cfg req cnt cfg)
  stuck_by_code m req (reschedule cnt cfg) = on_done_stuck_tx m (with_cfg req cnt cfg)
  stuck_by_code m req (bad_resource cnt cfg) = on_done_stuck_tx m (with_cfg req cnt cfg)
  stuck_by_code m req (nonce_too_high cnt cfg) = on_done_stuck_tx m (with_cfg req cnt cfg)
  stuck_by_code m req (failed exc) = on_fail_tx m req exc
  stuck_by_code m req (stuck_tx e) = on_done_stuck_tx m req

  abbrev pub by_kind :
      Bool → MemPool Info → ExecRequest → ExecResult → Result (MemPool Info × EndCode)
  by_kind true m req res = stuck_by_code m req res
  by_kind false m req res = by_code m req res

  unfoldable pub process_mp_tx_result :
      MemPool Info → ExecRequest → ExecResult → Result (MemPool Info × EndCode)
  process_mp_tx_result m req res = by_kind req.is_stuck_tx m req res

  -- `_complete_task`; an exception of a handler is answered with `unspecified` in the source.
  unfoldable pub complete_task : MemPool Info → Task → TaskState → Result (MemPool Info × EndCode)
  complete_task m task running = ok (m, unfinished)
  complete_task m task (raised exc) = on_fail_tx m task.mp_request exc
  complete_task m task (returned res) = process_mp_tx_result m task.mp_request res

  -- After a task's end its executor is released.
  abbrev pub after_task :
      Task → MemPool Info → EndCode → List Task → Result (MemPool Info × List Task)
  after_task task m unfinished left = ok (m, left ++ task ∷ [])
  after_task task m code left = do
    e ← ExecutorMng.release_executor task.executor_id m.executor_mng
    ok (record m { executor_mng = e }, left)

  -- A round of `_process_tx_result_loop` over the tasks; `left` are those that are not finished.
  unfoldable pub result_loop :
      (Task → TaskState) → List Task → MemPool Info → List Task → Result (MemPool Info)
  result_loop state [] m left = ok (record m { processing_task_list = left })
  result_loop state (task ∷ tasks) m left = do
    r ← complete_task m task (state task)
    n ← after_task task r.0 r.1 left
    result_loop state tasks n.0 n.1

  unfoldable pub process_tx_result : (Task → TaskState) → MemPool Info → Result (MemPool Info)
  process_tx_result state m = result_loop state m.processing_task_list m []
