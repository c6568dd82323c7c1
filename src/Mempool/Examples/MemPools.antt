-- ===== src/Mempool/Examples/MemPools.antt =====
-- The theorems on `MemPool` of proxy/mempool/mempool.py at a mempool that executes one transaction.
use proxy_model_py.SortedQueue
use proxy_model_py.Resources
use proxy_model_py.Mempool.SenderPool
use proxy_model_py.Mempool.Schedule.Sync
use proxy_model_py.Mempool.Schedule.State
use proxy_model_py.Mempool.Schedule.Calls
use proxy_model_py.Mempool.RequestDict
use proxy_model_py.Mempool.MemPool.State as MemPoolState
use proxy_model_py.Mempool.MemPool.Results
use proxy_model_py.Base.{
  ◌≡◌, ◌≢◌, refl, [], ◌∷◌, ok, err, some, none, true, false, String, string_eq, nat_eq, pair_eq,
  Result,
}
use proxy_model_py.Dict
use proxy_model_py.Mempool.TxRequest.{TxRequest, already_known}
use proxy_model_py.Mempool.SenderPool.{SenderPool, State}
use proxy_model_py.Mempool.SenderPool.Processing.{taken}
use proxy_model_py.Mempool.Schedule.State.{Schedule}
use proxy_model_py.Mempool.Schedule.Calls.{reply}
use proxy_model_py.Resources.{OpResIdent, OpResMng}
use proxy_model_py.Resources.Keeping.{IsExclusive, Keeps}
use proxy_model_py.Resources.Examples.{three, key_a, three-IsExclusive}
use proxy_model_py.Mempool.MemPool.State.{
  MemPool, ExecRequest, Task, from_tx_req, schedule_mp_tx_request,
}
use proxy_model_py.Mempool.MemPool.Acquire.{acquire_stuck_tx}
use proxy_model_py.Mempool.MemPool.Results.{ExecResult, EndCode, process_mp_tx_result}
use proxy_model_py.Mempool.MemPool.PutOff.{put_off}
use proxy_model_py.Mempool.MemPool.Release.{IsFree, process_mp_tx_result-IsFree}
use proxy_model_py.Mempool.MemPool.Termination.{acquire_stuck_tx-ne-none}
use proxy_model_py.Mempool.MemPool.Known.{outcome_refused}
use proxy_model_py.Mempool.MemPool.Calls.{process_mp_tx_result-IsExclusive}
use proxy_model_py.Mempool.Examples.{request, no_cfg}
use proxy_model_py.Mempool.Examples.Schedules.{pool_a}
use proxy_model_py.Mempool.Examples.Outcomes.{two_stuck, two_done, stuck_sig}
use proxy_model_py.Mempool.Examples.Executors.{two}
use proxy_model_py.Mempool.Examples.Tables.{at_1000}

abbrev tx_x : TxRequest
tx_x = request "tx" "A" 0 5

-- The one request of the schedule is executed.
abbrev executing : Schedule
executing = record {
  capacity = 10;
  tx_dict = record {
    tx_hash_dict = ("tx", tx_x) ∷ [];
    tx_sender_nonce_dict = (("A", 0), tx_x) ∷ [];
    tx_gas_price_queue = [];
  };
  sender_pool_dict = ("A", taken (record pool_a { tx_nonce_queue = tx_x ∷ [] }) tx_x) ∷ [];
  sender_pool_queue = [];
  suspended_sender_set = [];
}

abbrev req_x : ExecRequest
req_x = record { tx = tx_x; is_stuck_tx = false; holder_account = none; res_ident = key_a }

abbrev one_task : MemPool String
one_task = record {
  tx_schedule = executing;
  processing_task_list = record { executor_id = 0; mp_request = req_x } ∷ [];
  rescheduled_tx_queue = [];
  waiting_tx_list = [];
  is_active = true;
  executor_mng = two;
  op_res_mng = three;
  completed_tx_dict = two_done;
  stuck_tx_dict = two_stuck;
  free_alt_queue = at_1000;
  gas_price = some (record { suggested_gas_price = 5; min_gas_price = 1 });
}

abbrev secret_of : OpResIdent → String
secret_of i = "secret"

abbrev processed : Result (MemPool String × EndCode) → MemPool String
processed (ok r) = r.0
processed (err e) = one_task

abbrev after_done : MemPool String
after_done =
    processed (process_mp_tx_result secret_of 10 9 9 one_task req_x (ExecResult.done 1 no_cfg))

done_runs :
    process_mp_tx_result secret_of 10 9 9 one_task req_x (ExecResult.done 1 no_cfg)
    ≡ ok (after_done, EndCode.done)
unfolding process_mp_tx_result Results.on_done_tx Calls.done_tx State.get_sender_pool Dict.get
    MemPoolState.release_resource Resources.release_resource Resources.pop_used_resource
    Results.with_cfg Resources.member SenderPool.done_tx SenderPool.validate_processing_tx
    SenderPool.top_tx SortedQueue.item_at SortedQueue.pop_index RequestDict.pop Dict.contains
    SortedQueue.find SortedQueue.find_loop SortedQueue.bisect_left Sync.schedule_sender_pool
    Sync.set_sender_tx_cnt SenderPool.sender_tx_cnt Sync.sync_sender_state
    SenderPool.has_valid_state SenderPool.actual_state SortedQueue.remove_at Sync.leave_old_state
    SenderPool.sync_state Sync.enter_new_state State.save_pool Dict.put
done_runs = refl

process_mp_tx_result-IsFree_example :
    IsFree after_done.op_res_mng "tx" × (put_off one_task ≡ put_off after_done)
process_mp_tx_result-IsFree_example =
    process_mp_tx_result-IsFree secret_of 10 9 9 one_task after_done req_x
      (ExecResult.done 1 no_cfg) EndCode.done refl done_runs

outcome_refused_example :
    schedule_mp_tx_request after_done tx_x ≡ ok (after_done, reply already_known none)
outcome_refused_example =
    outcome_refused secret_of 10 9 9 one_task after_done req_x (ExecResult.done 1 no_cfg)
      EndCode.done tx_x refl refl done_runs refl

process_mp_tx_result-IsExclusive_example :
    IsExclusive after_done.op_res_mng × Keeps three after_done.op_res_mng
process_mp_tx_result-IsExclusive_example =
    process_mp_tx_result-IsExclusive secret_of 10 9 9 one_task after_done req_x
      (ExecResult.done 1 no_cfg) EndCode.done three-IsExclusive refl done_runs

acquire_stuck_tx-ne-none_example : acquire_stuck_tx 9 one_task ≢ ok none
acquire_stuck_tx-ne-none_example =
    acquire_stuck_tx-ne-none 9 one_task
      (record { own = (stuck_sig "x", tt); external = (stuck_sig "y", tt) })
