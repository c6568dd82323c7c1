-- ===== src/Mempool/Schedule/Transfer.antt =====
-- How `MPTxSchedule` of proxy/mempool/mempool_schedule.py hands its requests over to another mempool:
-- `iter_taking_out_tx_list`, run to its end, and `take_in_tx_list`.
use proxy_model_py.Base.{List, [], ◌∷◌, String, string_eq, Result, ok, ◌>>=◌, if◌then◌else◌}
use proxy_model_py.Dict
use proxy_model_py.Dict.{Dict}
use proxy_model_py.Mempool.TxRequest.{TxRequest}
use proxy_model_py.Mempool.RequestDict
use proxy_model_py.Mempool.RequestDict.{RequestDict}
use proxy_model_py.Mempool.SenderPool
use proxy_model_py.Mempool.SenderPool.{SenderPool}
use proxy_model_py.Mempool.Schedule.State.{Schedule, save_pool}
use proxy_model_py.Mempool.Schedule.Calls.{add_tx}

unfoldable pub pop_each : RequestDict → List TxRequest → Result RequestDict
pop_each d [] = ok d
pop_each d (tx ∷ rest) = do d' ← RequestDict.pop d tx; pop_each d' rest

-- One round of the loop: the pool at that address is taken out.
unfoldable pub take_out_pool : Schedule → String → SenderPool → Result (List TxRequest × Schedule)
unfolding pop_each
take_out_pool s address p = do
  let out = (SenderPool.take_out_tx_list p).0
  let p' = (SenderPool.take_out_tx_list p).1
  d ← pop_each s.tx_dict out
  let s' = save_pool (record s { tx_dict = d }) p'
  ok (
    out,
    if SenderPool.is_empty p'
        then record s' { sender_pool_dict = Dict.remove s'.sender_pool_dict address }
        else s',
  )

unfoldable pub take_out_loop :
    Schedule → Dict String SenderPool → Result (List (String × List TxRequest) × Schedule)
unfolding take_out_pool
take_out_loop s [] = ok ([], s)
take_out_loop s ((address, p) ∷ rest) = do
  r ← take_out_pool s address p
  q ← take_out_loop r.1 rest
  ok ((address, r.0) ∷ q.0, q.1)

unfoldable pub take_out : Schedule → Result (List (String × List TxRequest) × Schedule)
unfolding take_out_loop
take_out s = do
  r ← take_out_loop s s.sender_pool_dict
  ok (r.0, record (r.1) { suspended_sender_set = []; sender_pool_queue = [] })

unfoldable pub take_in_tx_list : Schedule → List TxRequest → Result Schedule
take_in_tx_list s [] = ok s
take_in_tx_list s (tx ∷ rest) = do r ← add_tx s tx; take_in_tx_list r.1 rest
