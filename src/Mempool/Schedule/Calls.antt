-- ===== src/Mempool/Schedule/Calls.antt =====
-- The calls of `MPTxSchedule` of proxy/mempool/mempool_schedule.py.
use proxy_model_py.Base.{
  ℕ, zero, suc, ◌-◌, Bool, true, false, Option, none, some, List, [], ◌∷◌, String, string_eq,
  nat_eq, Result, ok, ◌>>=◌, ◌>>◌, leb, ltb, ◌==◌, or_raise, assert, key_error, if◌then◌else◌,
  length, max, negsuc,
}
use proxy_model_py.SortedQueue
use proxy_model_py.Mempool.TxRequest.{
  TxRequest, SendResult, SendResultCode, success, nonce_too_low, underprice, already_known,
  SenderTxCntData,
}
use proxy_model_py.Mempool.RequestDict
use proxy_model_py.Mempool.SenderPool
use proxy_model_py.Mempool.SenderPool.{SenderPool, State, state_beq}
use proxy_model_py.Mempool.Schedule.State.{
  Schedule, price_key, address_key, set_add, save_pool, drop_tx_from_sender_pool,
  add_tx_to_sender_pool, find_sender_pool, get_sender_pool, get_or_create_sender_pool, tx_cnt,
}
use proxy_model_py.Mempool.Schedule.Sync.{
  set_sender_tx_cnt, sync_sender_state, schedule_sender_pool,
}

-- A request that is there already, and has a higher gas price.
abbrev pub outbids : Option TxRequest → TxRequest → Bool
outbids none tx = false
outbids (some old) tx = ltb tx.gas_price old.gas_price

-- The full schedule holds no request with a gas price as low.
unfoldable pub is_underpriced : Schedule → TxRequest → Result Bool
is_underpriced s tx =
    if leb s.capacity (tx_cnt s)
    then (do lower ← RequestDict.peek_lower_tx s.tx_dict; ok (outbids lower tx))
    else ok false

-- The nonce of the request that is processed, if `tx` has the same.
unfoldable pub processing_nonce : SenderPool → TxRequest → Result (Option ℕ)
processing_nonce p tx =
    if state_beq p.state State.processing
    then (do t ← SenderPool.top_tx p; ok (if t.nonce == tx.nonce then some t.nonce else none))
    else ok none

-- The loop of `_check_oversized_and_reduce`, with the addresses of the pools that it changed.
unfoldable pub reduce_loop :
    ℕ → Schedule → List String → TxRequest → Result (Schedule × List String)
reduce_loop zero s changed new_tx = ok (s, changed)
reduce_loop (suc n) s changed new_tx = do
  lower ← RequestDict.peek_lower_tx s.tx_dict
  elim lower [
    | none ↦ ok (s, changed)
    | some tx ↦ if tx.sig == new_tx.sig then ok (s, changed) else do
      p ← get_sender_pool s tx.sender_address
      r ← drop_tx_from_sender_pool s p tx
      reduce_loop n r.0 (set_add changed tx.sender_address) new_tx
  ]

unfoldable pub sync_each : Schedule → List String → Result Schedule
sync_each s [] = ok s
sync_each s (address ∷ rest) = do
  p ← get_sender_pool s address
  s' ← sync_sender_state s p
  sync_each s' rest

-- `_check_oversized_and_reduce`. The source walks the set of changed senders in no set order; here it
-- is the order of the changes.
unfoldable pub check_oversized_and_reduce : Schedule → TxRequest → Result Schedule
check_oversized_and_reduce s new_tx =
    if leb (tx_cnt s) s.capacity
    then ok s
    else do r ← reduce_loop (tx_cnt s - s.capacity) s [] new_tx; sync_each r.0 r.1

abbrev pub reply : SendResultCode → Option ℕ → SendResult
reply code cnt = record { code = code; state_tx_cnt = cnt }

unfoldable pub drop_old : Schedule → SenderPool → Option TxRequest → Result (Schedule × SenderPool)
drop_old s p none = ok (s, p)
drop_old s p (some old) = drop_tx_from_sender_pool s p old

-- The last part of `add_tx`: everything is ok.
unfoldable pub enqueue_tx :
    Schedule → SenderPool → TxRequest → Option TxRequest → ℕ → Result (SendResult × Schedule)
enqueue_tx s p tx old cnt = do
  r ← drop_old s p old
  q ← add_tx_to_sender_pool r.0 r.1 tx
  s' ← schedule_sender_pool q.0 q.1 cnt
  s'' ← check_oversized_and_reduce s' tx
  ok (reply success none, s'')

-- `add_tx`, once the pool of the sender is at hand.
unfoldable pub add_to_pool :
    Schedule → SenderPool → TxRequest → Option TxRequest → Result (SendResult × Schedule)
add_to_pool s p tx old = do
  busy ← processing_nonce p tx
  elim busy [
    | some nonce ↦ ok (reply nonce_too_low (some nonce), s)
    | none ↦ do
      c ← SenderPool.sender_tx_cnt p
      let cnt = max tx.state_tx_cnt c
      if ltb tx.nonce cnt then ok (reply nonce_too_low (some cnt), s) else enqueue_tx s p tx old cnt
  ]

unfoldable pub add_tx : Schedule → TxRequest → Result (SendResult × Schedule)
add_tx s tx = elim (RequestDict.get_tx_by_hash s.tx_dict tx.sig) [
  | some known ↦ ok (reply already_known none, s)
  | none ↦
      let old = RequestDict.get_tx_by_sender_nonce s.tx_dict tx in
      if outbids old tx then ok (reply underprice none, s) else do
        low ← is_underpriced s tx
        if low
            then ok (reply underprice none, s)
            else add_to_pool s (get_or_create_sender_pool s tx.sender_address) tx old
]

unfoldable pub drop_stuck_tx : Schedule → String → Result (Bool × Schedule)
drop_stuck_tx s sig = elim (RequestDict.get_tx_by_hash s.tx_dict sig) [
  | none ↦ ok (true, s)
  | some tx ↦ do
    p ← get_sender_pool s tx.sender_address
    if state_beq p.state State.processing then ok (false, s) else do
      r ← set_sender_tx_cnt s p tx.nonce
      q ← drop_tx_from_sender_pool r.0 r.1 tx
      ok (true, q.0)
]

-- The pool at the end of the queue; the queue holds the objects that the dict holds.
unfoldable pub peek_top_tx : Schedule → Result (Option TxRequest)
peek_top_tx s = if length s.sender_pool_queue == 0 then ok none else do
  address ← SortedQueue.item_at s.sender_pool_queue (negsuc 0)
  p ← or_raise key_error (find_sender_pool s address)
  t ← SenderPool.top_tx p
  ok (some t)

unfoldable pub acquire_tx : Schedule → TxRequest → Result Schedule
acquire_tx s tx = do
  p ← get_sender_pool s tx.sender_address
  assert (state_beq p.state State.queued)
  popped ←
      SortedQueue.pop_item (price_key s.sender_pool_dict) address_key s.sender_pool_queue
        p.sender_address
  p' ← SenderPool.acquire_tx p tx
  d ← RequestDict.acquire_tx s.tx_dict tx
  ok (save_pool (record s { tx_dict = d; sender_pool_queue = popped.1 }) p')

-- `done_tx`, and `fail_tx`, which does the same.
unfoldable pub done_tx : Schedule → TxRequest → Result Schedule
done_tx s tx = do
  p ← get_sender_pool s tx.sender_address
  p' ← SenderPool.done_tx p tx
  d ← RequestDict.pop s.tx_dict tx
  schedule_sender_pool (save_pool (record s { tx_dict = d }) p') p' tx.state_tx_cnt

unfoldable pub cancel_tx : Schedule → TxRequest → Result (Bool × Schedule)
cancel_tx s tx = do
  p ← get_sender_pool s tx.sender_address
  p' ← SenderPool.cancel_process_tx p tx
  d ← RequestDict.cancel_process_tx (RequestDict.refresh s.tx_dict tx) tx
  s' ← schedule_sender_pool (save_pool (record s { tx_dict = d }) p') p' tx.state_tx_cnt
  ok (true, s')

-- `get_pending_tx_nonce` and `get_last_tx_nonce`
unfoldable pub get_pending_tx_nonce : Schedule → String → Option ℕ
get_pending_tx_nonce s address = elim (find_sender_pool s address) [
  | none ↦ none
  | some p ↦ SenderPool.pending_nonce p
]

unfoldable pub get_last_tx_nonce : Schedule → String → Result (Option ℕ)
get_last_tx_nonce s address = elim (find_sender_pool s address) [
  | none ↦ ok none
  | some p ↦ SenderPool.last_nonce p
]

-- `get_pending_tx_by_hash`, which gives the transaction's data for the request.
unfoldable pub get_pending_tx_by_hash : Schedule → String → Option TxRequest
get_pending_tx_by_hash s sig = RequestDict.get_tx_by_hash s.tx_dict sig

unfoldable pub set_sender_state_tx_cnt_list : Schedule → List SenderTxCntData → Result Schedule
set_sender_state_tx_cnt_list s [] = ok s
set_sender_state_tx_cnt_list s (d ∷ rest) = elim (find_sender_pool s d.sender) [
  | none ↦ set_sender_state_tx_cnt_list s rest
  | some p ↦
      if state_beq p.state State.suspended
      then (do s' ← schedule_sender_pool s p d.state_tx_cnt; set_sender_state_tx_cnt_list s' rest)
      else set_sender_state_tx_cnt_list s rest
]
