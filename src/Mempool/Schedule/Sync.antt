-- ===== src/Mempool/Schedule/Sync.antt =====
-- How `MPTxSchedule` of proxy/mempool/mempool_schedule.py brings a pool in line with the number of the
-- sender's transactions and with the queues: `_set_sender_tx_cnt`, `_sync_sender_state` and
-- `_schedule_sender_pool`.
use proxy_model_py.Base.{
  ℕ, zero, suc, string_eq, nat_eq, Result, ok, err, ◌>>=◌, leb, ◌==◌, key_error, if◌then◌else◌,
  length,
}
use proxy_model_py.Dict
use proxy_model_py.SortedQueue
use proxy_model_py.Mempool.SenderPool
use proxy_model_py.Mempool.SenderPool.{SenderPool, State, state_beq}
use proxy_model_py.Mempool.Schedule.State.{
  Schedule, price_key, address_key, set_add, set_remove, save_pool, drop_tx_from_sender_pool,
}

-- The loop of `_set_sender_tx_cnt`, on fuel.
unfoldable pub drop_below : ℕ → Schedule → SenderPool → ℕ → Result (Schedule × SenderPool)
drop_below zero s p cnt = ok (s, p)
drop_below (suc fuel) s p cnt = if SenderPool.is_empty p then ok (s, p) else do
  t ← SenderPool.top_tx p
  if leb cnt t.nonce
      then ok (s, p)
      else do r ← drop_tx_from_sender_pool s p t; drop_below fuel r.0 r.1 cnt

-- `_set_sender_tx_cnt`. Each round of the loop takes a request out of the pool's queue.
unfoldable pub set_sender_tx_cnt : Schedule → SenderPool → ℕ → Result (Schedule × SenderPool)
set_sender_tx_cnt s p cnt = do
  c ← SenderPool.sender_tx_cnt p
  if c == cnt then ok (s, p) else if state_beq p.state State.processing then ok (s, p) else do
    r ← drop_below (suc (length p.tx_nonce_queue)) s p cnt
    let p' = SenderPool.set_state_tx_cnt r.1 cnt
    ok (save_pool r.0 p', p')

-- The first half of `_sync_sender_state`: the pool leaves the place of its old state.
unfoldable pub leave_old_state : Schedule → SenderPool → State → Result Schedule
leave_old_state s p State.suspended = do
  l ← set_remove s.suspended_sender_set p.sender_address
  ok (record s { suspended_sender_set = l })
leave_old_state s p State.queued = do
  popped ←
      SortedQueue.pop_item (price_key s.sender_pool_dict) address_key s.sender_pool_queue
        p.sender_address
  ok (record s { sender_pool_queue = popped.1 })
leave_old_state s p State.empty = ok s
leave_old_state s p State.processing = ok s

-- The second half: the pool enters the place of its new state. `pop` without a default raises for a
-- key that the dict lacks.
unfoldable pub enter_new_state : Schedule → SenderPool → State → Result Schedule
enter_new_state s p State.empty =
    if Dict.contains s.sender_pool_dict p.sender_address
    then ok (record s { sender_pool_dict = Dict.remove s.sender_pool_dict p.sender_address })
    else err key_error
enter_new_state s p State.suspended =
    ok (record s { suspended_sender_set = set_add s.suspended_sender_set p.sender_address })
enter_new_state s p State.queued = do
  queue ←
      SortedQueue.add (price_key s.sender_pool_dict) address_key s.sender_pool_queue
        p.sender_address
  ok (record s { sender_pool_queue = queue })
enter_new_state s p State.processing = ok s

-- `_sync_sender_state`
unfoldable pub sync_sender_state : Schedule → SenderPool → Result Schedule
sync_sender_state s p = do
  valid ← SenderPool.has_valid_state p
  if valid then ok s else do
    s' ← leave_old_state s p p.state
    p' ← SenderPool.sync_state p
    enter_new_state (save_pool s' p') p' p'.state

-- `_schedule_sender_pool`
unfoldable pub schedule_sender_pool : Schedule → SenderPool → ℕ → Result Schedule
schedule_sender_pool s p cnt = do r ← set_sender_tx_cnt s p cnt; sync_sender_state r.0 r.1
