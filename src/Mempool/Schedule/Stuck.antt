-- ===== src/Mempool/Schedule/Stuck.antt =====
-- `drop_stuck_tx` of `MPTxSchedule` of proxy/mempool/mempool_schedule.py.
use proxy_model_py.Base.{
  ◌≡◌, refl, true, false, [], ◌∷◌, arith, some, none, ok, err, String, string_eq, nat_eq, last?,
  index_error,
}
use proxy_model_py.Dict
use proxy_model_py.Mempool.TxRequest.{TxRequest}
use proxy_model_py.Mempool.RequestDict.{get_tx_by_hash}
use proxy_model_py.Mempool.RequestDict.Consistency.{IsConsistent}
use proxy_model_py.Mempool.SenderPool.{SenderPool, State, top_tx, state_beq}
use proxy_model_py.Mempool.SenderPool.States.{item_at-last}
use proxy_model_py.Mempool.SenderPool.Processing.{init}
use proxy_model_py.Mempool.Schedule.State.{
  Schedule, save_pool, get_sender_pool, find_sender_pool, drop_tx_from_sender_pool,
}
use proxy_model_py.Mempool.Schedule.Sync.{set_sender_tx_cnt}
use proxy_model_py.Mempool.Schedule.Calls.{drop_stuck_tx, peek_top_tx}
use proxy_model_py.Mempool.Schedule.Counts.{IsKept}
use proxy_model_py.Mempool.Schedule.DropLast.{drop_last}
use proxy_model_py.Mempool.Schedule.DropBelow.{sender_tx_cnt_idle}
use proxy_model_py.Mempool.Schedule.Peek.{nonempty}

-- What is written to a pool that stands in the dict is read from it.
pub get-save_pool :
    (s : Schedule) (p q : SenderPool)
    → Dict.get s.sender_pool_dict p.sender_address ≡ some q
    → Dict.get (save_pool s p).sender_pool_dict p.sender_address ≡ some p
unfolding save_pool Dict.contains
get-save_pool s p q at = rw at (Dict.get-put_self s.sender_pool_dict p.sender_address p)

peek_empty_pool :
    (s : Schedule) (a : String) (p : SenderPool)
    → last? s.sender_pool_queue ≡ some a
    → Dict.get s.sender_pool_dict a ≡ some p
    → p.tx_nonce_queue ≡ []
    → peek_top_tx s ≡ err index_error
unfolding peek_top_tx find_sender_pool top_tx
peek_empty_pool s a p last at e =
    rw
      (
        nonempty s.sender_pool_queue a last,
        item_at-last s.sender_pool_queue,
        last,
        at,
        item_at-last p.tx_nonce_queue,
        e,
      )
      refl

set_sender_tx_cnt_same :
    (s : Schedule) (p : SenderPool)
    → p.processing_tx ≡ none
    → set_sender_tx_cnt s p p.state_tx_cnt ≡ ok (s, p)
unfolding set_sender_tx_cnt
set_sender_tx_cnt_same s p idle = rw (sender_tx_cnt_idle p idle) (ground arith)

drop_stuck_step :
    (s s' : Schedule) (p p' : SenderPool) (tx : TxRequest)
    → Dict.get s.tx_dict.tx_hash_dict tx.sig ≡ some tx
    → Dict.get s.sender_pool_dict tx.sender_address ≡ some p
    → state_beq p.state State.processing ≡ false
    → set_sender_tx_cnt s p tx.nonce ≡ ok (s, p)
    → drop_tx_from_sender_pool s p tx ≡ ok (s', p')
    → drop_stuck_tx s tx.sig ≡ ok (true, s')
unfolding drop_stuck_tx get_tx_by_hash get_sender_pool
drop_stuck_step s s' p p' tx hash at b e d = rw (hash, at, b, e, d, drop_stuck_tx) refl

-- A pool with one request, in the queue's last place, has that request dropped as stuck. The call
-- returns true, and the empty pool stays in the queue: the next `peek_top_tx` raises an IndexError.
pub drop_stuck_tx_strands_pool :
    (s : Schedule) (p : SenderPool) (tx : TxRequest)
    → IsConsistent s.tx_dict
    → Dict.get s.tx_dict.tx_hash_dict tx.sig ≡ some tx
    → Dict.get s.sender_pool_dict p.sender_address ≡ some p
    → p.sender_address ≡ tx.sender_address
    → p.state ≡ State.queued
    → p.processing_tx ≡ none
    → p.tx_nonce_queue ≡ tx ∷ []
    → p.state_tx_cnt ≡ tx.nonce
    → last? s.sender_pool_queue ≡ some p.sender_address
    → (s' : Schedule) × (drop_stuck_tx s tx.sig ≡ ok (true, s'))
      × (peek_top_tx s' ≡ err index_error)
drop_stuck_tx_strands_pool s p tx c hash at addr st idle queue cnt last =
    let kept : IsKept s.tx_dict p.tx_nonce_queue = rw queue (record {
      sorted = (tt, tt);
      distinct = (tt, tt);
      held = (record { found = hash; sender = refl; nonce = refl; price = refl }, tt);
    }) in
    let (s', d, c', k', same, look, e) = drop_last s p tx c kept idle (rw queue refl) in
    (
      s',
      drop_stuck_step s s' p _ tx hash (rw (← addr) at) (rw st refl)
          (rw (← cnt) (set_sender_tx_cnt_same s p idle)) d,
      peek_empty_pool s' p.sender_address (record p { tx_nonce_queue = init p.tx_nonce_queue })
          (rw (same.queue) last) (rw e (get-save_pool (record s { tx_dict = s'.tx_dict }) _ p at))
          (rw queue refl),
    )
