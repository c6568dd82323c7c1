-- ===== src/Mempool/RequestDict/RoundTrip.antt =====
-- `add` and then `pop` of `MPTxRequestDict` of proxy/mempool/mempool_schedule.py.
use proxy_model_py.Base.{◌≡◌, refl, List, [], ◌∷◌, arith, none, string_eq, pair_eq, ok}
use proxy_model_py.Dict
use proxy_model_py.Dict.{get, contains}
use proxy_model_py.SortedQueue.{add as add_queued, find, pop_item, insert_at}
use proxy_model_py.SortedQueue.Calls.{pop_item-add, add_lem}
use proxy_model_py.SortedQueue.Order.{scan_left}
use proxy_model_py.Mempool.TxRequest.{TxRequest}
use proxy_model_py.Mempool.RequestDict.{
  RequestDict, add, pop, pop_queued, gas_key, sig_key, sender_nonce,
}
use proxy_model_py.Mempool.RequestDict.Consistency.{
  IsConsistent, after_add, add_new, holds_unlisted,
}

pop_queued_of_pop_item :
    (q r : List TxRequest) (tx : TxRequest)
    → pop_item gas_key sig_key r tx ≡ ok (tx, q)
    → pop_queued r (find gas_key sig_key r tx) ≡ ok q
unfolding pop_item
pop_queued_of_pop_item q [] tx e = cc
pop_queued_of_pop_item q (a ∷ r) tx e = ground arith

-- A new request that is added to a consistent dict and popped again leaves the dict as it was.
pub pop-add :
    (d d' : RequestDict) (tx : TxRequest)
    → IsConsistent d
    → get d.tx_hash_dict tx.sig ≡ none
    → get d.tx_sender_nonce_dict (sender_nonce tx) ≡ none
    → add d tx ≡ ok d'
    → pop d' tx ≡ ok d
pop-add d d' tx c hs hn e =
    let e' : d' ≡ after_add d tx = ground (arith, add_new d tx c hs hn) in rw e' (pop_after_add)
  where
    queued : List TxRequest
    queued = insert_at (scan_left gas_key d.tx_gas_price_queue (gas_key tx)) tx d.tx_gas_price_queue

    added : add_queued gas_key sig_key d.tx_gas_price_queue tx ≡ ok queued
    added =
        rw
          (
            add_lem gas_key sig_key d.tx_gas_price_queue tx c.sorted,
            holds_unlisted d.tx_hash_dict d.tx_gas_price_queue tx hs c.listed,
          )
          refl

    popped : pop_queued queued (find gas_key sig_key queued tx) ≡ ok d.tx_gas_price_queue
    popped =
        pop_queued_of_pop_item _ queued tx
          (pop_item-add gas_key sig_key d.tx_gas_price_queue queued tx c.sorted added)

    pop_after_add : pop (after_add d tx) tx ≡ ok d
    pop_after_add =
        unfold pop after_add contains in
        rw
          (
            Dict.get-put_self d.tx_hash_dict tx.sig tx,
            Dict.get-put_self d.tx_sender_nonce_dict (sender_nonce tx) tx,
            popped,
            Dict.remove-put d.tx_hash_dict tx.sig tx hs,
            Dict.remove-put d.tx_sender_nonce_dict (sender_nonce tx) tx hn,
          )
          refl
