-- ===== src/Mempool/Schedule/Done.antt =====
-- `done_tx` of `MPTxSchedule` of proxy/mempool/mempool_schedule.py, and the count that it is given.
use proxy_model_py.Base.{
  ℕ, suc, ◌≡◌, refl, ap, ◌∙◌, fun_ext, List, [], ◌∷◌, arith, some, Result, ok, err, ◌>>=◌,
  string_eq,
}
use proxy_model_py.Dict
use proxy_model_py.SortedQueue.{find, find_loop, bisect_left}
use proxy_model_py.Mempool.TxRequest.{TxRequest}
use proxy_model_py.Mempool.RequestDict
use proxy_model_py.Mempool.RequestDict.{gas_key, sig_key}
use proxy_model_py.Mempool.SenderPool.{SenderPool, State}
use proxy_model_py.Mempool.SenderPool
use proxy_model_py.Mempool.Schedule.State.{Schedule, get_sender_pool, save_pool}
use proxy_model_py.Mempool.Schedule.Sync.{schedule_sender_pool, set_sender_tx_cnt}
use proxy_model_py.Mempool.Schedule.Calls.{done_tx}

-- The same request with another count of the sender's transactions.
abbrev pub with_cnt : TxRequest → ℕ → TxRequest
with_cnt tx n = record tx { state_tx_cnt = n }

find_loop-with_cnt :
    (i : ℕ) (q : List TxRequest) (tx : TxRequest) (n : ℕ)
    → find_loop gas_key sig_key i q (with_cnt tx n) ≡ find_loop gas_key sig_key i q tx
unfolding find_loop
find_loop-with_cnt i [] tx n = refl
find_loop-with_cnt i (a ∷ q) tx n = ground (arith, find_loop-with_cnt (suc i) q tx n)

find-with_cnt :
    (q : List TxRequest) (tx : TxRequest) (n : ℕ)
    → find gas_key sig_key q (with_cnt tx n) ≡ find gas_key sig_key q tx
unfolding find bisect_left
find-with_cnt q tx n = find_loop-with_cnt _ _ tx n

pop-with_cnt :
    (d : RequestDict.RequestDict) (tx : TxRequest) (n : ℕ)
    → RequestDict.pop d (with_cnt tx n) ≡ RequestDict.pop d tx
unfolding RequestDict.pop
pop-with_cnt d tx n = rw (find-with_cnt d.tx_gas_price_queue tx n) refl

pool_done-with_cnt :
    (p : SenderPool) (tx : TxRequest) (n : ℕ)
    → SenderPool.done_tx p (with_cnt tx n) ≡ SenderPool.done_tx p tx
unfolding SenderPool.done_tx SenderPool.validate_processing_tx
pool_done-with_cnt p tx n = refl

-- A pool that the schedule has seen in processing keeps its count, whatever count is given.
set_sender_tx_cnt_processing :
    (s : Schedule) (p : SenderPool) (n : ℕ)
    → p.state ≡ State.processing
    → set_sender_tx_cnt s p n ≡ (do c ← SenderPool.sender_tx_cnt p; ok (s, p))
unfolding set_sender_tx_cnt
set_sender_tx_cnt_processing s p n busy = ground arith

schedule_processing :
    (s : Schedule) (p : SenderPool) (m n : ℕ)
    → p.state ≡ State.processing
    → schedule_sender_pool s p m ≡ schedule_sender_pool s p n
unfolding schedule_sender_pool
schedule_processing s p m n busy =
    rw (set_sender_tx_cnt_processing s p m busy, set_sender_tx_cnt_processing s p n busy) refl

pool_done-state :
    (p p' : SenderPool) (tx : TxRequest) → SenderPool.done_tx p tx ≡ ok p' → p'.state ≡ p.state
unfolding SenderPool.done_tx
pool_done-state p p' tx h = ground arith

done_tx-rest :
    (s : Schedule) (p : SenderPool) (tx : TxRequest) (n : ℕ) (o : Result SenderPool)
    → Dict.get s.sender_pool_dict tx.sender_address ≡ some p
    → p.state ≡ State.processing
    → SenderPool.done_tx p tx ≡ o
    → done_tx s (with_cnt tx n) ≡ done_tx s tx
unfolding done_tx get_sender_pool
done_tx-rest s p tx n (err e) at busy h = rw (at, pool_done-with_cnt p tx n, h) refl
done_tx-rest s p tx n (ok p') at busy h =
    rw (at, pool_done-with_cnt p tx n, h, pop-with_cnt s.tx_dict tx n)
      (ap (λ k. RequestDict.pop s.tx_dict tx >>= k)
        (fun_ext λ d.
          schedule_processing (save_pool (record s { tx_dict = d }) p') p' n tx.state_tx_cnt
            (pool_done-state p p' tx h ∙ busy)))

-- For a pool that the schedule has seen in processing, the result of `done_tx` does not depend on
-- the count of the sender's transactions that comes with the request.
pub done_tx-with_cnt :
    (s : Schedule) (p : SenderPool) (tx : TxRequest) (n : ℕ)
    → Dict.get s.sender_pool_dict tx.sender_address ≡ some p
    → p.state ≡ State.processing
    → done_tx s (with_cnt tx n) ≡ done_tx s tx
done_tx-with_cnt s p tx n at busy = done_tx-rest s p tx n _ at busy refl
