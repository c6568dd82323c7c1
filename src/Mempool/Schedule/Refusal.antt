-- ===== src/Mempool/Schedule/Refusal.antt =====
-- `add_tx` of `MPTxSchedule` of proxy/mempool/mempool_schedule.py, where it refuses the request.
use proxy_model_py.Base.{
  ℕ, ◌≡◌, ◌≢◌, refl, subst, Bool, true, false, arith, some, none, Option, Result, ok, err, ◌>>=◌,
  ltb, max, inl, inr, ◌⊎◌, if◌then◌else◌,
}
use proxy_model_py.Mempool.TxRequest.{TxRequest, SendResult, success}
use proxy_model_py.Mempool.RequestDict
use proxy_model_py.Mempool.SenderPool.{SenderPool}
use proxy_model_py.Mempool.SenderPool
use proxy_model_py.Mempool.Schedule.State.{Schedule}
use proxy_model_py.Mempool.Schedule.Calls.{
  add_tx, add_to_pool, enqueue_tx, outbids, is_underpriced, processing_nonce,
}

enqueue_tx-code :
    (s : Schedule) (p : SenderPool) (tx : TxRequest) (old : Option TxRequest) (cnt : ℕ)
    (r : SendResult) (s' : Schedule)
    → enqueue_tx s p tx old cnt ≡ ok (r, s')
    → r.code ≡ success
unfolding enqueue_tx
enqueue_tx-code s p tx old cnt r s' h = ground arith

-- A call that returns has accepted the request or left the schedule as it was.
abbrev Refuses : Schedule → Result (SendResult × Schedule) → Type 0
Refuses s (ok (r, s')) = (r.code ≡ success) ⊎ (s' ≡ s)
Refuses s (err e) = Unit

enqueue_tx-Refuses :
    (s : Schedule) (p : SenderPool) (tx : TxRequest) (old : Option TxRequest) (cnt : ℕ)
    (o : Result (SendResult × Schedule))
    → enqueue_tx s p tx old cnt ≡ o
    → Refuses s o
enqueue_tx-Refuses s p tx old cnt (ok (r, s')) e = inl (enqueue_tx-code s p tx old cnt r s' e)
enqueue_tx-Refuses s p tx old cnt (err x) e = tt

Refuses-if :
    (s : Schedule) (b : Bool) (m n : Result (SendResult × Schedule))
    → Refuses s m
    → Refuses s n
    → Refuses s (if b then m else n)
Refuses-if s true m n hm hn = hm
Refuses-if s false m n hm hn = hn

Refuses-bind :
    {A : Type 0} (s : Schedule) (m : Result A) (f : A → Result (SendResult × Schedule))
    → ((a : A) → Refuses s (f a))
    → Refuses s (m >>= f)
Refuses-bind s (ok a) f h = h a
Refuses-bind s (err e) f h = tt

add_to_pool-Refuses :
    (s : Schedule) (p : SenderPool) (tx : TxRequest) (old : Option TxRequest)
    → Refuses s (add_to_pool s p tx old)
unfolding add_to_pool
add_to_pool-Refuses s p tx old = Refuses-bind s (processing_nonce p tx) _ (elim [
  | some nonce ↦ inr refl
  | none ↦ Refuses-bind s (SenderPool.sender_tx_cnt p) _ λ c.
      Refuses-if s (ltb tx.nonce (max tx.state_tx_cnt c)) _ _ (inr refl)
        (enqueue_tx-Refuses s p tx old (max tx.state_tx_cnt c) _ refl)
])

add_tx-Refuses : (s : Schedule) (tx : TxRequest) → Refuses s (add_tx s tx)
unfolding add_tx
add_tx-Refuses s tx =
    elim (RequestDict.get_tx_by_hash s.tx_dict tx.sig)
        as (λ o. RequestDict.get_tx_by_hash s.tx_dict tx.sig ≡ o → Refuses s (add_tx s tx)) [
          | some known ↦ λ e. rw (e, add_tx) (inr refl)
          | none ↦ λ e.
              rw (e, add_tx)
                (Refuses-if s (outbids (RequestDict.get_tx_by_sender_nonce s.tx_dict tx) tx) _ _
                  (inr refl)
                  (Refuses-bind s (is_underpriced s tx) _
                    λ low. Refuses-if s low _ _ (inr refl) (add_to_pool-Refuses s _ tx _)))
        ]
      refl

-- A request that `add_tx` does not accept leaves the schedule as it was.
pub add_tx_refused :
    (s : Schedule) (tx : TxRequest) (r : SendResult) (s' : Schedule)
    → add_tx s tx ≡ ok (r, s')
    → r.code ≢ success
    → s' ≡ s
add_tx_refused s tx r s' h n = elim (subst (Refuses s) h (add_tx-Refuses s tx)) [
  | inl e ↦ absurd (n e)
  | inr e ↦ e
]
