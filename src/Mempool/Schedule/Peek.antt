-- ===== src/Mempool/Schedule/Peek.antt =====
-- `peek_top_tx` of `MPTxSchedule` of proxy/mempool/mempool_schedule.py.
use proxy_model_py.Base.{
  ◌≡◌, subst, List, [], ◌∷◌, arith, some, ok, ℤ, pos, ◌≤ℤ◌, All, last?, String, string_eq, length,
  nat_eq, ◌==◌, false,
}
use proxy_model_py.Dict
use proxy_model_py.Dict.{Dict}
use proxy_model_py.SortedQueue.Order.{IsSorted}
use proxy_model_py.Mempool.TxRequest.{TxRequest}
use proxy_model_py.Mempool.SenderPool.{SenderPool}
use proxy_model_py.Mempool.SenderPool.States.{item_at-last, top_tx-cases}
use proxy_model_py.Mempool.Schedule.State.{Schedule, price_key, find_sender_pool}
use proxy_model_py.Mempool.Schedule.Calls.{peek_top_tx}

module _ {A : Type 0} (lt_key : A → ℤ) where
  -- The last item of a sorted queue has the highest key.
  last-IsHighest :
      (q : List A) (t : A)
      → IsSorted lt_key q
      → last? q ≡ some t
      → All (λ b. lt_key b ≤ℤ lt_key t) q
  last-IsHighest [] t s e = tt
  last-IsHighest (a ∷ []) t s e = (let h : a ≡ t = ground arith in rw h (omega arith), tt)
  last-IsHighest (a ∷ b ∷ q) t s e =
      let ih = last-IsHighest (b ∷ q) t s.1 e in (omega (arith, s.0.0, ih.0), ih)

pub nonempty : (q : List String) (a : String) → last? q ≡ some a → (length q == 0) ≡ false
nonempty [] a e = cc
nonempty (b ∷ q) a e = ground arith

pub price_key_at :
    (pools : Dict String SenderPool) (a : String) (p : SenderPool)
    → Dict.get pools a ≡ some p
    → price_key pools a ≡ pos p.gas_price
unfolding price_key
price_key_at pools a p at = ground arith

-- In a schedule whose queue of pools is in the order of their gas prices, `peek_top_tx` gives the top
-- request of the pool at the end of the queue, and no pool of the queue has a higher gas price.
pub peek_top_tx-IsHighest :
    (s : Schedule) (a : String) (p : SenderPool) (t : TxRequest)
    → IsSorted (price_key s.sender_pool_dict) s.sender_pool_queue
    → last? s.sender_pool_queue ≡ some a
    → Dict.get s.sender_pool_dict a ≡ some p
    → last? p.tx_nonce_queue ≡ some t
    → (peek_top_tx s ≡ ok (some t))
      × All (λ b. price_key s.sender_pool_dict b ≤ℤ pos p.gas_price) s.sender_pool_queue
unfolding peek_top_tx find_sender_pool
peek_top_tx-IsHighest s a p t sorted last at top = (
  rw (nonempty s.sender_pool_queue a last, item_at-last s.sender_pool_queue, last, at)
      (ground (arith, top_tx-cases p)),
  subst (λ (k : ℤ). All (λ b. price_key s.sender_pool_dict b ≤ℤ k) s.sender_pool_queue)
      (price_key_at s.sender_pool_dict a p at)
      (last-IsHighest (price_key s.sender_pool_dict) s.sender_pool_queue a sorted last),
)
