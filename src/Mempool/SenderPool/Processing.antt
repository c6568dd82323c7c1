-- ===== src/Mempool/SenderPool/Processing.antt =====
-- The request that `MPSenderTxPool` of proxy/mempool/mempool_schedule.py processes: from `acquire_tx`
-- to `done_tx` or `cancel_process_tx`, and what `take_out_tx_list` does in between.
use proxy_model_py.Base.{
  ◌-◌, ◌≡◌, ◌≢◌, refl, ap, false, List, [], ◌∷◌, ◌++◌, arith, negsuc, some, none, nat_eq, string_eq,
  ==_refl, ok, err, length, get_elem?, last?, assertion_error,
}
use proxy_model_py.SortedQueue.{pop_index, remove_at, extract_list_from}
use proxy_model_py.Mempool.TxRequest.{TxRequest}
use proxy_model_py.Mempool.SenderPool.{
  SenderPool, processing, top_tx, is_empty, is_processing, acquire_tx, done_tx, drop_tx,
  cancel_process_tx, take_out_tx_list, validate_processing_tx, refresh,
}
use proxy_model_py.Mempool.SenderPool.States.{top_tx-cases, sync_state_lem, synced}

module _ {A : Type 0} where
  -- All but the last item.
  abbrev pub init : List A → List A
  init [] = []
  init (a ∷ []) = []
  init (a ∷ b ∷ q) = a ∷ init (b ∷ q)

  init-last : (q : List A) (t : A) → last? q ≡ some t → init q ++ t ∷ [] ≡ q
  init-last [] t e = cc
  init-last (a ∷ []) t e = ground arith
  init-last (a ∷ b ∷ q) t e = ap (◌∷◌ a) (init-last (b ∷ q) t e)

  pub get_elem?-last : (a : A) (q : List A) → get_elem? (a ∷ q) (length q) ≡ last? (a ∷ q)
  get_elem?-last a [] = refl
  get_elem?-last a (b ∷ q) = get_elem?-last b q

  pub remove_at-last : (a : A) (q : List A) → remove_at (length q) (a ∷ q) ≡ init (a ∷ q)
  unfolding remove_at
  remove_at-last a [] = refl
  remove_at-last a (b ∷ q) = ap (◌∷◌ a) (remove_at-last b q)

  -- `queue.pop(-1)` takes the last item.
  pub pop_index-last :
      (q : List A) (t : A) → last? q ≡ some t → pop_index q (negsuc 0) ≡ ok (t, init q)
  unfolding pop_index
  pop_index-last [] t e = cc
  pop_index-last (a ∷ q) t e =
      let i : length (a ∷ q) - 1 ≡ length q = omega arith in
      ground (arith, i, get_elem?-last a q, remove_at-last a q)

-- The pool with its top request in processing.
abbrev pub taken : SenderPool → TxRequest → SenderPool
taken p t = record p { state = processing; gas_price = t.gas_price; processing_tx = some t }

module _ (p : SenderPool) (t : TxRequest) (top : last? p.tx_nonce_queue ≡ some t) where
  top_tx_at : (is_empty p ≡ false) × (top_tx p ≡ ok t)
  top_tx_at = ground (arith, top_tx-cases p)

  acquire_taken : p.processing_tx ≡ none → acquire_tx p t ≡ ok (taken p t)
  unfolding acquire_tx synced is_processing
  acquire_taken idle =
      ground (arith, top_tx_at, ==_refl t.sig, sync_state_lem (record p { processing_tx = some t }))

  top_tx-taken : (is_empty (taken p t) ≡ false) × (top_tx (taken p t) ≡ ok t)
  unfolding is_empty top_tx
  top_tx-taken = top_tx_at

  validate_taken : validate_processing_tx (taken p t) t ≡ ok tt
  unfolding validate_processing_tx
  validate_taken = ground (arith, top_tx-taken, ==_refl t.sig)

  -- From an idle pool the top request `t` is acquired: the pool then processes it and its queue is
  -- unchanged. `t` cannot be dropped; `done_tx` takes it, the last of the queue, out and leaves the
  -- rest; `cancel_process_tx` leaves the queue but for the execution data of `t`. After either the
  -- pool processes nothing.
  pub acquire_tx_lifecycle :
      p.processing_tx ≡ none
      → (q : SenderPool) × (acquire_tx p t ≡ ok q)
        × (q.state ≡ processing)
        × (q.processing_tx ≡ some t)
        × (q.tx_nonce_queue ≡ p.tx_nonce_queue)
        × (drop_tx q t ≡ err assertion_error)
        × ((r : SenderPool) × (done_tx q t ≡ ok r)
            × (r.processing_tx ≡ none)
            × (r.tx_nonce_queue ++ t ∷ [] ≡ p.tx_nonce_queue))
        × ((r : SenderPool) × (cancel_process_tx q t ≡ ok r)
            × (r.processing_tx ≡ none)
            × (r.tx_nonce_queue ≡ refresh t p.tx_nonce_queue))
  acquire_tx_lifecycle idle = (
    taken p t,
    acquire_taken idle,
    refl,
    refl,
    refl,
    unfold drop_tx in ground (arith, ==_refl t.sig),
    (
      record (taken p t) { processing_tx = none; tx_nonce_queue = init p.tx_nonce_queue },
      unfold done_tx in ground (arith, validate_taken, pop_index-last p.tx_nonce_queue t top),
      refl,
      init-last p.tx_nonce_queue t top,
    ),
    (
      record (taken p t) { processing_tx = none; tx_nonce_queue = refresh t p.tx_nonce_queue },
      unfold cancel_process_tx in ground (arith, validate_taken),
      refl,
      refl,
    ),
  )

-- Without a request in processing all is taken out.
pub take_out_idle :
    (p : SenderPool)
    → p.processing_tx ≡ none
    → take_out_tx_list p ≡ (p.tx_nonce_queue, record p { tx_nonce_queue = [] })
unfolding take_out_tx_list is_processing extract_list_from
take_out_idle p idle = rw idle refl

-- The check of the request in processing fails where the queue's last request is another.
done_tx_other_top :
    (p : SenderPool) (t top : TxRequest)
    → p.processing_tx ≡ some t
    → last? p.tx_nonce_queue ≡ some top
    → top.sig ≢ t.sig
    → done_tx p t ≡ err assertion_error
unfolding done_tx validate_processing_tx
done_tx_other_top p t top busy last other =
    ground (arith, top_tx_at p top last, ==_refl t.sig, string_eq.same_iff top.sig t.sig)

-- The last request `t` of the queue is processed, and another request stands at the front, the one
-- with the highest nonce. `take_out_tx_list` then keeps that one alone and takes all others out, `t`
-- as the last of them; and `done_tx` of `t` raises.
pub take_out_processing :
    (p : SenderPool) (t newest : TxRequest) (rest : List TxRequest)
    → p.processing_tx ≡ some t
    → p.tx_nonce_queue ≡ newest ∷ rest
    → last? rest ≡ some t
    → newest.sig ≢ t.sig
    → ((take_out_tx_list p).0 ≡ rest)
      × (last? (take_out_tx_list p).0 ≡ some t)
      × ((take_out_tx_list p).1.tx_nonce_queue ≡ newest ∷ [])
      × (done_tx (take_out_tx_list p).1 t ≡ err assertion_error)
unfolding take_out_tx_list is_processing extract_list_from
take_out_processing p t newest rest busy queue last other = (
  rw (busy, queue) refl,
  rw (busy, queue) last,
  rw (busy, queue) refl,
  done_tx_other_top _ t newest busy (rw (busy, queue) refl) other,
)
