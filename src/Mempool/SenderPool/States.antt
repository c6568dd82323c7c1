-- ===== src/Mempool/SenderPool/States.antt =====
-- The states of `MPSenderTxPool` of proxy/mempool/mempool_schedule.py.
use proxy_model_py.Base.{
  ℕ, ◌<◌, ◌≡◌, refl, true, false, List, [], ◌∷◌, arith, negsuc, some, none, Option, ◌==◌, nat_eq,
  string_eq, ok, if◌then◌else◌, length, get_elem?, last?, inl, inr, ◌⊎◌, or_raise, index_error,
}
use proxy_model_py.SortedQueue.{item_at}
use proxy_model_py.Mempool.TxRequest.{TxRequest}
use proxy_model_py.Mempool.SenderPool.{
  SenderPool, State, empty, queued, processing, suspended, actual_state, sync_state,
  has_valid_state, top_tx, is_empty, is_processing,
}

module _ {A : Type 0} where
  get_elem?-last : (a : A) (q : List A) → get_elem? (a ∷ q) (length q) ≡ last? (a ∷ q)
  get_elem?-last a [] = refl
  get_elem?-last a (b ∷ q) = get_elem?-last b q

  last?-some : (a : A) (q : List A) → (t : A) × (last? (a ∷ q) ≡ some t)
  last?-some a [] = (a, refl)
  last?-some a (b ∷ q) = last?-some b q

  -- `queue[-1]` is the last item, and raises for an empty queue alone.
  pub item_at-last : (q : List A) → item_at q (negsuc 0) ≡ or_raise index_error (last? q)
  unfolding item_at
  item_at-last [] = refl
  item_at-last (a ∷ q) = ground (arith, get_elem?-last a q)

item_at-cases :
    {A : Type 0} (q : List A)
    → ((length q ≡ 0) × (last? q ≡ none))
      ⊎ ((a : A) × (0 < length q) × (last? q ≡ some a) × (item_at q (negsuc 0) ≡ ok a))
item_at-cases [] = inl (refl, refl)
item_at-cases (a ∷ q) =
    let (t, e) = last?-some a q in inr (t, omega arith, e, rw (item_at-last (a ∷ q), e) refl)

-- A pool is empty, or it has a top request, the last of its queue.
pub top_tx-cases :
    (p : SenderPool)
    → ((is_empty p ≡ true) × (last? p.tx_nonce_queue ≡ none))
      ⊎ ((t : TxRequest) × (is_empty p ≡ false)
          × (last? p.tx_nonce_queue ≡ some t)
          × (top_tx p ≡ ok t))
unfolding is_empty top_tx
top_tx-cases p = elim (item_at-cases p.tx_nonce_queue) [
  | inl (e, l) ↦ inl (ground arith, l)
  | inr (t, nonempty, l, at) ↦ inr (t, ground arith, l, at)
]

-- The state that the source computes, from the last request of the queue.
abbrev pub state_of : SenderPool → Option TxRequest → State
state_of p none = empty
state_of p (some t) =
    if is_processing p then processing else if p.state_tx_cnt == t.nonce then queued else suspended

abbrev pub price_of : Option TxRequest → ℕ
price_of none = 0
price_of (some t) = t.gas_price

-- `_actual_state` never raises: it is empty without requests, processing while one is processed,
-- queued if the top request has the sender's next nonce, and suspended otherwise.
pub actual_state_lem : (p : SenderPool) → actual_state p ≡ ok (state_of p (last? p.tx_nonce_queue))
unfolding actual_state
actual_state_lem p = ground (arith, top_tx-cases p)

-- The pool with its two cached fields brought up to date.
unfoldable pub synced : SenderPool → SenderPool
synced p = record p {
  state = state_of p (last? p.tx_nonce_queue);
  gas_price = price_of (last? p.tx_nonce_queue);
}

-- `sync_state` never raises; it brings the two cached fields up to date and touches nothing else.
pub sync_state_lem : (p : SenderPool) → sync_state p ≡ ok (synced p)
unfolding sync_state synced is_processing
sync_state_lem p = ground (arith, actual_state_lem p, top_tx-cases p)

actual_state-synced : (p : SenderPool) → actual_state (synced p) ≡ ok (synced p).state
unfolding synced is_processing
actual_state-synced p = actual_state_lem (synced p)

top_tx-synced : (p : SenderPool) → top_tx (synced p) ≡ top_tx p
unfolding synced top_tx
top_tx-synced p = refl

-- A pool that `sync_state` has left is valid for `has_valid_state`, which never raises.
pub has_valid_state-synced : (p : SenderPool) → has_valid_state (synced p) ≡ ok true
unfolding has_valid_state
has_valid_state-synced p =
    rw actual_state-synced
      (unfold synced is_processing in ground (arith, top_tx-cases p, top_tx-synced p))

-- `sync_state` never raises. It leaves the queue alone and sets the cached state to what the queue
-- shows: empty without requests, processing while one is processed, queued if the last request of
-- the queue has the nonce `state_tx_cnt`, suspended otherwise; and the cached price to the last
-- request's. For `has_valid_state` the pool is then valid.
pub sync_state_valid :
    (p : SenderPool)
    → (sync_state p ≡ ok (synced p))
      × (actual_state (synced p) ≡ ok (state_of p (last? p.tx_nonce_queue)))
      × (has_valid_state (synced p) ≡ ok true)
sync_state_valid p =
    (sync_state_lem p, unfold synced in actual_state-synced p, has_valid_state-synced p)
