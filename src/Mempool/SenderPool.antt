-- ===== src/Mempool/SenderPool.antt =====
-- `MPSenderTxPool` of proxy/mempool/mempool_schedule.py: the requests of one sender, the highest nonce
-- first. The fields `_state` and `_gas_price` hold what the schedule has last seen.
pub mod States
pub mod Nonces
pub mod Processing
use proxy_model_py.Base.{
  ℕ, ◌+◌, Bool, true, false, Option, none, some, List, [], ◌∷◌, ℤ, pos, negsuc, neg, String,
  string_eq, nat_eq, Result, ok, ◌>>=◌, ◌>>◌, assert, not, leb, ◌||◌, ◌==◌, length, is_some,
  or_raise, attribute_error, if◌then◌else◌,
}
use mathlib.Core.List.{reverse}
use proxy_model_py.SortedQueue
use proxy_model_py.Mempool.TxRequest.{TxRequest}
use proxy_model_py.Mempool.RequestDict.{sig_key}

-- `MPSenderTxPool.State`
pub data State : Type 0 where
  empty queued processing suspended : State

abbrev pub state_beq : State → State → Bool
state_beq empty empty = true
state_beq queued queued = true
state_beq processing processing = true
state_beq suspended suspended = true
state_beq _ _ = false

pub record SenderPool : Type 0 where
  pub state : State
  pub sender_address : String
  pub gas_price : ℕ
  pub state_tx_cnt : ℕ
  pub processing_tx : Option TxRequest
  pub tx_nonce_queue : List TxRequest

-- `__init__`
unfoldable pub new : String → SenderPool
new sender_address = record {
  state = empty;
  sender_address = sender_address;
  gas_price = 0;
  state_tx_cnt = 0;
  processing_tx = none;
  tx_nonce_queue = [];
}

-- `lt_key_func` of the nonce queue.
abbrev pub nonce_key : TxRequest → ℤ
nonce_key tx = neg tx.nonce

unfoldable pub len_tx_nonce_queue : SenderPool → ℕ
len_tx_nonce_queue p = length p.tx_nonce_queue

unfoldable pub is_empty : SenderPool → Bool
unfolding len_tx_nonce_queue
is_empty p = len_tx_nonce_queue p == 0

unfoldable pub is_processing : SenderPool → Bool
is_processing p = is_some p.processing_tx

-- The request with the lowest nonce.
unfoldable pub top_tx : SenderPool → Result TxRequest
top_tx p = SortedQueue.item_at p.tx_nonce_queue (negsuc 0)

-- `_actual_state`
unfoldable pub actual_state : SenderPool → Result State
unfolding is_empty is_processing
actual_state p =
    if is_empty p
    then ok empty
    else if is_processing p
    then ok processing
    else do t ← top_tx p; ok (if p.state_tx_cnt == t.nonce then queued else suspended)

unfoldable pub sync_state : SenderPool → Result SenderPool
sync_state p = do
  s ← actual_state p
  if state_beq s empty
      then ok (record p { state = s; gas_price = 0 })
      else do t ← top_tx p; ok (record p { state = s; gas_price = t.gas_price })

unfoldable pub has_valid_state : SenderPool → Result Bool
has_valid_state p = do
  s ← actual_state p
  if not (state_beq s p.state)
      then ok false
      else if state_beq s queued
      then (do t ← top_tx p; ok (t.gas_price == p.gas_price))
      else ok true

unfoldable pub add_tx : SenderPool → TxRequest → Result SenderPool
add_tx p tx = do
  assert (leb p.state_tx_cnt tx.nonce)
  queue ← SortedQueue.add nonce_key sig_key p.tx_nonce_queue tx
  ok (record p { tx_nonce_queue = queue })

unfoldable pub acquire_tx : SenderPool → TxRequest → Result SenderPool
unfolding is_processing
acquire_tx p tx = do
  assert (not (is_processing p))
  t ← top_tx p
  assert (tx.sig == t.sig)
  sync_state (record p { processing_tx = some t })

-- The loop of `pending_nonce`, over the queue from its lowest nonce on.
unfoldable pub pending_loop : ℕ → List TxRequest → ℕ
pending_loop pending [] = pending
pending_loop pending (tx ∷ rest) =
    let next = pending_loop (pending + 1) rest in if tx.nonce == pending then next else pending

unfoldable pub pending_nonce : SenderPool → Option ℕ
unfolding pending_loop
pending_nonce p =
    if state_beq p.state suspended || state_beq p.state empty
    then none
    else some (pending_loop p.state_tx_cnt (reverse p.tx_nonce_queue))

unfoldable pub last_nonce : SenderPool → Result (Option ℕ)
unfolding is_empty
last_nonce p =
    if is_empty p
    then ok none
    else do tx ← SortedQueue.item_at p.tx_nonce_queue (pos 0); ok (some tx.nonce)

-- The property `state_tx_cnt`, which counts the request that is processed.
unfoldable pub sender_tx_cnt : SenderPool → Result ℕ
sender_tx_cnt p = elim p.processing_tx [
  | none ↦ ok p.state_tx_cnt
  | some tx ↦ do assert (p.state_tx_cnt == tx.nonce); ok (tx.nonce + 1)
]

unfoldable pub set_state_tx_cnt : SenderPool → ℕ → SenderPool
set_state_tx_cnt p value = record p { state_tx_cnt = value }

-- `_validate_processing_tx`. In `t_tx is p_tx` both are objects of this pool's queue, which holds one
-- object for a signature.
unfoldable pub validate_processing_tx : SenderPool → TxRequest → Result (Unit {0})
unfolding is_empty is_processing
validate_processing_tx p tx = do
  assert (not (is_empty p))
  assert (is_processing p)
  t ← top_tx p
  q ← or_raise attribute_error p.processing_tx
  assert (tx.sig == q.sig)
  assert (t.sig == q.sig)

unfoldable pub done_tx : SenderPool → TxRequest → Result SenderPool
done_tx p tx = do
  validate_processing_tx p tx
  popped ← SortedQueue.pop_index p.tx_nonce_queue (negsuc 0)
  ok (record p { tx_nonce_queue = popped.1; processing_tx = none })

-- not self._is_processing() or tx.sig != self._processing_tx.sig
abbrev pub is_other : Option TxRequest → TxRequest → Bool
is_other none tx = true
is_other (some q) tx = not (tx.sig == q.sig)

unfoldable pub drop_tx : SenderPool → TxRequest → Result SenderPool
drop_tx p tx = do
  assert (is_other p.processing_tx tx)
  popped ← SortedQueue.pop_item nonce_key sig_key p.tx_nonce_queue tx
  ok (record p { tx_nonce_queue = popped.1 })

-- The execution data of the request with that signature is replaced in the object, so wherever the
-- object stands.
unfoldable pub refresh : TxRequest → List TxRequest → List TxRequest
refresh tx [] = []
refresh tx (a ∷ q) =
    (if a.sig == tx.sig
      then record a { state_tx_cnt = tx.state_tx_cnt; exec_cfg = tx.exec_cfg }
      else a)
    ∷ refresh tx q

unfoldable pub cancel_process_tx : SenderPool → TxRequest → Result SenderPool
cancel_process_tx p tx = do
  validate_processing_tx p tx
  ok (record p { processing_tx = none; tx_nonce_queue = refresh tx p.tx_nonce_queue })

-- The list that is taken out, and the pool with the rest.
unfoldable pub take_out_tx_list : SenderPool → List TxRequest × SenderPool
unfolding is_processing
take_out_tx_list p =
    let (out, rest) =
      SortedQueue.extract_list_from p.tx_nonce_queue (if is_processing p then 1 else 0) in
    (out, record p { tx_nonce_queue = rest })
