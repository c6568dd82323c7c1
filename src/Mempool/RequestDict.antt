-- ===== src/Mempool/RequestDict.antt =====
-- `MPTxRequestDict` of proxy/mempool/mempool_schedule.py: the requests of the whole schedule, by
-- signature, by sender and nonce, and in the order of gas prices. The key `f'{sender}:{nonce}'` of the
-- source is the pair of the two: a number's digits hold no colon, so the texts agree when the pairs do.
pub mod Consistency
pub mod Removal
pub mod RoundTrip
use proxy_model_py.Base.{
  ℕ, Option, none, some, List, [], ℤ, pos, negsuc, neg, String, string_eq, pair_eq, Result, ok,
  ◌>>=◌, ◌>>◌, assert, not, leb, ltb, ◌==◌, nat_eq, length, if◌then◌else◌,
}
use proxy_model_py.Dict
use proxy_model_py.Dict.{Dict}
use proxy_model_py.SortedQueue
use proxy_model_py.Mempool.TxRequest.{TxRequest}

pub record RequestDict : Type 0 where
  pub tx_hash_dict : Dict String TxRequest
  pub tx_sender_nonce_dict : Dict (String × ℕ) TxRequest
  pub tx_gas_price_queue : List TxRequest

unfoldable pub empty : RequestDict
empty = record { tx_hash_dict = []; tx_sender_nonce_dict = []; tx_gas_price_queue = [] }

-- `lt_key_func` and `eq_key_func` of the gas price queue.
abbrev pub gas_key : TxRequest → ℤ
gas_key tx = neg tx.gas_price

abbrev pub sig_key : TxRequest → String
sig_key tx = tx.sig

abbrev pub sender_nonce : TxRequest → String × ℕ
sender_nonce tx = (tx.sender_address, tx.nonce)

-- len(self)
unfoldable pub tx_cnt : RequestDict → ℕ
tx_cnt d = length d.tx_hash_dict

unfoldable pub add : RequestDict → TxRequest → Result RequestDict
add d tx = do
  assert (not (Dict.contains d.tx_hash_dict tx.sig))
  assert (not (Dict.contains d.tx_sender_nonce_dict (sender_nonce tx)))
  let hash_dict = Dict.put d.tx_hash_dict tx.sig tx
  let sender_nonce_dict = Dict.put d.tx_sender_nonce_dict (sender_nonce tx) tx
  queue ← SortedQueue.add gas_key sig_key d.tx_gas_price_queue tx
  assert (length hash_dict == length sender_nonce_dict)
  assert (leb (length queue) (length sender_nonce_dict))
  ok (record {
    tx_hash_dict = hash_dict;
    tx_sender_nonce_dict = sender_nonce_dict;
    tx_gas_price_queue = queue;
  })

-- A request that is processed stands in the queue no more.
abbrev pub pop_queued : List TxRequest → Option ℕ → Result (List TxRequest)
pop_queued queue none = ok queue
pop_queued queue (some i) = do popped ← SortedQueue.pop_index queue (pos i); ok popped.1

-- `pop`, without the request that it returns, which no caller uses.
unfoldable pub pop : RequestDict → TxRequest → Result RequestDict
pop d tx = do
  assert (Dict.contains d.tx_hash_dict tx.sig)
  assert (Dict.contains d.tx_sender_nonce_dict (sender_nonce tx))
  queue ← pop_queued d.tx_gas_price_queue (SortedQueue.find gas_key sig_key d.tx_gas_price_queue tx)
  ok (record {
    tx_hash_dict = Dict.remove d.tx_hash_dict tx.sig;
    tx_sender_nonce_dict = Dict.remove d.tx_sender_nonce_dict (sender_nonce tx);
    tx_gas_price_queue = queue;
  })

unfoldable pub get_tx_by_hash : RequestDict → String → Option TxRequest
get_tx_by_hash d sig = Dict.get d.tx_hash_dict sig

unfoldable pub get_tx_by_sender_nonce : RequestDict → TxRequest → Option TxRequest
get_tx_by_sender_nonce d tx = Dict.get d.tx_sender_nonce_dict (sender_nonce tx)

unfoldable pub acquire_tx : RequestDict → TxRequest → Result RequestDict
acquire_tx d tx = do
  popped ← SortedQueue.pop_item gas_key sig_key d.tx_gas_price_queue tx
  ok (record d { tx_gas_price_queue = popped.1 })

unfoldable pub cancel_process_tx : RequestDict → TxRequest → Result RequestDict
cancel_process_tx d tx = do
  queue ← SortedQueue.add gas_key sig_key d.tx_gas_price_queue tx
  ok (record d { tx_gas_price_queue = queue })

-- The request with the lowest gas price.
unfoldable pub peek_lower_tx : RequestDict → Result (Option TxRequest)
peek_lower_tx d =
    if ltb 0 (length d.tx_gas_price_queue)
    then (do tx ← SortedQueue.item_at d.tx_gas_price_queue (negsuc 0); ok (some tx))
    else ok none

-- The dicts hold the object whose execution data `MPSenderTxPool.cancel_process_tx` replaces.
abbrev pub with_exec_cfg : TxRequest → TxRequest → TxRequest
with_exec_cfg tx a = record a { state_tx_cnt = tx.state_tx_cnt; exec_cfg = tx.exec_cfg }

unfoldable pub refresh : RequestDict → TxRequest → RequestDict
refresh d tx = elim (Dict.get d.tx_hash_dict tx.sig) [
  | none ↦ d
  | some a ↦ record d {
    tx_hash_dict = Dict.put d.tx_hash_dict tx.sig (with_exec_cfg tx a);
    tx_sender_nonce_dict = Dict.put d.tx_sender_nonce_dict (sender_nonce a) (with_exec_cfg tx a);
  }
]
