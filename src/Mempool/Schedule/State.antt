-- ===== src/Mempool/Schedule/State.antt =====
-- The state of `MPTxSchedule` of proxy/mempool/mempool_schedule.py, and the access to its pools.
use proxy_model_py.Base.{
  ℕ, Bool, Option, none, some, List, [], ◌∷◌, ◌++◌, ℤ, pos, String, string_eq, nat_eq, Result, ok,
  err, ◌>>=◌, ◌==◌, or_raise, assertion_error, key_error, if◌then◌else◌, false, ◌||◌,
}
use proxy_model_py.Dict
use proxy_model_py.Dict.{Dict}
use proxy_model_py.Mempool.TxRequest.{TxRequest}
use proxy_model_py.Mempool.RequestDict
use proxy_model_py.Mempool.RequestDict.{RequestDict}
use proxy_model_py.Mempool.SenderPool
use proxy_model_py.Mempool.SenderPool.{SenderPool}

pub record Schedule : Type 0 where
  pub capacity : ℕ
  pub tx_dict : RequestDict
  pub sender_pool_dict : Dict String SenderPool
  pub sender_pool_queue : List String
  pub suspended_sender_set : List String

-- `__init__`
unfoldable pub init : ℕ → Schedule
init capacity = record {
  capacity = capacity;
  tx_dict = RequestDict.empty;
  sender_pool_dict = [];
  sender_pool_queue = [];
  suspended_sender_set = [];
}

-- `lt_key_func` of the queue of pools: it reads the price that the pool has now.
unfoldable pub price_key : Dict String SenderPool → String → ℤ
price_key pools address = elim (Dict.get pools address) [ none ↦ pos 0 | some p ↦ pos p.gas_price ]

-- `eq_key_func` of the queue of pools.
abbrev pub address_key : String → String
address_key address = address

-- A Python set of addresses, in the order in which they came.
unfoldable pub set_contains : List String → String → Bool
set_contains [] a = false
set_contains (b ∷ l) a = b == a || set_contains l a

unfoldable pub set_add : List String → String → List String
unfolding set_contains
set_add l a = if set_contains l a then l else l ++ a ∷ []

unfoldable pub set_discard : List String → String → List String
set_discard [] a = []
set_discard (b ∷ l) a = let rest = set_discard l a in if b == a then rest else b ∷ rest

-- `remove` of a set raises for an element that it lacks.
unfoldable pub set_remove : List String → String → Result (List String)
unfolding set_contains set_discard
set_remove l a = if set_contains l a then ok (set_discard l a) else err key_error

-- What a method writes to a pool object is seen through the dict, if the pool stands there.
unfoldable pub save_pool : Schedule → SenderPool → Schedule
save_pool s p =
    if Dict.contains s.sender_pool_dict p.sender_address
    then record s { sender_pool_dict = Dict.put s.sender_pool_dict p.sender_address p }
    else s

-- `_find_sender_pool`
unfoldable pub find_sender_pool : Schedule → String → Option SenderPool
find_sender_pool s address = Dict.get s.sender_pool_dict address

-- `_get_or_create_sender_pool`
unfoldable pub get_or_create_sender_pool : Schedule → String → SenderPool
unfolding find_sender_pool
get_or_create_sender_pool s address = elim (find_sender_pool s address) [
  | none ↦ SenderPool.new address
  | some p ↦ p
]

-- `_get_sender_pool`
unfoldable pub get_sender_pool : Schedule → String → Result SenderPool
unfolding find_sender_pool
get_sender_pool s address = or_raise assertion_error (find_sender_pool s address)

-- `_tx_cnt`
unfoldable pub tx_cnt : Schedule → ℕ
tx_cnt s = RequestDict.tx_cnt s.tx_dict

-- `_add_tx_to_sender_pool`. The pool is entered into the dict with its first request.
unfoldable pub add_tx_to_sender_pool :
    Schedule → SenderPool → TxRequest → Result (Schedule × SenderPool)
unfolding save_pool
add_tx_to_sender_pool s p tx = do
  p' ← SenderPool.add_tx p tx
  d ← RequestDict.add s.tx_dict tx
  let s' = save_pool (record s { tx_dict = d }) p'
  ok (
    if SenderPool.len_tx_nonce_queue p' == 1
        then record s' { sender_pool_dict = Dict.put s'.sender_pool_dict p'.sender_address p' }
        else s',
    p',
  )

-- `_drop_tx_from_sender_pool`
unfoldable pub drop_tx_from_sender_pool :
    Schedule → SenderPool → TxRequest → Result (Schedule × SenderPool)
unfolding save_pool
drop_tx_from_sender_pool s p tx = do
  p' ← SenderPool.drop_tx p tx
  d ← RequestDict.pop s.tx_dict tx
  ok (save_pool (record s { tx_dict = d }) p', p')
