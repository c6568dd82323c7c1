-- ===== src/Mempool/Examples/Schedules.antt =====
-- The theorems on the schedule of proxy/mempool at concrete schedules, and runs of it.
use proxy_model_py.Base.{
  ◌≡◌, refl, [], ◌∷◌, ok, err, index_error, arith, some, none, string_eq, true, All, ◌≤ℤ◌, pos,
}
use proxy_model_py.Dict
use proxy_model_py.Mempool.TxRequest.{already_known}
use proxy_model_py.Mempool.RequestDict.{get_tx_by_hash}
use proxy_model_py.Mempool.RequestDict.Consistency.{IsConsistent}
use proxy_model_py.Mempool.SenderPool.{SenderPool, State}
use proxy_model_py.Mempool.SenderPool.Processing.{taken}
use proxy_model_py.Mempool.Schedule.State.{Schedule, price_key}
use proxy_model_py.Mempool.Schedule.Sync.{set_sender_tx_cnt}
use proxy_model_py.Mempool.Schedule.Calls.{add_tx, peek_top_tx, done_tx, drop_stuck_tx, reply}
use proxy_model_py.Mempool.Schedule.Counts.{at_least, IsKept}
use proxy_model_py.Mempool.Schedule.DropLast.{SameQueues, Leaves}
use proxy_model_py.Mempool.Schedule.DropBelow.{set_sender_tx_cnt-at_least}
use proxy_model_py.Mempool.Schedule.Refusal.{add_tx_refused}
use proxy_model_py.Mempool.Schedule.Peek.{peek_top_tx-IsHighest}
use proxy_model_py.Mempool.Schedule.Stuck.{drop_stuck_tx_strands_pool}
use proxy_model_py.Mempool.Schedule.Done.{done_tx-with_cnt, with_cnt}
use proxy_model_py.Mempool.Examples.{tx_a, dict_a, dict_a-IsConsistent, dict_a-IsHeld}

abbrev pub pool_a : SenderPool
pool_a = record {
  state = State.queued;
  sender_address = "A";
  gas_price = 5;
  state_tx_cnt = 0;
  processing_tx = none;
  tx_nonce_queue = tx_a ∷ [];
}

-- One request waits.
abbrev waiting : Schedule
waiting = record {
  capacity = 10;
  tx_dict = dict_a;
  sender_pool_dict = ("A", pool_a) ∷ [];
  sender_pool_queue = "A" ∷ [];
  suspended_sender_set = [];
}

-- It is processed.
abbrev busy : Schedule
busy = record waiting { sender_pool_dict = ("A", taken pool_a tx_a) ∷ []; sender_pool_queue = [] }

pool_a-IsKept : IsKept dict_a (tx_a ∷ [])
pool_a-IsKept = record { sorted = (tt, tt); distinct = (tt, tt); held = (dict_a-IsHeld, tt) }

set_sender_tx_cnt-at_least_example :
    (s' : Schedule) × (set_sender_tx_cnt waiting pool_a 1
      ≡ ok (s', record pool_a { tx_nonce_queue = at_least 1 (tx_a ∷ []); state_tx_cnt = 1 }))
    × IsConsistent s'.tx_dict
    × IsKept s'.tx_dict (at_least 1 (tx_a ∷ []))
    × SameQueues waiting s'
    × Leaves dict_a s'.tx_dict 1 (tx_a ∷ [])
set_sender_tx_cnt-at_least_example =
    set_sender_tx_cnt-at_least waiting pool_a 1 dict_a-IsConsistent pool_a-IsKept refl (λ e. cc)
      (omega arith)

add_tx_known : add_tx waiting tx_a ≡ ok (reply already_known none, waiting)
unfolding add_tx get_tx_by_hash
add_tx_known = rw (dict_a-IsHeld.found, add_tx) refl

add_tx_refused_example : waiting ≡ waiting
add_tx_refused_example =
    add_tx_refused waiting tx_a (reply already_known none) waiting add_tx_known (λ e. cc)

peek_top_tx-IsHighest_example :
    (peek_top_tx waiting ≡ ok (some tx_a))
    × All (λ b. price_key waiting.sender_pool_dict b ≤ℤ pos 5) ("A" ∷ [])
unfolding Dict.get
peek_top_tx-IsHighest_example =
    peek_top_tx-IsHighest waiting "A" pool_a tx_a (tt, tt) refl refl refl

drop_stuck_tx_strands_pool_example :
    (s' : Schedule) × (drop_stuck_tx waiting "a0" ≡ ok (true, s'))
    × (peek_top_tx s' ≡ err index_error)
unfolding Dict.get
drop_stuck_tx_strands_pool_example =
    drop_stuck_tx_strands_pool waiting pool_a tx_a dict_a-IsConsistent dict_a-IsHeld.found refl refl
      refl refl refl refl refl

done_tx-with_cnt_example : done_tx busy (with_cnt tx_a 1) ≡ done_tx busy tx_a
unfolding Dict.get
done_tx-with_cnt_example = done_tx-with_cnt busy (taken pool_a tx_a) tx_a 1 refl refl
