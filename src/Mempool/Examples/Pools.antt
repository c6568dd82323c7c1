-- ===== src/Mempool/Examples/Pools.antt =====
-- The theorems on the senders' pools of proxy/mempool at concrete pools.
use proxy_model_py.Base.{
  ℕ, ◌≡◌, ◌≤◌, ◌<◌, refl, [], ◌∷◌, ◌++◌, ok, err, assertion_error, arith, some, none, last?, inl,
  string_eq, true, false, ◌≢◌,
}
use proxy_model_py.Mempool.SenderPool.{
  SenderPool, State, acquire_tx, done_tx, drop_tx, cancel_process_tx, take_out_tx_list, refresh,
  pending_nonce, sync_state, has_valid_state, actual_state,
}
use proxy_model_py.Mempool.SenderPool.States.{sync_state_valid, synced, state_of}
use proxy_model_py.Mempool.SenderPool.Nonces.{pending_nonce_lem, holds_nonce}
use proxy_model_py.Mempool.SenderPool.Processing.{acquire_tx_lifecycle, take_out_processing, taken}
use proxy_model_py.Mempool.Examples.{tx_a, tx_b}

-- Nonces 1 and 0 wait, and 0 is next.
abbrev pub pool_ab : SenderPool
pool_ab = record {
  state = State.queued;
  sender_address = "A";
  gas_price = 5;
  state_tx_cnt = 0;
  processing_tx = none;
  tx_nonce_queue = tx_b ∷ tx_a ∷ [];
}

sync_state_valid_example :
    (sync_state pool_ab ≡ ok (synced pool_ab))
    × (actual_state (synced pool_ab) ≡ ok (state_of pool_ab (some tx_a)))
    × (has_valid_state (synced pool_ab) ≡ ok true)
sync_state_valid_example = sync_state_valid pool_ab

pending_nonce_lem_example :
    (r : ℕ) × (pending_nonce pool_ab ≡ some r)
    × (0 ≤ r)
    × ((n : ℕ) → 0 ≤ n → n < r → holds_nonce n pool_ab.tx_nonce_queue ≡ true)
    × (holds_nonce r pool_ab.tx_nonce_queue ≡ false)
pending_nonce_lem_example = pending_nonce_lem pool_ab (inl refl) (omega arith) (omega arith)

pending_nonce_runs : pending_nonce pool_ab ≡ some 2
unfolding pending_nonce
pending_nonce_runs = refl

acquire_tx_lifecycle_example :
    (q : SenderPool) × (acquire_tx pool_ab tx_a ≡ ok q)
    × (q.state ≡ State.processing)
    × (q.processing_tx ≡ some tx_a)
    × (q.tx_nonce_queue ≡ tx_b ∷ tx_a ∷ [])
    × (drop_tx q tx_a ≡ err assertion_error)
    × ((r : SenderPool) × (done_tx q tx_a ≡ ok r)
        × (r.processing_tx ≡ none)
        × (r.tx_nonce_queue ++ tx_a ∷ [] ≡ tx_b ∷ tx_a ∷ []))
    × ((r : SenderPool) × (cancel_process_tx q tx_a ≡ ok r)
        × (r.processing_tx ≡ none)
        × (r.tx_nonce_queue ≡ refresh tx_a (tx_b ∷ tx_a ∷ [])))
acquire_tx_lifecycle_example = acquire_tx_lifecycle pool_ab tx_a refl refl

other_sig : tx_b.sig ≢ tx_a.sig
other_sig e = cc ((string_eq.same_iff "a1" "a0").1 e)

take_out_processing_example :
    ((take_out_tx_list (taken pool_ab tx_a)).0 ≡ tx_a ∷ [])
    × (last? (take_out_tx_list (taken pool_ab tx_a)).0 ≡ some tx_a)
    × ((take_out_tx_list (taken pool_ab tx_a)).1.tx_nonce_queue ≡ tx_b ∷ [])
    × (done_tx (take_out_tx_list (taken pool_ab tx_a)).1 tx_a ≡ err assertion_error)
take_out_processing_example =
    take_out_processing (taken pool_ab tx_a) tx_a tx_b (tx_a ∷ []) refl refl refl other_sig
