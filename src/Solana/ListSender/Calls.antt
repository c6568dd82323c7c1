-- ===== src/Solana/ListSender/Calls.antt =====
-- `_send_impl`, `_validate_commit_level`, `_send` and the public calls of `SolTxListSender`
-- (proxy/common_neon/solana_tx_list_sender.py).
use proxy_model_py.Base.{
  ℕ, zero, suc, min, Bool, true, false, not, Option, none, some, String, List, [], ◌∷◌, ◌==◌,
  nat_eq, string_eq, if◌then◌else◌, map, is_nil, ltb, assert,
}
use proxy_model_py.Solana.Tx.{level, confirmed}
use proxy_model_py.Solana.ListSender.Status.{blocked_account_error, status_eq}
use proxy_model_py.Solana.ListSender.State.{
  TxRef, SendError, node_behind, block_hash_not_found, blocked_account, no_more_retries,
  commit_level, invalid_ix_data, cu_budget_exceeded, require_resize_iter, nonce_too_low,
  sol_tx_error, python_error, SolTxSendState, block_slot, Env, Sender, called, Run, raised,
  returned, ◌▷◌, lift, big_block_slot,
}
use proxy_model_py.Solana.ListSender.Receipts.{
  list_of, wait_for_tx_receipt_list, has_completed_receipt, get_tx_receipt_list, sig_list,
}
use proxy_model_py.Solana.ListSender.Sending.{
  sign_tx_list, send_tx_list, get_tx_list_for_send, clone_tx, append_tx,
}

unfoldable pub has_tx_list : Sender → Bool
has_tx_list s = not (is_nil s.tx_list)

-- What stands after the first `continue` of the loop's body.
unfoldable pub receive : Env → Sender → Run Unit
unfolding has_tx_list
receive e s =
    if has_tx_list s
    then returned tt s
    else wait_for_tx_receipt_list e s ▷ λ u s. get_tx_list_for_send e s

-- The body of the loop of `_send_impl`.
unfoldable pub send_round : Env → Sender → Run Unit
unfolding receive
send_round e s =
    sign_tx_list e s ▷ (λ u s. send_tx_list e s) ▷ (λ u s. get_tx_list_for_send e s) ▷ λ u s.
    receive e s

unfoldable pub no_list_left : Sender → Run Unit
unfolding has_tx_list
no_list_left s = if has_tx_list s then raised no_more_retries s else returned tt s

-- The loop, with the number of rounds that are left.
unfoldable pub send_rounds : Env → ℕ → Sender → Run Unit
unfolding send_round no_list_left has_tx_list
send_rounds e zero s = no_list_left s
send_rounds e (suc left) s =
    if has_tx_list s then (send_round e s ▷ λ u s. send_rounds e left s) else no_list_left s

unfoldable pub send_impl : Env → Sender → Run Unit
unfolding send_rounds
send_impl e s = send_rounds e e.retry_on_fail s

-- The loop on the states.
unfoldable pub min_slot : Option ℕ → ℕ → ℕ
min_slot none least = least
min_slot (some slot) least = min least slot

unfoldable pub min_block_slot : List SolTxSendState → ℕ → ℕ
unfolding min_slot
min_block_slot [] least = least
min_block_slot (tx_state ∷ list) least = min_block_slot list (min_slot (block_slot tx_state) least)

unfoldable pub tx_state_list : Sender → List SolTxSendState
tx_state_list s = map (λ entry. entry.1) s.tx_state_dict

unfoldable pub check_commitment : Env → String → Sender → Run Unit
unfolding level
check_commitment e commitment s = lift (level commitment) s ▷ λ reached s.
    lift (level e.commit_level) s ▷ λ wanted s.
    if ltb reached wanted then raised (commit_level e.commit_level commitment) s else returned tt s

unfoldable pub validate_commit_level : Env → Sender → Run Unit
unfolding min_block_slot tx_state_list check_commitment
validate_commit_level e s =
    let slot = min_block_slot (tx_state_list s) big_block_slot in
    if e.commit_level == confirmed
    then returned tt s
    else if slot == big_block_slot
    then returned tt s
    else check_commitment e (e.node.get_block_status s.calls slot) (called s)

-- isinstance(error, (WrongStrategyError, RescheduleError))
unfoldable pub is_passed_on : SendError → Bool
is_passed_on (node_behind slots_behind) = true
is_passed_on block_hash_not_found = true
is_passed_on blocked_account = true
is_passed_on no_more_retries = true
is_passed_on (commit_level base reached) = true
is_passed_on invalid_ix_data = true
is_passed_on cu_budget_exceeded = true
is_passed_on require_resize_iter = true
is_passed_on (nonce_too_low tx_nonce state_tx_cnt) = false
is_passed_on (sol_tx_error receipt) = false
is_passed_on (python_error error) = false

-- The two `except` clauses of `_send`.
unfoldable pub after_sending : Env → Run Unit → Run Bool
unfolding validate_commit_level is_passed_on
after_sending e (returned u s) = returned true s
after_sending e (raised error s) =
    if is_passed_on error then raised error s else validate_commit_level e s ▷ λ u s. raised error s

unfoldable pub send_txs : Env → Sender → Run Bool
unfolding after_sending send_impl validate_commit_level
send_txs e s = after_sending e (send_impl e s ▷ λ u s. validate_commit_level e s)

unfoldable pub send : Env → List TxRef → Sender → Run Bool
unfolding send_txs has_tx_list
send e tx_list s = lift (assert (not (has_tx_list s))) s ▷ λ u s.
    if is_nil tx_list then returned false s else send_txs e (record s { tx_list = tx_list })

-- The loop of `_get_tx_list_for_lock_account`.
unfoldable pub clone_first : Env → List SolTxSendState → Sender → Bool × Sender
unfolding clone_tx
clone_first e [] s = (false, s)
clone_first e (tx_state ∷ list) s =
    let cloned = clone_tx e tx_state.tx s in
    let rest = clone_first e list s in
    if (s.heap tx_state.tx).is_cloned then rest else (true, append_tx cloned.0 cloned.1)

unfoldable pub get_tx_list_for_lock_account : Env → Sender → Bool × Sender
unfolding clone_first has_completed_receipt
get_tx_list_for_lock_account e s =
    if has_completed_receipt s
    then (false, s)
    else clone_first e (list_of s.tx_state_list_dict blocked_account_error) s

unfoldable pub find_tx_list : Env → Bool × Sender → Run Unit
unfolding get_tx_list_for_send
find_tx_list e (found, s) = if found then returned tt s else get_tx_list_for_send e s

unfoldable pub recheck : Env → List TxRef → Sender → Run Bool
unfolding find_tx_list get_tx_list_for_lock_account send_txs has_tx_list
recheck e tx_list s = lift (assert (not (has_tx_list s))) s ▷ λ u s.
    if is_nil tx_list
    then returned false s
    else sig_list tx_list s
      ▷ (λ tx_sig_list s. get_tx_receipt_list e tx_sig_list tx_list s)
      ▷ (λ u s. find_tx_list e (get_tx_list_for_lock_account e s))
      ▷ λ u s. send_txs e s

unfoldable pub clear : Sender → Sender
clear s = record s { block_hash = none; tx_list = []; tx_state_dict = []; tx_state_list_dict = [] }
