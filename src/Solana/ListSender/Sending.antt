-- ===== src/Solana/ListSender/Sending.antt =====
-- `_get_block_hash`, `_sign_tx_list`, `_send_tx_list`, `_get_tx_list_for_send` and the calls of
-- `SolTxListSender` (proxy/common_neon/solana_tx_list_sender.py). The wait of one block before
-- the state of an invalid index is sent again changes nothing and is left out.
use proxy_model_py.Base.{
  ℕ, String, Bool, true, false, not, Option, none, some, List, [], ◌∷◌, ◌++◌, ◌&&◌, ◌==◌, is_in,
  option_eq, nat_eq, string_eq, if◌then◌else◌, map, length, ltb, index_error,
}
use proxy_model_py.Dict
use proxy_model_py.Dict.{Dict}
use proxy_model_py.Solana.Tx.{sign, set_recent_block_hash, clone, mark_cloned}
use proxy_model_py.Solana.ListSender.Status.{
  Status, wait_for_receipt, already_finalized_error, blocked_account_error, status_eq, status_list,
  completed_tx_status_set, resubmitted_tx_status_set,
}
use proxy_model_py.Solana.ListSender.State.{
  TxRef, SolTxReceipt, SendError, block_hash_not_found, sol_tx_error, python_error, SolTxSendState,
  SolSendResult, Env, Sender, write, alloc, called, Run, raised, returned, ◌▷◌,
}
use proxy_model_py.Solana.ListSender.Receipts.{list_of, add_tx_states, has_completed_receipt}

-- `_get_block_hash`, with the hash at hand, if any.
unfoldable pub new_block_hash : Env → Sender → Run String
unfolding called
new_block_hash e s =
    let resp = e.node.get_recent_block_hash s.calls in
    let s = called s in
    if is_in (some resp.0) s.bad_block_hash_set
    then raised block_hash_not_found s
    else returned resp.0 (record s {
      block_hash = some resp.0;
      block_hash_dict = Dict.put s.block_hash_dict (some resp.0) resp.1;
    })

abbrev pub kept_block_hash : Env → Option String → Sender → Run String
kept_block_hash e none s = new_block_hash e s
kept_block_hash e (some hash) s = returned hash s

unfoldable pub get_block_hash : Env → Sender → Run String
unfolding new_block_hash
get_block_hash e s =
    let hash = if is_in s.block_hash s.bad_block_hash_set then none else s.block_hash in
    kept_block_hash e hash (record s { block_hash = hash })

-- The first part of the loop's body in `_sign_tx_list`: what was known of a signed transaction is
-- forgotten, and its block hash when it is bad.
unfoldable pub forget_sig : Env → TxRef → Sender → Sender
unfolding write set_recent_block_hash
forget_sig e ref s =
    let tx = s.heap ref in
    let s1 = record s { tx_state_dict = Dict.remove s.tx_state_dict tx.signature } in
    if tx.is_signed
    then (if is_in tx.recent_block_hash s.bad_block_hash_set
        then write ref (set_recent_block_hash e.solders none tx) s1
        else s1)
    else s

abbrev or_hash : String → Option String → String
or_hash hash none = hash
or_hash hash (some fuzzed) = fuzzed

abbrev pub sign_without : Env → String → TxRef → Option String → Sender → Sender
sign_without e hash ref (some old) s = s
sign_without e hash ref none s =
    let fresh = or_hash hash (e.node.fuzz_block_hash s.calls ref) in
    write ref (sign e.solders e.signer (set_recent_block_hash e.solders (some fresh) (s.heap ref)))
      s

-- The second part: a transaction without block hash gets one and is signed.
unfoldable pub sign_tx : Env → String → TxRef → Sender → Sender
unfolding forget_sig write sign set_recent_block_hash
sign_tx e hash ref s =
    let s = forget_sig e ref s in sign_without e hash ref ((s.heap ref).recent_block_hash) s

unfoldable pub sign_txs : Env → String → List TxRef → Sender → Sender
unfolding sign_tx
sign_txs e hash [] s = s
sign_txs e hash (ref ∷ refs) s = sign_txs e hash refs (sign_tx e hash ref s)

unfoldable pub sign_tx_list : Env → Sender → Run Unit
unfolding get_block_hash sign_txs
sign_tx_list e s = get_block_hash e s ▷ λ hash s. returned tt (sign_txs e hash s.tx_list s)

-- The transactions whose flag is `flag`.
unfoldable pub flagged : Bool → Env → ℕ → List TxRef → List TxRef
flagged flag e calls [] = []
flagged flag e calls (ref ∷ refs) =
    let rest = flagged flag e calls refs in
    if (if e.node.fuzz_skip calls ref then flag else not flag) then ref ∷ rest else rest

abbrev pub receipt_of : SolSendResult → Option SolTxReceipt
receipt_of r = elim r.result [ none ↦ r.error | some result ↦ none ]

abbrev pub nones : List TxRef → List (Option SolTxReceipt)
nones refs = map (λ ref. none) refs

-- What `_send_tx_list` does with the transactions that it sends and those that it skips.
unfoldable pub send_parts : Env → List TxRef → List TxRef → Sender → Run Unit
unfolding called add_tx_states
send_parts e sent skipped s =
    let results = e.node.send_tx_list s.calls (map s.heap sent) in
    add_tx_states sent (map receipt_of results) wait_for_receipt
      (called (record s { tx_list = sent }))
    ▷ λ u s. add_tx_states skipped (nones skipped) wait_for_receipt s

unfoldable pub send_tx_list : Env → Sender → Run Unit
unfolding flagged send_parts
send_tx_list e s =
    let sent = flagged false e s.calls s.tx_list in
    let skipped = flagged true e s.calls s.tx_list in
    if ltb 1 (length s.tx_list) then send_parts e sent skipped s else send_parts e s.tx_list [] s

abbrev error_of : SolTxSendState → Option SendError → SendError
error_of tx_state none = sol_tx_error tx_state.receipt
error_of tx_state (some error) = error

abbrev first_error : List SolTxSendState → SendError
first_error [] = python_error index_error
first_error (tx_state ∷ list) = error_of tx_state tx_state.error

-- `_check_tx_status_for_send`: whether the transactions of a status are sent again, or the error.
pub data Check : Type 0 where
  pass resend : Check
  fail : SendError → Check

abbrev pub check_list : Status → Bool → Option (List SolTxSendState) → Check
check_list status completed none = pass
check_list status completed (some list) =
    if is_in status resubmitted_tx_status_set
    then resend
    else if (status == blocked_account_error) && completed
    then resend
    else fail (first_error list)

unfoldable pub check_tx_status_for_send : Status → Sender → Check
unfolding has_completed_receipt
check_tx_status_for_send status s =
    if is_in status completed_tx_status_set
    then pass
    else check_list status (has_completed_receipt s) (Dict.get s.tx_state_list_dict status)

-- tx.clone()
unfoldable pub clone_tx : Env → TxRef → Sender → TxRef × Sender
unfolding alloc write clone mark_cloned
clone_tx e ref s = alloc (clone e.solders (s.heap ref)) (write ref (mark_cloned (s.heap ref)) s)

abbrev pub append_tx : TxRef → Sender → Sender
append_tx ref s = record s { tx_list = s.tx_list ++ (ref ∷ []) }

unfoldable pub resend_tx : Env → SolTxSendState → Sender → Sender
unfolding clone_tx
resend_tx e tx_state s =
    let cloned = clone_tx e tx_state.tx s in
    if (s.heap tx_state.tx).is_cloned
    then s
    else if tx_state.status == blocked_account_error
    then append_tx cloned.0 cloned.1
    else append_tx tx_state.tx s

unfoldable pub resend_txs : Env → List SolTxSendState → Sender → Sender
unfolding resend_tx
resend_txs e [] s = s
resend_txs e (tx_state ∷ list) s = resend_txs e list (resend_tx e tx_state s)

-- The body of the loop on the statuses, where `next` is the rest of the loop. A status that is taken is
-- removed after the loop.
unfoldable pub take_status : Env → Check → Status → (Sender → Run Unit) → Sender → Run Unit
unfolding resend_txs list_of
take_status e pass status next s = next s
take_status e (fail error) status next s = raised error s
take_status e resend status next s =
    next (resend_txs e (list_of s.tx_state_list_dict status) s) ▷ λ u s.
    returned tt (record s { tx_state_list_dict = Dict.remove s.tx_state_list_dict status })

unfoldable pub resend_statuses : Env → List Status → Sender → Run Unit
unfolding check_tx_status_for_send take_status
resend_statuses e [] s = returned tt s
resend_statuses e (status ∷ rest) s =
    take_status e (check_tx_status_for_send status s) status (resend_statuses e rest) s

unfoldable pub get_tx_list_for_send : Env → Sender → Run Unit
unfolding resend_statuses
get_tx_list_for_send e s =
    let s = record s { tx_list = [] } in
    if Dict.contains s.tx_state_list_dict already_finalized_error
    then returned tt s
    else resend_statuses e status_list s
