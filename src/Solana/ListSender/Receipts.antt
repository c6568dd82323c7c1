-- ===== src/Solana/ListSender/Receipts.antt =====
-- `_decode_tx_status`, `_add_tx_state`, `_get_tx_receipt_list`, `_wait_for_tx_receipt_list` and
-- `has_completed_receipt` of `SolTxListSender` (proxy/common_neon/solana_tx_list_sender.py). The wait of
-- `check_confirm_of_tx_sig_list` changes nothing of the sender and is left out.
use proxy_model_py.Base.{
  ℕ, String, Bool, false, Option, none, some, List, [], ◌∷◌, ◌++◌, ◌||◌, is_in, option_eq,
  string_eq, if◌then◌else◌, is_some, map,
}
use proxy_model_py.Dict
use proxy_model_py.Dict.{Dict}
use proxy_model_py.Solana.Tx.{sig}
use proxy_model_py.Solana.ListSender.Status.{
  Status, good_receipt, account_already_exists_error, already_finalized_error, no_receipt_error,
  block_hash_not_found_error, alt_invalid_index_error, node_behind_error, blocked_account_error,
  blocked_account_prep_error, cu_budget_exceeded_error, invalid_ix_data_error, wait_for_receipt,
  require_resize_iter_error, bad_nonce_error, unknown_error, status_eq, completed_tx_status_set,
}
use proxy_model_py.Solana.ListSender.State.{
  TxRef, SolTxErrorParser, SolTxReceipt, SendError, node_behind, blocked_account, invalid_ix_data,
  cu_budget_exceeded, require_resize_iter, nonce_too_low, SolTxSendState, Env, Sender, called, Run,
  returned, ◌▷◌, lift, big_block_height,
}

-- `_DecodeResult`
pub record DecodeResult : Type 0 where
  pub tx_status : Status
  pub error : Option SendError

abbrev pub decoded : Status → Option SendError → DecodeResult
decoded tx_status error = record { tx_status = tx_status; error = error }

-- The checks after that of the slots behind, up to the nonce.
unfoldable pub decode_last : SolTxErrorParser → DecodeResult
decode_last p = elim p.get_nonce_error [
  | some (state_tx_cnt, tx_nonce) ↦
      decoded bad_nonce_error (some (nonce_too_low tx_nonce state_tx_cnt))
  | none ↦ if p.check_if_error then decoded unknown_error none else decoded good_receipt none
]

unfoldable pub decode_checks : SolTxErrorParser → DecodeResult
unfolding decode_last
decode_checks p =
    if p.check_if_block_hash_notfound
    then decoded block_hash_not_found_error none
    else if p.check_if_alt_uses_invalid_index
    then decoded alt_invalid_index_error none
    else if p.check_if_already_finalized
    then decoded already_finalized_error none
    else if p.check_if_accounts_blocked
    then (if p.check_if_preprocessed_error
        then decoded blocked_account_prep_error none
        else decoded blocked_account_error (some blocked_account))
    else if p.check_if_account_already_exists
    then decoded account_already_exists_error none
    else if p.check_if_invalid_ix_data
    then decoded invalid_ix_data_error (some invalid_ix_data)
    else if p.check_if_budget_exceeded
    then decoded cu_budget_exceeded_error (some cu_budget_exceeded)
    else if p.check_if_require_resize_iter
    then decoded require_resize_iter_error (some require_resize_iter)
    else decode_last p

unfoldable pub decode_slots : Option ℕ → SolTxErrorParser → DecodeResult
unfolding decode_checks
decode_slots (some slots_behind) p = decoded node_behind_error (some (node_behind slots_behind))
decode_slots none p = decode_checks p

-- What `_decode_tx_status` returns ...
unfoldable pub decode_result : SolTxErrorParser → DecodeResult
unfolding decode_slots
decode_result p = decode_slots p.get_slots_behind p

-- `_bad_block_hash_set.add`
unfoldable pub add_bad_block_hash : Option String → Sender → Sender
add_bad_block_hash hash s =
    if is_in hash s.bad_block_hash_set
    then s
    else record s { bad_block_hash_set = hash ∷ s.bad_block_hash_set }

-- ... and what it notes.
unfoldable pub note_block_hash : TxRef → SolTxErrorParser → Sender → Sender
unfolding add_bad_block_hash
note_block_hash ref p s =
    if is_some p.get_slots_behind
    then s
    else if p.check_if_block_hash_notfound
    then add_bad_block_hash ((s.heap ref).recent_block_hash) s
    else s

abbrev pub or_empty : Option (List SolTxSendState) → List SolTxSendState
or_empty none = []
or_empty (some list) = list

unfoldable pub list_of : Dict Status (List SolTxSendState) → Status → List SolTxSendState
list_of d status = or_empty (Dict.get d status)

-- d.setdefault(status, list()).append(tx_state)
unfoldable pub append_state :
    SolTxSendState → Dict Status (List SolTxSendState) → Dict Status (List SolTxSendState)
append_state tx_state d = Dict.put d tx_state.status (list_of d tx_state.status ++ (tx_state ∷ []))

abbrev or_big : Option ℕ → ℕ
or_big none = big_block_height
or_big (some height) = height

-- The state of a transaction whose decoding is `res`.
unfoldable pub new_state : TxRef → Option SolTxReceipt → DecodeResult → Sender → SolTxSendState
new_state ref receipt res s = record {
  status = res.tx_status;
  tx = ref;
  valid_block_height = or_big (Dict.get s.block_hash_dict ((s.heap ref).recent_block_hash));
  receipt = receipt;
  error = res.error;
}

unfoldable pub keep_state : SolTxSendState → Sender → Run Unit
unfolding append_state
keep_state tx_state s = lift (sig (s.heap tx_state.tx)) s ▷ λ tx_sig s. returned tt (record s {
  tx_state_dict = Dict.put s.tx_state_dict tx_sig tx_state;
  tx_state_list_dict = append_state tx_state s.tx_state_list_dict;
})

unfoldable pub add_tx_state : TxRef → Option SolTxReceipt → Status → Sender → Run Unit
unfolding new_state keep_state decode_result note_block_hash
add_tx_state ref none no_receipt_status s =
    keep_state (new_state ref none (decoded no_receipt_status none) s) s
add_tx_state ref (some receipt) no_receipt_status s =
    let s = note_block_hash ref receipt.parser s in
    keep_state (new_state ref (some receipt) (decode_result receipt.parser) s) s

-- The loops on `zip(tx_list, tx_receipt_list)`.
unfoldable pub add_tx_states : List TxRef → List (Option SolTxReceipt) → Status → Sender → Run Unit
unfolding add_tx_state
add_tx_states [] receipts no_receipt_status s = returned tt s
add_tx_states (ref ∷ refs) [] no_receipt_status s = returned tt s
add_tx_states (ref ∷ refs) (receipt ∷ receipts) no_receipt_status s =
    add_tx_state ref receipt no_receipt_status s ▷ λ u s.
    add_tx_states refs receipts no_receipt_status s

unfoldable pub get_tx_receipt_list : Env → List String → List TxRef → Sender → Run Unit
unfolding add_tx_states called
get_tx_receipt_list e tx_sig_list tx_list s =
    add_tx_states tx_list (e.node.get_tx_receipt_list s.calls tx_sig_list) no_receipt_error
      (called s)

-- [str(tx.sig) for tx in tx_list]
unfoldable pub sig_list : List TxRef → Sender → Run (List String)
sig_list [] s = returned [] s
sig_list (ref ∷ refs) s =
    lift (sig (s.heap ref)) s ▷ λ tx_sig s. sig_list refs s ▷ λ rest s. returned (tx_sig ∷ rest) s

abbrev pub tx_refs : List SolTxSendState → List TxRef
tx_refs list = map (λ tx_state. tx_state.tx) list

abbrev pub wait_for : Env → Option (List SolTxSendState) → Sender → Run Unit
wait_for e none s = returned tt s
wait_for e (some list) s =
    sig_list (tx_refs list) s ▷ λ tx_sig_list s. get_tx_receipt_list e tx_sig_list (tx_refs list) s

unfoldable pub wait_for_tx_receipt_list : Env → Sender → Run Unit
unfolding sig_list get_tx_receipt_list
wait_for_tx_receipt_list e s =
    let waiting = Dict.get s.tx_state_list_dict wait_for_receipt in
    wait_for e waiting
      (record s { tx_state_list_dict = Dict.remove s.tx_state_list_dict wait_for_receipt })

-- The loop on a set of statuses.
unfoldable pub has_any : List Status → Dict Status (List SolTxSendState) → Bool
has_any [] d = false
has_any (status ∷ set) d = Dict.contains d status || has_any set d

unfoldable pub has_completed_receipt : Sender → Bool
unfolding has_any
has_completed_receipt s = has_any completed_tx_status_set s.tx_state_list_dict
