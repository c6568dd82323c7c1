-- ===== src/Solana/ListSender/Filling.antt =====
-- `_add_tx_state` of `SolTxListSender` (proxy/common_neon/solana_tx_list_sender.py) over a list of
-- transactions that all get the same status.
use proxy_model_py.Base.{
  ◌≡◌, refl, sym, ap, ◌∙◌, subst, true, Option, none, some, List, [], ◌∷◌, ◌++◌, ==_refl, arith,
  string_eq, All,
}
use mathlib.Core.List.{append_assoc, append-nil}
use proxy_model_py.Dict
use proxy_model_py.Dict.{Dict}
use proxy_model_py.Solana.Tx.{sig}
use proxy_model_py.Solana.ListSender.Status.{Status, status_eq}
use proxy_model_py.Solana.ListSender.State.{
  Sender, SolTxErrorParser, SolTxReceipt, SolTxSendState, TxRef, returned, ◌▷◌,
}
use proxy_model_py.Solana.ListSender.Receipts.{
  add_bad_block_hash, add_tx_state, add_tx_states, append_state, decode_result, decoded, keep_state,
  list_of, new_state, note_block_hash, tx_refs,
}
use proxy_model_py.Solana.ListSender.Signing.{IsSigned}

-- The dict in which the states `list` have the status `k`, and none another.
abbrev pub one : Status → List SolTxSendState → Dict Status (List SolTxSendState)
one k [] = []
one k (tx_state ∷ list) = (k, tx_state ∷ list) ∷ []

-- The transactions `refs`, and no others, are in status `k`.
abbrev pub AreIn : Status → List TxRef → Sender → Type 0
AreIn k refs s =
    (list : List SolTxSendState) × (s.tx_state_list_dict ≡ one k list) × (tx_refs list ≡ refs)

abbrev pub status_of : Status → Option SolTxReceipt → Status
status_of no_receipt_status none = no_receipt_status
status_of no_receipt_status (some receipt) = (decode_result receipt.parser).tx_status

-- There is an answer for each request, and it means the status `k`.
abbrev pub Answers {ℓ} :
    {A : Type ℓ} → Status → Status → List A → List (Option SolTxReceipt) → Type 0
Answers k no_receipt_status [] [] = Unit
Answers k no_receipt_status [] (receipt ∷ receipts) = ⊥
Answers k no_receipt_status (x ∷ xs) [] = ⊥
Answers k no_receipt_status (x ∷ xs) (receipt ∷ receipts) =
    (status_of no_receipt_status receipt ≡ k) × Answers k no_receipt_status xs receipts

append_state-one :
    (tx_state : SolTxSendState) (k : Status) (list : List SolTxSendState)
    → tx_state.status ≡ k
    → append_state tx_state (one k list) ≡ one k (list ++ (tx_state ∷ []))
unfolding append_state list_of Dict.get Dict.put
append_state-one tx_state k [] same = rw same refl
append_state-one tx_state k (first ∷ list) same = rw same (rw (==_refl k) refl)

tx_refs-append :
    (list : List SolTxSendState) (tx_state : SolTxSendState)
    → tx_refs (list ++ (tx_state ∷ [])) ≡ tx_refs list ++ (tx_state.tx ∷ [])
tx_refs-append [] tx_state = refl
tx_refs-append (first ∷ list) tx_state = ap (◌∷◌ first.tx) (tx_refs-append list tx_state)

keep_state-AreIn :
    (tx_state : SolTxSendState) (k : Status) (before : List TxRef) (s : Sender)
    → IsSigned s tx_state.tx
    → tx_state.status ≡ k
    → AreIn k before s
    → (s' : Sender) × (keep_state tx_state s ≡ returned tt s')
      × (s'.heap ≡ s.heap)
      × (s'.tx_list ≡ s.tx_list)
      × AreIn k (before ++ (tx_state.tx ∷ [])) s'
unfolding keep_state sig
keep_state-AreIn tx_state k before s signed same (list, dict, refs) = (
  record s {
    tx_state_dict = Dict.put s.tx_state_dict (s.heap tx_state.tx).signature tx_state;
    tx_state_list_dict = append_state tx_state s.tx_state_list_dict;
  },
  rw signed refl,
  refl,
  refl,
  (
    list ++ (tx_state ∷ []),
    ap (append_state tx_state) dict ∙ append_state-one tx_state k list same,
    tx_refs-append list tx_state ∙ ap (λ l. l ++ (tx_state.tx ∷ [])) refs,
  ),
)

note_block_hash-kept :
    (ref : TxRef) (p : SolTxErrorParser) (s : Sender)
    → ((note_block_hash ref p s).heap ≡ s.heap)
      × ((note_block_hash ref p s).tx_list ≡ s.tx_list)
      × ((note_block_hash ref p s).tx_state_list_dict ≡ s.tx_state_list_dict)
unfolding note_block_hash add_bad_block_hash
note_block_hash-kept ref p s = (ground arith, ground arith, ground arith)

add_tx_state-AreIn :
    (ref : TxRef) (receipt : Option SolTxReceipt) (k no_receipt_status : Status)
    (before : List TxRef) (s : Sender)
    → IsSigned s ref
    → status_of no_receipt_status receipt ≡ k
    → AreIn k before s
    → (s' : Sender) × (add_tx_state ref receipt no_receipt_status s ≡ returned tt s')
      × (s'.heap ≡ s.heap)
      × (s'.tx_list ≡ s.tx_list)
      × AreIn k (before ++ (ref ∷ [])) s'
unfolding add_tx_state new_state
add_tx_state-AreIn ref none k no_receipt_status before s signed same are =
    keep_state-AreIn (new_state ref none (decoded no_receipt_status none) s) k before s signed same
      are
add_tx_state-AreIn ref (some receipt) k no_receipt_status before s signed same (list, dict, refs) =
    let t = note_block_hash ref receipt.parser s in
    let (heap, txs, kept) = note_block_hash-kept ref receipt.parser s in
    let (s', ran, heap', txs', are) =
      keep_state-AreIn (new_state ref (some receipt) (decode_result receipt.parser) t) k before t
        (ap (λ h. (h ref).is_signed) heap ∙ signed) same (list, kept ∙ dict, refs) in
    (s', ran, heap' ∙ heap, txs' ∙ txs, are)

pub add_tx_states-AreIn :
    (refs : List TxRef) (receipts : List (Option SolTxReceipt)) (k no_receipt_status : Status)
    (before : List TxRef) (s : Sender)
    → All (IsSigned s) refs
    → Answers k no_receipt_status refs receipts
    → AreIn k before s
    → (s' : Sender) × (add_tx_states refs receipts no_receipt_status s ≡ returned tt s')
      × (s'.heap ≡ s.heap)
      × (s'.tx_list ≡ s.tx_list)
      × AreIn k (before ++ refs) s'
unfolding add_tx_states
add_tx_states-AreIn [] [] k no_receipt_status before s signed answers are =
    (s, refl, refl, refl, subst (λ l. AreIn k l s) (sym (append-nil before)) are)
add_tx_states-AreIn [] (receipt ∷ receipts) k no_receipt_status before s signed answers are =
    absurd answers
add_tx_states-AreIn (ref ∷ refs) [] k no_receipt_status before s signed answers are = absurd answers
add_tx_states-AreIn (ref ∷ refs) (receipt ∷ receipts) k no_receipt_status before s (signed, all)
      (same, answers) are =
    let (t, first, heap, txs, has) =
      add_tx_state-AreIn ref receipt k no_receipt_status before s signed same are in
    let (s', rest, heap', txs', have) =
      add_tx_states-AreIn refs receipts k no_receipt_status (before ++ (ref ∷ [])) t
        (subst (λ h. All (λ r. (h r).is_signed ≡ true) refs) (sym heap) all) answers has in
    (
      s',
      ap (λ run. run ▷ λ u s. add_tx_states refs receipts no_receipt_status s) first ∙ rest,
      heap' ∙ heap,
      txs' ∙ txs,
      subst (λ l. AreIn k l s') (append_assoc before (ref ∷ []) refs) have,
    )
