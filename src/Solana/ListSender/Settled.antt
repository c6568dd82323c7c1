-- ===== src/Solana/ListSender/Settled.antt =====
-- When `SolTxListSender` (proxy/common_neon/solana_tx_list_sender.py) returns: nothing waits and nothing
-- failed.
use proxy_model_py.Base.{
  ℕ, zero, suc, ◌≡◌, ◌≢◌, refl, ap, ◌∙◌, subst, ◌⊎◌, inl, inr, true, false, Option, none, some,
  List, [], ◌∷◌, ◌++◌, ◌==◌, is_in, if-eq, Bool-cases, Option-cases, arith, String,
}
use proxy_model_py.Dict
use proxy_model_py.Dict.{Dict}
use proxy_model_py.Solana.Tx.{sig}
use proxy_model_py.Solana.ListSender.Status.{
  Status, account_already_exists_error, already_finalized_error, completed_tx_status_set,
  good_receipt, no_receipt_error, status_beq, status_eq, wait_for_receipt,
}
use proxy_model_py.Solana.ListSender.State.{
  Env, Sender, SolTxErrorParser, SolTxReceipt, SolTxSendState, TxRef, called, lift,
  lift-eq-returned, returned, returned_inj, ▷-eq-returned, ◌▷◌,
}
use proxy_model_py.Solana.ListSender.Receipts.{
  wait_for, tx_refs, add_bad_block_hash, add_tx_state, add_tx_states, append_state, decode_checks,
  decode_last, decode_result, decode_slots, decoded, get_tx_receipt_list, keep_state, list_of,
  new_state, note_block_hash, sig_list, wait_for_tx_receipt_list,
}
use proxy_model_py.Solana.ListSender.Sending.{get_tx_list_for_send, send_tx_list, sign_tx_list}
use proxy_model_py.Solana.ListSender.Calls.{
  has_tx_list, no_list_left, receive, send_impl, send_round, send_rounds,
}
use proxy_model_py.Solana.ListSender.Leaves.{
  OnlyIn, get_tx_list_for_send-leaves, get_tx_list_for_send-was,
}

-- No state of the status `k` is kept.
abbrev pub IsAbsent : Status → Sender → Type 0
IsAbsent k s = Dict.get s.tx_state_list_dict k ≡ none

append_state-absent :
    (tx_state : SolTxSendState) (d : Dict Status (List SolTxSendState)) (k : Status)
    → (tx_state.status == k) ≡ false
    → Dict.get d k ≡ none
    → Dict.get (append_state tx_state d) k ≡ none
unfolding append_state
append_state-absent tx_state d k other absent = ground (
  arith,
  Dict.get-put d tx_state.status k (list_of d tx_state.status ++ (tx_state ∷ [])),
  other,
  absent,
)

keep_state-IsAbsent :
    (tx_state : SolTxSendState) (k : Status) (s s' : Sender) (u : Unit)
    → (tx_state.status == k) ≡ false
    → IsAbsent k s
    → keep_state tx_state s ≡ returned u s'
    → IsAbsent k s'
unfolding keep_state
keep_state-IsAbsent tx_state k s s' u other absent h =
    let (tx_sig, s1, signed, kept) = ▷-eq-returned (lift (sig (s.heap tx_state.tx)) s) _ h in
    subst (IsAbsent k) (returned_inj kept) (
      append_state-absent tx_state s1.tx_state_list_dict k other
        (subst (IsAbsent k) (lift-eq-returned (sig (s.heap tx_state.tx)) signed).1 absent))

-- A receipt that is there is never waited for.
decode_result-status :
    (p : SolTxErrorParser) → ((decode_result p).tx_status == wait_for_receipt) ≡ false
unfolding decode_result decode_slots decode_checks decode_last status_beq
decode_result-status p = ground arith

note_block_hash-keeps :
    (ref : TxRef) (p : SolTxErrorParser) (s : Sender)
    → (note_block_hash ref p s).tx_state_list_dict ≡ s.tx_state_list_dict
unfolding note_block_hash add_bad_block_hash
note_block_hash-keeps ref p s = ground arith

add_tx_state-IsAbsent :
    (ref : TxRef) (receipt : Option SolTxReceipt) (s s' : Sender) (u : Unit)
    → IsAbsent wait_for_receipt s
    → add_tx_state ref receipt no_receipt_error s ≡ returned u s'
    → IsAbsent wait_for_receipt s'
unfolding add_tx_state new_state status_beq
add_tx_state-IsAbsent ref none s s' u absent h =
    keep_state-IsAbsent (new_state ref none (decoded no_receipt_error none) s) wait_for_receipt s s'
      u refl absent h
add_tx_state-IsAbsent ref (some receipt) s s' u absent h =
    keep_state-IsAbsent
      (new_state ref (some receipt) (decode_result receipt.parser)
        (note_block_hash ref receipt.parser s))
      wait_for_receipt (note_block_hash ref receipt.parser s) s' u
      (decode_result-status receipt.parser)
      (ap (λ d. Dict.get d wait_for_receipt) (note_block_hash-keeps ref receipt.parser s) ∙ absent)
      h

add_tx_states-IsAbsent :
    (refs : List TxRef) (receipts : List (Option SolTxReceipt)) (s s' : Sender) (u : Unit)
    → IsAbsent wait_for_receipt s
    → add_tx_states refs receipts no_receipt_error s ≡ returned u s'
    → IsAbsent wait_for_receipt s'
unfolding add_tx_states
add_tx_states-IsAbsent [] receipts s s' u absent h =
    subst (IsAbsent wait_for_receipt) (returned_inj h) absent
add_tx_states-IsAbsent (ref ∷ refs) [] s s' u absent h =
    subst (IsAbsent wait_for_receipt) (returned_inj h) absent
add_tx_states-IsAbsent (ref ∷ refs) (receipt ∷ receipts) s s' u absent h =
    let (u1, s1, first, rest) = ▷-eq-returned (add_tx_state ref receipt no_receipt_error s) _ h in
    add_tx_states-IsAbsent refs receipts s1 s' u
      (add_tx_state-IsAbsent ref receipt s s1 u1 absent first) rest

pub sig_list-keeps :
    (refs : List TxRef) (s s' : Sender) (sigs : List String)
    → sig_list refs s ≡ returned sigs s'
    → s ≡ s'
unfolding sig_list
sig_list-keeps [] s s' sigs h = returned_inj h
sig_list-keeps (ref ∷ refs) s s' sigs h =
    let (tx_sig, s1, first, more) = ▷-eq-returned (lift (sig (s.heap ref)) s) _ h in
    let (others, s2, rest, last) = ▷-eq-returned (sig_list refs s1) _ more in
    (lift-eq-returned (sig (s.heap ref)) first).1
    ∙ sig_list-keeps refs s1 s2 others rest
    ∙ returned_inj last

wait_for-IsAbsent :
    (e : Env) (waiting : Option (List SolTxSendState)) (s s' : Sender) (u : Unit)
    → IsAbsent wait_for_receipt s
    → wait_for e waiting s ≡ returned u s'
    → IsAbsent wait_for_receipt s'
unfolding get_tx_receipt_list called
wait_for-IsAbsent e none s s' u absent h = subst (IsAbsent wait_for_receipt) (returned_inj h) absent
wait_for-IsAbsent e (some list) s s' u absent h =
    let (sigs, s1, signed, received) = ▷-eq-returned (sig_list (tx_refs list) s) _ h in
    add_tx_states-IsAbsent (tx_refs list) _ _ s' u
      (subst (IsAbsent wait_for_receipt) (sig_list-keeps (tx_refs list) s s1 sigs signed) absent)
      received

wait_for_tx_receipt_list-IsAbsent :
    (e : Env) (s s' : Sender) (u : Unit)
    → wait_for_tx_receipt_list e s ≡ returned u s'
    → IsAbsent wait_for_receipt s'
unfolding wait_for_tx_receipt_list
wait_for_tx_receipt_list-IsAbsent e s s' u h =
    wait_for-IsAbsent e (Dict.get s.tx_state_list_dict wait_for_receipt) _ s' u
      (Dict.get-remove_self s.tx_state_list_dict wait_for_receipt) h

-- `SolTxSendState.Status` of the states that are left when the sending is over.
abbrev pub settled_tx_status_set : List Status
settled_tx_status_set = good_receipt ∷ account_already_exists_error ∷ already_finalized_error ∷ []

-- No transaction is left to be sent, and each has a good receipt, or its account exists already; unless
-- the Neon transaction was finalized by another.
abbrev pub IsSettled : Sender → Type 0
IsSettled s =
    (has_tx_list s ≡ false)
    × ((Dict.contains s.tx_state_list_dict already_finalized_error ≡ true)
        ⊎ OnlyIn settled_tx_status_set s)

OnlyIn-settled :
    (s : Sender)
    → IsAbsent wait_for_receipt s
    → OnlyIn completed_tx_status_set s
    → OnlyIn settled_tx_status_set s
unfolding is_in
OnlyIn-settled s absent only status present = elim (Bool-cases (wait_for_receipt == status)) [
  | inl same ↦ absurd (
      present (
        subst (λ x. Dict.get s.tx_state_list_dict x ≡ none)
          ((status_eq.same_iff wait_for_receipt status).0 same) absent))
  | inr other ↦ ground (arith, other, only status present)
]

IsAbsent-still :
    (k : Status) (s s' : Sender)
    → IsAbsent k s
    → (Dict.get s'.tx_state_list_dict k ≢ none → Dict.get s.tx_state_list_dict k ≢ none)
    → IsAbsent k s'
IsAbsent-still k s s' absent was = elim (Option-cases (Dict.get s'.tx_state_list_dict k)) [
  | inl gone ↦ gone
  | inr (list, there) ↦ absurd (was (λ gone. absurd cc) absent)
]

-- A round that leaves no transaction to be sent has settled all.
receive-IsSettled :
    (e : Env) (s s' : Sender) (u : Unit)
    → receive e s ≡ returned u s'
    → has_tx_list s' ≡ false
    → IsSettled s'
unfolding receive
receive-IsSettled e s s' u h no_more = elim (if-eq (has_tx_list s) h) [
  | inl (more, left) ↦ absurd (ground (arith, more, no_more, ap has_tx_list (returned_inj left)))
  | inr (waits, left) ↦
      let (u1, s1, waited, taken) = ▷-eq-returned (wait_for_tx_receipt_list e s) _ left in
      let absent =
        IsAbsent-still wait_for_receipt s1 s' (wait_for_tx_receipt_list-IsAbsent e s s1 u1 waited)
          (get_tx_list_for_send-was e s1 s' u taken wait_for_receipt) in
      (
        no_more,
        elim (get_tx_list_for_send-leaves e s1 s' u taken) [
          | inl over ↦ inl over
          | inr only ↦ inr (OnlyIn-settled s' absent only)
        ],
      )
]

send_round-IsSettled :
    (e : Env) (s s' : Sender) (u : Unit)
    → send_round e s ≡ returned u s'
    → has_tx_list s' ≡ false
    → IsSettled s'
unfolding send_round
send_round-IsSettled e s s' u h =
    let (u1, s1, before, received) =
      ▷-eq-returned (sign_tx_list e s ▷ (λ u s. send_tx_list e s) ▷ λ u s. get_tx_list_for_send e s)
        _ h in
    receive-IsSettled e s1 s' u received

send_rounds-IsSettled :
    (e : Env) (left : ℕ) (s s' : Sender) (u : Unit)
    → (has_tx_list s ≡ false → IsSettled s)
    → send_rounds e left s ≡ returned u s'
    → IsSettled s'
unfolding send_rounds no_list_left
send_rounds-IsSettled e zero s s' u h ran = elim (if-eq (has_tx_list s) ran) [
  | inl (more, left) ↦ absurd cc
  | inr (over, left) ↦ subst IsSettled (returned_inj left) (h over)
]
send_rounds-IsSettled e (suc left) s s' u h ran = elim (if-eq (has_tx_list s) ran) [
  | inl (more, round) ↦
      let (u1, s1, sent, rest) = ▷-eq-returned (send_round e s) _ round in
      send_rounds-IsSettled e left s1 s' u (send_round-IsSettled e s s1 u1 sent) rest
  | inr (over, left) ↦ elim (if-eq (has_tx_list s) left) [
    | inl (more, stopped) ↦ absurd cc
    | inr (over1, stopped) ↦ subst IsSettled (returned_inj stopped) (h over1)
  ]
]

pub send_impl-IsSettled :
    (e : Env) (s s' : Sender) (u : Unit)
    → has_tx_list s ≡ true
    → send_impl e s ≡ returned u s'
    → IsSettled s'
unfolding send_impl
send_impl-IsSettled e s s' u has ran =
    send_rounds-IsSettled e e.retry_on_fail s s' u (λ over. absurd (ground (arith, has, over))) ran
