-- ===== src/Solana/ListSender/Leaves.antt =====
-- What `_get_tx_list_for_send` of `SolTxListSender` (proxy/common_neon/solana_tx_list_sender.py) leaves of
-- the dict of states by status.
use proxy_model_py.Base.{
  ◌≡◌, ◌≢◌, refl, sym, ◌∙◌, subst, ◌⊎◌, inl, inr, Bool, true, false, Option, none, some, List, [],
  ◌∷◌, ◌==◌, is_in, if◌then◌else◌, if-eq, Bool-cases, arith,
}
use proxy_model_py.Dict
use proxy_model_py.Dict.{Dict}
use proxy_model_py.Solana.ListSender.Status.{
  Status, all_statuses, already_finalized_error, completed_tx_status_set, status_eq, status_list,
}
use proxy_model_py.Solana.ListSender.State.{
  Env, Run, Sender, SolTxSendState, alloc, returned, returned_inj, write, ▷-eq-returned,
}
use proxy_model_py.Solana.ListSender.Receipts.{has_completed_receipt, list_of}
use proxy_model_py.Solana.ListSender.Sending.{
  Check, check_list, check_tx_status_for_send, clone_tx, fail, get_tx_list_for_send, pass, resend,
  resend_statuses, resend_tx, resend_txs, take_status,
}

-- Each status that the sender has transactions in is one of the list.
abbrev pub OnlyIn : List Status → Sender → Type 0
OnlyIn list s =
    (status : Status) → Dict.get s.tx_state_list_dict status ≢ none → is_in status list ≡ true

resend_tx-keeps :
    (e : Env) (tx_state : SolTxSendState) (s : Sender)
    → (resend_tx e tx_state s).tx_state_list_dict ≡ s.tx_state_list_dict
unfolding resend_tx clone_tx alloc write
resend_tx-keeps e tx_state s = ground arith

pub resend_txs-keeps :
    (e : Env) (list : List SolTxSendState) (s : Sender)
    → (resend_txs e list s).tx_state_list_dict ≡ s.tx_state_list_dict
unfolding resend_txs
resend_txs-keeps e [] s = refl
resend_txs-keeps e (tx_state ∷ list) s =
    resend_txs-keeps e list (resend_tx e tx_state s) ∙ resend_tx-keeps e tx_state s

get-remove_kept :
    (d : Dict Status (List SolTxSendState)) (k j : Status)
    → Dict.get (Dict.remove d k) j ≢ none
    → (Dict.get d j ≢ none) × ((k == j) ≡ false)
get-remove_kept d k j h = elim (Bool-cases (k == j)) [
  | inl same ↦ absurd (h (ground (arith, Dict.get-remove d k j)))
  | inr other ↦ (ground (arith, Dict.get-remove d k j), other)
]

check_list-pass :
    (status : Status) (completed : Bool) (list : Option (List SolTxSendState))
    → check_list status completed list ≡ pass
    → list ≡ none
check_list-pass status completed none h = refl
check_list-pass status completed (some list) h = ground (arith, h)

-- A status that passes has no transactions or is a completed one.
check-pass :
    (status : Status) (s : Sender)
    → check_tx_status_for_send status s ≡ pass
    → Dict.get s.tx_state_list_dict status ≢ none
    → is_in status completed_tx_status_set ≡ true
unfolding check_tx_status_for_send
check-pass status s h present = elim (Bool-cases (is_in status completed_tx_status_set)) [
  | inl completed ↦ completed
  | inr other ↦ absurd (
      present (
        check_list-pass status (has_completed_receipt s) (Dict.get s.tx_state_list_dict status) (
          subst
            (λ b.
              (if b
                then pass
                else check_list status (has_completed_receipt s)
                    (Dict.get s.tx_state_list_dict status))
              ≡ pass)
            other h)))
]

-- What the loop over the statuses `list` leaves was there, and of the list only completed statuses.
abbrev Leaves : List Status → Sender → Sender → Type 0
Leaves list s s' =
    (status : Status)
    → Dict.get s'.tx_state_list_dict status ≢ none
    → (Dict.get s.tx_state_list_dict status ≢ none)
      × (is_in status list ≡ true → is_in status completed_tx_status_set ≡ true)

take_status-Leaves :
    (e : Env) (c : Check) (first : Status) (rest : List Status) (next : Sender → Run Unit)
    → ((s s' : Sender) (u : Unit) → next s ≡ returned u s' → Leaves rest s s')
    → (s s' : Sender) (u : Unit) → check_tx_status_for_send first s ≡ c
    → take_status e c first next s ≡ returned u s'
    → Leaves (first ∷ rest) s s'
unfolding take_status is_in
take_status-Leaves e (fail error) first rest next ih s s' u checked h status present = absurd cc
take_status-Leaves e pass first rest next ih s s' u checked h status present =
    let left = ih s s' u h status present in
    (
      left.0,
      λ mem. elim (Bool-cases (first == status)) [
        | inl same ↦
            subst (λ x. is_in x completed_tx_status_set ≡ true)
              ((status_eq.same_iff first status).0 same)
              (check-pass first s checked (
                subst (λ x. Dict.get s.tx_state_list_dict x ≢ none)
                  (sym ((status_eq.same_iff first status).0 same)) left.0))
        | inr other ↦ left.1 (ground (arith, mem))
      ],
    )
take_status-Leaves e resend first rest next ih s s' u checked h status present =
    let (u1, s1, ran, last) =
      ▷-eq-returned (next (resend_txs e (list_of s.tx_state_list_dict first) s)) _ h in
    let kept = get-remove_kept s1.tx_state_list_dict first status (
      subst (λ t. Dict.get t.tx_state_list_dict status ≢ none) (sym (returned_inj last)) present) in
    let left = ih _ s1 u1 ran status kept.0 in
    (
      subst (λ d. Dict.get d status ≢ none)
          (resend_txs-keeps e (list_of s.tx_state_list_dict first) s) left.0,
      λ mem. left.1 (ground (arith, mem, kept.1)),
    )

resend_statuses-Leaves :
    (e : Env) (list : List Status) (s s' : Sender) (u : Unit)
    → resend_statuses e list s ≡ returned u s'
    → Leaves list s s'
unfolding resend_statuses is_in
resend_statuses-Leaves e [] s s' u h status present = (
  subst (λ t. Dict.get t.tx_state_list_dict status ≢ none) (sym (returned_inj h)) present,
  λ mem. ground (arith, mem),
)
resend_statuses-Leaves e (first ∷ rest) s s' u h status present =
    take_status-Leaves e (check_tx_status_for_send first s) first rest (resend_statuses e rest)
      (resend_statuses-Leaves e rest) s s' u refl h status present

-- `_get_tx_list_for_send` returns only when nothing failed for good.
pub get_tx_list_for_send-leaves :
    (e : Env) (s s' : Sender) (u : Unit)
    → get_tx_list_for_send e s ≡ returned u s'
    → (Dict.contains s'.tx_state_list_dict already_finalized_error ≡ true)
      ⊎ OnlyIn completed_tx_status_set s'
unfolding get_tx_list_for_send
get_tx_list_for_send-leaves e s s' u h =
    elim (if-eq (Dict.contains s.tx_state_list_dict already_finalized_error) h) [
      | inl (over, left) ↦ inl (
          subst (λ t. Dict.contains t.tx_state_list_dict already_finalized_error ≡ true)
            (returned_inj left) over)
      | inr (running, left) ↦ inr (λ status present.
          (resend_statuses-Leaves e status_list _ s' u left status present).1 (all_statuses status))
    ]

-- A status that it leaves was there.
pub get_tx_list_for_send-was :
    (e : Env) (s s' : Sender) (u : Unit)
    → get_tx_list_for_send e s ≡ returned u s'
    → (status : Status) → Dict.get s'.tx_state_list_dict status ≢ none
    → Dict.get s.tx_state_list_dict status ≢ none
unfolding get_tx_list_for_send
get_tx_list_for_send-was e s s' u h status present =
    elim (if-eq (Dict.contains s.tx_state_list_dict already_finalized_error) h) [
      | inl (over, left) ↦
          subst (λ t. Dict.get t.tx_state_list_dict status ≢ none) (sym (returned_inj left)) present
      | inr (running, left) ↦ (resend_statuses-Leaves e status_list _ s' u left status present).0
    ]
