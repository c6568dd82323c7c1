-- ===== src/Solana/ListSender/Rounds.antt =====
-- No round of `_send_impl` of `SolTxListSender` (proxy/common_neon/solana_tx_list_sender.py) loses one of
-- the transactions that are given to be sent.
use proxy_model_py.Base.{
  ℕ, zero, suc, ◌≡◌, refl, sym, ap, ◌∙◌, subst, ◌⊎◌, inl, inr, true, false, not, List, [], ◌∷◌,
  ◌==◌, if-eq, Bool-cases, arith, nat_eq, is_in, none, some, Option, String, length, is_nil,
  option_eq, string_eq,
}
use proxy_model_py.Dict
use proxy_model_py.Solana.Tx.{sig}
use proxy_model_py.Solana.ListSender.Status.{status_eq, wait_for_receipt}
use proxy_model_py.Solana.ListSender.State.{
  Env, Run, Sender, SolTxSendState, TxRef, called, returned, returned_inj, ▷-eq-returned, lift, ◌▷◌,
}
use proxy_model_py.Solana.ListSender.Receipts.{
  list_of, or_empty, get_tx_receipt_list, sig_list, tx_refs, wait_for, wait_for_tx_receipt_list,
}
use proxy_model_py.Solana.ListSender.Sending.{sign_tx_list, send_tx_list, get_tx_list_for_send}
use proxy_model_py.Solana.ListSender.Calls.{
  has_tx_list, receive, send_round, no_list_left, send_rounds, send_impl,
}
use proxy_model_py.Solana.ListSender.Tracking.{holds, IsHeld, Adds, add_tx_states-Adds}
use proxy_model_py.Solana.ListSender.Resending.{
  IsCloned, IsKnown, IsTracked, get_tx_list_for_send-IsTracked, list_of-remove,
}
use proxy_model_py.Solana.ListSender.Settled.{sig_list-keeps}
use proxy_model_py.Solana.ListSender.Given.{IsTracked-Same, sign_tx_list-Same}
use proxy_model_py.Solana.ListSender.GivenStates.{AnswersAll, IsKnown-Adds, send_tx_list-IsKnown}

value_of :
    {A : Type 0} {a b : A} {s t : Sender} → Path (Run A) (returned a s) (returned b t) → a ≡ b
value_of h = cc

length-sig_list :
    (refs : List TxRef) (s s' : Sender) (sigs : List String)
    → sig_list refs s ≡ returned sigs s'
    → length sigs ≡ length refs
unfolding sig_list
length-sig_list [] s s' sigs h = ap length (sym (value_of h))
length-sig_list (ref ∷ refs) s s' sigs h =
    let (tx_sig, s1, first, more) = ▷-eq-returned (lift (sig (s.heap ref)) s) _ h in
    let (others, s2, rest, last) = ▷-eq-returned (sig_list refs s1) _ more in
    ap length (sym (value_of last)) ∙ ap suc (length-sig_list refs s1 s2 others rest)

tx_refs-is_in :
    (list : List SolTxSendState) (ref : TxRef)
    → holds ref list ≡ true
    → is_in ref (tx_refs list) ≡ true
unfolding is_in
tx_refs-is_in [] ref h = absurd cc
tx_refs-is_in (x ∷ list) ref h = ground (arith, h, tx_refs-is_in list ref)

-- The transactions that wait get their states.
waited-IsKnown :
    (e : Env) (list : List SolTxSendState) (s s' : Sender) (u : Unit)
    → AnswersAll e
    → wait_for e (some list) s ≡ returned u s'
    → Adds s s' × ((ref : TxRef) → holds ref list ≡ true → IsHeld s' ref)
unfolding get_tx_receipt_list called
waited-IsKnown e list s s' u all h =
    let (sigs, s1, signed, received) = ▷-eq-returned (sig_list (tx_refs list) s) _ h in
    let same = sig_list-keeps (tx_refs list) s s1 sigs signed in
    let answers = e.node.get_tx_receipt_list s1.calls sigs in
    let (a, held) =
      add_tx_states-Adds (tx_refs list) answers _ (called s1) s' u
        (all.1 s1.calls sigs ∙ length-sig_list (tx_refs list) s s1 sigs signed) received in
    (
      subst (λ t. Adds t s') (sym same) (record { heap = a.heap; size = a.size; held = a.held }),
      λ ref there. held ref (tx_refs-is_in list ref there),
    )

wait_for_tx_receipt_list-IsKnown :
    (e : Env) (s s' : Sender) (u : Unit) (ref : TxRef)
    → AnswersAll e
    → wait_for_tx_receipt_list e s ≡ returned u s'
    → IsKnown s ref
    → IsKnown s' ref
unfolding wait_for_tx_receipt_list list_of
wait_for_tx_receipt_list-IsKnown e s s' u ref all h (small, known) = go _ refl h known
  where
    nothing :
        holds ref (list_of s.tx_state_list_dict wait_for_receipt) ≡ true
        → Dict.get s.tx_state_list_dict wait_for_receipt ≡ none
        → ⊥
    nothing h gone = ground (arith, subst (λ l. holds ref (or_empty l) ≡ true) gone h)

    go :
        (waiting : Option (List SolTxSendState))
        → Dict.get s.tx_state_list_dict wait_for_receipt ≡ waiting
        → wait_for e waiting
            (record s { tx_state_list_dict = Dict.remove s.tx_state_list_dict wait_for_receipt })
          ≡ returned u s'
        → IsCloned s ref ⊎ IsHeld s ref
        → IsKnown s' ref
    go none at ran (inl cloned) = subst (λ t. IsKnown t ref) (returned_inj ran) (small, inl cloned)
    go none at ran (inr (status, there)) = elim (Bool-cases (wait_for_receipt == status)) [
      | inl this ↦ absurd (
          nothing
            (subst (λ k. holds ref (list_of s.tx_state_list_dict k) ≡ true)
              (sym ((status_eq.same_iff wait_for_receipt status).0 this)) there)
            at)
      | inr other ↦
          subst (λ t. IsKnown t ref) (returned_inj ran)
            (
              small,
              inr (
                status,
                rw (list_of-remove s.tx_state_list_dict wait_for_receipt status other) there,
              ),
            )
    ]
    go (some list) at ran held =
        let (a, all_held) = waited-IsKnown e list _ s' u all ran in
        elim held [
          | inl cloned ↦ IsKnown-Adds _ s' ref a (small, inl cloned)
          | inr (status, there) ↦ elim (Bool-cases (wait_for_receipt == status)) [
            | inl this ↦ (
              omega (arith, small, a.size),
              inr (
                  all_held ref (
                    subst (λ l. holds ref (or_empty l) ≡ true) at
                      (subst (λ k. holds ref (list_of s.tx_state_list_dict k) ≡ true)
                        (sym ((status_eq.same_iff wait_for_receipt status).0 this)) there))),
            )
            | inr other ↦ IsKnown-Adds _ s' ref a (
              small,
              inr (
                status,
                rw (list_of-remove s.tx_state_list_dict wait_for_receipt status other) there,
              ),
            )
          ]
        ]

no_list-IsKnown :
    (s : Sender) (ref : TxRef) → has_tx_list s ≡ false → IsTracked s ref → IsKnown s ref
unfolding has_tx_list is_in
no_list-IsKnown s ref no_more (small, inr known) = (small, known)
no_list-IsKnown s ref no_more (small, inl there) = absurd (empty s.tx_list no_more there)
  where
    empty : (refs : List TxRef) → not (is_nil refs) ≡ false → is_in ref refs ≡ true → ⊥
    empty [] e h = cc
    empty (r ∷ refs) e h = cc

receive-IsTracked :
    (e : Env) (s s' : Sender) (u : Unit) (ref : TxRef)
    → AnswersAll e
    → receive e s ≡ returned u s'
    → IsTracked s ref
    → IsTracked s' ref
unfolding receive
receive-IsTracked e s s' u ref all h tracked = elim (if-eq (has_tx_list s) h) [
  | inl (more, left) ↦ subst (λ t. IsTracked t ref) (returned_inj left) tracked
  | inr (over, left) ↦
      let (u1, s1, waited, taken) = ▷-eq-returned (wait_for_tx_receipt_list e s) _ left in
      get_tx_list_for_send-IsTracked e s1 s' u ref taken (
        wait_for_tx_receipt_list-IsKnown e s s1 u1 ref all waited
          (no_list-IsKnown s ref over tracked))
]

send_round-IsTracked :
    (e : Env) (s s' : Sender) (u : Unit) (ref : TxRef)
    → AnswersAll e
    → send_round e s ≡ returned u s'
    → IsTracked s ref
    → IsTracked s' ref
unfolding send_round
send_round-IsTracked e s s' u ref all h tracked =
    let (u3, s3, before, received) =
      ▷-eq-returned (sign_tx_list e s ▷ (λ u s. send_tx_list e s) ▷ λ u s. get_tx_list_for_send e s)
        _ h in
    let (u2, s2, sent, taken) =
      ▷-eq-returned (sign_tx_list e s ▷ λ u s. send_tx_list e s) _ before in
    let (u1, s1, signed, sending) = ▷-eq-returned (sign_tx_list e s) _ sent in
    receive-IsTracked e s3 s' u ref all received (
      get_tx_list_for_send-IsTracked e s2 s3 u3 ref taken (
        send_tx_list-IsKnown e s1 s2 u2 ref all sending
          (IsTracked-Same s s1 ref (sign_tx_list-Same e s s1 u1 signed) tracked)))

left-IsKnown :
    (s s' : Sender) (u : Unit) (ref : TxRef)
    → no_list_left s ≡ returned u s'
    → IsTracked s ref
    → IsKnown s' ref
unfolding no_list_left
left-IsKnown s s' u ref h tracked = elim (if-eq (has_tx_list s) h) [
  | inl (more, stopped) ↦ absurd cc
  | inr (over, left) ↦
      subst (λ t. IsKnown t ref) (returned_inj left) (no_list-IsKnown s ref over tracked)
]

send_rounds-IsKnown :
    (e : Env) (left : ℕ) (s s' : Sender) (u : Unit) (ref : TxRef)
    → AnswersAll e
    → send_rounds e left s ≡ returned u s'
    → IsTracked s ref
    → IsKnown s' ref
unfolding send_rounds
send_rounds-IsKnown e zero s s' u ref all h tracked = left-IsKnown s s' u ref h tracked
send_rounds-IsKnown e (suc left) s s' u ref all h tracked = elim (if-eq (has_tx_list s) h) [
  | inl (more, round) ↦
      let (u1, s1, sent, rest) = ▷-eq-returned (send_round e s) _ round in
      send_rounds-IsKnown e left s1 s' u ref all rest
        (send_round-IsTracked e s s1 u1 ref all sent tracked)
  | inr (over, done) ↦ left-IsKnown s s' u ref done tracked
]

-- What `_send_impl` is given it has a state of when it returns, or a clone.
pub send_impl-IsKnown :
    (e : Env) (s s' : Sender) (u : Unit) (ref : TxRef)
    → AnswersAll e
    → send_impl e s ≡ returned u s'
    → IsTracked s ref
    → IsKnown s' ref
unfolding send_impl
send_impl-IsKnown e s s' u ref all h tracked =
    send_rounds-IsKnown e e.retry_on_fail s s' u ref all h tracked
