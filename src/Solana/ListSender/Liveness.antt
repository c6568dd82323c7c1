-- ===== src/Solana/ListSender/Liveness.antt =====
-- `send` of `SolTxListSender` (proxy/common_neon/solana_tx_list_sender.py) with a node that takes all
-- transactions in and has a receipt of each.
use proxy_model_py.Base.{
  ℕ, zero, suc, ◌≡◌, refl, sym, ap, ◌∙◌, subst, true, not, Option, some, List, [], ◌∷◌,
  if◌then◌else◌, String, string_eq, All, is_nil, nat_eq,
}
use proxy_model_py.Dict
use proxy_model_py.Solana.Tx.{sig, confirmed}
use proxy_model_py.Solana.ListSender.Status.{
  status_beq, Status, good_receipt, no_receipt_error, status_beq, status_eq, wait_for_receipt,
}
use proxy_model_py.Solana.ListSender.State.{
  Env, Sender, SolTxReceipt, SolTxSendState, TxRef, called, returned, ◌▷◌,
}
use proxy_model_py.Solana.ListSender.Receipts.{
  get_tx_receipt_list, wait_for, tx_refs, sig_list, tx_refs, wait_for, wait_for_tx_receipt_list,
}
use proxy_model_py.Solana.ListSender.Sending.{get_tx_list_for_send, send_tx_list}
use proxy_model_py.Solana.ListSender.Calls.{
  after_sending, has_tx_list, no_list_left, receive, send, send_impl, send_round, send_rounds,
  send_txs, validate_commit_level,
}
use proxy_model_py.Solana.ListSender.Signing.{IsSigned, CanSign, IsClean}
use proxy_model_py.Solana.ListSender.Filling.{one, AreIn, Answers, add_tx_states-AreIn}
use proxy_model_py.Solana.ListSender.Accepting.{
  IsReliable, sign_tx_list-returns, send_tx_list-returns, waiting-done, good-done,
}

Answers-cons :
    {A B : Type 0} (x : A) (y : B) (xs : List A) (ys : List B)
    → ((k no_receipt_status : Status) (receipts : List (Option SolTxReceipt))
        → Answers k no_receipt_status xs receipts
        → Answers k no_receipt_status ys receipts)
    → (k no_receipt_status : Status) (receipts : List (Option SolTxReceipt))
    → Answers k no_receipt_status (x ∷ xs) receipts
    → Answers k no_receipt_status (y ∷ ys) receipts
Answers-cons x y xs ys same k status [] answers = absurd answers
Answers-cons x y xs ys same k status (receipt ∷ receipts) (first, answers) =
    (first, same k status receipts answers)

-- Signed transactions have a signature each.
sig_list-returns :
    (refs : List TxRef) (s : Sender)
    → All (IsSigned s) refs
    → (sigs : List String) × (sig_list refs s ≡ returned sigs s)
      × ((k no_receipt_status : Status) (receipts : List (Option SolTxReceipt))
          → Answers k no_receipt_status sigs receipts
          → Answers k no_receipt_status refs receipts)
unfolding sig_list sig
sig_list-returns [] s signed = ([], refl, λ k status receipts answers. answers)
sig_list-returns (ref ∷ refs) s (signed, all) =
    let (sigs, ran, same) = sig_list-returns refs s all in
    (
      (s.heap ref).signature ∷ sigs,
      rw signed (ap (λ run. run ▷ λ rest t. returned ((s.heap ref).signature ∷ rest) t) ran),
      Answers-cons (s.heap ref).signature ref sigs refs same,
    )

wait_for-returns :
    (e : Env) (list : List SolTxSendState) (s : Sender)
    → IsReliable e.node
    → All (IsSigned s) (tx_refs list)
    → s.tx_state_list_dict ≡ []
    → (s' : Sender) × (wait_for e (some list) s ≡ returned tt s')
      × AreIn good_receipt (tx_refs list) s'
unfolding get_tx_receipt_list called
wait_for-returns e list s reliable signed empty =
    let (sigs, ran, same) = sig_list-returns (tx_refs list) s signed in
    let receipts = e.node.get_tx_receipt_list s.calls sigs in
    let (s', added, heap, txs, are) =
      add_tx_states-AreIn (tx_refs list) receipts good_receipt no_receipt_error [] (called s) signed
        (same good_receipt no_receipt_error receipts (reliable.has_all s.calls sigs))
        ([], empty, refl) in
    (
      s',
      ap (λ run. run ▷ λ tx_sig_list s. get_tx_receipt_list e tx_sig_list (tx_refs list) s) ran
          ∙ added,
      are,
    )

wait_for_tx_receipt_list-waits :
    (e : Env) (tx_state : SolTxSendState) (list : List SolTxSendState) (s : Sender)
    → s.tx_state_list_dict ≡ one wait_for_receipt (tx_state ∷ list)
    → wait_for_tx_receipt_list e s
      ≡ wait_for e (some (tx_state ∷ list)) (record s { tx_state_list_dict = [] })
unfolding wait_for_tx_receipt_list Dict.get Dict.remove status_beq
wait_for_tx_receipt_list-waits e tx_state list s dict = rw dict refl

receive_lem :
    (e : Env) (s : Sender)
    → s.tx_list ≡ []
    → receive e s ≡ (wait_for_tx_receipt_list e s ▷ λ u s. get_tx_list_for_send e s)
unfolding receive has_tx_list
receive_lem e s none_left = rw none_left refl

receive-returns :
    (e : Env) (first : TxRef) (refs : List TxRef) (s : Sender)
    → IsReliable e.node
    → All (IsSigned s) (first ∷ refs)
    → AreIn wait_for_receipt (first ∷ refs) s
    → s.tx_list ≡ []
    → (s' : Sender) × (receive e s ≡ returned tt s')
      × (s'.tx_list ≡ [])
      × AreIn good_receipt (first ∷ refs) s'
receive-returns e first refs s reliable signed ([], dict, same) none_left = absurd cc
receive-returns e first refs s reliable signed (tx_state ∷ list, dict, same) none_left =
    let waited = record s { tx_state_list_dict = [] } in
    let (t, ran, (list', dict', same')) =
      wait_for-returns e (tx_state ∷ list) waited reliable
        (subst (All (IsSigned s)) (sym same) signed) refl in
    (
      record t { tx_list = [] },
      receive_lem e s none_left
          ∙ ap (λ run. run ▷ λ u s. get_tx_list_for_send e s)
              (wait_for_tx_receipt_list-waits e tx_state list s dict ∙ ran)
          ∙ good-done e list' t dict',
      refl,
      (list', dict', same' ∙ same),
    )

-- A round settles all.
send_round-returns :
    (e : Env) (first : TxRef) (refs : List TxRef) (s : Sender)
    → IsReliable e.node
    → IsClean s
    → s.tx_list ≡ first ∷ refs
    → s.tx_state_list_dict ≡ []
    → All (CanSign s) (first ∷ refs)
    → (s' : Sender) × (send_round e s ≡ returned tt s')
      × (s'.tx_list ≡ [])
      × AreIn good_receipt (first ∷ refs) s'
unfolding send_round
send_round-returns e first refs s reliable clean txs empty can =
    let (t, signed_run, signed, kept) =
      sign_tx_list-returns e s clean (subst (All (CanSign s)) (sym txs) can) in
    let (v, sent_run, signed_v, (list, dict, same)) =
      send_tx_list-returns e t reliable (subst (All (IsSigned t)) (sym kept.0) signed)
        (kept.1 ∙ empty) in
    let w = record v { tx_list = [] } in
    let (s', received_run, over, are) =
      receive-returns e first refs w reliable (subst (All (IsSigned v)) (kept.0 ∙ txs) signed_v)
        (list, dict, same ∙ kept.0 ∙ txs) refl in
    (
      s',
      ap
            (λ run. run ▷ (λ u s. send_tx_list e s) ▷ (λ u s. get_tx_list_for_send e s) ▷ λ u s.
              receive e s)
            signed_run
          ∙ ap (λ run. run ▷ (λ u s. get_tx_list_for_send e s) ▷ λ u s. receive e s) sent_run
          ∙ ap (λ run. run ▷ λ u s. receive e s) (waiting-done e list v dict)
          ∙ received_run,
      over,
      are,
    )

send_rounds-over :
    (e : Env) (left : ℕ) (s : Sender) → s.tx_list ≡ [] → send_rounds e left s ≡ returned tt s
unfolding send_rounds no_list_left has_tx_list
send_rounds-over e zero s over = rw over refl
send_rounds-over e (suc left) s over = rw over refl

validate_commit_level-confirmed :
    (e : Env) (s : Sender) → e.commit_level ≡ confirmed → validate_commit_level e s ≡ returned tt s
unfolding validate_commit_level
validate_commit_level-confirmed e s level = rw level refl

has_tx_list-cons :
    (s : Sender) (first : TxRef) (refs : List TxRef)
    → s.tx_list ≡ first ∷ refs
    → has_tx_list s ≡ true
unfolding has_tx_list
has_tx_list-cons s first refs txs = ap (λ l. not (is_nil l)) txs

-- A round that leaves no transaction to be sent is the last.
send_impl-returns :
    (e : Env) (left : ℕ) (first : TxRef) (refs : List TxRef) (s s' : Sender)
    → e.retry_on_fail ≡ suc left
    → s.tx_list ≡ first ∷ refs
    → send_round e s ≡ returned tt s'
    → s'.tx_list ≡ []
    → send_impl e s ≡ returned tt s'
unfolding send_impl send_rounds
send_impl-returns e left first refs s s' retries txs ran over =
    let has : has_tx_list s ≡ true = has_tx_list-cons s first refs txs in
    ap (λ n. send_rounds e n s) retries
    ∙ ap (λ b. if b then (send_round e s ▷ λ u s. send_rounds e left s) else no_list_left s) has
    ∙ ap (λ run. run ▷ λ u s. send_rounds e left s) ran
    ∙ send_rounds-over e left s' over

send-eq-send_txs :
    (e : Env) (first : TxRef) (refs : List TxRef) (s : Sender)
    → s.tx_list ≡ []
    → send e (first ∷ refs) s ≡ send_txs e (record s { tx_list = first ∷ refs })
unfolding send has_tx_list
send-eq-send_txs e first refs s none_left = rw none_left refl

-- Where the level of a receipt is enough and a retry is allowed, a new sender with a node that takes all
-- transactions in and has a good receipt of each returns true, and each transaction has a good receipt.
-- The transactions are signed or without block hash, and no block hash is known to be bad.
pub send-returns :
    (e : Env) (left : ℕ) (first : TxRef) (refs : List TxRef) (s : Sender)
    → IsReliable e.node
    → e.retry_on_fail ≡ suc left
    → e.commit_level ≡ confirmed
    → IsClean s
    → s.tx_list ≡ []
    → s.tx_state_list_dict ≡ []
    → All (CanSign s) (first ∷ refs)
    → (s' : Sender) × (send e (first ∷ refs) s ≡ returned true s')
      × AreIn good_receipt (first ∷ refs) s'
unfolding send_txs after_sending
send-returns e left first refs s reliable retries level clean none_left empty can =
    let t = record s { tx_list = first ∷ refs } in
    let (s', ran, over, are) = send_round-returns e first refs t reliable clean refl empty can in
    let sent = send_impl-returns e left first refs t s' retries refl ran over in
    (
      s',
      send-eq-send_txs e first refs s none_left
          ∙ ap (λ run. after_sending e (run ▷ λ u s. validate_commit_level e s)) sent
          ∙ ap (after_sending e) (validate_commit_level-confirmed e s' level),
      are,
    )
