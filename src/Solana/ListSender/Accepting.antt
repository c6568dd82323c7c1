-- ===== src/Solana/ListSender/Accepting.antt =====
-- The parts of a round of `SolTxListSender` (proxy/common_neon/solana_tx_list_sender.py) with a node that
-- takes all transactions in and has a receipt of each.
use proxy_model_py.Base.{
  ℕ, suc, ◌≡◌, refl, sym, ap, ◌∙◌, subst, ◌⊎◌, inl, inr, true, false, Option, none, some, List, [],
  ◌∷◌, Bool-cases, String, string_eq, option_eq, All, map, length, ltb, is_in, nat_eq,
}
use proxy_model_py.Dict
use proxy_model_py.Dict.{Dict}
use proxy_model_py.Solana.Tx.{SolTx}
use proxy_model_py.Solana.ListSender.Status.{
  status_beq, Status, good_receipt, no_receipt_error, status_beq, status_eq, wait_for_receipt,
}
use proxy_model_py.Solana.ListSender.State.{
  Env, Node, Sender, SolTxReceipt, SolTxSendState, TxRef, called, returned, ◌▷◌,
}
use proxy_model_py.Solana.ListSender.Receipts.{add_tx_states}
use proxy_model_py.Solana.ListSender.Sending.{
  flagged, get_block_hash, kept_block_hash, receipt_of, get_tx_list_for_send, new_block_hash,
  send_parts, send_tx_list, sign_tx_list, sign_txs,
}
use proxy_model_py.Solana.ListSender.Signing.{IsSigned, CanSign, IsClean, Keeps, sign_txs-signs}
use proxy_model_py.Solana.ListSender.Filling.{one, AreIn, Answers, add_tx_states-AreIn}

-- The node, as a sender relies on it: nothing is skipped for fuzz testing, each transaction that is sent
-- is taken in, and each that is asked for has a good receipt.
pub record IsReliable (n : Node) : Type 0 where
  pub never_skips : (calls : ℕ) (ref : TxRef) → n.fuzz_skip calls ref ≡ false
  pub takes_all :
      (calls : ℕ) (txs : List SolTx)
      → Answers wait_for_receipt wait_for_receipt txs (map receipt_of (n.send_tx_list calls txs))
  pub has_all :
      (calls : ℕ) (sigs : List String)
      → Answers good_receipt no_receipt_error sigs (n.get_tx_receipt_list calls sigs)

kept_block_hash-returns :
    (e : Env) (hash : Option String) (s : Sender)
    → IsClean s
    → (new : String) × (s' : Sender) × (kept_block_hash e hash s ≡ returned new s')
      × (s'.heap ≡ s.heap)
      × Keeps s s'
unfolding new_block_hash called
kept_block_hash-returns e none s clean = (
  (e.node.get_recent_block_hash s.calls).0,
  record s {
    calls = suc s.calls;
    block_hash = some (e.node.get_recent_block_hash s.calls).0;
    block_hash_dict =
        Dict.put s.block_hash_dict (some (e.node.get_recent_block_hash s.calls).0)
          (e.node.get_recent_block_hash s.calls).1;
  },
  rw (clean (some (e.node.get_recent_block_hash s.calls).0)) refl,
  refl,
  (refl, refl, refl),
)
kept_block_hash-returns e (some hash) s clean = (hash, s, refl, refl, (refl, refl, refl))

get_block_hash-returns :
    (e : Env) (s : Sender)
    → IsClean s
    → (hash : String) × (s' : Sender) × (get_block_hash e s ≡ returned hash s')
      × (s'.heap ≡ s.heap)
      × Keeps s s'
unfolding get_block_hash
get_block_hash-returns e s clean =
    rw (clean s.block_hash) (kept_block_hash-returns e s.block_hash s clean)

pub sign_tx_list-returns :
    (e : Env) (s : Sender)
    → IsClean s
    → All (CanSign s) s.tx_list
    → (s' : Sender) × (sign_tx_list e s ≡ returned tt s') × All (IsSigned s') s.tx_list × Keeps s s'
unfolding sign_tx_list
sign_tx_list-returns e s clean can =
    let (hash, t, got, heap, kept) = get_block_hash-returns e s clean in
    let (signed, still, keeps) =
      sign_txs-signs e hash t.tx_list t (λ h. ap (is_in h) kept.2 ∙ clean h)
        (subst (λ l. All (CanSign t) l) (sym kept.0)
          (subst
            (λ h.
              All (λ ref. ((h ref).recent_block_hash ≡ none) ⊎ ((h ref).is_signed ≡ true))
                s.tx_list)
            (sym heap) can)) in
    (
      sign_txs e hash t.tx_list t,
      ap (λ run. run ▷ λ hash s. returned tt (sign_txs e hash s.tx_list s)) got,
      subst (All (IsSigned (sign_txs e hash t.tx_list t))) kept.0 signed,
      (keeps.0 ∙ kept.0, keeps.1 ∙ kept.1, keeps.2 ∙ kept.2),
    )

flagged-all :
    (e : Env) (calls : ℕ) (refs : List TxRef)
    → IsReliable e.node
    → (flagged false e calls refs ≡ refs) × (flagged true e calls refs ≡ [])
unfolding flagged
flagged-all e calls [] reliable = (refl, refl)
flagged-all e calls (ref ∷ refs) reliable =
    let (all, nothing) = flagged-all e calls refs reliable in
    (
      rw (reliable.never_skips calls ref) (ap (◌∷◌ ref) all),
      rw (reliable.never_skips calls ref) nothing,
    )

Answers-map :
    (k no_receipt_status : Status) (heap : TxRef → SolTx) (refs : List TxRef)
    (receipts : List (Option SolTxReceipt))
    → Answers k no_receipt_status (map heap refs) receipts
    → Answers k no_receipt_status refs receipts
Answers-map k other heap [] [] answers = tt
Answers-map k other heap [] (receipt ∷ receipts) answers = absurd answers
Answers-map k other heap (ref ∷ refs) [] answers = absurd answers
Answers-map k other heap (ref ∷ refs) (receipt ∷ receipts) (same, answers) =
    (same, Answers-map k other heap refs receipts answers)

send_tx_list-all :
    (e : Env) (s : Sender) → IsReliable e.node → send_tx_list e s ≡ send_parts e s.tx_list [] s
unfolding send_tx_list
send_tx_list-all e s reliable =
    let (all, nothing) = flagged-all e s.calls s.tx_list reliable in
    elim (Bool-cases (ltb 1 (length s.tx_list))) [
      | inl several ↦ rw several (rw (all, nothing) refl)
      | inr single ↦ rw single refl
    ]

pub send_tx_list-returns :
    (e : Env) (s : Sender)
    → IsReliable e.node
    → All (IsSigned s) s.tx_list
    → s.tx_state_list_dict ≡ []
    → (s' : Sender) × (send_tx_list e s ≡ returned tt s')
      × All (IsSigned s') s.tx_list
      × AreIn wait_for_receipt s.tx_list s'
unfolding send_parts called add_tx_states
send_tx_list-returns e s reliable signed empty =
    let results = map receipt_of (e.node.send_tx_list s.calls (map s.heap s.tx_list)) in
    let (s', ran, heap, txs, are) =
      add_tx_states-AreIn s.tx_list results wait_for_receipt wait_for_receipt [] (called s) signed
        (Answers-map wait_for_receipt wait_for_receipt s.heap s.tx_list results
          (reliable.takes_all s.calls (map s.heap s.tx_list)))
        ([], empty, refl) in
    (
      s',
      send_tx_list-all e s reliable
          ∙ ap (λ run. run ▷ λ u s. add_tx_states [] [] wait_for_receipt s) ran,
      subst (λ h. All (λ ref. (h ref).is_signed ≡ true) s.tx_list) (sym heap) signed,
      are,
    )

-- Where no receipt is there yet, or all are good, no transaction is sent again.
pub waiting-done :
    (e : Env) (list : List SolTxSendState) (s : Sender)
    → s.tx_state_list_dict ≡ one wait_for_receipt list
    → get_tx_list_for_send e s ≡ returned tt (record s { tx_list = [] })
unfolding get_tx_list_for_send Dict.contains is_in status_beq
waiting-done e [] s dict = rw dict refl
waiting-done e (tx_state ∷ list) s dict = rw dict refl

pub good-done :
    (e : Env) (list : List SolTxSendState) (s : Sender)
    → s.tx_state_list_dict ≡ one good_receipt list
    → get_tx_list_for_send e s ≡ returned tt (record s { tx_list = [] })
unfolding get_tx_list_for_send Dict.contains is_in status_beq
good-done e [] s dict = rw dict refl
good-done e (tx_state ∷ list) s dict = rw dict refl
