-- ===== src/Solana/ListSender/GivenStates.antt =====
-- `_send_tx_list` of `SolTxListSender` (proxy/common_neon/solana_tx_list_sender.py) gives each transaction
-- of the list a state.
use proxy_model_py.Base.{
  ℕ, suc, ◌≡◌, refl, ap, ◌∙◌, ◌⊎◌, inl, inr, true, false, List, [], ◌∷◌, ◌==◌, if-eq, Bool-cases,
  arith, nat_eq, is_in, none, String, length, map, ltb, option_eq, string_eq,
}
use proxy_model_py.Solana.Tx.{SolTx}
use proxy_model_py.Solana.ListSender.Status.{status_eq, wait_for_receipt}
use proxy_model_py.Solana.ListSender.State.{Env, Sender, TxRef, called, returned, ▷-eq-returned}
use proxy_model_py.Solana.ListSender.Receipts.{add_tx_states}
use proxy_model_py.Solana.ListSender.Sending.{flagged, receipt_of, nones, send_parts, send_tx_list}
use proxy_model_py.Solana.ListSender.Tracking.{
  IsHeld, Adds, Adds-trans, IsHeld-Adds, add_tx_states-Adds,
}
use proxy_model_py.Solana.ListSender.Resending.{IsKnown, IsTracked}

-- The node answers for each transaction that it is sent or asked for.
abbrev pub AnswersAll : Env → Type 0
AnswersAll e =
    ((calls : ℕ) (txs : List SolTx) → length (e.node.send_tx_list calls txs) ≡ length txs)
    × ((calls : ℕ) (sigs : List String)
        → length (e.node.get_tx_receipt_list calls sigs) ≡ length sigs)

length-map : {A B : Type 0} (f : A → B) (xs : List A) → length (map f xs) ≡ length xs
length-map f [] = refl
length-map f (x ∷ xs) = ap suc (length-map f xs)

pub IsKnown-Adds : (s s' : Sender) (ref : TxRef) → Adds s s' → IsKnown s ref → IsKnown s' ref
IsKnown-Adds s s' ref a (small, inl c) = (omega (arith, small, a.size), inl (rw a.heap c))
IsKnown-Adds s s' ref a (small, inr h) =
    (omega (arith, small, a.size), inr (IsHeld-Adds s s' ref a h))

-- Each of two lists of transactions gets its states.
send_parts-Adds :
    (e : Env) (sent skipped : List TxRef) (s s' : Sender) (u : Unit)
    → AnswersAll e
    → send_parts e sent skipped s ≡ returned u s'
    → Adds (called (record s { tx_list = sent })) s'
      × ((ref : TxRef) → (is_in ref sent ≡ true) ⊎ (is_in ref skipped ≡ true) → IsHeld s' ref)
unfolding send_parts
send_parts-Adds e sent skipped s s' u all h =
    let t = called (record s { tx_list = sent }) in
    let results = e.node.send_tx_list s.calls (map s.heap sent) in
    let enough : length (map receipt_of results) ≡ length sent =
      length-map receipt_of results ∙ all.0 s.calls (map s.heap sent) ∙ length-map s.heap sent in
    let (u1, s1, first, rest) =
      ▷-eq-returned (add_tx_states sent (map receipt_of results) wait_for_receipt t) _ h in
    let (a, held) =
      add_tx_states-Adds sent (map receipt_of results) wait_for_receipt t s1 u1 enough first in
    let (b, more) =
      add_tx_states-Adds skipped (nones skipped) wait_for_receipt s1 s' u
        (length-map (λ ref. none) skipped) rest in
    (
      Adds-trans t s1 s' a b,
      λ ref part. elim part [
        | inl there ↦ IsHeld-Adds s1 s' ref b (held ref there)
        | inr there ↦ more ref there
      ],
    )

flagged-all :
    (e : Env) (calls : ℕ) (refs : List TxRef) (ref : TxRef)
    → is_in ref refs ≡ true
    → (is_in ref (flagged false e calls refs) ≡ true)
      ⊎ (is_in ref (flagged true e calls refs) ≡ true)
unfolding flagged is_in
flagged-all e calls [] ref h = absurd cc
flagged-all e calls (r ∷ refs) ref h = elim (Bool-cases (r == ref)) [
  | inl same ↦ elim (Bool-cases (e.node.fuzz_skip calls r)) [
    | inl skip ↦ inr (ground (arith, skip, same))
    | inr sent ↦ inl (ground (arith, sent, same))
  ]
  | inr other ↦ elim (flagged-all e calls refs ref (ground (arith, h, other))) [
    | inl there ↦ inl (ground (arith, there))
    | inr there ↦ inr (ground (arith, there))
  ]
]

parts-IsKnown :
    (e : Env) (sent skipped : List TxRef) (s s' : Sender) (u : Unit) (ref : TxRef)
    → AnswersAll e
    → (is_in ref s.tx_list ≡ true → (is_in ref sent ≡ true) ⊎ (is_in ref skipped ≡ true))
    → send_parts e sent skipped s ≡ returned u s'
    → IsTracked s ref
    → IsKnown s' ref
unfolding called
parts-IsKnown e sent skipped s s' u ref all split h tracked =
    let (a, held) = send_parts-Adds e sent skipped s s' u all h in
    elim tracked.1 [
      | inl there ↦ (omega (arith, tracked.0, a.size), inr (held ref (split there)))
      | inr known ↦ IsKnown-Adds (called (record s { tx_list = sent })) s' ref a (tracked.0, known)
    ]

-- `_send_tx_list` gives each transaction of the list a state.
pub send_tx_list-IsKnown :
    (e : Env) (s s' : Sender) (u : Unit) (ref : TxRef)
    → AnswersAll e
    → send_tx_list e s ≡ returned u s'
    → IsTracked s ref
    → IsKnown s' ref
unfolding send_tx_list
send_tx_list-IsKnown e s s' u ref all h tracked = elim (if-eq (ltb 1 (length s.tx_list)) h) [
  | inl (many, sent) ↦
      parts-IsKnown e _ _ s s' u ref all (flagged-all e s.calls s.tx_list ref) sent tracked
  | inr (one, sent) ↦ parts-IsKnown e s.tx_list [] s s' u ref all (λ there. inl there) sent tracked
]
