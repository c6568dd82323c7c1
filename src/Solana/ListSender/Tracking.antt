-- ===== src/Solana/ListSender/Tracking.antt =====
-- What `SolTxListSender` (proxy/common_neon/solana_tx_list_sender.py) keeps of a transaction between the
-- steps of `_send_impl`: its place among the transactions that are to be sent, or a state.
use proxy_model_py.Base.{
  ◌≡◌, refl, sym, ap, ◌∙◌, subst, inl, inr, Bool, true, false, Option, none, some, List, [], ◌∷◌,
  ◌++◌, ◌==◌, if◌then◌else◌, Bool-cases, arith, nat_eq, string_eq, option_eq, is_in, length, String,
}
use proxy_model_py.Dict
use proxy_model_py.Solana.Tx.{sig}
use proxy_model_py.Solana.ListSender.Status.{Status, status_eq}
use proxy_model_py.Solana.ListSender.State.{
  Sender, SolTxSendState, SolTxReceipt, TxRef, lift, lift-eq-returned, returned, returned_inj,
  ▷-eq-returned,
}
use proxy_model_py.Solana.ListSender.Receipts.{
  add_tx_state, add_tx_states, append_state, keep_state, list_of, new_state, note_block_hash,
  or_empty, add_bad_block_hash,
}

abbrev pub holds : TxRef → List SolTxSendState → Bool
holds ref [] = false
holds ref (tx_state ∷ list) = if tx_state.tx == ref then true else holds ref list

-- The states of status `status` have one of the transaction.
abbrev pub HoldsAt : Sender → TxRef → Status → Type 0
HoldsAt s ref status = holds ref (list_of s.tx_state_list_dict status) ≡ true

holds-append :
    (ref : TxRef) (list : List SolTxSendState) (x : SolTxSendState)
    → holds ref list ≡ true
    → holds ref (list ++ x ∷ []) ≡ true
holds-append ref [] x h = absurd cc
holds-append ref (y ∷ list) x h = ground (arith, h, holds-append ref list x)

holds-last : (list : List SolTxSendState) (x : SolTxSendState) → holds x.tx (list ++ x ∷ []) ≡ true
holds-last [] x = ground (arith, nat_eq.same_iff x.tx x.tx)
holds-last (y ∷ list) x = ground (arith, holds-last list x)

list_of-append_state :
    (x : SolTxSendState) (d : Dict.Dict Status (List SolTxSendState)) (status : Status)
    → list_of (append_state x d) status
      ≡ (if x.status == status then list_of d x.status ++ x ∷ [] else list_of d status)
unfolding list_of append_state
list_of-append_state x d status =
    ap or_empty (Dict.get-put d x.status status (list_of d x.status ++ x ∷ [])) ∙ ground arith

-- States are added, and none is lost.
pub record Adds (s s' : Sender) : Type 0 where
  pub heap : s'.heap ≡ s.heap
  pub size : s'.heap_size ≡ s.heap_size
  pub held : (ref : TxRef) (status : Status) → HoldsAt s ref status → HoldsAt s' ref status

pub Adds-refl : (s : Sender) → Adds s s
Adds-refl s = record { heap = refl; size = refl; held = λ ref status h. h }

pub Adds-trans : (s t u : Sender) → Adds s t → Adds t u → Adds s u
Adds-trans s t u a b = record {
  heap = b.heap ∙ a.heap;
  size = b.size ∙ a.size;
  held = λ ref status h. b.held ref status (a.held ref status h);
}

append_state-held :
    (x : SolTxSendState) (d : Dict.Dict Status (List SolTxSendState)) (ref : TxRef)
    (status : Status)
    → holds ref (list_of d status) ≡ true
    → holds ref (list_of (append_state x d) status) ≡ true
append_state-held x d ref status h =
    rw (list_of-append_state x d status) (elim (Bool-cases (x.status == status)) [
      | inl same ↦
          let e : status ≡ x.status = sym ((status_eq.same_iff x.status status).0 same) in
          rw same (
            holds-append ref (list_of d x.status) x
              (subst (λ k. holds ref (list_of d k) ≡ true) e h))
      | inr other ↦ rw other h
    ])

append_state-last :
    (x : SolTxSendState) (d : Dict.Dict Status (List SolTxSendState))
    → holds x.tx (list_of (append_state x d) x.status) ≡ true
append_state-last x d =
    rw (list_of-append_state x d x.status, (status_eq.same_iff x.status x.status).1 refl)
      (holds-last (list_of d x.status) x)

abbrev kept : SolTxSendState → String → Sender → Sender
kept x tx_sig s = record s {
  tx_state_dict = Dict.put s.tx_state_dict tx_sig x;
  tx_state_list_dict = append_state x s.tx_state_list_dict;
}

keep_state-Adds :
    (x : SolTxSendState) (s s' : Sender) (u : Unit)
    → keep_state x s ≡ returned u s'
    → Adds s s' × HoldsAt s' x.tx x.status
unfolding keep_state
keep_state-Adds x s s' u h =
    let (tx_sig, s1, signed, last) = ▷-eq-returned (lift (sig (s.heap x.tx)) s) _ h in
    let same = (lift-eq-returned (sig (s.heap x.tx)) signed).1 in
    subst (λ t. Adds s t × HoldsAt t x.tx x.status) (returned_inj last)
      (subst (λ s1. Adds s (kept x tx_sig s1) × HoldsAt (kept x tx_sig s1) x.tx x.status) same
        (
          record {
            heap = refl;
            size = refl;
            held = λ ref status. append_state-held x s.tx_state_list_dict ref status;
          },
          append_state-last x s.tx_state_list_dict,
        ))

-- There is a state of the transaction.
abbrev pub IsHeld : Sender → TxRef → Type 0
IsHeld s ref = (status : Status) × HoldsAt s ref status

pub IsHeld-Adds : (s s' : Sender) (ref : TxRef) → Adds s s' → IsHeld s ref → IsHeld s' ref
IsHeld-Adds s s' ref a (status, h) = (status, a.held ref status h)

noted-Adds :
    (ref : TxRef) (receipt : SolTxReceipt) (s : Sender)
    → Adds s (note_block_hash ref receipt.parser s)
unfolding note_block_hash add_bad_block_hash
noted-Adds ref receipt s = record {
  heap = ground arith;
  size = ground arith;
  held = λ j status h. ground (arith, h);
}

add_tx_state-Adds :
    (ref : TxRef) (receipt : Option SolTxReceipt) (none_status : Status) (s s' : Sender) (u : Unit)
    → add_tx_state ref receipt none_status s ≡ returned u s'
    → Adds s s' × IsHeld s' ref
unfolding add_tx_state new_state
add_tx_state-Adds ref none none_status s s' u h =
    let (a, k) = keep_state-Adds _ s s' u h in (a, (_, k))
add_tx_state-Adds ref (some receipt) none_status s s' u h =
    let (a, k) = keep_state-Adds _ _ s' u h in
    (Adds-trans s _ s' (noted-Adds ref receipt s) a, (_, k))

-- With a receipt or none for each of the transactions.
pub add_tx_states-Adds :
    (refs : List TxRef) (receipts : List (Option SolTxReceipt)) (none_status : Status)
    (s s' : Sender) (u : Unit)
    → length receipts ≡ length refs
    → add_tx_states refs receipts none_status s ≡ returned u s'
    → Adds s s' × ((ref : TxRef) → is_in ref refs ≡ true → IsHeld s' ref)
unfolding add_tx_states is_in
add_tx_states-Adds [] receipts none_status s s' u e h =
    (subst (Adds s) (returned_inj h) (Adds-refl s), λ ref there. absurd cc)
add_tx_states-Adds (r ∷ refs) [] none_status s s' u e h = absurd (omega (arith, e))
add_tx_states-Adds (r ∷ refs) (receipt ∷ receipts) none_status s s' u e h =
    let (u1, s1, first, rest) = ▷-eq-returned (add_tx_state r receipt none_status s) _ h in
    let (a, k) = add_tx_state-Adds r receipt none_status s s1 u1 first in
    let (b, ks) = add_tx_states-Adds refs receipts none_status s1 s' u (omega (arith, e)) rest in
    (
      Adds-trans s s1 s' a b,
      λ ref there. elim (Bool-cases (r == ref)) [
        | inl same ↦ subst (IsHeld s') ((nat_eq.same_iff r ref).0 same) (IsHeld-Adds s1 s' r b k)
        | inr other ↦ ks ref (ground (arith, there, other))
      ],
    )
