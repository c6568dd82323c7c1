-- ===== src/Solana/ListSender/Given.antt =====
-- What `_sign_tx_list` of `SolTxListSender` (proxy/common_neon/solana_tx_list_sender.py) leaves as it is.
use proxy_model_py.Base.{
  ◌≡◌, refl, sym, ap, ◌∙◌, subst, inl, inr, List, [], ◌∷◌, ◌==◌, if-eq, Bool-cases, arith, nat_eq,
  is_in, none, some, Option, String, option_eq, string_eq,
}
use proxy_model_py.Dict
use proxy_model_py.Solana.Tx.{
  sign, SolTx, Solders, set_recent_block_hash, set_fee_payer, build_legacy_tx, pays, fee_payer,
  decode_ix_list,
}
use proxy_model_py.Solana.ListSender.Status.{status_eq}
use proxy_model_py.Solana.ListSender.State.{
  Env, Sender, TxRef, called, returned, returned_inj, write, ▷-eq-returned,
}
use proxy_model_py.Solana.ListSender.Sending.{
  get_block_hash, kept_block_hash, new_block_hash, forget_sig, sign_without, sign_tx, sign_txs,
  sign_tx_list,
}
use proxy_model_py.Solana.ListSender.Resending.{IsTracked}

-- What signing leaves as it is.
pub record Same (s s' : Sender) : Type 0 where
  list : s'.tx_list ≡ s.tx_list
  states : s'.tx_state_list_dict ≡ s.tx_state_list_dict
  size : s'.heap_size ≡ s.heap_size
  cloned : (ref : TxRef) → (s'.heap ref).is_cloned ≡ (s.heap ref).is_cloned

Same-refl : (s : Sender) → Same s s
Same-refl s = record { list = refl; states = refl; size = refl; cloned = λ ref. refl }

Same-trans : (s t u : Sender) → Same s t → Same t u → Same s u
Same-trans s t u a b = record {
  list = b.list ∙ a.list;
  states = b.states ∙ a.states;
  size = b.size ∙ a.size;
  cloned = λ ref. b.cloned ref ∙ a.cloned ref;
}

pub IsTracked-Same : (s s' : Sender) (ref : TxRef) → Same s s' → IsTracked s ref → IsTracked s' ref
IsTracked-Same s s' ref a (small, inl l) = (omega (arith, small, a.size), inl (rw a.list l))
IsTracked-Same s s' ref a (small, inr (inl c)) =
    (omega (arith, small, a.size), inr (inl (a.cloned ref ∙ c)))
IsTracked-Same s s' ref a (small, inr (inr (status, h))) =
    (omega (arith, small, a.size), inr (inr (status, rw a.states h)))

write-Same :
    (ref : TxRef) (tx : SolTx) (s : Sender)
    → tx.is_cloned ≡ (s.heap ref).is_cloned
    → Same s (write ref tx s)
unfolding write
write-Same ref tx s e = record {
  list = refl;
  states = refl;
  size = refl;
  cloned = λ j. elim (Bool-cases (j == ref)) [
    | inl same ↦ rw same (e ∙ ap (λ r. (s.heap r).is_cloned) (sym ((nat_eq.same_iff j ref).0 same)))
    | inr other ↦ rw other refl
  ];
}

sign-is_cloned :
    (lib : Solders) (signer : String) (tx : SolTx) → (sign lib signer tx).is_cloned ≡ tx.is_cloned
unfolding sign set_fee_payer build_legacy_tx
sign-is_cloned lib signer tx = elim (Bool-cases (pays signer (fee_payer lib tx))) [
  | inl paid ↦ rw paid refl
  | inr other ↦ rw other refl
]

unsaved :
    (e : Env) (ref : TxRef) (s : Sender)
    → Same s (
        write ref
          (set_recent_block_hash e.solders none (s.heap ref))
          (record s { tx_state_dict = Dict.remove s.tx_state_dict (s.heap ref).signature }))
unfolding set_recent_block_hash build_legacy_tx
unsaved e ref s =
    let t : Sender = record s {
      tx_state_dict = Dict.remove s.tx_state_dict (s.heap ref).signature;
    } in
    Same-trans s t _ (record { list = refl; states = refl; size = refl; cloned = λ j. refl })
      (write-Same ref _ t refl)

forget_sig-Same : (e : Env) (ref : TxRef) (s : Sender) → Same s (forget_sig e ref s)
unfolding forget_sig set_recent_block_hash build_legacy_tx decode_ix_list
forget_sig-Same e ref s = elim (Bool-cases ((s.heap ref).is_signed)) [
  | inr unsigned ↦ rw unsigned (Same-refl s)
  | inl signed ↦
      rw signed (elim (Bool-cases (is_in ((s.heap ref).recent_block_hash) s.bad_block_hash_set)) [
        | inl bad ↦ rw bad (unsaved e ref s)
        | inr good ↦
            rw good (record { list = refl; states = refl; size = refl; cloned = λ j. refl })
      ])
]

sign_without-Same :
    (e : Env) (hash : String) (ref : TxRef) (old : Option String) (s : Sender)
    → Same s (sign_without e hash ref old s)
unfolding set_recent_block_hash build_legacy_tx
sign_without-Same e hash ref (some old) s = Same-refl s
sign_without-Same e hash ref none s = write-Same ref _ s (sign-is_cloned e.solders e.signer _)

sign_txs-Same :
    (e : Env) (hash : String) (refs : List TxRef) (s : Sender) → Same s (sign_txs e hash refs s)
unfolding sign_txs sign_tx
sign_txs-Same e hash [] s = Same-refl s
sign_txs-Same e hash (ref ∷ refs) s =
    let t = forget_sig e ref s in
    Same-trans s t _ (forget_sig-Same e ref s) (
      Same-trans t (sign_tx e hash ref s) _
        (sign_without-Same e hash ref ((t.heap ref).recent_block_hash) t)
        (sign_txs-Same e hash refs (sign_tx e hash ref s)))

get_block_hash-Same :
    (e : Env) (s s' : Sender) (hash : String) → get_block_hash e s ≡ returned hash s' → Same s s'
unfolding get_block_hash new_block_hash called
get_block_hash-Same e s s' hash h = go _ h
  where
    go :
        (old : Option String)
        → kept_block_hash e old (record s { block_hash = old }) ≡ returned hash s'
        → Same s s'
    go (some old) h =
        subst (Same s) (returned_inj h)
          (record { list = refl; states = refl; size = refl; cloned = λ j. refl })
    go none h =
        elim (if-eq (is_in (some (e.node.get_recent_block_hash s.calls).0) s.bad_block_hash_set)
          h) [
            | inl (bad, stopped) ↦ absurd cc
            | inr (good, left) ↦
                subst (Same s) (returned_inj left)
                  (record { list = refl; states = refl; size = refl; cloned = λ j. refl })
          ]

pub sign_tx_list-Same :
    (e : Env) (s s' : Sender) (u : Unit) → sign_tx_list e s ≡ returned u s' → Same s s'
unfolding sign_tx_list
sign_tx_list-Same e s s' u h =
    let (hash, s1, got, last) = ▷-eq-returned (get_block_hash e s) _ h in
    subst (Same s) (returned_inj last)
      (Same-trans s s1 _ (get_block_hash-Same e s s1 hash got) (sign_txs-Same e hash s1.tx_list s1))
