-- ===== src/Solana/ListSender/Signing.antt =====
-- `_sign_tx_list` of `SolTxListSender` (proxy/common_neon/solana_tx_list_sender.py) where no block hash is
-- known to be bad.
use proxy_model_py.Base.{
  ◌≡◌, refl, sym, ap, ◌∙◌, subst, ◌⊎◌, inl, inr, true, false, Option, none, some, List, [], ◌∷◌,
  ◌==◌, is_in, Bool-cases, arith, String, option_eq, nat_eq, All,
}
use proxy_model_py.Solana.Tx.{sign}
use proxy_model_py.Solana.ListSender.State.{Env, Sender, TxRef, write}
use proxy_model_py.Solana.ListSender.Sending.{forget_sig, sign_tx, sign_txs, sign_without}

abbrev pub IsSigned : Sender → TxRef → Type 0
IsSigned s ref = (s.heap ref).is_signed ≡ true

-- `_sign_tx_list` signs a transaction without block hash only.
abbrev pub CanSign : Sender → TxRef → Type 0
CanSign s ref = ((s.heap ref).recent_block_hash ≡ none) ⊎ IsSigned s ref

abbrev pub IsClean : Sender → Type 0
IsClean s = (hash : Option String) → is_in hash s.bad_block_hash_set ≡ false

abbrev pub Keeps : Sender → Sender → Type 0
Keeps s s' =
    (s'.tx_list ≡ s.tx_list)
    × (s'.tx_state_list_dict ≡ s.tx_state_list_dict)
    × (s'.bad_block_hash_set ≡ s.bad_block_hash_set)

-- What signing does for the transactions of others.
abbrev Signs : Sender → Sender → Type 0
Signs s s' =
    ((ref : TxRef) → IsSigned s ref → IsSigned s' ref)
    × ((ref : TxRef) → CanSign s ref → CanSign s' ref)
    × Keeps s s'

forget_sig-Keeps :
    (e : Env) (ref : TxRef) (s : Sender)
    → IsClean s
    → ((forget_sig e ref s).heap ≡ s.heap) × Keeps s (forget_sig e ref s)
unfolding forget_sig
forget_sig-Keeps e ref s clean = elim (Bool-cases ((s.heap ref).is_signed)) [
  | inl signed ↦ rw (signed, clean ((s.heap ref).recent_block_hash)) (refl, (refl, refl, refl))
  | inr unsigned ↦ rw unsigned (refl, (refl, refl, refl))
]

sign_without-Signs :
    (e : Env) (hash : String) (ref : TxRef) (old : Option String) (s : Sender)
    → (s.heap ref).recent_block_hash ≡ old
    → CanSign s ref
    → IsSigned (sign_without e hash ref old s) ref × Signs s (sign_without e hash ref old s)
unfolding write sign
sign_without-Signs e hash ref (some old) s has (inl bare) = absurd cc
sign_without-Signs e hash ref (some old) s has (inr signed) =
    (signed, ((λ j h. h), (λ j h. h), (refl, refl, refl)))
sign_without-Signs e hash ref none s has can = (
  ground arith,
  (
    λ j h. ground (arith, h),
    λ j h. elim (Bool-cases (j == ref)) [
      | inl same ↦ inr (ground (arith, same))
      | inr other ↦ rw other h
    ],
    (refl, refl, refl),
  ),
)

sign_tx-Signs :
    (e : Env) (hash : String) (ref : TxRef) (s : Sender)
    → IsClean s
    → CanSign s ref
    → IsSigned (sign_tx e hash ref s) ref × Signs s (sign_tx e hash ref s)
unfolding sign_tx
sign_tx-Signs e hash ref s clean can =
    let f = forget_sig e ref s in
    let (same, kept) = forget_sig-Keeps e ref s clean in
    let (signed, signs) = sign_without-Signs e hash ref (f.heap ref).recent_block_hash f refl (
      subst (λ h. ((h ref).recent_block_hash ≡ none) ⊎ ((h ref).is_signed ≡ true)) (sym same)
        can) in
    (
      signed,
      (
        λ j h. signs.0 j (subst (λ h. (h j).is_signed ≡ true) (sym same) h),
        λ j h.
            signs.1 j (
              subst (λ h. ((h j).recent_block_hash ≡ none) ⊎ ((h j).is_signed ≡ true)) (sym same)
                h),
        (signs.2.0 ∙ kept.0, signs.2.1 ∙ kept.1, signs.2.2 ∙ kept.2),
      ),
    )

All-map :
    {P Q : TxRef → Type 0}
    → ((ref : TxRef) → P ref → Q ref)
    → (refs : List TxRef) → All P refs
    → All Q refs
All-map f [] all = tt
All-map f (ref ∷ refs) (p, all) = (f ref p, All-map f refs all)

IsClean-Keeps : (s s' : Sender) → IsClean s → Keeps s s' → IsClean s'
IsClean-Keeps s s' clean kept hash = ap (is_in hash) (kept.2) ∙ clean hash

pub sign_txs-signs :
    (e : Env) (hash : String) (refs : List TxRef) (s : Sender)
    → IsClean s
    → All (CanSign s) refs
    → All (IsSigned (sign_txs e hash refs s)) refs
      × ((ref : TxRef) → IsSigned s ref → IsSigned (sign_txs e hash refs s) ref)
      × Keeps s (sign_txs e hash refs s)
unfolding sign_txs
sign_txs-signs e hash [] s clean can = (tt, (λ ref h. h), (refl, refl, refl))
sign_txs-signs e hash (ref ∷ refs) s clean (can, cans) =
    let t = sign_tx e hash ref s in
    let (signed, signs) = sign_tx-Signs e hash ref s clean can in
    let (all, still, kept) =
      sign_txs-signs e hash refs t (IsClean-Keeps s t clean signs.2) (All-map signs.1 refs cans) in
    (
      (still ref signed, all),
      λ j h. still j (signs.0 j h),
      (kept.0 ∙ signs.2.0, kept.1 ∙ signs.2.1, kept.2 ∙ signs.2.2),
    )
