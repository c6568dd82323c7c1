-- ===== src/Solana/ListSender/Resending.antt =====
-- `_get_tx_list_for_send` of `SolTxListSender` (proxy/common_neon/solana_tx_list_sender.py) loses no
-- transaction: one that had a state has a state, is to be sent, or was replaced by its clone.
use proxy_model_py.Base.{
  ◌≤◌, ◌<◌, ◌≡◌, refl, sym, subst, ◌⊎◌, inl, inr, true, false, List, [], ◌∷◌, ◌++◌, ◌==◌, if-eq,
  Bool-cases, arith, nat_eq, is_in,
}
use proxy_model_py.Dict
use proxy_model_py.Solana.Tx.{clone, mark_cloned, decode_ix_list}
use proxy_model_py.Solana.ListSender.Status.{
  Status, status_eq, status_list, blocked_account_error, already_finalized_error,
}
use proxy_model_py.Solana.ListSender.State.{
  Env, Run, Sender, SolTxSendState, TxRef, alloc, returned, returned_inj, write, ▷-eq-returned,
}
use proxy_model_py.Solana.ListSender.Receipts.{list_of}
use proxy_model_py.Solana.ListSender.Sending.{
  Check, check_tx_status_for_send, clone_tx, append_tx, fail, get_tx_list_for_send, pass, resend,
  resend_statuses, resend_tx, resend_txs, take_status,
}
use proxy_model_py.Solana.ListSender.Leaves.{resend_txs-keeps}
use proxy_model_py.Solana.ListSender.Tracking.{holds, HoldsAt, IsHeld}

abbrev pub IsListed : Sender → TxRef → Type 0
IsListed s ref = is_in ref s.tx_list ≡ true

abbrev pub IsCloned : Sender → TxRef → Type 0
IsCloned s ref = (s.heap ref).is_cloned ≡ true

-- No transaction is lost from one state of the sender to the other.
pub record Grows (s s' : Sender) : Type 0 where
  pub size : s.heap_size ≤ s'.heap_size
  pub listed : (ref : TxRef) → IsListed s ref → IsListed s' ref
  pub cloned : (ref : TxRef) → ref < s.heap_size → IsCloned s ref → IsCloned s' ref
  pub held :
      (ref : TxRef) (status : Status)
      → ref < s.heap_size
      → HoldsAt s ref status
      → IsListed s' ref ⊎ (IsCloned s' ref ⊎ HoldsAt s' ref status)

pub Grows-refl : (s : Sender) → Grows s s
Grows-refl s = record {
  size = omega arith;
  listed = λ ref h. h;
  cloned = λ ref small h. h;
  held = λ ref status small h. inr (inr h);
}

pub Grows-trans : (s t u : Sender) → Grows s t → Grows t u → Grows s u
Grows-trans s t u a b = record {
  size = omega (arith, a.size, b.size);
  listed = λ ref h. b.listed ref (a.listed ref h);
  cloned = λ ref small h. b.cloned ref (omega (arith, small, a.size)) (a.cloned ref small h);
  held = λ ref status small h. elim (a.held ref status small h) [
    | inl l ↦ inl (b.listed ref l)
    | inr (inl c) ↦ inr (inl (b.cloned ref (omega (arith, small, a.size)) c))
    | inr (inr k) ↦ b.held ref status (omega (arith, small, a.size)) k
  ];
}

append-is_in :
    (ref r : TxRef) (refs : List TxRef) → is_in ref refs ≡ true → is_in ref (refs ++ r ∷ []) ≡ true
unfolding is_in
append-is_in ref r [] h = absurd cc
append-is_in ref r (x ∷ refs) h = ground (arith, h, append-is_in ref r refs)

last-is_in : (r : TxRef) (refs : List TxRef) → is_in r (refs ++ r ∷ []) ≡ true
unfolding is_in
last-is_in r [] = ground (arith, nat_eq.same_iff r r)
last-is_in r (x ∷ refs) = ground (arith, last-is_in r refs)

-- A transaction whose state is taken is to be sent again, or there is a clone of it.
abbrev IsTaken : Sender → TxRef → Type 0
IsTaken s ref = IsListed s ref ⊎ IsCloned s ref

listed-Grows : (s : Sender) (r : TxRef) → Grows s (append_tx r s)
listed-Grows s r = record {
  size = omega arith;
  listed = λ ref h. append-is_in ref r s.tx_list h;
  cloned = λ ref small h. h;
  held = λ ref status small h. inr (inr h);
}

clone_tx-Grows :
    (e : Env) (s : Sender) (r : TxRef)
    → let t = clone_tx e r s in
      Grows s (append_tx t.0 t.1) × (r < s.heap_size → IsCloned (append_tx t.0 t.1) r)
unfolding clone_tx alloc write clone mark_cloned
clone_tx-Grows e s r = (
  record {
    size = omega arith;
    listed = λ ref h. append-is_in ref s.heap_size s.tx_list h;
    cloned = λ ref small h. ground (arith, small, h, nat_eq.same_iff ref s.heap_size);
    held = λ ref status small h. inr (inr h);
  },
  λ small. ground (arith, small, nat_eq.same_iff r s.heap_size, nat_eq.same_iff r r),
)

resend_tx-Grows :
    (e : Env) (x : SolTxSendState) (s : Sender)
    → Grows s (resend_tx e x s) × (x.tx < s.heap_size → IsTaken (resend_tx e x s) x.tx)
unfolding resend_tx decode_ix_list
resend_tx-Grows e x s = elim (Bool-cases ((s.heap x.tx).is_cloned)) [
  | inl gone ↦ rw gone (Grows-refl s, λ small. inr gone)
  | inr first ↦ rw first (elim (Bool-cases (x.status == blocked_account_error)) [
    | inl blocked ↦ let (g, c) = clone_tx-Grows e s x.tx in rw blocked (g, λ small. inr (c small))
    | inr other ↦ rw other (listed-Grows s x.tx, λ small. inl (last-is_in x.tx s.tx_list))
  ])
]

IsTaken-Grows :
    (s s' : Sender) (ref : TxRef) → Grows s s' → ref < s.heap_size → IsTaken s ref → IsTaken s' ref
IsTaken-Grows s s' ref g small (inl h) = inl (g.listed ref h)
IsTaken-Grows s s' ref g small (inr h) = inr (g.cloned ref small h)

resend_txs-Grows :
    (e : Env) (list : List SolTxSendState) (s : Sender)
    → Grows s (resend_txs e list s)
      × ((ref : TxRef)
          → ref < s.heap_size
          → holds ref list ≡ true
          → IsTaken (resend_txs e list s) ref)
unfolding resend_txs
resend_txs-Grows e [] s = (Grows-refl s, λ ref small h. absurd cc)
resend_txs-Grows e (x ∷ list) s =
    let t = resend_tx e x s in
    let (g, taken) = resend_tx-Grows e x s in
    let (gs, all) = resend_txs-Grows e list t in
    (
      Grows-trans s t (resend_txs e list t) g gs,
      λ ref small h. elim (Bool-cases (x.tx == ref)) [
        | inl same ↦
            let is : x.tx ≡ ref = (nat_eq.same_iff x.tx ref).0 same in
            let low : x.tx < s.heap_size = subst (λ (r : TxRef). r < s.heap_size) (sym is) small in
            subst (IsTaken (resend_txs e list t)) is (
              IsTaken-Grows t (resend_txs e list t) x.tx gs (omega (arith, low, g.size))
                (taken low))
        | inr other ↦ all ref (omega (arith, small, g.size)) (ground (arith, h, other))
      ],
    )

pub list_of-remove :
    (d : Dict.Dict Status (List SolTxSendState)) (status k : Status)
    → (status == k) ≡ false
    → list_of (Dict.remove d status) k ≡ list_of d k
unfolding list_of
list_of-remove d status k other = rw (Dict.get-remove d status k, other) refl

-- The states of one status are taken away after its transactions are taken.
removed-Grows :
    (s t u : Sender) (status : Status)
    → Grows s t
    → Grows t u
    → t.tx_state_list_dict ≡ s.tx_state_list_dict
    → ((ref : TxRef) → ref < s.heap_size → HoldsAt s ref status → IsTaken t ref)
    → Grows s (record u { tx_state_list_dict = Dict.remove u.tx_state_list_dict status })
removed-Grows s t u status a b same taken = record {
  size = omega (arith, a.size, b.size);
  listed = λ ref h. b.listed ref (a.listed ref h);
  cloned = λ ref small h. b.cloned ref (omega (arith, small, a.size)) (a.cloned ref small h);
  held = λ ref k small h. elim (Bool-cases (status == k)) [
    | inl this ↦
        let at : HoldsAt s ref status =
          subst (HoldsAt s ref) (sym ((status_eq.same_iff status k).0 this)) h in
        elim (IsTaken-Grows t u ref b (omega (arith, small, a.size)) (taken ref small at)) [
          | inl l ↦ inl l
          | inr c ↦ inr (inl c)
        ]
    | inr other ↦
        elim (b.held ref k (omega (arith, small, a.size))
          (subst (λ d. holds ref (list_of d k) ≡ true) (sym same) h)) [
            | inl l ↦ inl l
            | inr (inl c) ↦ inr (inl c)
            | inr (inr at) ↦ inr (inr (rw (list_of-remove u.tx_state_list_dict status k other) at))
          ]
  ];
}

take_status-Grows :
    (e : Env) (c : Check) (status : Status) (next : Sender → Run Unit)
    → ((s s' : Sender) (u : Unit) → next s ≡ returned u s' → Grows s s')
    → (s s' : Sender) (u : Unit) → take_status e c status next s ≡ returned u s'
    → Grows s s'
unfolding take_status
take_status-Grows e (fail error) status next ih s s' u h = absurd cc
take_status-Grows e pass status next ih s s' u h = ih s s' u h
take_status-Grows e resend status next ih s s' u h =
    let list = list_of s.tx_state_list_dict status in
    let t = resend_txs e list s in
    let (u1, s1, ran, last) = ▷-eq-returned (next t) _ h in
    let (g, taken) = resend_txs-Grows e list s in
    subst (Grows s) (returned_inj last)
      (removed-Grows s t s1 status g (ih t s1 u1 ran) (resend_txs-keeps e list s) taken)

resend_statuses-Grows :
    (e : Env) (list : List Status) (s s' : Sender) (u : Unit)
    → resend_statuses e list s ≡ returned u s'
    → Grows s s'
unfolding resend_statuses
resend_statuses-Grows e [] s s' u h = subst (Grows s) (returned_inj h) (Grows-refl s)
resend_statuses-Grows e (status ∷ rest) s s' u h =
    take_status-Grows e (check_tx_status_for_send status s) status (resend_statuses e rest)
      (resend_statuses-Grows e rest) s s' u h

-- A transaction that the sender has a state of, or that it replaced by a clone.
abbrev pub IsKnown : Sender → TxRef → Type 0
IsKnown s ref = (ref < s.heap_size) × (IsCloned s ref ⊎ IsHeld s ref)

-- A transaction that is to be sent or is known.
abbrev pub IsTracked : Sender → TxRef → Type 0
IsTracked s ref = (ref < s.heap_size) × (IsListed s ref ⊎ (IsCloned s ref ⊎ IsHeld s ref))

IsKnown-Grows : (s s' : Sender) (ref : TxRef) → Grows s s' → IsKnown s ref → IsTracked s' ref
IsKnown-Grows s s' ref g (small, inl c) =
    (omega (arith, small, g.size), inr (inl (g.cloned ref small c)))
IsKnown-Grows s s' ref g (small, inr (status, h)) = (
  omega (arith, small, g.size),
  elim (g.held ref status small h) [
    | inl l ↦ inl l
    | inr (inl c) ↦ inr (inl c)
    | inr (inr at) ↦ inr (inr (status, at))
  ],
)

-- A known transaction is to be sent again or is still known.
pub get_tx_list_for_send-IsTracked :
    (e : Env) (s s' : Sender) (u : Unit) (ref : TxRef)
    → get_tx_list_for_send e s ≡ returned u s'
    → IsKnown s ref
    → IsTracked s' ref
unfolding get_tx_list_for_send
get_tx_list_for_send-IsTracked e s s' u ref h known =
    let t : Sender = record s { tx_list = [] } in
    elim (if-eq (Dict.contains s.tx_state_list_dict already_finalized_error) h) [
      | inl (over, left) ↦ subst (λ t. IsTracked t ref) (returned_inj left) (known.0, inr known.1)
      | inr (running, left) ↦
          IsKnown-Grows t s' ref (resend_statuses-Grows e status_list t s' u left) known
    ]
