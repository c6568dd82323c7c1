-- ===== src/Mempool/Schedule/DropLast.antt =====
-- Dropping the last request of a pool's queue with `_drop_tx_from_sender_pool` of `MPTxSchedule` of
-- proxy/mempool/mempool_schedule.py.
use proxy_model_py.Base.{
  ℕ, ◌≤◌, ◌<◌, ◌≡◌, refl, sym, ap, subst, ◌∙◌, true, false, List, [], ◌∷◌, arith, some, none, ok,
  All, String, string_eq, nat_eq, ◌==◌, if◌then◌else◌, length, inl, inr, Bool-cases, Bool, ltb,
  ◌||◌, leb, last?, get_elem?,
}
use proxy_model_py.Dict
use proxy_model_py.SortedQueue.{remove_at}
use proxy_model_py.SortedQueue.Contents.{remove_at-IsSorted, All-remove_at}
use proxy_model_py.Mempool.TxRequest.{TxRequest}
use proxy_model_py.Mempool.RequestDict.{RequestDict}
use proxy_model_py.Mempool.RequestDict.Consistency.{IsConsistent}
use proxy_model_py.Mempool.RequestDict.Removal.{
  IsHeld, OtherSigs, pop-IsConsistent, OtherSigs-remove_at, DistinctSigs-remove_at,
}
use proxy_model_py.Mempool.SenderPool.{SenderPool, nonce_key, drop_tx}
use proxy_model_py.Mempool.SenderPool.Processing.{init, get_elem?-last, remove_at-last}
use proxy_model_py.Mempool.Schedule.State.{Schedule, save_pool, drop_tx_from_sender_pool}
use proxy_model_py.Mempool.Schedule.Counts.{at_least, IsKept, pop_item-last}

-- The queues of the schedule are those of another.
pub record SameQueues (s s' : Schedule) : Type 0 where
  pub capacity : s'.capacity ≡ s.capacity
  pub queue : s'.sender_pool_queue ≡ s.sender_pool_queue
  pub suspended : s'.suspended_sender_set ≡ s.suspended_sender_set

-- The request `sig` stands in the queue with a nonce below `cnt`.
abbrev pub is_dropped : ℕ → List TxRequest → String → Bool
is_dropped cnt [] sig = false
is_dropped cnt (t ∷ q) sig =
    if t.sig == sig then ltb t.nonce cnt || is_dropped cnt q sig else is_dropped cnt q sig

-- The dict `d'` is what is left of `d` without those requests.
abbrev pub Leaves : RequestDict → RequestDict → ℕ → List TxRequest → Type 0
Leaves d d' cnt q =
    (sig : String)
    → Dict.get d'.tx_hash_dict sig
      ≡ (if is_dropped cnt q sig then none else Dict.get d.tx_hash_dict sig)

at_least-length : (cnt : ℕ) (q : List TxRequest) → length (at_least cnt q) ≤ length q
unfolding at_least
at_least-length cnt [] = omega arith
at_least-length cnt (t ∷ q) = ground (arith, at_least-length cnt q)

abbrev tail : List TxRequest → List TxRequest
tail [] = []
tail (t ∷ q) = q

pub none_dropped :
    (cnt : ℕ) (q : List TxRequest) (sig : String)
    → at_least cnt q ≡ q
    → is_dropped cnt q sig ≡ false
unfolding at_least
none_dropped cnt [] sig e = refl
none_dropped cnt (t ∷ q) sig e = elim (Bool-cases (leb cnt t.nonce)) [
  | inl high ↦
      let same : t ∷ at_least cnt q ≡ t ∷ q = ground (arith, e, high) in
      let ih = none_dropped cnt q sig (ap tail same) in ground (arith, ih, high)
  | inr low ↦ absurd (
      let same : at_least cnt q ≡ t ∷ q = ground (arith, e, low) in
      omega (arith, at_least-length cnt q, ap length same))
]

pub is_dropped-init :
    (cnt : ℕ) (q : List TxRequest) (t : TxRequest) (sig : String)
    → last? q ≡ some t
    → t.nonce < cnt
    → is_dropped cnt q sig ≡ (if t.sig == sig then true else is_dropped cnt (init q) sig)
is_dropped-init cnt [] t sig e h = cc
is_dropped-init cnt (a ∷ []) t sig e h = ground arith
is_dropped-init cnt (a ∷ b ∷ q) t sig e h = ground (arith, is_dropped-init cnt (b ∷ q) t sig e h)

init-remove_at :
    (q : List TxRequest) (t : TxRequest)
    → last? q ≡ some t
    → (i : ℕ) × (init q ≡ remove_at i q) × (get_elem? q i ≡ some t)
init-remove_at [] t e = cc
init-remove_at (b ∷ q) t e = (length q, sym (remove_at-last b q), get_elem?-last b q ∙ e)

IsHeld-after :
    (d d' : RequestDict) (t : TxRequest) (q : List TxRequest)
    → ((sig : String)
        → Dict.get d'.tx_hash_dict sig
          ≡ (if t.sig == sig then none else Dict.get d.tx_hash_dict sig))
    → OtherSigs t q
    → All (λ b. IsHeld d b b) q
    → All (λ b. IsHeld d' b b) q
IsHeld-after d d' t [] look n h = tt
IsHeld-after d d' t (b ∷ q) look n h = (
  record {
    found = ground (arith, look b.sig, string_eq.same_iff t.sig b.sig, h.0.found, n.0);
    sender = refl;
    nonce = refl;
    price = refl;
  },
  IsHeld-after d d' t q look n.1 h.1,
)

pub last-held :
    (P : TxRequest → Type 0) (q : List TxRequest) (t : TxRequest) → last? q ≡ some t → All P q → P t
last-held P [] t e h = cc
last-held P (a ∷ []) t e h = let e' : a ≡ t = ground arith in subst P e' h.0
last-held P (a ∷ b ∷ q) t e h = last-held P (b ∷ q) t e h.1

pub SameQueues-save_pool :
    (s : Schedule) (p : SenderPool) (d : RequestDict)
    → SameQueues s (save_pool (record s { tx_dict = d }) p)
      × ((save_pool (record s { tx_dict = d }) p).tx_dict ≡ d)
unfolding save_pool
SameQueues-save_pool s p d = (
  record { capacity = ground arith; queue = ground arith; suspended = ground arith },
  ground arith,
)

-- Dropping the last request of a pool's queue returns.
pub drop_last :
    (s : Schedule) (p : SenderPool) (t : TxRequest)
    → IsConsistent s.tx_dict
    → IsKept s.tx_dict p.tx_nonce_queue
    → p.processing_tx ≡ none
    → last? p.tx_nonce_queue ≡ some t
    → (s' : Schedule) × (drop_tx_from_sender_pool s p t
        ≡ ok (s', record p { tx_nonce_queue = init p.tx_nonce_queue }))
      × IsConsistent s'.tx_dict
      × IsKept s'.tx_dict (init p.tx_nonce_queue)
      × SameQueues s s'
      × ((sig : String)
          → Dict.get s'.tx_dict.tx_hash_dict sig
            ≡ (if t.sig == sig then none else Dict.get s.tx_dict.tx_hash_dict sig))
      × (s'
          ≡ save_pool
              (record s { tx_dict = s'.tx_dict })
              (record p { tx_nonce_queue = init p.tx_nonce_queue }))
unfolding drop_tx_from_sender_pool drop_tx
drop_last s p t c k idle last =
    let q = p.tx_nonce_queue in
    let (i, e, at) = init-remove_at q t last in
    let (d, popped, dc, cnt, look, look') =
      pop-IsConsistent s.tx_dict t t c (last-held (λ b. IsHeld s.tx_dict b b) q t last k.held) in
    let p' : SenderPool = record p { tx_nonce_queue = init q } in
    let (same, dict) = SameQueues-save_pool s p' d in
    let others : OtherSigs t (init q) = rw e (OtherSigs-remove_at i q t k.distinct at) in
    let held : All (λ b. IsHeld s.tx_dict b b) (init q) =
      rw e (All-remove_at (λ b. IsHeld s.tx_dict b b) i q k.held) in
    (
      save_pool (record s { tx_dict = d }) p',
      rw (idle, pop_item-last q t k.sorted k.distinct last, popped) refl,
      rw dict dc,
      rw dict (record {
        sorted = rw e (remove_at-IsSorted nonce_key i q k.sorted);
        distinct = rw e (DistinctSigs-remove_at i q k.distinct);
        held = IsHeld-after s.tx_dict d t (init q) look others held;
      }),
      same,
      λ sig. ap (λ (x : RequestDict). Dict.get x.tx_hash_dict sig) dict ∙ look sig,
      ap (λ x. save_pool (record s { tx_dict = x }) p') (sym dict),
    )
