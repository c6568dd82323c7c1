-- ===== src/Mempool/Schedule/DropBelow.antt =====
-- The loop of `_set_sender_tx_cnt` of `MPTxSchedule` of proxy/mempool/mempool_schedule.py returns, and
-- drops exactly the requests whose nonces are used up.
use proxy_model_py.Base.{
  ℕ, zero, suc, ◌≤◌, ◌<◌, ◌≡◌, ◌≢◌, refl, ap, ◌∙◌, true, false, List, [], ◌∷◌, arith, some, none,
  Result, ok, ◌≤ℤ◌, All, String, string_eq, nat_eq, ◌==◌, if◌then◌else◌, length, inl, inr,
  Bool-cases, leb, last?,
}
use proxy_model_py.Dict
use proxy_model_py.SortedQueue.Order.{IsSorted}
use proxy_model_py.Mempool.TxRequest.{TxRequest}
use proxy_model_py.Mempool.RequestDict.{RequestDict}
use proxy_model_py.Mempool.RequestDict.Consistency.{IsConsistent}
use proxy_model_py.Mempool.SenderPool.{
  SenderPool, State, nonce_key, drop_tx, top_tx, is_empty, state_beq,
}
use proxy_model_py.Mempool.SenderPool
use proxy_model_py.Mempool.SenderPool.States.{top_tx-cases}
use proxy_model_py.Mempool.SenderPool.Processing.{init}
use proxy_model_py.Mempool.Schedule.State.{Schedule, save_pool, drop_tx_from_sender_pool}
use proxy_model_py.Mempool.Schedule.Sync.{drop_below, set_sender_tx_cnt}
use proxy_model_py.Mempool.Schedule.Counts.{at_least, IsKept}
use proxy_model_py.Mempool.Schedule.DropLast.{
  SameQueues, SameQueues-save_pool, Leaves, is_dropped-init, none_dropped, last-held, drop_last,
}

nil_of_last : (q : List TxRequest) → last? q ≡ none → q ≡ []
nil_of_last [] e = refl
nil_of_last (a ∷ []) e = cc
nil_of_last (a ∷ b ∷ q) e = absurd (more b q e)
  where
    more : (b : TxRequest) (q : List TxRequest) → last? (b ∷ q) ≡ none → ⊥
    more b [] e = cc
    more b (c ∷ q) e = more c q e

-- If the last nonce is high enough, all are.
at_least_all :
    (cnt : ℕ) (q : List TxRequest) (t : TxRequest)
    → IsSorted nonce_key q
    → last? q ≡ some t
    → cnt ≤ t.nonce
    → at_least cnt q ≡ q
unfolding at_least
at_least_all cnt [] t s e h = refl
at_least_all cnt (a ∷ []) t s e h = ground arith
at_least_all cnt (a ∷ b ∷ q) t s e h =
    let ih = at_least_all cnt (b ∷ q) t s.1 e h in
    let le : t.nonce ≤ a.nonce =
      last-held (λ (c : TxRequest). c.nonce ≤ a.nonce) (b ∷ q) t e (nonce_le a (b ∷ q) s.0) in
    ground (arith, ih, le)
  where
    nonce_le :
        (a : TxRequest) (q : List TxRequest)
        → All (λ c. nonce_key a ≤ℤ nonce_key c) q
        → All (λ (c : TxRequest). c.nonce ≤ a.nonce) q
    nonce_le a [] h = tt
    nonce_le a (c ∷ q) h = (ground arith, nonce_le a q h.1)

-- A last request whose nonce is used up does not count.
at_least-init :
    (cnt : ℕ) (q : List TxRequest) (t : TxRequest)
    → last? q ≡ some t
    → t.nonce < cnt
    → at_least cnt (init q) ≡ at_least cnt q
unfolding at_least
at_least-init cnt [] t e h = refl
at_least-init cnt (a ∷ []) t e h = ground arith
at_least-init cnt (a ∷ b ∷ q) t e h = ground (arith, at_least-init cnt (b ∷ q) t e h)

length-init :
    (q : List TxRequest) (t : TxRequest) → last? q ≡ some t → suc (length (init q)) ≡ length q
length-init [] t e = cc
length-init (a ∷ []) t e = refl
length-init (a ∷ b ∷ q) t e = ap suc (length-init (b ∷ q) t e)

-- What the loop owes: it returns, with the pool's queue cut to the nonces from `cnt` on.
abbrev pub Cuts : Schedule → SenderPool → ℕ → Result (Schedule × SenderPool) → Type 0
Cuts s p cnt r =
    (s' : Schedule) × (r ≡ ok (s', record p { tx_nonce_queue = at_least cnt p.tx_nonce_queue }))
    × IsConsistent s'.tx_dict
    × IsKept s'.tx_dict (at_least cnt p.tx_nonce_queue)
    × SameQueues s s'
    × Leaves s.tx_dict s'.tx_dict cnt p.tx_nonce_queue

SameQueues-trans : (s t u : Schedule) → SameQueues s t → SameQueues t u → SameQueues s u
SameQueues-trans s t u a b = record {
  capacity = b.capacity ∙ a.capacity;
  queue = b.queue ∙ a.queue;
  suspended = b.suspended ∙ a.suspended;
}

Leaves-init :
    (d d' d'' : RequestDict) (cnt : ℕ) (q : List TxRequest) (t : TxRequest)
    → last? q ≡ some t
    → t.nonce < cnt
    → ((sig : String)
        → Dict.get d'.tx_hash_dict sig
          ≡ (if t.sig == sig then none else Dict.get d.tx_hash_dict sig))
    → Leaves d' d'' cnt (init q)
    → Leaves d d'' cnt q
Leaves-init d d' d'' cnt q t e h look l sig =
    ground (arith, l sig, look sig, is_dropped-init cnt q t sig e h)

Cuts-same :
    (s : Schedule) (p : SenderPool) (cnt : ℕ)
    → at_least cnt p.tx_nonce_queue ≡ p.tx_nonce_queue
    → IsConsistent s.tx_dict
    → IsKept s.tx_dict p.tx_nonce_queue
    → Cuts s p cnt (ok (s, p))
Cuts-same s p cnt e c k = (
  s,
  ground (arith, e),
  c,
  rw e k,
  record { capacity = refl; queue = refl; suspended = refl },
  λ sig. rw (none_dropped cnt p.tx_nonce_queue sig e) refl,
)

drop_below_step :
    (fuel : ℕ) (s s' : Schedule) (p p' : SenderPool) (t : TxRequest) (cnt : ℕ)
    → is_empty p ≡ false
    → top_tx p ≡ ok t
    → t.nonce < cnt
    → drop_tx_from_sender_pool s p t ≡ ok (s', p')
    → drop_below (suc fuel) s p cnt ≡ drop_below fuel s' p' cnt
unfolding drop_below
drop_below_step fuel s s' p p' t cnt e top h d =
    let low : leb cnt t.nonce ≡ false = ground arith in rw (e, top, low, d) refl

drop_below_stop :
    (fuel : ℕ) (s : Schedule) (p : SenderPool) (t : TxRequest) (cnt : ℕ)
    → top_tx p ≡ ok t
    → cnt ≤ t.nonce
    → drop_below (suc fuel) s p cnt ≡ ok (s, p)
unfolding drop_below
drop_below_stop fuel s p t cnt top h = ground arith

drop_below_empty :
    (fuel : ℕ) (s : Schedule) (p : SenderPool) (cnt : ℕ)
    → is_empty p ≡ true
    → drop_below (suc fuel) s p cnt ≡ ok (s, p)
unfolding drop_below
drop_below_empty fuel s p cnt e = rw e refl

-- With more fuel than the pool has requests.
drop_below-Cuts :
    (fuel : ℕ) (s : Schedule) (p : SenderPool) (cnt : ℕ)
    → IsConsistent s.tx_dict
    → IsKept s.tx_dict p.tx_nonce_queue
    → p.processing_tx ≡ none
    → length p.tx_nonce_queue < fuel
    → Cuts s p cnt (drop_below fuel s p cnt)
drop_below-Cuts zero s p cnt c k idle h = absurd (omega arith)
drop_below-Cuts (suc fuel) s p cnt c k idle h = elim (top_tx-cases p) [
  | inl (e, last) ↦
      rw (drop_below_empty fuel s p cnt e)
        (Cuts-same s p cnt (rw (nil_of_last p.tx_nonce_queue last) (unfold at_least in refl)) c k)
  | inr (t, e, last, top) ↦ elim (Bool-cases (leb cnt t.nonce)) [
    | inl enough ↦
        rw (drop_below_stop fuel s p t cnt top (ground arith))
          (Cuts-same s p cnt (at_least_all cnt p.tx_nonce_queue t k.sorted last (ground arith)) c k)
    | inr low ↦
        let (s', dropped, c', k', same, look, _) = drop_last s p t c k idle last in
        let p' : SenderPool = record p { tx_nonce_queue = init p.tx_nonce_queue } in
        let low' : t.nonce < cnt = ground arith in
        let cut = at_least-init cnt p.tx_nonce_queue t last low' in
        let fits = length-init p.tx_nonce_queue t last in
        let (s'', r, c'', k'', same', left) =
          drop_below-Cuts fuel s' p' cnt c' k' idle (omega arith) in
        (
          s'',
          drop_below_step fuel s s' p p' t cnt e top (ground arith) dropped
              ∙ r
              ∙ ap (λ l. ok (s'', record p { tx_nonce_queue = l })) cut,
          c'',
          rw (← cut) k'',
          SameQueues-trans s s' s'' same same',
          Leaves-init s.tx_dict s'.tx_dict s''.tx_dict cnt p.tx_nonce_queue t last low' look left,
        )
  ]
]

pub sender_tx_cnt_idle :
    (p : SenderPool) → p.processing_tx ≡ none → SenderPool.sender_tx_cnt p ≡ ok p.state_tx_cnt
unfolding SenderPool.sender_tx_cnt
sender_tx_cnt_idle p idle = ground arith

set_sender_tx_cnt_step :
    (s s' : Schedule) (p q : SenderPool) (cnt : ℕ)
    → SenderPool.sender_tx_cnt p ≡ ok p.state_tx_cnt
    → (p.state_tx_cnt == cnt) ≡ false
    → state_beq p.state State.processing ≡ false
    → drop_below (suc (length p.tx_nonce_queue)) s p cnt ≡ ok (s', q)
    → set_sender_tx_cnt s p cnt
      ≡ ok (save_pool s' (record q { state_tx_cnt = cnt }), record q { state_tx_cnt = cnt })
unfolding set_sender_tx_cnt SenderPool.set_state_tx_cnt
set_sender_tx_cnt_step s s' p q cnt e n b r = rw (e, n, b, r) refl

-- For a pool that is not processing and whose requests the dict holds, `_set_sender_tx_cnt` with a new
-- count returns. It sets the count and drops exactly the requests with nonces below it, from the pool
-- and from the dict: these signatures are not found there any more, and every other one is found as
-- before. The dict stays consistent; the queues of the schedule are untouched.
pub set_sender_tx_cnt-at_least :
    (s : Schedule) (p : SenderPool) (cnt : ℕ)
    → IsConsistent s.tx_dict
    → IsKept s.tx_dict p.tx_nonce_queue
    → p.processing_tx ≡ none
    → p.state ≢ State.processing
    → p.state_tx_cnt ≢ cnt
    → (s' : Schedule) × (set_sender_tx_cnt s p cnt
        ≡ ok (s', record p { tx_nonce_queue = at_least cnt p.tx_nonce_queue; state_tx_cnt = cnt }))
      × IsConsistent s'.tx_dict
      × IsKept s'.tx_dict (at_least cnt p.tx_nonce_queue)
      × SameQueues s s'
      × Leaves s.tx_dict s'.tx_dict cnt p.tx_nonce_queue
set_sender_tx_cnt-at_least s p cnt c k idle free fresh =
    let (s', r, c', k', same, left) =
      drop_below-Cuts (suc (length p.tx_nonce_queue)) s p cnt c k idle (omega arith) in
    let p' : SenderPool = record p {
      tx_nonce_queue = at_least cnt p.tx_nonce_queue;
      state_tx_cnt = cnt;
    } in
    let (saved, dict) = SameQueues-save_pool s' p' s'.tx_dict in
    let not_same : (p.state_tx_cnt == cnt) ≡ false = ground arith in
    let not_busy : state_beq p.state State.processing ≡ false = ground arith in
    (
      save_pool s' p',
      set_sender_tx_cnt_step s s' p _ cnt (sender_tx_cnt_idle p idle) not_same not_busy r,
      rw dict c',
      rw dict k',
      SameQueues-trans s s' _ same saved,
      rw dict left,
    )
