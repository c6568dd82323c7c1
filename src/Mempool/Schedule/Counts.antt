-- ===== src/Mempool/Schedule/Counts.antt =====
-- `_set_sender_tx_cnt` of `MPTxSchedule` of proxy/mempool/mempool_schedule.py: its loop drops exactly
-- the requests whose nonces are used up.
use proxy_model_py.Base.{
  ℕ, zero, suc, ◌-◌, ◌≡◌, refl, ap, ◌∙◌, List, [], ◌∷◌, arith, some, none, Option, ok, All,
  string_eq, nat_eq, if◌then◌else◌, length, leb, last?, get_elem?, ==_refl,
}
use proxy_model_py.SortedQueue.{find, pop_item, remove_at}
use proxy_model_py.SortedQueue.Order.{IsSorted}
use proxy_model_py.SortedQueue.Find.{Finds, find-Finds, holds_at}
use proxy_model_py.SortedQueue.Calls.{pop_item_lem}
use proxy_model_py.Mempool.TxRequest.{TxRequest}
use proxy_model_py.Mempool.RequestDict.{RequestDict, sig_key}
use proxy_model_py.Mempool.RequestDict.Consistency.{DistinctSigs}
use proxy_model_py.Mempool.RequestDict.Removal.{IsHeld, sig_ne-at}
use proxy_model_py.Mempool.SenderPool.{nonce_key}
use proxy_model_py.Mempool.SenderPool.Processing.{init, get_elem?-last, remove_at-last}

-- Two places of a queue with distinct signatures hold one signature only if they are one place.
same_place :
    (q : List TxRequest) (i j : ℕ) (a b : TxRequest)
    → DistinctSigs q
    → get_elem? q i ≡ some a
    → get_elem? q j ≡ some b
    → a.sig ≡ b.sig
    → i ≡ j
same_place [] i j a b u p q e = cc
same_place (t ∷ l) zero zero a b u p q e = refl
same_place (t ∷ l) zero (suc j) a b u p q e = absurd (sig_ne-at l j b t u.0 q (ground arith))
same_place (t ∷ l) (suc i) zero a b u p q e = absurd (sig_ne-at l i a t u.0 p (ground arith))
same_place (t ∷ l) (suc i) (suc j) a b u p q e = ap suc (same_place l i j a b u.1 p q e)

-- Popping the last request of such a queue, by the request, takes just it.
pop_item-last_of_find :
    (q : List TxRequest) (t : TxRequest) (r : Option ℕ)
    → DistinctSigs q
    → last? q ≡ some t
    → find nonce_key sig_key q t ≡ r
    → Finds nonce_key sig_key 0 q t r
    → pop_item nonce_key sig_key q t ≡ ok (t, init q)
pop_item-last_of_find [] t r u e f h = cc
pop_item-last_of_find (b ∷ q) t none u e f h =
    let held =
      holds_at nonce_key sig_key (b ∷ q) t (length q) t (get_elem?-last b q ∙ e)
        (ground (arith, ==_refl t.sig)) in
    cc
pop_item-last_of_find (b ∷ q) t (some i) u e f (a, le, at, same) =
    let i' : i - 0 ≡ i = omega arith in
    let at' : get_elem? (b ∷ q) i ≡ some a = rw i' at at in
    let sigs : a.sig ≡ t.sig = ground (arith, string_eq.same_iff a.sig t.sig) in
    let place : i ≡ length q =
      same_place (b ∷ q) i (length q) a t u at' (get_elem?-last b q ∙ e) sigs in
    let item : a ≡ t = ground (arith, ap (get_elem? (b ∷ q)) place, get_elem?-last b q) in
    pop_item_lem nonce_key sig_key (b ∷ q) t a i f at'
    ∙ ground (arith, place, item, remove_at-last b q, ap (λ (k : ℕ). remove_at k (b ∷ q)) place)

pub pop_item-last :
    (q : List TxRequest) (t : TxRequest)
    → IsSorted nonce_key q
    → DistinctSigs q
    → last? q ≡ some t
    → pop_item nonce_key sig_key q t ≡ ok (t, init q)
pop_item-last q t s u e = pop_item-last_of_find q t _ u e refl (find-Finds nonce_key sig_key q t s)

-- The requests of the list that are not below the count.
unfoldable pub at_least : ℕ → List TxRequest → List TxRequest
at_least cnt [] = []
at_least cnt (t ∷ q) = let rest = at_least cnt q in if leb cnt t.nonce then t ∷ rest else rest

-- What the schedule knows of a pool's queue: the order, and that the dict holds each request.
pub record IsKept (d : RequestDict) (q : List TxRequest) : Type 0 where
  pub sorted : IsSorted nonce_key q
  pub distinct : DistinctSigs q
  pub held : All (λ t. IsHeld d t t) q
