-- ===== src/Mempool/RequestDict/Removal.antt =====
-- `pop` of `MPTxRequestDict` of proxy/mempool/mempool_schedule.py.
use proxy_model_py.Base.{
  ℕ, zero, suc, ◌-◌, ◌≡◌, ◌≢◌, refl, sym, ap, false, List, [], ◌∷◌, arith, if◌then◌else◌, All,
  get_elem?, some, none, Option, String, ◌==◌, string_eq, pair_eq, nat_eq, ok,
}
use proxy_model_py.Dict
use proxy_model_py.Dict.{Dict, get, put, remove, contains, HasUniqueKeys}
use proxy_model_py.SortedQueue.{remove_at, find}
use proxy_model_py.SortedQueue.Order.{IsSorted}
use proxy_model_py.SortedQueue.Find.{holds, Finds, find-Finds}
use proxy_model_py.SortedQueue.Calls.{pop_index_lem}
use proxy_model_py.SortedQueue.Contents.{remove_at-IsSorted, All-remove_at}
use proxy_model_py.Mempool.TxRequest.{TxRequest}
use proxy_model_py.Mempool.RequestDict.{
  RequestDict, pop, pop_queued, tx_cnt, gas_key, sig_key, sender_nonce,
}
use proxy_model_py.Mempool.RequestDict.Consistency.{
  IsConsistent, DistinctSigs, IsListed, IsListed-remove,
}

-- `t` is the request that the dict holds for `tx`: the two differ in execution data at most.
pub record IsHeld (d : RequestDict) (tx t : TxRequest) : Type 0 where
  pub found : get d.tx_hash_dict tx.sig ≡ some t
  pub sender : t.sender_address ≡ tx.sender_address
  pub nonce : t.nonce ≡ tx.nonce
  pub price : t.gas_price ≡ tx.gas_price

abbrev pub OtherSigs : TxRequest → List TxRequest → Type 0
OtherSigs tx q = All (λ (a : TxRequest). a.sig ≢ tx.sig) q

OtherSigs-of-holds :
    (d : Dict String TxRequest) (q : List TxRequest) (tx t : TxRequest)
    → get d tx.sig ≡ some t
    → t.gas_price ≡ tx.gas_price
    → All (IsListed d) q
    → holds gas_key sig_key q tx ≡ false
    → OtherSigs tx q
unfolding holds
OtherSigs-of-holds d [] tx t at price l h = tt
OtherSigs-of-holds d (b ∷ q) tx t at price ((a, bat, bprice), ls) h = (
  (λ e. ground (arith, ap (get d) e, string_eq.same_iff b.sig tx.sig)),
  OtherSigs-of-holds d q tx t at price ls (ground arith),
)

pub sig_ne-at :
    (q : List TxRequest) (i : ℕ) (a b : TxRequest)
    → OtherSigs b q
    → get_elem? q i ≡ some a
    → a.sig ≢ b.sig
sig_ne-at [] i a b n at = cc
sig_ne-at (c ∷ q) zero a b n at = let e : c ≡ a = ground arith in rw e at n.0
sig_ne-at (c ∷ q) (suc i) a b n at = sig_ne-at q i a b n.1 at

pub OtherSigs-remove_at :
    (i : ℕ) (q : List TxRequest) (a : TxRequest)
    → DistinctSigs q
    → get_elem? q i ≡ some a
    → OtherSigs a (remove_at i q)
unfolding remove_at
OtherSigs-remove_at i [] a u at = tt
OtherSigs-remove_at zero (b ∷ q) a u at = let e : b ≡ a = ground arith in rw e at u.0
OtherSigs-remove_at (suc i) (b ∷ q) a u at =
    ((λ e. sig_ne-at q i a b u.0 at (sym e)), OtherSigs-remove_at i q a u.1 at)

pub DistinctSigs-remove_at :
    (i : ℕ) (q : List TxRequest) → DistinctSigs q → DistinctSigs (remove_at i q)
unfolding remove_at
DistinctSigs-remove_at i [] u = tt
DistinctSigs-remove_at zero (b ∷ q) u = u.1
DistinctSigs-remove_at (suc i) (b ∷ q) u =
    (All-remove_at (λ (a : TxRequest). a.sig ≢ b.sig) i q u.0, DistinctSigs-remove_at i q u.1)

-- What is left of the queue when `tx` is out of it.
record Rest (d : RequestDict) (tx : TxRequest) (q : List TxRequest) : Type 0 where
  sorted : IsSorted gas_key q
  distinct : DistinctSigs q
  listed : All (IsListed d.tx_hash_dict) q
  others : OtherSigs tx q

pop_queued-Rest :
    (d : RequestDict) (tx t : TxRequest) (r : Option ℕ)
    → IsConsistent d
    → IsHeld d tx t
    → Finds gas_key sig_key 0 d.tx_gas_price_queue tx r
    → (q : List TxRequest) × (pop_queued d.tx_gas_price_queue r ≡ ok q) × Rest d tx q
pop_queued-Rest d tx t none c h f = (
  d.tx_gas_price_queue,
  refl,
  record {
    sorted = c.sorted;
    distinct = c.distinct;
    listed = c.listed;
    others = OtherSigs-of-holds d.tx_hash_dict d.tx_gas_price_queue tx t h.found h.price c.listed f;
  },
)
pop_queued-Rest d tx t (some i) c h (a, le, at, same) =
    let i' : i - 0 ≡ i = omega arith in
    let at' : get_elem? d.tx_gas_price_queue i ≡ some a = rw i' at at in
    let e : a.sig ≡ tx.sig = ground (arith, string_eq.same_iff a.sig tx.sig) in
    let apart : OtherSigs a (remove_at i d.tx_gas_price_queue) =
      OtherSigs-remove_at i d.tx_gas_price_queue a c.distinct at' in
    (
      remove_at i d.tx_gas_price_queue,
      rw (pop_index_lem d.tx_gas_price_queue i a at') refl,
      record {
        sorted = remove_at-IsSorted gas_key i d.tx_gas_price_queue c.sorted;
        distinct = DistinctSigs-remove_at i d.tx_gas_price_queue c.distinct;
        listed = All-remove_at (IsListed d.tx_hash_dict) i d.tx_gas_price_queue c.listed;
        others = rw e at apart;
      },
    )

-- The dict without the request.
abbrev without : RequestDict → TxRequest → List TxRequest → RequestDict
without d tx q = record {
  tx_hash_dict = remove d.tx_hash_dict tx.sig;
  tx_sender_nonce_dict = remove d.tx_sender_nonce_dict (sender_nonce tx);
  tx_gas_price_queue = q;
}

module _ (d : RequestDict) (tx t : TxRequest) (c : IsConsistent d) (h : IsHeld d tx t) where
  nonce_found : get d.tx_sender_nonce_dict (sender_nonce tx) ≡ some t
  nonce_found = ground (arith, c.by_hash tx.sig t h.found, h.sender, h.nonce)

  without-IsConsistent : (q : List TxRequest) → Rest d tx q → IsConsistent (without d tx q)
  without-IsConsistent q r = record {
    unique_hash = Dict.remove-HasUniqueKeys d.tx_hash_dict tx.sig c.unique_hash;
    unique_nonce =
        Dict.remove-HasUniqueKeys d.tx_sender_nonce_dict (sender_nonce tx) c.unique_nonce;
    by_hash = λ sig u e. ground (
      arith,
      Dict.get-remove d.tx_hash_dict tx.sig sig,
      string_eq.same_iff tx.sig sig,
      c.by_hash sig u,
      Dict.get-remove d.tx_sender_nonce_dict (sender_nonce tx) (sender_nonce u),
      pair_eq.same_iff (sender_nonce tx) (sender_nonce u),
      nonce_found,
      h.found,
      c.by_hash tx.sig t h.found,
    );
    by_nonce = λ k u e. ground (
      arith,
      Dict.get-remove d.tx_sender_nonce_dict (sender_nonce tx) k,
      pair_eq.same_iff (sender_nonce tx) k,
      c.by_nonce k u,
      Dict.get-remove d.tx_hash_dict tx.sig u.sig,
      string_eq.same_iff tx.sig u.sig,
      nonce_found,
      h.found,
      c.by_hash tx.sig t h.found,
    );
    same_length = omega (
      arith,
      Dict.length-remove_present d.tx_hash_dict tx.sig t c.unique_hash h.found,
      Dict.length-remove_present d.tx_sender_nonce_dict (sender_nonce tx) t c.unique_nonce
          nonce_found,
      c.same_length,
    );
    sorted = r.sorted;
    distinct = r.distinct;
    listed = IsListed-remove d.tx_hash_dict tx q r.others r.listed;
  }

  pop_held :
      (q : List TxRequest)
      → pop_queued d.tx_gas_price_queue (find gas_key sig_key d.tx_gas_price_queue tx) ≡ ok q
      → pop d tx ≡ ok (without d tx q)
  unfolding pop contains
  pop_held q e = rw (h.found, nonce_found, e) refl

-- Popping a request that a consistent dict holds fails no assertion, whether the request is queued
-- or processed; the dict stays consistent, counts one request less, and finds by either key what it
-- found before, but for that request, which it finds by neither.
pub pop-IsConsistent :
    (d : RequestDict) (tx t : TxRequest)
    → IsConsistent d
    → IsHeld d tx t
    → (d' : RequestDict) × (pop d tx ≡ ok d')
      × IsConsistent d'
      × (suc (tx_cnt d') ≡ tx_cnt d)
      × ((sig : String)
          → get d'.tx_hash_dict sig ≡ (if tx.sig == sig then none else get d.tx_hash_dict sig))
      × ((k : String × ℕ)
          → get d'.tx_sender_nonce_dict k
            ≡ (if sender_nonce tx == k then none else get d.tx_sender_nonce_dict k))
unfolding tx_cnt
pop-IsConsistent d tx t c h =
    let (q, e, r) =
      pop_queued-Rest d tx t (find gas_key sig_key d.tx_gas_price_queue tx) c h
        (find-Finds gas_key sig_key d.tx_gas_price_queue tx c.sorted) in
    (
      without d tx q,
      pop_held d tx t c h q e,
      without-IsConsistent d tx t c h q r,
      Dict.length-remove_present d.tx_hash_dict tx.sig t c.unique_hash h.found,
      Dict.get-remove d.tx_hash_dict tx.sig,
      Dict.get-remove d.tx_sender_nonce_dict (sender_nonce tx),
    )
