-- ===== src/Mempool/RequestDict/Consistency.antt =====
-- The three views of `MPTxRequestDict` of proxy/mempool/mempool_schedule.py agree.
use proxy_model_py.Base.{
  ℕ, zero, suc, ◌≤◌, ◌≡◌, ◌≢◌, refl, sym, ap, false, List, [], ◌∷◌, arith, All, some, none, String,
  string_eq, pair_eq, nat_eq, length, ok,
}
use proxy_model_py.Dict
use proxy_model_py.Dict.{Dict, get, put, remove, contains, HasUniqueKeys}
use proxy_model_py.SortedQueue.Order.{IsSorted, scan_left}
use proxy_model_py.SortedQueue.Find.{holds}
use proxy_model_py.SortedQueue.Calls.{add_lem}
use proxy_model_py.SortedQueue.{insert_at}
use proxy_model_py.SortedQueue.Contents.{insert_at-IsSorted, All-insert_at, length-insert_at}
use proxy_model_py.Mempool.TxRequest.{TxRequest}
use proxy_model_py.Mempool.RequestDict.{RequestDict, add, tx_cnt, gas_key, sig_key, sender_nonce}

-- The signatures of the queue are different.
abbrev pub DistinctSigs : List TxRequest → Type 0
DistinctSigs [] = Unit
DistinctSigs (t ∷ q) = All (λ (a : TxRequest). a.sig ≢ t.sig) q × DistinctSigs q

-- The request stands in the dict, under its signature and with its gas price.
abbrev pub IsListed : Dict String TxRequest → TxRequest → Type 0
IsListed d t = (a : TxRequest) × (get d t.sig ≡ some a) × (a.gas_price ≡ t.gas_price)

pub record IsConsistent (d : RequestDict) : Type 0 where
  pub unique_hash : HasUniqueKeys d.tx_hash_dict
  pub unique_nonce : HasUniqueKeys d.tx_sender_nonce_dict
  pub by_hash :
      (sig : String) (tx : TxRequest)
      → get d.tx_hash_dict sig ≡ some tx
      → (tx.sig ≡ sig) × (get d.tx_sender_nonce_dict (sender_nonce tx) ≡ some tx)
  pub by_nonce :
      (k : String × ℕ) (tx : TxRequest)
      → get d.tx_sender_nonce_dict k ≡ some tx
      → (sender_nonce tx ≡ k) × (get d.tx_hash_dict tx.sig ≡ some tx)
  pub same_length : length d.tx_hash_dict ≡ length d.tx_sender_nonce_dict
  pub sorted : IsSorted gas_key d.tx_gas_price_queue
  pub distinct : DistinctSigs d.tx_gas_price_queue
  pub listed : All (IsListed d.tx_hash_dict) d.tx_gas_price_queue

pub IsListed-remove :
    (d : Dict String TxRequest) (t : TxRequest) (q : List TxRequest)
    → All (λ (a : TxRequest). a.sig ≢ t.sig) q
    → All (IsListed d) q
    → All (IsListed (remove d t.sig)) q
IsListed-remove d t [] n l = tt
IsListed-remove d t (b ∷ q) n ((a, at, price), ls) = (
  (a, ground (arith, Dict.get-remove d t.sig b.sig, string_eq.same_iff t.sig b.sig), price),
  IsListed-remove d t q n.1 ls,
)

-- The queue holds no more requests than the dict.
pub length-queue-le :
    (d : Dict String TxRequest) (q : List TxRequest)
    → DistinctSigs q
    → All (IsListed d) q
    → length q ≤ length d
length-queue-le d [] u l = omega arith
length-queue-le d (t ∷ q) u ((a, at, price), ls) =
    let rest = length-queue-le (remove d t.sig) q u.1 (IsListed-remove d t q u.0 ls) in
    let less = Dict.length-remove-lt d t.sig (λ h. cc) in omega arith

-- A request whose signature is not in the dict is not in the queue.
pub holds_unlisted :
    (d : Dict String TxRequest) (q : List TxRequest) (tx : TxRequest)
    → get d tx.sig ≡ none
    → All (IsListed d) q
    → holds gas_key sig_key q tx ≡ false
unfolding holds
holds_unlisted d [] tx h l = refl
holds_unlisted d (t ∷ q) tx h ((a, at, price), ls) =
    ground (arith, holds_unlisted d q tx h ls, string_eq.same_iff t.sig tx.sig)

IsListed-put :
    (d : Dict String TxRequest) (tx : TxRequest) (q : List TxRequest)
    → get d tx.sig ≡ none
    → All (IsListed d) q
    → All (IsListed (put d tx.sig tx)) q × All (λ (a : TxRequest). a.sig ≢ tx.sig) q
IsListed-put d tx [] h l = (tt, tt)
IsListed-put d tx (b ∷ q) h ((a, at, price), ls) =
    let rest = IsListed-put d tx q h ls in
    (
      (
        (a, ground (arith, Dict.get-put d tx.sig b.sig tx, string_eq.same_iff tx.sig b.sig), price),
        rest.0,
      ),
      ((λ e. ground (arith, ap (get d) e)), rest.1),
    )

DistinctSigs-insert_at :
    (i : ℕ) (tx : TxRequest) (q : List TxRequest)
    → All (λ (a : TxRequest). a.sig ≢ tx.sig) q
    → DistinctSigs q
    → DistinctSigs (insert_at i tx q)
unfolding insert_at
DistinctSigs-insert_at zero tx q n u = (n, u)
DistinctSigs-insert_at (suc i) tx [] n u = (tt, tt)
DistinctSigs-insert_at (suc i) tx (b ∷ q) n u = (
  All-insert_at (λ (a : TxRequest). a.sig ≢ b.sig) i tx q (λ e. n.0 (sym e)) u.0,
  DistinctSigs-insert_at i tx q n.1 u.1,
)

-- The dict with one request more.
unfoldable pub after_add : RequestDict → TxRequest → RequestDict
after_add d tx = record {
  tx_hash_dict = put d.tx_hash_dict tx.sig tx;
  tx_sender_nonce_dict = put d.tx_sender_nonce_dict (sender_nonce tx) tx;
  tx_gas_price_queue =
      insert_at (scan_left gas_key d.tx_gas_price_queue (gas_key tx)) tx d.tx_gas_price_queue;
}

module _ (d : RequestDict) (tx : TxRequest) (c : IsConsistent d)
    (hs : get d.tx_hash_dict tx.sig ≡ none)
    (hn : get d.tx_sender_nonce_dict (sender_nonce tx) ≡ none) where
  pub after_add-IsConsistent : IsConsistent (after_add d tx)
  unfolding after_add
  after_add-IsConsistent =
      let moved = IsListed-put d.tx_hash_dict tx d.tx_gas_price_queue hs c.listed in
      let i = scan_left gas_key d.tx_gas_price_queue (gas_key tx) in
      record {
        unique_hash = Dict.put-HasUniqueKeys d.tx_hash_dict tx.sig tx c.unique_hash;
        unique_nonce =
            Dict.put-HasUniqueKeys d.tx_sender_nonce_dict (sender_nonce tx) tx c.unique_nonce;
        by_hash = λ sig t h. ground (
          arith,
          Dict.get-put d.tx_hash_dict tx.sig sig tx,
          string_eq.same_iff tx.sig sig,
          c.by_hash sig t,
          Dict.get-put d.tx_sender_nonce_dict (sender_nonce tx) (sender_nonce t) tx,
          pair_eq.same_iff (sender_nonce tx) (sender_nonce t),
          ap (get d.tx_sender_nonce_dict) {x = sender_nonce tx} {y = sender_nonce t},
          hn,
        );
        by_nonce = λ k t h. ground (
          arith,
          Dict.get-put d.tx_sender_nonce_dict (sender_nonce tx) k tx,
          pair_eq.same_iff (sender_nonce tx) k,
          c.by_nonce k t,
          Dict.get-put d.tx_hash_dict tx.sig t.sig tx,
          string_eq.same_iff tx.sig t.sig,
          hs,
        );
        same_length = omega (
          arith,
          Dict.length-put_new d.tx_hash_dict tx.sig tx hs,
          Dict.length-put_new d.tx_sender_nonce_dict (sender_nonce tx) tx hn,
          c.same_length,
        );
        sorted = insert_at-IsSorted gas_key tx d.tx_gas_price_queue c.sorted;
        distinct = DistinctSigs-insert_at i tx d.tx_gas_price_queue moved.1 c.distinct;
        listed =
            All-insert_at (IsListed (put d.tx_hash_dict tx.sig tx)) i tx d.tx_gas_price_queue
              (tx, Dict.get-put_self d.tx_hash_dict tx.sig tx, refl) moved.0;
      }

  pub add_new : add d tx ≡ ok (after_add d tx)
  unfolding add after_add contains
  add_new =
      let len_queue =
        length-insert_at (scan_left gas_key d.tx_gas_price_queue (gas_key tx)) tx
          d.tx_gas_price_queue in
      rw
        (
          hs,
          hn,
          add_lem gas_key sig_key d.tx_gas_price_queue tx c.sorted,
          holds_unlisted d.tx_hash_dict d.tx_gas_price_queue tx hs c.listed,
        )
        (ground (
          arith,
          len_queue,
          c.same_length,
          length-queue-le d.tx_hash_dict d.tx_gas_price_queue c.distinct c.listed,
          Dict.length-put_new d.tx_hash_dict tx.sig tx hs,
          Dict.length-put_new d.tx_sender_nonce_dict (sender_nonce tx) tx hn,
        ))

-- A request with a new signature, and a new nonce of its sender, is added to a consistent dict: no
-- assertion fails, the dict stays consistent, counts one request more and finds it by both keys.
pub add-IsConsistent :
    (d : RequestDict) (tx : TxRequest)
    → IsConsistent d
    → get d.tx_hash_dict tx.sig ≡ none
    → get d.tx_sender_nonce_dict (sender_nonce tx) ≡ none
    → (d' : RequestDict) × (add d tx ≡ ok d')
      × IsConsistent d'
      × (tx_cnt d' ≡ suc (tx_cnt d))
      × (get d'.tx_hash_dict tx.sig ≡ some tx)
      × (get d'.tx_sender_nonce_dict (sender_nonce tx) ≡ some tx)
unfolding tx_cnt after_add
add-IsConsistent d tx c hs hn = (
  after_add d tx,
  add_new d tx c hs hn,
  after_add-IsConsistent d tx c hs hn,
  Dict.length-put_new d.tx_hash_dict tx.sig tx hs,
  Dict.get-put_self d.tx_hash_dict tx.sig tx,
  Dict.get-put_self d.tx_sender_nonce_dict (sender_nonce tx) tx,
)
