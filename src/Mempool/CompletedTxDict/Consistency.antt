-- ===== src/Mempool/CompletedTxDict/Consistency.antt =====
-- The dict and the queue of `MPTxDict` of proxy/mempool/mempool_neon_tx_dict.py hold the same items.
use proxy_model_py.Base.{
  ℕ, ◌-◌, ◌≡◌, refl, String, Option, none, List, [], ◌∷◌, ◌++◌, map, ltb, nat_eq, string_eq,
  if◌then◌else◌, Bool-cases, Option-cases, inl, inr, arith, ==_refl,
}
use proxy_model_py.Dict
use proxy_model_py.Dict.{Dict}
use proxy_model_py.Mempool.NeonTxInfo.{NeonTxInfo}
use proxy_model_py.Mempool.CompletedTxDict.{Item, TxDict, done_tx, clear, clear_loop}

abbrev pub entry : Item → String × Item
entry item = (item.neon_tx.sig, item)

-- The dict has the items of the queue, in its order and each under its own signature.
pub record IsConsistent (d : TxDict) : Type 0 where
  pub same : d.neon_tx_dict ≡ map entry d.neon_tx_queue
  pub unique : Dict.HasUniqueKeys d.neon_tx_dict

put-entry :
    (items : List Item) (item : Item)
    → Dict.get (map entry items) item.neon_tx.sig ≡ none
    → Dict.put (map entry items) item.neon_tx.sig item ≡ map entry (items ++ item ∷ [])
unfolding Dict.get Dict.put
put-entry [] item h = refl
put-entry (i ∷ items) item h = ground (arith, put-entry items item)

-- An outcome that is noted keeps the dict and the queue in agreement.
pub done_tx-IsConsistent :
    (d : TxDict) (tx : NeonTxInfo) (exc : Option String) (now : ℕ)
    → IsConsistent d
    → IsConsistent (done_tx d tx exc now)
unfolding done_tx Dict.contains
done_tx-IsConsistent d tx exc now c = elim (Option-cases (Dict.get d.neon_tx_dict tx.sig)) [
  | inl absent ↦ rw absent (record {
    same = rw c.same (
        put-entry d.neon_tx_queue (record { last_time = now; neon_tx = tx; error = exc })
          (rw c.same at absent));
    unique = Dict.put-HasUniqueKeys d.neon_tx_dict tx.sig _ c.unique;
  })
  | inr (item, at) ↦ rw at c
]

-- The items from the first one on that is not older than the time given.
abbrev pub drop_old : ℕ → List Item → List Item
drop_old t [] = []
drop_old t (item ∷ items) = if ltb item.last_time t then drop_old t items else item ∷ items

remove_front :
    (item : Item) (items : List Item)
    → Dict.get (map entry items) item.neon_tx.sig ≡ none
    → Dict.remove (map entry (item ∷ items)) item.neon_tx.sig ≡ map entry items
unfolding Dict.remove
remove_front item items h =
    rw (==_refl item.neon_tx.sig) (Dict.remove_absent (map entry items) item.neon_tx.sig h)

pub clear_loop_lem :
    (t : ℕ) (items : List Item)
    → Dict.HasUniqueKeys (map entry items)
    → clear_loop t items (map entry items) ≡ (map entry (drop_old t items), drop_old t items)
unfolding clear_loop
clear_loop_lem t [] u = refl
clear_loop_lem t (item ∷ items) u = elim (Bool-cases (ltb item.last_time t)) [
  | inl old ↦ rw (old, remove_front item items u.0) (clear_loop_lem t items u.1)
  | inr recent ↦ rw recent refl
]

drop_old-HasUniqueKeys :
    (t : ℕ) (items : List Item)
    → Dict.HasUniqueKeys (map entry items)
    → Dict.HasUniqueKeys (map entry (drop_old t items))
drop_old-HasUniqueKeys t [] u = u
drop_old-HasUniqueKeys t (item ∷ items) u = elim (Bool-cases (ltb item.last_time t)) [
  | inl old ↦ rw old (drop_old-HasUniqueKeys t items u.1)
  | inr recent ↦ rw recent u
]

pub clear-drop_old :
    (d : TxDict) (now : ℕ)
    → IsConsistent d
    → clear d now ≡ record d {
      neon_tx_queue = drop_old (now - d.clear_time_sec) d.neon_tx_queue;
      neon_tx_dict = map entry (drop_old (now - d.clear_time_sec) d.neon_tx_queue);
    }
unfolding clear
clear-drop_old d now c =
    let u : Dict.HasUniqueKeys (map entry d.neon_tx_queue) = rw c.same at c.unique in
    rw (c.same, clear_loop_lem (now - d.clear_time_sec) d.neon_tx_queue u) refl

-- Clearing the old outcomes keeps the dict and the queue in agreement.
pub clear-IsConsistent : (d : TxDict) (now : ℕ) → IsConsistent d → IsConsistent (clear d now)
clear-IsConsistent d now c =
    let u : Dict.HasUniqueKeys (map entry d.neon_tx_queue) = rw c.same at c.unique in
    rw (clear-drop_old d now c) (record {
      same = refl;
      unique = drop_old-HasUniqueKeys (now - d.clear_time_sec) d.neon_tx_queue u;
    })
