-- ===== src/Mempool/CompletedTxDict/Expiry.antt =====
-- How long `MPTxDict` of proxy/mempool/mempool_neon_tx_dict.py knows an outcome.
use proxy_model_py.Base.{
  ℕ, ◌-◌, ◌≤◌, ◌≡◌, refl, sym, ◌∙◌, String, Option, none, some, List, [], ◌∷◌, ◌++◌, map, ltb, ◌==◌,
  nat_eq, string_eq, if◌then◌else◌, Bool-cases, Option-cases, inl, inr, arith, ap, All,
}
use proxy_model_py.Dict
use proxy_model_py.Dict.{Dict}
use proxy_model_py.Mempool.NeonTxInfo.{NeonTxInfo}
use proxy_model_py.Mempool.CompletedTxDict.{Item, Outcome, TxDict, done_tx, get_tx, clear, outcome}
use proxy_model_py.Mempool.CompletedTxDict.Consistency.{
  IsConsistent, entry, drop_old, clear-drop_old,
}

-- Each item is at most as late as all that follow it.
abbrev pub InTimeOrder : List Item → Type 0
InTimeOrder [] = Unit
InTimeOrder (i ∷ items) = All (λ j. i.last_time ≤ j.last_time) items × InTimeOrder items

abbrev pub if_recent : ℕ → Option Item → Option Item
if_recent t none = none
if_recent t (some item) = if ltb item.last_time t then none else some item

if_recent-All :
    (t : ℕ) (items : List Item) (sig : String)
    → All (λ j. t ≤ j.last_time) items
    → if_recent t (Dict.get (map entry items) sig) ≡ Dict.get (map entry items) sig
unfolding Dict.get
if_recent-All t [] sig a = refl
if_recent-All t (i ∷ items) sig a = elim (Bool-cases (i.neon_tx.sig == sig)) [
  | inl same ↦ rw same (ground (arith, a.0))
  | inr other ↦ rw other (if_recent-All t items sig a.1)
]

later_too :
    (t s : ℕ) (items : List Item)
    → t ≤ s
    → All (λ j. s ≤ j.last_time) items
    → All (λ j. t ≤ j.last_time) items
later_too t s [] le a = tt
later_too t s (i ∷ items) le a = (omega (arith, a.0), later_too t s items le a.1)

get-drop_old :
    (t : ℕ) (items : List Item) (sig : String)
    → Dict.HasUniqueKeys (map entry items)
    → InTimeOrder items
    → Dict.get (map entry (drop_old t items)) sig ≡ if_recent t (Dict.get (map entry items) sig)
unfolding Dict.get
get-drop_old t [] sig u o = refl
get-drop_old t (i ∷ items) sig u o = elim (Bool-cases (ltb i.last_time t)) [
  | inl old ↦ rw old (elim (Bool-cases (i.neon_tx.sig == sig)) [
    | inl same ↦ rw same (
        rw old (
          get-drop_old t items sig u.1 o.1
          ∙ ap (if_recent t)
              (ap (Dict.get (map entry items)) (sym ((string_eq.same_iff _ _).0 same)) ∙ u.0)))
    | inr other ↦ rw other (get-drop_old t items sig u.1 o.1)
  ])
  | inr recent ↦ rw recent (
      sym (
        if_recent-All t (i ∷ items) sig
          (ground arith, later_too t i.last_time items (ground arith) o.0)))
]

-- `clear` forgets the outcomes that are older than the time a dict keeps them, and no others, when
-- the items came in the order of time.
pub get-clear :
    (d : TxDict) (now : ℕ) (sig : String)
    → IsConsistent d
    → InTimeOrder d.neon_tx_queue
    → Dict.get (clear d now).neon_tx_dict sig
      ≡ if_recent (now - d.clear_time_sec) (Dict.get d.neon_tx_dict sig)
get-clear d now sig c o =
    let u : Dict.HasUniqueKeys (map entry d.neon_tx_queue) = rw c.same at c.unique in
    rw (clear-drop_old d now c, c.same)
      (get-drop_old (now - d.clear_time_sec) d.neon_tx_queue sig u o)

append_last :
    (items : List Item) (item : Item)
    → InTimeOrder items
    → All (λ j. j.last_time ≤ item.last_time) items
    → InTimeOrder (items ++ item ∷ [])
append_last [] item o a = (tt, tt)
append_last (i ∷ items) item o a = (all_append items o.0, append_last items item o.1 a.1)
  where
    all_append :
        (js : List Item)
        → All (λ j. i.last_time ≤ j.last_time) js
        → All (λ j. i.last_time ≤ j.last_time) (js ++ item ∷ [])
    all_append [] b = (a.0, tt)
    all_append (j ∷ js) b = (b.0, all_append js b.1)

-- The items stay in the order of time while the clock does not run back.
pub done_tx-InTimeOrder :
    (d : TxDict) (tx : NeonTxInfo) (exc : Option String) (now : ℕ)
    → InTimeOrder d.neon_tx_queue
    → All (λ j. j.last_time ≤ now) d.neon_tx_queue
    → InTimeOrder (done_tx d tx exc now).neon_tx_queue
unfolding done_tx
done_tx-InTimeOrder d tx exc now o a = elim (Bool-cases (Dict.contains d.neon_tx_dict tx.sig)) [
  | inl known ↦ rw known o
  | inr new ↦ rw new (append_last d.neon_tx_queue _ o a)
]

abbrev pub first_of : Option Outcome → Outcome → Option Outcome
first_of none o = some o
first_of (some p) o = some p

-- The first outcome of a transaction stays, and a noted outcome touches no other transaction.
pub get_tx-done_tx :
    (d : TxDict) (tx : NeonTxInfo) (exc : Option String) (now : ℕ) (sig : String)
    → get_tx (done_tx d tx exc now) sig
      ≡ (if tx.sig == sig then first_of (get_tx d sig) (outcome exc tx) else get_tx d sig)
unfolding get_tx done_tx Dict.contains
get_tx-done_tx d tx exc now sig = elim (Option-cases (Dict.get d.neon_tx_dict tx.sig)) [
  | inl absent ↦ rw absent (
      rw
        (Dict.get-put d.neon_tx_dict tx.sig sig
          (record { last_time = now; neon_tx = tx; error = exc }))
        (elim (Bool-cases (tx.sig == sig)) [
          | inl same ↦ rw (same, ← (string_eq.same_iff tx.sig sig).0 same, absent) refl
          | inr other ↦ rw other refl
        ]))
  | inr (item, at) ↦ rw at (elim (Bool-cases (tx.sig == sig)) [
    | inl same ↦ rw (same, ← (string_eq.same_iff tx.sig sig).0 same, at) refl
    | inr other ↦ rw other refl
  ])
]
