-- ===== src/Mempool/MemPool/Termination.antt =====
-- The loop of `_acquire_stuck_tx` of proxy/mempool/mempool.py ends.
use proxy_model_py.Base.{
  ℕ, zero, suc, ◌<◌, String, Bool, true, false, Option, none, some, [], ◌∷◌, ◌≡◌, ◌≢◌, refl, ◌∙◌,
  Result, ok, >>=-eq-ok, string_eq, ◌==◌, arith, Option-cases, inl, inr, Bool-cases,
}
use proxy_model_py.Dict
use proxy_model_py.Dict.{Dict}
use proxy_model_py.Mempool.Schedule.Calls
use proxy_model_py.Mempool.StuckTxDict.{
  StuckTxDict, StuckTxInfo, sig, peek_tx, skip_tx, first_value,
}
use proxy_model_py.Mempool.StuckTxDict.Lookup.{KeysMatch, first_found, none_first}
use proxy_model_py.Mempool.MemPool.State.{MemPool, ExecRequest}
use proxy_model_py.Mempool.MemPool.Acquire.{
  BeginCode, stuck_loop, stuck_cnt, acquire_stuck_tx, attach_resource, push_stuck, after_drop,
  stuck_round,
}

-- Every stuck transaction stands under its own signature.
pub record IsKeyed (d : StuckTxDict) : Type 0 where
  pub own : KeysMatch d.own_tx_dict
  pub external : KeysMatch d.external_tx_dict

remove-KeysMatch :
    (d : Dict String StuckTxInfo) (k : String) → KeysMatch d → KeysMatch (Dict.remove d k)
unfolding Dict.remove
remove-KeysMatch [] k h = tt
remove-KeysMatch ((j, t) ∷ d) k h = elim (Bool-cases (j == k)) [
  | inl same ↦ rw same (remove-KeysMatch d k h.1)
  | inr other ↦ rw other (h.0, remove-KeysMatch d k h.1)
]

skip_own :
    (d : StuckTxDict) (tx found : StuckTxInfo)
    → Dict.get d.own_tx_dict (sig tx) ≡ some found
    → skip_tx d tx ≡ ok (record d { own_tx_dict = Dict.remove d.own_tx_dict (sig tx) })
unfolding skip_tx Dict.contains
skip_own d tx found at = rw at refl

skip_external :
    (d : StuckTxDict) (tx found : StuckTxInfo)
    → Dict.get d.own_tx_dict (sig tx) ≡ none
    → Dict.get d.external_tx_dict (sig tx) ≡ some found
    → skip_tx d tx ≡ ok (record d { external_tx_dict = Dict.remove d.external_tx_dict (sig tx) })
unfolding skip_tx Dict.contains
skip_external d tx found absent at = rw (absent, at) refl

some-ne-none : (o : Option StuckTxInfo) (tx : StuckTxInfo) → o ≡ some tx → o ≢ none
some-ne-none o tx e f = cc

-- The transaction that is shown can be skipped, and fewer wait then.
pub skip-peek_tx :
    (d : StuckTxDict) (tx : StuckTxInfo)
    → IsKeyed d
    → peek_tx d ≡ some tx
    → (e : StuckTxDict) × (skip_tx d tx ≡ ok e) × IsKeyed e × (stuck_cnt e < stuck_cnt d)
unfolding peek_tx
skip-peek_tx d tx k p = elim (Option-cases (first_value d.own_tx_dict)) [
  | inl empty ↦
      let absent = none_first d.own_tx_dict (sig tx) empty in
      let at = first_found d.external_tx_dict tx k.external (rw empty at p) in
      (
        _,
        skip_external d tx tx absent at,
        record { own = k.own; external = remove-KeysMatch d.external_tx_dict (sig tx) k.external },
        omega (arith, Dict.length-remove-lt d.external_tx_dict (sig tx) (some-ne-none _ tx at)),
      )
  | inr (t, first) ↦
      let at = first_found d.own_tx_dict tx k.own (first ∙ (rw first at p)) in
      (
        _,
        skip_own d tx tx at,
        record { own = remove-KeysMatch d.own_tx_dict (sig tx) k.own; external = k.external },
        omega (arith, Dict.length-remove-lt d.own_tx_dict (sig tx) (some-ne-none _ tx at)),
      )
]

module _ {Info : Type 0} (now : ℕ) where
  -- The next round has an outcome for fewer waiting transactions.
  abbrev Finishes :
      (MemPool Info → Result (Option (MemPool Info × BeginCode × Option ExecRequest))) → ℕ → Type 0
  Finishes next n =
      (m : MemPool Info)
      → IsKeyed m.stuck_tx_dict
      → stuck_cnt m.stuck_tx_dict < n
      → next m ≢ ok none

  drop-Finishes :
      (next : MemPool Info → Result (Option (MemPool Info × BeginCode × Option ExecRequest)))
      (tx : StuckTxInfo) (m : MemPool Info) (b : Bool)
      → Finishes next (stuck_cnt m.stuck_tx_dict)
      → IsKeyed m.stuck_tx_dict
      → peek_tx m.stuck_tx_dict ≡ some tx
      → after_drop now next tx m b ≢ ok none
  drop-Finishes next tx m true f k p e =
      let q = >>=-eq-ok (attach_resource now m (sig tx)) _ e in
      let r = >>=-eq-ok (push_stuck now tx q.0) _ q.2 in cc (r.2)
  drop-Finishes next tx m false f k p e =
      let s = skip-peek_tx m.stuck_tx_dict tx k p in
      f (record m { stuck_tx_dict = s.0 }) s.2 s.3 (rw s.1 at e)

  round-Finishes :
      (next : MemPool Info → Result (Option (MemPool Info × BeginCode × Option ExecRequest)))
      (m : MemPool Info) (o : Option StuckTxInfo)
      → Finishes next (stuck_cnt m.stuck_tx_dict)
      → IsKeyed m.stuck_tx_dict
      → peek_tx m.stuck_tx_dict ≡ o
      → stuck_round now next m o ≢ ok none
  round-Finishes next m none f k p e = cc e
  round-Finishes next m (some tx) f k p e =
      let r = >>=-eq-ok (Calls.drop_stuck_tx m.tx_schedule (sig tx)) _ e in
      drop-Finishes next tx (record m { tx_schedule = r.0.1 }) r.0.0 f k p r.2

  stuck_loop-Finishes : (fuel : ℕ) → Finishes (stuck_loop now fuel) fuel
  unfolding stuck_loop
  stuck_loop-Finishes zero m k lt e = absurd (omega (arith, lt))
  stuck_loop-Finishes (suc fuel) m k lt e =
      round-Finishes (stuck_loop now fuel) m (peek_tx m.stuck_tx_dict)
        (λ n k' lt'. stuck_loop-Finishes fuel n k' (omega (arith, lt, lt'))) k refl e

  -- The loop over the stuck transactions ends: with one round more than transactions that wait, its
  -- fuel does not run out.
  pub acquire_stuck_tx-ne-none :
      (m : MemPool Info) → IsKeyed m.stuck_tx_dict → acquire_stuck_tx now m ≢ ok none
  unfolding acquire_stuck_tx
  acquire_stuck_tx-ne-none m k =
      stuck_loop-Finishes (suc (stuck_cnt m.stuck_tx_dict)) m k (omega arith)
