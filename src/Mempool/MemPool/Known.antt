-- ===== src/Mempool/MemPool/Known.antt =====
-- What `MemPool` of proxy/mempool/mempool.py answers for a transaction whose outcome it knows.
use proxy_model_py.Base.{
  ℕ, String, Bool, true, false, Option, none, some, ◌≡◌, refl, sym, ap, ◌∙◌, subst, ok, >>=-eq-ok,
  ok_inj, string_eq, ==_refl,
}
use proxy_model_py.Mempool.TxRequest.{TxRequest, neon_tx_info, already_known}
use proxy_model_py.Mempool.Schedule.Calls
use proxy_model_py.Mempool.Schedule.Calls.{reply}
use proxy_model_py.Mempool.CompletedTxDict
use proxy_model_py.Mempool.CompletedTxDict.{get_tx, outcome, Outcome}
use proxy_model_py.Mempool.CompletedTxDict.Expiry.{get_tx-done_tx, first_of}
use proxy_model_py.Resources.{OpResIdent}
use proxy_model_py.Mempool.MemPool.State.{MemPool, ExecRequest, schedule_mp_tx_request}
use proxy_model_py.Mempool.MemPool.Results.{
  ExecResult, EndCode, process_mp_tx_result, by_kind, done, reschedule, bad_resource,
  nonce_too_high, failed, stuck_tx, with_cfg, on_done_tx, on_fail_tx, finish, fail_by_kind, by_code,
}

-- Whether a result is an outcome of the transaction.
abbrev pub is_outcome : ExecResult → Bool
is_outcome (done cnt cfg) = true
is_outcome (failed exc) = true
is_outcome res = false

-- The outcome of a transaction is known.
abbrev pub IsKnown : CompletedTxDict.TxDict → String → Type 0
IsKnown d sig = (o : Outcome) × (get_tx d sig ≡ some o)

first_known : (old : Option Outcome) (o : Outcome) → (p : Outcome) × (first_of old o ≡ some p)
first_known none o = (o, refl)
first_known (some p) o = (p, refl)

noted-IsKnown :
    (d : CompletedTxDict.TxDict) (tx : TxRequest) (exc : Option String) (now : ℕ)
    → IsKnown (CompletedTxDict.done_tx d (neon_tx_info tx) exc now) tx.sig
unfolding neon_tx_info
noted-IsKnown d tx exc now =
    let r = first_known (get_tx d tx.sig) (outcome exc (neon_tx_info tx)) in
    (r.0, get_tx-done_tx d (neon_tx_info tx) exc now tx.sig ∙ rw (==_refl tx.sig) r.1)

module _ {Info : Type 0} (private_key : OpResIdent → String) (recheck_cnt now time_ns : ℕ) where
  finish-IsKnown :
      (m n : MemPool Info) (req : ExecRequest) (exc : Option String) (code c : EndCode)
      → finish private_key recheck_cnt now time_ns m req exc code ≡ ok (n, c)
      → IsKnown n.completed_tx_dict req.tx.sig
  finish-IsKnown m n req exc code c e =
      subst (λ d. IsKnown d req.tx.sig)
        (ap (λ (p : MemPool Info × EndCode). p.0.completed_tx_dict)
          (ok_inj (>>=-eq-ok (Calls.done_tx m.tx_schedule req.tx) _ e).2))
        (noted-IsKnown m.completed_tx_dict req.tx exc now)

  on_done_tx-IsKnown :
      (m n : MemPool Info) (req : ExecRequest) (c : EndCode)
      → on_done_tx private_key recheck_cnt now time_ns m req ≡ ok (n, c)
      → IsKnown n.completed_tx_dict req.tx.sig
  unfolding on_done_tx
  on_done_tx-IsKnown m n req c e = finish-IsKnown _ n req none _ c e

  on_fail_tx-IsKnown :
      (b : Bool) (m n : MemPool Info) (req : ExecRequest) (exc : String) (c : EndCode)
      → b ≡ false
      → fail_by_kind private_key recheck_cnt now time_ns b m req exc ≡ ok (n, c)
      → IsKnown n.completed_tx_dict req.tx.sig
  on_fail_tx-IsKnown true m n req exc c f e = absurd (cc f)
  on_fail_tx-IsKnown false m n req exc c f e = finish-IsKnown m n req (some exc) _ c e

  by_code-IsKnown :
      (m n : MemPool Info) (req : ExecRequest) (res : ExecResult) (c : EndCode)
      → req.is_stuck_tx ≡ false
      → is_outcome res ≡ true
      → by_code private_key recheck_cnt now time_ns m req res ≡ ok (n, c)
      → IsKnown n.completed_tx_dict req.tx.sig
  unfolding with_cfg on_fail_tx
  by_code-IsKnown m n req (done cnt cfg) c s f e = on_done_tx-IsKnown m n (with_cfg req cnt cfg) c e
  by_code-IsKnown m n req (failed exc) c s f e =
      on_fail_tx-IsKnown req.is_stuck_tx _ n req exc c s e
  by_code-IsKnown m n req (reschedule cnt cfg) c s f e = absurd (cc f)
  by_code-IsKnown m n req (bad_resource cnt cfg) c s f e = absurd (cc f)
  by_code-IsKnown m n req (nonce_too_high cnt cfg) c s f e = absurd (cc f)
  by_code-IsKnown m n req (stuck_tx x) c s f e = absurd (cc f)

  by_kind-IsKnown :
      (b : Bool) (m n : MemPool Info) (req : ExecRequest) (res : ExecResult) (c : EndCode)
      → b ≡ false
      → req.is_stuck_tx ≡ false
      → is_outcome res ≡ true
      → by_kind private_key recheck_cnt now time_ns b m req res ≡ ok (n, c)
      → IsKnown n.completed_tx_dict req.tx.sig
  by_kind-IsKnown true m n req res c b s f e = absurd (cc b)
  by_kind-IsKnown false m n req res c b s f e = by_code-IsKnown m n req res c s f e

  known_refused :
      (n : MemPool Info) (tx : TxRequest)
      → IsKnown n.completed_tx_dict tx.sig
      → schedule_mp_tx_request n tx ≡ ok (n, reply already_known none)
  unfolding schedule_mp_tx_request
  known_refused n tx k = rw (k.1, schedule_mp_tx_request) refl

  -- Once the result of a transaction that is not a stuck one is processed as done or failed, a request
  -- with the same signature is answered as already known and changes nothing.
  pub outcome_refused :
      (m n : MemPool Info) (req : ExecRequest) (res : ExecResult) (c : EndCode) (tx : TxRequest)
      → req.is_stuck_tx ≡ false
      → is_outcome res ≡ true
      → process_mp_tx_result private_key recheck_cnt now time_ns m req res ≡ ok (n, c)
      → tx.sig ≡ req.tx.sig
      → schedule_mp_tx_request n tx ≡ ok (n, reply already_known none)
  unfolding process_mp_tx_result
  outcome_refused m n req res c tx s f e same = known_refused n tx (
      subst (IsKnown n.completed_tx_dict) (sym same)
        (by_kind-IsKnown req.is_stuck_tx m n req res c s s f e))
