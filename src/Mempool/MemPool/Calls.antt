-- ===== src/Mempool/MemPool/Calls.antt =====
-- Which calls of the resources `MemPool` of proxy/mempool/mempool.py makes for a result.
use proxy_model_py.Base.{
  ℕ, String, Bool, true, false, not, Option, ◌≡◌, refl, sym, ap, ◌∙◌, subst, Result, ok, >>=-eq-ok,
  ok_inj, string_eq, ◌==◌,
}
use proxy_model_py.Mempool.StuckTxDict.{StuckTxError}
use proxy_model_py.Resources
use proxy_model_py.Resources.{OpResIdent, OpResMng}
use proxy_model_py.Resources.Keeping.{IsExclusive, Keeps}
use proxy_model_py.Resources.Runs.{Step, Steps, next, done, release, get, Steps-IsExclusive}
use proxy_model_py.Mempool.MemPool.State.{MemPool, ExecRequest, release_resource}
use proxy_model_py.Mempool.MemPool.Results.{
  ExecResult, EndCode, process_mp_tx_result, by_code, stuck_by_code, by_kind, reschedule,
  bad_resource, nonce_too_high, failed, stuck_tx, with_cfg, on_cancel_tx, on_done_stuck_tx,
  on_done_tx, on_fail_tx, on_stuck_tx, on_reschedule_tx,
}
use proxy_model_py.Mempool.MemPool.Release.{
  release_lem, cancel_resources, finish_resources, stuck_resources, kind_resources,
}

-- The results after which no resource is taken for bad, and a stuck transaction that is found has a
-- signature.
abbrev pub keeps_places : Bool → ExecResult → Bool
keeps_places false (bad_resource cnt cfg) = false
keeps_places false (stuck_tx x) = not (x.neon_tx_sig == "")
keeps_places stuck res = true

not-true : (b : Bool) → not b ≡ true → b ≡ false
not-true true e = cc
not-true false e = refl

module _ {Info : Type 0} (private_key : OpResIdent → String) (recheck_cnt now time_ns : ℕ) where
  released :
      (m : MemPool Info) (req : ExecRequest) (r : OpResMng)
      → (release_resource private_key recheck_cnt m req).0.op_res_mng ≡ r
      → Steps m.op_res_mng r
  released m req r e =
      subst (Steps m.op_res_mng) (sym (release_lem private_key recheck_cnt now time_ns m req) ∙ e)
        (next _ _ _ (release m.op_res_mng recheck_cnt req.tx.sig) (done _))

  cancel-Steps :
      (m n : MemPool Info) (req : ExecRequest) (c : EndCode)
      → on_cancel_tx private_key recheck_cnt now time_ns m req ≡ ok (n, c)
      → Steps m.op_res_mng n.op_res_mng
  unfolding on_cancel_tx
  cancel-Steps m n req c e =
      released m req n.op_res_mng (cancel_resources private_key recheck_cnt now time_ns _ n req c e)

  stuck_done-Steps :
      (m n : MemPool Info) (req : ExecRequest) (c : EndCode)
      → on_done_stuck_tx private_key recheck_cnt now time_ns m req ≡ ok (n, c)
      → Steps m.op_res_mng n.op_res_mng
  unfolding on_done_stuck_tx
  stuck_done-Steps m n req c e =
      released m req n.op_res_mng
        (stuck_resources private_key recheck_cnt now time_ns _ n req _ c e)

  on_done_tx-Steps :
      (m n : MemPool Info) (req : ExecRequest) (c : EndCode)
      → on_done_tx private_key recheck_cnt now time_ns m req ≡ ok (n, c)
      → Steps m.op_res_mng n.op_res_mng
  unfolding on_done_tx
  on_done_tx-Steps m n req c e =
      released m req n.op_res_mng
        (finish_resources private_key recheck_cnt now time_ns _ n req Option.none _ c e)

  on_fail_tx-Steps :
      (m n : MemPool Info) (req : ExecRequest) (exc : String) (c : EndCode)
      → on_fail_tx private_key recheck_cnt now time_ns m req exc ≡ ok (n, c)
      → Steps m.op_res_mng n.op_res_mng
  unfolding on_fail_tx
  on_fail_tx-Steps m n req exc c e =
      released m req n.op_res_mng
        (kind_resources private_key recheck_cnt now time_ns req.is_stuck_tx _ n req exc c e)

  on_stuck_tx-Steps :
      (m n : MemPool Info) (req : ExecRequest) (x : StuckTxError) (c : EndCode)
      → (x.neon_tx_sig == "") ≡ false
      → on_stuck_tx private_key recheck_cnt now time_ns m req x ≡ ok (n, c)
      → Steps m.op_res_mng n.op_res_mng
  unfolding on_stuck_tx
  on_stuck_tx-Steps m n req x c named e =
      let freed = (release_resource private_key recheck_cnt m req).0 in
      let g = >>=-eq-ok (Resources.get_resource freed.op_res_mng x.neon_tx_sig now) _ e in
      next m.op_res_mng freed.op_res_mng n.op_res_mng
        (subst (Step m.op_res_mng) (sym (release_lem private_key recheck_cnt now time_ns m req))
          (release m.op_res_mng recheck_cnt req.tx.sig))
        (next freed.op_res_mng g.0.0 n.op_res_mng
          (get freed.op_res_mng g.0.0 x.neon_tx_sig now g.0.1 named g.1)
          (cancel-Steps _ n req c g.2))

  stuck_by_code-Steps :
      (m n : MemPool Info) (req : ExecRequest) (res : ExecResult) (c : EndCode)
      → stuck_by_code private_key recheck_cnt now time_ns m req res ≡ ok (n, c)
      → Steps m.op_res_mng n.op_res_mng
  stuck_by_code-Steps m n req (ExecResult.done cnt cfg) c e =
      stuck_done-Steps m n (with_cfg req cnt cfg) c e
  stuck_by_code-Steps m n req (reschedule cnt cfg) c e =
      stuck_done-Steps m n (with_cfg req cnt cfg) c e
  stuck_by_code-Steps m n req (bad_resource cnt cfg) c e =
      stuck_done-Steps m n (with_cfg req cnt cfg) c e
  stuck_by_code-Steps m n req (nonce_too_high cnt cfg) c e =
      stuck_done-Steps m n (with_cfg req cnt cfg) c e
  stuck_by_code-Steps m n req (failed exc) c e = on_fail_tx-Steps m n req exc c e
  stuck_by_code-Steps m n req (stuck_tx x) c e = stuck_done-Steps m n req c e

  put_off-Steps :
      (m n : MemPool Info) (req : ExecRequest) (c : EndCode)
      → Path
          (Result (MemPool Info × EndCode))
          (ok (on_reschedule_tx private_key recheck_cnt now time_ns m req))
          (ok (n, c))
      → Steps m.op_res_mng n.op_res_mng
  unfolding on_reschedule_tx
  put_off-Steps m n req c e =
      subst (Steps m.op_res_mng) (ap (λ (p : MemPool Info × EndCode). p.0.op_res_mng) (ok_inj e))
        (done m.op_res_mng)

  by_code-Steps :
      (m n : MemPool Info) (req : ExecRequest) (res : ExecResult) (c : EndCode)
      → keeps_places false res ≡ true
      → by_code private_key recheck_cnt now time_ns m req res ≡ ok (n, c)
      → Steps m.op_res_mng n.op_res_mng
  by_code-Steps m n req (ExecResult.done cnt cfg) c k e =
      on_done_tx-Steps m n (with_cfg req cnt cfg) c e
  by_code-Steps m n req (reschedule cnt cfg) c k e = put_off-Steps m n (with_cfg req cnt cfg) c e
  by_code-Steps m n req (bad_resource cnt cfg) c k e = absurd (cc k)
  by_code-Steps m n req (nonce_too_high cnt cfg) c k e = cancel-Steps m n (with_cfg req cnt cfg) c e
  by_code-Steps m n req (failed exc) c k e = on_fail_tx-Steps m n req exc c e
  by_code-Steps m n req (stuck_tx x) c k e =
      on_stuck_tx-Steps m n req x c (not-true (x.neon_tx_sig == "") k) e

  by_kind-Steps :
      (b : Bool) (m n : MemPool Info) (req : ExecRequest) (res : ExecResult) (c : EndCode)
      → keeps_places b res ≡ true
      → by_kind private_key recheck_cnt now time_ns b m req res ≡ ok (n, c)
      → Steps m.op_res_mng n.op_res_mng
  by_kind-Steps true m n req res c k e = stuck_by_code-Steps m n req res c e
  by_kind-Steps false m n req res c k e = by_code-Steps m n req res c k e

  -- Processing any result, but that of a bad resource and of a stuck transaction without a signature,
  -- keeps the operator's resources apart: none stands in two places afterwards, and none gets lost.
  pub process_mp_tx_result-IsExclusive :
      (m n : MemPool Info) (req : ExecRequest) (res : ExecResult) (c : EndCode)
      → IsExclusive m.op_res_mng
      → keeps_places req.is_stuck_tx res ≡ true
      → process_mp_tx_result private_key recheck_cnt now time_ns m req res ≡ ok (n, c)
      → IsExclusive n.op_res_mng × Keeps m.op_res_mng n.op_res_mng
  unfolding process_mp_tx_result
  process_mp_tx_result-IsExclusive m n req res c x k e =
      Steps-IsExclusive m.op_res_mng n.op_res_mng x
        (by_kind-Steps req.is_stuck_tx m n req res c k e)
