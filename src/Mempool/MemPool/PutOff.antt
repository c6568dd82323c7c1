-- ===== src/Mempool/MemPool/PutOff.antt =====
-- The transactions that `MemPool` of proxy/mempool/mempool.py puts off, and the handlers that put off
-- none.
use proxy_model_py.Base.{
  ℕ, String, Bool, true, false, Option, none, some, ◌≡◌, refl, ap, ◌∙◌, List, ok, >>=-eq-ok, ok_inj,
}
use proxy_model_py.Mempool.Schedule.Calls
use proxy_model_py.Mempool.StuckTxDict
use proxy_model_py.Resources
use proxy_model_py.Resources.{OpResIdent}
use proxy_model_py.Mempool.MemPool.State.{MemPool, ExecRequest, release_resource, add_alts}
use proxy_model_py.Mempool.MemPool.Results.{
  ExecResult, EndCode, by_code, stuck_by_code, done, reschedule, bad_resource, nonce_too_high,
  failed, stuck_tx, with_cfg, cancel, disable, on_bad_resource, on_cancel_tx, on_done_stuck_tx,
  on_done_tx, on_fail_tx, on_stuck_tx, finish, end_stuck, fail_by_kind, by_kind,
}

-- Whether a result puts the transaction off.
abbrev pub is_put_off : Bool → ExecResult → Bool
is_put_off false (reschedule cnt cfg) = true
is_put_off stuck res = false

-- The transactions that sleep before they are rescheduled, and those that are rescheduled.
abbrev pub put_off : {Info : Type 0} → MemPool Info → List ExecRequest × List ExecRequest
put_off m = (m.waiting_tx_list, m.rescheduled_tx_queue)

module _ {Info : Type 0} (private_key : OpResIdent → String) (recheck_cnt now time_ns : ℕ) where
  same_put_off :
      (m : MemPool Info) (req : ExecRequest) (o : Option OpResIdent)
      → put_off m ≡ put_off (add_alts private_key recheck_cnt m req o).0
  same_put_off m req none = refl
  same_put_off m req (some ident) = refl

  release_put_off :
      (m : MemPool Info) (req : ExecRequest)
      → put_off m ≡ put_off (release_resource private_key recheck_cnt m req).0
  unfolding release_resource
  release_put_off m req = same_put_off _ req _

  cancel-put_off :
      (m n : MemPool Info) (req : ExecRequest) (c : EndCode)
      → cancel private_key recheck_cnt now time_ns m req ≡ ok (n, c)
      → put_off m ≡ put_off n
  cancel-put_off m n req c e =
      ap (λ (p : MemPool Info × EndCode). put_off p.0)
        (ok_inj (>>=-eq-ok (Calls.cancel_tx m.tx_schedule req.tx) _ e).2)

  finish-put_off :
      (m n : MemPool Info) (req : ExecRequest) (exc : Option String) (code c : EndCode)
      → finish private_key recheck_cnt now time_ns m req exc code ≡ ok (n, c)
      → put_off m ≡ put_off n
  finish-put_off m n req exc code c e =
      ap (λ (p : MemPool Info × EndCode). put_off p.0)
        (ok_inj (>>=-eq-ok (Calls.done_tx m.tx_schedule req.tx) _ e).2)

  stuck_put_off :
      (m n : MemPool Info) (req : ExecRequest) (code c : EndCode)
      → end_stuck private_key recheck_cnt now time_ns m req code ≡ ok (n, c)
      → put_off m ≡ put_off n
  stuck_put_off m n req code c e =
      ap (λ (p : MemPool Info × EndCode). put_off p.0)
        (ok_inj (>>=-eq-ok (StuckTxDict.done_tx m.stuck_tx_dict req.tx.sig) _ e).2)

  fail_put_off :
      (b : Bool) (m n : MemPool Info) (req : ExecRequest) (exc : String) (c : EndCode)
      → fail_by_kind private_key recheck_cnt now time_ns b m req exc ≡ ok (n, c)
      → put_off m ≡ put_off n
  fail_put_off true m n req exc c e = stuck_put_off m n req _ c e
  fail_put_off false m n req exc c e = finish-put_off m n req (some exc) _ c e

  on_cancel_put_off :
      (m n : MemPool Info) (req : ExecRequest) (c : EndCode)
      → on_cancel_tx private_key recheck_cnt now time_ns m req ≡ ok (n, c)
      → put_off m ≡ put_off n
  unfolding on_cancel_tx
  on_cancel_put_off m n req c e = release_put_off m req ∙ cancel-put_off _ n req c e

  on_done_stuck_put_off :
      (m n : MemPool Info) (req : ExecRequest) (c : EndCode)
      → on_done_stuck_tx private_key recheck_cnt now time_ns m req ≡ ok (n, c)
      → put_off m ≡ put_off n
  unfolding on_done_stuck_tx
  on_done_stuck_put_off m n req c e = release_put_off m req ∙ stuck_put_off _ n req _ c e

  on_done_put_off :
      (m n : MemPool Info) (req : ExecRequest) (c : EndCode)
      → on_done_tx private_key recheck_cnt now time_ns m req ≡ ok (n, c)
      → put_off m ≡ put_off n
  unfolding on_done_tx
  on_done_put_off m n req c e = release_put_off m req ∙ finish-put_off _ n req none _ c e

  on_fail_put_off :
      (m n : MemPool Info) (req : ExecRequest) (exc : String) (c : EndCode)
      → on_fail_tx private_key recheck_cnt now time_ns m req exc ≡ ok (n, c)
      → put_off m ≡ put_off n
  unfolding on_fail_tx
  on_fail_put_off m n req exc c e =
      release_put_off m req ∙ fail_put_off req.is_stuck_tx _ n req exc c e

  disabled_put_off :
      (m : MemPool Info) (o : Option OpResIdent)
      → put_off m ≡ put_off (disable private_key recheck_cnt now time_ns (m, o))
  disabled_put_off m none = refl
  disabled_put_off m (some ident) = refl

  on_bad_put_off :
      (m n : MemPool Info) (req : ExecRequest) (c : EndCode)
      → on_bad_resource private_key recheck_cnt now time_ns m req ≡ ok (n, c)
      → put_off m ≡ put_off n
  unfolding on_bad_resource
  on_bad_put_off m n req c e =
      release_put_off m req
      ∙ disabled_put_off (release_resource private_key recheck_cnt m req).0
          (release_resource private_key recheck_cnt m req).1
      ∙ cancel-put_off _ n req c e

  on_stuck_put_off :
      (m n : MemPool Info) (req : ExecRequest) (x : StuckTxDict.StuckTxError) (c : EndCode)
      → on_stuck_tx private_key recheck_cnt now time_ns m req x ≡ ok (n, c)
      → put_off m ≡ put_off n
  unfolding on_stuck_tx
  on_stuck_put_off m n req x c e =
      release_put_off m req
      ∙ on_cancel_put_off _ n req c
          (>>=-eq-ok
            (Resources.get_resource (release_resource private_key recheck_cnt m req).0.op_res_mng
              x.neon_tx_sig now)
            _ e).2

  by_code-put_off :
      (m n : MemPool Info) (req : ExecRequest) (res : ExecResult) (c : EndCode)
      → is_put_off false res ≡ false
      → by_code private_key recheck_cnt now time_ns m req res ≡ ok (n, c)
      → put_off m ≡ put_off n
  by_code-put_off m n req (done cnt cfg) c f e = on_done_put_off m n (with_cfg req cnt cfg) c e
  by_code-put_off m n req (reschedule cnt cfg) c f e = cc
  by_code-put_off m n req (bad_resource cnt cfg) c f e =
      on_bad_put_off m n (with_cfg req cnt cfg) c e
  by_code-put_off m n req (nonce_too_high cnt cfg) c f e =
      on_cancel_put_off m n (with_cfg req cnt cfg) c e
  by_code-put_off m n req (failed exc) c f e = on_fail_put_off m n req exc c e
  by_code-put_off m n req (stuck_tx x) c f e = on_stuck_put_off m n req x c e

  stuck_by_code-put_off :
      (m n : MemPool Info) (req : ExecRequest) (res : ExecResult) (c : EndCode)
      → stuck_by_code private_key recheck_cnt now time_ns m req res ≡ ok (n, c)
      → put_off m ≡ put_off n
  stuck_by_code-put_off m n req (done cnt cfg) c e =
      on_done_stuck_put_off m n (with_cfg req cnt cfg) c e
  stuck_by_code-put_off m n req (reschedule cnt cfg) c e =
      on_done_stuck_put_off m n (with_cfg req cnt cfg) c e
  stuck_by_code-put_off m n req (bad_resource cnt cfg) c e =
      on_done_stuck_put_off m n (with_cfg req cnt cfg) c e
  stuck_by_code-put_off m n req (nonce_too_high cnt cfg) c e =
      on_done_stuck_put_off m n (with_cfg req cnt cfg) c e
  stuck_by_code-put_off m n req (failed exc) c e = on_fail_put_off m n req exc c e
  stuck_by_code-put_off m n req (stuck_tx x) c e = on_done_stuck_put_off m n req c e

  pub by_kind-put_off :
      (b : Bool) (m n : MemPool Info) (req : ExecRequest) (res : ExecResult) (c : EndCode)
      → is_put_off b res ≡ false
      → by_kind private_key recheck_cnt now time_ns b m req res ≡ ok (n, c)
      → put_off m ≡ put_off n
  by_kind-put_off true m n req res c f e = stuck_by_code-put_off m n req res c e
  by_kind-put_off false m n req res c f e = by_code-put_off m n req res c f e
