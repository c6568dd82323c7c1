-- ===== src/Mempool/MemPool/Release.antt =====
-- What a result of an executor leaves of the resource, and of the transaction, in `MemPool` of
-- proxy/mempool/mempool.py.
use proxy_model_py.Base.{
  ℕ, String, Bool, true, false, Option, none, some, ◌≡◌, refl, ap, subst, ok, >>=-eq-ok, ok_inj,
  string_eq, Option-cases, Bool-cases, inl, inr, ltb,
}
use proxy_model_py.Dict
use proxy_model_py.Mempool.Schedule.Calls
use proxy_model_py.Mempool.Schedule.Calls.{reply}
use proxy_model_py.Mempool.StuckTxDict
use proxy_model_py.Resources
use proxy_model_py.Resources.{OpResIdent, OpResMng}
use proxy_model_py.Resources.Keeping.{pop_used_lem, pop_absent_lem}
use proxy_model_py.Mempool.MemPool.State.{MemPool, ExecRequest, release_resource, add_alts}
use proxy_model_py.Mempool.MemPool.PutOff.{is_put_off, put_off, by_kind-put_off}
use proxy_model_py.Mempool.MemPool.Results.{
  ExecResult, EndCode, process_mp_tx_result, by_code, stuck_by_code, done, reschedule, bad_resource,
  nonce_too_high, failed, stuck_tx, with_cfg, cancel, disable, on_bad_resource, on_cancel_tx,
  on_done_stuck_tx, on_done_tx, on_fail_tx, on_stuck_tx, finish, end_stuck, fail_by_kind, by_kind,
}

-- No resource is used for the transaction.
abbrev pub IsFree : OpResMng → String → Type 0
IsFree r sig = Dict.get r.used_res_ident_dict sig ≡ none

returned-IsFree :
    (n : ℕ) (r : OpResMng) (sig : String) (o : Option Resources.OpResUsedTime)
    → IsFree r sig
    → IsFree (Resources.return_resource n r o).0 sig
unfolding Resources.append_disabled Resources.append_free
returned-IsFree n r sig none free = free
returned-IsFree n r sig (some res) free = elim (Bool-cases (ltb n res.used_cnt)) [
  | inl many ↦ rw many free
  | inr few ↦ rw few free
]

popped-IsFree : (r : OpResMng) (sig : String) → IsFree (Resources.pop_used_resource r sig).0 sig
popped-IsFree r sig = elim (Option-cases (Dict.get r.used_res_ident_dict sig)) [
  | inl absent ↦ rw (pop_absent_lem r sig absent) absent
  | inr (res, at) ↦ rw (pop_used_lem r sig res at) (Dict.get-remove_self r.used_res_ident_dict sig)
]

released-IsFree :
    (n : ℕ) (r : OpResMng) (sig : String) → IsFree (Resources.release_resource n r sig).0 sig
unfolding Resources.release_resource
released-IsFree n r sig =
    returned-IsFree n (Resources.pop_used_resource r sig).0 sig
      (Resources.pop_used_resource r sig).1 (popped-IsFree r sig)

module _ {Info : Type 0} (private_key : OpResIdent → String) (recheck_cnt now time_ns : ℕ) where
  same_resources :
      (m : MemPool Info) (req : ExecRequest) (o : Option OpResIdent)
      → (add_alts private_key recheck_cnt m req o).0.op_res_mng ≡ m.op_res_mng
  same_resources m req none = refl
  same_resources m req (some ident) = refl

  pub release_lem :
      (m : MemPool Info) (req : ExecRequest)
      → (release_resource private_key recheck_cnt m req).0.op_res_mng
        ≡ (Resources.release_resource recheck_cnt m.op_res_mng req.tx.sig).0
  unfolding release_resource
  release_lem m req = same_resources _ req _

  release-IsFree :
      (m : MemPool Info) (req : ExecRequest)
      → IsFree (release_resource private_key recheck_cnt m req).0.op_res_mng req.tx.sig
  release-IsFree m req =
      rw (release_lem m req) (released-IsFree recheck_cnt m.op_res_mng req.tx.sig)

  pub cancel_resources :
      (m n : MemPool Info) (req : ExecRequest) (c : EndCode)
      → cancel private_key recheck_cnt now time_ns m req ≡ ok (n, c)
      → m.op_res_mng ≡ n.op_res_mng
  cancel_resources m n req c e =
      ap (λ (p : MemPool Info × EndCode). p.0.op_res_mng)
        (ok_inj (>>=-eq-ok (Calls.cancel_tx m.tx_schedule req.tx) _ e).2)

  pub finish_resources :
      (m n : MemPool Info) (req : ExecRequest) (exc : Option String) (code c : EndCode)
      → finish private_key recheck_cnt now time_ns m req exc code ≡ ok (n, c)
      → m.op_res_mng ≡ n.op_res_mng
  finish_resources m n req exc code c e =
      ap (λ (p : MemPool Info × EndCode). p.0.op_res_mng)
        (ok_inj (>>=-eq-ok (Calls.done_tx m.tx_schedule req.tx) _ e).2)

  pub stuck_resources :
      (m n : MemPool Info) (req : ExecRequest) (code c : EndCode)
      → end_stuck private_key recheck_cnt now time_ns m req code ≡ ok (n, c)
      → m.op_res_mng ≡ n.op_res_mng
  stuck_resources m n req code c e =
      ap (λ (p : MemPool Info × EndCode). p.0.op_res_mng)
        (ok_inj (>>=-eq-ok (StuckTxDict.done_tx m.stuck_tx_dict req.tx.sig) _ e).2)

  pub kind_resources :
      (b : Bool) (m n : MemPool Info) (req : ExecRequest) (exc : String) (c : EndCode)
      → fail_by_kind private_key recheck_cnt now time_ns b m req exc ≡ ok (n, c)
      → m.op_res_mng ≡ n.op_res_mng
  kind_resources true m n req exc c e = stuck_resources m n req _ c e
  kind_resources false m n req exc c e = finish_resources m n req (some exc) _ c e

  cancel_released :
      (m n : MemPool Info) (req : ExecRequest) (c : EndCode)
      → on_cancel_tx private_key recheck_cnt now time_ns m req ≡ ok (n, c)
      → IsFree n.op_res_mng req.tx.sig
  unfolding on_cancel_tx
  cancel_released m n req c e =
      subst (λ r. IsFree r req.tx.sig) (cancel_resources _ n req c e) (release-IsFree m req)

  stuck_released :
      (m n : MemPool Info) (req : ExecRequest) (c : EndCode)
      → on_done_stuck_tx private_key recheck_cnt now time_ns m req ≡ ok (n, c)
      → IsFree n.op_res_mng req.tx.sig
  unfolding on_done_stuck_tx
  stuck_released m n req c e =
      subst (λ r. IsFree r req.tx.sig) (stuck_resources _ n req _ c e) (release-IsFree m req)

  done_released :
      (m n : MemPool Info) (req : ExecRequest) (c : EndCode)
      → on_done_tx private_key recheck_cnt now time_ns m req ≡ ok (n, c)
      → IsFree n.op_res_mng req.tx.sig
  unfolding on_done_tx
  done_released m n req c e =
      subst (λ r. IsFree r req.tx.sig) (finish_resources _ n req none _ c e) (release-IsFree m req)

  failed_released :
      (m n : MemPool Info) (req : ExecRequest) (exc : String) (c : EndCode)
      → on_fail_tx private_key recheck_cnt now time_ns m req exc ≡ ok (n, c)
      → IsFree n.op_res_mng req.tx.sig
  unfolding on_fail_tx
  failed_released m n req exc c e =
      subst (λ r. IsFree r req.tx.sig) (kind_resources req.is_stuck_tx _ n req exc c e)
        (release-IsFree m req)

  disabled-IsFree :
      (m : MemPool Info) (sig : String) (o : Option OpResIdent)
      → IsFree m.op_res_mng sig
      → IsFree (disable private_key recheck_cnt now time_ns (m, o)).op_res_mng sig
  unfolding Resources.disable_resource Resources.append_disabled
  disabled-IsFree m sig none free = free
  disabled-IsFree m sig (some ident) free = free

  bad_released :
      (m n : MemPool Info) (req : ExecRequest) (c : EndCode)
      → on_bad_resource private_key recheck_cnt now time_ns m req ≡ ok (n, c)
      → IsFree n.op_res_mng req.tx.sig
  unfolding on_bad_resource
  bad_released m n req c e =
      subst (λ r. IsFree r req.tx.sig) (cancel_resources _ n req c e)
        (disabled-IsFree (release_resource private_key recheck_cnt m req).0 req.tx.sig
          (release_resource private_key recheck_cnt m req).1 (release-IsFree m req))

  found_stuck_released :
      (m n : MemPool Info) (req : ExecRequest) (x : StuckTxDict.StuckTxError) (c : EndCode)
      → on_stuck_tx private_key recheck_cnt now time_ns m req x ≡ ok (n, c)
      → IsFree n.op_res_mng req.tx.sig
  unfolding on_stuck_tx
  found_stuck_released m n req x c e =
      cancel_released _ n req c
        (>>=-eq-ok
          (Resources.get_resource (release_resource private_key recheck_cnt m req).0.op_res_mng
            x.neon_tx_sig now)
          _ e).2

  by_code_released :
      (m n : MemPool Info) (req : ExecRequest) (res : ExecResult) (c : EndCode)
      → is_put_off false res ≡ false
      → by_code private_key recheck_cnt now time_ns m req res ≡ ok (n, c)
      → IsFree n.op_res_mng req.tx.sig
  unfolding with_cfg
  by_code_released m n req (done cnt cfg) c f e = done_released m n (with_cfg req cnt cfg) c e
  by_code_released m n req (reschedule cnt cfg) c f e = cc
  by_code_released m n req (bad_resource cnt cfg) c f e =
      bad_released m n (with_cfg req cnt cfg) c e
  by_code_released m n req (nonce_too_high cnt cfg) c f e =
      cancel_released m n (with_cfg req cnt cfg) c e
  by_code_released m n req (failed exc) c f e = failed_released m n req exc c e
  by_code_released m n req (stuck_tx x) c f e = found_stuck_released m n req x c e

  stuck_by_code_released :
      (m n : MemPool Info) (req : ExecRequest) (res : ExecResult) (c : EndCode)
      → stuck_by_code private_key recheck_cnt now time_ns m req res ≡ ok (n, c)
      → IsFree n.op_res_mng req.tx.sig
  unfolding with_cfg
  stuck_by_code_released m n req (done cnt cfg) c e = stuck_released m n (with_cfg req cnt cfg) c e
  stuck_by_code_released m n req (reschedule cnt cfg) c e =
      stuck_released m n (with_cfg req cnt cfg) c e
  stuck_by_code_released m n req (bad_resource cnt cfg) c e =
      stuck_released m n (with_cfg req cnt cfg) c e
  stuck_by_code_released m n req (nonce_too_high cnt cfg) c e =
      stuck_released m n (with_cfg req cnt cfg) c e
  stuck_by_code_released m n req (failed exc) c e = failed_released m n req exc c e
  stuck_by_code_released m n req (stuck_tx x) c e = stuck_released m n req c e

  by_kind_released :
      (b : Bool) (m n : MemPool Info) (req : ExecRequest) (res : ExecResult) (c : EndCode)
      → is_put_off b res ≡ false
      → by_kind private_key recheck_cnt now time_ns b m req res ≡ ok (n, c)
      → IsFree n.op_res_mng req.tx.sig
  by_kind_released true m n req res c f e = stuck_by_code_released m n req res c e
  by_kind_released false m n req res c f e = by_code_released m n req res c f e

  -- When a result that does not put the transaction off is processed without an exception, the
  -- transaction has no resource any more, and no transaction is put off. Only `reschedule` puts off, and
  -- that only a transaction that is not stuck.
  pub process_mp_tx_result-IsFree :
      (m n : MemPool Info) (req : ExecRequest) (res : ExecResult) (c : EndCode)
      → is_put_off req.is_stuck_tx res ≡ false
      → process_mp_tx_result private_key recheck_cnt now time_ns m req res ≡ ok (n, c)
      → IsFree n.op_res_mng req.tx.sig × (put_off m ≡ put_off n)
  unfolding process_mp_tx_result
  process_mp_tx_result-IsFree m n req res c f e = (
    by_kind_released req.is_stuck_tx m n req res c f e,
    by_kind-put_off private_key recheck_cnt now time_ns req.is_stuck_tx m n req res c f e,
  )
