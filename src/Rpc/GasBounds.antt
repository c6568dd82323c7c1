-- ===== src/Rpc/GasBounds.antt =====
-- The gas of a transaction that `NeonTxValidator.precheck` of
-- proxy/neon_rpc_api_model/transaction_validator.py lets through, by the estimate of
-- proxy/neon_rpc_api_model/estimate.py.
use native.Mathlib.Nat.{le-div_iff_mul-le, mul-add}
use proxy_model_py.Base.{
  ℕ, suc, ◌+◌, ◌-◌, ◌*◌, ◌^◌, ◌≤◌, ◌<◌, ◌≡◌, inl, inr, Bool, false, Option, ltb, arith, Bool-cases,
}
use proxy_model_py.Rpc.NeonTx.{NeonTx, passed, EmulatedResult}
use proxy_model_py.Rpc.Estimate.{
  GasParams, estimate, with_extra, tx_size_cost, iterative_overhead_cost, alt_cost,
}
use proxy_model_py.Rpc.Validator.{NeonAccountInfo, Config, init, init_gas_limit, emulated, precheck}
use proxy_model_py.Rpc.Admission.{precheck-IsAdmitted}

with_extra-ge : (p : GasParams) (gas : ℕ) → gas ≤ with_extra p gas
unfolding with_extra
with_extra-ge p gas = elim (Bool-cases (ltb 0 p.extra_num)) [
  | inl extra ↦ rw extra (
      (le-div_iff_mul-le {k = suc p.extra_den} {x = gas} (omega arith)).1
        (omega (arith, mul-add gas (suc p.extra_den) p.extra_num)))
  | inr none_extra ↦ rw none_extra (omega arith)
]

-- The estimate is not below what the emulation used, nor below the gas of a transfer.
estimate-ge :
    (p : GasParams) (tx : NeonTx) (r : EmulatedResult)
    → (r.used_gas ≤ estimate p tx r) × (21000 ≤ estimate p tx r)
unfolding estimate
estimate-ge p tx r =
    let gas = r.used_gas + tx_size_cost p tx r + iterative_overhead_cost p tx r + alt_cost p r in
    (omega (arith, with_extra-ge p gas), omega arith)

-- Where reverted transactions are not taken, a transaction that passes has a gas limit (that which
-- `__init__` notes) of 64 bits that covers what the emulation used and the gas of a transfer, and a fee
-- below 2^256 - 1.
pub admitted_gas :
    (c : Config) (tx : NeonTx) (info : Option NeonAccountInfo) (permit : Bool) (price : ℕ)
    (r : EmulatedResult)
    → c.accept_reverted_tx_into_mempool ≡ false
    → precheck (init c tx info permit price) (emulated r) ≡ passed
    → (r.used_gas ≤ init_gas_limit c tx)
      × (21000 ≤ init_gas_limit c tx)
      × (init_gas_limit c tx < 2 ^ 64)
      × (init_gas_limit c tx * tx.gas_price < 2 ^ 256 - 1)
unfolding init
admitted_gas c tx info permit price r strict passes =
    let (code, limit, fee, priced, chain, size, balance, wo, (outcome, small, few)) =
      (precheck-IsAdmitted (init c tx info permit price) (emulated r)).0 passes in
    let (used, least) = estimate-ge c.gas_params tx r in
    elim outcome [
      | inl accepts ↦ absurd (ground (arith, strict, accepts))
      | inr (succeeds, fits) ↦ (omega (arith, used, fits), omega (arith, least, fits), limit, fee)
    ]
