-- ===== src/Rpc/Estimate.antt =====
-- `GasEstimate` of proxy/neon_rpc_api_model/estimate.py. Whether the Solana transaction that carries the
-- Neon transaction fits into a packet, and the length of the holder's message, are answers of
-- `pack`. `extra_gas_pct` is a fraction.
use proxy_model_py.Base.{
  ℕ, suc, ◌+◌, ◌*◌, ◌/◌, String, Bool, not, List, ◌++◌, ◌&&◌, ◌||◌, map, ltb, length, is_nil,
  if◌then◌else◌, max,
}
use proxy_model_py.Rpc.NeonTx.{NeonTx, EmulatedResult}

-- What `_tx_builder.build_tx` and `serialize` say of a transaction and its accounts.
pub record Packed : Type 0 where
  pub fits : Bool
  pub len_neon_tx : ℕ

-- `ElfParams` and the configuration; `extra_gas_pct` is `extra_num / suc extra_den`.
-- `holder_msg_size` is not zero.
pub record GasParams : Type 0 where
  pub holder_msg_size : ℕ
  pub neon_evm_steps : ℕ
  pub extra_num : ℕ
  pub extra_den : ℕ
  pub pack : NeonTx → List String → Packed

-- `ALTLimit.max_tx_account_cnt`
abbrev pub max_tx_account_cnt : ℕ
max_tx_account_cnt = 27

abbrev pub small_gas_limit : ℕ
small_gas_limit = 30000

unfoldable pub holder_tx_cost : GasParams → ℕ → ℕ
holder_tx_cost p neon_tx_len = (neon_tx_len / p.holder_msg_size + 1) * 5000

unfoldable pub build_account_list : EmulatedResult → List String
build_account_list r = map (λ a. a.account) r.accounts ++ r.solana_accounts

unfoldable pub tx_size_cost : GasParams → NeonTx → EmulatedResult → ℕ
unfolding holder_tx_cost
tx_size_cost p tx r =
    let packed = p.pack tx (build_account_list r) in
    if packed.fits && (not (is_nil tx.to_address) && ltb r.used_gas small_gas_limit)
    then 0
    else holder_tx_cost p packed.len_neon_tx

unfoldable pub iterative_overhead_cost : GasParams → NeonTx → EmulatedResult → ℕ
unfolding tx_size_cost
iterative_overhead_cost p tx r =
    if ltb 0 (tx_size_cost p tx r)
      || (ltb small_gas_limit r.used_gas || ltb p.neon_evm_steps r.steps_executed)
    then 5000 + 5000
    else 0

unfoldable pub alt_cost : GasParams → EmulatedResult → ℕ
alt_cost p r = if ltb max_tx_account_cnt (length (build_account_list r) + 6) then 5000 * 12 else 0

-- math.ceil(gas * (1 + extra_gas_pct)), where `extra_gas_pct` is positive
unfoldable pub with_extra : GasParams → ℕ → ℕ
with_extra p gas =
    if ltb 0 p.extra_num
    then (gas * (suc p.extra_den + p.extra_num) + p.extra_den) / suc p.extra_den
    else gas

unfoldable pub estimate : GasParams → NeonTx → EmulatedResult → ℕ
unfolding with_extra
estimate p tx r =
    let gas = r.used_gas + tx_size_cost p tx r + iterative_overhead_cost p tx r + alt_cost p r in
    max (with_extra p gas) 21000
