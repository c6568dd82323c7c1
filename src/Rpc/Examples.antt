-- ===== src/Rpc/Examples.antt =====
-- A transfer with and without enough on the account.
use proxy_model_py.Rpc.Estimate
use proxy_model_py.Base
use proxy_model_py.Base.{
  ℕ, ◌≡◌, ◌≤◌, ◌<◌, refl, ◌-◌, ◌^◌, ◌*◌, false, true, none, some, List, [], ◌∷◌, ◌↔◌,
}
use proxy_model_py.Rpc.NeonTx.{
  NeonTx, passed, refused, insufficient_funds_for_transfer, EmulatedResult,
}
use proxy_model_py.Rpc.Estimate.{GasParams, Packed}
use proxy_model_py.Rpc.Validator.{
  NeonAccountInfo, Config, NeonTxValidator, init, init_gas_limit, Emulation, emulated, precheck,
}
use proxy_model_py.Rpc.GasBounds.{admitted_gas}
use proxy_model_py.Rpc.Admission.{IsAdmitted, precheck-IsAdmitted}

abbrev gas_params : GasParams
gas_params = record {
  holder_msg_size = 950;
  neon_evm_steps = 500;
  extra_num = 1;
  extra_den = 9;
  pack = λ tx accounts. record { fits = true; len_neon_tx = 200 };
}

abbrev config : Config
config = record {
  allow_underpriced_tx_wo_chainid = false;
  accept_reverted_tx_into_mempool = false;
  min_gas_price = 10;
  min_wo_chainid_gas_price = 10;
  max_tx_account_cnt = 62;
  chain_id = 111;
  neon_gas_limit_multiplier_no_chainid = 1000;
  gas_params = gas_params;
}

abbrev transfer : NeonTx
transfer = record {
  nonce = 3;
  gas_price = 10;
  gas_limit = 40000;
  to_address = 1 ∷ [];
  value = 7;
  call_data = [];
  v = 257;
  sender = "0xa";
}

abbrev rich_account : NeonAccountInfo
rich_account = record { tx_count = 3; balance = 400007; code_size = 0 }

abbrev rich : NeonTxValidator
rich = init config transfer (some rich_account) false 10

abbrev poor : NeonTxValidator
poor =
    init config transfer (some (record { tx_count = 3; balance = 400006; code_size = 0 })) false 10

abbrev result : EmulatedResult
result = record {
  exit_status = "succeed";
  result = none;
  exit_reason = none;
  used_gas = 20000;
  steps_executed = 100;
  accounts = record { account = "b"; size = some 100; address = some "0xb" } ∷ [];
  solana_accounts = [];
}

abbrev succeeds : Emulation
succeeds = emulated result

rich-passes : precheck rich succeeds ≡ passed
unfolding precheck init Base.is_in Estimate.estimate Estimate.tx_size_cost
    Estimate.iterative_overhead_cost Estimate.alt_cost Estimate.build_account_list
rich-passes = refl

poor-refused : precheck poor succeeds ≡ refused (insufficient_funds_for_transfer 400006 400007)
unfolding precheck init Base.is_in
poor-refused = refl

precheck-IsAdmitted_example : (precheck rich succeeds ≡ passed) ↔ IsAdmitted rich succeeds
precheck-IsAdmitted_example = precheck-IsAdmitted rich succeeds

admitted_gas_example :
    (20000 ≤ init_gas_limit config transfer)
    × (21000 ≤ init_gas_limit config transfer)
    × (init_gas_limit config transfer < 2 ^ 64)
    × (init_gas_limit config transfer * 10 < 2 ^ 256 - 1)
admitted_gas_example =
    admitted_gas config transfer (some rich_account) false 10 result refl rich-passes
