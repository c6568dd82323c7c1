-- ===== src/Rpc/Validator.antt =====
-- `NeonTxValidator` of proxy/neon_rpc_api_model/transaction_validator.py, `NeonTxNonceValidator` of
-- proxy/neon_rpc_api_model/nonce_validator.py and `check_emulated_exit_status` of
-- proxy/common_neon/emulator_interactor.py. The message that is decoded of the data of a revert is left
-- out.
use proxy_model_py.Base.{
  ℕ, ◌+◌, ◌-◌, ◌*◌, ◌^◌, String, Bool, false, not, Option, none, some, List, [], ◌∷◌, ◌&&◌, ◌||◌,
  ◌==◌, nat_eq, string_eq, ltb, leb, length, is_nil, if◌then◌else◌,
}
use proxy_model_py.Rpc.NeonTx.{
  NeonTx, Refusal, gas_overflow, fee_overflow, wrong_chain_id, size_too_big, sender_not_eoa,
  underpriced_not_allowed, underpriced, insufficient_funds_for_transfer, insufficient_funds,
  gas_limit_reached, size_increase, too_many_accounts, execution_reverted, execution_finished,
  nonce_too_low, nonce_has_max_value, invalid_v, emulator_error, Check, refused, passed, ◌⊳◌,
  raise_if, has_chain_id, chain_id, AccountDesc, EmulatedResult,
}
use proxy_model_py.Rpc.Estimate.{GasParams, estimate}

abbrev pub max_u64 : ℕ
max_u64 = 2 ^ 64 - 1

abbrev pub max_u256 : ℕ
max_u256 = 2 ^ 256 - 1

-- The fields of `NeonAccountInfo` that the validators read.
pub record NeonAccountInfo : Type 0 where
  pub tx_count : ℕ
  pub balance : ℕ
  pub code_size : ℕ

-- `Config`, and the chain's id and the multiplier of `ElfParams`.
pub record Config : Type 0 where
  pub allow_underpriced_tx_wo_chainid : Bool
  pub accept_reverted_tx_into_mempool : Bool
  pub min_gas_price : ℕ
  pub min_wo_chainid_gas_price : ℕ
  pub max_tx_account_cnt : ℕ
  pub chain_id : ℕ
  pub neon_gas_limit_multiplier_no_chainid : ℕ
  pub gas_params : GasParams

pub record NeonTxValidator : Type 0 where
  pub config : Config
  pub tx : NeonTx
  pub neon_account_info : Option NeonAccountInfo
  pub has_gas_less_permit : Bool
  pub min_gas_price : ℕ
  pub estimated_gas : ℕ
  pub tx_gas_limit : ℕ

-- The gas limit that `__init__` notes.
unfoldable pub init_gas_limit : Config → NeonTx → ℕ
unfolding has_chain_id
init_gas_limit c tx =
    let tx_gas_limit = tx.gas_limit * c.neon_gas_limit_multiplier_no_chainid in
    if has_chain_id tx || not c.allow_underpriced_tx_wo_chainid
    then tx.gas_limit
    else if is_nil tx.call_data
    then tx.gas_limit
    else if ltb tx_gas_limit max_u64
    then tx_gas_limit
    else tx.gas_limit

unfoldable pub init : Config → NeonTx → Option NeonAccountInfo → Bool → ℕ → NeonTxValidator
unfolding init_gas_limit
init c tx info gas_less_permit min_gas_price = record {
  config = c;
  tx = tx;
  neon_account_info = info;
  has_gas_less_permit = gas_less_permit;
  min_gas_price = min_gas_price;
  estimated_gas = 0;
  tx_gas_limit = init_gas_limit c tx;
}

unfoldable pub is_underpriced_tx_wo_chainid : NeonTxValidator → Bool
is_underpriced_tx_wo_chainid v =
    not (has_chain_id v.tx)
    && (ltb v.tx.gas_price v.min_gas_price || ltb v.tx.gas_limit v.estimated_gas)

abbrev pub has_code : Option NeonAccountInfo → Bool
has_code none = false
has_code (some info) = ltb 0 info.code_size

unfoldable pub prevalidate_sender_eoa : NeonTxValidator → Check
prevalidate_sender_eoa v = raise_if (has_code v.neon_account_info) sender_not_eoa

-- The three reasons for which the price is enough.
unfoldable pub is_priced : NeonTxValidator → Bool
is_priced v =
    leb v.config.min_gas_price v.tx.gas_price
    || (((v.tx.gas_price == 0) && v.has_gas_less_permit)
        || (v.config.allow_underpriced_tx_wo_chainid
            && (not (has_chain_id v.tx) && leb v.config.min_wo_chainid_gas_price v.tx.gas_price)))

unfoldable pub prevalidate_tx_gas : NeonTxValidator → Check
unfolding is_priced
prevalidate_tx_gas v =
    raise_if (ltb max_u64 v.tx_gas_limit) gas_overflow
    ⊳ raise_if (ltb (max_u256 - 1) (v.tx_gas_limit * v.tx.gas_price)) fee_overflow
    ⊳ raise_if (not (is_priced v)) (underpriced v.tx.gas_price v.config.min_gas_price)

abbrev pub check_chain_id : ℕ → ℕ → Option (Option ℕ) → Check
check_chain_id wanted v none = refused (invalid_v v)
check_chain_id wanted v (some none) = passed
check_chain_id wanted v (some (some id)) = raise_if (not (id == wanted)) wrong_chain_id

unfoldable pub prevalidate_tx_chain_id : NeonTxValidator → Check
unfolding chain_id
prevalidate_tx_chain_id v = check_chain_id v.config.chain_id v.tx.v (chain_id v.tx)

unfoldable pub prevalidate_tx_size : NeonTxValidator → Check
prevalidate_tx_size v = raise_if (ltb (128 * 1024 - 1024) (length v.tx.call_data)) size_too_big

abbrev pub balance_of : Option NeonAccountInfo → ℕ
balance_of none = 0
balance_of (some info) = info.balance

unfoldable pub prevalidate_sender_balance : NeonTxValidator → Check
prevalidate_sender_balance v =
    let user_balance = balance_of v.neon_account_info in
    let required_balance = v.tx.gas_price * v.tx_gas_limit + v.tx.value in
    raise_if (ltb user_balance required_balance) (
      if is_nil v.tx.call_data
      then insufficient_funds_for_transfer user_balance required_balance
      else insufficient_funds user_balance required_balance)

unfoldable pub prevalidate_underpriced_tx_wo_chainid : NeonTxValidator → Check
unfolding is_underpriced_tx_wo_chainid
prevalidate_underpriced_tx_wo_chainid v =
    raise_if (is_underpriced_tx_wo_chainid v && not v.config.allow_underpriced_tx_wo_chainid)
      underpriced_not_allowed

unfoldable pub prevalidate_tx : NeonTxValidator → Check
unfolding prevalidate_sender_eoa prevalidate_tx_gas prevalidate_tx_chain_id prevalidate_tx_size
    prevalidate_sender_balance prevalidate_underpriced_tx_wo_chainid
prevalidate_tx v =
    prevalidate_sender_eoa v
    ⊳ prevalidate_tx_gas v
    ⊳ prevalidate_tx_chain_id v
    ⊳ prevalidate_tx_size v
    ⊳ prevalidate_sender_balance v
    ⊳ prevalidate_underpriced_tx_wo_chainid v

unfoldable pub check_emulated_exit_status : EmulatedResult → Check
check_emulated_exit_status r =
    if r.exit_status == "revert"
    then refused (execution_reverted r.result)
    else raise_if (not (r.exit_status == "succeed"))
        (execution_finished r.exit_status r.exit_reason)

-- self._estimated_gas = calculator.estimate()
unfoldable pub note_estimated_gas : NeonTxValidator → EmulatedResult → NeonTxValidator
note_estimated_gas v r = record v { estimated_gas = estimate v.config.gas_params v.tx r }

unfoldable pub prevalidate_gas_usage : NeonTxValidator → EmulatedResult → Check
unfolding note_estimated_gas
prevalidate_gas_usage v r =
    let v = note_estimated_gas v r in
    raise_if (ltb v.tx_gas_limit v.estimated_gas) (gas_limit_reached v.tx_gas_limit v.estimated_gas)

-- The body of the loop; the size and the address are skipped where they are missing, zero or empty.
abbrev pub check_size : Option ℕ → Option String → Check
check_size none address = passed
check_size (some size) none = passed
check_size (some size) (some address) =
    raise_if (not (address == "") && ltb ((9 * 1024 + 512) * 1024) size) (size_increase address)

unfoldable pub prevalidate_account_sizes : List AccountDesc → Check
prevalidate_account_sizes [] = passed
prevalidate_account_sizes (a ∷ accounts) =
    check_size a.size a.address ⊳ prevalidate_account_sizes accounts

unfoldable pub prevalidate_account_cnt : NeonTxValidator → EmulatedResult → Check
prevalidate_account_cnt v r =
    let account_cnt = length r.accounts + length r.solana_accounts in
    raise_if (ltb v.config.max_tx_account_cnt account_cnt) (too_many_accounts account_cnt)

unfoldable pub prevalidate_emulator : NeonTxValidator → EmulatedResult → Check
unfolding check_emulated_exit_status prevalidate_gas_usage prevalidate_account_sizes
    prevalidate_account_cnt
prevalidate_emulator v r =
    (if v.config.accept_reverted_tx_into_mempool
      then passed
      else (check_emulated_exit_status r ⊳ prevalidate_gas_usage v r))
    ⊳ prevalidate_account_sizes r.accounts
    ⊳ prevalidate_account_cnt v r

-- What `call_tx_emulated` does: it raises, with what the error parser finds of a nonce in the
-- exception (the sender's count and the transaction's nonce), or returns.
pub data Emulation : Type 0 where
  failed : Option (ℕ × ℕ) → Emulation
  emulated : EmulatedResult → Emulation

-- `extract_ethereum_error`, and the exception that is raised again.
abbrev extract_ethereum_error : String → Option (ℕ × ℕ) → Refusal
extract_ethereum_error sender none = emulator_error
extract_ethereum_error sender (some (state_tx_cnt, tx_nonce)) =
    if ltb tx_nonce state_tx_cnt then nonce_too_low sender tx_nonce state_tx_cnt else emulator_error

unfoldable pub validate_emulation : NeonTxValidator → Emulation → Check
unfolding prevalidate_emulator
validate_emulation v (failed nonce_error) = refused (extract_ethereum_error v.tx.sender nonce_error)
validate_emulation v (emulated r) = prevalidate_emulator v r

-- `precheck`, where the emulator does `call`.
unfoldable pub precheck : NeonTxValidator → Emulation → Check
unfolding prevalidate_tx validate_emulation
precheck v call = prevalidate_tx v ⊳ validate_emulation v call

-- The count of the sender's transactions that `precheck` returns with the emulator's result.
unfoldable pub state_tx_cnt : Option NeonAccountInfo → ℕ
state_tx_cnt none = 0
state_tx_cnt (some info) = info.tx_count

-- `NeonTxNonceValidator.precheck`
unfoldable pub precheck_nonce : NeonTx → ℕ → Check
precheck_nonce tx cnt =
    raise_if ((cnt == max_u64) || (tx.nonce == max_u64))
      (nonce_has_max_value tx.sender tx.nonce cnt)
    ⊳ raise_if (ltb tx.nonce cnt) (nonce_too_low tx.sender tx.nonce cnt)
