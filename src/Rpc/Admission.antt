-- ===== src/Rpc/Admission.antt =====
-- What `NeonTxValidator.precheck` of proxy/neon_rpc_api_model/transaction_validator.py lets through.
use proxy_model_py.Base.{
  ℕ, ◌+◌, ◌-◌, ◌*◌, ◌^◌, ◌≤◌, ◌<◌, ◌≡◌, ◌≢◌, ◌↔◌, ◌⊎◌, inl, inr, refl, subst, String, true, false,
  not, Option, none, some, List, [], ◌∷◌, nat_eq, string_eq, ltb, length, if◌then◌else◌, All, arith,
  Bool-cases,
}
use proxy_model_py.Rpc.NeonTx.{
  sender_not_eoa, gas_overflow, fee_overflow, underpriced, passed, ◌⊳◌, AccountDesc, EmulatedResult,
}
use proxy_model_py.Rpc.Estimate.{estimate}
use proxy_model_py.Rpc.Validator.{
  max_u64, max_u256, NeonTxValidator, is_underpriced_tx_wo_chainid, has_code,
  prevalidate_sender_eoa, is_priced, prevalidate_tx_gas, prevalidate_tx_chain_id,
  prevalidate_tx_size, balance_of, prevalidate_sender_balance,
  prevalidate_underpriced_tx_wo_chainid, prevalidate_tx, check_emulated_exit_status,
  prevalidate_gas_usage, check_size, prevalidate_account_sizes, prevalidate_account_cnt,
  prevalidate_emulator, Emulation, failed, emulated, validate_emulation, precheck,
}
use proxy_model_py.Rpc.Conditions.{
  both-passed, both_iff, raise_if_iff, has_code-HasNoCode, is_priced-IsPriced,
  check_chain_id-IsOfChain, HasNoCode, IsPriced, IsOfChain,
}

-- No contract grows beyond 9.5 Mb.
abbrev pub IsSmall : AccountDesc → Type 0
IsSmall a =
    (size : ℕ) (address : String)
    → a.size ≡ some size
    → a.address ≡ some address
    → address ≢ ""
    → size ≤ 9961472

check_size-small :
    (size : Option ℕ) (address : Option String)
    → (check_size size address ≡ passed)
      ↔ ((n : ℕ) (s : String) → size ≡ some n → address ≡ some s → s ≢ "" → n ≤ 9961472)
check_size-small none address = (λ h n s is_n is_s filled. absurd cc, λ h. refl)
check_size-small (some size) none = (λ h n s is_n is_s filled. absurd cc, λ h. refl)
check_size-small (some size) (some address) = (
  λ h n s is_n is_s filled. ground (arith, h, is_n, is_s, filled, string_eq.same_iff address ""),
  λ h. ground (arith, h size address refl refl, string_eq.same_iff address ""),
)

prevalidate_account_sizes-IsSmall :
    (accounts : List AccountDesc)
    → (prevalidate_account_sizes accounts ≡ passed) ↔ All IsSmall accounts
unfolding prevalidate_account_sizes
prevalidate_account_sizes-IsSmall [] = (λ h. tt, λ h. refl)
prevalidate_account_sizes-IsSmall (a ∷ accounts) =
    let split = both-passed (check_size a.size a.address) (prevalidate_account_sizes accounts) in
    let first = check_size-small a.size a.address in
    let rest = prevalidate_account_sizes-IsSmall accounts in
    (λ h. (first.0 (split.0 h).0, rest.0 (split.0 h).1), λ h. split.1 (first.1 h.0, rest.1 h.1))

-- The emulation succeeded within the gas limit, or its outcome does not matter.
abbrev pub Succeeds : NeonTxValidator → EmulatedResult → Type 0
Succeeds v r =
    (v.config.accept_reverted_tx_into_mempool ≡ true)
    ⊎ ((r.exit_status ≡ "succeed") × (estimate v.config.gas_params v.tx r ≤ v.tx_gas_limit))

abbrev pub IsAccepted : NeonTxValidator → Emulation → Type 0
IsAccepted v (failed nonce_error) = ⊥
IsAccepted v (emulated r) =
    Succeeds v r
    × All IsSmall r.accounts
    × (length r.accounts + length r.solana_accounts ≤ v.config.max_tx_account_cnt)

exit_status-succeed :
    (r : EmulatedResult) → (check_emulated_exit_status r ≡ passed) ↔ (r.exit_status ≡ "succeed")
unfolding check_emulated_exit_status
exit_status-succeed r =
    (λ h. ground (arith, h, string_eq.same_iff r.exit_status "succeed"), λ h. rw h refl)

outcome-Succeeds :
    (v : NeonTxValidator) (r : EmulatedResult)
    → ((if v.config.accept_reverted_tx_into_mempool
          then passed
          else (check_emulated_exit_status r ⊳ prevalidate_gas_usage v r))
        ≡ passed)
      ↔ Succeeds v r
unfolding prevalidate_gas_usage
outcome-Succeeds v r =
    let split = both-passed (check_emulated_exit_status r) (prevalidate_gas_usage v r) in
    let status = exit_status-succeed r in
    elim (Bool-cases v.config.accept_reverted_tx_into_mempool) [
      | inl accepts ↦ (λ h. inl accepts, λ h. rw accepts refl)
      | inr checks ↦ (
        λ h.
            let both = split.0 (
              subst
                (λ b.
                  (if b then passed else (check_emulated_exit_status r ⊳ prevalidate_gas_usage v r))
                  ≡ passed)
                checks h) in
            inr (status.0 both.0, ground (arith, both.1)),
        λ h. elim h [
          | inl accepts ↦ absurd cc
          | inr (succeeds, fits) ↦ rw checks (split.1 (status.1 succeeds, ground (arith, fits)))
        ],
      )
    ]

few_accounts :
    (v : NeonTxValidator) (r : EmulatedResult)
    → (prevalidate_account_cnt v r ≡ passed)
      ↔ (length r.accounts + length r.solana_accounts ≤ v.config.max_tx_account_cnt)
unfolding prevalidate_account_cnt
few_accounts v r = (λ h. ground (arith, h), λ h. ground (arith, h))

validate_emulation-IsAccepted :
    (v : NeonTxValidator) (call : Emulation)
    → (validate_emulation v call ≡ passed) ↔ IsAccepted v call
unfolding validate_emulation prevalidate_emulator
validate_emulation-IsAccepted v (failed nonce_error) = (λ h. absurd cc, λ h. absurd h)
validate_emulation-IsAccepted v (emulated r) =
    let all =
      both_iff (both_iff (outcome-Succeeds v r) (prevalidate_account_sizes-IsSmall r.accounts))
        (few_accounts v r) in
    (λ h. let ((ok, small), few) = all.0 h in (ok, small, few), λ h. all.1 ((h.0, h.1), h.2))

-- What a transaction that passes satisfies.
abbrev pub IsAdmitted : NeonTxValidator → Emulation → Type 0
IsAdmitted v call =
    HasNoCode v.neon_account_info
    × (v.tx_gas_limit < 2 ^ 64)
    × (v.tx_gas_limit * v.tx.gas_price < 2 ^ 256 - 1)
    × IsPriced v
    × IsOfChain v.config.chain_id v.tx
    × (length v.tx.call_data ≤ 130048)
    × (v.tx.gas_price * v.tx_gas_limit + v.tx.value ≤ balance_of v.neon_account_info)
    × ((is_underpriced_tx_wo_chainid v ≡ false) ⊎ (v.config.allow_underpriced_tx_wo_chainid ≡ true))
    × IsAccepted v call

eoa-HasNoCode :
    (v : NeonTxValidator) → (prevalidate_sender_eoa v ≡ passed) ↔ HasNoCode v.neon_account_info
unfolding prevalidate_sender_eoa
eoa-HasNoCode v =
    raise_if_iff (has_code v.neon_account_info) sender_not_eoa
      (has_code-HasNoCode v.neon_account_info)

gas-IsPriced :
    (v : NeonTxValidator)
    → (prevalidate_tx_gas v ≡ passed)
      ↔ (((v.tx_gas_limit < 2 ^ 64) × (v.tx_gas_limit * v.tx.gas_price < 2 ^ 256 - 1)) × IsPriced v)
unfolding prevalidate_tx_gas
gas-IsPriced v =
    both_iff
      (both_iff
        (raise_if_iff (ltb max_u64 v.tx_gas_limit) gas_overflow
          (λ h. ground (arith, h), λ h. ground (arith, h)))
        (raise_if_iff (ltb (max_u256 - 1) (v.tx_gas_limit * v.tx.gas_price)) fee_overflow
          (λ h. ground (arith, h), λ h. ground (arith, h))))
      (raise_if_iff (not (is_priced v)) (underpriced v.tx.gas_price v.config.min_gas_price)
        (is_priced-IsPriced v))

chain_id-IsOfChain :
    (v : NeonTxValidator) → (prevalidate_tx_chain_id v ≡ passed) ↔ IsOfChain v.config.chain_id v.tx
unfolding prevalidate_tx_chain_id
chain_id-IsOfChain v = check_chain_id-IsOfChain v.config.chain_id v.tx

size_lem :
    (v : NeonTxValidator) → (prevalidate_tx_size v ≡ passed) ↔ (length v.tx.call_data ≤ 130048)
unfolding prevalidate_tx_size
size_lem v = (λ h. ground (arith, h), λ h. ground (arith, h))

balance_lem :
    (v : NeonTxValidator)
    → (prevalidate_sender_balance v ≡ passed)
      ↔ (v.tx.gas_price * v.tx_gas_limit + v.tx.value ≤ balance_of v.neon_account_info)
unfolding prevalidate_sender_balance
balance_lem v = (λ h. ground (arith, h), λ h. ground (arith, h))

underpriced_lem :
    (v : NeonTxValidator)
    → (prevalidate_underpriced_tx_wo_chainid v ≡ passed) ↔ (
        (is_underpriced_tx_wo_chainid v ≡ false)
        ⊎ (v.config.allow_underpriced_tx_wo_chainid ≡ true))
unfolding prevalidate_underpriced_tx_wo_chainid
underpriced_lem v = (λ h. ground (arith, h), λ h. ground (arith, h))

-- `precheck` passes exactly the transactions that are admitted: of a sender that is no contract, with
-- gas and fee in their ranges, a sufficient price, the chain's id or none, call data of at most 127 Kb,
-- a balance that covers the cost, and an emulation that succeeds within the gas limit (where the operator
-- does not take reverted ones) and needs neither large nor too many accounts.
pub precheck-IsAdmitted :
    (v : NeonTxValidator) (call : Emulation) → (precheck v call ≡ passed) ↔ IsAdmitted v call
unfolding precheck prevalidate_tx
precheck-IsAdmitted v call =
    let all =
      both_iff
        (both_iff
          (both_iff
            (both_iff
              (both_iff (both_iff (eoa-HasNoCode v) (gas-IsPriced v)) (chain_id-IsOfChain v))
              (size_lem v))
            (balance_lem v))
          (underpriced_lem v))
        (validate_emulation-IsAccepted v call) in
    (
      λ h.
          let ((((((code, ((limit, fee), priced)), chain), size), balance), wo), accepted) =
            all.0 h in
          (code, limit, fee, priced, chain, size, balance, wo, accepted),
      λ h.
          let (code, limit, fee, priced, chain, size, balance, wo, accepted) = h in
          all.1 ((((((code, ((limit, fee), priced)), chain), size), balance), wo), accepted),
    )
