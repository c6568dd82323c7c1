-- ===== src/Rpc/Conditions.antt =====
-- The conditions of the single checks of `NeonTxValidator`
-- (proxy/neon_rpc_api_model/transaction_validator.py) on the sender, the price and the chain.
use proxy_model_py.Base.{
  ℕ, ◌+◌, ◌*◌, ◌≤◌, ◌≡◌, ◌↔◌, ◌⊎◌, refl, Bool, true, false, not, Option, none, some, nat_eq,
  string_eq, arith,
}
use proxy_model_py.Rpc.NeonTx.{
  NeonTx, Refusal, Check, refused, passed, ◌⊳◌, raise_if, has_chain_id, chain_id,
}
use proxy_model_py.Rpc.Validator.{
  NeonAccountInfo, NeonTxValidator, has_code, is_priced, check_chain_id,
}

pub both-passed : (a b : Check) → ((a ⊳ b) ≡ passed) ↔ ((a ≡ passed) × (b ≡ passed))
both-passed passed b = (λ h. (refl, h), λ h. h.1)
both-passed (refused e) b = (λ h. absurd cc, λ h. absurd cc)

-- Two checks in a row pass where both conditions hold.
pub both_iff :
    {P Q : Type 0} {a b : Check}
    → (a ≡ passed) ↔ P
    → (b ≡ passed) ↔ Q
    → ((a ⊳ b) ≡ passed) ↔ (P × Q)
both_iff {a = a} {b = b} p q = (
  λ h. (p.0 ((both-passed a b).0 h).0, q.0 ((both-passed a b).0 h).1),
  λ h. (both-passed a b).1 (p.1 h.0, q.1 h.1),
)

pub raise_if_iff :
    {P : Type 0} (b : Bool) (e : Refusal) → (b ≡ false) ↔ P → (raise_if b e ≡ passed) ↔ P
raise_if_iff true e p = (λ h. absurd cc, λ h. absurd (ground (arith, p.1 h)))
raise_if_iff false e p = (λ h. p.0 refl, λ h. refl)

-- The sender is no contract.
abbrev pub HasNoCode : Option NeonAccountInfo → Type 0
HasNoCode none = Unit
HasNoCode (some info) = info.code_size ≡ 0

pub has_code-HasNoCode : (info : Option NeonAccountInfo) → (has_code info ≡ false) ↔ HasNoCode info
has_code-HasNoCode none = (λ h. tt, λ h. refl)
has_code-HasNoCode (some info) = (λ h. ground (arith, h), λ h. ground (arith, h))

-- The price is that of the operator, or nothing is to be paid, or the operator takes transactions
-- without chain id for less.
abbrev pub IsPriced : NeonTxValidator → Type 0
IsPriced v =
    (v.config.min_gas_price ≤ v.tx.gas_price)
    ⊎ ((v.tx.gas_price ≡ 0) × (v.has_gas_less_permit ≡ true))
    ⊎ ((v.config.allow_underpriced_tx_wo_chainid ≡ true)
        × (has_chain_id v.tx ≡ false)
        × (v.config.min_wo_chainid_gas_price ≤ v.tx.gas_price))

pub is_priced-IsPriced : (v : NeonTxValidator) → (not (is_priced v) ≡ false) ↔ IsPriced v
unfolding is_priced
is_priced-IsPriced v = (λ h. ground (arith, h), λ h. ground (arith, h))

-- `v` of the signature is that of the chain, by EIP-155, or of a transaction without chain id.
abbrev pub IsOfChain : ℕ → NeonTx → Type 0
IsOfChain id tx =
    (has_chain_id tx ≡ false) ⊎ ((37 ≤ tx.v) × ((tx.v ≡ 2 * id + 35) ⊎ (tx.v ≡ 2 * id + 36)))

pub check_chain_id-IsOfChain :
    (id : ℕ) (tx : NeonTx) → (check_chain_id id tx.v (chain_id tx) ≡ passed) ↔ IsOfChain id tx
unfolding chain_id
check_chain_id-IsOfChain id tx = (λ h. ground (arith, h), λ h. ground (arith, h))
