-- ===== src/Rpc/NeonTx.antt =====
-- `NeonTx` of proxy/common_neon/utils/eth_proto.py, as far as the validators read it. Bytes are lists of
-- numbers; the sender, which is recovered from the signature, is a field. What the emulator
-- says of a transaction is `EmulatedResult`.
use proxy_model_py.Base.{
  ℕ, ◌-◌, ◌/◌, String, Bool, not, Option, none, some, List, [], ◌∷◌, is_in, nat_eq, leb,
  if◌then◌else◌,
}

pub record NeonTx : Type 0 where
  pub nonce : ℕ
  pub gas_price : ℕ
  pub gas_limit : ℕ
  pub to_address : List ℕ
  pub value : ℕ
  pub call_data : List ℕ
  pub v : ℕ
  pub sender : String

-- Why a transaction is refused: the texts of the `EthereumError`s, with the numbers in them.
pub data Refusal : Type 0 where
  gas_overflow fee_overflow wrong_chain_id size_too_big sender_not_eoa underpriced_not_allowed :
      Refusal
  underpriced : ℕ → ℕ → Refusal
  insufficient_funds_for_transfer insufficient_funds : ℕ → ℕ → Refusal
  gas_limit_reached : ℕ → ℕ → Refusal
  size_increase : String → Refusal
  too_many_accounts : ℕ → Refusal
  execution_reverted : Option String → Refusal
  execution_finished : String → Option String → Refusal
  nonce_too_low nonce_has_max_value : String → ℕ → ℕ → Refusal
  invalid_v : ℕ → Refusal
  emulator_error : Refusal

-- What a check does: it raises or returns.
pub data Check : Type 0 where
  refused : Refusal → Check
  passed : Check

infixl 4 ◌⊳◌
abbrev pub ◌⊳◌ : Check → Check → Check
refused e ⊳ next = refused e
passed ⊳ next = next

-- if b: raise e
abbrev pub raise_if : Bool → Refusal → Check
raise_if b e = if b then refused e else passed

unfoldable pub has_chain_id : NeonTx → Bool
has_chain_id tx = not (is_in tx.v (0 ∷ 27 ∷ 28 ∷ []))

-- What `chain_id` gives for a transaction that has one and for another, and `none` where it raises.
unfoldable pub chain_id : NeonTx → Option (Option ℕ)
unfolding has_chain_id
chain_id tx =
    if not (has_chain_id tx)
    then some none
    else if leb 37 tx.v
    then some (some ((tx.v - 1) / 2 - 17))
    else none

-- An account of the emulator's list.
pub record AccountDesc : Type 0 where
  pub account : String
  pub size : Option ℕ
  pub address : Option String

pub record EmulatedResult : Type 0 where
  pub exit_status : String
  pub result : Option String
  pub exit_reason : Option String
  pub used_gas : ℕ
  pub steps_executed : ℕ
  pub accounts : List AccountDesc
  pub solana_accounts : List String
