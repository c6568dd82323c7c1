-- ===== src/Mempool/TxRequest.antt =====
-- The requests and results of proxy/mempool/mempool_api.py that the schedule and the mempool work on.
use proxy_model_py.Base.{ℕ, String, Bool, Option, some, List}
use proxy_model_py.Mempool.NeonTxInfo.{NeonTxInfo}

-- `NeonTxExecCfg` of proxy/common_neon/data.py without `state_tx_cnt`, as far as the mempool reads it.
pub record ExecCfg : Type 0 where
  pub alt_address_list : List String
  pub is_resource_used : Bool
  pub has_completed_receipt : Bool

-- What `neon_tx_info` holds besides the sender, the nonce and the signature.
pub record Payload : Type 0 where
  pub tx_type : ℕ
  pub gas_price : ℕ
  pub gas_limit : ℕ
  pub to_addr : Option String
  pub contract : Option String
  pub value : ℕ
  pub calldata : String
  pub v : ℕ
  pub r : ℕ
  pub s : ℕ

-- `MPTxRequest`: `sig`, `sender_address` and `nonce` come from `neon_tx_info`, of which `payload` is the
-- rest, and `state_tx_cnt` is that of `neon_tx_exec_cfg`, of which `exec_cfg` is the rest.
pub record TxRequest : Type 0 where
  pub sig : String
  pub sender_address : String
  pub nonce : ℕ
  pub gas_price : ℕ
  pub state_tx_cnt : ℕ
  pub exec_cfg : ExecCfg
  pub payload : Payload

unfoldable pub neon_tx_info : TxRequest → NeonTxInfo
neon_tx_info tx = record {
  addr = some tx.sender_address;
  sig = tx.sig;
  tx_type = tx.payload.tx_type;
  nonce = tx.nonce;
  gas_price = tx.payload.gas_price;
  gas_limit = tx.payload.gas_limit;
  to_addr = tx.payload.to_addr;
  contract = tx.payload.contract;
  value = tx.payload.value;
  calldata = tx.payload.calldata;
  v = tx.payload.v;
  r = tx.payload.r;
  s = tx.payload.s;
}

-- `MPTxSendResultCode`
pub data SendResultCode : Type 0 where
  success nonce_too_low underprice already_known unspecified : SendResultCode

-- `MPTxSendResult`
pub record SendResult : Type 0 where
  pub code : SendResultCode
  pub state_tx_cnt : Option ℕ

-- `MPSenderTxCntData`
pub record SenderTxCntData : Type 0 where
  pub sender : String
  pub state_tx_cnt : ℕ
