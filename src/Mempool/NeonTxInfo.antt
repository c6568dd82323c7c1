-- ===== src/Mempool/NeonTxInfo.antt =====
-- `NeonTxInfo` of proxy/common_neon/utils/neon_tx_info.py: a decoded transaction, without the text that
-- its `__str__` keeps and the exception of a failed decoding.
use proxy_model_py.Base.{ℕ, String, Option, none}

pub record NeonTxInfo : Type 0 where
  pub addr : Option String
  pub sig : String
  pub tx_type : ℕ
  pub nonce : ℕ
  pub gas_price : ℕ
  pub gas_limit : ℕ
  pub to_addr : Option String
  pub contract : Option String
  pub value : ℕ
  pub calldata : String
  pub v : ℕ
  pub r : ℕ
  pub s : ℕ

unfoldable pub from_neon_sig : String → NeonTxInfo
from_neon_sig neon_sig = record {
  addr = none;
  sig = neon_sig;
  tx_type = 0;
  nonce = 0;
  gas_price = 0;
  gas_limit = 0;
  to_addr = none;
  contract = none;
  value = 0;
  calldata = "";
  v = 0;
  r = 0;
  s = 0;
}
