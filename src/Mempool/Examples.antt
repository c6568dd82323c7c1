-- ===== src/Mempool/Examples.antt =====
-- Requests and pools to run proxy/mempool on.
pub mod Queues
pub mod Pools
pub mod Schedules
pub mod Outcomes
pub mod Executors
pub mod Tables
pub mod MemPools
use proxy_model_py.Base.{ℕ, refl, some, false, none, List, [], ◌∷◌, String, string_eq, pair_eq}
use proxy_model_py.Dict
use proxy_model_py.Mempool.TxRequest.{TxRequest, ExecCfg, Payload}
use proxy_model_py.Mempool.RequestDict.{RequestDict}
use proxy_model_py.Mempool.RequestDict
use proxy_model_py.Mempool.RequestDict.Consistency.{IsConsistent, after_add, after_add-IsConsistent}
use proxy_model_py.Mempool.RequestDict.Removal.{IsHeld}

abbrev pub no_cfg : ExecCfg
no_cfg = record { alt_address_list = []; is_resource_used = false; has_completed_receipt = false }

abbrev pub transfer : Payload
transfer = record {
  tx_type = 0;
  gas_price = 5;
  gas_limit = 21000;
  to_addr = none;
  contract = none;
  value = 1;
  calldata = "";
  v = 27;
  r = 1;
  s = 1;
}

abbrev pub request : String → String → ℕ → ℕ → TxRequest
request sig sender nonce price = record {
  sig = sig;
  sender_address = sender;
  nonce = nonce;
  gas_price = price;
  state_tx_cnt = 0;
  exec_cfg = no_cfg;
  payload = transfer;
}

abbrev pub tx_a : TxRequest
tx_a = request "a0" "A" 0 5

abbrev pub tx_b : TxRequest
tx_b = request "a1" "A" 1 3

pub empty-IsConsistent : IsConsistent RequestDict.empty
unfolding RequestDict.empty Dict.get
empty-IsConsistent = record {
  unique_hash = tt;
  unique_nonce = tt;
  by_hash = λ sig tx h. cc;
  by_nonce = λ k tx h. cc;
  same_length = refl;
  sorted = tt;
  distinct = tt;
  listed = tt;
}

-- A dict with one request.
abbrev pub dict_a : RequestDict
dict_a = after_add RequestDict.empty tx_a

pub dict_a-IsConsistent : IsConsistent dict_a
unfolding RequestDict.empty Dict.get
dict_a-IsConsistent = after_add-IsConsistent RequestDict.empty tx_a empty-IsConsistent refl refl

pub dict_a-IsHeld : IsHeld dict_a tx_a tx_a
unfolding after_add
dict_a-IsHeld = record {
  found = Dict.get-put_self _ "a0" tx_a;
  sender = refl;
  nonce = refl;
  price = refl;
}
