-- ===== src/Mempool/MemPool/State.antt =====
-- The state of `MemPool` of proxy/mempool/mempool.py, the requests that it hands to executors, and the
-- calls that take transactions in. The clock comes as an argument. What the public keys of an
-- operator's resources stand for is the parameter `private_key`.
use proxy_model_py.Base.{
  ℕ, ◌*◌, String, Bool, true, false, Option, none, some, List, [], not, ◌==◌, ◌||◌, nat_eq,
  if◌then◌else◌, Result, ok, ◌>>=◌,
}
use proxy_model_py.Mempool.TxRequest.{
  TxRequest, ExecCfg, neon_tx_info, SendResult, already_known, unspecified,
}
use proxy_model_py.Mempool.Schedule.State.{Schedule}
use proxy_model_py.Mempool.Schedule.Calls.{reply}
use proxy_model_py.Mempool.Schedule.Calls
use proxy_model_py.Mempool.CompletedTxDict.{TxDict, Outcome, completed, get_tx}
use proxy_model_py.Mempool.StuckTxDict.{StuckTxDict, StuckTxInfo}
use proxy_model_py.Mempool.ExecutorMng.{ExecutorMng}
use proxy_model_py.Mempool.FreeAltQueue.{FreeAltQueue, add_alt_address_list}
use proxy_model_py.Resources
use proxy_model_py.Resources.{OpResMng, OpResIdent}

-- `MPTxExecRequest`; `is_stuck_tx` is the method of this name. For a stuck transaction `tx` has what is
-- known of it, and the empty text where no sender is.
pub record ExecRequest : Type 0 where
  pub tx : TxRequest
  pub is_stuck_tx : Bool
  pub holder_account : Option String
  pub res_ident : OpResIdent

unfoldable pub from_tx_req : TxRequest → OpResIdent → ExecRequest
from_tx_req tx res_ident = record {
  tx = tx;
  is_stuck_tx = false;
  holder_account = none;
  res_ident = res_ident;
}

abbrev pub or_empty : Option String → String
or_empty none = ""
or_empty (some s) = s

abbrev pub new_exec_cfg : ExecCfg
new_exec_cfg = record {
  alt_address_list = [];
  is_resource_used = false;
  has_completed_receipt = false;
}

unfoldable pub from_stuck_tx : StuckTxInfo → OpResIdent → ExecRequest
from_stuck_tx stuck_tx res_ident =
    let info = stuck_tx.neon_tx in
    record {
      tx = record {
        sig = info.sig;
        sender_address = or_empty info.addr;
        nonce = info.nonce;
        gas_price = info.gas_price;
        state_tx_cnt = 0;
        exec_cfg = new_exec_cfg;
        payload = record {
          tx_type = info.tx_type;
          gas_price = info.gas_price;
          gas_limit = info.gas_limit;
          to_addr = info.to_addr;
          contract = info.contract;
          value = info.value;
          calldata = info.calldata;
          v = info.v;
          r = info.r;
          s = info.s;
        };
      };
      is_stuck_tx = true;
      holder_account = some stuck_tx.holder_account;
      res_ident = res_ident;
    }

-- `MPTask`
pub record Task : Type 0 where
  pub executor_id : ℕ
  pub mp_request : ExecRequest

-- `MPGasPriceResult`
pub record GasPriceResult : Type 0 where
  pub suggested_gas_price : ℕ
  pub min_gas_price : ℕ

-- `waiting_tx_list` has the requests of the coroutines `_reschedule_tx` that still sleep.
pub record MemPool (Info : Type 0) : Type 0 where
  pub tx_schedule : Schedule
  pub processing_task_list : List Task
  pub rescheduled_tx_queue : List ExecRequest
  pub waiting_tx_list : List ExecRequest
  pub is_active : Bool
  pub executor_mng : ExecutorMng Info
  pub op_res_mng : OpResMng
  pub completed_tx_dict : TxDict
  pub stuck_tx_dict : StuckTxDict
  pub free_alt_queue : FreeAltQueue
  pub gas_price : Option GasPriceResult

-- `NeonTxInfo.has_chain_id`
unfoldable pub has_chain_id : TxRequest → Bool
has_chain_id tx = not ((tx.payload.v == 0) || (tx.payload.v == 27) || (tx.payload.v == 28))

abbrev pub with_gas_price : Option GasPriceResult → TxRequest → Option TxRequest
with_gas_price none tx = none
with_gas_price (some g) tx = some (record tx { gas_price = g.suggested_gas_price * 2 })

module _ {Info : Type 0} where
  -- `_update_gas_price`: the request with its price, or nothing when it cannot be priced.
  unfoldable pub update_gas_price : MemPool Info → TxRequest → Option TxRequest
  update_gas_price m tx =
      if not (has_chain_id tx) || (tx.gas_price == 0)
      then with_gas_price m.gas_price tx
      else some tx

  abbrev pub add_priced : MemPool Info → Option TxRequest → Result (MemPool Info × SendResult)
  add_priced m none = ok (m, reply unspecified none)
  add_priced m (some tx) = do
    r ← Calls.add_tx m.tx_schedule tx
    ok (record m { tx_schedule = r.1 }, r.0)

  -- `schedule_mp_tx_request`; an exception of `add_tx` is answered with `unspecified`.
  unfoldable pub schedule_mp_tx_request :
      MemPool Info → TxRequest → Result (MemPool Info × SendResult)
  schedule_mp_tx_request m tx = elim (get_tx m.completed_tx_dict tx.sig) [
    | some outcome ↦ ok (m, reply already_known none)
    | none ↦ add_priced m (update_gas_price m tx)
  ]

  -- `get_pending_tx_by_hash`
  unfoldable pub get_pending_tx_by_hash : MemPool Info → String → Option Outcome
  get_pending_tx_by_hash m sig = elim (Calls.get_pending_tx_by_hash m.tx_schedule sig) [
    | some tx ↦ some (completed (neon_tx_info tx))
    | none ↦ get_tx m.completed_tx_dict sig
  ]

  unfoldable pub suspend_processing : MemPool Info → MemPool Info
  suspend_processing m = record m { is_active = false }

  unfoldable pub resume_processing : MemPool Info → MemPool Info
  resume_processing m = record m { is_active = true }

  module _ (private_key : OpResIdent → String) (recheck_cnt : ℕ) where
    abbrev pub add_alts :
        MemPool Info → ExecRequest → Option OpResIdent → MemPool Info × Option OpResIdent
    add_alts m req none = (m, none)
    add_alts m req (some ident) = (
      record m {
        free_alt_queue =
            add_alt_address_list m.free_alt_queue req.tx.exec_cfg.alt_address_list
              (private_key ident);
      },
      some ident,
    )

    -- `_release_resource`
    unfoldable pub release_resource : MemPool Info → ExecRequest → MemPool Info × Option OpResIdent
    release_resource m req =
        let r = Resources.release_resource recheck_cnt m.op_res_mng req.tx.sig in
        add_alts (record m { op_res_mng = r.0 }) req r.1
