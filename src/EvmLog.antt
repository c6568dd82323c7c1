-- ===== src/EvmLog.antt =====
-- `_NeonLogDecoder` of proxy/common_neon/utils/evm_log_decoder.py. Of Python's library, `base64.b64decode`
-- is the parameter `b64decode`, the reading of bytes as a text `utf8`, and `int` is `int`, a result since it
-- can raise; the first two are total here. The words of a line are decoded when it is split, and what the
-- decoders get is their bytes, which are lists of numbers. The lines of the proxy's own log are not modelled.
pub mod Lines
pub mod Splitting
pub mod Decoding
pub mod RoundTrip
pub mod Examples
use proxy_model_py.Base.{
  ℕ, ◌+◌, ◌*◌, String, Bool, true, false, not, Option, none, some, List, [], ◌∷◌, ◌++◌, ◌||◌, ◌==◌,
  nat_eq, string_eq, ltb, length, take, get_elem?, ℤ, pos, negsuc, if◌then◌else◌, Result, ok, err,
  index_error,
}

abbrev pub Bytes : Type 0
Bytes = List ℕ

-- `NeonLogTxEvent.Type`
pub data EventType : Type 0 where
  log : EventType
  enter_call enter_call_code enter_static_call enter_delegate_call enter_create enter_create2 :
      EventType
  exit_stop exit_return exit_self_destruct exit_revert : EventType
  return cancel : EventType

pub record NeonLogTxEvent : Type 0 where
  pub event_type : EventType
  pub is_hidden : Bool
  pub address : Bytes
  pub topic_list : List Bytes
  pub event_data : Bytes
  pub sol_sig : String
  pub idx : ℕ
  pub inner_idx : Option ℕ
  pub total_gas_used : ℕ
  pub is_reverted : Bool
  pub event_level : ℕ
  pub event_order : ℕ

-- An event with the defaults of the last fields.
unfoldable pub new_event : EventType → Bool → Bytes → List Bytes → Bytes → NeonLogTxEvent
new_event event_type is_hidden address topic_list event_data = record {
  event_type = event_type;
  is_hidden = is_hidden;
  address = address;
  topic_list = topic_list;
  event_data = event_data;
  sol_sig = "";
  idx = 0;
  inner_idx = none;
  total_gas_used = 0;
  is_reverted = false;
  event_level = 0;
  event_order = 0;
}

unfoldable pub is_exit_event_type : NeonLogTxEvent → Bool
is_exit_event_type e = elim e.event_type [
  | exit_stop ↦ true
  | exit_return ↦ true
  | exit_self_destruct ↦ true
  | exit_revert ↦ true
  | _ ↦ false
]

unfoldable pub is_start_event_type : NeonLogTxEvent → Bool
is_start_event_type e = elim e.event_type [
  | enter_call ↦ true
  | enter_call_code ↦ true
  | enter_static_call ↦ true
  | enter_delegate_call ↦ true
  | enter_create ↦ true
  | enter_create2 ↦ true
  | _ ↦ false
]

-- `NeonLogTxReturn` and `NeonLogTxIx`
pub record NeonLogTxReturn : Type 0 where
  pub gas_used : ℕ
  pub status : ℕ
  pub is_canceled : Bool

pub record NeonLogTxIx : Type 0 where
  pub gas_used : ℕ
  pub total_gas_used : ℕ

-- `NeonLogInfo`
pub record NeonLogInfo : Type 0 where
  pub neon_tx_sig : Option Bytes
  pub neon_tx_ix : Option NeonLogTxIx
  pub neon_tx_return : Option NeonLogTxReturn
  pub neon_tx_event_list : List NeonLogTxEvent
  pub is_truncated : Bool
  pub is_already_finalized : Bool

-- int.from_bytes(bs, "little")
unfoldable pub from_bytes : Bytes → ℕ
from_bytes [] = 0
from_bytes (b ∷ bs) = b + 256 * from_bytes bs

abbrev return_of : NeonLogTxIx → Bytes → NeonLogTxReturn
return_of ix bs = record {
  gas_used = ix.total_gas_used;
  status = if ltb (from_bytes bs) 208 then 1 else 0;
  is_canceled = false;
}

unfoldable pub decode_neon_tx_return : Option NeonLogTxIx → List Bytes → Option NeonLogTxReturn
unfolding from_bytes
decode_neon_tx_return neon_tx_ix [] = none
decode_neon_tx_return none (bs ∷ data_list) = none
decode_neon_tx_return (some ix) (bs ∷ data_list) = some (return_of ix bs)

unfoldable pub enter_type : String → Option EventType
enter_type type_name =
    if type_name == "CALL"
    then some enter_call
    else if type_name == "CALLCODE"
    then some enter_call_code
    else if type_name == "STATICCALL"
    then some enter_static_call
    else if type_name == "DELEGATECALL"
    then some enter_delegate_call
    else if type_name == "CREATE"
    then some enter_create
    else if type_name == "CREATE2"
    then some enter_create2
    else none

abbrev enter_event : Bytes → Option EventType → Option NeonLogTxEvent
enter_event address none = none
enter_event address (some event_type) =
    if length address == 20 then some (new_event event_type true address [] []) else none

unfoldable pub decode_neon_tx_enter : (Bytes → String) → List Bytes → Option NeonLogTxEvent
unfolding enter_type new_event
decode_neon_tx_enter utf8 (type_name ∷ address ∷ []) =
    enter_event address (enter_type (utf8 type_name))
decode_neon_tx_enter utf8 [] = none
decode_neon_tx_enter utf8 (type_name ∷ []) = none
decode_neon_tx_enter utf8 (type_name ∷ address ∷ more ∷ rest) = none

unfoldable pub exit_type : String → Option EventType
exit_type type_name =
    if type_name == "STOP"
    then some exit_stop
    else if type_name == "RETURN"
    then some exit_return
    else if type_name == "SELFDESTRUCT"
    then some exit_self_destruct
    else if type_name == "REVERT"
    then some exit_revert
    else none

abbrev pub first_or_empty : Option Bytes → Bytes
first_or_empty none = []
first_or_empty (some bs) = bs

abbrev exit_event : Bytes → Option EventType → Option NeonLogTxEvent
exit_event event_data none = none
exit_event event_data (some event_type) = some (new_event event_type true [] [] event_data)

unfoldable pub decode_neon_tx_exit : (Bytes → String) → List Bytes → Option NeonLogTxEvent
unfolding exit_type new_event
decode_neon_tx_exit utf8 [] = none
decode_neon_tx_exit utf8 (type_name ∷ data_list) =
    exit_event (first_or_empty (get_elem? data_list 0)) (exit_type (utf8 type_name))

-- The event with the topics and, where it is there, the data.
abbrev pub log_event : Bytes → ℕ → List Bytes → Result (Option NeonLogTxEvent)
log_event address topic_cnt words =
    if ltb (length words) topic_cnt
    then err index_error
    else ok (
        some (
          new_event log false address (take topic_cnt words)
            (first_or_empty (get_elem? words topic_cnt))))

unfoldable pub decode_neon_tx_event : ℤ → List Bytes → Result (Option NeonLogTxEvent)
unfolding from_bytes new_event
decode_neon_tx_event log_num [] = ok none
decode_neon_tx_event log_num (address ∷ []) = ok none
decode_neon_tx_event log_num (address ∷ cnt ∷ []) = ok none
decode_neon_tx_event (negsuc n) (address ∷ cnt ∷ word ∷ rest) = ok none
decode_neon_tx_event (pos n) (address ∷ cnt ∷ word ∷ rest) =
    if ltb 4 n || not (from_bytes cnt == n) then ok none else log_event address n (word ∷ rest)

unfoldable pub decode_neon_tx_sig : List Bytes → Option Bytes
decode_neon_tx_sig (tx_sig ∷ []) = if length tx_sig == 32 then some tx_sig else none
decode_neon_tx_sig [] = none
decode_neon_tx_sig (tx_sig ∷ more ∷ rest) = none

unfoldable pub decode_neon_tx_gas : List Bytes → Option NeonLogTxIx
unfolding from_bytes
decode_neon_tx_gas (gas ∷ total ∷ []) =
    some (record { gas_used = from_bytes gas; total_gas_used = from_bytes total })
decode_neon_tx_gas [] = none
decode_neon_tx_gas (gas ∷ []) = none
decode_neon_tx_gas (gas ∷ total ∷ more ∷ rest) = none
