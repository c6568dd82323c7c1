-- ===== src/EvmLog/Decoding.antt =====
-- The loop of `decode_neon_log` of proxy/common_neon/utils/evm_log_decoder.py.
use proxy_model_py.Base.{
  String, true, false, Option, none, some, List, [], ◌∷◌, ◌++◌, ◌==◌, string_eq, ℤ, if◌then◌else◌,
  Result, ok, ◌>>=◌,
}
use proxy_model_py.EvmLog.{
  Bytes, NeonLogTxEvent, NeonLogInfo, decode_neon_tx_return, decode_neon_tx_enter,
  decode_neon_tx_exit, decode_neon_tx_event, decode_neon_tx_sig, decode_neon_tx_gas,
}
use proxy_model_py.EvmLog.Lines.{strip_prefix, decode_mnemonic}

abbrev pub empty_info : NeonLogInfo
empty_info = record {
  neon_tx_sig = none;
  neon_tx_ix = none;
  neon_tx_return = none;
  neon_tx_event_list = [];
  is_truncated = false;
  is_already_finalized = false;
}

-- The value that is there, or the new one.
abbrev or_new : {A : Type 0} → Option A → Option A → Option A
or_new none new = new
or_new (some old) new = some old

abbrev pub add_event : NeonLogInfo → Option NeonLogTxEvent → NeonLogInfo
add_event info none = info
add_event info (some event) = record info {
  neon_tx_event_list = info.neon_tx_event_list ++ (event ∷ []);
}

-- The mnemonics after those that begin with `LOG`.
unfoldable pub decode_call : (Bytes → String) → NeonLogInfo → String → List Bytes → NeonLogInfo
decode_call utf8 info name data_list =
    if name == "ENTER"
    then add_event info (decode_neon_tx_enter utf8 data_list)
    else if name == "EXIT"
    then add_event info (decode_neon_tx_exit utf8 data_list)
    else if name == "GAS"
    then record info { neon_tx_ix = or_new info.neon_tx_ix (decode_neon_tx_gas data_list) }
    else info

-- The branch on `name.startswith('LOG')`.
abbrev pub decode_log :
    (Bytes → String)
    → (String → Result ℤ)
    → NeonLogInfo
    → String
    → List Bytes
    → Option String
    → Result NeonLogInfo
decode_log utf8 int info name data_list none = ok (decode_call utf8 info name data_list)
decode_log utf8 int info name data_list (some digits) = do
  log_num ← int digits
  event ← decode_neon_tx_event log_num data_list
  ok (add_event info event)

module _ (b64decode : String → Bytes) (utf8 : Bytes → String) (int : String → Result ℤ) where
  unfoldable pub decode_named : NeonLogInfo → String → List Bytes → Result NeonLogInfo
  unfolding decode_call
  decode_named info name data_list =
      if name == ""
      then ok info
      else if name == "HASH"
      then ok (record info { neon_tx_sig = or_new info.neon_tx_sig (decode_neon_tx_sig data_list) })
      else if name == "RETURN"
      then ok (record info {
        neon_tx_return =
            or_new info.neon_tx_return (decode_neon_tx_return info.neon_tx_ix data_list);
      })
      else decode_log utf8 int info name data_list (strip_prefix "LOG" name)

  unfoldable pub decode_line : NeonLogInfo → String → Result NeonLogInfo
  unfolding decode_named
  decode_line info line =
      if line == "Log truncated"
      then ok (record info { is_truncated = true })
      else if line == "Program log: Storage Account is finalized"
      then ok (record info { is_already_finalized = true })
      else (let read = decode_mnemonic b64decode utf8 line in decode_named info read.0 read.1)

  unfoldable pub decode_lines : NeonLogInfo → List String → Result NeonLogInfo
  unfolding decode_line
  decode_lines info [] = ok info
  decode_lines info (line ∷ lines) = decode_line info line >>= λ info. decode_lines info lines

  unfoldable pub decode_neon_log : List String → Result NeonLogInfo
  unfolding decode_lines
  decode_neon_log log_iter = decode_lines empty_info log_iter
