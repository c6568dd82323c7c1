-- ===== src/Mempool/StuckTxDict.antt =====
-- `MPStuckTxDict` of proxy/mempool/mempool_stuck_tx_dict.py: transactions that some executor left
-- unfinished. `completed` is the test `sig in completed_tx_dict` of `MPTxDict`.
pub mod Lookup
pub mod Listing
use proxy_model_py.Base.{
  ℕ, String, Bool, Option, none, some, List, [], ◌∷◌, true, false, ◌==◌, ◌||◌, string_eq,
  if◌then◌else◌, Result, ok, err, assertion_error, key_error, is_some,
}
use proxy_model_py.Dict
use proxy_model_py.Dict.{Dict}
use proxy_model_py.Mempool.NeonTxInfo.{NeonTxInfo, from_neon_sig}

-- `MPStuckTxInfo`
pub record StuckTxInfo : Type 0 where
  pub neon_tx : NeonTxInfo
  pub holder_account : String
  pub alt_addr_list : List String
  pub start_time : ℕ

unfoldable pub sig : StuckTxInfo → String
sig tx = tx.neon_tx.sig

-- `StuckTxError`, as far as it is read here.
pub record StuckTxError : Type 0 where
  pub neon_tx_sig : String
  pub holder_account : String

pub record StuckTxDict : Type 0 where
  pub own_tx_dict : Dict String StuckTxInfo
  pub external_tx_dict : Dict String StuckTxInfo
  pub processed_tx_dict : Dict String StuckTxInfo

unfoldable pub init : StuckTxDict
init = record { own_tx_dict = []; external_tx_dict = []; processed_tx_dict = [] }

module _ (completed : String → Bool) where
  -- A round of the loop of `add_external_tx_list`, on the own transactions and `tx_dict`.
  unfoldable pub external_round :
      Dict String StuckTxInfo
      → StuckTxInfo
      → Dict String StuckTxInfo × Dict String StuckTxInfo
      → Dict String StuckTxInfo × Dict String StuckTxInfo
  external_round processed tx (own, tx_dict) =
      if Dict.contains own (sig tx)
      then (Dict.put own (sig tx) tx, Dict.put tx_dict (sig tx) tx)
      else if Dict.contains processed (sig tx)
      then (own, tx_dict)
      else if completed (sig tx)
      then (own, tx_dict)
      else (own, Dict.put tx_dict (sig tx) tx)

  unfoldable pub external_loop :
      Dict String StuckTxInfo
      → List StuckTxInfo
      → Dict String StuckTxInfo × Dict String StuckTxInfo
      → Dict String StuckTxInfo × Dict String StuckTxInfo
  external_loop processed [] dicts = dicts
  external_loop processed (tx ∷ stuck_tx_list) dicts =
      external_loop processed stuck_tx_list (external_round processed tx dicts)

  unfoldable pub add_external_tx_list : StuckTxDict → List StuckTxInfo → StuckTxDict
  add_external_tx_list d stuck_tx_list =
      let r = external_loop d.processed_tx_dict stuck_tx_list (d.own_tx_dict, []) in
      record d { own_tx_dict = r.0; external_tx_dict = r.1 }

  abbrev pub or_default : StuckTxInfo → Option StuckTxInfo → StuckTxInfo
  or_default tx none = tx
  or_default tx (some found) = found

  unfoldable pub add_own_tx : StuckTxDict → StuckTxError → ℕ → StuckTxDict
  add_own_tx d stuck_tx_error time_ns =
      let neon_tx_sig = stuck_tx_error.neon_tx_sig in
      let stuck_tx : StuckTxInfo = record {
        neon_tx = from_neon_sig neon_tx_sig;
        holder_account = stuck_tx_error.holder_account;
        alt_addr_list = [];
        start_time = time_ns;
      } in
      if Dict.contains d.processed_tx_dict neon_tx_sig
      then d
      else if Dict.contains d.own_tx_dict neon_tx_sig
      then d
      else if completed neon_tx_sig
      then d
      else record d {
        external_tx_dict = Dict.remove d.external_tx_dict neon_tx_sig;
        own_tx_dict =
            Dict.put d.own_tx_dict neon_tx_sig
              (or_default stuck_tx (Dict.get d.external_tx_dict neon_tx_sig));
      }

-- The first value of a dict.
abbrev pub first_value : Dict String StuckTxInfo → Option StuckTxInfo
first_value [] = none
first_value ((k, tx) ∷ d) = some tx

abbrev pub or_else : Option StuckTxInfo → Option StuckTxInfo → Option StuckTxInfo
or_else none other = other
or_else (some tx) other = some tx

unfoldable pub peek_tx : StuckTxDict → Option StuckTxInfo
peek_tx d = or_else (first_value d.own_tx_dict) (first_value d.external_tx_dict)

-- `acquire_tx`: the own dict is asked first, and the external one only when that has no entry.
unfoldable pub acquire_tx : StuckTxDict → StuckTxInfo → Result (StuckTxDict × StuckTxInfo)
acquire_tx d tx = elim (Dict.get d.own_tx_dict (sig tx)) [
  | some stuck_tx ↦ ok (
    record d {
      own_tx_dict = Dict.remove d.own_tx_dict (sig tx);
      processed_tx_dict = Dict.put d.processed_tx_dict (sig tx) stuck_tx;
    },
    stuck_tx,
  )
  | none ↦ elim (Dict.get d.external_tx_dict (sig tx)) [
    | some stuck_tx ↦ ok (
      record d {
        external_tx_dict = Dict.remove d.external_tx_dict (sig tx);
        processed_tx_dict = Dict.put d.processed_tx_dict (sig tx) stuck_tx;
      },
      stuck_tx,
    )
    | none ↦ err assertion_error
  ]
]

unfoldable pub skip_tx : StuckTxDict → StuckTxInfo → Result StuckTxDict
skip_tx d tx =
    if Dict.contains d.own_tx_dict (sig tx)
    then ok (record d { own_tx_dict = Dict.remove d.own_tx_dict (sig tx) })
    else if Dict.contains d.external_tx_dict (sig tx)
    then ok (record d { external_tx_dict = Dict.remove d.external_tx_dict (sig tx) })
    else if Dict.contains d.processed_tx_dict (sig tx)
    then ok (record d { processed_tx_dict = Dict.remove d.processed_tx_dict (sig tx) })
    else err assertion_error

unfoldable pub done_tx : StuckTxDict → String → Result StuckTxDict
done_tx d neon_sig =
    if Dict.contains d.processed_tx_dict neon_sig
    then ok (record d { processed_tx_dict = Dict.remove d.processed_tx_dict neon_sig })
    else err key_error
