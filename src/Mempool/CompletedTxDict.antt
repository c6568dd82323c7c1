-- ===== src/Mempool/CompletedTxDict.antt =====
-- `MPTxDict` of proxy/mempool/mempool_neon_tx_dict.py: the outcomes of the last transactions, for the
-- requests that ask for them. The time comes as an argument, in seconds.
pub mod Consistency
pub mod Expiry
use proxy_model_py.Base.{
  ℕ, zero, suc, ◌-◌, ◌+◌, ◌≤◌, ◌<◌, ◌≡◌, refl, String, Bool, Option, none, some, List, [], ◌∷◌,
  ◌++◌, map, true, false, ltb, ◌==◌, nat_eq, string_eq, length, if◌then◌else◌, Bool-cases, inl, inr,
  arith, ==_refl, ap, All,
}
use proxy_model_py.Dict
use proxy_model_py.Dict.{Dict}
use proxy_model_py.Mempool.NeonTxInfo.{NeonTxInfo}

-- `MPTxDict._Item`; the error is the text of the exception.
pub record Item : Type 0 where
  pub last_time : ℕ
  pub neon_tx : NeonTxInfo
  pub error : Option String

-- What `get_tx` returns: `NeonTxInfo` or `EthereumError`.
pub data Outcome : Type 0 where
  completed : NeonTxInfo → Outcome
  failed : String → Outcome

pub record TxDict : Type 0 where
  pub neon_tx_dict : Dict String Item
  pub neon_tx_queue : List Item
  pub clear_time_sec : ℕ

unfoldable pub init : ℕ → TxDict
init life_sec = record { neon_tx_dict = []; neon_tx_queue = []; clear_time_sec = life_sec }

-- sig in self
unfoldable pub contains : TxDict → String → Bool
contains d sig = Dict.contains d.neon_tx_dict sig

unfoldable pub done_tx : TxDict → NeonTxInfo → Option String → ℕ → TxDict
done_tx d tx exc now =
    if Dict.contains d.neon_tx_dict tx.sig
    then d
    else (let item : Item = record { last_time = now; neon_tx = tx; error = exc } in
        record d {
          neon_tx_queue = d.neon_tx_queue ++ item ∷ [];
          neon_tx_dict = Dict.put d.neon_tx_dict tx.sig item;
        })

abbrev pub outcome : Option String → NeonTxInfo → Outcome
outcome none tx = completed tx
outcome (some e) tx = failed e

abbrev pub outcome_of : Option Item → Option Outcome
outcome_of none = none
outcome_of (some item) = some (outcome item.error item.neon_tx)

unfoldable pub get_tx : TxDict → String → Option Outcome
get_tx d sig = outcome_of (Dict.get d.neon_tx_dict sig)

-- The loop of `clear`, over the queue.
unfoldable pub clear_loop : ℕ → List Item → Dict String Item → Dict String Item × List Item
clear_loop last_time [] dict = (dict, [])
clear_loop last_time (item ∷ queue) dict =
    let rest = clear_loop last_time queue (Dict.remove dict item.neon_tx.sig) in
    if ltb item.last_time last_time then rest else (dict, item ∷ queue)

-- `max(now - clear_time_sec, 0)` is the subtraction that stops at 0.
unfoldable pub clear : TxDict → ℕ → TxDict
clear d now =
    let cleared = clear_loop (now - d.clear_time_sec) d.neon_tx_queue d.neon_tx_dict in
    record d { neon_tx_dict = cleared.0; neon_tx_queue = cleared.1 }
