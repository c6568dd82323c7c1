-- ===== src/Mempool/Examples/Outcomes.antt =====
-- The theorems on completed and stuck transactions (proxy/mempool/mempool_neon_tx_dict.py and
-- proxy/mempool/mempool_stuck_tx_dict.py) at concrete dicts.
use proxy_model_py.Base.{
  ℕ, ◌-◌, ◌≡◌, refl, true, false, some, none, [], ◌∷◌, ok, arith, String, Bool, string_eq, nat_eq,
  ◌==◌, if◌then◌else◌,
}
use proxy_model_py.Dict
use proxy_model_py.Mempool.NeonTxInfo.{from_neon_sig}
use proxy_model_py.Mempool.CompletedTxDict
use proxy_model_py.Mempool.CompletedTxDict.{TxDict, Item, get_tx, clear, outcome, completed}
use proxy_model_py.Mempool.CompletedTxDict.Consistency.{IsConsistent}
use proxy_model_py.Mempool.CompletedTxDict.Expiry.{
  InTimeOrder, if_recent, get-clear, get_tx-done_tx, first_of,
}
use proxy_model_py.Mempool.StuckTxDict.{
  StuckTxInfo, StuckTxDict, sig, peek_tx, acquire_tx, done_tx, add_external_tx_list,
}
use proxy_model_py.Mempool.StuckTxDict.Lookup.{acquire-peek_tx}
use proxy_model_py.Mempool.StuckTxDict.Listing.{
  add_external_tx_list_lem, own_tx_acquired_twice, last_of, is_skipped,
}

abbrev pub item_at : String → ℕ → Item
item_at s time = record { last_time = time; neon_tx = from_neon_sig s; error = none }

abbrev pub two_done : TxDict
two_done = record {
  neon_tx_dict = ("x", item_at "x" 3) ∷ ("y", item_at "y" 8) ∷ [];
  neon_tx_queue = item_at "x" 3 ∷ item_at "y" 8 ∷ [];
  clear_time_sec = 5;
}

two_done-IsConsistent : IsConsistent two_done
unfolding Dict.get from_neon_sig
two_done-IsConsistent = record { same = refl; unique = (refl, (refl, tt)) }

two_done-InTimeOrder : InTimeOrder two_done.neon_tx_queue
two_done-InTimeOrder = ((omega arith, tt), (tt, tt))

get-clear_example :
    Dict.get (clear two_done 10).neon_tx_dict "x"
    ≡ if_recent (10 - two_done.clear_time_sec) (Dict.get two_done.neon_tx_dict "x")
get-clear_example = get-clear two_done 10 "x" two_done-IsConsistent two_done-InTimeOrder

get_tx-done_tx_example :
    get_tx (CompletedTxDict.done_tx two_done (from_neon_sig "z") none 9) "z" ≡ (
      if (from_neon_sig "z").sig == "z"
      then first_of (get_tx two_done "z") (outcome none (from_neon_sig "z"))
      else get_tx two_done "z")
get_tx-done_tx_example = get_tx-done_tx two_done (from_neon_sig "z") none 9 "z"

clear_runs :
    (get_tx (clear two_done 10) "x" ≡ none)
    × (get_tx (clear two_done 10) "y" ≡ some (completed (from_neon_sig "y")))
unfolding get_tx clear Dict.get CompletedTxDict.clear_loop Dict.remove from_neon_sig
clear_runs = (refl, refl)

abbrev pub stuck : String → StuckTxInfo
stuck s = record {
  neon_tx = from_neon_sig s;
  holder_account = "holder";
  alt_addr_list = [];
  start_time = 1;
}

-- One own transaction and one that another operator left.
abbrev pub two_stuck : StuckTxDict
two_stuck = record {
  own_tx_dict = ("x", stuck "x") ∷ [];
  external_tx_dict = ("y", stuck "y") ∷ [];
  processed_tx_dict = [];
}

peek_runs : peek_tx two_stuck ≡ some (stuck "x")
unfolding peek_tx
peek_runs = refl

pub stuck_sig : (s : String) → sig (stuck s) ≡ s
unfolding sig from_neon_sig
stuck_sig s = refl

acquire-peek_tx_example :
    (e : StuckTxDict) × (acquire_tx two_stuck (stuck "x") ≡ ok (e, stuck "x"))
    × (Dict.get e.processed_tx_dict (sig (stuck "x")) ≡ some (stuck "x"))
    × (Dict.get e.own_tx_dict (sig (stuck "x")) ≡ none)
    × (e.own_tx_dict ≡ Dict.remove two_stuck.own_tx_dict (sig (stuck "x")))
    × (e.external_tx_dict ≡ (
        if Dict.contains two_stuck.own_tx_dict (sig (stuck "x"))
        then two_stuck.external_tx_dict
        else Dict.remove two_stuck.external_tx_dict (sig (stuck "x"))))
    × ((f : StuckTxDict) × (done_tx e (sig (stuck "x")) ≡ ok f)
        × (Dict.get f.processed_tx_dict (sig (stuck "x")) ≡ none))
acquire-peek_tx_example =
    acquire-peek_tx two_stuck (stuck "x") (stuck_sig "x", tt) (stuck_sig "y", tt) peek_runs

abbrev none_completed : String → Bool
none_completed s = false

add_external_tx_list_lem_example :
    (Dict.get
        (add_external_tx_list none_completed two_stuck (stuck "x" ∷ stuck "z" ∷ [])).own_tx_dict
        "x"
      ≡ (if Dict.contains two_stuck.own_tx_dict "x"
          then last_of (stuck "x" ∷ stuck "z" ∷ []) "x" (Dict.get two_stuck.own_tx_dict "x")
          else none))
    × (Dict.get
          (add_external_tx_list none_completed two_stuck
            (stuck "x" ∷ stuck "z" ∷ [])).external_tx_dict
          "x"
        ≡ (if is_skipped none_completed two_stuck.own_tx_dict two_stuck.processed_tx_dict "x"
            then none
            else last_of (stuck "x" ∷ stuck "z" ∷ []) "x" none))
    × ((add_external_tx_list none_completed two_stuck
          (stuck "x" ∷ stuck "z" ∷ [])).processed_tx_dict
        ≡ two_stuck.processed_tx_dict)
add_external_tx_list_lem_example =
    add_external_tx_list_lem none_completed two_stuck (stuck "x" ∷ stuck "z" ∷ []) "x"

own_x : Dict.contains two_stuck.own_tx_dict (sig (stuck "x")) ≡ true
unfolding Dict.contains sig from_neon_sig
own_x = refl

listed_x : last_of (stuck "x" ∷ []) (sig (stuck "x")) none ≡ some (stuck "x")
unfolding sig from_neon_sig
listed_x = refl

own_tx_acquired_twice_example :
    (e f : StuckTxDict) × (acquire_tx
        (add_external_tx_list none_completed two_stuck (stuck "x" ∷ []))
        (stuck "x")
      ≡ ok (e, stuck "x"))
    × (acquire_tx e (stuck "x") ≡ ok (f, stuck "x"))
own_tx_acquired_twice_example =
    own_tx_acquired_twice none_completed two_stuck (stuck "x" ∷ []) (stuck "x") own_x listed_x
