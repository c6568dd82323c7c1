-- ===== src/Mempool/Examples/Queues.antt =====
-- The theorems on queues and request dicts of proxy/mempool at concrete inputs.
use mathlib.Core.List.{Perm}
use proxy_model_py.Base.{
  ℕ, ◌≡◌, refl, suc, List, [], ◌∷◌, ok, err, assertion_error, arith, some, none, length,
  if◌then◌else◌, string_eq, pair_eq, String, ◌==◌,
}
use proxy_model_py.Dict
use proxy_model_py.SortedQueue.{add, find, pop_item, bisect_left, insert_at, find_loop}
use proxy_model_py.SortedQueue.Order.{IsSorted, scan_left}
use proxy_model_py.SortedQueue.Bisect.{bisect_left-eq-scan_left}
use proxy_model_py.SortedQueue.Find.{find-Finds, Finds, holds}
use proxy_model_py.SortedQueue.Calls.{add_lem, add-IsSorted, pop_item-Pops, pop_item-add, Pops}
use proxy_model_py.Mempool.TxRequest.{TxRequest}
use proxy_model_py.Mempool.RequestDict.{RequestDict, gas_key, sig_key, sender_nonce, tx_cnt}
use proxy_model_py.Mempool.RequestDict
use proxy_model_py.Mempool.RequestDict.Consistency.{IsConsistent, add-IsConsistent, after_add}
use proxy_model_py.Mempool.RequestDict.Removal.{pop-IsConsistent}
use proxy_model_py.Mempool.RequestDict.RoundTrip.{pop-add}
use proxy_model_py.Mempool.Examples.{
  tx_a, tx_b, request, empty-IsConsistent, dict_a, dict_a-IsConsistent, dict_a-IsHeld,
}

abbrev prices : List TxRequest
prices = request "c" "C" 1 9 ∷ request "b" "B" 0 7 ∷ tx_a ∷ []

prices-IsSorted : IsSorted gas_key prices
prices-IsSorted = omega arith

bisect_left-eq-scan_left_example :
    bisect_left gas_key prices tx_b ≡ scan_left gas_key prices (gas_key tx_b)
bisect_left-eq-scan_left_example = bisect_left-eq-scan_left gas_key prices tx_b prices-IsSorted

bisect_left_runs : bisect_left gas_key prices tx_b ≡ 3
unfolding bisect_left
bisect_left_runs = refl

find-Finds_example : Finds gas_key sig_key 0 prices tx_a (find gas_key sig_key prices tx_a)
find-Finds_example = find-Finds gas_key sig_key prices tx_a prices-IsSorted

find_runs : find gas_key sig_key prices tx_a ≡ some 2
unfolding find bisect_left find_loop
find_runs = refl

add_lem_example : add gas_key sig_key prices tx_b ≡ (
    if holds gas_key sig_key prices tx_b
    then err assertion_error
    else ok (insert_at (scan_left gas_key prices (gas_key tx_b)) tx_b prices))
add_lem_example = add_lem gas_key sig_key prices tx_b prices-IsSorted

added :
    add gas_key sig_key prices tx_b
    ≡ ok (request "c" "C" 1 9 ∷ request "b" "B" 0 7 ∷ tx_a ∷ tx_b ∷ [])
unfolding add bisect_left find_loop insert_at
added = refl

add-IsSorted_example :
    IsSorted gas_key (request "c" "C" 1 9 ∷ request "b" "B" 0 7 ∷ tx_a ∷ tx_b ∷ [])
    × Perm (request "c" "C" 1 9 ∷ request "b" "B" 0 7 ∷ tx_a ∷ tx_b ∷ []) (tx_b ∷ prices)
    × (length (request "c" "C" 1 9 ∷ request "b" "B" 0 7 ∷ tx_a ∷ tx_b ∷ []) ≡ suc (length prices))
add-IsSorted_example = add-IsSorted gas_key sig_key prices _ tx_b prices-IsSorted added

pop_item-Pops_example : Pops gas_key sig_key prices tx_a (pop_item gas_key sig_key prices tx_a)
pop_item-Pops_example = pop_item-Pops gas_key sig_key prices tx_a prices-IsSorted

pop_item-add_example :
    pop_item gas_key sig_key (request "c" "C" 1 9 ∷ request "b" "B" 0 7 ∷ tx_a ∷ tx_b ∷ []) tx_b
    ≡ ok (tx_b, prices)
pop_item-add_example = pop_item-add gas_key sig_key prices _ tx_b prices-IsSorted added

empty_hash : Dict.get RequestDict.empty.tx_hash_dict "a0" ≡ none
unfolding RequestDict.empty Dict.get
empty_hash = refl

empty_nonce : Dict.get RequestDict.empty.tx_sender_nonce_dict ("A", 0) ≡ none
unfolding RequestDict.empty Dict.get
empty_nonce = refl

add-IsConsistent_example :
    (d : RequestDict) × (RequestDict.add RequestDict.empty tx_a ≡ ok d)
    × IsConsistent d
    × (tx_cnt d ≡ suc (tx_cnt RequestDict.empty))
    × (Dict.get d.tx_hash_dict "a0" ≡ some tx_a)
    × (Dict.get d.tx_sender_nonce_dict ("A", 0) ≡ some tx_a)
add-IsConsistent_example =
    add-IsConsistent RequestDict.empty tx_a empty-IsConsistent empty_hash empty_nonce

pop-IsConsistent_example :
    (d : RequestDict) × (RequestDict.pop dict_a tx_a ≡ ok d)
    × IsConsistent d
    × (suc (tx_cnt d) ≡ tx_cnt dict_a)
    × ((sig : String)
        → Dict.get d.tx_hash_dict sig
          ≡ (if "a0" == sig then none else Dict.get dict_a.tx_hash_dict sig))
    × ((k : String × ℕ)
        → Dict.get d.tx_sender_nonce_dict k
          ≡ (if sender_nonce tx_a == k then none else Dict.get dict_a.tx_sender_nonce_dict k))
pop-IsConsistent_example = pop-IsConsistent dict_a tx_a tx_a dict_a-IsConsistent dict_a-IsHeld

dict_a_lem : RequestDict.add RequestDict.empty tx_a ≡ ok dict_a
unfolding RequestDict.empty RequestDict.add Dict.contains Dict.put add bisect_left find_loop
    insert_at scan_left after_add
dict_a_lem = refl

pop-add_example : RequestDict.pop dict_a tx_a ≡ ok RequestDict.empty
pop-add_example =
    pop-add RequestDict.empty dict_a tx_a empty-IsConsistent empty_hash empty_nonce dict_a_lem
