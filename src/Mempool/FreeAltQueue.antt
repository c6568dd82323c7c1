-- ===== src/Mempool/FreeAltQueue.antt =====
-- `MPFreeALTQueueTaskLoop` of proxy/mempool/mempool_periodic_task_free_alt_queue.py: the address lookup
-- tables that are to be deactivated and closed. A table's account and the operator's keys are texts.
-- Sending a request to an executor is not modelled: a function that submits returns the request.
pub mod Freeing
use proxy_model_py.Base.{
  ℕ, suc, ◌+◌, ◌-◌, ◌≤◌, ◌<◌, ◌≡◌, refl, Bool, Option, none, some, List, [], ◌∷◌, ◌++◌, map, ltb,
  leb, ◌==◌, String, string_eq, nat_eq, ℤ, pos, if◌then◌else◌, is_some, Result, ok, err, ◌>>=◌, All,
  arith, Bool-cases, inl, inr,
}
use proxy_model_py.Dict
use proxy_model_py.Dict.{Dict}
use proxy_model_py.SortedQueue

-- `MPALTAddress`
pub record AltAddress : Type 0 where
  pub table_account : String
  pub secret : String

-- `MPALTInfo`
pub record AltInfo : Type 0 where
  pub last_extended_slot : ℕ
  pub deactivation_slot : Option ℕ
  pub block_height : ℕ
  pub table_account : String
  pub operator_key : String

unfoldable pub is_deactivated : AltInfo → Bool
is_deactivated a = is_some a.deactivation_slot

-- `MPALTListResult`
pub record AltListResult : Type 0 where
  pub block_height : ℕ
  pub alt_info_list : List AltInfo

pub record FreeAltQueue : Type 0 where
  pub iteration : ℕ
  pub get_list_iteration : ℕ
  pub block_height : ℕ
  pub deactivate_alt_queue : List AltInfo
  pub close_alt_queue : List AltInfo
  pub new_alt_address_list : List AltAddress
  pub alt_address_dict : Dict String String

-- The keys of the two queues. The tables of the second one are deactivated, so they have a slot.
abbrev pub extended_key : AltInfo → ℤ
extended_key a = pos a.last_extended_slot

abbrev pub slot_or_zero : Option ℕ → ℕ
slot_or_zero none = 0
slot_or_zero (some slot) = slot

abbrev pub deactivation_key : AltInfo → ℤ
deactivation_key a = pos (slot_or_zero a.deactivation_slot)

abbrev pub account_key : AltInfo → String
account_key a = a.table_account

unfoldable pub add_alt_address_list : FreeAltQueue → List String → String → FreeAltQueue
add_alt_address_list q accounts secret = record q {
  new_alt_address_list =
      q.new_alt_address_list ++ map (λ a. record { table_account = a; secret = secret }) accounts;
}

-- `MPGetALTList`, `MPDeactivateALTListRequest` and `MPCloseALTListRequest`
pub data Request : Type 0 where
  get_alt_list : List String → List AltAddress → Request
  deactivate_alt_list close_alt_list : List AltInfo → Request

abbrev pub alt_addresses : Dict String String → List AltAddress
alt_addresses d = map (λ e. record { table_account = e.0; secret = e.1 }) d

-- `secrets` are those of the operator's resources.
unfoldable pub submit_get_list_request : FreeAltQueue → List String → FreeAltQueue × Option Request
submit_get_list_request q secrets =
    if q.get_list_iteration + 1 == 60
    then (
      record q { get_list_iteration = 0 },
      some (get_alt_list secrets (alt_addresses q.alt_address_dict)),
    )
    else (
      record q { get_list_iteration = q.get_list_iteration + 1 },
      some (get_alt_list [] (alt_addresses q.alt_address_dict)),
    )

-- The loop of `_submit_free_list_request`.
unfoldable pub old_tables : ℕ → List AltInfo → List AltInfo
old_tables block_height [] = []
old_tables block_height (a ∷ queue) =
    let rest = old_tables block_height queue in
    if ltb block_height a.block_height then [] else a ∷ rest

abbrev pub freeing_depth : ℕ
freeing_depth = 544

abbrev pub unless_empty : (List AltInfo → Request) → List AltInfo → Option Request
unless_empty request [] = none
unless_empty request (a ∷ list) = some (request (a ∷ list))

unfoldable pub submit_free_list_request :
    FreeAltQueue → List AltInfo → (List AltInfo → Request) → Option Request
submit_free_list_request q queue request =
    unless_empty request (old_tables (q.block_height - freeing_depth) queue)

unfoldable pub submit_request : FreeAltQueue → List String → FreeAltQueue × Option Request
submit_request q secrets =
    let listed = submit_get_list_request q secrets in
    if q.iteration == 0
    then (record listed.0 { iteration = q.iteration + 1 }, listed.1)
    else if q.iteration == 1
    then (
      record q { iteration = q.iteration + 1 },
      submit_free_list_request q q.deactivate_alt_queue deactivate_alt_list,
    )
    else (record q { iteration = 0 }, submit_free_list_request q q.close_alt_queue close_alt_list)

-- The first loop of `_process_get_list_result`.
unfoldable pub enter_tables : List AltInfo → FreeAltQueue → Result FreeAltQueue
enter_tables [] q = ok q
enter_tables (a ∷ list) q = do
  let noted : FreeAltQueue = record q {
    alt_address_dict = Dict.put q.alt_address_dict a.table_account a.operator_key;
  }
  entered ←
      if is_deactivated a
      then (do
        queue ← SortedQueue.add deactivation_key account_key q.close_alt_queue a
        ok (record noted { close_alt_queue = queue }))
      else (do
        queue ← SortedQueue.add extended_key account_key q.deactivate_alt_queue a
        ok (record noted { deactivate_alt_queue = queue }))
  enter_tables list entered

unfoldable pub enter_addresses : List AltAddress → Dict String String → Dict String String
enter_addresses [] d = d
enter_addresses (a ∷ list) d = enter_addresses list (Dict.put d a.table_account a.secret)

unfoldable pub process_get_list_result : FreeAltQueue → AltListResult → Result FreeAltQueue
process_get_list_result q mp_res = do
  entered ←
      enter_tables mp_res.alt_info_list
        (record q { deactivate_alt_queue = []; close_alt_queue = []; alt_address_dict = [] })
  ok (record entered {
    alt_address_dict = enter_addresses q.new_alt_address_list entered.alt_address_dict;
  })

unfoldable pub clear_queue : (AltInfo → ℤ) → List AltInfo → List AltInfo → Result (List AltInfo)
clear_queue lt_key queue [] = ok queue
clear_queue lt_key queue (a ∷ list) = do
  rest ← elim (SortedQueue.find lt_key account_key queue a) [
    | none ↦ ok queue
    | some i ↦ do popped ← SortedQueue.pop_item lt_key account_key queue a; ok popped.1
  ]
  clear_queue lt_key rest list

-- `_process_result`, by the type of the request that is answered.
unfoldable pub process_result : FreeAltQueue → Request → AltListResult → Result FreeAltQueue
process_result q (get_alt_list secrets addresses) mp_res =
    process_get_list_result (record q { block_height = mp_res.block_height }) mp_res
process_result q (deactivate_alt_list list) mp_res = do
  queue ← clear_queue extended_key q.deactivate_alt_queue mp_res.alt_info_list
  ok (record q { block_height = mp_res.block_height; deactivate_alt_queue = queue })
process_result q (close_alt_list list) mp_res = do
  queue ← clear_queue deactivation_key q.close_alt_queue mp_res.alt_info_list
  ok (record q { block_height = mp_res.block_height; close_alt_queue = queue })
