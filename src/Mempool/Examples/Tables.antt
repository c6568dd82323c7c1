-- ===== src/Mempool/Examples/Tables.antt =====
-- The theorem on address lookup tables (proxy/mempool/mempool_periodic_task_free_alt_queue.py) at two
-- tables, of which one is old.
use proxy_model_py.Base.{ℕ, ◌-◌, ◌≤◌, ◌≡◌, refl, some, none, List, [], ◌∷◌, ◌++◌, All, String}
use proxy_model_py.Mempool.FreeAltQueue.{
  AltInfo, FreeAltQueue, deactivate_alt_list, submit_free_list_request, freeing_depth, unless_empty,
  old_tables,
}
use proxy_model_py.Mempool.FreeAltQueue.Freeing.{StartsYoung, submit_free_list_request_lem}

abbrev pub table : String → ℕ → AltInfo
table account height = record {
  last_extended_slot = height;
  deactivation_slot = none;
  block_height = height;
  table_account = account;
  operator_key = "key";
}

abbrev pub at_1000 : FreeAltQueue
at_1000 = record {
  iteration = 1;
  get_list_iteration = 0;
  block_height = 1000;
  deactivate_alt_queue = table "old" 400 ∷ table "young" 500 ∷ [];
  close_alt_queue = [];
  new_alt_address_list = [];
  alt_address_dict = [];
}

submit_free_list_request_lem_example :
    (list rest : List AltInfo) × (at_1000.deactivate_alt_queue ≡ list ++ rest)
    × All (λ a. a.block_height ≤ at_1000.block_height - freeing_depth) list
    × StartsYoung (at_1000.block_height - freeing_depth) rest
    × (submit_free_list_request at_1000 at_1000.deactivate_alt_queue deactivate_alt_list
        ≡ unless_empty deactivate_alt_list list)
submit_free_list_request_lem_example =
    submit_free_list_request_lem at_1000 at_1000.deactivate_alt_queue deactivate_alt_list

submit_runs :
    submit_free_list_request at_1000 at_1000.deactivate_alt_queue deactivate_alt_list
    ≡ some (deactivate_alt_list (table "old" 400 ∷ []))
unfolding submit_free_list_request old_tables
submit_runs = refl
