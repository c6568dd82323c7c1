-- ===== src/Solana/ListSender/Status.antt =====
-- `SolTxSendState.Status` of proxy/common_neon/solana_tx_list_sender.py and the classes of states.
use proxy_model_py.Base.{
  ℕ, zero, suc, ◌≡◌, refl, sym, ap, ◌∙◌, ◌↔◌, Bool, true, List, [], ◌∷◌, Eq, ◌==◌, nat_eq, is_in,
}

pub data Status : Type 0 where
  wait_for_receipt good_receipt : Status
  account_already_exists_error already_finalized_error : Status
  no_receipt_error block_hash_not_found_error alt_invalid_index_error : Status
  node_behind_error blocked_account_error blocked_account_prep_error : Status
  cu_budget_exceeded_error invalid_ix_data_error require_resize_iter_error : Status
  bad_nonce_error unknown_error : Status

-- `list(Status)`: the order of the declaration, in which `enum.auto` numbers them.
abbrev pub status_list : List Status
status_list =
    wait_for_receipt ∷ good_receipt ∷ account_already_exists_error ∷ already_finalized_error
    ∷ no_receipt_error ∷ block_hash_not_found_error ∷ alt_invalid_index_error ∷ node_behind_error
    ∷ blocked_account_error ∷ blocked_account_prep_error ∷ cu_budget_exceeded_error
    ∷ invalid_ix_data_error ∷ require_resize_iter_error ∷ bad_nonce_error ∷ unknown_error ∷ []

abbrev value : Status → ℕ
value wait_for_receipt = 1
value good_receipt = 2
value account_already_exists_error = 3
value already_finalized_error = 4
value no_receipt_error = 5
value block_hash_not_found_error = 6
value alt_invalid_index_error = 7
value node_behind_error = 8
value blocked_account_error = 9
value blocked_account_prep_error = 10
value cu_budget_exceeded_error = 11
value invalid_ix_data_error = 12
value require_resize_iter_error = 13
value bad_nonce_error = 14
value unknown_error = 15

abbrev nth : List Status → ℕ → Status
nth [] n = unknown_error
nth (s ∷ list) zero = s
nth (s ∷ list) (suc n) = nth list n

abbrev of_value : ℕ → Status
of_value zero = unknown_error
of_value (suc n) = nth status_list n

of_value-value : (s : Status) → of_value (value s) ≡ s
of_value-value wait_for_receipt = refl
of_value-value good_receipt = refl
of_value-value account_already_exists_error = refl
of_value-value already_finalized_error = refl
of_value-value no_receipt_error = refl
of_value-value block_hash_not_found_error = refl
of_value-value alt_invalid_index_error = refl
of_value-value node_behind_error = refl
of_value-value blocked_account_error = refl
of_value-value blocked_account_prep_error = refl
of_value-value cu_budget_exceeded_error = refl
of_value-value invalid_ix_data_error = refl
of_value-value require_resize_iter_error = refl
of_value-value bad_nonce_error = refl
of_value-value unknown_error = refl

unfoldable pub status_beq : Status → Status → Bool
status_beq a b = value a == value b

value_inj : (a b : Status) → value a ≡ value b → a ≡ b
value_inj a b h = sym (of_value-value a) ∙ ap of_value h ∙ of_value-value b

pub status_same_iff : (a b : Status) → (status_beq a b ≡ true) ↔ (a ≡ b)
unfolding status_beq
status_same_iff a b = (
  λ h. value_inj a b ((nat_eq.same_iff (value a) (value b)).0 h),
  λ h. (nat_eq.same_iff (value a) (value b)).1 (ap value h),
)

instance abbrev pub status_eq : Eq Status
status_eq = record { same = status_beq; same_iff = status_same_iff }

-- `_completed_tx_status_set`
abbrev pub completed_tx_status_set : List Status
completed_tx_status_set =
    wait_for_receipt ∷ good_receipt ∷ account_already_exists_error ∷ already_finalized_error ∷ []

-- `_resubmitted_tx_status_set`
abbrev pub resubmitted_tx_status_set : List Status
resubmitted_tx_status_set =
    no_receipt_error ∷ block_hash_not_found_error ∷ alt_invalid_index_error
    ∷ blocked_account_prep_error ∷ []

pub all_statuses : (status : Status) → is_in status status_list ≡ true
unfolding is_in status_beq
all_statuses wait_for_receipt = refl
all_statuses good_receipt = refl
all_statuses account_already_exists_error = refl
all_statuses already_finalized_error = refl
all_statuses no_receipt_error = refl
all_statuses block_hash_not_found_error = refl
all_statuses alt_invalid_index_error = refl
all_statuses node_behind_error = refl
all_statuses blocked_account_error = refl
all_statuses blocked_account_prep_error = refl
all_statuses cu_budget_exceeded_error = refl
all_statuses invalid_ix_data_error = refl
all_statuses require_resize_iter_error = refl
all_statuses bad_nonce_error = refl
all_statuses unknown_error = refl
