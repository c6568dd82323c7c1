-- ===== src/Solana/Examples.antt =====
-- Two transactions and a node that has no receipt of the second when it is asked first.
use proxy_model_py.Solana.Tx
use proxy_model_py.Solana.ListSender.Status
use proxy_model_py.Solana.ListSender.State
use proxy_model_py.Solana.ListSender.Sending
use proxy_model_py.Solana.ListSender.Receipts
use proxy_model_py.Dict
use proxy_model_py.Base
use proxy_model_py.Base.{
  ℕ, zero, suc, ◌≡◌, refl, inl, Bool, true, false, Option, none, some, List, [], ◌∷◌, String, map,
  All, is_in,
}
use proxy_model_py.Solana.Tx.{SolTx, SolTxIx, new_tx, finalized, confirmed}
use proxy_model_py.Solana.ListSender.State.{
  TxRef, SolTxErrorParser, SolTxReceipt, SolSendResult, Node, Env, Sender, Run, raised, returned,
}
use proxy_model_py.Solana.ListSender.Calls.{send}
use proxy_model_py.Solana.ListSender.Status.{good_receipt, wait_for_receipt, no_receipt_error}
use proxy_model_py.Solana.ListSender.Receipts.{decode_result}
use proxy_model_py.Solana.ListSender.Sending.{receipt_of}
use proxy_model_py.Solana.ListSender.Signing.{IsClean, CanSign}
use proxy_model_py.Solana.ListSender.Filling.{AreIn, Answers}
use proxy_model_py.Solana.ListSender.Accepting.{IsReliable}
use proxy_model_py.Solana.ListSender.Liveness.{send-returns}

abbrev good : SolTxErrorParser
good = record {
  get_slots_behind = none;
  check_if_block_hash_notfound = false;
  check_if_alt_uses_invalid_index = false;
  check_if_already_finalized = false;
  check_if_accounts_blocked = false;
  check_if_preprocessed_error = false;
  check_if_account_already_exists = false;
  check_if_invalid_ix_data = false;
  check_if_budget_exceeded = false;
  check_if_require_resize_iter = false;
  get_nonce_error = none;
  check_if_error = false;
}

abbrev receipt_at : ℕ → SolTxReceipt
receipt_at slot = record { slot = some slot; parser = good }

abbrev receipts_at : ℕ → List String → List (Option SolTxReceipt)
receipts_at slot [] = []
receipts_at slot (first ∷ []) = some (receipt_at slot) ∷ []
receipts_at slot (first ∷ second ∷ rest) = some (receipt_at slot) ∷ none ∷ map (λ s. none) rest

abbrev accepted : SolTx → SolSendResult
accepted tx = record { error = none; result = some tx.signature }

abbrev node : Node
node = record {
  get_recent_block_hash = λ n. ("hash", 1000);
  send_tx_list = λ n. map accepted;
  get_tx_receipt_list = λ n. receipts_at n;
  get_block_status = λ n slot. finalized;
  fuzz_block_hash = λ n ref. none;
  fuzz_skip = λ n ref. false;
}

abbrev sign_empty : String → List SolTxIx → Option String → String
sign_empty signer [] hash = "empty"
sign_empty signer (ix ∷ list) hash = "call"

abbrev env : Env
env = record {
  retry_on_fail = 3;
  commit_level = finalized;
  signer = "operator";
  solders = record {
    is_signer = λ list key. false;
    is_writable = λ list key. false;
    first_account = λ list. none;
    signature = sign_empty;
    serialized_len = λ list hash. 200;
  };
  node = node;
}

abbrev call_ix : SolTxIx
call_ix = record { program_id = "neon"; ix_data = 1 ∷ []; accounts = [] }

abbrev two_txs : TxRef → SolTx
two_txs zero = new_tx "first" []
two_txs (suc ref) = new_tx "second" (call_ix ∷ [])

abbrev fresh_sender : Sender
fresh_sender = record {
  block_hash = none;
  block_hash_dict = [];
  bad_block_hash_set = [];
  tx_list = [];
  tx_state_dict = [];
  tx_state_list_dict = [];
  heap = two_txs;
  heap_size = 2;
  calls = 0;
}

abbrev final : Run Bool → Sender
final (raised error s) = s
final (returned b s) = s

abbrev is_true : Run Bool → Bool
is_true (raised error s) = false
is_true (returned b s) = b

abbrev sent : Run Bool
sent = send env (0 ∷ 1 ∷ []) fresh_sender

-- A node that takes all in and has a receipt of each.
abbrev reliable_node : Node
reliable_node = record node { get_tx_receipt_list = λ n. map (λ s. some (receipt_at n)) }

abbrev reliable_env : Env
reliable_env = record env { commit_level = confirmed; node = reliable_node }

good-status : (decode_result good).tx_status ≡ good_receipt
unfolding decode_result
good-status = refl

all_taken :
    (txs : List SolTx)
    → Answers wait_for_receipt wait_for_receipt txs (map receipt_of (map accepted txs))
all_taken [] = tt
all_taken (tx ∷ txs) = (refl, all_taken txs)

all_good :
    (n : ℕ) (sigs : List String)
    → Answers good_receipt no_receipt_error sigs (map (λ s. some (receipt_at n)) sigs)
all_good n [] = tt
all_good n (s ∷ sigs) = (good-status, all_good n sigs)

reliable_node-IsReliable : IsReliable reliable_node
reliable_node-IsReliable = record {
  never_skips = λ n ref. refl;
  takes_all = λ n txs. all_taken txs;
  has_all = λ n sigs. all_good n sigs;
}

fresh_sender-IsClean : IsClean fresh_sender
unfolding is_in
fresh_sender-IsClean hash = refl

fresh_sender-CanSign : All (CanSign fresh_sender) (0 ∷ 1 ∷ [])
unfolding new_tx
fresh_sender-CanSign = (inl refl, (inl refl, tt))

send-returns_example :
    (s' : Sender) × (send reliable_env (0 ∷ 1 ∷ []) fresh_sender ≡ returned true s')
    × AreIn good_receipt (0 ∷ 1 ∷ []) s'
send-returns_example =
    send-returns reliable_env 2 0 (1 ∷ []) fresh_sender reliable_node-IsReliable refl refl
      fresh_sender-IsClean refl refl fresh_sender-CanSign
