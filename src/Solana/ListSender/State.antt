-- ===== src/Solana/ListSender/State.antt =====
-- The state of `SolTxListSender` of proxy/common_neon/solana_tx_list_sender.py and what it reads: the
-- configuration, the node and the error parser's answers. Transactions are objects: the sender's lists
-- hold references, and the heap what they refer to. A call that raises leaves its changes behind.
use proxy_model_py.Base.{
  ◌≡◌, refl, ℕ, suc, ◌-◌, ◌^◌, String, Bool, Option, none, some, List, ◌==◌, nat_eq, if◌then◌else◌,
  Error, Result, ok, err,
}
use proxy_model_py.Dict.{Dict}
use proxy_model_py.Solana.Tx.{SolTx, Solders}
use proxy_model_py.Solana.ListSender.Status.{Status}

abbrev pub TxRef : Type 0
TxRef = ℕ

-- What `SolTxErrorParser` says of a receipt, each field by the method of its name. `get_nonce_error` is
-- the sender's transaction count and the transaction's nonce.
pub record SolTxErrorParser : Type 0 where
  pub get_slots_behind : Option ℕ
  pub check_if_block_hash_notfound : Bool
  pub check_if_alt_uses_invalid_index : Bool
  pub check_if_already_finalized : Bool
  pub check_if_accounts_blocked : Bool
  pub check_if_preprocessed_error : Bool
  pub check_if_account_already_exists : Bool
  pub check_if_invalid_ix_data : Bool
  pub check_if_budget_exceeded : Bool
  pub check_if_require_resize_iter : Bool
  pub get_nonce_error : Option (ℕ × ℕ)
  pub check_if_error : Bool

-- A receipt: its slot, and what the parser says of it.
pub record SolTxReceipt : Type 0 where
  pub slot : Option ℕ
  pub parser : SolTxErrorParser

-- The exceptions of proxy/common_neon/errors.py that the sender raises, and Python's own.
pub data SendError : Type 0 where
  node_behind : ℕ → SendError
  block_hash_not_found blocked_account no_more_retries : SendError
  commit_level : String → String → SendError
  invalid_ix_data cu_budget_exceeded require_resize_iter : SendError
  nonce_too_low : ℕ → ℕ → SendError
  sol_tx_error : Option SolTxReceipt → SendError
  python_error : Error → SendError

pub record SolTxSendState : Type 0 where
  pub status : Status
  pub tx : TxRef
  pub valid_block_height : ℕ
  pub receipt : Option SolTxReceipt
  pub error : Option SendError

abbrev slot_of : Option SolTxReceipt → Option ℕ
slot_of none = none
slot_of (some receipt) = receipt.slot

unfoldable pub block_slot : SolTxSendState → Option ℕ
block_slot tx_state = slot_of tx_state.receipt

-- `SolSendResult`
pub record SolSendResult : Type 0 where
  pub error : Option SolTxReceipt
  pub result : Option String

-- The node that `SolInteractor` asks, whose answers depend on the number of the calls before, and what
-- fuzz testing draws: the bad block hash of a transaction, if it gets one, and whether it is skipped.
pub record Node : Type 0 where
  pub get_recent_block_hash : ℕ → String × ℕ
  pub send_tx_list : ℕ → List SolTx → List SolSendResult
  pub get_tx_receipt_list : ℕ → List String → List (Option SolTxReceipt)
  pub get_block_status : ℕ → ℕ → String
  pub fuzz_block_hash : ℕ → TxRef → Option String
  pub fuzz_skip : ℕ → TxRef → Bool

-- What `__init__` takes.
pub record Env : Type 0 where
  pub retry_on_fail : ℕ
  pub commit_level : String
  pub signer : String
  pub solders : Solders
  pub node : Node

abbrev pub big_block_height : ℕ
big_block_height = 2 ^ 64 - 1

abbrev pub big_block_slot : ℕ
big_block_slot = 2 ^ 64 - 1

pub record Sender : Type 0 where
  pub block_hash : Option String
  pub block_hash_dict : Dict (Option String) ℕ
  pub bad_block_hash_set : List (Option String)
  pub tx_list : List TxRef
  pub tx_state_dict : Dict String SolTxSendState
  pub tx_state_list_dict : Dict Status (List SolTxSendState)
  pub heap : TxRef → SolTx
  pub heap_size : ℕ
  pub calls : ℕ

-- tx.field = ...
unfoldable pub write : TxRef → SolTx → Sender → Sender
write ref tx s = record s { heap = λ other. if other == ref then tx else s.heap other }

-- A new object and its reference.
unfoldable pub alloc : SolTx → Sender → TxRef × Sender
alloc tx s = (s.heap_size, record (write s.heap_size tx s) { heap_size = suc s.heap_size })

-- A call of the node.
unfoldable pub called : Sender → Sender
called s = record s { calls = suc s.calls }

-- What a method does to the sender: it raises or returns.
pub data Run (A : Type 0) : Type 0 where
  raised : SendError → Sender → Run A
  returned : A → Sender → Run A

infixl 4 ◌▷◌
abbrev pub ◌▷◌ : {A B : Type 0} → Run A → (A → Sender → Run B) → Run B
raised e s ▷ next = raised e s
returned a s ▷ next = next a s

-- A call that changes nothing of the sender.
abbrev pub lift : {A : Type 0} → Result A → Sender → Run A
lift (ok a) s = returned a s
lift (err e) s = raised (python_error e) s

-- A call that returns has returned in its parts.
pub ▷-eq-returned :
    {A B : Type 0} (m : Run A) (next : A → Sender → Run B) {b : B} {s' : Sender}
    → (m ▷ next) ≡ returned b s'
    → (a : A) × (s : Sender) × (m ≡ returned a s) × (next a s ≡ returned b s')
▷-eq-returned (returned a s) next h = (a, s, refl, h)
▷-eq-returned (raised e s) next h = cc

pub returned_inj :
    {A : Type 0} {a b : A} {s t : Sender} → Path (Run A) (returned a s) (returned b t) → s ≡ t
returned_inj h = cc

pub lift-eq-returned :
    {A : Type 0} (m : Result A) {s t : Sender} {a : A}
    → lift m s ≡ returned a t
    → (m ≡ ok a) × (s ≡ t)
lift-eq-returned (ok a) h = (cc, returned_inj h)
lift-eq-returned (err e) h = absurd cc
