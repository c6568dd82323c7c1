-- ===== src/Solana/Tx.antt =====
-- `SolCommit` and `SolTx` of proxy/common_neon/solana_tx.py, and `SolLegacyTx` of
-- proxy/common_neon/solana_tx_legacy.py. A transaction is what its message is compiled from: the
-- instructions and the block hash. The library solders, which compiles and signs messages, is the
-- parameter `lib`; keys, hashes and signatures are texts.
use proxy_model_py.Base.{
  ℕ, suc, ◌-◌, not, ltb, String, Bool, true, false, Option, none, some, List, [], ◌∷◌, ◌++◌, ◌==◌,
  string_eq, if◌then◌else◌, take, drop, Result, err, ok, assert, ◌>>=◌, assertion_error, is_nil,
}

abbrev pub not_processed : String
not_processed = "not-processed"

abbrev pub processed : String
processed = "processed"

abbrev pub confirmed : String
confirmed = "confirmed"

abbrev pub safe : String
safe = "safe"

abbrev pub finalized : String
finalized = "finalized"

abbrev pub commit_order : List String
commit_order = not_processed ∷ processed ∷ confirmed ∷ safe ∷ finalized ∷ []

-- The loop of `level`, from the index `i` on.
unfoldable pub level_from : ℕ → List String → String → Result ℕ
level_from i [] commitment = err assertion_error
level_from i (value ∷ order) commitment =
    if value == commitment then ok i else level_from (suc i) order commitment

unfoldable pub level : String → Result ℕ
level commitment = level_from 0 commit_order commitment

unfoldable pub upper_set : String → Result (List String)
upper_set commitment = level commitment >>= λ l. ok (drop l commit_order)

unfoldable pub lower_set : String → Result (List String)
lower_set commitment = level commitment >>= λ l. ok (take l commit_order)

unfoldable pub to_solana : String → Result String
to_solana commitment =
    if commitment == not_processed
    then ok processed
    else if commitment == safe
    then ok confirmed
    else if commitment == processed
    then ok commitment
    else if commitment == confirmed
    then ok commitment
    else if commitment == finalized
    then ok commitment
    else err assertion_error

pub record SolAccountMeta : Type 0 where
  pub pubkey : String
  pub is_signer : Bool
  pub is_writable : Bool

pub record SolTxIx : Type 0 where
  pub program_id : String
  pub ix_data : List ℕ
  pub accounts : List SolAccountMeta

-- What solders answers of the message that is compiled from instructions: whether an account of it is a
-- signer, whether it is writable, its first account if there is no fee payer, the signature of a signer,
-- and the length of the signed transaction in bytes.
pub record Solders : Type 0 where
  pub is_signer : List SolTxIx → String → Bool
  pub is_writable : List SolTxIx → String → Bool
  pub first_account : List SolTxIx → Option String
  pub signature : String → List SolTxIx → Option String → String
  pub serialized_len : List SolTxIx → Option String → ℕ

pub record SolTx : Type 0 where
  pub name : String
  pub ix_list : List SolTxIx
  pub recent_block_hash : Option String
  pub is_signed : Bool
  pub is_cloned : Bool
  pub signature : String

unfoldable pub new_tx : String → List SolTxIx → SolTx
new_tx name ix_list = record {
  name = name;
  ix_list = ix_list;
  recent_block_hash = none;
  is_signed = false;
  is_cloned = false;
  signature = "";
}

-- `_build_legacy_tx`, on the object.
unfoldable pub build_legacy_tx : SolTx → Option String → List SolTxIx → SolTx
build_legacy_tx tx block_hash ix_list = record tx {
  ix_list = ix_list;
  recent_block_hash = block_hash;
  is_signed = false;
}

-- The loop on `ix.accounts`.
unfoldable pub signer_of : List SolAccountMeta → Option String → Option String
signer_of [] fee_payer = fee_payer
signer_of (a ∷ accounts) fee_payer =
    if a.is_signer then some a.pubkey else signer_of accounts fee_payer

-- The loop on `ix_list`: its `break` leaves the inner loop only.
unfoldable pub fee_payer_of : List SolTxIx → Option String → Option String
fee_payer_of [] fee_payer = fee_payer
fee_payer_of (ix ∷ ix_list) fee_payer = fee_payer_of ix_list (signer_of ix.accounts fee_payer)

abbrev or_else : Option String → String → String
or_else none key = key
or_else (some signer) key = signer

abbrev or_first : Option String → Option String → Option String
or_first none first = first
or_first (some payer) first = some payer

unfoldable pub fee_payer : Solders → SolTx → Option String
fee_payer lib tx = or_first (fee_payer_of tx.ix_list none) (lib.first_account tx.ix_list)

-- The loop on `compiled_ix.accounts`: the flags are those that the account has in the whole message, and
-- a signer that is given takes the place of every signer.
abbrev decode_accounts :
    Solders → List SolTxIx → Option String → List SolAccountMeta → List SolAccountMeta
decode_accounts lib msg signer [] = []
decode_accounts lib msg signer (a ∷ accounts) =
    let is_signer = lib.is_signer msg a.pubkey in
    record {
      pubkey = if is_signer then or_else signer a.pubkey else a.pubkey;
      is_signer = is_signer;
      is_writable = lib.is_writable msg a.pubkey;
    }
    ∷ decode_accounts lib msg signer accounts

abbrev decode_instructions : Solders → List SolTxIx → Option String → List SolTxIx → List SolTxIx
decode_instructions lib msg signer [] = []
decode_instructions lib msg signer (ix ∷ instructions) =
    record ix { accounts = decode_accounts lib msg signer ix.accounts }
    ∷ decode_instructions lib msg signer instructions

-- `_decode_ix_list`
unfoldable pub decode_ix_list : Solders → Option String → SolTx → List SolTxIx
decode_ix_list lib signer tx = decode_instructions lib tx.ix_list signer tx.ix_list

unfoldable pub set_recent_block_hash : Solders → Option String → SolTx → SolTx
set_recent_block_hash lib value tx = build_legacy_tx tx value (decode_ix_list lib none tx)

unfoldable pub set_fee_payer : Solders → String → SolTx → SolTx
set_fee_payer lib value tx =
    build_legacy_tx tx tx.recent_block_hash (decode_ix_list lib (some value) tx)

-- `add` of one instruction, and of the instructions of another transaction.
unfoldable pub add_ix : Solders → SolTx → SolTxIx → SolTx
add_ix lib tx ix = build_legacy_tx tx tx.recent_block_hash (decode_ix_list lib none tx ++ (ix ∷ []))

unfoldable pub add_tx : Solders → SolTx → SolTx → SolTx
add_tx lib tx arg =
    build_legacy_tx tx tx.recent_block_hash
      (decode_ix_list lib none tx ++ decode_ix_list lib none arg)

abbrev pub pays : String → Option String → Bool
pays signer none = false
pays signer (some payer) = signer == payer

unfoldable pub sign : Solders → String → SolTx → SolTx
sign lib signer tx =
    let paid = if pays signer (fee_payer lib tx) then tx else set_fee_payer lib signer tx in
    record paid {
      is_signed = true;
      signature = lib.signature signer paid.ix_list paid.recent_block_hash;
    }

unfoldable pub sig : SolTx → Result String
sig tx = assert tx.is_signed >>= λ _. ok tx.signature

unfoldable pub is_empty : SolTx → Bool
is_empty tx = is_nil tx.ix_list

-- `clone` gives the new transaction; the other says what it does to the original.
unfoldable pub clone : Solders → SolTx → SolTx
clone lib tx = new_tx tx.name (decode_ix_list lib none tx)

unfoldable pub mark_cloned : SolTx → SolTx
mark_cloned tx = record tx { is_cloned = true }

abbrev pub sol_pkt_data_size : ℕ
sol_pkt_data_size = 1280 - 40 - 8

-- What `serialize` does: it fails on an unsigned transaction, raises `SolTxSizeError`, or returns.
pub data Serialized : Type 0 where
  not_signed serialized : Serialized
  size_error : ℕ → ℕ → Serialized

unfoldable pub serialize : Solders → SolTx → Serialized
serialize lib tx =
    let len = lib.serialized_len tx.ix_list tx.recent_block_hash in
    if not tx.is_signed
    then not_signed
    else if ltb sol_pkt_data_size len
    then size_error len sol_pkt_data_size
    else serialized

unfoldable pub validate : Solders → String → SolTx → Serialized
unfolding serialize clone set_recent_block_hash sign
validate lib signer tx = serialize lib (
    sign lib signer (
      set_recent_block_hash lib (some "4NCYB3kRT8sCNodPNuCZo8VUh4xqpBQxsxed2wd9xaD4")
        (clone lib tx)))
