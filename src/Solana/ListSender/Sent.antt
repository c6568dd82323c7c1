-- ===== src/Solana/ListSender/Sent.antt =====
-- `send` of `SolTxListSender` (proxy/common_neon/solana_tx_list_sender.py): what holds when it returns.
use proxy_model_py.Base.{
  ℕ, ◌≤◌, ◌≡◌, inl, inr, Option, none, some, List, [], ◌∷◌, Option-cases, arith, ok, min, All, ◌-◌,
}
use proxy_model_py.Solana.Tx.{level, confirmed}
use proxy_model_py.Solana.ListSender.State.{Env, Sender, SolTxSendState, big_block_slot, block_slot}
use proxy_model_py.Solana.ListSender.Calls.{min_block_slot, min_slot, tx_state_list}
use proxy_model_py.Solana.ListSender.Settled.{IsSettled}

min_block_slot-le : (list : List SolTxSendState) (least : ℕ) → min_block_slot list least ≤ least
unfolding min_block_slot min_slot
min_block_slot-le [] least = omega arith
min_block_slot-le (tx_state ∷ list) least = elim (Option-cases (block_slot tx_state)) [
  | inl none_there ↦ rw none_there (min_block_slot-le list least)
  | inr (slot, there) ↦ rw there (omega (arith, min_block_slot-le list (min least slot)))
]

-- The slot of the state, if it has one, is not below `least`.
abbrev pub IsFrom : ℕ → Option ℕ → Type 0
IsFrom least none = Unit
IsFrom least (some slot) = least ≤ slot

first-IsFrom :
    (slot : Option ℕ) (list : List SolTxSendState) (least : ℕ)
    → IsFrom (min_block_slot list (min_slot slot least)) slot
unfolding min_slot
first-IsFrom none list least = tt
first-IsFrom (some slot) list least = omega (arith, min_block_slot-le list (min least slot))

-- `_validate_commit_level` looks at a slot that no state of the list is below.
pub min_block_slot-least :
    (list : List SolTxSendState) (least : ℕ)
    → All (λ tx_state. IsFrom (min_block_slot list least) (block_slot tx_state)) list
unfolding min_block_slot min_slot
min_block_slot-least [] least = tt
min_block_slot-least (tx_state ∷ list) least = (
  first-IsFrom (block_slot tx_state) list least,
  min_block_slot-least list (min_slot (block_slot tx_state) least),
)

-- What `_validate_commit_level` relies on when it returns: no more than the level of a receipt is asked
-- for, no state has a block, or the block of `slot` has the level, as the node answered call `calls`.
pub data HasLevel (e : Env) (calls slot : ℕ) : Type 0 where
  no_level : e.commit_level ≡ confirmed → HasLevel e calls slot
  no_block : slot ≡ big_block_slot → HasLevel e calls slot
  has_level :
      (wanted reached : ℕ)
      → level e.commit_level ≡ ok wanted
      → level (e.node.get_block_status calls slot) ≡ ok reached
      → wanted ≤ reached
      → HasLevel e calls slot

abbrev pub least_slot : Sender → ℕ
least_slot s = min_block_slot (tx_state_list s) big_block_slot

-- What holds when the sender has sent: all is settled, and the level of the block of the least slot of the
-- states of its transactions was enough.
abbrev pub IsSent : Env → Sender → Type 0
IsSent e s =
    IsSettled s
    × HasLevel e (s.calls - 1) (least_slot s)
    × All (λ tx_state. IsFrom (least_slot s) (block_slot tx_state)) (tx_state_list s)
