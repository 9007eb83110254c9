-- ===== src/Miner.antt =====
-- protocols/tinycoin.hpp: the transactions of TinyNode and TinyMiner, and the block that a
-- MinerPolicy fills. The type `A` of amounts stands for `double`, with its operations as parameters:
-- `add`, `subtract`, `scale` for a product with a number of transactions, and `nothing` for 0. A
-- std::set is a list without repetitions in rising order.

pub mod Pending
pub mod Received
pub mod Mined
mod Tests
use distributedsim.Base.{
  ℕ, zero, suc, ◌+◌, Bool, true, false, not, ◌||◌, Option, none, some, List, [], ◌∷◌, ◌++◌, map,
  ltb, ◌==◌, if◌then◌else◌, ◌>>=◌, length, get_elem?,
}
use distributedsim.Common.{satisfies, vec_set}
use distributedsim.Tinycoin.{Transaction, Block, no_id}

-- std::set::insert, std::set::erase and std::set::count
unfoldable pub insert : ℕ → List ℕ → List ℕ
insert x [] = x ∷ []
insert x (y ∷ ys) =
    let rest = insert x ys in if ltb x y then x ∷ y ∷ ys else if x == y then y ∷ ys else y ∷ rest

unfoldable pub erase : ℕ → List ℕ → List ℕ
erase x [] = []
erase x (y ∷ ys) = let rest = erase x ys in if x == y then ys else y ∷ rest

abbrev pub contains : ℕ → List ℕ → Bool
contains x [] = false
contains x (y ∷ ys) = x == y || contains x ys

-- The loops `for (auto tx: *blk.transactions)` of confirm and unconfirm.
unfoldable pub erase_all : {A : Type 0} → List (Transaction A) → List ℕ → List ℕ
erase_all [] xs = xs
erase_all (tx ∷ txs) xs = erase_all txs (erase tx.id xs)

unfoldable pub insert_all : {A : Type 0} → List (Transaction A) → List ℕ → List ℕ
insert_all [] xs = xs
insert_all (tx ∷ txs) xs = insert_all txs (insert tx.id xs)

-- TinyTransaction()
abbrev pub no_transaction : {A : Type 0} → A → Transaction A
no_transaction a = record { source_node = 0; destination_node = 0; amount = a; id = no_id }

-- The members that the functions here use. `power` is power_.
pub record Miner (A : Type 0) : Type 0 where
  pub me : ℕ
  pub balance : A
  pub received_transactions : List (Transaction A)
  pub pending_transactions : List ℕ

module _ {A : Type 0} (add : A → A → A) (nothing : A) where
  -- The loop of block_value, from `val` on.
  unfoldable pub received_amount : ℕ → List (Transaction A) → A → A
  received_amount me [] val = val
  received_amount me (tx ∷ txs) val =
      received_amount me txs (if tx.destination_node == me then add val tx.amount else val)

  unfoldable pub block_value : (ℕ → A) → A → ℕ → Block A → A
  unfolding received_amount
  block_value scale block_reward me blk =
      let val = received_amount me blk.transactions nothing in
      if blk.miner == me then add val (add block_reward (scale (length blk.transactions))) else val

  -- TinyNode::confirm
  unfoldable pub node_confirm : (ℕ → A) → A → Block A → Miner A → Miner A
  unfolding block_value
  node_confirm scale block_reward blk s = record s {
    balance = add s.balance (block_value scale block_reward s.me blk);
  }

  -- TinyMiner::confirm
  unfoldable pub miner_confirm : (ℕ → A) → A → Block A → Miner A → Miner A
  unfolding block_value erase_all
  miner_confirm scale block_reward blk s = record s {
    balance = add s.balance (block_value scale block_reward s.me blk);
    pending_transactions = erase_all blk.transactions s.pending_transactions;
  }

  -- TinyNode::unconfirm
  unfoldable pub node_unconfirm : (A → A → A) → (ℕ → A) → A → Block A → Miner A → Miner A
  unfolding block_value
  node_unconfirm subtract scale block_reward blk s = record s {
    balance = subtract s.balance (block_value scale block_reward s.me blk);
  }

  -- TinyMiner::unconfirm
  unfoldable pub miner_unconfirm : (A → A → A) → (ℕ → A) → A → Block A → Miner A → Miner A
  unfolding block_value insert_all
  miner_unconfirm subtract scale block_reward blk s = record s {
    balance = subtract s.balance (block_value scale block_reward s.me blk);
    pending_transactions = insert_all blk.transactions s.pending_transactions;
  }

module _ {A : Type 0} (nothing : A) where
  abbrev pub is_received : Transaction A → Bool
  is_received tx = not (tx.id == no_id)

  -- TinyNode::handle_transaction: whether the transaction was new, and the state after it.
  unfoldable pub node_handle_transaction : Transaction A → Miner A → Bool × Miner A
  unfolding satisfies vec_set
  node_handle_transaction tx s =
      if satisfies s.received_transactions tx.id is_received then (false, s) else (
        true,
        record s {
          received_transactions = vec_set (no_transaction nothing) s.received_transactions tx.id tx;
        },
      )

  -- TinyMiner::handle_transaction, with `on_transaction`, a virtual function of the policy, left out:
  -- it does nothing for a MinerPolicy.
  unfoldable pub miner_handle_transaction : Transaction A → Miner A → Bool × Miner A
  unfolding node_handle_transaction insert
  miner_handle_transaction tx s =
      let (fresh, s') = node_handle_transaction tx s in
      if fresh
      then (true, record s' { pending_transactions = insert tx.id s'.pending_transactions })
      else (false, s')

-- The loop of on_mined, from `txs` on. `none` is an index out of bounds, which is undefined.
unfoldable pub fill :
    {A : Type 0}
    → ℕ
    → List (Transaction A)
    → List ℕ
    → List (Transaction A)
    → Option (List (Transaction A))
fill limit received [] txs = some txs
fill limit received (i ∷ ids) txs =
    let further = (do tx ← get_elem? received i; fill limit received ids (txs ++ tx ∷ [])) in
    if ltb limit (length txs) then some txs else further

-- The block that on_mined sends: `limit` is transactions_per_block, and `next` the id from the counter.
unfoldable pub on_mined : {A : Type 0} → ℕ → ℕ → ℕ → Miner A → Option (Block A)
unfolding fill
on_mined limit next head s = do
  txs ← fill limit s.received_transactions s.pending_transactions []
  some (record { id = next; parent = head; miner = s.me; transactions = txs })
