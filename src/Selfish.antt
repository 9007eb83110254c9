-- ===== src/Selfish.antt =====
-- examples/tinycoin/selfish.hpp: SelfishCoordinator and SelfishPolicy. Each method is one step, with
-- the two critical sections of its calls in their order. `confirm` and `unconfirm` stand for those
-- of TinyMiner. The calls `ptr->send_block(blk)` of the members are what a step returns: pairs of a
-- member's id and a block. Such a call leads back to others_block with a block of a member, which
-- does no more than handle_block again. `none` is front() of an empty deque, an index out of bounds,
-- both undefined, or missing fuel.

pub mod Reply
pub mod Publish
mod Tests
use distributedsim.Base.{
  ℕ, zero, suc, ◌+◌, Bool, true, false, not, ◌&&◌, Option, none, some, List, [], ◌∷◌, ◌++◌, ltb,
  ◌==◌, if◌then◌else◌, ◌>>=◌, length, get_elem?,
}
use distributedsim.Tinycoin.{Transaction, Block, Chain}
use distributedsim.Tinycoin.Receive.{receive}
use distributedsim.Miner.{Miner, insert, contains, erase_all, fill, miner_handle_transaction}

-- The base class TinyMiner is `node`. `members` are the keys of the map.
pub record Coordinator (A : Type 0) : Type 0 where
  pub node : Chain A (Miner A)
  pub our_chain : List (Block A)
  pub members : List ℕ
  pub blocks_seen : List ℕ
  pub starting_height : ℕ
  pub published_blocks : ℕ
  pub our_head : ℕ
  pub private_pending_transactions : List ℕ

module _ {A : Type 0} where
  -- The members' initialisers.
  abbrev pub new_coordinator : Chain A (Miner A) → Coordinator A
  new_coordinator node = record {
    node = node;
    our_chain = [];
    members = [];
    blocks_seen = [];
    starting_height = 0;
    published_blocks = 0;
    our_head = 0;
    private_pending_transactions = [];
  }

  unfoldable pub clear_chain : Coordinator A → Option (Coordinator A)
  clear_chain s = do
    h ← get_elem? s.node.lengths s.node.head
    some (record s {
      our_chain = [];
      published_blocks = 0;
      our_head = s.node.head;
      starting_height = h;
      private_pending_transactions = s.node.rest.pending_transactions;
    })

  unfoldable pub add_block : Block A → Coordinator A → Coordinator A
  add_block blk s = record s {
    private_pending_transactions = erase_all blk.transactions s.private_pending_transactions;
    our_chain = s.our_chain ++ blk ∷ [];
    our_head = blk.id;
  }

  -- flush_chain_: the blocks that it appends to `to_send`, which is empty at every call.
  unfoldable pub take_chain : Coordinator A → Option (List (Block A) × Coordinator A)
  unfolding clear_chain
  take_chain s =
      if length s.members == 0 then some ([], s) else do s' ← clear_chain s; some (s.our_chain, s')

  abbrev pub add_member : ℕ → Coordinator A → Coordinator A
  add_member id s = record s { members = insert id s.members }

  abbrev pub is_member : ℕ → Coordinator A → Bool
  is_member id s = contains id s.members

  abbrev pub get_head : Coordinator A → ℕ
  get_head s = s.our_head

  -- transaction(tx)
  unfoldable pub on_transaction : A → Transaction A → Coordinator A → Coordinator A
  unfolding miner_handle_transaction
  on_transaction nothing tx s =
      let (_, rest) = miner_handle_transaction nothing tx s.node.rest in
      record s {
        node = record s.node { rest = rest };
        private_pending_transactions = insert tx.id s.private_pending_transactions;
      }

  -- add_transactions; `limit` is MinerPolicy::transactions_per_block.
  unfoldable pub add_transactions : ℕ → Block A → Coordinator A → Option (Block A)
  unfolding fill
  add_transactions limit blk s = do
    txs ←
        fill limit s.node.rest.received_transactions s.private_pending_transactions blk.transactions
    some (record blk { transactions = txs })

  -- The height that the branch has with its private blocks.
  abbrev pub private_height : Coordinator A → ℕ
  private_height s = s.starting_height + length s.our_chain + s.published_blocks

  -- `to_send.push_back(our_chain.front()); our_chain.pop_front(); published_blocks++;`
  abbrev pub publish_front :
      List (Block A) → Coordinator A → Option (List (Block A) × Coordinator A)
  publish_front [] s = none
  publish_front (blk ∷ rest) s =
      some (blk ∷ [], record s { our_chain = rest; published_blocks = s.published_blocks + 1 })

  -- The four cases of others_block, for a new head of height `h`.
  unfoldable pub reply : ℕ → Coordinator A → Option (List (Block A) × Coordinator A)
  unfolding clear_chain take_chain
  reply h s =
      if ltb (private_height s) h
      then (do s' ← clear_chain s; some ([], s'))
      else if private_height s == h
      then publish_front s.our_chain s
      else if private_height s == h + 1
      then take_chain s
      else publish_front s.our_chain s

  -- The critical section of others_block.
  unfoldable pub react : Block A → Coordinator A → Option (List (Block A) × Coordinator A)
  unfolding reply
  react blk s =
      let seen = record s { blocks_seen = insert blk.id s.blocks_seen } in
      let replied = (do h ← get_elem? s.node.lengths blk.id; reply h seen) in
      if is_member blk.miner s
      then some ([], s)
      else if contains blk.id s.blocks_seen
      then some ([], s)
      else if blk.id == s.node.head
      then replied
      else some ([], seen)

-- The loop over the members, which calls `ptr->send_block(blk)`.
abbrev pub to_members : {A : Type 0} → List ℕ → Block A → List (ℕ × Block A)
to_members [] blk = []
to_members (id ∷ ids) blk = (id, blk) ∷ to_members ids blk

module _ {A : Type 0} (confirm unconfirm : Block A → Miner A → Miner A) where
  -- handle_block of the base class, whose policy is null.
  unfoldable pub observe : Block A → Coordinator A → Option (Coordinator A)
  unfolding receive
  observe blk s = do (_, c) ← receive confirm unconfirm blk s.node; some (record s { node = c })

  -- SelfishCoordinator::send_block
  unfoldable pub send_block : Block A → Coordinator A → Option (List (ℕ × Block A) × Coordinator A)
  unfolding observe
  send_block blk s = do s' ← observe blk s; some (to_members s'.members blk, s')

  -- `for (auto blk: to_send) send_block(blk);`
  unfoldable pub send_all :
      List (Block A) → Coordinator A → Option (List (ℕ × Block A) × Coordinator A)
  unfolding send_block
  send_all [] s = some ([], s)
  send_all (blk ∷ blks) s = do
    (sent, s') ← send_block blk s
    (later, s'') ← send_all blks s'
    some (sent ++ later, s'')

  unfoldable pub others_block :
      Block A → Coordinator A → Option (List (ℕ × Block A) × Coordinator A)
  unfolding observe react send_all
  others_block blk s = do s₁ ← observe blk s; (to_send, s₂) ← react blk s₁; send_all to_send s₂

  unfoldable pub our_block : Block A → Coordinator A → Option (List (ℕ × Block A) × Coordinator A)
  our_block blk s = do
    let s₁ = add_block blk s
    h ← get_elem? s₁.node.lengths s₁.node.head
    (to_send, s₂) ←
        (if private_height s₁ == h + 1 && ltb 1 (s₁.published_blocks + length s₁.our_chain)
          then take_chain s₁
          else some ([], s₁))
    send_all to_send s₂

  unfoldable pub flush_chain : Coordinator A → Option (List (ℕ × Block A) × Coordinator A)
  unfolding take_chain send_all
  flush_chain s = do (to_send, s') ← take_chain s; send_all to_send s'

  -- SelfishPolicy::on_mined, with the id of the new block and the id of the member.
  unfoldable pub policy_mined :
      ℕ → ℕ → ℕ → Coordinator A → Option (List (ℕ × Block A) × Coordinator A)
  unfolding add_transactions our_block
  policy_mined limit next id s = do
    blk ←
        add_transactions limit
          (record { id = next; parent = get_head s; miner = id; transactions = [] }) s
    our_block blk s

  -- SelfishPolicy::on_block, on_transaction, and the constructor.
  unfoldable pub policy_block :
      Block A → Coordinator A → Option (List (ℕ × Block A) × Coordinator A)
  unfolding others_block
  policy_block blk s = others_block blk s

  unfoldable pub policy_transaction : A → Transaction A → Coordinator A → Coordinator A
  unfolding on_transaction
  policy_transaction nothing tx s = on_transaction nothing tx s

  abbrev pub new_policy : ℕ → Coordinator A → Coordinator A
  new_policy id s = add_member id s
