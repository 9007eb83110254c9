-- ===== src/Tinycoin.antt =====
-- protocols/tinycoin.hpp: the block tree that every TinyNode keeps. The type `A` of amounts stands
-- for `double`. `S` is what the virtual functions `confirm` and `unconfirm` change: the balance of a
-- node, and of a miner also its pending transactions. `none` is an index out of bounds, which is
-- undefined, or missing fuel.
pub mod Tree
pub mod Reorg
pub mod Valid
pub mod Heights
pub mod Write
pub mod Postpone
pub mod Attach
pub mod Handle
pub mod Receive
pub mod Rest
mod Tests
use distributedsim.Base.{
  ℕ, zero, suc, ◌+◌, ◌-◌, ◌^◌, Bool, true, false, not, ◌||◌, Option, none, some, List, [], ◌∷◌,
  ◌++◌, ltb, leb, ◌==◌, if◌then◌else◌, ◌>>=◌, length, get_elem?, set,
}
use distributedsim.Common.{grow, satisfies, vec_set}

pub record Transaction (A : Type 0) : Type 0 where
  pub source_node : ℕ
  pub destination_node : ℕ
  pub amount : A
  pub id : ℕ

-- The vector of transactions is shared by pointer and is not changed once the block is sent.
pub record Block (A : Type 0) : Type 0 where
  pub id : ℕ
  pub parent : ℕ
  pub miner : ℕ
  pub transactions : List (Transaction A)

-- (std::size_t)-1, the id of a block that was default-constructed.
abbrev pub no_id : ℕ
no_id = 2 ^ 64 - 1

-- (std::size_t)-2, the id in the slot of a block whose parent has not been handled.
abbrev pub orphan_id : ℕ
orphan_id = 2 ^ 64 - 2

-- TinyBlock(). Parent and miner are indeterminate there; a slot with this id is never read for them.
abbrev pub no_block : {A : Type 0} → Block A
no_block = record { id = no_id; parent = 0; miner = 0; transactions = [] }

abbrev pub is_seen : {A : Type 0} → Block A → Bool
is_seen k = not (k.id == no_id)

abbrev pub is_unhandled : {A : Type 0} → Block A → Bool
is_unhandled k = k.id == no_id || k.id == orphan_id

-- The members of TinyNode that handle_block and update_head use.
pub record Chain (A S : Type 0) : Type 0 where
  pub blockchain : List (Block A)
  pub pending_blocks : List (List (Block A))
  pub lengths : List ℕ
  pub head : ℕ
  pub rest : S

-- The member initialisers: one genesis block, whose id is the next of the global counter, and
-- `lengths{1, 0}`, which is a list of two numbers.
unfoldable pub initial : {A S : Type 0} → ℕ → S → Chain A S
initial genesis_id s = record {
  blockchain = record { id = genesis_id; parent = 0; miner = no_id; transactions = [] } ∷ [];
  pending_blocks = [];
  lengths = 1 ∷ 0 ∷ [];
  head = 0;
  rest = s;
}

module _ {A S : Type 0} where
  -- `for (auto chld: fwd) handle_block(chld);`
  unfoldable pub handle_all :
      (Block A → Chain A S → Option (Bool × Chain A S))
      → List (Block A)
      → Chain A S
      → Option (Chain A S)
  handle_all handle [] c = some c
  handle_all handle (b ∷ bs) c = do (_, c') ← handle b c; handle_all handle bs c'

  -- The branch for a block whose parent has not been handled.
  unfoldable pub postpone : Block A → Chain A S → Option (Chain A S)
  postpone block c = do
    waiting ← get_elem? c.pending_blocks block.parent
    some (record c {
      blockchain = set c.blockchain block.id (record block { id = orphan_id });
      pending_blocks = set c.pending_blocks block.parent (waiting ++ block ∷ []);
    })

module _ {A S : Type 0} (confirm unconfirm : Block A → S → S) where
  -- The first loop of update_head: down from the new head to the height of the old one.
  unfoldable pub descend : ℕ → Chain A S → ℕ → ℕ → S → Option (ℕ × S)
  descend zero c new_head old_head s = none
  descend (suc fuel) c new_head old_head s = do
    high ← get_elem? c.lengths new_head
    low ← get_elem? c.lengths old_head
    let further = (do
      b ← get_elem? c.blockchain new_head
      descend fuel c b.parent old_head (confirm b s))
    if ltb low high then further else some (new_head, s)

  -- The second loop: both branches down to where they meet.
  unfoldable pub retrace : ℕ → Chain A S → ℕ → ℕ → S → Option S
  retrace zero c new_head old_head s = none
  retrace (suc fuel) c new_head old_head s =
      let further = (do
        b ← get_elem? c.blockchain new_head
        o ← get_elem? c.blockchain old_head
        retrace fuel c b.parent o.parent (unconfirm o (confirm b s))) in
      if new_head == old_head then some s else further

  unfoldable pub update_head : ℕ → Chain A S → ℕ → Option (Chain A S)
  unfolding descend retrace
  update_head fuel c new_head = do
    (level, s) ← descend fuel c new_head c.head c.rest
    s' ← retrace fuel c level c.head s
    some (record c { head = new_head; rest = s' })

  -- The branch for a block whose parent has been handled, up to the children: the new height, the
  -- head if the block is higher, and the children that waited for it.
  unfoldable pub attach : Block A → Chain A S → Option (List (Block A) × Chain A S)
  unfolding update_head vec_set
  attach block c = do
    below ← get_elem? c.lengths block.parent
    let high = vec_set 0 c.lengths block.id (below + 1)
    top ← get_elem? high c.head
    let c₁ = record c { lengths = high }
    c₂ ← (if ltb top (below + 1) then update_head (below + 2) c₁ block.id else some c₁)
    fwd ← get_elem? c₂.pending_blocks block.id
    some (fwd, record c₂ { pending_blocks = set c₂.pending_blocks block.id [] })

  -- handle_block: whether the block was new, and the state after it. The calls for the children that waited
  -- are virtual; a child is not new any more, so that a TinyMiner does no more there than a TinyNode.
  unfoldable pub handle_block : ℕ → Block A → Chain A S → Option (Bool × Chain A S)
  unfolding postpone attach handle_all satisfies vec_set grow
  handle_block zero block c = none
  handle_block (suc fuel) block c =
      let should_forward = not (satisfies c.blockchain block.id is_seen) in
      let c₁ = record c {
        blockchain = vec_set no_block c.blockchain block.id block;
        pending_blocks = grow [] c.pending_blocks (block.id + 1);
      } in
      let postponed = (do c₂ ← postpone block c₁; some (should_forward, c₂)) in
      let attached = (do
        (fwd, c₂) ← attach block c₁
        c₃ ← handle_all (handle_block fuel) fwd c₂
        some (should_forward, c₃)) in
      if satisfies c.blockchain block.id (λ k. k.id == block.id)
      then some (should_forward, c)
      else if satisfies c₁.blockchain block.parent is_unhandled
      then postponed
      else attached
