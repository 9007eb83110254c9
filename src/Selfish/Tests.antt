-- ===== src/Selfish/Tests.antt =====
-- A coordinator with one private block, over a node that has only the genesis block.
use distributedsim.Base.{◌>>=◌, ℕ, zero, suc, ◌<◌, ◌≡◌, ◌⊎◌, refl, some, List, [], ◌∷◌, ◌++◌, arith}
use distributedsim.Tinycoin.{Block, initial, handle_block}
use distributedsim.Tinycoin.Tree.{height}
use distributedsim.Tinycoin.Valid.{IsMade, initial-IsValid}
use distributedsim.Miner.{Miner, insert}
use distributedsim.Selfish.{
  Coordinator, new_coordinator, private_height, others_block, our_block, flush_chain,
}
use distributedsim.Selfish.Reply.{IsSound}
use distributedsim.Selfish.Publish.{
  calls, others_block-IsSound, our_block-IsSound, flush_chain-IsSound,
}

-- Blocks 1 and 2 are on the genesis block, and block 3 is on block 1.
abbrev tree : ℕ → ℕ
tree zero = 0
tree (suc zero) = 0
tree (suc (suc zero)) = 0
tree (suc (suc (suc i))) = suc i

tree_older : (i : ℕ) → 0 < i → tree i < i
tree_older zero pos = absurd (omega arith)
tree_older (suc zero) pos = omega arith
tree_older (suc (suc zero)) pos = omega arith
tree_older (suc (suc (suc i))) pos = omega arith

abbrev mined : ℕ → ℕ → Block ℕ
mined i who = record { id = i; parent = tree i; miner = who; transactions = [] }

abbrev wallet : Miner ℕ
wallet = record { me = 9; balance = 20; received_transactions = []; pending_transactions = [] }

abbrev coordinator : Coordinator ℕ
coordinator = record (new_coordinator (initial 0 wallet)) {
  members = 5 ∷ [];
  our_chain = mined 1 5 ∷ [];
}

abbrev keep : Block ℕ → Miner ℕ → Miner ℕ
keep blk s = s

one_IsMade : IsMade tree (mined 1 5)
one_IsMade = record { counted = omega arith; in_range = omega arith; made_on = refl }

two_IsMade : IsMade tree (mined 2 6)
two_IsMade = record { counted = omega arith; in_range = omega arith; made_on = refl }

three_IsMade : IsMade tree (mined 3 5)
three_IsMade = record { counted = omega arith; in_range = omega arith; made_on = refl }

coordinator-IsSound : IsSound tree coordinator
coordinator-IsSound = record {
  node_valid = initial-IsValid tree 0 wallet (omega arith);
  ours = (one_IsMade, tt);
  behind = omega arith;
}

-- Others find a block of the same height: starting_height began with 0, one less than the genesis
-- block's, so the coordinator gives its block up where it means to publish it.
tie_is_given_up :
    (s' : Coordinator ℕ) × (others_block keep keep (mined 2 6) coordinator ≡ some ([], s'))
    × (s'.our_chain ≡ [])
unfolding others_block initial handle_block
tie_is_given_up = (_, refl, refl)

-- Block 3 of others comes before its parent, block 1. The head of the node moves to it when block 1 comes,
-- but then the coordinator asks whether block 1 is the head: it keeps a branch that is two blocks behind,
-- and goes on mining on its old head.
abbrev behind : Coordinator ℕ
behind = record coordinator { our_chain = mined 2 5 ∷ [] }

head_is_missed :
    (s' : Coordinator ℕ) × ((do
      (sent, s) ← others_block keep keep (mined 3 6) behind
      others_block keep keep (mined 1 6) s)
      ≡ some ([], s'))
    × (s'.node.head ≡ 3)
    × (s'.our_head ≡ 0)
    × (s'.our_chain ≡ mined 2 5 ∷ [])
unfolding others_block initial handle_block insert
head_is_missed = (_, refl, refl, refl, refl)

others_block-IsSound_example :
    (sent : List (Block ℕ)) × (s' : Coordinator ℕ) × (others_block keep keep (mined 2 6) coordinator
      ≡ some (calls s'.members sent, s'))
    × IsSound tree s'
    × ((sent ++ s'.our_chain ≡ coordinator.our_chain)
        ⊎ ((private_height coordinator < height s'.node.lengths s'.node.head)
            × (sent ≡ [])
            × (s'.our_chain ≡ [])))
unfolding initial
others_block-IsSound_example =
    others_block-IsSound keep keep tree tree_older (mined 2 6) coordinator coordinator-IsSound
      two_IsMade (omega arith)

our_block-IsSound_example :
    (sent : List (Block ℕ)) × (s' : Coordinator ℕ) × (our_block keep keep (mined 3 5) coordinator
      ≡ some (calls s'.members sent, s'))
    × IsSound tree s'
    × (((sent ≡ []) × (s'.our_chain ≡ mined 1 5 ∷ mined 3 5 ∷ []))
        ⊎ ((sent ≡ mined 1 5 ∷ mined 3 5 ∷ []) × (s'.our_chain ≡ [])))
our_block-IsSound_example =
    our_block-IsSound keep keep tree tree_older (mined 3 5) coordinator coordinator-IsSound
      three_IsMade

flush_chain-IsSound_example :
    (sent : List (Block ℕ)) × (s' : Coordinator ℕ) × (flush_chain keep keep coordinator
      ≡ some (calls s'.members sent, s'))
    × IsSound tree s'
    × (((sent ≡ []) × (s'.our_chain ≡ mined 1 5 ∷ []))
        ⊎ ((sent ≡ mined 1 5 ∷ []) × (s'.our_chain ≡ [])))
flush_chain-IsSound_example =
    flush_chain-IsSound keep keep tree tree_older coordinator coordinator-IsSound
