-- ===== src/Experiment.antt =====
-- examples/tinycoin/main.cpp: the statistics of the experiment. The sets of miners are tests of
-- ids. `none` is an access out of bounds or missing fuel; a read that `&&` skips in the source is made
-- here too, and is within bounds where the ids of the blocks are.
pub mod MainChain
pub mod Splits
pub mod Observed
pub mod Setup
pub mod Program
pub mod Drawn
pub mod Connected
pub mod Main
pub mod Chains
pub mod Powers
mod Tests
use distributedsim.Base.{
  ℕ, zero, suc, ◌+◌, ◌^◌, Bool, true, false, not, ◌&&◌, ◌||◌, Option, none, some, List, [], ◌∷◌,
  ltb, ◌==◌, if◌then◌else◌, ◌>>=◌, length, get_elem?, set, replicate,
}
use distributedsim.Rng.{u64}
use distributedsim.Tinycoin.{Block, no_id}

-- A write to a vector.
unfoldable pub put {ℓ} : {A : Type ℓ} → List A → ℕ → A → Option (List A)
put xs i v = if ltb i (length xs) then some (set xs i v) else none

-- The prefix sums of the weights of the miners: the loop from the second weight on.
unfoldable pub prefix_sums : ℕ → List ℕ → List ℕ
prefix_sums before [] = []
prefix_sums before (x ∷ xs) = let sum = u64 (x + before) in sum ∷ prefix_sums sum xs

pub record Counts : Type 0 where
  pub split_num : List ℕ
  pub split_len : List ℕ
  pub honest_blocks : ℕ
  pub selfish_blocks : ℕ
  pub total_splits : ℕ
  pub max_split_len : ℕ

abbrev pub no_counts : ℕ → Counts
no_counts n = record {
  split_num = replicate n 0;
  split_len = replicate n 0;
  honest_blocks = 0;
  selfish_blocks = 0;
  total_splits = 0;
  max_split_len = 0;
}

-- `split_len[id] = len;`, and then the longest one.
unfoldable pub set_split_len : ℕ → ℕ → Counts → Option Counts
unfolding put
set_split_len id len s = do
  lens ← put s.split_len id len
  some (record s {
    split_len = lens;
    max_split_len = if ltb s.max_split_len len then len else s.max_split_len;
  })

module _ {A : Type 0} where
  -- The loop from the head over the parents.
  unfoldable pub mark_chain : ℕ → List (Block A) → ℕ → List Bool → Option (List Bool)
  unfolding put
  mark_chain zero blockchain head main_chain = none
  mark_chain (suc fuel) blockchain head main_chain =
      let marked = (do
        main_chain' ← put main_chain head true
        blk ← get_elem? blockchain head
        mark_chain fuel blockchain blk.parent main_chain') in
      if head == 0 then some main_chain else marked

  module _ (honest selfish : ℕ → Bool) (main_chain : List Bool) where
    unfoldable pub count_block : Block A → Bool → Counts → Counts
    count_block blk on_main s =
        if honest blk.miner && on_main
        then record s { honest_blocks = u64 (s.honest_blocks + 1) }
        else if selfish blk.miner && on_main
        then record s { selfish_blocks = u64 (s.selfish_blocks + 1) }
        else s

    unfoldable pub start_split : Block A → Bool → Counts → Option Counts
    unfolding set_split_len
    start_split blk on_main s =
        let counted = (do
          s' ← set_split_len blk.id 1 s
          some (record s' { total_splits = u64 (s'.total_splits + 1) })) in
        do
          children ← get_elem? s.split_num blk.parent
          parent_on_main ← get_elem? main_chain blk.parent
          if (not (children == 0) && not on_main) || (parent_on_main && not on_main)
              then counted
              else some s

    unfoldable pub grow_split : Block A → Counts → Option Counts
    unfolding put set_split_len
    grow_split blk s = do
      children ← get_elem? s.split_num blk.parent
      nums ← put s.split_num blk.parent (u64 (children + 1))
      len ← get_elem? s.split_len blk.parent
      let s' = record s { split_num = nums }
      let longer = set_split_len blk.id (u64 (len + 1)) s'
      if len == 0 then some s' else longer

    unfoldable pub observe_block : Block A → Counts → Option Counts
    unfolding count_block start_split grow_split
    observe_block blk s =
        let observed = (do
          on_main ← get_elem? main_chain blk.id
          s' ← start_split blk on_main (count_block blk on_main s)
          grow_split blk s') in
        if blk.id == 0 then some s else if blk.id == no_id then some s else observed

    unfoldable pub observe_all : List (Block A) → Counts → Option Counts
    unfolding observe_block
    observe_all [] s = some s
    observe_all (blk ∷ blks) s = do s' ← observe_block blk s; observe_all blks s'

  -- The statistics of a block chain and its head.
  unfoldable pub statistics : ℕ → (ℕ → Bool) → (ℕ → Bool) → List (Block A) → ℕ → Option Counts
  unfolding mark_chain observe_all
  statistics fuel honest selfish blockchain head = do
    main_chain ← mark_chain fuel blockchain head (replicate (length blockchain) false)
    observe_all honest selfish main_chain blockchain (no_counts (length blockchain))
