-- ===== src/Experiment/Chains.antt =====
-- examples/tinycoin/main.cpp: its statistics of the block chain of a TinyNode in a valid state.
use distributedsim.Base.{
  ℕ, zero, suc, ◌+◌, ◌<◌, ◌≡◌, ◌≢◌, sym, ap, subst, ◌∙◌, inl, inr, Bool, false, some, List, [], ◌∷◌,
  length, length-replicate, some_injective, replicate, All, arith,
}
use distributedsim.Common.Laws.{get_elem?-eq_some}
use distributedsim.Tinycoin.{Block, Chain, no_block, orphan_id}
use distributedsim.Tinycoin.Tree.{slot, IsHandled}
use distributedsim.Tinycoin.Valid.{IsValid}
use distributedsim.Experiment.{Counts, no_counts, statistics}
use distributedsim.Experiment.MainChain.{IsOlder, IsMarked, mark_chain-IsMarked}
use distributedsim.Experiment.Splits.{only_selfish, recount, IsSound, no_counts-IsSound}
use distributedsim.Experiment.Observed.{IsPlaced, tally, is_mined, observe_all-IsSound}

module _ {A S : Type 0} (origin : ℕ → ℕ) (older : (i : ℕ) → 0 < i → origin i < i) (c : Chain A S)
    (valid : IsValid origin [] c) where
  -- The handled blocks are younger than their parents.
  IsHandled-IsOlder : IsOlder c.blockchain (IsHandled c.blockchain)
  unfolding IsOlder
  IsHandled-IsOlder i blk h pos e =
      let link = valid.tree.linked i pos h in
      let here : slot c.blockchain i ≡ blk =
        some_injective (slot c.blockchain i) blk
          (sym (get_elem?-eq_some no_block c.blockchain i h.0) ∙ e) in
      let parent : blk.parent ≡ origin i = ap (λ (b : Block A). b.parent) (sym here) ∙ link.made in
      (
        omega (arith, parent, older i pos),
        subst (IsHandled c.blockchain) (sym parent) link.on_handled,
      )

  All-slots :
      (P : Block A → Type 0) (bc : List (Block A))
      → ((i : ℕ) → i < length bc → P (slot bc i))
      → All P bc
  All-slots P [] h = tt
  All-slots P (b ∷ bc) h = (h zero (omega arith), All-slots P bc (λ i lt. h (suc i) (omega arith)))

  module _ (none_waits : (i : ℕ) → (slot c.blockchain i).id ≢ orphan_id)
      (genesis : (slot c.blockchain 0).id < length c.blockchain)
      (rooted : (slot c.blockchain 0).parent ≡ 0) where
    placed :
        (i : ℕ) → i < length c.blockchain → IsPlaced (length c.blockchain) (slot c.blockchain i)
    unfolding IsPlaced
    placed zero lt = inr (inr (genesis, omega arith))
    placed (suc i) lt = elim (valid.slots (suc i) (omega arith) lt) [
      | inl here ↦
          let link = valid.tree.linked (suc i) (omega arith) (lt, inr here) in
          inr (inr (omega arith, omega (arith, link.made, link.on_handled.0)))
      | inr (inl empty) ↦ inr (inl empty)
      | inr (inr waits) ↦ absurd (none_waits (suc i) waits)
    ]

    -- Where no block is postponed, the id of the genesis block has an entry and its parent is 0, the
    -- statistics of a node in a valid state are made, with as many rounds as the head's id and one. The
    -- blocks that are marked are the head and its ancestors but the genesis block. The count of the
    -- honest miners is that of the marked blocks of honest miners, apart from blocks with the id 0, the
    -- count of the selfish ones that of those of selfish miners that are not honest, and no split is
    -- longer than the longest one. A block is made after its parent.
    pub statistics-IsSound :
        (honest selfish : ℕ → Bool)
        → (main_chain : List Bool) × (counts : Counts) × (statistics
              (c.head + 1)
              honest
              selfish
              c.blockchain
              c.head
            ≡ some counts)
          × IsMarked c.blockchain c.head (replicate (length c.blockchain) false) main_chain
          × IsSound
              (length c.blockchain)
              (tally (is_mined honest main_chain) c.blockchain)
              (tally (is_mined (only_selfish honest selfish) main_chain) c.blockchain)
              counts
    unfolding statistics
    statistics-IsSound honest selfish =
        let n = length c.blockchain in
        let (main_chain, e, marked) =
          mark_chain-IsMarked c.blockchain (IsHandled c.blockchain) (c.head + 1) c.head
            (replicate n false) IsHandled-IsOlder valid.head_handled (length-replicate n false)
            valid.head_handled.0 (omega arith) in
        let few = valid.tree.fits in
        let (counts, f, sound) =
          observe_all-IsSound n honest selfish main_chain (marked.long ∙ length-replicate n false)
            c.blockchain (no_counts n) (All-slots (IsPlaced n) c.blockchain placed) (omega arith)
            (omega arith) (no_counts-IsSound n) in
        (main_chain, counts, rw e f, marked, recount n sound (omega arith) (omega arith))
