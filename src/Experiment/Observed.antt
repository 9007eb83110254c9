-- ===== src/Experiment/Observed.antt =====
-- examples/tinycoin/main.cpp: what the loop over the blocks counts.
use distributedsim.Base.{
  ==_ne, not, get_or, ◌^◌, ℕ, ◌+◌, ◌≤◌, ◌<◌, ◌≡◌, ◌⊎◌, refl, inl, inr, Bool, true, false, ◌&&◌,
  some, List, [], ◌∷◌, ◌==◌, Bool-cases, length, All, arith,
}
use distributedsim.Common.Laws.{get_elem?-eq_some}
use distributedsim.Tinycoin.{Block, no_id}
use distributedsim.Experiment.{Counts, count_block, observe_block, observe_all}
use distributedsim.Experiment.Splits.{
  one_if, only_selfish, IsSound, Gives, recount, count_block-IsSound, start_split-IsSound,
  grow_split-IsSound,
}

-- A block that the loop skips, or whose id and parent have an entry in the vectors.
unfoldable pub IsPlaced : {A : Type 0} → ℕ → Block A → Type 0
IsPlaced n blk = (blk.id ≡ 0) ⊎ ((blk.id ≡ no_id) ⊎ ((blk.id < n) × (blk.parent < n)))

one_if_le : (b : Bool) → one_if b ≤ 1
one_if_le true = omega arith
one_if_le false = omega arith

module _ {A : Type 0} where
  -- How many blocks of the list the test holds for.
  abbrev pub tally : (Block A → Bool) → List (Block A) → ℕ
  tally test [] = 0
  tally test (blk ∷ blks) = one_if (test blk) + tally test blks

  -- A block of a miner that the test holds for, that is marked and that the loop does not skip.
  abbrev pub is_mined : (ℕ → Bool) → List Bool → Block A → Bool
  is_mined miners main_chain blk =
      not (blk.id == 0)
      && (not (blk.id == no_id) && (miners blk.miner && get_or main_chain blk.id false))

placed_bounds :
    {A : Type 0} {n : ℕ} (blk : Block A)
    → (blk.id == 0) ≡ false
    → (blk.id == no_id) ≡ false
    → IsPlaced n blk
    → (blk.id < n) × (blk.parent < n)
unfolding IsPlaced
placed_bounds blk e f (inl none) = absurd (==_ne blk.id 0 e none)
placed_bounds blk e f (inr (inl empty)) = absurd (==_ne blk.id no_id f empty)
placed_bounds blk e f (inr (inr bounds)) = bounds

module _ (n : ℕ) where
  module _ {A : Type 0} (honest selfish : ℕ → Bool) (main_chain : List Bool)
      (long : length main_chain ≡ n) where
    -- What a block adds to the blocks of the miners that the test holds for.
    abbrev gain : (ℕ → Bool) → Block A → ℕ
    gain miners blk = one_if (is_mined miners main_chain blk)

    observe_block-IsSound :
        {h k : ℕ} (blk : Block A) (s : Counts)
        → IsPlaced n blk
        → h + 1 < 2 ^ 64
        → k + 1 < 2 ^ 64
        → IsSound n h k s
        → Gives n
            (gain honest blk + h)
            (gain (only_selfish honest selfish) blk + k)
            (observe_block honest selfish main_chain blk s)
    unfolding IsPlaced observe_block
    observe_block-IsSound blk s placed hs ks sound = elim (Bool-cases (blk.id == 0)) [
      | inl e ↦ rw e (s, refl, recount n sound (omega arith) (omega arith))
      | inr e ↦ elim (Bool-cases (blk.id == no_id)) [
        | inl f ↦ rw (e, f) (s, refl, recount n sound (omega arith) (omega arith))
        | inr f ↦
            let (hid, hparent) = placed_bounds blk e f placed in
            let on_main = get_or main_chain blk.id false in
            let m = get_elem?-eq_some false main_chain blk.id (omega (arith, long)) in
            let (s', g, sound') =
              start_split-IsSound n honest selfish main_chain long blk hid hparent on_main
                (count_block honest selfish main_chain blk on_main s)
                (count_block-IsSound n honest selfish main_chain long blk on_main s hs ks sound) in
            let (s'', q, sound'') =
              grow_split-IsSound n honest selfish main_chain long blk hid hparent s' sound' in
            rw (e, f, m, g, q) (s'', refl, sound'')
      ]
    ]

    -- The loop over blocks that it skips, or whose ids and parents have entries in the vectors, stays
    -- within bounds, no split is longer than the longest one if none was at its start, and the marked
    -- blocks of honest miners, and those of selfish ones, are added to the two counts, where these do
    -- not overflow.
    pub observe_all-IsSound :
        (blks : List (Block A)) {h k : ℕ} (s : Counts)
        → All (IsPlaced n) blks
        → h + length blks < 2 ^ 64
        → k + length blks < 2 ^ 64
        → IsSound n h k s
        → (s' : Counts) × (observe_all honest selfish main_chain blks s ≡ some s')
          × IsSound n
              (tally (is_mined honest main_chain) blks + h)
              (tally (is_mined (only_selfish honest selfish) main_chain) blks + k)
              s'
    unfolding observe_all
    observe_all-IsSound [] s placed hs ks sound =
        (s, refl, recount n sound (omega arith) (omega arith))
    observe_all-IsSound (blk ∷ blks) {h} {k} s placed hs ks sound =
        let (s', e, sound') =
          observe_block-IsSound blk s placed.0 (omega arith) (omega arith) sound in
        let one = one_if_le (is_mined honest main_chain blk) in
        let two = one_if_le (is_mined (only_selfish honest selfish) main_chain blk) in
        let (s'', f, sound'') =
          observe_all-IsSound blks s' placed.1 (omega arith) (omega arith) sound' in
        rw e (s'', f, recount n sound'' (omega arith) (omega arith))
