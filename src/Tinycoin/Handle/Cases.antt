-- ===== src/Tinycoin/Handle/Cases.antt =====
-- The tests of handle_block, and the branch for a block that was handled before.
use native.Mathlib.Decide.{dec_lt}
use distributedsim.Base.{
  ℕ, ◌≤◌, ◌<◌, ◌≡◌, ◌≢◌, ◌⊎◌, inl, inr, refl, sym, ap, ◌∙◌, subst, Bool, List, ◌∷◌, arith, length,
  true, false, ==_iff, ==_ne, ◌==◌,
}
use distributedsim.Common.{satisfies}
use distributedsim.Common.Laws.{get_elem?-eq_some, get_elem?-eq_none, get_or-of_length_le}
use distributedsim.Tinycoin.{Block, Chain, no_block, no_id, orphan_id, is_unhandled}
use distributedsim.Tinycoin.Tree.{slot, IsHandled}
use distributedsim.Tinycoin.Heights.{Rises}
use distributedsim.Tinycoin.Valid.{IsMade, IsValid}
use distributedsim.Tinycoin.Write.{Marks}

module _ {A : Type 0} where
  satisfies-inside :
      (bc : List (Block A)) (i : ℕ) (f : Block A → Bool)
      → i < length bc
      → satisfies bc i f ≡ f (slot bc i)
  unfolding satisfies
  satisfies-inside bc i f lt = rw (get_elem?-eq_some no_block bc i lt)

  satisfies-outside :
      (bc : List (Block A)) (i : ℕ) (f : Block A → Bool) → length bc ≤ i → satisfies bc i f ≡ false
  unfolding satisfies
  satisfies-outside bc i f ge = rw (get_elem?-eq_none no_block bc i ge)

  -- `blk.id == block.id`: the block was handled before.
  pub same_id :
      (bc : List (Block A)) (i : ℕ)
      → satisfies bc i (λ k. k.id == i) ≡ true
      → (i < length bc) × ((slot bc i).id ≡ i)
  same_id bc i h = elim (dec_lt i (length bc)) [
    | yes lt ↦ (lt, (==_iff _ i).0 (sym (satisfies-inside bc i (λ k. k.id == i) lt) ∙ h))
    | no ge ↦ cc (satisfies-outside bc i (λ (k : Block A). k.id == i) (omega arith))
  ]

  pub other_id :
      (bc : List (Block A)) (i : ℕ)
      → i < orphan_id
      → satisfies bc i (λ k. k.id == i) ≡ false
      → (slot bc i).id ≢ i
  other_id bc i small h = elim (dec_lt i (length bc)) [
    | yes lt ↦ ==_ne _ i (sym (satisfies-inside bc i (λ k. k.id == i) lt) ∙ h)
    | no ge ↦
        let outside =
          ap (λ (k : Block A). k.id) (get_or-of_length_le no_block bc i (omega arith)) in
        λ e. omega arith
  ]

  -- The test of the parent's slot, where it is in bounds.
  pub unhandled_parent :
      (bc : List (Block A)) (p : ℕ)
      → p < length bc
      → satisfies bc p is_unhandled ≡ true
      → ((slot bc p).id ≡ no_id) ⊎ ((slot bc p).id ≡ orphan_id)
  unhandled_parent bc p lt h = let read = satisfies-inside bc p is_unhandled lt in ground arith

  pub handled_parent_ids :
      (bc : List (Block A)) (p : ℕ)
      → p < length bc
      → satisfies bc p is_unhandled ≡ false
      → ((slot bc p).id ≢ no_id) × ((slot bc p).id ≢ orphan_id)
  handled_parent_ids bc p lt h =
      let read = satisfies-inside bc p is_unhandled lt in (λ e. ground arith, λ e. ground arith)

module _ {A S : Type 0} (origin : ℕ → ℕ) where
  -- What a call of handle_block has done to the state `c`.
  pub record Done (flight : List (Block A)) (b : Block A) (c c' : Chain A S) : Type 0 where
    pub valid : IsValid origin flight c'
    -- Handled blocks stay handled.
    pub grown : (j : ℕ) → IsHandled c.blockchain j → IsHandled c'.blockchain j
    pub sized : b.id < length c.blockchain → length c'.blockchain ≡ length c.blockchain
    -- The head moves only to a strictly higher block.
    pub raised : Rises c c'
    -- No slot is emptied.
    pub marked : Marks c.blockchain c'.blockchain
    -- The block is handled, or waits.
    pub placed : IsHandled c'.blockchain b.id ⊎ ((slot c'.blockchain b.id).id ≡ orphan_id)

  pub repeated-Done :
      {flight : List (Block A)} {b : Block A} {c : Chain A S}
      → IsValid origin (b ∷ flight) c
      → IsMade origin b
      → b.id < length c.blockchain
      → (slot c.blockchain b.id).id ≡ b.id
      → Done flight b c c
  repeated-Done {flight} {b} {c} v made lt same = record {
    valid = record {
      tree = v.tree;
      slots = v.slots;
      head_handled = v.head_handled;
      highest = v.highest;
      waiting = v.waiting;
      settled = v.settled;
      listed = λ j pos e. elim (v.listed j pos e) [
        | inl (inl eq) ↦
            let clash = subst (λ k. (slot c.blockchain k).id ≡ orphan_id) (sym eq) e in
            absurd (omega (arith, made.in_range))
        | inl (inr later) ↦ inl later
        | inr waits ↦ inr waits
      ];
    };
    grown = λ j h. h;
    sized = λ inside. refl;
    raised = inl refl;
    marked = λ j full. full;
    placed = inl (lt, inr same);
  }
