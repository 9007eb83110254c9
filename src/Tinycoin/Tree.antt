-- ===== src/Tinycoin/Tree.antt =====
-- What the vectors of a TinyNode say: a tree of handled blocks over the genesis block in slot 0, with
-- heights in `lengths`. `origin` gives the parent with which the block of an id was made; ids come
-- from one counter, so a parent is older than its child.
use distributedsim.Base.{
  ℕ, zero, suc, ◌≤◌, ◌<◌, ◌≡◌, ◌⊎◌, refl, List, some, arith, length, get_elem?, get_or,
}
use distributedsim.Common.Laws.{get_elem?-eq_some}
use distributedsim.Tinycoin.{Block, no_block, orphan_id}

module _ {A : Type 0} where
  abbrev pub slot : List (Block A) → ℕ → Block A
  slot bc i = get_or bc i no_block

  -- The block with this id has been handled; slot 0 has been from the start.
  abbrev pub IsHandled : List (Block A) → ℕ → Type 0
  IsHandled bc i = (i < length bc) × ((i ≡ 0) ⊎ ((slot bc i).id ≡ i))

  pub handled-id : (bc : List (Block A)) (i : ℕ) → 0 < i → IsHandled bc i → (slot bc i).id ≡ i
  handled-id bc i pos h = ground arith

abbrev pub height : List ℕ → ℕ → ℕ
height lengths i = get_or lengths i 0

module _ {A : Type 0} (origin : ℕ → ℕ) where
  -- What slot `i` of a handled block says.
  pub record IsLinked (bc : List (Block A)) (lengths : List ℕ) (i : ℕ) : Type 0 where
    pub made : (slot bc i).parent ≡ origin i
    pub on_handled : IsHandled bc (origin i)
    pub above : height lengths i ≡ suc (height lengths (origin i))
    pub off_ground : 1 ≤ height lengths (origin i)
    pub measured : i < length lengths

  pub record IsTree (bc : List (Block A)) (lengths : List ℕ) : Type 0 where
    pub rooted : 0 < length bc
    pub fits : length bc ≤ orphan_id
    pub genesis : (slot bc 0).id < orphan_id
    pub ground_height : height lengths 0 ≡ 1
    pub ground_measured : 0 < length lengths
    pub linked : (i : ℕ) → 0 < i → IsHandled bc i → IsLinked bc lengths i

  module _ {bc : List (Block A)} {lengths : List ℕ} (tree : IsTree bc lengths) where
    -- A handled block has a height of at least one, and its slots are in bounds.
    pub handled-height : (i : ℕ) → IsHandled bc i → 1 ≤ height lengths i
    handled-height zero h = omega (arith, tree.ground_height)
    handled-height (suc i) h = omega (arith, (tree.linked (suc i) (omega arith) h).above)

    pub handled-measured : (i : ℕ) → IsHandled bc i → get_elem? lengths i ≡ some (height lengths i)
    handled-measured zero h = get_elem?-eq_some 0 lengths 0 tree.ground_measured
    handled-measured (suc i) h =
        get_elem?-eq_some 0 lengths (suc i) (tree.linked (suc i) (omega arith) h).measured

    pub handled-slot : (i : ℕ) → IsHandled bc i → get_elem? bc i ≡ some (slot bc i)
    handled-slot i h = get_elem?-eq_some no_block bc i h.0

    -- Only the genesis block has height one, so a higher one has a handled parent just below it.
    pub IsHandled-parent :
        (i : ℕ)
        → IsHandled bc i
        → 1 < height lengths i
        → ((slot bc i).parent ≡ origin i)
          × IsHandled bc (origin i)
          × (height lengths i ≡ suc (height lengths (origin i)))
    IsHandled-parent zero h high = absurd (omega (arith, tree.ground_height))
    IsHandled-parent (suc i) h high =
        let l = tree.linked (suc i) (omega arith) h in (l.made, l.on_handled, l.above)

    pub ground_only : (i : ℕ) → IsHandled bc i → height lengths i ≡ 1 → i ≡ 0
    ground_only zero h e = refl
    ground_only (suc i) h e =
        let l = tree.linked (suc i) (omega arith) h in absurd (omega (arith, l.above, l.off_ground))
