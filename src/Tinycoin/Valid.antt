-- ===== src/Tinycoin/Valid.antt =====
-- The invariant of a TinyNode's vectors. `flight` holds the blocks that were taken from
-- `pending_blocks` and are still to be handled.
use distributedsim.Base.{
  ℕ, zero, suc, ◌≤◌, ◌<◌, ◌≡◌, ◌⊎◌, inl, inr, refl, subst, List, [], ◌∷◌, ◌++◌, arith, length,
  get_or, All,
}
use distributedsim.Tinycoin.{Block, Chain, no_id, orphan_id, initial}
use distributedsim.Tinycoin.Tree.{slot, height, IsHandled, IsTree}

-- Some block of the list has this id.
abbrev pub Has : {A : Type 0} → ℕ → List (Block A) → Type 0
Has i [] = ⊥
Has i (b ∷ bs) = (b.id ≡ i) ⊎ Has i bs

pub Has-append :
    {A : Type 0} (i : ℕ) (xs ys : List (Block A)) → (Has i xs ⊎ Has i ys) → Has i (xs ++ ys)
Has-append i [] ys (inl h) = absurd h
Has-append i [] ys (inr h) = h
Has-append i (x ∷ xs) ys (inl (inl e)) = inl e
Has-append i (x ∷ xs) ys (inl (inr h)) = inr (Has-append i xs ys (inl h))
Has-append i (x ∷ xs) ys (inr h) = inr (Has-append i xs ys (inr h))

alone : {A : Type 0} (i : ℕ) (b : Block A) → 0 < i → ¬ ((slot (b ∷ []) i).id ≡ orphan_id)
alone zero b pos e = omega arith
alone (suc i) b pos e = omega arith

module _ {A : Type 0} (origin : ℕ → ℕ) where
  -- A block that a miner made: ids count from 1, and the parent is the one of its id.
  pub record IsMade (b : Block A) : Type 0 where
    pub counted : 0 < b.id
    pub in_range : b.id < orphan_id
    pub made_on : b.parent ≡ origin b.id

  -- A block that waits for `p`.
  abbrev pub Waits : List (Block A) → ℕ → Block A → Type 0
  Waits bc p b = IsMade b × (b.parent ≡ p) × (b.id < length bc)

  module _ {S : Type 0} where
    pub record IsValid (flight : List (Block A)) (c : Chain A S) : Type 0 where
      pub tree : IsTree origin c.blockchain c.lengths
      -- A slot holds its block, or none, or one whose parent has not been handled.
      pub slots :
          (i : ℕ)
          → 0 < i
          → i < length c.blockchain
          → ((slot c.blockchain i).id ≡ i)
            ⊎ (((slot c.blockchain i).id ≡ no_id) ⊎ ((slot c.blockchain i).id ≡ orphan_id))
      pub head_handled : IsHandled c.blockchain c.head
      -- No handled block is higher than the head.
      pub highest :
          (i : ℕ) → IsHandled c.blockchain i → height c.lengths i ≤ height c.lengths c.head
      pub waiting : (p : ℕ) → All (Waits c.blockchain p) (get_or c.pending_blocks p [])
      -- Nothing waits for a handled block.
      pub settled : (p : ℕ) → IsHandled c.blockchain p → get_or c.pending_blocks p [] ≡ []
      -- A postponed block waits for its parent, or is about to be handled.
      pub listed :
          (i : ℕ)
          → 0 < i
          → (slot c.blockchain i).id ≡ orphan_id
          → Has i flight ⊎ Has i (get_or c.pending_blocks (origin i) [])

    -- A node starts valid, whatever id its genesis block takes from the counter.
    pub initial-IsValid :
        (genesis_id : ℕ) (s : S) → genesis_id < orphan_id → IsValid [] (initial genesis_id s)
    unfolding initial
    initial-IsValid genesis_id s small = record {
      tree = record {
        rooted = omega arith;
        fits = omega arith;
        genesis = small;
        ground_height = refl;
        ground_measured = omega arith;
        linked = λ i pos h. absurd (omega arith);
      };
      slots = λ i pos lt. absurd (omega arith);
      head_handled = (omega arith, inl refl);
      highest = λ i h. let e : i ≡ 0 = omega arith in rw e (omega arith);
      waiting = λ p. tt;
      settled = λ p h. refl;
      listed = λ i pos e. absurd (alone i _ pos e);
    }

    -- In a valid state with nothing in flight, a block that was received is handled as soon as its
    -- parent is: a postponed block's parent has not been handled.
    pub postponed_parent :
        {c : Chain A S}
        → IsValid [] c
        → (i : ℕ) → 0 < i
        → (slot c.blockchain i).id ≡ orphan_id
        → ¬ IsHandled c.blockchain (origin i)
    postponed_parent v i pos e h = elim (v.listed i pos e) [
      | inl none_left ↦ none_left
      | inr waits ↦ subst (Has i) (v.settled (origin i) h) waits
    ]
