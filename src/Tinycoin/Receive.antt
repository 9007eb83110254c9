-- ===== src/Tinycoin/Receive.antt =====
-- A node that receives blocks, one call of handle_block after another.
use distributedsim.Base.{
  ℕ, ◌+◌, ◌≤◌, ◌<◌, ◌≡◌, ◌↔◌, inl, inr, refl, Bool, List, [], ◌∷◌, arith, length, Option, some, not,
  ◌>>=◌, All,
}
use distributedsim.Common.{satisfies}
use distributedsim.Tinycoin.{Block, Chain, orphan_id, is_seen, handle_block}
use distributedsim.Tinycoin.Tree.{slot, height, IsHandled}
use distributedsim.Tinycoin.Heights.{Rises, Rises-le}
use distributedsim.Tinycoin.Valid.{IsMade, IsValid, postponed_parent}
use distributedsim.Tinycoin.Handle.{Done, handle_block-Done}

module _ {A S : Type 0} (confirm unconfirm : Block A → S → S) where
  -- Each block is handled with fuel for every slot.
  unfoldable pub receive : Block A → Chain A S → Option (Bool × Chain A S)
  receive b c = handle_block confirm unconfirm (length c.blockchain + 1) b c

  unfoldable pub receive_all : List (Block A) → Chain A S → Option (Chain A S)
  unfolding receive
  receive_all [] c = some c
  receive_all (b ∷ bs) c = do (_, c') ← receive b c; receive_all bs c'

module _ {A S : Type 0} (confirm unconfirm : Block A → S → S) (origin : ℕ → ℕ)
    (older : (i : ℕ) → 0 < i → origin i < i) where
  in_flight : {c : Chain A S} (b : Block A) → IsValid origin [] c → IsValid origin (b ∷ []) c
  in_flight b v = record {
    tree = v.tree;
    slots = v.slots;
    head_handled = v.head_handled;
    highest = v.highest;
    waiting = v.waiting;
    settled = v.settled;
    listed = λ j pos e. elim (v.listed j pos e) [
      | inl none_left ↦ absurd none_left
      | inr waits ↦ inr waits
    ];
  }

  pub receive-Done :
      (b : Block A) (c : Chain A S)
      → IsValid origin [] c
      → IsMade origin b
      → (c' : Chain A S) × (receive confirm unconfirm b c
          ≡ some (not (satisfies c.blockchain b.id is_seen), c'))
        × Done origin [] b c c'
  unfolding receive
  receive-Done b c v made =
      handle_block-Done confirm unconfirm origin older (length c.blockchain + 1) b c []
        (in_flight b v) made (omega arith) (omega arith)

  -- In a valid state a call with a block that a miner made ends without a fault. It returns whether
  -- the block's slot was empty, leaves a valid state, in which the head is again a handled block of
  -- the largest height, keeps what was handled, and the block is handled now exactly when its parent is.
  pub receive-IsValid :
      (b : Block A) (c : Chain A S)
      → IsValid origin [] c
      → IsMade origin b
      → (c' : Chain A S) × (receive confirm unconfirm b c
          ≡ some (not (satisfies c.blockchain b.id is_seen), c'))
        × IsValid origin [] c'
        × ((j : ℕ) → IsHandled c.blockchain j → IsHandled c'.blockchain j)
        × (IsHandled c'.blockchain b.id ↔ IsHandled c'.blockchain (origin b.id))
  receive-IsValid b c v made =
      let (c', run, done) = receive-Done b c v made in
      (
        c',
        run,
        done.valid,
        done.grown,
        (
          λ h. (done.valid.tree.linked b.id made.counted h).on_handled,
          λ on. elim done.placed [
            | inl h ↦ h
            | inr waits ↦ absurd (postponed_parent origin done.valid b.id made.counted waits on)
          ],
        ),
      )

  -- A node's head changes only to a strictly higher block, so that of two branches of the same height
  -- the one that was complete first stays.
  pub receive-Rises :
      (b : Block A) (c : Chain A S)
      → IsValid origin [] c
      → IsMade origin b
      → (c' : Chain A S) × (receive confirm unconfirm b c
          ≡ some (not (satisfies c.blockchain b.id is_seen), c'))
        × Rises c c'
        × (height c.lengths c.head ≤ height c'.lengths c'.head)
  receive-Rises b c v made =
      let (c', run, done) = receive-Done b c v made in
      (c', run, done.raised, Rises-le origin older v done.valid done.grown)

  -- A node in a valid state that receives any blocks that miners made, in any order and any number of
  -- times, faults nowhere and ends in a valid state; handled blocks stay handled, and no block stays
  -- postponed whose parent has been handled.
  pub receive_all-IsValid :
      (bs : List (Block A)) (c : Chain A S)
      → IsValid origin [] c
      → All (IsMade origin) bs
      → (c' : Chain A S) × (receive_all confirm unconfirm bs c ≡ some c')
        × IsValid origin [] c'
        × ((j : ℕ) → IsHandled c.blockchain j → IsHandled c'.blockchain j)
        × ((i : ℕ)
            → 0 < i
            → (slot c'.blockchain i).id ≡ orphan_id
            → ¬ IsHandled c'.blockchain (origin i))
  unfolding receive_all
  receive_all-IsValid [] c v all = (c, refl, v, λ j h. h, postponed_parent origin v)
  receive_all-IsValid (b ∷ bs) c v all =
      let (c₁, run, v₁, grown₁, both) = receive-IsValid b c v all.0 in
      let (c₂, rest, v₂, grown₂, apart) = receive_all-IsValid bs c₁ v₁ all.1 in
      (c₂, rw (run, ◌>>=◌) rest, v₂, λ j h. grown₂ j (grown₁ j h), apart)
