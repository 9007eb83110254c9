-- ===== src/Peer/Seen.antt =====
-- The slot of a block that a TinyNode has received: the block is not new again.
use distributedsim.Base.{
  ℕ, zero, suc, ◌<◌, ◌≡◌, ◌≢◌, ◌⊎◌, inl, inr, refl, true, not, some, List, [], ◌∷◌, arith,
}
use distributedsim.Common.{satisfies}
use distributedsim.Tinycoin.{Block, Chain, no_id, orphan_id, is_seen}
use distributedsim.Tinycoin.Tree.{slot, IsHandled, handled-id}
use distributedsim.Tinycoin.Valid.{IsMade, IsValid}
use distributedsim.Tinycoin.Receive.{receive, receive-Done}
use distributedsim.Tinycoin.Write.{Marks}

pub seen_slot :
    {A : Type 0} (bc : List (Block A)) (i : ℕ)
    → (slot bc i).id ≢ no_id
    → satisfies bc i is_seen ≡ true
unfolding satisfies
seen_slot [] i ne = absurd (ne refl)
seen_slot (b ∷ bs) zero ne = ground arith
seen_slot (b ∷ bs) (suc i) ne = seen_slot bs i ne

pub slot_seen :
    {A : Type 0} (bc : List (Block A)) (i : ℕ)
    → satisfies bc i is_seen ≡ true
    → (slot bc i).id ≢ no_id
unfolding satisfies
slot_seen [] i seen = cc
slot_seen (b ∷ bs) zero seen = λ e. ground arith
slot_seen (b ∷ bs) (suc i) seen = slot_seen bs i seen

module _ {A S : Type 0} (confirm unconfirm : Block A → S → S) (origin : ℕ → ℕ)
    (older : (i : ℕ) → 0 < i → origin i < i) where
  -- A block that has been received is not new again.
  pub receive-seen :
      (b : Block A) (c : Chain A S)
      → IsValid origin [] c
      → IsMade origin b
      → (c' : Chain A S) × (receive confirm unconfirm b c
          ≡ some (not (satisfies c.blockchain b.id is_seen), c'))
        × IsValid origin [] c'
        × (satisfies c'.blockchain b.id is_seen ≡ true)
        × Marks c.blockchain c'.blockchain
  receive-seen b c v made =
      let (c', run, done) = receive-Done confirm unconfirm origin older b c v made in
      (
        c',
        run,
        done.valid,
        seen_slot c'.blockchain b.id (known (slot c'.blockchain b.id).id (at_slot c' done.placed)),
        done.marked,
      )
    where
      at_slot :
          (c' : Chain A S)
          → IsHandled c'.blockchain b.id ⊎ ((slot c'.blockchain b.id).id ≡ orphan_id)
          → ((slot c'.blockchain b.id).id ≡ b.id) ⊎ ((slot c'.blockchain b.id).id ≡ orphan_id)
      at_slot c' (inl h) = inl (handled-id c'.blockchain b.id made.counted h)
      at_slot c' (inr e) = inr e

      known : (i : ℕ) → (i ≡ b.id) ⊎ (i ≡ orphan_id) → i ≢ no_id
      known i (inl e) same = omega (arith, made.in_range)
      known i (inr e) same = omega arith

  pub rest-IsValid :
      (c : Chain A S) (s : S) → IsValid origin [] c → IsValid origin [] (record c { rest = s })
  rest-IsValid c s v = record {
    tree = v.tree;
    slots = v.slots;
    head_handled = v.head_handled;
    highest = v.highest;
    waiting = v.waiting;
    settled = v.settled;
    listed = v.listed;
  }
