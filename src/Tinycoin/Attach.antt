-- ===== src/Tinycoin/Attach.antt =====
-- A block whose parent has been handled: it joins the tree, the head moves if the block is higher,
-- and the blocks that waited for it are in flight.
use native.Mathlib.Decide.{ℕ_discrete}
use distributedsim.Base.{
  ℕ, suc, ◌+◌, ◌≤◌, ◌<◌, ◌≡◌, ◌≢◌, ◌⊎◌, inl, inr, refl, sym, ap, ◌∙◌, subst, List, [], ◌∷◌, ◌++◌,
  arith, get_or, get_elem?, set, some, if◌then◌else◌, ◌==◌, true, false, Bool-cases, ltb, ltb→lt,
  ltb→le,
}
use distributedsim.Common.{vec_set}
use distributedsim.Common.Laws.{
  get_or-grow, length-grow_le, get_or-set, get_elem?-eq_some, get_or-vec_set, length-vec_set,
}
use distributedsim.Tinycoin.{Block, Chain, no_block, orphan_id, attach}
use distributedsim.Tinycoin.Tree.{slot, height, IsHandled, IsTree, handled-measured}
use distributedsim.Tinycoin.Reorg.{update_head-moves}
use distributedsim.Tinycoin.Heights.{Rises}
use distributedsim.Tinycoin.Valid.{Has, Has-append, IsMade, IsValid}
use distributedsim.Tinycoin.Write.{
  Writes, Raises, handled-ne, keep-IsHandled, IsHandled-old, attached-IsTree,
}
use distributedsim.Tinycoin.Postpone.{stored, stored-Writes, new_slots, Waits-longer}

module _ {A S : Type 0} (origin : ℕ → ℕ) (older : (i : ℕ) → 0 < i → origin i < i)
    {flight : List (Block A)} (b : Block A) (c : Chain A S) (v : IsValid origin (b ∷ flight) c)
    (made : IsMade origin b) (absent : (slot c.blockchain b.id).id ≢ b.id)
    (on : IsHandled c.blockchain (origin b.id)) where
  abbrev pub base : Chain A S
  base = stored origin older b c v made absent

  writes : Writes b.id c.blockchain base.blockchain
  writes = stored-Writes origin older b c v made absent

  abbrev pub below : ℕ
  below = height c.lengths (origin b.id)

  abbrev pub high : List ℕ
  high = vec_set 0 c.lengths b.id (below + 1)

  read-high : (j : ℕ) → height high j ≡ (if b.id == j then below + 1 else height c.lengths j)
  read-high j = get_or-vec_set 0 c.lengths b.id j (below + 1)

  raises : Raises b.id c.lengths high
  raises = record {
    longer = (length-vec_set 0 c.lengths b.id (below + 1)).0;
    inside = (length-vec_set 0 c.lengths b.id (below + 1)).1;
    kept = λ j ne. ground (arith, read-high j);
  }

  above : height high b.id ≡ suc below
  above = ground (arith, read-high b.id)

  slot-base : slot base.blockchain b.id ≡ b
  slot-base = let read = get_or-vec_set no_block c.blockchain b.id b.id b in ground arith

  tree : IsTree origin base.blockchain high
  tree =
      attached-IsTree writes origin v.tree raises
        (ap (λ (k : Block A). k.parent) slot-base ∙ made.made_on) on above

  pub IsHandled-self : IsHandled base.blockchain b.id
  IsHandled-self = (writes.inside, inr (ap (λ (k : Block A). k.id) slot-base))

  -- The state after the block has joined, with the head and the rest that the update leaves.
  abbrev pub attached : ℕ → S → Chain A S
  attached h s = record {
    blockchain = base.blockchain;
    pending_blocks = set base.pending_blocks b.id [];
    lengths = high;
    head = h;
    rest = s;
  }

  -- The head and the rest after the update of the head, if there is one.
  abbrev pub Moved : ℕ → S → Type 0
  Moved h s =
      ((h ≡ b.id) × (height c.lengths c.head ≤ below))
      ⊎ ((h ≡ c.head) × (s ≡ c.rest) × (below < height c.lengths c.head))

  abbrev pub waiting : List (Block A)
  waiting = get_or c.pending_blocks b.id []

  parent_height : get_elem? c.lengths b.parent ≡ some below
  parent_height = rw made.made_on (handled-measured origin v.tree (origin b.id) on)

  head_kept : IsHandled base.blockchain c.head
  head_kept = keep-IsHandled writes c.head v.head_handled

  head_height : get_elem? high c.head ≡ some (height high c.head)
  head_height = handled-measured origin tree c.head head_kept

  head_same : height high c.head ≡ height c.lengths c.head
  head_same = raises.kept c.head (handled-ne writes c.head v.head_handled)

  waiting_found : get_elem? base.pending_blocks b.id ≡ some waiting
  waiting_found =
      get_elem?-eq_some [] base.pending_blocks b.id
        (omega (arith, length-grow_le [] c.pending_blocks (b.id + 1)))
      ∙ ap some (get_or-grow [] c.pending_blocks (b.id + 1) b.id)

  module _ (confirm unconfirm : Block A → S → S) where
    -- The attachment does not fault, and hands out the blocks that waited.
    pub attach-attached :
        (h : ℕ) × (s : S) × Moved h s
        × (attach confirm unconfirm b base ≡ some (waiting, attached h s))
    unfolding attach
    attach-attached = elim (Bool-cases (ltb (height high c.head) (below + 1))) [
      | inr stays ↦ (
        c.head,
        c.rest,
        inr (refl, refl, omega (arith, head_same, ltb→le (height high c.head) (below + 1) stays)),
        rw (parent_height, head_height, stays, waiting_found),
      )
      | inl moves ↦
          let lower = ltb→lt (height high c.head) (below + 1) moves in
          let (s', run) =
            update_head-moves confirm unconfirm origin (record base { lengths = high }) tree
              (below + 2) b.id IsHandled-self head_kept (omega (arith, above))
              (omega (arith, above)) in
          (
            b.id,
            s',
            inl (refl, omega (arith, head_same)),
            rw (parent_height, head_height, moves, run, waiting_found),
          )
    ]

  wait-taken :
      (p : ℕ)
      → get_or (set base.pending_blocks b.id []) p []
        ≡ (if b.id == p then [] else get_or c.pending_blocks p [])
  wait-taken p = rw (
    get_or-set [] base.pending_blocks b.id p []
        (omega (arith, length-grow_le [] c.pending_blocks (b.id + 1))),
    get_or-grow [] c.pending_blocks (b.id + 1) p,
  )

  wait_self : get_or (set base.pending_blocks b.id []) b.id [] ≡ []
  wait_self = let same : (b.id == b.id) ≡ true = ground arith in wait-taken b.id ∙ rw same

  wait_other :
      (p : ℕ)
      → p ≢ b.id
      → get_or (set base.pending_blocks b.id []) p [] ≡ get_or c.pending_blocks p []
  wait_other p ne = let away : (b.id == p) ≡ false = ground arith in wait-taken p ∙ rw away

  module _ (h : ℕ) (s : S) (moved : Moved h s) where
    attached-IsHandled : IsHandled base.blockchain h
    attached-IsHandled = elim moved [
      | inl (at, _) ↦ rw at IsHandled-self
      | inr (at, _, _) ↦ rw at head_kept
    ]

    attached-highest : (j : ℕ) → IsHandled base.blockchain j → height high j ≤ height high h
    attached-highest j hj = elim (ℕ_discrete j b.id) [
      | yes e ↦ elim moved [
        | inl (at, _) ↦ rw (e, at) (omega arith)
        | inr (at, _, less) ↦ rw (e, at) (omega (arith, above, head_same))
      ]
      | no ne ↦
          let was = v.highest j (IsHandled-old writes j ne hj) in
          elim moved [
            | inl (at, lower) ↦ rw at (omega (arith, raises.kept j ne, above))
            | inr (at, _, less) ↦ rw at (omega (arith, raises.kept j ne, head_same))
          ]
    ]

    attached-listed :
        (j : ℕ)
        → 0 < j
        → (slot base.blockchain j).id ≡ orphan_id
        → Has j (waiting ++ flight) ⊎ Has j (get_or (attached h s).pending_blocks (origin j) [])
    attached-listed j pos e =
        let same = ap (λ (k : Block A). k.id) (writes.kept j ne) in
        elim (v.listed j pos (sym same ∙ e)) [
          | inl (inl eq) ↦ absurd (ne (sym eq))
          | inl (inr later) ↦ inl (Has-append j waiting flight (inr later))
          | inr waits ↦ elim (ℕ_discrete (origin j) b.id) [
            | yes own ↦ inl (
                Has-append j waiting flight
                  (inl (subst (λ k. Has j (get_or c.pending_blocks k [])) own waits)))
            | no other ↦ inr (rw (wait_other (origin j) other) waits)
          ]
        ]
      where
        ne : j ≢ b.id
        ne at =
            let here : (slot base.blockchain b.id).id ≡ orphan_id =
              subst (λ k. (slot base.blockchain k).id ≡ orphan_id) at e in
            omega (arith, made.in_range, ap (λ (k : Block A). k.id) slot-base)

    pub attached-Rises : Rises c (attached h s)
    attached-Rises = elim moved [
      | inl (at, lower) ↦ inr (rw at (omega (arith, above)))
      | inr (at, _, _) ↦ inl at
    ]

    pub attached-IsValid : IsValid origin (waiting ++ flight) (attached h s)
    attached-IsValid = record {
      tree = tree;
      slots = λ j pos lt. elim (ℕ_discrete j b.id) [
        | yes e ↦ rw e (inl (ap (λ (k : Block A). k.id) slot-base))
        | no ne ↦ new_slots origin older b c v made absent writes j pos lt ne
      ];
      head_handled = attached-IsHandled;
      highest = attached-highest;
      waiting = λ p. elim (ℕ_discrete p b.id) [
        | yes e ↦ rw (e, wait_self) tt
        | no ne ↦
            rw (wait_other p ne)
              (Waits-longer origin older b c v made absent writes p _ (v.waiting p))
      ];
      settled = λ p hp. elim (ℕ_discrete p b.id) [
        | yes e ↦ rw (e, wait_self)
        | no ne ↦ wait_other p ne ∙ v.settled p (IsHandled-old writes p ne hp)
      ];
      listed = attached-listed;
    }
