-- ===== src/Tinycoin/Handle/Descent.antt =====
-- The recursion of handle_block into the blocks that waited. A child's id is larger than its
-- parent's, and handling children does not lengthen the vector, so fuel for the ids left is enough.
use distributedsim.Base.{
  ℕ, zero, suc, ◌+◌, ◌≤◌, ◌<◌, ◌≡◌, ◌≢◌, inl, inr, refl, ap, ◌∙◌, subst, Bool, List, [], ◌∷◌, ◌++◌,
  arith, length, length-set, get_or, Option, some, true, false, not, ◌==◌, ◌>>=◌, Bool-cases, All,
  All-mono,
}
use native.Mathlib.Decide.{dec_lt}
use distributedsim.Common.{satisfies}
use distributedsim.Common.Laws.{
  length-vec_set_of_lt, length-vec_set_bound, get_or-of_length_le, get_or-vec_set,
}
use distributedsim.Tinycoin.{
  Block, Chain, no_block, no_id, orphan_id, is_seen, is_unhandled, handle_all, handle_block, attach,
}
use distributedsim.Tinycoin.Tree.{slot, IsHandled, handled-id}
use distributedsim.Tinycoin.Valid.{IsMade, IsValid, Waits}
use distributedsim.Tinycoin.Write.{Writes, Marks, Writes-Marks, keep-IsHandled}
use distributedsim.Tinycoin.Postpone.{
  stored, stored-Writes, postpone-postponed, postponed-IsValid, orphan, postponed, postponed-Writes,
  slot-postponed,
}
use distributedsim.Tinycoin.Attach.{
  attach-attached, attached, attached-IsValid, attached-Rises, IsHandled-self,
}
use distributedsim.Tinycoin.Heights.{Rises, Rises-trans}
use distributedsim.Tinycoin.Handle.Cases.{
  same_id, other_id, unhandled_parent, handled_parent_ids, Done, repeated-Done,
}

module _ {A S : Type 0} (confirm unconfirm : Block A → S → S) (origin : ℕ → ℕ)
    (older : (i : ℕ) → 0 < i → origin i < i) where
  -- What a call returns, and what it has done.
  abbrev pub Returns : List (Block A) → Block A → Chain A S → Option (Bool × Chain A S) → Type 0
  Returns flight b c r =
      (c' : Chain A S) × (r ≡ some (not (satisfies c.blockchain b.id is_seen), c'))
      × Done origin flight b c c'

  abbrev Handles : (Block A → Chain A S → Option (Bool × Chain A S)) → ℕ → Type 0
  Handles handle fuel =
      (b : Block A) (c : Chain A S) (flight : List (Block A))
      → IsValid origin (b ∷ flight) c
      → IsMade origin b
      → length c.blockchain ≤ fuel + b.id
      → 0 < fuel
      → Returns flight b c (handle b c)

  abbrev Child : ℕ → ℕ → Block A → Type 0
  Child fuel n k = IsMade origin k × (k.id < n) × (n ≤ fuel + k.id) × (0 < fuel)

  -- The loop over the children.
  handle_all-IsValid :
      (handle : Block A → Chain A S → Option (Bool × Chain A S)) (fuel : ℕ)
      → Handles handle fuel
      → (bs : List (Block A)) (c : Chain A S) (flight : List (Block A))
      → IsValid origin (bs ++ flight) c
      → All (Child fuel (length c.blockchain)) bs
      → (c' : Chain A S) × (handle_all handle bs c ≡ some c')
        × IsValid origin flight c'
        × ((j : ℕ) → IsHandled c.blockchain j → IsHandled c'.blockchain j)
        × (length c'.blockchain ≡ length c.blockchain)
        × Rises c c'
        × Marks c.blockchain c'.blockchain
  unfolding handle_all
  handle_all-IsValid handle fuel each [] c flight v all =
      (c, refl, v, λ j h. h, refl, inl refl, λ j full. full)
  handle_all-IsValid handle fuel each (b ∷ bs) c flight v all =
      let (made, inside, enough, pos) = all.0 in
      let (c₁, run, done) = each b c (bs ++ flight) v made enough pos in
      let same = done.sized inside in
      let (c₂, rest, v₂, grown, sized, up, marked) =
        handle_all-IsValid handle fuel each bs c₁ flight done.valid
          (All-mono _ bs (λ k h. (h.0, omega arith, omega arith, pos)) all.1) in
      (
        c₂,
        rw (run, ◌>>=◌) rest,
        v₂,
        λ j h. grown j (done.grown j h),
        sized ∙ same,
        Rises-trans origin older c c₁ c₂ v done.valid v₂ done.grown grown done.raised up,
        λ j full. marked j (done.marked j full),
      )

  handled_small :
      {bs : List (Block A)} {c : Chain A S}
      → IsValid origin bs c
      → (p : ℕ) → IsHandled c.blockchain p
      → (slot c.blockchain p).id < orphan_id
  handled_small v zero h = v.tree.genesis
  handled_small {c} v (suc p) h =
      omega (arith, handled-id c.blockchain (suc p) (omega arith) h, v.tree.fits)

  IsHandled-of_id :
      {bs : List (Block A)} {c : Chain A S}
      → IsValid origin bs c
      → (p : ℕ) → (slot c.blockchain p).id ≢ no_id
      → (slot c.blockchain p).id ≢ orphan_id
      → IsHandled c.blockchain p
  IsHandled-of_id v zero present placed = (v.tree.rooted, inl refl)
  IsHandled-of_id {c} v (suc p) present placed = elim (dec_lt (suc p) (length c.blockchain)) [
    | yes lt ↦ elim (v.slots (suc p) (omega arith) lt) [
      | inl own ↦ (lt, inr own)
      | inr (inl e) ↦ absurd (present e)
      | inr (inr e) ↦ absurd (placed e)
    ]
    | no ge ↦ absurd (
        present (
          ap (λ (k : Block A). k.id)
            (get_or-of_length_le no_block c.blockchain (suc p) (omega arith))))
  ]

  module _ {flight : List (Block A)} (b : Block A) (c : Chain A S)
      (v : IsValid origin (b ∷ flight) c) (made : IsMade origin b)
      (absent : (slot c.blockchain b.id).id ≢ b.id) where
    abbrev base : Chain A S
    base = stored origin older b c v made absent

    writes : Writes b.id c.blockchain base.blockchain
    writes = stored-Writes origin older b c v made absent

    base_sized : b.id < length c.blockchain → length base.blockchain ≡ length c.blockchain
    base_sized lt = length-vec_set_of_lt no_block c.blockchain b.id b lt

    parent-lt : b.parent < b.id
    parent-lt = omega (arith, made.made_on, older b.id made.counted)

    parent_slot : slot base.blockchain b.parent ≡ slot c.blockchain b.parent
    parent_slot = writes.kept b.parent (λ e. omega (arith, parent-lt))

    -- Which branch is taken says whether the parent has been handled.
    parent_unhandled :
        satisfies base.blockchain b.parent is_unhandled ≡ true
        → ¬ IsHandled c.blockchain (origin b.id)
    parent_unhandled test h =
        let small = handled_small v (origin b.id) h in
        let same = ap (λ (k : Block A). k.id) parent_slot in
        let at = ap (λ k. (slot c.blockchain k).id) made.made_on in
        let ids =
          unhandled_parent base.blockchain b.parent (omega (arith, parent-lt, writes.inside))
            test in
        omega arith

    parent-IsHandled :
        satisfies base.blockchain b.parent is_unhandled ≡ false
        → IsHandled c.blockchain (origin b.id)
    parent-IsHandled test =
        let ids =
          handled_parent_ids base.blockchain b.parent (omega (arith, parent-lt, writes.inside))
            test in
        let same = ap (λ (k : Block A). k.id) parent_slot in
        subst (IsHandled c.blockchain) made.made_on
          (IsHandled-of_id v b.parent (λ e. ids.0 (same ∙ e)) (λ e. ids.1 (same ∙ e)))

    postponed-Done :
        (unhandled : ¬ IsHandled c.blockchain (origin b.id))
        → Done origin flight b c (postponed origin older b c v made absent)
    postponed-Done unhandled = record {
      valid = postponed-IsValid origin older b c v made absent unhandled;
      grown = keep-IsHandled (postponed-Writes origin older b c v made absent);
      sized = λ lt.
          length-set base.blockchain b.id (orphan origin older b c v made absent) ∙ base_sized lt;
      raised = inl refl;
      marked =
          Writes-Marks (postponed-Writes origin older b c v made absent)
            (λ e. omega (arith, slot-postponed origin older b c v made absent));
      placed = inr (slot-postponed origin older b c v made absent);
    }

    -- The blocks that wait for this one are younger, and fit the vector.
    children :
        (fuel : ℕ)
        → length c.blockchain ≤ suc fuel + b.id
        → All (Child fuel (length base.blockchain)) (get_or c.pending_blocks b.id [])
    children fuel enough =
        All-mono (Waits origin c.blockchain b.id) (get_or c.pending_blocks b.id [])
          (λ k w.
            let younger = older k.id w.0.counted in
            let bound =
              length-vec_set_bound no_block c.blockchain b.id (suc fuel + b.id) b enough
                (omega arith) in
            (
              w.0,
              omega (arith, writes.longer, w.2),
              omega (arith, w.0.made_on, w.1),
              omega (arith, w.0.made_on, w.1, w.2),
            ))
          (v.waiting b.id)

    stored_filled : (slot base.blockchain b.id).id ≢ no_id
    stored_filled e =
        let read = get_or-vec_set no_block c.blockchain b.id b.id b in
        let own : (slot base.blockchain b.id).id ≡ b.id = ground arith in
        omega (arith, made.in_range)

    -- The branch that attaches the block and handles the children with the fuel that is left.
    attached_returns :
        (fuel : ℕ)
        → Handles (handle_block confirm unconfirm fuel) fuel
        → length c.blockchain ≤ suc fuel + b.id
        → IsHandled c.blockchain (origin b.id)
        → (c₂ : Chain A S) × (c' : Chain A S) × (attach confirm unconfirm b base
            ≡ some (get_or c.pending_blocks b.id [], c₂))
          × (handle_all (handle_block confirm unconfirm fuel) (get_or c.pending_blocks b.id []) c₂
              ≡ some c')
          × Done origin flight b c c'
    attached_returns fuel each enough on =
        let (h, s, moved, run) =
          attach-attached origin older b c v made absent on confirm unconfirm in
        let c₂ = attached origin older b c v made absent on h s in
        let valid₂ = attached-IsValid origin older b c v made absent on h s moved in
        let (c', rest, v', grown, sized, up, marked) =
          handle_all-IsValid (handle_block confirm unconfirm fuel) fuel each
            (get_or c.pending_blocks b.id []) c₂ flight valid₂ (children fuel enough) in
        (
          c₂,
          c',
          run,
          rest,
          record {
            valid = v';
            grown = λ j old. grown j (keep-IsHandled writes j old);
            sized = λ lt. sized ∙ base_sized lt;
            raised =
                Rises-trans origin older c c₂ c' v valid₂ v' (keep-IsHandled writes) grown
                  (attached-Rises origin older b c v made absent on h s moved) up;
            marked = λ j full. marked j (Writes-Marks writes stored_filled j full);
            placed = inl (grown b.id (IsHandled-self origin older b c v made absent on));
          },
        )

    -- A block that was not handled before.
    new-Returns :
        (fuel : ℕ)
        → Handles (handle_block confirm unconfirm fuel) fuel
        → length c.blockchain ≤ suc fuel + b.id
        → satisfies c.blockchain b.id (λ k. k.id == b.id) ≡ false
        → Returns flight b c (handle_block confirm unconfirm (suc fuel) b c)
    unfolding handle_block
    new-Returns fuel each enough new =
        elim (Bool-cases (satisfies base.blockchain b.parent is_unhandled)) [
          | inl waits ↦ (
            postponed origin older b c v made absent,
            rw (new, waits, postpone-postponed origin older b c v made absent),
            postponed-Done (parent_unhandled waits),
          )
          | inr joins ↦
              let (c₂, c', run, rest, done) =
                attached_returns fuel each enough (parent-IsHandled joins) in
              (c', rw (new, joins, run, ◌>>=◌, rest), done)
        ]

  repeated-Returns :
      (fuel : ℕ) {flight : List (Block A)} (b : Block A) (c : Chain A S)
      → IsValid origin (b ∷ flight) c
      → IsMade origin b
      → satisfies c.blockchain b.id (λ k. k.id == b.id) ≡ true
      → Returns flight b c (handle_block confirm unconfirm (suc fuel) b c)
  unfolding handle_block
  repeated-Returns fuel b c v made again =
      let (lt, same) = same_id c.blockchain b.id again in
      (c, rw again, repeated-Done origin v made lt same)

  -- With fuel for the ids from the block's own to the end of the vector, the call ends without a
  -- fault, returns whether the block's slot was empty, and keeps the invariant.
  pub handle_block-Done : (fuel : ℕ) → Handles (handle_block confirm unconfirm fuel) fuel
  handle_block-Done zero b c flight v made enough pos = absurd (omega arith)
  handle_block-Done (suc fuel) b c flight v made enough pos =
      elim (Bool-cases (satisfies c.blockchain b.id (λ k. k.id == b.id))) [
        | inl again ↦ repeated-Returns fuel b c v made again
        | inr new ↦
            new-Returns b c v made (other_id c.blockchain b.id made.in_range new) fuel
              (handle_block-Done fuel) enough new
      ]
