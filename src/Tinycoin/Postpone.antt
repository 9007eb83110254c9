-- ===== src/Tinycoin/Postpone.antt =====
-- A block whose parent has not been handled: it waits, and the invariant is kept.
use native.Mathlib.Decide.{ℕ_discrete, dec_lt}
use distributedsim.Base.{
  ℕ, ◌+◌, ◌≤◌, ◌<◌, ◌≡◌, ◌≢◌, ◌⊎◌, inl, inr, refl, sym, ap, ◌∙◌, subst, List, [], ◌∷◌, ◌++◌, arith,
  length, get_or, set, length-set, some, if◌then◌else◌, ◌==◌, true, false, All, All-mono,
  All-append,
}
use distributedsim.Common.{grow, vec_set}
use distributedsim.Common.Laws.{
  get_or-grow, length-grow_le, get_or-set, get_elem?-eq_some, get_or-of_length_le, get_or-vec_set,
  length-vec_set, length-vec_set_bound,
}
use distributedsim.Tinycoin.{Block, Chain, no_block, no_id, orphan_id, postpone}
use distributedsim.Tinycoin.Tree.{slot, IsHandled}
use distributedsim.Tinycoin.Valid.{Has, Has-append, IsMade, IsValid, Waits}
use distributedsim.Tinycoin.Write.{Writes, keep-IsHandled, IsHandled-old, postponed-IsTree}

module _ {A : Type 0} where
  pub vec_set-Writes :
      (bc : List (Block A)) (b : Block A)
      → 0 < b.id
      → b.id < orphan_id
      → 0 < length bc
      → length bc ≤ orphan_id
      → (slot bc b.id).id ≢ b.id
      → Writes b.id bc (vec_set no_block bc b.id b)
  vec_set-Writes bc b pos small rooted fits absent = record {
    counted = pos;
    absent = absent;
    rooted = rooted;
    longer = (length-vec_set no_block bc b.id b).0;
    inside = (length-vec_set no_block bc b.id b).1;
    small = length-vec_set_bound no_block bc b.id orphan_id b fits small;
    kept = λ j ne. let read = get_or-vec_set no_block bc b.id j b in ground arith;
  }

  pub set-Writes :
      {i : ℕ} {old new : List (Block A)} (v : Block A)
      → Writes i old new
      → Writes i old (set new i v)
  set-Writes {i} {old} {new} v w = record {
    counted = w.counted;
    absent = w.absent;
    rooted = w.rooted;
    longer = omega (arith, length-set new i v, w.longer);
    inside = omega (arith, length-set new i v, w.inside);
    small = omega (arith, length-set new i v, w.small);
    kept = λ j ne.
        let read = get_or-set no_block new i j v w.inside in let same = w.kept j ne in ground arith;
  }

module _ {A S : Type 0} (origin : ℕ → ℕ) (older : (i : ℕ) → 0 < i → origin i < i)
    {flight : List (Block A)} (b : Block A) (c : Chain A S) (v : IsValid origin (b ∷ flight) c)
    (made : IsMade origin b) (absent : (slot c.blockchain b.id).id ≢ b.id) where
  -- The state with the block in its slot, where both branches begin.
  abbrev pub stored : Chain A S
  stored = record c {
    blockchain = vec_set no_block c.blockchain b.id b;
    pending_blocks = grow [] c.pending_blocks (b.id + 1);
  }

  pub stored-Writes : Writes b.id c.blockchain stored.blockchain
  stored-Writes =
      vec_set-Writes c.blockchain b made.counted made.in_range v.tree.rooted v.tree.fits absent

  abbrev pub orphan : Block A
  orphan = record b { id = orphan_id }

  abbrev pub postponed : Chain A S
  postponed = record c {
    blockchain = set stored.blockchain b.id orphan;
    pending_blocks =
        set stored.pending_blocks b.parent (get_or c.pending_blocks b.parent [] ++ b ∷ []);
  }

  pub postpone-postponed : postpone b stored ≡ some postponed
  unfolding postpone
  postpone-postponed = rw (
    get_elem?-eq_some [] stored.pending_blocks b.parent (
        omega (
          arith,
          older b.id made.counted,
          made.made_on,
          length-grow_le [] c.pending_blocks (b.id + 1),
        )),
    get_or-grow [] c.pending_blocks (b.id + 1) b.parent,
  )

  pub postponed-Writes : Writes b.id c.blockchain postponed.blockchain
  postponed-Writes = set-Writes orphan stored-Writes

  pub slot-postponed : (slot postponed.blockchain b.id).id ≡ orphan_id
  slot-postponed =
      let read = get_or-set no_block stored.blockchain b.id b.id orphan stored-Writes.inside in
      ground arith

  wait-postponed :
      (p : ℕ)
      → get_or postponed.pending_blocks p [] ≡ (
          if b.parent == p
          then get_or c.pending_blocks b.parent [] ++ b ∷ []
          else get_or c.pending_blocks p [])
  wait-postponed p = rw (
    get_or-set [] stored.pending_blocks b.parent p (get_or c.pending_blocks b.parent [] ++ b ∷ []) (
        omega (
          arith,
          older b.id made.counted,
          made.made_on,
          length-grow_le [] c.pending_blocks (b.id + 1),
        )),
    get_or-grow [] c.pending_blocks (b.id + 1) p,
  )

  wait_self :
      get_or postponed.pending_blocks (origin b.id) []
      ≡ get_or c.pending_blocks (origin b.id) [] ++ b ∷ []
  wait_self =
      let same : (b.parent == b.parent) ≡ true = ground arith in
      subst (λ k. get_or postponed.pending_blocks k [] ≡ get_or c.pending_blocks k [] ++ b ∷ [])
        made.made_on (wait-postponed b.parent ∙ rw same)

  wait_other :
      (p : ℕ)
      → p ≢ origin b.id
      → get_or postponed.pending_blocks p [] ≡ get_or c.pending_blocks p []
  wait_other p ne =
      let away : (b.parent == p) ≡ false = ground (arith, made.made_on) in
      wait-postponed p ∙ rw away

  still_waits :
      (j : ℕ)
      → Has j (get_or c.pending_blocks (origin j) [])
      → Has j (get_or postponed.pending_blocks (origin j) [])
  still_waits j h = elim (ℕ_discrete (origin j) (origin b.id)) [
    | yes same ↦
        rw (same, wait_self)
          (Has-append j _ (b ∷ []) (inl (subst (λ k. Has j (get_or c.pending_blocks k [])) same h)))
    | no away ↦ rw (wait_other (origin j) away) h
  ]

  pub new_slots :
      {new : List (Block A)}
      → Writes b.id c.blockchain new
      → (j : ℕ) → 0 < j
      → j < length new
      → j ≢ b.id
      → ((slot new j).id ≡ j) ⊎ (((slot new j).id ≡ no_id) ⊎ ((slot new j).id ≡ orphan_id))
  new_slots {new} w j pos lt ne =
      let same = ap (λ (k : Block A). k.id) (w.kept j ne) in
      elim (dec_lt j (length c.blockchain)) [
        | yes old ↦ rw same (v.slots j pos old)
        | no out ↦
            let outside =
              ap (λ (k : Block A). k.id)
                (get_or-of_length_le no_block c.blockchain j (omega arith)) in
            inr (inl (same ∙ outside))
      ]

  pub Waits-longer :
      {new : List (Block A)}
      → Writes b.id c.blockchain new
      → (p : ℕ) (bs : List (Block A)) → All (Waits origin c.blockchain p) bs
      → All (Waits origin new p) bs
  Waits-longer w p bs h = All-mono _ bs (λ k m. (m.0, m.1, omega (arith, w.longer))) h

  module _ (unhandled : ¬ IsHandled c.blockchain (origin b.id)) where
    ne-postponed : (j : ℕ) → IsHandled postponed.blockchain j → j ≢ b.id
    ne-postponed j h e =
        let same = slot-postponed in
        let at : IsHandled postponed.blockchain b.id = subst (IsHandled postponed.blockchain) e h in
        omega (arith, made.counted, made.in_range)

    listed-postponed :
        (j : ℕ)
        → 0 < j
        → (slot postponed.blockchain j).id ≡ orphan_id
        → Has j flight ⊎ Has j (get_or postponed.pending_blocks (origin j) [])
    listed-postponed j pos e = elim (ℕ_discrete j b.id) [
      | yes at ↦ inr (rw (at, wait_self) (Has-append b.id _ (b ∷ []) (inr (inl refl))))
      | no ne ↦
          let same = ap (λ (k : Block A). k.id) (postponed-Writes.kept j ne) in
          elim (v.listed j pos (sym same ∙ e)) [
            | inl (inl eq) ↦ absurd (ne (sym eq))
            | inl (inr h) ↦ inl h
            | inr h ↦ inr (still_waits j h)
          ]
    ]

    pub postponed-IsValid : IsValid origin flight postponed
    postponed-IsValid = record {
      tree =
          postponed-IsTree postponed-Writes origin v.tree
            (λ e. omega (arith, slot-postponed, made.in_range));
      slots = λ j pos lt. elim (ℕ_discrete j b.id) [
        | yes e ↦ rw e (inr (inr slot-postponed))
        | no ne ↦ new_slots postponed-Writes j pos lt ne
      ];
      head_handled = keep-IsHandled postponed-Writes c.head v.head_handled;
      highest = λ j h. v.highest j (IsHandled-old postponed-Writes j (ne-postponed j h) h);
      waiting = λ p. elim (ℕ_discrete p (origin b.id)) [
        | yes e ↦
            rw (e, wait_self)
              (All-append _ (get_or c.pending_blocks (origin b.id) []) (b ∷ [])
                (Waits-longer postponed-Writes (origin b.id) _ (v.waiting (origin b.id)))
                ((made, made.made_on, postponed-Writes.inside), tt))
        | no ne ↦ rw (wait_other p ne) (Waits-longer postponed-Writes p _ (v.waiting p))
      ];
      settled = λ p h.
          let was = IsHandled-old postponed-Writes p (ne-postponed p h) h in
          wait_other p (λ e. unhandled (subst (IsHandled c.blockchain) e was)) ∙ v.settled p was;
      listed = listed-postponed;
    }
