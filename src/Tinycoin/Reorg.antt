-- ===== src/Tinycoin/Reorg.antt =====
-- update_head: which blocks are confirmed and unconfirmed, in which order, and that the loops end.
use distributedsim.Base.{
  ℕ, zero, suc, ◌+◌, ◌-◌, ◌≤◌, ◌<◌, ◌≡◌, ◌≢◌, inl, inr, sym, ◌∙◌, List, [], ◌∷◌, some, arith, ltb,
  ◌==◌, ◌>>=◌, true, false, Bool-cases, ==_iff, ==_ne,
}
use native.Mathlib.Decide.{dec_lt}
use distributedsim.Tinycoin.{Block, Chain, descend, retrace, update_head}
use distributedsim.Tinycoin.Tree.{
  slot, height, IsHandled, IsTree, handled-height, handled-measured, handled-slot, IsHandled-parent,
  ground_only,
}

-- The `k`-th ancestor.
abbrev pub ancestor : (ℕ → ℕ) → ℕ → ℕ → ℕ
ancestor origin zero i = i
ancestor origin (suc k) i = ancestor origin k (origin i)

-- The first `k` blocks of the branch that ends in `i`, the newest first.
abbrev pub branch : {A : Type 0} → (ℕ → ℕ) → List (Block A) → ℕ → ℕ → List (Block A)
branch origin bc zero i = []
branch origin bc (suc k) i = slot bc i ∷ branch origin bc k (origin i)

abbrev pub confirm_all : {A S : Type 0} → (Block A → S → S) → List (Block A) → S → S
confirm_all confirm [] s = s
confirm_all confirm (b ∷ bs) s = confirm_all confirm bs (confirm b s)

-- One block of the new branch is confirmed, then one of the old is unconfirmed, and so on.
abbrev pub switch :
    {A S : Type 0} → (Block A → S → S) → (Block A → S → S) → List (Block A) → List (Block A) → S → S
switch confirm unconfirm (b ∷ bs) (o ∷ os) s =
    switch confirm unconfirm bs os (unconfirm o (confirm b s))
switch confirm unconfirm _ _ s = s

module _ {A S : Type 0} (confirm unconfirm : Block A → S → S) (origin : ℕ → ℕ) (c : Chain A S)
    (tree : IsTree origin c.blockchain c.lengths) where
  abbrev pub Handled : ℕ → Type 0
  Handled = IsHandled c.blockchain

  abbrev pub level : ℕ → ℕ
  level = height c.lengths

  -- What the first loop returns.
  descend-ancestor :
      (k fuel new old : ℕ) (s : S)
      → Handled new
      → Handled old
      → level new ≡ k + level old
      → k < fuel
      → (descend confirm unconfirm fuel c new old s
          ≡ some (ancestor origin k new, confirm_all confirm (branch origin c.blockchain k new) s))
        × Handled (ancestor origin k new)
        × (level (ancestor origin k new) ≡ level old)
  unfolding descend
  descend-ancestor k zero new old s hn ho e enough = absurd (omega arith)
  descend-ancestor zero (suc fuel) new old s hn ho e enough =
      let same : ltb (level old) (level new) ≡ false = ground arith in
      (
        rw (handled-measured origin tree new hn, handled-measured origin tree old ho, same),
        hn,
        omega arith,
      )
  descend-ancestor (suc k) (suc fuel) new old s hn ho e enough =
      let above : ltb (level old) (level new) ≡ true = ground arith in
      let (made, on, up) =
        IsHandled-parent origin tree new hn (omega (arith, handled-height origin tree old ho)) in
      let (run, h, l) =
        descend-ancestor k fuel (origin new) old (confirm (slot c.blockchain new) s) on ho
          (omega arith) (omega arith) in
      (
        rw
            (
              handled-measured origin tree new hn,
              handled-measured origin tree old ho,
              above,
              handled-slot origin tree new hn,
              made,
            )
            run,
        h,
        l,
      )

  -- What the second loop returns: the branches meet first at their `j`-th ancestors.
  abbrev pub Meets : ℕ → ℕ → ℕ → Type 0
  Meets a b j =
      (ancestor origin j a ≡ ancestor origin j b)
      × ((i : ℕ) → i < j → ancestor origin i a ≢ ancestor origin i b)

  abbrev pub switched : ℕ → ℕ → ℕ → S → S
  switched a b j s =
      switch confirm unconfirm (branch origin c.blockchain j a) (branch origin c.blockchain j b) s

  -- Two blocks of one height that differ are not the genesis block.
  apart_high : (a b : ℕ) → Handled a → Handled b → level a ≡ level b → a ≢ b → 1 < level a
  apart_high a b ha hb same ne = elim (dec_lt 1 (level a)) [
    | yes high ↦ high
    | no low ↦
        let at_ground : level a ≡ 1 = omega (arith, handled-height origin tree a ha) in
        absurd (
          ne (
            ground_only origin tree a ha at_ground
            ∙ sym (ground_only origin tree b hb (omega arith))))
  ]

  apart_from :
      (a b j : ℕ)
      → a ≢ b
      → ((i : ℕ) → i < j → ancestor origin i (origin a) ≢ ancestor origin i (origin b))
      → (i : ℕ) → i < suc j
      → ancestor origin i a ≢ ancestor origin i b
  apart_from a b j ne later zero lt = ne
  apart_from a b j ne later (suc i) lt = later i (omega arith)

  retrace-switched :
      (fuel a b : ℕ) (s : S)
      → Handled a
      → Handled b
      → level a ≡ level b
      → level a ≤ fuel
      → (j : ℕ) × Meets a b j × (retrace confirm unconfirm fuel c a b s ≡ some (switched a b j s))
  unfolding retrace
  retrace-switched zero a b s ha hb same enough =
      absurd (omega (arith, handled-height origin tree a ha))
  retrace-switched (suc fuel) a b s ha hb same enough = elim (Bool-cases (a == b)) [
    | inl eq ↦ (0, ((==_iff a b).0 eq, λ i lt. absurd (omega arith)), rw eq)
    | inr ne ↦
        let low = handled-height origin tree a ha in
        let high : 1 < level a = apart_high a b ha hb same (==_ne a b ne) in
        let (made_a, on_a, up_a) = IsHandled-parent origin tree a ha high in
        let (made_b, on_b, up_b) = IsHandled-parent origin tree b hb (omega arith) in
        let s' = unconfirm (slot c.blockchain b) (confirm (slot c.blockchain a) s) in
        let (j, meets, run) =
          retrace-switched fuel (origin a) (origin b) s' on_a on_b (omega arith) (omega arith) in
        (
          suc j,
          (meets.0, apart_from a b j (==_ne a b ne) meets.1),
          rw (ne, handled-slot origin tree a ha, handled-slot origin tree b hb, made_a, made_b) run,
        )
  ]

  -- For a higher block the update ends. It confirms the new branch down to the height of the old
  -- head, and from there on confirms a block of the new branch and unconfirms one of the old by turns,
  -- down to the first common ancestor and no further; besides this only the head changes.
  pub update_head-switched :
      (fuel new : ℕ)
      → Handled new
      → Handled c.head
      → level c.head < level new
      → level new < fuel
      → let k = level new - level c.head in
        let side = ancestor origin k new in
        (j : ℕ) × Meets side c.head j
        × (update_head confirm unconfirm fuel c new
            ≡ some (record c {
              head = new;
              rest =
                  switched side c.head j
                    (confirm_all confirm (branch origin c.blockchain k new) c.rest);
            }))
  unfolding update_head
  update_head-switched fuel new hn hh higher enough =
      let k = level new - level c.head in
      let (run, hs, same) =
        descend-ancestor k fuel new c.head c.rest hn hh (omega arith) (omega arith) in
      let (j, meets, rerun) =
        retrace-switched fuel (ancestor origin k new) c.head
          (confirm_all confirm (branch origin c.blockchain k new) c.rest) hs hh same
          (omega arith) in
      (j, meets, rw (run, ◌>>=◌, rerun))

  pub update_head-moves :
      (fuel new : ℕ)
      → Handled new
      → Handled c.head
      → level c.head < level new
      → level new < fuel
      → (s : S) × (update_head confirm unconfirm fuel c new
          ≡ some (record c { head = new; rest = s }))
  update_head-moves fuel new hn hh higher enough =
      let (j, meets, run) = update_head-switched fuel new hn hh higher enough in (_, run)
