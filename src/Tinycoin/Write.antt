-- ===== src/Tinycoin/Write.antt =====
-- A write of one slot that was not handled: what it keeps, and the tree after it.
use native.Mathlib.Decide.{ℕ_discrete, dec_lt}
use distributedsim.Base.{
  ℕ, suc, ◌≤◌, ◌<◌, ◌≡◌, ◌≢◌, inl, inr, sym, ap, ◌∙◌, subst, List, arith, length,
}
use distributedsim.Common.Laws.{get_or-of_length_le}
use distributedsim.Tinycoin.{Block, no_block, no_id, orphan_id}
use distributedsim.Tinycoin.Tree.{slot, height, IsHandled, IsTree, handled-id, handled-height}

-- `new` differs from `old` in slot `i`, which held no handled block, and may be longer.
pub record Writes {A : Type 0} (i : ℕ) (old new : List (Block A)) : Type 0 where
  pub counted : 0 < i
  pub absent : (slot old i).id ≢ i
  pub rooted : 0 < length old
  pub longer : length old ≤ length new
  pub inside : i < length new
  pub small : length new ≤ orphan_id
  pub kept : (j : ℕ) → j ≢ i → slot new j ≡ slot old j

-- The heights `high` differ from `low` in slot `i`.
pub record Raises (i : ℕ) (low high : List ℕ) : Type 0 where
  pub longer : length low ≤ length high
  pub inside : i < length high
  pub kept : (j : ℕ) → j ≢ i → height high j ≡ height low j

-- A slot that is not empty is not emptied.
abbrev pub Marks : {A : Type 0} → List (Block A) → List (Block A) → Type 0
Marks old new = (j : ℕ) → (slot old j).id ≢ no_id → (slot new j).id ≢ no_id

module _ {A : Type 0} {i : ℕ} {old new : List (Block A)} (w : Writes i old new) where
  pub Writes-Marks : (slot new i).id ≢ no_id → Marks old new
  Writes-Marks filled j full = elim (ℕ_discrete j i) [
    | yes e ↦ rw e filled
    | no ne ↦
        let same = ap (λ (b : Block A). b.id) (w.kept j ne) in λ empty. full (sym same ∙ empty)
  ]

  pub handled-ne : (j : ℕ) → IsHandled old j → j ≢ i
  handled-ne j (lt, inl zero_slot) e = omega (arith, w.counted)
  handled-ne j (lt, inr same) e = w.absent (subst (λ k. (slot old k).id ≡ k) e same)

  -- Handled blocks stay handled.
  pub keep-IsHandled : (j : ℕ) → IsHandled old j → IsHandled new j
  keep-IsHandled j h =
      let same = ap (λ (b : Block A). b.id) (w.kept j (handled-ne j h)) in ground (arith, w.longer)

  -- No other slot becomes handled.
  pub IsHandled-old : (j : ℕ) → j ≢ i → IsHandled new j → IsHandled old j
  IsHandled-old j ne h =
      let same = ap (λ (b : Block A). b.id) (w.kept j ne) in
      elim (dec_lt j (length old)) [
        | yes lt ↦ ground arith
        | no ge ↦
            let outside =
              ap (λ (b : Block A). b.id) (get_or-of_length_le no_block old j (omega arith)) in
            absurd (omega (arith, w.rooted, w.small))
      ]

module _ {A : Type 0} {i : ℕ} {old new : List (Block A)} (w : Writes i old new) (origin : ℕ → ℕ)
    {low : List ℕ} (tree : IsTree origin old low) where
  genesis-keep : (slot new 0).id < orphan_id
  genesis-keep =
      let same = ap (λ (b : Block A). b.id) (w.kept 0 (λ e. omega (arith, w.counted))) in
      omega (arith, tree.genesis)

  -- The tree with the heights as they were, where the slot still holds no handled block.
  pub postponed-IsTree : (slot new i).id ≢ i → IsTree origin new low
  postponed-IsTree still = record {
    rooted = omega (arith, w.rooted, w.longer);
    fits = w.small;
    genesis = genesis-keep;
    ground_height = tree.ground_height;
    ground_measured = tree.ground_measured;
    linked = λ j pos h.
        let ne : j ≢ i = λ e. still (subst (λ k. (slot new k).id ≡ k) e (handled-id new j pos h)) in
        let l = tree.linked j pos (IsHandled-old w j ne h) in
        record {
          made = ap (λ (b : Block A). b.parent) (w.kept j ne) ∙ l.made;
          on_handled = keep-IsHandled w (origin j) l.on_handled;
          above = l.above;
          off_ground = l.off_ground;
          measured = l.measured;
        };
  }

  -- The tree with one more block on a handled one.
  pub attached-IsTree :
      {high : List ℕ}
      → Raises i low high
      → (slot new i).parent ≡ origin i
      → IsHandled old (origin i)
      → height high i ≡ suc (height low (origin i))
      → IsTree origin new high
  attached-IsTree {high} raises made on above = record {
    rooted = omega (arith, w.rooted, w.longer);
    fits = w.small;
    genesis = genesis-keep;
    ground_height = raises.kept 0 (λ e. omega (arith, w.counted)) ∙ tree.ground_height;
    ground_measured = omega (arith, tree.ground_measured, raises.longer);
    linked = λ j pos h. elim (ℕ_discrete j i) [
      | yes at_i ↦ rw at_i (record {
        made = made;
        on_handled = keep-IsHandled w (origin i) on;
        above = above ∙ ap suc (sym (raises.kept (origin i) (handled-ne w (origin i) on)));
        off_ground = omega (
          arith,
          raises.kept (origin i) (handled-ne w (origin i) on),
          handled-height origin tree (origin i) on,
        );
        measured = raises.inside;
      })
      | no ne ↦
          let l = tree.linked j pos (IsHandled-old w j ne h) in
          let same = raises.kept j ne in
          let same' = raises.kept (origin j) (handled-ne w (origin j) l.on_handled) in
          record {
            made = ap (λ (b : Block A). b.parent) (w.kept j ne) ∙ l.made;
            on_handled = keep-IsHandled w (origin j) l.on_handled;
            above = same ∙ l.above ∙ ap suc (sym same');
            off_ground = omega (arith, same', l.off_ground);
            measured = omega (arith, l.measured, raises.longer);
          }
    ];
  }
