-- ===== src/Tinycoin/Heights.antt =====
-- Heights of handled blocks in two states of one node, and what a head may change to.
use distributedsim.Base.{ℕ, zero, suc, ◌≤◌, ◌<◌, ◌≡◌, ◌⊎◌, inl, inr, ◌∙◌, List, arith}
use distributedsim.Tinycoin.{Block, Chain}
use distributedsim.Tinycoin.Tree.{height, IsHandled, IsTree}
use distributedsim.Tinycoin.Valid.{IsValid}

module _ {A : Type 0} (origin : ℕ → ℕ) (older : (i : ℕ) → 0 < i → origin i < i) where
  -- The height of a handled block is the same in any two trees with the same origins.
  same_height :
      (n i : ℕ) {bc bc' : List (Block A)} {lengths lengths' : List ℕ}
      → i < n
      → IsTree origin bc lengths
      → IsTree origin bc' lengths'
      → IsHandled bc i
      → IsHandled bc' i
      → height lengths i ≡ height lengths' i
  same_height zero i lt t t' h h' = absurd (omega arith)
  same_height (suc n) zero lt t t' h h' = omega (arith, t.ground_height, t'.ground_height)
  same_height (suc n) (suc i) lt t t' h h' =
      let on = t.linked (suc i) (omega arith) h in
      let on' = t'.linked (suc i) (omega arith) h' in
      let below =
        same_height n (origin (suc i)) (omega (arith, older (suc i) (omega arith))) t t'
          on.on_handled on'.on_handled in
      omega (arith, on.above, on'.above)

module _ {A S : Type 0} where
  -- The head is the same, or higher than the head before.
  abbrev pub Rises : Chain A S → Chain A S → Type 0
  Rises c c' = (c'.head ≡ c.head) ⊎ (height c.lengths c.head < height c'.lengths c'.head)

module _ {A S : Type 0} (origin : ℕ → ℕ) (older : (i : ℕ) → 0 < i → origin i < i) where
  -- The height of the head never falls.
  pub Rises-le :
      {f f' : List (Block A)} {c c' : Chain A S}
      → IsValid origin f c
      → IsValid origin f' c'
      → ((j : ℕ) → IsHandled c.blockchain j → IsHandled c'.blockchain j)
      → height c.lengths c.head ≤ height c'.lengths c'.head
  Rises-le {c} v v' grown =
      let kept =
        same_height origin older (suc c.head) c.head (omega arith) v.tree v'.tree v.head_handled
          (grown c.head v.head_handled) in
      omega (arith, v'.highest c.head (grown c.head v.head_handled))

  pub Rises-trans :
      {f₁ f₂ f₃ : List (Block A)} (c₁ c₂ c₃ : Chain A S)
      → IsValid origin f₁ c₁
      → IsValid origin f₂ c₂
      → IsValid origin f₃ c₃
      → ((j : ℕ) → IsHandled c₁.blockchain j → IsHandled c₂.blockchain j)
      → ((j : ℕ) → IsHandled c₂.blockchain j → IsHandled c₃.blockchain j)
      → Rises c₁ c₂
      → Rises c₂ c₃
      → Rises c₁ c₃
  Rises-trans c₁ c₂ c₃ v₁ v₂ v₃ g₁ g₂ (inl e) (inl e') = inl (e' ∙ e)
  Rises-trans c₁ c₂ c₃ v₁ v₂ v₃ g₁ g₂ (inl e) (inr up) = inr (omega (arith, Rises-le v₁ v₂ g₁))
  Rises-trans c₁ c₂ c₃ v₁ v₂ v₃ g₁ g₂ (inr up) r = inr (omega (arith, Rises-le v₂ v₃ g₂))
