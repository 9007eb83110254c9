-- ===== src/Cuckoo/Push.antt =====
-- A key pushed into a full bucket of a table of include/cuckoo.hpp: the other key of the bucket moves one
-- slot down, and the first one is pushed out.
use native.Mathlib.Decide.{ℕ_discrete}
use distributedsim.Base.{
  ℕ, ◌+◌, ◌*◌, ◌/◌, ◌^◌, ◌<◌, ◌≡◌, ◌≢◌, ◌⊎◌, inl, inr, refl, sym, ap, ◌∙◌, subst, List, length,
  length-set, set, arith,
}
use distributedsim.Cuckoo.{bucket_size, missing}
use distributedsim.Cuckoo.Slots.{slot, slot-set, slot-set_other}
use distributedsim.Cuckoo.Keys.{IsDistinct}
use distributedsim.Cuckoo.Content.{IsHome, IsFilled, Same}

-- The slot that the content of slot `i` comes from, where that is not the new key.
Moved : ℕ → ℕ → ℕ → Type 0
Moved a i j = ((i ≡ a) × (j ≡ a + 1)) ⊎ ((i ≡ j) × (j ≢ a) × (i ≢ a + 1))

module _ (a i j : ℕ) where
  Moved-ne : Moved a i j → j ≢ a
  unfolding Moved
  Moved-ne (inl (p, q)) e = absurd (omega arith)
  Moved-ne (inr (p, n, k)) e = n e

  Moved-bucket : (h : ℕ) → a ≡ h * bucket_size → Moved a i j → j / 2 ≡ i / 2
  unfolding Moved
  Moved-bucket h b (inl (p, q)) = omega arith
  Moved-bucket h b (inr (p, n, k)) = omega arith

  Moved-same : (i' : ℕ) → Moved a i j → Moved a i' j → i ≡ i'
  unfolding Moved
  Moved-same i' (inl (p, q)) (inl (p', q')) = omega arith
  Moved-same i' (inl (p, q)) (inr (p', n', k')) = absurd (k' (omega arith))
  Moved-same i' (inr (p, n, k)) (inl (p', q')) = absurd (k (omega arith))
  Moved-same i' (inr (p, n, k)) (inr (p', n', k')) = omega arith

module _ (m : ℕ) (t : List ℕ) (k : ℕ) (filled : IsFilled m t) (key : k < 2 ^ 30)
    (free : (i : ℕ) → slot t i ≢ k) (h : ℕ) (home : IsHome m k h)
    (short : h * bucket_size + 1 < length t) (full : slot t (h * bucket_size) ≢ missing) where
  abbrev a : ℕ
  a = h * bucket_size

  -- The table afterwards.
  abbrev pub pushed : List ℕ
  pushed = set (set t (h * bucket_size) (slot t (h * bucket_size + 1))) (h * bucket_size + 1) k

  length-pushed : length pushed ≡ length t
  length-pushed = length-set (set t a (slot t (a + 1))) (a + 1) k ∙ length-set t a (slot t (a + 1))

  pushed_here : slot pushed (a + 1) ≡ k
  pushed_here =
      slot-set (set t a (slot t (a + 1))) (a + 1) k
        (omega (arith, short, length-set t a (slot t (a + 1))))

  pushed_other : (i : ℕ) → a + 1 ≢ i → slot pushed i ≡ slot (set t a (slot t (a + 1))) i
  pushed_other i n = slot-set_other (set t a (slot t (a + 1))) (a + 1) i k n

  -- What every slot holds: the new key, or what another slot held.
  abbrev Origin : ℕ → Type 0
  Origin i =
      ((a + 1 ≡ i) × (slot pushed i ≡ k))
      ⊎ ((j : ℕ) × (slot pushed i ≡ slot t j) × Moved (h * bucket_size) i j)

  origin : (i : ℕ) → Origin i
  unfolding Moved
  origin i = elim (ℕ_discrete (a + 1) i) [
    | yes same ↦ inl (same, ap (slot pushed) (sym same) ∙ pushed_here)
    | no n ↦ elim (ℕ_discrete a i) [
      | yes same ↦
          let moved : slot (set t a (slot t (a + 1))) i ≡ slot t (a + 1) =
            ap (slot (set t a (slot t (a + 1)))) (sym same)
            ∙ slot-set t a (slot t (a + 1)) (omega (arith, short)) in
          inr (a + 1, pushed_other i n ∙ moved, inl (sym same, refl))
      | no n' ↦ inr (
        i,
        pushed_other i n ∙ slot-set_other t a i (slot t (a + 1)) n',
        inr (refl, (λ e. n' (sym e)), (λ e. n (sym e))),
      )
    ]
  ]

  pub push-IsFilled : IsFilled m pushed
  unfolding IsDistinct
  push-IsFilled = record {
    long = omega (arith, filled.long, length-pushed);
    distinct = λ i i' present e. elim (origin i) [
      | inl (p, x) ↦ elim (origin i') [
        | inl (q, y) ↦ sym p ∙ q
        | inr (j, y, moved) ↦ absurd (free j (sym y ∙ (sym e ∙ x)))
      ]
      | inr (j, x, moved) ↦ elim (origin i') [
        | inl (q, y) ↦ absurd (free j (sym x ∙ (e ∙ y)))
        | inr (j', y, moved') ↦
            let same = filled.distinct j j' (λ n. present (x ∙ n)) (sym x ∙ (e ∙ y)) in
            Moved-same a i j i' moved (subst (Moved a i') (sym same) moved')
      ]
    ];
    placed = λ i present. elim (origin i) [
      | inl (p, x) ↦
          let bucket : h ≡ i / 2 = omega arith in
          subst (λ y. IsHome m y (i / 2)) (sym x) (subst (IsHome m k) bucket home)
      | inr (j, x, moved) ↦
          subst (λ y. IsHome m y (i / 2)) (sym x)
            (subst (IsHome m (slot t j)) (Moved-bucket a i j h refl moved)
              (filled.placed j (λ n. present (x ∙ n))))
    ];
    small = λ i present. elim (origin i) [
      | inl (p, x) ↦ subst (λ y. y < 2 ^ 30) (sym x) key
      | inr (j, x, moved) ↦ subst (λ y. y < 2 ^ 30) (sym x) (filled.small j (λ n. present (x ∙ n)))
    ];
  }

  -- The key that is pushed out has no slot any more.
  pub push-free : (i : ℕ) → slot pushed i ≢ slot t (h * bucket_size)
  unfolding IsDistinct
  push-free i e = elim (origin i) [
    | inl (p, x) ↦ free a (sym e ∙ x)
    | inr (j, x, moved) ↦
        Moved-ne a i j moved (filled.distinct j a (λ n. full (sym e ∙ (x ∙ n))) (sym x ∙ e))
  ]

  pub push-Same : Same t k pushed (slot t (h * bucket_size))
  unfolding Moved
  push-Same x present = (
    λ before. elim before [
      | inl e ↦ inr (a + 1, pushed_here ∙ sym e)
      | inr (i, e) ↦ elim (ℕ_discrete i a) [
        | yes same ↦ inl (sym e ∙ ap (slot t) same)
        | no n ↦ elim (ℕ_discrete (a + 1) i) [
          | yes same ↦
              let moved : slot pushed a ≡ slot t (a + 1) =
                pushed_other a (λ q. omega (arith, q))
                ∙ slot-set t a (slot t (a + 1)) (omega (arith, short)) in
              inr (a, moved ∙ (ap (slot t) same ∙ e))
          | no n' ↦
              inr (
                i,
                pushed_other i n' ∙ (slot-set_other t a i (slot t (a + 1)) (λ q. n (sym q)) ∙ e),
              )
        ]
      ]
    ],
    λ after. elim after [
      | inl e ↦ inr (a, sym e)
      | inr (i, e) ↦ elim (origin i) [
        | inl (p, y) ↦ inl (sym e ∙ y)
        | inr (j, y, moved) ↦ inr (j, sym y ∙ e)
      ]
    ],
  )
