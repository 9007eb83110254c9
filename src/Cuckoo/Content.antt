-- ===== src/Cuckoo/Content.antt =====
-- The keys of a table of include/cuckoo.hpp: where they stand, and how writing a key into an empty slot
-- and pushing one out of a full bucket change them.
use native.Mathlib.Decide.{ℕ_discrete}
use distributedsim.Base.{
  ℕ, ◌+◌, ◌*◌, ◌/◌, ◌^◌, ◌≤◌, ◌<◌, ◌≡◌, ◌≢◌, ◌⊎◌, ◌↔◌, inl, inr, sym, ap, ◌∙◌, subst, List, length,
  length-set, set, arith,
}
use distributedsim.Cuckoo.{bucket_size, missing, hash_1, hash_2}
use distributedsim.Cuckoo.Slots.{slot, slot-set, slot-set_other}
use distributedsim.Cuckoo.Keys.{IsDistinct}

-- Some slot holds the key.
abbrev pub Has : List ℕ → ℕ → Type 0
Has t x = (i : ℕ) × (slot t i ≡ x)

-- The bucket is one of the two of the key.
abbrev pub IsHome : ℕ → ℕ → ℕ → Type 0
IsHome m x h = (h ≡ hash_1 m x) ⊎ (h ≡ hash_2 m x)

-- A table for the mask, whose keys are distinct, in their buckets, and below 2 ^ 30.
pub record IsFilled (m : ℕ) (t : List ℕ) : Type 0 where
  pub long : (m + 1) * bucket_size ≤ length t
  pub distinct : IsDistinct t
  pub placed : (i : ℕ) → slot t i ≢ missing → IsHome m (slot t i) (i / 2)
  pub small : (i : ℕ) → slot t i ≢ missing → slot t i < 2 ^ 30

-- No slot holds the key, unless it is the one that stands for an empty slot.
abbrev pub IsFree : List ℕ → ℕ → Type 0
IsFree t k = k ≢ missing → (i : ℕ) → slot t i ≢ k

-- One table and a key that has no slot yet have the same keys as another table and key.
abbrev pub Same : List ℕ → ℕ → List ℕ → ℕ → Type 0
Same t k t' c = (x : ℕ) → x ≢ missing → ((x ≡ k) ⊎ Has t x) ↔ ((x ≡ c) ⊎ Has t' x)

module _ (m : ℕ) (t : List ℕ) (k : ℕ) (filled : IsFilled m t) (key : k < 2 ^ 30)
    (free : (i : ℕ) → slot t i ≢ k) where
  -- The key goes into an empty slot.
  module _ (at : ℕ) (short : at < length t) (hole : slot t at ≡ missing)
      (home : IsHome m k (at / 2)) where
    put_other : (i : ℕ) → at ≢ i → slot (set t at k) i ≡ slot t i
    put_other i n = slot-set_other t at i k n

    put_here : slot (set t at k) at ≡ k
    put_here = slot-set t at k short

    -- What every slot holds afterwards: the key, at its place, or what it held.
    put_cases :
        (i : ℕ)
        → ((at ≡ i) × (slot (set t at k) i ≡ k)) ⊎ ((at ≢ i) × (slot (set t at k) i ≡ slot t i))
    put_cases i = elim (ℕ_discrete at i) [
      | yes same ↦ inl (same, ap (slot (set t at k)) (sym same) ∙ put_here)
      | no n ↦ inr (n, put_other i n)
    ]

    pub put-IsFilled : IsFilled m (set t at k)
    unfolding IsDistinct
    put-IsFilled = record {
      long = omega (arith, filled.long, length-set t at k);
      distinct = λ i j h e. elim (put_cases i) [
        | inl (p, a) ↦ elim (put_cases j) [
          | inl (q, b) ↦ sym p ∙ q
          | inr (q, b) ↦ absurd (free j (sym b ∙ (sym e ∙ a)))
        ]
        | inr (p, a) ↦ elim (put_cases j) [
          | inl (q, b) ↦ absurd (free i (sym a ∙ (e ∙ b)))
          | inr (q, b) ↦ filled.distinct i j (λ n. h (a ∙ n)) (sym a ∙ (e ∙ b))
        ]
      ];
      placed = λ i h. elim (put_cases i) [
        | inl (p, a) ↦
            subst (λ x. IsHome m x (i / 2)) (sym a) (subst (λ n. IsHome m k (n / 2)) p home)
        | inr (p, a) ↦ subst (λ x. IsHome m x (i / 2)) (sym a) (filled.placed i (λ n. h (a ∙ n)))
      ];
      small = λ i h. elim (put_cases i) [
        | inl (p, a) ↦ subst (λ x. x < 2 ^ 30) (sym a) key
        | inr (p, a) ↦ subst (λ x. x < 2 ^ 30) (sym a) (filled.small i (λ n. h (a ∙ n)))
      ];
    }

    pub put-Same : Same t k (set t at k) missing
    put-Same x present = (
      λ before. elim before [
        | inl e ↦ inr (at, put_here ∙ sym e)
        | inr (i, e) ↦ elim (put_cases i) [
          | inl (p, a) ↦ absurd (present (sym e ∙ (ap (slot t) (sym p) ∙ hole)))
          | inr (p, a) ↦ inr (i, a ∙ e)
        ]
      ],
      λ after. elim after [
        | inl e ↦ absurd (present e)
        | inr (i, e) ↦ elim (put_cases i) [
          | inl (p, a) ↦ inl (sym e ∙ a)
          | inr (p, a) ↦ inr (i, sym a ∙ e)
        ]
      ],
    )
