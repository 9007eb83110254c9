-- ===== src/Cuckoo/Grow.antt =====
-- The loop of rehash in include/cuckoo.hpp, which inserts the keys of the old table into the new one.
use distributedsim.Base.{
  ℕ, zero, suc, ◌+◌, ◌*◌, ◌^◌, ◌≤◌, ◌<◌, ◌≡◌, ◌≢◌, ◌⊎◌, ◌↔◌, inl, inr, refl, sym, ◌∙◌, Option, some,
  List, [], ◌∷◌, length-replicate, replicate, ◌==◌, ==_iff, ==_ne, Bool-cases, arith,
}
use distributedsim.Cuckoo.{bucket_size, missing, move_all}
use distributedsim.Cuckoo.Slots.{slot}
use distributedsim.Cuckoo.Keys.{IsDistinct}
use distributedsim.Cuckoo.Content.{Has, IsFilled, Same}

-- A mask and a table after an insertion, the mask not below 2 ^ j - 1.
pub record IsGrown (j m : ℕ) (t : List ℕ) (j' : ℕ) : Type 0 where
  pub mask : m + 1 ≡ 2 ^ j'
  pub larger : j ≤ j'
  pub bounded : j' ≤ 30
  pub filled : IsFilled m t

-- An insertion that works for the masks from 2 ^ j - 1 on.
unfoldable pub Inserts : ℕ → (ℕ → ℕ → List ℕ → Option (ℕ × List ℕ)) → Type 0
Inserts low insert =
    (j m k : ℕ) (t : List ℕ)
    → low ≤ j
    → IsGrown j m t j
    → k < 2 ^ 30
    → ((i : ℕ) → slot t i ≢ k)
    → (m' : ℕ) × (t' : List ℕ) × (j' : ℕ) × (insert m k t ≡ some (m', t'))
      × IsGrown j m' t' j'
      × Same t k t' missing

pub slot-replicate : (n i : ℕ) → slot (replicate n missing) i ≡ missing
slot-replicate zero i = refl
slot-replicate (suc n) zero = refl
slot-replicate (suc n) (suc i) = slot-replicate n i

pub empty-IsFilled : (m : ℕ) → IsFilled m (replicate ((m + 1) * bucket_size) missing)
unfolding IsDistinct
empty-IsFilled m =
    let n = (m + 1) * bucket_size in
    record {
      long = omega (arith, length-replicate n missing);
      distinct = λ i j h e. absurd (h (slot-replicate n i));
      placed = λ i h. absurd (h (slot-replicate n i));
      small = λ i h. absurd (h (slot-replicate n i));
    }

-- The keys of the old table that are still to be moved, and those of the new one.
pub record IsApart (table newt : List ℕ) : Type 0 where
  pub distinct : IsDistinct table
  pub small : (i : ℕ) → slot table i ≢ missing → slot table i < 2 ^ 30
  pub apart : (i i' : ℕ) → slot table i ≢ missing → slot newt i' ≢ slot table i

-- The new table has the keys of the old one and those that it had.
unfoldable pub Joins : List ℕ → List ℕ → List ℕ → Type 0
Joins table newt t' = (x : ℕ) → x ≢ missing → (Has table x ⊎ Has newt x) ↔ Has t' x

tail-IsDistinct : (x : ℕ) (table : List ℕ) → IsDistinct (x ∷ table) → IsDistinct table
unfolding IsDistinct
tail-IsDistinct x table h i j present e = let next = h (suc i) (suc j) present e in omega arith

-- The bound below the mask moves along a chain of insertions.
IsGrown-from :
    {j m j' m' j'' : ℕ} {t t' : List ℕ}
    → IsGrown j m t j'
    → IsGrown j' m' t' j''
    → IsGrown j m' t' j''
IsGrown-from g g' = record {
  mask = g'.mask;
  larger = omega (arith, g.larger, g'.larger);
  bounded = g'.bounded;
  filled = g'.filled;
}

pub IsGrown-self : {j m j' : ℕ} {t : List ℕ} → IsGrown j m t j' → IsGrown j' m t j'
IsGrown-self g = record {
  mask = g.mask;
  larger = omega arith;
  bounded = g.bounded;
  filled = g.filled;
}

module _ (x : ℕ) (table newt : List ℕ) (apart : IsApart (x ∷ table) newt) where
  tail-IsApart : IsApart table newt
  tail-IsApart = record {
    distinct = tail-IsDistinct x table apart.distinct;
    small = λ i. apart.small (suc i);
    apart = λ i i'. apart.apart (suc i) i';
  }

  -- After the first key has been moved, the others are still apart.
  moved-IsApart : (t' : List ℕ) → x ≢ missing → Same newt x t' missing → IsApart table t'
  unfolding IsDistinct
  moved-IsApart t' present same = record {
    distinct = tail-IsDistinct x table apart.distinct;
    small = λ i. apart.small (suc i);
    apart = λ i i' h e. elim ((same (slot table i) h).1 (inr (i', e))) [
      | inl first ↦ absurd (omega (arith, apart.distinct (suc i) zero h first))
      | inr (n, old) ↦ apart.apart (suc i) n h old
    ];
  }

empty-Joins :
    (x : ℕ) (table newt t' : List ℕ) → x ≡ missing → Joins table newt t' → Joins (x ∷ table) newt t'
unfolding Joins
empty-Joins x table newt t' x_missing joins y present = (
  λ h. (joins y present).0 (elim h [
    | inl (zero, e) ↦ absurd (present (sym e ∙ x_missing))
    | inl (suc i, e) ↦ inl (i, e)
    | inr there ↦ inr there
  ]),
  λ there. elim ((joins y present).1 there) [ inl (i, e) ↦ inl (suc i, e) | inr h ↦ inr h ],
)

full-Joins :
    (x : ℕ) (table newt t t' : List ℕ)
    → Same newt x t missing
    → Joins table t t'
    → Joins (x ∷ table) newt t'
unfolding Joins
full-Joins x table newt t t' same joins y present = (
  λ h. (joins y present).0 (elim h [
    | inl (zero, e) ↦ inr (arrived ((same y present).0 (inl (sym e))))
    | inl (suc i, e) ↦ inl (i, e)
    | inr there ↦ inr (arrived ((same y present).0 (inr there)))
  ]),
  λ there. elim ((joins y present).1 there) [
    | inl (i, e) ↦ inl (suc i, e)
    | inr h ↦ elim ((same y present).1 (inr h)) [ inl e ↦ inl (zero, sym e) | inr h' ↦ inr h' ]
  ],
)
  where
    arrived : (y ≡ missing) ⊎ Has t y → Has t y
    arrived (inl e) = absurd (present e)
    arrived (inr h) = h

module _ (low : ℕ) (insert : ℕ → ℕ → List ℕ → Option (ℕ × List ℕ))
    (inserts : Inserts low insert) where
  pub move_all-IsGrown :
      (table : List ℕ) (j m : ℕ) (newt : List ℕ)
      → low ≤ j
      → IsGrown j m newt j
      → IsApart table newt
      → (m' : ℕ) × (t' : List ℕ) × (j' : ℕ) × (move_all insert table m newt ≡ some (m', t'))
        × IsGrown j m' t' j'
        × Joins table newt t'
  unfolding move_all Joins Inserts
  move_all-IsGrown [] j m newt above grown apart = (
    m,
    newt,
    j,
    refl,
    grown,
    λ x present. (
      (λ h. elim h [ inl (i, e) ↦ absurd (present (sym e)) | inr there ↦ there ]),
      (λ there. inr there),
    ),
  )
  move_all-IsGrown (x ∷ table) j m newt above grown apart = elim (Bool-cases (x == missing)) [
    | inl empty ↦
        let x_missing = (==_iff x missing).0 empty in
        let (m', t', j', e, grown', joins) =
          move_all-IsGrown table j m newt above grown (tail-IsApart x table newt apart) in
        (m', t', j', rw empty e, grown', empty-Joins x table newt t' x_missing joins)
    | inr full ↦
        let present = ==_ne x missing full in
        let (m1, t1, j1, e1, grown1, same) =
          inserts j m x newt above grown (apart.small zero present)
            (λ i. apart.apart zero i present) in
        let (m', t', j', e, grown', joins) =
          move_all-IsGrown table j1 m1 t1 (omega (arith, grown1.larger)) (IsGrown-self grown1)
            (moved-IsApart x table newt apart t1 present same) in
        (
          m',
          t',
          j',
          rw (full, e1) e,
          IsGrown-from grown1 grown',
          full-Joins x table newt t1 t' same joins,
        )
  ]
