-- ===== src/Cuckoo/Insert.antt =====
-- insert of include/cuckoo.hpp
use native.Mathlib.Decide.{dec_lt}
use native.Mathlib.Nat.{pow-le-pow_right}
use distributedsim.Base.{
  ℕ, zero, suc, ◌+◌, ◌-◌, ◌*◌, ◌/◌, ◌^◌, ◌≤◌, ◌<◌, ◌≡◌, ◌≢◌, inl, inr, refl, sym, ap, ◌∙◌, true,
  Option, some, List, set, arith,
}
use distributedsim.Cuckoo.{insert, bucket_size, missing, hash_1, hash_2, as_int, insert_into}
use distributedsim.Cuckoo.Slots.{slot}
use distributedsim.Cuckoo.Keys.{IsDistinct, as-int}
use distributedsim.Cuckoo.Masks.{hash-1_whole, hash-2_whole}
use distributedsim.Cuckoo.Content.{IsFilled}
use distributedsim.Cuckoo.Evict.{IsStep, IsHome-le, Found, find_cases, evict_all-Leaves}
use distributedsim.Cuckoo.Grow.{IsGrown, Inserts}
use distributedsim.Cuckoo.Rehash.{settle-IsGrown}

-- With the greatest mask the first bucket of a key has an empty slot: only one other key has a home there.
module _ (m : ℕ) (t : List ℕ) (k : ℕ) (whole : m + 1 ≡ 2 ^ 30) (filled : IsFilled m t)
    (key : k < 2 ^ 30) (free : (i : ℕ) → slot t i ≢ k) where
  other_key : (i : ℕ) → i / 2 ≡ k → slot t i ≢ missing → slot t i ≡ m - k
  other_key i bucket present =
      let small = filled.small i present in
      elim (filled.placed i present) [
        | inl e ↦ absurd (free i (sym (sym bucket ∙ (e ∙ hash-1_whole m (slot t i) whole small))))
        | inr e ↦
            let second : k ≡ m - slot t i =
              sym bucket ∙ (e ∙ hash-2_whole m (slot t i) whole small) in
            omega arith
      ]

  bucket_has_room : slot t (k * bucket_size) ≢ missing → slot t (k * bucket_size + 1) ≢ missing → ⊥
  unfolding IsDistinct
  bucket_has_room one two =
      let a = other_key (k * bucket_size) (omega arith) one in
      let b = other_key (k * bucket_size + 1) (omega arith) two in
      omega (arith, filled.distinct (k * bucket_size) (k * bucket_size + 1) one (a ∙ sym b))

put-IsGrown :
    {j m k : ℕ} {t t' : List ℕ} → IsGrown j m t j → IsStep m t k t' missing → IsGrown j m t' j
put-IsGrown grown step = record {
  mask = grown.mask;
  larger = grown.larger;
  bounded = grown.bounded;
  filled = step.filled;
}

-- Where the first bucket is full, the mask is not the greatest one.
smaller :
    (j m : ℕ) (t : List ℕ) (k : ℕ)
    → IsGrown j m t j
    → k < 2 ^ 30
    → ((i : ℕ) → slot t i ≢ k)
    → slot t (hash_1 m k * bucket_size) ≢ missing
    → slot t (hash_1 m k * bucket_size + 1) ≢ missing
    → j < 30
smaller j m t k grown key free one two = elim (dec_lt j 30) [
  | yes less ↦ less
  | no n ↦
      let top : j ≡ 30 = omega (arith, grown.bounded) in
      let whole : m + 1 ≡ 2 ^ 30 = grown.mask ∙ ap (λ n. 2 ^ n) top in
      let home = hash-1_whole m k whole key in
      absurd (
        bucket_has_room m t k whole grown.filled key free
          (λ e. one (ap (λ h. slot t (h * bucket_size)) home ∙ e))
          (λ e. two (ap (λ h. slot t (h * bucket_size + 1)) home ∙ e)))
]

Inserts-mono :
    (low low' : ℕ) (insert : ℕ → ℕ → List ℕ → Option (ℕ × List ℕ))
    → low ≤ low'
    → Inserts low insert
    → Inserts low' insert
unfolding Inserts
Inserts-mono low low' insert h inserts j m k t above = inserts j m k t (omega arith)

-- One call of insert, over a call that works for the larger masks.
module _ (fuel low : ℕ) (inserts : Inserts (suc low) (insert_into fuel)) where
  insert_step : Inserts low (insert_into (suc fuel))
  unfolding Inserts insert_into Found
  insert_step j m k t above grown key free =
      let power : 2 ^ j ≤ 2 ^ 30 = pow-le-pow_right (omega arith) grown.bounded in
      let filled = grown.filled in
      let h1 = hash_1 m k in
      let h2 = hash_2 m k in
      let e1 : as_int h1 ≡ some h1 =
        as-int h1 (omega (arith, IsHome-le m k h1 (inl refl), grown.mask)) in
      let e2 : as_int h2 ≡ some h2 =
        as-int h2 (omega (arith, IsHome-le m k h2 (inr refl), grown.mask)) in
      elim (find_cases m t k filled key free h1 (inl refl)) [
        | inl (at, f1, step) ↦
            (m, set t at k, j, rw (e1, f1) refl, put-IsGrown grown step, step.same)
        | inr (f1, one, two) ↦ elim (find_cases m t k filled key free h2 (inr refl)) [
          | inl (at, f2, step) ↦
              (m, set t at k, j, rw (e1, f1, e2, f2) refl, put-IsGrown grown step, step.same)
          | inr (f2, one2, two2) ↦
              let more : j < 30 = smaller j m t k grown key free one two in
              let later : Inserts (suc j) (insert_into fuel) =
                Inserts-mono (suc low) (suc j) (insert_into fuel) (omega arith) inserts in
              rw (e1, f1, e2, f2)
                (settle-IsGrown (insert_into fuel) j later more m t k _ grown.mask
                  (evict_all-Leaves m m true k t filled key free))
        ]
      ]

-- No mask is larger than 2 ^ 30 - 1, so that no call is ever made without fuel.
pub insert_into-Inserts : (fuel low : ℕ) → 31 ≤ fuel + low → Inserts low (insert_into fuel)
unfolding Inserts
insert_into-Inserts zero low enough =
    λ j m k t above grown key free. absurd (omega (arith, grown.bounded))
insert_into-Inserts (suc fuel) low enough =
    insert_step fuel low (insert_into-Inserts fuel (suc low) (omega arith))
