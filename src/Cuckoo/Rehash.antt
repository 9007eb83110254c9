-- ===== src/Cuckoo/Rehash.antt =====
-- insert and rehash of include/cuckoo.hpp: with enough fuel they return a table with the keys of the old
-- one and the new key. A mask is 2 ^ j - 1, and rehash raises j by one; with j = 30 every key has an
-- empty slot in its first bucket, so that 31 nested calls are enough.
use distributedsim.Base.{
  ℕ, suc, ◌+◌, ◌*◌, ◌^◌, ◌<◌, ◌≡◌, ◌≢◌, ◌↔◌, inl, inr, refl, sym, ◌∙◌, Option, some, List,
  replicate, ◌>>=◌, arith,
}
use distributedsim.Cuckoo.{bucket_size, missing, next_mask, rehash, settle}
use distributedsim.Cuckoo.Masks.{next_mask_lem}
use distributedsim.Cuckoo.Content.{Has, Same}
use distributedsim.Cuckoo.Evict.{Same_trans, Leaves, small-ne-missing}
use distributedsim.Cuckoo.Grow.{
  IsGrown, Inserts, IsApart, Joins, move_all-IsGrown, IsGrown-self, empty-IsFilled, slot-replicate,
}

-- An insertion that works for the larger masks, by which rehash moves the keys.
module _ (insert : ℕ → ℕ → List ℕ → Option (ℕ × List ℕ)) (j : ℕ) (inserts : Inserts (suc j) insert)
    (more : j < 30) where
  rehash-IsGrown :
      (m : ℕ) (t : List ℕ)
      → IsGrown j m t j
      → (m' : ℕ) × (t' : List ℕ) × (j' : ℕ) × (rehash insert m t ≡ some (m', t'))
        × IsGrown (suc j) m' t' j'
        × ((x : ℕ) → x ≢ missing → Has t x ↔ Has t' x)
  unfolding rehash Joins
  rehash-IsGrown m t grown =
      let n = (next_mask m + 1) * bucket_size in
      let start : IsGrown (suc j) (next_mask m) (replicate n missing) (suc j) = record {
        mask = next_mask_lem j m grown.mask (omega arith);
        larger = omega arith;
        bounded = more;
        filled = empty-IsFilled (next_mask m);
      } in
      let apart : IsApart t (replicate n missing) = record {
        distinct = grown.filled.distinct;
        small = grown.filled.small;
        apart = λ i i' h e. h (sym e ∙ slot-replicate n i');
      } in
      let (m', t', j', e, grown', joins) =
        move_all-IsGrown (suc j) insert inserts t (suc j) (next_mask m) (replicate n missing)
          (omega arith) start apart in
      (
        m',
        t',
        j',
        e,
        grown',
        λ x present. (
          (λ h. (joins x present).0 (inl h)),
          (λ h. elim ((joins x present).1 h) [
            | inl old ↦ old
            | inr (i, e) ↦ absurd (present (sym e ∙ slot-replicate n i))
          ]),
        ),
      )

  -- What follows the loop of insert.
  pub settle-IsGrown :
      (m : ℕ) (t : List ℕ) (k : ℕ) (result : Option (List ℕ × Option ℕ))
      → m + 1 ≡ 2 ^ j
      → Leaves m t k result
      → (m' : ℕ) × (t' : List ℕ) × (j' : ℕ) × ((do
        (t'', left_over) ← result
        settle insert m t'' left_over)
          ≡ some (m', t'))
        × IsGrown j m' t' j'
        × Same t k t' missing
  unfolding Inserts
  settle-IsGrown m t k result mask (t1, inl (e, step)) = (
    m,
    t1,
    j,
    rw e refl,
    record { mask = mask; larger = omega arith; bounded = omega arith; filled = step.filled },
    step.same,
  )
  settle-IsGrown m t k result mask (t1, inr (c, e, key, step)) =
      let present = small-ne-missing c key in
      let (m2, t2, j2, e2, grown2, same2) = rehash-IsGrown m t1 (record {
        mask = mask;
        larger = omega arith;
        bounded = omega arith;
        filled = step.filled;
      }) in
      let (m3, t3, j3, e3, grown3, same3) =
        inserts j2 m2 c t2 grown2.larger (IsGrown-self grown2) key
          (λ i h. (let old = (same2 c present).1 (i, h) in step.free present old.0 old.1)) in
      (
        m3,
        t3,
        j3,
        rw (e, e2) e3,
        record {
          mask = grown3.mask;
          larger = omega (arith, grown2.larger, grown3.larger);
          bounded = grown3.bounded;
          filled = grown3.filled;
        },
        Same_trans t t1 t3 k c missing step.same (λ x there. (
          (λ h. (same3 x there).0 (elim h [ inl a ↦ inl a | inr b ↦ inr ((same2 x there).0 b) ])),
          (λ h. elim ((same3 x there).1 h) [ inl a ↦ inl a | inr b ↦ inr ((same2 x there).1 b) ]),
        )),
      )
