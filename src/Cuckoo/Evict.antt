-- ===== src/Cuckoo/Evict.antt =====
-- The loop of insert in include/cuckoo.hpp that moves keys between their buckets.
use distributedsim.Base.{
  ℕ, zero, suc, ◌+◌, ◌-◌, ◌*◌, ◌/◌, ◌^◌, ◌≤◌, ◌<◌, ◌≡◌, ◌≢◌, ◌⊎◌, inl, inr, refl, subst, Bool, true,
  false, Option, none, some, List, length, set, if◌then◌else◌, ◌==◌, ==_iff, ==_ne, Bool-cases,
  arith,
}
use distributedsim.Cuckoo.{bucket_size, missing, hash_1, hash_2, find_slot, shift, evict, evict_all}
use distributedsim.Cuckoo.Slots.{and-le, slot, get-slot, find-slot}
use distributedsim.Cuckoo.Content.{IsHome, IsFilled, IsFree, Same, put-IsFilled, put-Same}
use distributedsim.Cuckoo.Push.{pushed, push-IsFilled, push-free, push-Same}

-- A table and a key without a slot, with the keys of another table and key.
pub record IsStep (m : ℕ) (t : List ℕ) (k : ℕ) (t' : List ℕ) (c : ℕ) : Type 0 where
  pub filled : IsFilled m t'
  pub free : IsFree t' c
  pub same : Same t k t' c
  pub small : c ≢ missing → c < 2 ^ 30

pub small-ne-missing : (k : ℕ) → k < 2 ^ 30 → k ≢ missing
small-ne-missing k h e = absurd (omega (arith, e))

pub Same_trans : (t t' t'' : List ℕ) (k c d : ℕ) → Same t k t' c → Same t' c t'' d → Same t k t'' d
Same_trans t t' t'' k c d p q x present =
    ((λ h. (q x present).0 ((p x present).0 h)), (λ h. (p x present).1 ((q x present).1 h)))

IsStep-trans :
    (m : ℕ) (t t' t'' : List ℕ) (k c d : ℕ)
    → Same t k t' c
    → IsStep m t' c t'' d
    → IsStep m t k t'' d
IsStep-trans m t t' t'' k c d same step = record {
  filled = step.filled;
  free = step.free;
  same = Same_trans t t' t'' k c d same step.same;
  small = step.small;
}

pub IsHome-le : (m x h : ℕ) → IsHome m x h → h ≤ m
unfolding hash_1 hash_2
IsHome-le m x h (inl e) = omega (arith, e, and-le x m)
IsHome-le m x h (inr e) = omega (arith, e, and-le (2 ^ 64 - 1 - x) m)

-- An empty slot of a bucket of the key takes it.
pub put-IsStep :
    (m : ℕ) (t : List ℕ) (k : ℕ)
    → IsFilled m t
    → k < 2 ^ 30
    → ((i : ℕ) → slot t i ≢ k)
    → (at : ℕ) → at < length t
    → slot t at ≡ missing
    → IsHome m k (at / 2)
    → IsStep m t k (set t at k) missing
put-IsStep m t k filled key free at short hole home = record {
  filled = put-IsFilled m t k filled key free at short hole home;
  free = λ n. absurd (n refl);
  same = put-Same m t k filled key free at short hole home;
  small = λ n. absurd (n refl);
}

module _ (m : ℕ) (t : List ℕ) (k : ℕ) (filled : IsFilled m t) (key : k < 2 ^ 30)
    (free : (i : ℕ) → slot t i ≢ k) (h : ℕ) (home : IsHome m k h) where
  in_bucket : h * bucket_size + 1 < length t
  in_bucket = omega (arith, IsHome-le m k h home, filled.long)

  abbrev Evicts : Type 0
  Evicts = (t' : List ℕ) × (c : ℕ) × (evict h k t ≡ some (t', c)) × IsStep m t k t' c

  -- An empty slot of the bucket, or none.
  unfoldable pub Found : Type 0
  Found =
      ((at : ℕ) × (find_slot missing t (h * bucket_size) bucket_size ≡ some (some at))
        × IsStep m t k (set t at k) missing)
      ⊎ ((find_slot missing t (h * bucket_size) bucket_size ≡ some none)
          × (slot t (h * bucket_size) ≢ missing)
          × (slot t (h * bucket_size + 1) ≢ missing))

  pub find_cases : Found
  unfolding Found
  find_cases =
      rw (find-slot missing (h * bucket_size) t in_bucket)
        (elim (Bool-cases (slot t (h * bucket_size) == missing)) [
          | inl e ↦ rw e (
              inl (
                h * bucket_size,
                refl,
                put-IsStep m t k filled key free (h * bucket_size) (omega (arith, in_bucket))
                    ((==_iff _ _).0 e)
                    (subst (IsHome m k) (let e : h ≡ h * bucket_size / 2 = omega arith in e) home),
              ))
          | inr full ↦ rw full (elim (Bool-cases (slot t (h * bucket_size + 1) == missing)) [
            | inl e ↦ rw e (
                inl (
                  h * bucket_size + 1,
                  refl,
                  put-IsStep m t k filled key free (h * bucket_size + 1) in_bucket
                      ((==_iff _ _).0 e)
                      (subst (IsHome m k) (let e : h ≡ (h * bucket_size + 1) / 2 = omega arith in e)
                        home),
                ))
            | inr full' ↦ rw full' (
                inr (
                  refl,
                  ==_ne (slot t (h * bucket_size)) missing full,
                  ==_ne (slot t (h * bucket_size + 1)) missing full',
                ))
          ])
        ])

  pushed-IsStep :
      (occupied : slot t (h * bucket_size) ≢ missing)
      → IsStep m t k
          (pushed m t k filled key free h home in_bucket occupied)
          (slot t (h * bucket_size))
  pushed-IsStep occupied = record {
    filled = push-IsFilled m t k filled key free h home in_bucket occupied;
    free = λ n. push-free m t k filled key free h home in_bucket occupied;
    same = push-Same m t k filled key free h home in_bucket occupied;
    small = filled.small (h * bucket_size);
  }

  evict-IsStep : Evicts
  unfolding evict shift Found
  evict-IsStep = elim find_cases [
    | inl (at, e, step) ↦ rw e (set t at k, missing, refl, step)
    | inr (e, occupied, _) ↦
        let last : h * bucket_size + bucket_size - 1 ≡ h * bucket_size + 1 = omega arith in
        rw
          (
            e,
            get-slot t (h * bucket_size) (omega (arith, in_bucket)),
            get-slot t (h * bucket_size + 1) in_bucket,
            last,
          )
          (
            pushed m t k filled key free h home in_bucket occupied,
            slot t (h * bucket_size),
            refl,
            pushed-IsStep occupied,
          )
  ]

-- What the loop leaves: the table, and perhaps a key without a slot.
abbrev pub Leaves : ℕ → List ℕ → ℕ → Option (List ℕ × Option ℕ) → Type 0
Leaves m t k result =
    (t' : List ℕ) × (((result ≡ some (t', none)) × IsStep m t k t' missing)
      ⊎ ((c : ℕ) × (result ≡ some (t', some c)) × (c < 2 ^ 30) × IsStep m t k t' c))

Leaves-step :
    (m : ℕ) (t t' : List ℕ) (k c : ℕ) (result : Option (List ℕ × Option ℕ))
    → Same t k t' c
    → Leaves m t' c result
    → Leaves m t k result
Leaves-step m t t' k c result same (t'', inl (e, step)) =
    (t'', inl (e, IsStep-trans m t t' t'' k c missing same step))
Leaves-step m t t' k c result same (t'', inr (d, e, key, step)) =
    (t'', inr (d, e, key, IsStep-trans m t t' t'' k c d same step))

pub evict_all-Leaves :
    (rounds m : ℕ) (use_hash_1 : Bool) (k : ℕ) (t : List ℕ)
    → IsFilled m t
    → k < 2 ^ 30
    → ((i : ℕ) → slot t i ≢ k)
    → Leaves m t k (evict_all rounds m use_hash_1 k t)
unfolding evict_all
evict_all-Leaves zero m use_hash_1 k t filled key free = (
  t,
  inr (
    k,
    refl,
    key,
    record {
      filled = filled;
      free = λ n. free;
      same = λ x present. ((λ h. h), (λ h. h));
      small = λ n. key;
    },
  ),
)
evict_all-Leaves (suc rounds) m use_hash_1 k t filled key free =
    let hash = if use_hash_1 then hash_1 m k else hash_2 m k in
    let (t', c, e, step) = evict-IsStep m t k filled key free hash (home use_hash_1) in
    rw e (elim (Bool-cases (c == missing)) [
      | inl last ↦
          rw last (t', inl (refl, subst (IsStep m t k t') ((==_iff c missing).0 last) step))
      | inr more ↦
          let present = ==_ne c missing more in
          rw more (
            Leaves-step m t t' k c _ step.same (
              evict_all-Leaves rounds m (hash == hash_2 m c) c t' step.filled (step.small present)
                (step.free present)))
    ])
  where
    home : (b : Bool) → IsHome m k (if b then hash_1 m k else hash_2 m k)
    home true = inl refl
    home false = inr refl
