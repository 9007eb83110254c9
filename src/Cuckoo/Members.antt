-- ===== src/Cuckoo/Members.antt =====
-- The members of a hash set of include/cuckoo.hpp: what count, insert and erase mean for them.
use native.Mathlib.Nat.{pow-le-pow_right}
use distributedsim.Base.{
  ℕ, ◌+◌, ◌*◌, ◌/◌, ◌^◌, ◌≤◌, ◌<◌, ◌≡◌, ◌≢◌, ◌⊎◌, ◌↔◌, inl, inr, refl, sym, ap, ◌∙◌, subst, Bool,
  true, false, ◌||◌, some, ◌==◌, ==_iff, Bool-cases, arith,
}
use distributedsim.Rng.{u64}
use distributedsim.Cuckoo.{
  bucket_size, missing, hash_1, hash_2, CuckooSet, new_set, insert, count, size,
}
use distributedsim.Cuckoo.Slots.{slot}
use distributedsim.Cuckoo.Keys.{IsTable, holds, first, second, count_lem}
use distributedsim.Cuckoo.Content.{Has, IsFilled}
use distributedsim.Cuckoo.Grow.{IsGrown, Inserts, empty-IsFilled}
use distributedsim.Cuckoo.Insert.{insert_into-Inserts}

-- A set with a mask of `digits` ones, whose keys are in their buckets.
pub record IsCuckoo (s : CuckooSet) : Type 0 where
  pub digits : ℕ
  pub mask : s.mask + 1 ≡ 2 ^ digits
  pub bounded : digits ≤ 30
  pub filled : IsFilled s.mask s.ht

pub new_set-IsCuckoo : IsCuckoo new_set
new_set-IsCuckoo = record {
  digits = 0;
  mask = refl;
  bounded = omega arith;
  filled = empty-IsFilled 0;
}

-- The four tests of `holds`.
some_test :
    (a b c d : Bool)
    → ((a || b) || ((c || d) || false)) ≡ true
    → (a ≡ true) ⊎ (b ≡ true) ⊎ (c ≡ true) ⊎ (d ≡ true)
some_test true b c d h = inl refl
some_test false true c d h = inr (inl refl)
some_test false false true d h = inr (inr (inl refl))
some_test false false false d h = ground arith

test_some :
    (a b c d : Bool)
    → (a ≡ true) ⊎ (b ≡ true) ⊎ (c ≡ true) ⊎ (d ≡ true)
    → ((a || b) || ((c || d) || false)) ≡ true
test_some a b c d h = ground arith

-- The two slots of a bucket.
bucket_slots : (i h : ℕ) → i / 2 ≡ h → (i ≡ h * bucket_size) ⊎ (i ≡ h * bucket_size + 1)
bucket_slots i h e = omega arith

module _ (s : CuckooSet) (ok : IsCuckoo s) where
  pub cuckoo-IsTable : IsTable s
  cuckoo-IsTable =
      let power : 2 ^ ok.digits ≤ 2 ^ 30 = pow-le-pow_right (omega arith) ok.bounded in
      record { long = ok.filled.long; small = omega (arith, ok.mask) }

  pub holds-true : (x : ℕ) → x ≢ missing → Has s.ht x → holds s x ≡ true
  holds-true x present (i, e) =
      test_some _ _ _ _ (elim (ok.filled.placed i (λ n. present (sym e ∙ n))) [
        | inl h ↦ elim (bucket_slots i _ (h ∙ ap (hash_1 s.mask) e)) [
          | inl p ↦ inl (at p)
          | inr p ↦ inr (inr (inl (at p)))
        ]
        | inr h ↦ elim (bucket_slots i _ (h ∙ ap (hash_2 s.mask) e)) [
          | inl p ↦ inr (inl (at p))
          | inr p ↦ inr (inr (inr (at p)))
        ]
      ])
    where
      at : {j : ℕ} → i ≡ j → (slot s.ht j == x) ≡ true
      at p = (==_iff _ x).1 (ap (slot s.ht) (sym p) ∙ e)

  Has-holds : (x : ℕ) → holds s x ≡ true → Has s.ht x
  Has-holds x h = elim (some_test _ _ _ _ h) [
    | inl p ↦ (first s x, (==_iff _ x).0 p)
    | inr (inl p) ↦ (second s x, (==_iff _ x).0 p)
    | inr (inr (inl p)) ↦ (first s x + 1, (==_iff _ x).0 p)
    | inr (inr (inr p)) ↦ (second s x + 1, (==_iff _ x).0 p)
  ]

  -- count finds exactly the members.
  pub count_cases :
      (x : ℕ)
      → x ≢ missing
      → ((count x s ≡ some true) × Has s.ht x)
        ⊎ ((count x s ≡ some false) × ((i : ℕ) → slot s.ht i ≢ x))
  count_cases x present =
      let found = count_lem s x cuckoo-IsTable in
      elim (Bool-cases (holds s x)) [
        | inl h ↦ inl (found ∙ ap some h, Has-holds x h)
        | inr n ↦ inr (found ∙ ap some n, λ i e. (let h = holds-true x present (i, e) in cc))
      ]

-- What insert leaves: the key is a member besides those that were.
pub record IsInserted (k : ℕ) (s s' : CuckooSet) : Type 0 where
  pub cuckoo : IsCuckoo s'
  pub members : (x : ℕ) → x ≢ missing → Has s'.ht x ↔ ((x ≡ k) ⊎ Has s.ht x)

module _ (fuel k : ℕ) (s : CuckooSet) (ok : IsCuckoo s) (key : k < 2 ^ 30)
    (enough : 31 ≤ fuel) where
  pub insert_cases :
      (s' : CuckooSet) × (insert fuel k s ≡ some s')
      × IsInserted k s s'
      × (((count k s ≡ some true) × Has s.ht k × (size s' ≡ size s))
          ⊎ ((count k s ≡ some false) × ((i : ℕ) → slot s.ht i ≢ k) × (size s' ≡ u64 (size s + 1))))
  unfolding insert Inserts
  insert_cases = elim (count_cases s ok k (λ e. omega (arith, e))) [
    | inl (e, there) ↦ (
      s,
      rw e refl,
      record {
        cuckoo = ok;
        members =
            λ x present. (inr, λ h. elim h [ inl p ↦ subst (Has s.ht) (sym p) there | inr q ↦ q ]);
      },
      inl (e, there, refl),
    )
    | inr (e, free) ↦
        let grown : IsGrown ok.digits s.mask s.ht ok.digits = record {
          mask = ok.mask;
          larger = omega arith;
          bounded = ok.bounded;
          filled = ok.filled;
        } in
        let (m', t', j', done, grown', same) =
          insert_into-Inserts fuel 0 (omega arith) ok.digits s.mask k s.ht (omega arith) grown key
            free in
        (
          record { ht = t'; mask = m'; sz = u64 (s.sz + 1) },
          rw (e, done) refl,
          record {
            cuckoo = record {
              digits = j';
              mask = grown'.mask;
              bounded = grown'.bounded;
              filled = grown'.filled;
            };
            members = λ x present. (
              (λ h. (same x present).1 (inr h)),
              (λ h. elim ((same x present).0 h) [ inl n ↦ absurd (present n) | inr there ↦ there ]),
            );
          },
          inr (e, free, refl),
        )
  ]
