-- ===== src/Cuckoo/Removed.antt =====
-- What erase of include/cuckoo.hpp does to the members of a set.
use native.Mathlib.Decide.{ℕ_discrete}
use distributedsim.Base.{
  ℕ, ◌+◌, ◌-◌, ◌/◌, ◌^◌, ◌<◌, ◌≡◌, ◌≢◌, ◌⊎◌, ◌↔◌, inl, inr, refl, sym, ap, ◌∙◌, subst, some, List,
  length, length-set, set, arith,
}
use distributedsim.Rng.{u64}
use distributedsim.Cuckoo.{missing, CuckooSet, size, erase}
use distributedsim.Cuckoo.Slots.{slot, slot-set, slot-set_other}
use distributedsim.Cuckoo.Keys.{IsDistinct, erase_cases, Outcome, emptied, emptied-IsDistinct}
use distributedsim.Cuckoo.Content.{Has, IsHome, IsFilled}
use distributedsim.Cuckoo.Members.{IsCuckoo, cuckoo-IsTable, holds-true}

module _ (m : ℕ) (t : List ℕ) (k at : ℕ) (filled : IsFilled m t) (short : at < length t)
    (there : slot t at ≡ k) (key : k ≢ missing) where
  -- What every slot holds after the key has been taken out.
  out_cases :
      (i : ℕ)
      → (slot (set t at missing) i ≡ missing) ⊎ ((at ≢ i) × (slot (set t at missing) i ≡ slot t i))
  out_cases i = elim (ℕ_discrete at i) [
    | yes same ↦ inl (ap (slot (set t at missing)) (sym same) ∙ slot-set t at missing short)
    | no n ↦ inr (n, slot-set_other t at i missing n)
  ]

  out-IsFilled : IsFilled m (set t at missing)
  out-IsFilled = record {
    long = omega (arith, filled.long, length-set t at missing);
    distinct = emptied-IsDistinct t at k short there key filled.distinct;
    placed = λ i present. elim (out_cases i) [
      | inl gone ↦ absurd (present gone)
      | inr (n, e) ↦
          subst (λ x. IsHome m x (i / 2)) (sym e) (filled.placed i (λ q. present (e ∙ q)))
    ];
    small = λ i present. elim (out_cases i) [
      | inl gone ↦ absurd (present gone)
      | inr (n, e) ↦ subst (λ x. x < 2 ^ 30) (sym e) (filled.small i (λ q. present (e ∙ q)))
    ];
  }

  out_members : (x : ℕ) → x ≢ missing → Has (set t at missing) x ↔ ((x ≢ k) × Has t x)
  unfolding IsDistinct
  out_members x present = (
    λ h.
        (let (i, e) = h in
          elim (out_cases i) [
            | inl gone ↦ absurd (present (sym e ∙ gone))
            | inr (n, q) ↦
                let held : slot t i ≡ x = sym q ∙ e in
                (
                  λ same. n (
                      filled.distinct at i (λ z. key (sym there ∙ z))
                        (there ∙ (sym same ∙ sym held))),
                  (i, held),
                )
          ]),
    λ h.
        (let (ne, (i, e)) = h in
          (i, slot-set_other t at i missing (λ q. ne (sym e ∙ (ap (slot t) (sym q) ∙ there))) ∙ e)),
  )

-- What erase leaves: the members but the key.
pub record IsRemoved (k : ℕ) (s s' : CuckooSet) : Type 0 where
  pub cuckoo : IsCuckoo s'
  pub members : (x : ℕ) → x ≢ missing → Has s'.ht x ↔ ((x ≢ k) × Has s.ht x)

module _ (k : ℕ) (s : CuckooSet) (ok : IsCuckoo s) (key : k ≢ missing) where
  pub IsRemoved-cases :
      (s' : CuckooSet) × (erase k s ≡ some s')
      × IsRemoved k s s'
      × ((Has s.ht k × (size s' ≡ u64 (size s + (2 ^ 64 - 1))))
          ⊎ (((i : ℕ) → slot s.ht i ≢ k) × (size s' ≡ size s)))
  unfolding Outcome
  IsRemoved-cases = elim (erase_cases s k (cuckoo-IsTable s ok)) [
    | inl (e, none_holds) ↦
        let free : (i : ℕ) → slot s.ht i ≢ k =
          λ i there. (let found = holds-true s ok k key (i, there) in cc) in
        (
          s,
          e,
          record {
            cuckoo = ok;
            members = λ x present.
                ((λ h. ((λ same. (let (i, there) = h in free i (there ∙ same))), h)), (λ h. h.1));
          },
          inr (free, refl),
        )
    | inr (at, short, there, h, e) ↦ (
      emptied s at,
      e,
      record {
        cuckoo = record {
          digits = ok.digits;
          mask = ok.mask;
          bounded = ok.bounded;
          filled = out-IsFilled s.mask s.ht k at ok.filled short there key;
        };
        members = out_members s.mask s.ht k at ok.filled short there key;
      },
      inl ((at, there), refl),
    )
  ]
