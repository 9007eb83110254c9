-- ===== src/Cuckoo/Calls.antt =====
-- insert and erase of include/cuckoo.hpp keep a hash set and its abstract set together.
use native.Mathlib.Decide.{ℕ_discrete}
use distributedsim.Base.{
  ne→==, ℕ, ◌+◌, ◌^◌, ◌≤◌, ◌<◌, ◌≡◌, ◌≢◌, inl, inr, refl, sym, ap, ◌∙◌, true, false, some, List, [],
  ◌∷◌, length, Bool-cases, arith,
}
use distributedsim.Rng.{u64}
use distributedsim.Cuckoo.{missing, CuckooSet, new_set, insert, count, size, erase}
use distributedsim.Cuckoo.Slots.{slot}
use distributedsim.Cuckoo.Content.{Has}
use distributedsim.Cuckoo.Evict.{small-ne-missing}
use distributedsim.Cuckoo.Members.{IsInserted, insert_cases}
use distributedsim.Cuckoo.Removed.{IsRemoved, IsRemoved-cases}
use distributedsim.Base.{All}
use distributedsim.Cuckoo.Sets.{
  Call, add, remove, perform_all, is_member, without, apply, apply_all, key_of,
  is_member-without_other, is_member-without_self, Once-without, length-without_there,
  length-without_free, Refines, new_set-Refines, count-Refines,
}

module _ (s : CuckooSet) (keys : List ℕ) (k : ℕ) (r : Refines s keys) where
  -- A key without a slot is not in the abstract set.
  is_member_free : k ≢ missing → ((i : ℕ) → slot s.ht i ≢ k) → is_member k keys ≡ false
  is_member_free present free = elim (Bool-cases (is_member k keys)) [
    | inl h ↦ (let (i, there) = (r.members k present).1 h in absurd (free i there))
    | inr n ↦ n
  ]

  module _ (s' : CuckooSet) (inserted : IsInserted k s s') (key : k ≢ missing) where
    added_again : Has s.ht k → size s' ≡ size s → Refines s' (apply (add k) keys)
    added_again there same =
        let old = (r.members k key).0 there in
        rw old (record {
          cuckoo = inserted.cuckoo;
          once = r.once;
          real = r.real;
          members = λ x present. (
            (λ h. elim ((inserted.members x present).0 h) [
              | inl e ↦ (let there' : is_member x keys ≡ true = rw e old in there')
              | inr h' ↦ (r.members x present).0 h'
            ]),
            (λ h. (inserted.members x present).1 (inr ((r.members x present).1 h))),
          );
          counted = same ∙ r.counted;
        })

    added_new :
        ((i : ℕ) → slot s.ht i ≢ k)
        → size s' ≡ u64 (size s + 1)
        → length keys + 1 < 2 ^ 64
        → Refines s' (apply (add k) keys)
    added_new free more short =
        let new = is_member_free key free in
        rw new (record {
          cuckoo = inserted.cuckoo;
          once = (new, r.once);
          real = rw (ne→== k missing key) r.real;
          members = λ x present. (
            (λ h. elim ((inserted.members x present).0 h) [
              | inl e ↦ ground (arith)
              | inr h' ↦ (let old = (r.members x present).0 h' in ground (arith))
            ]),
            (λ h. (inserted.members x present).1 (elim (ℕ_discrete x k) [
              | yes e ↦ inl e
              | no n ↦ inr ((r.members x present).1 (ground (arith)))
            ])),
          );
          counted = omega (arith, more, r.counted);
        })

  module _ (s' : CuckooSet) (removed : IsRemoved k s s') (key : k ≢ missing) where
    removed-Refines : size s' ≡ length (without k keys) → Refines s' (without k keys)
    removed-Refines counted = record {
      cuckoo = removed.cuckoo;
      once = Once-without k keys r.once;
      real = is_member-without_other k missing keys (λ e. key (sym e)) ∙ r.real;
      members = λ x present. (
        (λ h.
            (let (n, there) = (removed.members x present).0 h in
              is_member-without_other k x keys n ∙ (r.members x present).0 there)),
        (λ h. elim (ℕ_discrete x k) [
          | yes e ↦
              let gone = is_member-without_self k keys r.once in
              (let same : is_member x (without k keys) ≡ false = rw e gone in cc)
          | no n ↦
              (removed.members x present).1
                (n, (r.members x present).1 (sym (is_member-without_other k x keys n) ∙ h))
        ]),
      );
      counted = counted;
    }

  insert-Refines :
      (fuel : ℕ)
      → 31 ≤ fuel
      → k < 2 ^ 30
      → length keys + 1 < 2 ^ 64
      → (s' : CuckooSet) × (insert fuel k s ≡ some s') × Refines s' (apply (add k) keys)
  insert-Refines fuel enough small short =
      let key = small-ne-missing k small in
      let (s', e, inserted, result) = insert_cases fuel k s r.cuckoo small enough in
      (
        s',
        e,
        elim result [
          | inl (found, there, same) ↦ added_again s' inserted key there same
          | inr (found, free, more) ↦ added_new s' inserted key free more short
        ],
      )

  erase-Refines :
      k < 2 ^ 30
      → length keys + 1 < 2 ^ 64
      → (s' : CuckooSet) × (erase k s ≡ some s') × Refines s' (without k keys)
  erase-Refines small short =
      let key = small-ne-missing k small in
      let (s', e, removed, result) = IsRemoved-cases k s r.cuckoo key in
      (
        s',
        e,
        removed-Refines s' removed key (elim result [
          | inl (there, less) ↦
              let one = length-without_there k keys ((r.members k key).0 there) in
              omega (arith, less, one, r.counted)
          | inr (free, same) ↦
              same
              ∙ (r.counted ∙ ap length (sym (length-without_free k keys (is_member_free key free))))
        ]),
      )

pub length-apply : (c : Call) (keys : List ℕ) → length (apply c keys) ≤ length keys + 1
length-apply (add k) keys = ground arith
length-apply (remove k) [] = omega arith
length-apply (remove k) (x ∷ keys) = ground (arith, length-apply (remove k) keys)

pub perform_all-Refines :
    (fuel : ℕ) (cs : List Call) (s : CuckooSet) (keys : List ℕ)
    → 31 ≤ fuel
    → All (λ c. key_of c < 2 ^ 30) cs
    → length keys + length cs < 2 ^ 64
    → Refines s keys
    → (s' : CuckooSet) × (perform_all fuel cs s ≡ some s') × Refines s' (apply_all cs keys)
perform_all-Refines fuel [] s keys enough small short r = (s, refl, r)
perform_all-Refines fuel (add k ∷ cs) s keys enough small short r =
    let (s1, e1, r1) = insert-Refines s keys k r fuel enough small.0 (omega arith) in
    let (s', e, r') =
      perform_all-Refines fuel cs s1 (apply (add k) keys) enough small.1
        (omega (arith, length-apply (add k) keys)) r1 in
    (s', rw e1 e, r')
perform_all-Refines fuel (remove k ∷ cs) s keys enough small short r =
    let (s1, e1, r1) = erase-Refines s keys k r small.0 (omega arith) in
    let (s', e, r') =
      perform_all-Refines fuel cs s1 (apply (remove k) keys) enough small.1
        (omega (arith, length-apply (remove k) keys)) r1 in
    (s', rw e1 e, r')

-- However insert and erase are called on an empty hash set with keys below 2 ^ 30, fewer than
-- 2 ^ 64 times, every call returns, with fuel for 31 nested rehashes: no access is out of bounds.
-- Afterwards count answers as the set does that the same calls make of the empty set, and the size
-- is the number of its elements.
pub perform_all_lem :
    (fuel : ℕ) (cs : List Call) (x : ℕ)
    → 31 ≤ fuel
    → All (λ c. key_of c < 2 ^ 30) cs
    → length cs < 2 ^ 64
    → x ≢ missing
    → (s : CuckooSet) × (perform_all fuel cs new_set ≡ some s)
      × (count x s ≡ some (is_member x (apply_all cs [])))
      × (size s ≡ length (apply_all cs []))
perform_all_lem fuel cs x enough small short present =
    let (s, e, r) =
      perform_all-Refines fuel cs new_set [] enough small (omega arith) new_set-Refines in
    (s, e, count-Refines s (apply_all cs []) x r present, r.counted)
