-- ===== src/Cuckoo/Copied.antt =====
-- The copy constructor of include/cuckoo.hpp.
use distributedsim.Base.{
  ℕ, zero, suc, ◌+◌, ◌*◌, ◌/◌, ◌^◌, ◌≤◌, ◌<◌, ◌≡◌, ◌≢◌, inl, inr, refl, sym, ap, subst, ◌∙◌, true,
  some, List, [], ◌∷◌, length, ◌==◌, ==_iff, ==_ne, ltb, ltb→lt, ltb→le, Bool-cases, All, arith,
}
use distributedsim.Cuckoo.{
  missing, CuckooSet, new_set, capacity, bucket_size, count, copied, copy, equals,
}
use distributedsim.Cuckoo.Slots.{slot}
use distributedsim.Cuckoo.Keys.{IsDistinct}
use distributedsim.Cuckoo.Content.{IsHome, IsFilled}
use distributedsim.Cuckoo.Evict.{IsHome-le}
use distributedsim.Cuckoo.Members.{cuckoo-IsTable}
use distributedsim.Cuckoo.Sets.{
  Call, key_of, perform_all, apply, apply_all, is_member, Refines, new_set-Refines, count-Refines,
}
use distributedsim.Cuckoo.Calls.{perform_all-Refines, length-apply}
use distributedsim.Cuckoo.Equal.{equals-Refines}

-- The slots that are copied hold the same, and there are no others.
copied-slot :
    (t : List ℕ) (n : ℕ)
    → n ≤ length t
    → (t' : List ℕ) × (copied t n ≡ some t')
      × (length t' ≡ n)
      × ((i : ℕ) → i < n → slot t' i ≡ slot t i)
      × ((i : ℕ) → n ≤ i → slot t' i ≡ missing)
copied-slot t zero h = ([], refl, refl, (λ i lt. absurd (omega arith)), (λ i le. refl))
copied-slot [] (suc n) h = absurd (omega arith)
copied-slot (x ∷ t) (suc n) h =
    let (t', e, long, inside, outside) = copied-slot t n (omega arith) in
    (x ∷ t', rw e refl, omega (arith, long), same t' inside, none_there t' outside)
  where
    same :
        (t' : List ℕ)
        → ((i : ℕ) → i < n → slot t' i ≡ slot t i)
        → (i : ℕ) → i < suc n
        → slot (x ∷ t') i ≡ slot (x ∷ t) i
    same t' inside zero lt = refl
    same t' inside (suc i) lt = inside i (omega arith)

    none_there :
        (t' : List ℕ)
        → ((i : ℕ) → n ≤ i → slot t' i ≡ missing)
        → (i : ℕ) → suc n ≤ i
        → slot (x ∷ t') i ≡ missing
    none_there t' outside zero le = absurd (omega arith)
    none_there t' outside (suc i) le = outside i (omega arith)

-- A table whose slots hold the same keys is filled in the same way.
same-IsFilled :
    (m : ℕ) (t t' : List ℕ)
    → IsFilled m t
    → (m + 1) * bucket_size ≤ length t'
    → ((i : ℕ) → slot t' i ≡ slot t i)
    → IsFilled m t'
unfolding IsDistinct
same-IsFilled m t t' filled long same = record {
  long = long;
  distinct = λ i j present e.
      filled.distinct i j (λ gone. present (same i ∙ gone)) (sym (same i) ∙ (e ∙ same j));
  placed = λ i present.
      subst (λ x. IsHome m x (i / 2)) (sym (same i))
        (filled.placed i (λ gone. present (same i ∙ gone)));
  small = λ i present.
      subst (λ x. x < 2 ^ 30) (sym (same i)) (filled.small i (λ gone. present (same i ∙ gone)));
}

-- A copy stands for the same set.
copy-Refines :
    (s : CuckooSet) (keys : List ℕ)
    → Refines s keys
    → (s' : CuckooSet) × (copy s ≡ some s') × Refines s' keys
unfolding copy
copy-Refines s keys r =
    let table = cuckoo-IsTable s r.cuckoo in
    let (t', e, long, inside, outside) =
      copied-slot s.ht (capacity s) (omega (arith, table.long, table.small)) in
    let same : (i : ℕ) → slot t' i ≡ slot s.ht i = λ i. elim (Bool-cases (ltb i (capacity s))) [
      | inl lt ↦ inside i (ltb→lt i (capacity s) lt)
      | inr ge ↦ elim (Bool-cases (slot s.ht i == missing)) [
        | inl gone ↦
            outside i (ltb→le i (capacity s) ge) ∙ sym ((==_iff (slot s.ht i) missing).0 gone)
        | inr there ↦
            let home = r.cuckoo.filled.placed i (==_ne (slot s.ht i) missing there) in
            absurd (
              omega (
                arith,
                IsHome-le s.mask (slot s.ht i) (i / 2) home,
                ltb→le i (capacity s) ge,
                table.small,
              ))
      ]
    ] in
    (
      record { ht = t'; mask = s.mask; sz = s.sz },
      rw e refl,
      record {
        cuckoo = record {
          digits = r.cuckoo.digits;
          mask = r.cuckoo.mask;
          bounded = r.cuckoo.bounded;
          filled =
              same-IsFilled s.mask s.ht t' r.cuckoo.filled (omega (arith, long, table.small)) same;
        };
        once = r.once;
        real = r.real;
        members = λ x present. (
          (λ h. (let (i, here) = h in (r.members x present).0 (i, sym (same i) ∙ here))),
          (λ h. (let (i, here) = (r.members x present).1 h in (i, same i ∙ here))),
        );
        counted = r.counted;
      },
    )

length-apply_all :
    (cs : List Call) (keys : List ℕ) → length (apply_all cs keys) ≤ length keys + length cs
length-apply_all [] keys = omega arith
length-apply_all (c ∷ cs) keys =
    omega (arith, length-apply c keys, length-apply_all cs (apply c keys))

-- A copy of a hash set that any calls of insert and erase made is equal to it, and goes on as the set that it
-- stands for, whatever further calls are made of the copy: all of them return, no access is out of bounds, and
-- count answers as the set does that all these calls make of the empty set. The keys are below 2 ^ 30, the calls
-- together fewer than 2 ^ 64, and there is fuel for 31 nested rehashes.
pub copy_lem :
    (fuel : ℕ) (cs ds : List Call) (x : ℕ)
    → 31 ≤ fuel
    → All (λ c. key_of c < 2 ^ 30) cs
    → All (λ c. key_of c < 2 ^ 30) ds
    → length cs + length ds < 2 ^ 64
    → x ≢ missing
    → (s s' s'' : CuckooSet) × (perform_all fuel cs new_set ≡ some s)
      × (copy s ≡ some s')
      × (equals s s' ≡ some true)
      × (perform_all fuel ds s' ≡ some s'')
      × (count x s'' ≡ some (is_member x (apply_all ds (apply_all cs []))))
copy_lem fuel cs ds x enough small small' short present =
    let keys = apply_all cs [] in
    let (s, made, r) =
      perform_all-Refines fuel cs new_set [] enough small (omega arith) new_set-Refines in
    let (s', copied_is, r') = copy-Refines s keys r in
    let (b, compared, means) = equals-Refines s s' keys keys r r' in
    let (s'', further, r'') =
      perform_all-Refines fuel ds s' keys enough small' (omega (arith, length-apply_all cs []))
        r' in
    (
      s,
      s',
      s'',
      made,
      copied_is,
      compared ∙ ap some (means.1 (λ k. refl)),
      further,
      count-Refines s'' (apply_all ds keys) x r'' present,
    )
