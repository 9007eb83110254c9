-- ===== src/Cuckoo/Equal.antt =====
-- operator== of include/cuckoo.hpp against the sets that the two tables stand for.
use native.Mathlib.Decide.{ℕ_discrete}
use distributedsim.Base.{
  ap, All, ◌^◌, ℕ, zero, suc, ◌+◌, ◌/◌, ◌≤◌, ◌<◌, ◌≡◌, ◌≢◌, ◌↔◌, inl, inr, refl, sym, ◌∙◌, Bool,
  true, false, some, List, [], ◌∷◌, length, ◌==◌, ==_ne, ==_refl, ==_iff, Bool-cases, arith,
}
use distributedsim.Cuckoo.{missing, new_set, CuckooSet, capacity, size, contains_all, equals}
use distributedsim.Cuckoo.Slots.{slot}
use distributedsim.Cuckoo.Content.{Has}
use distributedsim.Cuckoo.Elements.{keys_from, elements_lem}
use distributedsim.Cuckoo.Evict.{IsHome-le}
use distributedsim.Cuckoo.Members.{cuckoo-IsTable}
use distributedsim.Cuckoo.Calls.{perform_all-Refines}
use distributedsim.Cuckoo.Sets.{
  Call, key_of, perform_all, apply_all, new_set-Refines, is_member, Within, length-Within,
  Within-full, Refines, count-Refines,
}

-- A key is in the iteration where a slot holds it.
is_member-keys_from :
    (left offset i : ℕ) (t : List ℕ)
    → offset ≤ i
    → i < offset + left
    → slot t i ≢ missing
    → is_member (slot t i) (keys_from left offset t) ≡ true
unfolding keys_from
is_member-keys_from zero offset i t from below present = absurd (omega arith)
is_member-keys_from (suc left) offset i t from below present =
    elim (Bool-cases (slot t offset == missing)) [
      | inl e ↦
          let apart : offset ≢ i =
            λ same. present (ap (slot t) (sym same) ∙ (==_iff (slot t offset) missing).0 e) in
          rw e (is_member-keys_from left (offset + 1) i t (omega arith) (omega arith) present)
      | inr n ↦ elim (ℕ_discrete offset i) [
        | yes same ↦
            let here = (==_iff (slot t offset) (slot t i)).1 (ap (slot t) same) in rw (n, here) refl
        | no apart ↦
            let later =
              is_member-keys_from left (offset + 1) i t (omega arith) (omega arith) present in
            elim (Bool-cases (slot t offset == slot t i)) [
              | inl q ↦ rw (n, q) refl
              | inr q ↦ rw (n, q) later
            ]
      ]
    ]

keys_from-Has :
    (left offset k : ℕ) (t : List ℕ)
    → is_member k (keys_from left offset t) ≡ true
    → (k ≢ missing) × Has t k
unfolding keys_from
keys_from-Has zero offset k t h = cc
keys_from-Has (suc left) offset k t h = elim (Bool-cases (slot t offset == missing)) [
  | inl e ↦ keys_from-Has left (offset + 1) k t (rw e at h)
  | inr n ↦ elim (Bool-cases (slot t offset == k)) [
    | inl q ↦
        let here = (==_iff (slot t offset) k).0 q in
        ((λ gone. ==_ne (slot t offset) missing n (here ∙ gone)), (offset, here))
    | inr q ↦ keys_from-Has left (offset + 1) k t (rw (n, q) at h)
  ]
]

is_member-cons : (k j : ℕ) (ks : List ℕ) → is_member j ks ≡ true → is_member j (k ∷ ks) ≡ true
is_member-cons k j ks h = ground arith

-- The loop of operator== over a list of keys.
contains_all_lem :
    (s : CuckooSet) (xs : List ℕ)
    → Refines s xs
    → (ks : List ℕ) → ((k : ℕ) → is_member k ks ≡ true → k ≢ missing)
    → (b : Bool) × (contains_all ks s ≡ some b) × ((b ≡ true) ↔ Within xs ks)
unfolding contains_all
contains_all_lem s xs r [] present = (true, refl, ((λ e k h. cc), (λ sub. refl)))
contains_all_lem s xs r (k ∷ ks) present =
    let (b, e, means) = contains_all_lem s xs r ks (λ j h. present j (is_member-cons k j ks h)) in
    let head : is_member k (k ∷ ks) ≡ true = rw (==_refl k) refl in
    let found = count-Refines s xs k r (present k head) in
    rw (found, e)
      (elim (Bool-cases (is_member k xs)) [
        | inl there ↦ rw there (
          b,
          refl,
          (
            (λ yes_all j h. elim (Bool-cases (k == j)) [
              | inl same ↦ (let k_is = (==_iff k j).0 same in cc)
              | inr n ↦ means.0 yes_all j (rw n at h)
            ]),
            (λ sub. means.1 (λ j h. sub j (is_member-cons k j ks h))),
          ),
        )
        | inr free ↦ rw free (false, refl, ((λ h. cc), (λ sub. (let there = sub k head in cc))))
      ])

module _ (s : CuckooSet) (xs : List ℕ) (r : Refines s xs) where
  abbrev keys : List ℕ
  keys = keys_from (capacity s) 0 s.ht

  keys-present : (k : ℕ) → is_member k keys ≡ true → k ≢ missing
  keys-present k h = (keys_from-Has (capacity s) 0 k s.ht h).0

  -- An iteration gives the keys of the abstract set.
  is_member-keys : (k : ℕ) → (is_member k keys ≡ true) ↔ (is_member k xs ≡ true)
  is_member-keys k = (
    (λ h.
        let (present, there) = keys_from-Has (capacity s) 0 k s.ht h in
        (r.members k present).0 there),
    (λ h.
        let present : k ≢ missing = λ e. (let real = r.real in cc) in
        let (i, here) = (r.members k present).1 h in
        let full : slot s.ht i ≢ missing = λ e. present (sym here ∙ e) in
        let home = IsHome-le s.mask (slot s.ht i) (i / 2) (r.cuckoo.filled.placed i full) in
        let small = (cuckoo-IsTable s r.cuckoo).small in
        ap (λ x. is_member x (keys_from (capacity s) 0 s.ht)) (sym here)
        ∙ is_member-keys_from (capacity s) 0 i s.ht (omega arith) (omega arith) full),
  )

both_ways : (a b : Bool) → (a ≡ true → b ≡ true) → (b ≡ true → a ≡ true) → a ≡ b
both_ways true b to from = sym (to refl)
both_ways false true to from = from refl
both_ways false false to from = refl

-- Two hash sets that stand for two sets are equal exactly when the sets have the same members.
pub equals-Refines :
    (s t : CuckooSet) (xs ys : List ℕ)
    → Refines s xs
    → Refines t ys
    → (b : Bool) × (equals s t ≡ some b)
      × ((b ≡ true) ↔ ((k : ℕ) → is_member k xs ≡ is_member k ys))
unfolding equals
equals-Refines s t xs ys r q =
    let (b, e, means) = contains_all_lem s xs r (keys t ys q) (keys-present t ys q) in
    let listed = elements_lem t (cuckoo-IsTable t q.cuckoo) in
    elim (Bool-cases (size t == size s)) [
      | inl same ↦
          let as_many : size t ≡ size s = (==_iff (size t) (size s)).0 same in
          rw (same, listed, e)
            (
              b,
              refl,
              (
                (λ yes_all k.
                    let sub : Within xs ys =
                      λ j h. means.0 yes_all j ((is_member-keys t ys q j).1 h) in
                    both_ways (is_member k xs) (is_member k ys)
                      (Within-full xs ys q.once sub (omega (arith, as_many, r.counted, q.counted))
                        k)
                      (sub k)),
                (λ alike. means.1 (λ j h. alike j ∙ (is_member-keys t ys q j).0 h)),
              ),
            )
      | inr n ↦ rw n (
        false,
        refl,
        (
          (λ h. cc),
          (λ alike.
              let less = length-Within xs ys q.once (λ k h. alike k ∙ h) in
              let more = length-Within ys xs r.once (λ k h. sym (alike k) ∙ h) in
              absurd (==_ne (size t) (size s) n (omega (arith, r.counted, q.counted)))),
        ),
      )
    ]

-- Two hash sets that any calls of insert and erase made, with keys below 2 ^ 30, fewer than 2 ^ 64
-- calls each and fuel for 31 nested rehashes: operator== returns, no access is out of bounds, and it
-- says whether the two sets that the same calls make of the empty set have the same elements, in
-- whatever order and in tables of whatever size the keys stand.
pub equals_lem :
    (fuel : ℕ) (cs ds : List Call)
    → 31 ≤ fuel
    → All (λ c. key_of c < 2 ^ 30) cs
    → All (λ c. key_of c < 2 ^ 30) ds
    → length cs < 2 ^ 64
    → length ds < 2 ^ 64
    → (s t : CuckooSet) × (b : Bool) × (perform_all fuel cs new_set ≡ some s)
      × (perform_all fuel ds new_set ≡ some t)
      × (equals s t ≡ some b)
      × ((b ≡ true) ↔ ((k : ℕ) → is_member k (apply_all cs []) ≡ is_member k (apply_all ds [])))
equals_lem fuel cs ds enough small small' short short' =
    let (s, e, r) =
      perform_all-Refines fuel cs new_set [] enough small (omega arith) new_set-Refines in
    let (t, f, q) =
      perform_all-Refines fuel ds new_set [] enough small' (omega arith) new_set-Refines in
    let (b, g, means) = equals-Refines s t (apply_all cs []) (apply_all ds []) r q in
    (s, t, b, e, f, g, means)
