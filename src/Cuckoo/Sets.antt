-- ===== src/Cuckoo/Sets.antt =====
-- The hash set of include/cuckoo.hpp against a set that is a list of keys: any calls of insert and erase.
use distributedsim.Base.{
  ◌≤◌, ==_refl, ==_iff, ℕ, ◌+◌, ◌≡◌, ◌≢◌, ◌↔◌, inl, inr, refl, sym, ◌∙◌, Bool, true, false, ◌||◌,
  Option, some, List, [], ◌∷◌, length, if◌then◌else◌, ◌==◌, ◌>>=◌, ==_ne, Bool-cases, arith,
}
use distributedsim.Cuckoo.{missing, CuckooSet, new_set, insert, count, size, erase}
use distributedsim.Cuckoo.Content.{Has}
use distributedsim.Cuckoo.Grow.{slot-replicate}
use distributedsim.Cuckoo.Members.{IsCuckoo, new_set-IsCuckoo, count_cases}

-- The calls of the public interface that change the keys.
pub data Call : Type 0 where
  add : ℕ → Call
  remove : ℕ → Call

-- A call, and a sequence of calls. The fuel bounds the nested rehashes of one insert.
abbrev pub perform : ℕ → Call → CuckooSet → Option CuckooSet
perform fuel (add k) s = insert fuel k s
perform fuel (remove k) s = erase k s

abbrev pub perform_all : ℕ → List Call → CuckooSet → Option CuckooSet
perform_all fuel [] s = some s
perform_all fuel (c ∷ cs) s = do s' ← perform fuel c s; perform_all fuel cs s'

-- The abstract set: the list of its keys.
abbrev pub is_member : ℕ → List ℕ → Bool
is_member k [] = false
is_member k (x ∷ xs) = (x == k) || is_member k xs

abbrev pub without : ℕ → List ℕ → List ℕ
without k [] = []
without k (x ∷ xs) = if x == k then xs else x ∷ without k xs

abbrev pub apply : Call → List ℕ → List ℕ
apply (add k) xs = if is_member k xs then xs else k ∷ xs
apply (remove k) xs = without k xs

abbrev pub apply_all : List Call → List ℕ → List ℕ
apply_all [] xs = xs
apply_all (c ∷ cs) xs = apply_all cs (apply c xs)

abbrev pub key_of : Call → ℕ
key_of (add k) = k
key_of (remove k) = k

-- No key stands twice in the list.
abbrev pub Once : List ℕ → Type 0
Once [] = Unit
Once (x ∷ xs) = (is_member x xs ≡ false) × Once xs

pub is_member-without_other :
    (k y : ℕ) (xs : List ℕ) → y ≢ k → is_member y (without k xs) ≡ is_member y xs
is_member-without_other k y [] n = refl
is_member-without_other k y (x ∷ xs) n = ground (arith, is_member-without_other k y xs n)

pub is_member-without_self : (k : ℕ) (xs : List ℕ) → Once xs → is_member k (without k xs) ≡ false
is_member-without_self k [] once = refl
is_member-without_self k (x ∷ xs) once = ground (arith, is_member-without_self k xs once.1)

pub Once-without : (k : ℕ) (xs : List ℕ) → Once xs → Once (without k xs)
Once-without k [] once = tt
Once-without k (x ∷ xs) once = elim (Bool-cases (x == k)) [
  | inl e ↦ rw e once.1
  | inr n ↦ rw n (is_member-without_other k x xs (==_ne x k n) ∙ once.0, Once-without k xs once.1)
]

pub length-without_there :
    (k : ℕ) (xs : List ℕ) → is_member k xs ≡ true → length (without k xs) + 1 ≡ length xs
length-without_there k [] h = cc
length-without_there k (x ∷ xs) h = ground (arith, length-without_there k xs)

pub length-without_free : (k : ℕ) (xs : List ℕ) → is_member k xs ≡ false → without k xs ≡ xs
length-without_free k [] h = refl
length-without_free k (x ∷ xs) h = ground (arith, length-without_free k xs)

-- All keys of the second list are in the first one.
abbrev pub Within : List ℕ → List ℕ → Type 0
Within xs ys = (k : ℕ) → is_member k ys ≡ true → is_member k xs ≡ true

-- The rest of a list without repetitions is in the other list without its head.
Within-without :
    (xs : List ℕ) (y : ℕ) (ys : List ℕ)
    → Once (y ∷ ys)
    → Within xs (y ∷ ys)
    → Within (without y xs) ys
Within-without xs y ys once sub k h = elim (Bool-cases (y == k)) [
  | inl e ↦ (let o = once.0 in let same = (==_iff y k).0 e in cc)
  | inr n ↦ is_member-without_other y k xs (λ e. ==_ne y k n (sym e)) ∙ sub k (rw (n, h) refl)
]

pub length-Within : (xs ys : List ℕ) → Once ys → Within xs ys → length ys ≤ length xs
length-Within xs [] once sub = omega arith
length-Within xs (y ∷ ys) once sub =
    let fewer = length-without_there y xs (sub y (rw (==_refl y) refl)) in
    omega (arith, fewer, length-Within (without y xs) ys once.1 (Within-without xs y ys once sub))

-- A set within one that is not larger is that one.
pub Within-full : (xs ys : List ℕ) → Once ys → Within xs ys → length xs ≤ length ys → Within ys xs
Within-full [] [] once sub short k h = h
Within-full (x ∷ xs) [] once sub short k h = absurd (omega arith)
Within-full xs (y ∷ ys) once sub short k h =
    let fewer = length-without_there y xs (sub y (rw (==_refl y) refl)) in
    elim (Bool-cases (y == k)) [
      | inl e ↦ rw e refl
      | inr n ↦
          let there = is_member-without_other y k xs (λ e. ==_ne y k n (sym e)) ∙ h in
          rw
            (
              n,
              Within-full (without y xs) ys once.1 (Within-without xs y ys once sub) (omega arith) k
                  there,
            )
            refl
    ]

-- The hash set stands for the abstract set.
pub record Refines (s : CuckooSet) (keys : List ℕ) : Type 0 where
  pub cuckoo : IsCuckoo s
  pub once : Once keys
  pub real : is_member missing keys ≡ false
  pub members : (x : ℕ) → x ≢ missing → Has s.ht x ↔ (is_member x keys ≡ true)
  pub counted : size s ≡ length keys

pub new_set-Refines : Refines new_set []
new_set-Refines = record {
  cuckoo = new_set-IsCuckoo;
  once = tt;
  real = refl;
  members = λ x present.
      ((λ h. (let (i, e) = h in absurd (present (sym e ∙ slot-replicate 2 i)))), (λ h. cc));
  counted = refl;
}

pub count-Refines :
    (s : CuckooSet) (keys : List ℕ) (x : ℕ)
    → Refines s keys
    → x ≢ missing
    → count x s ≡ some (is_member x keys)
count-Refines s keys x r present = elim (count_cases s r.cuckoo x present) [
  | inl (e, there) ↦ rw ((r.members x present).0 there) e
  | inr (e, free) ↦ elim (Bool-cases (is_member x keys)) [
    | inl h ↦ (let (i, there) = (r.members x present).1 h in absurd (free i there))
    | inr n ↦ rw n e
  ]
]
