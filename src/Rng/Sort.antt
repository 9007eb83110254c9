-- ===== src/Rng/Sort.antt =====
-- What the users of std::sort rely on: the result is ordered, as long, and has the same elements.
use mathlib.Core.List.{Perm}
use mathlib.Core.List.Perm
use distributedsim.Base.{
  ℕ, suc, ◌≤◌, ◌≡◌, refl, List, [], ◌∷◌, arith, leb, length, All, Bool-cases, inl, inr, leb→le,
  leb→lt,
}
use distributedsim.Rng.{insert_sorted, sort}

-- Every element is at least `lo`, and they do not fall.
abbrev pub IsSortedFrom : ℕ → List ℕ → Type 0
IsSortedFrom lo [] = Unit {0}
IsSortedFrom lo (x ∷ xs) = (lo ≤ x) × IsSortedFrom x xs

pub IsSortedFrom-mono :
    (lo hi : ℕ) (xs : List ℕ) → lo ≤ hi → IsSortedFrom hi xs → IsSortedFrom lo xs
IsSortedFrom-mono lo hi [] h s = tt
IsSortedFrom-mono lo hi (x ∷ xs) h s = (omega arith, s.1)

insert_sorted-IsSortedFrom :
    (lo a : ℕ) (xs : List ℕ) → lo ≤ a → IsSortedFrom lo xs → IsSortedFrom lo (insert_sorted a xs)
unfolding insert_sorted
insert_sorted-IsSortedFrom lo a [] h s = (h, tt)
insert_sorted-IsSortedFrom lo a (x ∷ xs) h s = elim (Bool-cases (leb a x)) [
  | inl le ↦ rw le (h, (leb→le a x le, s.1))
  | inr gt ↦ rw gt (s.0, insert_sorted-IsSortedFrom x a xs (omega (arith, leb→lt a x gt)) s.1)
]

pub sort-IsSortedFrom : (lo : ℕ) (xs : List ℕ) → All (λ x. lo ≤ x) xs → IsSortedFrom lo (sort xs)
unfolding sort
sort-IsSortedFrom lo [] h = tt
sort-IsSortedFrom lo (x ∷ xs) h =
    insert_sorted-IsSortedFrom lo x (sort xs) h.0 (sort-IsSortedFrom lo xs h.1)

insert_sorted-perm : (a : ℕ) (xs : List ℕ) → Perm (insert_sorted a xs) (a ∷ xs)
unfolding insert_sorted
insert_sorted-perm a [] = Perm.rfl
insert_sorted-perm a (x ∷ xs) = elim (Bool-cases (leb a x)) [
  | inl le ↦ rw le Perm.rfl
  | inr gt ↦ rw gt (Perm.trans (Perm.cons x (insert_sorted-perm a xs)) (Perm.swap a x xs))
]

-- Sorting permutes.
pub sort-perm : (xs : List ℕ) → Perm (sort xs) xs
unfolding sort
sort-perm [] = Perm.nil
sort-perm (x ∷ xs) = Perm.trans (insert_sorted-perm x (sort xs)) (Perm.cons x (sort-perm xs))

length-insert_sorted : (a : ℕ) (xs : List ℕ) → length (insert_sorted a xs) ≡ suc (length xs)
unfolding insert_sorted
length-insert_sorted a [] = refl
length-insert_sorted a (x ∷ xs) = ground (arith, length-insert_sorted a xs)

pub length-sort : (xs : List ℕ) → length (sort xs) ≡ length xs
unfolding sort
length-sort [] = refl
length-sort (x ∷ xs) = omega (arith, length-insert_sorted x (sort xs), length-sort xs)

module _ {ℓ} (P : ℕ → Type ℓ) where
  insert_sorted-All : (a : ℕ) (xs : List ℕ) → P a → All P xs → All P (insert_sorted a xs)
  unfolding insert_sorted
  insert_sorted-All a [] h hs = (h, tt)
  insert_sorted-All a (x ∷ xs) h hs = elim (Bool-cases (leb a x)) [
    | inl le ↦ rw le (h, hs)
    | inr gt ↦ rw gt (hs.0, insert_sorted-All a xs h hs.1)
  ]

  pub sort-All : (xs : List ℕ) → All P xs → All P (sort xs)
  unfolding sort
  sort-All [] h = tt
  sort-All (x ∷ xs) h = insert_sorted-All x (sort xs) h.0 (sort-All xs h.1)

  insert_sorted-All_inv : (a : ℕ) (xs : List ℕ) → All P (insert_sorted a xs) → P a × All P xs
  unfolding insert_sorted
  insert_sorted-All_inv a [] h = (h.0, tt)
  insert_sorted-All_inv a (x ∷ xs) h = elim (Bool-cases (leb a x)) [
    | inl le ↦ rw le at h
    | inr gt ↦
        (let h' : All P (x ∷ insert_sorted a xs) = rw gt at h in
          let rest = insert_sorted-All_inv a xs h'.1 in (rest.0, (h'.0, rest.1)))
  ]

  pub sort-All_inv : (xs : List ℕ) → All P (sort xs) → All P xs
  unfolding sort
  sort-All_inv [] h = tt
  sort-All_inv (x ∷ xs) h =
      let parts = insert_sorted-All_inv x (sort xs) h in (parts.0, sort-All_inv xs parts.1)
