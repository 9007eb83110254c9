-- ===== src/Common/Laws.antt =====
-- Reading a vector after it was grown or written: the map laws of vec_set.
use distributedsim.Base.{
  ℕ, zero, suc, ◌+◌, ◌≤◌, ◌<◌, ◌≡◌, refl, ap, List, [], ◌∷◌, none, some, arith, leb, ◌==◌,
  if◌then◌else◌, length, get_elem?, get_or, set, length-set, Bool-cases, inl, inr,
}
use distributedsim.Common.{grow, vec_set}

module _ {ℓ} {A : Type ℓ} (d : A) where
  grow-eq_self : (xs : List A) (n : ℕ) → n ≤ length xs → grow d xs n ≡ xs
  unfolding grow
  grow-eq_self [] zero h = refl
  grow-eq_self [] (suc n) h = absurd (omega arith)
  grow-eq_self (x ∷ xs) zero h = refl
  grow-eq_self (x ∷ xs) (suc n) h = ap (◌∷◌ x) (grow-eq_self xs n (omega arith))

  pub length-grow : (xs : List A) (n : ℕ) → length xs ≤ length (grow d xs n)
  unfolding grow
  length-grow [] n = omega arith
  length-grow (x ∷ xs) zero = omega arith
  length-grow (x ∷ xs) (suc n) = omega (arith, length-grow xs n)

  pub length-grow_le : (xs : List A) (n : ℕ) → n ≤ length (grow d xs n)
  unfolding grow
  length-grow_le [] zero = omega arith
  length-grow_le [] (suc n) = omega (arith, length-grow_le [] n)
  length-grow_le (x ∷ xs) zero = omega arith
  length-grow_le (x ∷ xs) (suc n) = omega (arith, length-grow_le xs n)

  length-grow_bound : (xs : List A) (n m : ℕ) → length xs ≤ m → n ≤ m → length (grow d xs n) ≤ m
  unfolding grow
  length-grow_bound [] zero m h k = h
  length-grow_bound [] (suc n) zero h k = absurd (omega arith)
  length-grow_bound [] (suc n) (suc m) h k =
      omega (arith, length-grow_bound [] n m (omega arith) (omega arith))
  length-grow_bound (x ∷ xs) zero m h k = h
  length-grow_bound (x ∷ xs) (suc n) zero h k = absurd (omega arith)
  length-grow_bound (x ∷ xs) (suc n) (suc m) h k =
      omega (arith, length-grow_bound xs n m (omega arith) (omega arith))

  -- Growing shows only default elements.
  pub get_or-grow : (xs : List A) (n j : ℕ) → get_or (grow d xs n) j d ≡ get_or xs j d
  unfolding grow
  get_or-grow [] zero j = refl
  get_or-grow [] (suc n) zero = refl
  get_or-grow [] (suc n) (suc j) = get_or-grow [] n j
  get_or-grow (x ∷ xs) zero j = refl
  get_or-grow (x ∷ xs) (suc n) zero = refl
  get_or-grow (x ∷ xs) (suc n) (suc j) = get_or-grow xs n j

  pub get_or-set :
      (xs : List A) (i j : ℕ) (v : A)
      → i < length xs
      → get_or (set xs i v) j d ≡ (if i == j then v else get_or xs j d)
  get_or-set [] i j v h = absurd (omega arith)
  get_or-set (x ∷ xs) zero zero v h = ground arith
  get_or-set (x ∷ xs) zero (suc j) v h = ground arith
  get_or-set (x ∷ xs) (suc i) zero v h = ground arith
  get_or-set (x ∷ xs) (suc i) (suc j) v h = ground (arith, get_or-set xs i j v)

  pub get_elem?-eq_some :
      (xs : List A) (i : ℕ) → i < length xs → get_elem? xs i ≡ some (get_or xs i d)
  get_elem?-eq_some [] i h = absurd (omega arith)
  get_elem?-eq_some (x ∷ xs) zero h = refl
  get_elem?-eq_some (x ∷ xs) (suc i) h = get_elem?-eq_some xs i (omega arith)

  pub get_elem?-eq_none : (xs : List A) (i : ℕ) → length xs ≤ i → get_elem? xs i ≡ none
  get_elem?-eq_none [] i h = refl
  get_elem?-eq_none (x ∷ xs) zero h = absurd (omega arith)
  get_elem?-eq_none (x ∷ xs) (suc i) h = get_elem?-eq_none xs i (omega arith)

  pub get_or-of_length_le : (xs : List A) (i : ℕ) → length xs ≤ i → get_or xs i d ≡ d
  get_or-of_length_le [] i h = refl
  get_or-of_length_le (x ∷ xs) zero h = absurd (omega arith)
  get_or-of_length_le (x ∷ xs) (suc i) h = get_or-of_length_le xs i (omega arith)

  vec_set-grow :
      (xs : List A) (pos : ℕ) (v : A) → vec_set d xs pos v ≡ set (grow d xs (pos + 1)) pos v
  unfolding vec_set
  vec_set-grow xs pos v = elim (Bool-cases (leb (length xs) pos)) [
    | inl short ↦ rw short
    | inr long ↦ rw (long, grow-eq_self xs (pos + 1) (ground arith))
  ]

  -- A write past the end makes room for itself, and changes no other element.
  pub get_or-vec_set :
      (xs : List A) (pos j : ℕ) (v : A)
      → get_or (vec_set d xs pos v) j d ≡ (if pos == j then v else get_or xs j d)
  get_or-vec_set xs pos j v = rw (
    vec_set-grow xs pos v,
    get_or-set (grow d xs (pos + 1)) pos j v (omega (arith, length-grow_le xs (pos + 1))),
    get_or-grow xs (pos + 1) j,
  )

  pub length-vec_set :
      (xs : List A) (pos : ℕ) (v : A)
      → (length xs ≤ length (vec_set d xs pos v)) × (pos < length (vec_set d xs pos v))
  length-vec_set xs pos v =
      rw (vec_set-grow xs pos v, length-set (grow d xs (pos + 1)) pos v)
        (length-grow xs (pos + 1), omega (arith, length-grow_le xs (pos + 1)))

  pub length-vec_set_bound :
      (xs : List A) (pos m : ℕ) (v : A) → length xs ≤ m → pos < m → length (vec_set d xs pos v) ≤ m
  length-vec_set_bound xs pos m v h k =
      rw (vec_set-grow xs pos v, length-set (grow d xs (pos + 1)) pos v)
        (length-grow_bound xs (pos + 1) m h (omega arith))

  -- The vector grows only if the position was past its end.
  pub length-vec_set_of_lt :
      (xs : List A) (pos : ℕ) (v : A) → pos < length xs → length (vec_set d xs pos v) ≡ length xs
  length-vec_set_of_lt xs pos v h = rw (
    vec_set-grow xs pos v,
    length-set (grow d xs (pos + 1)) pos v,
    grow-eq_self xs (pos + 1) (omega arith),
  )
