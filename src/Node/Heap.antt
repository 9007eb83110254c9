-- ===== src/Node/Heap.antt =====
-- A queue of delayed messages that is searched for the entry that is due first: one way in which
-- std::priority_queue may behave.
use distributedsim.Base.{
  ℕ, ◌≤◌, ◌≡◌, inl, inr, refl, Bool, Option, none, some, List, [], ◌∷◌, arith, ltb, if◌then◌else◌,
  All, Bool-cases, ltb→lt, ltb→le,
}
use distributedsim.Node.{Message}
use distributedsim.Node.Queue.{count, IsHeap}

module _ {A : Type 0} where
  abbrev pub least : (ℕ × Message A) → List (ℕ × Message A) → (ℕ × Message A) × List (ℕ × Message A)
  least x [] = (x, [])
  least x (y ∷ ys) =
      let (z, rest) = least y ys in if ltb z.0 x.0 then (z, x ∷ rest) else (x, y ∷ ys)

  abbrev pub pop_least : List (ℕ × Message A) → Option ((ℕ × Message A) × List (ℕ × Message A))
  pop_least [] = none
  pop_least (x ∷ xs) = some (least x xs)

  least-All :
      (d : ℕ) (x : (ℕ × Message A)) (xs : List (ℕ × Message A))
      → d ≤ (least x xs).0.0
      → All (λ (y : (ℕ × Message A)). d ≤ y.0) (x ∷ xs)
  least-All d x [] h = (h, tt)
  least-All d x (y ∷ ys) h = elim (Bool-cases (ltb (least y ys).0.0 x.0)) [
    | inl lt ↦
        let h' : d ≤ (least y ys).0.0 = rw lt at h in
        (omega (arith, ltb→lt (least y ys).0.0 x.0 lt), least-All d y ys h')
    | inr ge ↦
        let h' : d ≤ x.0 = rw ge at h in
        (h', least-All d y ys (omega (arith, ltb→le (least y ys).0.0 x.0 ge)))
  ]

  least-count :
      (f : (ℕ × Message A) → Bool) (x : (ℕ × Message A)) (xs : List (ℕ × Message A))
      → count f (x ∷ xs) ≡ count f ((least x xs).0 ∷ (least x xs).1)
  least-count f x [] = refl
  least-count f x (y ∷ ys) = elim (Bool-cases (ltb (least y ys).0.0 x.0)) [
    | inl lt ↦ rw lt (omega (arith, least-count f y ys))
    | inr ge ↦ rw ge refl
  ]

  pub pop_least-IsHeap : IsHeap pop_least
  pop_least-IsHeap = (
    refl,
    λ e es. (
      (least e es).0.0,
      (least e es).0.1,
      (least e es).1,
      refl,
      least-All (least e es).0.0 e es (omega arith),
      λ f. least-count f e es,
    ),
  )
