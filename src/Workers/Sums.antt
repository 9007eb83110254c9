-- ===== src/Workers/Sums.antt =====
-- Sums over the workers, and the counts that a step changes.
use distributedsim.Base.{
  ℕ, zero, suc, ◌+◌, ◌≤◌, ◌<◌, ◌≡◌, ◌≢◌, refl, ap, Bool, true, false, List, [], ◌∷◌, ◌++◌, arith,
  ◌==◌, Bool-cases, inl, inr, ==_iff,
}
use distributedsim.Workers.{update}

abbrev pub sum : ℕ → (ℕ → ℕ) → ℕ
sum zero f = 0
sum (suc n) f = sum n f + f n

abbrev pub indicator : Bool → ℕ
indicator true = 1
indicator false = 0

module _ {ℓ} {B : Type ℓ} (g : B → ℕ) (f : ℕ → B) (i : ℕ) (b : B) where
  sum_outside : (n : ℕ) → n ≤ i → sum n (λ j. g (update f i b j)) ≡ sum n (λ j. g (f j))
  sum_outside zero le = refl
  sum_outside (suc n) le =
      let away : (i == n) ≡ false = ground arith in
      rw away (omega (arith, sum_outside n (omega arith)))

  -- One worker's part changes, and the others' stay.
  pub sum-update :
      (n : ℕ) → i < n → sum n (λ j. g (update f i b j)) + g (f i) ≡ sum n (λ j. g (f j)) + g b
  sum-update zero lt = absurd (omega arith)
  sum-update (suc n) lt = elim (Bool-cases (i == n)) [
    | inl same ↦
        let e : i ≡ n = (==_iff i n).0 same in
        rw same (omega (arith, sum_outside n (omega arith), ap (λ j. g (f j)) e))
    | inr away ↦
        let ne : i ≢ n = λ e. (ground (arith, away, e)) in
        rw away (omega (arith, sum-update n (less n lt ne)))
  ]
    where
      less : (n : ℕ) → i < suc n → i ≢ n → i < n
      less n lt ne = ground arith

pub sum-le : (g : ℕ → ℕ) (n i : ℕ) → i < n → g i ≤ sum n g
sum-le g zero i lt = absurd (omega arith)
sum-le g (suc n) i lt = elim (Bool-cases (i == n)) [
  | inl same ↦ omega (arith, ap g ((==_iff i n).0 same))
  | inr away ↦ omega (arith, sum-le g n i (less n i lt away))
]
  where
    less : (n i : ℕ) → i < suc n → (i == n) ≡ false → i < n
    less n i lt away = ground arith

-- How often an id stands in the queue.
abbrev pub tokens : ℕ → List ℕ → ℕ
tokens r [] = 0
tokens r (q ∷ queue) = indicator (q == r) + tokens r queue

pub tokens-append : (r : ℕ) (xs ys : List ℕ) → tokens r (xs ++ ys) ≡ tokens r xs + tokens r ys
tokens-append r [] ys = omega arith
tokens-append r (x ∷ xs) ys = omega (arith, tokens-append r xs ys)
