-- ===== src/Experiment/Powers.antt =====
-- examples/tinycoin/hashpower.hpp: the numbers of the weights and their totals.
use distributedsim.Base.{
  ℕ, suc, ◌+◌, ◌≡◌, refl, ap, ◌∙◌, inl, inr, Bool, true, false, Option, some, List, [], ◌∷◌, leb,
  ◌==◌, if◌then◌else◌, Bool-cases, length, arith,
}
use distributedsim.Rng.{Xoroshiro, u64, draw, draw_below, insert_sorted, back, choose_weighted}
use distributedsim.Experiment.Setup.{
  get_one, Weights, add_one, take_total, drop_least, drop_greatest, split_last, Shares, Round,
  selfish_again, honest_again, rebalance,
}

abbrev pub sum : List ℕ → ℕ
sum [] = 0
sum (x ∷ xs) = x + sum xs

-- `n` weights, and their sum as a uint64_t.
pub record IsCounted (n : ℕ) (w : Weights) : Type 0 where
  pub many : length w.weights ≡ n
  pub summed : w.total ≡ u64 (sum w.weights)

sorted_counts :
    (a : ℕ) (xs : List ℕ)
    → (length (insert_sorted a xs) ≡ suc (length xs)) × (sum (insert_sorted a xs) ≡ a + sum xs)
unfolding insert_sorted
sorted_counts a [] = (refl, refl)
sorted_counts a (x ∷ xs) = elim (Bool-cases (leb a x)) [
  | inl e ↦ rw e (refl, refl)
  | inr e ↦ let rest = sorted_counts a xs in rw e (ap suc rest.0, omega (arith, rest.1))
]

get-one : (g : Xoroshiro) → (r : ℕ) × (g' : Xoroshiro) × (get_one g ≡ some (r, g'))
unfolding get_one choose_weighted draw_below draw back
get-one g = (_, _, refl)

coin_lem : (g : Xoroshiro) → (r : ℕ) × (g' : Xoroshiro) × (draw_below g 2 ≡ some (r, g'))
unfolding draw_below draw
coin_lem g = (_, _, refl)

add_one-IsCounted :
    (n : ℕ) (w : Weights) (g : Xoroshiro)
    → IsCounted n w
    → (w' : Weights) × (g' : Xoroshiro) × (add_one w g ≡ some (w', g')) × IsCounted (suc n) w'
unfolding add_one
add_one-IsCounted n w g counted =
    let (r, g', e) = get-one g in
    let sorted = sorted_counts r w.weights in
    (
      record { weights = insert_sorted r w.weights; total = u64 (w.total + r) },
      g',
      rw e refl,
      record {
        many = sorted.0 ∙ ap suc counted.many;
        summed = omega (arith, sorted.1, counted.summed);
      },
    )

split_last_lem :
    (x : ℕ) (xs : List ℕ)
    → (ys : List ℕ) × (y : ℕ) × (split_last (x ∷ xs) ≡ some (ys, y))
      × (length ys ≡ length xs)
      × (sum ys + y ≡ x + sum xs)
unfolding split_last
split_last_lem x [] = ([], x, refl, refl, omega arith)
split_last_lem x (z ∷ zs) =
    let (ys, y, e, long, total) = split_last_lem z zs in
    (x ∷ ys, y, rw e refl, ap suc long, omega (arith, total))

-- The weights without one of them.
abbrev Drops : ℕ → Option Weights → Type 0
Drops n o = (w : Weights) × (o ≡ some w) × IsCounted n w

drop_least-IsCounted :
    (n : ℕ) (xs : List ℕ) (t : ℕ)
    → length xs ≡ suc n
    → t ≡ u64 (sum xs)
    → Drops n (drop_least (record { weights = xs; total = t }))
drop_least-IsCounted n [] t many summed = absurd (omega arith)
drop_least-IsCounted n (x ∷ xs) t many summed =
    (_, refl, record { many = omega arith; summed = omega arith })

drop_greatest-IsCounted :
    (n : ℕ) (xs : List ℕ) (t : ℕ)
    → length xs ≡ suc n
    → t ≡ u64 (sum xs)
    → Drops n (drop_greatest (record { weights = xs; total = t }))
unfolding drop_greatest
drop_greatest-IsCounted n [] t many summed = absurd (omega arith)
drop_greatest-IsCounted n (x ∷ xs) t many summed =
    let (ys, y, e, long, total) = split_last_lem x xs in
    (
      record { weights = ys; total = take_total t y },
      rw e refl,
      record { many = omega (arith, long); summed = omega (arith, total) },
    )

module _ (n m : ℕ) where
  -- A round that succeeds and keeps the numbers and the sums.
  abbrev pub Keeps : Option Round → Type 0
  Keeps o =
      (again : Bool) × (selfish : Weights) × (honest : Weights) × (g : Xoroshiro) × (o
        ≡ some (again, ((selfish, honest), g)))
      × IsCounted n selfish
      × IsCounted m honest

  if-Keeps : (b : Bool) (o p : Option Round) → Keeps o → Keeps p → Keeps (if b then o else p)
  if-Keeps true o p ho hp = ho
  if-Keeps false o p ho hp = hp

module _ (n m : ℕ) (selfish honest : Weights) (hs : IsCounted (suc n) selfish)
    (hh : IsCounted (suc m) honest) where
  selfish_again-Keeps :
      (o : Option Weights) (g : Xoroshiro)
      → Drops n o
      → Keeps (suc n) (suc m) (selfish_again honest o g)
  selfish_again-Keeps o g (w, e, counted) =
      let (w', g', f, counted') = add_one-IsCounted n w g counted in
      (true, w', honest, g', rw (e, f) refl, counted', hh)

  honest_again-Keeps :
      (o : Option Weights) (g : Xoroshiro)
      → Drops m o
      → Keeps (suc n) (suc m) (honest_again selfish o g)
  honest_again-Keeps o g (w, e, counted) =
      let (w', g', f, counted') = add_one-IsCounted m w g counted in
      (true, selfish, w', g', rw (e, f) refl, hs, counted')

  -- Where there are selfish and honest miners, a round of the loop that balances their powers
  -- succeeds, whatever the comparisons say: the numbers of the miners stay the same, and each total is
  -- still the sum of its weights.
  pub rebalance-Keeps :
      (shares : Shares) (g : Xoroshiro) → Keeps (suc n) (suc m) (rebalance shares selfish honest g)
  unfolding rebalance
  rebalance-Keeps shares g =
      let least = drop_least-IsCounted n selfish.weights selfish.total hs.many hs.summed in
      let greatest = drop_greatest-IsCounted n selfish.weights selfish.total hs.many hs.summed in
      let least' = drop_least-IsCounted m honest.weights honest.total hh.many hh.summed in
      let greatest' = drop_greatest-IsCounted m honest.weights honest.total hh.many hh.summed in
      let (r, g', e) = coin_lem g in
      rw e (
        if-Keeps (suc n) (suc m) _ _ _
          (if-Keeps (suc n) (suc m) (r == 0) _ _ (honest_again-Keeps _ g' greatest')
            (selfish_again-Keeps _ g' least))
          (if-Keeps (suc n) (suc m) _ _ _
            (if-Keeps (suc n) (suc m) (r == 0) _ _ (honest_again-Keeps _ g' least')
              (selfish_again-Keeps _ g' greatest))
            (false, selfish, honest, g, refl, hs, hh)))
