-- ===== src/Rng/Tests.antt =====
-- The generator at concrete seeds.
use distributedsim.Base.{ℕ, ◌≤◌, ◌≡◌, ◌≢◌, refl, ap, List, [], ◌∷◌, some, arith}
use distributedsim.Rng.{Xoroshiro, next, draw_below, get_distinct, lower_bound, choose_weighted}
use distributedsim.Rng.State.{IsWide, prev, all_zero, prev-next, next-ne-all_zero}
use distributedsim.Rng.Distinct.{Spreads, get_distinct-drawn}
use distributedsim.Rng.Whole.{get_distinct-whole}
use distributedsim.Rng.Weighted.{total, Chosen, choose_weighted_lem}

-- The default constructor.
abbrev default_seed : Xoroshiro
default_seed = record { s0 = 1; s1 = 0 }

default_seed-IsWide : IsWide default_seed
default_seed-IsWide = record { s0_fits = omega arith; s1_fits = omega arith }

first_number : (next default_seed).0 ≡ 1
unfolding next
first_number = refl

prev-next_example : prev (next default_seed).1 ≡ default_seed
prev-next_example = prev-next default_seed-IsWide

next-ne-all_zero_example : (next default_seed).1 ≢ all_zero
next-ne-all_zero_example =
    next-ne-all_zero default_seed-IsWide (λ e. omega (arith, ap (λ (g : Xoroshiro). g.s0) e))

get_distinct-drawn_example :
    (ans : List ℕ) × (g' : Xoroshiro) × (get_distinct default_seed 2 0 10 (3 ∷ 4 ∷ [])
      ≡ some (ans, g'))
    × IsWide g'
    × Spreads 0 9 2 (3 ∷ 4 ∷ []) ans
get_distinct-drawn_example =
    get_distinct-drawn 2 0 10 (3 ∷ 4 ∷ []) default_seed-IsWide (omega arith) (omega arith)
      (omega arith)

-- Node 1 is excluded and is returned.
get_distinct-whole_example :
    get_distinct default_seed 3 0 4 (1 ∷ []) ≡ some (0 ∷ 1 ∷ 2 ∷ 3 ∷ [], default_seed)
get_distinct-whole_example =
    get_distinct-whole default_seed 3 0 4 (1 ∷ []) (omega arith) (omega arith)

choose_weighted_lem_example :
    (r : ℕ) × (i : ℕ) × (g' : Xoroshiro) × (draw_below default_seed 6 ≡ some (r, g'))
    × (choose_weighted default_seed (0 ∷ 5 ∷ []) ≡ some (i, g'))
    × IsWide g'
    × (r ≤ total 0 (5 ∷ []))
    × Chosen 0 (5 ∷ []) r i
choose_weighted_lem_example =
    choose_weighted_lem 0 (5 ∷ []) default_seed-IsWide (omega arith) (omega arith)

-- The binary search on a vector that is not sorted.
unsorted : lower_bound (10 ∷ 0 ∷ 5 ∷ []) 3 ≡ 2
unfolding lower_bound
unsorted = refl
