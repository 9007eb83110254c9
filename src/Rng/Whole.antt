-- ===== src/Rng/Whole.antt =====
-- get_distinct where the range has few numbers: the first branch, which draws nothing.
use distributedsim.Base.{
  ℕ, zero, suc, ◌+◌, ◌-◌, ◌^◌, ◌≤◌, ◌<◌, ◌≡◌, refl, List, [], ◌∷◌, some, arith, length, false,
  le→leb,
}
use distributedsim.Rng.{Xoroshiro, u64, skip, starts_with, enumerate, get_distinct}

-- The numbers from `i` on, `count` of them.
abbrev pub range_from : ℕ → ℕ → List ℕ
range_from i zero = []
range_from i (suc count) = i ∷ range_from (i + 1) count

-- The inner loop passes every number up to `i`, `i` itself included, so the test behind it fails.
starts_with-skip : (i : ℕ) (rest : List ℕ) → starts_with i (skip i rest) ≡ false
unfolding skip
starts_with-skip i [] = refl
starts_with-skip i (e ∷ es) = ground (arith, starts_with-skip i es)

enumerate-range_from : (count i : ℕ) (rest : List ℕ) → enumerate count i rest ≡ range_from i count
unfolding enumerate
enumerate-range_from zero i rest = refl
enumerate-range_from (suc count) i rest =
    rw (starts_with-skip i rest, enumerate-range_from count (i + 1) (skip i rest))

-- Where `amount`, `lower` and the count of the excluded numbers add up to at least `upper`, and to less
-- than 2 ^ 64, the call returns every number of the range, whatever is excluded, and draws nothing.
pub get_distinct-whole :
    (g : Xoroshiro) (amount lower upper : ℕ) (excluded : List ℕ)
    → upper ≤ amount + lower + length excluded
    → amount + lower + length excluded < 2 ^ 64
    → get_distinct g amount lower upper excluded ≡ some (range_from lower (upper - lower), g)
unfolding get_distinct
get_distinct-whole g amount lower upper excluded few small =
    let sum : u64 (amount + lower + length excluded) ≡ amount + lower + length excluded =
      omega arith in
    rw (
      sum,
      le→leb upper (amount + lower + length excluded) few,
      enumerate-range_from (upper - lower) lower excluded,
    )
