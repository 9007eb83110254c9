-- ===== src/Rng/Draws.antt =====
-- One draw, a row of draws, and the loop of get_distinct over `excluded`.
use distributedsim.Base.{
  ℕ, zero, suc, ◌+◌, ◌-◌, ◌%◌, ◌^◌, ◌≤◌, ◌<◌, ◌≡◌, refl, ap, List, [], ◌∷◌, some, arith, leb,
  length, All, All-mono, Bool-cases, inl, inr, leb→le, leb→lt, ◌>>=◌,
}
use distributedsim.Rng.{Xoroshiro, u64, draw, draws, advance, next}
use distributedsim.Rng.State.{IsWide, next-IsWide}
use distributedsim.Rng.Sort.{IsSortedFrom}

-- A draw from a range that is not empty succeeds and lies in the range.
pub draw-bounds :
    {g : Xoroshiro} (lower upper : ℕ)
    → IsWide g
    → lower < upper
    → upper < 2 ^ 64
    → (r : ℕ) × (g' : Xoroshiro) × (draw g lower upper ≡ some (r, g'))
      × IsWide g'
      × (lower ≤ r)
      × (r < upper)
unfolding draw
draw-bounds {g} lower upper wide pos small =
    let width : u64 (upper + 2 ^ 64 - lower) ≡ upper - lower = omega arith in
    let r = (next g).0 % (upper - lower) + lower in
    let hi : r < upper = omega arith in
    let fits : u64 r ≡ r = omega arith in
    (r, (next g).1, rw (width, fits) (ground arith), (next-IsWide wide).0, omega arith, hi)

-- So does each of a row of draws.
pub draws-bounds :
    (n : ℕ) {g : Xoroshiro} (lower upper : ℕ)
    → IsWide g
    → lower < upper
    → upper < 2 ^ 64
    → (rs : List ℕ) × (g' : Xoroshiro) × (draws n g lower upper ≡ some (rs, g'))
      × IsWide g'
      × (length rs ≡ n)
      × All (λ r. (lower ≤ r) × (r < upper)) rs
unfolding draws
draws-bounds zero {g} lower upper wide pos small = ([], g, refl, wide, refl, tt)
draws-bounds (suc n) lower upper wide pos small =
    let (r, g', drawn, wide', lo, hi) = draw-bounds lower upper wide pos small in
    let (rs, g'', rest, wide'', len, all) = draws-bounds n lower upper wide' pos small in
    (r ∷ rs, g'', rw (drawn, ◌>>=◌, rest), wide'', ap suc len, ((lo, hi), all))

IsSortedFrom-All : (lo : ℕ) (xs : List ℕ) → IsSortedFrom lo xs → All (λ x. lo ≤ x) xs
IsSortedFrom-All lo [] s = tt
IsSortedFrom-All lo (x ∷ xs) s =
    (s.0, All-mono (λ y. x ≤ y) xs (λ y h. omega arith) (IsSortedFrom-All x xs s.1))

-- Where the loop over `excluded` stops: between the neighbours of the value in the list.
abbrev pub Stops : ℕ → ℕ → List ℕ → ℕ × List ℕ → Type 0
Stops v pos rest r =
    (pos ≤ r.0)
    × (r.0 + length r.1 ≡ pos + length rest)
    × All (λ e. v + r.0 < e) r.1
    × IsSortedFrom (suc (v + r.0)) r.1

pub advance-Stops :
    (v pos lo : ℕ) (rest : List ℕ)
    → IsSortedFrom lo rest
    → v + pos + length rest < 2 ^ 64
    → Stops v pos rest (advance v pos rest)
unfolding advance
advance-Stops v pos lo [] s fits = (omega arith, refl, tt, tt)
advance-Stops v pos lo (e ∷ es) s fits =
    let word : u64 (v + pos) ≡ v + pos = omega arith in
    elim (Bool-cases (leb e (v + pos))) [
      | inl le ↦
          let (grows, total, above, sorted) = advance-Stops v (pos + 1) e es s.1 (omega arith) in
          rw (word, le) (omega arith, omega arith, above, sorted)
      | inr gt ↦
          let less = leb→lt e (v + pos) gt in
          rw (word, gt)
            (
              omega arith,
              refl,
              (less, All-mono (λ y. e ≤ y) es (λ y h. omega arith) (IsSortedFrom-All e es s.1)),
              (less, s.1),
            )
    ]

-- What holds of all that the loop passed, which is below the value, and of all that is left, holds
-- of the whole list.
pub advance-All {ℓ} :
    (P : ℕ → Type ℓ) (v pos lo : ℕ) (rest : List ℕ)
    → IsSortedFrom lo rest
    → v + pos + length rest < 2 ^ 64
    → ((e : ℕ) → e < v + (advance v pos rest).0 → P e)
    → All P (advance v pos rest).1
    → All P rest
unfolding advance
advance-All P v pos lo [] s fits = λ passed left. tt
advance-All P v pos lo (e ∷ es) s fits =
    let word : u64 (v + pos) ≡ v + pos = omega arith in
    elim (Bool-cases (leb e (v + pos))) [
      | inl le ↦
          rw (word, le)
            λ passed left.
              let stops = advance-Stops v (pos + 1) e es s.1 (omega arith) in
              (
                passed e (omega (arith, leb→le e (v + pos) le)),
                advance-All P v (pos + 1) e es s.1 (omega arith) passed left,
              )
      | inr gt ↦ rw (word, gt) λ passed left. left
    ]
