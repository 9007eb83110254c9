-- ===== src/Rng/Weighted.antt =====
-- choose_weighted of include/rng.hpp: which numbers choose which index.
use native.Mathlib.Decide.{dec_lt}
use distributedsim.Base.{
  ℕ, zero, suc, ◌+◌, ◌-◌, ◌/◌, ◌^◌, ◌≤◌, ◌<◌, ◌≡◌, ◌↔◌, refl, inl, inr, List, [], ◌∷◌, some, arith,
  length, get_or, ltb, ltb→lt, ltb→le, Bool-cases, ◌>>=◌,
}
use distributedsim.Rng.{Xoroshiro, u64, draw_below, halve, lower_bound, back, choose_weighted}
use distributedsim.Rng.State.{IsWide}
use distributedsim.Rng.Sort.{IsSortedFrom}
use distributedsim.Rng.Draws.{draw-bounds}

-- The last prefix sum, the total of the weights.
abbrev pub total : ℕ → List ℕ → ℕ
total w [] = w
total w (v ∷ ws) = total v ws

back-total : (w : ℕ) (ws : List ℕ) → back (w ∷ ws) ≡ some (total w ws)
unfolding back
back-total w [] = refl
back-total w (v ∷ ws) = back-total v ws

get_or-total : (w : ℕ) (ws : List ℕ) → get_or (w ∷ ws) (length ws) 0 ≡ total w ws
get_or-total w [] = refl
get_or-total w (v ∷ ws) = get_or-total v ws

get_or-ge : (lo : ℕ) (ps : List ℕ) (i : ℕ) → IsSortedFrom lo ps → i < length ps → lo ≤ get_or ps i 0
get_or-ge lo [] i s inside = absurd (omega arith)
get_or-ge lo (w ∷ ws) zero s inside = s.0
get_or-ge lo (w ∷ ws) (suc i) s inside = omega (arith, get_or-ge w ws i s.1 (omega arith))

get_or_mono :
    (lo : ℕ) (ps : List ℕ) (i j : ℕ)
    → IsSortedFrom lo ps
    → i ≤ j
    → j < length ps
    → get_or ps i 0 ≤ get_or ps j 0
get_or_mono lo [] i j s le inside = absurd (omega arith)
get_or_mono lo (w ∷ ws) zero j s le inside = get_or-ge w (w ∷ ws) j (omega arith, s.1) inside
get_or_mono lo (w ∷ ws) (suc i) zero s le inside = absurd (omega arith)
get_or_mono lo (w ∷ ws) (suc i) (suc j) s le inside =
    get_or_mono w ws i j s.1 (omega arith) (omega arith)

module _ (ps : List ℕ) (r : ℕ) where
  -- The elements before the index `k` are below `r`; those from the index `l` on are not.
  abbrev Below : ℕ → Type 0
  Below k = (j : ℕ) → j < k → get_or ps j 0 < r

  abbrev From : ℕ → Type 0
  From l = (j : ℕ) → l ≤ j → j < length ps → r ≤ get_or ps j 0

  -- On a sorted list the search finds the first element that is not below `r`.
  halve-cuts :
      (fuel first len : ℕ)
      → IsSortedFrom 0 ps
      → len ≤ fuel
      → first + len ≤ length ps
      → Below first
      → From (first + len)
      → Below (halve fuel ps r first len) × From (halve fuel ps r first len)
  unfolding halve
  halve-cuts zero first len s enough inside below above =
      (below, λ j le lt. above j (omega arith) lt)
  halve-cuts (suc fuel) first zero s enough inside below above =
      (below, λ j le lt. above j (omega arith) lt)
  halve-cuts (suc fuel) first (suc len) s enough inside below above =
      let half = suc len / 2 in
      let mid = first + half in
      elim (Bool-cases (ltb (get_or ps mid 0) r)) [
        | inl up ↦
            let less = ltb→lt (get_or ps mid 0) r up in
            rw up (
              halve-cuts fuel (mid + 1) (len - half) s (omega arith) (omega arith)
                (λ j lt. omega (arith, get_or_mono 0 ps j mid s (omega arith) (omega arith), less))
                (λ j le lt. above j (omega arith) lt))
        | inr down ↦
            let more = ltb→le (get_or ps mid 0) r down in
            rw down (
              halve-cuts fuel first half s (omega arith) (omega arith) below
                (λ j le lt. omega (arith, get_or_mono 0 ps mid j s (omega arith) lt, more)))
      ]

  lower_bound-cuts : IsSortedFrom 0 ps → Below (lower_bound ps r) × From (lower_bound ps r)
  unfolding lower_bound
  lower_bound-cuts s =
      halve-cuts (length ps) 0 (length ps) s (omega arith) (omega arith)
        (λ j h. absurd (omega arith)) (λ j le lt. absurd (omega arith))

-- The index `i` is chosen by the number `r`: it is in the vector, the first sum that is at least `r`.
abbrev pub Chosen : ℕ → List ℕ → ℕ → ℕ → Type 0
Chosen w ws r i =
    (i < length (w ∷ ws))
    × ((i ≡ 0) ↔ (r ≤ w))
    × ((j : ℕ) → j < length ws → (i ≡ suc j) ↔ ((get_or (w ∷ ws) j 0 < r) × (r ≤ get_or ws j 0)))

lower_bound-Chosen :
    (w : ℕ) (ws : List ℕ) (r : ℕ)
    → IsSortedFrom 0 (w ∷ ws)
    → r ≤ total w ws
    → Chosen w ws r (lower_bound (w ∷ ws) r)
lower_bound-Chosen w ws r s le =
    let k = lower_bound (w ∷ ws) r in
    let (below, from) = lower_bound-cuts (w ∷ ws) r s in
    (
      elim (dec_lt (length ws) k) [
        | yes past ↦ absurd (omega (arith, below (length ws) past, get_or-total w ws))
        | no inside ↦ omega arith
      ],
      (
        λ e. from 0 (omega arith) (omega arith),
        λ h. elim (dec_lt 0 k) [
          | yes more ↦ absurd (omega (arith, below 0 more))
          | no zero_is ↦ omega arith
        ],
      ),
      λ j inside. (
        λ e. (below j (omega arith), from (suc j) (omega arith) (omega arith)),
        λ h. elim (dec_lt j k) [
          | no early ↦ absurd (omega (arith, from j (omega arith) (omega arith), h.0))
          | yes past ↦ elim (dec_lt (suc j) k) [
            | yes late ↦ absurd (omega (arith, below (suc j) late, h.1))
            | no here ↦ omega arith
          ]
        ],
      ),
    )

-- A choice from prefix sums that are in order, not none, and below 2 ^ 64 - 1 draws a number from 0 up
-- to the total, and returns an index of the vector. An index past the first is chosen by as many numbers
-- as its weight, those above the sum before it and up to its own; the first by one number more than
-- its weight. A first weight of zero is thus chosen, by the number 0.
pub choose_weighted_lem :
    {g : Xoroshiro} (w : ℕ) (ws : List ℕ)
    → IsWide g
    → IsSortedFrom 0 (w ∷ ws)
    → total w ws + 1 < 2 ^ 64
    → (r : ℕ) × (i : ℕ) × (g' : Xoroshiro) × (draw_below g (total w ws + 1) ≡ some (r, g'))
      × (choose_weighted g (w ∷ ws) ≡ some (i, g'))
      × IsWide g'
      × (r ≤ total w ws)
      × Chosen w ws r i
unfolding choose_weighted draw_below
choose_weighted_lem {g} w ws wide sorted small =
    let (r, g', drawn, wide', lo, hi) = draw-bounds 0 (total w ws + 1) wide (omega arith) small in
    let word : u64 (total w ws + 1) ≡ total w ws + 1 = omega arith in
    (
      r,
      lower_bound (w ∷ ws) r,
      g',
      drawn,
      rw (back-total w ws, ◌>>=◌, word, drawn),
      wide',
      omega arith,
      lower_bound-Chosen w ws r sorted (omega arith),
    )
