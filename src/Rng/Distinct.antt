-- ===== src/Rng/Distinct.antt =====
-- get_distinct where numbers are drawn: the second branch.
use distributedsim.Base.{
  ℕ, suc, ◌+◌, ◌-◌, ◌*◌, ◌^◌, ◌≤◌, ◌<◌, ◌≡◌, ◌≢◌, refl, ap, List, [], ◌∷◌, some, arith, leb, length,
  All, All-mono, All-intro, All-zip, ◌>>=◌, false,
}
use distributedsim.Rng.{Xoroshiro, u64, draws, sort, advance, spread, get_distinct}
use distributedsim.Rng.State.{IsWide}
use distributedsim.Rng.Sort.{IsSortedFrom, sort-IsSortedFrom, length-sort, sort-All}
use distributedsim.Rng.Draws.{draws-bounds, advance-Stops, advance-All}

-- Every element is at least `lo`, and they strictly rise: so they are distinct.
abbrev pub Rises : ℕ → List ℕ → Type 0
Rises lo [] = Unit {0}
Rises lo (x ∷ xs) = (lo ≤ x) × Rises (suc x) xs

pub Rises-mono : (lo hi : ℕ) (xs : List ℕ) → lo ≤ hi → Rises hi xs → Rises lo xs
Rises-mono lo hi [] h s = tt
Rises-mono lo hi (x ∷ xs) h s = (omega arith, s.1)

pub Rises-All : (lo : ℕ) (xs : List ℕ) → Rises lo xs → All (λ x. lo ≤ x) xs
Rises-All lo [] s = tt
Rises-All lo (x ∷ xs) s =
    (s.0, All-mono (λ y. suc x ≤ y) xs (λ y h. omega arith) (Rises-All (suc x) xs s.1))

-- No number of one list is in the other.
abbrev pub Avoids : List ℕ → List ℕ → Type 0
Avoids xs es = All (λ e. All (λ x. x ≢ e) xs) es

-- What the loop makes of sorted draws.
abbrev pub Spreads : ℕ → ℕ → ℕ → List ℕ → List ℕ → Type 0
Spreads lo top n rest out =
    (length out ≡ n) × Rises lo out × All (λ x. x < top) out × Avoids out rest

spread-Spreads :
    (top lo i pos low : ℕ) (ans rest : List ℕ)
    → top < 2 ^ 64
    → IsSortedFrom lo ans
    → IsSortedFrom low rest
    → All (λ a. a + (i + length ans) + (pos + length rest) ≤ top) ans
    → Spreads (lo + i + pos) top (length ans) rest (spread ans i pos rest)
unfolding spread
spread-Spreads top lo i pos low [] rest small s t fits = (refl, tt, tt, All-intro _ rest (λ e. tt))
spread-Spreads top lo i pos low (a ∷ later) rest small s t fits =
    let at : u64 (a + i) ≡ a + i = omega arith in
    let v = a + i in
    let (grows, total, above, sorted) = advance-Stops v pos low rest t (omega arith) in
    let pos' = (advance v pos rest).0 in
    let rest' = (advance v pos rest).1 in
    let word : u64 (a + (i + pos')) ≡ a + (i + pos') = omega arith in
    let (len, rises, below, avoids) =
      spread-Spreads top a (i + 1) pos' (suc (v + pos')) later rest' small s.1 sorted (
        All-mono (λ b. b + (i + suc (length later)) + (pos + length rest) ≤ top) later
          (λ b h. omega arith) fits.1) in
    let out = spread later (i + 1) pos' rest' in
    let x' = a + (i + pos') in
    let rises' : Rises (suc x') out = Rises-mono _ (a + (i + 1) + pos') out (omega arith) rises in
    rw (at, word)
      (
        ap suc len,
        (omega arith, rises'),
        (omega arith, below),
        advance-All (λ e. All (λ x. x ≢ e) (x' ∷ out)) v pos low rest t (omega arith)
            (λ e h. (
              λ same. omega arith,
              All-mono (λ x. suc x' ≤ x) out (λ x k same. omega arith) (Rises-All _ out rises'),
            ))
            (All-zip (λ e. v + pos' < e) (λ e. All (λ x. x ≢ e) out) rest'
              (λ e h k. (λ same. omega arith, k)) above avoids),
      )

sorted_draws :
    (amount lower upper : ℕ) (rs excluded : List ℕ)
    → IsSortedFrom 0 excluded
    → amount + lower + length excluded < upper
    → upper < 2 ^ 64
    → length rs ≡ amount
    → All (λ r. (lower ≤ r) × (r < upper - amount - length excluded)) rs
    → Spreads lower (upper - 1) amount excluded (spread (sort rs) 0 0 excluded)
sorted_draws amount lower upper rs excluded sorted room small len all =
    let same = length-sort rs in
    let (n, rises, below, avoids) =
      spread-Spreads (upper - 1) lower 0 0 0 (sort rs) excluded (omega arith)
        (sort-IsSortedFrom lower rs (All-mono _ rs (λ r h. h.0) all)) sorted
        (sort-All _ rs (All-mono _ rs (λ r h. omega arith) all)) in
    (omega arith, Rises-mono lower (lower + 0 + 0) _ (omega arith) rises, below, avoids)

-- Where the excluded numbers are sorted, and `amount`, `lower` and their count add up to less than
-- `upper`, which is below 2 ^ 64, the call draws `amount` numbers, strictly rising, at least `lower`, none
-- of them excluded. The last number of the range, `upper - 1`, is never among them.
pub get_distinct-drawn :
    {g : Xoroshiro} (amount lower upper : ℕ) (excluded : List ℕ)
    → IsWide g
    → IsSortedFrom 0 excluded
    → amount + lower + length excluded < upper
    → upper < 2 ^ 64
    → (ans : List ℕ) × (g' : Xoroshiro) × (get_distinct g amount lower upper excluded
        ≡ some (ans, g'))
      × IsWide g'
      × Spreads lower (upper - 1) amount excluded ans
unfolding get_distinct
get_distinct-drawn {g} amount lower upper excluded wide sorted room small =
    finish (
      draws-bounds amount lower (upper - amount - length excluded) wide (omega arith) (omega arith))
  where
    finish :
        (rs : List ℕ) × (g' : Xoroshiro) × (draws amount g lower (upper - amount - length excluded)
            ≡ some (rs, g'))
          × IsWide g'
          × (length rs ≡ amount)
          × All (λ r. (lower ≤ r) × (r < upper - amount - length excluded)) rs
        → (ans : List ℕ) × (g' : Xoroshiro) × (get_distinct g amount lower upper excluded
            ≡ some (ans, g'))
          × IsWide g'
          × Spreads lower (upper - 1) amount excluded ans
    finish (rs, g', drawn, wide', len, all) =
        let sum : u64 (amount + lower + length excluded) ≡ amount + lower + length excluded =
          omega arith in
        let cut : u64 (upper + 2 * 2 ^ 64 - amount - length excluded)
            ≡ upper - amount - length excluded =
          omega arith in
        let some_left : leb upper (amount + lower + length excluded) ≡ false = ground arith in
        (
          spread (sort rs) 0 0 excluded,
          g',
          rw (sum, cut, some_left, drawn, ◌>>=◌),
          wide',
          sorted_draws amount lower upper rs excluded sorted room small len all,
        )
