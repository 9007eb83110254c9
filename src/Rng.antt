-- ===== src/Rng.antt =====
-- include/rng.hpp: class xoroshiro. A generator is its two 64-bit words, and a draw returns the
-- generator after it. `none` is the undefined `% 0` of an empty range, or a vector with no back.
-- A vector of 2^32 excluded numbers, where `unsigned pos` would wrap, is not modelled.
pub mod Bits
pub mod State
pub mod Sort
pub mod Draws
pub mod Distinct
pub mod Whole
pub mod Weighted
mod Tests
use Prim.Native.Nat.{bit_or, bit_xor}
use distributedsim.Base.{
  ℕ, zero, suc, ◌+◌, ◌-◌, ◌*◌, ◌/◌, ◌%◌, ◌^◌, Bool, Option, none, some, List, [], ◌∷◌, leb, ltb,
  ◌==◌, if◌then◌else◌, ◌>>=◌, length, get_or,
}

-- Conversion to uint64_t.
abbrev pub u64 : ℕ → ℕ
u64 n = n % 2 ^ 64

pub record Xoroshiro : Type 0 where
  pub s0 : ℕ
  pub s1 : ℕ

-- The least and the greatest number that std::shuffle may be told to expect, and the two constructors.
abbrev pub max : ℕ
max = 2 ^ 64 - 1

abbrev pub min : ℕ
min = 1

abbrev pub new_xoroshiro : ℕ → ℕ → Xoroshiro
new_xoroshiro a b = record { s0 = a; s1 = b }

abbrev pub default_xoroshiro : Xoroshiro
default_xoroshiro = new_xoroshiro 1 0

unfoldable pub rotl : ℕ → ℕ → ℕ
rotl x k = bit_or (u64 (x * 2 ^ k)) (x / 2 ^ (64 - k))

-- operator()(): the number, and the state after it.
unfoldable pub next : Xoroshiro → ℕ × Xoroshiro
next g =
    let result = u64 (g.s0 + g.s1) in
    let mixed = bit_xor g.s1 g.s0 in
    (
      result,
      record {
        s0 = bit_xor (bit_xor (rotl g.s0 55) mixed) (u64 (mixed * 2 ^ 14));
        s1 = rotl mixed 36;
      },
    )

-- operator()(lower, upper). The difference wraps, as it does on uint64_t.
unfoldable pub draw : Xoroshiro → ℕ → ℕ → Option (ℕ × Xoroshiro)
draw g lower upper =
    let width = u64 (upper + 2 ^ 64 - lower) in
    let (r, g') = next g in if width == 0 then none else some (u64 (r % width + lower), g')

-- operator()(upper)
unfoldable pub draw_below : Xoroshiro → ℕ → Option (ℕ × Xoroshiro)
draw_below g upper = draw g 0 upper

-- std::sort
unfoldable pub insert_sorted : ℕ → List ℕ → List ℕ
insert_sorted a [] = a ∷ []
insert_sorted a (x ∷ xs) = if leb a x then a ∷ x ∷ xs else x ∷ insert_sorted a xs

unfoldable pub sort : List ℕ → List ℕ
unfolding insert_sorted
sort [] = []
sort (x ∷ xs) = insert_sorted x (sort xs)

-- The loop that draws `amount` numbers.
unfoldable pub draws : ℕ → Xoroshiro → ℕ → ℕ → Option (List ℕ × Xoroshiro)
draws zero g lower upper = some ([], g)
draws (suc n) g lower upper = do
  (r, g') ← draw g lower upper
  (rs, g'') ← draws n g' lower upper
  some (r ∷ rs, g'')

-- `while (pos < excluded.size() && excluded[pos] <= i) pos++;`: what is left of `excluded` at `pos`.
unfoldable pub skip : ℕ → List ℕ → List ℕ
skip i [] = []
skip i (e ∷ es) = if leb e i then skip i es else e ∷ es

abbrev pub starts_with : ℕ → List ℕ → Bool
starts_with i [] = Bool.false
starts_with i (e ∷ _) = e == i

-- The loop of the first branch, for `count` values from `i`.
unfoldable pub enumerate : ℕ → ℕ → List ℕ → List ℕ
unfolding skip
enumerate zero i rest = []
enumerate (suc count) i rest =
    let rest' = skip i rest in
    let later = enumerate count (i + 1) rest' in if starts_with i rest' then later else i ∷ later

-- `while (pos < excluded.size() && excluded[pos] <= v + pos) pos++;`: `pos`, and what is left there.
unfoldable pub advance : ℕ → ℕ → List ℕ → ℕ × List ℕ
advance v pos [] = (pos, [])
advance v pos (e ∷ es) =
    let further = advance v (pos + 1) es in if leb e (u64 (v + pos)) then further else (pos, e ∷ es)

-- The loop that moves the sorted draws apart and past the excluded numbers.
unfoldable pub spread : List ℕ → ℕ → ℕ → List ℕ → List ℕ
unfolding advance
spread [] i pos rest = []
spread (a ∷ later) i pos rest =
    let (pos', rest') = advance (u64 (a + i)) pos rest in
    u64 (a + (i + pos')) ∷ spread later (i + 1) pos' rest'

-- get_distinct(amount, lower, upper, excluded)
unfoldable pub get_distinct : Xoroshiro → ℕ → ℕ → ℕ → List ℕ → Option (List ℕ × Xoroshiro)
unfolding enumerate draws sort spread
get_distinct g amount lower upper excluded =
    if leb upper (u64 (amount + lower + length excluded))
    then some (enumerate (upper - lower) lower excluded, g)
    else do
      (ans, g') ← draws amount g lower (u64 (upper + 2 * 2 ^ 64 - amount - length excluded))
      some (spread (sort ans) 0 0 excluded, g')

-- get_distinct(amount, upper, excluded)
unfoldable pub get_distinct_below : Xoroshiro → ℕ → ℕ → List ℕ → Option (List ℕ × Xoroshiro)
get_distinct_below g amount upper excluded = get_distinct g amount 0 upper excluded

-- The halving of std::lower_bound among `len` elements from `first` on, with fuel for `len` rounds.
unfoldable pub halve : ℕ → List ℕ → ℕ → ℕ → ℕ → ℕ
halve zero ps r first len = first
halve (suc fuel) ps r first zero = first
halve (suc fuel) ps r first (suc len) =
    let half = suc len / 2 in
    let mid = first + half in
    let up = ltb (get_or ps mid 0) r in
    halve fuel ps r (if up then mid + 1 else first) (if up then len - half else half)

-- std::lower_bound, as an index: a binary search.
unfoldable pub lower_bound : List ℕ → ℕ → ℕ
unfolding halve
lower_bound ps r = halve (length ps) ps r 0 (length ps)

-- vector::back
unfoldable pub back : List ℕ → Option ℕ
back [] = none
back (w ∷ []) = some w
back (w ∷ v ∷ ws) = back (v ∷ ws)

unfoldable pub choose_weighted : Xoroshiro → List ℕ → Option (ℕ × Xoroshiro)
unfolding draw_below
choose_weighted g weight_ps = do
  total ← back weight_ps
  (r, g') ← draw_below g (u64 (total + 1))
  some (lower_bound weight_ps r, g')
