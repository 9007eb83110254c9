-- ===== src/Cuckoo/Masks.antt =====
-- The masks of include/cuckoo.hpp, which are 2 ^ j - 1, and the buckets of a key under the greatest one.
use Prim.Native.Nat.{bit_or}
use native.Mathlib.Nat.{pow-suc, one-le-pow, pow-le-pow_right}
use distributedsim.Base.{
  ℕ, zero, suc, ◌+◌, ◌-◌, ◌*◌, ◌/◌, ◌%◌, ◌^◌, ◌≤◌, ◌<◌, ◌≡◌, refl, ◌∙◌, inl, inr, false, ◌==◌,
  ==_iff, Bool-cases, arith,
}
use distributedsim.Rng.Bits.{or_step, and_mask}
use distributedsim.Rng.{u64}
use distributedsim.Cuckoo.{hash_1, hash_2, next_mask}

-- A number of `j` binary ones absorbs the numbers of `j` digits.
or_ones : (j m b : ℕ) → m + 1 ≡ 2 ^ j → b ≤ m → bit_or m b ≡ m
or_ones zero m b e h =
    let zero_m : m ≡ 0 = omega arith in let zero_b : b ≡ 0 = omega arith in rw (zero_m, zero_b) refl
or_ones (suc j) m b e h =
    let power = pow-suc 2 j in
    let positive : 1 ≤ 2 ^ j = one-le-pow j 2 (omega arith) in
    let half : m / 2 + 1 ≡ 2 ^ j = omega arith in
    let rest = or_ones j (m / 2) (b / 2) half (omega arith) in
    let digit = or_step m b in omega arith

pub next_mask_lem : (j m : ℕ) → m + 1 ≡ 2 ^ j → j ≤ 30 → next_mask m + 1 ≡ 2 ^ suc j
unfolding next_mask
next_mask_lem zero m e h = let zero_m : m ≡ 0 = omega arith in rw zero_m refl
next_mask_lem (suc j) m e h =
    let power = pow-suc 2 j in
    let positive : 1 ≤ 2 ^ j = one-le-pow j 2 (omega arith) in
    let bounded : 2 ^ suc j ≤ 2 ^ 30 = pow-le-pow_right (omega arith) h in
    let not_zero : (m == 0) ≡ false = elim (Bool-cases (m == 0)) [
      | inl n ↦ absurd (omega (arith, (==_iff m 0).0 n))
      | inr n ↦ n
    ] in
    let twice : u64 (m * 2) ≡ m * 2 = omega arith in
    let ones = or_ones (suc j) m (m / 2) e (omega arith) in
    let digit = or_step (m * 2) m in
    let high : m * 2 / 2 ≡ m = omega arith in
    let low : m * 2 % 2 ≡ 0 = omega arith in
    let last : m % 2 ≡ 1 = omega arith in
    let top = pow-suc 2 (suc j) in
    let all : bit_or (m * 2) m ≡ m * 2 + 1 = digit ∙ rw (high, low, last, ones) refl in
    rw (not_zero, twice, all) (omega arith)

module _ (m x : ℕ) (e : m + 1 ≡ 2 ^ 30) (key : x < 2 ^ 30) where
  pub hash-1_whole : hash_1 m x ≡ x
  unfolding hash_1
  hash-1_whole = let whole : m ≡ 2 ^ 30 - 1 = omega arith in rw whole (and_mask 30 x ∙ omega arith)

  pub hash-2_whole : hash_2 m x ≡ m - x
  unfolding hash_2
  hash-2_whole =
      let whole : m ≡ 2 ^ 30 - 1 = omega arith in
      rw whole (and_mask 30 (2 ^ 64 - 1 - x) ∙ omega arith)
