-- ===== src/Rng/State.antt =====
-- The generator's state: a step stays within 64 bits and can be undone, so no two states meet and
-- the all-zero state is never entered.
use Prim.Native.Nat.{bit_or, bit_xor}
use distributedsim.Base.{ℕ, ◌+◌, ◌*◌, ◌/◌, ◌%◌, ◌^◌, ◌<◌, ◌≡◌, ◌≢◌, refl, sym, ap, ◌∙◌, arith}
use distributedsim.Rng.{Xoroshiro, u64, rotl, next}
use distributedsim.Rng.Bits.{xor_cancel, xor-lt, or_disjoint}

-- Both words fit 64 bits.
pub record IsWide (g : Xoroshiro) : Type 0 where
  pub s0_fits : g.s0 < 2 ^ 64
  pub s1_fits : g.s1 < 2 ^ 64

-- A rotation as arithmetic, at the distances that the generator uses and at their inverses.
module _ (x : ℕ) (fits : x < 2 ^ 64) where
  rotl_55 : rotl x 55 ≡ x % 2 ^ 9 * 2 ^ 55 + x / 2 ^ 9
  unfolding rotl
  rotl_55 = omega (
    arith,
    ap (λ (t : ℕ). bit_or t (x / 2 ^ 9)) moved,
    or_disjoint 55 (x % 2 ^ 9) (x / 2 ^ 9) (omega arith),
  )
    where
      moved : u64 (x * 2 ^ 55) ≡ x % 2 ^ 9 * 2 ^ 55
      moved = omega arith

  rotl_36 : rotl x 36 ≡ x % 2 ^ 28 * 2 ^ 36 + x / 2 ^ 28
  unfolding rotl
  rotl_36 = omega (
    arith,
    ap (λ (t : ℕ). bit_or t (x / 2 ^ 28)) moved,
    or_disjoint 36 (x % 2 ^ 28) (x / 2 ^ 28) (omega arith),
  )
    where
      moved : u64 (x * 2 ^ 36) ≡ x % 2 ^ 28 * 2 ^ 36
      moved = omega arith

  rotl_9 : rotl x 9 ≡ x % 2 ^ 55 * 2 ^ 9 + x / 2 ^ 55
  unfolding rotl
  rotl_9 = omega (
    arith,
    ap (λ (t : ℕ). bit_or t (x / 2 ^ 55)) moved,
    or_disjoint 9 (x % 2 ^ 55) (x / 2 ^ 55) (omega arith),
  )
    where
      moved : u64 (x * 2 ^ 9) ≡ x % 2 ^ 55 * 2 ^ 9
      moved = omega arith

  rotl_28 : rotl x 28 ≡ x % 2 ^ 36 * 2 ^ 28 + x / 2 ^ 36
  unfolding rotl
  rotl_28 = omega (
    arith,
    ap (λ (t : ℕ). bit_or t (x / 2 ^ 36)) moved,
    or_disjoint 28 (x % 2 ^ 36) (x / 2 ^ 36) (omega arith),
  )
    where
      moved : u64 (x * 2 ^ 28) ≡ x % 2 ^ 36 * 2 ^ 28
      moved = omega arith

module _ (x : ℕ) (fits : x < 2 ^ 64) where
  rotl_55-lt : rotl x 55 < 2 ^ 64
  rotl_55-lt = omega (arith, rotl_55 x fits)

  rotl_36-lt : rotl x 36 < 2 ^ 64
  rotl_36-lt = omega (arith, rotl_36 x fits)

  unrotl_55 : rotl (rotl x 55) 9 ≡ x
  unrotl_55 = omega (arith, rotl_55 x fits, rotl_9 (rotl x 55) rotl_55-lt)

  unrotl_36 : rotl (rotl x 36) 28 ≡ x
  unrotl_36 = omega (arith, rotl_36 x fits, rotl_28 (rotl x 36) rotl_36-lt)

-- The state before a step.
pub prev : Xoroshiro → Xoroshiro
prev g =
    let mixed = rotl g.s1 28 in
    let s0 = rotl (bit_xor (bit_xor g.s0 (u64 (mixed * 2 ^ 14))) mixed) 9 in
    record { s0 = s0; s1 = bit_xor mixed s0 }

module _ {g : Xoroshiro} (wide : IsWide g) where
  mixed-lt : bit_xor g.s1 g.s0 < 2 ^ 64
  mixed-lt = xor-lt 64 g.s1 g.s0 wide.s1_fits wide.s0_fits

  -- A step keeps both words, and gives a number, within 64 bits.
  pub next-IsWide : IsWide (next g).1 × ((next g).0 < 2 ^ 64)
  unfolding next
  next-IsWide = (
    record {
      s0_fits = xor-lt 64 _ _ (xor-lt 64 _ _ (rotl_55-lt g.s0 wide.s0_fits) mixed-lt) (omega arith);
      s1_fits = rotl_36-lt _ mixed-lt;
    },
    omega arith,
  )

  -- A step can be undone: the state before it is a function of the state after it.
  pub prev-next : prev (next g).1 ≡ g
  unfolding prev next
  prev-next =
      rw (unrotl_36 _ mixed-lt, xor_cancel, xor_cancel, unrotl_55 g.s0 wide.s0_fits, xor_cancel)

-- No two states step to the same state.
pub next-injective : {g h : Xoroshiro} → IsWide g → IsWide h → (next g).1 ≡ (next h).1 → g ≡ h
next-injective wide_g wide_h e = sym (prev-next wide_g) ∙ ap prev e ∙ prev-next wide_h

abbrev pub all_zero : Xoroshiro
all_zero = record { s0 = 0; s1 = 0 }

next-all_zero : (next all_zero).1 ≡ all_zero
unfolding next rotl
next-all_zero = refl

-- The all-zero state, from which every number would be zero, is not reached from any other.
pub next-ne-all_zero : {g : Xoroshiro} → IsWide g → g ≢ all_zero → (next g).1 ≢ all_zero
next-ne-all_zero wide ne e = ne (
    next-injective wide (record { s0_fits = omega arith; s1_fits = omega arith })
      (e ∙ sym next-all_zero))
