-- ===== src/Rng/Bits.antt =====
-- What the generator's words need of `^`, `|` and `<<` at every value, from the recursion on
-- binary digits that the native operations stand for.
use Prim.Native.Nat.{
  bit_and, bit_or, bit_xor, max, min, digits, differ, bitwise, bit_and-bitwise, bit_or-bitwise,
  bit_xor-bitwise,
}
use mathlib.Core.WellFounded.{Acc, WellFounded, induction}
use native.Mathlib.Decide.{dec_le}
use native.Mathlib.Nat.{pow-suc, one-le-pow}
use distributedsim.Base.{
  ℕ, zero, suc, ◌+◌, ◌-◌, ◌*◌, ◌/◌, ◌%◌, ◌^◌, ◌≤◌, ◌<◌, ◌≡◌, refl, ap, ◌∙◌, arith,
}

Acc-lt : (k n : ℕ) → n < k → Acc ◌<◌ n
Acc-lt zero n h = elim h [ ]
Acc-lt (suc k) n h = Acc.intro n (λ m hm. Acc-lt k m (omega arith))

lt_wf : WellFounded ◌<◌
lt_wf = record { apply = λ n. Acc-lt (suc n) n (omega arith) }

-- Induction from a number's half.
pub halving {ℓ} : (P : ℕ → Type ℓ) → P 0 → ((n : ℕ) → P (suc n / 2) → P (suc n)) → (n : ℕ) → P n
halving P base step n = induction lt_wf {C = P} n go
  where
    go : (k : ℕ) → ((m : ℕ) → m < k → P m) → P k
    go zero ih = base
    go (suc k) ih = step k (ih (suc k / 2) (omega arith))

-- A digit recursion does not depend on its fuel, so it obeys one equation for the lowest digit,
-- given that equation at the left argument 0.
module _ (z : ℕ → ℕ) (f : ℕ → ℕ → ℕ) (from_zero : (b : ℕ) → z b ≡ z (b / 2) * 2 + f 0 (b % 2)) where
  one_more : (n a b : ℕ) → a ≤ n → digits z f (suc n) a b ≡ digits z f n a b
  one_more zero zero b h = refl
  one_more (suc n) zero b h = refl
  one_more zero (suc a) b h = absurd (omega arith)
  one_more (suc n) (suc a) b h =
      ap (λ (t : ℕ). t * 2 + f (suc a % 2) (b % 2)) (one_more n (suc a / 2) (b / 2) (omega arith))

  any_fuel : (n a b : ℕ) → a ≤ n → digits z f n a b ≡ bitwise z f a b
  any_fuel zero zero b h = refl
  any_fuel zero (suc a) b h = absurd (omega arith)
  any_fuel (suc n) a b h = elim (dec_le a n) [
    | yes below ↦ one_more n a b below ∙ any_fuel n a b below
    | no last ↦ let e : suc n ≡ a = omega arith in ap (λ (t : ℕ). digits z f t a b) e
  ]

  lowest_digit : (a b : ℕ) → bitwise z f a b ≡ bitwise z f (a / 2) (b / 2) * 2 + f (a % 2) (b % 2)
  lowest_digit zero b = from_zero b
  lowest_digit (suc a) b =
      ap (λ (t : ℕ). t * 2 + f (suc a % 2) (b % 2)) (any_fuel a (suc a / 2) (b / 2) (omega arith))

pub and_step : (a b : ℕ) → bit_and a b ≡ bit_and (a / 2) (b / 2) * 2 + min (a % 2) (b % 2)
and_step a b = simp bit_and-bitwise (lowest_digit (λ _. 0) min (λ b. omega arith) a b)

pub or_step : (a b : ℕ) → bit_or a b ≡ bit_or (a / 2) (b / 2) * 2 + max (a % 2) (b % 2)
or_step a b = simp bit_or-bitwise (lowest_digit (λ y. y) max (λ b. omega arith) a b)

xor_step : (a b : ℕ) → bit_xor a b ≡ bit_xor (a / 2) (b / 2) * 2 + differ (a % 2) (b % 2)
xor_step a b = simp bit_xor-bitwise (lowest_digit (λ y. y) differ (λ b. omega arith) a b)

differ-lt : (x y : ℕ) → x < 2 → y < 2 → differ x y < 2
differ-lt zero y h k = k
differ-lt (suc zero) zero h k = omega arith
differ-lt (suc zero) (suc y) h k = omega arith
differ-lt (suc (suc x)) y h k = absurd (omega arith)

differ-differ : (x y : ℕ) → x < 2 → y < 2 → differ (differ x y) y ≡ x
differ-differ zero zero h k = refl
differ-differ zero (suc zero) h k = refl
differ-differ (suc zero) zero h k = refl
differ-differ (suc zero) (suc zero) h k = refl
differ-differ (suc (suc x)) y h k = absurd (omega arith)
differ-differ x (suc (suc y)) h k = absurd (omega arith)

zero-xor : (b : ℕ) → bit_xor 0 b ≡ b
zero-xor b = simp bit_xor-bitwise

xor_self : (a : ℕ) → bit_xor a a ≡ 0
xor_self =
    halving (λ a. bit_xor a a ≡ 0) refl
      λ n ih. omega (arith, xor_step (suc n) (suc n), same (suc n % 2))
  where
    same : (x : ℕ) → differ x x ≡ 0
    same zero = refl
    same (suc x) = same x

-- `^ b` undoes itself.
pub xor_cancel : (a b : ℕ) → bit_xor (bit_xor a b) b ≡ a
xor_cancel =
    halving (λ a. (b : ℕ) → bit_xor (bit_xor a b) b ≡ a) (λ b. rw zero-xor (xor_self b))
      λ n ih b. digit (suc n) b (ih (b / 2))
  where
    digit :
        (a b : ℕ) → bit_xor (bit_xor (a / 2) (b / 2)) (b / 2) ≡ a / 2 → bit_xor (bit_xor a b) b ≡ a
    digit a b ih =
        let x = bit_xor (a / 2) (b / 2) in
        let d = differ (a % 2) (b % 2) in
        let small : d < 2 = differ-lt (a % 2) (b % 2) (omega arith) (omega arith) in
        let top : (x * 2 + d) / 2 ≡ x = omega arith in
        let low : (x * 2 + d) % 2 ≡ d = omega arith in
        rw
          (
            xor_step a b,
            xor_step (x * 2 + d) b,
            top,
            low,
            ih,
            differ-differ (a % 2) (b % 2) (omega arith) (omega arith),
          )
          (omega arith)

pub xor-lt : (k a b : ℕ) → a < 2 ^ k → b < 2 ^ k → bit_xor a b < 2 ^ k
xor-lt zero zero zero p q = omega arith
xor-lt zero (suc a) b p q = absurd (omega arith)
xor-lt zero a (suc b) p q = absurd (omega arith)
xor-lt (suc k) a b p q = omega (
  arith,
  pow-suc 2 k,
  xor_step a b,
  xor-lt k (a / 2) (b / 2) (omega (arith, pow-suc 2 k)) (omega (arith, pow-suc 2 k)),
  differ-lt (a % 2) (b % 2) (omega arith) (omega arith),
)

pub or-zero : (a : ℕ) → bit_or a 0 ≡ a
or-zero = halving (λ a. bit_or a 0 ≡ a) refl (λ n ih. omega (arith, or_step (suc n) 0, ih))

and-zero : (a : ℕ) → bit_and a 0 ≡ 0
and-zero = halving (λ a. bit_and a 0 ≡ 0) refl (λ n ih. omega (arith, and_step (suc n) 0, ih))

-- `|` of two fields that do not overlap is their sum.
pub or_disjoint : (k q r : ℕ) → r < 2 ^ k → bit_or (q * 2 ^ k) r ≡ q * 2 ^ k + r
or_disjoint zero q r fits = ground (arith, or-zero q)
or_disjoint (suc k) q r fits =
    let shift : q * 2 ^ suc k ≡ 2 * (q * 2 ^ k) =
      omega (arith, ap (λ (t : ℕ). q * t) (pow-suc 2 k)) in
    ground
      (arith, pow-suc 2 k, or_step (q * 2 ^ suc k) r, shift, or_disjoint k q (r / 2) (omega arith))

pub and_low : (k q r : ℕ) → r < 2 ^ k → bit_and (q * 2 ^ k + r) (2 ^ k - 1) ≡ r
and_low zero q r fits = rw and-zero (omega arith)
and_low (suc k) q r fits =
    let shift : q * 2 ^ suc k ≡ 2 * (q * 2 ^ k) =
      omega (arith, ap (λ (t : ℕ). q * t) (pow-suc 2 k)) in
    ground (
      arith,
      pow-suc 2 k,
      one-le-pow k 2,
      and_step (q * 2 ^ suc k + r) (2 ^ suc k - 1),
      shift,
      and_low k q (r / 2) (omega arith),
    )

-- `&` with a mask of `k` ones is the remainder by `2 ^ k`.
pub and_mask : (k a : ℕ) → bit_and a (2 ^ k - 1) ≡ a % 2 ^ k
and_mask k a = ground (arith, one-le-pow k 2, and_low k (a / 2 ^ k) (a % 2 ^ k))
