-- ===== src/Cuckoo/Slots.antt =====
-- The slots of a table of include/cuckoo.hpp: where the two buckets of a key are, and what a search
-- in them returns.
use Prim.Native.Nat.{bit_and, bit_or, bit_and-bitwise}
use distributedsim.Base.{
  ℕ, zero, suc, ◌+◌, ◌*◌, ◌/◌, ◌%◌, ◌≤◌, ◌<◌, ◌≡◌, ◌≢◌, refl, ap, ◌∙◌, inl, inr, Bool, true, false,
  none, some, List, [], ◌∷◌, ◌==◌, if◌then◌else◌, Bool-cases, length, get_elem?, get_or, set, arith,
}
use distributedsim.Rng.Bits.{halving, and_step, or-zero, or_step}
use distributedsim.Cuckoo.{bucket_size, missing, find_slot}

pub and-le : (a b : ℕ) → bit_and a b ≤ b
and-le =
    halving (λ a. (b : ℕ) → bit_and a b ≤ b) from_zero
      λ n ih b. let one_step = and_step (suc n) b in let below = ih (b / 2) in omega arith
  where
    from_zero : (b : ℕ) → bit_and 0 b ≤ b
    from_zero b = let e : bit_and 0 b ≡ 0 = simp bit_and-bitwise in omega arith

pub or_first : (h : ℕ) → bit_or (2 * h) 0 ≡ h * 2
or_first h = omega (arith, or-zero (2 * h))

pub or_second : (h : ℕ) → bit_or (2 * h) 1 ≡ h * 2 + 1
or_second h =
    let low : 2 * h % 2 ≡ 0 = omega arith in
    let high : 2 * h / 2 ≡ h = omega arith in or_step (2 * h) 1 ∙ rw (low, high, or-zero) refl

-- What the slot holds.
abbrev pub slot : List ℕ → ℕ → ℕ
slot t i = get_or t i missing

pub get-slot : (t : List ℕ) (i : ℕ) → i < length t → get_elem? t i ≡ some (slot t i)
get-slot [] i h = absurd (omega arith)
get-slot (x ∷ t) zero h = refl
get-slot (x ∷ t) (suc i) h = get-slot t i (omega arith)

pub slot-set : (t : List ℕ) (i v : ℕ) → i < length t → slot (set t i v) i ≡ v
slot-set [] i v h = absurd (omega arith)
slot-set (x ∷ t) zero v h = refl
slot-set (x ∷ t) (suc i) v h = slot-set t i v (omega arith)

pub slot-set_other : (t : List ℕ) (i j v : ℕ) → i ≢ j → slot (set t i v) j ≡ slot t j
slot-set_other [] i j v n = refl
slot-set_other (x ∷ t) zero zero v n = absurd (n refl)
slot-set_other (x ∷ t) zero (suc j) v n = refl
slot-set_other (x ∷ t) (suc i) zero v n = refl
slot-set_other (x ∷ t) (suc i) (suc j) v n = slot-set_other t i j v (λ e. n (ap suc e))

pub find-slot :
    (v at : ℕ) (t : List ℕ)
    → at + 1 < length t
    → find_slot v t at bucket_size
      ≡ some
          (if slot t at == v then some at else if slot t (at + 1) == v then some (at + 1) else none)
unfolding find_slot
find-slot v at t h =
    rw (get-slot t at (omega arith), get-slot t (at + 1) h)
      elim (Bool-cases (slot t at == v)) [
        | inl e ↦ rw e refl
        | inr n ↦ rw n (some-if (slot t (at + 1) == v))
      ]
  where
    some-if :
        (b : Bool)
        → (if b then some (some (at + 1)) else some none) ≡ some (if b then some (at + 1) else none)
    some-if true = refl
    some-if false = refl
