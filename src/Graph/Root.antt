-- ===== src/Graph/Root.antt =====
-- A rounded square root that counts up, of the kind that include/graph_gen.hpp takes from the C library.
use distributedsim.Base.{
  ℕ, zero, suc, ◌+◌, ◌*◌, ◌≤◌, ◌<◌, arith, leb, if◌then◌else◌, Bool-cases, inl, inr, leb→le, leb→lt,
}
use native.Mathlib.Nat.{mul-suc, suc-mul}
use distributedsim.Graph.Number.{IsRoot}

abbrev pub count_root : ℕ → ℕ
count_root zero = 0
count_root (suc x) = let r = count_root x in if leb (suc x) (r * r + r) then r else suc r

count_root-le : (x : ℕ) → x ≤ count_root x * count_root x + count_root x
count_root-le zero = omega arith
count_root-le (suc x) =
    elim (Bool-cases (leb (suc x) (count_root x * count_root x + count_root x))) [
      | inl le ↦ rw le (leb→le (suc x) (count_root x * count_root x + count_root x) le)
      | inr gt ↦ rw gt (next_square x (count_root x) (count_root-le x))
    ]
  where
    next_square : (x r : ℕ) → x ≤ r * r + r → suc x ≤ suc r * suc r + suc r
    next_square x r h = omega (arith, mul-suc (suc r) r, suc-mul r r)

count_root-step :
    (x : ℕ)
    → count_root x * count_root x ≤ x + count_root x
    → count_root (suc x) * count_root (suc x) < suc x + count_root (suc x)
count_root-step x low =
    elim (Bool-cases (leb (suc x) (count_root x * count_root x + count_root x))) [
      | inl le ↦ rw le (omega arith)
      | inr gt ↦
          rw gt (
            grown x (count_root x) (leb→lt (suc x) (count_root x * count_root x + count_root x) gt))
    ]
  where
    grown : (x r : ℕ) → r * r + r < suc x → suc r * suc r < suc x + suc r
    grown x r h = omega (arith, mul-suc (suc r) r, suc-mul r r)

count_root-lt : (x : ℕ) → count_root (suc x) * count_root (suc x) < suc x + count_root (suc x)
count_root-lt zero = count_root-step 0 (omega arith)
count_root-lt (suc x) = count_root-step (suc x) (omega (arith, count_root-lt x))

pub count_root-IsRoot : IsRoot count_root
count_root-IsRoot zero pos small = absurd (omega arith)
count_root-IsRoot (suc x) pos small = (count_root-lt x, count_root-le (suc x))
