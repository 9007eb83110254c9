-- ===== src/Graph/Number.antt =====
-- The numbers of the edges, and the way back from a number by a square root.
use distributedsim.Base.{
  ◌^◌, ℕ, zero, suc, ◌+◌, ◌-◌, ◌*◌, ◌/◌, ◌≤◌, ◌<◌, ◌≡◌, inl, inr, refl, ap, ◌∙◌, arith, Bool-cases,
  ltb, ltb→lt, ltb→le,
}
use native.Mathlib.Nat.{mul-suc, suc-mul}
use distributedsim.Rng.{u64}
use distributedsim.Graph.{edge_number, edge_of}

-- Rounding the square root to the nearest whole number, of the numbers below 2 ^ 50: there the square
-- root in double is near enough to the square root.
abbrev pub IsRoot : (ℕ → ℕ) → Type 0
IsRoot root =
    (x : ℕ) → 0 < x → x < 2 ^ 50 → (root x * root x < x + root x) × (x ≤ root x * root x + root x)

-- The number of edges among the nodes below `n`.
unfoldable pub triangle : ℕ → ℕ
triangle zero = 0
triangle (suc n) = triangle n + n

pub square : (n : ℕ) → n * n ≡ 2 * triangle n + n
unfolding triangle
square zero = refl
square (suc n) = omega (arith, square n, mul-suc (suc n) n, suc-mul n n)

pub half_product : (n : ℕ) → n * (n - 1) / 2 ≡ triangle n
unfolding triangle
half_product zero = refl
half_product (suc n) =
    let twice : suc n * n ≡ 2 * (triangle n + n) = omega (arith, square n, suc-mul n n) in
    let pred : suc n - 1 ≡ n = omega arith in rw (pred, twice) (omega arith)

product : (n : ℕ) → n * (n - 1) ≡ 2 * triangle n
unfolding triangle
product zero = refl
product (suc n) =
    let pred : suc n - 1 ≡ n = omega arith in rw pred (omega (arith, square n, suc-mul n n))

-- Half of the product as it is in 64 bits, where it has room.
pub half_word : (n : ℕ) → triangle n < 2 ^ 63 → u64 (n * (n - 1)) / 2 ≡ triangle n
half_word n small = rw (product n) (omega arith)

pub edge_number-triangle : (i j : ℕ) → triangle i + j < 2 ^ 63 → edge_number i j ≡ triangle i + j
unfolding edge_number
edge_number-triangle i j small = rw (half_word i (omega arith)) (omega arith)

pub triangle_mono : (m n : ℕ) → m ≤ n → triangle m ≤ triangle n
unfolding triangle
triangle_mono zero n le = omega arith
triangle_mono (suc m) zero le = absurd (omega arith)
triangle_mono (suc m) (suc n) le = omega (arith, triangle_mono m n (omega arith))

same_row :
    (r i e : ℕ) → triangle r ≤ e → e < triangle r + r → triangle i ≤ e → e < triangle i + i → r ≡ i
unfolding triangle
same_row r i e a b c d = elim (Bool-cases (ltb r i)) [
  | inl lt ↦ absurd (omega (arith, triangle_mono (suc r) i (ltb→lt r i lt)))
  | inr ge ↦ elim (Bool-cases (ltb i r)) [
    | inl gt ↦ absurd (omega (arith, triangle_mono (suc i) r (ltb→lt i r gt)))
    | inr le ↦ omega (arith, ltb→le r i ge, ltb→le i r le)
  ]
]

-- The row of a number is that of its edge.
pub row_of :
    (root : ℕ → ℕ) (e : ℕ)
    → IsRoot root
    → e + 1 < 2 ^ 49
    → (u64 (2 * (e + 1)) ≡ 2 * (e + 1))
      × (triangle (root (2 * (e + 1))) ≤ e)
      × (e < triangle (root (2 * (e + 1))) + root (2 * (e + 1)))
row_of root e is_root word =
    let r = root (2 * (e + 1)) in
    let (above, below) = is_root (2 * (e + 1)) (omega arith) (omega arith) in
    (omega arith, omega (arith, square r), omega (arith, square r))

-- An edge number below 2 ^ 49 - 1 as its row and its place in the row.
pub edge_of-triangle :
    (root : ℕ → ℕ) (e : ℕ)
    → IsRoot root
    → e + 1 < 2 ^ 49
    → edge_of root e ≡ (root (2 * (e + 1)), e - triangle (root (2 * (e + 1))))
unfolding edge_of
edge_of-triangle root e is_root word =
    let (same, above, below) = row_of root e is_root word in
    let r = root (2 * (e + 1)) in
    rw (same, half_word r (omega arith)) (ap (λ (k : ℕ). (r, k)) (omega arith))

pub triangle_suc : (n : ℕ) → triangle (n + 1) ≡ triangle n + n
unfolding triangle
triangle_suc n = let one : n + 1 ≡ suc n = omega arith in rw one refl

pub small_triangle : (n : ℕ) → n ≤ 2 ^ 25 → triangle n < 2 ^ 49
small_triangle n h = let bound : n * n ≤ 2 ^ 25 * n = grind arith in omega (arith, square n)

-- Where `root` rounds the square roots of the numbers below 2 ^ 50 rightly, the number of an edge
-- gives the edge back, for every edge from a node below 2 ^ 25 to a smaller one.
pub edge_of-edge_number :
    (root : ℕ → ℕ) (i j : ℕ)
    → IsRoot root
    → j < i
    → i < 2 ^ 25
    → edge_of root (edge_number i j) ≡ (i, j)
edge_of-edge_number root i j is_root lt small =
    let e = triangle i + j in
    let room : triangle i + i < 2 ^ 49 =
      omega (arith, triangle_suc i, small_triangle (i + 1) (omega arith)) in
    let number = edge_number-triangle i j (omega arith) in
    let (same, above, below) = row_of root e is_root (omega arith) in
    let row = same_row (root (2 * (e + 1))) i e above below (omega arith) (omega arith) in
    ap (edge_of root) number
    ∙ (edge_of-triangle root e is_root (omega arith)
        ∙ rw row (ap (λ (k : ℕ). (i, k)) (omega arith)))
