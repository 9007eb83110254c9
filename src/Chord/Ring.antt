-- ===== src/Chord/Ring.antt =====
-- Distances on the ring of the ids below 2 ^ bits, and the nearest node that successor finds.
use distributedsim.Base.{
  ℕ, ◌+◌, ◌-◌, ◌*◌, ◌%◌, ◌^◌, ◌≤◌, ◌<◌, ◌≡◌, inl, inr, refl, ◌∙◌, none, some, List, arith, leb,
  if◌then◌else◌, Bool-cases, ltb, ltb→lt, ltb→le,
}
use native.Mathlib.Nat.{mod-lt, mod-eq_of_lt, mod-eq-sub-mod}
use distributedsim.Manager.{has_bigger_id, next_id, lower_bound_id}
use distributedsim.Manager.Ids.{HasId, IsOrdered, lower_bound_id-least}
use distributedsim.Chord.{sub64, distance, successor}

-- The clockwise distance on a ring of `m` ids.
unfoldable pub ring : ℕ → ℕ → ℕ → ℕ
ring m x y = if leb x y then y - x else m + y - x

mod-back : (m x : ℕ) → m ≤ x → x < m + m → x % m + m ≡ x
mod-back m x le lt =
    let e : x % m ≡ x - m = mod-eq-sub-mod le ∙ mod-eq_of_lt (omega arith) in omega arith

pub ring-lt : (m x y : ℕ) → x < m → y < m → ring m x y < m
unfolding ring
ring-lt m x y hx hy = ground arith

ring-further :
    (m x d y : ℕ) → x < m → y < m → d ≤ ring m x y → x + d < m → ring m (x + d) y + d ≡ ring m x y
unfolding ring
ring-further m x d y hx hy h lt = ground arith

ring-around :
    (m x d z y : ℕ) → x < m → y < m → d ≤ ring m x y → z + m ≡ x + d → ring m z y + d ≡ ring m x y
unfolding ring
ring-around m x d z y hx hy h e = ground arith

-- A position that is `d` further on is `d` nearer to what lies beyond it.
pub ring-add :
    (m x d y : ℕ) → x < m → y < m → d ≤ ring m x y → ring m ((x + d) % m) y + d ≡ ring m x y
ring-add m x d y hx hy h = elim (Bool-cases (ltb (x + d) m)) [
  | inl e ↦
      let lt : x + d < m = ltb→lt (x + d) m e in
      let same : (x + d) % m ≡ x + d = mod-eq_of_lt lt in rw same (ring-further m x d y hx hy h lt)
  | inr e ↦
      let ge : m ≤ x + d = ltb→le (x + d) m e in
      let far : ring m x y < m = ring-lt m x y hx hy in
      ring-around m x d ((x + d) % m) y hx hy h (mod-back m (x + d) ge (omega arith))
]

ring-back-further :
    (m x d y : ℕ) → x + d < m → y < m → ring m (x + d) y + d < m → ring m x y ≡ ring m (x + d) y + d
unfolding ring
ring-back-further m x d y lt hy h = ground arith

ring-back-around :
    (m x d z y : ℕ)
    → x < m
    → y < m
    → z + m ≡ x + d
    → ring m z y + d < m
    → ring m x y ≡ ring m z y + d
unfolding ring
ring-back-around m x d z y hx hy e h = ground arith

-- The same from the position further on.
pub ring-back :
    (m x d y : ℕ)
    → x < m
    → y < m
    → ring m ((x + d) % m) y + d < m
    → ring m x y ≡ ring m ((x + d) % m) y + d
ring-back m x d y hx hy h = elim (Bool-cases (ltb (x + d) m)) [
  | inl e ↦
      let lt : x + d < m = ltb→lt (x + d) m e in
      let same : (x + d) % m ≡ x + d = mod-eq_of_lt lt in
      rw same (ring-back-further m x d y lt hy (rw same at h))
  | inr e ↦
      let ge : m ≤ x + d = ltb→le (x + d) m e in
      ring-back-around m x d ((x + d) % m) y hx hy (mod-back m (x + d) ge (omega arith)) h
]

ring-reach-around : (m x d y : ℕ) → x < m → y < m → d ≡ ring m x y → m ≤ x + d → y + m ≡ x + d
unfolding ring
ring-reach-around m x d y hx hy e h = ground arith

ring-reach-further : (m x d y : ℕ) → y < m → d ≡ ring m x y → x + d < m → x + d ≡ y
unfolding ring
ring-reach-further m x d y hy e h = ground arith

pub ring-reach : (m x y : ℕ) → x < m → y < m → (x + ring m x y) % m ≡ y
ring-reach m x y hx hy = elim (Bool-cases (ltb (x + ring m x y) m)) [
  | inl e ↦
      let lt = ltb→lt (x + ring m x y) m e in
      mod-eq_of_lt lt ∙ ring-reach-further m x (ring m x y) y hy refl lt
  | inr e ↦
      let ge = ltb→le (x + ring m x y) m e in
      let far = ring-lt m x y hx hy in
      omega (
        arith,
        mod-back m (x + ring m x y) ge (omega arith),
        ring-reach-around m x (ring m x y) y hx hy refl ge,
      )
]

pub ring-same : (m x y : ℕ) → y < m → x < m → ring m x y ≡ 0 → x ≡ y
unfolding ring
ring-same m x y hy hx e = ground arith

ring-behind-further :
    (m x d y : ℕ) → y < m → x + d < m → ring m x y < d → ring m (x + d) y + d ≡ m + ring m x y
unfolding ring
ring-behind-further m x d y hy lt h = ground arith

ring-behind-around :
    (m x d z y : ℕ)
    → x < m
    → y < m
    → z + m ≡ x + d
    → d < m
    → ring m x y < d
    → ring m z y + d ≡ m + ring m x y
unfolding ring
ring-behind-around m x d z y hx hy e lt h = ground arith

-- What a step of `d` jumps over is almost a full turn ahead.
pub ring-behind :
    (m x d y : ℕ)
    → x < m
    → y < m
    → d < m
    → ring m x y < d
    → ring m ((x + d) % m) y + d ≡ m + ring m x y
ring-behind m x d y hx hy hd h = elim (Bool-cases (ltb (x + d) m)) [
  | inl e ↦
      let lt = ltb→lt (x + d) m e in
      let same : (x + d) % m ≡ x + d = mod-eq_of_lt lt in
      rw same (ring-behind-further m x d y hy lt h)
  | inr e ↦
      let ge = ltb→le (x + d) m e in
      ring-behind-around m x d ((x + d) % m) y hx hy (mod-back m (x + d) ge (omega arith)) hd h
]

pub ring_self : (m x : ℕ) → ring m x x ≡ 0
unfolding ring
ring_self m x = ground arith

-- The wrap-around of size_t does no harm where 2 * 2 ^ bits fits in it.
pub distance-ring :
    (bits me other : ℕ)
    → 2 ^ bits ≤ 2 ^ 63
    → me < 2 ^ bits
    → other < 2 ^ bits
    → distance bits me other ≡ ring (2 ^ bits) me other
unfolding distance sub64 ring
distance-ring bits me other fits hm ho =
    let e : other % 2 ^ bits ≡ other = mod-eq_of_lt ho in rw e (ground arith)

nearest_ahead : (m i k j : ℕ) → i < m → k < m → i ≤ k → (i ≤ j → k ≤ j) → ring m i k ≤ ring m i j
unfolding ring
nearest_ahead m i k j hi hk ge least = ground arith

nearest_around : (m i k j : ℕ) → i < m → j < i → k < i → k ≤ j → ring m i k ≤ ring m i j
unfolding ring
nearest_around m i k j hi hj hk le = ground arith

module _ {ℓ} {N : Type ℓ} where
  -- `k` is the id of the node that is met first from `i` on, clockwise.
  abbrev pub IsNearest : ℕ → List (ℕ × N) → ℕ → ℕ → Type 0
  IsNearest m nodes i k = HasId nodes k × ((j : ℕ) → HasId nodes j → ring m i k ≤ ring m i j)

  -- A node lies in the further half of the ring, as seen from `x`.
  abbrev pub HasFar : ℕ → List (ℕ × N) → ℕ → Type 0
  HasFar bits nodes x = (p : ℕ) × HasId nodes p × (2 ^ bits ≤ 2 * ring (2 ^ bits) x p)

  found-successor :
      (bits i k : ℕ) (nodes : List (ℕ × N))
      → lower_bound_id nodes (i % 2 ^ bits) ≡ some k
      → successor bits nodes i ≡ some k
  unfolding successor has_bigger_id next_id
  found-successor bits i k nodes e = rw e

  wrapped-successor :
      (bits i k : ℕ) (nodes : List (ℕ × N))
      → lower_bound_id nodes (i % 2 ^ bits) ≡ none
      → lower_bound_id nodes 0 ≡ some k
      → successor bits nodes i ≡ some k
  unfolding successor has_bigger_id next_id
  wrapped-successor bits i k nodes e e0 = rw (e, e0)

  -- In a network that is not empty, the successor of an id is the node that is met first from it,
  -- clockwise on the ring.
  pub successor-IsNearest :
      (bits i p : ℕ) (nodes : List (ℕ × N))
      → IsOrdered 0 nodes
      → ((j : ℕ) → HasId nodes j → j < 2 ^ bits)
      → HasId nodes p
      → (k : ℕ) × (successor bits nodes i ≡ some k) × IsNearest (2 ^ bits) nodes (i % 2 ^ bits) k
  successor-IsNearest bits i p nodes o below hp =
      let at : i % 2 ^ bits < 2 ^ bits = mod-lt i (omega (arith, below p hp)) in
      elim (lower_bound_id-least 0 (i % 2 ^ bits) nodes o) [
        | inr (k, e, has, ge, least) ↦ (
          k,
          found-successor bits i k nodes e,
          (
            has,
            λ j hj. nearest_ahead (2 ^ bits) (i % 2 ^ bits) k j at (below k has) ge (least j hj),
          ),
        )
        | inl (e, all) ↦ elim (lower_bound_id-least 0 0 nodes o) [
          | inl (_, none_at) ↦ absurd (omega (arith, none_at p hp))
          | inr (k, e0, has, _, least) ↦ (
            k,
            wrapped-successor bits i k nodes e e0,
            (
              has,
              λ j hj.
                  nearest_around (2 ^ bits) (i % 2 ^ bits) k j at (all j hj) (all k has)
                    (least j hj (omega arith)),
            ),
          )
        ]
      ]
