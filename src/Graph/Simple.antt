-- ===== src/Graph/Simple.antt =====
-- gen_conn_erdos of include/graph_gen.hpp makes as many edges as are asked for, and no edge twice.
use distributedsim.Base.{
  ne→==, ℕ, suc, ◌+◌, ◌-◌, ◌*◌, ◌^◌, ◌<◌, ◌≡◌, ◌≢◌, refl, ap, ◌∙◌, sym, subst, inl, inr, false,
  ◌==◌, ==_iff, Bool-cases, List, [], ◌∷◌, map, All, All-mono, length, arith,
}
use distributedsim.Rng.Distinct.{Rises, Rises-All}
use distributedsim.Graph.{edge_number, edge_of}
use distributedsim.Graph.Number.{IsRoot, triangle, row_of, edge_of-triangle, edge_number-triangle}
use distributedsim.Graph.Joined.{joined}
use distributedsim.Graph.Erdos.{map-Descends}

-- No two edges of the list join the same nodes.
abbrev pub Unrepeated : List (ℕ × ℕ) → Type 0
Unrepeated [] = Unit
Unrepeated ((a, b) ∷ es) = (joined a b es ≡ false) × Unrepeated es

-- An edge whose number is not among those of others is none of them.
joined_free :
    (a b : ℕ) (es : List (ℕ × ℕ))
    → b < a
    → All (λ e. e.1 < e.0) es
    → All (λ e. edge_number e.0 e.1 ≢ edge_number a b) es
    → joined a b es ≡ false
unfolding joined
joined_free a b [] less down other = refl
joined_free a b ((c, d) ∷ es) less down other =
    let rest = joined_free a b es less down.1 other.1 in
    elim (Bool-cases (c == a)) [
      | inr f ↦ elim (Bool-cases (c == b)) [
        | inr g ↦ rw (f, g) rest
        | inl q ↦
            let c_is = (==_iff c b).0 q in
            let less' = down.0 in rw (f, q, ne→== d a (omega arith)) rest
      ]
      | inl p ↦
          let c_is = (==_iff c a).0 p in
          elim (Bool-cases (d == b)) [
            | inl q ↦ absurd (other.0 (let d_is = (==_iff d b).0 q in cc))
            | inr g ↦ rw (p, g, ne→== c b (omega arith)) rest
          ]
    ]

-- The number of the edge of a number is that number.
edge_number-edge_of :
    (root : ℕ → ℕ) (e : ℕ)
    → IsRoot root
    → e + 1 < 2 ^ 49
    → edge_number (edge_of root e).0 (edge_of root e).1 ≡ e
edge_number-edge_of root e is_root word =
    let r = root (2 * (e + 1)) in
    let (same, above, below) = row_of root e is_root word in
    rw (edge_of-triangle root e is_root word)
      (edge_number-triangle r (e - triangle r) (omega arith) ∙ omega arith)

module _ (root : ℕ → ℕ) (n : ℕ) (is_root : IsRoot root) (word : triangle n < 2 ^ 49) where
  -- The drawn edges have the drawn numbers.
  map_numbers :
      (P : ℕ → Type 0) (drawn : List ℕ)
      → All (λ e. e < triangle n) drawn
      → All P drawn
      → All (λ e. P (edge_number e.0 e.1)) (map (edge_of root) drawn)
  map_numbers P [] below h = tt
  map_numbers P (e ∷ drawn) below h =
      let number = edge_number-edge_of root e is_root (omega (arith, below.0)) in
      (subst P (sym number) h.0, map_numbers P drawn below.1 h.1)

  pub drawn-Unrepeated :
      (lo : ℕ) (drawn : List ℕ)
      → Rises lo drawn
      → All (λ e. e < triangle n) drawn
      → Unrepeated (map (edge_of root) drawn)
  drawn-Unrepeated lo [] rises below = tt
  drawn-Unrepeated lo (e ∷ drawn) rises below =
      let down = map-Descends root n (e ∷ drawn) is_root word below in
      let above = Rises-All (suc e) drawn rises.1 in
      let number = edge_number-edge_of root e is_root (omega (arith, below.0)) in
      (
        joined_free (edge_of root e).0 (edge_of root e).1 (map (edge_of root) drawn) down.0.0
            (All-mono _ (map (edge_of root) drawn) (λ x h. h.0) down.1)
            (map_numbers (λ x. x ≢ edge_number (edge_of root e).0 (edge_of root e).1) drawn below.1
              (All-mono _ drawn (λ x h same. omega (arith, number)) above)),
        drawn-Unrepeated (suc e) drawn rises.1 below.1,
      )

pub length-edges :
    (root : ℕ → ℕ) (drawn : List ℕ) → length {A = ℕ × ℕ} (map (edge_of root) drawn) ≡ length drawn
length-edges root [] = refl
length-edges root (e ∷ drawn) = ap suc (length-edges root drawn)
