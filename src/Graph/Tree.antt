-- ===== src/Graph/Tree.antt =====
-- The first edges of gen_conn_erdos: they join every node to a smaller one, and so all to node 0.
use distributedsim.Base.{ℕ, zero, suc, ◌+◌, ◌^◌, ◌<◌, ◌≡◌, refl, some, List, [], ◌∷◌, arith}
use distributedsim.Rng.{Xoroshiro, draw_below}
use distributedsim.Rng.State.{IsWide}
use distributedsim.Rng.Draws.{draw-bounds}
use distributedsim.Graph.{tree_edges}

-- One edge of every node from `i` on, `count` nodes, to a smaller node.
abbrev pub IsClimbing : ℕ → ℕ → List (ℕ × ℕ) → Type 0
IsClimbing zero i es = es ≡ []
IsClimbing (suc count) i [] = ⊥
IsClimbing (suc count) i ((a, b) ∷ es) = (a ≡ i) × (b < i) × IsClimbing count (i + 1) es

-- The first loop gives every node after the first one edge to a smaller node, so that the graph is
-- connected.
pub tree_edges-IsClimbing :
    {g : Xoroshiro} (count i : ℕ)
    → IsWide g
    → 0 < i
    → i + count < 2 ^ 64
    → (es : List (ℕ × ℕ)) × (g' : Xoroshiro) × (tree_edges count i g ≡ some (es, g'))
      × IsWide g'
      × IsClimbing count i es
unfolding tree_edges draw_below
tree_edges-IsClimbing {g} zero i wide pos small = ([], g, refl, wide, refl)
tree_edges-IsClimbing {g} (suc count) i wide pos small =
    let next = λ (g' : Xoroshiro) (w : IsWide g').
      tree_edges-IsClimbing {g = g'} count (i + 1) w (omega arith) (omega arith) in
    let (j, g', drawn, wide', lo, hi) = draw-bounds 0 i wide pos (omega arith) in
    let (es, g'', rest, wide'', climbs) = next g' wide' in
    ((i, j) ∷ es, g'', rw (drawn, rest), wide'', (refl, hi, climbs))
