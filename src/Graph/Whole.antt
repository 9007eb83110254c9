-- ===== src/Graph/Whole.antt =====
-- gen_conn_erdos of include/graph_gen.hpp where all edges are asked for.
use distributedsim.Base.{
  ℕ, zero, suc, ◌+◌, ◌-◌, ◌*◌, ◌/◌, ◌^◌, ◌≤◌, ◌<◌, ◌≡◌, ap, ◌∙◌, sym, subst, true, some, List, [],
  ◌∷◌, ◌++◌, map, All, All-mono, length, some_injective, arith,
}
use native.Mathlib.Decide.{dec_lt}
use distributedsim.Rng.{Xoroshiro, sort, get_distinct_below}
use distributedsim.Rng.State.{IsWide}
use distributedsim.Rng.Sort.{length-sort}
use distributedsim.Rng.Distinct.{Rises}
use distributedsim.Rng.Whole.{range_from, get_distinct-whole}
use distributedsim.Graph.{edge_number, edge_of, numbers, gen_conn_erdos}
use distributedsim.Graph.Number.{
  IsRoot, triangle, half_product, triangle_mono, triangle_suc, small_triangle, edge_number-triangle,
  edge_of-edge_number,
}
use distributedsim.Graph.Tree.{IsClimbing}
use distributedsim.Graph.Joined.{joined, joined_here, joined_there}
use distributedsim.Graph.Erdos.{
  raised, raised_bounds, Parts, erdos-Parts, length-climbing, length-numbers, length-range_from,
  range_from-All,
}
use distributedsim.Graph.Simple.{Unrepeated, drawn-Unrepeated, length-edges}

range_from-Rises : (lo count : ℕ) → Rises lo (range_from lo count)
range_from-Rises lo zero = tt
range_from-Rises lo (suc count) =
    let next : lo + 1 ≡ suc lo = omega arith in
    (
      omega arith,
      subst (λ k. Rises k (range_from (lo + 1) count)) next (range_from-Rises (lo + 1) count),
    )

-- An edge whose number is in a range is among the edges of the range.
range_from-joined :
    (root : ℕ → ℕ) (i j e lo count : ℕ)
    → edge_of root e ≡ (i, j)
    → lo ≤ e
    → e < lo + count
    → joined i j (map (edge_of root) (range_from lo count)) ≡ true
range_from-joined root i j e lo zero at le lt = absurd (omega arith)
range_from-joined root i j e lo (suc count) at le lt = elim (dec_lt lo e) [
  | yes later ↦
      joined_there i j (edge_of root lo) (map (edge_of root) (range_from (lo + 1) count))
        (range_from-joined root i j e (lo + 1) count at (omega arith) (omega arith))
  | no here ↦
      let first : lo ≡ e = omega arith in
      rw (first, at) (joined_here i j (map (edge_of root) (range_from (e + 1) count)))
]

-- Every two nodes are joined by an edge of the whole range.
module _ (root : ℕ → ℕ) (is_root : IsRoot root) (n : ℕ) (small : n ≤ 2 ^ 25) where
  all_joined :
      (i j : ℕ) → j < i → i < n → joined i j (map (edge_of root) (range_from 0 (triangle n))) ≡ true
  all_joined i j less inside =
      let room : triangle i + i ≤ triangle n =
        omega (arith, triangle_suc i, triangle_mono (i + 1) n (omega arith)) in
      let number = edge_number-triangle i j (omega (arith, small_triangle n small)) in
      range_from-joined root i j (edge_number i j) 0 (triangle n)
        (edge_of-edge_number root i j is_root less (omega arith)) (omega arith)
        (omega (arith, number))

  tree-joined :
      (count from : ℕ) (tree : List (ℕ × ℕ))
      → IsClimbing count from tree
      → from + count ≤ n
      → All (λ e. joined e.0 e.1 (map (edge_of root) (range_from 0 (triangle n))) ≡ true) tree
  tree-joined zero from tree c le = rw c tt
  tree-joined (suc count) from [] c le = absurd c
  tree-joined (suc count) from ((a, b) ∷ tree) (same, less, c) le = (
    all_joined a b (omega arith) (omega arith),
    tree-joined count (from + 1) tree c (omega arith),
  )

-- Where at least as many edges are asked for as the graph can have, gen_conn_erdos makes the edges of a
-- tree and then, without repetition, one for every two nodes, so that each edge of the tree is made
-- a second time. There are at most 2 ^ 25 nodes, fewer than 2 ^ 31 edges are asked for, and the root that is taken of a number below 2 ^ 50
-- is rounded rightly.
pub gen_conn_erdos-repeated :
    {g : Xoroshiro} (root : ℕ → ℕ) (n m : ℕ)
    → IsRoot root
    → IsWide g
    → 0 < n
    → n ≤ 2 ^ 25
    → m < 2 ^ 31
    → n * (n - 1) / 2 ≤ raised n m
    → (tree : List (ℕ × ℕ)) × (all : List (ℕ × ℕ)) × (g' : Xoroshiro) × (gen_conn_erdos root g n m
        ≡ some (tree ++ all, g'))
      × (length tree ≡ n - 1)
      × IsClimbing (n - 1) 1 tree
      × (length all ≡ n * (n - 1) / 2)
      × Unrepeated all
      × ((i j : ℕ) → j < i → i < n → joined i j all ≡ true)
      × All (λ e. joined e.0 e.1 all ≡ true) tree
unfolding Parts get_distinct_below
gen_conn_erdos-repeated {g} root n m is_root wide pos small few full =
    let (es, g', e, wide', (tree, g1, drawn, same, wide1, climbs, e2, below)) =
      erdos-Parts {g = g} root n m is_root wide pos small few in
    let T = triangle n in
    let half = half_product n in
    let bounds = raised_bounds n m pos small few in
    let nodes = length-climbing (n - 1) 1 tree climbs in
    let many : length (sort (numbers tree)) ≡ n - 1 =
      length-sort (numbers tree) ∙ (length-numbers tree ∙ nodes) in
    let e3 =
      get_distinct-whole g1 (raised n m + 1 - n) 0 T (sort (numbers tree)) (omega (arith, many))
        (omega (arith, many)) in
    let drawn_is : drawn ≡ range_from 0 (T - 0) =
      ap (λ p. p.0) (some_injective (drawn, g') (range_from 0 (T - 0), g1) (sym e2 ∙ e3)) in
    let top : T - 0 ≡ T = omega arith in
    let edges : es ≡ tree ++ map (edge_of root) (range_from 0 T) =
      same ∙ ap (λ xs. tree ++ map (edge_of root) xs) (drawn_is ∙ ap (range_from 0) top) in
    let below_top = All-mono _ (range_from 0 T) (λ x h. omega arith) (range_from-All 0 T) in
    (
      tree,
      map (edge_of root) (range_from 0 T),
      g',
      e ∙ ap (λ xs. some (xs, g')) edges,
      nodes,
      climbs,
      omega (arith, length-edges root (range_from 0 T), length-range_from 0 T),
      drawn-Unrepeated root n is_root (small_triangle n small) 0 (range_from 0 T)
          (range_from-Rises 0 T) below_top,
      all_joined root is_root n small,
      tree-joined root is_root n small (n - 1) 1 tree climbs (omega arith),
    )
