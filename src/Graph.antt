-- ===== src/Graph.antt =====
-- include/graph_gen.hpp: random graphs. `root` stands for `round(sqrt(x))` on doubles. Numbers of
-- nodes and edges are not negative, and of type int, so that the product of two of them stays below
-- 2 ^ 62; the numbers of edges wrap.
pub mod Number
pub mod Root
pub mod Tree
pub mod Preferential
pub mod Joined
pub mod Erdos
pub mod Grown
pub mod Simple
pub mod Whole
pub mod Printer
mod Tests
use distributedsim.Base.{
  ℕ, zero, suc, ◌+◌, ◌-◌, ◌*◌, ◌/◌, ◌^◌, Option, none, some, List, [], ◌∷◌, ◌++◌, map, ltb,
  if◌then◌else◌, ◌>>=◌,
}
use distributedsim.Rng.{u64, Xoroshiro, draw_below, sort, get_distinct_below}

-- The number of an edge, from its larger node to its smaller one.
unfoldable pub edge_number : ℕ → ℕ → ℕ
edge_number first second = u64 (u64 (first * (first - 1)) / 2 + second)

-- Back from the number, in size_t.
unfoldable pub edge_of : (ℕ → ℕ) → ℕ → ℕ × ℕ
edge_of root edg =
    let first = root (u64 (2 * (edg + 1))) in
    (first, u64 (edg + 2 ^ 64 - u64 (first * (first - 1)) / 2))

-- The first loop: `count` rounds, from `i` on.
unfoldable pub tree_edges : ℕ → ℕ → Xoroshiro → Option (List (ℕ × ℕ) × Xoroshiro)
tree_edges zero i g = some ([], g)
tree_edges (suc count) i g = do
  (j, g') ← draw_below g i
  (es, g'') ← tree_edges count (i + 1) g'
  some ((i, j) ∷ es, g'')

unfoldable pub numbers : List (ℕ × ℕ) → List ℕ
unfolding edge_number
numbers [] = []
numbers ((first, second) ∷ es) = edge_number first second ∷ numbers es

unfoldable pub gen_conn_erdos : (ℕ → ℕ) → Xoroshiro → ℕ → ℕ → Option (List (ℕ × ℕ) × Xoroshiro)
unfolding edge_of tree_edges numbers
gen_conn_erdos root g n m =
    let m' = if ltb (m + 1) n then n - 1 else m in
    do
      (ans, g') ← tree_edges (n - 1) 1 g
      (to_add, g'') ← get_distinct_below g' (m' + 1 - n) (n * (n - 1) / 2) (sort (numbers ans))
      some (ans ++ map (edge_of root) to_add, g'')
