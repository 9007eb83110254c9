-- ===== src/Graph/Preferential.antt =====
-- include/graph_gen.hpp: gen_barabasi_albert. Numbers of nodes are not negative.
use distributedsim.Base.{
  ℕ, zero, suc, ◌+◌, ◌-◌, Option, some, List, [], ◌∷◌, ◌++◌, map, ◌==◌, if◌then◌else◌, ◌>>=◌,
  length, get_elem?,
}
use distributedsim.Rng.{Xoroshiro, sort, get_distinct_below}

-- Both ends of the edges with the numbers `ids`.
unfoldable pub ends_of : List (ℕ × ℕ) → List ℕ → Option (List ℕ)
ends_of ans [] = some []
ends_of ans (idx ∷ ids) = do
  (first, second) ← get_elem? ans idx
  neighs ← ends_of ans ids
  some (first ∷ second ∷ neighs)

-- std::unique
unfoldable pub unique : List ℕ → List ℕ
unique [] = []
unique (x ∷ []) = x ∷ []
unique (x ∷ y ∷ ys) = let rest = unique (y ∷ ys) in if x == y then rest else x ∷ rest

-- One round of the loop: the edges of node `i`.
unfoldable pub grow_graph : ℕ → ℕ → List (ℕ × ℕ) → Xoroshiro → Option (List (ℕ × ℕ) × Xoroshiro)
unfolding ends_of unique
grow_graph k i ans g = do
  (ids, g') ← get_distinct_below g k (length ans) []
  neighs ← ends_of ans ids
  some (ans ++ map (λ neigh. (i, neigh)) (unique (sort neighs)), g')

-- The loop: `count` rounds, from node `i` on.
unfoldable pub grow_graphs :
    ℕ → ℕ → ℕ → List (ℕ × ℕ) → Xoroshiro → Option (List (ℕ × ℕ) × Xoroshiro)
unfolding grow_graph
grow_graphs zero k i ans g = some (ans, g)
grow_graphs (suc count) k i ans g = do
  (ans', g') ← grow_graph k i ans g
  grow_graphs count k (i + 1) ans' g'

unfoldable pub gen_barabasi_albert : Xoroshiro → ℕ → ℕ → Option (List (ℕ × ℕ) × Xoroshiro)
unfolding grow_graphs
gen_barabasi_albert g n k = grow_graphs (n - 2) k 2 ((1, 0) ∷ []) g
