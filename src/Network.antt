-- ===== src/Network.antt =====
-- include/graph_hwm.hpp: GraphHardwareManager, a manager whose nodes send along the edges of a graph.
-- A set of neighbours is any type with the operations of a KeySet; Network.Edges says what it promises.
-- `none` is an exception or undefined behaviour.
pub mod Edges
pub mod Ids
pub mod Hashed
mod Tests
use distributedsim.Base.{
  ℕ, zero, suc, ◌%◌, Bool, true, false, not, ◌||◌, Option, none, some, List, [], ◌∷◌, ◌++◌, leb,
  ◌==◌, if◌then◌else◌, ◌>>=◌, length, get_elem?, set,
}
use distributedsim.Rng.{Xoroshiro, next}
use distributedsim.Manager.{emplace}
use distributedsim.Manager.Neighbours.{visit}
use distributedsim.Cuckoo

-- The set of neighbours, with the operations that the graph calls.
pub record KeySet (S : Type 0) : Type 0 where
  pub empty : S
  pub count : ℕ → S → Option Bool
  pub insert : ℕ → S → Option S
  pub elements : S → Option (List ℕ)

-- include/cuckoo.hpp as such a set.
abbrev pub cuckoo_set : ℕ → KeySet Cuckoo.CuckooSet
cuckoo_set fuel = record {
  empty = Cuckoo.new_set;
  count = Cuckoo.count;
  insert = Cuckoo.insert fuel;
  elements = Cuckoo.elements;
}

pub record Network (N S : Type 0) : Type 0 where
  pub nodes : List (ℕ × N)
  pub graph : List S

unfoldable pub gen_id : Option ℕ
gen_id = none

-- `graph[a].insert(b);`
unfoldable pub link : {S : Type 0} → KeySet S → ℕ → ℕ → List S → Option (List S)
link sets a b graph = do s ← get_elem? graph a; s' ← sets.insert b s; some (set graph a s')

module _ {N S : Type 0} (sets : KeySet S) where
  unfoldable pub can_send : Network N S → ℕ → ℕ → Option Bool
  can_send net a b = do s ← get_elem? net.graph a; sets.count b s

  unfoldable pub iter_neighbours {κ} :
      {X : Type κ} → Network N S → ℕ → (ℕ → X → Bool × X) → X → Option X
  iter_neighbours net n callback x = do
    s ← get_elem? net.graph n
    ks ← sets.elements s
    some (visit callback ks x)

  -- The base class's, over this iteration.
  unfoldable pub get_neighbours : Network N S → ℕ → Option (List ℕ)
  unfolding iter_neighbours
  get_neighbours net n = iter_neighbours net n (λ neigh ans. (true, ans ++ neigh ∷ [])) []

  -- `rng() % graph.size()`; `% 0` is undefined.
  unfoldable pub get_random_node : Xoroshiro → Network N S → Option (ℕ × Xoroshiro)
  get_random_node g net =
      let (r, g') = next g in
      if length net.graph == 0 then none else some (r % length net.graph, g')

  unfoldable pub add_node : (ℕ → N) → Network N S → Network N S
  add_node make net = record {
    nodes = emplace net.nodes (length net.graph) (make (length net.graph));
    graph = net.graph ++ sets.empty ∷ [];
  }

  unfoldable pub add_edge : Bool → ℕ → ℕ → Network N S → Option (Network N S)
  unfolding link
  add_edge directed a b net =
      let linked = (do
        graph ← link sets a b net.graph
        graph' ← (if not directed then link sets b a graph else some graph)
        some (record net { graph = graph' })) in
      if leb (length net.graph) a || leb (length net.graph) b then none else linked
