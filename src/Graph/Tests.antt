-- ===== src/Graph/Tests.antt =====
-- The edge from node 5 to node 3, and random graphs.
use distributedsim.Base.{ℕ, ◌<◌, ◌≡◌, true, some, List, ◌++◌, All, length, arith}
use distributedsim.Graph.Tree.{IsClimbing}
use distributedsim.Graph.Joined.{joined}
use distributedsim.Rng.{Xoroshiro}
use distributedsim.Rng.State.{IsWide}
use distributedsim.Graph.{edge_of, edge_number, gen_conn_erdos}
use distributedsim.Graph.Number.{edge_of-edge_number}
use distributedsim.Graph.Root.{count_root, count_root-IsRoot}
use distributedsim.Graph.Simple.{Unrepeated}
use distributedsim.Graph.Whole.{gen_conn_erdos-repeated}

edge_of-edge_number_example : edge_of count_root (edge_number 5 3) ≡ (5, 3)
edge_of-edge_number_example =
    edge_of-edge_number count_root 5 3 count_root-IsRoot (omega arith) (omega arith)

abbrev seed : Xoroshiro
seed = record { s0 = 1; s1 = 0 }

seed-IsWide : IsWide seed
seed-IsWide = record { s0_fits = omega arith; s1_fits = omega arith }

gen_conn_erdos-repeated_example :
    (tree : List (ℕ × ℕ)) × (all : List (ℕ × ℕ)) × (g : Xoroshiro) × (gen_conn_erdos count_root seed
        3 3
      ≡ some (tree ++ all, g))
    × (length tree ≡ 2)
    × IsClimbing 2 1 tree
    × (length all ≡ 3)
    × Unrepeated all
    × ((i j : ℕ) → j < i → i < 3 → joined i j all ≡ true)
    × All (λ e. joined e.0 e.1 all ≡ true) tree
gen_conn_erdos-repeated_example =
    gen_conn_erdos-repeated count_root 3 3 count_root-IsRoot seed-IsWide (omega arith) (omega arith)
      (omega arith) (omega arith)
