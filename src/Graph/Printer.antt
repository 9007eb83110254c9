-- ===== src/Graph/Printer.antt =====
-- examples/graph_gen.cpp: the program that prints a graph. `atoi` and `show`, the decimal digits of a
-- number, are library functions; `root` is as in Graph.
use distributedsim.Base.{ℕ, ◌∷◌, Option, none, some, List, [], ◌++◌, if◌then◌else◌, chars}
use distributedsim.Rng.{Xoroshiro}
use distributedsim.Config.{same}
use distributedsim.Graph.{gen_conn_erdos}
use distributedsim.Graph.Preferential.{gen_barabasi_albert}

-- What the program prints: an error, or the lines of a graph.
pub data Printed : Type 0 where
  usage : Printed
  unknown_type : List ℕ → Printed
  csv : List (List ℕ) → Printed

module _ (root : ℕ → ℕ) (atoi : List ℕ → ℕ) (show : ℕ → List ℕ) where
  unfoldable pub csv_lines : List (ℕ × ℕ) → List (List ℕ)
  csv_lines [] = []
  csv_lines ((first, second) ∷ edges) = (show first ++ chars ";" ++ show second) ∷ csv_lines edges

  abbrev pub print_edges : Option (List (ℕ × ℕ) × Xoroshiro) → Option Printed
  print_edges none = none
  print_edges (some (edges, g)) = some (csv (csv_lines edges))

  -- main, with the arguments after the name of the program; the seed among them is not used.
  unfoldable pub print_graph : Xoroshiro → List (List ℕ) → Option Printed
  unfolding csv_lines
  print_graph g [] = some usage
  print_graph g (kind ∷ []) = some usage
  print_graph g (kind ∷ n ∷ []) = some usage
  print_graph g (kind ∷ n ∷ par ∷ rest) =
      let erdos = print_edges (gen_conn_erdos root g (atoi n) (atoi par)) in
      let barabasi = print_edges (gen_barabasi_albert g (atoi n) (atoi par)) in
      if same kind (chars "erdos")
      then erdos
      else if same kind (chars "barabasi")
      then barabasi
      else some (unknown_type kind)
