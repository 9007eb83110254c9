-- ===== src/Experiment/Program.antt =====
-- examples/tinycoin/main.cpp: the program up to its main loop, what it prints, and the thread that shows
-- the progress. `D` is the type double, whose operations and constants are parameters. `none` is an
-- exception, an access out of bounds, missing fuel, an early return, or a number that should be negative
-- where the models of the generators need one that is not.
use distributedsim.Base.{
  ℕ, zero, suc, ◌+◌, ◌-◌, Bool, false, not, ◌||◌, Option, none, some, List, [], ◌∷◌, leb, ltb, ◌==◌,
  if◌then◌else◌, ◌>>=◌, length, chars, ℤ, pos, negsuc,
}
use distributedsim.Rng.{Xoroshiro, u64, max, new_xoroshiro}
use distributedsim.Config.{same, get}
use distributedsim.Graph.{gen_conn_erdos}
use distributedsim.Graph.Preferential.{gen_barabasi_albert}
use distributedsim.Network.{KeySet, Network, add_node, add_edge}
use distributedsim.Experiment.{Counts}
use distributedsim.Experiment.Setup.{
  Algorithm, random, highdegree, unknown, choose_miners, Shares, get_hashpower, Role, make_nodes,
  miner_weights_ps,
}

-- The conversions of strings, and what the program does with doubles.
pub record Library (D : Type 0) : Type 0 where
  pub stoll : List ℕ → Option ℤ
  pub stod : List ℕ → Option D
  pub one : D
  pub one_hundredth : D
  pub one_fifth : D
  pub naught : D
  -- `long long x = n * d;`
  pub times : ℕ → D → ℕ
  -- `100.0*part/whole`
  pub percentage : ℕ → ℕ → D
  -- The comparisons of get_hashpower.
  pub shares : D → Shares
  -- `round(sqrt(x))`, and std::shuffle.
  pub root : ℕ → ℕ
  pub shuffle : List ℕ → Xoroshiro → List ℕ × Xoroshiro
  -- hardware_concurrency()
  pub concurrency : ℕ

-- What is read from the configuration, in its order; the delays are nanoseconds.
pub record Settings (D : Type 0) : Type 0 where
  pub delay_per_transaction : ℤ
  pub transaction_delay : ℤ
  pub base_delay : ℤ
  pub block_reward : D
  pub transaction_reward : D
  pub transactions_per_block : ℤ
  pub network_kind : List ℕ
  pub network_size : ℤ
  pub network_connectivity : ℤ
  pub seed : ℤ
  pub nthreads : ℤ
  pub miners_percent : D
  pub selfish_percent : D
  pub selfish_power_percent : D
  pub selfish_algo : List ℕ

-- What the program prints before the simulation.
pub record Opening (D : Type 0) : Type 0 where
  pub nodes : ℕ
  pub edges : ℕ
  pub num_honest : ℕ
  pub honest_total_power : ℕ
  pub num_selfish : ℕ
  pub selfish_total_power : ℕ
  pub selfish_share : D
  pub selfish_power_share : D

-- The nodes and the graph, the miners and their weights, and the generator.
pub record Prepared (D N S : Type 0) : Type 0 where
  pub opening_lines : Opening D
  pub honest : List ℕ
  pub selfish : List ℕ
  pub weights : List ℕ
  pub network : Network N S
  pub generator : Xoroshiro

module _ {D : Type 0} (lib : Library D) where
  abbrev pub all_threads : ℤ → ℤ
  all_threads (negsuc zero) = pos lib.concurrency
  all_threads (negsuc (suc n)) = negsuc (suc n)
  all_threads (pos n) = pos n

  unfoldable pub read_settings : List (List ℕ × List ℕ) → Option (Settings D)
  unfolding get
  read_settings kv = do
    per_transaction ← get kv (chars "delay_per_transaction") (pos 20) lib.stoll
    transaction ← get kv (chars "delay_per_transaction") (pos 20) lib.stoll
    base ← get kv (chars "base_delay") (pos 100) lib.stoll
    block_reward ← get kv (chars "block_reward") lib.one lib.stod
    transaction_reward ← get kv (chars "transaction_reward") lib.one_hundredth lib.stod
    per_block ← get kv (chars "transactions_per_block") (pos 50) lib.stoll
    kind ← get kv (chars "network_kind") (chars "erdos") some
    size ← get kv (chars "network_size") (pos 20) lib.stoll
    connectivity ← get kv (chars "network_connectivity") (pos 100) lib.stoll
    seed ← get kv (chars "seed") (pos 0) lib.stoll
    threads ← get kv (chars "nthreads") (negsuc 0) lib.stoll
    miners ← get kv (chars "miners_percent") lib.one_fifth lib.stod
    selfish ← get kv (chars "selfish_percent") lib.naught lib.stod
    power ← get kv (chars "selfish_power_percent") selfish lib.stod
    algo ← get kv (chars "selfish_algo") (chars "random") some
    some (record {
      delay_per_transaction = per_transaction;
      transaction_delay = transaction;
      base_delay = base;
      block_reward = block_reward;
      transaction_reward = transaction_reward;
      transactions_per_block = per_block;
      network_kind = kind;
      network_size = size;
      network_connectivity = connectivity;
      seed = seed;
      nthreads = all_threads threads;
      miners_percent = miners;
      selfish_percent = selfish;
      selfish_power_percent = power;
      selfish_algo = algo;
    })

  abbrev pub natural : ℤ → Option ℕ
  natural (pos n) = some n
  natural (negsuc n) = none

  -- The conversion of the seed to uint64_t.
  abbrev pub to_u64 : ℤ → ℕ
  to_u64 (pos n) = u64 n
  to_u64 (negsuc n) = u64 (max - n)

  unfoldable pub make_edges : List ℕ → ℕ → ℕ → Xoroshiro → Option (List (ℕ × ℕ) × Xoroshiro)
  make_edges kind size connectivity g =
      let erdos = gen_conn_erdos lib.root g size connectivity in
      let barabasi = gen_barabasi_albert g size connectivity in
      if same kind (chars "erdos")
      then erdos
      else if same kind (chars "barabasi")
      then barabasi
      else none

  abbrev pub algorithm_of : List ℕ → Algorithm
  algorithm_of algo =
      if same algo (chars "random")
      then random
      else if same algo (chars "highdegree")
      then highdegree
      else unknown

  abbrev pub total_power : List ℕ → ℕ → ℕ
  total_power [] total = total
  total_power (x ∷ xs) total = total_power xs (u64 (total + x))

  abbrev pub contains : List ℕ → ℕ → Bool
  contains [] i = false
  contains (x ∷ xs) i = (x == i) || contains xs i

  abbrev pub opening : ℕ → List (ℕ × ℕ) → ℕ → ℕ → List ℕ → List ℕ → Opening D
  opening size edges num_honest num_selfish honest_powers selfish_powers =
      let honest_total = total_power honest_powers 0 in
      let selfish_total = total_power selfish_powers 0 in
      record {
        nodes = size;
        edges = length edges;
        num_honest = num_honest;
        honest_total_power = honest_total;
        num_selfish = num_selfish;
        selfish_total_power = selfish_total;
        selfish_share = lib.percentage num_selfish (num_honest + num_selfish);
        selfish_power_share = lib.percentage selfish_total (u64 (selfish_total + honest_total));
      }

  module _ {N S : Type 0} (sets : KeySet S) where
    -- The loop that adds the nodes; `make` is the constructor for a role, which draws from the
    -- generator.
    unfoldable pub add_roles :
        (Role → ℕ → Xoroshiro → N × Xoroshiro)
        → List Role
        → Xoroshiro
        → Network N S
        → Network N S × Xoroshiro
    unfolding add_node
    add_roles make [] g net = (net, g)
    add_roles make (role ∷ roles) g net =
        let (node, g') = make role (length net.graph) g in
        add_roles make roles g' (add_node sets (λ id. (make role id g).0) net)

    unfoldable pub add_edges : List (ℕ × ℕ) → Network N S → Option (Network N S)
    unfolding add_edge
    add_edges [] net = some net
    add_edges ((first, second) ∷ edges) net = do
      net' ← add_edge sets false first second net
      add_edges edges net'

    -- From the generator to `hwm.run()`.
    unfoldable pub prepare :
        ℕ → (Role → ℕ → Xoroshiro → N × Xoroshiro) → Settings D → Option (Prepared D N S)
    unfolding make_edges add_roles add_edges choose_miners get_hashpower make_nodes miner_weights_ps
    prepare fuel make s = do
      size ← natural s.network_size
      connectivity ← natural s.network_connectivity
      (edges, g1) ← make_edges s.network_kind size connectivity (new_xoroshiro max (to_u64 s.seed))
      let num_miners = lib.times size s.miners_percent
      let num_selfish = lib.times num_miners s.selfish_percent
      num_honest ← (if leb num_selfish num_miners then some (num_miners - num_selfish) else none)
      ((honest, selfish), g2) ←
          choose_miners (algorithm_of s.selfish_algo) g1 size num_honest num_selfish edges
      ((honest_powers, selfish_powers), g3) ←
          get_hashpower fuel lib.shuffle (lib.shares s.selfish_power_percent) num_honest num_selfish
            g2
      roles ← make_nodes (contains honest) (contains selfish) 0 size honest_powers selfish_powers
      let (blank, g4) = add_roles make roles g3 (record { nodes = []; graph = [] })
      net ← add_edges edges blank
      some (record {
        opening_lines = opening size edges num_honest num_selfish honest_powers selfish_powers;
        honest = honest;
        selfish = selfish;
        weights = miner_weights_ps roles;
        network = net;
        generator = g4;
      })

-- What a line about the progress says.
pub record Progress : Type 0 where
  pub blocks_done : ℕ
  pub block_num : ℕ
  pub tx_done : ℕ
  pub queued_messages : ℕ
  pub all_messages : ℕ

-- The loop of the status thread goes on.
abbrev pub is_running : Progress → Bool
is_running p = not (p.queued_messages == 0) || ltb p.blocks_done p.block_num

-- The lines of the status thread, one for each reading at which the loop goes on and one more after it.
-- `none` is a sequence of readings that does not end the loop.
unfoldable pub status_lines : List Progress → Option (List Progress)
status_lines [] = none
status_lines (p ∷ []) = if is_running p then none else some (p ∷ [])
status_lines (p ∷ q ∷ readings) =
    let later = (do ls ← status_lines (q ∷ readings); some (p ∷ ls)) in
    if is_running p then later else some (q ∷ [])

-- What the program prints after the simulation.
pub record Closing (D : Type 0) : Type 0 where
  pub splits : ℕ
  pub longest_split : ℕ
  pub honest : ℕ
  pub selfish : ℕ
  pub selfish_share : D

abbrev pub closing : {D : Type 0} → Library D → Counts → Closing D
closing lib counts = record {
  splits = counts.total_splits;
  longest_split = counts.max_split_len;
  honest = counts.honest_blocks;
  selfish = counts.selfish_blocks;
  selfish_share =
      lib.percentage counts.selfish_blocks (u64 (counts.selfish_blocks + counts.honest_blocks));
}
