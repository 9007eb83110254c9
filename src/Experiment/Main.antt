-- ===== src/Experiment/Main.antt =====
-- examples/tinycoin/main.cpp: the whole program, from its arguments to what it prints. `none` is as in
-- Experiment.Program, and also where the program waits for ever.
use distributedsim.Base.{
  ℕ, ◌+◌, ◌*◌, Option, some, List, [], ◌∷◌, if◌then◌else◌, ◌||◌, ◌>>=◌, chars, pos, negsuc, ℤ,
}
use distributedsim.Rng.{Xoroshiro}
use distributedsim.Config.{same, get, read_lines}
use distributedsim.Tinycoin.{Block}
use distributedsim.Network.{KeySet, Network, get_random_node}
use distributedsim.Experiment.{statistics}
use distributedsim.Experiment.Setup.{Role, Event, generate}
use distributedsim.Experiment.Program.{
  Library, Prepared, Opening, Progress, Closing, natural, contains, read_settings, prepare,
  status_lines, closing,
}

-- What is read from the configuration after the nodes are running: microseconds, and a number of blocks.
pub record Timing : Type 0 where
  pub transaction_interval : ℤ
  pub block_interval : ℤ
  pub final_wait : ℤ
  pub block_num : ℤ

module _ {D : Type 0} (lib : Library D) where
  unfoldable pub read_timing : List (List ℕ × List ℕ) → Option Timing
  unfolding get
  read_timing kv = do
    transaction ← get kv (chars "transaction_interval") (pos 1000) lib.stoll
    block ← get kv (chars "block_interval") (pos 10000) lib.stoll
    wait ← get kv (chars "final_wait") (pos 10000) lib.stoll
    num ← get kv (chars "block_num") (pos 1000) lib.stoll
    some (record {
      transaction_interval = transaction;
      block_interval = block;
      final_wait = wait;
      block_num = num;
    })

-- What the program prints: an error, or the lines before, during and after the simulation.
pub data Printed (D : Type 0) : Type 0 where
  usage : Printed D
  unknown_graph : List ℕ → Printed D
  simulated : Opening D → List Progress → Closing D → Printed D

-- What the threads make of the generated messages: the readings of the status thread, and the block chain
-- of node 0 with its head, after flush_chain and stop.
pub record Simulated (A : Type 0) : Type 0 where
  pub readings : List Progress
  pub blockchain : List (Block A)
  pub head : ℕ

-- `make` is the constructor of a role's node, `start` what start_message does with the generator, `clock`
-- the readings of the clock in nanoseconds, of which the first is the one before the main loop, `read` the
-- lines of a file, and `simulate` stands for the threads.
module _ {D N S A : Type 0} (lib : Library D) (sets : KeySet S) (fuel : ℕ)
    (make : Role → ℕ → Xoroshiro → N × Xoroshiro)
    (start : Network N S → Event → Xoroshiro → Option Xoroshiro)
    (simulate : Prepared D N S → List Event → Option (Simulated A)) where
  -- From the main loop on.
  unfoldable pub main_loop :
      Timing → Prepared D N S → ℕ → List ℕ → Option (List Event × ℕ × Xoroshiro)
  unfolding generate get_random_node
  main_loop timing p last_block readings = do
    interval ← natural lib timing.block_interval
    block_num ← natural lib timing.block_num
    generate (λ g. get_random_node sets g p.network) (start p.network) p.weights (interval * 1000)
        readings block_num last_block 0 p.generator

  unfoldable pub after_loop : Prepared D N S → Simulated A → Option (Printed D)
  unfolding status_lines statistics
  after_loop p s = do
    lines ← status_lines s.readings
    counts ←
        statistics (s.head + 1) (contains lib p.honest) (contains lib p.selfish) s.blockchain s.head
    some (simulated p.opening_lines lines (closing lib counts))

  -- What is read before the kind of the graph is tested, which is the result.
  unfoldable pub read_kind : List (List ℕ × List ℕ) → Option (List ℕ)
  unfolding get
  read_kind kv = do
    per_transaction ← get kv (chars "delay_per_transaction") (pos 20) lib.stoll
    transaction ← get kv (chars "delay_per_transaction") (pos 20) lib.stoll
    base ← get kv (chars "base_delay") (pos 100) lib.stoll
    block_reward ← get kv (chars "block_reward") lib.one lib.stod
    transaction_reward ← get kv (chars "transaction_reward") lib.one_hundredth lib.stod
    per_block ← get kv (chars "transactions_per_block") (pos 50) lib.stoll
    kind ← get kv (chars "network_kind") (chars "erdos") some
    size ← get kv (chars "network_size") (pos 20) lib.stoll
    connectivity ← get kv (chars "network_connectivity") (pos 100) lib.stoll
    seed ← get kv (chars "seed") (pos 0) lib.stoll
    threads ← get kv (chars "nthreads") (negsuc 0) lib.stoll
    some kind

  unfoldable pub run_experiment : List (List ℕ × List ℕ) → ℕ → List ℕ → Option (Printed D)
  unfolding read_kind read_settings prepare read_timing main_loop after_loop
  run_experiment kv last_block readings =
      let prepared = (do
        settings ← read_settings lib kv
        p ← prepare lib sets fuel make settings
        timing ← read_timing lib kv
        (events, tx_done, g) ← main_loop timing p last_block readings
        s ← simulate p events
        after_loop p s) in
      do
        kind ← read_kind kv
        if same kind (chars "erdos") || same kind (chars "barabasi")
            then prepared
            else some (unknown_graph kind)

  unfoldable pub tinycoin_main :
      (List ℕ → Option (List (List ℕ))) → ℕ → List ℕ → List (List ℕ) → Option (Printed D)
  unfolding read_lines run_experiment
  tinycoin_main read last_block readings [] = some usage
  tinycoin_main read last_block readings (path ∷ rest) = do
    lines ← read path
    kv ← read_lines lines []
    run_experiment kv last_block readings
