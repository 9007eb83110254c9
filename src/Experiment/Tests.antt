-- ===== src/Experiment/Tests.antt =====
-- Networks of four nodes. A block chain of four blocks: 1 and 2 are on the genesis block, and 3, the head, is on 1.
use distributedsim.Base.{
  ◌+◌, ◌*◌, ◌/◌, pos, chars, ltb, ℕ, zero, suc, ◌<◌, ◌≡◌, Option, none, refl, inr, Bool, true,
  false, some, List, [], ◌∷◌, ◌==◌, if◌then◌else◌, replicate, some_injective, subst, sym, ◌∙◌, ◌≢◌,
  arith,
}
use mathlib.Core.Option.{none-ne-some}
use distributedsim.Tinycoin.{Block, Chain, no_id, no_block, orphan_id, initial, handle_block}
use distributedsim.Tinycoin.Valid.{IsMade, IsValid, initial-IsValid}
use distributedsim.Tinycoin.Tree.{slot}
use distributedsim.Tinycoin.Receive.{receive_all, receive_all-IsValid}
use distributedsim.Experiment.Chains.{statistics-IsSound}
use distributedsim.Experiment.{Counts, mark_chain, statistics, prefix_sums}
use distributedsim.Experiment.Setup.{Weights, Shares, rebalance, Role, plain, Event}
use distributedsim.Experiment.Program.{Library, make_edges, Prepared}
use distributedsim.Experiment.Main.{tinycoin_main, Simulated, usage, unknown_graph}
use distributedsim.Experiment.Drawn.{built}
use distributedsim.Experiment.Connected.{Reaches, built-can_send, network_connected}
use distributedsim.Rng.{Xoroshiro}
use distributedsim.Rng.State.{IsWide}
use distributedsim.Cuckoo.{CuckooSet}
use distributedsim.Graph.Joined.{joined}
use distributedsim.Graph.Root.{count_root, count_root-IsRoot}
use distributedsim.Network.{Network, can_send, cuckoo_set}
use distributedsim.Experiment.Powers.{IsCounted, Keeps, rebalance-Keeps}
use distributedsim.Experiment.MainChain.{IsOlder, IsMarked, mark_chain-IsMarked}
use distributedsim.Experiment.Splits.{only_selfish, IsSound}
use distributedsim.Experiment.Observed.{tally, is_mined}

abbrev blk : ℕ → ℕ → Block ℕ
blk i p = record { id = i; parent = p; miner = i; transactions = [] }

abbrev chain : List (Block ℕ)
chain = blk 0 0 ∷ blk 1 0 ∷ blk 2 0 ∷ blk 3 1 ∷ []

chain-IsOlder : IsOlder chain (λ i. Unit)
unfolding IsOlder
chain-IsOlder zero b kind positive e = absurd (omega arith)
chain-IsOlder (suc zero) b kind positive e =
    (subst (λ c. c.parent < 1) (some_injective (blk 1 0) b e) (omega arith), tt)
chain-IsOlder (suc (suc zero)) b kind positive e =
    (subst (λ c. c.parent < 2) (some_injective (blk 2 0) b e) (omega arith), tt)
chain-IsOlder (suc (suc (suc zero))) b kind positive e =
    (subst (λ c. c.parent < 3) (some_injective (blk 3 1) b e) (omega arith), tt)
chain-IsOlder (suc (suc (suc (suc i)))) b kind positive e = absurd (none-ne-some b e)

mark_chain-IsMarked_example :
    (after : List Bool) × (mark_chain 4 chain 3 (replicate 4 false) ≡ some after)
    × IsMarked chain 3 (replicate 4 false) after
mark_chain-IsMarked_example =
    mark_chain-IsMarked chain (λ i. Unit) 4 3 (replicate 4 false) chain-IsOlder tt refl
      (omega arith) (omega arith)

abbrev first_two : ℕ → Bool
first_two i = elim i [ zero ↦ true | suc n ↦ n == 0 ]

-- Block 2 is a split of length 1; block 1 is an honest miner's and block 3 a selfish one's.
abbrev expected : Counts
expected = record {
  split_num = 2 ∷ 1 ∷ 0 ∷ 0 ∷ [];
  split_len = 0 ∷ 0 ∷ 1 ∷ 0 ∷ [];
  honest_blocks = 1;
  selfish_blocks = 1;
  total_splits = 1;
  max_split_len = 1;
}

chain_run : statistics 4 first_two (λ i. true) chain 3 ≡ some expected
unfolding statistics
chain_run = refl

prefix_sums_run : prefix_sums 0 (4 ∷ 0 ∷ 5 ∷ []) ≡ 4 ∷ 4 ∷ 9 ∷ []
unfolding prefix_sums
prefix_sums_run = refl

-- One selfish and one honest miner, of which the selfish one is too weak.
abbrev weak : Weights
weak = record { weights = 3 ∷ []; total = 3 }

abbrev strong : Weights
strong = record { weights = 40 ∷ []; total = 40 }

weak-IsCounted : IsCounted 1 weak
weak-IsCounted = record { many = refl; summed = refl }

strong-IsCounted : IsCounted 1 strong
strong-IsCounted = record { many = refl; summed = refl }

abbrev halves : Shares
halves = record {
  too_small = λ one both. ltb (one + one) both;
  too_large = λ one both. ltb both (one + one);
  is_zero = false;
}

rebalance-Keeps_example : Keeps 1 1 (rebalance halves weak strong (record { s0 = 5; s1 = 7 }))
rebalance-Keeps_example =
    rebalance-Keeps 0 0 weak strong weak-IsCounted strong-IsCounted halves
      (record { s0 = 5; s1 = 7 })

-- Doubles are whole numbers of hundredths here.
abbrev library : Library ℕ
library = record {
  stoll = λ s. some (pos 0);
  stod = λ s. some 0;
  one = 100;
  one_hundredth = 1;
  one_fifth = 20;
  naught = 0;
  times = λ n d. n * d / 100;
  percentage = λ part whole. part * 10000 / whole;
  shares = λ d. halves;
  root = count_root;
  shuffle = λ ws g. (ws, g);
  concurrency = 4;
}

abbrev four_nodes : List Role
four_nodes = plain ∷ plain ∷ plain ∷ plain ∷ []

abbrev seed : Xoroshiro
seed = record { s0 = 1; s1 = 0 }

built-can_send_example :
    (net : Network ℕ CuckooSet) × (built
        (cuckoo_set 31)
        library
        (λ role id g. (id, g))
        four_nodes
        seed
        ((1, 0) ∷ (3, 1) ∷ [])
      ≡ some net)
    × (can_send (cuckoo_set 31) net 1 3 ≡ some (joined 1 3 ((1, 0) ∷ (3, 1) ∷ [])))
built-can_send_example =
    built-can_send library 31 (λ role id g. (id, g)) four_nodes seed ((1, 0) ∷ (3, 1) ∷ []) 1 3
      (omega arith) (omega arith) (omega arith) (omega arith) (omega arith)

seed-IsWide : IsWide seed
seed-IsWide = record { s0_fits = omega arith; s1_fits = omega arith }

network_connected_example :
    (es : List (ℕ × ℕ)) × (g' : Xoroshiro) × (net : Network ℕ CuckooSet) × (make_edges library
        (chars "barabasi")
        4
        2
        seed
      ≡ some (es, g'))
    × (built (cuckoo_set 31) library (λ role id g. (id, g)) four_nodes seed es ≡ some net)
    × Reaches (cuckoo_set 31) net 2 3
network_connected_example =
    network_connected library count_root-IsRoot 31 (λ role id g. (id, g)) (chars "barabasi")
      four_nodes seed 2 2 3 (omega arith) (inr refl) seed-IsWide (omega arith) (omega arith)
      (omega arith) (omega arith) (omega arith) (omega arith)

-- The program without an argument, and with a configuration that names a graph that it does not know.
abbrev ring_file : List ℕ → Option (List (List ℕ))
ring_file path = some (chars "network_kind = ring" ∷ [])

abbrev make_id : Role → ℕ → Xoroshiro → ℕ × Xoroshiro
make_id role id g = (id, g)

abbrev nothing_simulated : Prepared ℕ ℕ CuckooSet → List Event → Option (Simulated ℕ)
nothing_simulated p events = none

no_argument :
    tinycoin_main library
      (cuckoo_set 31)
      9
      make_id
      (λ net e g. some g)
      nothing_simulated
      ring_file
      0
      []
      []
    ≡ some usage
unfolding tinycoin_main
no_argument = refl

ring_graph :
    tinycoin_main library
      (cuckoo_set 31)
      9
      make_id
      (λ net e g. some g)
      nothing_simulated
      ring_file
      0
      []
      (chars "file" ∷ [])
    ≡ some (unknown_graph (chars "ring"))
unfolding tinycoin_main
ring_graph = refl

-- The genesis block has the id 1 here: block 2 and 3 are on it, and 4, the head, is on 2.
abbrev made_on : ℕ → ℕ
made_on i = if i == 4 then 2 else 0

made_on-older : (i : ℕ) → 0 < i → made_on i < i
made_on-older i some_block = ground arith

blk-IsMade : (i p : ℕ) → 0 < i → i < orphan_id → p ≡ made_on i → IsMade made_on (blk i p)
blk-IsMade i p some_block small e = record { counted = some_block; in_range = small; made_on = e }

abbrev skip : Block ℕ → ℕ → ℕ
skip b n = n

abbrev three_blocks : List (Block ℕ)
three_blocks = blk 2 0 ∷ blk 3 0 ∷ blk 4 2 ∷ []

abbrev received : Chain ℕ ℕ
received = record {
  blockchain = record (blk 0 0) { id = 1; miner = no_id } ∷ no_block ∷ three_blocks;
  pending_blocks = [] ∷ [] ∷ [] ∷ [] ∷ [] ∷ [];
  lengths = 1 ∷ 0 ∷ 2 ∷ 2 ∷ 3 ∷ [];
  head = 4;
  rest = 0;
}

received_run : receive_all skip skip three_blocks (initial 1 0) ≡ some received
unfolding receive_all handle_block initial
received_run = refl

received-IsValid : IsValid made_on [] received
received-IsValid =
    let (c, e, valid, handled, postponed) =
      receive_all-IsValid skip skip made_on made_on-older three_blocks (initial 1 0)
        (initial-IsValid made_on 1 0 (omega arith))
        (
          blk-IsMade 2 0 (omega arith) (omega arith) refl,
          (
            blk-IsMade 3 0 (omega arith) (omega arith) refl,
            (blk-IsMade 4 2 (omega arith) (omega arith) refl, tt),
          ),
        ) in
    subst (IsValid made_on []) (some_injective c received (sym e ∙ received_run)) valid

none_waits : (i : ℕ) → (slot received.blockchain i).id ≢ orphan_id
none_waits zero e = omega arith
none_waits (suc zero) e = omega arith
none_waits (suc (suc zero)) e = omega arith
none_waits (suc (suc (suc zero))) e = omega arith
none_waits (suc (suc (suc (suc zero)))) e = omega arith
none_waits (suc (suc (suc (suc (suc i))))) e = omega arith

statistics-IsSound_example :
    (main_chain : List Bool) × (counts : Counts) × (statistics 5 first_two
        (λ i. true)
        received.blockchain
        4
      ≡ some counts)
    × IsMarked received.blockchain 4 (replicate 5 false) main_chain
    × IsSound 5
        (tally (is_mined first_two main_chain) received.blockchain)
        (tally (is_mined (only_selfish first_two (λ i. true)) main_chain) received.blockchain)
        counts
statistics-IsSound_example =
    statistics-IsSound made_on made_on-older received received-IsValid none_waits (omega arith) refl
      first_two (λ i. true)
