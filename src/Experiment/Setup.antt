-- ===== src/Experiment/Setup.antt =====
-- examples/tinycoin/miner_chooser.hpp, hashpower.hpp and main.cpp: who mines, with which power, and
-- the messages that the main thread makes. Tests on doubles, std::shuffle and the clock are
-- parameters. `none` is an exception, an exit, an access out of bounds or missing fuel.
use distributedsim.Base.{
  ℕ, zero, suc, ◌+◌, ◌-◌, ◌*◌, ◌^◌, Bool, true, false, not, ◌&&◌, ◌||◌, Option, none, some, List,
  [], ◌∷◌, map, ltb, ◌==◌, if◌then◌else◌, ◌>>=◌, get_elem?, replicate,
}
use distributedsim.Rng.{
  Xoroshiro, u64, draw, draw_below, insert_sorted, get_distinct_below, choose_weighted,
}
use distributedsim.Experiment.{put, prefix_sums}

-- The names of algorithms: the two that are known, and any other.
pub data Algorithm : Type 0 where
  random : Algorithm
  highdegree : Algorithm
  unknown : Algorithm

unfoldable pub raise_degree : List ℕ → ℕ → Option (List ℕ)
unfolding put
raise_degree degree a = do n ← get_elem? degree a; put degree a (u64 (n + 1))

unfoldable pub degrees : List (ℕ × ℕ) → List ℕ → Option (List ℕ)
unfolding raise_degree
degrees [] degree = some degree
degrees ((a, b) ∷ edges) degree = do
  degree' ← raise_degree degree a
  degree'' ← raise_degree degree' b
  degrees edges degree''

-- std::greater on pairs.
abbrev pub greater : ℕ × ℕ → ℕ × ℕ → Bool
greater (d, i) (e, j) = ltb e d || ((d == e) && ltb j i)

unfoldable pub insert_degree : ℕ × ℕ → List (ℕ × ℕ) → List (ℕ × ℕ)
insert_degree p [] = p ∷ []
insert_degree p (q ∷ qs) = if greater p q then p ∷ q ∷ qs else q ∷ insert_degree p qs

-- The nodes from `i` on, sorted by std::greater.
unfoldable pub by_degree : ℕ → List ℕ → List (ℕ × ℕ)
unfolding insert_degree
by_degree i [] = []
by_degree i (d ∷ ds) = insert_degree (d, i) (by_degree (i + 1) ds)

unfoldable pub first_nodes : ℕ → List (ℕ × ℕ) → Option (List ℕ)
first_nodes zero ps = some []
first_nodes (suc n) [] = none
first_nodes (suc n) ((_, i) ∷ ps) = do is ← first_nodes n ps; some (i ∷ is)

abbrev pub choose_selfish :
    Algorithm → Xoroshiro → ℕ → ℕ → List (ℕ × ℕ) → Option (List ℕ × Xoroshiro)
choose_selfish random g n num_selfish edges = get_distinct_below g num_selfish n []
choose_selfish highdegree g n num_selfish edges = do
  degree ← degrees edges (replicate n 0)
  selfish ← first_nodes num_selfish (by_degree 0 degree)
  some (selfish, g)
choose_selfish unknown g n num_selfish edges = none

-- The honest and the selfish miners.
unfoldable pub choose_miners :
    Algorithm → Xoroshiro → ℕ → ℕ → ℕ → List (ℕ × ℕ) → Option ((List ℕ × List ℕ) × Xoroshiro)
unfolding degrees first_nodes by_degree
choose_miners algo g n num_honest num_selfish edges = do
  (selfish, g') ← choose_selfish algo g n num_selfish edges
  (honest, g'') ← get_distinct_below g' num_honest n selfish
  some ((honest, selfish), g'')

-- The prefix sums of the chances of the kinds of devices.
abbrev pub weight_ps : List ℕ
weight_ps = 32 ∷ 64 ∷ 72 ∷ 76 ∷ 78 ∷ 79 ∷ []

unfoldable pub get_one : Xoroshiro → Option (ℕ × Xoroshiro)
get_one g = do
  (pw, g') ← choose_weighted g weight_ps
  (r, g'') ← draw g' 1 10
  some (u64 (r * 10 ^ pw), g'')

-- A std::multiset of weights, sorted, and the total.
pub record Weights : Type 0 where
  pub weights : List ℕ
  pub total : ℕ

unfoldable pub add_one : Weights → Xoroshiro → Option (Weights × Xoroshiro)
unfolding get_one
add_one w g = do
  (r, g') ← get_one g
  some (record { weights = insert_sorted r w.weights; total = u64 (w.total + r) }, g')

unfoldable pub add_many : ℕ → Weights → Xoroshiro → Option (Weights × Xoroshiro)
unfolding add_one
add_many zero w g = some (w, g)
add_many (suc n) w g = do (w', g') ← add_one w g; add_many n w' g'

abbrev pub take_total : ℕ → ℕ → ℕ
take_total total x = u64 (total + (2 ^ 64 - u64 x))

abbrev pub drop_least : Weights → Option Weights
drop_least w = elim w.weights [
  | [] ↦ none
  | x ∷ xs ↦ some (record { weights = xs; total = take_total w.total x })
]

unfoldable pub split_last : List ℕ → Option (List ℕ × ℕ)
split_last [] = none
split_last (x ∷ []) = some ([], x)
split_last (x ∷ y ∷ ys) = do (zs, z) ← split_last (y ∷ ys); some (x ∷ zs, z)

unfoldable pub drop_greatest : Weights → Option Weights
unfolding split_last
drop_greatest w = do
  (xs, x) ← split_last w.weights
  some (record { weights = xs; total = take_total w.total x })

abbrev pub redraw : Option Weights → Xoroshiro → Option (Weights × Xoroshiro)
redraw dropped g = do w ← dropped; add_one w g

-- The comparisons of the total of the selfish miners, and of both, with selfish_percent less and more
-- one per cent.
pub record Shares : Type 0 where
  pub too_small : ℕ → ℕ → Bool
  pub too_large : ℕ → ℕ → Bool
  pub is_zero : Bool

-- The weights after a round that draws one again, and whether there was one.
abbrev pub Round : Type 0
Round = Bool × ((Weights × Weights) × Xoroshiro)

abbrev pub selfish_again : Weights → Option Weights → Xoroshiro → Option Round
selfish_again honest dropped g = do (w, g') ← redraw dropped g; some (true, ((w, honest), g'))

abbrev pub honest_again : Weights → Option Weights → Xoroshiro → Option Round
honest_again selfish dropped g = do (w, g') ← redraw dropped g; some (true, ((selfish, w), g'))

-- One round of the loop: which miner's power is drawn again, if any.
unfoldable pub rebalance : Shares → Weights → Weights → Xoroshiro → Option Round
unfolding drop_greatest add_one
rebalance shares selfish honest g =
    let both = u64 (selfish.total + honest.total) in
    let smaller = (do
      (coin, g') ← draw_below g 2
      if coin == 0
          then honest_again selfish (drop_greatest honest) g'
          else selfish_again honest (drop_least selfish) g') in
    let larger = (do
      (coin, g') ← draw_below g 2
      if coin == 0
          then honest_again selfish (drop_least honest) g'
          else selfish_again honest (drop_greatest selfish) g') in
    if shares.too_small selfish.total both
    then smaller
    else if shares.too_large selfish.total both
    then larger
    else some (false, ((selfish, honest), g))

-- The loop.
unfoldable pub balance :
    ℕ → Shares → Weights → Weights → Xoroshiro → Option ((Weights × Weights) × Xoroshiro)
unfolding rebalance
balance zero shares selfish honest g = none
balance (suc fuel) shares selfish honest g = do
  (again, ((selfish', honest'), g')) ← rebalance shares selfish honest g
  let rest = balance fuel shares selfish' honest' g'
  if again then rest else some ((selfish', honest'), g')

abbrev pub no_weights : Weights
no_weights = record { weights = []; total = 0 }

-- The powers of the honest and of the selfish miners.
unfoldable pub get_hashpower :
    ℕ
    → (List ℕ → Xoroshiro → List ℕ × Xoroshiro)
    → Shares
    → ℕ
    → ℕ
    → Xoroshiro
    → Option ((List ℕ × List ℕ) × Xoroshiro)
unfolding add_many balance
get_hashpower fuel shuffle shares num_honest num_selfish g =
    let drawn = (do
      (selfish, g1) ← add_many num_selfish no_weights g
      (honest, g2) ← add_many num_honest no_weights g1
      if not shares.is_zero && (num_selfish == 0) then none else (do
        ((selfish', honest'), g3) ← balance fuel shares selfish honest g2
        let (s_ans, g4) = shuffle selfish'.weights g3
        let (h_ans, g5) = shuffle honest'.weights g4
        some ((h_ans, s_ans), g5))) in
    drawn

-- The kinds of node that main makes.
pub data Role : Type 0 where
  honest_miner : ℕ → Role
  selfish_miner : ℕ → Role
  plain : Role

abbrev pub power : Role → ℕ
power (honest_miner pwr) = pwr
power (selfish_miner pwr) = pwr
power plain = 0

-- The loop that adds the nodes, from `i` on; the powers are taken from the ends.
unfoldable pub make_nodes : (ℕ → Bool) → (ℕ → Bool) → ℕ → ℕ → List ℕ → List ℕ → Option (List Role)
unfolding split_last
make_nodes honest selfish i zero honest_powers selfish_powers = some []
make_nodes honest selfish i (suc count) honest_powers selfish_powers =
    let an_honest = (do
      (powers, pwr) ← split_last honest_powers
      roles ← make_nodes honest selfish (i + 1) count powers selfish_powers
      some (honest_miner pwr ∷ roles)) in
    let a_selfish = (do
      (powers, pwr) ← split_last selfish_powers
      roles ← make_nodes honest selfish (i + 1) count honest_powers powers
      some (selfish_miner pwr ∷ roles)) in
    let a_plain = (do
      roles ← make_nodes honest selfish (i + 1) count honest_powers selfish_powers
      some (plain ∷ roles)) in
    if honest i then an_honest else if selfish i then a_selfish else a_plain

-- The prefix sums of the weights of the miners.
unfoldable pub miner_weights_ps : List Role → List ℕ
unfolding prefix_sums
miner_weights_ps roles = prefix_sums 0 (map power roles)

-- What the main thread generates: a block at a miner, or a transaction at a node.
pub data Event : Type 0 where
  a_block : ℕ → Event
  a_transaction : ℕ → Event

-- The main loop. Each round reads the clock, `now`; `start` is what start_message does with the generator.
-- `none` also where the readings end before the blocks are done. The result has the number of transactions
-- and the generator too.
unfoldable pub generate :
    (Xoroshiro → Option (ℕ × Xoroshiro))
    → (Event → Xoroshiro → Option Xoroshiro)
    → List ℕ
    → ℕ
    → List ℕ
    → ℕ
    → ℕ
    → ℕ
    → Xoroshiro
    → Option (List Event × ℕ × Xoroshiro)
generate random_node start weights block_interval [] block_num last_block blocks_done g =
    if ltb blocks_done block_num then none else some ([], 0, g)
generate random_node start weights block_interval (now ∷ readings) block_num last_block blocks_done
      g =
    let a_round = λ (last : ℕ) (done : ℕ) (g0 : Xoroshiro). (do
      (tx_origin, g1) ← random_node g0
      g2 ← start (a_transaction tx_origin) g1
      (events, tx_done, g3) ←
          generate random_node start weights block_interval readings block_num last done g2
      some (a_transaction tx_origin ∷ events, tx_done + 1, g3)) in
    let with_block = (do
      (miner, g1) ← choose_weighted g weights
      g2 ← start (a_block miner) g1
      (events, tx_done, g3) ← a_round now (blocks_done + 1) g2
      some (a_block miner ∷ events, tx_done, g3)) in
    let without_block = a_round last_block blocks_done g in
    if ltb blocks_done block_num
    then (if ltb (last_block + block_interval) now then with_block else without_block)
    else some ([], 0, g)
