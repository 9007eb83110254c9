-- ===== src/Chord/Program.antt =====
-- examples/chord_hop_distribution.cpp: the program that counts the hops of messages. The threads that
-- `run` starts are those of Workers, and a parameter of chord_main.
-- `1 << bits` is 2 ^ bits, for bits below 31. `none` is an exception, an access out of bounds or missing
-- fuel.
use distributedsim.Base.{
  ℕ, zero, suc, ◌+◌, ◌^◌, Option, none, some, if◌then◌else◌, List, [], ◌∷◌, ◌==◌, ◌>>=◌, get_elem?,
  replicate, Bool, not,
}
use distributedsim.Rng.{Xoroshiro, u64}
use distributedsim.Node.{Message, get_hops}
use distributedsim.Manager.{gen_id, emplace, get_random_node}
use distributedsim.Chord.{ChordNode, new_chord_node, Action, start_message}
use distributedsim.Experiment.{put}

-- What the callbacks change.
pub record Received : Type 0 where
  pub counts : List ℕ
  pub received_messages : ℕ

abbrev pub none_received : ℕ → Received
none_received bits = record { counts = replicate (bits + 1) 0; received_messages = 0 }

-- complete_callback
unfoldable pub complete_callback : {A : Type 0} → Message A → Received → Option Received
unfolding put
complete_callback msg r = do
  n ← get_elem? r.counts (get_hops msg)
  counts ← put r.counts (get_hops msg) (u64 (n + 1))
  some (record { counts = counts; received_messages = u64 (r.received_messages + 1) })

-- The callbacks of several messages, in the order in which they arrive.
unfoldable pub complete_all : {A : Type 0} → List (Message A) → Received → Option Received
unfolding complete_callback
complete_all [] r = some r
complete_all (msg ∷ msgs) r = do r' ← complete_callback msg r; complete_all msgs r'

module _ {M C : Type 0} (manager : M) (cb : C) (fuel bits : ℕ) where
  -- The loop that adds the nodes, each with a new id.
  unfoldable pub add_nodes :
      ℕ → List (ℕ × ChordNode M C) → Xoroshiro → Option (List (ℕ × ChordNode M C) × Xoroshiro)
  add_nodes zero nodes g = some (nodes, g)
  add_nodes (suc count) nodes g = do
    (id, g') ← gen_id fuel nodes g (2 ^ bits)
    add_nodes count (emplace nodes id (new_chord_node manager id bits cb)) g'

  -- The loop that generates the messages: the node that starts one, its target, and what the node
  -- does with it.
  unfoldable pub start_at :
      ℕ → List (ℕ × ChordNode M C) → Xoroshiro → Option (List (ℕ × ℕ × Action) × Xoroshiro)
  start_at zero nodes g = some ([], g)
  start_at (suc count) nodes g = do
    (id, g') ← get_random_node fuel nodes g (2 ^ bits)
    (data_, action, g'') ← start_message fuel bits id nodes g'
    (starts, g3) ← start_at count nodes g''
    some ((id, data_, action) ∷ starts, g3)

-- The loop that waits goes on while messages are missing.
abbrev pub still_waiting : ℕ → Received → Bool
still_waiting messages r = not (r.received_messages == messages)

-- The output, for the hops from `i` on: the shares of the messages, with `ratio` for the division.
unfoldable pub distribution : {D : Type 0} → (ℕ → ℕ → D) → ℕ → ℕ → Received → Option (List D)
distribution ratio i zero r = some []
distribution ratio i (suc left) r = do
  n ← get_elem? r.counts i
  ds ← distribution ratio (i + 1) left r
  some (ratio n r.received_messages ∷ ds)

unfoldable pub hop_distribution : {D : Type 0} → (ℕ → ℕ → D) → ℕ → Received → Option (List D)
unfolding distribution
hop_distribution ratio bits r = distribution ratio 1 bits r

-- What the program prints: an error, or the number of events and the shares.
pub data Printed (D : Type 0) : Type 0 where
  usage : Printed D
  events : ℕ → List D → Printed D

-- main, with the arguments after the name of the program. `simulate` stands for the threads: the messages
-- that reach the callback until it has been called often enough, in their order, and all_messages at the
-- end. `none` also where the program waits for ever.
module _ {M C D : Type 0} (atoi : List ℕ → ℕ) (ratio : ℕ → ℕ → D) (manager : M) (cb : C) (fuel : ℕ)
    (simulate : List (ℕ × ChordNode M C) → List (ℕ × ℕ × Action) → List (Message ℕ) × ℕ) where
  unfoldable pub chord_main : Xoroshiro → List (List ℕ) → Option (Printed D)
  unfolding add_nodes start_at complete_all hop_distribution
  chord_main g [] = some usage
  chord_main g (bits ∷ []) = some usage
  chord_main g (bits ∷ n ∷ []) = some usage
  chord_main g (bits ∷ n ∷ m ∷ rest) = do
    (nodes, g1) ← add_nodes manager cb fuel (atoi bits) (atoi n) [] g
    (starts, g2) ← start_at manager cb fuel (atoi bits) (atoi m) nodes g1
    let (completed, all_messages) = simulate nodes starts
    received ← complete_all completed (none_received (atoi bits))
    shares ← hop_distribution ratio (atoi bits) received
    if still_waiting (atoi m) received then none else some (events all_messages shares)
