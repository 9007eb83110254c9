-- ===== src/Peer.antt =====
-- protocols/tinycoin.hpp: the messages of TinyNode and TinyMiner. A node's state is its Chain, whose
-- `rest` is what the transactions change. The virtual functions of the manager are parameters:
-- `iter` is iter_neighbours, for a callback that changes the network `Net` until a send throws, and
-- `send` is send_message, with `false` for a thrown exception. Draws are numbers of type uint64_t.

pub mod Seen
pub mod Once
pub mod Mining
mod Tests
use distributedsim.Base.{
  ℕ, zero, suc, ◌+◌, ◌*◌, Bool, true, false, ◌&&◌, Option, none, some, List, [], ◌∷◌, ◌==◌,
  if◌then◌else◌, ◌>>=◌, length,
}
use distributedsim.Rng.{Xoroshiro, next}
use distributedsim.Node.{Message, set_delay, set_data}
use distributedsim.Tinycoin.{Transaction, Block, Chain, handle_block, initial}
use distributedsim.Miner.{Miner, node_confirm, node_unconfirm, node_handle_transaction}

-- std::variant<TinyTransaction, TinyBlock>
pub data TinyData (A : Type 0) : Type 0 where
  transaction : Transaction A → TinyData A
  block : Block A → TinyData A

-- The static members that hold the delays of messages.
pub record Delays : Type 0 where
  pub transaction_delay : ℕ
  pub delay_per_transaction : ℕ
  pub base_delay : ℕ

-- next_id() of transactions and of blocks: the number, and the counter after it.
abbrev pub next_counter : ℕ → ℕ × ℕ
next_counter n = (n, n + 1)

module _ {A : Type 0} where
  -- TinyTransaction(source_node, destination_node, amount), and the counter after it.
  abbrev pub new_transaction : ℕ → ℕ → ℕ → A → Transaction A × ℕ
  new_transaction counter source destination amount =
      let (n, counter') = next_counter counter in
      (
        record { source_node = source; destination_node = destination; amount = amount; id = n },
        counter',
      )

  -- TinyBlock(parent, miner), and the counter after it.
  abbrev pub new_block : ℕ → ℕ → ℕ → Block A × ℕ
  new_block counter parent miner =
      let (n, counter') = next_counter counter in
      (record { id = n; parent = parent; miner = miner; transactions = [] }, counter')

  -- TinyBlock::delay
  abbrev pub block_delay : Delays → Block A → ℕ
  block_delay d blk = length blk.transactions * d.delay_per_transaction + d.base_delay

  -- The two overloads of set_data.
  abbrev pub set_transaction : Delays → Message (TinyData A) → Transaction A → Message (TinyData A)
  set_transaction d msg tx = set_delay (set_data msg (transaction tx)) d.transaction_delay

  abbrev pub set_block : Delays → Message (TinyData A) → Block A → Message (TinyData A)
  set_block d msg blk = set_delay (set_data msg (block blk)) (block_delay d blk)

module _ {A Net : Type 0}
    (iter : ℕ → (ℕ → Bool × Net → Bool × (Bool × Net)) → Bool × Net → Bool × Net)
    (send : ℕ → ℕ → Message (TinyData A) → Net → Bool × Net) where
  -- TinyNode::forward: whether no send threw, and the network after it.
  unfoldable pub forward : ℕ → Message (TinyData A) → Net → Bool × Net
  forward me msg net =
      iter me (λ neigh s. let sent = send me neigh msg s.1 in (sent.0, sent)) (true, net)

-- handle_message, over the virtual functions that it calls. `P` is the state that these change.
-- The result says whether no exception was thrown.
module _ {A P : Type 0} (handle_transaction : Transaction A → P → Option (Bool × Bool × P))
    (handle_blk : Block A → P → Option (Bool × Bool × P))
    (pass_on : Message (TinyData A) → P → Bool × P) where
  -- The two branches: whether no exception was thrown, and whether the data were new.
  abbrev pub handle_data : TinyData A → P → Option (Bool × Bool × P)
  handle_data (transaction tx) p = handle_transaction tx p
  handle_data (block blk) p = handle_blk blk p

  unfoldable pub handle_message : Message (TinyData A) → P → Option (Bool × P)
  handle_message msg p = do
    (fine, fresh, p') ← handle_data msg.data_ p
    some (if fine && fresh then pass_on msg p' else (fine, p'))

-- The loop of start_message that draws a destination other than the node itself. `none` is missing
-- fuel, the number of draws.
unfoldable pub draw_destination : ℕ → ℕ → ℕ → Xoroshiro → Option (ℕ × Xoroshiro)
draw_destination zero me destination g = none
draw_destination (suc fuel) me destination g =
    let (r, g') = next g in
    let again = draw_destination fuel me r g' in
    if destination == me then again else some (destination, g)

-- A node, and the rest of the world that its virtual functions change.
abbrev pub Peer : Type 0 → Type 0 → Type 0
Peer A W = Chain A (Miner A) × W

-- TinyNode::start_message up to `set_data`: the new transaction, with the draws of its destination
-- and amount, the balance less the amount, and handle_transaction. `amount_of` stands for
-- `fmod(((double)r/1000000), balance)*0.99`.
module _ {A W : Type 0} (subtract : A → A → A) (amount_of : ℕ → A → A)
    (handle_transaction : Transaction A → Peer A W → Option (Bool × Bool × Peer A W)) where
  unfoldable pub make_transaction :
      ℕ → ℕ → Xoroshiro → Peer A W → Option (Bool × Transaction A × ℕ × Xoroshiro × Peer A W)
  unfolding draw_destination
  make_transaction fuel counter g (c, w) =
      let (d, g₁) = next g in
      let (r, g₂) = next g₁ in
      do
        (destination, g₃) ← draw_destination fuel c.rest.me d g₂
        let (tx, counter') =
            new_transaction counter c.rest.me destination (amount_of r c.rest.balance)
        let paid = record c { rest = record c.rest { balance = subtract c.rest.balance tx.amount } }
        (fine, _, p) ← handle_transaction tx (paid, w)
        some (fine, tx, counter', g₃, p)

  -- TinyNode::start_message: whether no send threw, the counter, the generator, and the state.
  unfoldable pub start_message :
      (Message (TinyData A) → Peer A W → Bool × Peer A W)
      → Delays
      → ℕ
      → ℕ
      → Xoroshiro
      → Message (TinyData A)
      → Peer A W
      → Option (Bool × ℕ × Xoroshiro × Peer A W)
  unfolding make_transaction
  start_message pass_on delays fuel counter g msg p = do
    (handled, tx, counter', g', p') ← make_transaction fuel counter g p
    let (fine, p'') = (if handled then pass_on (set_transaction delays msg tx) p' else (false, p'))
    some (fine, counter', g', p'')

-- get_blockchain: the vector and the head.
abbrev pub get_blockchain : {A S : Type 0} → Chain A S → List (Block A) × ℕ
get_blockchain c = (c.blockchain, c.head)

-- The constructor of TinyNode, with a genesis block from the counter. `starting` is
-- `rng() % 1024 + 16` as an amount.
abbrev pub new_node : {A : Type 0} → (ℕ → A) → ℕ → ℕ → Xoroshiro → Chain A (Miner A) × Xoroshiro
new_node starting genesis_id me g =
    let (r, g') = next g in
    (
      initial genesis_id (record {
        me = me;
        balance = starting r;
        received_transactions = [];
        pending_transactions = [];
      }),
      g',
    )

module _ {A : Type 0} (add subtract : A → A → A) (nothing : A) (scale : ℕ → A)
    (block_reward : A) where
  -- The virtual functions as TinyNode has them.
  unfoldable pub node_transaction :
      {W : Type 0} → Transaction A → Peer A W → Option (Bool × Bool × Peer A W)
  unfolding node_handle_transaction
  node_transaction tx (c, w) =
      let (fresh, s) = node_handle_transaction nothing tx c.rest in
      some (true, fresh, (record c { rest = s }, w))

  unfoldable pub node_block :
      {W : Type 0} → ℕ → Block A → Peer A W → Option (Bool × Bool × Peer A W)
  unfolding handle_block node_confirm node_unconfirm
  node_block fuel blk (c, w) = do
    (fresh, c') ←
        handle_block (node_confirm add nothing scale block_reward)
          (node_unconfirm add nothing subtract scale block_reward) fuel blk c
    some (true, fresh, (c', w))

-- `forward` with the node it is called on.
abbrev pub node_forward :
    {A W : Type 0}
    → (ℕ → Message (TinyData A) → W → Bool × W)
    → Message (TinyData A)
    → Peer A W
    → Bool × Peer A W
node_forward pass msg (c, w) = let (fine, w') = pass c.rest.me msg w in (fine, (c, w'))
