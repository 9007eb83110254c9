-- ===== src/Peer/Mining.antt =====
-- protocols/tinycoin.hpp: TinyMiner and MinerPolicy. `W` is what the policies and the network change.
use distributedsim.Base.{
  ℕ, ◌+◌, ◌-◌, ◌^◌, Bool, true, false, Option, none, some, if◌then◌else◌, ◌>>=◌,
}
use distributedsim.Rng.{Xoroshiro}
use distributedsim.Node.{Message, new_message}
use distributedsim.Tinycoin.{Transaction, Block, Chain, handle_block}
use distributedsim.Miner.{Miner, miner_confirm, miner_unconfirm, miner_handle_transaction, on_mined}
use distributedsim.Peer.{Peer, new_node, TinyData, transaction, block, Delays, set_block}

-- The virtual functions of a MinerPolicy. on_mined is given the counter of block ids and gives it
-- back; `false` is an exception.
pub record Policy (A W : Type 0) : Type 0 where
  pub when_mined : ℕ → Peer A W → Option (Bool × ℕ × Peer A W)
  pub when_block : Block A → Peer A W → Option (Bool × Peer A W)
  pub when_transaction : Transaction A → Peer A W → Option (Bool × Peer A W)

module _ {A W : Type 0} where
  -- `if (policy) policy->…`
  abbrev pub tell_block : Option (Policy A W) → Block A → Peer A W → Option (Bool × Peer A W)
  tell_block none blk p = some (true, p)
  tell_block (some policy) blk p = policy.when_block blk p

  abbrev pub tell_transaction :
      Option (Policy A W) → Transaction A → Peer A W → Option (Bool × Peer A W)
  tell_transaction none tx p = some (true, p)
  tell_transaction (some policy) tx p = policy.when_transaction tx p

  abbrev pub tell_mined : Option (Policy A W) → ℕ → Peer A W → Option (Bool × ℕ × Peer A W)
  tell_mined none counter p = some (true, counter, p)
  tell_mined (some policy) counter p = policy.when_mined counter p

module _ {A W : Type 0} (add subtract : A → A → A) (nothing : A) (scale : ℕ → A) (block_reward : A)
    (policy : Option (Policy A W)) where
  -- TinyMiner::handle_transaction. The first result is false where the policy threw.
  unfoldable pub tell_if_fresh_transaction :
      Bool → Transaction A → Peer A W → Option (Bool × Bool × Peer A W)
  tell_if_fresh_transaction false tx p = some (true, false, p)
  tell_if_fresh_transaction true tx p = do
    (fine, p') ← tell_transaction policy tx p
    some (fine, true, p')

  unfoldable pub miner_transaction : Transaction A → Peer A W → Option (Bool × Bool × Peer A W)
  unfolding miner_handle_transaction tell_if_fresh_transaction
  miner_transaction tx (c, w) =
      let (fresh, s) = miner_handle_transaction nothing tx c.rest in
      tell_if_fresh_transaction fresh tx (record c { rest = s }, w)

  -- TinyMiner::handle_block
  unfoldable pub tell_if_fresh_block : Bool → Block A → Peer A W → Option (Bool × Bool × Peer A W)
  tell_if_fresh_block false blk p = some (true, false, p)
  tell_if_fresh_block true blk p = do (fine, p') ← tell_block policy blk p; some (fine, true, p')

  unfoldable pub miner_block : ℕ → Block A → Peer A W → Option (Bool × Bool × Peer A W)
  unfolding handle_block miner_confirm miner_unconfirm tell_if_fresh_block
  miner_block fuel blk (c, w) = do
    (fresh, c') ←
        handle_block (miner_confirm add nothing scale block_reward)
          (miner_unconfirm add nothing subtract scale block_reward) fuel blk c
    tell_if_fresh_block fresh blk (c', w)

  -- TinyMiner::send_block, with `pass_on` for forward.
  unfoldable pub miner_send_block :
      (Message (TinyData A) → Peer A W → Bool × Peer A W)
      → Delays
      → ℕ
      → Block A
      → Peer A W
      → Option (Bool × Peer A W)
  unfolding miner_block
  miner_send_block pass_on delays fuel blk p = do
    (fine, _, p') ← miner_block fuel blk p
    some (if fine then pass_on (set_block delays (new_message (block blk)) blk) p' else (false, p'))

  -- TinyMiner::start_message
  abbrev pub miner_start :
      (Message (TinyData A) → Peer A W → Option (Bool × ℕ × Xoroshiro × Peer A W))
      → Message (TinyData A)
      → TinyData A
      → ℕ
      → Xoroshiro
      → Peer A W
      → Option (Bool × ℕ × Xoroshiro × Peer A W)
  miner_start make msg (transaction tx) counter g p = make msg p
  miner_start make msg (block blk) counter g p = do
    (fine, counter', p') ← tell_mined policy counter p
    some (fine, counter', g, p')

-- The honest policy: on_mined fills a block and sends it; on_block and on_transaction do nothing.
abbrev pub honest :
    {A W : Type 0} → ℕ → (Block A → Peer A W → Option (Bool × Peer A W)) → Policy A W
honest limit send_block = record {
  when_mined = λ counter p. do
    blk ← on_mined limit counter p.0.head p.0.rest
    (fine, p') ← send_block blk p
    some (fine, counter + 1, p');
  when_block = λ blk p. some (true, p);
  when_transaction = λ tx p. some (true, p);
}

-- A TinyMiner, with its two constructors, and power(). `make` stands for the constructor of the policy,
-- which is given references to the members of the node.
pub record TinyMiner (A W : Type 0) : Type 0 where
  pub node : Chain A (Miner A)
  pub policy : Option (Policy A W)
  pub power_ : ℕ

module _ {A W : Type 0} where
  unfoldable pub make_policy :
      (Chain A (Miner A) → Policy A W) → Chain A (Miner A) → Option (Policy A W)
  make_policy make members = some (make members)

  unfoldable pub new_miner :
      (ℕ → A) → (Chain A (Miner A) → Policy A W) → ℕ → ℕ → ℕ → Xoroshiro → TinyMiner A W × Xoroshiro
  unfolding make_policy
  new_miner starting make genesis_id me power g =
      let (node, g') = new_node starting genesis_id me g in
      (record { node = node; policy = make_policy make node; power_ = power }, g')

  unfoldable pub default_miner : (ℕ → A) → ℕ → Xoroshiro → TinyMiner A W × Xoroshiro
  default_miner starting genesis_id g =
      let (node, g') = new_node starting genesis_id (2 ^ 64 - 1) g in
      (record { node = node; policy = none; power_ = 0 }, g')

  abbrev pub miner_power : TinyMiner A W → ℕ
  miner_power m = m.power_
