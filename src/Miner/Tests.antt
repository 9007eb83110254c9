-- ===== src/Miner/Tests.antt =====
-- A miner with three received transactions, two of them pending. Amounts are whole numbers.
use distributedsim.Base.{
  ℕ, ◌+◌, ◌-◌, ◌*◌, ◌≡◌, not, ◌&&◌, ◌||◌, some, [], ◌∷◌, map, get_elem?, arith,
}
use distributedsim.Tinycoin.{Transaction, Block}
use distributedsim.Miner.{Miner, contains, miner_confirm, miner_unconfirm, on_mined}
use distributedsim.Miner.Pending.{ids_of}
use distributedsim.Miner.Received.{confirm-unconfirm}
use distributedsim.Miner.Mined.{take, on_mined_lem}

abbrev payment : ℕ → Transaction ℕ
payment i = record { source_node = 4; destination_node = 7; amount = 10; id = i }

abbrev miner : Miner ℕ
miner = record {
  me = 7;
  balance = 100;
  received_transactions = payment 0 ∷ payment 1 ∷ payment 2 ∷ [];
  pending_transactions = 0 ∷ 2 ∷ [];
}

abbrev mined : Block ℕ
mined = record { id = 1; parent = 0; miner = 7; transactions = payment 1 ∷ payment 2 ∷ [] }

confirm-unconfirm_example :
    (contains 2 (miner_confirm (◌+◌) 0 (λ n. 3 * n) 50 mined miner).pending_transactions
      ≡ (not (contains 2 (ids_of mined.transactions)) && contains 2 miner.pending_transactions))
    × (contains 2 (miner_unconfirm (◌+◌) 0 (◌-◌) (λ n. 3 * n) 50 mined miner).pending_transactions
        ≡ (contains 2 (ids_of mined.transactions) || contains 2 miner.pending_transactions))
    × (contains 2
          (miner_confirm
            (◌+◌)
            0
            (λ n. 3 * n)
            50
            mined
            (miner_unconfirm (◌+◌) 0 (◌-◌) (λ n. 3 * n) 50 mined miner)).pending_transactions
        ≡ contains 2 (miner_confirm (◌+◌) 0 (λ n. 3 * n) 50 mined miner).pending_transactions)
confirm-unconfirm_example =
    confirm-unconfirm (◌+◌) (◌-◌) 0 (λ n. 3 * n) 50 mined miner 2 (omega arith, (omega arith, tt))

on_mined_lem_example :
    (b : Block ℕ) × (on_mined 0 9 3 miner ≡ some b)
    × (b.id ≡ 9)
    × (b.parent ≡ 3)
    × (b.miner ≡ miner.me)
    × (map some b.transactions
        ≡ map (get_elem? miner.received_transactions) (take 1 miner.pending_transactions))
on_mined_lem_example = on_mined_lem 0 9 3 miner (omega arith, (omega arith, tt))
