-- ===== src/Peer/Tests.antt =====
-- A node that receives the first block; the world is the list of what it passed on.
use distributedsim.Base.{ℕ, ◌+◌, ◌-◌, ◌*◌, ◌<◌, ◌≡◌, refl, Bool, true, some, List, [], ◌∷◌, arith}
use distributedsim.Node.{Message, new_message}
use distributedsim.Tinycoin.{Transaction, Block, Chain, initial}
use distributedsim.Tinycoin.Valid.{IsMade, IsValid, initial-IsValid}
use distributedsim.Miner.{Miner}
use distributedsim.Peer.{TinyData, transaction, block}
use distributedsim.Peer.Once.{handle, handle_each, handle_message_once}

abbrev line : ℕ → ℕ
line i = i - 1

line_older : (i : ℕ) → 0 < i → line i < i
line_older i pos = omega arith

abbrev first : Block ℕ
first = record { id = 1; parent = 0; miner = 7; transactions = [] }

first-IsMade : IsMade line first
first-IsMade = record { counted = omega arith; in_range = omega arith; made_on = refl }

abbrev wallet : Miner ℕ
wallet = record { me = 4; balance = 20; received_transactions = []; pending_transactions = [] }

abbrev log_pass : ℕ → Message (TinyData ℕ) → List ℕ → Bool × List ℕ
log_pass me msg log = (true, me ∷ log)

abbrev payment : Transaction ℕ
payment = record { source_node = 3; destination_node = 4; amount = 5; id = 1 }

-- The first block, then the same block and a payment, then the block again.
abbrev between : List (Message (TinyData ℕ) × List ℕ)
between = (new_message (block first), []) ∷ (new_message (transaction payment), []) ∷ []

handle_message_once_example :
    (fine : Bool) × (c₁ : Chain ℕ (Miner ℕ)) × (w₁ : List ℕ) × (c₂ : Chain ℕ (Miner ℕ))
    × (c₃ : Chain ℕ (Miner ℕ)) × (handle
          (◌+◌)
          (◌-◌)
          0
          (λ n. 3 * n)
          50
          log_pass
          (new_message (block first))
          (initial 0 wallet, [])
        ≡ some (fine, (c₁, w₁)))
    × (handle_each (◌+◌) (◌-◌) 0 (λ n. 3 * n) 50 log_pass between c₁ ≡ some c₂)
    × (handle (◌+◌) (◌-◌) 0 (λ n. 3 * n) 50 log_pass (new_message (block first)) (c₂, 7 ∷ [])
        ≡ some (true, (c₃, 7 ∷ [])))
    × IsValid line [] c₃
handle_message_once_example =
    handle_message_once (◌+◌) (◌-◌) 0 (λ n. 3 * n) 50 log_pass line line_older
      (new_message (block first)) (new_message (block first)) between (initial 0 wallet) [] (7 ∷ [])
      first-IsMade refl (first-IsMade, ((λ e. omega arith), tt))
      (initial-IsValid line 0 wallet (omega arith))
