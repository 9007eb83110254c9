-- ===== src/Tinycoin/Tests.antt =====
-- A fork of four blocks: block 1 on the genesis block, and block 3 on block 2 on the genesis block.
use distributedsim.Base.{
  ℕ, zero, suc, ◌+◌, ◌-◌, ◌≤◌, ◌<◌, ◌≡◌, ◌↔◌, inl, inr, refl, List, [], ◌∷◌, ◌++◌, arith, some, not,
  if◌then◌else◌, ◌==◌,
}
use distributedsim.Common.{satisfies}
use distributedsim.Tinycoin.{Block, Chain, orphan_id, is_seen, initial, handle_block, update_head}
use distributedsim.Tinycoin.Tree.{slot, height, IsHandled, IsLinked, IsTree}
use distributedsim.Tinycoin.Reorg.{branch, confirm_all, Meets, switched, update_head-switched}
use distributedsim.Tinycoin.Heights.{Rises}
use distributedsim.Tinycoin.Valid.{IsMade, IsValid, initial-IsValid}
use distributedsim.Tinycoin.Receive.{
  receive-Rises, receive, receive_all, receive-IsValid, receive_all-IsValid,
}

abbrev fork_origin : ℕ → ℕ
fork_origin i = if i == 2 then 0 else i - 1

fork_older : (i : ℕ) → 0 < i → fork_origin i < i
fork_older i pos = ground arith

abbrev block : ℕ → Block ℕ
block i = record { id = i; parent = fork_origin i; miner = 7; transactions = [] }

block-IsMade : (i : ℕ) → 0 < i → i < orphan_id → IsMade fork_origin (block i)
block-IsMade i pos small = record { counted = pos; in_range = small; made_on = refl }

-- The rest of the state is the log of the calls: 10 and the id for `confirm`, 20 for `unconfirm`.
abbrev log_confirm : Block ℕ → List ℕ → List ℕ
log_confirm b log = log ++ (10 + b.id) ∷ []

abbrev log_unconfirm : Block ℕ → List ℕ → List ℕ
log_unconfirm b log = log ++ (20 + b.id) ∷ []

abbrev start : Chain ℕ (List ℕ)
start = initial 5 []

start-IsValid : IsValid fork_origin [] start
start-IsValid = initial-IsValid fork_origin 5 [] (omega arith)

-- Block 3 arrives before its parent; when block 2 comes the head moves over to the other branch.
reorganised :
    (c' : Chain ℕ (List ℕ)) × (receive_all log_confirm log_unconfirm
        (block 1 ∷ block 3 ∷ block 2 ∷ [])
        start
      ≡ some c')
    × (c'.head ≡ 3)
    × (c'.rest ≡ 11 ∷ 13 ∷ 12 ∷ 21 ∷ [])
unfolding receive_all handle_block initial
reorganised = (_, refl, refl, refl)

three-IsMade : IsMade fork_origin (block 3)
three-IsMade = block-IsMade 3 (omega arith) (omega arith)

receive-IsValid_example :
    (c' : Chain ℕ (List ℕ)) × (receive log_confirm log_unconfirm (block 3) start
      ≡ some (not (satisfies start.blockchain 3 is_seen), c'))
    × IsValid fork_origin [] c'
    × ((j : ℕ) → IsHandled start.blockchain j → IsHandled c'.blockchain j)
    × (IsHandled c'.blockchain 3 ↔ IsHandled c'.blockchain 2)
receive-IsValid_example =
    receive-IsValid log_confirm log_unconfirm fork_origin fork_older (block 3) start start-IsValid
      three-IsMade

receive-Rises_example :
    (c' : Chain ℕ (List ℕ)) × (receive log_confirm log_unconfirm (block 3) start
      ≡ some (not (satisfies start.blockchain 3 is_seen), c'))
    × Rises start c'
    × (height start.lengths start.head ≤ height c'.lengths c'.head)
receive-Rises_example =
    receive-Rises log_confirm log_unconfirm fork_origin fork_older (block 3) start start-IsValid
      three-IsMade

receive_all-IsValid_example :
    (c' : Chain ℕ (List ℕ)) × (receive_all log_confirm log_unconfirm
        (block 3 ∷ block 2 ∷ block 3 ∷ [])
        start
      ≡ some c')
    × IsValid fork_origin [] c'
    × ((j : ℕ) → IsHandled start.blockchain j → IsHandled c'.blockchain j)
    × ((i : ℕ)
        → 0 < i
        → (slot c'.blockchain i).id ≡ orphan_id
        → ¬ IsHandled c'.blockchain (fork_origin i))
receive_all-IsValid_example =
    receive_all-IsValid log_confirm log_unconfirm fork_origin fork_older
      (block 3 ∷ block 2 ∷ block 3 ∷ []) start start-IsValid
      (three-IsMade, (block-IsMade 2 (omega arith) (omega arith), (three-IsMade, tt)))

-- All four blocks are in the tree, and the head is still block 1.
abbrev forked : Chain ℕ (List ℕ)
forked = record {
  blockchain = record (block 0) { id = 5 } ∷ block 1 ∷ block 2 ∷ block 3 ∷ [];
  pending_blocks = [];
  lengths = 1 ∷ 2 ∷ 2 ∷ 3 ∷ [];
  head = 1;
  rest = 11 ∷ [];
}

forked-IsLinked :
    (i : ℕ)
    → 0 < i
    → IsHandled forked.blockchain i
    → IsLinked fork_origin forked.blockchain forked.lengths i
forked-IsLinked zero pos h = absurd (omega arith)
forked-IsLinked (suc zero) pos h = record {
  made = refl;
  on_handled = (omega arith, inl refl);
  above = refl;
  off_ground = omega arith;
  measured = omega arith;
}
forked-IsLinked (suc (suc zero)) pos h = record {
  made = refl;
  on_handled = (omega arith, inl refl);
  above = refl;
  off_ground = omega arith;
  measured = omega arith;
}
forked-IsLinked (suc (suc (suc zero))) pos h = record {
  made = refl;
  on_handled = (omega arith, inr refl);
  above = refl;
  off_ground = omega arith;
  measured = omega arith;
}
forked-IsLinked (suc (suc (suc (suc i)))) pos h = absurd (omega (arith, h.0))

forked-IsTree : IsTree fork_origin forked.blockchain forked.lengths
forked-IsTree = record {
  rooted = omega arith;
  fits = omega arith;
  genesis = omega arith;
  ground_height = refl;
  ground_measured = omega arith;
  linked = forked-IsLinked;
}

update_head-switched_example :
    (j : ℕ) × Meets log_confirm log_unconfirm fork_origin forked forked-IsTree 2 1 j
    × (update_head log_confirm log_unconfirm 4 forked 3
        ≡ some (record forked {
          head = 3;
          rest =
              switched log_confirm log_unconfirm fork_origin forked forked-IsTree 2 1 j
                (confirm_all log_confirm (branch fork_origin forked.blockchain 1 3) (11 ∷ []));
        }))
update_head-switched_example =
    update_head-switched log_confirm log_unconfirm fork_origin forked forked-IsTree 4 3
      (omega arith, inr refl) (omega arith, inr refl) (omega arith) (omega arith)
