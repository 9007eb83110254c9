-- ===== src/Miner/Received.antt =====
-- Transactions that stay received, and blocks that are confirmed and unconfirmed.
use distributedsim.Base.{
  ne→==, subst, length, ◌<◌, ℕ, ◌≡◌, ◌≢◌, inl, inr, refl, ◌∙◌, Bool, true, false, not, ◌&&◌, ◌||◌,
  List, ◌==◌, get_or, Bool-cases, ==_iff, arith,
}
use native.Mathlib.Decide.{ℕ_discrete, dec_lt}
use distributedsim.Common.{satisfies, vec_set}
use distributedsim.Common.Laws.{
  get_elem?-eq_some, get_elem?-eq_none, get_or-vec_set, length-vec_set,
}
use distributedsim.Tinycoin.{Transaction, Block, no_id}
use distributedsim.Miner.{
  Miner, no_transaction, contains, is_received, node_handle_transaction, miner_confirm,
  miner_unconfirm,
}
use distributedsim.Miner.Pending.{
  IsSorted, ids_of, insert_all-contains, insert_all-IsSorted, erase_all-contains,
}

module _ {A : Type 0} (nothing : A) where
  stored :
      (xs : List (Transaction A)) (tx : Transaction A)
      → tx.id ≢ no_id
      → satisfies (vec_set (no_transaction nothing) xs tx.id tx) tx.id (is_received nothing) ≡ true
  unfolding satisfies
  stored xs tx ne =
      let d = no_transaction nothing in
      let same : (tx.id == tx.id) ≡ true = (==_iff tx.id tx.id).1 refl in
      let found : get_or (vec_set d xs tx.id tx) tx.id d ≡ tx =
        get_or-vec_set d xs tx.id tx.id tx ∙ rw same refl in
      let known : (tx.id == no_id) ≡ false = ground arith in
      rw (
        get_elem?-eq_some d (vec_set d xs tx.id tx) tx.id (length-vec_set d xs tx.id tx).1,
        found,
        known,
      )

  pub known_transaction :
      (tx : Transaction A) (s : Miner A)
      → satisfies s.received_transactions tx.id (is_received nothing) ≡ true
      → node_handle_transaction nothing tx s ≡ (false, s)
  unfolding node_handle_transaction
  known_transaction tx s known = rw known refl

  received_inside :
      (xs : List (Transaction A)) (i : ℕ)
      → satisfies xs i (is_received nothing) ≡ true
      → i < length xs
  unfolding satisfies
  received_inside xs i known = elim (dec_lt i (length xs)) [
    | yes lt ↦ lt
    | no ge ↦
        let out = get_elem?-eq_none (no_transaction nothing) xs i (omega arith) in
        (let wrong : false ≡ true = rw out at known in cc)
  ]

  received-vec_set :
      (xs : List (Transaction A)) (tx : Transaction A) (i : ℕ)
      → tx.id ≢ no_id
      → satisfies xs i (is_received nothing) ≡ true
      → satisfies (vec_set (no_transaction nothing) xs tx.id tx) i (is_received nothing) ≡ true
  unfolding satisfies
  received-vec_set xs tx i ne known =
      let d = no_transaction nothing in
      let inside = received_inside xs i known in
      elim (ℕ_discrete tx.id i) [
        | yes e ↦
            subst (λ k. satisfies (vec_set d xs tx.id tx) k (is_received nothing) ≡ true) e
              (stored xs tx ne)
        | no other ↦
            let away = ne→== tx.id i other in
            let found : get_or (vec_set d xs tx.id tx) i d ≡ get_or xs i d =
              get_or-vec_set d xs tx.id i tx ∙ rw away refl in
            let was = rw (get_elem?-eq_some d xs i inside) at known in
            rw
              (
                get_elem?-eq_some d (vec_set d xs tx.id tx) i
                    (omega (arith, (length-vec_set d xs tx.id tx).0)),
                found,
              )
              was
      ]

  -- A transaction that has been received stays so whatever transactions come.
  pub received_kept :
      (tx : Transaction A) (s : Miner A) (i : ℕ)
      → tx.id ≢ no_id
      → satisfies s.received_transactions i (is_received nothing) ≡ true
      → satisfies
          (node_handle_transaction nothing tx s).1.received_transactions
          i
          (is_received nothing)
        ≡ true
  unfolding node_handle_transaction
  received_kept tx s i ne known =
      elim (Bool-cases (satisfies s.received_transactions tx.id (is_received nothing))) [
        | inl old ↦ rw old known
        | inr new ↦ rw new (received-vec_set s.received_transactions tx i ne known)
      ]

  -- A transaction that has been handled is received.
  pub received_now :
      (tx : Transaction A) (s : Miner A)
      → tx.id ≢ no_id
      → satisfies
          (node_handle_transaction nothing tx s).1.received_transactions
          tx.id
          (is_received nothing)
        ≡ true
  unfolding node_handle_transaction
  received_now tx s ne =
      elim (Bool-cases (satisfies s.received_transactions tx.id (is_received nothing))) [
        | inl old ↦ rw old old
        | inr new ↦ rw new (stored s.received_transactions tx ne)
      ]

not_of_or : (a c : Bool) → (not a && (a || c)) ≡ (not a && c)
not_of_or true c = refl
not_of_or false c = refl

module _ {A : Type 0} (add subtract : A → A → A) (nothing : A) (scale : ℕ → A)
    (block_reward : A) where
  -- Confirming a block takes exactly its transactions out of the pending ones, unconfirming it puts
  -- exactly these in, and a block that is unconfirmed and confirmed again leaves no more pending than
  -- one that is just confirmed.
  pub confirm-unconfirm :
      (blk : Block A) (s : Miner A) (z : ℕ)
      → IsSorted 0 s.pending_transactions
      → (contains z (miner_confirm add nothing scale block_reward blk s).pending_transactions
          ≡ (not (contains z (ids_of blk.transactions)) && contains z s.pending_transactions))
        × (contains z
              (miner_unconfirm add nothing subtract scale block_reward blk s).pending_transactions
            ≡ (contains z (ids_of blk.transactions) || contains z s.pending_transactions))
        × (contains z
              (miner_confirm add nothing scale block_reward blk (
                miner_unconfirm add nothing subtract scale block_reward blk s)).pending_transactions
            ≡ contains z (miner_confirm add nothing scale block_reward blk s).pending_transactions)
  unfolding miner_confirm miner_unconfirm
  confirm-unconfirm blk s z h =
      let once = erase_all-contains z blk.transactions s.pending_transactions h in
      (
        once,
        insert_all-contains z blk.transactions s.pending_transactions,
        rw
            (
              erase_all-contains z blk.transactions _
                  (insert_all-IsSorted blk.transactions s.pending_transactions h),
              insert_all-contains z blk.transactions s.pending_transactions,
              once,
            )
            (not_of_or (contains z (ids_of blk.transactions)) (contains z s.pending_transactions)),
      )
