-- ===== src/Peer/Once.antt =====
-- A TinyNode passes every transaction and every block on at most once.
use distributedsim.Base.{
  All, ap, ◌>>=◌, ℕ, ◌+◌, ◌<◌, ◌≡◌, ◌≢◌, refl, ◌∙◌, Bool, true, false, Option, some, List, [], ◌∷◌,
  length, if◌then◌else◌,
}
use distributedsim.Common.{satisfies}
use distributedsim.Node.{Message}
use distributedsim.Tinycoin.{Transaction, Block, Chain, no_id, is_seen}
use distributedsim.Tinycoin.Valid.{IsMade, IsValid}
use distributedsim.Tinycoin.Receive.{receive}
use distributedsim.Tinycoin.Write.{Marks}
use distributedsim.Tinycoin.Rest.{Ends-some, handle_block-keeps}
use distributedsim.Miner.{Miner, is_received, node_confirm, node_unconfirm, node_handle_transaction}
use distributedsim.Miner.Received.{known_transaction, received_kept, received_now}
use distributedsim.Peer.{
  Peer, TinyData, node_forward, transaction, block, handle_message, node_transaction, node_block,
}
use distributedsim.Peer.Seen.{seen_slot, slot_seen, receive-seen, rest-IsValid}

-- A transaction from the counter, or a block that a miner made.
abbrev pub IsGenuine : {A : Type 0} → (ℕ → ℕ) → TinyData A → Type 0
IsGenuine origin (transaction tx) = tx.id ≢ no_id
IsGenuine origin (block b) = IsMade origin b

module _ {A W : Type 0} (add subtract : A → A → A) (nothing : A) (scale : ℕ → A) (block_reward : A)
    (pass : ℕ → Message (TinyData A) → W → Bool × W) where
  -- A TinyNode with fuel for every slot.
  abbrev pub handle : Message (TinyData A) → Peer A W → Option (Bool × Peer A W)
  handle msg p =
      handle_message (node_transaction add subtract nothing scale block_reward)
        (node_block add subtract nothing scale block_reward (length p.0.blockchain + 1))
        (node_forward pass) msg p

  handle-transaction :
      (msg : Message (TinyData A)) (tx : Transaction A) (c : Chain A (Miner A)) (w : W)
      → msg.data_ ≡ transaction tx
      → handle msg (c, w)
        ≡ some (
            let (fresh, s) = node_handle_transaction nothing tx c.rest in
            if fresh
            then node_forward pass msg (record c { rest = s }, w)
            else (true, (record c { rest = s }, w)))
  unfolding handle_message node_transaction
  handle-transaction msg tx c w e = rw e

  handle-block :
      (msg : Message (TinyData A)) (b : Block A) (c c' : Chain A (Miner A)) (w : W) (fresh : Bool)
      → msg.data_ ≡ block b
      → receive
          (node_confirm add nothing scale block_reward)
          (node_unconfirm add nothing subtract scale block_reward)
          b
          c
        ≡ some (fresh, c')
      → handle msg (c, w) ≡ some (if fresh then node_forward pass msg (c', w) else (true, (c', w)))
  unfolding handle_message node_block receive
  handle-block msg b c c' w fresh e run = rw (e, run)

  receive-received :
      (b : Block A) (c c' : Chain A (Miner A)) (fresh : Bool)
      → receive
          (node_confirm add nothing scale block_reward)
          (node_unconfirm add nothing subtract scale block_reward)
          b
          c
        ≡ some (fresh, c')
      → c'.rest.received_transactions ≡ c.rest.received_transactions
  unfolding receive node_confirm node_unconfirm
  receive-received b c c' fresh run =
      Ends-some (λ r. r.1.rest.received_transactions ≡ c.rest.received_transactions) run
        (handle_block-keeps (node_confirm add nothing scale block_reward)
          (node_unconfirm add nothing subtract scale block_reward)
          (λ (s : Miner A). s.received_transactions) (λ k s. refl) (λ k s. refl)
          (length c.blockchain + 1) c.rest.received_transactions b c refl)

  -- The transaction or block has been received.
  abbrev Known : TinyData A → Chain A (Miner A) → Type 0
  Known (transaction tx) c =
      satisfies c.rest.received_transactions tx.id (is_received nothing) ≡ true
  Known (block b) c = satisfies c.blockchain b.id is_seen ≡ true

  -- A call returns, and what was known stays known; where its own data were, nothing is sent.
  abbrev Step : (ℕ → ℕ) → Message (TinyData A) → TinyData A → Chain A (Miner A) → W → Type 0
  Step origin msg d c w =
      (fine : Bool) × (c₁ : Chain A (Miner A)) × (w₁ : W) × (handle msg (c, w)
        ≡ some (fine, (c₁, w₁)))
      × IsValid origin [] c₁
      × Known d c₁
      × ((k : TinyData A) → Known k c → Known k c₁)
      × (Known d c → (fine ≡ true) × (w₁ ≡ w))

  passed :
      (origin : ℕ → ℕ) (msg : Message (TinyData A)) (d : TinyData A) (c c₁ : Chain A (Miner A))
      (w : W) (fresh : Bool)
      → handle msg (c, w) ≡ some (if fresh then node_forward pass msg (c₁, w) else (true, (c₁, w)))
      → IsValid origin [] c₁
      → Known d c₁
      → ((k : TinyData A) → Known k c → Known k c₁)
      → (Known d c → fresh ≡ false)
      → Step origin msg d c w
  passed origin msg d c c₁ w true run v now kept old = (
    (pass c₁.rest.me msg w).0,
    c₁,
    (pass c₁.rest.me msg w).1,
    run,
    v,
    now,
    kept,
    λ known. (let wrong = old known in cc),
  )
  passed origin msg d c c₁ w false run v now kept old =
      (true, c₁, w, run, v, now, kept, λ known. (refl, refl))

  handle-Step :
      (origin : ℕ → ℕ)
      → ((i : ℕ) → 0 < i → origin i < i)
      → (msg : Message (TinyData A)) (d : TinyData A) (c : Chain A (Miner A)) (w : W)
      → msg.data_ ≡ d
      → IsGenuine origin d
      → IsValid origin [] c
      → Step origin msg d c w
  handle-Step origin older msg (transaction tx) c w e genuine v =
      let (fresh, s) = node_handle_transaction nothing tx c.rest in
      let c₁ = record c { rest = s } in
      let v₁ =
        rest-IsValid (node_confirm add nothing scale block_reward)
          (node_unconfirm add nothing subtract scale block_reward) origin older c s v in
      passed origin msg (transaction tx) c c₁ w fresh (handle-transaction msg tx c w e) v₁
        (received_now nothing tx c.rest genuine)
        (keep s (λ i. received_kept nothing tx c.rest i genuine))
        (λ known. ap (λ r. r.0) (known_transaction nothing tx c.rest known))
    where
      keep :
          (s : Miner A)
          → ((i : ℕ)
              → satisfies c.rest.received_transactions i (is_received nothing) ≡ true
              → satisfies s.received_transactions i (is_received nothing) ≡ true)
          → (k : TinyData A) → Known k c
          → Known k (record c { rest = s })
      keep s old (transaction other) known = old other.id known
      keep s old (block b) known = known
  handle-Step origin older msg (block b) c w e made v =
      let yes_ = node_confirm add nothing scale block_reward in
      let undo = node_unconfirm add nothing subtract scale block_reward in
      let (c₁, run, v₁, seen, marked) = receive-seen yes_ undo origin older b c v made in
      passed origin msg (block b) c c₁ w _ (handle-block msg b c c₁ w _ e run) v₁ seen
        (keep c₁ marked (receive-received b c c₁ _ run)) (λ known. rw known refl)
    where
      keep :
          (c₁ : Chain A (Miner A))
          → Marks c.blockchain c₁.blockchain
          → c₁.rest.received_transactions ≡ c.rest.received_transactions
          → (k : TinyData A) → Known k c
          → Known k c₁
      keep c₁ marked same (transaction tx) known = rw same known
      keep c₁ marked same (block other) known =
          seen_slot c₁.blockchain other.id (marked other.id (slot_seen c.blockchain other.id known))

  -- Messages, one after another, each with the rest of the world as it is then.
  abbrev pub handle_each :
      List (Message (TinyData A) × W) → Chain A (Miner A) → Option (Chain A (Miner A))
  handle_each [] c = some c
  handle_each ((msg, w) ∷ ms) c = do (_, (c', _)) ← handle msg (c, w); handle_each ms c'

  handle_each-Known :
      (origin : ℕ → ℕ)
      → ((i : ℕ) → 0 < i → origin i < i)
      → (d : TinyData A) (ms : List (Message (TinyData A) × W)) (c : Chain A (Miner A))
      → All (λ m. IsGenuine origin m.0.data_) ms
      → IsValid origin [] c
      → Known d c
      → (c' : Chain A (Miner A)) × (handle_each ms c ≡ some c') × IsValid origin [] c' × Known d c'
  handle_each-Known origin older d [] c all v known = (c, refl, v, known)
  handle_each-Known origin older d ((msg, w) ∷ ms) c all v known =
      let (fine, c₁, w₁, run, v₁, now, kept, quiet) =
        handle-Step origin older msg msg.data_ c w refl all.0 v in
      let (c', rest, v', known') = handle_each-Known origin older d ms c₁ all.1 v₁ (kept d known) in
      (c', rw (run, ◌>>=◌) rest, v', known')

  -- A TinyNode in a valid state handles a transaction or block, then any other messages, and then the
  -- same data again, in a message from whomever, each with the rest of the world as it may have become:
  -- all these calls return, the last state is valid, and the last call sends nothing. Every
  -- transaction and every block is thus passed on at most once. The transactions have ids other than that
  -- of none, the blocks are made by miners, and a block is made after its parent.
  pub handle_message_once :
      (origin : ℕ → ℕ)
      → ((i : ℕ) → 0 < i → origin i < i)
      → (msg again : Message (TinyData A)) (ms : List (Message (TinyData A) × W))
        (c : Chain A (Miner A)) (w w' : W)
      → IsGenuine origin msg.data_
      → again.data_ ≡ msg.data_
      → All (λ m. IsGenuine origin m.0.data_) ms
      → IsValid origin [] c
      → (fine : Bool) × (c₁ : Chain A (Miner A)) × (w₁ : W) × (c₂ : Chain A (Miner A)) × (c₃ : Chain
          A
          (Miner A))
        × (handle msg (c, w) ≡ some (fine, (c₁, w₁)))
        × (handle_each ms c₁ ≡ some c₂)
        × (handle again (c₂, w') ≡ some (true, (c₃, w')))
        × IsValid origin [] c₃
  handle_message_once origin older msg again ms c w w' genuine same all v =
      let (fine, c₁, w₁, run, v₁, now, _, _) =
        handle-Step origin older msg msg.data_ c w refl genuine v in
      let (c₂, between, v₂, known) = handle_each-Known origin older msg.data_ ms c₁ all v₁ now in
      let (fine', c₃, w₃, last, v₃, _, _, quiet) =
        handle-Step origin older again msg.data_ c₂ w' same genuine v₂ in
      let (f, unsent) = quiet known in
      (fine, c₁, w₁, c₂, c₃, run, between, last ∙ rw (f, unsent) refl, v₃)
