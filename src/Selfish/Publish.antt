-- ===== src/Selfish/Publish.antt =====
-- The methods of the coordinator as a whole: they end without a fault, keep it sound, and send to
-- every member what they publish.
use distributedsim.Base.{
  ℕ, ◌+◌, ◌≤◌, ◌<◌, ◌≡◌, ◌≢◌, ◌⊎◌, inl, inr, refl, ◌∙◌, subst, ◌&&◌, some, List, [], ◌∷◌, ◌++◌,
  arith, ltb, ◌==◌, ◌>>=◌, length, All, All-append, Bool-cases,
}
use distributedsim.Tinycoin.{Block, Chain}
use distributedsim.Tinycoin.Tree.{height, handled-measured}
use distributedsim.Tinycoin.Valid.{IsMade}
use distributedsim.Tinycoin.Heights.{Rises, Rises-le}
use distributedsim.Tinycoin.Receive.{receive-Done}
use distributedsim.Miner.{Miner}
use distributedsim.Selfish.{
  Coordinator, add_block, private_height, observe, to_members, send_block, send_all, others_block,
  our_block, flush_chain,
}
use distributedsim.Selfish.Reply.{IsSound, Publishes, take_chain-IsSound, react-Replies}

-- The calls of the members' send_block for the blocks `sent`.
abbrev pub calls : {A : Type 0} → List ℕ → List (Block A) → List (ℕ × Block A)
calls members [] = []
calls members (blk ∷ blks) = to_members members blk ++ calls members blks

module _ {A : Type 0} (confirm unconfirm : Block A → Miner A → Miner A) (origin : ℕ → ℕ)
    (older : (i : ℕ) → 0 < i → origin i < i) where
  observe-IsSound :
      (blk : Block A) (s : Coordinator A)
      → IsSound origin s
      → IsMade origin blk
      → (c : Chain A (Miner A)) × (observe confirm unconfirm blk s ≡ some (record s { node = c }))
        × IsSound origin (record s { node = c })
        × Rises s.node c
        × (height s.node.lengths s.node.head ≤ height c.lengths c.head)
  unfolding observe
  observe-IsSound blk s v made =
      let (c, run, done) =
        receive-Done confirm unconfirm origin older blk s.node v.node_valid made in
      let le = Rises-le origin older v.node_valid done.valid done.grown in
      (
        c,
        rw (run, ◌>>=◌) refl,
        record { node_valid = done.valid; ours = v.ours; behind = omega (arith, v.behind) },
        done.raised,
        le,
      )

  -- Sending blocks changes nothing but the node, and calls every member for each block.
  send_all-IsSound :
      (blks : List (Block A)) (s : Coordinator A)
      → IsSound origin s
      → All (IsMade origin) blks
      → (c : Chain A (Miner A)) × (send_all confirm unconfirm blks s
          ≡ some (calls s.members blks, record s { node = c }))
        × IsSound origin (record s { node = c })
        × (height s.node.lengths s.node.head ≤ height c.lengths c.head)
  unfolding send_all send_block
  send_all-IsSound [] s v made = (s.node, refl, v, omega arith)
  send_all-IsSound (blk ∷ blks) s v made =
      let (c, run, v₁, _, le) = observe-IsSound blk s v made.0 in
      let (c', rest, v₂, le') = send_all-IsSound blks (record s { node = c }) v₁ made.1 in
      (c', rw (run, ◌>>=◌, rest) refl, v₂, omega (arith, le, le'))

  -- A block of others that is not yet the head never makes the coordinator fault. It stays sound, and
  -- what it sends to every member are private blocks from the front, in their order, the others being
  -- kept; or it sends nothing and gives all of them up, and only where the others' branch is higher
  -- than its own.
  pub others_block-IsSound :
      (blk : Block A) (s : Coordinator A)
      → IsSound origin s
      → IsMade origin blk
      → blk.id ≢ s.node.head
      → (sent : List (Block A)) × (s' : Coordinator A) × (others_block confirm unconfirm blk s
          ≡ some (calls s'.members sent, s'))
        × IsSound origin s'
        × ((sent ++ s'.our_chain ≡ s.our_chain)
            ⊎ ((private_height s < height s'.node.lengths s'.node.head)
                × (sent ≡ [])
                × (s'.our_chain ≡ [])))
  unfolding others_block
  others_block-IsSound blk s v made ne =
      let (c, run, v₁, up, le) = observe-IsSound blk s v made in
      let s₁ = record s { node = c } in
      let (sent, s₂, reacted, v₂, made₂, same, order) =
        react-Replies origin blk s₁ v₁ (λ _ _ at. higher c up at) in
      let (c', sending, v₃, le') = send_all-IsSound sent s₂ v₂ made₂ in
      (
        sent,
        record s₂ { node = c' },
        rw (run, ◌>>=◌, reacted, sending) refl,
        v₃,
        outcome s₂ c c' sent order
            (subst (λ n. height n.lengths n.head ≤ height c'.lengths c'.head) same le'),
      )
    where
      higher :
          (c : Chain A (Miner A))
          → Rises s.node c
          → blk.id ≡ c.head
          → s.starting_height + s.published_blocks < height c.lengths c.head
      higher c (inl e) at = absurd (ne (at ∙ e))
      higher c (inr up) at = omega (arith, v.behind)

      outcome :
          (s₂ : Coordinator A) (c c' : Chain A (Miner A)) (sent : List (Block A))
          → Publishes origin (height c.lengths c.head) (record s { node = c }) sent s₂
          → height c.lengths c.head ≤ height c'.lengths c'.head
          → (sent ++ s₂.our_chain ≡ s.our_chain)
            ⊎ ((private_height s < height c'.lengths c'.head) × (sent ≡ []) × (s₂.our_chain ≡ []))
      outcome s₂ c c' sent (inl e) le = inl e
      outcome s₂ c c' sent (inr (less, a, b)) le = inr (omega arith, a, b)

  -- flush_chain never makes the coordinator fault: all private blocks are sent to every member, in
  -- their order, or, where there is no member, all are kept.
  pub flush_chain-IsSound :
      (s : Coordinator A)
      → IsSound origin s
      → (sent : List (Block A)) × (s' : Coordinator A) × (flush_chain confirm unconfirm s
          ≡ some (calls s'.members sent, s'))
        × IsSound origin s'
        × (((sent ≡ []) × (s'.our_chain ≡ s.our_chain))
            ⊎ ((sent ≡ s.our_chain) × (s'.our_chain ≡ [])))
  unfolding flush_chain
  flush_chain-IsSound s v =
      let (sent, s', taken, v₁, made, _, which) = take_chain-IsSound origin s v in
      let (c, sending, v₂, _) = send_all-IsSound sent s' v₁ made in
      (sent, record s' { node = c }, rw (taken, ◌>>=◌, sending) refl, v₂, which)

  add_block-IsSound :
      (blk : Block A) (s : Coordinator A)
      → IsSound origin s
      → IsMade origin blk
      → IsSound origin (add_block blk s)
  unfolding add_block
  add_block-IsSound blk s v made = record {
    node_valid = v.node_valid;
    ours = All-append (IsMade origin) s.our_chain (blk ∷ []) v.ours (made, tt);
    behind = v.behind;
  }

  add_block-our_chain :
      (blk : Block A) (s : Coordinator A) → (add_block blk s).our_chain ≡ s.our_chain ++ blk ∷ []
  unfolding add_block
  add_block-our_chain blk s = refl

  -- A block of a member never makes the coordinator fault. It stays sound, and with the new block
  -- last either all private blocks are sent to every member, in their order, or all are kept.
  pub our_block-IsSound :
      (blk : Block A) (s : Coordinator A)
      → IsSound origin s
      → IsMade origin blk
      → (sent : List (Block A)) × (s' : Coordinator A) × (our_block confirm unconfirm blk s
          ≡ some (calls s'.members sent, s'))
        × IsSound origin s'
        × (((sent ≡ []) × (s'.our_chain ≡ s.our_chain ++ blk ∷ []))
            ⊎ ((sent ≡ s.our_chain ++ blk ∷ []) × (s'.our_chain ≡ [])))
  unfolding our_block send_all
  our_block-IsSound blk s v made =
      let s₁ = add_block blk s in
      let v₁ = add_block-IsSound blk s v made in
      let measured =
        handled-measured origin v₁.node_valid.tree s₁.node.head v₁.node_valid.head_handled in
      let won =
        private_height s₁ == height s₁.node.lengths s₁.node.head + 1
        && ltb 1 (s₁.published_blocks + length s₁.our_chain) in
      elim (Bool-cases won) [
        | inr keep ↦
            ([], s₁, rw (measured, ◌>>=◌, keep) refl, v₁, inl (refl, add_block-our_chain blk s))
        | inl all ↦
            let (sent, s', taken, v', made', _, which) = take_chain-IsSound origin s₁ v₁ in
            let (c, sending, v'', _) = send_all-IsSound sent s' v' made' in
            (
              sent,
              record s' { node = c },
              rw (measured, ◌>>=◌, all, taken, sending) refl,
              v'',
              which_new s₁ s' sent which,
            )
      ]
    where
      which_new :
          (s₁ s' : Coordinator A) (sent : List (Block A))
          → ((sent ≡ []) × (s'.our_chain ≡ (add_block blk s).our_chain))
            ⊎ ((sent ≡ (add_block blk s).our_chain) × (s'.our_chain ≡ []))
          → ((sent ≡ []) × (s'.our_chain ≡ s.our_chain ++ blk ∷ []))
            ⊎ ((sent ≡ s.our_chain ++ blk ∷ []) × (s'.our_chain ≡ []))
      which_new s₁ s' sent (inl (a, b)) = inl (a, b ∙ add_block-our_chain blk s)
      which_new s₁ s' sent (inr (a, b)) = inr (a ∙ add_block-our_chain blk s, b)
