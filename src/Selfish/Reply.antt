-- ===== src/Selfish/Reply.antt =====
-- The critical section of others_block: it never takes the front of an empty deque, and publishes the
-- private blocks in the order in which they were mined.
use distributedsim.Base.{
  ℕ, ◌+◌, ◌≤◌, ◌<◌, ◌≡◌, ◌⊎◌, inl, inr, refl, ap, ◌∙◌, false, Option, some, List, [], ◌∷◌, ◌++◌,
  arith, ltb, ◌==◌, length, get_elem?, All, Bool-cases, ltb→lt, ltb→le, ==_iff, ==_ne,
}
use distributedsim.Tinycoin.{Block}
use distributedsim.Tinycoin.Tree.{height, handled-measured}
use distributedsim.Tinycoin.Valid.{IsMade, IsValid}
use distributedsim.Miner.{insert, contains}
use distributedsim.Selfish.{
  Coordinator, clear_chain, take_chain, publish_front, private_height, reply, react, is_member,
}

append_nil : {A : Type 0} (xs : List A) → xs ++ [] ≡ xs
append_nil [] = refl
append_nil (x ∷ xs) = ap (◌∷◌ x) (append_nil xs)

module _ {A : Type 0} (origin : ℕ → ℕ) where
  -- The coordinator's node is valid, its private blocks were made by miners, and what it has
  -- published is not higher than its head.
  pub record IsSound (s : Coordinator A) : Type 0 where
    pub node_valid : IsValid origin [] s.node
    pub ours : All (IsMade origin) s.our_chain
    pub behind : s.starting_height + s.published_blocks ≤ height s.node.lengths s.node.head

  -- The private blocks are published from the front, and the others are kept; or all are given up,
  -- and only where the others' branch is strictly higher, `h`.
  abbrev pub Publishes : ℕ → Coordinator A → List (Block A) → Coordinator A → Type 0
  Publishes h s sent s' =
      (sent ++ s'.our_chain ≡ s.our_chain)
      ⊎ ((private_height s < h) × (sent ≡ []) × (s'.our_chain ≡ []))

  abbrev pub Replies : ℕ → Coordinator A → Option (List (Block A) × Coordinator A) → Type 0
  Replies h s r =
      (sent : List (Block A)) × (s' : Coordinator A) × (r ≡ some (sent, s'))
      × IsSound s'
      × All (IsMade origin) sent
      × (s'.node ≡ s.node)
      × Publishes h s sent s'

  abbrev cleared : Coordinator A → Coordinator A
  cleared s = record s {
    our_chain = [];
    published_blocks = 0;
    our_head = s.node.head;
    starting_height = height s.node.lengths s.node.head;
    private_pending_transactions = s.node.rest.pending_transactions;
  }

  clear_chain-cleared : (s : Coordinator A) → IsSound s → clear_chain s ≡ some (cleared s)
  unfolding clear_chain
  clear_chain-cleared s v =
      rw (handled-measured origin v.node_valid.tree s.node.head v.node_valid.head_handled) refl

  cleared-IsSound : (s : Coordinator A) → IsSound s → IsSound (cleared s)
  cleared-IsSound s v = record { node_valid = v.node_valid; ours = tt; behind = omega arith }

  -- All private blocks are taken, or, with no members, none.
  pub take_chain-IsSound :
      (s : Coordinator A)
      → IsSound s
      → (sent : List (Block A)) × (s' : Coordinator A) × (take_chain s ≡ some (sent, s'))
        × IsSound s'
        × All (IsMade origin) sent
        × (s'.node ≡ s.node)
        × (((sent ≡ []) × (s'.our_chain ≡ s.our_chain))
            ⊎ ((sent ≡ s.our_chain) × (s'.our_chain ≡ [])))
  unfolding take_chain
  take_chain-IsSound s v = elim (Bool-cases (length s.members == 0)) [
    | inl alone ↦ ([], s, rw alone, v, tt, refl, inl (refl, refl))
    | inr joined ↦ (
      s.our_chain,
      cleared s,
      rw (joined, clear_chain-cleared s v),
      cleared-IsSound s v,
      v.ours,
      refl,
      inr (refl, refl),
    )
  ]

  take_chain-Replies : (h : ℕ) (s : Coordinator A) → IsSound s → Replies h s (take_chain s)
  take_chain-Replies h s v =
      let (sent, s', run, sound, made, same, which) = take_chain-IsSound s v in
      (
        sent,
        s',
        run,
        sound,
        made,
        same,
        inl (elim which [
          | inl (a, b) ↦ rw (a, b) refl
          | inr (a, b) ↦ rw (a, b) (append_nil s.our_chain)
        ]),
      )

  publish_front-Replies :
      (h : ℕ) (s : Coordinator A) (bs : List (Block A))
      → bs ≡ s.our_chain
      → All (IsMade origin) bs
      → IsSound s
      → s.starting_height + s.published_blocks < height s.node.lengths s.node.head
      → 0 < length bs
      → Replies h s (publish_front bs s)
  publish_front-Replies h s [] e made v less pos = absurd (omega arith)
  publish_front-Replies h s (b ∷ bs) e made v less pos = (
    b ∷ [],
    record s { our_chain = bs; published_blocks = s.published_blocks + 1 },
    refl,
    record { node_valid = v.node_valid; ours = made.1; behind = omega arith },
    (made.0, tt),
    refl,
    inl e,
  )

  -- Once the others have a new head of height `h`, above what was published.
  reply-Replies :
      (h : ℕ) (s : Coordinator A)
      → IsSound s
      → height s.node.lengths s.node.head ≡ h
      → s.starting_height + s.published_blocks < h
      → Replies h s (reply h s)
  unfolding reply
  reply-Replies h s v at less =
      let front = publish_front-Replies h s s.our_chain refl v.ours v (omega arith) in
      elim (Bool-cases (ltb (private_height s) h)) [
        | inl lost ↦ (
          [],
          cleared s,
          rw (lost, clear_chain-cleared s v),
          cleared-IsSound s v,
          tt,
          refl,
          inr (ltb→lt (private_height s) h lost, refl, refl),
        )
        | inr kept ↦
            let up = ltb→le (private_height s) h kept in
            elim (Bool-cases (private_height s == h)) [
              | inl tied ↦
                  rw (kept, tied) (front (omega (arith, (==_iff (private_height s) h).0 tied)))
              | inr apart ↦ elim (Bool-cases (private_height s == h + 1)) [
                | inl one ↦ rw (kept, apart, one) (take_chain-Replies h s v)
                | inr more ↦
                    rw (kept, apart, more) (front (omega (arith, ==_ne (private_height s) h apart)))
              ]
            ]
      ]

  -- With the block of others known to the node, the critical section ends without a fault, whatever
  -- it decides.
  pub react-Replies :
      (blk : Block A) (s : Coordinator A)
      → IsSound s
      → (is_member blk.miner s ≡ false
          → contains blk.id s.blocks_seen ≡ false
          → blk.id ≡ s.node.head
          → s.starting_height + s.published_blocks < height s.node.lengths s.node.head)
      → Replies (height s.node.lengths s.node.head) s (react blk s)
  unfolding react
  react-Replies blk s v fresh =
      let seen = record s { blocks_seen = insert blk.id s.blocks_seen } in
      let seen_v : IsSound seen = record {
        node_valid = v.node_valid;
        ours = v.ours;
        behind = v.behind;
      } in
      elim (Bool-cases (is_member blk.miner s)) [
        | inl own ↦ ([], s, rw own, v, tt, refl, inl refl)
        | inr other ↦ elim (Bool-cases (contains blk.id s.blocks_seen)) [
          | inl old ↦ ([], s, rw (other, old), v, tt, refl, inl refl)
          | inr new ↦ elim (Bool-cases (blk.id == s.node.head)) [
            | inr below ↦ ([], seen, rw (other, new, below), seen_v, tt, refl, inl refl)
            | inl top ↦
                let at = (==_iff blk.id s.node.head).0 top in
                let measured =
                  handled-measured origin v.node_valid.tree s.node.head v.node_valid.head_handled in
                let found = ap (get_elem? s.node.lengths) at ∙ measured in
                let (sent, s', run, sound, made, same, order) =
                  reply-Replies (height s.node.lengths s.node.head) seen seen_v refl
                    (fresh other new at) in
                (sent, s', rw (other, new, top, found) run, sound, made, same, order)
          ]
        ]
      ]
