-- ===== src/Chord/Route.antt =====
-- The choice of the next node in handle_message, and the way of a message through the network.
use distributedsim.Base.{
  subst, ℕ, zero, suc, ◌+◌, ◌*◌, ◌%◌, ◌^◌, ◌≤◌, ◌<◌, ◌≡◌, ◌≢◌, inl, inr, refl, sym, ◌∙◌, true,
  false, some, List, arith, leb, ◌==◌, Bool-cases, le→leb, ltb, ltb→lt, ltb→le,
}
use native.Mathlib.Nat.{mod-eq_of_lt}
use distributedsim.Manager.Ids.{HasId, IsOrdered}
use distributedsim.Rng.{u64}
use distributedsim.Chord.{distance, successor, choose_finger, handle_message, send}
use distributedsim.Chord.Ring.{
  ring, ring-add, ring-back, ring-reach, ring-same, ring-behind, ring_self, HasFar, ring-lt,
  distance-ring, successor-IsNearest,
}

pos_of_ne : {n : ℕ} → n ≢ 0 → 0 < n
pos_of_ne {n = zero} ne = absurd (ne refl)
pos_of_ne {n = suc n} ne = omega arith

-- A network of nodes with ids below 2 ^ bits.
module _ {ℓ} {N : Type ℓ} (bits : ℕ) (nodes : List (ℕ × N)) (fits : 2 ^ bits ≤ 2 ^ 63)
    (o : IsOrdered 0 nodes) (below : (j : ℕ) → HasId nodes j → j < 2 ^ bits) (me : ℕ)
    (here : HasId nodes me) where
  -- The finger at 2 ^ n exists, and lies between 2 ^ n and any node that is that far away.
  finger-between :
      (n p : ℕ)
      → 2 ^ n ≤ ring (2 ^ bits) me p
      → HasId nodes p
      → (k : ℕ) × (successor bits nodes (u64 (me + 2 ^ n)) ≡ some k)
        × HasId nodes k
        × (2 ^ n ≤ ring (2 ^ bits) me k)
        × (ring (2 ^ bits) me k ≤ ring (2 ^ bits) me p)
  finger-between n p far hp =
      let far' : ring (2 ^ bits) me p < 2 ^ bits =
        ring-lt (2 ^ bits) me p (below me here) (below p hp) in
      let start : u64 (me + 2 ^ n) ≡ me + 2 ^ n = mod-eq_of_lt (omega (arith, below me here)) in
      let (k, e, (has, nearest)) = successor-IsNearest bits (u64 (me + 2 ^ n)) p nodes o below hp in
      let near : ring (2 ^ bits) ((me + 2 ^ n) % 2 ^ bits) k
          ≤ ring (2 ^ bits) ((me + 2 ^ n) % 2 ^ bits) p =
        subst (λ i. ring (2 ^ bits) (i % 2 ^ bits) k ≤ ring (2 ^ bits) (i % 2 ^ bits) p) start
          (nearest p hp) in
      let way = ring-add (2 ^ bits) me (2 ^ n) p (below me here) (below p hp) far in
      let back : ring (2 ^ bits) me k ≡ ring (2 ^ bits) ((me + 2 ^ n) % 2 ^ bits) k + 2 ^ n =
        ring-back (2 ^ bits) me (2 ^ n) k (below me here) (below k has) (omega arith) in
      (k, e, has, omega arith, omega arith)

  choose_finger-taken :
      (dst n k : ℕ)
      → successor bits nodes (u64 (me + 2 ^ n)) ≡ some k
      → leb (distance bits me k) (distance bits me dst) ≡ true
      → choose_finger bits me nodes dst (suc n) ≡ some (some k)
  unfolding choose_finger
  choose_finger-taken dst n k e le = rw (e, le)

  choose_finger-passed :
      (dst n k : ℕ)
      → successor bits nodes (u64 (me + 2 ^ n)) ≡ some k
      → leb (distance bits me k) (distance bits me dst) ≡ false
      → choose_finger bits me nodes dst (suc n) ≡ choose_finger bits me nodes dst n
  unfolding choose_finger
  choose_finger-passed dst n k e le = rw (e, le)

  near_enough :
      (k dst : ℕ)
      → HasId nodes k
      → HasId nodes dst
      → leb (distance bits me k) (distance bits me dst)
        ≡ leb (ring (2 ^ bits) me k) (ring (2 ^ bits) me dst)
  near_enough k dst hk hd = rw (
    distance-ring bits me k fits (below me here) (below k hk),
    distance-ring bits me dst fits (below me here) (below dst hd),
  )

  choose_finger-halves :
      (dst n p : ℕ)
      → HasId nodes dst
      → 0 < ring (2 ^ bits) me dst
      → ring (2 ^ bits) me dst < 2 ^ n
      → HasId nodes p
      → 2 ^ n ≤ 2 * ring (2 ^ bits) me p
      → (k : ℕ) × (choose_finger bits me nodes dst n ≡ some (some k))
        × HasId nodes k
        × (ring (2 ^ bits) me k ≤ ring (2 ^ bits) me dst)
        × (ring (2 ^ bits) me dst < 2 * ring (2 ^ bits) me k)
  choose_finger-halves dst zero p hd pos lt hp far = absurd (omega arith)
  choose_finger-halves dst (suc n) p hd pos lt hp far =
      let next = choose_finger-halves dst n p hd pos in
      elim (Bool-cases (ltb (ring (2 ^ bits) me dst) (2 ^ n))) [
        | inl e ↦
            let short = ltb→lt (ring (2 ^ bits) me dst) (2 ^ n) e in
            let (k, found, has, ge, _) = finger-between n p (omega arith) hp in
            let far' : leb (ring (2 ^ bits) me k) (ring (2 ^ bits) me dst) ≡ false = ground arith in
            let (k', found', has', le, half) = next short hp (omega arith) in
            (
              k',
              choose_finger-passed dst n k found (near_enough k dst has hd ∙ far') ∙ found',
              has',
              le,
              half,
            )
        | inr e ↦
            let long = ltb→le (ring (2 ^ bits) me dst) (2 ^ n) e in
            let (k, found, has, ge, le) = finger-between n dst long hd in
            (
              k,
              choose_finger-taken dst n k found (
                  near_enough k dst has hd
                  ∙ le→leb (ring (2 ^ bits) me k) (ring (2 ^ bits) me dst) le),
              has,
              le,
              omega arith,
            )
      ]

  handle_message-sent :
      (data_ dst k : ℕ)
      → successor bits nodes data_ ≡ some dst
      → me ≢ dst
      → choose_finger bits me nodes dst bits ≡ some (some k)
      → handle_message bits me nodes data_ ≡ some (send k)
  unfolding handle_message
  handle_message-sent data_ dst k e ne chosen =
      let other : (me == dst) ≡ false = ground arith in rw (e, other, chosen)

  -- Where a node lies in the further half of the ring, a message for another node goes to a node on
  -- the way to its destination, and the distance that is left is less than half of what it was.
  pub handle_message-halves :
      (data_ dst : ℕ)
      → successor bits nodes data_ ≡ some dst
      → HasId nodes dst
      → me ≢ dst
      → HasFar bits nodes me
      → (k : ℕ) × (handle_message bits me nodes data_ ≡ some (send k))
        × HasId nodes k
        × (k ≢ me)
        × (2 * ring (2 ^ bits) k dst < ring (2 ^ bits) me dst)
  handle_message-halves data_ dst e hd ne (p, hp, far) =
      let m = 2 ^ bits in
      let pos : 0 < ring m me dst =
        pos_of_ne (λ z. ne (ring-same m me dst (below dst hd) (below me here) z)) in
      let lt = ring-lt m me dst (below me here) (below dst hd) in
      let (k, chosen, has, le, half) = choose_finger-halves dst bits p hd pos lt hp far in
      let left = ring-add m me (ring m me k) dst (below me here) (below dst hd) le in
      let there = ring-reach m me k (below me here) (below k has) in
      let rest : ring m k dst + ring m me k ≡ ring m me dst =
        subst (λ i. ring m i dst + ring m me k ≡ ring m me dst) there left in
      (
        k,
        handle_message-sent data_ dst k e ne chosen,
        has,
        λ same.
            let turn = subst (λ i. ring m i dst + ring m me k ≡ ring m me dst) same rest in
            omega arith,
        omega arith,
      )

  nearest_is_self :
      (b k : ℕ)
      → 2 * 2 ^ b ≡ 2 ^ bits
      → ((j : ℕ) → HasId nodes j → 2 * ring (2 ^ bits) me j < 2 ^ bits)
      → HasId nodes k
      → ring (2 ^ bits) ((me + 2 ^ b) % 2 ^ bits) k ≤ ring (2 ^ bits) ((me + 2 ^ b) % 2 ^ bits) me
      → me ≡ k
  nearest_is_self b k twice close has le =
      let m = 2 ^ bits in
      let hm = below me here in
      let hk = below k has in
      let at_me = ring-behind m me (2 ^ b) me hm hm (omega arith) (omega (arith, close me here)) in
      let at_k = ring-behind m me (2 ^ b) k hm hk (omega arith) (omega (arith, close k has)) in
      ring-same m me k hk hm (omega (arith, ring_self m me))

  -- Where no node lies in the further half of the ring, a node takes itself for the first finger,
  -- and every message for another node is sent to itself.
  pub handle_message_self :
      (data_ dst b : ℕ)
      → bits ≡ suc b
      → successor bits nodes data_ ≡ some dst
      → HasId nodes dst
      → me ≢ dst
      → ((j : ℕ) → HasId nodes j → 2 * ring (2 ^ bits) me j < 2 ^ bits)
      → handle_message bits me nodes data_ ≡ some (send me)
  handle_message_self data_ dst b size e hd ne close =
      let m = 2 ^ bits in
      let twice : 2 * 2 ^ b ≡ 2 ^ bits = rw size (omega arith) in
      let start : u64 (me + 2 ^ b) ≡ me + 2 ^ b = mod-eq_of_lt (omega (arith, below me here)) in
      let (k, found, (has, nearest)) =
        successor-IsNearest bits (u64 (me + 2 ^ b)) me nodes o below here in
      let near : ring m ((me + 2 ^ b) % m) k ≤ ring m ((me + 2 ^ b) % m) me =
        subst (λ i. ring m (i % m) k ≤ ring m (i % m) me) start (nearest me here) in
      let same : me ≡ k = nearest_is_self b k twice close has near in
      let found' = subst (λ i. successor bits nodes (u64 (me + 2 ^ b)) ≡ some i) (sym same) found in
      let none_left : leb (ring m me me) (ring m me dst) ≡ true =
        le→leb (ring m me me) (ring m me dst) (omega (arith, ring_self m me)) in
      let chosen = choose_finger-taken dst b me found' (near_enough me dst here hd ∙ none_left) in
      handle_message-sent data_ dst me e ne
        (subst (λ n. choose_finger bits me nodes dst n ≡ some (some me)) (sym size) chosen)
