-- ===== src/Chord/Hops.antt =====
-- The whole way of a message: handle_message at one node after another, until one delivers it.
use distributedsim.Base.{
  ℕ, zero, suc, ◌^◌, ◌≤◌, ◌<◌, ◌≡◌, ◌≢◌, inl, inr, sym, Bool-cases, true, false, Option, none, some,
  List, arith, ◌==◌, if◌then◌else◌, subst, ap, ◌∙◌, ==_iff, ==_ne,
}
use distributedsim.Manager.Ids.{HasId, IsOrdered}
use distributedsim.Chord.{successor, handle_message, Action, deliver, send, drop}
use distributedsim.Chord.Ring.{ring, HasFar, ring-same}
use distributedsim.Chord.Route.{handle_message-halves}

-- What comes of an action at node `me`: the node that delivers and the number of hops. A message of
-- a node to itself is refused by HardwareManager::can_send, and a dropped one goes nowhere.
abbrev pub one_hop : Option (ℕ × ℕ) → Option (ℕ × ℕ)
one_hop none = none
one_hop (some (at, hops)) = some (at, suc hops)

unfoldable pub follow : (ℕ → Option (ℕ × ℕ)) → ℕ → Option Action → Option (ℕ × ℕ)
follow next me none = none
follow next me (some deliver) = some (me, 0)
follow next me (some drop) = none
follow next me (some (send k)) = if k == me then none else one_hop (next k)

module _ {ℓ} {N : Type ℓ} where
  unfoldable pub walk : ℕ → ℕ → List (ℕ × N) → ℕ → ℕ → Option (ℕ × ℕ)
  unfolding follow
  walk zero bits nodes data_ me = none
  walk (suc fuel) bits nodes data_ me =
      follow (walk fuel bits nodes data_) me (handle_message bits me nodes data_)

  walk-sent :
      (fuel bits : ℕ) (nodes : List (ℕ × N)) (data_ me k at hops : ℕ)
      → handle_message bits me nodes data_ ≡ some (send k)
      → k ≢ me
      → walk fuel bits nodes data_ k ≡ some (at, hops)
      → walk (suc fuel) bits nodes data_ me ≡ some (at, suc hops)
  unfolding walk follow
  walk-sent fuel bits nodes data_ me k at hops sent ne rest =
      let other : (k == me) ≡ false = ground arith in rw (sent, other, rest)

  walk-here :
      (fuel bits : ℕ) (nodes : List (ℕ × N)) (data_ me : ℕ)
      → successor bits nodes data_ ≡ some me
      → walk (suc fuel) bits nodes data_ me ≡ some (me, 0)
  unfolding walk follow handle_message
  walk-here fuel bits nodes data_ me e = let same : (me == me) ≡ true = ground arith in rw (e, same)

  walk-at :
      (fuel bits : ℕ) (nodes : List (ℕ × N)) (data_ me dst : ℕ)
      → successor bits nodes data_ ≡ some dst
      → me ≡ dst
      → walk (suc fuel) bits nodes data_ me ≡ some (dst, 0)
  walk-at fuel bits nodes data_ me dst e at =
      subst (λ i. walk (suc fuel) bits nodes data_ me ≡ some (i, 0)) at
        (walk-here fuel bits nodes data_ me (e ∙ ap some (sym at)))

  -- Where the ids are below 2 ^ bits, bits is at most 63, and every node has another in the further
  -- half of the ring, a message reaches the successor of its target from every node, in at most as
  -- many hops as the distance has bits.
  pub walk-delivers :
      (n bits : ℕ) (nodes : List (ℕ × N))
      → 2 ^ bits ≤ 2 ^ 63
      → IsOrdered 0 nodes
      → ((j : ℕ) → HasId nodes j → j < 2 ^ bits)
      → ((j : ℕ) → HasId nodes j → HasFar bits nodes j)
      → (data_ dst me : ℕ) → successor bits nodes data_ ≡ some dst
      → HasId nodes dst
      → HasId nodes me
      → ring (2 ^ bits) me dst < 2 ^ n
      → (hops : ℕ) × (walk (suc n) bits nodes data_ me ≡ some (dst, hops)) × (hops ≤ n)
  walk-delivers zero bits nodes fits o below far data_ dst me e hd here lt =
      let at = ring-same (2 ^ bits) me dst (below dst hd) (below me here) (omega arith) in
      (0, walk-at zero bits nodes data_ me dst e at, omega arith)
  walk-delivers (suc n) bits nodes fits o below far data_ dst me e hd here lt =
      let step = walk-delivers n bits nodes fits o below far data_ dst in
      elim (Bool-cases (me == dst)) [
        | inl same ↦
            (0, walk-at (suc n) bits nodes data_ me dst e ((==_iff me dst).0 same), omega arith)
        | inr away ↦
            let ne = ==_ne me dst away in
            let (k, sent, has, on, half) =
              handle_message-halves bits nodes fits o below me here data_ dst e hd ne
                (far me here) in
            let (hops, rest, le) = step k e hd has (omega arith) in
            (suc hops, walk-sent (suc n) bits nodes data_ me k dst hops sent on rest, omega arith)
      ]
