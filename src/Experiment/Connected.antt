-- ===== src/Experiment/Connected.antt =====
-- The network that examples/tinycoin/main.cpp makes of a random graph: a block can go from every node to
-- every other.
use distributedsim.Base.{
  ℕ, zero, suc, ◌^◌, ◌≤◌, ◌<◌, ◌≡◌, ◌⊎◌, refl, ap, ◌∙◌, inl, inr, Bool, true, false, ◌||◌, some,
  List, Bool-cases, chars, length, arith,
}
use distributedsim.Rng.{Xoroshiro}
use distributedsim.Rng.State.{IsWide}
use distributedsim.Cuckoo.{CuckooSet}
use distributedsim.Config.{same}
use distributedsim.Graph.Number.{IsRoot}
use distributedsim.Graph.Joined.{joined, joined_symm, Below, Descends, Climbs, Descends-Below}
use distributedsim.Graph.Erdos.{gen_conn_erdos-Climbs}
use distributedsim.Graph.Grown.{gen_barabasi_albert-Climbs}
use distributedsim.Network.{KeySet, Network, can_send, cuckoo_set}
use distributedsim.Network.Hashed.{hash_laws}
use distributedsim.Experiment.Setup.{Role}
use distributedsim.Experiment.Program.{Library, make_edges}
use distributedsim.Experiment.Drawn.{IsDrawn, built, built-IsDrawn}

-- A way from one node to another, each able to send to the next.
pub data Reaches {N S : Type 0} (sets : KeySet S) (net : Network N S) : ℕ → ℕ → Type 0 where
  arrived : {a : ℕ} → Reaches sets net a a
  hop :
      {a b c : ℕ} → can_send sets net a b ≡ some true → Reaches sets net b c → Reaches sets net a c

Reaches-trans :
    {N S : Type 0} {sets : KeySet S} {net : Network N S} {a b c : ℕ}
    → Reaches sets net a b
    → Reaches sets net b c
    → Reaches sets net a c
Reaches-trans arrived r = r
Reaches-trans (hop e q) r = hop e (Reaches-trans q r)

module _ (fuel : ℕ) (enough : 31 ≤ fuel) {N : Type 0} (n : ℕ) (small : n ≤ 2 ^ 30)
    (es : List (ℕ × ℕ)) (climbs : Climbs n es) (net : Network N CuckooSet)
    (drawn : IsDrawn
      (cuckoo_set fuel)
      (hash_laws fuel enough)
      n
      (λ a b. joined a b es || false)
      net.graph) where
  sends :
      (a b : ℕ)
      → a < n
      → b < n
      → joined a b es ≡ true
      → can_send (cuckoo_set fuel) net a b ≡ some true
  unfolding can_send
  sends a b ha hb there =
      let e = drawn.drawn a b ha (omega arith) in
      let both : (joined a b es || false) ≡ true = rw there refl in e ∙ ap some both

  -- Every node reaches the first, and the first reaches it.
  to_first :
      (k i : ℕ)
      → i < k
      → i < n
      → Reaches (cuckoo_set fuel) net i 0 × Reaches (cuckoo_set fuel) net 0 i
  to_first zero i below hi = absurd (omega arith)
  to_first (suc k) zero below hi = (arrived, arrived)
  to_first (suc k) (suc i) below hi =
      let (j, less, there) = climbs (suc i) (omega arith) hi in
      let (down, up) = to_first k j (omega arith) (omega arith) in
      (
        hop (sends (suc i) j hi (omega arith) there) down,
        Reaches-trans up
            (hop (sends j (suc i) (omega arith) hi (joined_symm j (suc i) es ∙ there)) arrived),
      )

  all_reach : (a b : ℕ) → a < n → b < n → Reaches (cuckoo_set fuel) net a b
  all_reach a b ha hb =
      Reaches-trans (to_first (suc a) a (omega arith) ha).0 (to_first (suc b) b (omega arith) hb).1

-- The loops over the nodes and the edges make a network in which a node can send to another exactly
-- along the edges, in both directions. It has at most 2 ^ 30 nodes, and the hash sets of neighbours
-- have fuel for 31 nested rehashes.
pub built-can_send :
    {D N : Type 0} (lib : Library D) (fuel : ℕ) (make : Role → ℕ → Xoroshiro → N × Xoroshiro)
    (roles : List Role) (g : Xoroshiro) (es : List (ℕ × ℕ)) (a b : ℕ)
    → 31 ≤ fuel
    → length roles ≤ 2 ^ 30
    → Below (length roles) es
    → a < length roles
    → b < length roles
    → (net : Network N CuckooSet) × (built (cuckoo_set fuel) lib make roles g es ≡ some net)
      × (can_send (cuckoo_set fuel) net a b ≡ some (joined a b es))
unfolding can_send
built-can_send lib fuel make roles g es a b enough small below ha hb =
    let (net, e, drawn) =
      built-IsDrawn (cuckoo_set fuel) (hash_laws fuel enough) lib make roles g es
        (λ v h. omega arith) below in
    (net, e, drawn.drawn a b ha (omega arith) ∙ ap some (or_false (joined a b es)))
  where
    or_false : (x : Bool) → (x || false) ≡ x
    or_false true = refl
    or_false false = refl

module _ {D : Type 0} (lib : Library D) (root : IsRoot lib.root) where
  make_edges-Climbs :
      {g : Xoroshiro} (kind : List ℕ) (n k : ℕ)
      → (same kind (chars "erdos") ≡ true) ⊎ (same kind (chars "barabasi") ≡ true)
      → IsWide g
      → 2 ≤ n
      → n ≤ 2 ^ 25
      → 0 < k
      → k < 2 ^ 31
      → (es : List (ℕ × ℕ)) × (g' : Xoroshiro) × (make_edges lib kind n k g ≡ some (es, g'))
        × IsWide g'
        × Descends n es
        × Climbs n es
  unfolding make_edges
  make_edges-Climbs {g} kind n k known wide two small pos few =
      elim (Bool-cases (same kind (chars "erdos"))) [
        | inl e ↦
            rw e (gen_conn_erdos-Climbs {g = g} lib.root n k root wide (omega arith) small few)
        | inr f ↦ elim known [
          | inl e ↦ cc
          | inr e ↦
              rw (f, e) (gen_barabasi_albert-Climbs {g = g} n k wide two (omega arith) pos few)
        ]
      ]

  -- The network that main makes of a random graph of either kind is made, and every node reaches every
  -- other over nodes that can send to the next one. It has from 2 to 2 ^ 25 nodes, its number of edges
  -- or factor is from 1 to 2 ^ 31 - 1, the hash sets of
  -- neighbours have fuel for 31 nested rehashes, and the root that the generator takes of a number
  -- below 2 ^ 50 is rounded rightly.
  pub network_connected :
      {g : Xoroshiro} {N : Type 0} (fuel : ℕ) (make : Role → ℕ → Xoroshiro → N × Xoroshiro)
      (kind : List ℕ) (roles : List Role) (h : Xoroshiro) (k a b : ℕ)
      → 31 ≤ fuel
      → (same kind (chars "erdos") ≡ true) ⊎ (same kind (chars "barabasi") ≡ true)
      → IsWide g
      → 2 ≤ length roles
      → length roles ≤ 2 ^ 25
      → 0 < k
      → k < 2 ^ 31
      → a < length roles
      → b < length roles
      → (es : List (ℕ × ℕ)) × (g' : Xoroshiro) × (net : Network N CuckooSet) × (make_edges lib kind
            (length roles)
            k
            g
          ≡ some (es, g'))
        × (built (cuckoo_set fuel) lib make roles h es ≡ some net)
        × Reaches (cuckoo_set fuel) net a b
  network_connected {g} fuel make kind roles h k a b enough known wide two small pos few ha hb =
      let (es, g', e, wide', down, climbs) =
        make_edges-Climbs {g = g} kind (length roles) k known wide two small pos few in
      let laws = hash_laws fuel enough in
      let (net, made, drawn) =
        built-IsDrawn (cuckoo_set fuel) laws lib make roles h es (λ v below. omega arith)
          (Descends-Below (length roles) es down) in
      (
        es,
        g',
        net,
        e,
        made,
        all_reach fuel enough (length roles) (omega arith) es climbs net drawn a b ha hb,
      )
