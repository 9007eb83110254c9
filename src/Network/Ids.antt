-- ===== src/Network/Ids.antt =====
-- include/graph_hwm.hpp: the ids of the nodes, which are the indices of the graph.
use native.Mathlib.Nat.{mod-lt}
use distributedsim.Base.{
  ne→==, ℕ, zero, suc, ◌+◌, ◌%◌, ◌≤◌, ◌<◌, ◌≡◌, ◌≢◌, refl, ap, inl, inr, false, some, List, [], ◌∷◌,
  ◌++◌, ltb, ◌==◌, ==_ne, Bool-cases, length, length-append, arith,
}
use distributedsim.Rng.{Xoroshiro, next}
use distributedsim.Manager.{find_node, get, emplace}
use distributedsim.Network.{KeySet, Network, add_node, get_random_node}

-- `from`, `from + 1` and so on, `n` numbers.
abbrev pub upwards : ℕ → ℕ → List ℕ
upwards from zero = []
upwards from (suc n) = from ∷ upwards (from + 1) n

head_or : ℕ → List ℕ → ℕ
head_or d [] = d
head_or d (x ∷ xs) = x

tail : List ℕ → List ℕ
tail [] = []
tail (x ∷ xs) = xs

not_below : (a b : ℕ) → b < a → ltb a b ≡ false
not_below a b h = ground arith

first_id : (k from n : ℕ) (ks : List ℕ) → k ∷ ks ≡ upwards from (suc n) → k ≡ from
unfolding head_or
first_id k from n ks e = ap (head_or 0) e

other_ids : (k from n : ℕ) (ks : List ℕ) → k ∷ ks ≡ upwards from (suc n) → ks ≡ upwards (from + 1) n
unfolding tail
other_ids k from n ks e = ap tail e

module _ {N : Type 0} where
  abbrev pub ids : List (ℕ × N) → List ℕ
  ids [] = []
  ids ((k, x) ∷ nodes) = k ∷ ids nodes

  ids-emplace :
      (nodes : List (ℕ × N)) (from n i : ℕ) (x : N)
      → ids nodes ≡ upwards from n
      → i ≡ from + n
      → ids (emplace nodes i x) ≡ upwards from (suc n)
  unfolding emplace
  ids-emplace [] from zero i x e h = ap (λ k. k ∷ []) (omega arith)
  ids-emplace [] from (suc n) i x e h = absurd (omega (arith, ap length e))
  ids-emplace ((k, y) ∷ nodes) from zero i x e h = absurd (omega (arith, ap length e))
  ids-emplace ((k, y) ∷ nodes) from (suc n) i x e h =
      let k_is = first_id k from n (ids nodes) e in
      rw (not_below i k (omega arith), ne→== i k (omega arith), k_is)
        (ap (◌∷◌ from)
          (ids-emplace nodes (from + 1) n i x (other_ids k from n (ids nodes) e) (omega arith)))

  find-node :
      (nodes : List (ℕ × N)) (from n j : ℕ)
      → ids nodes ≡ upwards from n
      → from ≤ j
      → j < from + n
      → (x : N) × (find_node nodes j ≡ some x)
  unfolding find_node
  find-node [] from zero j e l h = absurd (omega arith)
  find-node [] from (suc n) j e l h = absurd (omega (arith, ap length e))
  find-node ((k, y) ∷ nodes) from zero j e l h = absurd (omega arith)
  find-node ((k, y) ∷ nodes) from (suc n) j e l h = elim (Bool-cases (k == j)) [
    | inl here ↦ (y, rw here refl)
    | inr other ↦
        let k_is = first_id k from n (ids nodes) e in
        let apart : k ≢ j = ==_ne k j other in
        let (x, found) =
          find-node nodes (from + 1) n j (other_ids k from n (ids nodes) e) (omega arith)
            (omega arith) in
        (x, rw other found)
  ]

module _ {N S : Type 0} (sets : KeySet S) where
  -- The ids of the nodes are the indices of the graph.
  unfoldable pub IsNumbered : Network N S → Type 0
  IsNumbered net = ids net.nodes ≡ upwards 0 (length net.graph)

  -- add_node keeps the ids of the nodes equal to the indices of the graph: the new node has the number
  -- of the nodes before it as its id.
  pub add_node-IsNumbered :
      (make : ℕ → N) (net : Network N S) → IsNumbered net → IsNumbered (add_node sets make net)
  unfolding add_node IsNumbered
  add_node-IsNumbered make net h =
      let n = length net.graph in
      let longer : length (net.graph ++ sets.empty ∷ []) ≡ suc n =
        omega (arith, length-append net.graph (sets.empty ∷ [])) in
      rw longer (ids-emplace net.nodes 0 n n (make n) h (omega arith))

  -- Where the ids are the indices of the graph and there is a node, get_random_node returns the id of a
  -- node.
  pub get_random_node-get :
      (g : Xoroshiro) (net : Network N S)
      → IsNumbered net
      → 0 < length net.graph
      → (i : ℕ) × (g' : Xoroshiro) × (x : N) × (get_random_node sets g net ≡ some (i, g'))
        × (get net.nodes i ≡ some x)
  unfolding get_random_node get IsNumbered
  get_random_node-get g net h some_node =
      let n = length net.graph in
      let (r, g') = next g in
      let (x, found) =
        find-node net.nodes 0 n (r % n) h (omega arith) (omega (arith, mod-lt r some_node)) in
      (r % n, g', x, rw (ne→== n 0 (omega arith)) refl, rw found refl)
