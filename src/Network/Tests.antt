-- ===== src/Network/Tests.antt =====
-- Graphs whose sets of neighbours are lists.
use distributedsim.Base.{
  ne→==, ℕ, ◌≡◌, refl, sym, Bool, true, false, ◌||◌, some, List, [], ◌∷◌, ◌==◌, ◌>>=◌, ==_iff,
  arith,
}
use distributedsim.Rng.{Xoroshiro}
use distributedsim.Cuckoo.{insert}
use distributedsim.Manager.{get}
use distributedsim.Network.{
  KeySet, Network, cuckoo_set, add_node, add_edge, can_send, get_random_node,
}
use distributedsim.Network.Edges.{SetLaws, Each}
use distributedsim.Network.Ids.{IsNumbered, get_random_node-get}

abbrev member : ℕ → List ℕ → Bool
member k [] = false
member k (x ∷ xs) = (x == k) || member k xs

abbrev lists : KeySet (List ℕ)
lists = record {
  empty = [];
  count = λ k xs. some (member k xs);
  insert = λ k xs. some (k ∷ xs);
  elements = some;
}

abbrev lists_law : SetLaws lists
lists_law = record {
  IsWell = λ xs. Unit;
  IsKey = λ k. Unit;
  empty_IsWell = tt;
  count_empty = λ k h. refl;
  insert_law = λ k xs h w. (
    k ∷ xs,
    refl,
    tt,
    rw ((==_iff k k).1 refl) refl,
    λ y known n. rw (ne→== k y (λ e. n (sym e))) refl,
  );
}

abbrev net : Network ℕ (List ℕ)
net = record { nodes = (0, 10) ∷ (1, 11) ∷ (2, 12) ∷ []; graph = (1 ∷ []) ∷ [] ∷ [] ∷ [] }

all_well : Each lists_law.IsWell net.graph
unfolding Each
all_well i s e = tt

net-IsNumbered : IsNumbered lists net
unfolding IsNumbered
net-IsNumbered = refl

abbrev generator : Xoroshiro
generator = record { s0 = 5; s1 = 7 }

get_random_node-get_example :
    (i : ℕ) × (g' : Xoroshiro) × (x : ℕ) × (get_random_node lists generator net ≡ some (i, g'))
    × (get net.nodes i ≡ some x)
get_random_node-get_example = get_random_node-get lists generator net net-IsNumbered (omega arith)

-- An edge of a graph whose sets are those of include/cuckoo.hpp.
cuckoo_edge :
    (do
      net' ← add_edge (cuckoo_set 9) false 0 1 (
          add_node
            (cuckoo_set 9)
            (λ id. id)
            (add_node (cuckoo_set 9) (λ id. id) (record { nodes = []; graph = [] })))
      can_send (cuckoo_set 9) net' 1 0)
    ≡ some true
unfolding add_edge add_node can_send insert
cuckoo_edge = refl
