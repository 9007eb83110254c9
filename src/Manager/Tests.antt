-- ===== src/Manager/Tests.antt =====
-- Three nodes that all can send to each other.
use distributedsim.Base.{ℕ, ◌≡◌, Bool, List, [], ◌∷◌, refl}
use distributedsim.Manager.Neighbours.{
  can_send, iter_neighbours, get_neighbours, reachable, visit, iter_neighbours-get_neighbours,
}

abbrev three : List (ℕ × ℕ)
three = (2, 0) ∷ (5, 0) ∷ (6, 0) ∷ []

neighbours_of_5 : get_neighbours can_send three 5 ≡ 2 ∷ 6 ∷ []
unfolding get_neighbours
neighbours_of_5 = refl

iter_neighbours-get_neighbours_example :
    (get_neighbours can_send three 5 ≡ reachable can_send three 5)
    × ((callback : ℕ → ℕ → Bool × ℕ) (s : ℕ)
        → iter_neighbours can_send three 5 callback s
          ≡ visit callback (get_neighbours can_send three 5) s)
iter_neighbours-get_neighbours_example = iter_neighbours-get_neighbours can_send three 5
