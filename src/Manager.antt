-- ===== src/Manager.antt =====
-- include/hardware_manager.hpp: the ids of a HardwareManager. `nodes` is the std::map, a list of
-- entries with rising ids. `none` is a thrown std::runtime_error or, where said, missing fuel.
pub mod Ids
pub mod Neighbours
pub mod Build
mod Tests
use distributedsim.Base.{
  ℕ, zero, suc, ◌+◌, ◌*◌, ◌/◌, ◌%◌, Bool, true, false, not, Option, none, some, List, [], ◌∷◌, leb,
  ltb, ◌==◌, if◌then◌else◌, ◌>>=◌, length,
}
use distributedsim.Rng.{Xoroshiro, next}

abbrev pub is_some {ℓ} : {A : Type ℓ} → Option A → Bool
is_some none = false
is_some (some a) = true

-- random_id(); `% 0` is undefined.
unfoldable pub random_id : Xoroshiro → ℕ → Option (ℕ × Xoroshiro)
random_id g max_id = let (r, g') = next g in if max_id == 0 then none else some (r % max_id, g')

module _ {ℓ} {N : Type ℓ} where
  -- std::map::lower_bound, as the id that it finds.
  unfoldable pub lower_bound_id : List (ℕ × N) → ℕ → Option ℕ
  lower_bound_id [] i = none
  lower_bound_id ((k, n) ∷ nodes) i = if leb i k then some k else lower_bound_id nodes i

  unfoldable pub has_bigger_id : List (ℕ × N) → ℕ → Bool
  has_bigger_id nodes i = is_some (lower_bound_id nodes i)

  unfoldable pub next_id : List (ℕ × N) → ℕ → Option ℕ
  next_id nodes i = if has_bigger_id nodes i then lower_bound_id nodes i else none

  -- std::map::find
  unfoldable pub find_node : List (ℕ × N) → ℕ → Option N
  find_node [] i = none
  find_node ((k, n) ∷ nodes) i = if k == i then some n else find_node nodes i

  -- get(node)
  unfoldable pub get : List (ℕ × N) → ℕ → Option N
  get nodes i = if is_some (find_node nodes i) then find_node nodes i else none

  -- std::map::emplace: an entry that is there is kept.
  unfoldable pub emplace : List (ℕ × N) → ℕ → N → List (ℕ × N)
  emplace [] i x = (i, x) ∷ []
  emplace ((k, n) ∷ nodes) i x =
      if ltb i k
      then (i, x) ∷ (k, n) ∷ nodes
      else if i == k
      then (k, n) ∷ nodes
      else (k, n) ∷ emplace nodes i x

  -- fail(node): std::map::erase, after the test that the node is there.
  unfoldable pub erase : List (ℕ × N) → ℕ → List (ℕ × N)
  erase [] i = []
  erase ((k, n) ∷ nodes) i = if k == i then nodes else (k, n) ∷ erase nodes i

  unfoldable pub fail : List (ℕ × N) → ℕ → Option (List (ℕ × N))
  fail nodes i = if is_some (find_node nodes i) then some (erase nodes i) else none

  -- The loop of gen_id; `none` also where the fuel, the number of draws, runs out.
  unfoldable pub fresh_id : ℕ → List (ℕ × N) → Xoroshiro → ℕ → Option (ℕ × Xoroshiro)
  unfolding random_id
  fresh_id zero nodes g max_id = none
  fresh_id (suc fuel) nodes g max_id = do
    (id, g') ← random_id g max_id
    let again = fresh_id fuel nodes g' max_id
    if is_some (find_node nodes id) then again else some (id, g')

  unfoldable pub gen_id : ℕ → List (ℕ × N) → Xoroshiro → ℕ → Option (ℕ × Xoroshiro)
  unfolding fresh_id
  gen_id fuel nodes g max_id =
      if leb max_id (4 * length nodes / 3) then none else fresh_id fuel nodes g max_id

  -- The loop of get_random_node.
  unfoldable pub random_below_last : ℕ → List (ℕ × N) → Xoroshiro → ℕ → Option (ℕ × Xoroshiro)
  unfolding random_id
  random_below_last zero nodes g max_id = none
  random_below_last (suc fuel) nodes g max_id = do
    (id, g') ← random_id g max_id
    let again = random_below_last fuel nodes g' max_id
    if has_bigger_id nodes id then some (id, g') else again

  unfoldable pub get_random_node : ℕ → List (ℕ × N) → Xoroshiro → ℕ → Option (ℕ × Xoroshiro)
  unfolding random_below_last
  get_random_node fuel nodes g max_id = if length nodes == 0 then none else do
    (id, g') ← random_below_last fuel nodes g max_id
    found ← next_id nodes id
    some (found, g')
