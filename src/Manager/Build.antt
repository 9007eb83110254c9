-- ===== src/Manager/Build.antt =====
-- include/hardware_manager.hpp: the members of a HardwareManager, its constructor, run_lock, add_node,
-- count_neighbours and gen_message, as functions of one thread. `waited` is what the other threads do
-- while pause() waits for them; the nodes' init and start_message are virtual and are parameters, which
-- are given the id of the node that they are called on and may change the whole network.
use distributedsim.Base.{
  ℕ, zero, suc, ◌+◌, Bool, true, false, Option, none, some, List, [], ◌∷◌, if◌then◌else◌, ◌==◌, ℤ,
  pos, negsuc,
}
use distributedsim.Rng.{u64}
use distributedsim.Node.{Message, new_message}
use distributedsim.Manager.{is_some, find_node, emplace}
use distributedsim.Manager.Neighbours.{iter_neighbours}

-- compute_nthreads(nt), with the result of hardware_concurrency() first.
abbrev pub at_least_one : ℤ → ℤ
at_least_one (pos zero) = pos 1
at_least_one (pos (suc n)) = pos (suc n)
at_least_one (negsuc n) = negsuc n

unfoldable pub compute_nthreads : ℕ → ℤ → ℤ
compute_nthreads concurrency (pos n) = at_least_one (pos n)
compute_nthreads concurrency (negsuc zero) = at_least_one (pos concurrency)
compute_nthreads concurrency (negsuc (suc n)) = at_least_one (negsuc (suc n))

pub record HardwareManager (N : Type 0) : Type 0 where
  pub max_id : ℕ
  pub nthreads : ℤ
  pub fail_thres : ℕ
  pub nodes : List (ℕ × N)
  pub nodes_queue : List ℕ
  pub stopping : Bool
  pub pausing : Bool
  pub running_threads : ℕ
  pub seed : ℕ

-- The constructor; `fail_thres` is `link_fail_chance * max()` as a uint64_t.
unfoldable pub new_manager : {N : Type 0} → ℕ → ℕ → ℤ → ℕ → ℕ → HardwareManager N
unfolding compute_nthreads
new_manager concurrency max_id nt seed fail_thres = record {
  max_id = max_id;
  nthreads = compute_nthreads concurrency nt;
  fail_thres = fail_thres;
  nodes = [];
  nodes_queue = [];
  stopping = false;
  pausing = false;
  running_threads = 0;
  seed = seed;
}

module _ {N : Type 0} where
  unfoldable pub pause :
      (HardwareManager N → HardwareManager N) → HardwareManager N → HardwareManager N
  pause waited m = waited (record m { pausing = true })

  abbrev pub resume : HardwareManager N → HardwareManager N
  resume m = record m { pausing = false }

  -- A block that starts with a run_lock.
  unfoldable pub run_lock :
      (HardwareManager N → HardwareManager N)
      → (HardwareManager N → HardwareManager N)
      → HardwareManager N
      → HardwareManager N
  unfolding pause
  run_lock waited work m = resume (work (pause waited m))

  -- The node at an id, changed.
  abbrev pub change_node : (N → N) → ℕ → List (ℕ × N) → List (ℕ × N)
  change_node f i [] = []
  change_node f i ((k, n) ∷ nodes) =
      if k == i then (k, f n) ∷ nodes else (k, n) ∷ change_node f i nodes

  -- The protected add_node; an exception of init is caught. The public one makes the node first.
  unfoldable pub add_node_ptr :
      (HardwareManager N → HardwareManager N)
      → (ℕ → HardwareManager N → HardwareManager N)
      → ℕ
      → N
      → HardwareManager N
      → HardwareManager N
  unfolding pause run_lock
  add_node_ptr waited init id node m =
      let placed =
        run_lock waited (λ h. record h { nodes = emplace h.nodes id node }) (pause waited m) in
      init id placed

  unfoldable pub add_new_node :
      (HardwareManager N → HardwareManager N)
      → (ℕ → HardwareManager N → HardwareManager N)
      → (ℕ → N)
      → ℕ
      → HardwareManager N
      → HardwareManager N
  unfolding add_node_ptr
  add_new_node waited init make id m = add_node_ptr waited init id (make id) m

  -- `ans` is not initialised, and starts as `garbage`.
  unfoldable pub count_neighbours : ℕ → (ℕ → ℕ → Bool) → List (ℕ × N) → ℕ → ℕ
  unfolding iter_neighbours
  count_neighbours garbage can nodes n =
      iter_neighbours can nodes n (λ neigh ans. (true, u64 (ans + 1))) garbage

  -- gen_message(sender, data): an exception of start_message is caught.
  unfoldable pub gen_message :
      {A : Type 0}
      → (ℕ → Message A → HardwareManager N → HardwareManager N)
      → ℕ
      → A
      → HardwareManager N
      → Option (HardwareManager N)
  gen_message start sender data_ m =
      if is_some (find_node m.nodes sender) then some (start sender (new_message data_) m) else none
