-- ===== src/Workers/Sending.antt =====
-- include/hardware_manager.hpp: send_message as a function, with its exceptions. The node's enqueue is
-- a parameter, and so is the random number; Workers has the same call as steps of threads.
use mathlib.Core.Option.{none-ne-some}
use distributedsim.Base.{
  ==_iff, some_injective, ◌∙◌, ℕ, ◌≡◌, ◌≢◌, refl, sym, ap, inl, inr, Bool, true, false, not, some,
  List, [], ◌∷◌, ◌++◌, ltb, ◌==◌, if◌then◌else◌, Bool-cases,
}
use distributedsim.Node.{Message}
use distributedsim.Manager.{is_some, find_node}
use distributedsim.Manager.Build.{change_node}
use distributedsim.Workers.{raise_hops}

-- The map and the queue after a message, or why it was not sent.
pub data Sending (N : Type 0) : Type 0 where
  lost : Sending N
  invalid_sender : Sending N
  invalid_receiver : Sending N
  refused : Sending N
  sent : List (ℕ × N) → List ℕ → Sending N

module _ {A N : Type 0} where
  unfoldable pub send_message :
      (Message A → N → N)
      → (ℕ → ℕ → Bool)
      → ℕ
      → ℕ
      → List (ℕ × N)
      → List ℕ
      → ℕ
      → ℕ
      → Message A
      → Sending N
  send_message enqueue can_send fail_thres drawn nodes nodes_queue sender receiver msg =
      if ltb drawn fail_thres
      then lost
      else if not (is_some (find_node nodes sender))
      then invalid_sender
      else if not (is_some (find_node nodes receiver))
      then invalid_receiver
      else if not (can_send sender receiver)
      then refused
      else sent (change_node (enqueue (raise_hops msg)) receiver nodes)
          (nodes_queue ++ receiver ∷ [])

module _ {N : Type 0} (f : N → N) (i : ℕ) where
  find-change_node :
      (n : N) (nodes : List (ℕ × N))
      → find_node nodes i ≡ some n
      → find_node (change_node f i nodes) i ≡ some (f n)
  unfolding find_node
  find-change_node n [] e = absurd (none-ne-some n e)
  find-change_node n ((k, m) ∷ nodes) e = elim (Bool-cases (k == i)) [
    | inl h ↦ rw h (rw h (ap some (ap f (some_injective m n (rw h at e)))))
    | inr h ↦ rw h (rw h (find-change_node n nodes (rw h at e)))
  ]

  find-change_node_other :
      (j : ℕ) (nodes : List (ℕ × N))
      → i ≢ j
      → find_node (change_node f i nodes) j ≡ find_node nodes j
  unfolding find_node
  find-change_node_other j [] n = refl
  find-change_node_other j ((k, m) ∷ nodes) n = elim (Bool-cases (k == i)) [
    | inl h ↦
        let apart : (k == j) ≡ false = elim (Bool-cases (k == j)) [
          | inl e ↦ absurd (n (sym ((==_iff k i).0 h) ∙ (==_iff k j).0 e))
          | inr e ↦ e
        ] in
        rw h (rw apart refl)
    | inr h ↦ rw h (ap (λ o. if k == j then some m else o) (find-change_node_other j nodes n))
  ]

module _ {A N : Type 0} (enqueue : Message A → N → N) (can_send : ℕ → ℕ → Bool) where
  -- A message that is not lost, between nodes that are there and of which the first can send to the
  -- second, is enqueued at the receiver with one hop more, the receiver is put in the queue of nodes,
  -- and every other node is as before.
  pub send_message-change_node :
      (fail_thres drawn : ℕ) (nodes : List (ℕ × N)) (nodes_queue : List ℕ) (sender receiver : ℕ)
      (msg : Message A) (m n : N)
      → ltb drawn fail_thres ≡ false
      → find_node nodes sender ≡ some m
      → find_node nodes receiver ≡ some n
      → can_send sender receiver ≡ true
      → (nodes' : List (ℕ × N)) × (send_message enqueue can_send fail_thres drawn nodes nodes_queue
            sender receiver msg
          ≡ sent nodes' (nodes_queue ++ receiver ∷ []))
        × (find_node nodes' receiver ≡ some (enqueue (raise_hops msg) n))
        × ((j : ℕ) → receiver ≢ j → find_node nodes' j ≡ find_node nodes j)
  unfolding send_message
  send_message-change_node fail_thres drawn nodes nodes_queue sender receiver msg m n kept hs hr
        can =
      let f = enqueue (raise_hops msg) in
      (
        change_node f receiver nodes,
        rw (kept, hs, hr, can) refl,
        find-change_node f receiver n nodes hr,
        λ j apart. find-change_node_other f receiver j nodes apart,
      )
