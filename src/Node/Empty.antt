-- ===== src/Node/Empty.antt =====
-- A node whose delayed messages are all due handles everything that waits.
use distributedsim.Base.{
  ℕ, zero, suc, ◌-◌, ◌≡◌, inl, inr, refl, true, false, Option, List, [], ◌∷◌, arith, ltb,
  if◌then◌else◌, Bool-cases, replicate,
}
use distributedsim.Node.{Message, Mailbox, handle_one_message}
use distributedsim.Node.Queue.{count, IsHeap, waiting, holding}
use distributedsim.Node.Drain.{poll, run}

module _ {A : Type 0} where
  -- No delayed message is due later.
  abbrev pub IsReady : ℕ → Mailbox A → Type 0
  IsReady now b = count (λ e. ltb now e.0) b.delayed_messages ≡ 0

module _ {A : Type 0} (pop : List (ℕ × Message A) → Option ((ℕ × Message A) × List (ℕ × Message A)))
    (heap : IsHeap pop) (now : ℕ) where
  due_now :
      (due : ℕ) (msg : Message A) (rest : List (ℕ × Message A))
      → count (λ e. ltb now e.0) ((due, msg) ∷ rest) ≡ 0
      → ltb now due ≡ false
  due_now due msg rest h = elim (Bool-cases (ltb now due)) [
    | inr past ↦ past
    | inl later ↦
        let one : ◌≡◌ {A = ℕ} (if ltb now due then 1 else 0) 1 = rw later in
        absurd (omega (arith, one))
  ]

  handle_one_message-IsReady :
      (b : Mailbox A)
      → IsReady now b
      → IsReady now (handle_one_message pop now b).1
        × (waiting (λ _. true) (handle_one_message pop now b).1 ≡ waiting (λ _. true) b - 1)
  unfolding handle_one_message
  handle_one_message-IsReady b =
      by_parts b.messages b.delayed_messages b.queued_messages b.all_messages
    where
      by_parts :
          (ms : List (Message A)) (ds : List (ℕ × Message A)) (q n : ℕ)
          → IsReady now (holding ms ds q n)
          → IsReady now (handle_one_message pop now (holding ms ds q n)).1
            × (waiting (λ _. true) (handle_one_message pop now (holding ms ds q n)).1
                ≡ waiting (λ _. true) (holding ms ds q n) - 1)
      by_parts (m ∷ ms) ds q n h = (h, omega arith)
      by_parts [] [] q n h = rw heap.0 (h, refl)
      by_parts [] (e ∷ es) q n h =
          let (due, msg, rest, popped, least, kept) = heap.1 e es in
          let still : count (λ x. ltb now x.0) ((due, msg) ∷ rest) ≡ 0 =
            omega (arith, kept (λ x. ltb now x.0)) in
          let past = due_now due msg rest still in
          rw (popped, past) (omega arith, omega (arith, kept (λ x. true)))

  -- Once every delayed message is due, as many calls as there are messages empty the mailbox.
  pub run-drains :
      (n : ℕ) (b : Mailbox A)
      → IsReady now b
      → waiting (λ _. true) b ≡ n
      → waiting (λ _. true) (run pop (replicate n (poll now)) b).1 ≡ 0
  unfolding run
  run-drains zero b h e = e
  run-drains (suc n) b h e =
      let (ready, less) = handle_one_message-IsReady b h in
      run-drains n (handle_one_message pop now b).1 ready (omega arith)
