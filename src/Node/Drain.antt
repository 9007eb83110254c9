-- ===== src/Node/Drain.antt =====
-- Sequences of calls of enqueue and handle_one_message, in any order.
use distributedsim.Base.{
  ℕ, ◌+◌, ◌≡◌, inl, inr, refl, Bool, true, false, Option, List, [], ◌∷◌, ◌++◌, arith, ◌==◌,
  if◌then◌else◌, Bool-cases,
}
use distributedsim.Node.{
  Message, Mailbox, Outcome, handled, early, idle, enqueue, handle_one_message,
}
use distributedsim.Node.Queue.{
  count, count-append, IsHeap, waiting, handed, IsCounted, handle_one_message-waiting,
  handle_one_message-IsCounted,
}

-- A call of enqueue, with the result of check_enqueue and the time, or of handle_one_message.
pub data Event (A : Type 0) : Type 0 where
  arrive : Bool → ℕ → Message A → Event A
  poll : ℕ → Event A

module _ {A : Type 0} where
  abbrev pub handed_list : Outcome A → List (Message A)
  handed_list (handled msg) = msg ∷ []
  handed_list early = []
  handed_list idle = []

  -- The messages that enqueue was asked to add and did not refuse.
  abbrev pub accepted : List (Event A) → List (Message A)
  accepted [] = []
  accepted (arrive may now msg ∷ es) = if may then msg ∷ accepted es else accepted es
  accepted (poll now ∷ es) = accepted es

  pub enqueue-waiting :
      (f : Message A → Bool) (may : Bool) (now : ℕ) (msg : Message A) (b : Mailbox A)
      → waiting f (enqueue may now msg b)
        ≡ (if may then (if f msg then 1 else 0) else 0) + waiting f b
  unfolding enqueue
  enqueue-waiting f false now msg b = omega arith
  enqueue-waiting f true now msg b = elim (Bool-cases (msg.delay == 0)) [
    | inl e ↦ rw e (omega (arith, count-append f b.messages (msg ∷ [])))
    | inr e ↦ rw e (omega arith)
  ]

module _ {A : Type 0}
    (pop : List (ℕ × Message A) → Option ((ℕ × Message A) × List (ℕ × Message A))) where
  -- The messages that were handed to handle_message, in their order, and the mailbox in the end.
  unfoldable pub run : List (Event A) → Mailbox A → List (Message A) × Mailbox A
  run [] b = ([], b)
  run (arrive may now msg ∷ es) b = run es (enqueue may now msg b)
  run (poll now ∷ es) b =
      let (o, b') = handle_one_message pop now b in
      let (ms, b'') = run es b' in (handed_list o ++ ms, b'')

  enqueue-IsCounted :
      (others : ℕ) (may : Bool) (now : ℕ) (msg : Message A) (b : Mailbox A)
      → IsCounted others b
      → IsCounted others (enqueue may now msg b)
  unfolding enqueue
  enqueue-IsCounted others false now msg b h = h
  enqueue-IsCounted others true now msg b h = elim (Bool-cases (msg.delay == 0)) [
    | inl e ↦ rw e (omega (arith, count-append (λ (_ : Message A). true) b.messages (msg ∷ [])))
    | inr e ↦ rw e (omega arith)
  ]

  count-handed : (f : Message A → Bool) (o : Outcome A) → count f (handed_list o) ≡ handed f o
  count-handed f (handled msg) = omega arith
  count-handed f early = refl
  count-handed f idle = refl

  -- Nothing is lost and nothing is made up, in whatever order enqueue and handle_one_message are
  -- called: the messages that were there and those accepted are those handed over and those that
  -- wait in the end, each as often, and the counter of queued messages agrees with what waits.
  pub run-waiting :
      IsHeap pop
      → (others : ℕ) (es : List (Event A)) (b : Mailbox A) → IsCounted others b
      → ((f : Message A → Bool)
          → count f (accepted es) + waiting f b ≡ count f (run es b).0 + waiting f (run es b).1)
        × IsCounted others (run es b).1
  unfolding run
  run-waiting heap others [] b h = (λ f. refl, h)
  run-waiting heap others (arrive false now msg ∷ es) b h =
      let (kept, counted) =
        run-waiting heap others es (enqueue false now msg b)
          (enqueue-IsCounted others false now msg b h) in
      (λ f. omega (arith, kept f, enqueue-waiting f false now msg b), counted)
  run-waiting heap others (arrive true now msg ∷ es) b h =
      let (kept, counted) =
        run-waiting heap others es (enqueue true now msg b)
          (enqueue-IsCounted others true now msg b h) in
      (λ f. omega (arith, kept f, enqueue-waiting f true now msg b), counted)
  run-waiting heap others (poll now ∷ es) b h =
      let (o, b') = handle_one_message pop now b in
      let (kept, counted) =
        run-waiting heap others es b' (handle_one_message-IsCounted pop heap now others b h) in
      (
        λ f. omega (
          arith,
          kept f,
          handle_one_message-waiting pop heap now f b,
          count-handed f o,
          count-append f (handed_list o) (run es b').0,
        ),
        counted,
      )
