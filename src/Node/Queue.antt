-- ===== src/Node/Queue.antt =====
-- What one call of handle_one_message does, and what enqueue and handle_one_message keep.
use distributedsim.Base.{
  ℕ, ◌+◌, ◌≤◌, ◌<◌, ◌≡◌, ◌⊎◌, inl, inr, refl, Bool, true, Option, none, some, List, [], ◌∷◌, ◌++◌,
  arith, ltb, if◌then◌else◌, All, All-mono, length, Bool-cases, ltb→lt, ltb→le,
}
use distributedsim.Node.{Message, Mailbox, Outcome, handled, early, idle, handle_one_message}

module _ {ℓ} {B : Type ℓ} where
  abbrev pub count : (B → Bool) → List B → ℕ
  count f [] = 0
  count f (x ∷ xs) = (if f x then 1 else 0) + count f xs

  pub count-append : (f : B → Bool) (xs ys : List B) → count f (xs ++ ys) ≡ count f xs + count f ys
  count-append f [] ys = omega arith
  count-append f (x ∷ xs) ys = omega (arith, count-append f xs ys)

  pub count-length : (xs : List B) → count (λ _. true) xs ≡ length xs
  count-length [] = refl
  count-length (x ∷ xs) = omega (arith, count-length xs)

module _ {A : Type 0} where
  -- The documented behaviour of top and pop: nothing of an empty queue, else an entry with the least
  -- time, and the other entries stay.
  abbrev pub IsHeap :
      (List (ℕ × Message A) → Option ((ℕ × Message A) × List (ℕ × Message A))) → Type 0
  IsHeap pop =
      (pop [] ≡ none)
      × ((e : ℕ × Message A) (es : List (ℕ × Message A))
          → (due : ℕ) × (msg : Message A) × (rest : List (ℕ × Message A)) × (pop (e ∷ es)
              ≡ some ((due, msg), rest))
            × All (λ (x : ℕ × Message A). due ≤ x.0) (e ∷ es)
            × ((f : ℕ × Message A → Bool) → count f (e ∷ es) ≡ count f ((due, msg) ∷ rest)))

  -- What is in the mailbox and satisfies a test.
  abbrev pub waiting : (Message A → Bool) → Mailbox A → ℕ
  waiting f b = count f b.messages + count (λ e. f e.1) b.delayed_messages

  abbrev pub IsCounted : ℕ → Mailbox A → Type 0
  IsCounted others b = b.queued_messages ≡ others + waiting (λ _. true) b

  abbrev pub handed : (Message A → Bool) → Outcome A → ℕ
  handed f (handled msg) = if f msg then 1 else 0
  handed f early = 0
  handed f idle = 0

  -- The plain messages `ms` and the delayed ones `ds`, with the counters.
  abbrev pub holding : List (Message A) → List (ℕ × Message A) → ℕ → ℕ → Mailbox A
  holding ms ds q n = record {
    messages = ms;
    delayed_messages = ds;
    queued_messages = q;
    all_messages = n;
  }

  -- Every case of one call. A plain message goes first, in the order of arrival; a delayed one, which is
  -- in the heap, only if there is no plain one, it is due, and no other is due before it.
  abbrev pub Obeys : ℕ → Mailbox A → Outcome A → Type 0
  Obeys now b (handled msg) =
      ((rest : List (Message A)) × (b.messages ≡ msg ∷ rest))
      ⊎ ((due : ℕ) × (b.messages ≡ [])
          × (due ≤ now)
          × ((f : ℕ × Message A → Bool) → f (due, msg) ≡ true → 0 < count f b.delayed_messages)
          × All (λ (x : ℕ × Message A). due ≤ x.0) b.delayed_messages)
  Obeys now b early = (b.messages ≡ []) × All (λ (x : ℕ × Message A). now < x.0) b.delayed_messages
  Obeys now b idle = (b.messages ≡ []) × (b.delayed_messages ≡ [])

module _ {A : Type 0} (pop : List (ℕ × Message A) → Option ((ℕ × Message A) × List (ℕ × Message A)))
    (heap : IsHeap pop) (now : ℕ) where
  -- A call takes out what it hands to handle_message, and nothing else: whatever test is put on the
  -- messages, as many pass it before the call as are handed over or wait after it.
  pub handle_one_message-waiting :
      (f : Message A → Bool) (b : Mailbox A)
      → waiting f b
        ≡ handed f (handle_one_message pop now b).0 + waiting f (handle_one_message pop now b).1
  unfolding handle_one_message
  handle_one_message-waiting f b =
      by_parts b.messages b.delayed_messages b.queued_messages b.all_messages
    where
      by_parts :
          (ms : List (Message A)) (ds : List (ℕ × Message A)) (q n : ℕ)
          → waiting f (holding ms ds q n)
            ≡ handed f (handle_one_message pop now (holding ms ds q n)).0
              + waiting f (handle_one_message pop now (holding ms ds q n)).1
      by_parts (m ∷ ms) ds q n = omega arith
      by_parts [] [] q n = rw heap.0
      by_parts [] (e ∷ es) q n =
          let (due, msg, rest, popped, least, kept) = heap.1 e es in
          elim (Bool-cases (ltb now due)) [
            | inl le ↦ rw (popped, le) (omega arith)
            | inr ge ↦ rw (popped, ge) (omega (arith, kept (λ x. f x.1)))
          ]

  -- A call hands over the plain message that arrived first. Where there is none, it hands over a delayed
  -- message that is due and before which no other is due. It returns -1 only where no plain message waits
  -- and no delayed one is due, and 0 only where no message waits at all.
  pub handle_one_message-Obeys : (b : Mailbox A) → Obeys now b (handle_one_message pop now b).0
  unfolding handle_one_message
  handle_one_message-Obeys b =
      by_parts b.messages b.delayed_messages b.queued_messages b.all_messages
    where
      by_parts :
          (ms : List (Message A)) (ds : List (ℕ × Message A)) (q n : ℕ)
          → Obeys now (holding ms ds q n) (handle_one_message pop now (holding ms ds q n)).0
      by_parts (m ∷ ms) ds q n = inl (ms, refl)
      by_parts [] [] q n = rw heap.0 (refl, refl)
      by_parts [] (e ∷ es) q n =
          let (due, msg, rest, popped, least, kept) = heap.1 e es in
          elim (Bool-cases (ltb now due)) [
            | inl le ↦
                rw (popped, le)
                  (
                    refl,
                    All-mono (λ (x : ℕ × Message A). due ≤ x.0) (e ∷ es)
                        (λ x h. omega (arith, ltb→lt now due le)) least,
                  )
            | inr ge ↦
                rw (popped, ge)
                  (inr (
                    due,
                    refl,
                    ltb→le now due ge,
                    (λ f here. let some_entry = kept f in rw some_entry (rw here (omega arith))),
                    least,
                  ))
          ]

  -- The counter of queued messages, less what other nodes have, keeps counting what waits here.
  pub handle_one_message-IsCounted :
      (others : ℕ) (b : Mailbox A)
      → IsCounted others b
      → IsCounted others (handle_one_message pop now b).1
  unfolding handle_one_message
  handle_one_message-IsCounted others b =
      by_parts b.messages b.delayed_messages b.queued_messages b.all_messages
    where
      by_parts :
          (ms : List (Message A)) (ds : List (ℕ × Message A)) (q n : ℕ)
          → IsCounted others (holding ms ds q n)
          → IsCounted others (handle_one_message pop now (holding ms ds q n)).1
      by_parts (m ∷ ms) ds q n h = omega arith
      by_parts [] [] q n h = rw heap.0 h
      by_parts [] (e ∷ es) q n h =
          let (due, msg, rest, popped, least, kept) = heap.1 e es in
          elim (Bool-cases (ltb now due)) [
            | inl le ↦ rw (popped, le) h
            | inr ge ↦ rw (popped, ge) (omega (arith, kept (λ x. true)))
          ]
