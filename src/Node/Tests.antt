-- ===== src/Node/Tests.antt =====
-- A mailbox with two plain messages and two delayed ones, and a queue that is searched for the entry
-- that is due first.
use distributedsim.Base.{ℕ, ◌+◌, ◌≡◌, refl, Bool, true, false, List, [], ◌∷◌, ◌==◌, replicate}
use distributedsim.Node.{Message, new_message, set_delay, Mailbox, handle_one_message}
use distributedsim.Node.Heap.{pop_least, pop_least-IsHeap}
use distributedsim.Node.Queue.{
  count, waiting, IsCounted, Obeys, handed, handle_one_message-Obeys, handle_one_message-waiting,
}
use distributedsim.Node.Drain.{Event, arrive, poll, run, accepted, run-waiting}
use distributedsim.Node.Empty.{run-drains}

abbrev box : Mailbox ℕ
box = record {
  messages = new_message 1 ∷ new_message 2 ∷ [];
  delayed_messages = (20, set_delay (new_message 3) 9) ∷ (15, set_delay (new_message 4) 5) ∷ [];
  queued_messages = 7;
  all_messages = 9;
}

abbrev events : List (Event ℕ)
events =
    poll 1
    ∷ arrive true 1 (new_message 5)
    ∷ arrive false 1 (new_message 6)
    ∷ poll 2
    ∷ poll 3
    ∷ poll 16
    ∷ []

handle_one_message-waiting_example :
    waiting (λ m. m.data_ == 1) box
    ≡ handed (λ m. m.data_ == 1) (handle_one_message pop_least 17 box).0
      + waiting (λ m. m.data_ == 1) (handle_one_message pop_least 17 box).1
handle_one_message-waiting_example =
    handle_one_message-waiting pop_least pop_least-IsHeap 17 (λ m. m.data_ == 1) box

handle_one_message-Obeys_example : Obeys 17 box (handle_one_message pop_least 17 box).0
handle_one_message-Obeys_example = handle_one_message-Obeys pop_least pop_least-IsHeap 17 box

run-waiting_example :
    ((f : Message ℕ → Bool)
      → count f (accepted events) + waiting f box
        ≡ count f (run pop_least events box).0 + waiting f (run pop_least events box).1)
    × IsCounted 3 (run pop_least events box).1
run-waiting_example = run-waiting pop_least pop_least-IsHeap 3 events box refl

run-drains_example : waiting (λ _. true) (run pop_least (replicate 4 (poll 21)) box).1 ≡ 0
run-drains_example = run-drains pop_least pop_least-IsHeap 21 4 box refl refl
