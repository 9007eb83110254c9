-- ===== src/Workers/Tests.antt =====
-- One worker and the node 3: the main thread sends a message to it, and later stops the worker.
use distributedsim.Base.{ℕ, ◌+◌, ◌<◌, ◌≡◌, refl, ap, Bool, true, [], ◌∷◌, arith, ◌==◌}
use distributedsim.Node.{new_message}
use distributedsim.Node.Heap.{pop_least, pop_least-IsHeap}
use distributedsim.Workers
use distributedsim.Workers.{Pc, Main, Move, Call, System, Step, Reach, start_run, max_messages}
use distributedsim.Workers.Sums.{sum, tokens}
use distributedsim.Workers.Tokens.{held, held_main, mail, IsKept, run-IsKept}
use distributedsim.Workers.Running.{counted, has_ended, run-paused, run-stopped, run_not_paused}

abbrev only_3 : ℕ → Bool
only_3 i = i == 3

abbrev begin : System ℕ
begin = start_run only_3

-- The message has been added to the mailbox, and its entry not yet to the queue.
abbrev half_sent : System ℕ
half_sent = record begin {
  shared = Workers.deliver true 5 3 (new_message 8) begin.shared;
  main = Main.posting 3 [];
}

half_sent_reached : Reach pop_least 1 begin half_sent
half_sent_reached =
    Reach.later
      (Reach.later Reach.here (Step.main_works (Call.gen_message {out = (3, new_message 8) ∷ []})))
      (Step.main_works (Call.main_send true 5 (new_message 8) refl))

run-IsKept_example :
    IsKept 1 half_sent
    × ((r : ℕ)
        → 0 < mail r half_sent.shared
        → sum 1 (λ i. held r (half_sent.workers i)) + held_main r half_sent.main ≡ 0
        → 0 < tokens r half_sent.shared.nodes_queue)
run-IsKept_example = run-IsKept pop_least pop_least-IsHeap 1 only_3 half_sent_reached

spinning_reached :
    Reach pop_least 1 begin
      (record begin { shared = record begin.shared { pausing = true }; main = Main.spinning })
spinning_reached = Reach.later Reach.here (Step.main_works Call.call)

run-paused_example : counted {A = ℕ} Pc.starting ≡ 0
run-paused_example = run-paused pop_least 1 only_3 spinning_reached refl 0 (omega arith)

-- The main thread stops, and the worker starts, finds nothing, and ends.
stopped_reached : (y : System ℕ) × Reach pop_least 1 begin y × (y.workers 0 ≡ Pc.ended)
stopped_reached = (
  _,
  Reach.later
      (Reach.later
        (Reach.later (Reach.later Reach.here (Step.main_works Call.halt))
          (Step.work 0 (omega arith) Move.start))
        (Step.work 0 (omega arith) Move.miss))
      (Step.work 0 (omega arith) (Move.quit refl)),
  refl,
)

run-stopped_example : 0 < stopped_reached.0.shared.running_threads
run-stopped_example =
    run-stopped pop_least 1 only_3 0 stopped_reached.1 (omega arith)
      (ap has_ended stopped_reached.2) Reach.here

run_not_paused_example :
    (y : System ℕ) × Reach pop_least 1 begin y × (y.main ≡ Main.inside) × (y.workers 0 ≡ Pc.polling)
run_not_paused_example = run_not_paused pop_least 1 only_3 (omega arith)
