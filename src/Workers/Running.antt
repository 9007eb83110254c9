-- ===== src/Workers/Running.antt =====
-- What `running_threads` counts, and what pause can rely on.
use distributedsim.Base.{
  ℕ, zero, suc, ◌+◌, ◌≤◌, ◌<◌, ◌≡◌, inl, inr, refl, ap, ◌∙◌, Bool, true, false, Option, List, arith,
  ◌==◌, Bool-cases, ==_iff,
}
use distributedsim.Node.{Message}
use distributedsim.Workers.{Pc, Shared, Main, Move, Call, System, Step, Reach, start_run}
use distributedsim.Workers.Sums.{sum, sum-update, sum-le}

sum-zero : (n : ℕ) → 0 ≡ sum n (λ _. 0)
sum-zero zero = refl
sum-zero (suc n) = omega (arith, sum-zero n)

module _ {A : Type 0} where
  -- The places between the two changes of the counter. A worker that has ended is still counted.
  abbrev pub counted : Pc A → ℕ
  counted Pc.starting = 0
  counted Pc.waiting_pause = 0
  counted Pc.leaving = 0
  counted Pc.polling = 1
  counted Pc.slept = 1
  counted (Pc.holding id num) = 1
  counted (Pc.handling id num out) = 1
  counted (Pc.pushing id num receiver out) = 1
  counted (Pc.returning id) = 1
  counted Pc.released = 1
  counted Pc.ended = 1
  counted (Pc.aborted id) = 1

  abbrev pub IsCounting : ℕ → System A → Type 0
  IsCounting n y = y.shared.running_threads ≡ sum n (λ i. counted (y.workers i))

  abbrev pub has_ended : Pc A → Bool
  has_ended Pc.ended = true
  has_ended Pc.starting = false
  has_ended Pc.waiting_pause = false
  has_ended Pc.leaving = false
  has_ended Pc.polling = false
  has_ended Pc.slept = false
  has_ended (Pc.holding id num) = false
  has_ended (Pc.handling id num out) = false
  has_ended (Pc.pushing id num receiver out) = false
  has_ended (Pc.returning id) = false
  has_ended Pc.released = false
  has_ended (Pc.aborted id) = false

  counted_ended : (p : Pc A) → has_ended p ≡ true → counted p ≡ 1
  counted_ended Pc.ended e = refl
  counted_ended Pc.starting e = cc
  counted_ended p e = cc

module _ {A : Type 0}
    (pop : List (ℕ × Message A) → Option ((ℕ × Message A) × List (ℕ × Message A))) where
  Move-counted :
      {s s' : Shared A} {p p' : Pc A}
      → Move pop s p s' p'
      → counted p ≤ s.running_threads
      → s'.running_threads + counted p ≡ s.running_threads + counted p'
  Move-counted Move.start le = omega arith
  Move-counted (Move.park stop) le = omega arith
  Move-counted Move.return le = omega arith
  Move-counted move le = omega arith

  Call-counted :
      {s s' : Shared A} {m m' : Main A} → Call s m s' m' → s'.running_threads ≡ s.running_threads
  Call-counted Call.call = refl
  Call-counted c = refl

  Step-IsCounting : (n : ℕ) {y z : System A} → Step pop n y z → IsCounting n y → IsCounting n z
  Step-IsCounting n {y} (Step.work i {s} {p} lt move) h =
      let total = sum-update counted y.workers i p n lt in
      let one = sum-le (λ j. counted (y.workers j)) n i lt in
      omega (arith, Move-counted move (omega arith))
  Step-IsCounting n {y} (Step.main_works c) h = Call-counted c ∙ h

  pub Reach-IsCounting :
      (n : ℕ) {y z : System A} → Reach pop n y z → IsCounting n y → IsCounting n z
  Reach-IsCounting n Reach.here h = h
  Reach-IsCounting n (Reach.later before step) h =
      Step-IsCounting n step (Reach-IsCounting n before h)

  start_run-IsCounting : (n : ℕ) (nodes : ℕ → Bool) → IsCounting {A = A} n (start_run nodes)
  start_run-IsCounting n nodes = sum-zero n

  Move-alive : {s s' : Shared A} {p p' : Pc A} → Move pop s p s' p' → has_ended p ≡ true → ⊥
  Move-alive Move.start e = cc
  Move-alive move e = cc

  Step-ended :
      (n i : ℕ) {y z : System A}
      → Step pop n y z
      → has_ended (y.workers i) ≡ true
      → has_ended (z.workers i) ≡ true
  Step-ended n i {y} (Step.work j {p} lt move) e = elim (Bool-cases (j == i)) [
    | inl same ↦
        let at : j ≡ i = (==_iff j i).0 same in
        absurd (Move-alive move (ap (λ k. has_ended (y.workers k)) at ∙ e))
    | inr away ↦ rw away e
  ]
  Step-ended n i (Step.main_works c) e = e

  pub Reach-ended :
      (n i : ℕ) {y z : System A}
      → Reach pop n y z
      → has_ended (y.workers i) ≡ true
      → has_ended (z.workers i) ≡ true
  Reach-ended n i Reach.here e = e
  Reach-ended n i (Reach.later before step) e = Step-ended n i step (Reach-ended n i before e)

  -- When the loop of pause can end, no worker is in the middle of its work: each stands before its
  -- loop, waits for the pause to end, or is about to count itself again.
  pub run-paused :
      (n : ℕ) (nodes : ℕ → Bool) {y : System A}
      → Reach pop n (start_run nodes) y
      → y.shared.running_threads ≡ 0
      → (i : ℕ) → i < n
      → counted (y.workers i) ≡ 0
  run-paused n nodes {y} reached none i lt =
      let h = Reach-IsCounting n reached (start_run-IsCounting n nodes) in
      omega (arith, sum-le (λ j. counted (y.workers j)) n i lt)

  -- A worker that stop has ended is still counted, so that in no later state the loop of pause ends:
  -- after stop, no call of pause, add_node or fail returns.
  pub run-stopped :
      (n : ℕ) (nodes : ℕ → Bool) {y z : System A} (i : ℕ)
      → Reach pop n (start_run nodes) y
      → i < n
      → has_ended (y.workers i) ≡ true
      → Reach pop n y z
      → 0 < z.shared.running_threads
  run-stopped n nodes {y} {z} i reached lt e further =
      let h =
        Reach-IsCounting n further (Reach-IsCounting n reached (start_run-IsCounting n nodes)) in
      let one = counted_ended (z.workers i) (Reach-ended n i further e) in
      omega (arith, sum-le (λ j. counted (z.workers j)) n i lt)

  -- A pause keeps no worker out that has not counted itself yet: whatever the nodes, there is a run in
  -- which pause has returned and a worker goes on to take messages.
  pub run_not_paused :
      (n : ℕ) (nodes : ℕ → Bool)
      → 0 < n
      → (y : System A) × Reach pop n (start_run nodes) y
        × (y.main ≡ Main.inside)
        × (y.workers 0 ≡ Pc.polling)
  run_not_paused n nodes pos = (
    _,
    Reach.later
        (Reach.later (Reach.later Reach.here (Step.main_works Call.call))
          (Step.main_works (Call.paused refl)))
        (Step.work 0 pos Move.start),
    refl,
    refl,
  )
