-- ===== src/Workers/Tokens.antt =====
-- No message is forgotten: every message that waits at a node has an entry of nodes_queue, or a
-- thread that holds one or is about to add one.
use distributedsim.Base.{
  ℕ, ◌+◌, ◌≤◌, ◌<◌, ◌≡◌, ◌⊎◌, inl, inr, refl, sym, ap, subst, Bool, true, false, Option, List, [],
  ◌∷◌, ◌++◌, arith, ◌==◌, if◌then◌else◌, Bool-cases, ==_iff,
}
use distributedsim.Node.{
  Message, Mailbox, Outcome, handled, early, idle, enqueue, handle_one_message,
}
use distributedsim.Node.Queue.{
  IsHeap, waiting, handed, Obeys, handle_one_message-waiting, handle_one_message-Obeys,
}
use distributedsim.Node.Drain.{enqueue-waiting}
use distributedsim.Workers
use distributedsim.Workers.{
  Pc, Shared, Main, Move, Call, System, Step, Reach, update, no_mail, start_run,
}
use distributedsim.Workers.Sums.{sum, sum-update, indicator, tokens, tokens-append}

module _ {A : Type 0} where
  -- The entries for node `r` that a worker holds, or is about to add.
  abbrev pub held : ℕ → Pc A → ℕ
  held r (Pc.holding id num) = indicator (id == r)
  held r (Pc.pushing id num receiver out) = indicator (receiver == r)
  held r (Pc.returning id) = indicator (id == r)
  held r Pc.starting = 0
  held r Pc.polling = 0
  held r Pc.slept = 0
  held r (Pc.handling id num out) = 0
  held r Pc.released = 0
  held r Pc.waiting_pause = 0
  held r Pc.leaving = 0
  held r Pc.ended = 0
  held r (Pc.aborted id) = indicator (id == r)

  abbrev pub held_main : ℕ → Main A → ℕ
  held_main r (Main.posting receiver out) = indicator (receiver == r)
  held_main r Main.free = 0
  held_main r Main.spinning = 0
  held_main r Main.inside = 0
  held_main r (Main.starting_message out) = 0

  -- The messages that wait at node `r`.
  abbrev pub mail : ℕ → Shared A → ℕ
  mail r s = waiting (λ _. true) (s.boxes r)

  abbrev pub IsKept : ℕ → System A → Type 0
  IsKept n y =
      (r : ℕ)
      → mail r y.shared
        ≤ tokens r y.shared.nodes_queue + sum n (λ i. held r (y.workers i)) + held_main r y.main

  -- What a step owes: as many more entries as messages, unless no message waits.
  abbrev Pays : ℕ → Shared A → ℕ → Shared A → ℕ → Type 0
  Pays r s h s' h' =
      (mail r s' ≡ 0)
      ⊎ (mail r s' + tokens r s.nodes_queue + h ≤ mail r s + tokens r s'.nodes_queue + h')

  -- A mailbox is replaced.
  put_mail :
      (s : Shared A) (id r : ℕ) (b : Mailbox A)
      → ((id ≡ r)
          × (mail r (record s { boxes = update s.boxes id b }) ≡ waiting (λ _. true) b)
          × (mail r s ≡ waiting (λ _. true) (s.boxes id))
          × (indicator (id == r) ≡ 1))
        ⊎ ((mail r (record s { boxes = update s.boxes id b }) ≡ mail r s)
            × (indicator (id == r) ≡ 0))
  put_mail s id r b = elim (Bool-cases (id == r)) [
    | inl e ↦
        let same : id ≡ r = (==_iff id r).0 e in
        inl (same, rw e refl, ap (λ k. waiting (λ _. true) (s.boxes k)) (sym same), rw e refl)
    | inr e ↦ inr (rw e refl, rw e refl)
  ]

  deliver-Pays :
      (may : Bool) (now receiver r : ℕ) (msg : Message A) (s : Shared A)
      → Pays r s 0 (Workers.deliver may now receiver msg s) (indicator (receiver == r))
  deliver-Pays may now receiver r msg s =
      let grown = enqueue-waiting (λ _. true) may now (Workers.raise_hops msg) (s.boxes receiver) in
      elim (put_mail s receiver r (enqueue may now (Workers.raise_hops msg) (s.boxes receiver))) [
        | inl (_, new, old, one) ↦ inr (bound may (tokens r s.nodes_queue) new old one grown)
        | inr (same, none) ↦ inr (omega (arith, same, none))
      ]
    where
      bound :
          (may : Bool) (q : ℕ) {x y z i : ℕ}
          → x ≡ y
          → z ≡ waiting (λ _. true) (s.boxes receiver)
          → i ≡ 1
          → y ≡ (if may then 1 else 0) + waiting (λ _. true) (s.boxes receiver)
          → x + q + 0 ≤ z + q + i
      bound true q a b c d = omega arith
      bound false q a b c d = omega arith

  push-Pays : (id r : ℕ) (s : Shared A) → Pays r s (indicator (id == r)) (Workers.push id s) 0
  push-Pays id r s = inr (omega (arith, tokens-append r s.nodes_queue (id ∷ [])))

module _ {A : Type 0} (pop : List (ℕ × Message A) → Option ((ℕ × Message A) × List (ℕ × Message A)))
    (heap : IsHeap pop) where
  -- What a call of handle_one_message leaves.
  left_mail :
      (now : ℕ) (b b' : Mailbox A) (o : Outcome A)
      → handle_one_message pop now b ≡ (o, b')
      → waiting (λ _. true) b ≡ handed (λ _. true) o + waiting (λ _. true) b'
  left_mail now b b' o e =
      let kept = handle_one_message-waiting pop heap now (λ _. true) b in
      subst (λ z. waiting (λ _. true) b ≡ handed (λ _. true) z.0 + waiting (λ _. true) z.1) e kept

  nothing_left :
      (now : ℕ) (b b' : Mailbox A)
      → handle_one_message pop now b ≡ (idle, b')
      → waiting (λ _. true) b ≡ 0
  nothing_left now b b' e =
      let (plain, delayed) =
        subst (Obeys now b) (ap (λ z. z.0) e) (handle_one_message-Obeys pop heap now b) in
      rw (plain, delayed) refl

  taken_tokens :
      (r id : ℕ) (queue before after : List ℕ)
      → queue ≡ before ++ id ∷ after
      → tokens r queue ≡ tokens r (before ++ after) + indicator (id == r)
  taken_tokens r id queue before after e =
      omega
        (arith, ap (tokens r) e, tokens-append r before (id ∷ after), tokens-append r before after)

  Move-Pays :
      (r : ℕ) {s s' : Shared A} {p p' : Pc A}
      → Move pop s p s' p'
      → Pays r s (held r p) s' (held r p')
  Move-Pays r Move.start = inr (omega arith)
  Move-Pays r {s} (Move.take {id} before after e there) =
      inr (omega (arith, taken_tokens r id s.nodes_queue before after e))
  Move-Pays r {s} (Move.take_failed {id} before after e gone) =
      inr (omega (arith, taken_tokens r id s.nodes_queue before after e))
  Move-Pays r Move.miss = inr (omega arith)
  Move-Pays r (Move.again go) = inr (omega arith)
  Move-Pays r (Move.quit stop) = inr (omega arith)
  Move-Pays r (Move.enough many) = inr (omega arith)
  Move-Pays r {s} (Move.none_left {id} {b} now few e) =
      let kept = left_mail now (s.boxes id) b idle e in
      let empty = nothing_left now (s.boxes id) b e in
      elim (put_mail s id r b) [
        | inl (_, new, old, one) ↦ inl (omega arith)
        | inr (same, none) ↦ inr (omega (arith, same, none))
      ]
  Move-Pays r {s} (Move.not_due {id} {b} now few e) =
      let kept = left_mail now (s.boxes id) b early e in
      elim (put_mail s id r b) [
        | inl (_, new, old, one) ↦ inr (omega (arith, new, old, one))
        | inr (same, none) ↦ inr (omega (arith, same, none))
      ]
  Move-Pays r {s} (Move.handle {id} {b} now msg few e) =
      let kept = left_mail now (s.boxes id) b (handled msg) e in
      elim (put_mail s id r b) [
        | inl (_, new, old, one) ↦ inr (omega (arith, new, old, one))
        | inr (same, none) ↦ inr (omega (arith, same, none))
      ]
  Move-Pays r Move.lose = inr (omega arith)
  Move-Pays r {s} (Move.send {receiver} may now msg there) = deliver-Pays may now receiver r msg s
  Move-Pays r {s} (Move.sent {receiver}) = push-Pays receiver r s
  Move-Pays r Move.throw = inr (omega arith)
  Move-Pays r Move.finish = inr (omega arith)
  Move-Pays r {s} (Move.give_back {id}) = push-Pays id r s
  Move-Pays r (Move.go_on go) = inr (omega arith)
  Move-Pays r (Move.park stop) = inr (omega arith)
  Move-Pays r (Move.leave go) = inr (omega arith)
  Move-Pays r Move.return = inr (omega arith)

  Call-Pays :
      (r : ℕ) {s s' : Shared A} {m m' : Main A}
      → Call s m s' m'
      → Pays r s (held_main r m) s' (held_main r m')
  Call-Pays r Call.call = inr (omega arith)
  Call-Pays r Call.call_again = inr (omega arith)
  Call-Pays r (Call.paused none) = inr (omega arith)
  Call-Pays r {s} (Call.join id gone) = elim (put_mail s id r no_mail) [
    | inl (_, new, old, one) ↦ inl (omega (arith, new))
    | inr (same, none) ↦ inr (omega (arith, same))
  ]
  Call-Pays r {s} (Call.fail id there) = elim (put_mail s id r no_mail) [
    | inl (_, new, old, one) ↦ inl (omega (arith, new))
    | inr (same, none) ↦ inr (omega (arith, same))
  ]
  Call-Pays r Call.resume = inr (omega arith)
  Call-Pays r Call.halt = inr (omega arith)
  Call-Pays r Call.gen_message = inr (omega arith)
  Call-Pays r Call.main_lose = inr (omega arith)
  Call-Pays r {s} (Call.main_send {receiver} may now msg there) =
      deliver-Pays may now receiver r msg s
  Call-Pays r {s} (Call.main_sent {receiver}) = push-Pays receiver r s
  Call-Pays r Call.main_done = inr (omega arith)

  Step-IsKept : (n : ℕ) {y z : System A} → Step pop n y z → IsKept n y → IsKept n z
  Step-IsKept n {y} (Step.work i {s} {p} lt move) kept = λ r.
      let total = sum-update (held r) y.workers i p n lt in
      elim (Move-Pays r move) [
        | inl none ↦ omega (arith, none)
        | inr pays ↦ omega (arith, pays, kept r)
      ]
  Step-IsKept n {y} (Step.main_works c) kept = λ r. elim (Call-Pays r c) [
    | inl none ↦ omega (arith, none)
    | inr pays ↦ omega (arith, pays, kept r)
  ]

  Reach-IsKept : (n : ℕ) {y z : System A} → Reach pop n y z → IsKept n y → IsKept n z
  Reach-IsKept n Reach.here kept = kept
  Reach-IsKept n (Reach.later before step) kept = Step-IsKept n step (Reach-IsKept n before kept)

  start_run-IsKept : (n : ℕ) (nodes : ℕ → Bool) → IsKept {A = A} n (start_run nodes)
  start_run-IsKept n nodes = λ r. omega arith

  -- However the workers and the main thread take their steps, and whatever the handlers send and
  -- throw, no message is forgotten: a node has at most as many waiting messages as it has entries in
  -- the queue, or held by a worker, or about to be added after an enqueue. So where a message waits
  -- and no thread has or adds an entry for its node, the queue has one.
  pub run-IsKept :
      (n : ℕ) (nodes : ℕ → Bool) {y : System A}
      → Reach pop n (start_run nodes) y
      → IsKept n y
        × ((r : ℕ)
            → 0 < mail r y.shared
            → sum n (λ i. held r (y.workers i)) + held_main r y.main ≡ 0
            → 0 < tokens r y.shared.nodes_queue)
  run-IsKept n nodes reached =
      let kept = Reach-IsKept n reached (start_run-IsKept n nodes) in
      (kept, λ r waits nobody. omega (arith, kept r))
