-- ===== src/Workers.antt =====
-- include/hardware_manager.hpp: the worker threads of run(), send_message as they call it, and pause,
-- resume, fail and add_node as the main thread calls them. A step is one access to what the threads
-- share. A node's handler is any program: it sends any messages, and may throw at any time. The
-- vendored ConcurrentQueue is a list from which try_dequeue takes any element, or none. `pop` is the
-- heap of the delayed messages.

pub mod Sending
pub mod Sums
pub mod Tokens
pub mod Running
mod Tests
use distributedsim.Base.{
  ℕ, zero, suc, ◌+◌, ◌-◌, ◌≤◌, ◌<◌, ◌≡◌, Bool, true, false, Option, List, [], ◌∷◌, ◌++◌, ◌==◌,
  if◌then◌else◌,
}
use distributedsim.Node.{
  Message, Mailbox, Outcome, handled, early, idle, enqueue, handle_one_message,
}

-- The messages that a handler still sends, with their receivers.
abbrev pub Outbox : Type 0 → Type 0
Outbox A = List (ℕ × Message A)

-- Where a worker stands.
pub data Pc (A : Type 0) : Type 0 where
  -- Before `running_threads++`, before try_dequeue, and after the sleep that follows a miss.
  starting : Pc A
  polling : Pc A
  slept : Pc A
  -- At the top of the inner loop, with the node's id and `num`.
  holding : ℕ → ℕ → Pc A
  -- In the node's handler; and in send_message, after the receiver's enqueue and before nodes_queue's.
  handling : ℕ → ℕ → Outbox A → Pc A
  pushing : ℕ → ℕ → ℕ → Outbox A → Pc A
  -- Before `nodes_queue.enqueue(node->id())`.
  returning : ℕ → Pc A
  -- After the inner loop; in the loop that waits for `pausing` to end; and before `running_threads++`.
  released : Pc A
  waiting_pause : Pc A
  leaving : Pc A
  -- After the loop; and after an exception of nodes.at, with the id, which ends the program.
  ended : Pc A
  aborted : ℕ → Pc A

-- What the threads share.
pub record Shared (A : Type 0) : Type 0 where
  pub nodes : ℕ → Bool
  pub boxes : ℕ → Mailbox A
  pub nodes_queue : List ℕ
  pub stopping : Bool
  pub pausing : Bool
  pub running_threads : ℕ

abbrev pub update {ℓ} : {B : Type ℓ} → (ℕ → B) → ℕ → B → ℕ → B
update f i b j = if i == j then b else f j

abbrev pub max_messages : ℕ
max_messages = 128

module _ {A : Type 0} where
  abbrev pub raise_hops : Message A → Message A
  raise_hops m = record m { hops = m.hops + 1 }

  -- send_message up to the enqueue of the receiver, which is in the network.
  abbrev pub deliver : Bool → ℕ → ℕ → Message A → Shared A → Shared A
  deliver may now receiver msg s = record s {
    boxes = update s.boxes receiver (enqueue may now (raise_hops msg) (s.boxes receiver));
  }

  -- `nodes_queue.enqueue(id)`
  abbrev pub push : ℕ → Shared A → Shared A
  push id s = record s { nodes_queue = s.nodes_queue ++ id ∷ [] }

module _ {A : Type 0}
    (pop : List (ℕ × Message A) → Option ((ℕ × Message A) × List (ℕ × Message A))) where
  -- A step of one worker, from the shared state and its own place to new ones.
  pub data Move (s : Shared A) : Pc A → Shared A → Pc A → Type 0 where
    start : Move s starting (record s { running_threads = s.running_threads + 1 }) polling
    take :
        {id : ℕ} (before after : List ℕ)
        → s.nodes_queue ≡ before ++ id ∷ after
        → s.nodes id ≡ true
        → Move s polling (record s { nodes_queue = before ++ after }) (holding id 0)
    take_failed :
        {id : ℕ} (before after : List ℕ)
        → s.nodes_queue ≡ before ++ id ∷ after
        → s.nodes id ≡ false
        → Move s polling (record s { nodes_queue = before ++ after }) (aborted id)
    miss : Move s polling s slept
    again : s.stopping ≡ false → Move s slept s polling
    quit : s.stopping ≡ true → Move s slept s ended
    enough : {id num : ℕ} → max_messages < num → Move s (holding id num) s (returning id)
    none_left :
        {id num : ℕ} {b : Mailbox A} (now : ℕ)
        → num ≤ max_messages
        → handle_one_message pop now (s.boxes id) ≡ (idle, b)
        → Move s (holding id num) (record s { boxes = update s.boxes id b }) released
    not_due :
        {id num : ℕ} {b : Mailbox A} (now : ℕ)
        → num ≤ max_messages
        → handle_one_message pop now (s.boxes id) ≡ (early, b)
        → Move s (holding id num) (record s { boxes = update s.boxes id b }) (returning id)
    handle :
        {id num : ℕ} {b : Mailbox A} {out : Outbox A} (now : ℕ) (msg : Message A)
        → num ≤ max_messages
        → handle_one_message pop now (s.boxes id) ≡ (handled msg, b)
        → Move s
            (holding id num)
            (record s { boxes = update s.boxes id b })
            (handling id (num + 1) out)
    lose :
        {id num receiver : ℕ} {msg : Message A} {out : Outbox A}
        → Move s (handling id num ((receiver, msg) ∷ out)) s (handling id num out)
    send :
        {id num receiver : ℕ} {out : Outbox A} (may : Bool) (now : ℕ) (msg : Message A)
        → s.nodes receiver ≡ true
        → Move s
            (handling id num ((receiver, msg) ∷ out))
            (deliver may now receiver msg s)
            (pushing id num receiver out)
    sent :
        {id num receiver : ℕ} {out : Outbox A}
        → Move s (pushing id num receiver out) (push receiver s) (handling id num out)
    throw : {id num : ℕ} {out : Outbox A} → Move s (handling id num out) s released
    finish : {id num : ℕ} → Move s (handling id num []) s (holding id num)
    give_back : {id : ℕ} → Move s (returning id) (push id s) released
    go_on : s.pausing ≡ false → Move s released s polling
    park :
        s.pausing ≡ true
        → Move s released (record s { running_threads = s.running_threads - 1 }) waiting_pause
    leave : s.pausing ≡ false → Move s waiting_pause s leaving
    return : Move s leaving (record s { running_threads = s.running_threads + 1 }) polling

-- Where the main thread stands: between calls; in the loop of pause; after it; and in a message that
-- gen_message starts, as a worker in a handler.
pub data Main (A : Type 0) : Type 0 where
  free : Main A
  spinning : Main A
  inside : Main A
  starting_message : Outbox A → Main A
  posting : ℕ → Outbox A → Main A

-- The mailbox of a node that is not there, or new.
abbrev pub no_mail : {A : Type 0} → Mailbox A
no_mail = record { messages = []; delayed_messages = []; queued_messages = 0; all_messages = 0 }

-- A step of the main thread. `call` and `resume` are pause() and resume(), and `call_again` is the second
-- pause of add_node, in its run_lock; `join` and `fail` are the emplace of add_node and the erase of fail,
-- which a run_lock guards; `halt` is the first line of stop. The messages that the init of a new node sends
-- are steps like those of gen_message.
pub data Call {A : Type 0} (s : Shared A) : Main A → Shared A → Main A → Type 0 where
  call : Call s free (record s { pausing = true }) spinning
  call_again : Call s inside (record s { pausing = true }) spinning
  paused : s.running_threads ≡ 0 → Call s spinning s inside
  join :
      (id : ℕ)
      → s.nodes id ≡ false
      → Call s inside
          (record s { nodes = update s.nodes id true; boxes = update s.boxes id no_mail })
          inside
  fail :
      (id : ℕ)
      → s.nodes id ≡ true
      → Call s inside
          (record s { nodes = update s.nodes id false; boxes = update s.boxes id no_mail })
          inside
  resume : Call s inside (record s { pausing = false }) free
  halt : Call s free (record s { stopping = true }) free
  gen_message : {out : Outbox A} → Call s free s (starting_message out)
  main_lose :
      {receiver : ℕ} {msg : Message A} {out : Outbox A}
      → Call s (starting_message ((receiver, msg) ∷ out)) s (starting_message out)
  main_send :
      {receiver : ℕ} {out : Outbox A} (may : Bool) (now : ℕ) (msg : Message A)
      → s.nodes receiver ≡ true
      → Call s
          (starting_message ((receiver, msg) ∷ out))
          (deliver may now receiver msg s)
          (posting receiver out)
  main_sent :
      {receiver : ℕ} {out : Outbox A}
      → Call s (posting receiver out) (push receiver s) (starting_message out)
  main_done : {out : Outbox A} → Call s (starting_message out) s free

-- All threads: workers have the indices below `n`.
pub record System (A : Type 0) : Type 0 where
  pub shared : Shared A
  pub workers : ℕ → Pc A
  pub main : Main A

module _ {A : Type 0} (pop : List (ℕ × Message A) → Option ((ℕ × Message A) × List (ℕ × Message A)))
    (n : ℕ) where
  pub data Step (y : System A) : System A → Type 0 where
    work :
        (i : ℕ) {s : Shared A} {p : Pc A}
        → i < n
        → Move pop y.shared (y.workers i) s p
        → Step y (record y { shared = s; workers = update y.workers i p })
    main_works :
        {s : Shared A} {m : Main A}
        → Call y.shared y.main s m
        → Step y (record y { shared = s; main = m })

  pub data Reach (y : System A) : System A → Type 0 where
    here : Reach y y
    later : {z w : System A} → Reach y z → Step z w → Reach y w

-- run(), over nodes that have no messages yet.
abbrev pub start_run : {A : Type 0} → (ℕ → Bool) → System A
start_run nodes = record {
  shared = record {
    nodes = nodes;
    boxes = λ _. no_mail;
    nodes_queue = [];
    stopping = false;
    pausing = false;
    running_threads = 0;
  };
  workers = λ _. starting;
  main = free;
}
