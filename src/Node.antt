-- ===== src/Node.antt =====
-- include/message.hpp and include/node.hpp: messages, and the two queues of a Node. Times are
-- nanoseconds. `pop` stands for top and pop of std::priority_queue, which gives an entry with the
-- least time; which of several such entries is not specified, since messages compare by address.
pub mod Queue
pub mod Heap
pub mod Drain
pub mod Empty
mod Tests
use distributedsim.Base.{
  ℕ, zero, suc, ◌+◌, ◌-◌, ◌≤◌, ◌≡◌, Bool, true, false, Option, none, some, List, [], ◌∷◌, ◌++◌, ltb,
  ◌==◌, if◌then◌else◌, All,
}

pub record Message (A : Type 0) : Type 0 where
  pub hops : ℕ
  pub delay : ℕ
  pub data_ : A

-- get_hops, delay and data, which read a member; and the order of messages, by address.
abbrev pub get_hops : {A : Type 0} → Message A → ℕ
get_hops m = m.hops

abbrev pub get_delay : {A : Type 0} → Message A → ℕ
get_delay m = m.delay

abbrev pub get_data : {A : Type 0} → Message A → A
get_data m = m.data_

abbrev pub less : ℕ → ℕ → Bool
less address other = ltb address other

-- Message(data)
abbrev pub new_message : {A : Type 0} → A → Message A
new_message a = record { hops = 0; delay = 0; data_ = a }

-- Message::delay(new_delay) and Message::data(data), which write a member.
abbrev pub set_delay : {A : Type 0} → Message A → ℕ → Message A
set_delay m d = record m { delay = d }

abbrev pub set_data : {A : Type 0} → Message A → A → Message A
set_data m a = record m { data_ = a }

-- The constant members of a node: its manager and its id. The constructor, and the two that read them.
pub record Node (M : Type 0) : Type 0 where
  pub manager_ : M
  pub id_ : ℕ

abbrev pub new_node_base : {M : Type 0} → M → ℕ → Node M
new_node_base manager id = record { manager_ = manager; id_ = id }

abbrev pub id_of : {M : Type 0} → Node M → ℕ
id_of n = n.id_

abbrev pub manager_of : {M : Type 0} → Node M → M
manager_of n = n.manager_

-- check_enqueue and init, as the base class has them.
abbrev pub check_enqueue : {M : Type 0} → Node M → Bool
check_enqueue n = true

abbrev pub init : {M : Type 0} → Node M → Node M
init n = n

-- The queues of a node, and the two counters that all nodes share. Every message that waits is counted in
-- queued_messages, so that it is never lowered at 0.
pub record Mailbox (A : Type 0) : Type 0 where
  pub messages : List (Message A)
  pub delayed_messages : List (ℕ × Message A)
  pub queued_messages : ℕ
  pub all_messages : ℕ

-- What handle_one_message returns: 1, after handle_message of the message; -1; or 0.
pub data Outcome (A : Type 0) : Type 0 where
  handled : Message A → Outcome A
  early : Outcome A
  idle : Outcome A

module _ {A : Type 0} where
  -- `may` is the result of check_enqueue().
  unfoldable pub enqueue : Bool → ℕ → Message A → Mailbox A → Mailbox A
  enqueue may now msg b =
      if may
      then if msg.delay == 0
        then record b {
          messages = b.messages ++ msg ∷ [];
          queued_messages = b.queued_messages + 1;
          all_messages = b.all_messages + 1;
        }
        else record b {
          delayed_messages = (now + msg.delay, msg) ∷ b.delayed_messages;
          queued_messages = b.queued_messages + 1;
          all_messages = b.all_messages + 1;
        }
      else b

  abbrev pub take_delayed :
      ℕ → Mailbox A → Option ((ℕ × Message A) × List (ℕ × Message A)) → Outcome A × Mailbox A
  take_delayed now b none = (idle, b)
  take_delayed now b (some ((due, msg), rest)) = if ltb now due then (early, b) else (
    handled msg,
    record b { delayed_messages = rest; queued_messages = b.queued_messages - 1 },
  )

  abbrev pub take_message :
      (List (ℕ × Message A) → Option ((ℕ × Message A) × List (ℕ × Message A)))
      → ℕ
      → Mailbox A
      → List (Message A)
      → Outcome A × Mailbox A
  take_message pop now b [] = take_delayed now b (pop b.delayed_messages)
  take_message pop now b (msg ∷ rest) =
      (handled msg, record b { messages = rest; queued_messages = b.queued_messages - 1 })

  unfoldable pub handle_one_message :
      (List (ℕ × Message A) → Option ((ℕ × Message A) × List (ℕ × Message A)))
      → ℕ
      → Mailbox A
      → Outcome A × Mailbox A
  handle_one_message pop now b = take_message pop now b b.messages
