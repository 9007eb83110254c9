-- ===== src/Chord.antt =====
-- protocols/chord.hpp: ChordNode, on the ordered map of nodes of its HardwareManager. `bits` and
-- `me` stand for the members bits and id(). `none` is an exception of next_id.

pub mod Ring
pub mod Route
pub mod Hops
pub mod Program
pub mod Shares
mod Tests
use distributedsim.Base.{
  ℕ, zero, suc, ◌+◌, ◌-◌, ◌%◌, ◌^◌, Bool, Option, none, some, List, leb, ◌==◌, if◌then◌else◌, ◌>>=◌,
}
use distributedsim.Node.{Node, new_node_base}
use distributedsim.Rng.{Xoroshiro, next, u64}
use distributedsim.Manager.{has_bigger_id, next_id}

-- A ChordNode, with the callback `cb`, and its constructor.
pub record ChordNode (M C : Type 0) : Type 0 where
  pub base : Node M
  pub bits : ℕ
  pub cb : C

abbrev pub new_chord_node : {M C : Type 0} → M → ℕ → ℕ → C → ChordNode M C
new_chord_node manager id bits cb = record { base = new_node_base manager id; bits = bits; cb = cb }

-- Subtraction of size_t, which wraps.
unfoldable pub sub64 : ℕ → ℕ → ℕ
sub64 a b = u64 (a + 2 ^ 64 - b)

-- 1ULL<<bits is 2 ^ bits, for bits below 64.
unfoldable pub distance : ℕ → ℕ → ℕ → ℕ
unfolding sub64
distance bits me other =
    let o = other % 2 ^ bits in if leb me o then sub64 o me else sub64 (2 ^ bits + o) me

module _ {ℓ} {N : Type ℓ} where
  unfoldable pub successor : ℕ → List (ℕ × N) → ℕ → Option ℕ
  successor bits nodes i =
      let j = i % 2 ^ bits in if has_bigger_id nodes j then next_id nodes j else next_id nodes 0

  -- The loop over the fingers, with `n` for i: the first that is not past the destination.
  unfoldable pub choose_finger : ℕ → ℕ → List (ℕ × N) → ℕ → ℕ → Option (Option ℕ)
  unfolding distance successor
  choose_finger bits me nodes dst zero = some none
  choose_finger bits me nodes dst (suc n) =
      let rest = choose_finger bits me nodes dst n in
      do
        finger ← successor bits nodes (u64 (me + 2 ^ n))
        if leb (distance bits me finger) (distance bits me dst) then some (some finger) else rest

-- What handle_message does with the message: the call of the callback `cb`, or the call of
-- send_message, or neither.
pub data Action : Type 0 where
  deliver : Action
  send : ℕ → Action
  drop : Action

abbrev pub send_or_drop : Option ℕ → Action
send_or_drop none = drop
send_or_drop (some finger) = send finger

module _ {ℓ} {N : Type ℓ} where
  unfoldable pub handle_message : ℕ → ℕ → List (ℕ × N) → ℕ → Option Action
  unfolding choose_finger
  handle_message bits me nodes data_ = do
    dst ← successor bits nodes data_
    if me == dst
        then some deliver
        else do finger ← choose_finger bits me nodes dst bits; some (send_or_drop finger)

  -- The draws of start_message: a number whose successor is another node. `none` also where the
  -- fuel, the number of draws, runs out.
  unfoldable pub draw_data : ℕ → ℕ → ℕ → List (ℕ × N) → Xoroshiro → Option (ℕ × Xoroshiro)
  unfolding successor
  draw_data zero bits me nodes g = none
  draw_data (suc fuel) bits me nodes g =
      let (r, g') = next g in
      let again = draw_data fuel bits me nodes g' in
      do s ← successor bits nodes (r % 2 ^ bits); if s == me then again else some (r % 2 ^ bits, g')

  unfoldable pub start_message :
      ℕ → ℕ → ℕ → List (ℕ × N) → Xoroshiro → Option (ℕ × Action × Xoroshiro)
  unfolding draw_data handle_message
  start_message fuel bits me nodes g = do
    (data_, g') ← draw_data fuel bits me nodes g
    action ← handle_message bits me nodes data_
    some (data_, action, g')
