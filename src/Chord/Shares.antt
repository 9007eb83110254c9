-- ===== src/Chord/Shares.antt =====
-- What examples/chord_hop_distribution.cpp prints: the shares of the messages with each number of hops.
use distributedsim.Base.{
  ℕ, zero, suc, ◌+◌, ◌≤◌, ◌<◌, ◌^◌, ◌≡◌, refl, ap, subst, ◌∙◌, inl, inr, true, false, some, List,
  [], ◌∷◌, ltb, lt→ltb, ◌==◌, if◌then◌else◌, ==_iff, ==_ne, ==_refl, Bool-cases, All, length,
  length-set, length-replicate, get_elem?, get-set, get-set_other, set, replicate, arith,
}
use distributedsim.Rng.{u64}
use distributedsim.Node.{Message, get_hops}
use distributedsim.Experiment.{put}
use distributedsim.Chord.Program.{
  Received, none_received, complete_callback, complete_all, still_waiting, distribution,
  hop_distribution,
}

module _ {A : Type 0} where
  -- How many of the messages have `h` hops.
  unfoldable pub times : ℕ → List (Message A) → ℕ
  times h [] = 0
  times h (msg ∷ msgs) = (if get_hops msg == h then 1 else 0) + times h msgs

  -- The shares of the messages with `i` hops and more, up to `left` different numbers.
  unfoldable pub shares : {D : Type 0} → (ℕ → ℕ → D) → List (Message A) → ℕ → ℕ → List D
  unfolding times
  shares ratio msgs i zero = []
  shares ratio msgs i (suc left) =
      ratio (times i msgs) (length msgs) ∷ shares ratio msgs (i + 1) left

-- The counts are those of a function, none of which is more than all.
record Holds (bits : ℕ) (f : ℕ → ℕ) (r : Received) : Type 0 where
  counted : (h : ℕ) → h ≤ bits → get_elem? r.counts h ≡ some (f h)
  most : (h : ℕ) → f h ≤ r.received_messages
  long : length r.counts ≡ bits + 1

get-replicate : (n i v : ℕ) → i < n → get_elem? (replicate n v) i ≡ some v
get-replicate zero i v h = absurd (omega arith)
get-replicate (suc n) zero v h = refl
get-replicate (suc n) (suc i) v h = get-replicate n i v (omega arith)

none_received-Holds : (bits : ℕ) → Holds bits (λ h. 0) (none_received bits)
none_received-Holds bits = record {
  counted = λ h le. get-replicate (bits + 1) h 0 (omega arith);
  most = λ h. omega arith;
  long = length-replicate (bits + 1) 0;
}

Holds-same :
    (bits : ℕ) (f g : ℕ → ℕ) (r : Received)
    → ((h : ℕ) → f h ≡ g h)
    → Holds bits f r
    → Holds bits g r
Holds-same bits f g r same holds = record {
  counted = λ h le. holds.counted h le ∙ ap some (same h);
  most = λ h. omega (arith, same h, holds.most h);
  long = holds.long;
}

module _ {A : Type 0} (bits : ℕ) where
  callback-Holds :
      (f : ℕ → ℕ) (msg : Message A) (r : Received)
      → get_hops msg ≤ bits
      → r.received_messages + 1 < 2 ^ 64
      → Holds bits f r
      → (r' : Received) × (complete_callback msg r ≡ some r')
        × (r'.received_messages ≡ r.received_messages + 1)
        × Holds bits (λ h. (if get_hops msg == h then 1 else 0) + f h) r'
  unfolding complete_callback put
  callback-Holds f msg r low short holds =
      let k = get_hops msg in
      let here = holds.counted k low in
      let within : ltb k (length r.counts) ≡ true =
        lt→ltb k (length r.counts) (omega (arith, holds.long)) in
      let one : u64 (f k + 1) ≡ f k + 1 = omega (arith, holds.most k) in
      let all : u64 (r.received_messages + 1) ≡ r.received_messages + 1 = omega arith in
      (
        record { counts = set r.counts k (f k + 1); received_messages = r.received_messages + 1 },
        rw (here, within, one, all) refl,
        refl,
        record {
          counted = λ h le. elim (Bool-cases (k == h)) [
            | inl same ↦
                let e = (==_iff k h).0 same in
                let at : get_elem? (set r.counts k (f k + 1)) h ≡ some (f k + 1) =
                  subst (λ x. get_elem? (set r.counts k (f k + 1)) x ≡ some (f k + 1)) e
                    (get-set r.counts k (f k + 1) (omega (arith, holds.long))) in
                rw same (at ∙ ap some (omega (arith, ap f e)))
            | inr other ↦
                rw (other, get-set_other r.counts k h (f k + 1) (==_ne k h other))
                  (holds.counted h le ∙ ap some (omega arith))
          ];
          most = λ h. elim (Bool-cases (k == h)) [
            | inl same ↦ rw same (omega (arith, holds.most h))
            | inr other ↦ rw other (omega (arith, holds.most h))
          ];
          long = length-set r.counts k (f k + 1) ∙ holds.long;
        },
      )

  complete_all-Holds :
      (msgs : List (Message A)) (f : ℕ → ℕ) (r : Received)
      → All (λ m. get_hops m ≤ bits) msgs
      → r.received_messages + length msgs < 2 ^ 64
      → Holds bits f r
      → (r' : Received) × (complete_all msgs r ≡ some r')
        × (r'.received_messages ≡ r.received_messages + length msgs)
        × Holds bits (λ h. times h msgs + f h) r'
  unfolding complete_all times
  complete_all-Holds [] f r low short holds =
      (r, refl, omega arith, Holds-same bits f _ r (λ h. omega arith) holds)
  complete_all-Holds (msg ∷ msgs) f r low short holds =
      let (r1, e1, n1, holds1) = callback-Holds f msg r low.0 (omega arith) holds in
      let (r', e, n, holds') =
        complete_all-Holds msgs (λ h. (if get_hops msg == h then 1 else 0) + f h) r1 low.1
          (omega arith) holds1 in
      (r', rw e1 e, omega arith, Holds-same bits _ _ r' (λ h. omega arith) holds')

  distribution-shares :
      {D : Type 0} (ratio : ℕ → ℕ → D) (msgs : List (Message A)) (r : Received) (i left : ℕ)
      → i + left ≤ bits + 1
      → r.received_messages ≡ length msgs
      → Holds bits (λ h. times h msgs + 0) r
      → distribution ratio i left r ≡ some (shares ratio msgs i left)
  unfolding distribution shares
  distribution-shares ratio msgs r i zero le many holds = refl
  distribution-shares ratio msgs r i (suc left) le many holds =
      let plain : times i msgs + 0 ≡ times i msgs = omega arith in
      rw
        (
          holds.counted i (omega arith),
          distribution-shares ratio msgs r (i + 1) left (omega arith) many holds,
          many,
          plain,
        )
        refl

  -- Where no message has more hops than the ids have bits, the program prints for each number of hops
  -- from 1 to the number of bits how many of all messages have it;
  -- it does
  -- not wait any longer, and no callback writes out of bounds.
  pub hop_distribution-shares :
      {D : Type 0} (ratio : ℕ → ℕ → D) (msgs : List (Message A))
      → All (λ m. get_hops m ≤ bits) msgs
      → length msgs < 2 ^ 64
      → (r : Received) × (complete_all msgs (none_received bits) ≡ some r)
        × (still_waiting (length msgs) r ≡ false)
        × (hop_distribution ratio bits r ≡ some (shares ratio msgs 1 bits))
  unfolding hop_distribution
  hop_distribution-shares ratio msgs low short =
      let (r, e, many, holds) =
        complete_all-Holds msgs (λ h. 0) (none_received bits) low (omega arith)
          (none_received-Holds bits) in
      let all : r.received_messages ≡ length msgs = omega arith in
      (
        r,
        e,
        rw (all, ==_refl (length msgs)) refl,
        distribution-shares ratio msgs r 1 bits (omega arith) all holds,
      )
