-- ===== src/Experiment/Splits.antt =====
-- examples/tinycoin/main.cpp: the counts of the loop over the blocks and their splits, step by step.
use distributedsim.Base.{
  not, ◌^◌, get-some, ℕ, zero, suc, ◌+◌, ◌≤◌, ◌<◌, ◌≡◌, refl, ◌∙◌, inl, inr, Bool, true, false,
  ◌&&◌, Option, some, List, [], ◌∷◌, ltb, ◌==◌, if◌then◌else◌, lt→ltb, ltb→lt, ltb→le, Bool-cases,
  length, length-set, set, replicate, length-replicate, All, All-mono, arith,
}
use distributedsim.Rng.{u64}
use distributedsim.Tinycoin.{Block}
use distributedsim.Experiment.{
  put, Counts, no_counts, set_split_len, count_block, start_split, grow_split,
}

module _ {ℓ} {A : Type ℓ} where
  pub put-set : (xs : List A) (i : ℕ) (v : A) → i < length xs → put xs i v ≡ some (set xs i v)
  unfolding put
  put-set xs i v h = rw (lt→ltb i (length xs) h) refl

module _ {ℓ κ} {A : Type ℓ} (P : A → Type κ) where
  All-set : (xs : List A) (i : ℕ) (v : A) → P v → All P xs → All P (set xs i v)
  All-set [] i v pv h = tt
  All-set (x ∷ xs) zero v pv h = (pv, h.1)
  All-set (x ∷ xs) (suc i) v pv h = (h.0, All-set xs i v pv h.1)

  All-replicate : (n : ℕ) (v : A) → P v → All P (replicate n v)
  All-replicate zero v pv = tt
  All-replicate (suc n) v pv = (pv, All-replicate n v pv)

-- The vectors have an entry for each of the `n` blocks, no split is longer than the longest, and `h`
-- blocks of the main chain are of honest and `k` of selfish miners.
pub record IsSound (n h k : ℕ) (s : Counts) : Type 0 where
  pub nums : length s.split_num ≡ n
  pub lens : length s.split_len ≡ n
  pub longest : All (λ len. len ≤ s.max_split_len) s.split_len
  pub honest_are : s.honest_blocks ≡ h
  pub selfish_are : s.selfish_blocks ≡ k

-- The miners that the test for selfish ones is asked for.
abbrev pub only_selfish : (ℕ → Bool) → (ℕ → Bool) → ℕ → Bool
only_selfish honest selfish m = not (honest m) && selfish m

abbrev pub one_if : Bool → ℕ
one_if b = if b then 1 else 0

module _ (n : ℕ) where
  -- The call returns counts that are sound.
  abbrev pub Gives : ℕ → ℕ → Option Counts → Type 0
  Gives h k o = (s : Counts) × (o ≡ some s) × IsSound n h k s

  pub recount : {h k h' k' : ℕ} {s : Counts} → IsSound n h k s → h ≡ h' → k ≡ k' → IsSound n h' k' s
  recount sound eh ek = record {
    nums = sound.nums;
    lens = sound.lens;
    longest = sound.longest;
    honest_are = sound.honest_are ∙ eh;
    selfish_are = sound.selfish_are ∙ ek;
  }

  if-Gives :
      {h k : ℕ} (b : Bool) (o p : Option Counts)
      → Gives h k o
      → Gives h k p
      → Gives h k (if b then o else p)
  if-Gives true o p ho hp = ho
  if-Gives false o p ho hp = hp

  set_split_len-IsSound :
      {h k : ℕ} (id len : ℕ) (s : Counts)
      → id < n
      → IsSound n h k s
      → Gives h k (set_split_len id len s)
  unfolding set_split_len
  set_split_len-IsSound id len s in_range sound =
      let top = if ltb s.max_split_len len then len else s.max_split_len in
      let raised : (s.max_split_len ≤ top) × (len ≤ top) =
        elim (Bool-cases (ltb s.max_split_len len)) [
          | inl e ↦ rw e (let lower = ltb→lt s.max_split_len len e in omega arith, omega arith)
          | inr e ↦ rw e (omega arith, ltb→le s.max_split_len len e)
        ] in
      (
        record s { split_len = set s.split_len id len; max_split_len = top },
        rw (put-set s.split_len id len (omega (arith, sound.lens))) refl,
        record {
          nums = sound.nums;
          lens = length-set s.split_len id len ∙ sound.lens;
          longest =
              All-set (λ l. l ≤ top) s.split_len id len raised.1
                (All-mono (λ l. l ≤ s.max_split_len) s.split_len (λ l h. omega (arith, raised.0))
                  sound.longest);
          honest_are = sound.honest_are;
          selfish_are = sound.selfish_are;
        },
      )

  module _ {A : Type 0} (honest selfish : ℕ → Bool) (main_chain : List Bool)
      (long : length main_chain ≡ n) where
    abbrev honest_gain : Block A → Bool → ℕ
    honest_gain blk on_main = one_if (honest blk.miner && on_main)

    abbrev selfish_gain : Block A → Bool → ℕ
    selfish_gain blk on_main = one_if (only_selfish honest selfish blk.miner && on_main)

    pub count_block-IsSound :
        {h k : ℕ} (blk : Block A) (on_main : Bool) (s : Counts)
        → h + 1 < 2 ^ 64
        → k + 1 < 2 ^ 64
        → IsSound n h k s
        → IsSound n
            (honest_gain blk on_main + h)
            (selfish_gain blk on_main + k)
            (count_block honest selfish main_chain blk on_main s)
    unfolding count_block
    count_block-IsSound blk true s hs ks sound = elim (Bool-cases (honest blk.miner)) [
      | inl e ↦ rw e (record {
        nums = sound.nums;
        lens = sound.lens;
        longest = sound.longest;
        honest_are = omega (arith, sound.honest_are);
        selfish_are = omega (arith, sound.selfish_are);
      })
      | inr e ↦ elim (Bool-cases (selfish blk.miner)) [
        | inl f ↦
            rw (e, f)
              (record {
                nums = sound.nums;
                lens = sound.lens;
                longest = sound.longest;
                honest_are = omega (arith, sound.honest_are);
                selfish_are = omega (arith, sound.selfish_are);
              })
        | inr f ↦ rw (e, f) (recount sound (omega arith) (omega arith))
      ]
    ]
    count_block-IsSound blk false s hs ks sound = elim (Bool-cases (honest blk.miner)) [
      | inl e ↦ rw e elim (Bool-cases (selfish blk.miner)) [
        | inl f ↦ rw f (recount sound (omega arith) (omega arith))
        | inr f ↦ rw f (recount sound (omega arith) (omega arith))
      ]
      | inr e ↦ elim (Bool-cases (selfish blk.miner)) [
        | inl f ↦ rw (e, f) (recount sound (omega arith) (omega arith))
        | inr f ↦ rw (e, f) (recount sound (omega arith) (omega arith))
      ]
    ]

    module _ {h k : ℕ} (blk : Block A) (hid : blk.id < n) (hparent : blk.parent < n) where
      pub start_split-IsSound :
          (on_main : Bool) (s : Counts)
          → IsSound n h k s
          → Gives h k (start_split honest selfish main_chain blk on_main s)
      unfolding start_split
      start_split-IsSound on_main s sound =
          let (children, e) = get-some s.split_num blk.parent (omega (arith, sound.nums)) in
          let (parent_on_main, f) = get-some main_chain blk.parent (omega (arith, long)) in
          let (s', g, sound') = set_split_len-IsSound blk.id 1 s hid sound in
          rw (e, f, g)
            (if-Gives _ _ _
              (
                _,
                refl,
                record {
                  nums = sound'.nums;
                  lens = sound'.lens;
                  longest = sound'.longest;
                  honest_are = sound'.honest_are;
                  selfish_are = sound'.selfish_are;
                },
              )
              (s, refl, sound))

      pub grow_split-IsSound :
          (s : Counts) → IsSound n h k s → Gives h k (grow_split honest selfish main_chain blk s)
      unfolding grow_split
      grow_split-IsSound s sound =
          let (children, e) = get-some s.split_num blk.parent (omega (arith, sound.nums)) in
          let (len, f) = get-some s.split_len blk.parent (omega (arith, sound.lens)) in
          let nums = set s.split_num blk.parent (u64 (children + 1)) in
          let s' = record s { split_num = nums } in
          let sound' : IsSound n h k s' = record {
            nums = length-set s.split_num blk.parent (u64 (children + 1)) ∙ sound.nums;
            lens = sound.lens;
            longest = sound.longest;
            honest_are = sound.honest_are;
            selfish_are = sound.selfish_are;
          } in
          rw (e, put-set s.split_num blk.parent (u64 (children + 1)) (omega (arith, sound.nums)), f)
            (if-Gives (len == 0) _ _ (s', refl, sound')
              (set_split_len-IsSound blk.id (u64 (len + 1)) s' hid sound'))

  pub no_counts-IsSound : IsSound n 0 0 (no_counts n)
  no_counts-IsSound = record {
    nums = length-replicate n 0;
    lens = length-replicate n 0;
    longest = All-replicate (λ l. l ≤ 0) n 0 (omega arith);
    honest_are = refl;
    selfish_are = refl;
  }
