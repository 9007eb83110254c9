-- ===== src/Experiment/MainChain.antt =====
-- examples/tinycoin/main.cpp: the loop that marks the blocks of the main chain.
use native.Mathlib.Decide.{ℕ_discrete}
use distributedsim.Base.{
  ◌⊎◌, subst, get-some, get-set, get-set_other, some_injective, ℕ, zero, suc, ◌<◌, ◌≡◌, refl, sym,
  ◌∙◌, inl, inr, Bool, true, false, some, List, ◌==◌, ==_iff, Bool-cases, length, length-set,
  get_elem?, set, arith,
}
use distributedsim.Tinycoin.{Block}
use distributedsim.Experiment.{mark_chain}
use distributedsim.Experiment.Splits.{put-set}

module _ {A : Type 0} (blockchain : List (Block A)) where
  -- The block is the head or one of its ancestors, and not the genesis block.
  pub data On : ℕ → ℕ → Type 0 where
    here : {head : ℕ} → 0 < head → On head head
    above :
        {head i : ℕ} (blk : Block A)
        → 0 < head
        → get_elem? blockchain head ≡ some blk
        → On blk.parent i
        → On head i

  -- Every block of a kind but the genesis block is younger than its parent, which is of the kind too.
  unfoldable pub IsOlder : (ℕ → Type 0) → Type 0
  IsOlder P =
      (i : ℕ) (blk : Block A)
      → P i
      → 0 < i
      → get_elem? blockchain i ≡ some blk
      → (blk.parent < i) × P blk.parent

  -- The blocks that the loop marks.
  pub record IsMarked (head : ℕ) (before after : List Bool) : Type 0 where
    pub long : length after ≡ length before
    pub on : (i : ℕ) → On head i → get_elem? after i ≡ some true
    pub off : (i : ℕ) → ¬ On head i → get_elem? after i ≡ get_elem? before i
    pub kept : (i : ℕ) → get_elem? before i ≡ some true → get_elem? after i ≡ some true

  On-positive : {head i : ℕ} → On head i → 0 < head
  On-positive (here pos) = pos
  On-positive (above blk pos e on) = pos

  On-cases :
      {head i : ℕ} (blk : Block A)
      → get_elem? blockchain head ≡ some blk
      → On head i
      → (head ≡ i) ⊎ On blk.parent i
  On-cases blk e (here pos) = inl refl
  On-cases {i = i} blk e (above other pos f on) =
      inr (subst (λ b. On b.parent i) (some_injective other blk (sym f ∙ e)) on)

  zero-IsMarked : (before : List Bool) → IsMarked 0 before before
  zero-IsMarked before = record {
    long = refl;
    on = λ i on. absurd (omega (arith, On-positive on));
    off = λ i n. refl;
    kept = λ i e. e;
  }

  parent-IsMarked :
      (head : ℕ) (blk : Block A) (before after : List Bool)
      → 0 < head
      → head < length before
      → get_elem? blockchain head ≡ some blk
      → IsMarked blk.parent (set before head true) after
      → IsMarked head before after
  parent-IsMarked head blk before after pos h e rest = record {
    long = rest.long ∙ length-set before head true;
    on = λ i on. elim (On-cases blk e on) [
      | inl same ↦ rest.kept i (
          subst (λ x. get_elem? (set before head true) x ≡ some true) same
            (get-set before head true h))
      | inr further ↦ rest.on i further
    ];
    off = λ i n.
        rest.off i (λ on. n (above blk pos e on))
        ∙ get-set_other before head i true (λ same. n (subst (On head) same (here pos)));
    kept = λ i marked. rest.kept i (elim (ℕ_discrete head i) [
      | yes same ↦
          subst (λ x. get_elem? (set before head true) x ≡ some true) same
            (get-set before head true h)
      | no other ↦ get-set_other before head i true other ∙ marked
    ]);
  }

  -- In a block chain whose blocks of a kind are younger than their parents, which are of the kind too, the
  -- loop from a head of the kind stops after at most as many rounds as the head's id and one, stays within
  -- bounds, and marks the head and its ancestors but the genesis block, and nothing else.
  pub mark_chain-IsMarked :
      (P : ℕ → Type 0) (fuel head : ℕ) (before : List Bool)
      → IsOlder P
      → P head
      → length before ≡ length blockchain
      → head < length blockchain
      → head < fuel
      → (after : List Bool) × (mark_chain fuel blockchain head before ≡ some after)
        × IsMarked head before after
  unfolding mark_chain IsOlder
  mark_chain-IsMarked P zero head before older kind long h enough = absurd (omega arith)
  mark_chain-IsMarked P (suc fuel) zero before older kind long h enough =
      (before, refl, zero-IsMarked before)
  mark_chain-IsMarked P (suc fuel) (suc head) before older kind long h enough =
      let (blk, e) = get-some blockchain (suc head) h in
      let not_genesis : (suc head == 0) ≡ false = elim (Bool-cases (suc head == 0)) [
        | inl genesis ↦ absurd (omega (arith, (==_iff (suc head) 0).0 genesis))
        | inr n ↦ n
      ] in
      let (below, kind') = older (suc head) blk kind (omega arith) e in
      let (after, f, marked) =
        mark_chain-IsMarked P fuel blk.parent (set before (suc head) true) older kind'
          (length-set before (suc head) true ∙ long) (omega arith) (omega arith) in
      (
        after,
        rw (not_genesis, put-set before (suc head) true (omega arith), e, f) refl,
        parent-IsMarked (suc head) blk before after (omega arith) (omega arith) e marked,
      )
