-- ===== src/Tinycoin/Rest.antt =====
-- What handle_block does with the rest of a node's state: only confirm and unconfirm change it.
use distributedsim.Base.{
  subst, ℕ, zero, suc, ◌+◌, ◌≡◌, ◌∙◌, Bool, true, false, Option, none, some, List, [], ◌∷◌, ltb,
  ◌==◌, if◌then◌else◌, ◌>>=◌, get_elem?,
}
use distributedsim.Common.{satisfies, vec_set, grow}
use distributedsim.Tinycoin.{
  Block, Chain, no_block, is_unhandled, handle_all, postpone, descend, retrace, update_head, attach,
  handle_block,
}

-- Every result has the property.
abbrev pub Ends : {A : Type 0} → (A → Type 0) → Option A → Type 0
Ends P none = Unit
Ends P (some x) = P x

Ends-bind :
    {A B : Type 0} (P : A → Type 0) (Q : B → Type 0) (m : Option A) (f : A → Option B)
    → Ends P m
    → ((x : A) → P x → Ends Q (f x))
    → Ends Q (m >>= f)
Ends-bind P Q none f h next = tt
Ends-bind P Q (some x) f h next = next x h

Ends-any :
    {A B : Type 0} (Q : B → Type 0) (m : Option A) (f : A → Option B)
    → ((x : A) → Ends Q (f x))
    → Ends Q (m >>= f)
Ends-any Q none f next = tt
Ends-any Q (some x) f next = next x

Ends-if :
    {A : Type 0} (P : A → Type 0) (t : Bool) (m n : Option A)
    → Ends P m
    → Ends P n
    → Ends P (if t then m else n)
Ends-if P true m n h k = h
Ends-if P false m n h k = k

pub Ends-some : {A : Type 0} (P : A → Type 0) {m : Option A} {x : A} → m ≡ some x → Ends P m → P x
Ends-some P e h = subst (Ends P) e h

-- A part of the rest, `view`, that confirm and unconfirm leave alone.
module _ {A S X : Type 0} (confirm unconfirm : Block A → S → S) (view : S → X)
    (confirmed : (b : Block A) (s : S) → view (confirm b s) ≡ view s)
    (unconfirmed : (b : Block A) (s : S) → view (unconfirm b s) ≡ view s) where
  abbrev Same : X → Chain A S → Type 0
  Same x c = view c.rest ≡ x

  descend-keeps :
      (fuel : ℕ) (c : Chain A S) (new_head old_head : ℕ) (s : S) (x : X)
      → view s ≡ x
      → Ends (λ r. view r.1 ≡ x) (descend confirm unconfirm fuel c new_head old_head s)
  unfolding descend
  descend-keeps zero c new_head old_head s x same = tt
  descend-keeps (suc fuel) c new_head old_head s x same =
      Ends-any _ (get_elem? c.lengths new_head) _ (λ high.
        Ends-any _ (get_elem? c.lengths old_head) _ (λ low.
          Ends-if _ (ltb low high) _ _
            (Ends-any _ (get_elem? c.blockchain new_head) _
              (λ b. descend-keeps fuel c b.parent old_head (confirm b s) x (confirmed b s ∙ same)))
            same))

  retrace-keeps :
      (fuel : ℕ) (c : Chain A S) (new_head old_head : ℕ) (s : S) (x : X)
      → view s ≡ x
      → Ends (λ r. view r ≡ x) (retrace confirm unconfirm fuel c new_head old_head s)
  unfolding retrace
  retrace-keeps zero c new_head old_head s x same = tt
  retrace-keeps (suc fuel) c new_head old_head s x same =
      Ends-if _ (new_head == old_head) _ _ same (
        Ends-any _ (get_elem? c.blockchain new_head) _ (λ b.
          Ends-any _ (get_elem? c.blockchain old_head) _ (λ o.
            retrace-keeps fuel c b.parent o.parent (unconfirm o (confirm b s)) x
              (unconfirmed o (confirm b s) ∙ (confirmed b s ∙ same)))))

  update_head-keeps :
      (fuel : ℕ) (c : Chain A S) (new_head : ℕ) (x : X)
      → Same x c
      → Ends (Same x) (update_head confirm unconfirm fuel c new_head)
  unfolding update_head
  update_head-keeps fuel c new_head x same =
      Ends-bind _ _ (descend confirm unconfirm fuel c new_head c.head c.rest) _
        (descend-keeps fuel c new_head c.head c.rest x same)
        (λ r kept.
          Ends-bind _ _ (retrace confirm unconfirm fuel c r.0 c.head r.1) _
            (retrace-keeps fuel c r.0 c.head r.1 x kept) (λ s' kept'. kept'))

  attach-keeps :
      (b : Block A) (c : Chain A S) (x : X)
      → Same x c
      → Ends (λ r. Same x r.1) (attach confirm unconfirm b c)
  unfolding attach
  attach-keeps b c x same = Ends-any _ (get_elem? c.lengths b.parent) _ (λ below.
      let high = vec_set 0 c.lengths b.id (below + 1) in
      let c₁ = record c { lengths = high } in
      Ends-any _ (get_elem? high c.head) _ (λ top.
        Ends-bind _ _
          (if ltb top (below + 1)
            then update_head confirm unconfirm (below + 2) c₁ b.id
            else some c₁)
          _
          (Ends-if _ (ltb top (below + 1)) _ _ (update_head-keeps (below + 2) c₁ b.id x same) same)
          (λ c₂ kept. Ends-any _ (get_elem? c₂.pending_blocks b.id) _ (λ fwd. kept))))

  postpone-keeps : (b : Block A) (c : Chain A S) (x : X) → Same x c → Ends (Same x) (postpone b c)
  unfolding postpone
  postpone-keeps b c x same = Ends-any _ (get_elem? c.pending_blocks b.parent) _ (λ waiting. same)

  handle_all-keeps :
      (handle : Block A → Chain A S → Option (Bool × Chain A S)) (x : X)
      → ((b : Block A) (c : Chain A S) → Same x c → Ends (λ r. Same x r.1) (handle b c))
      → (bs : List (Block A)) (c : Chain A S) → Same x c
      → Ends (Same x) (handle_all handle bs c)
  unfolding handle_all
  handle_all-keeps handle x each [] c same = same
  handle_all-keeps handle x each (b ∷ bs) c same =
      Ends-bind _ _ (handle b c) _ (each b c same)
        (λ r kept. handle_all-keeps handle x each bs r.1 kept)

  pub handle_block-keeps :
      (fuel : ℕ) (x : X) (b : Block A) (c : Chain A S)
      → Same x c
      → Ends (λ r. Same x r.1) (handle_block confirm unconfirm fuel b c)
  unfolding handle_block
  handle_block-keeps zero x b c same = tt
  handle_block-keeps (suc fuel) x b c same =
      let c₁ = record c {
        blockchain = vec_set no_block c.blockchain b.id b;
        pending_blocks = grow [] c.pending_blocks (b.id + 1);
      } in
      Ends-if _ (satisfies c.blockchain b.id (λ k. k.id == b.id)) _ _ same (
        Ends-if _ (satisfies c₁.blockchain b.parent is_unhandled) _ _
          (Ends-bind _ _ (postpone b c₁) _ (postpone-keeps b c₁ x same) (λ c₂ kept. kept))
          (Ends-bind _ _ (attach confirm unconfirm b c₁) _ (attach-keeps b c₁ x same) (λ r kept.
            Ends-bind _ _ (handle_all (handle_block confirm unconfirm fuel) r.0 r.1) _
              (handle_all-keeps (handle_block confirm unconfirm fuel) x (handle_block-keeps fuel x)
                r.0 r.1 kept)
              (λ c₃ kept'. kept'))))
