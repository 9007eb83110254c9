-- ===== src/Graph/Joined.antt =====
-- Lists of edges, as include/graph_gen.hpp makes them: which nodes they join.
use distributedsim.Base.{
  ℕ, zero, suc, ◌+◌, ◌≤◌, ◌<◌, ◌≡◌, refl, Bool, true, false, ◌||◌, ◌&&◌, List, [], ◌∷◌, ◌++◌, ◌==◌,
  ==_refl, All, All-mono, arith,
}
use distributedsim.Graph.Tree.{IsClimbing}
use native.Mathlib.Decide.{ℕ_discrete}

-- Whether an edge of the list joins the two nodes, in either direction.
unfoldable pub joined : ℕ → ℕ → List (ℕ × ℕ) → Bool
joined a b [] = false
joined a b ((c, d) ∷ es) = ((c == a) && (d == b)) || (((c == b) && (d == a)) || joined a b es)

abbrev pub Below : ℕ → List (ℕ × ℕ) → Type 0
Below n es = All (λ e. (e.0 < n) × (e.1 < n)) es

-- Every edge leads from a node below `n` to a smaller one.
abbrev pub Descends : ℕ → List (ℕ × ℕ) → Type 0
Descends n es = All (λ e. (e.1 < e.0) × (e.0 < n)) es

-- Every node below `n` but the first has an edge to a smaller one.
abbrev pub Climbs : ℕ → List (ℕ × ℕ) → Type 0
Climbs n es = (i : ℕ) → 0 < i → i < n → (j : ℕ) × (j < i) × (joined i j es ≡ true)

pub Descends-Below : (n : ℕ) (es : List (ℕ × ℕ)) → Descends n es → Below n es
Descends-Below n es h = All-mono _ es (λ e k. (k.1, omega arith)) h

pub joined_here : (a b : ℕ) (es : List (ℕ × ℕ)) → joined a b ((a, b) ∷ es) ≡ true
unfolding joined
joined_here a b es = rw (==_refl a, ==_refl b) refl

pub joined_there :
    (a b : ℕ) (e : ℕ × ℕ) (es : List (ℕ × ℕ)) → joined a b es ≡ true → joined a b (e ∷ es) ≡ true
unfolding joined
joined_there a b (c, d) es h = rw h (or_true ((c == a) && (d == b)) ((c == b) && (d == a)))
  where
    or_true : (x y : Bool) → (x || (y || true)) ≡ true
    or_true true y = refl
    or_true false true = refl
    or_true false false = refl

pub joined-append_left :
    (a b : ℕ) (es fs : List (ℕ × ℕ)) → joined a b es ≡ true → joined a b (es ++ fs) ≡ true
unfolding joined
joined-append_left a b [] fs h = cc
joined-append_left a b ((c, d) ∷ es) fs h = ground (arith, joined-append_left a b es fs)

pub joined-append_right :
    (a b : ℕ) (es fs : List (ℕ × ℕ)) → joined a b fs ≡ true → joined a b (es ++ fs) ≡ true
joined-append_right a b [] fs h = h
joined-append_right a b (e ∷ es) fs h =
    joined_there a b e (es ++ fs) (joined-append_right a b es fs h)

-- The edges are undirected.
pub joined_symm : (a b : ℕ) (es : List (ℕ × ℕ)) → joined a b es ≡ joined b a es
unfolding joined
joined_symm a b [] = refl
joined_symm a b ((c, d) ∷ es) =
    rw (joined_symm a b es) (exchange ((c == a) && (d == b)) ((c == b) && (d == a)) (joined b a es))
  where
    exchange : (x y z : Bool) → (x || (y || z)) ≡ (y || (x || z))
    exchange true true z = refl
    exchange true false z = refl
    exchange false true z = refl
    exchange false false z = refl

pub climbing-joined :
    (count from : ℕ) (es : List (ℕ × ℕ))
    → IsClimbing count from es
    → (i : ℕ) → from ≤ i
    → i < from + count
    → (j : ℕ) × (j < i) × (joined i j es ≡ true)
climbing-joined zero from es c i lo hi = absurd (omega arith)
climbing-joined (suc count) from [] c i lo hi = absurd c
climbing-joined (suc count) from ((a, b) ∷ es) (same, less, c) i lo hi = elim (ℕ_discrete i from) [
  | yes e ↦ (b, omega arith, (let both : a ≡ i = omega arith in rw both (joined_here i b es)))
  | no n ↦
      let (j, below, there) = climbing-joined count (from + 1) es c i (omega arith) (omega arith) in
      (j, below, joined_there i j (a, b) es there)
]
