-- ===== src/Experiment/Drawn.antt =====
-- The graph that examples/tinycoin/main.cpp makes from a list of edges: the loops that add the nodes and
-- the edges to a GraphHardwareManager.
use native.Mathlib.Decide.{dec_lt}
use distributedsim.Base.{
  ℕ, zero, suc, ◌+◌, ◌<◌, ◌≡◌, ◌≢◌, ◌⊎◌, refl, sym, ap, subst, ◌∙◌, inl, inr, Bool, true, false,
  ◌||◌, ◌&&◌, Option, some, List, [], ◌∷◌, ◌++◌, ◌==◌, ==_iff, ==_ne, Bool-cases, length,
  some_injective, length-append, get_elem?, arith,
}
use distributedsim.Graph.Joined.{joined, Below}
use distributedsim.Network.{KeySet, Network, add_node, add_edge}
use distributedsim.Network.Edges.{SetLaws, Each, edge, add_edge-IsJoined}
use distributedsim.Rng.{Xoroshiro}
use distributedsim.Experiment.Setup.{Role}
use distributedsim.Experiment.Program.{Library, add_roles, add_edges}

-- The test for one direction of an edge.
pair_cases :
    (c d a b : ℕ)
    → ((((c == a) && (d == b)) ≡ true) × (c ≡ a) × (d ≡ b))
      ⊎ ((((c == a) && (d == b)) ≡ false) × ((a ≢ c) ⊎ (b ≢ d)))
pair_cases c d a b = elim (Bool-cases (c == a)) [
  | inr f ↦ inr (rw f refl, inl (λ e. ==_ne c a f (sym e)))
  | inl p ↦ elim (Bool-cases (d == b)) [
    | inr f ↦ inr (rw (p, f) refl, inr (λ e. ==_ne d b f (sym e)))
    | inl q ↦ inl (rw (p, q) refl, (==_iff c a).0 p, (==_iff d b).0 q)
  ]
]

swap_apart : {a b c d : ℕ} → (b ≢ c) ⊎ (a ≢ d) → (a ≢ d) ⊎ (b ≢ c)
swap_apart (inl h) = inr h
swap_apart (inr h) = inl h

regroup : (x y j p : Bool) → (j || (x || (y || p))) ≡ ((x || (y || j)) || p)
regroup true y j p = ground arith
regroup false true j p = ground arith
regroup false false j p = refl

get-append :
    {A : Type 0} (xs : List A) (x : A) (i : ℕ)
    → i < length xs
    → get_elem? (xs ++ x ∷ []) i ≡ get_elem? xs i
get-append [] x i h = absurd (omega arith)
get-append (z ∷ xs) x zero h = refl
get-append (z ∷ xs) x (suc i) h = get-append xs x i (omega arith)

get-append_here : {A : Type 0} (xs : List A) (x : A) → get_elem? (xs ++ x ∷ []) (length xs) ≡ some x
get-append_here [] x = refl
get-append_here (z ∷ xs) x = get-append_here xs x

get-append_last :
    {A : Type 0} (xs : List A) (x y : A) (i : ℕ)
    → get_elem? (xs ++ x ∷ []) i ≡ some y
    → (get_elem? xs i ≡ some y) ⊎ (x ≡ y)
get-append_last [] x y zero e = inr (some_injective x y e)
get-append_last [] x y (suc i) e = cc
get-append_last (z ∷ xs) x y zero e = inl e
get-append_last (z ∷ xs) x y (suc i) e = get-append_last xs x y i e

module _ {S : Type 0} (sets : KeySet S) (laws : SetLaws sets) where
  -- A graph of `n` nodes whose edges are told by `P`.
  pub record IsDrawn (n : ℕ) (P : ℕ → ℕ → Bool) (graph : List S) : Type 0 where
    pub long : length graph ≡ n
    pub well : Each laws.IsWell graph
    pub drawn : (a b : ℕ) → a < n → laws.IsKey b → edge sets laws graph a b ≡ some (P a b)

  add_node-IsDrawn :
      {N : Type 0} (n : ℕ) (make : ℕ → N) (net : Network N S)
      → IsDrawn n (λ a b. false) net.graph
      → IsDrawn (n + 1) (λ a b. false) (add_node sets make net).graph
  unfolding add_node Each
  add_node-IsDrawn n make net drawn = record {
    long = omega (arith, length-append net.graph (sets.empty ∷ []), drawn.long);
    well = λ i s e. elim (get-append_last net.graph sets.empty s i e) [
      | inl old ↦ drawn.well i s old
      | inr new ↦ subst laws.IsWell new laws.empty_IsWell
    ];
    drawn = λ a b ha kb. elim (dec_lt a n) [
      | yes old ↦
          rw (get-append net.graph sets.empty a (omega (arith, drawn.long)))
            (drawn.drawn a b old kb)
      | no n_first ↦
          let here : a ≡ length net.graph = omega (arith, drawn.long) in
          rw (here, get-append_here net.graph sets.empty) (laws.count_empty b kb)
    ];
  }

  module _ (n : ℕ) (keys : (a : ℕ) → a < n → laws.IsKey a) {N : Type 0} where
    add_edge-IsDrawn :
        (P : ℕ → ℕ → Bool) (net : Network N S) (c d : ℕ)
        → c < n
        → d < n
        → IsDrawn n P net.graph
        → (net' : Network N S) × (add_edge sets false c d net ≡ some net')
          × IsDrawn n
              (λ a b. ((c == a) && (d == b)) || (((c == b) && (d == a)) || P a b))
              net'.graph
    add_edge-IsDrawn P net c d hc hd drawn =
        let (net', e, joined) =
          add_edge-IsJoined sets laws net c d (omega (arith, drawn.long))
            (omega (arith, drawn.long)) (keys c hc) (keys d hd) drawn.well in
        (
          net',
          e,
          record {
            long = joined.long ∙ drawn.long;
            well = joined.well;
            drawn = λ a b ha kb. elim (pair_cases c d a b) [
              | inl (yes_first, p, q) ↦ rw yes_first (
                  subst (λ x. edge sets laws net'.graph x b ≡ some true) p
                    (subst (λ x. edge sets laws net'.graph c x ≡ some true) q joined.there))
              | inr (not_first, apart) ↦ elim (pair_cases c d b a) [
                | inl (yes_second, p, q) ↦
                    rw (not_first, yes_second)
                      (subst (λ x. edge sets laws net'.graph x b ≡ some true) q
                        (subst (λ x. edge sets laws net'.graph d x ≡ some true) p joined.back))
                | inr (not_second, apart') ↦
                    rw (not_first, not_second)
                      (joined.kept a b kb apart (swap_apart apart') ∙ drawn.drawn a b ha kb)
              ]
            ];
          },
        )

    module _ {D : Type 0} (lib : Library D) where
      add_edges-IsDrawn :
          (es : List (ℕ × ℕ)) (P : ℕ → ℕ → Bool) (net : Network N S)
          → Below n es
          → IsDrawn n P net.graph
          → (net' : Network N S) × (add_edges lib sets es net ≡ some net')
            × IsDrawn n (λ a b. joined a b es || P a b) net'.graph
      unfolding add_edges joined
      add_edges-IsDrawn [] P net below drawn = (net, refl, drawn)
      add_edges-IsDrawn ((c, d) ∷ es) P net below drawn =
          let (net1, e1, drawn1) = add_edge-IsDrawn P net c d below.0.0 below.0.1 drawn in
          let (net', e, drawn') =
            add_edges-IsDrawn es
              (λ a b. ((c == a) && (d == b)) || (((c == b) && (d == a)) || P a b)) net1 below.1
              drawn1 in
          (
            net',
            rw e1 e,
            record {
              long = drawn'.long;
              well = drawn'.well;
              drawn = λ a b ha kb.
                  drawn'.drawn a b ha kb ∙ ap some (regroup _ _ (joined a b es) (P a b));
            },
          )

abbrev pub no_network : (N S : Type 0) → Network N S
no_network N S = record { nodes = []; graph = [] }

-- The network that the two loops make.
abbrev pub built :
    {S D N : Type 0}
    → KeySet S
    → Library D
    → (Role → ℕ → Xoroshiro → N × Xoroshiro)
    → List Role
    → Xoroshiro
    → List (ℕ × ℕ)
    → Option (Network N S)
built {S} {D} {N} sets lib make roles g es =
    add_edges lib sets es (add_roles lib sets make roles g (no_network N S)).0

module _ {S : Type 0} (sets : KeySet S) (laws : SetLaws sets) {D : Type 0} (lib : Library D)
    {N : Type 0} (make : Role → ℕ → Xoroshiro → N × Xoroshiro) where
  empty-IsDrawn : IsDrawn sets laws 0 (λ a b. false) (no_network N S).graph
  unfolding Each
  empty-IsDrawn = record {
    long = refl;
    well = λ i s e. cc;
    drawn = λ a b h k. absurd (omega arith);
  }

  add_roles-IsDrawn :
      (roles : List Role) (g : Xoroshiro) (n : ℕ) (net : Network N S)
      → IsDrawn sets laws n (λ a b. false) net.graph
      → IsDrawn sets laws
          (n + length roles)
          (λ a b. false)
          (add_roles lib sets make roles g net).0.graph
  unfolding add_roles
  add_roles-IsDrawn [] g n net drawn =
      subst (λ k. IsDrawn sets laws k (λ a b. false) net.graph) (omega arith) drawn
  add_roles-IsDrawn (role ∷ roles) g n net drawn =
      let node = λ (id : ℕ). (make role id g).0 in
      subst
        (λ k.
          IsDrawn sets laws k (λ a b. false) (add_roles lib sets make (role ∷ roles) g net).0.graph)
        (omega arith)
        (add_roles-IsDrawn roles (make role (length net.graph) g).1 (n + 1) (add_node sets node net)
          (add_node-IsDrawn sets laws n node net drawn))

  pub built-IsDrawn :
      (roles : List Role) (g : Xoroshiro) (es : List (ℕ × ℕ))
      → ((a : ℕ) → a < length roles → laws.IsKey a)
      → Below (length roles) es
      → (net : Network N S) × (built sets lib make roles g es ≡ some net)
        × IsDrawn sets laws (length roles) (λ a b. joined a b es || false) net.graph
  built-IsDrawn roles g es keys below =
      let blank = (add_roles lib sets make roles g (no_network N S)).0 in
      let start =
        subst (λ k. IsDrawn sets laws k (λ a b. false) blank.graph) (omega arith)
          (add_roles-IsDrawn roles g 0 (no_network N S) empty-IsDrawn) in
      add_edges-IsDrawn sets laws (length roles) keys lib es (λ a b. false) blank below start
