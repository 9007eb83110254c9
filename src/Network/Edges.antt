-- ===== src/Network/Edges.antt =====
-- include/graph_hwm.hpp: what add_edge does, from what the sets of neighbours promise.
use distributedsim.Base.{
  get-some, get-set, get-set_other, some_injective, ℕ, ◌≤◌, ◌<◌, ◌≡◌, ◌≢◌, ◌⊎◌, refl, sym, ◌∙◌,
  subst, inl, inr, Bool, true, false, Option, none, some, List, leb, ◌>>=◌, le→leb, leb→le,
  Bool-cases, length, length-set, get_elem?, set, arith,
}
use native.Mathlib.Decide.{ℕ_discrete}
use distributedsim.Network.{KeySet, Network, link, add_edge}

-- What a set promises for the keys of a kind: an insertion succeeds, and count finds the new key and
-- otherwise what it found before.
pub record SetLaws {S : Type 0} (sets : KeySet S) : Type 1 where
  pub IsWell : S → Type 0
  pub IsKey : ℕ → Type 0
  pub empty_IsWell : IsWell sets.empty
  pub count_empty : (k : ℕ) → IsKey k → sets.count k sets.empty ≡ some false
  pub insert_law :
      (k : ℕ) (s : S)
      → IsKey k
      → IsWell s
      → (s' : S) × (sets.insert k s ≡ some s')
        × IsWell s'
        × (sets.count k s' ≡ some true)
        × ((y : ℕ) → IsKey y → y ≢ k → sets.count y s' ≡ sets.count y s)

lt_leb : (a n : ℕ) → a < n → leb n a ≡ false
lt_leb a n h = elim (Bool-cases (leb n a)) [
  | inl e ↦ absurd (omega (arith, h, leb→le n a e))
  | inr e ↦ e
]

module _ {S : Type 0} where
  -- A predicate of every set in the graph, by its node.
  unfoldable pub Each : (S → Type 0) → List S → Type 0
  Each P graph = (i : ℕ) (s : S) → get_elem? graph i ≡ some s → P s

module _ {S : Type 0} (sets : KeySet S) (laws : SetLaws sets) where
  -- Whether the graph has the edge from `c` to `d`.
  abbrev pub edge : List S → ℕ → ℕ → Option Bool
  edge graph c d = do s ← get_elem? graph c; sets.count d s

  -- The graph after `graph[a].insert(b)`.
  pub record IsLinked (a b : ℕ) (graph graph' : List S) : Type 0 where
    pub long : length graph' ≡ length graph
    pub well : Each laws.IsWell graph'
    pub new : edge graph' a b ≡ some true
    pub kept : (c d : ℕ) → laws.IsKey d → (c ≢ a) ⊎ (d ≢ b) → edge graph' c d ≡ edge graph c d

  well_after :
      (a b : ℕ) (graph : List S)
      → a < length graph
      → Each laws.IsWell graph
      → (s' : S) → laws.IsWell s'
      → Each laws.IsWell (set graph a s')
  unfolding Each
  well_after a b graph h well s' well' i x e = elim (ℕ_discrete a i) [
    | yes same ↦
        let at_a : get_elem? (set graph a s') i ≡ some s' = rw (sym same) (get-set graph a s' h) in
        subst laws.IsWell (some_injective s' x (sym at_a ∙ e)) well'
    | no n ↦ well i x (sym (get-set_other graph a i s' n) ∙ e)
  ]

  kept_after :
      (a b : ℕ) (graph : List S)
      → a < length graph
      → (s s' : S) → get_elem? graph a ≡ some s
      → ((y : ℕ) → laws.IsKey y → y ≢ b → sets.count y s' ≡ sets.count y s)
      → (c d : ℕ) → laws.IsKey d
      → (c ≢ a) ⊎ (d ≢ b)
      → edge (set graph a s') c d ≡ edge graph c d
  kept_after a b graph h s s' e other c d known apart = elim (ℕ_discrete a c) [
    | no n ↦ rw (get-set_other graph a c s' n) refl
    | yes same ↦ elim apart [
      | inl n ↦ absurd (n (sym same))
      | inr n ↦ rw (sym same, get-set graph a s' h, e) (other d known n)
    ]
  ]

  link-IsLinked :
      (a b : ℕ) (graph : List S)
      → a < length graph
      → laws.IsKey b
      → Each laws.IsWell graph
      → (graph' : List S) × (link sets a b graph ≡ some graph') × IsLinked a b graph graph'
  unfolding link Each
  link-IsLinked a b graph h key well =
      let (s, e) = get-some graph a h in
      let (s', e', well', new, other) = laws.insert_law b s key (well a s e) in
      (
        set graph a s',
        rw (e, e') refl,
        record {
          long = length-set graph a s';
          well = well_after a b graph h well s' well';
          new = rw (get-set graph a s' h) new;
          kept = kept_after a b graph h s s' e other;
        },
      )

  -- The pairs that an undirected edge links, and the graph afterwards.
  pub record IsJoined (a b : ℕ) (graph graph' : List S) : Type 0 where
    pub long : length graph' ≡ length graph
    pub well : Each laws.IsWell graph'
    pub there : edge graph' a b ≡ some true
    pub back : edge graph' b a ≡ some true
    pub kept :
        (c d : ℕ)
        → laws.IsKey d
        → (c ≢ a) ⊎ (d ≢ b)
        → (c ≢ b) ⊎ (d ≢ a)
        → edge graph' c d ≡ edge graph c d

  join-IsJoined :
      (a b : ℕ) (graph one two : List S)
      → laws.IsKey b
      → IsLinked a b graph one
      → IsLinked b a one two
      → IsJoined a b graph two
  join-IsJoined a b graph one two key first second = record {
    long = second.long ∙ first.long;
    well = second.well;
    there = elim (ℕ_discrete a b) [
      | yes same ↦
          subst (λ x. edge two x b ≡ some true) (sym same)
            (subst (λ x. edge two b x ≡ some true) same second.new)
      | no n ↦ second.kept a b key (inl n) ∙ first.new
    ];
    back = second.new;
    kept = λ c d known h k. second.kept c d known k ∙ first.kept c d known h;
  }

  module _ {N : Type 0} (net : Network N S) (a b : ℕ) where
    -- With sets that keep their promise, add_edge between two nodes of an undirected graph succeeds:
    -- afterwards each of the two can send to the other, every other pair can send exactly if it could
    -- before, no node is added, and the sets still keep their promise.
    pub add_edge-IsJoined :
        a < length net.graph
        → b < length net.graph
        → laws.IsKey a
        → laws.IsKey b
        → Each laws.IsWell net.graph
        → (net' : Network N S) × (add_edge sets false a b net ≡ some net')
          × IsJoined a b net.graph net'.graph
    unfolding add_edge
    add_edge-IsJoined ha hb ka kb well =
        let (one, e1, first) = link-IsLinked a b net.graph ha kb well in
        let (two, e2, second) = link-IsLinked b a one (omega (arith, first.long)) ka first.well in
        let below = lt_leb a (length net.graph) ha in
        let below' = lt_leb b (length net.graph) hb in
        (
          record net { graph = two },
          rw (below, below', e1, e2) refl,
          join-IsJoined a b net.graph one two kb first second,
        )

    -- With sets that keep their promise, add_edge in a directed graph lets the first node send to the
    -- second and changes nothing for any other pair.
    pub add_edge-IsLinked :
        a < length net.graph
        → b < length net.graph
        → laws.IsKey b
        → Each laws.IsWell net.graph
        → (net' : Network N S) × (add_edge sets true a b net ≡ some net')
          × IsLinked a b net.graph net'.graph
    unfolding add_edge
    add_edge-IsLinked ha hb kb well =
        let (one, e1, first) = link-IsLinked a b net.graph ha kb well in
        let below = lt_leb a (length net.graph) ha in
        let below' = lt_leb b (length net.graph) hb in
        (record net { graph = one }, rw (below, below', e1) refl, first)

    -- An edge to or from a node that is not there is refused, in directed graphs and in others.
    pub add_edge-none :
        (directed : Bool)
        → (length net.graph ≤ a) ⊎ (length net.graph ≤ b)
        → add_edge sets directed a b net ≡ none
    unfolding add_edge
    add_edge-none directed (inl h) = rw (le→leb (length net.graph) a h) refl
    add_edge-none directed (inr h) = elim (Bool-cases (leb (length net.graph) a)) [
      | inl e ↦ rw e refl
      | inr n ↦ rw (n, le→leb (length net.graph) b h) refl
    ]
