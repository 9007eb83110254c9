-- ===== src/Graph/Erdos.antt =====
-- What gen_conn_erdos of include/graph_gen.hpp returns.
use native.Mathlib.Decide.{dec_lt}
use distributedsim.Base.{
  ℕ, zero, suc, ◌+◌, ◌-◌, ◌*◌, ◌^◌, ◌≤◌, ◌<◌, ◌≡◌, ◌⊎◌, refl, ap, ◌∙◌, inl, inr, some, List, [],
  ◌∷◌, ◌++◌, map, ltb, ltb→le, if◌then◌else◌, Bool-cases, All, All-append, All-mono, All-intro,
  length, arith,
}
use distributedsim.Rng.{Xoroshiro, sort, get_distinct_below}
use distributedsim.Rng.State.{IsWide}
use distributedsim.Rng.Sort.{IsSortedFrom, sort-IsSortedFrom, length-sort}
use distributedsim.Rng.Distinct.{get_distinct-drawn}
use distributedsim.Rng.Whole.{range_from, get_distinct-whole}
use distributedsim.Graph.{edge_of, numbers, gen_conn_erdos}
use distributedsim.Graph.Number.{
  IsRoot, triangle, half_product, triangle_mono, row_of, edge_of-triangle, small_triangle,
}
use distributedsim.Graph.Tree.{IsClimbing, tree_edges-IsClimbing}
use distributedsim.Graph.Joined.{Descends, Climbs, climbing-joined, joined-append_left}

pub range_from-All : (lo count : ℕ) → All (λ e. e < lo + count) (range_from lo count)
range_from-All lo zero = tt
range_from-All lo (suc count) = (
  omega arith,
  All-mono _ (range_from (lo + 1) count) (λ e h. omega arith) (range_from-All (lo + 1) count),
)

pub length-range_from : (lo count : ℕ) → length (range_from lo count) ≡ count
length-range_from lo zero = refl
length-range_from lo (suc count) = ap suc (length-range_from (lo + 1) count)

-- get_distinct returns numbers of its range in both of its cases: as many as are asked for, or all.
pub get_distinct-All :
    {g : Xoroshiro} (amount upper : ℕ) (excluded : List ℕ)
    → IsWide g
    → IsSortedFrom 0 excluded
    → upper < 2 ^ 64
    → amount + length excluded < 2 ^ 64
    → (ans : List ℕ) × (g' : Xoroshiro) × (get_distinct_below g amount upper excluded
        ≡ some (ans, g'))
      × IsWide g'
      × All (λ e. e < upper) ans
      × (length ans ≤ amount + length excluded)
      × ((amount ≤ length ans) ⊎ (upper ≤ length ans))
unfolding get_distinct_below
get_distinct-All {g} amount upper excluded wide sorted small word =
    elim (dec_lt (amount + 0 + length excluded) upper) [
      | yes room ↦
          let (ans, g', e, wide', spreads) =
            get_distinct-drawn amount 0 upper excluded wide sorted room small in
          (
            ans,
            g',
            e,
            wide',
            All-mono _ ans (λ x h. omega arith) spreads.2,
            omega (arith, spreads.0),
            inl (omega (arith, spreads.0)),
          )
      | no few ↦ (
        range_from 0 (upper - 0),
        g,
        get_distinct-whole g amount 0 upper excluded (omega arith) (omega arith),
        wide,
        All-mono _ (range_from 0 (upper - 0)) (λ x h. omega arith) (range_from-All 0 (upper - 0)),
        omega (arith, length-range_from 0 (upper - 0)),
        inr (omega (arith, length-range_from 0 (upper - 0))),
      )
    ]

-- The edge of a number below those of all edges among `n` nodes.
edge_of-Descends :
    (root : ℕ → ℕ) (n e : ℕ)
    → IsRoot root
    → triangle n < 2 ^ 49
    → e < triangle n
    → ((edge_of root e).1 < (edge_of root e).0) × ((edge_of root e).0 < n)
edge_of-Descends root n e is_root word h =
    let r = root (2 * (e + 1)) in
    let (same, above, below) = row_of root e is_root (omega arith) in
    rw (edge_of-triangle root e is_root (omega arith)) (
      omega arith,
      elim (dec_lt r n) [
        | yes less ↦ less
        | no more ↦ absurd (omega (arith, triangle_mono n r (omega arith)))
      ],
    )

pub map-Descends :
    (root : ℕ → ℕ) (n : ℕ) (es : List ℕ)
    → IsRoot root
    → triangle n < 2 ^ 49
    → All (λ e. e < triangle n) es
    → Descends n (map (edge_of root) es)
map-Descends root n [] is_root word h = tt
map-Descends root n (e ∷ es) is_root word h =
    (edge_of-Descends root n e is_root word h.0, map-Descends root n es is_root word h.1)

climbing-Descends :
    (count i n : ℕ) (es : List (ℕ × ℕ)) → i + count ≤ n → IsClimbing count i es → Descends n es
climbing-Descends zero i n es h c = rw c tt
climbing-Descends (suc count) i n [] h c = absurd c
climbing-Descends (suc count) i n ((a, b) ∷ es) h (same, less, c) =
    ((omega arith, omega arith), climbing-Descends count (i + 1) n es (omega arith) c)

pub length-climbing : (count i : ℕ) (es : List (ℕ × ℕ)) → IsClimbing count i es → length es ≡ count
length-climbing zero i es c = rw c refl
length-climbing (suc count) i [] c = absurd c
length-climbing (suc count) i ((a, b) ∷ es) (same, less, c) =
    ap suc (length-climbing count (i + 1) es c)

pub length-numbers : (es : List (ℕ × ℕ)) → length (numbers es) ≡ length es
unfolding numbers
length-numbers [] = refl
length-numbers ((a, b) ∷ es) = ap suc (length-numbers es)

-- The number of edges that are asked for, which is not less than a tree has.
abbrev pub raised : ℕ → ℕ → ℕ
raised n m = if ltb (m + 1) n then n - 1 else m

pub raised_bounds :
    (n m : ℕ) → 0 < n → n ≤ 2 ^ 25 → m < 2 ^ 31 → (n ≤ raised n m + 1) × (raised n m < 2 ^ 31)
raised_bounds n m pos hn hm = elim (Bool-cases (ltb (m + 1) n)) [
  | inl less ↦ rw less (omega arith, omega arith)
  | inr more ↦ rw more (omega (arith, ltb→le (m + 1) n more), hm)
]

module _ {g : Xoroshiro} (root : ℕ → ℕ) (n m : ℕ) (is_root : IsRoot root) (wide : IsWide g)
    (pos : 0 < n) (small : n ≤ 2 ^ 25) (few : m < 2 ^ 31) where
  -- The edges of the tree, then those that are drawn.
  unfoldable pub Parts : List (ℕ × ℕ) → Xoroshiro → Type 0
  Parts es g' =
      (tree : List (ℕ × ℕ)) × (g1 : Xoroshiro) × (drawn : List ℕ) × (es
        ≡ tree ++ map (edge_of root) drawn)
      × IsWide g1
      × IsClimbing (n - 1) 1 tree
      × (get_distinct_below g1 (raised n m + 1 - n) (triangle n) (sort (numbers tree))
          ≡ some (drawn, g'))
      × All (λ e. e < triangle n) drawn

  pub erdos-Parts :
      (es : List (ℕ × ℕ)) × (g' : Xoroshiro) × (gen_conn_erdos root g n m ≡ some (es, g'))
      × IsWide g'
      × Parts es g'
  unfolding gen_conn_erdos Parts
  erdos-Parts =
      let (tree, g1, e1, wide1, climbs) =
        tree_edges-IsClimbing {g = g} (n - 1) 1 wide (omega arith) (omega arith) in
      let bounds = raised_bounds n m pos small few in
      let sorted =
        sort-IsSortedFrom 0 (numbers tree) (All-intro _ (numbers tree) (λ x. omega arith)) in
      let many : length (sort (numbers tree)) ≡ n - 1 =
        length-sort (numbers tree)
        ∙ (length-numbers tree ∙ length-climbing (n - 1) 1 tree climbs) in
      let (drawn, g2, e2, wide2, below, _, _) =
        get_distinct-All {g = g1} (raised n m + 1 - n) (triangle n) (sort (numbers tree)) wide1
          sorted (omega (arith, small_triangle n small)) (omega (arith, many)) in
      (
        tree ++ map (edge_of root) drawn,
        g2,
        rw (e1, half_product n, e2) refl,
        wide2,
        (tree, g1, drawn, refl, wide1, climbs, e2, below),
      )

  -- For up to 2 ^ 25 nodes and any number of edges, gen_conn_erdos returns edges from nodes of the graph to smaller
  -- ones, and every node but the first has one.
  pub gen_conn_erdos-Climbs :
      (es : List (ℕ × ℕ)) × (g' : Xoroshiro) × (gen_conn_erdos root g n m ≡ some (es, g'))
      × IsWide g'
      × Descends n es
      × Climbs n es
  unfolding Parts
  gen_conn_erdos-Climbs =
      let (es, g', e, wide', (tree, g1, drawn, same, wide1, climbs, e2, below)) = erdos-Parts in
      (
        es,
        g',
        e,
        wide',
        rw same (
            All-append _ tree (map (edge_of root) drawn)
              (climbing-Descends (n - 1) 1 n tree (omega arith) climbs)
              (map-Descends root n drawn is_root (small_triangle n small) below)),
        λ i lo hi.
            (let (j, less, there) = climbing-joined (n - 1) 1 tree climbs i lo (omega arith) in
              (j, less, rw same (joined-append_left i j tree (map (edge_of root) drawn) there))),
      )
