-- ===== src/Graph/Grown.antt =====
-- What gen_barabasi_albert of include/graph_gen.hpp returns.
use native.Mathlib.Decide.{dec_lt}
use native.Mathlib.Nat.{mul-suc}
use distributedsim.Base.{
  ℕ, zero, suc, ◌+◌, ◌-◌, ◌*◌, ◌^◌, ◌≤◌, ◌<◌, ◌≡◌, refl, ap, inl, inr, true, Bool-cases, ◌==◌, some,
  List, [], ◌∷◌, ◌++◌, map, All, All-append, All-mono, length, length-append, get_elem?, get-some,
  some_injective, subst, arith,
}
use distributedsim.Rng.{Xoroshiro, sort}
use distributedsim.Rng.State.{IsWide}
use distributedsim.Rng.Sort.{length-sort, sort-All}
use distributedsim.Graph.Joined.{
  joined, Descends, Climbs, joined_here, joined-append_left, joined-append_right,
}
use distributedsim.Graph.Preferential.{
  ends_of, unique, grow_graph, grow_graphs, gen_barabasi_albert,
}
use distributedsim.Graph.Erdos.{get_distinct-All}

All-get :
    {A : Type 0} (P : A → Type 0) (xs : List A) (i : ℕ) (x : A)
    → All P xs
    → get_elem? xs i ≡ some x
    → P x
All-get P [] i x h e = cc
All-get P (y ∷ xs) zero x h e = subst P (some_injective y x e) h.0
All-get P (y ∷ xs) (suc i) x h e = All-get P xs i x h.1 e

-- Both ends of edges that are there.
ends_of-All :
    (n : ℕ) (es : List (ℕ × ℕ)) (ids : List ℕ)
    → Descends n es
    → All (λ e. e < length es) ids
    → (neighs : List ℕ) × (ends_of es ids ≡ some neighs)
      × All (λ v. v < n) neighs
      × (length neighs ≡ 2 * length ids)
unfolding ends_of
ends_of-All n es [] down below = ([], refl, tt, refl)
ends_of-All n es (idx ∷ ids) down below =
    let (p, e) = get-some es idx below.0 in
    let (neighs, rest, all, len) = ends_of-All n es ids down below.1 in
    let ends = All-get _ es idx p down e in
    (p.0 ∷ p.1 ∷ neighs, rw (e, rest) refl, (ends.1, (omega arith, all)), omega arith)

unique-All : (P : ℕ → Type 0) (xs : List ℕ) → All P xs → All P (unique xs)
unfolding unique
unique-All P [] h = tt
unique-All P (x ∷ []) h = h
unique-All P (x ∷ y ∷ ys) h = elim (Bool-cases (x == y)) [
  | inl e ↦ rw e (unique-All P (y ∷ ys) h.1)
  | inr n ↦ rw n (h.0, unique-All P (y ∷ ys) h.1)
]

unique_bounds :
    (xs : List ℕ) → (length (unique xs) ≤ length xs) × (0 < length xs → 0 < length (unique xs))
unfolding unique
unique_bounds [] = (omega arith, λ h. h)
unique_bounds (x ∷ []) = (omega arith, λ h. h)
unique_bounds (x ∷ y ∷ ys) =
    let (shorter, some_left) = unique_bounds (y ∷ ys) in
    elim (Bool-cases (x == y)) [
      | inl e ↦ rw e (omega arith, λ h. some_left (omega arith))
      | inr n ↦ rw n (omega arith, λ h. omega arith)
    ]

module _ (i : ℕ) where
  edges_to-Descends : (vs : List ℕ) → All (λ v. v < i) vs → Descends (i + 1) (map (λ v. (i, v)) vs)
  edges_to-Descends [] h = tt
  edges_to-Descends (v ∷ vs) h = ((h.0, omega arith), edges_to-Descends vs h.1)

  edges_to-joined :
      (vs : List ℕ)
      → All (λ v. v < i) vs
      → 0 < length vs
      → (j : ℕ) × (j < i) × (joined i j (map (λ v. (i, v)) vs) ≡ true)
  edges_to-joined [] h pos = absurd (omega arith)
  edges_to-joined (v ∷ vs) h pos = (v, h.0, joined_here i v (map (λ w. (i, w)) vs))

  length-edges_to : (vs : List ℕ) → length {A = ℕ × ℕ} (map (λ v. (i, v)) vs) ≡ length vs
  length-edges_to [] = refl
  length-edges_to (v ∷ vs) = ap suc (length-edges_to vs)

-- The edges of a graph with the nodes below `n`, of which there is one.
pub record IsGraph (n : ℕ) (es : List (ℕ × ℕ)) : Type 0 where
  pub some_edge : 0 < length es
  pub down : Descends n es
  pub climbs : Climbs n es

grow_graph-IsGraph :
    {g : Xoroshiro} (k i : ℕ) (es : List (ℕ × ℕ))
    → IsWide g
    → 0 < k
    → k < 2 ^ 64
    → length es < 2 ^ 64
    → IsGraph i es
    → (es' : List (ℕ × ℕ)) × (g' : Xoroshiro) × (grow_graph k i es g ≡ some (es', g'))
      × IsWide g'
      × (length es' ≤ length es + 2 * k)
      × IsGraph (i + 1) es'
unfolding grow_graph
grow_graph-IsGraph {g} k i es wide pos word short ok =
    let (ids, g', e, wide', below, most, least) =
      get_distinct-All {g = g} k (length es) [] wide tt short (omega arith) in
    let (neighs, e', all, twice) = ends_of-All i es ids ok.down below in
    let vs = unique (sort neighs) in
    let vs_below : All (λ v. v < i) vs = unique-All _ (sort neighs) (sort-All _ neighs all) in
    let (fewer, some_left) = unique_bounds (sort neighs) in
    let some_edge = ok.some_edge in
    let some_id : 0 < length ids = omega arith in
    let some_vs : 0 < length vs = some_left (omega (arith, length-sort neighs)) in
    let longer = length-append es (map (λ v. (i, v)) vs) in
    let new = length-edges_to i vs in
    (
      es ++ map (λ v. (i, v)) vs,
      g',
      rw (e, e') refl,
      wide',
      omega (arith, length-sort neighs),
      record {
        some_edge = omega arith;
        down =
            All-append _ es (map (λ v. (i, v)) vs)
              (All-mono _ es (λ x h. (h.0, omega arith)) ok.down) (edges_to-Descends i vs vs_below);
        climbs = λ a lo hi. elim (dec_lt a i) [
          | yes old ↦
              let (j, less, there) = ok.climbs a lo old in
              (j, less, joined-append_left a j es (map (λ v. (i, v)) vs) there)
          | no n ↦
              let same : a ≡ i = omega arith in
              let (j, less, there) = edges_to-joined i vs vs_below some_vs in
              rw same (j, less, joined-append_right i j es (map (λ v. (i, v)) vs) there)
        ];
      },
    )

grow_graphs-IsGraph :
    {g : Xoroshiro} (count k i : ℕ) (es : List (ℕ × ℕ))
    → IsWide g
    → 0 < k
    → k < 2 ^ 64
    → length es + 2 * k * count < 2 ^ 64
    → IsGraph i es
    → (es' : List (ℕ × ℕ)) × (g' : Xoroshiro) × (grow_graphs count k i es g ≡ some (es', g'))
      × IsWide g'
      × IsGraph (i + count) es'
unfolding grow_graphs
grow_graphs-IsGraph {g} zero k i es wide pos word short ok =
    (es, g, refl, wide, subst (λ n. IsGraph n es) (omega arith) ok)
grow_graphs-IsGraph {g} (suc count) k i es wide pos word short ok =
    let step = mul-suc (2 * k) count in
    let (es1, g1, e1, wide1, longer, ok1) =
      grow_graph-IsGraph {g = g} k i es wide pos word (omega arith) ok in
    let (es', g', e, wide', ok') =
      grow_graphs-IsGraph {g = g1} count k (i + 1) es1 wide1 pos word (omega arith) ok1 in
    (es', g', rw e1 e, wide', subst (λ n. IsGraph n es') (omega arith) ok')

-- For at least two nodes and one edge for each, gen_barabasi_albert returns edges from nodes of the graph
-- to smaller ones, and every node but the first has one.
pub gen_barabasi_albert-Climbs :
    {g : Xoroshiro} (n k : ℕ)
    → IsWide g
    → 2 ≤ n
    → n < 2 ^ 31
    → 0 < k
    → k < 2 ^ 31
    → (es : List (ℕ × ℕ)) × (g' : Xoroshiro) × (gen_barabasi_albert g n k ≡ some (es, g'))
      × IsWide g'
      × Descends n es
      × Climbs n es
unfolding gen_barabasi_albert
gen_barabasi_albert-Climbs {g} n k wide two small pos word =
    let product : 2 * k * (n - 2) ≤ 2 ^ 32 * (n - 2) = grind arith in
    let start : IsGraph 2 ((1, 0) ∷ []) = record {
      some_edge = omega arith;
      down = ((omega arith, omega arith), tt);
      climbs = λ i lo hi. (0, lo, (let one : i ≡ 1 = omega arith in rw one (joined_here 1 0 [])));
    } in
    let (es, g', e, wide', ok) =
      grow_graphs-IsGraph {g = g} (n - 2) k 2 ((1, 0) ∷ []) wide pos (omega arith) (omega arith)
        start in
    let all : 2 + (n - 2) ≡ n = omega arith in
    (
      es,
      g',
      e,
      wide',
      subst (λ m. Descends m es) all ok.down,
      subst (λ m. Climbs m es) all ok.climbs,
    )
