-- ===== src/Manager/Neighbours.antt =====
-- include/hardware_manager.hpp: the iteration over the neighbours of a node. `can` stands for
-- can_send, which is virtual; a callback changes a state and says whether to go on.
use distributedsim.Base.{
  ℕ, sym, ◌≡◌, refl, ◌∙◌, inl, inr, Bool, true, false, not, List, [], ◌∷◌, ◌++◌, ◌==◌,
  if◌then◌else◌, Bool-cases, ap,
}

abbrev pub can_send : ℕ → ℕ → Bool
can_send a b = not (a == b)

-- One call of the callback, and then the rest of the loop, `rest`, or not.
abbrev pub go_on {κ} : {S : Type κ} → (S → S) → Bool × S → S
go_on rest (true, s) = rest s
go_on rest (false, s) = s

unfoldable pub iter_neighbours {ℓ κ} :
    {N : Type ℓ} {S : Type κ} → (ℕ → ℕ → Bool) → List (ℕ × N) → ℕ → (ℕ → S → Bool × S) → S → S
iter_neighbours can [] n callback s = s
iter_neighbours can ((k, _) ∷ nodes) n callback s =
    let rest = iter_neighbours can nodes n callback in
    if can n k then go_on rest (callback k s) else rest s

unfoldable pub get_neighbours {ℓ} : {N : Type ℓ} → (ℕ → ℕ → Bool) → List (ℕ × N) → ℕ → List ℕ
unfolding iter_neighbours
get_neighbours can nodes n = iter_neighbours can nodes n (λ neigh ans. (true, ans ++ neigh ∷ [])) []

-- The ids of the nodes that `n` can send to, in their order.
abbrev pub reachable {ℓ} : {N : Type ℓ} → (ℕ → ℕ → Bool) → List (ℕ × N) → ℕ → List ℕ
reachable can [] n = []
reachable can ((k, _) ∷ nodes) n =
    if can n k then k ∷ reachable can nodes n else reachable can nodes n

-- The callback's work on a list of ids: nothing more is done after a call that returns false.
abbrev pub visit {κ} : {S : Type κ} → (ℕ → S → Bool × S) → List ℕ → S → S
visit callback [] s = s
visit callback (k ∷ ks) s =
    let (more, after) = callback k s in if more then visit callback ks after else after

append_nil : (xs : List ℕ) → xs ++ [] ≡ xs
append_nil [] = refl
append_nil (x ∷ xs) = ap (◌∷◌ x) (append_nil xs)

push-append : (xs : List ℕ) (k : ℕ) (ys : List ℕ) → (xs ++ k ∷ []) ++ ys ≡ xs ++ k ∷ ys
push-append [] k ys = refl
push-append (x ∷ xs) k ys = ap (◌∷◌ x) (push-append xs k ys)

go_on-visit {κ} :
    {S : Type κ} {rest then_ : S → S} (r : Bool × S)
    → ((t : S) → rest t ≡ then_ t)
    → go_on rest r ≡ (if r.0 then then_ r.1 else r.1)
go_on-visit (true, t) same = same t
go_on-visit (false, t) same = refl

visit-push : (ks ans : List ℕ) → visit (λ k ans. (true, ans ++ k ∷ [])) ks ans ≡ ans ++ ks
visit-push [] ans = sym (append_nil ans)
visit-push (k ∷ ks) ans = visit-push ks (ans ++ k ∷ []) ∙ push-append ans k ks

iter_neighbours-visit {ℓ κ} :
    {N : Type ℓ} {S : Type κ} (can : ℕ → ℕ → Bool) (nodes : List (ℕ × N)) (n : ℕ)
    (callback : ℕ → S → Bool × S) (s : S)
    → iter_neighbours can nodes n callback s ≡ visit callback (reachable can nodes n) s
unfolding iter_neighbours
iter_neighbours-visit can [] n callback s = refl
iter_neighbours-visit can ((k, _) ∷ nodes) n callback s =
    let same = iter_neighbours-visit can nodes n callback in
    elim (Bool-cases (can n k)) [
      | inl yes_can ↦ rw yes_can (go_on-visit (callback k s) same)
      | inr not_can ↦ rw not_can (same s)
    ]

-- For every callback the iteration is `visit` of those that the node can send to, in their order:
-- the callback on each of them, and nothing more after the first call that returns false. And
-- get_neighbours is the list of those.
pub iter_neighbours-get_neighbours {ℓ κ} :
    {N : Type ℓ} {S : Type κ} (can : ℕ → ℕ → Bool) (nodes : List (ℕ × N)) (n : ℕ)
    → (get_neighbours can nodes n ≡ reachable can nodes n)
      × ((callback : ℕ → S → Bool × S) (s : S)
          → iter_neighbours can nodes n callback s ≡ visit callback (get_neighbours can nodes n) s)
unfolding get_neighbours
iter_neighbours-get_neighbours can nodes n =
    let all =
      iter_neighbours-visit can nodes n (λ neigh ans. (true, ans ++ neigh ∷ [])) []
      ∙ visit-push (reachable can nodes n) [] in
    (
      all,
      λ callback s.
          iter_neighbours-visit can nodes n callback s ∙ ap (λ ks. visit callback ks s) (sym all),
    )
