-- ===== src/Manager/Ids.antt =====
-- The ordered map of nodes: what lower_bound finds, and the laws of the map.
use distributedsim.Base.{
  ℕ, suc, ◌≤◌, ◌<◌, ◌≡◌, ◌⊎◌, inl, inr, refl, List, [], ◌∷◌, none, some, arith, leb, Bool-cases,
  leb→le, leb→lt,
}
use distributedsim.Manager.{lower_bound_id}

module _ {ℓ} {N : Type ℓ} where
  -- The map has an entry under this id.
  abbrev pub HasId : List (ℕ × N) → ℕ → Type 0
  HasId [] i = ⊥
  HasId ((k, n) ∷ nodes) i = (k ≡ i) ⊎ HasId nodes i

  -- The ids are at least `lo` and strictly rise.
  abbrev pub IsOrdered : ℕ → List (ℕ × N) → Type 0
  IsOrdered lo [] = Unit {0}
  IsOrdered lo ((k, n) ∷ nodes) = (lo ≤ k) × IsOrdered (suc k) nodes

  pub HasId-ge : (lo i : ℕ) (nodes : List (ℕ × N)) → IsOrdered lo nodes → HasId nodes i → lo ≤ i
  HasId-ge lo i [] o h = absurd h
  HasId-ge lo i ((k, n) ∷ nodes) o (inl e) = omega arith
  HasId-ge lo i ((k, n) ∷ nodes) o (inr h) = omega (arith, HasId-ge (suc k) i nodes o.1 h)

  HasId-below :
      (i k j : ℕ) (n : N) (nodes : List (ℕ × N))
      → k < i
      → ((j : ℕ) → HasId nodes j → j < i)
      → HasId ((k, n) ∷ nodes) j
      → j < i
  HasId-below i k j n nodes lt all (inl e) = omega arith
  HasId-below i k j n nodes lt all (inr h) = all j h

  HasId-above :
      (i k j m : ℕ) (n : N) (nodes : List (ℕ × N))
      → k < i
      → ((j : ℕ) → HasId nodes j → i ≤ j → m ≤ j)
      → HasId ((k, n) ∷ nodes) j
      → i ≤ j
      → m ≤ j
  HasId-above i k j m n nodes lt least (inl e) ge = omega arith
  HasId-above i k j m n nodes lt least (inr h) ge = least j h ge

  -- The first id from `i` on, if there is one.
  pub lower_bound_id-least :
      (lo i : ℕ) (nodes : List (ℕ × N))
      → IsOrdered lo nodes
      → ((lower_bound_id nodes i ≡ none) × ((j : ℕ) → HasId nodes j → j < i))
        ⊎ ((k : ℕ) × (lower_bound_id nodes i ≡ some k)
            × HasId nodes k
            × (i ≤ k)
            × ((j : ℕ) → HasId nodes j → i ≤ j → k ≤ j))
  unfolding lower_bound_id
  lower_bound_id-least lo i [] o = inl (refl, λ j h. absurd h)
  lower_bound_id-least lo i ((k, n) ∷ nodes) o = elim (Bool-cases (leb i k)) [
    | inl le ↦ inr (
      k,
      rw le,
      inl refl,
      leb→le i k le,
      λ j h ge. HasId-ge k j ((k, n) ∷ nodes) (omega arith, o.1) h,
    )
    | inr gt ↦ elim (lower_bound_id-least (suc k) i nodes o.1) [
      | inl (e, all) ↦ inl (rw (gt, e), λ j h. HasId-below i k j n nodes (leb→lt i k gt) all h)
      | inr (m, e, has, ge, least) ↦ inr (
        m,
        rw (gt, e),
        inr has,
        ge,
        λ j h ge'. HasId-above i k j m n nodes (leb→lt i k gt) least h ge',
      )
    ]
  ]
