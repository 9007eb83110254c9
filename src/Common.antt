-- ===== src/Common.antt =====
-- include/common.hpp: the two helpers on vectors.
pub mod Laws
use distributedsim.Base.{
  ℕ, zero, suc, ◌+◌, Bool, false, Option, none, some, List, [], ◌∷◌, leb, if◌then◌else◌, length,
  get_elem?, set,
}

module _ {ℓ} {A : Type ℓ} where
  -- vector::resize to at least `n` elements, the new ones default-constructed.
  unfoldable pub grow : A → List A → ℕ → List A
  grow d [] zero = []
  grow d [] (suc n) = d ∷ grow d [] n
  grow d (x ∷ xs) zero = x ∷ xs
  grow d (x ∷ xs) (suc n) = x ∷ grow d xs n

  abbrev pub test_some : Option A → (A → Bool) → Bool
  test_some none f = false
  test_some (some a) f = f a

  unfoldable pub satisfies : List A → ℕ → (A → Bool) → Bool
  satisfies vec pos f = test_some (get_elem? vec pos) f

  unfoldable pub vec_set : A → List A → ℕ → A → List A
  unfolding grow
  vec_set d vec pos v = set (if leb (length vec) pos then grow d vec (pos + 1) else vec) pos v
