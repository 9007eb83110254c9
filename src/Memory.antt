-- ===== src/Memory.antt =====
-- include/mem_wrap.hpp: malloc, realloc and calloc over those of the C library. The library's calls, and
-- madvise and bzero, are parameters that change the memory `M`; a pointer is its address.
mod Tests
use distributedsim.Base.{ℕ, ◌*◌}
use distributedsim.Rng.{u64}

-- The advice that equal pages may be merged, as the number that linux/mman.h gives it.
abbrev pub mergeable : ℕ
mergeable = 12

pub record System (M : Type 0) : Type 0 where
  pub libc_malloc : ℕ → M → ℕ × M
  pub libc_realloc : ℕ → ℕ → M → ℕ × M
  pub madvise : ℕ → ℕ → ℕ → M → M
  pub bzero : ℕ → ℕ → M → M

module _ {M : Type 0} (sys : System M) where
  unfoldable pub malloc : ℕ → M → ℕ × M
  malloc size m = let (ret, m') = sys.libc_malloc size m in (ret, sys.madvise ret size mergeable m')

  unfoldable pub realloc : ℕ → ℕ → M → ℕ × M
  realloc ptr size m =
      let (ret, m') = sys.libc_realloc ptr size m in (ret, sys.madvise ret size mergeable m')

  unfoldable pub calloc : ℕ → ℕ → M → ℕ × M
  unfolding malloc
  calloc nmemb size m =
      let (ret, m') = malloc (u64 (nmemb * size)) m in (ret, sys.bzero ret (u64 (nmemb * size)) m')
