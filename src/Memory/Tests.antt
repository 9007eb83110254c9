-- ===== src/Memory/Tests.antt =====
-- A memory that records the sizes asked for.
use distributedsim.Base.{ℕ, ◌^◌, ◌≡◌, refl, List, [], ◌∷◌}
use distributedsim.Memory.{System, calloc}

abbrev recorder : System (List ℕ)
recorder = record {
  libc_malloc = λ size m. (0, size ∷ m);
  libc_realloc = λ ptr size m. (0, size ∷ m);
  madvise = λ ptr size advice m. m;
  bzero = λ ptr size m. m;
}

-- Two elements of half the address space: nothing is asked for, where calloc should fail.
calloc_wraps : (calloc recorder 2 (2 ^ 63) []).1 ≡ 0 ∷ []
unfolding calloc
calloc_wraps = refl
