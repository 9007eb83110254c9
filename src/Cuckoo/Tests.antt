-- ===== src/Cuckoo/Tests.antt =====
-- A set of one bucket, and runs of include/cuckoo.hpp that evict and rehash.
use distributedsim.Base.{
  ◌↔◌, ℕ, Bool, ◌≡◌, refl, true, false, Option, none, some, List, [], ◌∷◌, length, ◌>>=◌, arith,
}
use distributedsim.Cuckoo.{
  missing, CuckooSet, new_set, elements, insert, count, reserve, clear, size, equals, erase, copy,
}
use distributedsim.Cuckoo.Keys.{IsTable, clear-none}
use distributedsim.Cuckoo.Sets.{Call, add, remove, perform_all, is_member, apply_all}
use distributedsim.Cuckoo.Calls.{perform_all_lem}
use distributedsim.Cuckoo.Equal.{equals_lem}
use distributedsim.Cuckoo.Copied.{copy_lem}

abbrev pair : CuckooSet
pair = record { ht = 3 ∷ 2 ∷ []; mask = 0; sz = 2 }

pair-IsTable : IsTable pair
pair-IsTable = record { long = omega arith; small = omega arith }

clear-none_example : clear pair ≡ none
clear-none_example = clear-none pair refl (omega arith)

-- Keys that all have the same buckets while the table has one or two, so that it grows.
abbrev calls : List Call
calls = add 8 ∷ add 16 ∷ add 24 ∷ add 32 ∷ remove 16 ∷ add 8 ∷ []

perform_all_lem_example :
    (s : CuckooSet) × (perform_all 31 calls new_set ≡ some s)
    × (count 24 s ≡ some (is_member 24 (apply_all calls [])))
    × (size s ≡ length (apply_all calls []))
perform_all_lem_example =
    perform_all_lem 31 calls 24 (omega arith) (omega arith) (omega arith) (λ e. omega (arith, e))

-- The same elements, in a table that did not grow as far.
abbrev reordered : List Call
reordered = add 32 ∷ add 24 ∷ add 8 ∷ []

equals_lem_example :
    (s t : CuckooSet) × (b : Bool) × (perform_all 31 calls new_set ≡ some s)
    × (perform_all 31 reordered new_set ≡ some t)
    × (equals s t ≡ some b)
    × ((b ≡ true)
        ↔ ((k : ℕ) → is_member k (apply_all calls []) ≡ is_member k (apply_all reordered [])))
equals_lem_example =
    equals_lem 31 calls reordered (omega arith) (omega arith) (omega arith) (omega arith)
      (omega arith)

copy_lem_example :
    (s s' s'' : CuckooSet) × (perform_all 31 calls new_set ≡ some s)
    × (copy s ≡ some s')
    × (equals s s' ≡ some true)
    × (perform_all 31 reordered s' ≡ some s'')
    × (count 24 s'' ≡ some (is_member 24 (apply_all reordered (apply_all calls []))))
copy_lem_example =
    copy_lem 31 calls reordered 24 (omega arith) (omega arith) (omega arith) (omega arith)
      (λ e. omega (arith, e))

equals_run :
    (do s ← perform_all 9 calls new_set; t ← perform_all 9 reordered new_set; equals s t)
    ≡ some true
unfolding insert erase equals
equals_run = refl

-- Five insertions, by which the table grows to four buckets.
abbrev five : Option CuckooSet
five = do
  a ← insert 9 10 new_set
  b ← insert 9 3 a
  c ← insert 9 2 b
  d ← insert 9 3 c
  e ← insert 9 6 d
  insert 9 14 e

five_elements : (do s ← five; elements s) ≡ some (6 ∷ 10 ∷ 2 ∷ 14 ∷ 3 ∷ [])
unfolding insert elements
five_elements = refl

-- reserve drops the keys and keeps the size.
reserve_drops : (do s ← reserve 9 8 pair; some (size s)) ≡ some 2
unfolding reserve
reserve_drops = refl

reserve_loses : (do s ← reserve 9 8 pair; count 3 s) ≡ some false
unfolding reserve count
reserve_loses = refl

-- The key that stands for an empty slot is not inserted while a slot is empty.
missing_found : count missing new_set ≡ some true
unfolding count
missing_found = refl
