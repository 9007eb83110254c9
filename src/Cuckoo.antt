-- ===== src/Cuckoo.antt =====
-- include/cuckoo.hpp: cuckoo_hash_set for keys of type size_t, as GraphHardwareManager uses it, so
-- that buckets have two slots and the branch for keys of four bytes is not taken. The table is a list.
-- `none` is an access out of bounds, which is undefined, or missing fuel.
mod Tests
pub mod Slots
pub mod Keys
pub mod Masks
pub mod Content
pub mod Push
pub mod Evict
pub mod Grow
pub mod Rehash
pub mod Insert
pub mod Members
pub mod Removed
pub mod Sets
pub mod Calls
pub mod Equal
pub mod Copied
pub mod Elements
use Prim.Native.Nat.{bit_and, bit_or}
use distributedsim.Base.{
  ℤ, pos, negsuc, ℕ, zero, suc, ◌+◌, ◌-◌, ◌*◌, ◌/◌, ◌%◌, ◌^◌, Bool, true, false, not, ◌&&◌, ◌||◌,
  Option, none, some, List, [], ◌∷◌, ltb, leb, ◌==◌, if◌then◌else◌, ◌>>=◌, length, get_elem?, set,
  replicate,
}
use distributedsim.Rng.{u64}

abbrev pub bucket_size : ℕ
bucket_size = 2

-- The key that stands for an empty slot, (size_t)-1.
abbrev pub missing : ℕ
missing = 2 ^ 64 - 1

pub record CuckooSet : Type 0 where
  pub ht : List ℕ
  pub mask : ℕ
  pub sz : ℕ

unfoldable pub hash_1 : ℕ → ℕ → ℕ
hash_1 mask k = bit_and k mask

unfoldable pub hash_2 : ℕ → ℕ → ℕ
hash_2 mask k = bit_and (2 ^ 64 - 1 - k) mask

-- The conversion to int, by which the table is indexed; a negative index is out of bounds.
unfoldable pub as_int : ℕ → Option ℕ
as_int h = let r = h % 2 ^ 32 in if ltb r (2 ^ 31) then some r else none

abbrev pub capacity : CuckooSet → ℕ
capacity s = u64 ((s.mask + 1) * bucket_size)

abbrev pub size : CuckooSet → ℕ
size s = s.sz

abbrev pub empty : CuckooSet → Bool
empty s = s.sz == 0

-- The default constructor, and the copy constructor.
abbrev pub new_set : CuckooSet
new_set = record { ht = replicate bucket_size missing; mask = 0; sz = 0 }

abbrev pub copied : List ℕ → ℕ → Option (List ℕ)
copied t zero = some []
copied [] (suc n) = none
copied (x ∷ t) (suc n) = do t' ← copied t n; some (x ∷ t')

unfoldable pub copy : CuckooSet → Option CuckooSet
copy other = do
  t ← copied other.ht (capacity other)
  some (record { ht = t; mask = other.mask; sz = other.sz })

-- The loop over the `left` slots from `at` on: the first that holds `v`.
unfoldable pub find_slot : ℕ → List ℕ → ℕ → ℕ → Option (Option ℕ)
find_slot v t at zero = some none
find_slot v t at (suc left) =
    let later = find_slot v t (at + 1) left in
    do x ← get_elem? t at; if x == v then some (some at) else later

-- The loop that moves the last slots of a bucket one forward.
unfoldable pub shift : ℕ → ℕ → List ℕ → Option (List ℕ)
shift zero at t = some t
shift (suc left) at t = do x ← get_elem? t (at + 1); shift left (at + 1) (set t at x)

-- One round of the loop of insert: the table with `k` in bucket `hash`, and what it pushed out.
abbrev pub evict_from : ℕ → ℕ → List ℕ → Option ℕ → Option (List ℕ × ℕ)
evict_from hash k t none = do
  cuckooed ← get_elem? t (hash * bucket_size)
  t' ← shift (bucket_size - 1) (hash * bucket_size) t
  some (set t' (hash * bucket_size + bucket_size - 1) k, cuckooed)
evict_from hash k t (some at) = some (set t at k, missing)

unfoldable pub evict : ℕ → ℕ → List ℕ → Option (List ℕ × ℕ)
unfolding find_slot shift
evict hash k t = do
  free ← find_slot missing t (hash * bucket_size) bucket_size
  evict_from hash k t free

-- The loop: the table, and the key that is still without a slot, if any.
unfoldable pub evict_all : ℕ → ℕ → Bool → ℕ → List ℕ → Option (List ℕ × Option ℕ)
unfolding evict hash_1 hash_2
evict_all zero mask use_hash_1 k t = some (t, some k)
evict_all (suc rounds) mask use_hash_1 k t =
    let hash = if use_hash_1 then hash_1 mask k else hash_2 mask k in
    do
      (t', cuckooed) ← evict hash k t
      let rest = evict_all rounds mask (hash == hash_2 mask cuckooed) cuckooed t'
      if cuckooed == missing then some (t', none) else rest

-- The masks of rehash.
unfoldable pub next_mask : ℕ → ℕ
next_mask mask = if mask == 0 then 1 else bit_or (u64 (mask * 2)) mask

-- The loop of rehash over the old table. An insertion may rehash the new table again, so that it
-- changes the mask.
unfoldable pub move_all :
    (ℕ → ℕ → List ℕ → Option (ℕ × List ℕ)) → List ℕ → ℕ → List ℕ → Option (ℕ × List ℕ)
move_all insert [] mask newt = some (mask, newt)
move_all insert (x ∷ table) mask newt = do
  (mask', newt') ← (if x == missing then some (mask, newt) else insert mask x newt)
  move_all insert table mask' newt'

unfoldable pub rehash : (ℕ → ℕ → List ℕ → Option (ℕ × List ℕ)) → ℕ → List ℕ → Option (ℕ × List ℕ)
unfolding next_mask move_all
rehash insert mask table =
    let mask' = next_mask mask in
    move_all insert table mask' (replicate ((mask' + 1) * bucket_size) missing)

-- insert(k, table): the mask and the table after it. `after` is what follows the two searches.
abbrev pub put_or : ℕ → ℕ → List ℕ → Option ℕ → Option (ℕ × List ℕ) → Option (ℕ × List ℕ)
put_or mask k t (some at) after = some (mask, set t at k)
put_or mask k t none after = after

abbrev pub settle :
    (ℕ → ℕ → List ℕ → Option (ℕ × List ℕ)) → ℕ → List ℕ → Option ℕ → Option (ℕ × List ℕ)
settle insert mask t none = some (mask, t)
settle insert mask t (some k) = do (mask', t') ← rehash insert mask t; insert mask' k t'

unfoldable pub insert_into : ℕ → ℕ → ℕ → List ℕ → Option (ℕ × List ℕ)
unfolding as_int hash_1 hash_2 find_slot evict_all rehash
insert_into zero mask k t = none
insert_into (suc fuel) mask k t =
    let rest = (do
      (t', left_over) ← evict_all mask mask true k t
      settle (insert_into fuel) mask t' left_over) in
    do
      h1 ← as_int (hash_1 mask k)
      free1 ← find_slot missing t (h1 * bucket_size) bucket_size
      put_or mask k t free1 (do
        h2 ← as_int (hash_2 mask k)
        free2 ← find_slot missing t (h2 * bucket_size) bucket_size
        put_or mask k t free2 rest)

-- The loop of count, from `i` on.
unfoldable pub any_slot : ℕ → ℕ → ℕ → List ℕ → ℕ → ℕ → Option Bool
any_slot h1 h2 k t i zero = some false
any_slot h1 h2 k t i (suc left) = do
  x ← get_elem? t (bit_or (bucket_size * h1) i)
  y ← get_elem? t (bit_or (bucket_size * h2) i)
  later ← any_slot h1 h2 k t (i + 1) left
  some (x == k || y == k || later)

unfoldable pub count : ℕ → CuckooSet → Option Bool
unfolding any_slot as_int hash_1 hash_2
count k s = do
  h1 ← as_int (hash_1 s.mask k)
  h2 ← as_int (hash_2 s.mask k)
  any_slot h1 h2 k s.ht 0 bucket_size

-- The public insert.
unfoldable pub insert : ℕ → ℕ → CuckooSet → Option CuckooSet
unfolding count insert_into
insert fuel k s =
    let added = (do
      (mask', t) ← insert_into fuel s.mask k s.ht
      some (record { ht = t; mask = mask'; sz = u64 (s.sz + 1) })) in
    do there ← count k s; if there then some s else added

-- erase: the slot in the first bucket, or in the second, or none.
abbrev pub erase_at : CuckooSet → Option ℕ → Option CuckooSet → Option CuckooSet
erase_at s (some at) otherwise =
    some (record s { ht = set s.ht at missing; sz = u64 (s.sz + (2 ^ 64 - 1)) })
erase_at s none otherwise = otherwise

unfoldable pub erase : ℕ → CuckooSet → Option CuckooSet
unfolding as_int hash_1 hash_2 find_slot
erase k s = do
  h1 ← as_int (hash_1 s.mask k)
  found1 ← find_slot k s.ht (h1 * bucket_size) bucket_size
  erase_at s found1 (do
    h2 ← as_int (hash_2 s.mask k)
    found2 ← find_slot k s.ht (h2 * bucket_size) bucket_size
    erase_at s found2 (some s))

-- `while (mask <= sz/bucket_size) mask <<= 1;`, with `none` for missing fuel.
unfoldable pub double_mask : ℕ → ℕ → ℕ → Option ℕ
double_mask zero bound mask = none
double_mask (suc fuel) bound mask =
    let again = double_mask fuel bound (u64 (mask * 2)) in
    if leb mask bound then again else some mask

unfoldable pub reserve : ℕ → ℕ → CuckooSet → Option CuckooSet
unfolding double_mask
reserve fuel n s =
    let grown = (do
      m ← double_mask fuel (n / bucket_size) (s.mask + 1)
      some (record { ht = replicate ((m + 1) * bucket_size) missing; mask = m - 1; sz = s.sz })) in
    if leb n (capacity s) then some s else grown

-- std::fill over the first `n` slots.
unfoldable pub fill_missing : ℕ → List ℕ → Option (List ℕ)
fill_missing zero t = some t
fill_missing (suc n) [] = none
fill_missing (suc n) (x ∷ t) = do t' ← fill_missing n t; some (missing ∷ t')

unfoldable pub clear : CuckooSet → Option CuckooSet
unfolding fill_missing
clear s = do t ← fill_missing (bucket_size * capacity s) s.ht; some (record s { ht = t })

-- A const_iterator is its offset. The loop that steps over empty slots, with the slots left.
unfoldable pub skip_missing : ℕ → ℕ → List ℕ → Option ℕ
skip_missing zero offset t = some offset
skip_missing (suc left) offset t =
    let later = skip_missing left (offset + 1) t in
    do x ← get_elem? t offset; if x == missing then later else some offset

-- The constructor of const_iterator, begin, end, operator++ and operator*. An offset past the end is out of
-- bounds.
unfoldable pub iterator_from : ℕ → CuckooSet → Option ℕ
unfolding skip_missing
iterator_from offset s =
    if leb offset (capacity s) then skip_missing (capacity s - offset) offset s.ht else none

abbrev pub begin : CuckooSet → Option ℕ
begin s = iterator_from 0 s

abbrev pub end : CuckooSet → Option ℕ
end s = iterator_from (capacity s) s

abbrev pub next_iterator : ℕ → CuckooSet → Option ℕ
next_iterator offset s = iterator_from (offset + 1) s

abbrev pub deref : ℕ → CuckooSet → Option ℕ
deref offset s = get_elem? s.ht offset

-- const_iterator: the address of its set, and its offset. `==` and `!=`, and `it++`, which returns the
-- iterator as it was and the one after it.
pub record ConstIterator : Type 0 where
  pub container : ℕ
  pub offset : ℕ

abbrev pub same_iterator : ConstIterator → ConstIterator → Bool
same_iterator it other = (it.container == other.container) && (it.offset == other.offset)

abbrev pub other_iterator : ConstIterator → ConstIterator → Bool
other_iterator it other = not (same_iterator it other)

unfoldable pub post_increment : ConstIterator → CuckooSet → Option (ConstIterator × ConstIterator)
unfolding iterator_from
post_increment it s = do next ← next_iterator it.offset s; some (it, record it { offset = next })

-- `for (const auto& x: set)` from an offset on: the keys in their order. The fuel is the slots left.
unfoldable pub elements_from : ℕ → ℕ → CuckooSet → Option (List ℕ)
unfolding iterator_from
elements_from zero offset s = some []
elements_from (suc fuel) offset s =
    let more = (do
      x ← deref offset s
      next ← next_iterator offset s
      xs ← elements_from fuel next s
      some (x ∷ xs)) in
    if offset == capacity s then some [] else more

unfoldable pub elements : CuckooSet → Option (List ℕ)
unfolding elements_from
elements s = do offset ← begin s; elements_from (capacity s) offset s

-- operator==: all keys of the other set are in this one, which is as large.
unfoldable pub contains_all : List ℕ → CuckooSet → Option Bool
unfolding count
contains_all [] s = some true
contains_all (x ∷ xs) s =
    let later = contains_all xs s in do there ← count x s; if there then later else some false

unfoldable pub equals : CuckooSet → CuckooSet → Option Bool
unfolding contains_all elements
equals s other =
    let compared = (do xs ← elements other; contains_all xs s) in
    if size other == size s then compared else some false

-- operator!=
abbrev pub differs : CuckooSet → CuckooSet → Option Bool
differs s other = do same ← equals s other; some (not same)

-- `*begin()`, converted to int.
abbrev pub to_int : ℕ → ℤ
to_int x = let r = x % 2 ^ 32 in if ltb r (2 ^ 31) then pos r else negsuc (2 ^ 32 - 1 - r)

unfoldable pub front : CuckooSet → Option ℤ
unfolding iterator_from
front s = do offset ← begin s; x ← deref offset s; some (to_int x)
