-- ===== src/Miner/Pending.antt =====
-- The pending transactions of a miner as a set: what confirm, unconfirm and handle_transaction do to
-- the members.
use distributedsim.Base.{
  ℕ, suc, ◌≤◌, ◌<◌, ◌≡◌, ◌≢◌, inl, inr, refl, Bool, true, false, not, ◌&&◌, ◌||◌, List, [], ◌∷◌,
  ltb, ◌==◌, Bool-cases, ltb→lt, ltb→le, ==_iff, ==_ne, arith,
}
use distributedsim.Tinycoin.{Transaction}
use distributedsim.Miner.{insert, erase, contains, insert_all, erase_all}

-- The elements are at least `lo` and strictly rise.
abbrev pub IsSorted : ℕ → List ℕ → Type 0
IsSorted lo [] = Unit {0}
IsSorted lo (x ∷ xs) = (lo ≤ x) × IsSorted (suc x) xs

IsSorted-weaken : (lo hi : ℕ) (xs : List ℕ) → lo ≤ hi → IsSorted hi xs → IsSorted lo xs
IsSorted-weaken lo hi [] le h = tt
IsSorted-weaken lo hi (x ∷ xs) le h = (omega (arith, h.0), h.1)

contains-below : (z lo : ℕ) (xs : List ℕ) → z < lo → IsSorted lo xs → contains z xs ≡ false
contains-below z lo [] lt h = refl
contains-below z lo (x ∷ xs) lt h =
    let away : (z == x) ≡ false = ground (arith, h.0) in
    rw away (contains-below z (suc x) xs (omega (arith, h.0)) h.1)

insert-IsSorted : (x lo : ℕ) (xs : List ℕ) → lo ≤ x → IsSorted lo xs → IsSorted lo (insert x xs)
unfolding insert
insert-IsSorted x lo [] le h = (le, tt)
insert-IsSorted x lo (y ∷ ys) le h = elim (Bool-cases (ltb x y)) [
  | inl lt ↦ rw lt (le, (ltb→lt x y lt, h.1))
  | inr ge ↦ elim (Bool-cases (x == y)) [
    | inl same ↦ rw (ge, same) h
    | inr away ↦
        let ne = ==_ne x y away in
        let le' = ltb→le x y ge in
        rw (ge, away) (h.0, insert-IsSorted x (suc y) ys (apart x y le' ne) h.1)
  ]
]
  where
    apart : (x y : ℕ) → y ≤ x → x ≢ y → suc y ≤ x
    apart x y le ne = ground arith

erase-IsSorted : (x lo : ℕ) (xs : List ℕ) → IsSorted lo xs → IsSorted lo (erase x xs)
unfolding erase
erase-IsSorted x lo [] h = tt
erase-IsSorted x lo (y ∷ ys) h = elim (Bool-cases (x == y)) [
  | inl same ↦ rw same (IsSorted-weaken lo (suc y) ys (omega (arith, h.0)) h.1)
  | inr away ↦ rw away (h.0, erase-IsSorted x (suc y) ys h.1)
]

or_twice : (a b : Bool) → (a || (a || b)) ≡ (a || b)
or_twice true b = refl
or_twice false b = refl

or_swap : (a b c : Bool) → (a || (b || c)) ≡ (b || (a || c))
or_swap true true c = refl
or_swap true false c = refl
or_swap false b c = refl

or_move : (a b c : Bool) → (a || (b || c)) ≡ ((b || a) || c)
or_move true true c = refl
or_move true false c = refl
or_move false true c = refl
or_move false false c = refl

not_or : (a b c : Bool) → (not a && (not b && c)) ≡ (not (b || a) && c)
not_or true true c = refl
not_or true false c = refl
not_or false true c = refl
not_or false false c = refl

and_false : (a : Bool) → false ≡ (a && false)
and_false true = refl
and_false false = refl

-- The ids of the transactions of a block.
abbrev pub ids_of : {A : Type 0} → List (Transaction A) → List ℕ
ids_of [] = []
ids_of (tx ∷ txs) = tx.id ∷ ids_of txs

contains-insert : (z x : ℕ) (xs : List ℕ) → contains z (insert x xs) ≡ (z == x || contains z xs)
unfolding insert
contains-insert z x [] = refl
contains-insert z x (y ∷ ys) = elim (Bool-cases (ltb x y)) [
  | inl lt ↦ rw lt
  | inr ge ↦ elim (Bool-cases (x == y)) [
    | inl same ↦
        let e : x ≡ y = (==_iff x y).0 same in rw (ge, same, e, or_twice (z == y) (contains z ys))
    | inr away ↦ rw (ge, away, contains-insert z x ys, or_swap (z == y) (z == x) (contains z ys))
  ]
]

contains-erase :
    (z x lo : ℕ) (xs : List ℕ)
    → IsSorted lo xs
    → contains z (erase x xs) ≡ (not (z == x) && contains z xs)
unfolding erase
contains-erase z x lo [] h = and_false (not (z == x))
contains-erase z x lo (y ∷ ys) h = elim (Bool-cases (x == y)) [
  | inl same ↦
      let e : x ≡ y = (==_iff x y).0 same in
      rw same (elim (Bool-cases (z == x)) [
        | inl at ↦
            let e' : z ≡ x = (==_iff z x).0 at in
            rw at (contains-below z (suc y) ys (omega arith) h.1)
        | inr off ↦ let off' : (z == y) ≡ false = ground (arith, e, off) in rw (off, off')
      ])
  | inr away ↦
      rw (away, contains-erase z x (suc y) ys h.1)
        (elim (Bool-cases (z == x)) [
          | inl at ↦
              let e' : z ≡ x = (==_iff z x).0 at in
              let off' : (z == y) ≡ false = ground (arith, e', away) in rw (at, off')
          | inr off ↦ rw off
        ])
]

pub insert_all-contains :
    {A : Type 0} (z : ℕ) (txs : List (Transaction A)) (xs : List ℕ)
    → contains z (insert_all txs xs) ≡ (contains z (ids_of txs) || contains z xs)
unfolding insert_all
insert_all-contains z [] xs = refl
insert_all-contains z (tx ∷ txs) xs = rw (
  insert_all-contains z txs (insert tx.id xs),
  contains-insert z tx.id xs,
  or_move (contains z (ids_of txs)) (z == tx.id) (contains z xs),
)

pub insert_all-IsSorted :
    {A : Type 0} (txs : List (Transaction A)) (xs : List ℕ)
    → IsSorted 0 xs
    → IsSorted 0 (insert_all txs xs)
unfolding insert_all
insert_all-IsSorted [] xs h = h
insert_all-IsSorted (tx ∷ txs) xs h =
    insert_all-IsSorted txs (insert tx.id xs) (insert-IsSorted tx.id 0 xs (omega arith) h)

pub erase_all-IsSorted :
    {A : Type 0} (txs : List (Transaction A)) (xs : List ℕ)
    → IsSorted 0 xs
    → IsSorted 0 (erase_all txs xs)
unfolding erase_all
erase_all-IsSorted [] xs h = h
erase_all-IsSorted (tx ∷ txs) xs h =
    erase_all-IsSorted txs (erase tx.id xs) (erase-IsSorted tx.id 0 xs h)

pub erase_all-contains :
    {A : Type 0} (z : ℕ) (txs : List (Transaction A)) (xs : List ℕ)
    → IsSorted 0 xs
    → contains z (erase_all txs xs) ≡ (not (contains z (ids_of txs)) && contains z xs)
unfolding erase_all
erase_all-contains z [] xs h = refl
erase_all-contains z (tx ∷ txs) xs h = rw (
  erase_all-contains z txs (erase tx.id xs) (erase-IsSorted tx.id 0 xs h),
  contains-erase z tx.id 0 xs h,
  not_or (contains z (ids_of txs)) (z == tx.id) (contains z xs),
)
