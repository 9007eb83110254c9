-- ===== src/Cuckoo/Elements.antt =====
-- include/cuckoo.hpp: what an iteration over a table gives.
use distributedsim.Base.{
  le→leb, ==_refl, ℕ, zero, suc, ◌+◌, ◌-◌, ◌≤◌, ◌≡◌, ◌⊎◌, refl, sym, inl, inr, false, some, List,
  [], ◌∷◌, ◌==◌, if◌then◌else◌, ==_iff, Bool-cases, length, arith,
}
use distributedsim.Cuckoo.{
  missing, CuckooSet, capacity, skip_missing, iterator_from, elements_from, elements,
}
use distributedsim.Cuckoo.Slots.{slot, get-slot}
use distributedsim.Cuckoo.Keys.{IsTable}

-- The keys that the slots from the offset on hold, in their order.
unfoldable pub keys_from : ℕ → ℕ → List ℕ → List ℕ
keys_from zero offset t = []
keys_from (suc left) offset t =
    let later = keys_from left (offset + 1) t in
    if slot t offset == missing then later else slot t offset ∷ later

-- Where a loop over empty slots stops: at the end, or at a key.
record Stop (left offset : ℕ) (t : List ℕ) (o : ℕ) : Type 0 where
  rest : ℕ
  ends : o + rest ≡ offset + left
  fewer : rest ≤ left
  same : keys_from left offset t ≡ keys_from rest o t
  full : (rest ≡ 0) ⊎ ((slot t o == missing) ≡ false)

skip-Stop :
    (left offset : ℕ) (t : List ℕ)
    → offset + left ≤ length t
    → (o : ℕ) × (skip_missing left offset t ≡ some o) × Stop left offset t o
unfolding skip_missing keys_from
skip-Stop zero offset t h = (
  offset,
  refl,
  record { rest = 0; ends = omega arith; fewer = omega arith; same = refl; full = inl refl },
)
skip-Stop (suc left) offset t h =
    let (o, e, stop) = skip-Stop left (offset + 1) t (omega arith) in
    rw (get-slot t offset (omega arith)) (elim (Bool-cases (slot t offset == missing)) [
      | inl m ↦ rw m (
        o,
        e,
        record {
          rest = stop.rest;
          ends = omega (arith, stop.ends);
          fewer = omega (arith, stop.fewer);
          same = rw m stop.same;
          full = stop.full;
        },
      )
      | inr n ↦ rw n (
        offset,
        refl,
        record { rest = suc left; ends = refl; fewer = omega arith; same = refl; full = inr n },
      )
    ])

module _ (s : CuckooSet) (ok : IsTable s) where
  capacity_lem : capacity s ≤ length s.ht
  capacity_lem = omega (arith, ok.long, ok.small)

  iterator-Stop :
      (left offset : ℕ)
      → offset + left ≡ capacity s
      → (o : ℕ) × (iterator_from offset s ≡ some o) × Stop left offset s.ht o
  unfolding iterator_from
  iterator-Stop left offset h =
      let count : capacity s - offset ≡ left = omega arith in
      rw (le→leb offset (capacity s) (omega arith), count)
        (skip-Stop left offset s.ht (omega (arith, h, capacity_lem)))

  elements-from :
      (fuel rest o : ℕ)
      → o + rest ≡ capacity s
      → rest ≤ fuel
      → (rest ≡ 0) ⊎ ((slot s.ht o == missing) ≡ false)
      → elements_from fuel o s ≡ some (keys_from rest o s.ht)
  unfolding elements_from keys_from
  elements-from zero zero o h enough full = refl
  elements-from zero (suc rest) o h enough full = absurd (omega arith)
  elements-from (suc fuel) zero o h enough full =
      let at_end : o ≡ capacity s = omega arith in rw (sym at_end, ==_refl o) refl
  elements-from (suc fuel) (suc rest) o h enough full =
      let before : (o == capacity s) ≡ false = elim (Bool-cases (o == capacity s)) [
        | inl e ↦ absurd (omega (arith, h, (==_iff o (capacity s)).0 e))
        | inr n ↦ n
      ] in
      let key : (slot s.ht o == missing) ≡ false = elim full [
        | inl e ↦ absurd (omega arith)
        | inr n ↦ n
      ] in
      let (next, e, stop) = iterator-Stop rest (o + 1) (omega arith) in
      rw
        (
          before,
          get-slot s.ht o (omega (arith, h, capacity_lem)),
          e,
          elements-from fuel stop.rest next (omega (arith, stop.ends)) (omega (arith, stop.fewer))
              stop.full,
          key,
          stop.same,
        )
        refl

  -- In a table with at least the slots that its mask says, fewer than 2 ^ 31, an iteration from begin to end stops,
  -- stays within bounds and gives the keys of the slots that are not empty, in the order of the slots.
  pub elements_lem : elements s ≡ some (keys_from (capacity s) 0 s.ht)
  unfolding elements
  elements_lem =
      let (o, e, stop) = iterator-Stop (capacity s) 0 (omega arith) in
      rw
        (
          e,
          elements-from (capacity s) stop.rest o (omega (arith, stop.ends)) stop.fewer stop.full,
          stop.same,
        )
        refl
