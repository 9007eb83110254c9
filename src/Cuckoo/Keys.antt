-- ===== src/Cuckoo/Keys.antt =====
-- include/cuckoo.hpp: count and erase on a table whose keys are distinct, and clear.
use distributedsim.Base.{
  ne→==, some_injective, ℕ, zero, suc, ◌+◌, ◌-◌, ◌*◌, ◌%◌, ◌^◌, ◌≤◌, ◌<◌, ◌≡◌, ◌≢◌, ◌⊎◌, refl, sym,
  ap, ◌∙◌, inl, inr, Bool, true, false, ◌||◌, none, some, List, [], ◌∷◌, ◌==◌, if◌then◌else◌,
  lt→ltb, ==_iff, Bool-cases, length, length-set, set, arith,
}
use native.Mathlib.Decide.{ℕ_discrete}
use distributedsim.Rng.{u64}
use distributedsim.Cuckoo.{
  bucket_size, missing, CuckooSet, hash_1, hash_2, as_int, capacity, size, any_slot, count,
  erase_at, erase, fill_missing, clear,
}
use distributedsim.Cuckoo.Slots.{
  and-le, or_first, or_second, slot, get-slot, slot-set, slot-set_other, find-slot,
}

-- The table has the buckets that its mask says, and its indices are of type int.
pub record IsTable (s : CuckooSet) : Type 0 where
  pub long : (s.mask + 1) * bucket_size ≤ length s.ht
  pub small : s.mask < 2 ^ 30

-- No two slots hold the same key.
unfoldable pub IsDistinct : List ℕ → Type 0
IsDistinct t = (i j : ℕ) → slot t i ≢ missing → slot t i ≡ slot t j → i ≡ j

abbrev pub first : CuckooSet → ℕ → ℕ
first s k = hash_1 s.mask k * bucket_size

abbrev pub second : CuckooSet → ℕ → ℕ
second s k = hash_2 s.mask k * bucket_size

abbrev pub holds : CuckooSet → ℕ → Bool
holds s k =
    (slot s.ht (first s k) == k || slot s.ht (second s k) == k)
    || ((slot s.ht (first s k + 1) == k || slot s.ht (second s k + 1) == k) || false)

pub as-int : (h : ℕ) → h < 2 ^ 31 → as_int h ≡ some h
unfolding as_int
as-int h small = let e : h % 2 ^ 32 ≡ h = omega arith in rw (e, lt→ltb h (2 ^ 31) small) refl

module _ (s : CuckooSet) (k : ℕ) (ok : IsTable s) where
  pub in_first : first s k + 1 < length s.ht
  unfolding hash_1
  in_first = omega (arith, ok.long, and-le k s.mask)

  pub in_second : second s k + 1 < length s.ht
  unfolding hash_2
  in_second = omega (arith, ok.long, and-le (2 ^ 64 - 1 - k) s.mask)

  as-int-first : as_int (hash_1 s.mask k) ≡ some (hash_1 s.mask k)
  unfolding hash_1
  as-int-first = as-int (hash_1 s.mask k) (omega (arith, and-le k s.mask, ok.small))

  as-int-second : as_int (hash_2 s.mask k) ≡ some (hash_2 s.mask k)
  unfolding hash_2
  as-int-second = as-int (hash_2 s.mask k) (omega (arith, and-le (2 ^ 64 - 1 - k) s.mask, ok.small))

  pub count_lem : count k s ≡ some (holds s k)
  unfolding count any_slot
  count_lem =
      let h1 = hash_1 s.mask k in
      let h2 = hash_2 s.mask k in
      rw (as-int-first, as-int-second, or_first h1, or_first h2, or_second h1, or_second h2) rw
        (
          get-slot s.ht (first s k) (omega (arith, in_first)),
          get-slot s.ht (second s k) (omega (arith, in_second)),
          get-slot s.ht (first s k + 1) in_first,
          get-slot s.ht (second s k + 1) in_second,
        )
        refl

  -- Either no slot of the two buckets holds the key, or erase empties one that does.
  unfoldable pub Outcome : Type 0
  Outcome =
      ((erase k s ≡ some s) × (holds s k ≡ false))
      ⊎ ((i : ℕ) × (i < length s.ht)
          × (slot s.ht i ≡ k)
          × (holds s k ≡ true)
          × (erase k s ≡ erase_at s (some i) none))

  pub erase_cases : Outcome
  unfolding erase Outcome
  erase_cases =
      rw
        (
          as-int-first,
          as-int-second,
          find-slot k (first s k) s.ht in_first,
          find-slot k (second s k) s.ht in_second,
        )
        elim (Bool-cases (slot s.ht (first s k) == k)) [
          | inl e1 ↦
              rw e1 (inr (first s k, omega (arith, in_first), at_key (first s k) e1, refl, refl))
          | inr n1 ↦ rw n1 elim (Bool-cases (slot s.ht (first s k + 1) == k)) [
            | inl e2 ↦ rw e2 (
                inr (
                  first s k + 1,
                  in_first,
                  at_key (first s k + 1) e2,
                  in_third (slot s.ht (second s k) == k),
                  refl,
                ))
            | inr n2 ↦ rw n2 elim (Bool-cases (slot s.ht (second s k) == k)) [
              | inl e3 ↦
                  rw e3
                    (inr (second s k, omega (arith, in_second), at_key (second s k) e3, refl, refl))
              | inr n3 ↦ rw n3 elim (Bool-cases (slot s.ht (second s k + 1) == k)) [
                | inl e4 ↦
                    rw e4 (inr (second s k + 1, in_second, at_key (second s k + 1) e4, refl, refl))
                | inr n4 ↦ rw n4 (inl (refl, refl))
              ]
            ]
          ]
        ]
    where
      at_key : (i : ℕ) → (slot s.ht i == k) ≡ true → slot s.ht i ≡ k
      at_key i e = (==_iff (slot s.ht i) k).0 e

      in_third :
          (b : Bool)
          → ((false || b) || ((true || (slot s.ht (second s k + 1) == k)) || false)) ≡ true
      in_third true = refl
      in_third false = refl

-- What erase leaves: the keys but one.
pub record IsErased (k : ℕ) (s s' : CuckooSet) : Type 0 where
  pub table : IsTable s'
  pub distinct : IsDistinct s'.ht
  pub gone : count k s' ≡ some false
  pub kept : (y : ℕ) → y ≢ missing → y ≢ k → count y s' ≡ count y s
  pub counted :
      (there : Bool)
      → count k s ≡ some there
      → size s' ≡ (if there then u64 (size s + (2 ^ 64 - 1)) else size s)

module _ (t : List ℕ) (i k : ℕ) (short : i < length t) (there : slot t i ≡ k) (key : k ≢ missing)
    (once : IsDistinct t) where
  emptied_ne : (j : ℕ) → (slot (set t i missing) j == k) ≡ false
  unfolding IsDistinct
  emptied_ne j = elim (Bool-cases (slot (set t i missing) j == k)) [
    | inr n ↦ n
    | inl e ↦ absurd (emptied j ((==_iff (slot (set t i missing) j) k).0 e))
  ]
    where
      emptied : (j : ℕ) → slot (set t i missing) j ≢ k
      emptied j e = elim (ℕ_discrete i j) [
        | yes same ↦
            key (sym e ∙ (ap (slot (set t i missing)) (sym same) ∙ slot-set t i missing short))
        | no other ↦
            let held : slot t j ≡ k = sym (slot-set_other t i j missing other) ∙ e in
            other (once i j (λ m. key (sym there ∙ m)) (there ∙ sym held))
      ]

  emptied_other :
      (j y : ℕ) → y ≢ missing → y ≢ k → (slot (set t i missing) j == y) ≡ (slot t j == y)
  emptied_other j y m n = elim (ℕ_discrete i j) [
    | yes same ↦
        rw (sym same, slot-set t i missing short, there)
          (ne→== missing y (λ e. m (sym e)) ∙ sym (ne→== k y (λ e. n (sym e))))
    | no other ↦ rw (slot-set_other t i j missing other) refl
  ]

  pub emptied-IsDistinct : IsDistinct (set t i missing)
  unfolding IsDistinct
  emptied-IsDistinct a b m e = elim (ℕ_discrete i a) [
    | yes same ↦ absurd (m (ap (slot (set t i missing)) (sym same) ∙ slot-set t i missing short))
    | no first_other ↦ elim (ℕ_discrete i b) [
      | yes same ↦
          absurd (m (e ∙ (ap (slot (set t i missing)) (sym same) ∙ slot-set t i missing short)))
      | no other ↦
          let ha = slot-set_other t i a missing first_other in
          let hb = slot-set_other t i b missing other in
          once a b (λ h. m (ha ∙ h)) (sym ha ∙ (e ∙ hb))
    ]
  ]

abbrev pub emptied : CuckooSet → ℕ → CuckooSet
emptied s i = record s { ht = set s.ht i missing; sz = u64 (s.sz + (2 ^ 64 - 1)) }

-- A table that erase leaves alone, and one that it empties a slot of.
unchanged-IsErased :
    (k : ℕ) (s : CuckooSet) → IsTable s → IsDistinct s.ht → holds s k ≡ false → IsErased k s s
unchanged-IsErased k s ok once h = record {
  table = ok;
  distinct = once;
  gone = count_lem s k ok ∙ ap some h;
  kept = λ y m n. refl;
  counted = λ there e. rw (some_injective there (holds s k) (sym e ∙ count_lem s k ok), h) refl;
}

module _ (k : ℕ) (s : CuckooSet) (ok : IsTable s) (once : IsDistinct s.ht) (key : k ≢ missing) where
  emptied-IsErased :
      (i : ℕ) → i < length s.ht → slot s.ht i ≡ k → holds s k ≡ true → IsErased k s (emptied s i)
  emptied-IsErased i short there h =
      let ok' : IsTable (emptied s i) = record {
        long = omega (arith, length-set s.ht i missing, ok.long);
        small = ok.small;
      } in
      let ne = emptied_ne s.ht i k short there key once in
      let other = emptied_other s.ht i k short there key once in
      record {
        table = ok';
        distinct = emptied-IsDistinct s.ht i k short there key once;
        gone =
            count_lem (emptied s i) k ok'
            ∙ rw (ne (first s k), ne (second s k), ne (first s k + 1), ne (second s k + 1)) refl;
        kept = λ y m n.
            count_lem (emptied s i) y ok'
            ∙ (rw
                  (
                    other (first s y) y m n,
                    other (second s y) y m n,
                    other (first s y + 1) y m n,
                    other (second s y + 1) y m n,
                  )
                  refl
                ∙ sym (count_lem s y ok));
        counted = λ b e. rw (some_injective b (holds s k) (sym e ∙ count_lem s k ok), h) refl;
      }

  -- In a table with at least the slots that its mask says, fewer than 2 ^ 31 and without two slots that hold the
  -- same key, erase stays within bounds: afterwards count finds every other key exactly if it did before,
  -- and not the erased one, the table is still such a table, and the size is one less if the key was
  -- there and the same if it was not. The key is not the one that stands for an empty slot.
  pub erase-IsErased : (s' : CuckooSet) × (erase k s ≡ some s') × IsErased k s s'
  unfolding Outcome
  erase-IsErased = elim (erase_cases s k ok) [
    | inl (e, h) ↦ (s, e, unchanged-IsErased k s ok once h)
    | inr (i, short, there, h, e) ↦ (emptied s i, e, emptied-IsErased i short there h)
  ]

fill-short : (n : ℕ) (t : List ℕ) → length t < n → fill_missing n t ≡ none
unfolding fill_missing
fill-short zero t h = absurd (omega arith)
fill-short (suc n) [] h = refl
fill-short (suc n) (x ∷ t) h = rw (fill-short n t (omega arith)) refl

-- In every table of exactly the length that its mask says, below 2 ^ 31 slots, clear writes out of
-- bounds.
pub clear-none :
    (s : CuckooSet) → length s.ht ≡ (s.mask + 1) * bucket_size → s.mask < 2 ^ 30 → clear s ≡ none
unfolding clear
clear-none s long small =
    let past : length s.ht < bucket_size * capacity s = omega (arith, long, small) in
    rw (fill-short (bucket_size * capacity s) s.ht past) refl
