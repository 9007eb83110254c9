-- ===== src/Network/Hashed.antt =====
-- The hash set of include/cuckoo.hpp as the set of neighbours in include/graph_hwm.hpp: it keeps what
-- such a set promises, for keys below 2 ^ 30 and with fuel for 31 nested rehashes.
use distributedsim.Base.{ℕ, ◌^◌, ◌≤◌, ◌<◌, ◌≡◌, ◌≢◌, inl, inr, refl, sym, ◌∙◌, true, false, some}
use distributedsim.Cuckoo.{CuckooSet, insert, count, new_set, missing}
use distributedsim.Cuckoo.Content.{Has}
use distributedsim.Cuckoo.Grow.{slot-replicate}
use distributedsim.Cuckoo.Evict.{small-ne-missing}
use distributedsim.Cuckoo.Members.{IsCuckoo, new_set-IsCuckoo, count_cases, insert_cases}
use distributedsim.Network.{cuckoo_set}
use distributedsim.Network.Edges.{SetLaws}

pub count-new : (k : ℕ) → k < 2 ^ 30 → count k new_set ≡ some false
count-new k small =
    let key = small-ne-missing k small in
    elim (count_cases new_set new_set-IsCuckoo k key) [
      | inl (e, (i, there)) ↦ absurd (key (sym there ∙ slot-replicate 2 i))
      | inr (e, free) ↦ e
    ]

-- count finds a key in one set as in another if it is in both or in neither.
count-same :
    (y : ℕ) (s s' : CuckooSet)
    → IsCuckoo s
    → IsCuckoo s'
    → y ≢ missing
    → (Has s'.ht y → Has s.ht y) × (Has s.ht y → Has s'.ht y)
    → count y s' ≡ count y s
count-same y s s' ok ok' key both = elim (count_cases s ok y key) [
  | inl (e, there) ↦ elim (count_cases s' ok' y key) [
    | inl (e', there') ↦ e' ∙ sym e
    | inr (e', free') ↦ (let (i, here) = both.1 there in absurd (free' i here))
  ]
  | inr (e, free) ↦ elim (count_cases s' ok' y key) [
    | inl (e', there') ↦ (let (i, here) = both.0 there' in absurd (free i here))
    | inr (e', free') ↦ e' ∙ sym e
  ]
]

module _ (fuel k : ℕ) (s : CuckooSet) (enough : 31 ≤ fuel) (small : k < 2 ^ 30)
    (ok : IsCuckoo s) where
  pub insert_kept :
      (s' : CuckooSet) × (insert fuel k s ≡ some s')
      × IsCuckoo s'
      × (count k s' ≡ some true)
      × ((y : ℕ) → y < 2 ^ 30 → y ≢ k → count y s' ≡ count y s)
  insert_kept =
      let (s', e, inserted, _) = insert_cases fuel k s ok small enough in
      let key = small-ne-missing k small in
      (
        s',
        e,
        inserted.cuckoo,
        elim (count_cases s' inserted.cuckoo k key) [
          | inl (found, _) ↦ found
          | inr (_, free) ↦
              (let (i, there) = (inserted.members k key).1 (inl refl) in absurd (free i there))
        ],
        λ y known other.
            (let present = small-ne-missing y known in
              let members = inserted.members y present in
              count-same y s s' ok inserted.cuckoo present (
                (λ h. elim (members.0 h) [ inl same ↦ absurd (other same) | inr old ↦ old ]),
                (λ h. members.1 (inr h)),
              )),
      )

abbrev pub hash_laws : (fuel : ℕ) → 31 ≤ fuel → SetLaws (cuckoo_set fuel)
hash_laws fuel enough = record {
  IsWell = IsCuckoo;
  IsKey = λ k. k < 2 ^ 30;
  empty_IsWell = new_set-IsCuckoo;
  count_empty = count-new;
  insert_law = λ k s small ok. insert_kept fuel k s enough small ok;
}
