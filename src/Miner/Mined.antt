-- ===== src/Miner/Mined.antt =====
-- The transactions of a mined block.
use distributedsim.Base.{
  ℕ, zero, suc, ◌+◌, ◌-◌, ◌<◌, ◌≡◌, inl, inr, refl, sym, ap, ◌∙◌, some, List, [], ◌∷◌, ◌++◌, map,
  ltb, length, get_elem?, get-some, All, Bool-cases, ltb→lt, ltb→le, length-append, arith,
}
use distributedsim.Tinycoin.{Transaction, Block}
use distributedsim.Miner.{Miner, fill, on_mined}

abbrev pub take : {A : Type 0} → ℕ → List A → List A
take zero xs = []
take (suc n) [] = []
take (suc n) (x ∷ xs) = x ∷ take n xs

append_nil : {A : Type 0} (xs : List A) → xs ++ [] ≡ xs
append_nil [] = refl
append_nil (x ∷ xs) = ap (◌∷◌ x) (append_nil xs)

map-push :
    {A B : Type 0} (f : A → B) (xs : List A) (x : A) (ys : List B)
    → map f (xs ++ x ∷ []) ++ ys ≡ map f xs ++ f x ∷ ys
map-push f [] x ys = refl
map-push f (z ∷ xs) x ys = ap (◌∷◌ (f z)) (map-push f xs x ys)

module _ {A : Type 0} (limit : ℕ) where
  fill-take :
      (received : List (Transaction A)) (ids : List ℕ) (txs : List (Transaction A))
      → All (λ (i : ℕ). i < length received) ids
      → (out : List (Transaction A)) × (fill limit received ids txs ≡ some out)
        × (map some out
            ≡ map some txs ++ map (get_elem? received) (take (limit + 1 - length txs) ids))
  unfolding fill
  fill-take received [] txs h = (
    txs,
    refl,
    sym (
        ap (λ xs. map some txs ++ map (get_elem? received) xs) (take-nil (limit + 1 - length txs))
        ∙ append_nil (map some txs)),
  )
    where
      take-nil : (n : ℕ) → take {A = ℕ} n [] ≡ []
      take-nil zero = refl
      take-nil (suc n) = refl
  fill-take received (i ∷ ids) txs h =
      let further = λ (tx : Transaction A). fill-take received ids (txs ++ tx ∷ []) h.1 in
      elim (Bool-cases (ltb limit (length txs))) [
        | inl full ↦
            let more = ltb→lt limit (length txs) full in
            let no_room : limit + 1 - length txs ≡ 0 = omega arith in
            (txs, rw full refl, rw no_room (sym (append_nil (map some txs))))
        | inr free ↦
            let small = ltb→le limit (length txs) free in
            let (tx, found) = get-some received i h.0 in
            let (out, filled, same) = further tx in
            let grown : length (txs ++ tx ∷ []) ≡ length txs + 1 = length-append txs (tx ∷ []) in
            let room : limit + 1 - length txs ≡ suc (limit + 1 - length (txs ++ tx ∷ [])) =
              omega (arith, grown) in
            (
              out,
              rw (free, found) filled,
              rw (room, found)
                  (same
                    ∙ map-push some txs tx (
                        map (get_elem? received) (take (limit + 1 - length (txs ++ tx ∷ [])) ids))),
            )
      ]

  -- Where all pending transactions have been received, on_mined makes a block of this miner on the head
  -- whose transactions are the received ones of the pending ids, in the order of the set, or of the first
  -- transactions_per_block + 1 of them where they are more.
  pub on_mined_lem :
      (next head : ℕ) (s : Miner A)
      → All (λ (i : ℕ). i < length s.received_transactions) s.pending_transactions
      → (b : Block A) × (on_mined limit next head s ≡ some b)
        × (b.id ≡ next)
        × (b.parent ≡ head)
        × (b.miner ≡ s.me)
        × (map some b.transactions
            ≡ map (get_elem? s.received_transactions) (take (limit + 1) s.pending_transactions))
  unfolding on_mined
  on_mined_lem next head s h =
      let (out, filled, same) = fill-take s.received_transactions s.pending_transactions [] h in
      let whole : limit + 1 - 0 ≡ limit + 1 = omega arith in
      (
        record { id = next; parent = head; miner = s.me; transactions = out },
        rw filled refl,
        refl,
        refl,
        refl,
        same
            ∙ ap (λ n. map (get_elem? s.received_transactions) (take n s.pending_transactions))
                whole,
      )
