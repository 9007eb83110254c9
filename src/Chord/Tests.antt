-- ===== src/Chord/Tests.antt =====
-- Networks on a ring of 8 ids: three nodes that see each other across the ring, and two that do not.
use distributedsim.Base.{
  ℕ, ◌*◌, ◌/◌, false, ◌^◌, ◌≤◌, ◌<◌, ◌≡◌, ◌≢◌, inl, inr, refl, some, List, [], ◌∷◌, arith, subst,
}
use distributedsim.Manager.{has_bigger_id, lower_bound_id, next_id}
use distributedsim.Manager.Ids.{HasId, IsOrdered}
use distributedsim.Chord.{successor, choose_finger, distance, sub64, handle_message, send}
use distributedsim.Chord.Ring.{ring, HasFar, IsNearest, successor-IsNearest}
use distributedsim.Chord.Route.{handle_message-halves, handle_message_self}
use distributedsim.Node.{Message}
use distributedsim.Chord.Program.{
  Received, none_received, complete_all, still_waiting, hop_distribution,
}
use distributedsim.Chord.Shares.{shares, hop_distribution-shares}
use distributedsim.Chord.Hops.{walk, follow, walk-delivers}

abbrev wide : List (ℕ × ℕ)
wide = (0, 0) ∷ (1, 0) ∷ (4, 0) ∷ []

abbrev close : List (ℕ × ℕ)
close = (0, 0) ∷ (1, 0) ∷ []

wide-IsOrdered : IsOrdered 0 wide
wide-IsOrdered = (omega arith, (omega arith, (omega arith, tt)))

wide_below : (j : ℕ) → HasId wide j → j < 2 ^ 3
wide_below j (inl e) = omega arith
wide_below j (inr (inl e)) = omega arith
wide_below j (inr (inr (inl e))) = omega arith
wide_below j (inr (inr (inr x))) = elim x [ ]

far_of_0 : HasFar 3 wide 0
unfolding ring
far_of_0 = (4, inr (inr (inl refl)), ground arith)

far_of_1 : HasFar 3 wide 1
unfolding ring
far_of_1 = (0, inl refl, ground arith)

far_of_4 : HasFar 3 wide 4
unfolding ring
far_of_4 = (0, inl refl, ground arith)

wide_far : (j : ℕ) → HasId wide j → HasFar 3 wide j
wide_far j (inl e) = subst (λ j. HasFar 3 wide j) e far_of_0
wide_far j (inr (inl e)) = subst (λ j. HasFar 3 wide j) e far_of_1
wide_far j (inr (inr (inl e))) = subst (λ j. HasFar 3 wide j) e far_of_4
wide_far j (inr (inr (inr x))) = elim x [ ]

successor_7 : successor 3 wide 7 ≡ some 0
unfolding successor has_bigger_id lower_bound_id next_id
successor_7 = refl

distance_7 : ring (2 ^ 3) 1 0 < 2 ^ 3
unfolding ring
distance_7 = ground arith

walk_7 : walk 4 3 wide 7 1 ≡ some (0, 1)
unfolding walk follow handle_message choose_finger distance sub64 successor has_bigger_id
    lower_bound_id next_id
walk_7 = refl

successor-IsNearest_example : (k : ℕ) × (successor 3 wide 7 ≡ some k) × IsNearest (2 ^ 3) wide 7 k
successor-IsNearest_example =
    successor-IsNearest 3 7 4 wide wide-IsOrdered wide_below (inr (inr (inl refl)))

handle_message-halves_example :
    (k : ℕ) × (handle_message 3 1 wide 7 ≡ some (send k))
    × HasId wide k
    × (k ≢ 1)
    × (2 * ring (2 ^ 3) k 0 < ring (2 ^ 3) 1 0)
handle_message-halves_example =
    handle_message-halves 3 wide (omega arith) wide-IsOrdered wide_below 1 (inr (inl refl)) 7 0
      successor_7 (inl refl) (omega arith) far_of_1

walk-delivers_example : (hops : ℕ) × (walk 4 3 wide 7 1 ≡ some (0, hops)) × (hops ≤ 3)
walk-delivers_example =
    walk-delivers 3 3 wide (omega arith) wide-IsOrdered wide_below wide_far 7 0 1 successor_7
      (inl refl) (inr (inl refl)) distance_7

close_below : (j : ℕ) → HasId close j → j < 2 ^ 3
close_below j (inl e) = omega arith
close_below j (inr (inl e)) = omega arith
close_below j (inr (inr x)) = elim x [ ]

close_0 : 2 * ring (2 ^ 3) 0 0 < 2 ^ 3
unfolding ring
close_0 = ground arith

close_1 : 2 * ring (2 ^ 3) 0 1 < 2 ^ 3
unfolding ring
close_1 = ground arith

close_near : (j : ℕ) → HasId close j → 2 * ring (2 ^ 3) 0 j < 2 ^ 3
close_near j (inl e) = subst (λ j. 2 * ring (2 ^ 3) 0 j < 2 ^ 3) e close_0
close_near j (inr (inl e)) = subst (λ j. 2 * ring (2 ^ 3) 0 j < 2 ^ 3) e close_1
close_near j (inr (inr x)) = elim x [ ]

successor_1 : successor 3 close 1 ≡ some 1
unfolding successor has_bigger_id lower_bound_id next_id
successor_1 = refl

handle_message_self_example : handle_message 3 0 close 1 ≡ some (send 0)
handle_message_self_example =
    handle_message_self 3 close (omega arith) (omega arith, (omega arith, tt)) close_below 0
      (inl refl) 1 1 2 refl successor_1 (inr (inl refl)) (omega arith) close_near

-- Three messages with one, two and one hops, where ids have three bits; the shares are per cent.
abbrev sent : ℕ → Message ℕ
sent n = record { hops = n; delay = 0; data_ = 7 }

abbrev percent : ℕ → ℕ → ℕ
percent part whole = part * 100 / whole

hop_distribution-shares_example :
    (r : Received) × (complete_all (sent 1 ∷ sent 2 ∷ sent 1 ∷ []) (none_received 3) ≡ some r)
    × (still_waiting 3 r ≡ false)
    × (hop_distribution percent 3 r ≡ some (shares percent (sent 1 ∷ sent 2 ∷ sent 1 ∷ []) 1 3))
hop_distribution-shares_example =
    hop_distribution-shares 3 percent (sent 1 ∷ sent 2 ∷ sent 1 ∷ []) (omega arith) (omega arith)

shares_run : shares percent (sent 1 ∷ sent 2 ∷ sent 1 ∷ []) 1 3 ≡ 66 ∷ 33 ∷ 0 ∷ []
unfolding shares
shares_run = refl
