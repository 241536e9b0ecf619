-- ===== src/Aggregate/Combiner/Winner.antt =====
-- The result of `majority_vote` of cli/kswarm_cli/aggregate.py.
use mathlib.Core.List.{Permᴰ}
use mathlib.Core.List.Permᴰ
use kswarm.Prelude.{
  All, ℕ, ◌<◌, ◌≡◌, refl, sym, ap, subst, ◌∙◌, List, [], ◌∷◌, length, arith, ok, ◌==◌, false,
}
use kswarm.Prelude.Sort.{sort, sort-permᴰ, IsSorted, sort-IsSorted, IsTotalOrder}
use kswarm.Aggregate.Combiner.{count_votes, by_votes, winner, majority_vote}
use kswarm.Aggregate.Combiner.Mean.{total}
use kswarm.Aggregate.Combiner.Vote.{
  tally, tally-count_votes, tally-permᴰ, IsTable-permᴰ, count_votes-IsTable, Wins, first-Wins,
}

by_votes-IsTotalOrder : IsTotalOrder by_votes
by_votes-IsTotalOrder = record { total = λ a b h. ground arith; trans = λ a b c h k. ground arith }

-- Counting starts from an empty table.
tally-totals : (votes : List (ℕ × ℕ)) (d : ℕ) → tally d (count_votes votes []) ≡ tally d votes
unfolding tally
tally-totals votes d = omega (arith, tally-count_votes d votes [])

tally-nil : (d : ℕ) → tally d [] ≡ 0
unfolding tally
tally-nil d = refl

total_zero : (votes : List (ℕ × ℕ)) → ((d : ℕ) → tally d votes ≡ 0) → total votes ≡ 0
unfolding tally
total_zero [] h = refl
total_zero ((c, w) ∷ votes) h =
    let own : w ≡ 0 = ground (arith, h c) in
    omega (arith, own, total_zero votes (λ d. ground (arith, h d)))

Wins-of_tally :
    (c : ℕ) (xs ys : List (ℕ × ℕ)) → ((d : ℕ) → tally d xs ≡ tally d ys) → Wins c xs → Wins c ys
Wins-of_tally c xs ys e h = record {
  voted = omega (arith, e c, h.voted);
  beats = λ d. ground (arith, e c, e d, h.beats d);
}

module _ (votes : List (ℕ × ℕ)) where
  abbrev ranking : List (ℕ × ℕ)
  ranking = sort by_votes (count_votes votes [])

  sorted_winner :
      (s : List (ℕ × ℕ))
      → ranking ≡ s
      → 0 < total votes
      → (c : ℕ) × (winner s ≡ ok c) × Wins c votes
  unfolding winner tally
  sorted_winner [] e h =
      let p = subst (λ l. Permᴰ l (count_votes votes [])) e (sort-permᴰ by_votes _) in
      absurd (
        omega (arith, total_zero votes (λ d. omega (arith, tally-totals votes d, tally-permᴰ d p))))
  sorted_winner ((c, w) ∷ rest) e h =
      let p = subst (λ l. Permᴰ l (count_votes votes [])) e (sort-permᴰ by_votes _) in
      let table = IsTable-permᴰ (Permᴰ.symm p) (count_votes-IsTable votes [] tt) in
      let sorted =
        subst (IsSorted by_votes) e
          (sort-IsSorted by_votes by_votes-IsTotalOrder (count_votes votes [])) in
      (
        c,
        refl,
        Wins-of_tally c ((c, w) ∷ rest) votes (λ d. tally-permᴰ d p ∙ tally-totals votes d)
            (first-Wins c w rest table sorted),
      )

  totals_nonempty : 0 < total votes → (length (count_votes votes []) == 0) ≡ false
  totals_nonempty h = nonempty (count_votes votes []) refl
    where
      nonempty : (t : List (ℕ × ℕ)) → count_votes votes [] ≡ t → (length t == 0) ≡ false
      nonempty [] e = absurd (
          omega (
            arith,
            total_zero votes (λ d. sym (tally-totals votes d) ∙ ap (tally d) e ∙ tally-nil d),
          ))
      nonempty (x ∷ xs) e = ground arith

-- Votes with a total weight above 0 have a winner: its weight is above 0, every other category has
-- less weight, or as much and a number that is no lower.
pub majority_vote_lem :
    (votes : List (ℕ × ℕ)) → 0 < total votes → (c : ℕ) × (majority_vote votes ≡ ok c) × Wins c votes
unfolding majority_vote
majority_vote_lem [] h = elim h [ ]
majority_vote_lem (v ∷ vs) h =
    let (c, e, wins) = sorted_winner (v ∷ vs) _ refl h in
    (c, rw (totals_nonempty (v ∷ vs) h) e, wins)

-- There is one winner at most.
Wins-unique : (c d : ℕ) (votes : List (ℕ × ℕ)) → Wins c votes → Wins d votes → c ≡ d
Wins-unique c d votes h k = ground (arith, h.beats d, k.beats c)

total-permᴰ : {xs ys : List (ℕ × ℕ)} → Permᴰ xs ys → total xs ≡ total ys
total-permᴰ Permᴰ.nil = refl
total-permᴰ (Permᴰ.cons e p) = ground (arith, e, total-permᴰ p)
total-permᴰ (Permᴰ.swap e e') = ground (arith, e, e')
total-permᴰ (Permᴰ.trans p q) = total-permᴰ p ∙ total-permᴰ q

-- Permutations of votes with a total weight above 0 have the same result, although the table of
-- totals depends on the order.
pub majority_vote_of_perm :
    (xs ys : List (ℕ × ℕ)) → Permᴰ xs ys → 0 < total xs → majority_vote xs ≡ majority_vote ys
majority_vote_of_perm xs ys p h =
    let (c, e, wins) = majority_vote_lem xs h in
    let (d, f, wins') = majority_vote_lem ys (omega (arith, total-permᴰ p)) in
    let same = Wins-unique c d ys (Wins-of_tally c xs ys (λ k. tally-permᴰ k p) wins) wins' in
    e ∙ ap ok same ∙ sym f

-- A winner is a category that was voted for.
tally_below :
    (c n : ℕ) (votes : List (ℕ × ℕ)) → All (λ p. p.0 < n) votes → 0 < tally c votes → c < n
unfolding tally
tally_below c n [] h t = elim t [ ]
tally_below c n ((d, w) ∷ votes) h t = ground (arith, h.0, tally_below c n votes h.1)

pub winner_below :
    (n : ℕ) (votes : List (ℕ × ℕ))
    → All (λ p. p.0 < n) votes
    → 0 < total votes
    → (c : ℕ) × (majority_vote votes ≡ ok c) × (c < n)
winner_below n votes h t =
    let (c, e, wins) = majority_vote_lem votes t in (c, e, tally_below c n votes h wins.voted)
