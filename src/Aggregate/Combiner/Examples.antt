-- ===== src/Aggregate/Combiner/Examples.antt =====
-- The combiners on small inputs.
use mathlib.Core.List.{Permᴰ}
use kswarm.Prelude.{ℕ, ◌≡◌, refl, List, [], ◌∷◌, ok, arith, length}
use kswarm.Aggregate.Combiner.{
  sum, weighted_mean_bps, retained_values, trimmed_mean_bps, majority_vote,
}
use kswarm.Aggregate.Combiner.Mean.{Between, IsRounded, total, weighted, weighted_mean_bps_lem}
use kswarm.Aggregate.Combiner.Retained.{IsRetained, retained_values_lem}
use kswarm.Aggregate.Combiner.Trimmed.{trimmed_mean_bps_lem}
use kswarm.Aggregate.Combiner.Vote.{Wins}
use kswarm.Aggregate.Combiner.Winner.{majority_vote_lem, majority_vote_of_perm}
use kswarm.Prelude.Sort.{sort}

abbrev votes : List (ℕ × ℕ)
votes = (2, 1) ∷ (0, 3) ∷ (1, 3) ∷ (2, 1) ∷ []

abbrev votes_swapped : List (ℕ × ℕ)
votes_swapped = (0, 3) ∷ (2, 1) ∷ (1, 3) ∷ (2, 1) ∷ []

abbrev scalars : List (ℕ × ℕ)
scalars = (5000, 1) ∷ (6000, 2) ∷ (5501, 1) ∷ []

abbrev values : List ℕ
values = 5000 ∷ 9000 ∷ 5100 ∷ 4900 ∷ []

-- The lower category wins a tie.
tied_vote : majority_vote votes ≡ ok 0
unfolding majority_vote sort
tied_vote = refl

outlier_dropped : retained_values values 1 ≡ ok (5000 ∷ 5100 ∷ 4900 ∷ [])
unfolding retained_values sort
outlier_dropped = refl

mean_rounded : weighted_mean_bps scalars ≡ ok 5625
unfolding weighted_mean_bps
mean_rounded = refl

majority_vote_lem_example : (c : ℕ) × (majority_vote votes ≡ ok c) × Wins c votes
majority_vote_lem_example = majority_vote_lem votes (omega arith)

swap : Permᴰ votes votes_swapped
swap = Permᴰ.swap refl refl

majority_vote_of_perm_example : majority_vote votes ≡ majority_vote votes_swapped
majority_vote_of_perm_example = majority_vote_of_perm votes votes_swapped swap (omega arith)

retained_values_lem_example :
    (r : List ℕ) × (retained_values values 1 ≡ ok r) × IsRetained values 1 r
retained_values_lem_example = retained_values_lem values 1 (omega arith)

trimmed_mean_bps_lem_example :
    (r : List ℕ) × (m : ℕ) × (retained_values values 1 ≡ ok r)
    × (trimmed_mean_bps values 1 ≡ ok m)
    × IsRounded (sum r) (length r) m
    × Between 4900 9000 m
trimmed_mean_bps_lem_example =
    trimmed_mean_bps_lem values 1 4900 9000 (omega arith) (ground arith) (omega arith)

weighted_mean_bps_lem_example :
    (m : ℕ) × (weighted_mean_bps scalars ≡ ok m)
    × IsRounded (weighted scalars) (total scalars) m
    × Between 5000 6000 m
weighted_mean_bps_lem_example =
    weighted_mean_bps_lem scalars 5000 6000 (omega arith) (ground arith) (omega arith)
