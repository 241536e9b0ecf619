-- ===== src/Aggregate/Reduce/Examples.antt =====
-- The reduction of an artifact with one branch.
use kswarm.Prelude.{ℕ, ◌≡◌, inl, refl, [], ◌∷◌, none, ok, arith}
use kswarm.Samples.{toy_sha256}
use kswarm.Aggregate.Reduce.{Collected, combine}
use kswarm.Aggregate.Reduce.Bounds.{InRange, combine_lem}
use kswarm.Aggregate.Reduce.Collect.{IsCollected}
use kswarm.Aggregate.Reduce.Fixture.{loads, reduction, reduced}
use kswarm.Aggregate.Reduce.Sound.{IsSound, reduce_aggregate_artifact-IsSound}

reduce_aggregate_artifact-IsSound_example : IsSound toy_sha256 reduction
reduce_aggregate_artifact-IsSound_example =
    reduce_aggregate_artifact-IsSound toy_sha256 loads [] reduction reduced

-- Two scalars, the second with weight 3.
abbrev collected : Collected
collected = record {
  branch_hashes = (1 ∷ []) ∷ (2 ∷ []) ∷ [];
  scalars = (4000, 1) ∷ (8000, 3) ∷ [];
  scalar_values = 4000 ∷ 8000 ∷ [];
  votes = [];
  previous_index = none;
}

collected-IsCollected : IsCollected 1 0 collected
collected-IsCollected = record {
  scalars_fit = ((omega arith, omega arith), ((omega arith, omega arith), tt));
  values = refl;
  votes_fit = tt;
  one_vote = λ e. absurd (ground arith);
  one_scalar = λ e. refl;
}

combine_lem_example : (v : ℕ) × (combine 1 0 collected ≡ ok v) × InRange 1 0 v
combine_lem_example = combine_lem 1 0 0 collected collected-IsCollected (omega arith) (inl refl)
