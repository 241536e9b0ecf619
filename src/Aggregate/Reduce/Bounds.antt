-- ===== src/Aggregate/Reduce/Bounds.antt =====
-- The range of the value that `reduce_aggregate_artifact` (cli/kswarm_cli/aggregate.py) returns.
use kswarm.Prelude.{
  if◌then◌else◌, ℕ, ◌≤◌, ◌<◌, ◌≡◌, refl, ap, sym, subst, some, List, [], ◌∷◌, map, length, All,
  arith, ok, err, Returns, ◌==◌, inl, inr, ◌⊎◌, eq→==, String, err, length-map, ◌∙◌,
}
use kswarm.Aggregate.Combiner.{bps_scale}
use kswarm.Aggregate.Combiner.Mean.{Between, total, weighted_mean_bps_lem}
use kswarm.Aggregate.Combiner.Trimmed.{
  trimmed_mean_bps_lem, trim_count_from_bps_lem, trim_count_from_bps_refused,
}
use kswarm.Aggregate.Combiner.Winner.{winner_below}
use kswarm.Aggregate.Error.{Error, bad_trim_bps}
use kswarm.Aggregate.Reduce.{combiner_name, Collected, combine}
use kswarm.Aggregate.Reduce.Collect.{IsCollected, ScalarFits, VoteFits}

total_pos :
    (P : ℕ × ℕ → Type 0) (ps : List (ℕ × ℕ))
    → ((p : ℕ × ℕ) → P p → 0 < p.1)
    → All P ps
    → 0 < length ps
    → 0 < total ps
total_pos P [] k h n = elim n [ ]
total_pos P ((v, w) ∷ ps) k h n = ground (arith, k (v, w) h.0)

scalars-Between : (ps : List (ℕ × ℕ)) → All ScalarFits ps → All (λ p. Between 0 bps_scale p.0) ps
scalars-Between [] h = tt
scalars-Between (p ∷ ps) h = ((omega arith, h.0.0), scalars-Between ps h.1)

values-Between :
    (ps : List (ℕ × ℕ)) → All ScalarFits ps → All (Between 0 bps_scale) (map (λ p. p.0) ps)
values-Between [] h = tt
values-Between (p ∷ ps) h = ((omega arith, h.0.0), values-Between ps h.1)

labels_below : (d : ℕ) (ps : List (ℕ × ℕ)) → All (VoteFits d) ps → All (λ p. p.0 < d) ps
labels_below d [] h = tt
labels_below d (p ∷ ps) h = (h.0.0, labels_below d ps h.1)

-- A label of the dictionary for the vote, basis points for the means.
abbrev pub InRange : ℕ → ℕ → ℕ → Type 0
InRange combiner_id dictionary_size v =
    if combiner_id == 3 then v < dictionary_size else v ≤ bps_scale

module _ (combiner_id trim_bps dictionary_size : ℕ) where
  abbrev Combines : Collected → Type 0
  Combines c =
      (v : ℕ) × (combine combiner_id trim_bps c ≡ ok v) × InRange combiner_id dictionary_size v

  combine-vote :
      (c : Collected)
      → combiner_id ≡ 3
      → IsCollected combiner_id dictionary_size c
      → 0 < length c.branch_hashes
      → Combines c
  unfolding combine
  combine-vote c e h n =
      let same = h.one_vote (eq→== combiner_id 3 e) in
      let (v, run, below) =
        winner_below dictionary_size c.votes (labels_below _ c.votes h.votes_fit)
          (total_pos (VoteFits dictionary_size) c.votes (λ p k. k.1) h.votes_fit (omega arith)) in
      (v, ground arith, ground arith)

  combine-mean :
      (c : Collected)
      → combiner_id ≡ 1
      → IsCollected combiner_id dictionary_size c
      → 0 < length c.branch_hashes
      → Combines c
  unfolding combine
  combine-mean c e h n =
      let same = h.one_scalar (ground arith) in
      let (v, run, rounded, range) =
        weighted_mean_bps_lem c.scalars 0 bps_scale (omega arith)
          (scalars-Between c.scalars h.scalars_fit)
          (total_pos ScalarFits c.scalars (λ p k. k.1) h.scalars_fit (omega arith)) in
      (v, ground arith, ground arith)

  combine-trimmed :
      (c : Collected)
      → combiner_id ≡ 2
      → trim_bps < bps_scale
      → IsCollected combiner_id dictionary_size c
      → 0 < length c.branch_hashes
      → Combines c
  unfolding combine
  combine-trimmed c e low h n =
      let same = h.one_scalar (ground arith) in
      let count : length c.scalar_values ≡ length c.scalars =
        ap length (sym h.values) ∙ length-map (λ p. p.0) c.scalars in
      let (k, few, less) =
        trim_count_from_bps_lem (length c.scalar_values) trim_bps (omega arith) low in
      let (r, v, kept, run, rounded, range) =
        trimmed_mean_bps_lem c.scalar_values k 0 bps_scale (omega arith)
          (subst (All (Between 0 bps_scale)) h.values (values-Between c.scalars h.scalars_fit))
          less in
      (v, ground arith, ground arith)

  -- For what the branch loop keeps true of its lists, at least one branch hash, and a weighted
  -- mean, a trimmed mean with a share below 10000 or a majority vote, the combination raises no
  -- error, and its value is a label below the dictionary size or at most 10000.
  pub combine_lem :
      (c : Collected)
      → IsCollected combiner_id dictionary_size c
      → 0 < length c.branch_hashes
      → (combiner_id ≡ 1) ⊎ ((combiner_id ≡ 2) × (trim_bps < bps_scale)) ⊎ (combiner_id ≡ 3)
      → Combines c
  combine_lem c h n (inl e) = combine-mean c e h n
  combine_lem c h n (inr (inl (e, low))) = combine-trimmed c e low h n
  combine_lem c h n (inr (inr e)) = combine-vote c e h n

  combine-refused :
      (c : Collected)
      → combiner_id ≡ 2
      → bps_scale ≤ trim_bps
      → (e : Error) × (combine combiner_id trim_bps c ≡ err e)
  unfolding combine
  combine-refused c e high = (
    bad_trim_bps,
    rw (e, trim_count_from_bps_refused (length c.scalar_values) trim_bps high) refl,
  )

  pub combine-InRange :
      (c : Collected) (name : String)
      → IsCollected combiner_id dictionary_size c
      → 0 < length c.branch_hashes
      → combiner_name combiner_id ≡ some name
      → Returns (InRange combiner_id dictionary_size) (combine combiner_id trim_bps c)
  unfolding combiner_name
  combine-InRange c name h n known = ground (arith, combine_lem c h n, combine-refused c)
