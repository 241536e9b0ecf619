-- ===== src/Aggregate/Reduce/Collect.antt =====
-- What the branch loop of `reduce_aggregate_artifact` (cli/kswarm_cli/aggregate.py) keeps true of the
-- lists that it collects.
use mathlib.Core.List.{map-append}
use kswarm.Prelude.{
  ℕ, ◌≤◌, ◌<◌, ◌≡◌, refl, true, false, Option, List, [], ◌∷◌, ◌++◌, map, length, length-append, All,
  All-append, arith, subst, Result-cases, Returns, ◌==◌, Bool-cases, Option-cases, inl, inr,
}
use kswarm.Prelude.Bytes.{Bytes}
use kswarm.Json.{Json}
use kswarm.Aggregate.Combiner.{bps_scale}
use kswarm.Aggregate.Receipt.{BranchReceipt}
use kswarm.Aggregate.Receipt.Accepted.{AtMost, parse-IsAccepted}
use kswarm.Aggregate.Reduce.{Collected, nothing_collected, collect, read_branch, read_branches}

abbrev pub ScalarFits : ℕ × ℕ → Type 0
ScalarFits p = (p.0 ≤ bps_scale) × (0 < p.1)

abbrev pub VoteFits : ℕ → ℕ × ℕ → Type 0
VoteFits dictionary_size p = (p.0 < dictionary_size) × (0 < p.1)

-- Scalars lie in range, labels in the dictionary, weights are positive, and each branch has left one
-- entry: a vote for majority voting, a scalar for the means.
pub record IsCollected (combiner_id dictionary_size : ℕ) (c : Collected) : Type 0 where
  pub scalars_fit : All ScalarFits c.scalars
  pub values : map (λ p. p.0) c.scalars ≡ c.scalar_values
  pub votes_fit : All (VoteFits dictionary_size) c.votes
  pub one_vote : (combiner_id == 3) ≡ true → length c.votes ≡ length c.branch_hashes
  pub one_scalar : (combiner_id == 3) ≡ false → length c.scalars ≡ length c.branch_hashes

module _ (combiner_id dictionary_size : ℕ) where
  abbrev P : Collected → Type 0
  P = IsCollected combiner_id dictionary_size

  pub nothing-IsCollected : P nothing_collected
  nothing-IsCollected = record {
    scalars_fit = tt;
    values = refl;
    votes_fit = tt;
    one_vote = λ _. refl;
    one_scalar = λ _. refl;
  }

  add_vote-IsCollected :
      (c : Collected) (hash : Bytes) (index : Option ℕ) (label weight : ℕ)
      → P c
      → (combiner_id == 3) ≡ true
      → label < dictionary_size
      → 0 < weight
      → P (record c {
        branch_hashes = c.branch_hashes ++ (hash ∷ []);
        previous_index = index;
        votes = c.votes ++ ((label, weight) ∷ []);
      })
  add_vote-IsCollected c hash index label weight h e fits heavy = record {
    scalars_fit = h.scalars_fit;
    values = h.values;
    votes_fit = All-append (VoteFits dictionary_size) c.votes _ h.votes_fit ((fits, heavy), tt);
    one_vote =
        λ e'. rw (length-append c.votes _, length-append c.branch_hashes _, h.one_vote e') refl;
    one_scalar = λ e'. absurd (cc);
  }

  add_scalar-IsCollected :
      (c : Collected) (hash : Bytes) (index : Option ℕ) (value weight : ℕ)
      → P c
      → (combiner_id == 3) ≡ false
      → value ≤ bps_scale
      → 0 < weight
      → P (record c {
        branch_hashes = c.branch_hashes ++ (hash ∷ []);
        previous_index = index;
        scalars = c.scalars ++ ((value, weight) ∷ []);
        scalar_values = c.scalar_values ++ (value ∷ []);
      })
  add_scalar-IsCollected c hash index value weight h e fits heavy = record {
    scalars_fit = All-append ScalarFits c.scalars _ h.scalars_fit ((fits, heavy), tt);
    values = rw (map-append (λ p. p.0) c.scalars _, h.values) refl;
    votes_fit = h.votes_fit;
    one_vote = λ e'. absurd (cc);
    one_scalar =
        λ e'. rw (length-append c.scalars _, length-append c.branch_hashes _, h.one_scalar e') refl;
  }

  -- The receipt's entry joins the lists, for a branch whose hash stands in front of it.
  collect-IsCollected :
      (r : BranchReceipt) (weight : ℕ) (c : Collected) (hash : Bytes) (index : Option ℕ)
      → P c
      → AtMost bps_scale r.scalar_value_bps
      → 0 < weight
      → Returns P (
          collect combiner_id dictionary_size r weight
            (record c { branch_hashes = c.branch_hashes ++ (hash ∷ []); previous_index = index }))
  unfolding collect
  collect-IsCollected r weight c hash index h fits heavy = elim (Bool-cases (combiner_id == 3)) [
    | inl e ↦ elim (Option-cases r.categorical_label_index) [
      | inl s ↦ ground (arith)
      | inr (label, s) ↦ ground (arith, add_vote-IsCollected c hash index label weight h e)
    ]
    | inr e ↦ elim (Option-cases r.scalar_value_bps) [
      | inl s ↦ ground (arith)
      | inr (value, s) ↦ ground (arith, add_scalar-IsCollected c hash index value weight h e)
    ]
  ]

  module _ (sha256 : Bytes → Bytes) where
    read_branch-IsCollected :
        (c : Collected) (entry : Json)
        → P c
        → Returns P (read_branch sha256 combiner_id dictionary_size c entry)
    unfolding read_branch
    read_branch-IsCollected c entry h = grind (arith, parse-IsAccepted, collect-IsCollected)

    pub read_branches-IsCollected :
        (entries : List Json) (c : Collected)
        → P c
        → Returns P (read_branches sha256 combiner_id dictionary_size c entries)
    unfolding read_branches
    read_branches-IsCollected [] c h = h
    read_branches-IsCollected (entry ∷ rest) c h =
        elim (Result-cases (read_branch sha256 combiner_id dictionary_size c entry)) [
          | inl (c', e) ↦ rw e (
              read_branches-IsCollected rest c'
                (subst (Returns P) e (read_branch-IsCollected c entry h)))
          | inr (x, e) ↦ rw e tt
        ]
