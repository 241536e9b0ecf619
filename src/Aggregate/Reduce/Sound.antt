-- ===== src/Aggregate/Reduce/Sound.antt =====
-- What holds of a reduction that `reduce_aggregate_artifact` (cli/kswarm_cli/aggregate.py) returns.
use text.Mathlib.Text.{◌==◌ as str_eq}
use kswarm.Prelude.{
  ℕ, ◌+◌, ◌≤◌, ◌<◌, ◌≡◌, refl, subst, not, Option, some, List, [], ◌∷◌, length, length-append,
  arith, ok, Returns, Ensures, Ensures-bind, Ensures-of_Returns, Result-cases, raise_if, ◌==◌, ltb,
  inl, inr, String,
}
use kswarm.Aggregate.Error.{
  no_branches, too_many_branches, bad_schema, bad_schema_version, unknown_combiner,
  combiner_mismatch, not_json,
}
use kswarm.Prelude.Bytes.{Bytes}
use kswarm.Json.{Json, get, Json.obj}
use kswarm.Aggregate.Merkle.{sorted_branches_merkle_root}
use kswarm.Aggregate.Receipt.{BranchReceipt, or_raise}
use kswarm.Json.{Fields}
use kswarm.Aggregate.Fields.{unsigned_or_zero, string_field, unsigned_field}
use kswarm.Aggregate.Reduce.{
  AggregateReduction, Collected, nothing_collected, collect, combine, combiner_name,
  combiner_params_digest, read_branch, read_branches, reduce_branches, reduce_fields, reduce_value,
  reduce_aggregate_artifact, as_array, parameters_of,
}
use kswarm.Aggregate.Reduce.Bounds.{InRange, combine-InRange}
use kswarm.Aggregate.Reduce.Collect.{IsCollected, nothing-IsCollected, read_branches-IsCollected}

-- A result in the range of its combiner, from one to 128 branches, the root of their hashes and the
-- digest of the parameters.
pub record IsSound (sha256 : Bytes → Bytes) (r : AggregateReduction) : Type 0 where
  pub known : (name : String) × (combiner_name r.combiner_id ≡ some name)
  pub in_range : InRange r.combiner_id r.category_dictionary_size r.result_value
  pub counted : r.branch_count ≡ length r.branch_hashes
  pub some_branch : 0 < r.branch_count
  pub few_branches : r.branch_count ≤ 128
  pub root : sorted_branches_merkle_root sha256 r.branch_hashes ≡ ok r.merkle_root
  pub digest :
      r.params_digest
      ≡ combiner_params_digest sha256 r.combiner_id r.trim_bps r.category_dictionary_size

module _ (sha256 : Bytes → Bytes) where
  module _ (combiner_id dictionary_size : ℕ) where
    abbrev Adds : Collected → ℕ → Collected → Type 0
    Adds c n c' = length c'.branch_hashes ≡ length c.branch_hashes + n

    collect-Adds :
        (c : Collected) (r : BranchReceipt) (weight : ℕ)
        → Returns (Adds c 0) (collect combiner_id dictionary_size r weight c)
    unfolding collect
    collect-Adds c r weight = ground arith

    read_branch-Adds :
        (c : Collected) (entry : Json)
        → Returns (Adds c 1) (read_branch sha256 combiner_id dictionary_size c entry)
    unfolding read_branch
    read_branch-Adds c entry = grind (arith, collect-Adds, length-append)

    read_branches-Adds :
        (entries : List Json) (c : Collected)
        → Returns
            (Adds c (length entries))
            (read_branches sha256 combiner_id dictionary_size c entries)
    unfolding read_branches
    read_branches-Adds [] c = omega arith
    read_branches-Adds (entry ∷ rest) c =
        elim (Result-cases (read_branch sha256 combiner_id dictionary_size c entry)) [
          | inl (c', e) ↦
              let one = subst (Returns (Adds c 1)) e (read_branch-Adds c entry) in
              ground (arith, read_branches-Adds rest c')
          | inr (x, e) ↦ rw e tt
        ]

  reduce_branches-IsSound :
      (combiner_id : ℕ) (name : String) (parameters : Fields) (branches_value : Json)
      → combiner_name combiner_id ≡ some name
      → Ensures (IsSound sha256) (reduce_branches sha256 combiner_id parameters branches_value)
  unfolding reduce_branches
  reduce_branches-IsSound combiner_id name parameters branches_value known =
      Ensures-bind {m = unsigned_or_zero parameters "trim_bps"} λ trim_bps _.
        Ensures-bind {m = unsigned_or_zero parameters "category_dictionary_size"}
          λ dictionary_size _. Ensures-bind {m = as_array branches_value} λ entries _.
            Ensures-bind {m = raise_if (length entries == 0) no_branches} λ _ nonempty.
              Ensures-bind {m = raise_if (ltb 128 (length entries)) too_many_branches} λ _ few.
                Ensures-bind
                  {m = read_branches sha256 combiner_id dictionary_size nothing_collected entries}
                  λ c read.
                    Ensures-bind {m = combine combiner_id trim_bps c} λ result_value combined.
                      Ensures-bind {m = sorted_branches_merkle_root sha256 c.branch_hashes}
                        λ merkle_root root.
                          let h = subst (Returns (IsCollected combiner_id dictionary_size)) read (
                            read_branches-IsCollected combiner_id dictionary_size sha256 entries
                              nothing_collected
                              (nothing-IsCollected combiner_id dictionary_size)) in
                          let n =
                            subst
                              (Returns (
                                Adds combiner_id dictionary_size nothing_collected
                                  (length entries)))
                              read
                              (read_branches-Adds combiner_id dictionary_size entries
                                nothing_collected) in
                          Ensures-of_Returns _ (record {
                            known = (name, known);
                            in_range =
                                subst (Returns (InRange combiner_id dictionary_size)) combined (
                                  combine-InRange combiner_id trim_bps dictionary_size c name h
                                    (ground arith) known);
                            counted = refl;
                            some_branch = ground arith;
                            few_branches = ground arith;
                            root = root;
                            digest = refl;
                          })

  reduce_fields-IsSound : (value : Fields) → Ensures (IsSound sha256) (reduce_fields sha256 value)
  unfolding reduce_fields
  reduce_fields-IsSound value = Ensures-bind {m = string_field value "schema"} λ schema _.
      Ensures-bind {m = raise_if (not (str_eq schema "MFA3")) bad_schema} λ _ _.
        Ensures-bind {m = unsigned_field value "schema_version"} λ schema_version _.
          Ensures-bind {m = raise_if (not (schema_version == 3)) bad_schema_version} λ _ _.
            Ensures-bind {m = unsigned_field value "combiner_id"} λ combiner_id _.
              Ensures-bind {m = or_raise (combiner_name combiner_id) unknown_combiner} λ name known.
                Ensures-bind {m = string_field value "combiner"} λ combiner _.
                  Ensures-bind {m = raise_if (not (str_eq name combiner)) combiner_mismatch} λ _ _.
                    Ensures-bind {m = parameters_of (get value "combiner_parameters")}
                      λ parameters _.
                        reduce_branches-IsSound combiner_id name parameters _ (ground arith)

  reduce_value-IsSound : (value : Json) → Ensures (IsSound sha256) (reduce_value sha256 value)
  unfolding reduce_value
  reduce_value-IsSound (obj value) = reduce_fields-IsSound value
  reduce_value-IsSound value = Ensures-of_Returns _ tt

  module _ (loads : Bytes → Option Json) where
    -- Whatever JSON the artifact holds, a reduction that is returned names a registered combiner;
    -- its result is a label below the dictionary size for majority voting and at most 10000 for
    -- the means; it counts its branch hashes, from 1 to 128 of them; its root is the Merkle root
    -- of those hashes, and its parameter digest that of its parameters.
    pub reduce_aggregate_artifact-IsSound :
        (artifact : Bytes) (reduction : AggregateReduction)
        → reduce_aggregate_artifact sha256 loads artifact ≡ ok reduction
        → IsSound sha256 reduction
    unfolding reduce_aggregate_artifact
    reduce_aggregate_artifact-IsSound artifact reduction run =
        (Ensures-bind {m = or_raise (loads artifact) not_json}
            λ value _. reduce_value-IsSound value).at
          reduction run
