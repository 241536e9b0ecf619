-- ===== src/Aggregate/Reduce.antt =====
-- `reduce_aggregate_artifact`, `combiner_params_digest` and `aggregate_committed_outputs` of
-- cli/kswarm_cli/aggregate.py. `json.loads` is a parameter: what it makes of the artifact's bytes.
pub mod Collect
pub mod Bounds
pub mod Sound
pub mod Fixture
mod Examples
use text.Mathlib.Text.{◌==◌ as str_eq}
use kswarm.Prelude.{
  ℕ, zero, suc, ◌+◌, Bool, true, false, not, ◌&&◌, ◌||◌, Option, none, some, List, [], ◌∷◌, ◌++◌,
  String, length, ltb, leb, ◌==◌, if◌then◌else◌, Result, ok, err, ◌>>=◌, ◌>>◌, raise_if,
}
use kswarm.Prelude.Bytes.{Bytes, bytes_eq}
use kswarm.Prelude.Text.{codes, decimal}
use kswarm.Prelude.Words.{pack}
use kswarm.Json.{Json, Fields, arr, obj, get, items}
use kswarm.Aggregate.Combiner.{
  weighted_mean_bps, trimmed_mean_bps, trim_count_from_bps, majority_vote,
}
use kswarm.Aggregate.Merkle.{sorted_branches_merkle_root}
use kswarm.Aggregate.Receipt.{
  OutputKind, scalar, categorical, narrative_with_scalar, BranchReceipt, or_raise,
  parse_branch_result_bytes,
}
use kswarm.Aggregate.Fields.{string_field, unsigned_field, unsigned_or_zero, hex_field}
use kswarm.Aggregate.Error.{
  Outcome, not_json, not_object, bad_schema, bad_schema_version, unknown_combiner,
  combiner_mismatch, bad_parameters, branches_not_array, no_branches, too_many_branches,
  branch_not_object, index_not_increasing, index_mismatch, hash_mismatch, weight_zero,
  weight_ignored, no_label, no_dictionary, label_outside, no_scalar, wrong_output_length,
  struct_error,
}

pub record AggregateReduction : Type 0 where
  pub combiner_id : ℕ
  pub trim_bps : ℕ
  pub category_dictionary_size : ℕ
  pub params_digest : Bytes
  pub result_value : ℕ
  pub branch_count : ℕ
  pub branch_hashes : List Bytes
  pub merkle_root : Bytes

-- `COMBINER_NAMES`
unfoldable pub combiner_name : ℕ → Option String
combiner_name id =
    if id == 1
    then some "weighted-mean"
    else if id == 2
    then some "trimmed-mean"
    else if id == 3
    then some "majority-vote"
    else none

-- `combiner_params_canonical_bytes`: the text is ASCII, so its code points are its bytes.
unfoldable pub combiner_params_canonical_bytes : ℕ → ℕ → ℕ → Bytes
combiner_params_canonical_bytes combiner_id trim_bps category_dictionary_size =
    codes "kswarm-combiner-params-v1|combiner_id="
    ++ (decimal combiner_id
        ++ (codes "|trim_bps="
            ++ (decimal trim_bps
                ++ (codes "|category_dictionary_size=" ++ decimal category_dictionary_size))))

-- What the loop over the branches has collected. The source appends to four lists; the newest
-- entry stands last.
pub record Collected : Type 0 where
  pub branch_hashes : List Bytes
  pub scalars : List (ℕ × ℕ)
  pub scalar_values : List ℕ
  pub votes : List (ℕ × ℕ)
  pub previous_index : Option ℕ

abbrev pub nothing_collected : Collected
nothing_collected = record {
  branch_hashes = [];
  scalars = [];
  scalar_values = [];
  votes = [];
  previous_index = none;
}

-- `previous_index is not None and declared_index <= previous_index`
unfoldable pub not_increasing : Option ℕ → ℕ → Bool
not_increasing none declared = false
not_increasing (some previous) declared = leb declared previous

-- `SCALAR_OUTPUT_KINDS`
unfoldable pub is_scalar_kind : OutputKind → Bool
is_scalar_kind categorical = false
is_scalar_kind _ = true

abbrev pub as_object : Json → Outcome Fields
as_object (obj fields) = ok fields
as_object _ = err branch_not_object

abbrev pub as_array : Json → Outcome (List Json)
as_array (arr vs) = ok (items vs)
as_array _ = err branches_not_array

abbrev pub parameters_of : Json → Outcome Fields
parameters_of (obj fields) = ok fields
parameters_of _ = err bad_parameters

-- The vote or the scalar of a branch, for the combiner.
unfoldable pub collect : ℕ → ℕ → BranchReceipt → ℕ → Collected → Outcome Collected
unfolding is_scalar_kind
collect combiner_id dictionary_size receipt weight so_far =
    if combiner_id == 3
    then (do
      label ← or_raise receipt.categorical_label_index no_label
      raise_if (dictionary_size == 0) no_dictionary
      raise_if (leb dictionary_size label) label_outside
      ok (record so_far { votes = so_far.votes ++ ((label, weight) ∷ []) }))
    else (do
      raise_if (not (is_scalar_kind receipt.output_kind)) no_scalar
      value ← or_raise receipt.scalar_value_bps no_scalar
      ok (record so_far {
        scalars = so_far.scalars ++ ((value, weight) ∷ []);
        scalar_values = so_far.scalar_values ++ (value ∷ []);
      }))

-- The combiner's result for what the loop collected.
unfoldable pub combine : ℕ → ℕ → Collected → Outcome ℕ
combine combiner_id trim_bps c =
    if combiner_id == 1
    then weighted_mean_bps c.scalars
    else if combiner_id == 2
    then (do
      count ← trim_count_from_bps (length c.scalar_values) trim_bps
      trimmed_mean_bps c.scalar_values count)
    else majority_vote c.votes

module _ (sha256 : Bytes → Bytes) where
  unfoldable pub combiner_params_digest : ℕ → ℕ → ℕ → Bytes
  unfolding combiner_params_canonical_bytes
  combiner_params_digest combiner_id trim_bps category_dictionary_size =
      sha256 (combiner_params_canonical_bytes combiner_id trim_bps category_dictionary_size)

  -- One round of the loop over the branches.
  unfoldable pub read_branch : ℕ → ℕ → Collected → Json → Outcome Collected
  unfolding collect not_increasing
  read_branch combiner_id dictionary_size so_far entry = do
    branch ← as_object entry
    declared_index ← unsigned_field branch "branch_index"
    raise_if (not_increasing so_far.previous_index declared_index) index_not_increasing
    receipt_bytes ← hex_field branch "result_bytes"
    receipt ← parse_branch_result_bytes sha256 receipt_bytes
    raise_if (not (receipt.branch_index == declared_index)) index_mismatch
    declared_hash ← hex_field branch "result_hash"
    raise_if (not (bytes_eq declared_hash receipt.result_hash)) hash_mismatch
    weight ← unsigned_field branch "weight"
    raise_if (weight == 0) weight_zero
    raise_if (combiner_id == 2 && not (weight == 1)) weight_ignored
    collect combiner_id dictionary_size receipt weight (record so_far {
      branch_hashes = so_far.branch_hashes ++ (receipt.result_hash ∷ []);
      previous_index = some declared_index;
    })

  unfoldable pub read_branches : ℕ → ℕ → Collected → List Json → Outcome Collected
  unfolding read_branch
  read_branches combiner_id dictionary_size so_far [] = ok so_far
  read_branches combiner_id dictionary_size so_far (entry ∷ rest) = do
    so_far' ← read_branch combiner_id dictionary_size so_far entry
    read_branches combiner_id dictionary_size so_far' rest

  -- From the checked header on: the parameters, the branches and the result.
  unfoldable pub reduce_branches : ℕ → Fields → Json → Outcome AggregateReduction
  unfolding read_branches combine combiner_params_digest
  reduce_branches combiner_id parameters branches_value = do
    trim_bps ← unsigned_or_zero parameters "trim_bps"
    dictionary_size ← unsigned_or_zero parameters "category_dictionary_size"
    branches ← as_array branches_value
    raise_if (length branches == 0) no_branches
    raise_if (ltb 128 (length branches)) too_many_branches
    collected ← read_branches combiner_id dictionary_size nothing_collected branches
    result_value ← combine combiner_id trim_bps collected
    merkle_root ← sorted_branches_merkle_root sha256 collected.branch_hashes
    ok (record {
      combiner_id = combiner_id;
      trim_bps = trim_bps;
      category_dictionary_size = dictionary_size;
      params_digest = combiner_params_digest combiner_id trim_bps dictionary_size;
      result_value = result_value;
      branch_count = length collected.branch_hashes;
      branch_hashes = collected.branch_hashes;
      merkle_root = merkle_root;
    })

  -- The checks on the artifact's object.
  unfoldable pub reduce_fields : Fields → Outcome AggregateReduction
  unfolding reduce_branches combiner_name
  reduce_fields value = do
    schema ← string_field value "schema"
    raise_if (not (str_eq schema "MFA3")) bad_schema
    schema_version ← unsigned_field value "schema_version"
    raise_if (not (schema_version == 3)) bad_schema_version
    combiner_id ← unsigned_field value "combiner_id"
    name ← or_raise (combiner_name combiner_id) unknown_combiner
    combiner ← string_field value "combiner"
    raise_if (not (str_eq name combiner)) combiner_mismatch
    parameters ← parameters_of (get value "combiner_parameters")
    reduce_branches combiner_id parameters (get value "branches")

  unfoldable pub reduce_value : Json → Outcome AggregateReduction
  unfolding reduce_fields
  reduce_value (obj value) = reduce_fields value
  reduce_value _ = err not_object

  module _ (loads : Bytes → Option Json) where
    unfoldable pub reduce_aggregate_artifact : Bytes → Outcome AggregateReduction
    unfolding reduce_value
    reduce_aggregate_artifact artifact = do
      value ← or_raise (loads artifact) not_json
      reduce_value value
