-- ===== src/Aggregate/Error.antt =====
-- The raise sites of `AggregateError` in cli/kswarm_cli/aggregate.py, one constructor for each
-- message, and the Python exceptions that its helpers may raise.
use kswarm.Prelude.{Result}

pub data Error : Type 0 where
  no_branches_root no_branches_mean no_branches_trim no_branches_vote : Error
  too_short bad_magic bad_version bad_kind bad_flags bad_bps bad_score_count trailing_bytes : Error
  bad_trim_bps zero_weight_total value_out_of_range trim_leaves_nothing zero_votes : Error
  branch_value_out_of_range : Error
  not_json not_object bad_schema bad_schema_version : Error
  bad_string bad_unsigned bad_hex : Error
  unknown_combiner combiner_mismatch bad_parameters : Error
  branches_not_array no_branches too_many_branches branch_not_object : Error
  index_not_increasing index_mismatch hash_mismatch weight_zero weight_ignored : Error
  no_label no_dictionary label_outside no_scalar : Error
  wrong_output_length byte_out_of_range input_too_long journal_refused struct_error index_error :
      Error

abbrev pub Outcome {ℓ} : Type ℓ → Type ℓ
Outcome A = Result Error A
