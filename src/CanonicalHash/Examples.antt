-- ===== src/CanonicalHash/Examples.antt =====
-- A scalar branch output, its receipt and its way back.
use kswarm.Prelude.{◌≡◌, ◌≤◌, [], ◌∷◌, some, none, ok, arith, length}
use kswarm.Prelude.Bytes.{Bytes}
use kswarm.Prelude.Int.{pos}
use kswarm.Samples.{toy_sha256, toy_sha256-length}
use kswarm.Aggregate.Receipt.{scalar, parse_branch_result_bytes}
use kswarm.CanonicalHash.{BranchOutput, branch_output_result_bytes}
use kswarm.CanonicalHash.Encode.{IsEncodable, encoded_bounds}
use kswarm.CanonicalHash.RoundTrip.{receipt_of, parse-encode}

abbrev output : BranchOutput
output = record {
  schema_version = pos 1;
  parent_job = "parent";
  branch_index = 7;
  output_kind = scalar;
  scalar_value_bps = some 6250;
  scalar_confidence_lower_bps = none;
  scalar_confidence_upper_bps = some 7000;
  categorical_label_index = none;
  narrative_text = none;
  narrative_scores = some (("b", 1) ∷ ("a", 10000) ∷ []);
  rng_seed = 42;
  llm_model = "model";
  llm_version_hash = "v";
  completed_at_unix = 1700000000;
  transcript_cid = "cid";
  zkvm_receipt_cid = none;
}

output-IsEncodable : IsEncodable output
output-IsEncodable = record {
  index_fits = omega arith;
  scalar_fits = omega arith;
  lower_fits = tt;
  upper_fits = omega arith;
  label_fits = tt;
  scores_fit = (omega arith, (omega arith, tt));
  scores_few = omega arith;
}

parse-encode_example :
    (bytes : Bytes) × (branch_output_result_bytes toy_sha256 output ≡ ok bytes)
    × (parse_branch_result_bytes toy_sha256 bytes ≡ ok (receipt_of toy_sha256 output bytes))
parse-encode_example = parse-encode toy_sha256 toy_sha256-length output output-IsEncodable

encoded_bounds_example :
    (bytes : Bytes) × (branch_output_result_bytes toy_sha256 output ≡ ok bytes)
    × (43 ≤ length bytes)
    × (length bytes ≤ 243)
encoded_bounds_example = encoded_bounds toy_sha256 toy_sha256-length output output-IsEncodable
