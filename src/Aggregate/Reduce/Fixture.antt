-- ===== src/Aggregate/Reduce/Fixture.antt =====
-- An artifact with one branch, and its reduction.
use kswarm.Prelude.{◌≡◌, refl, [], ◌∷◌, Option, some, ok}
use kswarm.Prelude.Bytes.{Bytes, bytes_eq}
use kswarm.Prelude.Words.{unpack_from, le_bytes}
use kswarm.Prelude.Int.{pos}
use kswarm.Json.{Json, int, str, arr, obj, field, end, cons, nil, get, items}
use kswarm.Samples.{toy_sha256}
use kswarm.Aggregate.Combiner.{weighted_mean_bps}
use kswarm.Aggregate.Fields.{string_field, unsigned_field, unsigned_or_zero, hex_field}
use kswarm.Aggregate.Merkle.{merkle_leaf_hash}
use kswarm.Aggregate.Merkle.Order.{one_branch_root}
use kswarm.Aggregate.Receipt.{
  parse_branch_result_bytes, parse_body, read_if, read_bps, read_scores_if,
}
use kswarm.Aggregate.Reduce.{AggregateReduction, combiner_params_digest, reduce_aggregate_artifact}

abbrev pub branch : Json
branch = obj (
    field "branch_index" (int (pos 0)) (
      field "result_bytes"
        (str
          "4d464232020100000000018813abababababababababababababababababababababababababababababababab")
        (field "result_hash"
          (str "4d464232020100000000018813ababababababababababababababababababab")
          (field "weight" (int (pos 1))
            (field "job" (str "branch job") (field "output_cid" (str "output") end))))))

abbrev pub artifact : Json
artifact = obj (
    field "schema" (str "MFA3") (
      field "schema_version" (int (pos 3)) (
        field "combiner_id" (int (pos 1)) (
          field "combiner" (str "weighted-mean") (
            field "combiner_parameters" (obj end)
              (field "branches" (arr (cons branch nil)) end))))))

-- What the proof network's hook prints.
abbrev pub hook_output : Json
hook_output = obj (
    field "execution_id" (str "execution") (
      field "image_id" (str "image") (
        field "input_digest" (str "input") (
          field "output_digest" (str "digest") (
            field "journal_hash" (str "journal")
              (field "committed_outputs" (str "outputs") end))))))

-- The artifact is the empty text, everything else the hook's output.
abbrev pub loads : Bytes → Option Json
loads [] = some artifact
loads (b ∷ rest) = some hook_output

abbrev pub receipt_hash : Bytes
receipt_hash =
    77 ∷ 70 ∷ 66 ∷ 50 ∷ 2 ∷ 1 ∷ 0 ∷ 0 ∷ 0 ∷ 0 ∷ 1 ∷ 136 ∷ 19 ∷ 171 ∷ 171 ∷ 171 ∷ 171 ∷ 171 ∷ 171
    ∷ 171 ∷ 171 ∷ 171 ∷ 171 ∷ 171 ∷ 171 ∷ 171 ∷ 171 ∷ 171 ∷ 171 ∷ 171 ∷ 171 ∷ 171 ∷ []

abbrev pub reduction : AggregateReduction
reduction = record {
  combiner_id = 1;
  trim_bps = 0;
  category_dictionary_size = 0;
  params_digest = combiner_params_digest toy_sha256 1 0 0;
  result_value = 5000;
  branch_count = 1;
  branch_hashes = receipt_hash ∷ [];
  merkle_root = merkle_leaf_hash toy_sha256 receipt_hash;
}

pub reduced : reduce_aggregate_artifact toy_sha256 loads [] ≡ ok reduction
unfolding reduce_aggregate_artifact string_field get unsigned_field unsigned_or_zero items hex_field
    parse_branch_result_bytes bytes_eq unpack_from parse_body read_if read_bps read_scores_if
    weighted_mean_bps toy_sha256 le_bytes
reduced = rw (one_branch_root toy_sha256 receipt_hash) refl
