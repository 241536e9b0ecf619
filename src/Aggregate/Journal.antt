-- ===== src/Aggregate/Journal.antt =====
-- `aggregate_committed_outputs` and `aggregate_journal` of cli/kswarm_cli/aggregate.py, and the
-- `AggregateJournal` properties: what an aggregate job is opened with.
pub mod Binding
pub mod Fixture
mod Examples
use kswarm.Prelude.{
  ℕ, ◌+◌, Option, none, some, List, [], ◌∷◌, ◌++◌, length, not, ltb, ◌==◌, Result, ok, err, ◌>>=◌,
  ◌>>◌, raise_if,
}
use kswarm.Prelude.Bytes.{Bytes}
use kswarm.Prelude.Words.{pack}
use kswarm.Json.{Json}
use kswarm.Bonsol.{framed_input_digest, journal_hash}
use kswarm.Aggregate.Error.{
  Outcome, wrong_output_length, byte_out_of_range, input_too_long, journal_refused, struct_error,
}
use kswarm.Aggregate.Receipt.{or_raise}
use kswarm.Aggregate.Reduce.{AggregateReduction, reduce_aggregate_artifact}

pub record AggregateJournal : Type 0 where
  pub input_digest : Bytes
  pub reduction : AggregateReduction

-- `bytearray.append` raises for an id above 255.
pub aggregate_committed_outputs : AggregateReduction → Outcome Bytes
aggregate_committed_outputs reduction = do
  raise_if (ltb 255 reduction.combiner_id) byte_out_of_range
  result_value ← or_raise (pack 4 reduction.result_value) struct_error
  branch_count ← or_raise (pack 4 reduction.branch_count) struct_error
  let out =
      reduction.combiner_id
      ∷ (reduction.params_digest ++ (result_value ++ (branch_count ++ reduction.merkle_root)))
  raise_if (not (length out == 73)) wrong_output_length
  ok out

module _ (sha256 : Bytes → Bytes) where
  pub aggregate_journal : (Bytes → Option Json) → Bytes → Outcome AggregateJournal
  aggregate_journal loads artifact = elim (framed_input_digest sha256 artifact) [
    | err e ↦ err input_too_long
    | ok input_digest ↦ do
      reduction ← reduce_aggregate_artifact sha256 loads artifact
      ok (record { input_digest = input_digest; reduction = reduction })
  ]

  -- The properties of a journal.
  pub output_digest : AggregateJournal → Outcome Bytes
  output_digest j = do outputs ← aggregate_committed_outputs j.reduction; ok (sha256 outputs)

  pub expected_journal_hash : AggregateJournal → Outcome Bytes
  expected_journal_hash j = do
    outputs ← aggregate_committed_outputs j.reduction
    elim (journal_hash sha256 j.input_digest outputs) [
      | err e ↦ err journal_refused
      | ok hash ↦ ok hash
    ]
