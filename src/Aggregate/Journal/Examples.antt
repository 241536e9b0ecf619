-- ===== src/Aggregate/Journal/Examples.antt =====
-- The journal of one reduction.
use kswarm.Prelude.{ℕ, ◌≡◌, refl, ◌⊎◌, [], ok, arith, length}
use kswarm.Prelude.Bytes.{Bytes}
use kswarm.Prelude.Digest.{Collision}
use kswarm.Prelude.Words.{le_bytes, length-le_bytes}
use kswarm.Samples.{toy_sha256}
use kswarm.Aggregate.Reduce.{AggregateReduction}
use kswarm.Aggregate.Reduce.Fixture.{loads}
use kswarm.Aggregate.Journal.Fixture.{artifact, journal, opened, expected}
use kswarm.Aggregate.Journal.{aggregate_committed_outputs}
use kswarm.Aggregate.Journal.Binding.{
  Fits, Agree, committed_outputs_lem, committed_outputs-binds, aggregate_journal-binds,
}

abbrev reduction : ℕ → AggregateReduction
reduction trim = record {
  combiner_id = 2;
  trim_bps = trim;
  category_dictionary_size = 0;
  params_digest = le_bytes 32 7;
  result_value = 5000;
  branch_count = 1;
  branch_hashes = [];
  merkle_root = le_bytes 32 9;
}

reduction-Fits : (trim : ℕ) → Fits (reduction trim)
reduction-Fits trim = record {
  combiner = omega arith;
  params = length-le_bytes 32 7;
  result = omega arith;
  count = omega arith;
  root = length-le_bytes 32 9;
}

committed_outputs_lem_example :
    (outputs : Bytes) × (aggregate_committed_outputs (reduction 5) ≡ ok outputs)
    × (length outputs ≡ 73)
committed_outputs_lem_example = committed_outputs_lem (reduction 5) (reduction-Fits 5)

same_outputs : aggregate_committed_outputs (reduction 5) ≡ aggregate_committed_outputs (reduction 6)
unfolding aggregate_committed_outputs
same_outputs = refl

-- The share to drop enters the outputs through the digest of the parameters alone.
committed_outputs-binds_example : Agree (reduction 5) (reduction 6)
committed_outputs-binds_example =
    committed_outputs-binds (reduction 5) (reduction 6) (reduction-Fits 5) (reduction-Fits 6)
      same_outputs

aggregate_journal-binds_example : (artifact ≡ artifact) ⊎ Collision toy_sha256
aggregate_journal-binds_example =
    aggregate_journal-binds toy_sha256 loads artifact artifact journal journal expected.0 opened
      opened expected.1 expected.1
