-- ===== src/Aggregate/Journal/Fixture.antt =====
-- The journal of the artifact of Reduce/Fixture.
use kswarm.Prelude.{◌≡◌, refl, [], ◌∷◌, ◌++◌, length, ok}
use kswarm.Prelude.Bytes.{Bytes}
use kswarm.Prelude.Words.{pack, le_bytes}
use kswarm.Samples.{toy_sha256}
use kswarm.Aggregate.Merkle.{merkle_leaf_hash}
use kswarm.Aggregate.Reduce.{combiner_params_digest}
use kswarm.Aggregate.Reduce.Fixture.{loads, reduced, reduction}
use kswarm.Bonsol.{framed_input_digest, journal_hash}
use kswarm.Aggregate.Journal.{
  AggregateJournal, aggregate_committed_outputs, aggregate_journal, expected_journal_hash,
}

abbrev pub artifact : Bytes
artifact = []

abbrev pub journal : AggregateJournal
journal = record {
  input_digest = toy_sha256 (0 ∷ 0 ∷ 0 ∷ 0 ∷ 0 ∷ 0 ∷ 0 ∷ 0 ∷ []);
  reduction = reduction;
}

pub framing : framed_input_digest toy_sha256 [] ≡ ok journal.input_digest
unfolding framed_input_digest pack
framing = refl

pub opened : aggregate_journal toy_sha256 loads [] ≡ ok journal
unfolding aggregate_journal framed_input_digest pack
opened = rw reduced refl

pub outputs : (bytes : Bytes) × (aggregate_committed_outputs reduction ≡ ok bytes)
unfolding aggregate_committed_outputs pack le_bytes merkle_leaf_hash toy_sha256
    combiner_params_digest
outputs = (_, refl)

pub expected : (hash : Bytes) × (expected_journal_hash toy_sha256 journal ≡ ok hash)
unfolding expected_journal_hash aggregate_committed_outputs pack le_bytes journal_hash
    merkle_leaf_hash toy_sha256 combiner_params_digest
expected = (_, refl)

pub outputs_length : length outputs.0 ≡ 73
unfolding outputs aggregate_committed_outputs pack le_bytes merkle_leaf_hash toy_sha256
    combiner_params_digest
outputs_length = refl

pub expected_lem : expected.0 ≡ toy_sha256 (journal.input_digest ++ outputs.0)
unfolding expected outputs expected_journal_hash aggregate_committed_outputs pack le_bytes
    journal_hash merkle_leaf_hash toy_sha256 combiner_params_digest
expected_lem = refl
