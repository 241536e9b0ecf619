-- ===== src/Worker/Verifier/Reduction.antt =====
-- `_verify_and_attest_aggregate` and `_aggregate_branches_match_chain` of
-- worker/verifier_worker/daemon.py.
use kswarm.Prelude.{
  Bool, true, not, ◌&&◌, Option, none, some, List, [], ◌∷◌, ◌++◌, ◌==◌, if◌then◌else◌,
}
use kswarm.Prelude.Bytes.{Bytes, bytes_eq}
use kswarm.Json.{Json}
use kswarm.Bonsol.{framed_input_digest}
use kswarm.Aggregate.Journal.{
  AggregateJournal, aggregate_committed_outputs, aggregate_journal, expected_journal_hash,
}
use kswarm.Aggregate.Receipt.{parse_branch_result_bytes}
use kswarm.Protocol.Accounts.{Pubkey, JobAccount}
use kswarm.Worker.Action.{Action, pure, ask, or_fail, emit, when, ◌>>=◌, ◌>>◌}
use kswarm.Worker.World.{
  entry, as_text, as_list, Failure, other, aggregate_failure, failing, present, branch_proof,
  zero_hash, World,
}
use kswarm.Worker.Verifier.{
  Event, counted, AggregateFault, other_framed_digest, other_journal_hash, other_submitted_hash,
  other_receipt_bytes, no_branch_job, not_a_branch_job, other_branch_receipt, aggregate_evidence,
  Verifier, is_empty, reason_if,
}
use kswarm.Worker.Verifier.Session.{submit_attestation, challenge}

module _ (w : World Event) (v : Verifier) where
  -- The receipt of a branch against the job that settled it.
  unfoldable pub compare_branch :
      Json → Pubkey → Option JobAccount → Action Event Failure (List AggregateFault)
  compare_branch branch job_key none = pure (no_branch_job job_key ∷ [])
  compare_branch branch job_key (some branch_job) =
      if not (branch_job.terms.job_class == branch_proof)
      then pure (not_a_branch_job job_key ∷ [])
      else (do
        found ← or_fail (entry "result_bytes" branch)
        encoded ← or_fail (as_text found)
        raw ← or_fail (present (w.fromhex encoded))
        receipt ← or_fail (failing aggregate_failure (parse_branch_result_bytes w.env.sha256 raw))
        pure (
            reason_if (not (bytes_eq receipt.result_hash branch_job.result.submitted_result_hash))
              (other_branch_receipt job_key)))

  unfoldable pub compare_branches : List Json → Action Event Failure (List AggregateFault)
  unfolding compare_branch
  compare_branches [] = pure []
  compare_branches (branch ∷ rest) = do
    found ← or_fail (entry "job" branch)
    named ← or_fail (as_text found)
    job_key ← or_fail (present (w.parse_key named))
    branch_job ← ask (λ log. w.fetch_job log job_key)
    errors ← compare_branch branch job_key branch_job
    others ← compare_branches rest
    pure (errors ++ others)

  -- `_aggregate_branches_match_chain`
  unfoldable pub aggregate_branches_match_chain : Bytes → Action Event Failure (List AggregateFault)
  unfolding compare_branches
  aggregate_branches_match_chain artifact = do
    document ← or_fail (present (w.loads artifact))
    found ← or_fail (entry "branches" document)
    branches ← or_fail (as_list found)
    compare_branches branches

  -- The reasons found before the branch jobs are read.
  unfoldable pub own_faults : JobAccount → Bytes → Bytes → Bytes → List AggregateFault
  own_faults job framed journal_hash outputs =
      reason_if (not (bytes_eq framed job.result.input_bundle_hash)) other_framed_digest
      ++ (reason_if (not (bytes_eq journal_hash job.result.expected_result_hash)) other_journal_hash
          ++ (reason_if (not (bytes_eq (w.env.sha256 outputs) job.result.submitted_result_hash))
                other_submitted_hash
              ++ reason_if
                  (not (is_empty job.result.result_bytes)
                    && not (bytes_eq job.result.result_bytes outputs))
                  other_receipt_bytes))

  -- The digest that the attestation names.
  unfoldable pub attested_digest : JobAccount → Bytes
  attested_digest job =
      if bytes_eq job.terms.required_software_digest zero_hash
      then v.software_digest
      else job.terms.required_software_digest

  unfoldable pub attest_reduction :
      Pubkey
      → JobAccount
      → Bytes
      → AggregateJournal
      → List AggregateFault
      → Action Event Failure Bool
  attest_reduction job_key job outputs journal errors = do
    evidence_cid ←
        ask (λ log. v.add_json log (aggregate_evidence job_key job outputs errors journal))
    submit_attestation w v job_key outputs evidence_cid (attested_digest job)
    emit (counted "aggregate_attestations_submitted")
    when (not (is_empty errors)) (
        emit (counted "aggregate_mismatches")
        >> when
            (not (bytes_eq (w.env.sha256 outputs) job.result.submitted_result_hash)
              && v.challenge_on_mismatch)
            (challenge w v job_key))
    pure true

  unfoldable pub attest_artifact : Pubkey → JobAccount → Bytes → Action Event Failure Bool
  unfolding attest_reduction aggregate_branches_match_chain
  attest_artifact job_key job artifact = do
    framed ← or_fail (failing (λ _. other) (framed_input_digest w.env.sha256 artifact))
    journal ← or_fail (failing aggregate_failure (aggregate_journal w.env.sha256 w.loads artifact))
    outputs ← or_fail (failing aggregate_failure (aggregate_committed_outputs journal.reduction))
    journal_hash ← or_fail (failing aggregate_failure (expected_journal_hash w.env.sha256 journal))
    chain_errors ← aggregate_branches_match_chain artifact
    attest_reduction job_key job outputs journal
        (own_faults job framed journal_hash outputs ++ chain_errors)

  -- `_verify_and_attest_aggregate`
  unfoldable pub verify_and_attest_aggregate : Pubkey → JobAccount → Action Event Failure Bool
  unfolding attest_artifact
  verify_and_attest_aggregate job_key job = do
    artifact ← ask (λ log. w.cat_bytes log job.result.input_cid)
    attest_artifact job_key job artifact
