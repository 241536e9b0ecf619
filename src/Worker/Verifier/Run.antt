-- ===== src/Worker/Verifier/Run.antt =====
-- `run_once` of worker/verifier_worker/daemon.py: one pass over the jobs.
use kswarm.Prelude.{ℕ, suc, Bool, false, List, [], ◌∷◌, if◌then◌else◌, String}
use kswarm.Prelude.Int.{ℤ}
use kswarm.Protocol.Accounts.{Pubkey, JobAccount}
use kswarm.Worker.Action.{Action, pure, ask, emit, attempt, ◌>>=◌, ◌>>◌}
use kswarm.Worker.World.{
  Failure, rpc_error, ipfs_error, llm_endpoint_error, model_output_rejected, aggregate_error, World,
}
use kswarm.Worker.Verifier.{
  Event, counted, Verifier, matches_attestable_branch_job, matches_attestable_aggregate_job,
}
use kswarm.Worker.Verifier.Branch.{verify_and_attest}
use kswarm.Worker.Verifier.Reduction.{verify_and_attest_aggregate}

-- The metric that an exception raises, by the kind of the job.
pub aggregate_failure_metric : Failure → String
aggregate_failure_metric (rpc_error code) = "attestation_races"
aggregate_failure_metric ipfs_error = "aggregate_verification_failures"
aggregate_failure_metric (aggregate_error e) = "aggregate_verification_failures"
aggregate_failure_metric _ = "attestations_failed"

pub branch_failure_metric : Failure → String
branch_failure_metric (rpc_error code) = "attestation_races"
branch_failure_metric llm_endpoint_error = "reexecution_failures"
branch_failure_metric ipfs_error = "reexecution_failures"
branch_failure_metric model_output_rejected = "reexecution_failures"
branch_failure_metric _ = "attestations_failed"

module _ (w : World Event) (v : Verifier) (is_past : ℤ → Bool) where
  -- One round of the loop: the job is done, or passed over. No exception leaves it.
  unfoldable pub run_job : Pubkey → JobAccount → Action Event Failure Bool
  run_job job_key job =
      if matches_attestable_aggregate_job v is_past job
      then attempt (verify_and_attest_aggregate w v job_key job)
          (λ e. emit (counted (aggregate_failure_metric e)) >> pure false)
      else if matches_attestable_branch_job v is_past job
      then attempt (verify_and_attest w v job_key job)
          (λ e. emit (counted (branch_failure_metric e)) >> pure false)
      else pure false

  unfoldable pub run_jobs : List (Pubkey × JobAccount) → Action Event Failure ℕ
  run_jobs [] = pure 0
  run_jobs ((job_key, job) ∷ rest) = do
    done ← run_job job_key job
    processed ← run_jobs rest
    pure (if done then suc processed else processed)

  -- `run_once`
  unfoldable pub run_once : Action Event Failure ℕ
  unfolding run_jobs
  run_once = do jobs ← ask w.fetch_jobs; run_jobs jobs
