-- ===== src/Worker/Runner/Honest.antt =====
-- What the log of worker/aggregator_runner/runner.py may hold: the grounds of each claim, of each
-- receipt and of each accepted execution.
pub mod Quiet
pub mod Accepts
pub mod Runs
pub mod Clusters
use kswarm.Prelude.{
  ℕ, ◌≡◌, ◌⊎◌, inl, inr, refl, Bool, Bool-cases, true, false, not, ◌&&◌, &&_true, Option, none,
  some, List, [], ◌∷◌, String, Result, ok, err, All, if◌then◌else◌,
}
use kswarm.Prelude.Bytes.{Bytes}
use kswarm.Json.{Json, str, get}
use kswarm.CanonicalHash.{BranchOutput}
use kswarm.Protocol.Accounts.{Pubkey, JobAccount}
use kswarm.Worker.Action.{
  Action, pure, raise, ask, or_fail, attempt, emit, Logs, MayReturn, Logs-silent, Logs-attempt,
  Logs-if, Logs-bind, Logs-emit, ◌>>=◌, ◌>>◌,
}
use kswarm.Worker.World.{Failure, World}
use kswarm.Worker.Runner.{
  AggregateBinding, BonsolBinding, Run, Event, counted, saved, claimed, submitted, proved,
  HookRequest, Runner, has_hook,
}
use kswarm.Worker.Runner.Bind.{
  refuse_if, is_ready, check_branch, check_branches, check_branches_against_chain,
  compare_with_plan, check_document, check_artifact_against_plan, bind_artifact,
  bind_committed_artifact,
}
use kswarm.Worker.Runner.Submit.{
  is_rpc_error, is_hook_error, is_ours, may_aggregate, claim_job, submit_receipt, fetch_output,
  fetch_outputs, branch_outputs_for_report, run_hook, prove_with, prove_bonsol, request_proof,
  submit_and_prove, record_claim, claim_unless_ours, submit_claimed, aggregate_job, aggregate_found,
  try_aggregate, run_file, run_once,
}
use kswarm.Worker.Runner.Bound.{
  IsConsistent, IsOfJob, IsBound, bind_committed_artifact-IsBound, run_hook-accepted,
}

module _ (w : World Event) (unprefixed : String → String) (r : Runner) where
  -- The job is one that the runner may take, its artifact is bound to it, and a proof can be had or
  -- is not needed.
  pub record Takes (job : JobAccount) (binding : AggregateBinding) : Type 0 where
    pub allowed : may_aggregate w unprefixed r job ≡ true
    pub bound : IsBound w job binding
    pub provable : (has_hook r.hook_command ≡ true) ⊎ (r.allow_unproven ≡ true)

  -- The aggregate job that a stored run names, which is not yet submitted, as the cluster gave it.
  pub record IsNamed (job_key : Pubkey) (job : JobAccount) : Type 0 where
    pub loaded_at : List Event
    pub path : String
    pub run : Run
    pub loaded : r.load loaded_at path ≡ some run
    pub fresh : run.aggregate_submitted ≡ false
    pub named : w.parse_key run.aggregate_job ≡ some job_key
    pub answered_at : List Event
    pub answered : w.fetch_job answered_at job_key ≡ ok (some job)

  -- The runner takes that job, with the artifact that IPFS gave for the job's CID.
  pub record IsTaken (job_key : Pubkey) (job : JobAccount) (binding : AggregateBinding)
      : Type 0 where
    pub named : IsNamed job_key job
    pub fetched_at : List Event
    pub fetched : w.cat_bytes fetched_at job.result.input_cid ≡ ok binding.artifact
    pub takes : Takes job binding

  abbrev pub IsHonest : Event → Type 0
  IsHonest (counted metric) = Unit
  IsHonest (saved run) = Unit
  IsHonest (claimed job_key) =
      (job : JobAccount) × (binding : AggregateBinding) × IsTaken job_key job binding
      × (is_ours w unprefixed r job ≡ false)
  IsHonest (submitted job_key cid bytes) =
      (job : JobAccount) × (binding : AggregateBinding) × IsTaken job_key job binding
      × (bytes ≡ binding.committed_outputs)
  IsHonest (proved job_key execution) =
      (job : JobAccount) × (binding : AggregateBinding) × IsTaken job_key job binding
      × IsConsistent w.env.sha256 execution
      × IsOfJob job binding execution
      × (r.allow_unproven ≡ false)
