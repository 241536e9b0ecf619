-- ===== src/Worker/Runner/Settled.antt =====
-- An aggregate job that is in order: what the runner does with it, and in which order.
use kswarm.Prelude.{
  ◌≡◌, refl, Bool, true, false, not, ◌&&◌, Option, some, List, [], ◌∷◌, String, ok, if◌then◌else◌,
}
use kswarm.CanonicalHash.{BranchOutput}
use kswarm.Protocol.Accounts.{Pubkey, JobAccount}
use kswarm.Protocol.Addresses.{Instruction}
use kswarm.Protocol.Instructions.Jobs.{submit_receipt_ix}
use kswarm.Worker.Action.{Action, pure, raise, ask, or_fail, attempt, emit, ◌>>=◌}
use kswarm.Worker.World.{Failure, aggregation_error, World}
use kswarm.Worker.Runner.{
  AggregateBinding, BonsolBinding, Run, Event, counted, saved, claimed, submitted, proved, Report,
  Runner, has_hook,
}
use kswarm.Worker.Runner.Bind.{bind_committed_artifact}
use kswarm.Worker.Runner.Submit.{
  is_ours, may_aggregate, claim_job, submit_receipt, branch_outputs_for_report, run_hook,
  prove_with, prove_bonsol, request_proof, submit_and_prove, record_claim, claim_unless_ours,
  submit_claimed, aggregate_job, aggregate_found,
}

-- The claims, the receipts and the executions of a log.
abbrev pub steps : List Event → List Event
steps [] = []
steps (counted metric ∷ log) = steps log
steps (saved run ∷ log) = steps log
steps (claimed job_key ∷ log) = claimed job_key ∷ steps log
steps (submitted job_key cid bytes ∷ log) = submitted job_key cid bytes ∷ steps log
steps (proved job_key execution ∷ log) = proved job_key execution ∷ steps log

module _ (w : World Event) (unprefixed : String → String) (r : Runner) where
  -- The job is open, its artifact binds, and everything that is sent or asked for succeeds.
  pub record IsInOrder (log : List Event) (job_key : Pubkey) (job : JobAccount) : Type 0 where
    pub command : String
    pub has_command : r.hook_command ≡ some command
    pub hooked : has_hook r.hook_command ≡ true
    pub proving : r.allow_unproven ≡ false
    pub allowed : may_aggregate w unprefixed r job ≡ true
    pub not_ours : is_ours w unprefixed r job ≡ false
    pub binding : AggregateBinding
    pub bound : bind_committed_artifact w r job log ≡ (ok binding, log)
    pub outputs : List BranchOutput
    pub reported : branch_outputs_for_report w unprefixed r binding log ≡ (ok outputs, log)
    pub cid : String
    pub published : (log : List Event) (report : Report) → r.add_json log report ≡ ok cid
    pub ix : Instruction
    pub encoded :
        submit_receipt_ix w.env r.proto.program_id r.wallet job_key cid binding.committed_outputs
        ≡ ok ix
    pub accepted : (log : List Event) (ix : Instruction) → w.send log ix ≡ ok tt
    pub execution : BonsolBinding
    pub executed :
        (log : List Event) (run : Run)
        → run_hook w unprefixed r command
            (record {
              run = run;
              image_id = job.terms.required_software_digest;
              input_cid = job.result.input_cid;
              binding = binding;
            })
            job
            log
          ≡ (ok execution, log)

  -- The proof, where the hook's command is set and its execution is accepted.
  proved_with :
      (command : Option String) (name : String) (run : Run) (job : JobAccount)
      (binding : AggregateBinding) (execution : BonsolBinding) (log : List Event)
      → command ≡ some name
      → has_hook command ≡ true
      → run_hook w unprefixed r name
          (record {
            run = run;
            image_id = job.terms.required_software_digest;
            input_cid = job.result.input_cid;
            binding = binding;
          })
          job
          log
        ≡ (ok execution, log)
      → (if has_hook command
            then prove_with w unprefixed r command run job binding
            else raise aggregation_error)
          log
        ≡ (ok execution, counted "bonsol_hook_proved" ∷ log)
  unfolding prove_with attempt emit pure ◌>>=◌
  proved_with command name run job binding execution log named hooked ran =
      rw (hooked, named, ran) refl

  prove_bonsol-proved :
      (log : List Event) (job_key : Pubkey) (job : JobAccount) (h : IsInOrder log job_key job)
      (run : Run) (after : List Event)
      → prove_bonsol w unprefixed r run job h.binding after
        ≡ (ok h.execution, counted "bonsol_hook_proved" ∷ after)
  unfolding prove_bonsol
  prove_bonsol-proved log job_key job h run after =
      proved_with r.hook_command h.command run job h.binding h.execution after h.has_command
        h.hooked (h.executed after run)

  -- A test that a record's field decides, in an action.
  choose :
      {A : Type 0} (b : Bool) (m k : Action Event Failure A) (log : List Event)
      → b ≡ false
      → (if b then m else k) log ≡ k log
  choose b m k log e = rw e refl

  passes : (hook unproven : Bool) → hook ≡ true → (not hook && not unproven) ≡ false
  passes true unproven h = refl
  passes false unproven h = absurd (cc)

  -- An open aggregate job whose artifact binds, for a runner that requires proofs and has a hook,
  -- where all that is sent and asked for succeeds, is aggregated: the step returns true, and adds
  -- a claim, then the receipt of the committed outputs, then the execution, and no other claim,
  -- receipt or execution.
  pub aggregate_found-steps :
      (log : List Event) (run : Run) (job_key : Pubkey) (job : JobAccount)
      (h : IsInOrder log job_key job)
      → let (result, after) = aggregate_found w unprefixed r run job_key (some job) log in
        (result ≡ ok true)
        × (steps after
            ≡ proved job_key h.execution
              ∷ submitted job_key h.cid h.binding.committed_outputs
              ∷ claimed job_key
              ∷ steps log)
  unfolding aggregate_found aggregate_job claim_unless_ours claim_job record_claim submit_claimed
      submit_and_prove submit_receipt request_proof pure ask or_fail attempt emit ◌>>=◌
  aggregate_found-steps log run job_key job h =
      let guarded = passes (has_hook r.hook_command) r.allow_unproven h.hooked in
      rw (h.allowed) (
        rw (choose (not (has_hook r.hook_command) && not r.allow_unproven) _ _ _ guarded) (
          rw (h.bound, h.reported, h.not_ours, h.accepted, h.published, h.encoded, h.accepted)
            (rw (choose r.allow_unproven _ _ _ h.proving)
              (rw (prove_bonsol-proved log job_key job h _ _) (refl, refl)))))
