-- ===== src/Worker/Runner/Submit.antt =====
-- `_try_aggregate` of worker/aggregator_runner/runner.py, with `_branch_outputs_for_report` and
-- `_prove_bonsol`, and `run_once`.
use text.Mathlib.Text.{◌==◌ as str_eq}
use kswarm.Prelude.{
  ℕ, suc, Bool, true, false, not, ◌&&◌, ◌||◌, ◌==◌, Option, none, some, List, [], ◌∷◌, ◌++◌,
  if◌then◌else◌, String, ok, err,
}
use kswarm.Prelude.Bytes.{Bytes, bytes_eq}
use kswarm.Json.{Json, str}
use kswarm.CanonicalHash.{BranchOutput}
use kswarm.Protocol.Accounts.{Pubkey, JobAccount}
use kswarm.Protocol.Instructions.Jobs.{claim_job_ix, submit_receipt_ix}
use kswarm.Worker.Action.{Action, pure, raise, ask, or_fail, attempt, emit, ◌>>=◌, ◌>>◌}
use kswarm.Worker.World.{
  Failure, rpc_error, aggregation_error, hook_error, other, failing, present, status_open,
  aggregate_proof, World, cat_json, entry, as_list,
}
use kswarm.Worker.Runner.{
  AggregateBinding, BonsolBinding, Run, Event, counted, saved, claimed, submitted, proved,
  HookRequest, Runner, has_hook,
}
use kswarm.Worker.Runner.Hook.{parse_hook_output, check_binding_against_job}
use kswarm.Worker.Runner.Bind.{bind_committed_artifact}

-- `JOB_STATUS_BY_NAME["claimed"]`
abbrev pub status_claimed : ℕ
status_claimed = 3

pub is_rpc_error : Failure → Bool
is_rpc_error (rpc_error code) = true
is_rpc_error _ = false

pub is_hook_error : Failure → Bool
is_hook_error hook_error = true
is_hook_error _ = false

module _ (w : World Event) (unprefixed : String → String) (r : Runner) where
  -- `ProtocolSession.claim_job` and `submit_receipt`
  unfoldable pub claim_job : Pubkey → Action Event Failure (Unit {0})
  claim_job job_key = do
    ask (λ log. w.send log (claim_job_ix w.env r.proto r.wallet job_key))
    emit (claimed job_key)

  unfoldable pub submit_receipt : Pubkey → String → Bytes → Action Event Failure (Unit {0})
  submit_receipt job_key output_cid result_bytes = do
    ix ← or_fail (
        failing (λ _. other)
          (submit_receipt_ix w.env r.proto.program_id r.wallet job_key output_cid result_bytes))
    ask (λ log. w.send log ix)
    emit (submitted job_key output_cid result_bytes)

  -- One branch document for the report, if it can be fetched.
  unfoldable pub fetch_output : Json → Action Event Failure (List BranchOutput)
  fetch_output (str cid) =
      attempt
        (do
          found ← ask (λ log. cat_json w log cid)
          output ← or_fail (present (w.parse_output found))
          pure (output ∷ []))
        (λ e. pure [])
  fetch_output _ = pure []

  unfoldable pub fetch_outputs : List Json → Action Event Failure (List BranchOutput)
  unfolding fetch_output
  fetch_outputs [] = pure []
  fetch_outputs (branch ∷ rest) = do
    cid ← or_fail (entry "output_cid" branch)
    output ← fetch_output cid
    others ← fetch_outputs rest
    pure (output ++ others)

  -- `_branch_outputs_for_report`
  unfoldable pub branch_outputs_for_report :
      AggregateBinding → Action Event Failure (List BranchOutput)
  unfolding fetch_outputs
  branch_outputs_for_report binding = do
    document ← or_fail (present (w.loads binding.artifact))
    found ← or_fail (entry "branches" document)
    branches ← or_fail (as_list found)
    fetch_outputs branches

  -- `run_bonsol_hook`, and the check of what it returns
  unfoldable pub run_hook : String → HookRequest → JobAccount → Action Event Failure BonsolBinding
  run_hook command request job = do
    printed ← ask (λ log. elim (r.run_hook log command request) [
      | none ↦ err hook_error
      | some stdout ↦ ok stdout
    ])
    execution ← or_fail (parse_hook_output w unprefixed printed)
    or_fail (check_binding_against_job execution job request.binding)
    pure execution

  unfoldable pub prove_with :
      Option String → Run → JobAccount → AggregateBinding → Action Event Failure BonsolBinding
  unfolding run_hook
  prove_with none run job binding = raise aggregation_error
  prove_with (some command) run job binding = do
    let request : HookRequest = record {
      run = run;
      image_id = job.terms.required_software_digest;
      input_cid = job.result.input_cid;
      binding = binding;
    }
    execution ←
        attempt (run_hook command request job)
          λ e. if is_hook_error e then emit (counted "bonsol_hook_failed") >> raise e else raise e
    emit (counted "bonsol_hook_proved")
    pure execution

  -- `_prove_bonsol`
  unfoldable pub prove_bonsol :
      Run → JobAccount → AggregateBinding → Action Event Failure BonsolBinding
  unfolding prove_with
  prove_bonsol run job binding =
      if has_hook r.hook_command
      then prove_with r.hook_command run job binding
      else raise aggregation_error

  -- From the proof on.
  unfoldable pub request_proof :
      Run → Pubkey → JobAccount → AggregateBinding → Action Event Failure Bool
  unfolding prove_bonsol
  request_proof run job_key job binding = do
    execution ← prove_bonsol run job binding
    emit (proved job_key execution)
    now ← ask (λ log. ok (r.clock log))
    emit (saved (record run { aggregate_bonsol_execution = some execution; updated_at_unix = now }))
    pure true

  -- From the report on: the receipt is submitted before the proof is requested.
  unfoldable pub submit_and_prove :
      Run → Pubkey → JobAccount → AggregateBinding → List BranchOutput → Action Event Failure Bool
  unfolding request_proof
  submit_and_prove run job_key job binding outputs = do
    let result_hash = w.env.sha256 binding.committed_outputs
    result_cid ← ask (λ log. r.add_json log (record {
      run = run;
      aggregate_input_cid = job.result.input_cid;
      binding = binding;
      unproven = r.allow_unproven;
      result_hash = result_hash;
      branch_outputs = outputs;
    }))
    attempt (submit_receipt job_key result_cid binding.committed_outputs)
        λ e. if is_rpc_error e then emit (counted "aggregate_submit_failed") >> raise e else raise e
    now ← ask (λ log. ok (r.clock log))
    let done : Run = record run {
      aggregate_submitted = true;
      aggregate_output_cid = some result_cid;
      aggregate_result_hash = some result_hash;
      aggregate_journal = some binding.journal;
      updated_at_unix = now;
    }
    emit (saved done)
    emit (counted "aggregate_submitted")
    if r.allow_unproven
        then emit (counted "aggregate_unproven") >> pure true
        else request_proof done job_key job binding

  unfoldable pub record_claim : Bool → Run → Action Event Failure (Option Run)
  record_claim false run = pure none
  record_claim true run = do
    now ← ask (λ log. ok (r.clock log))
    let claimed_run : Run = record run { aggregate_claimed_at_unix = some now }
    emit (saved claimed_run)
    emit (counted "aggregate_claimed")
    pure (some claimed_run)

  -- The claim, unless the job is this wallet's; none where another runner was faster.
  unfoldable pub claim_unless_ours : Bool → Run → Pubkey → Action Event Failure (Option Run)
  unfolding record_claim
  claim_unless_ours true run job_key = pure (some run)
  claim_unless_ours false run job_key = do
    won ←
        attempt (claim_job job_key >> pure true)
          λ e. if is_rpc_error e then emit (counted "claim_races") >> pure false else raise e
    record_claim won run

  unfoldable pub is_ours : JobAccount → Bool
  is_ours job = (job.terms.status == status_claimed) && bytes_eq job.terms.worker r.wallet

  -- The guards before the hook's.
  unfoldable pub may_aggregate : JobAccount → Bool
  unfolding is_ours
  may_aggregate job =
      (job.terms.job_class == aggregate_proof)
      && (((job.terms.status == status_open) || is_ours job)
          && not (str_eq job.result.input_cid ""))

  unfoldable pub submit_claimed :
      Option Run
      → Pubkey
      → JobAccount
      → AggregateBinding
      → List BranchOutput
      → Action Event Failure Bool
  unfolding submit_and_prove
  submit_claimed none job_key job binding outputs = pure false
  submit_claimed (some run) job_key job binding outputs =
      submit_and_prove run job_key job binding outputs

  unfoldable pub aggregate_job : Run → Pubkey → JobAccount → Action Event Failure Bool
  unfolding submit_claimed claim_unless_ours
  aggregate_job run job_key job = do
    binding ← bind_committed_artifact w r job
    outputs ← branch_outputs_for_report binding
    won ← claim_unless_ours (is_ours job) run job_key
    submit_claimed won job_key job binding outputs

  unfoldable pub aggregate_found : Run → Pubkey → Option JobAccount → Action Event Failure Bool
  unfolding aggregate_job
  aggregate_found run job_key none = pure false
  aggregate_found run job_key (some job) =
      if not (may_aggregate job)
      then pure false
      else if not (has_hook r.hook_command) && not r.allow_unproven
      then emit (counted "aggregate_no_hook") >> pure false
      else aggregate_job run job_key job

  -- `_try_aggregate`
  unfoldable pub try_aggregate : Run → Action Event Failure Bool
  unfolding aggregate_found
  try_aggregate run = do
    job_key ← or_fail (present (w.parse_key run.aggregate_job))
    job ← ask (λ log. w.fetch_job log job_key)
    aggregate_found run job_key job

  -- A run's file; none where another runner holds its lock.
  unfoldable pub run_file : Option Run → Action Event Failure Bool
  run_file none = pure false
  run_file (some run) =
      if run.aggregate_submitted
      then pure false
      else attempt (try_aggregate run) λ e. emit (counted "aggregate_failed") >> pure false

  -- `run_once`, over the paths of the store
  unfoldable pub run_once : List String → Action Event Failure ℕ
  unfolding run_file
  run_once [] = pure 0
  run_once (path ∷ rest) = do
    run ← ask (λ log. ok (r.load log path))
    done ← run_file run
    processed ← run_once rest
    pure (if done then suc processed else processed)
