-- ===== src/Worker/Runner/Honest/Runs.antt =====
-- Every step of the runner keeps its log honest.
use kswarm.Prelude.{
  ◌≡◌, ◌⊎◌, inl, inr, refl, Bool, true, false, not, ◌&&◌, Option, none, some, List, [], ◌∷◌, String,
  All, ◌∙◌, sym, ap, Result, ok,
}
use kswarm.Json.{Json, null, bool, int, float, str, arr, obj}
use kswarm.CanonicalHash.{BranchOutput}
use kswarm.Protocol.Accounts.{Pubkey, JobAccount}
use kswarm.Worker.Action.{
  ask, or_fail, MayReturn, Logs, Logs-attempt, Logs-if, Logs-bind, Logs-emit,
}
use kswarm.Worker.World.{Failure, present, World}
use kswarm.Worker.Runner.{
  AggregateBinding, Run, Event, claimed, submitted, proved, Runner, has_hook,
}
use kswarm.Worker.Runner.Submit.{
  is_rpc_error, is_hook_error, is_ours, may_aggregate, claim_job, submit_receipt, fetch_output,
  fetch_outputs, branch_outputs_for_report, run_hook, prove_with, prove_bonsol, request_proof,
  submit_and_prove, record_claim, claim_unless_ours, submit_claimed, aggregate_job, aggregate_found,
  try_aggregate, run_file, run_once,
}
use kswarm.Worker.Runner.Bound.{bind_committed_artifact-IsBound, bind_committed_artifact-fetched}
use kswarm.Worker.Runner.Honest.{IsNamed, IsTaken, IsHonest}
use kswarm.Worker.Runner.Honest.Quiet.{
  asks, gives, returns, raises, counts, saves, counts_then, bind_committed_artifact-Logs,
}
use kswarm.Worker.Runner.Honest.Accepts.{prove_bonsol-accepted}

module _ (w : World Event) (unprefixed : String → String) (r : Runner) where
  fetch_output-Logs :
      (cid : Json) → Logs (IsHonest w unprefixed r) (fetch_output w unprefixed r cid)
  unfolding fetch_output
  fetch_output-Logs (str cid) =
      Logs-attempt _
        (Logs-bind _ (asks w unprefixed r _)
          λ _ _. Logs-bind _ (gives w unprefixed r _) λ _ _. returns w unprefixed r _)
        λ e. returns w unprefixed r _
  fetch_output-Logs null = returns w unprefixed r _
  fetch_output-Logs (bool b) = returns w unprefixed r _
  fetch_output-Logs (int n) = returns w unprefixed r _
  fetch_output-Logs (float x) = returns w unprefixed r _
  fetch_output-Logs (arr xs) = returns w unprefixed r _
  fetch_output-Logs (obj fields) = returns w unprefixed r _

  fetch_outputs-Logs :
      (branches : List Json)
      → Logs (IsHonest w unprefixed r) (fetch_outputs w unprefixed r branches)
  unfolding fetch_outputs
  fetch_outputs-Logs [] = returns w unprefixed r _
  fetch_outputs-Logs (branch ∷ rest) = Logs-bind _ (gives w unprefixed r _) λ cid _.
      Logs-bind _ (fetch_output-Logs cid)
        λ _ _. Logs-bind _ (fetch_outputs-Logs rest) λ _ _. returns w unprefixed r _

  branch_outputs-Logs :
      (binding : AggregateBinding)
      → Logs (IsHonest w unprefixed r) (branch_outputs_for_report w unprefixed r binding)
  unfolding branch_outputs_for_report
  branch_outputs-Logs binding = Logs-bind _ (gives w unprefixed r _) λ _ _.
      Logs-bind _ (gives w unprefixed r _)
        λ _ _. Logs-bind _ (gives w unprefixed r _) λ branches _. fetch_outputs-Logs branches

  -- One value that a step with a handler may return is one that its first part may return, where the
  -- handler raises w unprefixed r.
  prove_with-Logs :
      (command : Option String) (run : Run) (job : JobAccount) (binding : AggregateBinding)
      → Logs (IsHonest w unprefixed r) (prove_with w unprefixed r command run job binding)
  unfolding prove_with run_hook
  prove_with-Logs none run job binding = raises w unprefixed r _
  prove_with-Logs (some command) run job binding =
      Logs-bind _
        (Logs-attempt _
          (Logs-bind _ (asks w unprefixed r _) λ _ _.
            Logs-bind _ (gives w unprefixed r _)
              λ _ _. Logs-bind _ (gives w unprefixed r _) λ _ _. returns w unprefixed r _)
          λ e.
            Logs-if _ (is_hook_error e)
              (λ _. counts_then w unprefixed r _ _ (raises w unprefixed r e))
              λ _. raises w unprefixed r e)
        λ _ _. Logs-bind _ (counts w unprefixed r _) λ _ _. returns w unprefixed r _

  prove_bonsol-Logs :
      (run : Run) (job : JobAccount) (binding : AggregateBinding)
      → Logs (IsHonest w unprefixed r) (prove_bonsol w unprefixed r run job binding)
  unfolding prove_bonsol
  prove_bonsol-Logs run job binding =
      Logs-if _ (has_hook r.hook_command) (λ _. prove_with-Logs r.hook_command run job binding)
        λ _. raises w unprefixed r _

  request_proof-Logs :
      (run : Run) (job_key : Pubkey) (job : JobAccount) (binding : AggregateBinding)
      → IsTaken w unprefixed r job_key job binding
      → r.allow_unproven ≡ false
      → Logs (IsHonest w unprefixed r) (request_proof w unprefixed r run job_key job binding)
  unfolding request_proof
  request_proof-Logs run job_key job binding takes proving =
      Logs-bind _ (prove_bonsol-Logs run job binding) λ execution may.
        let (consistent, of_job) =
          prove_bonsol-accepted w unprefixed r run job binding execution may in
        Logs-bind _
          (Logs-emit _ (proved job_key execution)
            (job, binding, takes, consistent, of_job, proving))
          λ _ _.
            Logs-bind _ (asks w unprefixed r _)
              λ _ _. Logs-bind _ (saves w unprefixed r _) λ _ _. returns w unprefixed r _

  submit_and_prove-Logs :
      (run : Run) (job_key : Pubkey) (job : JobAccount) (binding : AggregateBinding)
      (outputs : List BranchOutput)
      → IsTaken w unprefixed r job_key job binding
      → Logs
          (IsHonest w unprefixed r)
          (submit_and_prove w unprefixed r run job_key job binding outputs)
  unfolding submit_and_prove submit_receipt
  submit_and_prove-Logs run job_key job binding outputs takes =
      Logs-bind _ (asks w unprefixed r _) λ cid _.
        Logs-bind _
          (Logs-attempt _
            (Logs-bind _ (gives w unprefixed r _) λ _ _. Logs-bind _ (asks w unprefixed r _) λ _ _.
              Logs-emit _ (submitted job_key cid binding.committed_outputs)
                (job, binding, takes, refl))
            λ e.
              Logs-if _ (is_rpc_error e)
                (λ _. counts_then w unprefixed r _ _ (raises w unprefixed r e))
                λ _. raises w unprefixed r e)
          λ _ _. Logs-bind _ (asks w unprefixed r _) λ _ _.
            Logs-bind _ (saves w unprefixed r _) λ _ _. Logs-bind _ (counts w unprefixed r _) λ _ _.
              Logs-if _ r.allow_unproven
                (λ _. counts_then w unprefixed r _ _ (returns w unprefixed r _))
                λ proving. request_proof-Logs _ job_key job binding takes proving

  record_claim-Logs :
      (won : Bool) (run : Run)
      → Logs (IsHonest w unprefixed r) (record_claim w unprefixed r won run)
  unfolding record_claim
  record_claim-Logs false run = returns w unprefixed r _
  record_claim-Logs true run = Logs-bind _ (asks w unprefixed r _) λ _ _.
      Logs-bind _ (saves w unprefixed r _)
        λ _ _. Logs-bind _ (counts w unprefixed r _) λ _ _. returns w unprefixed r _

  claim_unless_ours-Logs :
      (run : Run) (job_key : Pubkey) (job : JobAccount) (binding : AggregateBinding) (ours : Bool)
      → is_ours w unprefixed r job ≡ ours
      → IsTaken w unprefixed r job_key job binding
      → Logs (IsHonest w unprefixed r) (claim_unless_ours w unprefixed r ours run job_key)
  unfolding claim_unless_ours claim_job
  claim_unless_ours-Logs run job_key job binding true e takes = returns w unprefixed r _
  claim_unless_ours-Logs run job_key job binding false e takes =
      Logs-bind _
        (Logs-attempt _
          (Logs-bind _
            (Logs-bind _ (asks w unprefixed r _)
              λ _ _. Logs-emit _ (claimed job_key) (job, binding, takes, e))
            λ _ _. returns w unprefixed r _)
          λ x.
            Logs-if _ (is_rpc_error x)
              (λ _. counts_then w unprefixed r _ _ (returns w unprefixed r _))
              λ _. raises w unprefixed r x)
        λ won _. record_claim-Logs won run

  submit_claimed-Logs :
      (won : Option Run) (job_key : Pubkey) (job : JobAccount) (binding : AggregateBinding)
      (outputs : List BranchOutput)
      → IsTaken w unprefixed r job_key job binding
      → Logs
          (IsHonest w unprefixed r)
          (submit_claimed w unprefixed r won job_key job binding outputs)
  unfolding submit_claimed
  submit_claimed-Logs none job_key job binding outputs takes = returns w unprefixed r _
  submit_claimed-Logs (some run) job_key job binding outputs takes =
      submit_and_prove-Logs run job_key job binding outputs takes

  aggregate_job-Logs :
      (run : Run) (job_key : Pubkey) (job : JobAccount)
      → IsNamed w unprefixed r job_key job
      → may_aggregate w unprefixed r job ≡ true
      → (has_hook r.hook_command ≡ true) ⊎ (r.allow_unproven ≡ true)
      → Logs (IsHonest w unprefixed r) (aggregate_job w unprefixed r run job_key job)
  unfolding aggregate_job
  aggregate_job-Logs run job_key job named allowed provable =
      Logs-bind _ (bind_committed_artifact-Logs w unprefixed r job) λ binding may.
        let (log, fetched) = bind_committed_artifact-fetched w r job binding may in
        let taken : IsTaken w unprefixed r job_key job binding = record {
          named = named;
          fetched_at = log;
          fetched = fetched;
          takes = record {
            allowed = allowed;
            bound = bind_committed_artifact-IsBound w r job binding may;
            provable = provable;
          };
        } in
        Logs-bind _ (branch_outputs-Logs binding) λ outputs _.
          Logs-bind _
            (claim_unless_ours-Logs run job_key job binding (is_ours w unprefixed r job) refl taken)
            λ won _. submit_claimed-Logs won job_key job binding outputs taken

  -- The guards have let the job pass.
  hook_or_unproven :
      (hook unproven : Bool)
      → (not hook && not unproven) ≡ false
      → (hook ≡ true) ⊎ (unproven ≡ true)
  hook_or_unproven true unproven h = inl refl
  hook_or_unproven false true h = inr refl
  hook_or_unproven false false h = absurd (cc)

  not_refused : (b : Bool) → not b ≡ false → b ≡ true
  not_refused true h = refl
  not_refused false h = absurd (cc)

  aggregate_found-Logs :
      (run : Run) (job_key : Pubkey) (found : Option JobAccount)
      → ((job : JobAccount) → found ≡ some job → IsNamed w unprefixed r job_key job)
      → Logs (IsHonest w unprefixed r) (aggregate_found w unprefixed r run job_key found)
  unfolding aggregate_found
  aggregate_found-Logs run job_key none named = returns w unprefixed r _
  aggregate_found-Logs run job_key (some job) named =
      Logs-if _ (not (may_aggregate w unprefixed r job)) (λ _. returns w unprefixed r _)
        λ allowed.
          Logs-if _ (not (has_hook r.hook_command) && not r.allow_unproven)
            (λ _. counts_then w unprefixed r _ _ (returns w unprefixed r _))
            λ provable.
              aggregate_job-Logs run job_key job (named job refl) (not_refused _ allowed)
                (hook_or_unproven _ _ provable)

  parsed :
      (m : Option Pubkey) (job_key : Pubkey)
      → MayReturn {E = Event} (or_fail (present m)) job_key
      → m ≡ some job_key
  unfolding or_fail
  parsed none job_key may = let e = may.returns in absurd (cc)
  parsed (some k) job_key may = let e = may.returns in cc

  run_file-Logs :
      (log : List Event) (path : String) (file : Option Run)
      → file ≡ r.load log path
      → Logs (IsHonest w unprefixed r) (run_file w unprefixed r file)
  unfolding run_file try_aggregate ask
  run_file-Logs log path none loaded = returns w unprefixed r _
  run_file-Logs log path (some run) loaded =
      Logs-if _ run.aggregate_submitted (λ _. returns w unprefixed r _)
        λ fresh.
          Logs-attempt _
            (Logs-bind _ (gives w unprefixed r _) λ job_key may_key.
              Logs-bind _ (asks w unprefixed r _) λ found asked.
                aggregate_found-Logs run job_key found λ job e. record {
                  loaded_at = log;
                  path = path;
                  run = run;
                  loaded = sym loaded;
                  fresh = fresh;
                  named = parsed (w.parse_key run.aggregate_job) job_key may_key;
                  answered_at = asked.before;
                  answered = asked.returns ∙ ap ok e;
                })
            λ e. counts_then w unprefixed r _ _ (returns w unprefixed r _)

  loaded_file :
      (m : Result Failure (Option Run)) (loaded file : Option Run)
      → m ≡ ok loaded
      → m ≡ ok file
      → file ≡ loaded
  loaded_file m loaded file e f = cc

  run_once-Logs :
      (paths : List String) → Logs (IsHonest w unprefixed r) (run_once w unprefixed r paths)
  unfolding run_once ask
  run_once-Logs [] = returns w unprefixed r _
  run_once-Logs (path ∷ rest) = Logs-bind _ (asks w unprefixed r _) λ file asked.
      Logs-bind _
        (run_file-Logs asked.before path file
          (loaded_file _ (r.load asked.before path) file refl asked.returns))
        λ _ _. Logs-bind _ (run_once-Logs rest) λ _ _. returns w unprefixed r _

  -- Whatever IPFS, the cluster and the hook answer, a pass over the runs keeps the log honest.
  -- Each claim, receipt and accepted execution is for the job that the cluster gave for the logged
  -- key, which a stored and not yet submitted run names, and for the artifact that IPFS gave for
  -- the job's CID. The job passes the guards, its required digest is not zero, the artifact's
  -- framed digest and journal hash are those the job was opened with, and the runner has a hook or
  -- needs none. A claimed job is not the wallet's yet; a receipt is the committed outputs of the
  -- artifact's reduction; and an accepted execution is consistent in itself, carries the outputs,
  -- digest, image and journal hash of that job, and comes from a runner that requires proofs.
  pub runner-Honest :
      (paths : List String) (log : List Event)
      → All (IsHonest w unprefixed r) log
      → All (IsHonest w unprefixed r) ((run_once w unprefixed r paths log).1)
  runner-Honest paths = (run_once-Logs paths).at
