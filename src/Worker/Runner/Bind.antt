-- ===== src/Worker/Runner/Bind.antt =====
-- `_bind_committed_artifact` of worker/aggregator_runner/runner.py and its two checks.
use text.Mathlib.Text.{◌==◌ as str_eq}
use kswarm.Prelude.{
  ℕ, Bool, true, false, not, ◌&&◌, ◌||◌, ◌==◌, Option, none, some, List, [], ◌∷◌, if◌then◌else◌,
  String, Result, ok, err,
}
use kswarm.Prelude.Bytes.{Bytes, bytes_eq}
use kswarm.Json.{Json, Fields, arr, obj, nil, end, get}
use kswarm.Bonsol.{framed_input_digest}
use kswarm.CanonicalHash.{is_some}
use kswarm.Aggregate.Journal.{aggregate_committed_outputs, aggregate_journal, expected_journal_hash}
use kswarm.Aggregate.Receipt.{parse_branch_result_bytes}
use kswarm.Protocol.Accounts.{JobAccount}
use kswarm.Worker.Action.{Action, pure, raise, ask, or_fail, attempt, ◌>>=◌, ◌>>◌}
use kswarm.Worker.World.{
  Failure, aggregate_error, aggregation_error, other, aggregate_failure, failing, present,
  status_submitted, branch_proof, zero_hash, World, cat_json, entry, as_text, as_list,
}
use kswarm.Worker.Runner.{AggregateBinding, Event, Runner}

-- `except AggregateError as exc: raise AggregationError`
pub refusal : Failure → Failure
refusal (aggregate_error e) = aggregation_error
refusal e = e

-- `if b: raise AggregationError`
abbrev pub refuse_if : Bool → Action Event Failure (Unit {0})
refuse_if b = or_fail (if b then err aggregation_error else ok tt)

-- `JOB_STATUS_BY_NAME["settled"]`
abbrev pub status_settled : ℕ
status_settled = 5

abbrev same_texts : List String → List String → Bool
same_texts [] [] = true
same_texts (a ∷ xs) (b ∷ ys) = str_eq a b && same_texts xs ys
same_texts _ _ = false

module _ (w : World Event) (r : Runner) where
  -- A branch job whose receipt may be reduced.
  unfoldable pub is_ready : JobAccount → Bool
  is_ready job =
      (job.terms.status == status_settled)
      || (r.allow_completed_branches
          && ((job.terms.status == status_submitted)
              && is_some job.verifier.verifier_attestation_hash))

  unfoldable pub check_branch : Json → Option JobAccount → Action Event Failure (Unit {0})
  unfolding is_ready
  check_branch branch none = raise aggregation_error
  check_branch branch (some job) = do
    refuse_if (not (job.terms.job_class == branch_proof))
    refuse_if (not (is_ready job))
    found ← or_fail (entry "result_bytes" branch)
    encoded ← or_fail (as_text found)
    raw ← or_fail (present (w.fromhex encoded))
    receipt ← or_fail (failing aggregate_failure (parse_branch_result_bytes w.env.sha256 raw))
    refuse_if (not (bytes_eq receipt.result_hash job.result.submitted_result_hash))

  unfoldable pub check_branches : List Json → Action Event Failure (Unit {0})
  unfolding check_branch
  check_branches [] = pure tt
  check_branches (branch ∷ rest) = do
    found ← or_fail (entry "job" branch)
    named ← or_fail (as_text found)
    job_key ← or_fail (present (w.parse_key named))
    job ← ask (λ log. w.fetch_job log job_key)
    check_branch branch job
    check_branches rest

  -- `_check_branches_against_chain`
  unfoldable pub check_branches_against_chain : Bytes → Action Event Failure (Unit {0})
  unfolding check_branches
  check_branches_against_chain artifact = do
    document ← or_fail (present (w.loads artifact))
    found ← or_fail (entry "branches" document)
    branches ← or_fail (as_list found)
    check_branches branches

  -- `[str(item["job"]) for item in items]`
  unfoldable pub job_names : List Json → Result Failure (List String)
  job_names [] = ok []
  job_names (item ∷ rest) =
      let others = job_names rest in
      elim (entry "job" item) [
        | err e ↦ err e
        | ok found ↦ elim others [ err e ↦ err e | ok names ↦ ok (w.shown found ∷ names) ]
      ]

  -- `value or fallback`
  unfoldable pub or_else : Json → Json → Json
  or_else value fallback = if w.truthy value then value else fallback

  -- The comparison of the document with the plan that it names.
  unfoldable pub compare_with_plan : Fields → Fields → Action Event Failure (Unit {0})
  unfolding job_names or_else
  compare_with_plan document plan = do
    let same_combiner = w.same_value (get plan "combiner") (get document "combiner")
    planned ← or_fail (present (w.as_dict (or_else (get plan "combiner_parameters") (obj end))))
    bound ← or_fail (present (w.as_dict (or_else (get document "combiner_parameters") (obj end))))
    planned_items ← or_fail (as_list (or_else (get plan "branch_jobs") (arr nil)))
    planned_jobs ← or_fail (job_names planned_items)
    found ← or_fail (entry "branches" (obj document))
    bound_items ← or_fail (as_list found)
    bound_jobs ← or_fail (job_names bound_items)
    refuse_if (
        not (
          same_combiner
          && (w.same_value (obj planned) (obj bound)
              && (same_texts planned_jobs [] || same_texts planned_jobs bound_jobs))))

  abbrev fields_of : Json → Result Failure Fields
  fields_of (obj fields) = ok fields
  fields_of _ = err other

  -- `_check_artifact_against_plan`
  unfoldable pub check_document : Fields → Action Event Failure (Unit {0})
  unfolding compare_with_plan
  check_document document =
      if not (w.truthy (get document "aggregate_plan_cid")) then pure tt else (do
        found ←
            attempt (ask (λ log. cat_json w log (w.shown (get document "aggregate_plan_cid"))))
              (λ e. raise aggregation_error)
        plan ← or_fail (fields_of found)
        compare_with_plan document plan)

  unfoldable pub check_artifact_against_plan : Bytes → Action Event Failure (Unit {0})
  unfolding check_document
  check_artifact_against_plan artifact = do
    found ← or_fail (present (w.loads artifact))
    document ← or_fail (fields_of found)
    check_document document

  unfoldable pub bind_artifact : JobAccount → Bytes → Action Event Failure AggregateBinding
  unfolding check_branches_against_chain check_artifact_against_plan
  bind_artifact job artifact = do
    digest ← or_fail (failing (λ _. other) (framed_input_digest w.env.sha256 artifact))
    refuse_if (not (bytes_eq digest job.result.input_bundle_hash))
    journal ← or_fail (
        failing (λ e. refusal (aggregate_failure e))
          (aggregate_journal w.env.sha256 w.loads artifact))
    journal_hash ← or_fail (failing aggregate_failure (expected_journal_hash w.env.sha256 journal))
    outputs ← or_fail (failing aggregate_failure (aggregate_committed_outputs journal.reduction))
    refuse_if (not (bytes_eq journal_hash job.result.expected_result_hash))
    refuse_if (bytes_eq job.terms.required_software_digest zero_hash)
    check_branches_against_chain artifact
    check_artifact_against_plan artifact
    pure (record { artifact = artifact; journal = journal; committed_outputs = outputs })

  -- `_bind_committed_artifact`
  unfoldable pub bind_committed_artifact : JobAccount → Action Event Failure AggregateBinding
  unfolding bind_artifact
  bind_committed_artifact job = do
    artifact ← ask (λ log. w.cat_bytes log job.result.input_cid)
    bind_artifact job artifact
