-- ===== src/Worker/Verifier/Branch.antt =====
-- `_verify_and_attest` of worker/verifier_worker/daemon.py.
use text.Mathlib.Text.{◌==◌ as str_eq}
use kswarm.Prelude.{Bool, true, false, not, ◌&&◌, ◌||◌, Option, none, some, List, if◌then◌else◌}
use kswarm.Prelude.Bytes.{bytes_eq}
use kswarm.CanonicalHash.{BranchOutput}
use kswarm.Protocol.Accounts.{Pubkey, JobAccount}
use kswarm.Worker.Action.{Action, pure, ask, or_fail, emit, when, ◌>>=◌, ◌>>◌}
use kswarm.Worker.World.{Failure, cat_json, present, BranchInput, validate_grid, World}
use kswarm.Worker.Verifier.{
  Event, counted, ReceiptFault, ReceiptReport, Verification, branch_evidence, Executor, Verifier,
  is_empty,
}
use kswarm.Worker.Verifier.Session.{submit_attestation, challenge}
use kswarm.Worker.Verifier.Receipt.{verify, verify_branch_receipt}

-- `self.executor is not None and submitted_output.llm_model != self.executor.llm_model_name`
pub runs_other_model : Option Executor → BranchOutput → Bool
runs_other_model none output = false
runs_other_model (some x) output = not (str_eq output.llm_model x.llm_model_name)

module _ (w : World Event) (v : Verifier) where
  -- From the evidence on: the verifier attests to its own result.
  unfoldable pub publish_attestation :
      Pubkey
      → JobAccount
      → BranchOutput
      → Verification
      → List ReceiptFault
      → ReceiptReport
      → Action Event Failure Bool
  publish_attestation job_key job output verification receipt_errors report = do
    evidence_cid ←
        ask (λ log. v.add_json log (branch_evidence job_key job output verification report))
    submit_attestation w v job_key verification.verifier_result_bytes evidence_cid v.software_digest
    emit (counted "attestations_submitted")
    when (not verification.matched || not (is_empty receipt_errors))
        (emit (counted "mismatches") >> when v.challenge_on_mismatch (challenge w v job_key))
    pure true

  unfoldable pub attest_unless_refuted :
      Pubkey
      → JobAccount
      → BranchOutput
      → Verification
      → List ReceiptFault
      → ReceiptReport
      → Action Event Failure Bool
  unfolding publish_attestation
  attest_unless_refuted job_key job output verification receipt_errors report =
      if not (is_empty receipt_errors)
        && bytes_eq verification.verifier_hash job.result.submitted_result_hash
      then emit (counted "receipt_verification_refusals") >> pure false
      else publish_attestation job_key job output verification receipt_errors report

  unfoldable pub attest_output :
      Pubkey → JobAccount → BranchInput → BranchOutput → Action Event Failure Bool
  unfolding attest_unless_refuted
  attest_output job_key job input output =
      if runs_other_model v.executor output
      then emit (counted "reexecution_model_mismatches") >> pure false
      else (do
        verification ← verify w v job_key job.result.submitted_result_hash input output
        (receipt_errors, report) ← verify_branch_receipt w v job input output
        attest_unless_refuted job_key job output verification receipt_errors report)

  -- `_verify_and_attest`
  unfoldable pub verify_and_attest : Pubkey → JobAccount → Action Event Failure Bool
  unfolding attest_output
  verify_and_attest job_key job = do
    raw ← ask (λ log. w.cat_bytes log job.result.input_cid)
    input ← or_fail (present (w.parse_input raw))
    document ← ask (λ log. cat_json w log job.result.output_cid)
    output ← or_fail (present (w.parse_output document))
    attest_output job_key job (validate_grid input) output
