-- ===== src/Worker/Verifier/Receipt.antt =====
-- `verify` and `_verify_branch_receipt` of worker/verifier_worker/daemon.py, with `image_id_matches`
-- and `verify` of worker/worker_common/branch_receipt.py.
use text.Mathlib.Text.{◌==◌ as str_eq}
use kswarm.Prelude.{
  Bool, true, false, not, ◌&&◌, Option, none, some, List, [], ◌∷◌, ◌++◌, map, if◌then◌else◌, String,
  Result, ok, err,
}
use kswarm.Prelude.Bytes.{Bytes, bytes_eq}
use kswarm.Json.{Json, str, obj, lookup}
use kswarm.CanonicalHash.{BranchOutput, branch_output_result_bytes}
use kswarm.Protocol.Accounts.{Pubkey, JobAccount}
use kswarm.ZkvmReceipt.{
  ReceiptJournal, expected_journal, bind_to_claim, validate_bundle_shape, read_verified,
}
use kswarm.ZkvmReceipt as Zkvm
use kswarm.Worker.Action.{Action, pure, raise, ask, or_fail, attempt, emit, ◌>>=◌, ◌>>◌}
use kswarm.Worker.World.{
  Failure, ipfs_error, receipt_error, other, receipt_failure, failing, cat_json, BranchInput, World,
}
use kswarm.Worker.Verifier.{
  Event, counted, Mismatch, ReceiptFault, no_receipt, receipt_not_verified, other_image_id, unbound,
  ReceiptReport, disabled, absent, unverified, compared, Verification, Executor, Verifier,
  validate_output_matches_input, is_empty, reason_if,
}

-- The two exceptions that the receipt check turns into a reason.
pub is_receipt_failure : Failure → Bool
is_receipt_failure ipfs_error = true
is_receipt_failure (receipt_error e) = true
is_receipt_failure _ = false

-- `not submitted_output.zkvm_receipt_cid`
pub names_receipt : BranchOutput → Option String
names_receipt output = elim output.zkvm_receipt_cid [
  | none ↦ none
  | some cid ↦ if str_eq cid "" then none else some cid
]

module _ (w : World Event) (v : Verifier) where
  -- `Verification(...)` for the result bytes of an execution.
  unfoldable pub compare_hash :
      Bytes → List Mismatch → BranchOutput → Option Json → Bytes → Verification
  compare_hash submitted_result_hash errors output transcript result_bytes =
      let verifier_hash = w.env.sha256 result_bytes in
      record {
        verifier_result_bytes = result_bytes;
        verifier_hash = verifier_hash;
        matched = bytes_eq verifier_hash submitted_result_hash && is_empty errors;
        validation_errors = errors;
        verifier_output = output;
        verifier_transcript = transcript;
      }

  unfoldable pub run_executor :
      Option Executor
      → Pubkey
      → Bytes
      → BranchInput
      → BranchOutput
      → Action Event Failure Verification
  unfolding compare_hash
  run_executor none job_key submitted input output = do
    result_bytes ← or_fail (failing (λ _. other) (branch_output_result_bytes w.env.sha256 output))
    pure (
        compare_hash submitted (validate_output_matches_input input output) output none
          result_bytes)
  run_executor (some x) job_key submitted input output = do
    done ← ask (λ log. x.execute log job_key input output)
    pure (
        compare_hash submitted (validate_output_matches_input input output) done.output
          (some done.transcript) done.result_bytes)

  -- `verify`
  unfoldable pub verify :
      Pubkey → Bytes → BranchInput → BranchOutput → Action Event Failure Verification
  unfolding run_executor
  verify = run_executor v.executor

  -- `image_id_matches`, which asks the bundle for its image id only where one is pinned.
  pub image_id_matches : Json → Option String → Result Failure (List ReceiptFault)
  image_id_matches bundle none = ok []
  image_id_matches (obj bundle) (some pinned) =
      let named : Json = elim (lookup "image_id_hex" bundle) [
        | none ↦ str ""
        | some value ↦ value
      ] in
      ok (reason_if (not (str_eq (w.lowered named) pinned)) other_image_id)
  image_id_matches _ (some pinned) = err other

  -- `branch_receipt.verify`
  pub verify_bundle : String → Json → Result Failure ReceiptJournal
  verify_bundle host bundle =
      elim (failing receipt_failure (validate_bundle_shape w.fromhex w.to_int bundle)) [
        | err e ↦ err e
        | ok _ ↦ elim (v.host_verify host bundle) [
          | some (obj verified) ↦
              failing receipt_failure (read_verified w.fromhex w.to_int verified)
          | some _ ↦ err other
          | none ↦ err (receipt_error Zkvm.not_verified)
        ]
      ]

  -- What the `try` block of `_verify_branch_receipt` fetches and checks.
  unfoldable pub fetch_receipt :
      String → String → Action Event Failure (List ReceiptFault × ReceiptJournal)
  fetch_receipt host cid = do
    bundle ← ask (λ log. cat_json w log cid)
    faults ← or_fail (image_id_matches bundle v.zkvm_image_id)
    journal ← or_fail (verify_bundle host bundle)
    pure (faults, journal)

  -- The rest of `_verify_branch_receipt`.
  unfoldable pub bind_receipt :
      JobAccount
      → BranchInput
      → BranchOutput
      → Option (List ReceiptFault × ReceiptJournal)
      → Action Event Failure (List ReceiptFault × ReceiptReport)
  bind_receipt job input output none = pure (receipt_not_verified ∷ [], unverified)
  bind_receipt job input output (some (faults, journal)) = do
    expected ← or_fail (
        failing receipt_failure (
          expected_journal w.env.sha256 (w.dump_input input) (w.dump_output output)
            job.result.submitted_result_hash))
    let errors =
        faults ++ map unbound (bind_to_claim journal expected job.result.submitted_result_hash)
    emit (counted (if is_empty errors then "receipts_verified" else "receipt_binding_failures"))
    pure (errors, compared journal expected errors)

  unfoldable pub check_receipt :
      String
      → String
      → JobAccount
      → BranchInput
      → BranchOutput
      → Action Event Failure (List ReceiptFault × ReceiptReport)
  unfolding fetch_receipt bind_receipt
  check_receipt host cid job input output = do
    fetched ←
        attempt (do found ← fetch_receipt host cid; pure (some found))
          λ e.
            if is_receipt_failure e
            then emit (counted "receipt_verification_failures") >> pure none
            else raise e
    bind_receipt job input output fetched

  unfoldable pub receipt_of :
      Option String
      → Option String
      → JobAccount
      → BranchInput
      → BranchOutput
      → Action Event Failure (List ReceiptFault × ReceiptReport)
  unfolding check_receipt
  receipt_of none cid job input output = pure ([], disabled)
  receipt_of (some host) none job input output =
      if v.zkvm_required then pure (no_receipt ∷ [], unverified) else pure ([], absent)
  receipt_of (some host) (some cid) job input output = check_receipt host cid job input output

  -- `_verify_branch_receipt`
  unfoldable pub verify_branch_receipt :
      JobAccount
      → BranchInput
      → BranchOutput
      → Action Event Failure (List ReceiptFault × ReceiptReport)
  unfolding receipt_of
  verify_branch_receipt job input output =
      receipt_of v.zkvm_host (names_receipt output) job input output
