-- ===== src/Worker/Verifier/Honest/Attests.antt =====
-- A branch job: what `_verify_and_attest` of worker/verifier_worker/daemon.py adds to the log.
use kswarm.Prelude.{
  ◌≡◌, ◌≢◌, ◌∙◌, ◌⊎◌, inl, inr, refl, Bool, true, false, not, ◌&&◌, ◌||◌, Option, none, some, List,
  [], ◌∷◌,
}
use kswarm.Prelude.Bytes.{Bytes, bytes_eq, bytes_eq_self}
use kswarm.Prelude.Int.{ℤ}
use kswarm.CanonicalHash.{BranchOutput}
use kswarm.Protocol.Accounts.{Pubkey, JobAccount}
use kswarm.Worker.Action.{
  ask, or_fail, Logs, MayReturn, MayReturn-bind, MayReturn-pure, Logs-if, Logs-bind, Logs-when,
}
use kswarm.Worker.World.{present, validate_grid, BranchInput, World}
use kswarm.Worker.Verifier.{
  Event, ReceiptFault, ReceiptReport, Verification, Verifier, Executor, is_empty,
  matches_attestable_branch_job,
}
use kswarm.Worker.Verifier.Receipt.{
  verify, run_executor, compare_hash, names_receipt, verify_branch_receipt,
}
use kswarm.Worker.Verifier.Branch.{
  runs_other_model, publish_attestation, attest_unless_refuted, attest_output, verify_and_attest,
}
use kswarm.Worker.Verifier.Honest.{
  IsListed, IsRead, IsChecked, IsBranchAttestation, branch, IsHonest,
}
use kswarm.Worker.Verifier.Honest.Quiet.{
  asks, gives, returns, counts, counts_then, submit_attestation-Logs, challenge-Logs,
  run_executor-Logs, receipt_of-Logs,
}

module _ (w : World Event) (v : Verifier) (is_past : ℤ → Bool) where
  -- The hash of a verification is that of its bytes.
  run_executor-own_hash :
      (x : Option Executor) (job_key : Pubkey) (hash : Bytes) (input : BranchInput)
      (output : BranchOutput) (r : Verification)
      → MayReturn (run_executor w v x job_key hash input output) r
      → (r.verifier_hash ≡ w.env.sha256 r.verifier_result_bytes)
        × (r.matched ≡ bytes_eq r.verifier_hash hash && is_empty r.validation_errors)
  unfolding run_executor compare_hash
  run_executor-own_hash none job_key hash input output r may =
      let (_, _, last) = MayReturn-bind may in rw (MayReturn-pure last) (refl, refl)
  run_executor-own_hash (some x) job_key hash input output r may =
      let (_, _, last) = MayReturn-bind may in rw (MayReturn-pure last) (refl, refl)

  module _ (job_key : Pubkey) (job : JobAccount) where
    publish_attestation-Logs :
        (output : BranchOutput) (r : Verification) (faults : List ReceiptFault)
        (report : ReceiptReport)
        → IsChecked w v is_past job_key job r faults
        → (faults ≡ []) ⊎ (r.verifier_hash ≢ job.result.submitted_result_hash)
        → Logs (IsHonest w v is_past) (publish_attestation w v job_key job output r faults report)
    unfolding publish_attestation
    publish_attestation-Logs output r faults report c proven =
        let honest : IsBranchAttestation w v is_past job_key (w.env.sha256 r.verifier_result_bytes)
            v.software_digest =
          record {
            job = job;
            verification = r;
            faults = faults;
            known = c;
            own_hash = refl;
            proven = elim proven [
              | inl none_found ↦ inl none_found
              | inr apart ↦ inr λ e. apart (c.own_hash ∙ e)
            ];
            own_digest = refl;
          } in
        Logs-bind _ (asks w v is_past _) λ cid _.
          Logs-bind _
            (submit_attestation-Logs w v is_past job_key r.verifier_result_bytes cid
              v.software_digest (inl honest))
            λ _ _. Logs-bind _ (counts w v is_past _) λ _ _.
              Logs-bind _
                (Logs-when _ (not r.matched || not (is_empty faults)) _ λ disputed.
                  Logs-bind _ (counts w v is_past _) λ _ _.
                    Logs-when _ v.challenge_on_mismatch _ λ on.
                      challenge-Logs w v is_past job_key
                        (branch job r faults c (reason r.matched faults disputed) proven) on)
                λ _ _. returns w v is_past true
      where
        reason :
            (matched : Bool) (faults : List ReceiptFault)
            → (not matched || not (is_empty faults)) ≡ true
            → (matched ≡ false) ⊎ (faults ≢ [])
        reason false faults d = inl refl
        reason true [] d = absurd (cc)
        reason true (f ∷ fs) d = inr λ e. absurd (cc)

    -- The guard before the attestation has not refused.
    not_refuted :
        (faults : List ReceiptFault) (own hash : Bytes)
        → (not (is_empty faults) && bytes_eq own hash) ≡ false
        → (faults ≡ []) ⊎ (own ≢ hash)
    not_refuted [] own hash passed = inl refl
    not_refuted (f ∷ fs) own hash passed =
        inr λ e. let same : bytes_eq own hash ≡ true = rw e (bytes_eq_self hash) in absurd (cc)

    attest_unless_refuted-Logs :
        (output : BranchOutput) (r : Verification) (faults : List ReceiptFault)
        (report : ReceiptReport)
        → IsChecked w v is_past job_key job r faults
        → Logs (IsHonest w v is_past) (attest_unless_refuted w v job_key job output r faults report)
    unfolding attest_unless_refuted
    attest_unless_refuted-Logs output r faults report c =
        let submitted = job.result.submitted_result_hash in
        Logs-if _ (not (is_empty faults) && bytes_eq r.verifier_hash submitted)
          (λ _. counts_then w v is_past _ false)
          λ passed.
            publish_attestation-Logs output r faults report c
              (not_refuted faults r.verifier_hash submitted passed)

    attest_output-Logs :
        (input : BranchInput) (output : BranchOutput)
        → IsListed w v is_past job_key job
        → matches_attestable_branch_job v is_past job ≡ true
        → IsRead w v is_past job input output
        → Logs (IsHonest w v is_past) (attest_output w v job_key job input output)
    unfolding attest_output verify verify_branch_receipt
    attest_output-Logs input output listed attestable read =
        Logs-if _ (runs_other_model v.executor output) (λ _. counts_then w v is_past _ false)
          λ _.
            Logs-bind _
              (run_executor-Logs w v is_past v.executor job_key job.result.submitted_result_hash
                input output)
              λ r verified.
                Logs-bind _
                  (receipt_of-Logs w v is_past v.zkvm_host (names_receipt output) job input output)
                  λ (faults, report) checked.
                    attest_unless_refuted-Logs output r faults report (record {
                      listed = listed;
                      attestable = attestable;
                      input = input;
                      output = output;
                      read = read;
                      verified = verified;
                      own_hash =
                          (run_executor-own_hash v.executor job_key job.result.submitted_result_hash
                            input output r verified).0;
                      report = report;
                      checked = checked;
                    })

  parsed :
      {A : Type 0} (m : Option A) (a : A)
      → MayReturn {E = Event} (or_fail (present m)) a
      → m ≡ some a
  unfolding or_fail
  parsed none a may = let e = may.returns in absurd (cc)
  parsed (some b) a may = let e = may.returns in cc

  pub verify_and_attest-Logs :
      (job_key : Pubkey) (job : JobAccount)
      → IsListed w v is_past job_key job
      → matches_attestable_branch_job v is_past job ≡ true
      → Logs (IsHonest w v is_past) (verify_and_attest w v job_key job)
  unfolding verify_and_attest ask
  verify_and_attest-Logs job_key job listed attestable =
      Logs-bind _ (asks w v is_past _) λ raw raw_asked.
        Logs-bind _ (gives w v is_past _) λ input input_may.
          Logs-bind _ (asks w v is_past _) λ document document_asked.
            Logs-bind _ (gives w v is_past _) λ output output_may.
              attest_output-Logs job_key job (validate_grid input) output listed attestable
                (record {
                  input_at = raw_asked.before;
                  raw = raw;
                  input_fetched = raw_asked.returns;
                  parsed = input;
                  input_parsed = parsed (w.parse_input raw) input input_may;
                  gridded = refl;
                  output_at = document_asked.before;
                  document = document;
                  output_fetched = document_asked.returns;
                  output_parsed = parsed (w.parse_output document) output output_may;
                })
