-- ===== src/Worker/Verifier/Honest/Quiet.antt =====
-- The steps that add no attestation to the log, and those that need its grounds.
use kswarm.Prelude.{◌≡◌, refl, Bool, true, false, Option, none, some, List, String, Result, ok}
use kswarm.Prelude.Bytes.{Bytes}
use kswarm.Prelude.Int.{ℤ}
use kswarm.CanonicalHash.{BranchOutput}
use kswarm.Protocol.Accounts.{Pubkey, JobAccount}
use kswarm.ZkvmReceipt.{ReceiptJournal}
use kswarm.Worker.Action.{
  pure, raise, ask, or_fail, emit, Logs, Logs-silent, Logs-attempt, Logs-if, Logs-bind, Logs-emit,
  Logs-when, ◌>>◌,
}
use kswarm.Worker.World.{Failure, BranchInput, World}
use kswarm.Worker.Verifier.{Event, counted, attested, ReceiptFault, Verifier, Executor}
use kswarm.Worker.Verifier.Session.{
  is_not_assigned, submit_attestation, challenge_job, challenge_refreshed, challenge,
}
use kswarm.Worker.Verifier.Receipt.{
  is_receipt_failure, run_executor, fetch_receipt, bind_receipt, check_receipt, receipt_of,
}
use kswarm.Worker.Verifier.Honest.{Disputes, IsHonest}

module _ (w : World Event) (v : Verifier) (is_past : ℤ → Bool) where
  pub asks : {A : Type 0} (r : List Event → Result Failure A) → Logs (IsHonest w v is_past) (ask r)
  unfolding ask
  asks r = Logs-silent (IsHonest w v is_past) (ask r) λ h. refl

  pub gives :
      {A : Type 0} (r : Result Failure A) → Logs (IsHonest w v is_past) (or_fail {E = Event} r)
  unfolding or_fail
  gives r = Logs-silent (IsHonest w v is_past) (or_fail r) λ h. refl

  pub returns :
      {A : Type 0} (a : A) → Logs (IsHonest w v is_past) (pure {E = Event} {F = Failure} a)
  unfolding pure
  returns a = Logs-silent (IsHonest w v is_past) (pure a) λ h. refl

  pub raises :
      {A : Type 0} (e : Failure) → Logs (IsHonest w v is_past) (raise {E = Event} {A = A} e)
  unfolding raise
  raises e = Logs-silent (IsHonest w v is_past) (raise e) λ h. refl

  pub counts : (metric : String) → Logs {F = Failure} (IsHonest w v is_past) (emit (counted metric))
  counts metric = Logs-emit (IsHonest w v is_past) (counted metric) tt

  -- A metric, then a value.
  pub counts_then :
      {A : Type 0} (metric : String) (a : A)
      → Logs {F = Failure} (IsHonest w v is_past) (emit (counted metric) >> pure a)
  counts_then metric a = Logs-bind (IsHonest w v is_past) (counts metric) λ _ _. returns a

  pub submit_attestation-Logs :
      (job_key : Pubkey) (bytes : Bytes) (cid : String) (digest : Bytes)
      → (IsHonest w v is_past) (attested job_key (w.env.sha256 bytes) cid digest)
      → Logs (IsHonest w v is_past) (submit_attestation w v job_key bytes cid digest)
  unfolding submit_attestation
  submit_attestation-Logs job_key bytes cid digest honest =
      Logs-bind (IsHonest w v is_past) (gives _) λ ix _.
        Logs-bind (IsHonest w v is_past) (asks _) λ _ _. Logs-emit (IsHonest w v is_past) _ honest

  challenge_refreshed-Logs :
      (job_key : Pubkey) (account : Option JobAccount)
      → Disputes w v is_past job_key
      → v.challenge_on_mismatch ≡ true
      → (log : List Event) → w.fetch_job log job_key ≡ ok account
      → Logs (IsHonest w v is_past) (challenge_refreshed w v job_key account)
  unfolding challenge_refreshed challenge_job
  challenge_refreshed-Logs job_key none d on log answered = returns tt
  challenge_refreshed-Logs job_key (some account) d on log answered =
      Logs-bind (IsHonest w v is_past)
        (Logs-attempt (IsHonest w v is_past)
          (Logs-bind (IsHonest w v is_past)
            (Logs-bind (IsHonest w v is_past) (asks _)
              λ _ _. Logs-emit (IsHonest w v is_past) _ (d, on, (log, answered)))
            λ _ _. returns true)
          λ e.
            Logs-if (IsHonest w v is_past) (is_not_assigned e) (λ _. counts_then _ false)
              λ _. raises e)
        λ accepted _. Logs-when (IsHonest w v is_past) accepted _ λ _. counts _

  pub challenge-Logs :
      (job_key : Pubkey)
      → Disputes w v is_past job_key
      → v.challenge_on_mismatch ≡ true
      → Logs (IsHonest w v is_past) (challenge w v job_key)
  unfolding challenge ask
  challenge-Logs job_key d on =
      Logs-bind (IsHonest w v is_past) (asks _)
        λ account asked. challenge_refreshed-Logs job_key account d on asked.before asked.returns

  pub run_executor-Logs :
      (x : Option Executor) (job_key : Pubkey) (hash : Bytes) (input : BranchInput)
      (output : BranchOutput)
      → Logs (IsHonest w v is_past) (run_executor w v x job_key hash input output)
  unfolding run_executor
  run_executor-Logs none job_key hash input output =
      Logs-bind (IsHonest w v is_past) (gives _) λ _ _. returns _
  run_executor-Logs (some x) job_key hash input output =
      Logs-bind (IsHonest w v is_past) (asks _) λ _ _. returns _

  bind_receipt-Logs :
      (job : JobAccount) (input : BranchInput) (output : BranchOutput)
      (found : Option (List ReceiptFault × ReceiptJournal))
      → Logs (IsHonest w v is_past) (bind_receipt w v job input output found)
  unfolding bind_receipt
  bind_receipt-Logs job input output none = returns _
  bind_receipt-Logs job input output (some (faults, journal)) =
      Logs-bind (IsHonest w v is_past) (gives _)
        λ _ _. Logs-bind (IsHonest w v is_past) (counts _) λ _ _. returns _

  fetch_receipt-Logs :
      (host cid : String) → Logs (IsHonest w v is_past) (fetch_receipt w v host cid)
  unfolding fetch_receipt
  fetch_receipt-Logs host cid = Logs-bind (IsHonest w v is_past) (asks _) λ _ _.
      Logs-bind (IsHonest w v is_past) (gives _)
        λ _ _. Logs-bind (IsHonest w v is_past) (gives _) λ _ _. returns _

  pub receipt_of-Logs :
      (host cid : Option String) (job : JobAccount) (input : BranchInput) (output : BranchOutput)
      → Logs (IsHonest w v is_past) (receipt_of w v host cid job input output)
  unfolding receipt_of check_receipt
  receipt_of-Logs none cid job input output = returns _
  receipt_of-Logs (some host) none job input output =
      Logs-if (IsHonest w v is_past) v.zkvm_required (λ _. returns _) λ _. returns _
  receipt_of-Logs (some host) (some cid) job input output =
      Logs-bind (IsHonest w v is_past)
        (Logs-attempt (IsHonest w v is_past)
          (Logs-bind (IsHonest w v is_past) (fetch_receipt-Logs host cid) λ _ _. returns _)
          λ e.
            Logs-if (IsHonest w v is_past) (is_receipt_failure e) (λ _. counts_then _ none)
              λ _. raises e)
        λ found _. bind_receipt-Logs job input output found
