-- ===== src/Worker/Verifier/Honest.antt =====
-- What the log of worker/verifier_worker/daemon.py may hold: the grounds of each attestation and of
-- each challenge.
pub mod Quiet
pub mod Attests
pub mod Reduces
use kswarm.Prelude.{
  ◌≡◌, ◌≢◌, ◌⊎◌, inl, inr, refl, Bool, Bool-cases, true, false, not, ◌&&◌, Option, none, some, List,
  [], ◌∷◌, ◌++◌, String, Result, ok, All, if◌then◌else◌,
}
use kswarm.Prelude.Bytes.{Bytes, bytes_eq, bytes_eq_self}
use kswarm.Prelude.Int.{ℤ}
use kswarm.CanonicalHash.{BranchOutput}
use kswarm.Aggregate.Journal.{AggregateJournal, aggregate_journal, aggregate_committed_outputs}
use kswarm.Json.{Json}
use kswarm.Protocol.Accounts.{Pubkey, JobAccount}
use kswarm.ZkvmReceipt.{ReceiptJournal}
use kswarm.Worker.Action.{
  Action, pure, raise, ask, or_fail, attempt, emit, when, Logs, MayReturn, Logs-silent,
  Logs-attempt, Logs-if, Logs-bind, Logs-emit, Logs-when, ◌>>=◌, ◌>>◌,
}
use kswarm.Worker.World.{Failure, BranchInput, World, validate_grid, cat_json, zero_hash}
use kswarm.Worker.Verifier.{
  Event, counted, attested, challenged, ReceiptFault, ReceiptReport, Verification, Verifier,
  Execution, Executor, AggregateFault, is_empty, matches_attestable_branch_job,
  matches_attestable_aggregate_job,
}
use kswarm.Worker.Verifier.Session.{
  is_not_assigned, submit_attestation, challenge_job, challenge_refreshed, challenge,
}
use kswarm.Worker.Verifier.Receipt.{
  is_receipt_failure, verify, run_executor, fetch_receipt, bind_receipt, check_receipt, receipt_of,
  verify_branch_receipt,
}
use kswarm.Worker.Verifier.Branch.{
  publish_attestation, attest_unless_refuted, attest_output, verify_and_attest,
}
use kswarm.Worker.Verifier.Reduction.{
  attested_digest, aggregate_branches_match_chain, attest_reduction, attest_artifact,
  verify_and_attest_aggregate,
}
use kswarm.Worker.Verifier.Run.{run_job, run_jobs, run_once}

-- The digest that an aggregate job requires, or the verifier's own where it requires none.
abbrev pub Names : Verifier → JobAccount → Bytes → Type 0
Names v job digest =
    ((job.terms.required_software_digest ≡ zero_hash) × (digest ≡ v.software_digest))
    ⊎ ((job.terms.required_software_digest ≢ zero_hash)
        × (digest ≡ job.terms.required_software_digest))

module _ (w : World Event) (v : Verifier) (is_past : ℤ → Bool) where
  -- The cluster listed the job under the key.
  pub record IsListed (job_key : Pubkey) (job : JobAccount) : Type 0 where
    pub listed_at : List Event
    pub jobs : List (Pubkey × JobAccount)
    pub listed : w.fetch_jobs listed_at ≡ ok jobs
    pub before : List (Pubkey × JobAccount)
    pub after : List (Pubkey × JobAccount)
    pub among : jobs ≡ before ++ ((job_key, job) ∷ after)

  -- The input and the output that IPFS gave for a branch job's CIDs, parsed.
  pub record IsRead (job : JobAccount) (input : BranchInput) (output : BranchOutput) : Type 0 where
    pub input_at : List Event
    pub raw : Bytes
    pub input_fetched : w.cat_bytes input_at job.result.input_cid ≡ ok raw
    pub parsed : BranchInput
    pub input_parsed : w.parse_input raw ≡ some parsed
    pub gridded : input ≡ validate_grid parsed
    pub output_at : List Event
    pub document : Json
    pub output_fetched : cat_json w output_at job.result.output_cid ≡ ok document
    pub output_parsed : w.parse_output document ≡ some output

  -- What the daemon has found out about a listed branch job that passes its filter: the result that
  -- `verify` gave for what IPFS gave, and the faults of the worker's receipt.
  pub record IsChecked (job_key : Pubkey) (job : JobAccount) (verification : Verification)
      (faults : List ReceiptFault) : Type 0 where
    pub listed : IsListed job_key job
    pub attestable : matches_attestable_branch_job v is_past job ≡ true
    pub input : BranchInput
    pub output : BranchOutput
    pub read : IsRead job input output
    pub verified :
        MayReturn (verify w v job_key job.result.submitted_result_hash input output) verification
    pub own_hash : verification.verifier_hash ≡ w.env.sha256 verification.verifier_result_bytes
    pub report : ReceiptReport
    pub checked : MayReturn (verify_branch_receipt w v job input output) (faults, report)

  -- A branch job's attestation: the hash is that of the verifier's own result, and it is the
  -- worker's hash only where the worker's receipt has no fault.
  pub record IsBranchAttestation (job_key : Pubkey) (hash digest : Bytes) : Type 0 where
    pub job : JobAccount
    pub verification : Verification
    pub faults : List ReceiptFault
    pub known : IsChecked job_key job verification faults
    pub own_hash : hash ≡ w.env.sha256 verification.verifier_result_bytes
    pub proven : (faults ≡ []) ⊎ (hash ≢ job.result.submitted_result_hash)
    pub own_digest : digest ≡ v.software_digest

  -- What a listed aggregate job that passes its filter reduces to: the outputs of the artifact that
  -- IPFS gave for the job's CID.
  pub record IsReduced (job_key : Pubkey) (job : JobAccount) (outputs : Bytes) : Type 0 where
    pub listed : IsListed job_key job
    pub attestable : matches_attestable_aggregate_job v is_past job ≡ true
    pub fetched_at : List Event
    pub artifact : Bytes
    pub fetched : w.cat_bytes fetched_at job.result.input_cid ≡ ok artifact
    pub journal : AggregateJournal
    pub reduced : aggregate_journal w.env.sha256 w.loads artifact ≡ ok journal
    pub committed : aggregate_committed_outputs journal.reduction ≡ ok outputs

  -- An aggregate job's attestation: the hash is that of its outputs, the digest the one that the job
  -- requires, or the verifier's own where it requires none.
  pub record IsAggregateAttestation (job_key : Pubkey) (hash digest : Bytes) : Type 0 where
    pub job : JobAccount
    pub outputs : Bytes
    pub known : IsReduced job_key job outputs
    pub own_hash : hash ≡ w.env.sha256 outputs
    pub named_digest : Names v job digest

  -- A challenge, and what it rests on.
  pub data Disputes (job_key : Pubkey) : Type 0 where
    branch :
        (job : JobAccount) (verification : Verification) (faults : List ReceiptFault)
        → IsChecked job_key job verification faults
        → (verification.matched ≡ false) ⊎ (faults ≢ [])
        → (faults ≡ []) ⊎ (verification.verifier_hash ≢ job.result.submitted_result_hash)
        → Disputes job_key
    aggregate :
        (job : JobAccount) (outputs : Bytes)
        → IsReduced job_key job outputs
        → w.env.sha256 outputs ≢ job.result.submitted_result_hash
        → Disputes job_key

  abbrev pub IsHonest : Event → Type 0
  IsHonest (counted metric) = Unit
  IsHonest (attested job_key hash cid digest) =
      IsBranchAttestation job_key hash digest ⊎ IsAggregateAttestation job_key hash digest
  IsHonest (challenged job_key account) =
      Disputes job_key
      × (v.challenge_on_mismatch ≡ true)
      × ((log : List Event) × (w.fetch_job log job_key ≡ ok (some account)))
